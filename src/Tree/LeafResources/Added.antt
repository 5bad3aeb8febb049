-- ===== src/Tree/LeafResources/Added.antt =====
-- What the manager holds after a cluster is added or removed, and which of its nodes are then found.
use kosmos.Base.{
  deref-some, ℕ, zero, suc, String, ◌≡◌, refl, sym, ap, subst, ◌∙◌, ◌≢◌, ◌⊎◌, inl, inr, true, false,
  none, some, List, [], ◌∷◌, arith, eq_iff, ◌==◌, if◌then◌else◌, Bool-cases, is_some, Bool, Option,
  any, In, In-any, Slice, returns, deref, Returns, Returns-bind,
}
use kosmos.Base.Dict
use kosmos.Tree.LeafResources.Found.{lookups_agree}
use kosmos.Tree.LeafResources.{
  get_leaf_resource_by_node_name, get_cluster_node, NodeSelector, ClusterNode, LeafResource,
  Manager, trim_name_prefix, has, get_elem, cluster_node, cluster_nodes, add_leaf_resource,
  remove_leaf_resource, get_leaf_resource, has_node, has_cluster, no_selector,
}

-- A node is stored under the name that it is looked up by: with a label selector or no node name in
-- its model the prefix is taken off, else it must have none.
pub IsFindable : NodeSelector → String → Type 0
IsFindable selector name =
    (is_some selector.label_selector ≡ true)
    ⊎ (selector.node_name ≡ "")
    ⊎ (trim_name_prefix name ≡ name)

-- There is a model for each node, by which it can be found.
unfoldable pub Fits : List NodeSelector → List String → Type 0
Fits models [] = Unit
Fits [] (name ∷ names) = ⊥
Fits (x ∷ models) (name ∷ names) = IsFindable x name × Fits models names

unfoldable pub AllFit : Slice NodeSelector → List String → Type 0
AllFit none names = Unit
AllFit (some models) names = Fits models names

drop : ℕ → List NodeSelector → List NodeSelector
drop zero xs = xs
drop (suc i) [] = []
drop (suc i) (x ∷ xs) = drop i xs

get_elem-drop :
    (i : ℕ) (xs : List NodeSelector) (x : NodeSelector) (rest : List NodeSelector)
    → drop i xs ≡ x ∷ rest
    → (get_elem xs i ≡ returns x) × (drop (suc i) xs ≡ rest)
unfolding drop get_elem
get_elem-drop zero [] x rest h = cc
get_elem-drop zero (y ∷ xs) x rest h = ground (arith, h)
get_elem-drop (suc i) [] x rest h = cc
get_elem-drop (suc i) (y ∷ xs) x rest h = get_elem-drop i xs x rest h

cluster_node-name :
    (selector : NodeSelector) (name : String)
    → IsFindable selector name
    → (cluster_node selector name).node_name ≡ trim_name_prefix name
unfolding cluster_node IsFindable
cluster_node-name selector name (inl h) = rw (h, if◌then◌else◌) refl
cluster_node-name selector name (inr (inl h)) = ground (arith, eq_iff selector.node_name "")
cluster_node-name selector name (inr (inr h)) =
    elim (Bool-cases (is_some selector.label_selector)) [
      | inl e ↦ rw (e, if◌then◌else◌) refl
      | inr e ↦ elim (Bool-cases (selector.node_name == "")) [
        | inl q ↦ rw (e, q, if◌then◌else◌) refl
        | inr q ↦ rw (e, q, if◌then◌else◌) (sym h)
      ]
    ]

-- Every node is among those made, by its name without the prefix.
abbrev Named : List String → List ClusterNode → Type 0
Named names made = (n : String) → In n names → has made (trim_name_prefix n) ≡ true

named :
    (selector : NodeSelector) (name : String) (names : List String) (rest : List ClusterNode)
    → IsFindable selector name
    → Named names rest
    → Named (name ∷ names) (cluster_node selector name ∷ rest)
unfolding has
named selector name names rest f h n (inl e) =
    let stored = cluster_node-name selector name f in
    let same = ap trim_name_prefix e in
    ground (arith, eq_iff (cluster_node selector name).node_name (trim_name_prefix n))
named selector name names rest f h n (inr m) = let k = h n m in ground (arith, k)

cluster_nodes-Named :
    (models : List NodeSelector) (i : ℕ) (names : List String)
    → Fits (drop i models) names
    → Returns (Named names) (cluster_nodes (some models) i names)
unfolding cluster_nodes Fits
cluster_nodes-Named models i [] h = λ n m. absurd m
cluster_nodes-Named models i (name ∷ names) h =
    by_model (drop i models) refl h (cluster_nodes-Named models (suc i) names)
  where
    by_model :
        (rest : List NodeSelector)
        → drop i models ≡ rest
        → Fits rest (name ∷ names)
        → (Fits (drop (suc i) models) names
            → Returns (Named names) (cluster_nodes (some models) (suc i) names))
        → Returns (Named (name ∷ names)) (cluster_nodes (some models) i (name ∷ names))
    by_model [] e f further = absurd f
    by_model (x ∷ rest) e (f, fs) further =
        let (got, next) = get_elem-drop i models x rest e in
        rw got (
          Returns-bind (Named names) (Named (name ∷ names))
            (cluster_nodes (some models) (suc i) names) _
            (further (subst (λ r. Fits r names) (sym next) fs))
            (λ made h. named x name names made f h))

cluster_nodes-all :
    (i : ℕ) (names : List String) → Returns (Named names) (cluster_nodes none i names)
unfolding cluster_nodes IsFindable
cluster_nodes-all i [] = λ n m. absurd m
cluster_nodes-all i (name ∷ names) =
    Returns-bind (Named names) (Named (name ∷ names)) (cluster_nodes none (suc i) names) _
      (cluster_nodes-all (suc i) names)
      (λ made h. named no_selector name names made (inr (inl refl)) h)

cluster_nodes-fit :
    (models : Slice NodeSelector) (names : List String)
    → AllFit models names
    → Returns (Named names) (cluster_nodes models 0 names)
unfolding AllFit drop
cluster_nodes-fit none names h = cluster_nodes-all 0 names
cluster_nodes-fit (some models) names h = cluster_nodes-Named models 0 names h

pub AddedTo : LeafResource → List String → Manager → Manager → Type 0
AddedTo lr names before after =
    ((n : String) → In n names → has_node n after ≡ true)
    × ((k : String) → k ≢ lr.cluster_name → get_leaf_resource k after ≡ get_leaf_resource k before)
    × (is_some (get_leaf_resource lr.cluster_name after) ≡ true)
    × (has_cluster lr.cluster_name after ≡ true)
    × (get_leaf_resource lr.cluster_name (remove_leaf_resource lr.cluster_name after) ≡ none)

inserted :
    (lr : LeafResource) (names : List String) (made : List ClusterNode) (l : Manager)
    → Named names made
    → AddedTo lr names l (Dict.insert lr.cluster_name (record lr { nodes = made }) l)
unfolding AddedTo has_node get_leaf_resource remove_leaf_resource has_cluster
inserted lr names made l h =
    let stored : LeafResource = record lr { nodes = made } in
    let there = Dict.insert-In lr.cluster_name stored l in
    (
      λ n m.
          In-any (λ entry. has entry.1.nodes (trim_name_prefix n)) (lr.cluster_name, stored) _ there
            (h n m),
      λ k differs.
          let seen = Dict.lookup-insert lr.cluster_name k stored l in
          ground (arith, seen, differs, eq_iff lr.cluster_name k),
      (let seen = Dict.lookup-insert lr.cluster_name lr.cluster_name stored l in
          ground (arith, seen, eq_iff lr.cluster_name lr.cluster_name)),
      In-any (λ entry. entry.0 == lr.cluster_name) (lr.cluster_name, stored) _ there
          (ground (arith, eq_iff lr.cluster_name lr.cluster_name)),
      (let seen =
            Dict.lookup-erase lr.cluster_name lr.cluster_name
              (Dict.insert lr.cluster_name stored l) in
          ground (arith, seen, eq_iff lr.cluster_name lr.cluster_name)),
    )

-- Where the cluster has tree options, and a model by which each node can be found, or no models, the
-- addition does not panic. Then every node is found by its name, the cluster is known, the other
-- clusters are as they were, and the removal of the cluster takes it out.
pub add_leaf_resource-AddedTo :
    (lr : LeafResource) (models : Slice NodeSelector) (names : List String) (l : Manager)
    → lr.cluster_tree_options ≡ some models
    → AllFit models names
    → Returns (AddedTo lr names l) (add_leaf_resource lr names l)
unfolding add_leaf_resource
add_leaf_resource-AddedTo lr models names l e fit =
    Returns-bind (λ m. m ≡ models) (AddedTo lr names l) (deref lr.cluster_tree_options) _
      (deref-some lr.cluster_tree_options models e)
      (λ m same.
        Returns-bind (Named names) (AddedTo lr names l) (cluster_nodes m 0 names) _
          (cluster_nodes-fit m names (subst (λ k. AllFit k names) (sym same) fit))
          (λ made h. inserted lr names made l h))

any-insert :
    {V : Type 0} (p : String × V → Bool) (k : String) (v : V) (m : Dict.Dict V)
    → p (k, v) ≡ false
    → any p m ≡ false
    → any p (Dict.insert k v m) ≡ false
unfolding Dict.insert
any-insert p k v [] new old = ground (arith, new)
any-insert p k v (entry ∷ m) new old =
    let rest : any p m ≡ false → any p (Dict.insert k v m) ≡ false = any-insert p k v m new in
    ground (arith, new, old, rest)

is_some-none : {A : Type 0} (o : Option A) → is_some o ≡ false → o ≡ none
is_some-none none h = refl
is_some-none (some a) h = cc

-- None of the three lookups finds the name.
abbrev pub Hidden : String → Manager → Type 0
Hidden name l =
    (has_node name l ≡ false)
    × (get_leaf_resource_by_node_name name l ≡ none)
    × (get_cluster_node name l ≡ none)

all_lookups : (name : String) (l : Manager) → has_node name l ≡ false → Hidden name l
all_lookups name l h =
    let (resource, node) = lookups_agree name l in
    (h, is_some-none _ (resource ∙ h), is_some-none _ (node ∙ h))

unfound :
    (lr : LeafResource) (made : ClusterNode) (name : String) (l : Manager)
    → has (made ∷ []) (trim_name_prefix name) ≡ false
    → has_node name l ≡ false
    → has_node name (Dict.insert lr.cluster_name (record lr { nodes = made ∷ [] }) l) ≡ false
unfolding has_node
unfound lr made name l missed free =
    any-insert (λ entry. has entry.1.nodes (trim_name_prefix name)) lr.cluster_name
      (record lr { nodes = made ∷ [] }) l missed free

-- Where no cluster has a node that the name finds, and a cluster of one node of that name is added, whose
-- model gives a node name and no label selector, and the name has the prefix, none of the three lookups finds
-- the node by its name.
pub add_leaf_resource-Hidden :
    (lr : LeafResource) (x : NodeSelector) (name : String) (l : Manager)
    → lr.cluster_tree_options ≡ some (some (x ∷ []))
    → x.label_selector ≡ none
    → x.node_name ≢ ""
    → trim_name_prefix name ≢ name
    → has_node name l ≡ false
    → Returns (Hidden name) (add_leaf_resource lr (name ∷ []) l)
unfolding add_leaf_resource cluster_nodes get_elem cluster_node has
add_leaf_resource-Hidden lr x name l e no_label node prefixed free =
    Returns-bind (λ m. m ≡ some (x ∷ [])) (Hidden name) (deref lr.cluster_tree_options) _
      (deref-some lr.cluster_tree_options (some (x ∷ [])) e)
      (λ m same.
        let other : name ≢ trim_name_prefix name = λ q. prefixed (sym q) in
        let made = cluster_node x name in
        let missed : has (made ∷ []) (trim_name_prefix name) ≡ false =
          ground (arith, no_label, eq_iff x.node_name "", eq_iff name (trim_name_prefix name)) in
        rw same (all_lookups name _ (unfound lr made name l missed free)))
