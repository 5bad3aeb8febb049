-- ===== src/Tree/LeafResources/Found.antt =====
-- Which nodes the manager finds: what the three ways to look a node up and the list of the nodes say
-- of each other, and what an added cluster makes found.
use kosmos.Base.{
  In-flat_map, String, ◌≡◌, refl, subst, ◌∙◌, ◌≢◌, ◌↔◌, inl, inr, Bool, true, Option, none, some,
  List, [], ◌∷◌, map, arith, eq_iff, ◌==◌, if◌then◌else◌, Bool-cases, is_some, any, find, In,
  In-any, any-In, In-map, flat_map-In,
}
use kosmos.Tree.LeafResources.{
  ClusterNode, LeafResource, Manager, trim_name_prefix, has, get_cluster_node_of,
  get_leaf_resource_by_node_name, has_node, first_cluster_node, get_cluster_node, list_nodes,
}

find-any : {A : Type 0} (p : A → Bool) (xs : List A) → is_some (find p xs) ≡ any p xs
find-any p [] = refl
find-any p (x ∷ xs) = let rest = find-any p xs in ground (arith, rest)

is_some-entry :
    {A B : Type 0} (o : Option (A × B))
    → is_some (elim o as (λ _. Option B) [ none ↦ none | some entry ↦ some entry.1 ]) ≡ is_some o
is_some-entry none = refl
is_some-entry (some entry) = refl

first_cluster_node-any :
    (name : String) (l : Manager)
    → is_some (first_cluster_node name l) ≡ any (λ entry. has entry.1.nodes name) l
unfolding first_cluster_node get_cluster_node_of has
first_cluster_node-any name [] = refl
first_cluster_node-any name (entry ∷ l) =
    let here = find-any (λ v. v.node_name == name) entry.1.nodes in
    let rest = first_cluster_node-any name l in ground (arith, here, rest)

-- The three ways to look a node up agree: one finds a node just where the others do.
pub lookups_agree :
    (name : String) (l : Manager)
    → (is_some (get_leaf_resource_by_node_name name l) ≡ has_node name l)
      × (is_some (get_cluster_node name l) ≡ has_node name l)
unfolding get_leaf_resource_by_node_name has_node get_cluster_node
lookups_agree name l = (
  is_some-entry (find (λ entry. has entry.1.nodes (trim_name_prefix name)) l)
      ∙ find-any (λ entry. has entry.1.nodes (trim_name_prefix name)) l,
  first_cluster_node-any (trim_name_prefix name) l,
)

has-In :
    (nodes : List ClusterNode) (name : String)
    → has nodes name ≡ true
    → In name (map (λ n. n.node_name) nodes)
unfolding has
has-In nodes name h =
    let (n, m, e) = any-In (λ v. v.node_name == name) nodes h in
    subst (λ k. In k (map (λ n. n.node_name) nodes)) ((eq_iff n.node_name name).0 e)
      (In-map (λ n. n.node_name) n nodes m)

In-has :
    (nodes : List ClusterNode) (name : String)
    → In name (map (λ n. n.node_name) nodes)
    → has nodes name ≡ true
unfolding has
In-has [] name m = absurd m
In-has (n ∷ nodes) name (inl e) = ground (arith, eq_iff n.node_name name)
In-has (n ∷ nodes) name (inr m) = let rest = In-has nodes name m in ground (arith, rest)

-- The names that one entry gives to the list of the nodes.
abbrev names_of : String × LeafResource → List String
names_of entry = if entry.0 == "" then [] else map (λ n. n.node_name) entry.1.nodes

names_of-In :
    (entry : String × LeafResource) (name : String)
    → In name (names_of entry)
    → has entry.1.nodes name ≡ true
names_of-In entry name m = elim (Bool-cases (entry.0 == "")) [
  | inl e ↦ absurd (rw (e, if◌then◌else◌) at m)
  | inr e ↦ In-has entry.1.nodes name (rw (e, if◌then◌else◌) at m)
]

In-names_of :
    (entry : String × LeafResource) (name : String)
    → entry.0 ≢ ""
    → has entry.1.nodes name ≡ true
    → In name (names_of entry)
In-names_of entry name named h = elim (Bool-cases (entry.0 == "")) [
  | inl e ↦ absurd (named ((eq_iff entry.0 "").0 e))
  | inr e ↦ rw (e, if◌then◌else◌) (has-In entry.1.nodes name h)
]

-- Where no cluster has the empty name, a node is found by a name just where the list of the nodes has
-- that name without its prefix.
pub list_nodes-has_node :
    (name : String) (l : Manager)
    → ((r : LeafResource) → In ("", r) l → ⊥)
    → (has_node name l ≡ true) ↔ In (trim_name_prefix name) (list_nodes l)
unfolding has_node list_nodes
list_nodes-has_node name l named = (
  λ h.
      let (entry, m, e) = any-In (λ entry. has entry.1.nodes (trim_name_prefix name)) l h in
      let there : entry.0 ≢ "" = λ q. named entry.1 (subst (λ k. In (k, entry.1) l) q m) in
      In-flat_map names_of entry (trim_name_prefix name) l m
        (In-names_of entry (trim_name_prefix name) there e),
  λ m.
      let (entry, there, k) = flat_map-In names_of (trim_name_prefix name) l m in
      In-any (λ entry. has entry.1.nodes (trim_name_prefix name)) entry l there
        (names_of-In entry (trim_name_prefix name) k),
)
