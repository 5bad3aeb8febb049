-- ===== src/Tree/LeafResources.antt =====
-- pkg/clustertree/cluster-manager/utils/leaf_resource_manager.go: the leaf clusters that the cluster
-- manager knows, and the nodes that stand for them. Each method that takes the lock is one step.
pub mod Found
pub mod Added
use Prim.Native.String.{slice, len}
use text.Mathlib.Text.{starts_with}
use kosmos.Base.{
  ℕ, zero, suc, ◌+◌, ◌-◌, ◌≤◌, ◌<◌, String, ◌≡◌, refl, sym, ap, subst, ◌∙◌, ◌≢◌, ◌↔◌, ◌⊎◌, inl, inr,
  Bool, true, false, not, ◌&&◌, ◌||◌, Option, none, some, List, [], ◌∷◌, ◌++◌, map, arith, eq_iff,
  ◌==◌, if◌then◌else◌, leb, nat_beq, Bool-cases, Option-cases, is_some, length, any, filter, find,
  filter_map, flat_map, In, All, In-any, any-In, any-false, In-append, In-append_left,
  In-append_right, In-map, In-filter, filter-In, All-In, All-of_In, find-In, filter_map-In,
  flat_map-In, Slice, items, Outcome, returns, panics, ◌>>=◌, deref, for_each, Returns,
  Returns-bind, Returns-mono, for_each-Returns,
}
use kosmos.Base.Dict
use kosmos.Api.Kube.{LabelSelector}
use kosmos.Base.Dict.{Dict}

abbrev pub kosmos_node_prefix : String
kosmos_node_prefix = "kosmos-"

-- A label selector stands in a node selector as a pointer; nothing reads what it points to here.
pub record NodeSelector : Type 0 where
  pub node_name : String
  pub label_selector : Option LabelSelector

pub data LeafMode : Type 0 where
  all_ : LeafMode
  node_ : LeafMode
  party : LeafMode

pub record ClusterNode : Type 0 where
  pub node_name : String
  pub leaf_mode : LeafMode
  pub leaf_node_selector : NodeSelector

-- The name of the cluster, its tree options (a pointer to the leaf models, of which the node selector
-- is read), and the nodes.
pub record LeafResource : Type 0 where
  pub cluster_name : String
  pub cluster_tree_options : Option (Slice NodeSelector)
  pub nodes : List ClusterNode

-- `strings.TrimPrefix`
unfoldable pub trim_prefix : String → String → String
trim_prefix s p = if starts_with s p then slice s (len p) (len s) else s

unfoldable pub trim_name_prefix : String → String
trim_name_prefix name = trim_prefix name kosmos_node_prefix

abbrev pub Manager : Type 0
Manager = Dict LeafResource

unfoldable pub has : List ClusterNode → String → Bool
has nodes target = any (λ v. v.node_name == target) nodes

unfoldable pub get_cluster_node_of : List ClusterNode → String → Option ClusterNode
get_cluster_node_of nodes target = find (λ v. v.node_name == target) nodes

abbrev no_selector : NodeSelector
no_selector = record { node_name = ""; label_selector = none }

-- `leafModels[i]`
unfoldable pub get_elem : List NodeSelector → ℕ → Outcome NodeSelector
get_elem [] i = panics
get_elem (x ∷ xs) zero = returns x
get_elem (x ∷ xs) (suc i) = get_elem xs i

-- The node of one round of the loop, by the model with its index.
unfoldable pub cluster_node : NodeSelector → String → ClusterNode
cluster_node selector name =
    if is_some selector.label_selector
    then record {
      node_name = trim_name_prefix name;
      leaf_mode = party;
      leaf_node_selector = selector;
    }
    else if not (selector.node_name == "")
    then record { node_name = name; leaf_mode = node_; leaf_node_selector = no_selector }
    else record {
      node_name = trim_name_prefix name;
      leaf_mode = all_;
      leaf_node_selector = no_selector;
    }

unfoldable pub cluster_nodes : Slice NodeSelector → ℕ → List String → Outcome (List ClusterNode)
cluster_nodes models i [] = returns []
cluster_nodes none i (name ∷ names) = do
  rest ← cluster_nodes none (suc i) names
  returns (cluster_node no_selector name ∷ rest)
cluster_nodes (some models) i (name ∷ names) = do
  selector ← get_elem models i
  rest ← cluster_nodes (some models) (suc i) names
  returns (cluster_node selector name ∷ rest)

-- `nodes` are the names of the nodes.
unfoldable pub add_leaf_resource : LeafResource → List String → Manager → Outcome Manager
add_leaf_resource lr nodes l = do
  leaf_models ← deref lr.cluster_tree_options
  made ← cluster_nodes leaf_models 0 nodes
  returns (Dict.insert lr.cluster_name (record lr { nodes = made }) l)

unfoldable pub remove_leaf_resource : String → Manager → Manager
remove_leaf_resource cluster_name l = Dict.erase cluster_name l

-- The error is `none`.
unfoldable pub get_leaf_resource : String → Manager → Option LeafResource
get_leaf_resource cluster_name l = Dict.lookup cluster_name l

unfoldable pub get_leaf_resource_by_node_name : String → Manager → Option LeafResource
get_leaf_resource_by_node_name node_name l =
    let name = trim_name_prefix node_name in
    elim (find (λ entry. has entry.1.nodes name) l) [ none ↦ none | some entry ↦ some entry.1 ]

unfoldable pub has_node : String → Manager → Bool
has_node node_name l =
    let name = trim_name_prefix node_name in any (λ entry. has entry.1.nodes name) l

unfoldable pub has_cluster : String → Manager → Bool
has_cluster cluster_name l = any (λ entry. entry.0 == cluster_name) l

unfoldable pub first_cluster_node : String → Manager → Option ClusterNode
first_cluster_node name [] = none
first_cluster_node name (entry ∷ l) = elim (get_cluster_node_of entry.1.nodes name) [
  | none ↦ first_cluster_node name l
  | some n ↦ some n
]

unfoldable pub get_cluster_node : String → Manager → Option ClusterNode
get_cluster_node node_name l = first_cluster_node (trim_name_prefix node_name) l

unfoldable pub list_clusters : Manager → List String
list_clusters l = filter (λ key. not (key == "")) (map (λ entry. entry.0) l)

unfoldable pub list_nodes : Manager → List String
list_nodes l =
    flat_map (λ entry. if entry.0 == "" then [] else map (λ n. n.node_name) entry.1.nodes) l
