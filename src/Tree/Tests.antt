-- ===== src/Tree/Tests.antt =====
-- Runs on concrete inputs: a cluster with two nodes, and a node whose readiness changes.
pub mod Pods
pub mod Services
pub mod Exports
use kosmos.Base.{
  ℕ, suc, ◌+◌, ◌-◌, ◌≤◌, String, ◌≡◌, refl, sym, ap, subst, ◌∙◌, ◌≢◌, ◌↔◌, ◌⊎◌, inl, inr, Bool,
  true, false, not, ◌&&◌, ◌||◌, Option, none, some, List, [], ◌∷◌, ◌++◌, map, arith, eq_iff, ◌==◌,
  if◌then◌else◌, leb, nat_beq, Bool-cases, Option-cases, is_some, length, any, filter, find,
  filter_map, flat_map, In, All, In-any, any-In, any-false, In-append, In-append_left,
  In-append_right, In-map, In-filter, filter-In, All-In, All-of_In, find-In, filter_map-In,
  flat_map-In, Slice, items, Outcome, returns, panics, ◌>>=◌, deref, for_each, Returns,
  Returns-bind, Returns-mono, for_each-Returns,
}
use kosmos.Base.Dict
use kosmos.Tree.LeafResources.{
  all_, NodeSelector, LeafResource, Manager, trim_name_prefix, trim_prefix, has_node, list_nodes,
  add_leaf_resource, get_leaf_resource_by_node_name, get_cluster_node,
}
use kosmos.Tree.LeafResources.Found.{lookups_agree, list_nodes-has_node}
use kosmos.Tree.LeafResources.Added.{
  Hidden, AddedTo, Fits, AllFit, IsFindable, add_leaf_resource-AddedTo, add_leaf_resource-Hidden,
}
use kosmos.Tree.Conditions.{
  NodeCondition, ClusterData, ClusterConditionStore, Call, get, find_status_condition, threshold_of,
}
use kosmos.Tree.Conditions.Debounced.{Reads, status_of, limit, last_report}
use kosmos.Tree.Conditions.Lasting.{last_report-settled}

abbrev cluster : Slice NodeSelector → LeafResource
cluster models = record { cluster_name = "c"; cluster_tree_options = some models; nodes = [] }

abbrev names : List String
names = "kosmos-a" ∷ "b" ∷ []

abbrev one_model : NodeSelector
one_model = record { node_name = "kosmos-a"; label_selector = none }

fits : AllFit none names
unfolding AllFit
fits = tt

add_leaf_resource-AddedTo_example :
    Returns (AddedTo (cluster none) names []) (add_leaf_resource (cluster none) names [])
add_leaf_resource-AddedTo_example = add_leaf_resource-AddedTo (cluster none) none names [] refl fits

trimmed : trim_name_prefix "kosmos-a" ≢ "kosmos-a"
unfolding trim_name_prefix trim_prefix
trimmed q = let h : false ≡ true = (eq_iff "a" "kosmos-a").1 q in cc

free : has_node "kosmos-a" [] ≡ false
unfolding has_node
free = refl

add_leaf_resource-Hidden_example :
    Returns
      (Hidden "kosmos-a")
      (add_leaf_resource (cluster (some (one_model ∷ []))) ("kosmos-a" ∷ []) [])
add_leaf_resource-Hidden_example =
    add_leaf_resource-Hidden (cluster (some (one_model ∷ []))) one_model "kosmos-a" [] refl refl
      (λ q. let h : false ≡ true = (eq_iff "kosmos-a" "").1 q in cc) trimmed free

abbrev manager : Manager
manager =
    (
      "c",
      record {
        cluster_name = "c";
        cluster_tree_options = none;
        nodes =
            record {
              node_name = "a";
              leaf_mode = all_;
              leaf_node_selector = record { node_name = ""; label_selector = none };
            }
            ∷ [];
      },
    )
    ∷ []

named : (r : LeafResource) → In ("", r) manager → ⊥
named r (inl e) = apart (ap (λ (x : String × LeafResource). x.0) e)
  where
    apart : ◌≢◌ {A = String} "" "c"
    apart q = let h : false ≡ true = (eq_iff "" "c").1 q in cc
named r (inr j) = j

lookups_agree_example :
    (is_some (get_leaf_resource_by_node_name "kosmos-a" manager) ≡ has_node "kosmos-a" manager)
    × (is_some (get_cluster_node "kosmos-a" manager) ≡ has_node "kosmos-a" manager)
lookups_agree_example = lookups_agree "kosmos-a" manager

list_nodes-has_node_example :
    (has_node "kosmos-a" manager ≡ true) ↔ In (trim_name_prefix "kosmos-a") (list_nodes manager)
list_nodes-has_node_example = list_nodes-has_node "kosmos-a" manager named

abbrev ready : String → List NodeCondition
ready status = record { type = "Ready"; status = status } ∷ []

-- A call at a time, for a node that is ready, which observes that the cluster is not.
abbrev call : ℕ → Call
call now = record {
  now = now;
  cluster = "c";
  current = ready "True";
  observed = ready "False";
  failure_threshold = 30;
  success_threshold = 10;
}

abbrev was_ready : ClusterData
was_ready = record { ready_condition = "True"; threshold_start_time = 0 }

abbrev store : ClusterConditionStore
store = record {
  cluster_data_map = ("c", was_ready) ∷ [];
  success_threshold = 10;
  failure_threshold = 30;
}

stored : get "c" store ≡ some was_ready
unfolding get Dict.lookup
stored = refl

reads : (now : ℕ) → Reads "c" "False" "True" (call now)
unfolding status_of find_status_condition
reads now = record { named = refl; observes = refl; currents = refl }

all_read : (k : Call) → In k (call 110 ∷ []) → (current : String) × Reads "c" "False" current k
all_read k (inl e) = ("True", subst (Reads "c" "False" "True") (sym e) (reads 110))
all_read k (inr j) = absurd j

passed : 100 + limit (call 130) "False" ≤ 130
unfolding limit
passed = omega arith

last_report-settled_example :
    Returns
      (λ reported. reported ≡ ready "False")
      (last_report (call 100) (call 110 ∷ []) (call 130) store)
last_report-settled_example =
    last_report-settled "c" "False" "True" (call 100) (call 110 ∷ []) (call 130) store was_ready
      stored (omega arith) ("True", reads 100) all_read (reads 130) passed
