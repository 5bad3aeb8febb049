-- ===== src/Tree/Conditions.antt =====
-- pkg/clustertree/cluster-manager/utils/leaf_cluster_condition_cache.go: a change of a leaf cluster's
-- readiness is reported only after it has lasted. A time is its distance from the zero time, a duration
-- is not negative, and the time of a call is an argument.
pub mod Debounced
pub mod Lasting
use kosmos.Base.{
  ℕ, suc, ◌+◌, ◌-◌, ◌≤◌, ◌<◌, String, ◌≡◌, refl, sym, ap, subst, ◌∙◌, ◌≢◌, ◌↔◌, ◌⊎◌, inl, inr, Bool,
  true, false, not, ◌&&◌, ◌||◌, Option, none, some, List, [], ◌∷◌, ◌++◌, map, arith, eq_iff, ◌==◌,
  if◌then◌else◌, leb, nat_beq, Bool-cases, Option-cases, is_some, length, any, filter, find,
  filter_map, flat_map, In, All, In-any, any-In, any-false, In-append, In-append_left,
  In-append_right, In-map, In-filter, filter-In, All-In, All-of_In, find-In, filter_map-In,
  flat_map-In, Slice, items, Outcome, returns, panics, ◌>>=◌, deref, for_each, Returns,
  Returns-bind, Returns-mono, for_each-Returns,
}
use kosmos.Base.Dict
use kosmos.Base.Dict.{Dict}

abbrev pub condition_true : String
condition_true = "True"

pub record NodeCondition : Type 0 where
  pub type : String
  pub status : String

pub record ClusterData : Type 0 where
  pub ready_condition : String
  pub threshold_start_time : ℕ

pub record ClusterConditionStore : Type 0 where
  pub cluster_data_map : Dict ClusterData
  pub success_threshold : ℕ
  pub failure_threshold : ℕ

unfoldable pub find_status_condition : List NodeCondition → Option NodeCondition
find_status_condition conditions = find (λ c. c.type == "Ready") conditions

unfoldable pub get : String → ClusterConditionStore → Option ClusterData
get cluster c = Dict.lookup cluster c.cluster_data_map

unfoldable pub update : String → ClusterData → ClusterConditionStore → ClusterConditionStore
update cluster entry c = record c {
  cluster_data_map = Dict.insert cluster entry c.cluster_data_map;
}

-- One call: its time, the name of the cluster, the conditions of the node in the root cluster, those
-- that were observed, and the two thresholds.
pub record Call : Type 0 where
  pub now : ℕ
  pub cluster : String
  pub current : List NodeCondition
  pub observed : List NodeCondition
  pub failure_threshold : ℕ
  pub success_threshold : ℕ

-- The data of the cluster after the call: new where the status changed.
unfoldable pub renewed : ClusterData → String → ℕ → ClusterData
renewed saved status now =
    if saved.ready_condition == status
    then saved
    else record { ready_condition = status; threshold_start_time = now }

unfoldable pub threshold_of : ClusterConditionStore → String → ℕ
threshold_of c status =
    if status == condition_true then c.success_threshold else c.failure_threshold

-- Whether exactly one of the two statuses is true.
unfoldable pub flips : String → String → Bool
flips observed current =
    (observed == condition_true && not (current == condition_true))
    || (not (observed == condition_true) && current == condition_true)

-- The old status is retained until the threshold is exceeded.
unfoldable pub report :
    Call → ClusterConditionStore → ClusterData → String → String → List NodeCondition
report call c entry observed current =
    let deadline = entry.threshold_start_time + threshold_of c observed in
    if flips observed current && not (leb deadline call.now) then call.current else call.observed

-- The call for a cluster that has saved data.
unfoldable pub adjust_known :
    Call
    → ClusterConditionStore
    → String
    → ClusterData
    → Outcome (List NodeCondition × ClusterConditionStore)
adjust_known call c observed saved =
    let entry = renewed saved observed call.now in
    let kept = if saved.ready_condition == observed then c else update call.cluster entry c in
    do
      current ← deref (find_status_condition call.current)
      returns (report call kept entry observed current.status, kept)

unfoldable pub threshold_adjusted_ready_condition :
    Call → ClusterConditionStore → Outcome (List NodeCondition × ClusterConditionStore)
threshold_adjusted_ready_condition call c =
    let set = record c {
      success_threshold = call.success_threshold;
      failure_threshold = call.failure_threshold;
    } in
    elim (find_status_condition call.observed) [
      | none ↦ returns (call.observed, set)
      | some observed ↦ elim (get call.cluster set) [
        | none ↦ returns (
          call.observed,
          update call.cluster
              (record { ready_condition = observed.status; threshold_start_time = 0 }) set,
        )
        | some saved ↦ adjust_known call set observed.status saved
      ]
    ]
