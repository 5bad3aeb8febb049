-- ===== src/Schedule/Distribution.antt =====
-- pkg/scheduler/lifted/plugins/leafnodedistribution and the types of its policies. The listers and the
-- label selectors of apimachinery are parameters. A status is its code; its message is left out.
pub mod Match
pub mod Lets
pub mod Place
use text.Mathlib.Text.{starts_with}
use kosmos.Base.{
  ℕ, suc, ◌+◌, ◌-◌, ◌≤◌, ◌<◌, String, ◌≡◌, refl, sym, ap, subst, ◌∙◌, ◌≢◌, ◌↔◌, ◌⊎◌, inl, inr, Bool,
  true, false, not, ◌&&◌, ◌||◌, Option, none, some, List, [], ◌∷◌, ◌++◌, map, arith, eq_iff, ◌==◌,
  if◌then◌else◌, leb, nat_beq, Bool-cases, Option-cases, is_some, length, any, filter, find,
  filter_map, flat_map, In, All, In-any, any-In, any-false, In-append, In-append_left,
  In-append_right, In-map, In-filter, filter-In, All-In, All-of_In, find-In, filter_map-In,
  flat_map-In, Slice, items, Outcome, returns, panics, ◌>>=◌, deref, for_each, Returns,
  Returns-bind, Returns-mono, for_each-Returns,
}
use kosmos.Base.Dict
use kosmos.Base.Dict.{Dict}
use kosmos.Api.Kube.{LabelSelector, Taint, Toleration}

abbrev pub kosmos_node_label : String
kosmos_node_label = "kosmos.io/node"

pub record ResourceSelector : Type 0 where
  pub policy_name : String
  pub name : String
  pub name_prefix : String
  pub label_selector : Option LabelSelector

pub data NodeType : Type 0 where
  host_node : NodeType
  leaf_node : NodeType
  mix_node : NodeType
  adv_node : NodeType
  other_node : String → NodeType

pub record AdvancedTerm : Type 0 where
  pub node_name : String
  pub node_selector : Option (Dict String)
  pub tolerations : List Toleration

pub record PolicyTerm : Type 0 where
  pub name : String
  pub node_type : NodeType
  pub advanced_term : AdvancedTerm

pub record DistributionSpec : Type 0 where
  pub resource_selectors : List ResourceSelector
  pub policy_terms : List PolicyTerm

pub record DistributionPolicy : Type 0 where
  pub namespace : String
  pub distribution_spec : DistributionSpec

pub record ClusterDistributionPolicy : Type 0 where
  pub distribution_spec : DistributionSpec

pub record Pod : Type 0 where
  pub name : String
  pub namespace : String
  pub labels : Option (Dict String)
  pub owner_kinds : List String

pub record Node : Type 0 where
  pub name : String
  pub labels : Option (Dict String)
  pub taints : List Taint

pub data Status : Type 0 where
  success : Status
  error : Status
  unschedulable_and_unresolvable : Status

abbrev pub none_scope : ℕ
none_scope = 0

-- The three scopes of one kind of policy.
pub record Scopes : Type 0 where
  pub label_selector : ℕ
  pub name_prefix : ℕ
  pub name : ℕ

abbrev pub cluster_scopes : Scopes
cluster_scopes = record { label_selector = 1; name_prefix = 2; name = 3 }

abbrev pub namespace_scopes : Scopes
namespace_scopes = record { label_selector = 4; name_prefix = 5; name = 6 }

has_value : Option String → String → Bool
has_value none value = false
has_value (some str) value = str == value

unfoldable pub map_contains : Option (Dict String) → Option (Dict String) → Bool
unfolding has_value
map_contains (some m) (some out) = any (λ entry. has_value (Dict.lookup entry.0 out) entry.1) m
map_contains _ _ = false

unfoldable pub is_daemon_set_pod : Pod → Bool
is_daemon_set_pod pod = any (λ kind. kind == "DaemonSet") pod.owner_kinds

-- The named results of the two functions.
pub record Matched : Type 0 where
  pub policy_name : String
  pub priority : ℕ
  pub policies : List PolicyTerm

abbrev pub unmatched : Matched
unmatched = record { policy_name = ""; priority = none_scope; policies = [] }

unfoldable pub consider : ℕ → Bool → ResourceSelector → List PolicyTerm → Matched → Matched
consider scope hit selector terms m =
    if leb m.priority scope && hit
    then record { policy_name = selector.policy_name; priority = scope; policies = terms }
    else m

unfoldable pub hits_labels : Pod → ResourceSelector → Bool
hits_labels pod selector = elim selector.label_selector [
  | none ↦ false
  | some labels ↦ map_contains labels.match_labels pod.labels
]

unfoldable pub hits_prefix : Pod → ResourceSelector → Bool
hits_prefix pod selector =
    not (selector.name_prefix == "") && starts_with pod.name selector.name_prefix

unfoldable pub hits_name : Pod → ResourceSelector → Bool
hits_name pod selector = not (selector.name == "") && pod.name == selector.name

-- One round of the loop.
unfoldable pub match_selector :
    Scopes → Pod → List PolicyTerm → ResourceSelector → Matched → Matched
match_selector scopes pod terms selector m =
    consider scopes.name (hits_name pod selector) selector terms (
      consider scopes.name_prefix (hits_prefix pod selector) selector terms
        (consider scopes.label_selector (hits_labels pod selector) selector terms m))

unfoldable pub match_selectors :
    Scopes → Pod → List PolicyTerm → List ResourceSelector → Matched → Matched
match_selectors scopes pod terms [] m = m
match_selectors scopes pod terms (selector ∷ selectors) m =
    match_selectors scopes pod terms selectors (match_selector scopes pod terms selector m)

-- Each round is skipped where the namespaces differ.
unfoldable pub match_distribution_policy : Pod → DistributionPolicy → Matched
match_distribution_policy pod dp =
    let spec = dp.distribution_spec in
    match_selectors namespace_scopes pod spec.policy_terms
      (if pod.namespace == dp.namespace then spec.resource_selectors else []) unmatched

unfoldable pub match_cluster_distribution_policy : Pod → ClusterDistributionPolicy → Matched
match_cluster_distribution_policy pod cdp =
    let spec = cdp.distribution_spec in
    match_selectors cluster_scopes pod spec.policy_terms spec.resource_selectors unmatched

unfoldable pub is_toleration_taints : List Taint → Toleration → Bool
is_toleration_taints taints toleration =
    any
      (λ (taint : Taint).
        taint.key == toleration.key
        && taint.value == toleration.value
        && taint.effect == toleration.effect)
      taints

-- The loop sets its result `rs`, and the function then returns the constant.
unfoldable pub is_toleration : Node → List Toleration → Bool
is_toleration node tolerations =
    let rs = any (is_toleration_taints node.taints) tolerations in false

-- The last policy of each loop is the one whose match is kept.
unfoldable pub last_match {ℓ} : {P : Type ℓ} → (P → Matched) → List P → Matched → Matched
last_match f [] m = m
last_match f (p ∷ ps) m = last_match f ps (f p)

-- The type of node that the terms ask for, by the first term of that name.
unfoldable pub wanted : Matched → NodeType × AdvancedTerm
wanted m =
    let nothing : AdvancedTerm = record {
      node_name = "";
      node_selector = none;
      tolerations = [];
    } in
    if nat_beq m.priority none_scope
    then (mix_node, nothing)
    else elim (find (λ (policy : PolicyTerm). m.policy_name == policy.name) m.policies) [
      | none ↦ (mix_node, nothing)
      | some policy ↦ (policy.node_type, policy.advanced_term)
    ]

unfoldable pub is_leaf : Node → Bool
is_leaf node = elim node.labels [
  | none ↦ false
  | some labels ↦ is_some (Dict.lookup kosmos_node_label labels)
]

unfoldable pub allow : Bool → Status
allow ok = if ok then success else unschedulable_and_unresolvable

-- What is read of the cluster: the policies of a namespace, those of the cluster, and
-- `labels.Set(selector).AsSelector().Matches(labels.Set(labels))`. An error is the left side.
pub record Handle : Type 0 where
  pub distribution_policies : String → String ⊎ List DistributionPolicy
  pub cluster_distribution_policies : String ⊎ List ClusterDistributionPolicy
  pub matches : Dict String → Option (Dict String) → Bool

module _ (handle : Handle) where
  unfoldable pub is_selected : Node → AdvancedTerm → Bool
  is_selected node term =
      term.node_name == node.name
      || elim term.node_selector as (λ _. Bool) [
        | none ↦ false
        | some selector ↦ handle.matches selector node.labels
      ]
      || is_toleration node term.tolerations

  unfoldable pub place : Node → NodeType × AdvancedTerm → Status
  place node (host_node, term) = allow (not (is_leaf node))
  place node (leaf_node, term) = allow (is_leaf node)
  place node (adv_node, term) = allow (is_selected node term)
  place node (mix_node, term) = success
  place node (other_node s, term) = success

  -- The match of the policies of the namespace, then of those of the cluster if there was none.
  unfoldable pub matched : Pod → List DistributionPolicy → List ClusterDistributionPolicy → Matched
  matched pod dps cdps =
      let m = last_match (match_distribution_policy pod) dps unmatched in
      if nat_beq m.priority none_scope
      then last_match (match_cluster_distribution_policy pod) cdps m
      else m

  unfoldable pub get_distribution :
      String → String ⊎ (List DistributionPolicy × List ClusterDistributionPolicy)
  get_distribution namespace = elim (handle.distribution_policies namespace) [
    | inl err ↦ inl err
    | inr dps ↦ elim handle.cluster_distribution_policies [
      | inl err ↦ inl err
      | inr cdps ↦ inr (dps, cdps)
    ]
  ]

  unfoldable pub filter_node : Pod → Node → Status
  filter_node pod node = elim (get_distribution pod.namespace) [
    | inl err ↦ error
    | inr (dps, cdps) ↦ place node (wanted (matched pod dps cdps))
  ]

  unfoldable pub filter_plugin : Pod → Option Node → Status
  filter_plugin pod node_info =
      if is_daemon_set_pod pod
      then success
      else elim node_info [ none ↦ error | some node ↦ filter_node pod node ]
