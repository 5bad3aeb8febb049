-- ===== src/Tree/Pods.antt =====
-- pkg/utils/podutils: the pod of a leaf cluster that is made of one of the host cluster. A zero status is
-- `none`. A map is read through nil as an empty one, and a write through nil panics.
pub mod Labels
pub mod Fit
pub mod Recover
pub mod Tripped
pub mod Convert
pub mod Updated
pub mod Fitted
use kosmos.Base.{
  ℕ, suc, ◌+◌, ◌-◌, ◌≤◌, ◌<◌, String, ◌≡◌, refl, sym, ap, subst, ◌∙◌, ◌≢◌, ◌↔◌, ◌⊎◌, inl, inr, Bool,
  true, false, not, ◌&&◌, ◌||◌, Option, none, some, List, [], ◌∷◌, ◌++◌, map, arith, eq_iff, ◌==◌,
  if◌then◌else◌, leb, nat_beq, Bool-cases, Option-cases, is_some, length, any, filter, find,
  filter_map, flat_map, In, All, In-any, any-In, any-false, In-append, In-append_left,
  In-append_right, In-map, In-filter, filter-In, All-In, All-of_In, find-In, filter_map-In,
  flat_map-In, Slice, items, Outcome, returns, panics, ◌>>=◌, deref, for_each, Returns,
  Returns-bind, Returns-mono, for_each-Returns,
}
use kosmos.Base.Dict
use kosmos.Base.Dict.{Dict}
use kosmos.Api.Kube.{Toleration, Affinity, Requirement}

abbrev pub kosmos_pod_label : String
kosmos_pod_label = "kosmos-io/pod"

abbrev pub kosmos_tripped_labels : String
kosmos_tripped_labels = "kosmos-io/tripped"

abbrev pub kosmos_selector_key : String
kosmos_selector_key = "kosmos.io/cluster-selector"

abbrev pub kosmos_convert_labels : String
kosmos_convert_labels = "kosmos-io/convert-policy"

abbrev pub kosmos_scheduler_name : String
kosmos_scheduler_name = "kosmos-scheduler"

abbrev pub root_ca_config_map_name : String
root_ca_config_map_name = "kube-root-ca.crt"

abbrev pub master_root_ca_name : String
master_root_ca_name = "master-root-ca.crt"

-- `utils.ClustersNodeSelection`
pub record ClustersNodeSelection (O : Type 0) : Type 0 where
  pub node_selector : Option (Dict String)
  pub affinity : Option (Affinity O)
  pub tolerations : Slice Toleration
  pub topology_spread_constraints : Slice O

-- encoding/json; an error is `none`.
pub record Json (O : Type 0) : Type 0 where
  pub marshal_labels : Dict String → Option String
  pub unmarshal_labels : String → Option (Dict String)
  pub unmarshal_selection : String → Option (ClustersNodeSelection O)

-- `m[k]` for a map of texts: the zero value for a missing key and for nil.
unfoldable pub text_at : String → Dict String → String
text_at k m = elim (Dict.lookup k m) [ none ↦ "" | some v ↦ v ]

unfoldable pub entries : Option (Dict String) → Dict String
entries none = []
entries (some m) = m

-- One round of the loop: the labels and the tripped ones.
unfoldable pub trip : String → Dict String × Dict String → Dict String × Dict String
trip key (labels, tripped) =
    if text_at key labels == ""
    then (labels, tripped)
    else (Dict.erase key labels, Dict.insert key (text_at key labels) tripped)

unfoldable pub trip_all : List String → Dict String × Dict String → Dict String × Dict String
trip_all [] r = r
trip_all (key ∷ keys) r = trip_all keys (trip key r)

-- The labels that are left, and the result.
unfoldable pub fit_labels : Dict String → Slice String → Dict String × Option (Dict String)
fit_labels labels none = (labels, none)
fit_labels labels (some ignore_labels) =
    let r = trip_all ignore_labels (labels, []) in (r.0, some r.1)

unfoldable pub put_all : Dict String → Dict String → Dict String
put_all [] labels = labels
put_all (entry ∷ tripped) labels = put_all tripped (Dict.insert entry.0 entry.1 labels)

module _ {O : Type 0} (json : Json O) where
  unfoldable pub recover_labels : Dict String → Option (Dict String) → Dict String
  recover_labels labels annotations =
      let tripped_labels = text_at kosmos_tripped_labels (entries annotations) in
      if tripped_labels == "" then labels else elim (json.unmarshal_labels tripped_labels) [
        | none ↦ labels
        | some tripped ↦ put_all tripped labels
      ]
