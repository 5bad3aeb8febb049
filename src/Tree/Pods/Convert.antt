-- ===== src/Tree/Pods/Convert.antt =====
-- pkg/utils/podutils/pod_convert.go and podconvertpolicy_types.go: a policy changes what a pod of a leaf
-- cluster asks of the scheduler.
pub mod Again
use kosmos.Base.{
  ℕ, suc, ◌+◌, ◌-◌, ◌≤◌, ◌<◌, String, ◌≡◌, refl, sym, ap, subst, ◌∙◌, ◌≢◌, ◌↔◌, ◌⊎◌, inl, inr, Bool,
  true, false, not, ◌&&◌, ◌||◌, Option, none, some, List, [], ◌∷◌, ◌++◌, map, arith, eq_iff, ◌==◌,
  if◌then◌else◌, leb, nat_beq, Bool-cases, Option-cases, is_some, length, any, filter, find,
  filter_map, flat_map, In, All, In-any, any-In, any-false, In-append, In-append_left,
  In-append_right, In-map, In-filter, filter-In, All-In, All-of_In, find-In, filter_map-In,
  flat_map-In, Slice, items, Outcome, returns, panics, ◌>>=◌, deref, for_each, Returns,
  Returns-bind, Returns-mono, for_each-Returns,
}
use kosmos.Base.Dict
use kosmos.Base.Dict.{Dict}
use kosmos.Api.Kube.{Pod, PodSpec, Affinity, Toleration}
use kosmos.Tree.Pods.{kosmos_convert_labels}

pub data ConvertType : Type 0 where
  add : ConvertType
  remove : ConvertType
  replace : ConvertType
  other : ConvertType

-- A converter of one field: its type and the value that it gives.
pub record Converter (V : Type 0) : Type 0 where
  pub convert_type : ConvertType
  pub value : V

pub record Converters (O : Type 0) : Type 0 where
  pub scheduler_name_converter : Option (Converter String)
  pub node_name_converter : Option (Converter String)
  pub node_selector_converter : Option (Converter (Option (Dict String)))
  pub toleration_converter : Option (Converter (Slice Toleration))
  pub affinity_converter : Option (Converter (Option (Affinity O)))
  pub topology_spread_constraints_converter : Option (Converter (Slice O))
  pub host_aliases_converter : Option (Converter (Slice O))

-- A policy of the cluster or of a namespace.
pub record Policy (O : Type 0) : Type 0 where
  pub name : String
  pub converters : Option (Converters O)

-- The value of a field after its converter: the test says that the field is to be added, and `zero` is
-- its zero value.
unfoldable pub convert_as : {V : Type 0} → ConvertType → V → Bool → V → V → V
convert_as add zero absent value v = if absent then value else v
convert_as remove zero absent value v = zero
convert_as replace zero absent value v = value
convert_as other zero absent value v = v

unfoldable pub convert : {V : Type 0} → V → Bool → Option (Converter V) → V → V
convert zero absent none v = v
convert zero absent (some converter) v =
    convert_as converter.convert_type zero absent converter.value v

module _ {O : Type 0} where
  unfoldable pub convert_scheduler_name : Option (Converter String) → PodSpec O → PodSpec O
  convert_scheduler_name c p = record p {
    scheduler_name = convert "" (p.scheduler_name == "") c p.scheduler_name;
  }

  unfoldable pub convert_node_name : Option (Converter String) → PodSpec O → PodSpec O
  convert_node_name c p = record p { node_name = convert "" (p.node_name == "") c p.node_name }

  unfoldable pub convert_node_selector :
      Option (Converter (Option (Dict String))) → PodSpec O → PodSpec O
  convert_node_selector c p = record p {
    node_selector = convert none (not (is_some p.node_selector)) c p.node_selector;
  }

  unfoldable pub convert_toleration : Option (Converter (Slice Toleration)) → PodSpec O → PodSpec O
  convert_toleration c p = record p {
    tolerations = convert none (not (is_some p.tolerations)) c p.tolerations;
  }

  unfoldable pub convert_affinity : Option (Converter (Option (Affinity O))) → PodSpec O → PodSpec O
  convert_affinity c p = record p {
    affinity = convert none (not (is_some p.affinity)) c p.affinity;
  }

  -- The test of this one reads the affinity.
  unfoldable pub convert_topology_spread_constraints :
      Option (Converter (Slice O)) → PodSpec O → PodSpec O
  convert_topology_spread_constraints c p = record p {
    topology_spread_constraints =
        convert none (not (is_some p.affinity)) c p.topology_spread_constraints;
  }

  unfoldable pub convert_host_aliases : Option (Converter (Slice O)) → PodSpec O → PodSpec O
  convert_host_aliases c p = record p {
    host_aliases = convert none (not (is_some p.host_aliases)) c p.host_aliases;
  }

  unfoldable pub convert_spec : Converters O → PodSpec O → PodSpec O
  convert_spec c p = convert_host_aliases c.host_aliases_converter (
      convert_topology_spread_constraints c.topology_spread_constraints_converter (
        convert_affinity c.affinity_converter (
          convert_toleration c.toleration_converter (
            convert_node_selector c.node_selector_converter (
              convert_node_name c.node_name_converter
                (convert_scheduler_name c.scheduler_name_converter p))))))

  -- The first policy that has converters.
  unfoldable pub first_converters : List (Policy O) → Option (String × Converters O)
  first_converters [] = none
  first_converters (po ∷ pos) = elim po.converters [
    | none ↦ first_converters pos
    | some c ↦ some (po.name, c)
  ]

  -- A write of an annotation panics where the pod has no map of them.
  unfoldable pub convert_by : Pod O → Option (String × Converters O) → Outcome (Pod O)
  convert_by pod none = returns pod
  convert_by pod (some (name, c)) = do
    annotations ← deref pod.annotations
    returns (record pod {
      annotations = some (Dict.insert kosmos_convert_labels name annotations);
      spec = convert_spec c pod.spec;
    })

  -- The policies of the cluster are taken before those of the namespace.
  unfoldable pub convert_pod : Pod O → List (Policy O) → List (Policy O) → Outcome (Pod O)
  convert_pod pod [] pcp = convert_by pod (first_converters pcp)
  convert_pod pod (po ∷ cpcp) pcp = convert_by pod (first_converters (po ∷ cpcp))
