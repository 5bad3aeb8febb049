-- ===== src/Tree/Pods/Convert/Again.antt =====
-- Converting a pod once and again.
use kosmos.Base.{
  deref-some, String, ◌≡◌, refl, ap, ◌∙◌, inl, inr, Bool, true, false, not, Option, none, some,
  List, [], ◌∷◌, arith, ◌==◌, if◌then◌else◌, Bool-cases, Option-cases, is_some, returns, deref,
  Returns, Returns-bind,
}
use kosmos.Base.Dict
use kosmos.Base.Dict.{Dict}
use kosmos.Api.Kube.{Pod, PodSpec, Affinity}
use kosmos.Tree.Pods.{kosmos_convert_labels}
use kosmos.Tree.Pods.Convert.{
  Converter, ConvertType, add, remove, replace, other, convert_as, Converters, Policy, convert,
  convert_scheduler_name, convert_node_name, convert_node_selector, convert_toleration,
  convert_affinity, convert_topology_spread_constraints, convert_host_aliases, convert_spec,
  first_converters, convert_by, convert_pod,
}

-- A test of the field itself, or one that stays.
convert-again :
    {V : Type 0} (zero : V) (absent : V → Bool) (c : Option (Converter V)) (v : V)
    → convert zero (absent (convert zero (absent v) c v)) c (convert zero (absent v) c v)
      ≡ convert zero (absent v) c v
unfolding convert convert_as
convert-again zero absent none v = refl
convert-again zero absent (some c) v = by_type c.convert_type
  where
    by_type :
        (t : ConvertType)
        → convert_as t zero
            (absent (convert_as t zero (absent v) c.value v))
            c.value
            (convert_as t zero (absent v) c.value v)
          ≡ convert_as t zero (absent v) c.value v
    by_type add = added (absent v) refl
      where
        added :
            (b : Bool)
            → absent v ≡ b
            → (if absent (if b then c.value else v) then c.value else (if b then c.value else v))
              ≡ (if b then c.value else v)
        added true e = elim (Bool-cases (absent c.value)) [
          | inl q ↦ rw (q, if◌then◌else◌) refl
          | inr q ↦ rw (q, if◌then◌else◌) refl
        ]
        added false e = rw (e, if◌then◌else◌) refl
    by_type remove = refl
    by_type replace = refl
    by_type other = refl

convert-same_test :
    {V : Type 0} (zero : V) (b : Bool) (c : Option (Converter V)) (v : V)
    → convert zero b c (convert zero b c v) ≡ convert zero b c v
unfolding convert convert_as
convert-same_test zero b none v = refl
convert-same_test zero b (some c) v = by_type c.convert_type b
  where
    by_type :
        (t : ConvertType) (b : Bool)
        → convert_as t zero b c.value (convert_as t zero b c.value v)
          ≡ convert_as t zero b c.value v
    by_type add true = refl
    by_type add false = refl
    by_type remove b = refl
    by_type replace b = refl
    by_type other b = refl

module _ {O : Type 0} where
  -- Converting the specification once more changes nothing.
  pub convert_spec-again :
      (c : Converters O) (p : PodSpec O) → convert_spec c (convert_spec c p) ≡ convert_spec c p
  unfolding convert_spec convert_scheduler_name convert_node_name convert_node_selector
      convert_toleration convert_affinity convert_topology_spread_constraints convert_host_aliases
  convert_spec-again c p =
      let scheduler = convert-again "" (λ v. v == "") c.scheduler_name_converter p.scheduler_name in
      let node = convert-again "" (λ v. v == "") c.node_name_converter p.node_name in
      let selector =
        convert-again none (λ v. not (is_some v)) c.node_selector_converter p.node_selector in
      let toleration =
        convert-again none (λ v. not (is_some v)) c.toleration_converter p.tolerations in
      let affinity = convert-again none (λ v. not (is_some v)) c.affinity_converter p.affinity in
      let aliases =
        convert-again none (λ v. not (is_some v)) c.host_aliases_converter p.host_aliases in
      let once = convert_spec c p in
      let constraints =
        ap
          (λ (a : Option (Affinity O)).
            convert none (not (is_some a)) c.topology_spread_constraints_converter
              once.topology_spread_constraints)
          affinity
        ∙ convert-same_test none (not (is_some once.affinity))
            c.topology_spread_constraints_converter p.topology_spread_constraints in
      λ i. record once {
        scheduler_name = scheduler i;
        node_name = node i;
        node_selector = selector i;
        tolerations = toleration i;
        affinity = affinity i;
        topology_spread_constraints = constraints i;
        host_aliases = aliases i;
      }

  convert_by-again :
      (pod : Pod O) (chosen : Option (String × Converters O))
      → is_some pod.annotations ≡ true
      → Returns (λ q. convert_by q chosen ≡ returns q) (convert_by pod chosen)
  unfolding convert_by
  convert_by-again pod none h = refl
  convert_by-again pod (some (name, c)) h = elim (Option-cases pod.annotations) [
    | inl e ↦ absurd (ground (arith, h, e))
    | inr (annotations, e) ↦
        Returns-bind (λ a. a ≡ annotations) _ (deref pod.annotations) _
          (deref-some pod.annotations annotations e)
          (λ a _.
            let written = Dict.insert-again kosmos_convert_labels name a in
            let spec = convert_spec-again c pod.spec in
            λ i. returns (record pod { annotations = some (written i); spec = spec i }))
  ]

  -- A pod that has a map of annotations is converted without a panic, and converting the result once
  -- more, by the same policies, changes nothing.
  pub convert_pod-again :
      (pod : Pod O) (cpcp pcp : List (Policy O))
      → is_some pod.annotations ≡ true
      → Returns (λ q. convert_pod q cpcp pcp ≡ returns q) (convert_pod pod cpcp pcp)
  unfolding convert_pod
  convert_pod-again pod [] pcp h = convert_by-again pod (first_converters pcp) h
  convert_pod-again pod (po ∷ cpcp) pcp h = convert_by-again pod (first_converters (po ∷ cpcp)) h
