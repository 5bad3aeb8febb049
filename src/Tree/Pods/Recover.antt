-- ===== src/Tree/Pods/Recover.antt =====
-- How the labels of the pod of a leaf cluster lead back to those of the host cluster's pod.
use kosmos.Base.{
  String, ◌≡◌, refl, ap, ◌∙◌, ◌≢◌, inl, inr, true, false, Option, none, some, [], arith, eq_iff,
  ◌==◌, if◌then◌else◌, Bool-cases, Option-cases, is_some, Slice, deref, Returns, Returns-bind,
}
use kosmos.Base.Dict
use kosmos.Base.Dict.{Dict}
use kosmos.Api.Kube.{Pod, Affinity}
use kosmos.Tree.LeafResources.{LeafMode, NodeSelector}
use kosmos.Tree.Pods.{
  Json, text_at, entries, fit_labels, trip_all, put_all, recover_labels, kosmos_pod_label,
  kosmos_tripped_labels,
}
use kosmos.Tree.Pods.Labels.{Keeps, trip_all-Parted, put_all-restores, lookup-In}
use kosmos.Tree.Pods.Fit.{is_party, annotate, fit_party, fit_node_affinity, fit_pod}

pub text_at-insert : (k v : String) (m : Dict String) → text_at k (Dict.insert k v m) ≡ v
unfolding text_at
text_at-insert k v m =
    let written = Dict.lookup-insert k k v m in
    let value : Dict.lookup k (Dict.insert k v m) ≡ some v = ground (arith, written, eq_iff k k) in
    ap (λ (o : Option String). elim o as (λ _. String) [ none ↦ "" | some v ↦ v ]) value

module _ {O : Type 0} (json : Json O) where
  recovered_text :
      (left annotations tripped : Dict String) (text : String)
      → text_at kosmos_tripped_labels annotations ≡ text
      → text ≢ ""
      → json.unmarshal_labels text ≡ some tripped
      → recover_labels json left (some annotations) ≡ put_all tripped left
  unfolding recover_labels entries
  recovered_text left annotations tripped text e full decoded =
      let different : (text == "") ≡ false = ground (arith, eq_iff text "") in
      rw e (rw (different, decoded, if◌then◌else◌) refl)

  pub recover_labels-fresh :
      (labels annotations : Dict String)
      → text_at kosmos_tripped_labels annotations ≡ ""
      → recover_labels json labels (some annotations) ≡ labels
  unfolding recover_labels entries
  recover_labels-fresh labels annotations e = rw e refl

  fit_labels-recovers :
      (labels annotations : Dict String) (ignore_labels : Slice String)
      → ((m : Dict String) → (fit_labels labels ignore_labels).1 ≡ some m → Keeps json m)
      → text_at kosmos_tripped_labels annotations ≡ ""
      → (k : String)
      → Dict.lookup k (
          recover_labels json
            (fit_labels labels ignore_labels).0
            (some (annotate json (fit_labels labels ignore_labels).1 annotations)))
        ≡ Dict.lookup k labels
  unfolding fit_labels annotate
  fit_labels-recovers labels annotations none lossless fresh k =
      ap (Dict.lookup k) (recover_labels-fresh labels annotations fresh)
  fit_labels-recovers labels annotations (some keys) lossless fresh k =
      let (from, parted) =
        trip_all-Parted keys labels labels [] (λ entry i. absurd i) (λ k. inl refl) in
      let m = (trip_all keys (labels, [])).1 in
      let (text, encoded, full, more) = lossless m refl in
      let (n, decoded, same) = more in
      let left = (trip_all keys (labels, [])).0 in
      let written : annotate json (some m) annotations
          ≡ Dict.insert kosmos_tripped_labels text annotations =
        simp (annotate, encoded) in
      ap (λ a. Dict.lookup k (recover_labels json left (some a))) written
      ∙ ap (Dict.lookup k) (
          recovered_text left (Dict.insert kosmos_tripped_labels text annotations) n text
            (text_at-insert kosmos_tripped_labels text annotations) full decoded)
      ∙ put_all-restores n labels left (λ entry i. from entry ((same entry).0 i))
          (λ j. elim (parted j) [
            | inl e ↦ inl e
            | inr (_, e) ↦ elim (Option-cases (Dict.lookup j m)) [
              | inl q ↦ absurd (ground (arith, e, q))
              | inr (v, q) ↦ inr (v, (same (j, v)).1 (lookup-In j v m q))
            ]
          ])
          k

  pub fit_party-Returns :
      (leaf_mode : LeafMode) (original copy : Option (Affinity O)) (selector : NodeSelector)
      → (is_party leaf_mode ≡ true → is_some selector.label_selector ≡ true)
      → Returns (λ _. Unit {0}) (fit_party json leaf_mode original copy selector)
  unfolding fit_party fit_node_affinity
  fit_party-Returns leaf_mode original copy selector h = elim (Bool-cases (is_party leaf_mode)) [
    | inr e ↦ rw (e, if◌then◌else◌) tt
    | inl e ↦ elim (Option-cases selector.label_selector) [
      | inl q ↦ absurd (ground (arith, h, e, q))
      | inr (l, q) ↦ rw (e, q, if◌then◌else◌, deref) tt
    ]
  ]

  -- Where encoding/json keeps the map of the tripped labels, the pod has no annotation of tripped labels, and a node
  -- of the mode that selects by labels has a label selector, the pod is fitted without a panic; and
  -- putting back what its annotation says leads to every label of the pod, and the one that marks a
  -- pod of Kosmos.
  pub fit_pod-Recovers :
      (pod : Pod O) (ignore_labels : Slice String) (leaf_mode : LeafMode) (selector : NodeSelector)
      → ((m : Dict String)
          → (fit_labels (Dict.insert kosmos_pod_label "true" (entries pod.labels)) ignore_labels).1
            ≡ some m
          → Keeps json m)
      → text_at kosmos_tripped_labels (entries pod.annotations) ≡ ""
      → (is_party leaf_mode ≡ true → is_some selector.label_selector ≡ true)
      → Returns
          (λ fitted.
            (k : String)
            → Dict.lookup k (recover_labels json (entries fitted.labels) fitted.annotations)
              ≡ Dict.lookup k (Dict.insert kosmos_pod_label "true" (entries pod.labels)))
          (fit_pod json pod ignore_labels leaf_mode selector)
  unfolding fit_pod entries
  fit_pod-Recovers pod ignore_labels leaf_mode selector lossless fresh h =
      Returns-bind (λ _. Unit {0}) _ (fit_party json leaf_mode pod.spec.affinity _ selector) _
        (fit_party-Returns leaf_mode pod.spec.affinity _ selector h)
        (λ affinity _.
          fit_labels-recovers (Dict.insert kosmos_pod_label "true" (entries pod.labels))
            (entries pod.annotations) ignore_labels lossless fresh)
