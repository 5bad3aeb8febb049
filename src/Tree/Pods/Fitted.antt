-- ===== src/Tree/Pods/Fitted.antt =====
-- What the pod of a leaf cluster is.
use kosmos.Base.{
  items-appended, map-In, filter-not, String, ◌≡◌, refl, ap, subst, ◌∙◌, true, false, not, Option,
  none, some, map, eq_iff, ◌==◌, if◌then◌else◌, is_some, filter, In, Slice, items, Returns,
  Returns-bind,
}
use kosmos.Base.Dict
use kosmos.Base.Dict.{Dict}
use kosmos.Api.Kube.{Pod, Volume, Container, VolumeMount}
use kosmos.Tree.LeafResources.{LeafMode, NodeSelector}
use kosmos.Tree.Pods.{ClustersNodeSelection, Json, text_at, entries, fit_labels, kosmos_pod_label}
use kosmos.Tree.Pods.Tripped.{Gone, fit_labels-Left}
use kosmos.Tree.Pods.Fit.{
  is_party, is_node_mode, is_default_token, is_kosmos_pod, fit_party, fit_pod, fit_containers,
  fit_container, fit_spec, fit_object_meta, recover_selectors, convert_annotations,
}
use kosmos.Tree.Pods.Recover.{fit_party-Returns, text_at-insert}

module _ {O : Type 0} (json : Json O) where
  -- What a pod of a leaf cluster has, and what it has no longer.
  pub Fitted : Pod O → Slice String → LeafMode → Pod O → Type 0
  Fitted pod ignore_labels leaf_mode fitted =
      (fitted.uid ≡ "")
      × (fitted.resource_version ≡ "")
      × (fitted.owner_references ≡ none)
      × (fitted.status ≡ none)
      × (is_node_mode leaf_mode ≡ false → fitted.spec.node_name ≡ "")
      × ((k : String)
          → In k (items ignore_labels)
          → Gone k (Dict.insert kosmos_pod_label "true" (entries pod.labels))
              (entries fitted.labels))
      × (¬ (In kosmos_pod_label (items ignore_labels)) → is_kosmos_pod fitted ≡ true)
      × ((v : Volume O) → In v (items fitted.spec.volumes) → is_default_token v.name ≡ false)
      × ((c : Container O)
          → In c (items fitted.spec.containers)
          → (m : VolumeMount O) → In m (items c.volume_mounts)
          → is_default_token m.name ≡ false)
      × ((c : Container O)
          → In c (items fitted.spec.init_containers)
          → (m : VolumeMount O) → In m (items c.volume_mounts)
          → is_default_token m.name ≡ false)

  no_token_mounts :
      (cs : Slice (Container O)) (c : Container O)
      → In c (items (fit_containers cs))
      → (m : VolumeMount O) → In m (items c.volume_mounts)
      → is_default_token m.name ≡ false
  unfolding fit_containers fit_container
  no_token_mounts cs c i m j =
      let (d, _, made) =
        map-In fit_container c (items cs)
          (subst (In c) (items-appended (map fit_container (items cs))) i) in
      let mounts =
        ap (λ (x : Container O). items x.volume_mounts) made
        ∙ items-appended (
            filter (λ (v : VolumeMount O). not (is_default_token v.name))
              (items d.volume_mounts)) in
      filter-not (λ (v : VolumeMount O). is_default_token v.name) m (items d.volume_mounts)
        (subst (In m) mounts j)

  -- The selection leaves the identity of a pod alone.
  recover_selectors-identity :
      (pod : Pod O) (o : Option (ClustersNodeSelection O))
      → ((recover_selectors pod o).uid ≡ pod.uid)
        × ((recover_selectors pod o).resource_version ≡ pod.resource_version)
        × ((recover_selectors pod o).owner_references ≡ pod.owner_references)
  unfolding recover_selectors
  recover_selectors-identity pod none = (refl, refl, refl)
  recover_selectors-identity pod (some cns) = (refl, refl, refl)

  marked :
      (labels : Dict String) (ignore_labels : Slice String)
      → ¬ (In kosmos_pod_label (items ignore_labels))
      → (text_at kosmos_pod_label
            (fit_labels (Dict.insert kosmos_pod_label "true" labels) ignore_labels).0
          == "true")
        ≡ true
  marked labels ignore_labels free =
      let (_, kept) =
        fit_labels-Left (Dict.insert kosmos_pod_label "true" labels) ignore_labels
          kosmos_pod_label in
      let left = kept free in
      let set = text_at-insert kosmos_pod_label "true" labels in (eq_iff _ _).1 (left ∙ set)

  -- Where a node of the mode that selects by labels has a label selector, a pod is fitted without a
  -- panic. The result has no identity, version, owner or status of the host cluster, no node's name
  -- unless the mode is that of nodes, and no volume or mount of a default token. It has an ignored
  -- label only where the pod had it with the empty value, which stays. It is marked as a pod of Kosmos,
  -- unless that label is ignored.
  pub fit_pod-Fitted :
      (pod : Pod O) (ignore_labels : Slice String) (leaf_mode : LeafMode) (selector : NodeSelector)
      → (is_party leaf_mode ≡ true → is_some selector.label_selector ≡ true)
      → Returns
          (Fitted pod ignore_labels leaf_mode)
          (fit_pod json pod ignore_labels leaf_mode selector)
  unfolding fit_pod entries fit_spec Fitted is_kosmos_pod fit_object_meta
  fit_pod-Fitted pod ignore_labels leaf_mode selector h =
      Returns-bind (λ _. Unit {0}) (Fitted pod ignore_labels leaf_mode)
        (fit_party json leaf_mode pod.spec.affinity _ selector) _
        (fit_party-Returns json leaf_mode pod.spec.affinity _ selector h)
        (λ affinity _.
          let cns = convert_annotations json pod.annotations in
          let (uid, version, owners) = recover_selectors-identity (fit_object_meta pod) cns in
          (
            uid,
            version,
            owners,
            refl,
            λ e. rw (e, if◌then◌else◌) refl,
            λ k m. (fit_labels-Left _ ignore_labels k).0 m,
            λ free. marked (entries pod.labels) ignore_labels free,
            λ v m.
                filter-not (λ (v : Volume O). is_default_token v.name) v (items pod.spec.volumes) m,
            no_token_mounts pod.spec.containers,
            no_token_mounts pod.spec.init_containers,
          ))
