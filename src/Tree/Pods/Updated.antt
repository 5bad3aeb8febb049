-- ===== src/Tree/Pods/Updated.antt =====
-- How the pod of a leaf cluster follows a change of the host cluster's pod.
use kosmos.Base.{
  bind-panics, ◌<◌, String, ◌≡◌, refl, ap, ◌⊎◌, inl, inr, true, none, some, List, [], ◌∷◌, map,
  arith, is_some, length, In, Slice, items, panics, Returns, Returns-bind,
}
use kosmos.Base.Dict
use kosmos.Base.Dict.{Dict}
use kosmos.Api.Kube.{Pod, Container}
use kosmos.Tree.LeafResources.{LeafMode, NodeSelector}
use kosmos.Tree.Pods.{
  Json, text_at, entries, kosmos_pod_label, recover_labels, kosmos_tripped_labels,
}
use kosmos.Tree.Pods.Tripped.{Gone, fit_labels-Left}
use kosmos.Tree.Pods.Recover.{fit_party-Returns, recover_labels-fresh}
use kosmos.Tree.Pods.Fit.{is_party, fit_party, set_images, set_slice_images, get_updated_pod}

module _ {O : Type 0} (json : Json O) where
  abbrev pub images : List (Container O) → List String
  images cs = map (λ (c : Container O). c.image) cs

  set_images-Returns :
      (orig update : List (Container O))
      → length orig ≡ length update
      → Returns (λ made. images made ≡ images update) (set_images json orig update)
  unfolding set_images
  set_images-Returns [] [] h = refl
  set_images-Returns [] (u ∷ update) h = absurd (omega (arith, h))
  set_images-Returns (c ∷ orig) [] h = absurd (omega (arith, h))
  set_images-Returns (c ∷ orig) (u ∷ update) h =
      let same : length orig ≡ length update = omega (arith, h) in
      Returns-bind (λ made. images made ≡ images update) _ (set_images json orig update) _
        (set_images-Returns orig update same) (λ made e. ap (λ r. u.image ∷ r) e)

  set_images-panics :
      (orig update : List (Container O))
      → length update < length orig
      → set_images json orig update ≡ panics
  unfolding set_images
  set_images-panics [] update h = absurd (omega (arith, h))
  set_images-panics (c ∷ orig) [] h = refl
  set_images-panics (c ∷ orig) (u ∷ update) h =
      let fewer : length update < length orig = omega (arith, h) in
      rw (set_images-panics orig update fewer) refl

  set_slice_images-Returns :
      (orig update : Slice (Container O))
      → length (items orig) ≡ length (items update)
      → Returns
          (λ made. images (items made) ≡ images (items update))
          (set_slice_images json orig update)
  unfolding set_slice_images
  set_slice_images-Returns none none h = refl
  set_slice_images-Returns none (some []) h = refl
  set_slice_images-Returns none (some (u ∷ update)) h = absurd (omega (arith, h))
  set_slice_images-Returns (some orig) update h =
      Returns-bind (λ made. images made ≡ images (items update)) _
        (set_images json orig (items update)) _ (set_images-Returns orig (items update) h)
        (λ made e. e)

  set_slice_images-panics :
      (orig update : Slice (Container O))
      → length (items update) < length (items orig)
      → set_slice_images json orig update ≡ panics
  unfolding set_slice_images
  set_slice_images-panics none update h = absurd (omega (arith, h))
  set_slice_images-panics (some orig) update h = rw (set_images-panics orig (items update) h) refl

  -- What the updated pod has.
  pub Updated : Pod O → Slice String → Pod O × Pod O → Type 0
  Updated update ignore_labels (made, source) =
      (images (items made.spec.containers) ≡ images (items update.spec.containers))
      × (images (items made.spec.init_containers) ≡ images (items update.spec.init_containers))
      × ((k : String)
          → In k (items ignore_labels)
          → Gone k (Dict.insert kosmos_pod_label "true" (entries update.labels))
              (entries made.labels))
      × ((k : String)
          → ¬ (In k (items ignore_labels))
          → text_at k (entries made.labels)
            ≡ text_at k (Dict.insert kosmos_pod_label "true" (entries update.labels)))
      × (entries made.annotations ≡ entries update.annotations)
      × (text_at kosmos_tripped_labels (entries update.annotations) ≡ ""
          → recover_labels json (entries made.labels) made.annotations ≡ entries made.labels)

  -- Where both pods have as many containers and as many init containers, and a node of the mode that
  -- selects by labels has a label selector, the update does not panic. The pod then has the images and the
  -- annotations of the new one, of the ignored labels only those that the new one has with the empty
  -- value, and the values of its other labels with the one that marks a pod of Kosmos; and without an annotation of tripped labels in the new pod,
  -- nothing is put back.
  pub get_updated_pod-Updated :
      (orig update : Pod O) (ignore_labels : Slice String) (leaf_mode : LeafMode)
      (selector : NodeSelector)
      → length (items orig.spec.containers) ≡ length (items update.spec.containers)
      → length (items orig.spec.init_containers) ≡ length (items update.spec.init_containers)
      → (is_party leaf_mode ≡ true → is_some selector.label_selector ≡ true)
      → Returns
          (Updated update ignore_labels)
          (get_updated_pod json orig update ignore_labels leaf_mode selector)
  unfolding get_updated_pod Updated entries
  get_updated_pod-Updated orig update ignore_labels leaf_mode selector same same_init h =
      let P = Updated update ignore_labels in
      Returns-bind (λ made. images (items made) ≡ images (items update.spec.init_containers)) P
        (set_slice_images json orig.spec.init_containers update.spec.init_containers) _
        (set_slice_images-Returns orig.spec.init_containers update.spec.init_containers same_init)
        (λ init e.
          Returns-bind (λ made. images (items made) ≡ images (items update.spec.containers)) P
            (set_slice_images json orig.spec.containers update.spec.containers) _
            (set_slice_images-Returns orig.spec.containers update.spec.containers same)
            (λ containers q.
              Returns-bind (λ _. Unit {0}) P
                (fit_party json leaf_mode update.spec.affinity orig.spec.affinity selector) _
                (fit_party-Returns json leaf_mode update.spec.affinity orig.spec.affinity selector
                  h)
                (λ affinity _. (
                  q,
                  e,
                  λ k m. (fit_labels-Left _ ignore_labels k).0 m,
                  λ k n. (fit_labels-Left _ ignore_labels k).1 n,
                  refl,
                  λ fresh. recover_labels-fresh json _ _ fresh,
                ))))

  -- A pod with fewer containers, or fewer init containers, makes the update of another one panic.
  pub get_updated_pod-panics :
      (orig update : Pod O) (ignore_labels : Slice String) (leaf_mode : LeafMode)
      (selector : NodeSelector)
      → (length (items update.spec.init_containers) < length (items orig.spec.init_containers))
        ⊎ (length (items update.spec.containers) < length (items orig.spec.containers))
      → get_updated_pod json orig update ignore_labels leaf_mode selector ≡ panics
  unfolding get_updated_pod
  get_updated_pod-panics orig update ignore_labels leaf_mode selector (inl h) =
      rw (set_slice_images-panics orig.spec.init_containers update.spec.init_containers h) refl
  get_updated_pod-panics orig update ignore_labels leaf_mode selector (inr h) =
      bind-panics (set_slice_images json orig.spec.init_containers update.spec.init_containers) _
        (λ init. rw (set_slice_images-panics orig.spec.containers update.spec.containers h) refl)
