-- ===== src/Tree/Pods/Fit.antt =====
-- pkg/utils/podutils/pod.go: FitPod and GetUpdatedPod.
use text.Mathlib.Text.{starts_with}
use kosmos.Base.{
  appended, String, Bool, true, false, not, ◌&&◌, Option, none, some, List, [], ◌∷◌, ◌++◌, map,
  ◌==◌, if◌then◌else◌, is_some, filter, Slice, items, Outcome, returns, panics, ◌>>=◌, deref,
}
use kosmos.Base.Dict
use kosmos.Base.Dict.{Dict}
use kosmos.Api.Kube.{
  Pod, PodSpec, Container, VolumeMount, Volume, Affinity, NodeAffinity, NodeSelectorTerm,
  Requirement, LabelSelector, Toleration,
}
use kosmos.Tree.LeafResources.{LeafMode, node_, party, NodeSelector}
use kosmos.Tree.Pods.{
  Json, ClustersNodeSelection, text_at, entries, fit_labels, kosmos_pod_label,
  kosmos_tripped_labels, kosmos_selector_key, kosmos_scheduler_name,
}

unfoldable pub is_default_token : String → Bool
is_default_token name = starts_with name "default-token"

unfoldable pub is_node_mode : LeafMode → Bool
is_node_mode node_ = true
is_node_mode _ = false

unfoldable pub is_party : LeafMode → Bool
is_party party = true
is_party _ = false

module _ {O : Type 0} where
  unfoldable pub is_kosmos_pod : Pod O → Bool
  is_kosmos_pod pod = text_at kosmos_pod_label (entries pod.labels) == "true"

  unfoldable pub fit_object_meta : Pod O → Pod O
  fit_object_meta pod = record pod { uid = ""; resource_version = ""; owner_references = none }

  unfoldable pub fit_container : Container O → Container O
  fit_container c = record c {
    volume_mounts =
        appended
          (filter (λ (v : VolumeMount O). not (is_default_token v.name)) (items c.volume_mounts));
  }

  unfoldable pub fit_containers : Slice (Container O) → Slice (Container O)
  fit_containers containers = appended (map fit_container (items containers))

  -- The one term that the selector asks for.
  unfoldable pub selector_term : LabelSelector → NodeSelectorTerm O
  selector_term selector =
      let labels =
        map (λ entry. record { key = entry.0; operator = "In"; values = some (entry.1 ∷ []) })
          (entries selector.match_labels) in
      let expressions =
        map
          (λ (item : Requirement). record {
            key = item.key;
            operator = item.operator;
            values = item.values;
          })
          (items selector.match_expressions) in
      record { match_expressions = some (labels ++ expressions); match_fields = none }

  -- The selector is behind a pointer.
  unfoldable pub fit_node_affinity : Option (Affinity O) → NodeSelector → Outcome (Affinity O)
  fit_node_affinity affinity node_selector = do
    selector ← deref node_selector.label_selector
    let required = some (some (selector_term selector ∷ []))
    returns (elim affinity [
      | none ↦ record {
        node_affinity =
            some (record {
              required_during_scheduling = required;
              preferred_during_scheduling = none;
            });
        pod_affinity = none;
        pod_anti_affinity = none;
      }
      | some a ↦ record a {
        node_affinity = elim a.node_affinity [
          | none ↦
              some (record {
                required_during_scheduling = required;
                preferred_during_scheduling = none;
              })
          | some n ↦ some (record n { required_during_scheduling = required })
        ];
      }
    ])

  -- A node affinity without terms, and an affinity without parts, become nil.
  unfoldable pub tidy_affinity : Affinity O → Option (Affinity O)
  tidy_affinity a =
      let tidy = elim a.node_affinity as (λ _. Option (NodeAffinity O)) [
        | none ↦ none
        | some n ↦
            if not (is_some n.required_during_scheduling)
              && not (is_some n.preferred_during_scheduling)
            then none
            else some n
      ] in
      if not (is_some tidy) && not (is_some a.pod_affinity) && not (is_some a.pod_anti_affinity)
      then none
      else some (record a { node_affinity = tidy })

  -- The affinity that a selection gives a pod.
  unfoldable pub selected_affinity : Option (Affinity O) → Option (Affinity O) → Option (Affinity O)
  selected_affinity none selected = selected
  selected_affinity (some a) none = some (record a { node_affinity = none })
  selected_affinity (some a) (some s) = some (record a {
    node_affinity = elim s.node_affinity [
      | none ↦ none
      | some sn ↦ elim a.node_affinity [
        | none ↦ some sn
        | some n ↦ some (record n { required_during_scheduling = sn.required_during_scheduling })
      ]
    ];
  })

  -- Without a selection, the required terms go.
  unfoldable pub unselected_affinity : Affinity O → Affinity O
  unselected_affinity a = record a {
    node_affinity = elim a.node_affinity [
      | none ↦ none
      | some n ↦ some (record n { required_during_scheduling = none })
    ];
  }

  unfoldable pub recover_selectors : Pod O → Option (ClustersNodeSelection O) → Pod O
  recover_selectors pod (some cns) = record pod {
    spec = record pod.spec {
      node_selector = cns.node_selector;
      tolerations = cns.tolerations;
      topology_spread_constraints = cns.topology_spread_constraints;
      affinity = elim (selected_affinity pod.spec.affinity cns.affinity) [
        | none ↦ none
        | some a ↦ tidy_affinity a
      ];
    };
  }
  recover_selectors pod none = record pod {
    spec = record pod.spec {
      node_selector = none;
      tolerations = none;
      topology_spread_constraints = none;
      affinity = elim pod.spec.affinity [
        | none ↦ none
        | some a ↦ tidy_affinity (unselected_affinity a)
      ];
    };
  }

  module _ (json : Json O) where
    unfoldable pub convert_annotations : Option (Dict String) → Option (ClustersNodeSelection O)
    convert_annotations annotations =
        let val = text_at kosmos_selector_key (entries annotations) in
        if val == "" then none else json.unmarshal_selection val

    -- The annotations after the tripped labels are written.
    unfoldable pub annotate : Option (Dict String) → Dict String → Dict String
    annotate none annotations = annotations
    annotate (some tripped) annotations = elim (json.marshal_labels tripped) [
      | none ↦ annotations
      | some text ↦ Dict.insert kosmos_tripped_labels text annotations
    ]

    -- The parts of the specification that are set without an error.
    unfoldable pub fit_spec : PodSpec O → PodSpec O → LeafMode → PodSpec O
    fit_spec original copy leaf_mode = record copy {
      containers = fit_containers original.containers;
      init_containers = fit_containers original.init_containers;
      volumes =
          some (filter (λ (v : Volume O). not (is_default_token v.name)) (items original.volumes));
      scheduler_name =
          if copy.scheduler_name == kosmos_scheduler_name then "" else copy.scheduler_name;
      node_name = if is_node_mode leaf_mode then copy.node_name else "";
    }

    unfoldable pub fit_party :
        LeafMode
        → Option (Affinity O)
        → Option (Affinity O)
        → NodeSelector
        → Outcome (Option (Affinity O))
    fit_party leaf_mode original copy node_selector =
        if is_party leaf_mode
        then (do a ← fit_node_affinity original node_selector; returns (some a))
        else returns copy

    unfoldable pub fit_pod : Pod O → Slice String → LeafMode → NodeSelector → Outcome (Pod O)
    fit_pod pod ignore_labels leaf_mode node_selector =
        let fitted = fit_object_meta pod in
        let recovered = recover_selectors fitted (convert_annotations pod.annotations) in
        let spec = fit_spec pod.spec recovered.spec leaf_mode in
        let labels = Dict.insert kosmos_pod_label "true" (entries pod.labels) in
        let (left, tripped) = fit_labels labels ignore_labels in
        do
          affinity ← fit_party leaf_mode pod.spec.affinity recovered.spec.affinity node_selector
          returns (record recovered {
            labels = some left;
            annotations = some (annotate tripped (entries pod.annotations));
            spec = record spec { affinity = affinity };
            status = none;
          })

    -- `orig[i].Image = update[i].Image` for each index of `orig`.
    unfoldable pub set_images :
        List (Container O) → List (Container O) → Outcome (List (Container O))
    set_images [] update = returns []
    set_images (c ∷ orig) [] = panics
    set_images (c ∷ orig) (u ∷ update) = do
      rest ← set_images orig update
      returns (record c { image = u.image } ∷ rest)

    unfoldable pub set_slice_images :
        Slice (Container O) → Slice (Container O) → Outcome (Slice (Container O))
    set_slice_images none update = returns none
    set_slice_images (some orig) update = do
      made ← set_images orig (items update)
      returns (some made)

    -- The pod that is updated, and the one whose maps it then shares.
    unfoldable pub get_updated_pod :
        Pod O → Pod O → Slice String → LeafMode → NodeSelector → Outcome (Pod O × Pod O)
    get_updated_pod orig update ignore_labels leaf_mode node_selector = do
      init_containers ← set_slice_images orig.spec.init_containers update.spec.init_containers
      containers ← set_slice_images orig.spec.containers update.spec.containers
      affinity ← fit_party leaf_mode update.spec.affinity orig.spec.affinity node_selector
      returns (updated init_containers containers affinity)
      where
        annotations : Dict String
        annotations = entries update.annotations

        tolerations : Slice Toleration
        tolerations =
            if text_at kosmos_selector_key (entries orig.annotations)
              == text_at kosmos_selector_key annotations
            then orig.spec.tolerations
            else elim (convert_annotations (some annotations)) [
              | none ↦ orig.spec.tolerations
              | some cns ↦ cns.tolerations
            ]

        left : Dict String
        left =
            (fit_labels (Dict.insert kosmos_pod_label "true" (entries update.labels))
              ignore_labels).0

        updated : Slice (Container O) → Slice (Container O) → Option (Affinity O) → Pod O × Pod O
        updated init_containers containers affinity = (
          record orig {
            labels = some left;
            annotations = some annotations;
            spec = record orig.spec {
              init_containers = init_containers;
              containers = containers;
              affinity = affinity;
              tolerations = tolerations;
              active_deadline_seconds = update.spec.active_deadline_seconds;
            };
          },
          record update {
            labels = if is_some update.labels then some left else none;
            annotations = some annotations;
          },
        )
