-- ===== src/Tree/Services/Leaf.antt =====
-- Which endpoint slices a round leaves in the leaf cluster, whatever calls fail.
use kosmos.Base.{
  if-cases, option-cases, sum-cases, String, ◌≡◌, refl, sym, subst, ◌⊎◌, inl, inr, false, Option,
  none, List, [], ◌∷◌, In,
}
use kosmos.Tree.Services.{
  ApiError, ServiceImport, EndpointSlice, Service, LeafClient, Packages, retain_endpoint_slice,
}
use kosmos.Tree.Services.Import.{
  is_other_family, connected, try_update_slice, update_endpoint_slice,
  create_or_update_endpoint_slice_in_client, import_endpoint_slice_handler, import_endpoint_slices,
  try_update_import, update_service_import, is_already_exists, is_not_found,
}

-- What is relied on of `retry.RetryOnConflict`: it calls its function, it returns the first
-- success, and what it returns as a success is one of a call.
pub record IsRetry (packages : Packages) : Type 1 where
  pub calls :
      {T : Type 0} (P : T → Type 0) (f : T → Option ApiError × T)
      → ((t : T) → P t → P (f t).1)
      → (t : T) → P t
      → P (packages.retry_on_conflict f t).1
  pub succeeds :
      {T : Type 0} (f : T → Option ApiError × T) (t : T)
      → (f t).0 ≡ none
      → packages.retry_on_conflict f t ≡ f t
  pub returns_success :
      {T : Type 0} (I Q : T → Type 0) (f : T → Option ApiError × T)
      → ((t : T) → I t → I (f t).1)
      → ((t : T) → I t → (f t).0 ≡ none → Q (f t).1)
      → (t : T) → I t
      → (packages.retry_on_conflict f t).0 ≡ none
      → Q (packages.retry_on_conflict f t).1

-- What is relied on of the leaf cluster: a call may fail or not, and adds no slice but the one it gives.
pub record IsLeaf {O S : Type 0} (slices : S → List (EndpointSlice O)) (client : LeafClient O S)
    : Type 0 where
  pub creates :
      (x y : EndpointSlice O) (s : S)
      → In y (slices (client.create_slice x s).1)
      → In y (slices s) ⊎ (y ≡ x)
  pub updates :
      (x y : EndpointSlice O) (s : S)
      → In y (slices (client.update_slice x s).1)
      → In y (slices s) ⊎ (y ≡ x)
  pub reads :
      (namespace name : String) (y : EndpointSlice O) (s : S)
      → client.get_slice namespace name s ≡ inr y
      → In y (slices s)
  pub create_service_keeps :
      (x : Service O) (y : EndpointSlice O) (s : S)
      → In y (slices (client.create_service x s).1)
      → In y (slices s)
  pub update_service_keeps :
      (x : Service O) (y : EndpointSlice O) (s : S)
      → In y (slices (client.update_service x s).1)
      → In y (slices s)
  pub delete_service_keeps :
      (x : Service O) (y : EndpointSlice O) (s : S)
      → In y (slices (client.delete_service x s).1)
      → In y (slices s)
  pub delete_slices_keeps :
      (namespace name : String) (y : EndpointSlice O) (s : S)
      → In y (slices (client.delete_slices namespace name s).1)
      → In y (slices s)
  pub update_import_keeps :
      (x : ServiceImport) (y : EndpointSlice O) (s : S)
      → In y (slices (client.update_import x s).1)
      → In y (slices s)

module _ {O S : Type 0} (family : String) (packages : Packages) (client : LeafClient O S)
    (slices : S → List (EndpointSlice O)) (retry : IsRetry packages) (leaf : IsLeaf slices client)
    (Allowed : EndpointSlice O → Type 0) where
  -- Every slice of the leaf cluster is allowed.
  abbrev pub AllAllowed : S → Type 0
  AllAllowed s = (y : EndpointSlice O) → In y (slices s) → Allowed y

  -- The slice to write is allowed as well.
  abbrev Pending : EndpointSlice O × S → Type 0
  Pending (x, s) = Allowed x × AllAllowed s

  update_slice-Allowed :
      (x : EndpointSlice O) (s : S) → Pending (x, s) → AllAllowed (client.update_slice x s).1
  update_slice-Allowed x s (a, h) y i = elim (leaf.updates x y s i) [
    | inl j ↦ h y j
    | inr e ↦ subst Allowed (sym e) a
  ]

  try_update_slice-Pending :
      (r : EndpointSlice O × S) → Pending r → Pending (try_update_slice family packages client r).1
  unfolding try_update_slice
  try_update_slice-Pending (x, s) p =
      let (a, h) = p in
      let after = update_slice-Allowed x s p in
      let t = (client.update_slice x s).1 in
      let P : Option ApiError × (EndpointSlice O × S) → Type 0 = λ r. Pending r.1 in
      option-cases P (client.update_slice x s).0 _ _ (λ _. (a, after))
        (λ e _.
          if-cases P (is_not_found e) _ _ (λ _. (a, after))
            (λ _.
              sum-cases P (client.get_slice x.namespace x.name t) _ _ (λ g _. (a, after))
                (λ y read. (after y (leaf.reads x.namespace x.name y t read), after))))

  update_endpoint_slice-Allowed :
      (x : EndpointSlice O) (s : S)
      → Allowed x
      → AllAllowed s
      → AllAllowed (update_endpoint_slice family packages client x s).1
  unfolding update_endpoint_slice
  update_endpoint_slice-Allowed x s a h =
      (retry.calls Pending (try_update_slice family packages client) try_update_slice-Pending (x, s)
        (a, h)).1

  create_or_update-Allowed :
      (slice : EndpointSlice O) (name : String) (s : S)
      → Allowed (retain_endpoint_slice slice name)
      → AllAllowed s
      → AllAllowed (create_or_update_endpoint_slice_in_client family packages client slice name s).1
  unfolding create_or_update_endpoint_slice_in_client
  create_or_update-Allowed slice name s a h =
      let x = retain_endpoint_slice slice name in
      let t = (client.create_slice x s).1 in
      let after : AllAllowed t =
        λ y i. elim (leaf.creates x y s i) [ inl j ↦ h y j | inr e ↦ subst Allowed (sym e) a ] in
      let P : Option ApiError × S → Type 0 = λ r. AllAllowed r.1 in
      option-cases P (client.create_slice x s).0 _ _ (λ _. after)
        (λ e _.
          if-cases P (is_already_exists e) _ _ (λ _. update_endpoint_slice-Allowed x t a after)
            (λ _. after))

  pub import_endpoint_slices-Allowed :
      (eps_list : List (EndpointSlice O)) (service_import : ServiceImport) (s : S)
      → ((eps : EndpointSlice O)
          → In eps eps_list
          → is_other_family family packages client eps.address_type ≡ false
          → Allowed (
              retain_endpoint_slice
                (connected family packages client eps service_import)
                service_import.name))
      → AllAllowed s
      → AllAllowed (import_endpoint_slices family packages client eps_list service_import s).1
  unfolding import_endpoint_slices import_endpoint_slice_handler
  import_endpoint_slices-Allowed [] service_import s a h = h
  import_endpoint_slices-Allowed (eps ∷ eps_list) service_import s a h =
      let P : Option ApiError × S → Type 0 = λ r. AllAllowed r.1 in
      let first =
        if-cases P (is_other_family family packages client eps.address_type) (none, s) _ (λ _. h)
          (λ e.
            create_or_update-Allowed (connected family packages client eps service_import)
              service_import.name s (a eps (inl refl) e) h) in
      option-cases P (import_endpoint_slice_handler family packages client eps service_import s).0 _
        _
        (λ _.
          import_endpoint_slices-Allowed eps_list service_import _ (λ x i e. a x (inr i) e) first)
        (λ e _. first)

  pub update_service_import-Allowed :
      (service_import : ServiceImport) (modify : ServiceImport → ServiceImport) (s : S)
      → AllAllowed s
      → AllAllowed (update_service_import family packages client service_import modify s).1
  unfolding update_service_import try_update_import
  update_service_import-Allowed service_import modify s h =
      retry.calls (λ r. AllAllowed r.1) (try_update_import family packages client modify)
        (λ (i, t) before.
          let after : AllAllowed (client.update_import (modify i) t).1 =
            λ y j. before y (leaf.update_import_keeps (modify i) y t j) in
          let P : Option ApiError × (ServiceImport × S) → Type 0 = λ r. AllAllowed r.1.1 in
          option-cases P (client.update_import (modify i) t).0 _ _ (λ _. after)
            (λ e _.
              if-cases P (is_not_found e) _ _ (λ _. after)
                (λ _.
                  sum-cases P
                    (client.get_import i.namespace i.name (client.update_import (modify i) t).1) _ _
                    (λ g _. after) (λ read _. after))))
        (service_import, s) h
