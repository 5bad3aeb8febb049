-- ===== src/Tree/Services/Deleted.antt =====
-- What the deletion of an import leaves in the leaf cluster.
use kosmos.Base.{if-cases, option-cases, sum-cases}
use kosmos.Base.{
  String, ◌≡◌, refl, subst, ◌∙◌, inl, inr, true, false, Option, some, none, List, if◌then◌else◌, In,
  returns, Returns,
}
use kosmos.Tree.Services.{
  ApiError, not_found, ServiceImport, EndpointSlice, Service, LeafClient, Listers, Packages,
  has_annotation, get_label_or_annotation_value, service_import_label_key, service_key,
  mcs_finalizer,
}
use kosmos.Tree.Services.Import.{
  cleanup_service_and_endpoint_slice, try_update_import, update_service_import, remove_finalizer,
  is_not_found, ignore_not_found,
}
use kosmos.Tree.Services.Reconcile.{reconcile_found, reconcile}
use kosmos.Tree.Services.Leaf.{IsRetry}
use kosmos.Tree.Services.Released.{StoresImports, remove_finalizer-Released}

-- The slice is one of the service's.
abbrev pub IsOf : {O : Type 0} → String → String → EndpointSlice O → Type 0
IsOf namespace name y =
    (y.namespace ≡ namespace) × (get_label_or_annotation_value y.labels service_key ≡ name)

-- A write of an import leaves the slices alone, and a deletion of a service's slices that succeeds leaves
-- none of them.
pub record DeletesSlices {O S : Type 0} (slices : S → List (EndpointSlice O))
    (client : LeafClient O S) : Type 0 where
  pub import_keeps : (x : ServiceImport) (s : S) → slices (client.update_import x s).1 ≡ slices s
  pub clears :
      (namespace name : String) (s : S)
      → (client.delete_slices namespace name s).0 ≡ none
      → (y : EndpointSlice O) → In y (slices (client.delete_slices namespace name s).1)
      → ¬ (IsOf namespace name y)

module _ {O S : Type 0} (family : String) (packages : Packages) (client : LeafClient O S)
    (listers : Listers O) (slices : S → List (EndpointSlice O)) (retry : IsRetry packages)
    (leaf : DeletesSlices slices client) where
  try_update_import-slices :
      (modify : ServiceImport → ServiceImport) (i : ServiceImport) (s : S)
      → slices (try_update_import family packages client modify (i, s)).1.1 ≡ slices s
  unfolding try_update_import
  try_update_import-slices modify i s =
      let kept = leaf.import_keeps (modify i) s in
      let P : Option ApiError × (ServiceImport × S) → Type 0 = λ r. slices r.1.1 ≡ slices s in
      option-cases P (client.update_import (modify i) s).0 _ _ (λ _. kept)
        (λ e _.
          if-cases P (is_not_found e) _ _ (λ _. kept)
            (λ _.
              sum-cases P
                (client.get_import i.namespace i.name (client.update_import (modify i) s).1) _ _
                (λ g _. kept) (λ read _. kept)))

  remove_finalizer-slices :
      (i : ServiceImport) (s : S)
      → slices (remove_finalizer family packages client i s).1 ≡ slices s
  unfolding remove_finalizer update_service_import
  remove_finalizer-slices i s =
      if-cases (λ (r : Option ApiError × S). slices r.1 ≡ slices s)
        (packages.contains_finalizer i.finalizers mcs_finalizer) _ (none, s)
        (λ _.
          retry.calls (λ (r : ServiceImport × S). slices r.1 ≡ slices s)
            (try_update_import family packages client _)
            (λ (j, t) before. try_update_import-slices _ j t ∙ before) (i, s) refl)
        (λ _. refl)

  deletion :
      (namespace name : String) (i : ServiceImport) (s t : S)
      → i.is_deleting ≡ true
      → cleanup_service_and_endpoint_slice family packages client namespace name s ≡ (none, t)
      → reconcile_found family packages client listers namespace name i s
        ≡ returns (remove_finalizer family packages client i t)
  unfolding reconcile_found
  deletion namespace name i s t deleting cleaned =
      simp (reconcile_found, deleting, cleaned, if◌then◌else◌)

  found_import :
      (namespace name : String) (i : ServiceImport) (s : S)
      → listers.service_import namespace name ≡ inr i
      → reconcile family packages client listers namespace name s
        ≡ reconcile_found family packages client listers namespace name i s
  unfolding reconcile
  found_import namespace name i s found = simp (reconcile, found)

  -- Where the import of the key is being deleted, and its service is not in the leaf cluster any more, the
  -- round does not panic and leaves all endpoint slices of the leaf cluster where they are: it only
  -- takes the finalizer off.
  pub reconcile-leftover :
      (namespace name : String) (i : ServiceImport) (s : S)
      → listers.service_import namespace name ≡ inr i
      → i.is_deleting ≡ true
      → client.get_service namespace name s ≡ inl not_found
      → (reconcile family packages client listers namespace name s
          ≡ returns (remove_finalizer family packages client i s))
        × (slices (remove_finalizer family packages client i s).1 ≡ slices s)
  unfolding cleanup_service_and_endpoint_slice ignore_not_found is_not_found
  reconcile-leftover namespace name i s found deleting absent =
      let cleaned : cleanup_service_and_endpoint_slice family packages client namespace name s
          ≡ (none, s) =
        simp (cleanup_service_and_endpoint_slice, absent) in
      (
        found_import namespace name i s found ∙ deletion namespace name i s s deleting cleaned,
        remove_finalizer-slices i s,
      )

  -- Where the import of the key is being deleted and has the finalizer, the leaf cluster has its service,
  -- with the mark of an import, and the deletions of the service and of its slices succeed, the round does
  -- not panic and no slice of the service is left after it. If the round reports no error, the import that
  -- the leaf cluster then stores, if any, has the finalizer no more.
  pub reconcile-Deleted :
      (stored : S → String → String → Option (List String))
      (store : StoresImports packages client stored) (namespace name : String) (i : ServiceImport)
      (service : Service O) (s : S)
      → listers.service_import namespace name ≡ inr i
      → i.is_deleting ≡ true
      → packages.contains_finalizer i.finalizers mcs_finalizer ≡ true
      → client.get_service namespace name s ≡ inr service
      → has_annotation service.annotations service_import_label_key ≡ true
      → (client.delete_service service s).0 ≡ none
      → (client.delete_slices namespace name (client.delete_service service s).1).0 ≡ none
      → Returns
          (λ (result, t).
            ((y : EndpointSlice O) → In y (slices t) → ¬ (IsOf namespace name y))
            × (result ≡ none
                → (fs : List String) → stored t i.namespace i.name ≡ some fs
                → packages.contains_finalizer fs mcs_finalizer ≡ false))
          (reconcile family packages client listers namespace name s)
  unfolding cleanup_service_and_endpoint_slice ignore_not_found
  reconcile-Deleted stored store namespace name i service s found deleting held present marked
        deleted cleared =
      let t = (client.delete_service service s).1 in
      let u = (client.delete_slices namespace name t).1 in
      let cleaned : cleanup_service_and_endpoint_slice family packages client namespace name s
          ≡ (none, u) =
        simp
          (cleanup_service_and_endpoint_slice, present, marked, deleted, cleared, if◌then◌else◌) in
      let round =
        found_import namespace name i s found ∙ deletion namespace name i s u deleting cleaned in
      rw round (
        λ y j.
            let k = subst (In y) (remove_finalizer-slices i u) j in
            leaf.clears namespace name t cleared y k,
        remove_finalizer-Released family packages client stored retry store i u held,
      )
