-- ===== src/Tree/Services/Reconcile.antt =====
-- serviceimport_controller.go: the round of the controller for one key.
use kosmos.Base.{
  String, inl, inr, Option, none, some, List, if◌then◌else◌, flat_map, items, Outcome, returns,
  ◌>>=◌,
}
use kosmos.Tree.Services.{
  ApiError, ServiceImport, EndpointSlice, Endpoint, LeafClient, Listers, Packages, add_annotation,
  service_endpoints_key,
}
use kosmos.Tree.Services.Import.{
  ignore_not_found, cleanup_service_and_endpoint_slice, update_service_import, remove_finalizer,
  ensure_finalizer, import_endpoint_slices, import_service_handler,
}

module _ {O S : Type 0} (family : String) (packages : Packages) (client : LeafClient O S)
    (listers : Listers O) where
  -- All addresses, also those that are not imported.
  unfoldable pub addresses_of : List (EndpointSlice O) → List String
  addresses_of eps_list =
      flat_map
        (λ (eps : EndpointSlice O).
          flat_map (λ (e : Endpoint O). items e.addresses) (items eps.endpoints))
        eps_list

  unfoldable pub annotated : List (EndpointSlice O) → ServiceImport → ServiceImport
  annotated eps_list i = record i {
    annotations =
        add_annotation i.annotations service_endpoints_key (packages.join (addresses_of eps_list));
  }

  -- The endpoints and the annotation; the import that the caller goes on with comes with the result.
  unfoldable pub sync_endpoint_slices : ServiceImport → S → Option ApiError × (ServiceImport × S)
  sync_endpoint_slices service_import s =
      elim (listers.root_slices service_import.namespace service_import.name) [
        | inl e ↦ (some e, (service_import, s))
        | inr eps_list ↦
            let (result, t) =
              import_endpoint_slices family packages client eps_list service_import s in
            let (updated, u) =
              update_service_import family packages client service_import (annotated eps_list) t in
            elim result [
              | some e ↦ (some e, (service_import, t))
              | none ↦ (updated, (annotated eps_list service_import, u))
            ]
      ]

  unfoldable pub sync_service_import :
      ServiceImport → S → Outcome (Option ApiError × (ServiceImport × S))
  sync_service_import service_import s =
      elim (listers.root_service service_import.namespace service_import.name) [
        | inl e ↦ returns (ignore_not_found (some e), (service_import, s))
        | inr root_service ↦ do
          (result, t) ← import_service_handler family packages client root_service service_import s
          returns (elim result [
            | some e ↦ (some e, (service_import, t))
            | none ↦ sync_endpoint_slices service_import t
          ])
      ]

  unfoldable pub reconcile_found :
      String → String → ServiceImport → S → Outcome (Option ApiError × S)
  reconcile_found namespace name service_import s =
      if service_import.is_deleting
      then (let (result, t) =
            cleanup_service_and_endpoint_slice family packages client namespace name s in
          returns (elim result [
            | some e ↦ (some e, t)
            | none ↦ remove_finalizer family packages client service_import t
          ]))
      else (do
        (result, (synced, t)) ← sync_service_import service_import s
        returns (elim result [
          | some e ↦ (some e, t)
          | none ↦ ensure_finalizer family packages client synced t
        ]))

  unfoldable pub reconcile : String → String → S → Outcome (Option ApiError × S)
  reconcile namespace name s = elim (listers.service_import namespace name) [
    | inl e ↦ returns (ignore_not_found (some e), s)
    | inr service_import ↦ reconcile_found namespace name service_import s
  ]
