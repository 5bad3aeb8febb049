-- ===== src/Tree/Services/Import.antt =====
-- serviceimport_controller.go: Reconcile and what it calls, for one leaf cluster.
use kosmos.Base.{
  String, inl, inr, Bool, true, false, not, ◌&&◌, ◌||◌, Option, none, some, List, [], ◌∷◌, map,
  ◌==◌, if◌then◌else◌, Slice, items, Outcome, returns, panics, ◌>>=◌, deref,
}
use kosmos.Api.Cluster.{ip_family_all, ip_family_ipv4, ip_family_ipv6}
use kosmos.Tree.Services.{
  ApiError, not_found, already_exists, ServiceImport, EndpointSlice, Service, ServicePort,
  LeafClient, Packages, has_annotation, get_label_or_annotation_value, add_annotation,
  clear_endpoint_slice, retain_endpoint_slice, service_import_label_key, mcs_label_value,
  disconnected_endpoints_key, mcs_finalizer,
}

unfoldable pub is_not_found : ApiError → Bool
is_not_found not_found = true
is_not_found _ = false

unfoldable pub is_already_exists : ApiError → Bool
is_already_exists already_exists = true
is_already_exists _ = false

unfoldable pub ignore_not_found : Option ApiError → Option ApiError
ignore_not_found none = none
ignore_not_found (some e) = if is_not_found e then none else some e

module _ {O S : Type 0} (family : String) (packages : Packages) (client : LeafClient O S) where
  unfoldable pub cleanup_service_and_endpoint_slice : String → String → S → Option ApiError × S
  cleanup_service_and_endpoint_slice namespace name s = elim (client.get_service namespace name s) [
    | inl e ↦ (ignore_not_found (some e), s)
    | inr service ↦
        let (deleted, t) = client.delete_service service s in
        let (cleared, u) = client.delete_slices namespace name t in
        if not (has_annotation service.annotations service_import_label_key)
        then (none, s)
        else elim deleted [
          | some e ↦ (ignore_not_found (some e), t)
          | none ↦ (ignore_not_found cleared, u)
        ]
  ]

  -- One attempt: the object is changed and written; where that fails, it is read again.
  unfoldable pub try_update_import :
      (ServiceImport → ServiceImport) → ServiceImport × S → Option ApiError × (ServiceImport × S)
  try_update_import modify (service_import, s) =
      let modified = modify service_import in
      let (result, t) = client.update_import modified s in
      elim result [
        | none ↦ (none, (modified, t))
        | some e ↦
            if is_not_found e
            then (none, (modified, t))
            else elim (client.get_import service_import.namespace service_import.name t) [
              | inr read ↦ (some e, (read, t))
              | inl g ↦ (if is_not_found g then none else some e, (modified, t))
            ]
      ]

  unfoldable pub update_service_import :
      ServiceImport → (ServiceImport → ServiceImport) → S → Option ApiError × S
  update_service_import service_import modify s =
      let (result, r) = packages.retry_on_conflict (try_update_import modify) (service_import, s) in
      (result, r.1)

  unfoldable pub remove_finalizer : ServiceImport → S → Option ApiError × S
  remove_finalizer service_import s =
      if packages.contains_finalizer service_import.finalizers mcs_finalizer
      then update_service_import service_import
          (λ i. record i { finalizers = packages.remove_finalizer i.finalizers mcs_finalizer }) s
      else (none, s)

  unfoldable pub ensure_finalizer : ServiceImport → S → Option ApiError × S
  ensure_finalizer service_import s =
      if packages.contains_finalizer service_import.finalizers mcs_finalizer
      then (none, s)
      else update_service_import service_import
          (λ i. record i { finalizers = packages.add_finalizer i.finalizers mcs_finalizer }) s

  -- One attempt; what is written next is what was read.
  unfoldable pub try_update_slice : EndpointSlice O × S → Option ApiError × (EndpointSlice O × S)
  try_update_slice (eps, s) =
      let (result, t) = client.update_slice eps s in
      elim result [
        | none ↦ (none, (eps, t))
        | some e ↦
            if is_not_found e
            then (none, (eps, t))
            else elim (client.get_slice eps.namespace eps.name t) [
              | inr read ↦ (some e, (read, t))
              | inl g ↦ (if is_not_found g then none else some e, (eps, t))
            ]
      ]

  unfoldable pub update_endpoint_slice : EndpointSlice O → S → Option ApiError × S
  update_endpoint_slice eps s =
      let (result, r) = packages.retry_on_conflict try_update_slice (eps, s) in (result, r.1)

  unfoldable pub create_or_update_endpoint_slice_in_client :
      EndpointSlice O → String → S → Option ApiError × S
  create_or_update_endpoint_slice_in_client slice service_name s =
      let new_slice = retain_endpoint_slice slice service_name in
      let (result, t) = client.create_slice new_slice s in
      elim result [
        | none ↦ (none, t)
        | some e ↦ if is_already_exists e then update_endpoint_slice new_slice t else (some e, t)
      ]

  -- The slice without the addresses that the import's annotation names.
  unfoldable pub connected : EndpointSlice O → ServiceImport → EndpointSlice O
  connected slice service_import =
      if has_annotation service_import.annotations disconnected_endpoints_key
      then clear_endpoint_slice slice (
          packages.split
            (get_label_or_annotation_value service_import.annotations disconnected_endpoints_key))
      else slice

  unfoldable pub is_other_family : String → Bool
  is_other_family address_type =
      (address_type == "IPv4" && family == ip_family_ipv6)
      || (address_type == "IPv6" && family == ip_family_ipv4)

  unfoldable pub import_endpoint_slice_handler :
      EndpointSlice O → ServiceImport → S → Option ApiError × S
  import_endpoint_slice_handler slice service_import s =
      if is_other_family slice.address_type
      then (none, s)
      else create_or_update_endpoint_slice_in_client (connected slice service_import)
          service_import.name s

  -- The loop stops at the first error.
  unfoldable pub import_endpoint_slices :
      List (EndpointSlice O) → ServiceImport → S → Option ApiError × S
  import_endpoint_slices [] service_import s = (none, s)
  import_endpoint_slices (eps ∷ eps_list) service_import s =
      let (result, t) = import_endpoint_slice_handler eps service_import s in
      elim result [ some e ↦ (some e, t) | none ↦ import_endpoint_slices eps_list service_import t ]

  unfoldable pub index_zero : List String → Outcome String
  index_zero [] = panics
  index_zero (x ∷ xs) = returns x

  -- Whether the leaf cluster can have the service.
  unfoldable pub check_service_type : Service O → Outcome Bool
  check_service_type service = do
    policy ← deref service.ip_family_policy
    if policy == "SingleStack"
        then (do
          first ← index_zero (items service.ip_families)
          returns (not (is_other_family first)))
        else returns true

  unfoldable pub service_port : ServicePort O → ServicePort O
  service_port port = record { copied = port.copied; target_port = none }

  unfoldable pub is_service_ip_set : Service O → Bool
  is_service_ip_set service = not (service.cluster_ip == "None") && not (service.cluster_ip == "")

  unfoldable pub family_policy : Service O → Outcome String
  family_policy service =
      if family == ip_family_all then deref service.ip_family_policy else returns "SingleStack"

  unfoldable pub families : Service O → Slice String
  families service =
      if family == ip_family_all
      then service.ip_families
      else if family == ip_family_ipv4
      then some ("IPv4" ∷ [])
      else some ("IPv6" ∷ [])

  unfoldable pub generate_service : Service O → ServiceImport → Outcome (Service O)
  generate_service service service_import = do
    policy ← family_policy service
    returns (record {
      namespace = service_import.namespace;
      name = service.name;
      resource_version = "";
      annotations = add_annotation none service_import_label_key mcs_label_value;
      type = service.type;
      cluster_ip = if is_service_ip_set service then "" else "None";
      ports = some (map service_port (items service.ports));
      ip_families = families service;
      ip_family_policy = some policy;
      external_traffic_policy = service.external_traffic_policy;
    })

  unfoldable pub create_or_update_service_in_client : Service O → S → Option ApiError × S
  create_or_update_service_in_client service s =
      elim (client.get_service service.namespace service.name s) [
        | inl e ↦ if is_not_found e then client.create_service service s else (some e, s)
        | inr old ↦
            client.update_service
              (record service {
                cluster_ip = old.cluster_ip;
                resource_version = old.resource_version;
              })
              s
      ]

  unfoldable pub import_service_handler :
      Service O → ServiceImport → S → Outcome (Option ApiError × S)
  import_service_handler service service_import s = do
    ok ← check_service_type service
    if ok
        then (do
          made ← generate_service service service_import
          returns (create_or_update_service_in_client made s))
        else returns (none, s)
