-- ===== src/Tree/Tests/Services.antt =====
-- An import, in a leaf cluster that is the list of its endpoint slices.
use kosmos.Base.{
  String, ◌≡◌, refl, ◌≢◌, ◌↔◌, ◌⊎◌, inl, inr, Bool, true, false, not, arith, Option, none, some,
  List, [], ◌∷◌, ◌==◌, any, filter, In, items, returns, Returns,
}
use kosmos.Base.Dict
use kosmos.Tree.Services.{
  ApiError, not_found, ServiceImport, Endpoint, EndpointSlice, Service, LeafClient, Listers,
  Packages, clear_endpoint_slice, has_annotation, service_import_label_key, mcs_label_value,
  disconnected_endpoints_key, mcs_finalizer,
}
use kosmos.Tree.Services.Import.{remove_finalizer}
use kosmos.Tree.Services.Reconcile.{reconcile}
use kosmos.Tree.Services.Cleared.{Has, clear_endpoint_slice-Cleared}
use kosmos.Tree.Services.Leaf.{IsRetry}
use kosmos.Tree.Services.Released.{StoresImports}
use kosmos.Tree.Services.Deleted.{IsOf, DeletesSlices, reconcile-leftover, reconcile-Deleted}

abbrev Slices : Type 0
Slices = List (EndpointSlice String)

abbrev pub packages : Packages
packages = record {
  retry_on_conflict = λ f t. f t;
  contains_finalizer = λ fs f. any (λ x. x == f) fs;
  add_finalizer = λ fs f. f ∷ fs;
  remove_finalizer = λ fs f. filter (λ x. not (x == f)) fs;
  split = λ s. s ∷ [];
  join = λ xs. "";
}

pub once : IsRetry packages
once = record {
  calls = λ P f keep t p. keep t p;
  succeeds = λ f t e. refl;
  returns_success = λ I Q f keep good t i e. good t i e;
}

abbrev client : ApiError ⊎ Service String → LeafClient String Slices
client service = record {
  get_service = λ namespace name s. service;
  create_service = λ x s. (none, s);
  update_service = λ x s. (none, s);
  delete_service = λ x s. (none, s);
  delete_slices = λ namespace name s. (none, []);
  get_slice = λ namespace name s. inl not_found;
  create_slice = λ x s. (none, x ∷ s);
  update_slice = λ x s. (none, x ∷ s);
  get_import = λ namespace name s. inl not_found;
  update_import = λ x s. (none, s);
}

abbrev slices : Slices → List (EndpointSlice String)
slices s = s

deletes : (service : ApiError ⊎ Service String) → DeletesSlices slices (client service)
deletes service = record { import_keeps = λ x s. refl; clears = λ namespace name s e y i. absurd i }

abbrev service_import : Bool → ServiceImport
service_import deleting = record {
  namespace = "ns";
  name = "web";
  annotations = some ((disconnected_endpoints_key, "10.0.0.1") ∷ []);
  finalizers = mcs_finalizer ∷ [];
  is_deleting = deleting;
}

abbrev pub slice : EndpointSlice String
slice = record {
  namespace = "ns";
  name = "web-1";
  annotations = none;
  labels = none;
  address_type = "IPv4";
  endpoints = some (record { addresses = some ("10.0.0.1" ∷ "10.0.0.2" ∷ []); rest = "" } ∷ []);
  is_deleting = false;
  rest = "";
}

abbrev service : Service String
service = record {
  namespace = "ns";
  name = "web";
  resource_version = "";
  annotations = some ((service_import_label_key, mcs_label_value) ∷ []);
  type = "ClusterIP";
  cluster_ip = "None";
  ports = none;
  ip_families = some ("IPv4" ∷ []);
  ip_family_policy = some "SingleStack";
  external_traffic_policy = "";
}

abbrev listers : Bool → Listers String
listers deleting = record {
  service_import = λ namespace name. inr (service_import deleting);
  root_service = λ namespace name. inr service;
  root_slices = λ namespace name. inr (slice ∷ []);
}

clear_endpoint_slice-Cleared_example :
    ((address : String)
      → Has address (items (clear_endpoint_slice slice ("10.0.0.1" ∷ [])).endpoints)
        ↔ (Has address (items slice.endpoints) × ¬ (In address ("10.0.0.1" ∷ []))))
    × ((e : Endpoint String)
        → In e (items (clear_endpoint_slice slice ("10.0.0.1" ∷ [])).endpoints)
        → items e.addresses ≢ [])
clear_endpoint_slice-Cleared_example = clear_endpoint_slice-Cleared slice ("10.0.0.1" ∷ [])

reconcile-leftover_example :
    (reconcile "ipv4" packages (client (inl not_found)) (listers true) "ns" "web" (slice ∷ [])
      ≡ returns (
          remove_finalizer "ipv4" packages
            (client (inl not_found))
            (service_import true)
            (slice ∷ [])))
    × (slices
          (remove_finalizer "ipv4" packages
            (client (inl not_found))
            (service_import true)
            (slice ∷ [])).1
        ≡ slice ∷ [])
reconcile-leftover_example =
    reconcile-leftover "ipv4" packages (client (inl not_found)) (listers true) slices once
      (deletes (inl not_found)) "ns" "web" (service_import true) (slice ∷ []) refl refl refl

is_marked : has_annotation service.annotations service_import_label_key ≡ true
unfolding has_annotation Dict.lookup
is_marked = refl

-- The leaf cluster deletes an import whose last finalizer is gone.
store :
    (service : ApiError ⊎ Service String)
    → StoresImports packages (client service) (λ s namespace name. none)
store service = record {
  removes = λ fs. absent fs;
  writes = λ x s fs ok q. cc;
  not_there = λ x s e failed nf. refl;
  reads = λ namespace name y s e. absurd (unread y e);
  absent = λ namespace name e s q nf. refl;
}
  where
    unread : (y : ServiceImport) → ¬ (◌≡◌ {A = ApiError ⊎ ServiceImport} (inl not_found) (inr y))
    unread y e = cc

    absent :
        (fs : List String)
        → any (λ x. x == mcs_finalizer) (filter (λ x. not (x == mcs_finalizer)) fs) ≡ false
    absent [] = refl
    absent (x ∷ xs) = let rest = absent xs in ground (arith, rest)

reconcile-Deleted_example :
    Returns
      (λ (result, t).
        ((y : EndpointSlice String) → In y (slices t) → ¬ (IsOf "ns" "web" y))
        × (result ≡ none
            → (fs : List String) → ◌≡◌ {A = Option (List String)} none (some fs)
            → any (λ x. x == mcs_finalizer) fs ≡ false))
      (reconcile "ipv4" packages (client (inr service)) (listers true) "ns" "web" (slice ∷ []))
reconcile-Deleted_example =
    reconcile-Deleted "ipv4" packages (client (inr service)) (listers true) slices once
      (deletes (inr service)) (λ s namespace name. none) (store (inr service)) "ns" "web"
      (service_import true) service (slice ∷ []) refl refl refl refl is_marked refl refl
