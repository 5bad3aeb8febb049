-- ===== src/Tree/Services.antt =====
-- pkg/clustertree/cluster-manager/controllers/mcs/serviceimport_controller.go and pkg/utils/helper/mcs.go:
-- a service of the host cluster and its endpoints are imported into a leaf cluster. The clients, the
-- listers, the retries of client-go, the finalizers of controller-runtime and the splitting of texts are
-- parameters. `O` is what is copied without being read.
pub mod Import
pub mod Reconcile
pub mod Cleared
pub mod Leaf
pub mod Round
pub mod Returning
pub mod Export
pub mod Exported
pub mod Marking
pub mod Marked
pub mod Released
pub mod Deleted
use kosmos.Base.{
  ℕ, suc, ◌+◌, ◌-◌, ◌≤◌, ◌<◌, String, ◌≡◌, refl, sym, ap, subst, ◌∙◌, ◌≢◌, ◌↔◌, ◌⊎◌, inl, inr, Bool,
  true, false, not, ◌&&◌, ◌||◌, Option, none, some, List, [], ◌∷◌, ◌++◌, map, arith, eq_iff, ◌==◌,
  if◌then◌else◌, leb, nat_beq, Bool-cases, Option-cases, is_some, length, any, filter, find,
  filter_map, flat_map, In, All, In-any, any-In, any-false, In-append, In-append_left,
  In-append_right, In-map, In-filter, filter-In, All-In, All-of_In, find-In, filter_map-In,
  flat_map-In, Slice, items, Outcome, returns, panics, ◌>>=◌, deref, for_each, Returns,
  Returns-bind, Returns-mono, for_each-Returns,
}
use kosmos.Base.Dict
use kosmos.Base.Dict.{Dict}
use kosmos.Api.Cluster.{ip_family_all, ip_family_ipv4, ip_family_ipv6}

abbrev pub service_key : String
service_key = "kubernetes.io/service-name"

abbrev pub service_import_label_key : String
service_import_label_key = "kosmos.io/service-import"

abbrev pub mcs_label_value : String
mcs_label_value = "ture"

abbrev pub service_endpoints_key : String
service_endpoints_key = "kosmos.io/address"

abbrev pub disconnected_endpoints_key : String
disconnected_endpoints_key = "kosmos.io/disconnected-address"

abbrev pub mcs_finalizer : String
mcs_finalizer = "kosmos.io/multi-cluster-service-finalizer"

-- The errors that the code tells apart.
pub data ApiError : Type 0 where
  not_found : ApiError
  already_exists : ApiError
  conflict : ApiError
  failed : ApiError

pub record ServiceImport : Type 0 where
  pub namespace : String
  pub name : String
  pub annotations : Option (Dict String)
  pub finalizers : List String
  pub is_deleting : Bool

pub record Endpoint (O : Type 0) : Type 0 where
  pub addresses : Slice String
  pub rest : O

pub record EndpointSlice (O : Type 0) : Type 0 where
  pub namespace : String
  pub name : String
  pub annotations : Option (Dict String)
  pub labels : Option (Dict String)
  pub address_type : String
  pub endpoints : Slice (Endpoint O)
  pub is_deleting : Bool
  pub rest : O

pub record ServicePort (O : Type 0) : Type 0 where
  pub copied : O
  pub target_port : Option O

pub record Service (O : Type 0) : Type 0 where
  pub namespace : String
  pub name : String
  pub resource_version : String
  pub annotations : Option (Dict String)
  pub type : String
  pub cluster_ip : String
  pub ports : Slice (ServicePort O)
  pub ip_families : Slice String
  pub ip_family_policy : Option String
  pub external_traffic_policy : String

-- The client of the leaf cluster. A call that fails may change the cluster too.
pub record LeafClient (O S : Type 0) : Type 0 where
  pub get_service : String → String → S → ApiError ⊎ Service O
  pub create_service : Service O → S → Option ApiError × S
  pub update_service : Service O → S → Option ApiError × S
  pub delete_service : Service O → S → Option ApiError × S
  pub delete_slices : String → String → S → Option ApiError × S
  pub get_slice : String → String → S → ApiError ⊎ EndpointSlice O
  pub create_slice : EndpointSlice O → S → Option ApiError × S
  pub update_slice : EndpointSlice O → S → Option ApiError × S
  pub get_import : String → String → S → ApiError ⊎ ServiceImport
  pub update_import : ServiceImport → S → Option ApiError × S

-- The lister of the leaf cluster's imports, and those of the host cluster.
pub record Listers (O : Type 0) : Type 0 where
  pub service_import : String → String → ApiError ⊎ ServiceImport
  pub root_service : String → String → ApiError ⊎ Service O
  pub root_slices : String → String → ApiError ⊎ List (EndpointSlice O)

-- The functions of other packages.
pub record Packages : Type 1 where
  pub retry_on_conflict : {T : Type 0} → (T → Option ApiError × T) → T → Option ApiError × T
  pub contains_finalizer : List String → String → Bool
  pub add_finalizer : List String → String → List String
  pub remove_finalizer : List String → String → List String
  pub split : String → List String
  pub join : List String → String

unfoldable pub has_annotation : Option (Dict String) → String → Bool
has_annotation none key = false
has_annotation (some m) key = is_some (Dict.lookup key m)

-- The zero value for a missing key and for nil.
unfoldable pub get_label_or_annotation_value : Option (Dict String) → String → String
get_label_or_annotation_value none key = ""
get_label_or_annotation_value (some m) key = elim (Dict.lookup key m) [ none ↦ "" | some v ↦ v ]

unfoldable pub add_annotation : Option (Dict String) → String → String → Option (Dict String)
add_annotation none key value = some (Dict.insert key value [])
add_annotation (some m) key value = some (Dict.insert key value m)

module _ {O : Type 0} where
  unfoldable pub clear_endpoint : List String → Endpoint O → Endpoint O
  clear_endpoint disconnected e = record e {
    addresses =
        some (
          filter (λ address. not (any (λ name. name == address) disconnected)) (items e.addresses));
  }

  -- An endpoint without addresses is left out.
  unfoldable pub clear_endpoints : List String → List (Endpoint O) → List (Endpoint O)
  clear_endpoints disconnected [] = []
  clear_endpoints disconnected (e ∷ endpoints) =
      let cleared = clear_endpoint disconnected e in
      let rest = clear_endpoints disconnected endpoints in
      elim (items cleared.addresses) [ [] ↦ rest | _ ∷ _ ↦ cleared ∷ rest ]

  unfoldable pub clear_endpoint_slice : EndpointSlice O → List String → EndpointSlice O
  clear_endpoint_slice slice disconnected = record slice {
    endpoints = some (clear_endpoints disconnected (items slice.endpoints));
  }

  unfoldable pub retain_endpoint_slice : EndpointSlice O → String → EndpointSlice O
  retain_endpoint_slice original service_name = record original {
    annotations = add_annotation none service_import_label_key mcs_label_value;
    labels = add_annotation none service_key service_name;
    is_deleting = false;
  }
