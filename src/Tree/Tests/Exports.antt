-- ===== src/Tree/Tests/Exports.antt =====
-- An export, in a host cluster that is the annotations of one endpoint slice.
use kosmos.Base.{
  String, ◌≡◌, refl, sym, ap, ◌⊎◌, inl, inr, Bool, true, false, ◌&&◌, Option, none, some, [], ◌∷◌,
  arith, eq_iff, ◌==◌, if◌then◌else◌,
}
use kosmos.Base.{if-cases}
use kosmos.Base.Dict
use kosmos.Base.Dict.{Dict}
use kosmos.Tree.Services.{
  has_annotation, ApiError, not_found, EndpointSlice, mcs_label_value, mcs_finalizer,
}
use kosmos.Tree.Services.Export.{
  remove_annotation, ServiceExport, RootClient, service_export_label_key, reconcile_export,
  mark_all, mark_slices, mark_slice, try_mark_slice, remove_export_finalizer, update_service_export,
  try_update_export,
}
use kosmos.Tree.Services.Exported.{IsHost}
use kosmos.Tree.Services.Marked.{reconcile_export-has_annotation}
use kosmos.Tree.Tests.Services.{packages, once, slice}

abbrev Annotations : Type 0
Annotations = Option (Dict String)

abbrev is_slice : String → String → Bool
is_slice namespace name = namespace == "ns" && name == "web-1"

abbrev service_export : ServiceExport
service_export = record {
  namespace = "ns";
  name = "web";
  finalizers = mcs_finalizer ∷ [];
  is_deleting = true;
}

abbrev client : RootClient String Annotations
client = record {
  list_slices = λ namespace name s. inr (record slice { annotations = s } ∷ []);
  read_slice = λ namespace name s.
      if is_slice namespace name
      then inr (record slice { namespace = namespace; name = name; annotations = s })
      else inl not_found;
  write_slice =
      λ x s. if is_slice x.namespace x.name then (none, x.annotations) else (some not_found, s);
  read_export =
      λ namespace name s. inr (record service_export { namespace = namespace; name = name });
  write_export = λ x s. (none, s);
}

abbrev view : Annotations → String → String → Option Annotations
view s namespace name = if is_slice namespace name then some s else none

written :
    (x : EndpointSlice String) (s : Annotations)
    → (client.write_slice x s).0 ≡ none
    → view (client.write_slice x s).1 x.namespace x.name ≡ some x.annotations
written x s ok = ground arith

others :
    (x : EndpointSlice String) (s : Annotations) (namespace name : String)
    → ¬ ((x.namespace ≡ namespace) × (x.name ≡ name))
    → view (client.write_slice x s).1 namespace name ≡ view s namespace name
others x s namespace name differ = ground (
  arith,
  eq_iff x.namespace "ns",
  eq_iff x.name "web-1",
  eq_iff namespace "ns",
  eq_iff name "web-1",
)

host : IsHost view client
host = record {
  writes = written;
  others = others;
  fails = λ x s e namespace name failed. ground arith;
  not_there = λ x s e failed nf. ground arith;
  reads = λ namespace name y s.
      if-cases
        (λ (o : ApiError ⊎ EndpointSlice String).
          o ≡ inr y → (y.namespace ≡ namespace) × (y.name ≡ name))
        (is_slice namespace name) _ _
        (λ _ e.
          let same : record slice { namespace = namespace; name = name; annotations = s } ≡ y =
            ground (arith, e) in
          (
            sym (ap (λ (x : EndpointSlice String). x.namespace) same),
            sym (ap (λ (x : EndpointSlice String). x.name) same),
          ))
        (λ _ e. absurd (ground (arith, e)));
  absent = λ namespace name e s q nf. ground arith;
  reads_export = λ namespace name y s e.
      let same : record service_export { namespace = namespace; name = name } ≡ y =
        ground (arith, e) in
      (
        sym (ap (λ (x : ServiceExport). x.namespace) same),
        sym (ap (λ (x : ServiceExport). x.name) same),
      );
  exports = λ x s namespace name. refl;
}

abbrev exported : Annotations
exported = some ((service_export_label_key, mcs_label_value) ∷ [])

ended : (reconcile_export packages client "ns" "web" exported).0 ≡ none
unfolding remove_annotation Dict.erase reconcile_export mark_all mark_slices mark_slice
    try_mark_slice remove_export_finalizer update_service_export try_update_export
ended = refl

left : view (reconcile_export packages client "ns" "web" exported).1 "ns" "web-1" ≡ some (some [])
unfolding remove_annotation Dict.erase reconcile_export mark_all mark_slices mark_slice
    try_mark_slice remove_export_finalizer update_service_export try_update_export
left = refl

reconcile_export-has_annotation_example : has_annotation (some []) service_export_label_key ≡ false
reconcile_export-has_annotation_example =
    reconcile_export-has_annotation packages client view once host "ns" "web" service_export
      (record slice { annotations = exported } ∷ []) exported refl refl ended
      (record slice { annotations = exported }) (inl refl) refl (some []) left
