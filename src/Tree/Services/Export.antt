-- ===== src/Tree/Services/Export.antt =====
-- controllers/mcs/serviceexport_controller.go: the endpoint slices of an exported service are marked in the
-- host cluster. A round asks for another one just where it returns an error.
use kosmos.Base.{String, ◌⊎◌, inl, inr, Bool, Option, none, some, List, [], ◌∷◌, if◌then◌else◌}
use kosmos.Base.Dict
use kosmos.Base.Dict.{Dict}
use kosmos.Tree.Services.{
  ApiError, EndpointSlice, Packages, add_annotation, mcs_label_value, mcs_finalizer,
}
use kosmos.Tree.Services.Import.{is_not_found, ignore_not_found}

abbrev pub service_export_label_key : String
service_export_label_key = "kosmos.io/service-export"

pub record ServiceExport : Type 0 where
  pub namespace : String
  pub name : String
  pub finalizers : List String
  pub is_deleting : Bool

-- The client of the host cluster. A slice is written as it is given.
pub record RootClient (O S : Type 0) : Type 0 where
  pub list_slices : String → String → S → ApiError ⊎ List (EndpointSlice O)
  pub read_slice : String → String → S → ApiError ⊎ EndpointSlice O
  pub write_slice : EndpointSlice O → S → Option ApiError × S
  pub read_export : String → String → S → ApiError ⊎ ServiceExport
  pub write_export : ServiceExport → S → Option ApiError × S

unfoldable pub remove_annotation : Option (Dict String) → String → Option (Dict String)
remove_annotation none key = none
remove_annotation (some m) key = some (Dict.erase key m)

module _ {O S : Type 0} (packages : Packages) (client : RootClient O S) where
  -- One attempt: the slice is changed and written; where that fails, it is read again.
  unfoldable pub try_mark_slice :
      (Option (Dict String) → Option (Dict String))
      → EndpointSlice O × S
      → Option ApiError × (EndpointSlice O × S)
  try_mark_slice modify (eps, s) =
      let modified = record eps { annotations = modify eps.annotations } in
      let (result, t) = client.write_slice modified s in
      elim result [
        | none ↦ (none, (modified, t))
        | some e ↦
            if is_not_found e
            then (none, (modified, t))
            else elim (client.read_slice eps.namespace eps.name t) [
              | inr read ↦ (some e, (read, t))
              | inl g ↦ (if is_not_found g then none else some e, (modified, t))
            ]
      ]

  unfoldable pub mark_slice :
      (Option (Dict String) → Option (Dict String)) → EndpointSlice O → S → Option ApiError × S
  mark_slice modify eps s =
      let (result, r) = packages.retry_on_conflict (try_mark_slice modify) (eps, s) in (result, r.1)

  -- The loop leaves out the slices that are being deleted, and stops at the first error.
  unfoldable pub mark_slices :
      (Option (Dict String) → Option (Dict String))
      → List (EndpointSlice O)
      → S
      → Option ApiError × S
  mark_slices modify [] s = (none, s)
  mark_slices modify (eps ∷ eps_list) s =
      let (result, t) = mark_slice modify eps s in
      if eps.is_deleting
      then mark_slices modify eps_list s
      else elim result [ some e ↦ (some e, t) | none ↦ mark_slices modify eps_list t ]

  unfoldable pub mark_all :
      (Option (Dict String) → Option (Dict String)) → String → String → S → Option ApiError × S
  mark_all modify namespace name s = elim (client.list_slices namespace name s) [
    | inl e ↦ (some e, s)
    | inr eps_list ↦ mark_slices modify eps_list s
  ]

  abbrev pub mark : Option (Dict String) → Option (Dict String)
  mark annotations = add_annotation annotations service_export_label_key mcs_label_value

  abbrev pub unmark : Option (Dict String) → Option (Dict String)
  unmark annotations = remove_annotation annotations service_export_label_key

  abbrev pub remove_annotations : String → String → S → Option ApiError × S
  remove_annotations namespace name s = mark_all unmark namespace name s

  abbrev pub sync_service_export : ServiceExport → S → Option ApiError × S
  sync_service_export export s = mark_all mark export.namespace export.name s

  unfoldable pub try_update_export :
      (ServiceExport → ServiceExport) → ServiceExport × S → Option ApiError × (ServiceExport × S)
  try_update_export modify (export, s) =
      let modified = modify export in
      let (result, t) = client.write_export modified s in
      elim result [
        | none ↦ (none, (modified, t))
        | some e ↦
            if is_not_found e
            then (none, (modified, t))
            else elim (client.read_export export.namespace export.name t) [
              | inr read ↦ (some e, (read, t))
              | inl g ↦ (if is_not_found g then none else some e, (modified, t))
            ]
      ]

  unfoldable pub update_service_export :
      ServiceExport → (ServiceExport → ServiceExport) → S → Option ApiError × S
  update_service_export export modify s =
      let (result, r) = packages.retry_on_conflict (try_update_export modify) (export, s) in
      (result, r.1)

  unfoldable pub ensure_export_finalizer : ServiceExport → S → Option ApiError × S
  ensure_export_finalizer export s =
      if packages.contains_finalizer export.finalizers mcs_finalizer
      then (none, s)
      else update_service_export export
          (λ x. record x { finalizers = packages.add_finalizer x.finalizers mcs_finalizer }) s

  unfoldable pub remove_export_finalizer : ServiceExport → S → Option ApiError × S
  remove_export_finalizer export s =
      if packages.contains_finalizer export.finalizers mcs_finalizer
      then update_service_export export
          (λ x. record x { finalizers = packages.remove_finalizer x.finalizers mcs_finalizer }) s
      else (none, s)

  unfoldable pub reconcile_export : String → String → S → Option ApiError × S
  reconcile_export namespace name s = elim (client.read_export namespace name s) [
    | inl e ↦ (ignore_not_found (some e), s)
    | inr export ↦
        if export.is_deleting
        then (let (result, t) = remove_annotations namespace name s in
            elim result [ some e ↦ (some e, t) | none ↦ remove_export_finalizer export t ])
        else (let (result, t) = sync_service_export export s in
            elim result [ some e ↦ (some e, t) | none ↦ ensure_export_finalizer export t ])
  ]
