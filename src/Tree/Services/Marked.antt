-- ===== src/Tree/Services/Marked.antt =====
-- A round of the export marks every slice, and one of its deletion takes every mark off.
use kosmos.Base.{if-cases, option-cases, sum-cases}
use kosmos.Base.{
  String, ◌≡◌, refl, sym, ap, subst, ◌∙◌, inr, Bool, true, false, not, Option, none, some, List, [],
  arith, eq_iff, In,
}
use kosmos.Base.Dict
use kosmos.Base.Dict.{Dict}
use kosmos.Tree.Services.{
  ApiError, EndpointSlice, Packages, has_annotation, add_annotation, mcs_label_value, mcs_finalizer,
}
use kosmos.Tree.Services.Leaf.{IsRetry}
use kosmos.Tree.Services.Export.{
  ServiceExport, RootClient, remove_annotation, service_export_label_key, mark_slices, mark_all,
  mark, unmark, update_service_export, ensure_export_finalizer, remove_export_finalizer,
  reconcile_export,
}
use kosmos.Tree.Services.Exported.{IsHost}
use kosmos.Tree.Services.Marking.{mark_slices-IsDone, update_export-keeps}

module _ {O S : Type 0} (packages : Packages) (client : RootClient O S)
    (view : S → String → String → Option (Option (Dict String))) (retry : IsRetry packages)
    (host : IsHost view client) where
  mark-has :
      (a : Option (Dict String))
      → has_annotation (mark packages client a) service_export_label_key ≡ true
  unfolding has_annotation add_annotation
  mark-has none =
      let w =
        Dict.lookup-insert service_export_label_key service_export_label_key mcs_label_value [] in
      ground (arith, w, eq_iff service_export_label_key service_export_label_key)
  mark-has (some m) =
      let w =
        Dict.lookup-insert service_export_label_key service_export_label_key mcs_label_value m in
      ground (arith, w, eq_iff service_export_label_key service_export_label_key)

  unmark-has :
      (a : Option (Dict String))
      → has_annotation (unmark packages client a) service_export_label_key ≡ false
  unfolding has_annotation remove_annotation
  unmark-has none = refl
  unmark-has (some m) =
      let w = Dict.lookup-erase service_export_label_key service_export_label_key m in
      ground (arith, w, eq_iff service_export_label_key service_export_label_key)

  -- Whether a slice has the mark.
  abbrev Marked : Bool → Option (Dict String) → Type 0
  Marked b a = has_annotation a service_export_label_key ≡ b

  -- Each listed slice that is not being deleted has, in the cluster, the mark or not.
  abbrev AllMarked : Bool → List (EndpointSlice O) → S → Type 0
  AllMarked b xs t =
      (x : EndpointSlice O)
      → In x xs
      → x.is_deleting ≡ false
      → (a : Option (Dict String)) → view t x.namespace x.name ≡ some a
      → has_annotation a service_export_label_key ≡ b

  mark_slices-AllMarked :
      (modify : Option (Dict String) → Option (Dict String)) (b : Bool)
      (good : (a : Option (Dict String)) → Marked b (modify a)) (xs : List (EndpointSlice O))
      (s : S)
      → (mark_slices packages client modify xs s).0 ≡ none
      → AllMarked b xs (mark_slices packages client modify xs s).1
  mark_slices-AllMarked modify b good xs s ok x i live =
      mark_slices-IsDone packages client view retry host modify (Marked b) good xs s ok x i live

  updated :
      (b : Bool) (xs : List (EndpointSlice O)) (export : ServiceExport)
      (change : ServiceExport → ServiceExport) (s : S)
      → AllMarked b xs s
      → AllMarked b xs (update_service_export packages client export change s).1
  updated true xs export change s h x i live =
      update_export-keeps packages client view retry host (mark packages client) (Marked true)
        mark-has x.namespace x.name export change s (h x i live)
  updated false xs export change s h x i live =
      update_export-keeps packages client view retry host (unmark packages client) (Marked false)
        unmark-has x.namespace x.name export change s (h x i live)

  remove_export_finalizer-keeps :
      (b : Bool) (xs : List (EndpointSlice O)) (export : ServiceExport) (s : S)
      → AllMarked b xs s
      → AllMarked b xs (remove_export_finalizer packages client export s).1
  unfolding remove_export_finalizer
  remove_export_finalizer-keeps b xs export s h =
      if-cases (λ (r : Option ApiError × S). AllMarked b xs r.1)
        (packages.contains_finalizer export.finalizers mcs_finalizer) _ _
        (λ _. updated b xs export _ s h) (λ _. h)

  ensure_export_finalizer-keeps :
      (b : Bool) (xs : List (EndpointSlice O)) (export : ServiceExport) (s : S)
      → AllMarked b xs s
      → AllMarked b xs (ensure_export_finalizer packages client export s).1
  unfolding ensure_export_finalizer
  ensure_export_finalizer-keeps b xs export s h =
      if-cases (λ (r : Option ApiError × S). AllMarked b xs r.1)
        (packages.contains_finalizer export.finalizers mcs_finalizer) _ _ (λ _. h)
        (λ _. updated b xs export _ s h)

  -- The slices of the service are marked, and then a step follows that leaves them alone.
  Ends : Bool → List (EndpointSlice O) → Option ApiError × S → Type 0
  Ends b xs r = r.0 ≡ none → AllMarked b xs r.1

  mark_all-listed :
      (modify : Option (Dict String) → Option (Dict String)) (namespace name : String)
      (xs : List (EndpointSlice O)) (s : S)
      → client.list_slices namespace name s ≡ inr xs
      → mark_slices packages client modify xs s ≡ mark_all packages client modify namespace name s
  unfolding mark_all
  mark_all-listed modify namespace name xs s listed =
      sum-cases (λ (r : Option ApiError × S). mark_slices packages client modify xs s ≡ r)
        (client.list_slices namespace name s) _ _ (λ e q. absurd (ground (arith, q, listed)))
        (λ ys q.
          let same : xs ≡ ys = ground (arith, q, listed) in
          ap (λ l. mark_slices packages client modify l s) same)

  after_marks :
      (modify : Option (Dict String) → Option (Dict String)) (b : Bool)
      (good : (a : Option (Dict String)) → Marked b (modify a)) (namespace name : String)
      (xs : List (EndpointSlice O)) (s : S) (step : S → Option ApiError × S)
      (keeps : (t : S) → AllMarked b xs t → AllMarked b xs (step t).1)
      → client.list_slices namespace name s ≡ inr xs
      → (c : Bool) → b ≡ c
      → Ends c xs (
          let (result, t) = mark_all packages client modify namespace name s in
          elim result [ some e ↦ (some e, t) | none ↦ step t ])
  unfolding Ends
  after_marks modify b good namespace name xs s step keeps listed c same =
      subst
        (λ v. Ends v xs (
          let (result, t) = mark_all packages client modify namespace name s in
          elim result as (λ _. Option ApiError × S) [ some e ↦ (some e, t) | none ↦ step t ]))
        same
        (subst
          (λ r.
            Ends b xs
              (elim r.0 as (λ _. Option ApiError × S) [ some e ↦ (some e, r.1) | none ↦ step r.1 ]))
          (mark_all-listed modify namespace name xs s listed)
          (option-cases (Ends b xs) (mark_slices packages client modify xs s).0 _ _
            (λ ok _. keeps _ (mark_slices-AllMarked modify b good xs s ok))
            (λ e _ q. absurd (ground (arith, q)))))

  -- Where the export of the key is read and the slices of its service are listed, and the round ends without
  -- an error, then each of those slices that is not being deleted and that the host cluster still has, has the
  -- mark there if the export is not being deleted, and has it not if it is.
  pub reconcile_export-has_annotation :
      (namespace name : String) (export : ServiceExport) (xs : List (EndpointSlice O)) (s : S)
      → client.read_export namespace name s ≡ inr export
      → client.list_slices namespace name s ≡ inr xs
      → (reconcile_export packages client namespace name s).0 ≡ none
      → (x : EndpointSlice O) → In x xs
      → x.is_deleting ≡ false
      → (a : Option (Dict String))
      → view (reconcile_export packages client namespace name s).1 x.namespace x.name ≡ some a
      → has_annotation a service_export_label_key ≡ not export.is_deleting
  unfolding reconcile_export Ends
  reconcile_export-has_annotation namespace name export xs s found listed =
      sum-cases (Ends (not export.is_deleting) xs) (client.read_export namespace name s) _ _
        (λ e read. absurd (ground (arith, read, found)))
        (λ y read.
          let same : y ≡ export = ground (arith, read, found) in
          let (p, q) = host.reads_export namespace name y s read in
          if-cases (Ends (not export.is_deleting) xs) y.is_deleting _ _
            (λ d.
              after_marks (unmark packages client) false unmark-has namespace name xs s
                (remove_export_finalizer packages client y)
                (remove_export_finalizer-keeps false xs y) listed (not export.is_deleting)
                (ap not (sym d) ∙ ap (λ z. not z.is_deleting) same))
            (λ d.
              after_marks (mark packages client) true mark-has y.namespace y.name xs s
                (ensure_export_finalizer packages client y)
                (ensure_export_finalizer-keeps true xs y)
                (subst (λ n. client.list_slices y.namespace n s ≡ inr xs) (sym q)
                  (subst (λ n. client.list_slices n name s ≡ inr xs) (sym p) listed))
                (not export.is_deleting) (ap not (sym d) ∙ ap (λ z. not z.is_deleting) same)))
