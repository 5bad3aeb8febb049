-- ===== src/Tree/Services/Marking.antt =====
-- One endpoint slice after another is changed: what an attempt leaves, the next ones keep.
use kosmos.Base.{if-cases, option-cases, sum-cases}
use kosmos.Base.{
  String, ◌≡◌, refl, sym, ap, subst, ◌∙◌, inl, inr, false, Option, none, List, [], ◌∷◌, arith, In,
}
use kosmos.Base.Dict.{Dict}
use kosmos.Tree.Services.{ApiError, EndpointSlice, Packages}
use kosmos.Tree.Services.Import.{is_not_found}
use kosmos.Tree.Services.Leaf.{IsRetry}
use kosmos.Tree.Services.Export.{
  ServiceExport, RootClient, try_mark_slice, mark_slice, mark_slices, try_update_export,
  update_service_export,
}
use kosmos.Tree.Services.Exported.{IsHost, Done, Named, try-keeps, try-Done, try-Named}

module _ {O S : Type 0} (packages : Packages) (client : RootClient O S)
    (view : S → String → String → Option (Option (Dict String))) (retry : IsRetry packages)
    (host : IsHost view client) where
  module _ (modify : Option (Dict String) → Option (Dict String))
      (Good : Option (Dict String) → Type 0)
      (good : (a : Option (Dict String)) → Good (modify a)) where
    abbrev pub IsDone : String → String → S → Type 0
    IsDone namespace name s = Done packages client view retry host modify Good good namespace name s

    mark_slice-keeps :
        (namespace name : String) (x : EndpointSlice O) (s : S)
        → IsDone namespace name s
        → IsDone namespace name (mark_slice packages client modify x s).1
    unfolding mark_slice
    mark_slice-keeps namespace name x s h =
        retry.calls (λ r. IsDone namespace name r.1) (try_mark_slice packages client modify)
          (λ r before.
            try-keeps packages client view retry host modify Good good namespace name r before)
          (x, s) h

    mark_slice-IsDone :
        (x : EndpointSlice O) (s : S)
        → (mark_slice packages client modify x s).0 ≡ none
        → IsDone x.namespace x.name (mark_slice packages client modify x s).1
    unfolding mark_slice Named
    mark_slice-IsDone x s ok =
        retry.returns_success
          (Named packages client view retry host modify Good good x.namespace x.name)
          (λ r. IsDone x.namespace x.name r.1) (try_mark_slice packages client modify)
          (λ r. try-Named packages client view retry host modify Good good x.namespace x.name r)
          (λ (y, t) (p, q) done.
            subst (λ n. IsDone x.namespace n (try_mark_slice packages client modify (y, t)).1.1) q
              (subst (λ n. IsDone n y.name (try_mark_slice packages client modify (y, t)).1.1) p
                (try-Done packages client view retry host modify Good good y t done)))
          (x, s) (refl, refl) ok

    mark_slices-keeps :
        (namespace name : String) (xs : List (EndpointSlice O)) (s : S)
        → IsDone namespace name s
        → IsDone namespace name (mark_slices packages client modify xs s).1
    unfolding mark_slices
    mark_slices-keeps namespace name [] s h = h
    mark_slices-keeps namespace name (x ∷ xs) s h =
        let P : Option ApiError × S → Type 0 = λ r. IsDone namespace name r.1 in
        let after = mark_slice-keeps namespace name x s h in
        if-cases P x.is_deleting _ _ (λ _. mark_slices-keeps namespace name xs s h)
          (λ _.
            option-cases P (mark_slice packages client modify x s).0 _ _
              (λ _. mark_slices-keeps namespace name xs _ after) (λ e _. after))

    pub mark_slices-IsDone :
        (xs : List (EndpointSlice O)) (s : S)
        → (mark_slices packages client modify xs s).0 ≡ none
        → (x : EndpointSlice O) → In x xs
        → x.is_deleting ≡ false
        → IsDone x.namespace x.name (mark_slices packages client modify xs s).1
    unfolding mark_slices
    mark_slices-IsDone [] s ok x i live = absurd i
    mark_slices-IsDone (y ∷ xs) s ok x i live =
        if-cases P y.is_deleting _ _
          (λ deleting q. elim i [
            | inl same ↦
                absurd
                  (ground (arith, deleting, live, ap (λ (z : EndpointSlice O). z.is_deleting) same))
            | inr j ↦ mark_slices-IsDone xs s q x j live
          ])
          (λ _.
            option-cases P (mark_slice packages client modify y s).0 _ _
              (λ written q. elim i [
                | inl same ↦ mark_slices-keeps x.namespace x.name xs t (
                    subst (λ (z : EndpointSlice O). IsDone z.namespace z.name t) (sym same)
                      (mark_slice-IsDone y s written))
                | inr j ↦ mark_slices-IsDone xs t q x j live
              ])
              (λ e _ q. absurd (ground (arith, q))))
          ok
      where
        t : S
        t = (mark_slice packages client modify y s).1

        P : Option ApiError × S → Type 0
        P r = r.0 ≡ none → IsDone x.namespace x.name r.1

    pub update_export-keeps :
        (namespace name : String) (export : ServiceExport) (change : ServiceExport → ServiceExport)
        (s : S)
        → IsDone namespace name s
        → IsDone namespace name (update_service_export packages client export change s).1
    unfolding update_service_export try_update_export
    update_export-keeps namespace name export change s h =
        retry.calls (λ r. IsDone namespace name r.1) (try_update_export packages client change)
          (λ (x, t) before.
            let after : IsDone namespace name (client.write_export (change x) t).1 =
              λ a q. before a (sym (host.exports (change x) t namespace name) ∙ q) in
            let P : Option ApiError × (ServiceExport × S) → Type 0 =
              λ r. IsDone namespace name r.1.1 in
            option-cases P (client.write_export (change x) t).0 _ _ (λ _. after)
              (λ e _.
                if-cases P (is_not_found e) _ _ (λ _. after)
                  (λ _.
                    sum-cases P
                      (client.read_export x.namespace x.name (client.write_export (change x) t).1) _
                      _ (λ g _. after) (λ y _. after))))
          (export, s) h
