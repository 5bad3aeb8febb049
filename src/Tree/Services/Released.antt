-- ===== src/Tree/Services/Released.antt =====
-- An import whose finalizer is taken off.
use kosmos.Base.{if-cases, option-cases, sum-cases}
use kosmos.Base.{
  String, ◌≡◌, refl, sym, subst, ◌∙◌, inl, inr, true, false, Option, none, some, List, arith,
  if◌then◌else◌,
}
use kosmos.Tree.Services.{ApiError, ServiceImport, LeafClient, Packages, mcs_finalizer}
use kosmos.Tree.Services.Import.{
  try_update_import, update_service_import, remove_finalizer, is_not_found,
}
use kosmos.Tree.Services.Leaf.{IsRetry}

-- The leaf cluster holds the finalizers of an import under its namespace and name: after a write that
-- succeeds, what is there, if anything, has those that were written; and the error that an import is
-- not found is true. A finalizer that is removed from a list is not in it.
pub record StoresImports {O S : Type 0} (packages : Packages) (client : LeafClient O S)
    (stored : S → String → String → Option (List String)) : Type 0 where
  pub removes :
      (fs : List String)
      → packages.contains_finalizer (packages.remove_finalizer fs mcs_finalizer) mcs_finalizer
        ≡ false
  pub writes :
      (x : ServiceImport) (s : S) (fs : List String)
      → (client.update_import x s).0 ≡ none
      → stored (client.update_import x s).1 x.namespace x.name ≡ some fs
      → fs ≡ x.finalizers
  pub not_there :
      (x : ServiceImport) (s : S) (e : ApiError)
      → (client.update_import x s).0 ≡ some e
      → is_not_found e ≡ true
      → stored (client.update_import x s).1 x.namespace x.name ≡ none
  pub reads :
      (namespace name : String) (y : ServiceImport) (s : S)
      → client.get_import namespace name s ≡ inr y
      → (y.namespace ≡ namespace) × (y.name ≡ name)
  pub absent :
      (namespace name : String) (e : ApiError) (s : S)
      → client.get_import namespace name s ≡ inl e
      → is_not_found e ≡ true
      → stored s namespace name ≡ none

module _ {O S : Type 0} (family : String) (packages : Packages) (client : LeafClient O S)
    (stored : S → String → String → Option (List String)) (retry : IsRetry packages)
    (store : StoresImports packages client stored) where
  -- What is stored under the name, if anything, has the finalizer no more.
  abbrev pub Released : String → String → S → Type 0
  Released namespace name s =
      (fs : List String)
      → stored s namespace name ≡ some fs
      → packages.contains_finalizer fs mcs_finalizer ≡ false

  abbrev release : ServiceImport → ServiceImport
  release i = record i { finalizers = packages.remove_finalizer i.finalizers mcs_finalizer }

  Released-none :
      (namespace name : String) (s : S) → stored s namespace name ≡ none → Released namespace name s
  Released-none namespace name s e fs q = absurd (ground (arith, e, q))

  -- The import keeps its name.
  abbrev Named : String → String → ServiceImport × S → Type 0
  Named namespace name (i, s) = (i.namespace ≡ namespace) × (i.name ≡ name)

  try-Named :
      (namespace name : String) (r : ServiceImport × S)
      → Named namespace name r
      → Named namespace name (try_update_import family packages client release r).1
  unfolding try_update_import
  try-Named namespace name (i, s) h =
      let P : Option ApiError × (ServiceImport × S) → Type 0 = λ r. Named namespace name r.1 in
      let t = (client.update_import (release i) s).1 in
      option-cases P (client.update_import (release i) s).0 _ _ (λ _. h)
        (λ e _.
          if-cases P (is_not_found e) _ _ (λ _. h)
            (λ _.
              sum-cases P (client.get_import i.namespace i.name t) _ _ (λ g _. h)
                (λ y read.
                  let (p, q) = store.reads i.namespace i.name y t read in (p ∙ h.0, q ∙ h.1))))

  try-Released :
      (i : ServiceImport) (s : S)
      → (try_update_import family packages client release (i, s)).0 ≡ none
      → Released i.namespace i.name (try_update_import family packages client release (i, s)).1.1
  unfolding try_update_import
  try-Released i s =
      let P : Option ApiError × (ServiceImport × S) → Type 0 =
        λ r. r.0 ≡ none → Released i.namespace i.name r.1.1 in
      let t = (client.update_import (release i) s).1 in
      let written : (client.update_import (release i) s).0 ≡ none → Released i.namespace i.name t =
        λ ok fs q.
          subst (λ l. packages.contains_finalizer l mcs_finalizer ≡ false)
            (sym (store.writes (release i) s fs ok q)) (store.removes i.finalizers) in
      option-cases P (client.update_import (release i) s).0 _ _ (λ ok _. written ok)
        (λ e failed.
          if-cases P (is_not_found e) _ _
            (λ nf _. Released-none i.namespace i.name t (store.not_there (release i) s e failed nf))
            (λ _.
              sum-cases P (client.get_import i.namespace i.name t) _ _
                (λ g read.
                  if-cases (λ (o : Option ApiError). o ≡ none → Released i.namespace i.name t)
                    (is_not_found g) none (some e)
                    (λ nf _.
                      Released-none i.namespace i.name t
                        (store.absent i.namespace i.name g t read nf))
                    (λ _ q. absurd (ground (arith, q))))
                (λ y read q. absurd (ground (arith, q)))))

  -- A removal that reports no error leaves the stored import without the finalizer.
  pub remove_finalizer-Released :
      (i : ServiceImport) (s : S)
      → packages.contains_finalizer i.finalizers mcs_finalizer ≡ true
      → (remove_finalizer family packages client i s).0 ≡ none
      → Released i.namespace i.name (remove_finalizer family packages client i s).1
  unfolding remove_finalizer update_service_import
  remove_finalizer-Released i s has =
      rw (has, if◌then◌else◌)
        (λ ok.
          retry.returns_success (Named i.namespace i.name) (λ r. Released i.namespace i.name r.1)
            (try_update_import family packages client release) (λ r. try-Named i.namespace i.name r)
            (λ (j, t) (p, q) done.
              let after = (try_update_import family packages client release (j, t)).1.1 in
              subst (λ n. Released i.namespace n after) q
                (subst (λ n. Released n j.name after) p (try-Released j t done)))
            (i, s) (refl, refl) ok)
