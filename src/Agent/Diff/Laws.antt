-- ===== src/Agent/Diff/Laws.antt =====
-- What `compareFunc` and `Diff` return, as sets of entries.
use kosmos.Base.{
  ◌≡◌, refl, ◌↔◌, ◌⊎◌, inl, inr, Bool, true, not, none, some, List, [], ◌∷◌, Slice, items, any,
  length, Decides, In, In-filter, filter-In, any-In, In-any, Bool-cases, arith, sym, subst,
}
use kosmos.Agent.Diff.{missing, compare_func}

module _ {A : Type 0} (f : A → A → Bool) (decides : Decides f) where
  any_of_In : (a : A) (ys : List A) → In a ys → any (f a) ys ≡ true
  any_of_In a ys m = In-any (f a) a ys m ((decides a a).1 refl)

  In_of_any : (a : A) (ys : List A) → any (f a) ys ≡ true → In a ys
  In_of_any a ys h =
      let r = any-In (f a) ys h in subst (λ x. In x ys) (sym ((decides a r.0).0 r.2)) r.1

  pub In_or_not : (a : A) (ys : List A) → In a ys ⊎ (¬ In a ys)
  In_or_not a ys = elim (Bool-cases (any (f a) ys)) [
    | inl e ↦ inl (In_of_any a ys e)
    | inr e ↦ inr (λ m. ground (arith, any_of_In a ys m))
  ]

  pub missing-In : (a : A) (xs ys : List A) → In a (missing f xs ys) ↔ (In a xs × ¬ In a ys)
  missing-In a xs ys = (
    λ m. let r = filter-In _ a xs m in (r.0, λ k. ground (arith, r.1, any_of_In a ys k)),
    λ r. In-filter _ a xs r.0 (absent r.1),
  )
    where
      absent : ¬ In a ys → not (any (f a) ys) ≡ true
      absent h = elim (Bool-cases (any (f a) ys)) [
        | inl e ↦ absurd (h (In_of_any a ys e))
        | inr e ↦ rw (e, not)
      ]

  -- For a test that decides equality, on every branch, nil slices included, the first slice
  -- returned has exactly the entries of the old side that the new one lacks, and the second those
  -- of the new side that the old one lacks.
  pub compare_func_lem :
      (old new : Slice A) (a : A)
      → let d = compare_func old new f in
        (In a (items d.deleted) ↔ (In a (items old) × ¬ In a (items new)))
        × (In a (items d.created) ↔ (In a (items new) × ¬ In a (items old)))
  unfolding compare_func
  compare_func_lem none none a = ((λ m. absurd m, λ r. r.0), (λ m. absurd m, λ r. r.0))
  compare_func_lem none (some new) a = ((λ m. absurd m, λ r. r.0), (λ m. (m, λ k. k), λ r. r.0))
  compare_func_lem (some old) none a = ((λ m. (m, λ k. k), λ r. r.0), (λ m. absurd m, λ r. r.0))
  compare_func_lem (some old) (some new) a = (missing-In a old new, missing-In a new old)

  missing-nil : (xs ys : List A) → length (missing f xs ys) ≡ 0 → (a : A) → In a xs → In a ys
  missing-nil xs ys h a m = elim (Bool-cases (any (f a) ys)) [
    | inl e ↦ In_of_any a ys e
    | inr e ↦ absurd (no_member (missing f xs ys) h (In-filter _ a xs m (rw (e, not))))
  ]
    where
      no_member : (zs : List A) → length zs ≡ 0 → ¬ In a zs
      no_member [] e k = k
      no_member (z ∷ zs) e k = absurd (omega arith)

  -- For a test that decides equality, where the comparison returns that the two sides are the same,
  -- they have the same entries.
  pub compare_func-same :
      (old new : Slice A)
      → (compare_func old new f).is_same ≡ true
      → (a : A) → In a (items old) ↔ In a (items new)
  unfolding compare_func
  compare_func-same none none h a = (λ m. m, λ m. m)
  compare_func-same none (some new) h a = cc
  compare_func-same (some old) none h a = cc
  compare_func-same (some old) (some new) h a =
      (missing-nil old new (ground arith) a, missing-nil new old (ground arith) a)
