-- ===== src/Base/Lists.antt =====
-- Lists: a Boolean `any`, a Boolean `filter`, and membership by recursion, with the laws that join
-- them. Membership is over `Type 0`, where all of the program's data stands.
use Prim.Native.Nat.{ℕ, suc}
use mathlib.Core.Path.{◌≡◌, refl, ap, subst}
use mathlib.Core.Logic.{◌⊎◌, inl, inr}
use mathlib.Core.Bool.{Bool, true, false, not, ◌||◌}
use mathlib.Core.Option.{Option, none, some}
use mathlib.Core.List.{List, [], ◌∷◌, ◌++◌, map}
use native.Mathlib.Omega.{arith}
use kosmos.Base.Tests.{if◌then◌else◌, Bool-cases, Option-cases}

module _ {ℓ} {A : Type ℓ} where
  abbrev pub length : List A → ℕ
  length [] = 0
  length (x ∷ xs) = suc (length xs)

  abbrev pub any : (A → Bool) → List A → Bool
  any p [] = false
  any p (x ∷ xs) = p x || any p xs

  abbrev pub filter : (A → Bool) → List A → List A
  filter p [] = []
  filter p (x ∷ xs) = let rest = filter p xs in if p x then x ∷ rest else rest

module _ {ℓ} {A : Type ℓ} where
  -- The first element that passes the test.
  abbrev pub find : (A → Bool) → List A → Option A
  find p [] = none
  find p (x ∷ xs) = if p x then some x else find p xs

  abbrev pub filter_map {κ} : {B : Type κ} → (A → Option B) → List A → List B
  filter_map f [] = []
  filter_map f (x ∷ xs) =
      let rest = filter_map f xs in elim (f x) [ none ↦ rest | some b ↦ b ∷ rest ]

  abbrev pub flat_map {κ} : {B : Type κ} → (A → List B) → List A → List B
  flat_map f [] = []
  flat_map f (x ∷ xs) = f x ++ flat_map f xs

module _ {A : Type 0} where
  abbrev pub In : A → List A → Type 0
  In a [] = ⊥
  In a (x ∷ xs) = (a ≡ x) ⊎ In a xs

  abbrev pub All : (A → Type 0) → List A → Type 0
  All P [] = Unit
  All P (x ∷ xs) = P x × All P xs

module _ {A : Type 0} where
  pub In-append_left : (a : A) (xs ys : List A) → In a xs → In a (xs ++ ys)
  In-append_left a [] ys m = absurd m
  In-append_left a (x ∷ xs) ys (inl e) = inl e
  In-append_left a (x ∷ xs) ys (inr m) = inr (In-append_left a xs ys m)

  pub In-append_right : (a : A) (xs ys : List A) → In a ys → In a (xs ++ ys)
  In-append_right a [] ys m = m
  In-append_right a (x ∷ xs) ys m = inr (In-append_right a xs ys m)

  pub In-append : (a : A) (xs ys : List A) → In a (xs ++ ys) → In a xs ⊎ In a ys
  In-append a [] ys m = inr m
  In-append a (x ∷ xs) ys (inl e) = inl (inl e)
  In-append a (x ∷ xs) ys (inr m) = elim (In-append a xs ys m) [
    | inl l ↦ inl (inr l)
    | inr r ↦ inr r
  ]

  pub In-map : {B : Type 0} (f : A → B) (a : A) (xs : List A) → In a xs → In (f a) (map f xs)
  In-map f a [] m = absurd m
  In-map f a (x ∷ xs) (inl e) = inl (ap f e)
  In-map f a (x ∷ xs) (inr m) = inr (In-map f a xs m)

  pub In-filter : (p : A → Bool) (a : A) (xs : List A) → In a xs → p a ≡ true → In a (filter p xs)
  In-filter p a [] m h = absurd m
  In-filter p a (x ∷ xs) (inl e) h = ground (arith, ap p e)
  In-filter p a (x ∷ xs) (inr m) h = ground (arith, In-filter p a xs m h)

  -- What a filter keeps was there, and passes the test.
  pub filter-In : (p : A → Bool) (a : A) (xs : List A) → In a (filter p xs) → In a xs × (p a ≡ true)
  filter-In p a [] m = absurd m
  filter-In p a (x ∷ xs) m = elim (Bool-cases (p x)) [
    | inl h ↦ elim (kept h) [
      | inl e ↦ (inl e, rw e h)
      | inr k ↦ let r = filter-In p a xs k in (inr r.0, r.1)
    ]
    | inr h ↦ let r = filter-In p a xs (dropped h) in (inr r.0, r.1)
  ]
    where
      kept : p x ≡ true → (a ≡ x) ⊎ In a (filter p xs)
      kept h = rw (h, if◌then◌else◌) at m

      dropped : p x ≡ false → In a (filter p xs)
      dropped h = rw (h, if◌then◌else◌) at m

  -- `any p` finds an element.
  pub any-In : (p : A → Bool) (xs : List A) → any p xs ≡ true → (a : A) × In a xs × (p a ≡ true)
  any-In p [] h = cc
  any-In p (x ∷ xs) h = elim (Bool-cases (p x)) [
    | inl e ↦ (x, inl refl, e)
    | inr e ↦ let r = any-In p xs (ground arith) in (r.0, inr r.1, r.2)
  ]

  pub In-any : (p : A → Bool) (a : A) (xs : List A) → In a xs → p a ≡ true → any p xs ≡ true
  In-any p a [] m h = absurd m
  In-any p a (x ∷ xs) (inl e) h = ground (arith, ap p e)
  In-any p a (x ∷ xs) (inr m) h = ground (arith, In-any p a xs m h)

  pub any-false : (p : A → Bool) (xs : List A) → any p xs ≡ false → (a : A) → In a xs → p a ≡ false
  any-false p [] h a m = absurd m
  any-false p (x ∷ xs) h a (inl e) = ground (arith, ap p e)
  any-false p (x ∷ xs) h a (inr m) = any-false p xs (ground arith) a m

  pub All-In : (P : A → Type 0) (xs : List A) → All P xs → (a : A) → In a xs → P a
  All-In P [] h a m = absurd m
  All-In P (x ∷ xs) h a (inl e) = rw e h.0
  All-In P (x ∷ xs) h a (inr m) = All-In P xs h.1 a m

  pub All-of_In : (P : A → Type 0) (xs : List A) → ((a : A) → In a xs → P a) → All P xs
  All-of_In P [] h = tt
  All-of_In P (x ∷ xs) h = (h x (inl refl), All-of_In P xs (λ a m. h a (inr m)))

  pub All-append : (P : A → Type 0) (xs ys : List A) → All P xs → All P ys → All P (xs ++ ys)
  All-append P [] ys p q = q
  All-append P (x ∷ xs) ys p q = (p.0, All-append P xs ys p.1 q)

  -- What `find` returns is there, and passes the test.
  pub find-In : (p : A → Bool) (xs : List A) (a : A) → find p xs ≡ some a → In a xs × (p a ≡ true)
  find-In p [] a h = cc
  find-In p (x ∷ xs) a h = elim (Bool-cases (p x)) [
    | inl e ↦ (inl (ground arith), ground arith)
    | inr e ↦ let r = find-In p xs a (rw (e, if◌then◌else◌) at h) in (inr r.0, r.1)
  ]

  pub filter_map-In :
      {B : Type 0} (f : A → Option B) (b : B) (xs : List A)
      → In b (filter_map f xs)
      → (a : A) × In a xs × (f a ≡ some b)
  filter_map-In f b [] m = absurd m
  filter_map-In f b (x ∷ xs) m = elim (Option-cases (f x)) [
    | inl e ↦ let r = filter_map-In f b xs (ground arith) in (r.0, inr r.1, r.2)
    | inr (c, e) ↦
        let split : (b ≡ c) ⊎ In b (filter_map f xs) = ground arith in
        elim split [
          | inl same ↦ (x, inl refl, rw (same, e))
          | inr k ↦ let r = filter_map-In f b xs k in (r.0, inr r.1, r.2)
        ]
  ]

module _ {A : Type 0} where
  pub filter_map-skipped :
      {B : Type 0} (f : A → Option B) (x : A) (xs : List A)
      → f x ≡ none
      → filter_map f (x ∷ xs) ≡ filter_map f xs
  filter_map-skipped f x xs e = ground (arith, e)

  pub filter_map-kept :
      {B : Type 0} (f : A → Option B) (x : A) (b : B) (xs : List A)
      → f x ≡ some b
      → filter_map f (x ∷ xs) ≡ b ∷ filter_map f xs
  filter_map-kept f x b xs e = ground (arith, e)

  pub flat_map-In :
      {B : Type 0} (f : A → List B) (b : B) (xs : List A)
      → In b (flat_map f xs)
      → (a : A) × In a xs × In b (f a)
  flat_map-In f b [] m = absurd m
  flat_map-In f b (x ∷ xs) m = elim (In-append b (f x) (flat_map f xs) m) [
    | inl k ↦ (x, inl refl, k)
    | inr k ↦ let r = flat_map-In f b xs k in (r.0, inr r.1, r.2)
  ]

  pub In-flat_map :
      {B : Type 0} (f : A → List B) (a : A) (b : B) (xs : List A)
      → In a xs
      → In b (f a)
      → In b (flat_map f xs)
  In-flat_map f a b [] m h = absurd m
  In-flat_map f a b (x ∷ xs) (inl e) h =
      In-append_left b (f x) (flat_map f xs) (subst (λ y. In b (f y)) e h)
  In-flat_map f a b (x ∷ xs) (inr m) h =
      In-append_right b (f x) (flat_map f xs) (In-flat_map f a b xs m h)

  pub map-In :
      {B : Type 0} (f : A → B) (b : B) (xs : List A)
      → In b (map f xs)
      → (a : A) × In a xs × (b ≡ f a)
  map-In f b [] m = absurd m
  map-In f b (x ∷ xs) (inl e) = (x, inl refl, e)
  map-In f b (x ∷ xs) (inr m) = let r = map-In f b xs m in (r.0, inr r.1, r.2)

  pub filter-not :
      (p : A → Bool) (a : A) (xs : List A) → In a (filter (λ x. not (p x)) xs) → p a ≡ false
  filter-not p a xs m = let (_, h) = filter-In (λ x. not (p x)) a xs m in ground (arith, h)
