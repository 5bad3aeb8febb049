-- ===== src/Base/Outcomes.antt =====
-- What a Go function does: it returns, or it panics (a nil pointer is read, an index is out of
-- range). Errors that the code returns as values are values here too.
use mathlib.Core.Path.{◌≡◌, refl, ◌∙◌, ap}
use mathlib.Core.Option.{Option, none, some}
use mathlib.Core.List.{List, [], ◌∷◌}
use mathlib.Core.Bool.{Bool, true, false}
use kosmos.Base.Tests.{if◌then◌else◌, is_some}
use kosmos.Base.Lists.{In}
use mathlib.Core.Logic.{inl, inr}

pub data Outcome {ℓ} (A : Type ℓ) : Type ℓ where
  returns : A → Outcome A
  panics : Outcome A

infixl 5 ◌>>=◌
abbrev pub ◌>>=◌ {ℓ κ} : {A : Type ℓ} {B : Type κ} → Outcome A → (A → Outcome B) → Outcome B
returns a >>= f = f a
panics >>= f = panics

-- Reading through a pointer that may be nil.
abbrev pub deref {ℓ} : {A : Type ℓ} → Option A → Outcome A
deref none = panics
deref (some a) = returns a

-- `for _, x := range xs { s = body(x, s) }`
unfoldable pub for_each {ℓ κ} :
    {A : Type ℓ} {S : Type κ} → List A → (A → S → Outcome S) → S → Outcome S
for_each [] body s = returns s
for_each (x ∷ xs) body s = do t ← body x s; for_each xs body t

-- The function returns, and what it returns has the property.
abbrev pub Returns {ℓ} : {A : Type ℓ} → (A → Type 0) → Outcome A → Type 0
Returns P (returns a) = P a
Returns P panics = ⊥

pub Returns-bind :
    {S B : Type 0} (P : S → Type 0) (Q : B → Type 0) (r : Outcome S) (f : S → Outcome B)
    → Returns P r
    → ((s : S) → P s → Returns Q (f s))
    → Returns Q (r >>= f)
Returns-bind P Q (returns s) f p q = q s p
Returns-bind P Q panics f p q = absurd p

-- A loop keeps what each round keeps, and returns if each round does.
pub for_each-Returns :
    {A S : Type 0} (P : S → Type 0) (xs : List A) (body : A → S → Outcome S)
    → ((x : A) → In x xs → (s : S) → P s → Returns P (body x s))
    → (s : S) → P s
    → Returns P (for_each xs body s)
unfolding for_each
for_each-Returns P [] body keep s h = h
for_each-Returns P (x ∷ xs) body keep s h =
    Returns-bind P P (body x s) (λ t. for_each xs body t) (keep x (inl refl) s h)
      (λ t p. for_each-Returns P xs body (λ y m. keep y (inr m)) t p)

pub Returns-mono :
    {A : Type 0} (P Q : A → Type 0) (r : Outcome A)
    → ((a : A) → P a → Q a)
    → Returns P r
    → Returns Q r
Returns-mono P Q (returns a) f p = f a p
Returns-mono P Q panics f p = p

-- The elements that pass a test which may panic, in their order.
unfoldable pub select {ℓ} : {A : Type ℓ} → (A → Outcome Bool) → List A → Outcome (List A)
select p [] = returns []
select p (x ∷ xs) = do b ← p x; rest ← select p xs; returns (if b then x ∷ rest else rest)

-- What a selection keeps was there, and passes the test.
abbrev pub Selected : {A : Type 0} → (A → Outcome Bool) → List A → List A → Type 0
Selected {A} p xs ys = (a : A) → In a ys → In a xs × (p a ≡ returns true)

select_round :
    {A : Type 0} (p : A → Outcome Bool) (x : A) (xs : List A) (r : Outcome Bool)
    (q : Outcome (List A))
    → p x ≡ r
    → Returns (λ _. Unit {0}) r
    → Returns (Selected p xs) q
    → Returns
        (Selected p (x ∷ xs))
        (r >>= λ b. q >>= λ rest. returns (if b then x ∷ rest else rest))
select_round p x xs panics q e h s = absurd h
select_round p x xs (returns b) panics e h s = absurd s
select_round p x xs (returns false) (returns ys) e h s = λ a m. let k = s a m in (inr k.0, k.1)
select_round p x xs (returns true) (returns ys) e h s = picked
  where
    picked : Selected p (x ∷ xs) (x ∷ ys)
    picked a (inl same) = (inl same, ap p same ∙ e)
    picked a (inr m) = let k = s a m in (inr k.0, k.1)

-- Where the test returns on every element, so does the selection.
pub select-Returns :
    {A : Type 0} (p : A → Outcome Bool) (xs : List A)
    → ((x : A) → In x xs → Returns (λ _. Unit {0}) (p x))
    → Returns (Selected p xs) (select p xs)
unfolding select
select-Returns p [] h = λ a m. absurd m
select-Returns p (x ∷ xs) h =
    select_round p x xs (p x) (select p xs) refl (h x (inl refl))
      (select-Returns p xs (λ y m. h y (inr m)))

pub Returns-if :
    {A : Type 0} (P : A → Type 0) (b : Bool) (r q : Outcome A)
    → (b ≡ true → Returns P r)
    → (b ≡ false → Returns P q)
    → Returns P (if b then r else q)
Returns-if P true r q yes_ no_ = yes_ refl
Returns-if P false r q yes_ no_ = no_ refl

pub Returns-option :
    {A B : Type 0} (P : A → Type 0) (o : Option B) (r : Outcome A) (f : B → Outcome A)
    → (o ≡ none → Returns P r)
    → ((b : B) → o ≡ some b → Returns P (f b))
    → Returns P (elim o [ none ↦ r | some b ↦ f b ])
Returns-option P none r f missing found = missing refl
Returns-option P (some b) r f missing found = found b refl

pub deref-Returns :
    {A : Type 0} (o : Option A) → is_some o ≡ true → Returns (λ a. o ≡ some a) (deref o)
deref-Returns none h = cc
deref-Returns (some a) h = refl

pub deref-some : {A : Type 0} (o : Option A) (a : A) → o ≡ some a → Returns (λ b. b ≡ a) (deref o)
deref-some none a h = cc
deref-some (some b) a h = cc

pub Returns-both :
    {A : Type 0} (P Q : A → Type 0) (r : Outcome A)
    → Returns P r
    → Returns Q r
    → Returns (λ a. P a × Q a) r
Returns-both P Q (returns a) p q = (p, q)
Returns-both P Q panics p q = p

-- A function that returns has a value.
pub Returns-value :
    {A : Type 0} (P : A → Type 0) (r : Outcome A) → Returns P r → (a : A) × (r ≡ returns a) × P a
Returns-value P (returns a) p = (a, refl, p)
Returns-value P panics p = absurd p

-- What a function returns has the property, if it returns.
abbrev pub May : {A : Type 0} → (A → Type 0) → Outcome A → Type 0
May P (returns a) = P a
May P panics = Unit {0}

pub May-bind :
    {S B : Type 0} (Q : B → Type 0) (r : Outcome S) (f : S → Outcome B)
    → ((s : S) → May Q (f s))
    → May Q (r >>= f)
May-bind Q (returns s) f q = q s
May-bind Q panics f q = tt

pub May-step :
    {S B : Type 0} (P : S → Type 0) (Q : B → Type 0) (r : Outcome S) (f : S → Outcome B)
    → May P r
    → ((s : S) → P s → May Q (f s))
    → May Q (r >>= f)
May-step P Q (returns s) f p q = q s p
May-step P Q panics f p q = tt

pub May-if :
    {A : Type 0} (P : A → Type 0) (b : Bool) (r q : Outcome A)
    → May P r
    → May P q
    → May P (if b then r else q)
May-if P true r q p k = p
May-if P false r q p k = k

pub May-option :
    {A B : Type 0} (P : A → Type 0) (o : Option B) (r : Outcome A) (f : B → Outcome A)
    → May P r
    → ((b : B) → May P (f b))
    → May P (elim o [ none ↦ r | some b ↦ f b ])
May-option P none r f p q = p
May-option P (some b) r f p q = q b

pub for_each-May :
    {A S : Type 0} (P : S → Type 0) (xs : List A) (body : A → S → Outcome S)
    → ((x : A) → In x xs → (s : S) → P s → May P (body x s))
    → (s : S) → P s
    → May P (for_each xs body s)
unfolding for_each
for_each-May P [] body keep s h = h
for_each-May P (x ∷ xs) body keep s h =
    May-step P P (body x s) (λ t. for_each xs body t) (keep x (inl refl) s h)
      (λ t p. for_each-May P xs body (λ y m. keep y (inr m)) t p)

pub May-Returns :
    {A : Type 0} (P Q : A → Type 0) (r : Outcome A)
    → Returns P r
    → May Q r
    → Returns (λ a. P a × Q a) r
May-Returns P Q (returns a) p q = (p, q)
May-Returns P Q panics p q = p

pub bind-panics :
    {A B : Type 0} (r : Outcome A) (f : A → Outcome B)
    → ((a : A) → f a ≡ panics)
    → (r >>= f) ≡ panics
bind-panics (returns a) f h = h a
bind-panics panics f h = refl
