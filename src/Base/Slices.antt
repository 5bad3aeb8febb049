-- ===== src/Base/Slices.antt =====
-- Go slices. `none` is the nil slice, which Go tells apart from an empty one that was made.
use mathlib.Core.Path.{◌≡◌, refl}
use mathlib.Core.Option.{Option, none, some}
use mathlib.Core.List.{List, [], ◌∷◌}

abbrev pub Slice {ℓ} : Type ℓ → Type ℓ
Slice A = Option (List A)

abbrev pub items {ℓ} : {A : Type ℓ} → Slice A → List A
items none = []
items (some xs) = xs

-- What a nil slice is after `append` of each element: still nil if there is none.
abbrev pub appended {ℓ} : {A : Type ℓ} → List A → Slice A
appended [] = none
appended (x ∷ xs) = some (x ∷ xs)

pub items-appended {ℓ} : {A : Type ℓ} (xs : List A) → items (appended xs) ≡ xs
items-appended [] = refl
items-appended (x ∷ xs) = refl
