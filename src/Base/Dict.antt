-- ===== src/Base/Dict.antt =====
-- Go's `map[string]V` as an association list. A key is stored once; the order of the list is the
-- order in which `range` visits the map, which Go leaves open.
use mathlib.Core.Path.{◌≡◌, refl}
use mathlib.Core.Option.{Option, none, some}
use mathlib.Core.List.{List, [], ◌∷◌}
use Prim.Native.String.{String}
use native.Mathlib.Omega.{arith}
use text.Mathlib.TextEquality.{eq_iff}
use text.Mathlib.Text.{◌==◌}
use mathlib.Core.Logic.{inl, inr}
use kosmos.Base.Tests.{if◌then◌else◌, Bool-cases}
use kosmos.Base.Lists.{In}

abbrev pub Dict {ℓ} : Type ℓ → Type ℓ
Dict V = List (String × V)

module _ {ℓ} {V : Type ℓ} where
  -- m[k], with `none` for a missing key
  unfoldable pub lookup : String → Dict V → Option V
  lookup k [] = none
  lookup k (entry ∷ m) = if entry.0 == k then some entry.1 else lookup k m

  -- m[k] = v
  unfoldable pub insert : String → V → Dict V → Dict V
  insert k v [] = (k, v) ∷ []
  insert k v (entry ∷ m) =
      let rest = insert k v m in if entry.0 == k then (k, v) ∷ m else entry ∷ rest

  -- delete(m, k)
  unfoldable pub erase : String → Dict V → Dict V
  erase k [] = []
  erase k (entry ∷ m) = let rest = erase k m in if entry.0 == k then rest else entry ∷ rest

  -- A write is seen at its key, and at no other.
  pub lookup-insert :
      (written k : String) (v : V) (m : Dict V)
      → lookup k (insert written v m) ≡ (if written == k then some v else lookup k m)
  unfolding insert lookup
  lookup-insert written k v [] = refl
  lookup-insert written k v (entry ∷ m) =
      let rest = lookup-insert written k v m in
      ground (arith, rest, eq_iff entry.0 written, eq_iff entry.0 k, eq_iff written k)

  pub lookup-erase :
      (erased k : String) (m : Dict V)
      → lookup k (erase erased m) ≡ (if erased == k then none else lookup k m)
  unfolding erase lookup
  lookup-erase erased k [] = ground arith
  lookup-erase erased k (entry ∷ m) =
      let rest = lookup-erase erased k m in
      ground (arith, rest, eq_iff entry.0 erased, eq_iff entry.0 k, eq_iff erased k)

-- What is written is in the map.
pub insert-In : {V : Type 0} (k : String) (v : V) (m : Dict V) → In (k, v) (insert k v m)
unfolding insert
insert-In k v [] = inl refl
insert-In k v (entry ∷ m) = elim (Bool-cases (entry.0 == k)) [
  | inl e ↦ ground (arith, e)
  | inr e ↦ let rest = insert-In k v m in ground (arith, e, rest)
]

-- Writing the same value again changes nothing.
pub insert-again :
    {V : Type 0} (k : String) (v : V) (m : Dict V) → insert k v (insert k v m) ≡ insert k v m
unfolding insert
insert-again k v [] = ground (arith, eq_iff k k)
insert-again k v (entry ∷ m) = elim (Bool-cases (entry.0 == k)) [
  | inl e ↦ rw (e, if◌then◌else◌) (ground (arith, eq_iff k k))
  | inr e ↦ let rest = insert-again k v m in ground (arith, e, rest)
]
