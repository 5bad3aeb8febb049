-- ===== src/Tree/Pods/Tripped.antt =====
-- Which labels are left after the ignored ones are taken off.
use kosmos.Base.{
  String, ◌≡◌, refl, sym, ap, subst, ◌∙◌, ◌⊎◌, inl, inr, Option, none, some, List, [], ◌∷◌, arith,
  eq_iff, ◌==◌, if◌then◌else◌, Bool-cases, Option-cases, In, Slice, items,
}
use kosmos.Base.Dict
use kosmos.Base.Dict.{Dict}
use kosmos.Tree.Pods.{text_at, trip, trip_all, fit_labels}

text_at-same :
    (k : String) (m n : Dict String) → Dict.lookup k m ≡ Dict.lookup k n → text_at k m ≡ text_at k n
unfolding text_at
text_at-same k m n h =
    ap (λ (o : Option String). elim o as (λ _. String) [ none ↦ "" | some v ↦ v ]) h

text_at-none : (k : String) (m : Dict String) → Dict.lookup k m ≡ none → text_at k m ≡ ""
unfolding text_at
text_at-none k m h =
    ap (λ (o : Option String). elim o as (λ _. String) [ none ↦ "" | some v ↦ v ]) h

-- One round leaves a label, or takes it off.
trip-cases :
    (key k : String) (left tripped : Dict String)
    → (Dict.lookup k (trip key (left, tripped)).0 ≡ Dict.lookup k left)
      ⊎ ((key ≡ k) × (Dict.lookup k (trip key (left, tripped)).0 ≡ none))
unfolding trip
trip-cases key k left tripped = elim (Bool-cases (text_at key left == "")) [
  | inl e ↦ inl (rw (e, if◌then◌else◌) refl)
  | inr e ↦
      let erased = Dict.lookup-erase key k left in
      rw (e, if◌then◌else◌) (ground (arith, erased, eq_iff key k))
]

-- A label is missing after, or it had the empty value before and still has it.
abbrev pub Gone : String → Dict String → Dict String → Type 0
Gone k before after =
    (Dict.lookup k after ≡ none)
    ⊎ ((Dict.lookup k after ≡ some "") × (Dict.lookup k before ≡ some ""))

empty-Gone : (k : String) (m : Dict String) → text_at k m ≡ "" → Gone k m m
unfolding text_at
empty-Gone k m h = elim (Option-cases (Dict.lookup k m)) [
  | inl e ↦ inl e
  | inr (v, e) ↦ let q : Dict.lookup k m ≡ some "" = ground (arith, e, h) in inr (q, q)
]

trip-Gone : (key : String) (left tripped : Dict String) → Gone key left (trip key (left, tripped)).0
unfolding trip
trip-Gone key left tripped = elim (Bool-cases (text_at key left == "")) [
  | inl e ↦ rw (e, if◌then◌else◌) (empty-Gone key left ((eq_iff (text_at key left) "").0 e))
  | inr e ↦
      let erased = Dict.lookup-erase key key left in
      let gone : Dict.lookup key (Dict.erase key left) ≡ none =
        ground (arith, erased, eq_iff key key) in
      rw (e, if◌then◌else◌) (inl gone)
]

-- The later rounds do not bring it back.
Gone-trip_all :
    (keys : List String) (k : String) (before left tripped : Dict String)
    → Gone k before left
    → Gone k before (trip_all keys (left, tripped)).0
unfolding trip_all
Gone-trip_all [] k before left tripped h = h
Gone-trip_all (key ∷ keys) k before left tripped h =
    let next = trip key (left, tripped) in
    Gone-trip_all keys k before next.0 next.1 (elim (trip-cases key k left tripped) [
      | inl e ↦ elim h [ inl gone ↦ inl (e ∙ gone) | inr (here, there) ↦ inr (e ∙ here, there) ]
      | inr (_, e) ↦ inl e
    ])

trip_all-Gone :
    (keys : List String) (k : String) (left tripped : Dict String)
    → In k keys
    → Gone k left (trip_all keys (left, tripped)).0
unfolding trip_all
trip_all-Gone [] k left tripped m = absurd m
trip_all-Gone (key ∷ keys) k left tripped (inl e) =
    let next = trip key (left, tripped) in
    Gone-trip_all keys k left next.0 next.1
      (subst (λ j. Gone j left next.0) (sym e) (trip-Gone key left tripped))
trip_all-Gone (key ∷ keys) k left tripped (inr m) =
    let next = trip key (left, tripped) in
    elim (trip_all-Gone keys k next.0 next.1 m) [
      | inl gone ↦ inl gone
      | inr (here, there) ↦ elim (trip-cases key k left tripped) [
        | inl e ↦ inr (here, sym e ∙ there)
        | inr (_, e) ↦ absurd (ground (arith, e, there))
      ]
    ]

trip_all-kept :
    (keys : List String) (k : String) (left tripped : Dict String)
    → ¬ (In k keys)
    → Dict.lookup k (trip_all keys (left, tripped)).0 ≡ Dict.lookup k left
unfolding trip_all
trip_all-kept [] k left tripped n = refl
trip_all-kept (key ∷ keys) k left tripped n =
    let next = trip key (left, tripped) in
    trip_all-kept keys k next.0 next.1 (λ m. n (inr m))
    ∙ elim (trip-cases key k left tripped) [ inl e ↦ e | inr (e, _) ↦ absurd (n (inl (sym e))) ]

-- Every ignored label is gone, but for those with the empty value, and the others are as they were.
pub fit_labels-Left :
    (labels : Dict String) (ignore_labels : Slice String) (k : String)
    → (In k (items ignore_labels) → Gone k labels (fit_labels labels ignore_labels).0)
      × (¬ (In k (items ignore_labels))
          → text_at k (fit_labels labels ignore_labels).0 ≡ text_at k labels)
unfolding fit_labels
fit_labels-Left labels none k = (λ m. absurd m, λ n. refl)
fit_labels-Left labels (some keys) k =
    (trip_all-Gone keys k labels [], λ n. text_at-same k _ _ (trip_all-kept keys k labels [] n))
