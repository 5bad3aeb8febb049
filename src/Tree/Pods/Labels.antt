-- ===== src/Tree/Pods/Labels.antt =====
-- The labels that are taken off a pod, and how they are put back.
use kosmos.Base.{
  ap₂, String, ◌≡◌, refl, sym, ap, ◌≢◌, ◌↔◌, ◌⊎◌, inl, inr, true, false, Option, none, some, List,
  [], ◌∷◌, arith, eq_iff, ◌==◌, if◌then◌else◌, Bool-cases, is_some, In,
}
use kosmos.Base.Dict
use kosmos.Base.Dict.{Dict}
use kosmos.Tree.Pods.{Json, text_at, trip, trip_all, put_all}

-- Each entry is one of the labels.
abbrev pub From : Dict String → Dict String → Type 0
From labels tripped =
    (entry : String × String) → In entry tripped → Dict.lookup entry.0 labels ≡ some entry.1

-- A label is left as it was, or it is gone and among the tripped ones.
abbrev pub Parted : Dict String → Dict String × Dict String → Type 0
Parted labels (left, tripped) =
    (k : String)
    → (Dict.lookup k left ≡ Dict.lookup k labels)
      ⊎ ((Dict.lookup k left ≡ none) × (is_some (Dict.lookup k tripped) ≡ true))

In-insert :
    (k : String) (v : String) (m : Dict String) (entry : String × String)
    → In entry (Dict.insert k v m)
    → (entry ≡ (k, v)) ⊎ In entry m
unfolding Dict.insert
In-insert k v [] entry (inl e) = inl e
In-insert k v [] entry (inr m) = absurd m
In-insert k v (x ∷ m) entry i = elim (Bool-cases (x.0 == k)) [
  | inl e ↦ elim (rw (e, if◌then◌else◌) at i) [ inl q ↦ inl q | inr j ↦ inr (inr j) ]
  | inr e ↦ elim (rw (e, if◌then◌else◌) at i) [
    | inl q ↦ inr (inl q)
    | inr j ↦ elim (In-insert k v m entry j) [ inl q ↦ inl q | inr l ↦ inr (inr l) ]
  ]
]

pub lookup-In : (k v : String) (m : Dict String) → Dict.lookup k m ≡ some v → In (k, v) m
unfolding Dict.lookup
lookup-In k v [] h = cc
lookup-In k v (x ∷ m) h = elim (Bool-cases (x.0 == k)) [
  | inl e ↦
      let key = (eq_iff x.0 k).0 e in
      let value : x.1 ≡ v = ground (arith, h, e) in
      inl (sym (ap₂ (λ (a b : String). (a, b)) key value))
  | inr e ↦ inr (lookup-In k v m (rw (e, if◌then◌else◌) at h))
]

text_at-some :
    (k : String) (m : Dict String)
    → (text_at k m == "") ≡ false
    → Dict.lookup k m ≡ some (text_at k m)
unfolding text_at
text_at-some k m h = by_value (Dict.lookup k m) h
  where
    by_value :
        (o : Option String)
        → ((elim o as (λ _. String) [ none ↦ "" | some v ↦ v ]) == "") ≡ false
        → o ≡ some (elim o as (λ _. String) [ none ↦ "" | some v ↦ v ])
    by_value none h = cc
    by_value (some v) h = refl

trip-Parted :
    (labels left tripped : Dict String) (key : String)
    → From labels tripped
    → Parted labels (left, tripped)
    → From labels (trip key (left, tripped)).1 × Parted labels (trip key (left, tripped))
unfolding trip
trip-Parted labels left tripped key from parted = elim (Bool-cases (text_at key left == "")) [
  | inl q ↦ rw (q, if◌then◌else◌) (from, parted)
  | inr q ↦ rw (q, if◌then◌else◌) (from_tripped (text_at-some key left q), parted_tripped)
]
  where
    from_tripped :
        Dict.lookup key left ≡ some (text_at key left)
        → From labels (Dict.insert key (text_at key left) tripped)
    from_tripped e entry i = elim (In-insert key (text_at key left) tripped entry i) [
      | inl q ↦
          let was = parted key in
          let stored : Dict.lookup key labels ≡ some (text_at key left) = ground (arith, was, e) in
          rw q stored
      | inr j ↦ from entry j
    ]

    parted_tripped : Parted labels (Dict.erase key left, Dict.insert key (text_at key left) tripped)
    parted_tripped k =
        let was = parted k in
        let erased = Dict.lookup-erase key k left in
        let written = Dict.lookup-insert key k (text_at key left) tripped in
        ground (arith, was, erased, written)

pub trip_all-Parted :
    (keys : List String) (labels left tripped : Dict String)
    → From labels tripped
    → Parted labels (left, tripped)
    → From labels (trip_all keys (left, tripped)).1 × Parted labels (trip_all keys (left, tripped))
unfolding trip_all
trip_all-Parted [] labels left tripped from parted = (from, parted)
trip_all-Parted (key ∷ keys) labels left tripped from parted =
    let (f, p) = trip-Parted labels left tripped key from parted in
    trip_all-Parted keys labels (trip key (left, tripped)).0 (trip key (left, tripped)).1 f p

-- Writing back entries of the labels, those that differ among them, restores the labels.
pub put_all-restores :
    (xs labels left : Dict String)
    → From labels xs
    → ((k : String) → (Dict.lookup k left ≡ Dict.lookup k labels) ⊎ ((v : String) × In (k, v) xs))
    → (k : String) → Dict.lookup k (put_all xs left) ≡ Dict.lookup k labels
unfolding put_all
put_all-restores [] labels left from rest k = elim (rest k) [ inl e ↦ e | inr (v, i) ↦ absurd i ]
put_all-restores (x ∷ xs) labels left from rest k =
    put_all-restores xs labels (Dict.insert x.0 x.1 left) (λ entry i. from entry (inr i)) next k
  where
    next :
        (k : String)
        → (Dict.lookup k (Dict.insert x.0 x.1 left) ≡ Dict.lookup k labels)
          ⊎ ((v : String) × In (k, v) xs)
    next k = elim (Bool-cases (x.0 == k)) [
      | inl e ↦
          let written = Dict.lookup-insert x.0 k x.1 left in
          let stored = from x (inl refl) in inl (ground (arith, written, stored, e, eq_iff x.0 k))
      | inr e ↦
          let written = Dict.lookup-insert x.0 k x.1 left in
          elim (rest k) [
            | inl q ↦ inl (ground (arith, written, e, q))
            | inr (v, inl q) ↦
                absurd (ground (arith, e, ap (λ (y : String × String). y.0) q, eq_iff x.0 k))
            | inr (v, inr i) ↦ inr (v, i)
          ]
    ]

-- What the documentation of encoding/json promises for a map of texts: it is encoded, as a text that is
-- not empty and is decoded to the same entries.
abbrev pub Keeps : {O : Type 0} → Json O → Dict String → Type 0
Keeps json m =
    (text : String) × (json.marshal_labels m ≡ some text)
    × (text ≢ "")
    × ((n : Dict String) × (json.unmarshal_labels text ≡ some n)
        × ((entry : String × String) → In entry n ↔ In entry m))
