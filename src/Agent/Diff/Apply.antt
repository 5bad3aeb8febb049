-- ===== src/Agent/Diff/Apply.antt =====
-- What is left of the old side after the deletions and the creations that `Diff` asks for.
use kosmos.Base.{
  String, ◌≡◌, refl, ◌↔◌, ◌⊎◌, inl, inr, Bool, false, not, ◌==◌, eq_iff, List, [], ◌∷◌, Slice,
  items, appended, Decides, In, In-filter, filter-In, Bool-cases, arith, if◌then◌else◌,
}
use kosmos.Agent.Diff.{Difference, compare_func, kept, without_broadcast, broadcast_mac}
use kosmos.Agent.Diff.Laws.{compare_func_lem, compare_func-same, In_or_not}

abbrev pub Applied : {A : Type 0} → Slice A → Slice A → Slice A → A → Type 0
Applied old deleted created a = (In a (items old) × ¬ In a (items deleted)) ⊎ In a (items created)

items-appended : {A : Type 0} (xs : List A) → items (appended xs) ≡ xs
items-appended [] = refl
items-appended (x ∷ xs) = refl

module _ {A : Type 0} (f : A → A → Bool) (decides : Decides f) (old new : Slice A) (a : A) where
  -- The comparison as it is used below: what it deletes and creates, and when it finds no change.
  abbrev found : Difference A
  found = compare_func old new f

  onto : Applied old found.deleted found.created a → In a (items new)
  onto (inl (m, k)) = elim (In_or_not f decides a (items new)) [
    | inl n ↦ n
    | inr n ↦ absurd (k ((compare_func_lem f decides old new a).0.1 (m, n)))
  ]
  onto (inr m) = ((compare_func_lem f decides old new a).1.0 m).0

  back : In a (items new) → Applied old found.deleted found.created a
  back n = elim (In_or_not f decides a (items old)) [
    | inl m ↦ inl (m, λ k. ((compare_func_lem f decides old new a).0.0 k).1 n)
    | inr m ↦ inr ((compare_func_lem f decides old new a).1.1 (n, m))
  ]

  -- For a test that decides equality, deleting and creating what the comparison found leads from the
  -- entries of the old side to those of the new side.
  pub apply_kept :
      let d = compare_func old new f in
      Applied old (kept d.is_same d.deleted) (kept d.is_same d.created) a ↔ In a (items new)
  apply_kept = elim (Bool-cases found.is_same) [
    | inl e ↦
        let same = compare_func-same f decides old new e a in
        rw (e, if◌then◌else◌)
          (λ p. elim p [ inl r ↦ same.0 r.0 | inr k ↦ absurd k ], λ m. inl (same.1 m, λ k. k))
    | inr e ↦ rw (e, if◌then◌else◌) (onto, back)
  ]

  module _ (mac : A → String) where
    pub In-without_broadcast :
        (xs : Slice A)
        → In a (items (without_broadcast mac xs))
          ↔ (In a (items xs) × ((mac a == broadcast_mac) ≡ false))
    In-without_broadcast xs = rw items-appended (
      λ m. let r = filter-In _ a (items xs) m in (r.0, ground (arith, r.1)),
      λ r. In-filter _ a (items xs) r.0 (rw (r.1, not)),
    )

    -- For a test that decides equality, where the broadcast entries are left out of the deletion,
    -- deleting and creating what the comparison found leads to the entries of the new side and the
    -- broadcast entries of the old side.
    pub apply_without_broadcast :
        let d = compare_func old new f in
        Applied old (kept d.is_same (without_broadcast mac d.deleted)) (kept d.is_same d.created) a
        ↔ (In a (items new) ⊎ (In a (items old) × (mac a ≡ broadcast_mac)))
    apply_without_broadcast = elim (Bool-cases found.is_same) [
      | inl e ↦
          let same = compare_func-same f decides old new e a in
          rw (e, if◌then◌else◌)
            (
              λ p. elim p [ inl r ↦ inl (same.0 r.0) | inr k ↦ absurd k ],
              λ p. elim p [ inl m ↦ inl (same.1 m, λ k. k) | inr r ↦ inl (r.0, λ k. k) ],
            )
      | inr e ↦ rw (e, if◌then◌else◌) (onto_broadcast, back_broadcast)
    ]
      where
        onto_broadcast :
            Applied old (without_broadcast mac found.deleted) found.created a
            → In a (items new) ⊎ (In a (items old) × (mac a ≡ broadcast_mac))
        onto_broadcast (inr m) = inl (onto (inr m))
        onto_broadcast (inl (m, k)) = elim (Bool-cases (mac a == broadcast_mac)) [
          | inl b ↦ inr (m, (eq_iff _ _).0 b)
          | inr b ↦ inl (onto (inl (m, λ d. k ((In-without_broadcast found.deleted).1 (d, b)))))
        ]

        kept_back :
            Applied old found.deleted found.created a
            → Applied old (without_broadcast mac found.deleted) found.created a
        kept_back (inl (m, k)) = inl (m, λ d. k ((In-without_broadcast found.deleted).0 d).0)
        kept_back (inr m) = inr m

        back_broadcast :
            In a (items new) ⊎ (In a (items old) × (mac a ≡ broadcast_mac))
            → Applied old (without_broadcast mac found.deleted) found.created a
        back_broadcast (inl n) = kept_back (back n)
        back_broadcast (inr (m, b)) = inl (
          m,
          λ d. ground (
            arith,
            ((In-without_broadcast found.deleted).0 d).1,
            (eq_iff (mac a) broadcast_mac).1 b,
          ),
        )
