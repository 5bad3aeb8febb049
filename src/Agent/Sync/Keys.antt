-- ===== src/Agent/Sync/Keys.antt =====
-- What `Diff` deletes and creates in a table whose entries are told apart by a key.
use kosmos.Base.{
  ◌≡◌, sym, subst, ◌∙◌, ◌↔◌, inl, inr, Bool, true, false, none, some, List, [], ◌∷◌, Slice, items,
  filter, Decides, In, filter-In, Bool-cases, if◌then◌else◌, String,
}
use kosmos.Agent.Diff.{compare_func, kept, without_broadcast}
use kosmos.Agent.Diff.Laws.{compare_func_lem, compare_func-same}
use kosmos.Agent.Diff.Apply.{In-without_broadcast}
use kosmos.Agent.Sync.Kernel.{Apart, Fresh}

-- What `Diff` deletes and creates.
abbrev pub deleted : {A : Type 0} → (A → A → Bool) → Slice A → Slice A → List A
deleted f old new = items (kept (compare_func old new f).is_same (compare_func old new f).deleted)

abbrev pub created : {A : Type 0} → (A → A → Bool) → Slice A → Slice A → List A
created f old new = items (kept (compare_func old new f).is_same (compare_func old new f).created)

module _ {A : Type 0} (f : A → A → Bool) (decides : Decides f) (old new : Slice A) (a : A) where
  pub deleted_lem : In a (deleted f old new) ↔ (In a (items old) × ¬ In a (items new))
  deleted_lem = elim (Bool-cases (compare_func old new f).is_same) [
    | inl e ↦
        let same = compare_func-same f decides old new e a in
        rw (e, if◌then◌else◌) (λ m. absurd m, λ r. r.1 (same.0 r.0))
    | inr e ↦ rw (e, if◌then◌else◌) (compare_func_lem f decides old new a).0
  ]

  pub created_lem : In a (created f old new) ↔ (In a (items new) × ¬ In a (items old))
  created_lem = elim (Bool-cases (compare_func old new f).is_same) [
    | inl e ↦
        let same = compare_func-same f decides old new e a in
        rw (e, if◌then◌else◌) (λ m. absurd m, λ r. r.1 (same.1 r.0))
    | inr e ↦ rw (e, if◌then◌else◌) (compare_func_lem f decides old new a).1
  ]

  -- What is deleted without the broadcast entries is of the old side.
  pub without_broadcast-old :
      (mac : A → String)
      → In a (
          items (
            kept
              (compare_func old new f).is_same
              (without_broadcast mac (compare_func old new f).deleted)))
      → In a (items old)
  without_broadcast-old mac = elim (Bool-cases (compare_func old new f).is_same) [
    | inl e ↦ rw (e, if◌then◌else◌) (λ m. absurd m)
    | inr e ↦
        rw (e, if◌then◌else◌)
          (λ m.
            ((compare_func_lem f decides old new a).0.0
              ((In-without_broadcast f decides old new a mac (compare_func old new f).deleted).0
                m).0).0)
  ]

module _ {A K : Type 0} (key : A → K) where
  -- Entries of one key are the same.
  pub Apart-same :
      (xs : List A) → Apart key xs → (x y : A) → In x xs → In y xs → key x ≡ key y → x ≡ y
  unfolding Apart
  Apart-same [] h x y m n e = absurd m
  Apart-same (z ∷ xs) h x y (inl p) (inl q) e = p ∙ sym q
  Apart-same (z ∷ xs) h x y (inl p) (inr n) e = absurd (h.0 y n (subst (λ w. key w ≡ key y) p e))
  Apart-same (z ∷ xs) h x y (inr m) (inl q) e =
      absurd (h.0 x m (subst (λ w. key w ≡ key x) q (sym e)))
  Apart-same (z ∷ xs) h x y (inr m) (inr n) e = Apart-same xs h.1 x y m n e

  Apart-filter : (p : A → Bool) (xs : List A) → Apart key xs → Apart key (filter p xs)
  unfolding Apart
  Apart-filter p [] h = tt
  Apart-filter p (x ∷ xs) h = elim (Bool-cases (p x)) [
    | inl e ↦ rw (e, if◌then◌else◌) (λ y m. h.0 y (filter-In p y xs m).0, Apart-filter p xs h.1)
    | inr e ↦ rw (e, if◌then◌else◌) (Apart-filter p xs h.1)
  ]

  Apart-kept : (b : Bool) (o : Slice A) → Apart key (items o) → Apart key (items (kept b o))
  unfolding Apart
  Apart-kept true o h = tt
  Apart-kept false o h = h

  module _ (f : A → A → Bool) (decides : Decides f) where
    Apart-compare_func :
        (old new : Slice A)
        → Apart key (items new)
        → Apart key (items (compare_func old new f).created)
    unfolding compare_func Apart
    Apart-compare_func none none h = tt
    Apart-compare_func none (some new) h = h
    Apart-compare_func (some old) none h = tt
    Apart-compare_func (some old) (some new) h = Apart-filter _ new h

    -- Where what is left of the old side has keys of the new side only as entries of it, what is created
    -- can be added to it.
    pub created-Fresh :
        (old new : Slice A) (left : List A)
        → ((a : A) → In a left → In a (items old))
        → ((a : A) → In a left → (x : A) → In x (items new) → key a ≡ key x → In a (items new))
        → Apart key (items new)
        → Fresh key (created f old new) left
    created-Fresh old new left there shared h = (
      Apart-kept (compare_func old new f).is_same (compare_func old new f).created
          (Apart-compare_func old new h),
      λ x m a i e.
          let (n, fresh) = (created_lem f decides old new x).0 m in
          let same = Apart-same (items new) h a x (shared a i x n e) n e in
          fresh (subst (λ z. In z (items old)) same (there a i)),
    )
