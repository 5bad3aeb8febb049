-- ===== src/Schedule/Distribution/Match.antt =====
-- Which selector of a policy is matched.
use kosmos.Base.{ℕ, ◌≤◌, ◌≡◌, ◌⊎◌, true, List, In}
use kosmos.Schedule.Distribution.{
  ResourceSelector, PolicyTerm, Pod, Scopes, Matched, consider, hits_labels, hits_prefix, hits_name,
}

-- The ways in which a selector hits a pod, with the scope of each.
pub data Hits (scopes : Scopes) (pod : Pod) (selector : ResourceSelector) : ℕ → Type 0 where
  by_labels : hits_labels pod selector ≡ true → Hits scopes pod selector scopes.label_selector
  by_prefix : hits_prefix pod selector ≡ true → Hits scopes pod selector scopes.name_prefix
  by_name : hits_name pod selector ≡ true → Hits scopes pod selector scopes.name

-- The result of a hit.
abbrev pub hit : ℕ → ResourceSelector → List PolicyTerm → Matched
hit scope selector terms = record {
  policy_name = selector.policy_name;
  priority = scope;
  policies = terms;
}

module _ (scopes : Scopes) (pod : Pod) (terms : List PolicyTerm) where
  -- The result of a selector that hits the pod in the scope that the result has.
  abbrev pub HitOf : List ResourceSelector → Matched → Type 0
  HitOf selectors m =
      (selector : ResourceSelector) × (scope : ℕ) × In selector selectors
      × Hits scopes pod selector scope
      × (m ≡ hit scope selector terms)

  after_labels : ResourceSelector → Matched → Matched
  after_labels selector m =
      consider scopes.label_selector (hits_labels pod selector) selector terms m

  after_prefix : ResourceSelector → Matched → Matched
  after_prefix selector m =
      consider scopes.name_prefix (hits_prefix pod selector) selector terms
        (after_labels selector m)

  -- The result is the given one or that of a hit, and no hit has a greater scope.
  abbrev pub Best : List ResourceSelector → Matched → Matched → Type 0
  Best selectors m r =
      (m.priority ≤ r.priority)
      × ((selector : ResourceSelector) (scope : ℕ)
          → In selector selectors
          → Hits scopes pod selector scope
          → scope ≤ r.priority)
      × ((r ≡ m) ⊎ HitOf selectors r)
