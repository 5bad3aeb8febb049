-- ===== src/Schedule/Distribution/Lets.antt =====
-- On which nodes a term of a policy lets a pod.
use kosmos.Base.{
  String, ◌≡◌, ◌↔◌, ◌⊎◌, Bool, not, Option-cases, none, subst, refl, inl, inr, true, false, some,
  arith, eq_iff, ◌==◌, Bool-cases,
}
use kosmos.Base.Dict
use kosmos.Schedule.Distribution.{
  AdvancedTerm, NodeType, host_node, leaf_node, mix_node, adv_node, other_node, Status,
  unschedulable_and_unresolvable, kosmos_node_label, is_leaf, allow, is_selected, is_toleration,
  Node, success, Handle, place,
}

-- The node has the label of a leaf node.
abbrev pub IsLeafNode : Node → Type 0
IsLeafNode node =
    (labels : Dict.Dict String) × (value : String) × (node.labels ≡ some labels)
    × (Dict.lookup kosmos_node_label labels ≡ some value)

-- The nodes that a term lets a pod on. Its tolerations let it on none.
pub Lets : Handle → Node → AdvancedTerm → NodeType → Type 0
Lets handle node term host_node = ¬ (IsLeafNode node)
Lets handle node term leaf_node = IsLeafNode node
Lets handle node term adv_node =
    (term.node_name ≡ node.name)
    ⊎ ((selector : Dict.Dict String) × (term.node_selector ≡ some selector)
        × (handle.matches selector node.labels ≡ true))
Lets handle node term mix_node = Unit
Lets handle node term (other_node s) = Unit

is_leaf-IsLeafNode : (node : Node) → (is_leaf node ≡ true) ↔ IsLeafNode node
unfolding is_leaf
is_leaf-IsLeafNode node = elim (Option-cases node.labels) [
  | inl e ↦ (λ h. ground (arith, h, e), λ (labels, v, q, l). ground (arith, e, q))
  | inr (labels, e) ↦ elim (Option-cases (Dict.lookup kosmos_node_label labels)) [
    | inl l ↦ (
      λ h. ground (arith, h, e, l),
      λ (others, v, q, k).
          (let same : labels ≡ others = ground (arith, e, q) in
            let gone = subst (λ m. Dict.lookup kosmos_node_label m ≡ none) same l in
            ground (arith, gone, k)),
    )
    | inr (v, l) ↦ (λ h. (labels, v, e, l), λ h. ground (arith, e, l))
  ]
]

-- The status says whether the test holds.
unfoldable pub Says : Status → Type 0 → Type 0
Says st P = ((st ≡ success) ↔ P) × ((st ≡ success) ⊎ (st ≡ unschedulable_and_unresolvable))

allow-Says : (b : Bool) (P : Type 0) → (b ≡ true) ↔ P → Says (allow b) P
unfolding allow Says
allow-Says true P h = ((λ e. h.0 refl, λ p. refl), inl refl)
allow-Says false P h = ((λ e. cc, λ p. let q = h.1 p in cc), inr refl)

is_selected-adv :
    (handle : Handle) (node : Node) (term : AdvancedTerm)
    → (is_selected handle node term ≡ true) ↔ Lets handle node term adv_node
unfolding is_selected is_toleration Lets
is_selected-adv handle node term = elim (Option-cases term.node_selector) [
  | inl e ↦ (
    λ h. inl (ground (arith, h, e, eq_iff term.node_name node.name)),
    λ p. elim p [
      | inl q ↦ ground (arith, q, eq_iff term.node_name node.name)
      | inr (selector, q, m) ↦ ground (arith, e, q)
    ],
  )
  | inr (selector, e) ↦ (
    λ h. elim (Bool-cases (term.node_name == node.name)) [
      | inl q ↦ inl ((eq_iff term.node_name node.name).0 q)
      | inr q ↦ inr (selector, e, ground (arith, h, e, q))
    ],
    λ p. elim p [
      | inl q ↦ ground (arith, q, eq_iff term.node_name node.name)
      | inr (other, q, m) ↦
          let same : other ≡ selector = ground (arith, e, q) in
          let fits = subst (λ x. handle.matches x node.labels ≡ true) same m in
          ground (arith, e, fits)
    ],
  )
]

pub place-Says :
    (handle : Handle) (node : Node) (term : AdvancedTerm) (node_type : NodeType)
    → Says (place handle node (node_type, term)) (Lets handle node term node_type)
unfolding place Lets Says
place-Says handle node term host_node =
    let l = is_leaf-IsLeafNode node in
    allow-Says (not (is_leaf node)) (¬ (IsLeafNode node)) (
      λ h p. (let q = l.1 p in ground (arith, h, q)),
      λ n. elim (Bool-cases (is_leaf node)) [
        | inl e ↦ absurd (n (l.0 e))
        | inr e ↦ ground (arith, e)
      ],
    )
place-Says handle node term leaf_node =
    allow-Says (is_leaf node) (IsLeafNode node) (is_leaf-IsLeafNode node)
place-Says handle node term adv_node =
    allow-Says (is_selected handle node term) (Lets handle node term adv_node)
      (is_selected-adv handle node term)
place-Says handle node term mix_node = ((λ e. tt, λ p. refl), inl refl)
place-Says handle node term (other_node s) = ((λ e. tt, λ p. refl), inl refl)
