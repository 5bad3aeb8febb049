-- ===== src/Link/Elector/Roles.antt =====
-- What a set of roles holds, and what one node is after its round of the elector.
use kosmos.Base.{
  String, ◌≡◌, refl, ◌≢◌, ◌↔◌, ◌⊎◌, inl, inr, Bool, true, false, none, some, List, [], ◌∷◌, arith,
  eq_iff, ◌==◌, Bool-cases, any, In, In-any, any-In,
}
use kosmos.Api.Cluster.{role_gateway}
use kosmos.Api.Node.{ClusterNode, is_gateway, has_role, equal_fold}
use kosmos.Link.Elector.{Sets, Elector, insert_roles, add_role, remove_role, modify_node, remaining}

-- What the documentation of `sets.String` promises.
pub record IsSets {T : Type 0} (sets : Sets T) : Type 0 where
  pub empties : (r : String) → ¬ (In r (sets.unsorted_list sets.empty))
  pub inserts :
      (x r : String) (t : T)
      → In r (sets.unsorted_list (sets.insert x t)) ↔ ((r ≡ x) ⊎ In r (sets.unsorted_list t))
  pub deletes :
      (x r : String) (t : T)
      → In r (sets.unsorted_list (sets.delete x t)) ↔ ((r ≢ x) × In r (sets.unsorted_list t))

-- A role that reads as the gateway role, whatever its case, is written as it.
abbrev pub IsExact : ClusterNode → Type 0
IsExact n = (r : String) → In r n.roles → equal_fold role_gateway r ≡ true → r ≡ role_gateway

equal_fold-gateway : equal_fold role_gateway role_gateway ≡ true
unfolding equal_fold
equal_fold-gateway = refl

module _ {T : Type 0} (sets : Sets T) where
  -- What one node is after its round.
  unfoldable pub elected : Elector → ClusterNode → ClusterNode
  elected e n = elim (modify_node sets e n) [ none ↦ n | some m ↦ m ]

-- Of its own cluster, exactly the current node is a gateway after the round, whatever it was; a
-- node of another cluster stays as it is.
unfoldable pub Elects : Elector → ClusterNode → ClusterNode → Type 0
Elects e n m =
    (m.name ≡ n.name)
    × (m.cluster_name ≡ n.cluster_name)
    × (m.node_name ≡ n.node_name)
    × (n.cluster_name ≡ e.cluster_name → is_gateway m ≡ (n.node_name == e.node_name))
    × (n.cluster_name ≢ e.cluster_name → m ≡ n)

module _ {T : Type 0} (sets : Sets T) (laws : IsSets sets) where
  insert_roles-In :
      (roles : List String) (t : T) (r : String)
      → In r (sets.unsorted_list (insert_roles sets roles t))
      → In r roles ⊎ In r (sets.unsorted_list t)
  unfolding insert_roles
  insert_roles-In [] t r m = inr m
  insert_roles-In (x ∷ roles) t r m = elim (insert_roles-In roles (sets.insert x t) r m) [
    | inl k ↦ inl (inr k)
    | inr k ↦ elim ((laws.inserts x r t).0 k) [ inl e ↦ inl (inl e) | inr i ↦ inr i ]
  ]

  pub add_role-gateway : (n : ClusterNode) → is_gateway (add_role sets n role_gateway) ≡ true
  unfolding add_role is_gateway has_role
  add_role-gateway n =
      In-any (λ role. equal_fold role_gateway role) role_gateway _
        ((laws.inserts role_gateway role_gateway (insert_roles sets n.roles sets.empty)).1
          (inl refl))
        equal_fold-gateway

  remaining-In :
      (roles : List String) (role r : String)
      → In r (remaining sets roles role)
      → (r ≢ role) × In r roles
  unfolding remaining
  remaining-In [] role r m = absurd m
  remaining-In (x ∷ roles) role r m =
      let (differs, k) = (laws.deletes role r (insert_roles sets (x ∷ roles) sets.empty)).0 m in
      elim (insert_roles-In (x ∷ roles) sets.empty r k) [
        | inl i ↦ (differs, i)
        | inr i ↦ absurd (laws.empties r i)
      ]

  pub remove_role-gateway :
      (n : ClusterNode) → IsExact n → is_gateway (remove_role sets n role_gateway) ≡ false
  unfolding remove_role is_gateway has_role
  remove_role-gateway n exact =
      elim (Bool-cases (any reads (remaining sets n.roles role_gateway))) [
        | inr e ↦ e
        | inl e ↦
            let (r, m, h) = any-In reads (remaining sets n.roles role_gateway) e in
            let (differs, k) = remaining-In n.roles role_gateway r m in
            absurd (differs (exact r k h))
      ]
    where
      reads : String → Bool
      reads role = equal_fold role_gateway role

  pub elected-Elects : (e : Elector) (n : ClusterNode) → IsExact n → Elects e n (elected sets e n)
  unfolding elected modify_node Elects add_role remove_role
  elected-Elects e n exact =
      ground (
        arith,
        eq_iff n.cluster_name e.cluster_name,
        remove_role-gateway n exact,
        add_role-gateway n,
      )
