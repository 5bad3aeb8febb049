-- ===== src/Link/Elector.antt =====
-- pkg/clusterlink/elector/elector.go and pkg/utils/role/role.go: the node that holds the lease makes
-- itself the only gateway of its cluster. The sets of k8s.io/apimachinery and the client are
-- parameters. A nil slice of roles is the empty one, which both functions treat alike.
pub mod Roles
pub mod Settled
use kosmos.Base.{
  ℕ, suc, ◌+◌, ◌-◌, ◌≤◌, ◌<◌, String, ◌≡◌, refl, sym, ap, subst, ◌∙◌, ◌≢◌, ◌↔◌, ◌⊎◌, inl, inr, Bool,
  true, false, not, ◌&&◌, ◌||◌, Option, none, some, List, [], ◌∷◌, ◌++◌, map, arith, eq_iff, ◌==◌,
  if◌then◌else◌, leb, nat_beq, Bool-cases, Option-cases, is_some, length, any, filter, find,
  filter_map, flat_map, In, All, In-any, any-In, any-false, In-append, In-append_left,
  In-append_right, In-map, In-filter, filter-In, All-In, All-of_In, find-In, filter_map-In,
  flat_map-In, Slice, items, Outcome, returns, panics, ◌>>=◌, deref, for_each, Returns,
  Returns-bind, Returns-mono, for_each-Returns,
}
use kosmos.Api.Cluster.{role_gateway}
use kosmos.Api.Node.{ClusterNode, is_gateway}

-- `sets.String`.
pub record Sets (T : Type 0) : Type 0 where
  pub empty : T
  pub insert : String → T → T
  pub delete : String → T → T
  pub unsorted_list : T → List String

pub record Elector : Type 0 where
  pub node_name : String
  pub cluster_name : String

-- What the elector uses of the client. An error is the left side.
pub record Client (S : Type 0) : Type 0 where
  pub list_nodes : S → String ⊎ List ClusterNode
  pub get_cluster : String → S → Option String
  pub update_node : ClusterNode → S → Option String × S

module _ {T : Type 0} (sets : Sets T) where
  unfoldable pub insert_roles : List String → T → T
  insert_roles [] t = t
  insert_roles (role ∷ roles) t = insert_roles roles (sets.insert role t)

  unfoldable pub add_role : ClusterNode → String → ClusterNode
  add_role node role =
      let role_set = sets.insert role (insert_roles node.roles sets.empty) in
      record node { roles = sets.unsorted_list role_set }

  -- The roles that are left; an empty slice is returned as it is.
  unfoldable pub remaining : List String → String → List String
  remaining [] role = []
  remaining (r ∷ roles) role =
      sets.unsorted_list (sets.delete role (insert_roles (r ∷ roles) sets.empty))

  unfoldable pub remove_role : ClusterNode → String → ClusterNode
  remove_role node role = record node { roles = remaining node.roles role }

  -- One round of the loop: the node to update, if it needs one.
  unfoldable pub modify_node : Elector → ClusterNode → Option ClusterNode
  modify_node e node =
      let is_same_cluster = node.cluster_name == e.cluster_name in
      let is_current_node = node.node_name == e.node_name in
      if is_same_cluster
      then if not is_current_node && is_gateway node
        then some (remove_role node role_gateway)
        else if is_current_node && not (is_gateway node)
        then some (add_role node role_gateway)
        else none
      else none

  unfoldable pub gen_modify_node : Elector → List ClusterNode → List ClusterNode
  gen_modify_node e nodes = filter_map (modify_node e) nodes

  module _ {S : Type 0} (client : Client S) where
    -- The loop stops at the first error.
    unfoldable pub update_nodes : List ClusterNode → S → Option String × S
    update_nodes [] s = (none, s)
    update_nodes (node ∷ nodes) s =
        let (result, t) = client.update_node node s in
        elim result [ some err ↦ (some err, t) | none ↦ update_nodes nodes t ]

    unfoldable pub ensure_gateway_role : Elector → S → Option String × S
    ensure_gateway_role e s = elim (client.list_nodes s) [
      | inl err ↦ (some err, s)
      | inr nodes ↦ elim (client.get_cluster e.cluster_name s) [
        | some err ↦ (some err, s)
        | none ↦ update_nodes (gen_modify_node e nodes) s
      ]
    ]
