-- ===== src/Link/Safety/Devices.antt =====
-- The two handlers of VXLAN devices keep a ready state.
use kosmos.Base.{refl, In, Returns, Returns-bind, Returns-both, deref}
use kosmos.Api.Cluster.{Cluster}
use kosmos.Api.Node.{ClusterNode}
use kosmos.Link.Net.{Net}
use kosmos.Link.Vxlan.{
  vxlan_attributes, vxlan_bridge_name, vxlan_bridge_name_6, vxlan_local_name, vxlan_local_name_6,
}
use kosmos.Link.Filter.{
  Filter, get_cluster_by_name, get_gateway_cluster_nodes, support_ipv4, support_ipv6,
}
use kosmos.Link.Context.{Context}
use kosmos.Link.Handlers.Vxlan.{
  need_to_create_vx_local, need_to_create_vx_local6, need_to_create_vx_bridge,
  need_to_create_vx_bridge6, create_vx_local, create_vx_bridge, create_if, vx_local_node,
  vx_bridge_node, vx_local_network, vx_bridge_network,
}
use kosmos.Link.Safety.{
  IsResolved, Ready, HasOptions, IsSafe, without_error-Done, resolves_at, support_ipv4_at,
  support_ipv6_at, for_each_of, for_each_edge, get_gateway_cluster_nodes-OfFilter,
}
use kosmos.Link.Safety.Vxlan.{IsAddressable, CanAddress, Needs, needed, create_if-Ready}

module _ (net : Net) (f : Filter) (ok : IsResolved f) (given : IsAddressable net f) where
  addresses_at :
      (c : Context) (n : ClusterNode)
      → Ready f c
      → In n f.cluster_nodes
      → Returns (CanAddress net n) (deref (get_cluster_by_name c.filter n.cluster_name))
  addresses_at c n r m = rw r.same (given.addresses n m)

  abbrev Usable : ClusterNode → Cluster → Type 0
  Usable n cl = HasOptions cl × CanAddress net n cl

  vx_local_node-Ready :
      (n : ClusterNode) (c : Context)
      → In n f.cluster_nodes
      → Ready f c
      → Returns (Ready f) (vx_local_node net n c)
  unfolding vx_local_node vxlan_attributes
  vx_local_node-Ready n c m r =
      Returns-bind (Usable n) (Ready f) (deref (get_cluster_by_name c.filter n.cluster_name)) _
        (Returns-both HasOptions (CanAddress net n) _ (resolves_at f ok c n r m)
          (addresses_at c n r m))
        (λ cl u.
          Returns-bind (Needs cl n.ip (λ o. o.local_cidrs.ip)) (Ready f)
            (need_to_create_vx_local c n cl) _
            (needed (support_ipv4 c.filter n) cl n.ip (λ o. o.local_cidrs.ip) u.0
              (support_ipv4_at f ok c n r m))
            (λ b need.
              Returns-bind (Ready f) (Ready f) (create_if net b n (create_vx_local net c n cl) c) _
                (create_if-Ready net f ok vxlan_local_name b n cl n.ip (λ o. o.local_cidrs.ip) c
                  refl u.0 (λ o e. (u.1 o e).0) need m r)
                (λ d q.
                  Returns-bind (Needs cl n.ip6 (λ o. o.local_cidrs.ip6)) (Ready f)
                    (need_to_create_vx_local6 d n cl) _
                    (needed (support_ipv6 d.filter n) cl n.ip6 (λ o. o.local_cidrs.ip6) u.0
                      (support_ipv6_at f ok d n q m))
                    (λ b6 need6.
                      create_if-Ready net f ok vxlan_local_name_6 b6 n cl n.ip6
                        (λ o. o.local_cidrs.ip6) d refl u.0 (λ o e. (u.1 o e).1) need6 m q))))

  vx_bridge_node-Ready :
      (n : ClusterNode) (c : Context)
      → In n f.cluster_nodes
      → Ready f c
      → Returns (Ready f) (vx_bridge_node net n c)
  unfolding vx_bridge_node vxlan_attributes
  vx_bridge_node-Ready n c m r =
      Returns-bind (Usable n) (Ready f) (deref (get_cluster_by_name c.filter n.cluster_name)) _
        (Returns-both HasOptions (CanAddress net n) _ (resolves_at f ok c n r m)
          (addresses_at c n r m))
        (λ cl u.
          Returns-bind (Needs cl n.ip (λ o. o.bridge_cidrs.ip)) (Ready f)
            (need_to_create_vx_bridge c n cl) _
            (needed (support_ipv4 c.filter n) cl n.ip (λ o. o.bridge_cidrs.ip) u.0
              (support_ipv4_at f ok c n r m))
            (λ b need.
              Returns-bind (Ready f) (Ready f) (create_if net b n (create_vx_bridge net c n cl) c) _
                (create_if-Ready net f ok vxlan_bridge_name b n cl n.ip (λ o. o.bridge_cidrs.ip) c
                  refl u.0 (λ o e. (u.1 o e).2) need m r)
                (λ d q.
                  Returns-bind (Needs cl n.ip6 (λ o. o.bridge_cidrs.ip6)) (Ready f)
                    (need_to_create_vx_bridge6 d n cl) _
                    (needed (support_ipv6 d.filter n) cl n.ip6 (λ o. o.bridge_cidrs.ip6) u.0
                      (support_ipv6_at f ok d n q m))
                    (λ b6 need6.
                      create_if-Ready net f ok vxlan_bridge_name_6 b6 n cl n.ip6
                        (λ o. o.bridge_cidrs.ip6) d refl u.0 (λ o e. (u.1 o e).3) need6 m q))))

  pub vx_local_network-IsSafe : IsSafe f (vx_local_network net)
  unfolding vx_local_network
  vx_local_network-IsSafe c r = without_error-Done f _ (
      for_each_of f ok (vx_local_node net) vx_local_node-Ready c.filter
        (get_gateway_cluster_nodes c.filter) c r.same (get_gateway_cluster_nodes-OfFilter c.filter)
        r)

  pub vx_bridge_network-IsSafe : IsSafe f (vx_bridge_network net)
  unfolding vx_bridge_network
  vx_bridge_network-IsSafe c r = for_each_edge f ok (vx_bridge_node net) vx_bridge_node-Ready c r
