-- ===== src/Link/Safety/HostNetwork.antt =====
-- The handlers of NAT rules never panic.
use kosmos.Base.{
  String, Bool, ◌≡◌, some, In, returns, Returns, Returns-bind, Returns-if, Returns-option,
  deref-Returns, ◌>>=◌, for_each-Returns, if◌then◌else◌,
}
use kosmos.Api.Cluster
use kosmos.Api.Cluster.{Cluster, ClusterLinkOptions}
use kosmos.Api.Node.{ClusterNode}
use kosmos.Link.Net.{Net}
use kosmos.Link.Vxlan.{vxlan_bridge_name, vxlan_bridge_name_6}
use kosmos.Link.Filter.{Filter, support_ipv4, support_ipv6}
use kosmos.Link.Context.{Context}
use kosmos.Link.Handlers.HostNetwork.{
  masquerade, host_network_node, host_network, global_map_entry, global_map_node, global_map,
}
use kosmos.Link.Safety.{
  IsResolved, Ready, HasOptions, IsSafe, without_error-Done, update-Ready, resolves_at,
  support_ipv4_at, support_ipv6_at, for_each_gateway, for_each_edge,
}

module _ (f : Filter) (ok : IsResolved f) where
  masquerade-Ready :
      (n : ClusterNode) (local bridge dev : String) (c : Context)
      → In n f.cluster_nodes
      → Ready f c
      → Returns (Ready f) (masquerade n local bridge dev c)
  unfolding masquerade
  masquerade-Ready n local bridge dev c m r =
      Returns-bind (Ready f) (Ready f) _ _ (update-Ready f c r n _ m)
        (λ d q. update-Ready f d q n _ m)

  masquerade_if :
      (b : Bool) (n : ClusterNode) (local bridge dev : String) (c : Context)
      → In n f.cluster_nodes
      → Ready f c
      → Returns (Ready f) (if b then masquerade n local bridge dev c else returns c)
  masquerade_if b n local bridge dev c m r =
      Returns-if (Ready f) b (masquerade n local bridge dev c) (returns c)
        (λ e. masquerade-Ready n local bridge dev c m r) (λ e. r)

  families_of :
      (o : ClusterLinkOptions) (n : ClusterNode) (c : Context)
      → In n f.cluster_nodes
      → Ready f c
      → Returns (Ready f) (do
        supported4 ← support_ipv4 c.filter n
        d ←
            if supported4
            then masquerade n o.local_cidrs.ip o.bridge_cidrs.ip vxlan_bridge_name c
            else returns c
        supported6 ← support_ipv6 d.filter n
        if supported6
            then masquerade n o.local_cidrs.ip6 o.bridge_cidrs.ip6 vxlan_bridge_name_6 d
            else returns d)
  families_of o n c m r =
      Returns-bind (λ _. Unit {0}) (Ready f) (support_ipv4 c.filter n) _
        (support_ipv4_at f ok c n r m)
        (λ b u.
          Returns-bind (Ready f) (Ready f)
            (if b
              then masquerade n o.local_cidrs.ip o.bridge_cidrs.ip vxlan_bridge_name c
              else returns c)
            _ (masquerade_if b n o.local_cidrs.ip o.bridge_cidrs.ip vxlan_bridge_name c m r)
            (λ d q.
              Returns-bind (λ _. Unit {0}) (Ready f) (support_ipv6 d.filter n) _
                (support_ipv6_at f ok d n q m)
                (λ b6 u6.
                  masquerade_if b6 n o.local_cidrs.ip6 o.bridge_cidrs.ip6 vxlan_bridge_name_6 d m
                    q)))

  host_network_node-Ready :
      (n : ClusterNode) (c : Context)
      → In n f.cluster_nodes
      → Ready f c
      → Returns (Ready f) (host_network_node n c)
  unfolding host_network_node
  host_network_node-Ready n c m r =
      Returns-bind HasOptions (Ready f) _ _ (resolves_at f ok c n r m) (λ cl h.
        Returns-if (Ready f) (Cluster.is_p2p cl) (returns c) _ (λ e. r)
          (λ e.
            Returns-bind (λ o. cl.link_options ≡ some o) (Ready f) _ _
              (deref-Returns cl.link_options h) (λ o k. families_of o n c m r)))

  pub host_network-IsSafe : IsSafe f host_network
  unfolding host_network
  host_network-IsSafe c r =
      without_error-Done f _ (for_each_gateway f ok host_network_node host_network_node-Ready c r)

module _ (net : Net) (f : Filter) (ok : IsResolved f) where
  global_map_entry-Ready :
      (n : ClusterNode) (entry : String × String) (c : Context)
      → In n f.cluster_nodes
      → Ready f c
      → Returns (Ready f) (global_map_entry net n entry c)
  unfolding global_map_entry
  global_map_entry-Ready n (src, dst) c m r =
      Returns-bind (Ready f) (Ready f) _ _ (update-Ready f c r n _ m) (λ d q.
        Returns-option (Ready f) (net.parse_cidr dst) (returns d) _ (λ e. q)
          (λ p e. update-Ready f d q n _ m))

  global_map_node-Ready :
      (n : ClusterNode) (c : Context)
      → In n f.cluster_nodes
      → Ready f c
      → Returns (Ready f) (global_map_node net n c)
  unfolding global_map_node
  global_map_node-Ready n c m r =
      Returns-bind HasOptions (Ready f) _ _ (resolves_at f ok c n r m) (λ cl h.
        Returns-bind (λ o. cl.link_options ≡ some o) (Ready f) _ _ (deref-Returns cl.link_options h)
          (λ o k.
            for_each-Returns (Ready f) o.global_cidrs_map (global_map_entry net n)
              (λ entry i d q. global_map_entry-Ready n entry d m q) c r))

  pub global_map-IsSafe : IsSafe f (global_map net)
  unfolding global_map
  global_map-IsSafe c r = for_each_edge f ok (global_map_node net) global_map_node-Ready c r
