-- ===== src/Link/Safety/Routes.antt =====
-- The route handlers never panic.
use kosmos.Base.{
  String, ◌≡◌, subst, some, List, ◌++◌, In, not, ◌||◌, returns, Returns, Returns-bind, Returns-if,
  Returns-option, deref-Returns, for_each-Returns, if◌then◌else◌,
}
use kosmos.Api.Cluster
use kosmos.Api.Cluster.{Cluster, ClusterLinkOptions}
use kosmos.Api.Node
use kosmos.Api.Node.{ClusterNode}
use kosmos.Link.Net.{Net}
use kosmos.Link.Vxlan.{get_ip_type, IpType}
use kosmos.Link.Filter.{Filter, get_all_nodes_except_cluster, get_gateway_node_by_cluster_name}
use kosmos.Link.Context.{Context, update, add_route}
use kosmos.Link.Handlers.Routes.{
  support_ip_type, vx_local_of, vx_bridge_of, device_ip, route_over_gateway, route_node, route_cidr,
  build_routes, service_routes_node, service_routes, pod_routes_node, pod_routes,
  if_cidr_conflict_with_self,
}
use kosmos.Link.Safety.{
  IsResolved, Ready, HasOptions, IsSafe, without_error-Done, update-Ready, resolves_at,
  get_all_nodes_except_cluster-OfFilter, for_each_gateway, for_each_edge,
}

support_ip_type-Returns :
    (c : Cluster) (t : IpType) → HasOptions c → Returns (λ _. Unit {0}) (support_ip_type c t)
unfolding support_ip_type
support_ip_type-Returns c t h =
    Returns-bind (λ o. c.link_options ≡ some o) (λ _. Unit {0}) _ _ (deref-Returns c.link_options h)
      (λ o e. tt)

module _ (net : Net) (f : Filter) (ok : IsResolved f) where
  route_over_gateway-Ready :
      (cidr : String) (n : ClusterNode) (c : Context)
      → In n f.cluster_nodes
      → Ready f c
      → Returns (Ready f) (route_over_gateway net cidr n c)
  unfolding route_over_gateway
  route_over_gateway-Ready cidr n c m r =
      Returns-option (Ready f) (get_gateway_node_by_cluster_name c.filter n.cluster_name) _ _
        (λ e. r)
        (λ gw e.
          Returns-option (Ready f) (device_ip net c gw.name (vx_local_of (get_ip_type cidr))) _ _
            (λ e. r) (λ ip e. update-Ready f c r n _ m))

  pub route_node-Ready :
      (cidr target_ip : String) (n : ClusterNode) (c : Context)
      → In n f.cluster_nodes
      → Ready f c
      → Returns (Ready f) (route_node net cidr target_ip n c)
  unfolding route_node
  route_node-Ready cidr target_ip n c m r =
      Returns-bind HasOptions (Ready f) _ _ (resolves_at f ok c n r m) (λ cl h.
        Returns-bind (λ _. Unit {0}) (Ready f) (support_ip_type cl (get_ip_type cidr)) _
          (support_ip_type-Returns cl _ h)
          (λ b u.
            let over = route_over_gateway net cidr n c in
            let route =
              add_route
                (record { cidr = cidr; gw = target_ip; dev = vx_bridge_of (get_ip_type cidr) }) in
            let direct = update n.name route c in
            let sent = if Node.is_gateway n || Cluster.is_p2p cl then direct else over in
            let cidrs = cl.link_status.pod_cidrs ++ cl.link_status.service_cidrs in
            let checked = if if_cidr_conflict_with_self net cidrs cidr then returns c else sent in
            Returns-if (Ready f) (not b) (returns c) checked (λ e. r)
              (λ e.
                Returns-if (Ready f) (if_cidr_conflict_with_self net cidrs cidr) (returns c) sent
                  (λ e. r)
                  (λ e.
                    Returns-if (Ready f) (Node.is_gateway n || Cluster.is_p2p cl) direct over
                      (λ e. update-Ready f c r n route m)
                      (λ e. route_over_gateway-Ready cidr n c m r)))))

  route_cidr-Ready :
      (target : ClusterNode) (cidr : String) (c : Context)
      → Ready f c
      → Returns (Ready f) (route_cidr net target cidr c)
  unfolding route_cidr
  route_cidr-Ready target cidr c r =
      Returns-option (Ready f) (device_ip net c target.name (vx_bridge_of (get_ip_type cidr))) _ _
        (λ e. r)
        (λ ip e.
          for_each-Returns (Ready f) (get_all_nodes_except_cluster c.filter target.cluster_name)
            (route_node net cidr ip)
            (λ n m d q.
              route_node-Ready cidr ip n d
                (subst (λ g. In n g.cluster_nodes) r.same
                  (get_all_nodes_except_cluster-OfFilter c.filter target.cluster_name n m))
                q)
            c r)

  pub build_routes-Ready :
      (target : ClusterNode) (cidrs : List String) (c : Context)
      → Ready f c
      → Returns (Ready f) (build_routes net target cidrs c)
  unfolding build_routes
  build_routes-Ready target cidrs c r =
      for_each-Returns (Ready f) cidrs (route_cidr net target)
        (λ cidr m d q. route_cidr-Ready target cidr d q) c r

  service_routes_node-Ready :
      (n : ClusterNode) (c : Context)
      → In n f.cluster_nodes
      → Ready f c
      → Returns (Ready f) (service_routes_node net n c)
  unfolding service_routes_node
  service_routes_node-Ready n c m r =
      Returns-bind HasOptions (Ready f) _ _ (resolves_at f ok c n r m) (λ cl h.
        Returns-bind (λ o. cl.link_options ≡ some o) (Ready f) _ _ (deref-Returns cl.link_options h)
          (λ o e. build_routes-Ready n _ c r))

  pod_routes_node-Ready :
      (n : ClusterNode) (c : Context)
      → In n f.cluster_nodes
      → Ready f c
      → Returns (Ready f) (pod_routes_node net n c)
  unfolding pod_routes_node
  pod_routes_node-Ready n c m r =
      Returns-bind HasOptions (Ready f) _ _ (resolves_at f ok c n r m) (λ cl h.
        Returns-bind (λ o. cl.link_options ≡ some o) (Ready f) _ _ (deref-Returns cl.link_options h)
          (λ o e. build_routes-Ready n _ c r))

  pub service_routes-IsSafe : IsSafe f (service_routes net)
  unfolding service_routes
  service_routes-IsSafe c r =
      without_error-Done f _
        (for_each_gateway f ok (service_routes_node net) service_routes_node-Ready c r)

  pub pod_routes-IsSafe : IsSafe f (pod_routes net)
  unfolding pod_routes
  pod_routes-IsSafe c r = for_each_edge f ok (pod_routes_node net) pod_routes_node-Ready c r
