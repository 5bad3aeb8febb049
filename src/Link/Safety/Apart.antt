-- ===== src/Link/Safety/Apart.antt =====
-- The routes to a cluster are added to the nodes of the other clusters only.
use kosmos.Base.{
  Returns-mono, May, May-bind, May-if, May-option, for_each-May, May-Returns, String, ◌≡◌, refl,
  ◌≢◌, ◌||◌, ◌++◌, not, eq_iff, Option, List, In, filter-In, returns, deref, Returns, arith,
  if◌then◌else◌, subst,
}
use kosmos.Base.Dict
use kosmos.Base.Dict.{lookup-insert}
use kosmos.Api.Node.{ClusterNode}
use kosmos.Api.Node
use kosmos.Api.Cluster
use kosmos.Link.Net.{Net}
use kosmos.Link.Vxlan.{get_ip_type}
use kosmos.Link.Filter.{
  Filter, get_all_nodes_except_cluster, get_gateway_node_by_cluster_name, get_cluster_by_name,
}
use kosmos.Link.Context.{NodeConfig, Context, update, add_route}
use kosmos.Link.Handlers.Routes.{
  support_ip_type, vx_local_of, vx_bridge_of, device_ip, route_over_gateway, route_node, route_cidr,
  build_routes, if_cidr_conflict_with_self,
}
use kosmos.Link.Safety.{IsResolved, Ready}
use kosmos.Link.Safety.Routes.{build_routes-Ready}

-- The nodes of clusters other than `cluster_name` have other names than `k`.
abbrev pub IsApart : Filter → String → String → Type 0
IsApart f k cluster_name =
    (n : ClusterNode) → In n f.cluster_nodes → n.cluster_name ≢ cluster_name → n.name ≢ k

module _ (net : Net) (f : Filter) (k : String) (before : Option NodeConfig) where
  -- The configuration of `k` is what it was.
  abbrev Kept : Context → Type 0
  Kept c = (c.filter ≡ f) × (Dict.lookup k c.results ≡ before)

  update-Kept :
      (n : ClusterNode) (g : NodeConfig → NodeConfig) (c : Context)
      → n.name ≢ k
      → Kept c
      → May Kept (update n.name g c)
  unfolding update
  update-Kept n g c other r =
      May-bind Kept (deref (Dict.lookup n.name c.results)) _
        (λ config. (r.0, rw lookup-insert (ground (arith, r.1, other, eq_iff n.name k))))

  route_over_gateway-Kept :
      (cidr : String) (n : ClusterNode) (c : Context)
      → n.name ≢ k
      → Kept c
      → May Kept (route_over_gateway net cidr n c)
  unfolding route_over_gateway
  route_over_gateway-Kept cidr n c other r =
      May-option Kept (get_gateway_node_by_cluster_name c.filter n.cluster_name) _ _ r (λ gw.
        May-option Kept (device_ip net c gw.name (vx_local_of (get_ip_type cidr))) _ _ r
          (λ ip. update-Kept n _ c other r))

  route_node-Kept :
      (cidr target_ip : String) (n : ClusterNode) (c : Context)
      → n.name ≢ k
      → Kept c
      → May Kept (route_node net cidr target_ip n c)
  unfolding route_node
  route_node-Kept cidr target_ip n c other r =
      May-bind Kept (deref (get_cluster_by_name c.filter n.cluster_name)) _ (λ cl.
        May-bind Kept (support_ip_type cl (get_ip_type cidr)) _ (λ b.
          let over = route_over_gateway net cidr n c in
          let route =
            add_route
              (record { cidr = cidr; gw = target_ip; dev = vx_bridge_of (get_ip_type cidr) }) in
          let direct = update n.name route c in
          let sent = if Node.is_gateway n || Cluster.is_p2p cl then direct else over in
          let cidrs = cl.link_status.pod_cidrs ++ cl.link_status.service_cidrs in
          let checked = if if_cidr_conflict_with_self net cidrs cidr then returns c else sent in
          May-if Kept (not b) (returns c) checked r (
            May-if Kept (if_cidr_conflict_with_self net cidrs cidr) (returns c) sent r (
              May-if Kept (Node.is_gateway n || Cluster.is_p2p cl) direct over
                (update-Kept n route c other r) (route_over_gateway-Kept cidr n c other r)))))

  other_node :
      (g : Filter) (cluster_name : String) (n : ClusterNode)
      → g ≡ f
      → IsApart f k cluster_name
      → In n (get_all_nodes_except_cluster g cluster_name)
      → n.name ≢ k
  unfolding get_all_nodes_except_cluster
  other_node g cluster_name n e apart m =
      let r = filter-In _ n g.cluster_nodes m in
      apart n (subst (λ h. In n h.cluster_nodes) e r.0)
        (λ s. ground (arith, r.1, s, eq_iff n.cluster_name cluster_name))

  route_cidr-Kept :
      (target : ClusterNode) (cidr : String) (c : Context)
      → IsApart f k target.cluster_name
      → Kept c
      → May Kept (route_cidr net target cidr c)
  unfolding route_cidr
  route_cidr-Kept target cidr c apart r =
      May-option Kept (device_ip net c target.name (vx_bridge_of (get_ip_type cidr))) _ _ r (λ ip.
        for_each-May Kept (get_all_nodes_except_cluster c.filter target.cluster_name)
          (route_node net cidr ip)
          (λ n m d q.
            route_node-Kept cidr ip n d (other_node c.filter target.cluster_name n r.0 apart m) q)
          c r)

  build_routes-Kept :
      (target : ClusterNode) (cidrs : List String) (c : Context)
      → IsApart f k target.cluster_name
      → Kept c
      → May Kept (build_routes net target cidrs c)
  unfolding build_routes
  build_routes-Kept target cidrs c apart r =
      for_each-May Kept cidrs (route_cidr net target)
        (λ cidr m d q. route_cidr-Kept target cidr d apart q) c r

-- Where every node's cluster is known and has options, and the results have exactly the names of the
-- nodes, the routes to a target are built without a panic, the results keep their names, and the
-- configuration of any node of the target's own cluster is left as it was, if no node of another
-- cluster has its name.
pub build_routes-IsApart :
    (net : Net) (f : Filter) (target : ClusterNode) (cidrs : List String) (c : Context) (k : String)
    → IsResolved f
    → Ready f c
    → IsApart f k target.cluster_name
    → Returns
        (λ d. Ready f d × (Dict.lookup k d.results ≡ Dict.lookup k c.results))
        (build_routes net target cidrs c)
build_routes-IsApart net f target cidrs c k ok r apart =
    let same = Kept net f k (Dict.lookup k c.results) in
    Returns-mono (λ d. Ready f d × same d) _ (build_routes net target cidrs c) (λ d q. (q.0, q.1.1))
      (May-Returns (Ready f) same (build_routes net target cidrs c)
        (build_routes-Ready net f ok target cidrs c r)
        (build_routes-Kept net f k (Dict.lookup k c.results) target cidrs c apart (r.same, refl)))
