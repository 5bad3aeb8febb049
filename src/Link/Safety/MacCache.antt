-- ===== src/Link/Safety/MacCache.antt =====
-- The handlers of forwarding and neighbour entries never panic.
use kosmos.Base.{
  String, Bool, refl, sym, subst, ◌==◌, List, [], ◌∷◌, ◌++◌, In, inl, inr, returns, Returns,
  Returns-bind, Returns-if, Returns-option, for_each, for_each-Returns,
}
use kosmos.Api.Node.{ClusterNode}
use kosmos.Link.Net.{Net}
use kosmos.Link.Filter.{
  Filter, support_ipv4, support_ipv6, get_gateway_nodes, get_endpoint_nodes, get_internal_nodes,
  get_internal_nodes_by_cluster_name, get_gateway_node_by_cluster_name,
}
use kosmos.Link.Context.{Context}
use kosmos.Link.Handlers.MacCache.{
  get_support_ip_types, build_vx_local_caches_by_node, cache_gateway, cache_internal_node,
  cache_gateway_node, vx_local_mac_cache, bridge_caches, cache_bridge_node, vx_bridge_mac_cache,
}
use kosmos.Link.Safety.{
  IsResolved, Ready, OfFilter, Done, IsSafe, without_error-Done, update-Ready, support_ipv4_at,
  support_ipv6_at, for_each_gateway, for_each_of, edge_nodes, get_endpoint_nodes-OfFilter,
  get_internal_nodes-OfFilter, get_internal_nodes_by_cluster_name-OfFilter,
}

abbrev Any : {A : Type 0} → A → Type 0
Any _ = Unit {0}

module _ (net : Net) (f : Filter) (ok : IsResolved f) where
  get_support_ip_types-Returns :
      (n : ClusterNode) (c : Context)
      → In n f.cluster_nodes
      → Ready f c
      → Returns Any (get_support_ip_types n c)
  unfolding get_support_ip_types
  get_support_ip_types-Returns n c m r =
      Returns-bind Any Any (support_ipv4 c.filter n) _ (support_ipv4_at f ok c n r m) (λ b u.
        Returns-bind Any Any (support_ipv6 c.filter n) _ (support_ipv6_at f ok c n r m)
          (λ b6 u6. tt))

  cache_gateway-Ready :
      (n gw : ClusterNode) (t : String) (c : Context)
      → In n f.cluster_nodes
      → Ready f c
      → Returns (Ready f) (cache_gateway net n gw t c)
  unfolding cache_gateway
  cache_gateway-Ready n gw t c m r =
      Returns-option (Ready f) (build_vx_local_caches_by_node net c t gw) (returns c) _ (λ e. r)
        (λ caches e. update-Ready f c r n _ m)

  cache_internal_node-Ready :
      (n : ClusterNode) (c : Context)
      → In n f.cluster_nodes
      → Ready f c
      → Returns (Ready f) (cache_internal_node net n c)
  unfolding cache_internal_node
  cache_internal_node-Ready n c m r =
      Returns-bind Any (Ready f) (get_support_ip_types n c) _ (get_support_ip_types-Returns n c m r)
        (λ types u.
          Returns-option (Ready f) (get_gateway_node_by_cluster_name c.filter n.cluster_name)
            (returns c) _ (λ e. r)
            (λ gw e.
              for_each-Returns (Ready f) types (cache_gateway net n gw)
                (λ t i d q. cache_gateway-Ready n gw t d m q) c r))

  cache_gateway_node-Ready :
      (n : ClusterNode) (c : Context)
      → In n f.cluster_nodes
      → Ready f c
      → Returns (Ready f) (cache_gateway_node net n c)
  unfolding cache_gateway_node
  cache_gateway_node-Ready n c m r =
      Returns-bind Any (Ready f) (get_support_ip_types n c) _ (get_support_ip_types-Returns n c m r)
        (λ types u.
          Returns-bind (OfFilter c.filter) (Ready f)
            (get_internal_nodes_by_cluster_name c.filter n.cluster_name) _
            (get_internal_nodes_by_cluster_name-OfFilter c.filter (subst IsResolved (sym r.same) ok)
              n.cluster_name)
            (λ ns of. update-Ready f c r n _ m))

  pub vx_local_mac_cache-IsSafe : IsSafe f (vx_local_mac_cache net)
  unfolding vx_local_mac_cache
  vx_local_mac_cache-IsSafe c r =
      Returns-bind (OfFilter c.filter) (Done f) (get_internal_nodes c.filter) _
        (get_internal_nodes-OfFilter c.filter (subst IsResolved (sym r.same) ok))
        (λ ns of.
          Returns-bind (Ready f) (Done f) (for_each ns (cache_internal_node net) c) _
            (for_each_of f ok (cache_internal_node net) cache_internal_node-Ready c.filter ns c
              r.same of r)
            (λ d q.
              without_error-Done f _
                (for_each_gateway f ok (cache_gateway_node net) cache_gateway_node-Ready d q)))

  bridge_caches-Returns :
      (src : ClusterNode) (b b6 : Bool) (ns : List ClusterNode) (c : Context)
      → OfFilter f ns
      → Ready f c
      → Returns Any (bridge_caches net c src b b6 ns)
  unfolding bridge_caches
  bridge_caches-Returns src b b6 [] c of r = tt
  bridge_caches-Returns src b b6 (tar ∷ ns) c of r =
      let rest = bridge_caches-Returns src b b6 ns c (λ n m. of n (inr m)) r in
      Returns-if Any (src.name == tar.name) (bridge_caches net c src b b6 ns) _ (λ e. rest)
        (λ e.
          Returns-bind Any Any (support_ipv4 c.filter tar) _
            (support_ipv4_at f ok c tar r (of tar (inl refl)))
            (λ t u.
              Returns-bind Any Any (support_ipv6 c.filter tar) _
                (support_ipv6_at f ok c tar r (of tar (inl refl)))
                (λ t6 u6.
                  Returns-bind Any Any (bridge_caches net c src b b6 ns) _ rest (λ caches k. tt))))

  cache_bridge_node-Ready :
      (ns : List ClusterNode)
      → OfFilter f ns
      → (n : ClusterNode) (c : Context) → In n f.cluster_nodes
      → Ready f c
      → Returns (Ready f) (cache_bridge_node net ns n c)
  unfolding cache_bridge_node
  cache_bridge_node-Ready ns of n c m r =
      Returns-bind Any (Ready f) (support_ipv4 c.filter n) _ (support_ipv4_at f ok c n r m) (λ b u.
        Returns-bind Any (Ready f) (support_ipv6 c.filter n) _ (support_ipv6_at f ok c n r m)
          (λ b6 u6.
            Returns-bind Any (Ready f) (bridge_caches net c n b b6 ns) _
              (bridge_caches-Returns n b b6 ns c of r) (λ caches k. update-Ready f c r n _ m)))

  pub vx_bridge_mac_cache-IsSafe : IsSafe f (vx_bridge_mac_cache net)
  unfolding vx_bridge_mac_cache
  vx_bridge_mac_cache-IsSafe c r =
      Returns-bind (OfFilter c.filter) (Done f) (get_endpoint_nodes c.filter) _
        (get_endpoint_nodes-OfFilter c.filter (subst IsResolved (sym r.same) ok))
        (λ endpoints of.
          let ns = get_gateway_nodes c.filter ++ endpoints in
          let member = edge_nodes c.filter endpoints of in
          without_error-Done f _ (
            for_each_of f ok (cache_bridge_node net ns)
              (cache_bridge_node-Ready ns (subst (λ g. OfFilter g ns) r.same member)) c.filter ns c
              r.same member r))
