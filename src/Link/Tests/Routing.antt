-- ===== src/Link/Tests/Routing.antt =====
-- Two clusters with one node each, and the routes to one of them.
use kosmos.Base.{
  for_each, returns, ◌>>=◌, ◌≡◌, refl, sym, subst, inl, inr, [], ◌∷◌, Returns, deref, arith,
}
use kosmos.Base.Dict
use kosmos.Api.Config.{Device}
use kosmos.Api.Cluster.{Cluster}
use kosmos.Api.Node.{ClusterNode}
use kosmos.Api.Node
use kosmos.Link.Vxlan.{get_ip_type, ip_type_beq}
use kosmos.Link.Filter.{
  get_all_nodes_except_cluster, Filter, new_filter, build_clusters_map, insert_clusters,
  get_cluster_by_name,
}
use kosmos.Link.Context.{get_device_from_results, update, Context, empty_config}
use kosmos.Link.Handlers.Routes.{
  build_routes, support_ip_type, device_ip, if_cidr_conflict_with_self, vx_bridge_of,
}
use kosmos.Link.Safety.{IsResolved, Ready, HasOptions}
use kosmos.Link.Safety.Apart.{IsApart, build_routes-IsApart}
use kosmos.Link.Tests.{net, cluster, node}

abbrev other_cluster : Cluster
other_cluster = record cluster {
  name = "other";
  link_status = record { pod_cidrs = []; service_cidrs = [] };
}

abbrev other_node : ClusterNode
other_node = record node { name = "other-one"; cluster_name = "other" }

abbrev filter : Filter
filter = new_filter (cluster ∷ other_cluster ∷ []) (node ∷ other_node ∷ []) []

abbrev bridge : Device
bridge = record {
  type = "vxlan";
  name = "vx-bridge";
  addr = "9.0.0.1/8";
  mac = "02:00:00:00:00:01";
  bind_dev = "eth0";
  id = 54;
  port = 4876;
}

abbrev context : Context
context = record {
  filter = filter;
  results =
      ("member-one", record empty_config { devices = bridge ∷ [] })
      ∷ ("other-one", empty_config)
      ∷ [];
  draws = 0;
}

filter-IsResolved : IsResolved filter
unfolding new_filter get_cluster_by_name build_clusters_map insert_clusters Dict.insert Dict.lookup
filter-IsResolved = record {
  resolves = λ n m.
      let P = λ (n : ClusterNode).
        Returns HasOptions (deref (get_cluster_by_name filter n.cluster_name)) in
      elim m [
        | inl e ↦ subst P (sym e) refl
        | inr k ↦ elim k [ inl e ↦ subst P (sym e) refl | inr none_left ↦ absurd none_left ]
      ];
}

context-Ready : Ready filter context
unfolding new_filter Dict.lookup
context-Ready = record { same = refl; keys = λ name. ground arith }

filter-IsApart : IsApart filter "member-one" "member"
unfolding new_filter
filter-IsApart n m other same = elim m [
  | inl e ↦ other (subst (λ (n : ClusterNode). n.cluster_name ≡ "member") (sym e) refl)
  | inr k ↦ elim k [ inl e ↦ cc | inr none_left ↦ absurd none_left ]
]

build_routes-IsApart_example :
    Returns
      (λ d.
        Ready filter d
        × (Dict.lookup "member-one" d.results ≡ Dict.lookup "member-one" context.results))
      (build_routes net node ("10.1.0.0/16" ∷ []) context)
build_routes-IsApart_example =
    build_routes-IsApart net filter node ("10.1.0.0/16" ∷ []) context "member-one" filter-IsResolved
      context-Ready filter-IsApart

-- The other node does get a route.
routed :
    (build_routes net node ("10.1.0.0/16" ∷ []) context >>= λ c.
    deref (Dict.lookup "other-one" c.results))
    ≡ returns (record empty_config {
      routes = record { cidr = "10.1.0.0/16"; gw = "9.0.0.1"; dev = "vx-bridge" } ∷ [];
    })
unfolding build_routes for_each Dict.lookup Dict.insert new_filter get_all_nodes_except_cluster
    get_cluster_by_name build_clusters_map insert_clusters support_ip_type device_ip
    get_device_from_results update if_cidr_conflict_with_self vx_bridge_of get_ip_type ip_type_beq
    Node.is_gateway
routed = refl
