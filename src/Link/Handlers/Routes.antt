-- ===== src/Link/Handlers/Routes.antt =====
-- svc_routes.go and pod_routes.go: the routes to the services and the pods of the other clusters.
use kosmos.Base.{
  String, Bool, not, ◌||◌, ◌==◌, Option, none, some, List, [], ◌∷◌, ◌++◌, map, any, filter, Outcome,
  returns, ◌>>=◌, deref, for_each, if◌then◌else◌,
}
use kosmos.Base.Dict
use kosmos.Base.Dict.{Dict}
use kosmos.Api.Cluster
use kosmos.Api.Cluster.{Cluster, ip_family_all, ip_family_ipv4}
use kosmos.Api.Node
use kosmos.Api.Node.{ClusterNode}
use kosmos.Link.Net.{Net}
use kosmos.Link.Vxlan.{
  IpType, ipv4, ipv6, unknown_type, ip_type_beq, get_ip_type, intersect, vxlan_bridge_name,
  vxlan_bridge_name_6, vxlan_local_name, vxlan_local_name_6,
}
use kosmos.Link.Filter.{
  get_cluster_by_name, get_gateway_nodes, get_endpoint_nodes, get_all_nodes_except_cluster,
  get_gateway_node_by_cluster_name,
}
use kosmos.Link.Context.{
  Context, Handler, get_device_from_results, update, add_route, without_error,
}

-- Any family but `ipv4` counts as IPv6.
unfoldable pub convert_ip_family_type_to_ip_type : String → IpType
convert_ip_family_type_to_ip_type family_type = if family_type == ip_family_ipv4 then ipv4 else ipv6

unfoldable pub filter_by_ip_family : List String → String → List String
unfolding convert_ip_family_type_to_ip_type
filter_by_ip_family cidrs family_type =
    if family_type == ip_family_all
    then cidrs
    else filter
        (λ cidr. ip_type_beq (get_ip_type cidr) (convert_ip_family_type_to_ip_type family_type))
        cidrs

unfoldable pub global_cidr : Dict String → String → String
global_cidr m cidr = elim (Dict.lookup cidr m) [ none ↦ cidr | some dst ↦ dst ]

unfoldable pub convert_to_global_cidrs : List String → Dict String → List String
unfolding global_cidr
convert_to_global_cidrs cidrs [] = cidrs
convert_to_global_cidrs cidrs (entry ∷ m) = map (global_cidr (entry ∷ m)) cidrs

unfoldable pub support_ip_type : Cluster → IpType → Outcome Bool
unfolding convert_ip_family_type_to_ip_type
support_ip_type cluster ip_type = do
  o ← deref cluster.link_options
  returns (
      o.ip_family == ip_family_all
      || ip_type_beq (convert_ip_family_type_to_ip_type o.ip_family) ip_type)

-- The names of the two devices for a type of address.
unfoldable pub vx_bridge_of : IpType → String
vx_bridge_of ipv4 = vxlan_bridge_name
vx_bridge_of ipv6 = vxlan_bridge_name_6
vx_bridge_of unknown_type = ""

unfoldable pub vx_local_of : IpType → String
vx_local_of ipv4 = vxlan_local_name
vx_local_of ipv6 = vxlan_local_name_6
vx_local_of unknown_type = ""

module _ (net : Net) where
  unfoldable pub if_cidr_conflict_with_self : List String → String → Bool
  if_cidr_conflict_with_self self_cidrs tar_cidr =
      any (λ cidr. intersect net cidr tar_cidr) self_cidrs

  -- The address of a device that a node already has in the results, if there is one that parses.
  unfoldable pub device_ip : Context → String → String → Option String
  device_ip c node_name dev_name = elim (get_device_from_results c node_name dev_name) [
    | none ↦ none
    | some dev ↦ elim (net.parse_cidr dev.addr) [
      | none ↦ none
      | some (ip, _) ↦ some (net.ip_string ip)
    ]
  ]

  -- The route of an internal node goes over the gateway of its own cluster.
  unfoldable pub route_over_gateway : String → ClusterNode → Context → Outcome Context
  unfolding device_ip
  route_over_gateway cidr n c =
      let dev = vx_local_of (get_ip_type cidr) in
      elim (get_gateway_node_by_cluster_name c.filter n.cluster_name) [
        | none ↦ returns c
        | some gw ↦ elim (device_ip c gw.name dev) [
          | none ↦ returns c
          | some gw_ip ↦ update n.name (add_route (record { cidr = cidr; gw = gw_ip; dev = dev })) c
        ]
      ]

  -- The body of the inner loop of `BuildRoutes`.
  unfoldable pub route_node : String → String → ClusterNode → Context → Outcome Context
  unfolding route_over_gateway support_ip_type
  route_node cidr target_ip n c = do
    src_cluster ← deref (get_cluster_by_name c.filter n.cluster_name)
    supported ← support_ip_type src_cluster (get_ip_type cidr)
    let status = src_cluster.link_status
    if not supported
        then returns c
        else if if_cidr_conflict_with_self (status.pod_cidrs ++ status.service_cidrs) cidr
        then returns c
        else if Node.is_gateway n || Cluster.is_p2p src_cluster
        then update n.name
            (add_route
              (record { cidr = cidr; gw = target_ip; dev = vx_bridge_of (get_ip_type cidr) }))
            c
        else route_over_gateway cidr n c

  unfoldable pub route_cidr : ClusterNode → String → Context → Outcome Context
  unfolding route_node device_ip
  route_cidr target cidr c = elim (device_ip c target.name (vx_bridge_of (get_ip_type cidr))) [
    | none ↦ returns c
    | some target_ip ↦
        for_each (get_all_nodes_except_cluster c.filter target.cluster_name)
          (route_node cidr target_ip) c
  ]

  unfoldable pub build_routes : ClusterNode → List String → Context → Outcome Context
  unfolding route_cidr
  build_routes target cidrs c = for_each cidrs (route_cidr target) c

  unfoldable pub service_routes_node : ClusterNode → Context → Outcome Context
  unfolding build_routes filter_by_ip_family convert_to_global_cidrs
  service_routes_node target c = do
    cluster ← deref (get_cluster_by_name c.filter target.cluster_name)
    o ← deref cluster.link_options
    build_routes target
        (convert_to_global_cidrs (filter_by_ip_family cluster.link_status.service_cidrs o.ip_family)
          o.global_cidrs_map)
        c

  unfoldable pub service_routes : Handler
  unfolding service_routes_node
  service_routes c = without_error (for_each (get_gateway_nodes c.filter) service_routes_node c)

  unfoldable pub pod_routes_node : ClusterNode → Context → Outcome Context
  unfolding build_routes filter_by_ip_family convert_to_global_cidrs
  pod_routes_node target c = do
    cluster ← deref (get_cluster_by_name c.filter target.cluster_name)
    o ← deref cluster.link_options
    build_routes target
        (convert_to_global_cidrs
          (filter_by_ip_family
            (if Cluster.is_p2p cluster then target.pod_cidrs else cluster.link_status.pod_cidrs)
            o.ip_family)
          o.global_cidrs_map)
        c

  unfoldable pub pod_routes : Handler
  unfolding pod_routes_node
  pod_routes c = do
    endpoints ← get_endpoint_nodes c.filter
    without_error (for_each (get_gateway_nodes c.filter ++ endpoints) pod_routes_node c)
