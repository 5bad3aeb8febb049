-- ===== src/Link/Handlers/HostNetwork.antt =====
-- host_network.go and globalmap.go: the NAT rules of the gateways and of the endpoint nodes.
use Prim.Native.String.{◌++◌}
use kosmos.Base.{String, none, some, Outcome, returns, ◌>>=◌, deref, for_each, if◌then◌else◌}
use mathlib.Core.List
use kosmos.Api.Cluster
use kosmos.Api.Cluster.{ClusterLinkOptions}
use kosmos.Api.Node.{ClusterNode}
use kosmos.Api.Config.{Iptables}
use kosmos.Link.Net.{Net}
use kosmos.Link.Vxlan.{get_ip_type, vxlan_bridge_name, vxlan_bridge_name_6}
use kosmos.Link.Filter.{
  get_cluster_by_name, get_gateway_nodes, get_endpoint_nodes, support_ipv4, support_ipv6,
}
use kosmos.Link.Context.{Context, Handler, update, add_iptables, without_error}
use kosmos.Link.Handlers.Routes.{vx_bridge_of}

abbrev pub pre_routing_chain : String
pre_routing_chain = "PREROUTING"

abbrev pub post_routing_chain : String
post_routing_chain = "POSTROUTING"

abbrev nat_rule : String → String → Iptables
nat_rule chain rule = record { table = "nat"; chain = chain; rule = rule }

-- The two rules of one family: for traffic of the local network that leaves over the bridge, and
-- for traffic of the bridge network.
unfoldable pub masquerade : ClusterNode → String → String → String → Context → Outcome Context
masquerade n local bridge dev c = do
  d ←
      update n.name
        (add_iptables
          (nat_rule post_routing_chain ("-s " ++ local ++ " -o " ++ dev ++ " -j MASQUERADE")))
        c
  update n.name (add_iptables (nat_rule post_routing_chain ("-s " ++ bridge ++ " -j MASQUERADE"))) d

unfoldable pub host_network_node : ClusterNode → Context → Outcome Context
unfolding masquerade
host_network_node n c = do
  cluster ← deref (get_cluster_by_name c.filter n.cluster_name)
  if Cluster.is_p2p cluster then returns c else (do
    o ← deref cluster.link_options
    supported4 ← support_ipv4 c.filter n
    d ←
        if supported4
        then masquerade n o.local_cidrs.ip o.bridge_cidrs.ip vxlan_bridge_name c
        else returns c
    supported6 ← support_ipv6 d.filter n
    if supported6
        then masquerade n o.local_cidrs.ip6 o.bridge_cidrs.ip6 vxlan_bridge_name_6 d
        else returns d)

unfoldable pub host_network : Handler
unfolding host_network_node
host_network c = without_error (for_each (get_gateway_nodes c.filter) host_network_node c)

module _ (net : Net) where
  -- One entry of `GlobalCIDRsMap`: what is sent to the global network is mapped back to `src`, and
  -- what leaves `src` takes the address of the global network, if that parses.
  unfoldable pub global_map_entry : ClusterNode → String × String → Context → Outcome Context
  global_map_entry n (src, dst) c = do
    let vx_bridge = vx_bridge_of (get_ip_type src)
    d ←
        update n.name
          (add_iptables (
            nat_rule pre_routing_chain
              ("-d " ++ dst ++ " -i " ++ vx_bridge ++ " -j NETMAP --to " ++ src)))
          c
    elim (net.parse_cidr dst) [
      | none ↦ returns d
      | some (_, dst_ip) ↦
          update n.name
            (add_iptables (
              nat_rule post_routing_chain (
                "-s "
                ++ src
                ++ " -o "
                ++ vx_bridge
                ++ " -j SNAT --to-source "
                ++ net.ip_string dst_ip.ip)))
            d
    ]

  unfoldable pub global_map_node : ClusterNode → Context → Outcome Context
  unfolding global_map_entry
  global_map_node n c = do
    cluster ← deref (get_cluster_by_name c.filter n.cluster_name)
    o ← deref cluster.link_options
    for_each o.global_cidrs_map (global_map_entry n) c

  unfoldable pub global_map : Handler
  unfolding global_map_node
  global_map c = do
    endpoints ← get_endpoint_nodes c.filter
    without_error (for_each (List.◌++◌ (get_gateway_nodes c.filter) endpoints) global_map_node c)
