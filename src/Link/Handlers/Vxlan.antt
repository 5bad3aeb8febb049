-- ===== src/Link/Handlers/Vxlan.antt =====
-- vxlocal_network.go and vxbridge_network.go: the VXLAN devices of the nodes of gateway clusters
-- (vx-local), and of the gateways and of the endpoint nodes (vx-bridge).
use kosmos.Base.{
  String, Bool, not, ◌&&◌, ◌==◌, Option, none, some, ◌++◌, Outcome, returns, ◌>>=◌, deref, for_each,
  if◌then◌else◌,
}
use kosmos.Api.Config.{Device}
use kosmos.Api.Cluster.{Cluster}
use kosmos.Api.Node.{ClusterNode}
use kosmos.Link.Net.{Net}
use kosmos.Link.Vxlan.{
  build_vxlan_device, vxlan_bridge_name, vxlan_bridge_name_6, vxlan_local_name, vxlan_local_name_6,
}
use kosmos.Link.Filter.{
  get_cluster_by_name, get_gateway_nodes, get_endpoint_nodes, get_gateway_cluster_nodes,
  support_ipv4, support_ipv6, get_device_from_node_config,
}
use kosmos.Link.Context.{Context, Handler, update, add_device, without_error}

-- `if devOld != nil && devOld.Mac != "" { dev.Mac = devOld.Mac }`, where `dev` may be nil.
unfoldable pub keep_mac : Option Device → Option Device → Outcome (Option Device)
keep_mac none dev = returns dev
keep_mac (some old) dev =
    let kept = (do d ← deref dev; returns (some (record d { mac = old.mac }))) in
    if old.mac == "" then returns dev else kept

unfoldable pub append_device : ClusterNode → Option Device × Context → Outcome Context
append_device node (none, c) = returns c
append_device node (some d, c) = update node.name (add_device d) c

-- The caller has looked the cluster up by the node's cluster name, as `SupportIPv4` does again.
unfoldable pub need_to_create_vx_local : Context → ClusterNode → Cluster → Outcome Bool
need_to_create_vx_local c node cluster = do
  supported ← support_ipv4 c.filter node
  o ← deref cluster.link_options
  returns (supported && not (node.ip == "") && not (o.local_cidrs.ip == ""))

unfoldable pub need_to_create_vx_local6 : Context → ClusterNode → Cluster → Outcome Bool
need_to_create_vx_local6 c node cluster = do
  supported ← support_ipv6 c.filter node
  o ← deref cluster.link_options
  returns (supported && not (node.ip6 == "") && not (o.local_cidrs.ip6 == ""))

unfoldable pub need_to_create_vx_bridge : Context → ClusterNode → Cluster → Outcome Bool
need_to_create_vx_bridge c node cluster = do
  supported ← support_ipv4 c.filter node
  o ← deref cluster.link_options
  returns (supported && not (node.ip == "") && not (o.bridge_cidrs.ip == ""))

unfoldable pub need_to_create_vx_bridge6 : Context → ClusterNode → Cluster → Outcome Bool
need_to_create_vx_bridge6 c node cluster = do
  supported ← support_ipv6 c.filter node
  o ← deref cluster.link_options
  returns (supported && not (node.ip6 == "") && not (o.bridge_cidrs.ip6 == ""))

module _ (net : Net) where
  -- The body that the four `create` methods share.
  unfoldable pub create_vxlan :
      String → Context → ClusterNode → String → String → Outcome (Option Device × Context)
  unfolding keep_mac
  create_vxlan name c node ip cidr = do
    (dev, draws) ← build_vxlan_device net c.draws name ip cidr node.interface_name
    kept ← keep_mac (get_device_from_node_config c.filter node.name name) dev
    returns (kept, record c { draws = draws })

  unfoldable pub create_vx_local :
      Context → ClusterNode → Cluster → Outcome (Option Device × Context)
  unfolding create_vxlan
  create_vx_local c node cluster = do
    o ← deref cluster.link_options
    create_vxlan vxlan_local_name c node node.ip o.local_cidrs.ip

  unfoldable pub create_vx_local6 :
      Context → ClusterNode → Cluster → Outcome (Option Device × Context)
  unfolding create_vxlan
  create_vx_local6 c node cluster = do
    o ← deref cluster.link_options
    create_vxlan vxlan_local_name_6 c node node.ip6 o.local_cidrs.ip6

  unfoldable pub create_vx_bridge :
      Context → ClusterNode → Cluster → Outcome (Option Device × Context)
  unfolding create_vxlan
  create_vx_bridge c node cluster = do
    o ← deref cluster.link_options
    create_vxlan vxlan_bridge_name c node node.ip o.bridge_cidrs.ip

  unfoldable pub create_vx_bridge6 :
      Context → ClusterNode → Cluster → Outcome (Option Device × Context)
  unfolding create_vxlan
  create_vx_bridge6 c node cluster = do
    o ← deref cluster.link_options
    create_vxlan vxlan_bridge_name_6 c node node.ip6 o.bridge_cidrs.ip6

  -- `if need { dev := create(); if dev != nil { append } }`
  abbrev pub create_if :
      Bool → ClusterNode → Outcome (Option Device × Context) → Context → Outcome Context
  create_if need node created c = if need then (do r ← created; append_device node r) else returns c

  unfoldable pub vx_local_node : ClusterNode → Context → Outcome Context
  unfolding need_to_create_vx_local need_to_create_vx_local6 create_vx_local create_vx_local6
      append_device
  vx_local_node node c = do
    cluster ← deref (get_cluster_by_name c.filter node.cluster_name)
    need ← need_to_create_vx_local c node cluster
    d ← create_if need node (create_vx_local c node cluster) c
    need6 ← need_to_create_vx_local6 d node cluster
    create_if need6 node (create_vx_local6 d node cluster) d

  unfoldable pub vx_bridge_node : ClusterNode → Context → Outcome Context
  unfolding need_to_create_vx_bridge need_to_create_vx_bridge6 create_vx_bridge create_vx_bridge6
      append_device
  vx_bridge_node node c = do
    cluster ← deref (get_cluster_by_name c.filter node.cluster_name)
    need ← need_to_create_vx_bridge c node cluster
    d ← create_if need node (create_vx_bridge c node cluster) c
    need6 ← need_to_create_vx_bridge6 d node cluster
    create_if need6 node (create_vx_bridge6 d node cluster) d

  unfoldable pub vx_local_network : Handler
  unfolding vx_local_node get_gateway_cluster_nodes
  vx_local_network c = without_error (for_each (get_gateway_cluster_nodes c.filter) vx_local_node c)

  unfoldable pub vx_bridge_network : Handler
  unfolding vx_bridge_node
  vx_bridge_network c = do
    endpoints ← get_endpoint_nodes c.filter
    without_error (for_each (get_gateway_nodes c.filter ++ endpoints) vx_bridge_node c)
