-- ===== src/Link/Handlers/MacCache.antt =====
-- vxlocal_mac_cache.go and vxbridge_mac_cache.go: the forwarding and neighbour entries for the VXLAN
-- devices of other nodes.
use kosmos.Base.{
  String, Bool, ◌&&◌, ◌==◌, Option, none, some, List, [], ◌∷◌, ◌++◌, Outcome, returns, ◌>>=◌,
  for_each, if◌then◌else◌,
}
use kosmos.Api.Config.{Device, Fdb, Arp}
use kosmos.Api.Cluster.{ip_family_ipv4, ip_family_ipv6}
use kosmos.Api.Node.{ClusterNode}
use kosmos.Link.Net.{Net}
use kosmos.Link.Vxlan.{vxlan_bridge_name, vxlan_bridge_name_6, vxlan_local_name, vxlan_local_name_6}
use kosmos.Link.Filter.{
  get_gateway_nodes, get_endpoint_nodes, get_internal_nodes, get_internal_nodes_by_cluster_name,
  get_gateway_node_by_cluster_name, support_ipv4, support_ipv6,
}
use kosmos.Link.Context.{
  Context, Handler, get_device_from_results, update, add_caches, without_error,
}

abbrev pub all_zero_mac : String
all_zero_mac = "00:00:00:00:00:00"

abbrev pub Caches : Type 0
Caches = List Fdb × List Arp

infixr 65 ◌+++◌
abbrev ◌+++◌ : Caches → Caches → Caches
(fdbs, arps) +++ (fdbs', arps') = (fdbs ++ fdbs', arps ++ arps')

-- The families for which both flags hold, IPv4 first.
unfoldable pub ip_types : Bool → Bool → List String
ip_types supported4 supported6 =
    (if supported4 then ip_family_ipv4 ∷ [] else [])
    ++ (if supported6 then ip_family_ipv6 ∷ [] else [])

unfoldable pub get_support_ip_types : ClusterNode → Context → Outcome (List String)
unfolding ip_types
get_support_ip_types node c = do
  supported4 ← support_ipv4 c.filter node
  supported6 ← support_ipv6 c.filter node
  returns (ip_types supported4 supported6)

unfoldable pub vx_local_dev : String → String
vx_local_dev ip_type =
    if ip_type == ip_family_ipv4
    then vxlan_local_name
    else if ip_type == ip_family_ipv6
    then vxlan_local_name_6
    else ""

unfoldable pub vx_bridge_dev : String → String
vx_bridge_dev ip_type =
    if ip_type == ip_family_ipv4
    then vxlan_bridge_name
    else if ip_type == ip_family_ipv6
    then vxlan_bridge_name_6
    else ""

unfoldable pub host_ip : String → ClusterNode → String
host_ip ip_type node =
    if ip_type == ip_family_ipv4
    then node.ip
    else if ip_type == ip_family_ipv6
    then node.ip6
    else ""

-- The two forwarding entries for a device of another node.
unfoldable pub device_fdbs : String → String → Device → List Fdb
device_fdbs ip dev_name dev =
    record { ip = ip; mac = all_zero_mac; dev = dev_name }
    ∷ record { ip = ip; mac = dev.mac; dev = dev_name }
    ∷ []

module _ (net : Net) where
  -- `none` is an error.
  unfoldable pub build_vx_local_caches_by_node : Context → String → ClusterNode → Option Caches
  unfolding device_fdbs host_ip vx_local_dev
  build_vx_local_caches_by_node c ip_type node =
      elim (get_device_from_results c node.name (vx_local_dev ip_type)) [
        | none ↦ none
        | some dev ↦ elim (net.parse_cidr dev.addr) [
          | none ↦ none
          | some (dev_ip, _) ↦ some (
            device_fdbs (host_ip ip_type node) (vx_local_dev ip_type) dev,
            record { ip = net.ip_string dev_ip; mac = dev.mac; dev = vx_local_dev ip_type } ∷ [],
          )
        ]
      ]

  -- One family at a time, written to the node's configuration as it is built.
  unfoldable pub cache_gateway : ClusterNode → ClusterNode → String → Context → Outcome Context
  unfolding build_vx_local_caches_by_node
  cache_gateway node gw ip_type c = elim (build_vx_local_caches_by_node c ip_type gw) [
    | none ↦ returns c
    | some caches ↦ update node.name (add_caches caches) c
  ]

  unfoldable pub cache_internal_node : ClusterNode → Context → Outcome Context
  unfolding get_support_ip_types cache_gateway
  cache_internal_node node c = do
    types ← get_support_ip_types node c
    elim (get_gateway_node_by_cluster_name c.filter node.cluster_name) [
      | none ↦ returns c
      | some gw ↦ for_each types (cache_gateway node gw) c
    ]

  -- The caches for each internal node, for each family, in that order.
  unfoldable pub local_caches_of_types : Context → ClusterNode → List String → Caches
  unfolding build_vx_local_caches_by_node
  local_caches_of_types c tar [] = ([], [])
  local_caches_of_types c tar (t ∷ ts) =
      let rest = local_caches_of_types c tar ts in
      elim (build_vx_local_caches_by_node c t tar) [ none ↦ rest | some caches ↦ caches +++ rest ]

  unfoldable pub local_caches_of_nodes : Context → List String → List ClusterNode → Caches
  unfolding local_caches_of_types
  local_caches_of_nodes c types [] = ([], [])
  local_caches_of_nodes c types (tar ∷ tars) =
      local_caches_of_types c tar types +++ local_caches_of_nodes c types tars

  unfoldable pub cache_gateway_node : ClusterNode → Context → Outcome Context
  unfolding get_support_ip_types local_caches_of_nodes
  cache_gateway_node src c = do
    types ← get_support_ip_types src c
    internal_nodes ← get_internal_nodes_by_cluster_name c.filter src.cluster_name
    update src.name (add_caches (local_caches_of_nodes c types internal_nodes)) c

  unfoldable pub vx_local_mac_cache : Handler
  unfolding cache_internal_node cache_gateway_node
  vx_local_mac_cache c = do
    nodes ← get_internal_nodes c.filter
    d ← for_each nodes cache_internal_node c
    without_error (for_each (get_gateway_nodes d.filter) cache_gateway_node d)

  -- The forwarding entries are kept even where the address of the device does not parse.
  unfoldable pub bridge_caches_of_type : Context → ClusterNode → String → Caches
  unfolding device_fdbs host_ip vx_bridge_dev
  bridge_caches_of_type c tar ip_type =
      elim (get_device_from_results c tar.name (vx_bridge_dev ip_type)) [
        | none ↦ ([], [])
        | some dev ↦ (
          device_fdbs (host_ip ip_type tar) (vx_bridge_dev ip_type) dev,
          elim (net.parse_cidr dev.addr) [
            | none ↦ []
            | some (dev_ip, _) ↦
                record { ip = net.ip_string dev_ip; mac = dev.mac; dev = vx_bridge_dev ip_type }
                ∷ []
          ],
        )
      ]

  unfoldable pub bridge_caches_of_types : Context → ClusterNode → List String → Caches
  unfolding bridge_caches_of_type
  bridge_caches_of_types c tar [] = ([], [])
  bridge_caches_of_types c tar (t ∷ ts) =
      bridge_caches_of_type c tar t +++ bridge_caches_of_types c tar ts

  -- The loop over the other nodes; a node of the same name is passed over.
  unfoldable pub bridge_caches :
      Context → ClusterNode → Bool → Bool → List ClusterNode → Outcome Caches
  unfolding bridge_caches_of_types ip_types
  bridge_caches c src src4 src6 [] = returns ([], [])
  bridge_caches c src src4 src6 (tar ∷ tars) =
      let rest = bridge_caches c src src4 src6 tars in
      if src.name == tar.name then rest else (do
        tar4 ← support_ipv4 c.filter tar
        tar6 ← support_ipv6 c.filter tar
        caches ← rest
        returns (bridge_caches_of_types c tar (ip_types (src4 && tar4) (src6 && tar6)) +++ caches))

  unfoldable pub cache_bridge_node : List ClusterNode → ClusterNode → Context → Outcome Context
  unfolding bridge_caches
  cache_bridge_node nodes src c = do
    src4 ← support_ipv4 c.filter src
    src6 ← support_ipv6 c.filter src
    caches ← bridge_caches c src src4 src6 nodes
    update src.name (add_caches caches) c

  unfoldable pub vx_bridge_mac_cache : Handler
  unfolding cache_bridge_node
  vx_bridge_mac_cache c = do
    endpoints ← get_endpoint_nodes c.filter
    let nodes = get_gateway_nodes c.filter ++ endpoints
    without_error (for_each nodes (cache_bridge_node nodes) c)
