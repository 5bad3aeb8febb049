-- ===== src/Link/Manager.antt =====
-- pkg/clusterlink/network-manager/network_manager.go: the checks of the input, and the chain of
-- handlers.
pub mod Exclude
use Prim.Native.String.{◌++◌}
use kosmos.Base.{
  String, Bool, false, not, ◌&&◌, ◌||◌, ◌==◌, Option, none, some, List, [], ◌∷◌, filter, Outcome,
  returns, ◌>>=◌,
}
use kosmos.Base.Dict
use kosmos.Base.Dict.{Dict}
use kosmos.Api.Config
use kosmos.Api.Cluster.{Cluster, ClusterLinkOptions, ip_family_all, ip_family_ipv4, ip_family_ipv6}
use kosmos.Api.Node.{ClusterNode}
use kosmos.Link.Net.{Net}
use kosmos.Link.Filter.{build_clusters_map, new_filter}
use kosmos.Link.Sort.{Sorting, sort_configs}
use kosmos.Link.Context.{Context, NodeConfig, Handler, run}
use kosmos.Link.Handlers.InitNodes.{init_nodes}
use kosmos.Link.Handlers.Vxlan.{vx_local_network, vx_bridge_network}
use kosmos.Link.Handlers.Routes.{service_routes, pod_routes}
use kosmos.Link.Handlers.MacCache.{vx_local_mac_cache, vx_bridge_mac_cache}
use kosmos.Link.Handlers.HostNetwork.{host_network, global_map}

-- The options are there and enabled.
unfoldable pub is_valid_cluster : Cluster → Bool
is_valid_cluster c = elim c.link_options [ none ↦ false | some o ↦ o.enable ]

-- The tests of the second loop, on the cluster that the node names.
unfoldable pub has_addresses : ClusterLinkOptions → ClusterNode → Bool
has_addresses o cn =
    not ((o.ip_family == ip_family_all || o.ip_family == ip_family_ipv4) && cn.ip == "")
    && not ((o.ip_family == ip_family_all || o.ip_family == ip_family_ipv6) && cn.ip6 == "")

-- The map holds only clusters that have options.
unfoldable pub is_valid_node : Dict Cluster → ClusterNode → Bool
unfolding has_addresses
is_valid_node m cn =
    not (cn.cluster_name == "")
    && not (cn.interface_name == "")
    && (elim (Dict.lookup cn.cluster_name m) [
      | none ↦ false
      | some c ↦ elim c.link_options [ none ↦ false | some o ↦ has_addresses o cn ]
    ])

unfoldable pub exclude_invalid_items :
    List Cluster → List ClusterNode → List Cluster × List ClusterNode
unfolding is_valid_cluster is_valid_node
exclude_invalid_items clusters cluster_nodes =
    let cs = filter is_valid_cluster clusters in
    (cs, filter (is_valid_node (build_clusters_map cs)) cluster_nodes)

-- The chain that `CalculateNetworkConfigs` builds.
unfoldable pub handlers : Net → List Handler
handlers net =
    init_nodes
    ∷ vx_local_network net
    ∷ vx_bridge_network net
    ∷ service_routes net
    ∷ pod_routes net
    ∷ vx_local_mac_cache net
    ∷ vx_bridge_mac_cache net
    ∷ host_network
    ∷ global_map net
    ∷ []

unfoldable pub sorted_results : Sorting → Option String × Context → Option String × Dict NodeConfig
unfolding sort_configs
sorted_results sorting (none, c) = (none, sort_configs sorting c.results)
sorted_results sorting (some err, c) =
    (some ("filed to calculate network config, err: " ++ err), [])

-- The error, if any, and the map of results, which is nil with an error.
unfoldable pub calculate_network_configs :
    Sorting
    → Net
    → List Cluster
    → List ClusterNode
    → List Config.NodeConfig
    → Outcome (Option String × Dict NodeConfig)
unfolding exclude_invalid_items handlers sorted_results
calculate_network_configs sorting net clusters cluster_nodes node_configs = do
  let (cs, cns) = exclude_invalid_items clusters cluster_nodes
  r ←
      run (handlers net)
        (record { filter = new_filter cs cns node_configs; results = []; draws = 0 })
  returns (sorted_results sorting r)
