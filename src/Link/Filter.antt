-- ===== src/Link/Filter.antt =====
-- pkg/clusterlink/network-manager/helpers/filter.go: the clusters and nodes of one calculation, and
-- the selections that the handlers make of them.
use kosmos.Base.{
  String, Bool, false, not, ◌&&◌, ◌||◌, ◌==◌, Option, none, some, List, [], ◌∷◌, filter, find,
  filter_map, flat_map, items, Outcome, returns, ◌>>=◌, deref, select, if◌then◌else◌,
}
use kosmos.Base.Dict
use kosmos.Base.Dict.{Dict}
use kosmos.Api.Config.{Device, NodeConfig}
use kosmos.Api.Cluster
use kosmos.Api.Cluster.{Cluster, ClusterLinkOptions, ip_family_all, ip_family_ipv4, ip_family_ipv6}
use kosmos.Api.Node
use kosmos.Api.Node.{ClusterNode}

pub record Filter : Type 0 where
  pub cluster_nodes : List ClusterNode
  pub clusters : List Cluster
  pub node_configs : List NodeConfig
  pub clusters_map : Dict Cluster

unfoldable pub insert_clusters : List Cluster → Dict Cluster → Dict Cluster
insert_clusters [] m = m
insert_clusters (c ∷ cs) m = insert_clusters cs (Dict.insert c.name c m)

unfoldable pub build_clusters_map : List Cluster → Dict Cluster
unfolding insert_clusters
build_clusters_map clusters = insert_clusters clusters []

unfoldable pub new_filter : List Cluster → List ClusterNode → List NodeConfig → Filter
new_filter clusters cluster_nodes node_configs = record {
  cluster_nodes = cluster_nodes;
  clusters = clusters;
  node_configs = node_configs;
  clusters_map = build_clusters_map clusters;
}

module _ (f : Filter) where
  unfoldable pub get_cluster_by_name : String → Option Cluster
  get_cluster_by_name name = Dict.lookup name f.clusters_map

  unfoldable pub get_gateway_node_by_cluster_name : String → Option ClusterNode
  get_gateway_node_by_cluster_name cluster_name =
      find (λ n. n.cluster_name == cluster_name && Node.is_gateway n) f.cluster_nodes

  unfoldable pub get_gateway_nodes : List ClusterNode
  get_gateway_nodes = filter_map (λ c. get_gateway_node_by_cluster_name c.name) f.clusters

  -- A cluster that is missing from the map is a nil pointer, and its methods panic.
  unfoldable pub get_internal_nodes : Outcome (List ClusterNode)
  get_internal_nodes =
      select
        (λ n. do
          cluster ← deref (get_cluster_by_name n.cluster_name)
          returns (Cluster.is_gateway cluster && not (Node.is_gateway n)))
        f.cluster_nodes

  unfoldable pub get_endpoint_nodes : Outcome (List ClusterNode)
  get_endpoint_nodes =
      select
        (λ n. do
          cluster ← deref (get_cluster_by_name n.cluster_name)
          returns (Cluster.is_p2p cluster && not (Node.is_gateway n)))
        f.cluster_nodes

  unfoldable pub get_cluster_nodes : List ClusterNode
  get_cluster_nodes = f.cluster_nodes

  unfoldable pub get_internal_nodes_by_cluster_name : String → Outcome (List ClusterNode)
  get_internal_nodes_by_cluster_name cluster_name =
      select
        (λ n. do
          cluster ← deref (get_cluster_by_name n.cluster_name)
          returns (
              if Cluster.is_p2p cluster
              then false
              else n.cluster_name == cluster_name && not (Node.is_gateway n)))
        f.cluster_nodes

  unfoldable pub get_all_nodes_by_cluster_name : String → List ClusterNode
  get_all_nodes_by_cluster_name name = filter (λ n. n.cluster_name == name) f.cluster_nodes

  unfoldable pub get_all_nodes_except_cluster : String → List ClusterNode
  get_all_nodes_except_cluster name = filter (λ n. not (n.cluster_name == name)) f.cluster_nodes

  unfoldable pub get_gateway_cluster_nodes : List ClusterNode
  get_gateway_cluster_nodes =
      flat_map (λ c. if Cluster.is_gateway c then get_all_nodes_by_cluster_name c.name else [])
        f.clusters

  unfoldable pub link_options_of : ClusterNode → Outcome ClusterLinkOptions
  unfolding get_cluster_by_name
  link_options_of n = do
    cluster ← deref (get_cluster_by_name n.cluster_name)
    deref cluster.link_options

  unfoldable pub support_ipv4 : ClusterNode → Outcome Bool
  unfolding link_options_of
  support_ipv4 n = do
    o ← link_options_of n
    returns (o.ip_family == ip_family_all || o.ip_family == ip_family_ipv4)

  unfoldable pub support_ipv6 : ClusterNode → Outcome Bool
  unfolding link_options_of
  support_ipv6 n = do
    o ← link_options_of n
    returns (o.ip_family == ip_family_all || o.ip_family == ip_family_ipv6)

  -- Only the first configuration of that name is searched.
  unfoldable pub get_device_from_node_config : String → String → Option Device
  get_device_from_node_config node_name dev_name =
      elim (find (λ c. c.name == node_name) f.node_configs) [
        | none ↦ none
        | some config ↦ find (λ d. d.name == dev_name) (items config.spec.devices)
      ]
