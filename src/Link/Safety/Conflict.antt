-- ===== src/Link/Safety/Conflict.antt =====
-- No route that is added leads into the ranges of the cluster of its node.
use kosmos.Base.{String, ◌≡◌, ◌++◌, ◌⊎◌, false, Option, some, List, In}
use kosmos.Base.Dict
use kosmos.Api.Config.{Route}
use kosmos.Api.Node.{ClusterNode}
use kosmos.Api.Node
use kosmos.Api.Cluster
use kosmos.Api.Cluster.{Cluster}
use kosmos.Link.Net.{Net}
use kosmos.Link.Filter.{Filter, get_all_nodes_except_cluster, get_cluster_by_name}
use kosmos.Link.Context.{NodeConfig, Context}
use kosmos.Link.Handlers.Routes.{if_cidr_conflict_with_self}

-- The ranges of a cluster.
abbrev pub cidrs_of : Cluster → List String
cidrs_of cl = cl.link_status.pod_cidrs ++ cl.link_status.service_cidrs

-- A node `name` of the filter, of another cluster than that of the target, whose cluster's ranges do not
-- conflict with the route.
abbrev pub HasNoConflict : Net → Filter → String → String → Route → Type 0
HasNoConflict net f target_cluster name route =
    (n : ClusterNode) × (cl : Cluster) × In n (get_all_nodes_except_cluster f target_cluster)
    × (n.name ≡ name)
    × (get_cluster_by_name f n.cluster_name ≡ some cl)
    × (if_cidr_conflict_with_self net (cidrs_of cl) route.cidr ≡ false)

-- The routes that the node `name` has in a state.
abbrev pub HasRoute : Context → String → Route → Type 0
HasRoute c name route =
    (config : NodeConfig) × (Dict.lookup name c.results ≡ some config) × In route config.routes

-- Every route after `BuildRoutes` was there before, or belongs to a node whose cluster has no pod or
-- service range that intersects its range.
abbrev pub Routed : Net → Filter → String → Context → Context → Type 0
Routed net f target_cluster before c =
    (name : String) (route : Route)
    → HasRoute c name route
    → HasRoute before name route ⊎ HasNoConflict net f target_cluster name route

module _ (net : Net) (f : Filter) (target_cluster : String) (before : Context) where
  abbrev Sound : Context → Type 0
  Sound c = (c.filter ≡ f) × Routed net f target_cluster before c
