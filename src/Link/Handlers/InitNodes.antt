-- ===== src/Link/Handlers/InitNodes.antt =====
-- init_nodes.go: an empty configuration for each node.
use kosmos.Base.{none, List, [], ◌∷◌, returns}
use kosmos.Base.Dict
use kosmos.Base.Dict.{Dict}
use kosmos.Api.Node.{ClusterNode}
use kosmos.Link.Filter.{get_cluster_nodes}
use kosmos.Link.Context.{NodeConfig, empty_config, Handler}

unfoldable pub empty_results : List ClusterNode → Dict NodeConfig → Dict NodeConfig
empty_results [] m = m
empty_results (n ∷ ns) m = empty_results ns (Dict.insert n.name empty_config m)

unfoldable pub init_nodes : Handler
unfolding empty_results get_cluster_nodes
init_nodes c = returns (none, record c { results = empty_results (get_cluster_nodes c.filter) [] })
