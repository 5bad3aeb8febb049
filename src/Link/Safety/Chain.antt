-- ===== src/Link/Safety/Chain.antt =====
-- The whole chain of `CalculateNetworkConfigs`: the first handler makes the state ready, and the
-- others keep it.
use kosmos.Base.{
  ◌∙◌, sym, String, ◌≡◌, refl, ◌==◌, ◌||◌, Option, none, some, is_some, List, [], ◌∷◌, any, All,
  arith, Returns, Returns-bind, returns,
}
use kosmos.Base.Dict
use kosmos.Base.Dict.{Dict, lookup-insert}
use kosmos.Api.Config
use kosmos.Api.Cluster.{Cluster}
use kosmos.Api.Node.{ClusterNode}
use kosmos.Link.Net.{Net}
use kosmos.Link.Filter.{Filter, get_cluster_nodes, new_filter}
use kosmos.Link.Context.{NodeConfig, Context, Handler, run, empty_config}
use kosmos.Link.Handlers.InitNodes.{empty_results, init_nodes}
use kosmos.Link.Handlers.Vxlan.{vx_local_network, vx_bridge_network}
use kosmos.Link.Handlers.Routes.{service_routes, pod_routes}
use kosmos.Link.Handlers.MacCache.{vx_local_mac_cache, vx_bridge_mac_cache}
use kosmos.Link.Handlers.HostNetwork.{host_network, global_map}
use kosmos.Link.Sort.{Sorting, lookup-sort_configs}
use kosmos.Link.Manager.{sorted_results, exclude_invalid_items, handlers, calculate_network_configs}
use kosmos.Link.Manager.Exclude.{exclude_invalid_items-IsResolved}
use kosmos.Link.Safety.{IsResolved, Ready, Done, IsSafe}
use kosmos.Link.Safety.Routes.{service_routes-IsSafe, pod_routes-IsSafe}
use kosmos.Link.Safety.HostNetwork.{host_network-IsSafe, global_map-IsSafe}
use kosmos.Link.Safety.MacCache.{vx_local_mac_cache-IsSafe, vx_bridge_mac_cache-IsSafe}
use kosmos.Link.Safety.Vxlan.{IsAddressable}
use kosmos.Link.Safety.Devices.{vx_local_network-IsSafe, vx_bridge_network-IsSafe}

empty_results-keys :
    (ns : List ClusterNode) (m : Dict NodeConfig) (name : String)
    → is_some (Dict.lookup name (empty_results ns m))
      ≡ (any (λ n. n.name == name) ns || is_some (Dict.lookup name m))
unfolding empty_results
empty_results-keys [] m name = refl
empty_results-keys (n ∷ ns) m name =
    let rest = empty_results-keys ns (Dict.insert n.name empty_config m) name in
    ground (arith, rest, lookup-insert n.name name empty_config m)

-- The first handler makes any state of the filter ready.
init_nodes-Done : (f : Filter) (c : Context) → c.filter ≡ f → Returns (Done f) (init_nodes c)
unfolding init_nodes get_cluster_nodes Dict.lookup
init_nodes-Done f c e = (
  refl,
  record {
    same = e;
    keys = λ name. rw (sym e) (ground (arith, empty_results-keys c.filter.cluster_nodes [] name));
  },
)

then_run :
    (f : Filter) (hs : List Handler) (e : Option String) (d : Context)
    → Done f (e, d)
    → ((c : Context) → Ready f c → Returns (Done f) (run hs c))
    → Returns (Done f) (elim e [ none ↦ run hs d | some err ↦ returns (some err, d) ])
then_run f hs none d q rest = rest d q.1
then_run f hs (some err) d q rest = cc

run-Done :
    (f : Filter) (hs : List Handler)
    → All (IsSafe f) hs
    → (c : Context) → Ready f c
    → Returns (Done f) (run hs c)
unfolding run
run-Done f [] safe c r = (refl, r)
run-Done f (h ∷ hs) safe c r =
    Returns-bind (Done f) (Done f) (h c) _ (safe.0 c r)
      (λ d q. then_run f hs d.0 d.1 q (λ c r. run-Done f hs safe.1 c r))

-- All but the first.
abbrev later_handlers : Net → List Handler
later_handlers net =
    vx_local_network net
    ∷ vx_bridge_network net
    ∷ service_routes net
    ∷ pod_routes net
    ∷ vx_local_mac_cache net
    ∷ vx_bridge_mac_cache net
    ∷ host_network
    ∷ global_map net
    ∷ []

handlers-Done :
    (net : Net) (f : Filter) (c : Context)
    → IsResolved f
    → IsAddressable net f
    → c.filter ≡ f
    → Returns (Done f) (run (handlers net) c)
unfolding handlers run
handlers-Done net f c ok given e =
    let safe : All (IsSafe f) (later_handlers net) = (
      vx_local_network-IsSafe net f ok given,
      (
        vx_bridge_network-IsSafe net f ok given,
        (
          service_routes-IsSafe net f ok,
          (
            pod_routes-IsSafe net f ok,
            (
              vx_local_mac_cache-IsSafe net f ok,
              (
                vx_bridge_mac_cache-IsSafe net f ok,
                (host_network-IsSafe f ok, (global_map-IsSafe net f ok, tt)),
              ),
            ),
          ),
        ),
      ),
    ) in
    Returns-bind (Done f) (Done f) (init_nodes c) _ (init_nodes-Done f c e) (λ d q.
      then_run f (later_handlers net) d.0 d.1 q (λ c r. run-Done f (later_handlers net) safe c r))

-- The filter of a calculation.
abbrev pub filter_of : List Cluster → List ClusterNode → List Config.NodeConfig → Filter
filter_of clusters cluster_nodes node_configs =
    new_filter (exclude_invalid_items clusters cluster_nodes).0
      (exclude_invalid_items clusters cluster_nodes).1 node_configs

-- No error, and a configuration for the kept nodes and no others.
abbrev pub Calculated : List ClusterNode → Option String × Dict NodeConfig → Type 0
Calculated kept (err, results) =
    (err ≡ none)
    × ((name : String) → is_some (Dict.lookup name results) ≡ any (λ n. n.name == name) kept)

sorted_results-Calculated :
    (sorting : Sorting) (f : Filter) (e : Option String) (c : Context)
    → Done f (e, c)
    → Calculated f.cluster_nodes (sorted_results sorting (e, c))
unfolding sorted_results
sorted_results-Calculated sorting f none c q =
    (refl, λ name. lookup-sort_configs sorting name c.results ∙ q.1.keys name)
sorted_results-Calculated sorting f (some err) c q = cc

-- If every kept node can be given an address in the VXLAN networks of its cluster, the calculation
-- does not panic and returns no error, and the names in its result are exactly those of the nodes
-- that the checks keep, whatever the clusters, the nodes and the old configurations are.
pub calculate_network_configs-Calculated :
    (sorting : Sorting) (net : Net) (clusters : List Cluster) (cluster_nodes : List ClusterNode)
    (node_configs : List Config.NodeConfig)
    → IsAddressable net (filter_of clusters cluster_nodes node_configs)
    → Returns
        (Calculated (exclude_invalid_items clusters cluster_nodes).1)
        (calculate_network_configs sorting net clusters cluster_nodes node_configs)
unfolding calculate_network_configs new_filter
calculate_network_configs-Calculated sorting net clusters cluster_nodes node_configs given =
    let f = filter_of clusters cluster_nodes node_configs in
    Returns-bind (Done f) (Calculated (exclude_invalid_items clusters cluster_nodes).1)
      (run (handlers net) (record { filter = f; results = []; draws = 0 })) _
      (handlers-Done net f _ (exclude_invalid_items-IsResolved clusters cluster_nodes node_configs)
        given refl)
      (λ d q. sorted_results-Calculated sorting f d.0 d.1 q)
