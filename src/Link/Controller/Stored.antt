-- ===== src/Link/Controller/Stored.antt =====
-- What the API server holds after a round of the controller whose client works.
use kosmos.Base.{
  String, ◌≡◌, refl, sym, ◌∙◌, ap, inl, inr, true, false, ◌==◌, eq_iff, Option, none, some, is_some,
  List, [], ◌∷◌, any, In, Returns, Returns-value, Bool-cases, arith, if◌then◌else◌, returns,
}
use mathlib.Core.Option.{some-injective}
use kosmos.Base.Dict
use kosmos.Base.Dict.{Dict}
use kosmos.Api.Config
use kosmos.Api.Config.{NodeConfigSpec}
use kosmos.Api.Cluster.{Cluster}
use kosmos.Api.Node.{ClusterNode}
use kosmos.Link.Net.{Net}
use kosmos.Link.Context.{NodeConfig, convert_to_node_config_spec}
use kosmos.Link.Sort.{Sorting}
use kosmos.Link.Manager.{exclude_invalid_items, calculate_network_configs}
use kosmos.Link.Controller.{Client, Result, finished, clear_node_configs, store_results, reconcile}
use kosmos.Link.Safety.Vxlan.{IsAddressable}
use kosmos.Link.Safety.Chain.{filter_of, Calculated, calculate_network_configs-Calculated}
use kosmos.Link.Controller.Server.{
  IsServer, Written, view-clear_node_configs, write_node_configs-Written,
}

lookup-In :
    (k : String) (config : NodeConfig) (results : Dict NodeConfig)
    → In (k, config) results
    → is_some (Dict.lookup k results) ≡ true
unfolding Dict.lookup
lookup-In k config [] m = absurd m
lookup-In k config ((name, c) ∷ results) (inl e) = ground (arith, eq_iff name k, ap (λ p. p.0) e)
lookup-In k config ((name, c) ∷ results) (inr m) = ground (arith, lookup-In k config results m)

-- The round wrote everything: the server holds an object for exactly the kept nodes, each with one
-- of the calculated configurations of its name.
pub record Stored (holds : String → Option NodeConfigSpec) (kept : List ClusterNode)
    (results : Dict NodeConfig) : Type 0 where
  pub names : (k : String) → is_some (holds k) ≡ any (λ (n : ClusterNode). n.name == k) kept
  pub specs :
      (k : String) (spec : NodeConfigSpec)
      → holds k ≡ some spec
      → (config : NodeConfig) × In (k, config) results × (spec ≡ convert_to_node_config_spec config)

-- The objects of the server, as far as a round of the controller reads them.
pub record Inputs {S : Type 0} (view : S → String → Option NodeConfigSpec) (client : Client S)
    (s : S) (clusters : List Cluster) (cluster_nodes : List ClusterNode)
    (node_configs : List Config.NodeConfig) : Type 0 where
  pub cluster_nodes_listed : client.list_cluster_nodes s ≡ some cluster_nodes
  pub clusters_listed : client.list_clusters s ≡ some clusters
  pub node_configs_listed : client.list_node_configs s ≡ some node_configs
  pub complete :
      (k : String)
      → any (λ (nc : Config.NodeConfig). nc.name == k) node_configs ≡ false
      → view s k ≡ none

module _ {S : Type 0} (view : S → String → Option NodeConfigSpec) (client : Client S)
    (ok : IsServer view client) where
  abbrev pub Finished :
      Sorting
      → Net
      → List Cluster
      → List ClusterNode
      → List Config.NodeConfig
      → Result × Option String × S
      → Type 0
  Finished sorting net clusters cluster_nodes node_configs (r, err, t) =
      (r ≡ finished)
      × (err ≡ none)
      × ((results : Dict NodeConfig) × (calculate_network_configs sorting net clusters cluster_nodes
              node_configs
            ≡ returns (none, results))
          × Stored (view t) (exclude_invalid_items clusters cluster_nodes).1 results)

  server-Stored :
      (kept : List ClusterNode) (ncs : List Config.NodeConfig) (results : Dict NodeConfig) (s : S)
      (q : Result × Option String × S)
      → ((k : String)
          → is_some (Dict.lookup k results) ≡ any (λ (n : ClusterNode). n.name == k) kept)
      → ((k : String)
          → any (λ (nc : Config.NodeConfig). nc.name == k) ncs ≡ false
          → view s k ≡ none)
      → ((k : String)
          → Written view client ok results (clear_node_configs client ncs results s) k q)
      → Stored (view q.2) kept results
  server-Stored kept ncs results s q keys complete written = record {
    names = λ k. elim (written k).2 [
      | inl (c, m, v) ↦ ground (arith, v, lookup-In k c results m, keys k)
      | inr (absent, v) ↦ ground (arith, v, gone k absent, absent, keys k)
    ];
    specs = λ k spec e. elim (written k).2 [
      | inl (c, m, v) ↦ (c, m, some-injective _ _ (sym e ∙ v))
      | inr (absent, v) ↦ ground (arith, e, v, gone k absent)
    ];
  }
    where
      gone :
          (k : String)
          → is_some (Dict.lookup k results) ≡ false
          → view (clear_node_configs client ncs results s) k ≡ none
      gone k absent =
          view-clear_node_configs view client ok ncs results s k
          ∙ elim (Bool-cases (any (λ (nc : Config.NodeConfig). nc.name == k) ncs)) [
            | inl e ↦ rw (absent, e, if◌then◌else◌) refl
            | inr e ↦ rw (absent, e, if◌then◌else◌) (complete k e)
          ]

  reconcile-store :
      (sorting : Sorting) (net : Net) (s : S) (clusters : List Cluster)
      (cluster_nodes : List ClusterNode) (node_configs : List Config.NodeConfig)
      (q : Option String × Dict NodeConfig)
      → Inputs view client s clusters cluster_nodes node_configs
      → calculate_network_configs sorting net clusters cluster_nodes node_configs ≡ returns q
      → reconcile client sorting net s ≡ returns (store_results client node_configs s q)
  unfolding reconcile
  reconcile-store sorting net s clusters cluster_nodes node_configs q i e =
      rw (i.cluster_nodes_listed, reconcile, i.clusters_listed, i.node_configs_listed, e) refl

  store_results-Finished :
      (sorting : Sorting) (net : Net) (s : S) (clusters : List Cluster)
      (cluster_nodes : List ClusterNode) (node_configs : List Config.NodeConfig)
      (results : Dict NodeConfig)
      → Inputs view client s clusters cluster_nodes node_configs
      → calculate_network_configs sorting net clusters cluster_nodes node_configs
        ≡ returns (none, results)
      → Calculated (exclude_invalid_items clusters cluster_nodes).1 (none, results)
      → Finished sorting net clusters cluster_nodes node_configs
          (store_results client node_configs s (none, results))
  unfolding store_results
  store_results-Finished sorting net s clusters cluster_nodes node_configs results i e c =
      let written = λ (k : String).
        write_node_configs-Written view client ok results
          (clear_node_configs client node_configs results s) k in
      (
        (written "").0,
        (written "").1,
        (results, e, server-Stored _ node_configs results s _ c.1 i.complete written),
      )

  -- If the client works, its lists are complete and every kept node can be given an address, a
  -- round of the controller does not panic and finishes without an error; then the API server holds
  -- a `NodeConfig` for exactly the nodes that the checks keep, whatever it held before, and each
  -- has a configuration that the round calculated for its name.
  pub reconcile-Stored :
      (sorting : Sorting) (net : Net) (s : S) (clusters : List Cluster)
      (cluster_nodes : List ClusterNode) (node_configs : List Config.NodeConfig)
      → Inputs view client s clusters cluster_nodes node_configs
      → IsAddressable net (filter_of clusters cluster_nodes node_configs)
      → Returns
          (Finished sorting net clusters cluster_nodes node_configs)
          (reconcile client sorting net s)
  reconcile-Stored sorting net s clusters cluster_nodes node_configs i given =
      let kept = (exclude_invalid_items clusters cluster_nodes).1 in
      let (q, e, c) = Returns-value (Calculated kept) _ (
        calculate_network_configs-Calculated sorting net clusters cluster_nodes node_configs
          given) in
      finish q e c
    where
      finish :
          (q : Option String × Dict NodeConfig)
          → calculate_network_configs sorting net clusters cluster_nodes node_configs ≡ returns q
          → Calculated (exclude_invalid_items clusters cluster_nodes).1 q
          → Returns
              (Finished sorting net clusters cluster_nodes node_configs)
              (reconcile client sorting net s)
      finish (none, results) e c =
          rw (reconcile-store sorting net s clusters cluster_nodes node_configs _ i e)
            (store_results-Finished sorting net s clusters cluster_nodes node_configs results i e c)
      finish (some err, results) e c = cc
