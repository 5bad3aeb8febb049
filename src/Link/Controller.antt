-- ===== src/Link/Controller.antt =====
-- pkg/clusterlink/network-manager/controller.go: the calculation, written to the API server.
pub mod Server
pub mod Stored
use kosmos.Base.{
  String, Bool, ◌&&◌, ◌==◌, Option, none, some, is_some, List, [], ◌∷◌, find, Outcome, returns,
  ◌>>=◌, if◌then◌else◌,
}
use kosmos.Base.Dict
use kosmos.Base.Dict.{Dict}
use kosmos.Api.Config
use kosmos.Api.Config.{NodeConfigSpec}
use kosmos.Api.Cluster.{Cluster}
use kosmos.Api.Node
use kosmos.Api.Node.{ClusterNode}
use kosmos.Link.Net.{Net}
use kosmos.Link.Context.{NodeConfig, convert_to_node_config_spec}
use kosmos.Link.Sort.{Sorting}
use kosmos.Link.Manager.{calculate_network_configs}

-- The part of a stored `NodeConfig` that the controller writes.
pub record Object : Type 0 where
  pub annotations : Dict String
  pub spec : NodeConfigSpec

-- The client of controller-runtime over a state `S` of the API server, and `json.Marshal`. A list
-- that fails is `none`; a write returns its error. `create_or_update` gives the mutation the stored
-- object, or an empty one, and writes what the mutation returns; a mutation that fails is an error.
pub record Client (S : Type 0) : Type 0 where
  pub list_cluster_nodes : S → Option (List ClusterNode)
  pub list_clusters : S → Option (List Cluster)
  pub list_node_configs : S → Option (List Config.NodeConfig)
  pub delete : String → S → Option String × S
  pub create_or_update : String → (Object → Option Object) → S → Option String × S
  pub marshal : NodeConfigSpec → Option String

-- `reconcile.Result`, empty or with `RequeueAfter`.
pub data Result : Type 0 where
  finished requeue_after : Result

-- The nodes whose requests a change of a cluster enqueues: the first gateway of the cluster.
unfoldable pub requests_of : Option (List ClusterNode) → Cluster → List String
requests_of none cluster = []
requests_of (some nodes) cluster =
    elim (find (λ n. n.cluster_name == cluster.name && Node.is_gateway n) nodes) [
      | none ↦ []
      | some n ↦ n.name ∷ []
    ]

module _ {S : Type 0} (client : Client S) where
  unfoldable pub mutate_node_config : NodeConfig → Object → Option Object
  mutate_node_config config nc = elim (client.marshal nc.spec) [
    | none ↦ none
    | some str_old ↦
        some (record {
          annotations = ("prev", str_old) ∷ [];
          spec = convert_to_node_config_spec config;
        })
  ]

  -- A deletion that fails is only logged.
  unfoldable pub clear_node_configs : List Config.NodeConfig → Dict NodeConfig → S → S
  clear_node_configs [] results s = s
  clear_node_configs (nc ∷ ncs) results s =
      clear_node_configs ncs results
        (if is_some (Dict.lookup nc.name results) then s else (client.delete nc.name s).1)

  -- The first write that fails ends the round.
  unfoldable pub write_node_configs : Dict NodeConfig → S → Result × Option String × S
  unfolding mutate_node_config
  write_node_configs [] s = (finished, none, s)
  write_node_configs ((name, config) ∷ results) s =
      let (err, t) = client.create_or_update name (mutate_node_config config) s in
      elim err [ none ↦ write_node_configs results t | some e ↦ (requeue_after, some e, t) ]

  unfoldable pub store_results :
      List Config.NodeConfig → S → Option String × Dict NodeConfig → Result × Option String × S
  unfolding clear_node_configs write_node_configs
  store_results node_configs s (some err, results) = (requeue_after, none, s)
  store_results node_configs s (none, results) =
      write_node_configs results (clear_node_configs node_configs results s)

  unfoldable pub reconcile : Sorting → Net → S → Outcome (Result × Option String × S)
  unfolding store_results
  reconcile sorting net s = elim (client.list_cluster_nodes s) [
    | none ↦ returns (requeue_after, none, s)
    | some cluster_nodes ↦ elim (client.list_clusters s) [
      | none ↦ returns (requeue_after, none, s)
      | some clusters ↦ elim (client.list_node_configs s) [
        | none ↦ returns (requeue_after, none, s)
        | some node_configs ↦ do
          calculated ← calculate_network_configs sorting net clusters cluster_nodes node_configs
          returns (store_results node_configs s calculated)
      ]
    ]
  ]
