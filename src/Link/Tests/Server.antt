-- ===== src/Link/Tests/Server.antt =====
-- An API server in memory, and a round of the controller on it.
use kosmos.Base.{
  String, ◌≡◌, refl, true, ◌==◌, Option, none, some, is_some, List, [], ◌∷◌, map, Returns, arith,
  if◌then◌else◌,
}
use kosmos.Base.Dict
use kosmos.Base.Dict.{Dict, lookup-insert, lookup-erase}
use kosmos.Api.Config
use kosmos.Api.Config.{NodeConfigSpec}
use kosmos.Link.Controller.{Object, Client, reconcile}
use kosmos.Link.Controller.Server.{IsServer}
use kosmos.Link.Controller.Stored.{Inputs, Finished, reconcile-Stored}
use kosmos.Link.Tests.{sorting, net, cluster, node, addressable}

abbrev Server : Type 0
Server = Dict NodeConfigSpec

abbrev view : Server → String → Option NodeConfigSpec
view s k = Dict.lookup k s

abbrev empty : NodeConfigSpec
empty = record { devices = none; routes = none; iptables = none; fdbs = none; arps = none }

abbrev stored_object : Option NodeConfigSpec → Object
stored_object none = record { annotations = []; spec = empty }
stored_object (some spec) = record { annotations = []; spec = spec }

abbrev put : String → Option Object → Server → Option String × Server
put name none s = (some "the mutation failed", s)
put name (some o) s = (none, Dict.insert name o.spec s)

abbrev listed : Server → List Config.NodeConfig
listed s = map (λ p. record { name = p.0; spec = p.1 }) s

abbrev client : Client Server
client = record {
  list_cluster_nodes = λ s. some (node ∷ []);
  list_clusters = λ s. some (cluster ∷ []);
  list_node_configs = λ s. some (listed s);
  delete = λ name s. (none, Dict.erase name s);
  create_or_update = λ name f s. put name (f (stored_object (Dict.lookup name s))) s;
  marshal = λ spec. some "{}";
}

put_succeeds :
    (name : String) (r : Option Object) (s : Server) → is_some r ≡ true → (put name r s).0 ≡ none
put_succeeds name none s h = cc
put_succeeds name (some o) s h = refl

view-put :
    (name k : String) (r : Option Object) (s : Server) (spec : NodeConfigSpec) (p : Object)
    → r ≡ some p
    → p.spec ≡ spec
    → view (put name r s).1 k ≡ (if name == k then some spec else view s k)
view-put name k r s spec p e h = rw (e, ← h) (lookup-insert name k p.spec s)

client-IsServer : IsServer view client
client-IsServer = record {
  marshals = λ spec. refl;
  deletes = λ name k s. lookup-erase name k s;
  writes_succeed = λ name f s h. put_succeeds name _ s (h (stored_object (Dict.lookup name s)));
  writes = λ name k f s spec h.
      let m = h (stored_object (Dict.lookup name s)) in view-put name k _ s spec m.0 m.1 m.2;
}

-- The server holds a configuration of a node that is gone.
abbrev stale : Server
stale = ("gone", empty) ∷ []

stale-Inputs : Inputs view client stale (cluster ∷ []) (node ∷ []) (listed stale)
unfolding Dict.lookup
stale-Inputs = record {
  cluster_nodes_listed = refl;
  clusters_listed = refl;
  node_configs_listed = refl;
  complete = λ k h. ground arith;
}

reconcile-Stored_example :
    Returns
      (Finished view client client-IsServer sorting net (cluster ∷ []) (node ∷ []) (listed stale))
      (reconcile client sorting net stale)
reconcile-Stored_example =
    reconcile-Stored view client client-IsServer sorting net stale (cluster ∷ []) (node ∷ [])
      (listed stale) stale-Inputs (addressable (listed stale))
