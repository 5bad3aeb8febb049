-- ===== src/Link/Context.antt =====
-- pkg/clusterlink/network-manager/handlers/context.go, nodeconfig.go and root_handler.go: the state
-- that the handlers share, and the chain in which they run.
use kosmos.Base.{
  ℕ, String, ◌==◌, Option, none, some, List, [], ◌∷◌, ◌++◌, find, appended, Outcome, returns, ◌>>=◌,
  deref,
}
use kosmos.Base.Dict
use kosmos.Base.Dict.{Dict}
use kosmos.Api.Config.{Device, Route, Iptables, Fdb, Arp, NodeConfigSpec}
use kosmos.Link.Filter.{Filter}

-- Its slices only ever grow by `append`, so the nil slice is the empty one.
pub record NodeConfig : Type 0 where
  pub devices : List Device
  pub routes : List Route
  pub iptables : List Iptables
  pub fdbs : List Fdb
  pub arps : List Arp

abbrev pub empty_config : NodeConfig
empty_config = record { devices = []; routes = []; iptables = []; fdbs = []; arps = [] }

unfoldable pub convert_to_node_config_spec : NodeConfig → NodeConfigSpec
convert_to_node_config_spec c = record {
  devices = appended c.devices;
  routes = appended c.routes;
  iptables = appended c.iptables;
  fdbs = appended c.fdbs;
  arps = appended c.arps;
}

-- `draws` counts the reads of `crypto/rand`.
pub record Context : Type 0 where
  pub filter : Filter
  pub results : Dict NodeConfig
  pub draws : ℕ

unfoldable pub get_device_from_results : Context → String → String → Option Device
get_device_from_results c node_name dev_name = elim (Dict.lookup node_name c.results) [
  | none ↦ none
  | some config ↦ find (λ d. d.name == dev_name) config.devices
]

-- A write through `c.Results[name]`, which panics where the map has no such node.
unfoldable pub update : String → (NodeConfig → NodeConfig) → Context → Outcome Context
update name g c = do
  config ← deref (Dict.lookup name c.results)
  returns (record c { results = Dict.insert name (g config) c.results })

abbrev pub add_device : Device → NodeConfig → NodeConfig
add_device d k = record k { devices = k.devices ++ d ∷ [] }

abbrev pub add_route : Route → NodeConfig → NodeConfig
add_route r k = record k { routes = k.routes ++ r ∷ [] }

abbrev pub add_iptables : Iptables → NodeConfig → NodeConfig
add_iptables i k = record k { iptables = k.iptables ++ i ∷ [] }

abbrev pub add_caches : List Fdb × List Arp → NodeConfig → NodeConfig
add_caches (fdbs, arps) k = record k { fdbs = k.fdbs ++ fdbs; arps = k.arps ++ arps }

-- `Do` of a handler: the error that it returns, if any, and the state that it leaves.
abbrev pub Handler : Type 0
Handler = Context → Outcome (Option String × Context)

-- A handler that returns nil at its end.
abbrev pub without_error : Outcome Context → Outcome (Option String × Context)
without_error r = do c ← r; returns (none, c)

-- `Next.Run` along the chain that `SetNext` builds: the first error ends it.
unfoldable pub run : List Handler → Handler
run [] c = returns (none, c)
run (h ∷ hs) c = do (e, d) ← h c; elim e [ none ↦ run hs d | some err ↦ returns (some err, d) ]
