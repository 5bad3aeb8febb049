-- ===== src/Agent/Network.antt =====
-- The interface `NetWork` of pkg/clusterlink/network/interface.go, through which the agent reads
-- and changes the node. The operations on netlink and iptables behind it are a parameter: a state
-- `S` of the node, and an error text where the operation fails.
use kosmos.Base.{String, Option, List}
use kosmos.Api.Config.{Device, Route, Iptables, Fdb, Arp, NodeConfigSpec}

abbrev pub Action : Type 0 → Type 0 → Type 0
Action S A = List A → S → Option String × S

pub record NetWork (S : Type 0) : Type 0 where
  pub load_sys_config : S → Option String × NodeConfigSpec
  pub add_devices : Action S Device
  pub add_routes : Action S Route
  pub add_iptables : Action S Iptables
  pub add_fdbs : Action S Fdb
  pub add_arps : Action S Arp
  pub delete_devices : Action S Device
  pub delete_routes : Action S Route
  pub delete_iptables : Action S Iptables
  pub delete_fdbs : Action S Fdb
  pub delete_arps : Action S Arp
  -- `errors.Wrap(err, fmt.Sprint(errs))` of github.com/pkg/errors
  pub wrap : String → Option String → String
