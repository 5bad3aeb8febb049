-- ===== src/Agent/Sync.antt =====
-- `NetworkManager`: its state, and the methods that bring the node to the wanted configuration.
-- The lock makes each of the two entry points one step.
pub mod Kernel
pub mod Keys
pub mod Write
pub mod Reached
pub mod Plan
pub mod Converge
pub mod Status
pub mod Order
use kosmos.Base.{
  String, Option, none, some, Slice, Outcome, returns, panics, ◌>>=◌, deref, if◌then◌else◌, List,
  [], ◌∷◌, Bool,
}
use kosmos.Api.Config.{NodeConfigSpec, NodeConfig}
use kosmos.Agent.Diff.{ConfigDiff, diff}
use kosmos.Agent.Network.{NetWork, Action}

-- `NodeConfigSyncStatus`; `unset` is the empty text that a new manager has.
pub data SyncStatus : Type 0 where
  unset success exception : SyncStatus

pub record NetworkManager : Type 0 where
  pub to_config : Option NodeConfigSpec
  pub from_config : Option NodeConfigSpec
  pub status : SyncStatus
  pub reason : String

abbrev pub empty_spec : NodeConfigSpec
empty_spec = record { devices = none; routes = none; iptables = none; fdbs = none; arps = none }

unfoldable pub new_network_manager : NetworkManager
new_network_manager = record {
  to_config = some empty_spec;
  from_config = some empty_spec;
  status = unset;
  reason = "";
}

-- The argument of `WriteSys`, whose two parts may be nil.
pub record Changes : Type 0 where
  pub delete_config : Option NodeConfigSpec
  pub create_config : Option NodeConfigSpec

-- The end of `UpdateSync`: what the write returned goes into the status.
unfoldable pub record_write :
    {S : Type 0} → NetworkManager → Option String × S → SyncStatus × NetworkManager × S
record_write m (none, s) = (success, record m { status = success; reason = "" }, s)
record_write m (some err, s) = (exception, record m { status = exception; reason = err }, s)

module _ {S : Type 0} (net : NetWork S) where
  -- `if config.X != nil { if err := op(config.X); err != nil { errs = errors.Wrap(...) } }`
  unfoldable pub attempt :
      {A : Type 0} → Slice A → Action S A → Option String × S → Option String × S
  attempt none op (errs, s) = (errs, s)
  attempt (some xs) op (errs, s) =
      let (e, t) = op xs s in (elim e [ none ↦ errs | some err ↦ some (net.wrap err errs) ], t)

  unfoldable pub write_deletes : Option NodeConfigSpec → Option String × S → Option String × S
  unfolding attempt
  write_deletes none r = r
  write_deletes (some c) r = attempt c.devices net.delete_devices (
      attempt c.routes net.delete_routes (
        attempt c.iptables net.delete_iptables
          (attempt c.fdbs net.delete_fdbs (attempt c.arps net.delete_arps r))))

  unfoldable pub write_creates : Option NodeConfigSpec → Option String × S → Option String × S
  unfolding attempt
  write_creates none r = r
  write_creates (some c) r = attempt c.routes net.add_routes (
      attempt c.iptables net.add_iptables (
        attempt c.fdbs net.add_fdbs
          (attempt c.arps net.add_arps (attempt c.devices net.add_devices r))))

  unfoldable pub write_sys : Changes → S → Option String × S
  unfolding write_deletes write_creates
  write_sys d s = write_creates d.create_config (write_deletes d.delete_config (none, s))

  unfoldable pub sync_from :
      NetworkManager
      → S
      → Option String × NodeConfigSpec
      → Outcome (SyncStatus × NetworkManager × S)
  unfolding record_write write_sys
  sync_from m s (some err, from) =
      returns (exception, record m { status = exception; reason = err }, s)
  sync_from m s (none, from) = do
    to ← deref m.to_config
    let d = diff from to
    returns (
        if d.is_same
        then (success, m, s)
        else record_write m (
            write_sys
              (record {
                delete_config = some d.delete_config;
                create_config = some d.create_config;
              })
              s))

  unfoldable pub update_sync : NetworkManager → S → Outcome (SyncStatus × NetworkManager × S)
  unfolding sync_from
  update_sync m s = sync_from m s (net.load_sys_config s)

  unfoldable pub update_from_crd :
      NetworkManager → NodeConfig → S → Outcome (SyncStatus × NetworkManager × S)
  unfolding update_sync
  update_from_crd m node_config s = do
    to ← deref m.to_config
    if (diff to node_config.spec).is_same
        then returns (m.status, m, s)
        else update_sync (record m { to_config = some node_config.spec }) s

  unfoldable pub update_from_checker :
      NetworkManager → S → Outcome (SyncStatus × NetworkManager × S)
  unfolding update_sync
  update_from_checker m s = elim m.to_config [
    | none ↦ returns (m.status, m, s)
    | some to ↦ update_sync m s
  ]
