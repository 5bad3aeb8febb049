-- ===== src/Agent/Tests.antt =====
-- Runs of the agent on a node kept in memory.
mod Memory
use kosmos.Base.{
  ◌≡◌, sym, ◌∙◌, refl, ◌↔◌, ◌⊎◌, inl, inr, Bool, true, none, some, List, [], ◌∷◌, ◌++◌, In,
  In-append, In-append_left, In-append_right, items, Returns,
}
use kosmos.Agent.Sync.Reached.{IsReachable, IsAdmissible}
use kosmos.Base.{
  String, ◌==◌, eq_iff, not, any, filter, In-any, any-In, filter-In, In-filter, Bool-cases, arith,
}
use kosmos.Api.Config.{
  Device, Arp, Route, Fdb, NodeConfigSpec, compare_route, compare_iptables, compare_fdb,
  compare_arp, compare_route-Decides, compare_iptables-Decides, compare_fdb-Decides,
  compare_arp-Decides,
}
use kosmos.Agent.Diff.{missing, compare_func, kept, without_broadcast, broadcast_mac}
use kosmos.Agent.Diff.Laws.{missing-In, compare_func_lem, compare_func-same}
use kosmos.Agent.Diff.Apply.{Applied, apply_kept, apply_without_broadcast}
use kosmos.Agent.Network.{NetWork, Action}
use kosmos.Agent.Sync.{
  NetworkManager, Changes, success, write_sys, update_sync, update_from_checker,
  new_network_manager,
}
use kosmos.Agent.Sync.Kernel.{
  Tables, Table, device_table, route_table, iptables_table, fdb_table, arp_table, IsKernel, Accepts,
  Apart, OnDevices,
}
use kosmos.Agent.Sync.Converge.{
  Synced, Settled, update_sync-Reached, two_rounds, two_rounds-Settled,
}
use kosmos.Agent.Sync.Status.{
  crd, checker, run, Recorded, HoldsConfig, update_from_checker-Recorded, run-Returns,
}
use kosmos.Agent.Sync.Order.{SameEffects, write_sys-SameEffects}
use kosmos.Agent.Tests.Memory.{spec_of, add, delete, memory, view, anything, memory-IsKernel}

-- The same node, whose deletion of routes reports an error.
abbrev failing : NetWork Tables
failing = record memory {
  delete_routes = λ xs v. (some "busy", (delete route_table compare_route xs v).1);
}

abbrev bridge : Device
bridge = record {
  type = "vxlan";
  name = "vx-bridge";
  addr = "9.0.0.9/8";
  mac = "02:00:00:00:00:01";
  bind_dev = "eth0";
  id = 54;
  port = 4876;
}

abbrev old_route : Route
old_route = record { cidr = "10.1.0.0/16"; gw = "9.0.0.1"; dev = "vx-bridge" }

abbrev new_route : Route
new_route = record { cidr = "10.2.0.0/16"; gw = "9.0.0.2"; dev = "vx-bridge" }

abbrev flood : Fdb
flood = record { ip = "1.1.1.1"; mac = broadcast_mac; dev = "vx-bridge" }

abbrev node : Tables
node = record {
  devices = bridge ∷ [];
  routes = old_route ∷ [];
  iptables = [];
  fdbs = flood ∷ [];
  arps = [];
}

abbrev wanted : NodeConfigSpec
wanted = record {
  devices = some (bridge ∷ []);
  routes = some (new_route ∷ []);
  iptables = none;
  fdbs = none;
  arps = none;
}

abbrev manager : NetworkManager
manager = record { to_config = some wanted; from_config = none; status = success; reason = "" }

bridge_home : OnDevices (bridge ∷ []) "vx-bridge"
bridge_home = (bridge, inl refl, refl)

homed : (x : Route) → In x (new_route ∷ []) → OnDevices (bridge ∷ []) x.dev
homed x (inl e) = rw e bridge_home
homed x (inr m) = absurd m

-- A node with one device, whatever it is, can be made to have the wanted configuration.
admissible :
    (d : Device) (routes : List Route) (fdbs : List Fdb)
    → IsAdmissible anything wanted
        (record { devices = d ∷ []; routes = routes; iptables = []; fdbs = fdbs; arps = [] })
unfolding Apart
admissible d routes fdbs = record {
  names_apart = λ a b m n e. one a b m n;
  devices_accepted = λ x m. tt;
  iptables_accepted = λ x m. tt;
  devices_apart = (λ y m. absurd m, tt);
  routes_apart = (λ y m. absurd m, tt);
  fdbs_apart = tt;
  arps_apart = tt;
  routes_homed = λ x m. (tt, homed x m);
  fdbs_homed = λ x m. absurd m;
  arps_homed = λ x m. absurd m;
  fdbs_free = λ a o b x m e. absurd m;
  arps_free = λ a o b x m e. absurd m;
}
  where
    one : (a b : Device) → In a (d ∷ []) → In b (d ∷ []) → a ≡ b
    one a b (inl p) (inl q) = p ∙ sym q
    one a b (inr p) n = absurd p
    one a b m (inr q) = absurd q

node-IsReachable : IsReachable anything wanted node
node-IsReachable = record {
  admissible = admissible bridge (old_route ∷ []) (flood ∷ []);
  routes_stay = λ x m i (d, there, name, lost). lost there;
  fdbs_stay = λ x m i. absurd m;
  arps_stay = λ x m i. absurd m;
}

update_sync-Reached_example :
    Returns
      (Synced view anything memory memory-IsKernel wanted node)
      (update_sync memory manager node)
update_sync-Reached_example =
    update_sync-Reached view anything memory memory-IsKernel manager node wanted refl refl
      node-IsReachable

-- The node has another device of that name, with a wanted route on it.
abbrev replaced : Tables
replaced = record {
  devices = record bridge { mac = "02:00:00:00:00:02" } ∷ [];
  routes = new_route ∷ [];
  iptables = [];
  fdbs = [];
  arps = [];
}

two_rounds-Settled_example :
    Returns
      (λ (st, n, t). (st ≡ success) × Settled view anything memory memory-IsKernel wanted (view t))
      (two_rounds view anything memory memory-IsKernel manager replaced)
two_rounds-Settled_example =
    two_rounds-Settled view anything memory memory-IsKernel manager replaced wanted refl (λ t. refl)
      (admissible (record bridge { mac = "02:00:00:00:00:02" }) (new_route ∷ []) [])

run-Returns_example : Returns (HoldsConfig memory) (
    run memory
      (crd (record { name = "n"; spec = wanted }) ∷ checker ∷ [])
      (new_network_manager, node))
run-Returns_example =
    run-Returns memory (crd (record { name = "n"; spec = wanted }) ∷ checker ∷ []) node

update_from_checker-Recorded_example :
    Returns (Recorded failing manager node) (update_from_checker failing manager node)
update_from_checker-Recorded_example = update_from_checker-Recorded failing manager node refl

compare_func_lem_example :
    let d = compare_func (some (old_route ∷ [])) (some (new_route ∷ [])) compare_route in
    (In old_route (items d.deleted)
      ↔ (In old_route (old_route ∷ []) × ¬ In old_route (new_route ∷ [])))
    × (In old_route (items d.created)
        ↔ (In old_route (new_route ∷ []) × ¬ In old_route (old_route ∷ [])))
compare_func_lem_example =
    compare_func_lem compare_route compare_route-Decides (some (old_route ∷ []))
      (some (new_route ∷ [])) old_route

two_routes :
    (compare_func
      (some (old_route ∷ new_route ∷ []))
      (some (new_route ∷ old_route ∷ []))
      compare_route).is_same
    ≡ true
unfolding compare_func compare_route
two_routes = refl

compare_func-same_example :
    In old_route (old_route ∷ new_route ∷ []) ↔ In old_route (new_route ∷ old_route ∷ [])
compare_func-same_example =
    compare_func-same compare_route compare_route-Decides (some (old_route ∷ new_route ∷ []))
      (some (new_route ∷ old_route ∷ [])) two_routes old_route

apply_without_broadcast_example :
    let d = compare_func (some (flood ∷ [])) (some []) compare_fdb in
    Applied
      (some (flood ∷ []))
      (kept d.is_same (without_broadcast (λ f. f.mac) d.deleted))
      (kept d.is_same d.created)
      flood
    ↔ (In flood [] ⊎ (In flood (flood ∷ []) × (flood.mac ≡ broadcast_mac)))
apply_without_broadcast_example =
    apply_without_broadcast compare_fdb compare_fdb-Decides (some (flood ∷ [])) (some []) flood
      (λ f. f.mac)

apply_kept_example :
    let d = compare_func (some (old_route ∷ [])) (some (new_route ∷ [])) compare_route in
    Applied (some (old_route ∷ [])) (kept d.is_same d.deleted) (kept d.is_same d.created) new_route
    ↔ In new_route (new_route ∷ [])
apply_kept_example =
    apply_kept compare_route compare_route-Decides (some (old_route ∷ [])) (some (new_route ∷ []))
      new_route

failing-SameEffects : SameEffects memory failing
failing-SameEffects = record {
  add_devices = λ xs s. refl;
  add_routes = λ xs s. refl;
  add_iptables = λ xs s. refl;
  add_fdbs = λ xs s. refl;
  add_arps = λ xs s. refl;
  delete_devices = λ xs s. refl;
  delete_routes = λ xs s. refl;
  delete_iptables = λ xs s. refl;
  delete_fdbs = λ xs s. refl;
  delete_arps = λ xs s. refl;
}

abbrev changes : Changes
changes = record { delete_config = some (spec_of node); create_config = some wanted }

write_sys-SameEffects_example :
    (write_sys memory changes node).1 ≡ (write_sys failing changes node).1
write_sys-SameEffects_example =
    write_sys-SameEffects memory failing changes node failing-SameEffects
