-- ===== src/Agent/Sync/Reached.antt =====
-- When a node has what is wanted, and when one round can bring it there.
use kosmos.Base.{String, ◌≡◌, ◌↔◌, ◌⊎◌, inl, inr, true, arith, In, items}
use kosmos.Api.Config.{
  Device, Route, Iptables, Fdb, Arp, NodeConfigSpec, compare_device, compare_route,
  compare_iptables, compare_fdb, compare_arp, compare_device-Decides, compare_route-Decides,
  compare_iptables-Decides, compare_fdb-Decides, compare_arp-Decides,
}
use kosmos.Agent.Diff.{diff, broadcast_mac}
use kosmos.Agent.Diff.Laws.{compare_func-same}
use kosmos.Agent.Sync.Keys.{Apart-same}
use kosmos.Agent.Sync.Kernel.{
  Tables, tables_of, Accepts, Apart, OnDevices, device_key, route_key, fdb_key, arp_key,
}

-- The device of that name is there and is to go, so that what is on it is lost.
abbrev pub Lost : NodeConfigSpec → Tables → String → Type 0
Lost to before dev =
    (d : Device) × In d before.devices × (d.name ≡ dev) × (¬ In d (items to.devices))

-- The tables hold what is wanted and, of the forwarding and neighbour entries, the broadcast ones
-- that were there on a device that stays.
pub record Reached (to : NodeConfigSpec) (before after : Tables) : Type 0 where
  pub devices : (a : Device) → In a after.devices ↔ In a (items to.devices)
  pub routes : (a : Route) → In a after.routes ↔ In a (items to.routes)
  pub iptables : (a : Iptables) → In a after.iptables ↔ In a (items to.iptables)
  pub fdbs :
      (a : Fdb)
      → In a after.fdbs ↔ (
          In a (items to.fdbs)
          ⊎ ((In a before.fdbs × (a.mac ≡ broadcast_mac)) × ¬ (Lost to before a.dev)))
  pub arps :
      (a : Arp)
      → In a after.arps ↔ (
          In a (items to.arps)
          ⊎ ((In a before.arps × (a.mac ≡ broadcast_mac)) × ¬ (Lost to before a.dev)))

-- The wanted configuration suits the node: the devices of the node have different names, what is wanted is
-- accepted, has different keys and names wanted devices, and a broadcast entry that is there has the key
-- of a wanted one only if it is wanted.
pub record IsAdmissible (ok : Accepts) (to : NodeConfigSpec) (before : Tables) : Type 0 where
  pub names_apart :
      (a b : Device) → In a before.devices → In b before.devices → a.name ≡ b.name → a ≡ b
  pub devices_accepted : (x : Device) → In x (items to.devices) → ok.device x
  pub iptables_accepted : (x : Iptables) → In x (items to.iptables) → ok.iptables x
  pub devices_apart : Apart device_key (items to.devices)
  pub routes_apart : Apart route_key (items to.routes)
  pub fdbs_apart : Apart fdb_key (items to.fdbs)
  pub arps_apart : Apart arp_key (items to.arps)
  pub routes_homed :
      (x : Route) → In x (items to.routes) → ok.route x × OnDevices (items to.devices) x.dev
  pub fdbs_homed : (x : Fdb) → In x (items to.fdbs) → ok.fdb x × OnDevices (items to.devices) x.dev
  pub arps_homed : (x : Arp) → In x (items to.arps) → ok.arp x × OnDevices (items to.devices) x.dev
  pub fdbs_free :
      (a : Fdb)
      → In a before.fdbs
      → a.mac ≡ broadcast_mac
      → (x : Fdb) → In x (items to.fdbs)
      → fdb_key a ≡ fdb_key x
      → In a (items to.fdbs)
  pub arps_free :
      (a : Arp)
      → In a before.arps
      → a.mac ≡ broadcast_mac
      → (x : Arp) → In x (items to.arps)
      → arp_key a ≡ arp_key x
      → In a (items to.arps)

-- And one round can bring the node to it: no wanted entry that is there is on a device that is to go.
pub record IsReachable (ok : Accepts) (to : NodeConfigSpec) (before : Tables) : Type 0 where
  pub admissible : IsAdmissible ok to before
  pub routes_stay :
      (x : Route) → In x (items to.routes) → In x before.routes → ¬ (Lost to before x.dev)
  pub fdbs_stay : (x : Fdb) → In x (items to.fdbs) → In x before.fdbs → ¬ (Lost to before x.dev)
  pub arps_stay : (x : Arp) → In x (items to.arps) → In x before.arps → ¬ (Lost to before x.dev)

-- What any round leaves: the wanted devices, and of the entries that are not wanted only broadcast ones.
pub record After (to : NodeConfigSpec) (before after : Tables) : Type 0 where
  pub devices : (a : Device) → In a after.devices ↔ In a (items to.devices)
  pub fdbs :
      (a : Fdb)
      → In a after.fdbs
      → In a (items to.fdbs) ⊎ (In a before.fdbs × (a.mac ≡ broadcast_mac))
  pub arps :
      (a : Arp)
      → In a after.arps
      → In a (items to.arps) ⊎ (In a before.arps × (a.mac ≡ broadcast_mac))

-- So the next round can bring the node to what is wanted.
pub After-IsReachable :
    (ok : Accepts) (to : NodeConfigSpec) (before after : Tables)
    → IsAdmissible ok to before
    → After to before after
    → IsReachable ok to after
After-IsReachable ok to before after h left = record {
  admissible = record {
    names_apart = λ a b m n e.
        Apart-same device_key (items to.devices) h.devices_apart a b ((left.devices a).0 m)
          ((left.devices b).0 n) e;
    devices_accepted = h.devices_accepted;
    iptables_accepted = h.iptables_accepted;
    devices_apart = h.devices_apart;
    routes_apart = h.routes_apart;
    fdbs_apart = h.fdbs_apart;
    arps_apart = h.arps_apart;
    routes_homed = h.routes_homed;
    fdbs_homed = h.fdbs_homed;
    arps_homed = h.arps_homed;
    fdbs_free = λ a m b x n e. elim (left.fdbs a m) [
      | inl wanted ↦ wanted
      | inr (o, c) ↦ h.fdbs_free a o b x n e
    ];
    arps_free = λ a m b x n e. elim (left.arps a m) [
      | inl wanted ↦ wanted
      | inr (o, c) ↦ h.arps_free a o b x n e
    ];
  };
  routes_stay = λ x m i (d, there, name, lost). lost ((left.devices d).0 there);
  fdbs_stay = λ x m i (d, there, name, lost). lost ((left.devices d).0 there);
  arps_stay = λ x m i (d, there, name, lost). lost ((left.devices d).0 there);
}

wider : {P Q R : Type 0} → P ↔ Q → (R → Q) → P ↔ (Q ⊎ R)
wider p r = (λ x. inl (p.0 x), λ x. elim x [ inl y ↦ p.1 y | inr y ↦ p.1 (r y) ])

-- When `Diff` finds no change the tables are already as wanted.
pub Reached-After :
    (to : NodeConfigSpec) (before after : Tables) → Reached to before after → After to before after
Reached-After to before after h = record {
  devices = h.devices;
  fdbs = λ a m. elim ((h.fdbs a).0 m) [ inl n ↦ inl n | inr (k, on) ↦ inr k ];
  arps = λ a m. elim ((h.arps a).0 m) [ inl n ↦ inl n | inr (k, on) ↦ inr k ];
}

pub diff_same-Reached :
    (from to : NodeConfigSpec)
    → (diff from to).is_same ≡ true
    → Reached to (tables_of from) (tables_of from)
unfolding diff
diff_same-Reached from to e = record {
  devices =
      compare_func-same compare_device compare_device-Decides from.devices to.devices
        (ground arith);
  routes =
      compare_func-same compare_route compare_route-Decides from.routes to.routes (ground arith);
  iptables =
      compare_func-same compare_iptables compare_iptables-Decides from.iptables to.iptables
        (ground arith);
  fdbs = λ a.
      let s =
        compare_func-same compare_fdb compare_fdb-Decides from.fdbs to.fdbs (ground arith) a in
      wider s (λ r. s.0 r.0.0);
  arps = λ a.
      let s =
        compare_func-same compare_arp compare_arp-Decides from.arps to.arps (ground arith) a in
      wider s (λ r. s.0 r.0.0);
}
