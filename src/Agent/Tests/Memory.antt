-- ===== src/Agent/Tests/Memory.antt =====
-- A node kept in memory, whose operations do what they are asked to.
use kosmos.Base.{
  refl, ◌↔◌, ◌⊎◌, inl, inr, Bool, none, some, List, ◌++◌, In, In-append, In-append_left,
  In-append_right,
}
use kosmos.Base.{
  String, ◌==◌, eq_iff, not, any, filter, In-any, any-In, filter-In, In-filter, Bool-cases, arith,
}
use kosmos.Api.Config.{
  Device, Arp, Route, Fdb, NodeConfigSpec, compare_route, compare_iptables, compare_fdb,
  compare_arp, compare_route-Decides, compare_iptables-Decides, compare_fdb-Decides,
  compare_arp-Decides,
}
use kosmos.Agent.Diff.{missing}
use kosmos.Agent.Diff.Laws.{missing-In}
use kosmos.Agent.Network.{NetWork, Action}
use kosmos.Agent.Sync.Kernel.{
  Tables, Table, device_table, route_table, iptables_table, fdb_table, arp_table, IsKernel, Accepts,
  OnDevices,
}

abbrev pub spec_of : Tables → NodeConfigSpec
spec_of v = record {
  devices = some v.devices;
  routes = some v.routes;
  iptables = some v.iptables;
  fdbs = some v.fdbs;
  arps = some v.arps;
}

abbrev pub add : {A : Type 0} → Table A → Action Tables A
add t xs v = (none, t.put (t.get v ++ xs) v)

abbrev pub delete : {A : Type 0} → Table A → (A → A → Bool) → Action Tables A
delete t f xs v = (none, t.put (missing f (t.get v) xs) v)

-- What is not on one of the devices.
abbrev off : {A : Type 0} → (A → String) → List Device → List A → List A
off dev xs ys = filter (λ a. not (any (λ (d : Device). d.name == dev a) xs)) ys

-- The devices go with what is on them.
abbrev delete_devices : Action Tables Device
delete_devices xs v = (
  none,
  record v {
    devices = off (λ (x : Device). x.name) xs v.devices;
    routes = off (λ (x : Route). x.dev) xs v.routes;
    fdbs = off (λ (x : Fdb). x.dev) xs v.fdbs;
    arps = off (λ (x : Arp). x.dev) xs v.arps;
  },
)

abbrev pub memory : NetWork Tables
memory = record {
  load_sys_config = λ v. (none, spec_of v);
  add_devices = add device_table;
  add_routes = add route_table;
  add_iptables = add iptables_table;
  add_fdbs = add fdb_table;
  add_arps = add arp_table;
  delete_devices = delete_devices;
  delete_routes = delete route_table compare_route;
  delete_iptables = delete iptables_table compare_iptables;
  delete_fdbs = delete fdb_table compare_fdb;
  delete_arps = delete arp_table compare_arp;
  wrap = λ e errs. e;
}

abbrev pub view : Tables → Tables
view v = v

In-both : {A : Type 0} (a : A) (xs ys : List A) → In a (xs ++ ys) ↔ (In a xs ⊎ In a ys)
In-both a xs ys = (
  In-append a xs ys,
  λ p. elim p [ inl m ↦ In-append_left a xs ys m | inr m ↦ In-append_right a xs ys m ],
)

abbrev pub anything : Accepts
anything = record {
  device = λ x. Unit;
  route = λ x. Unit;
  iptables = λ x. Unit;
  fdb = λ x. Unit;
  arp = λ x. Unit;
}

not_on :
    {A : Type 0} (dev : A → String) (xs : List Device) (ys : List A) (a : A)
    → In a (off dev xs ys) ↔ (In a ys × ¬ (OnDevices xs (dev a)))
not_on dev xs ys a = (
  λ m.
      let r = filter-In _ a ys m in
      (
        r.0,
        λ (d, there, name).
            (let found =
                In-any (λ (x : Device). x.name == dev a) d xs there
                  ((eq_iff d.name (dev a)).1 name) in
              ground (arith, r.1, found)),
      ),
  λ r. In-filter _ a ys r.0 (elim (Bool-cases (any (λ (x : Device). x.name == dev a) xs)) [
    | inl e ↦
        let (d, there, name) = any-In (λ (x : Device). x.name == dev a) xs e in
        absurd (r.1 (d, there, (eq_iff d.name (dev a)).0 name))
    | inr e ↦ rw (e, not) refl
  ]),
)

pub memory-IsKernel : IsKernel view anything memory
memory-IsKernel = record {
  load_reads = λ s e. refl;
  devices_added = record {
    succeeds = λ xs s can. refl;
    others = λ xs s can. refl;
    entries = λ xs s can a. In-both a s.devices xs;
  };
  routes_added = record {
    succeeds = λ xs s can. refl;
    others = λ xs s can. refl;
    entries = λ xs s can a. In-both a s.routes xs;
  };
  iptables_added = record {
    succeeds = λ xs s can. refl;
    others = λ xs s can. refl;
    entries = λ xs s can a. In-both a s.iptables xs;
  };
  fdbs_added = record {
    succeeds = λ xs s can. refl;
    others = λ xs s can. refl;
    entries = λ xs s can a. In-both a s.fdbs xs;
  };
  arps_added = record {
    succeeds = λ xs s can. refl;
    others = λ xs s can. refl;
    entries = λ xs s can a. In-both a s.arps xs;
  };
  devices_deleted = record {
    succeeds = λ xs s w. refl;
    gone = λ xs s w. record {
      devices = λ a. not_on (λ (x : Device). x.name) xs s.devices a;
      routes = λ a. not_on (λ (x : Route). x.dev) xs s.routes a;
      iptables = refl;
      fdbs = λ a. not_on (λ (x : Fdb). x.dev) xs s.fdbs a;
      arps = λ a. not_on (λ (x : Arp). x.dev) xs s.arps a;
    };
  };
  routes_deleted = record {
    succeeds = λ xs s w. refl;
    others = λ xs s w. refl;
    entries = λ xs s w a. missing-In compare_route compare_route-Decides a s.routes xs;
  };
  iptables_deleted = record {
    succeeds = λ xs s w. refl;
    others = λ xs s w. refl;
    entries = λ xs s w a. missing-In compare_iptables compare_iptables-Decides a s.iptables xs;
  };
  fdbs_deleted = record {
    succeeds = λ xs s w. refl;
    others = λ xs s w. refl;
    entries = λ xs s w a. missing-In compare_fdb compare_fdb-Decides a s.fdbs xs;
  };
  arps_deleted = record {
    succeeds = λ xs s w. refl;
    others = λ xs s w. refl;
    entries = λ xs s w a. missing-In compare_arp compare_arp-Decides a s.arps xs;
  };
}
