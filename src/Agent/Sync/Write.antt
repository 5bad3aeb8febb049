-- ===== src/Agent/Sync/Write.antt =====
-- What `WriteSys` does to the tables of the node: its two halves.
use kosmos.Base.{String, ◌≡◌, sym, ap, ◌∙◌, subst, ◌↔◌, ◌⊎◌, Option, none, some, In, List, items}
use kosmos.Api.Config.{Device, Route, Iptables, Fdb, Arp, NodeConfigSpec}
use kosmos.Agent.Network.{NetWork}
use kosmos.Agent.Sync.{attempt, write_deletes, write_creates}
use kosmos.Agent.Sync.Kernel.{
  Tables, Accepts, device_table, route_table, iptables_table, fdb_table, arp_table, IsKernel, Fresh,
  route_key, fdb_key, arp_key, OnDevices, Within, CanDevices, CanRoutes, CanIptables, CanFdbs,
  CanArps, attempt-Deletes, attempt-DeletesDevices, attempt-Adds,
}

-- What the deletions can do, and what they leave.
pub record Deletable (c : NodeConfigSpec) (v : Tables) : Type 0 where
  pub devices : Within (items c.devices) v.devices
  pub routes : Within (items c.routes) v.routes
  pub iptables : Within (items c.iptables) v.iptables
  pub fdbs : Within (items c.fdbs) v.fdbs
  pub arps : Within (items c.arps) v.arps

pub record Deleted (c : NodeConfigSpec) (v w : Tables) : Type 0 where
  pub devices :
      (a : Device) → In a w.devices ↔ (In a v.devices × ¬ (OnDevices (items c.devices) a.name))
  pub routes :
      (a : Route)
      → In a w.routes
        ↔ ((In a v.routes × ¬ In a (items c.routes)) × ¬ (OnDevices (items c.devices) a.dev))
  pub iptables : (a : Iptables) → In a w.iptables ↔ (In a v.iptables × ¬ In a (items c.iptables))
  pub fdbs :
      (a : Fdb)
      → In a w.fdbs
        ↔ ((In a v.fdbs × ¬ In a (items c.fdbs)) × ¬ (OnDevices (items c.devices) a.dev))
  pub arps :
      (a : Arp)
      → In a w.arps
        ↔ ((In a v.arps × ¬ In a (items c.arps)) × ¬ (OnDevices (items c.devices) a.dev))

-- The same for the additions; the device of what is added may be one that is added.
abbrev pub Home : NodeConfigSpec → Tables → String → Type 0
Home c v dev = (d : Device) × (In d v.devices ⊎ In d (items c.devices)) × (d.name ≡ dev)

pub record Creatable (ok : Accepts) (c : NodeConfigSpec) (v : Tables) : Type 0 where
  pub devices : CanDevices ok (items c.devices) v
  pub routes :
      Fresh route_key (items c.routes) v.routes
      × ((x : Route) → In x (items c.routes) → ok.route x × Home c v x.dev)
  pub iptables : CanIptables ok (items c.iptables) v
  pub fdbs :
      Fresh fdb_key (items c.fdbs) v.fdbs
      × ((x : Fdb) → In x (items c.fdbs) → ok.fdb x × Home c v x.dev)
  pub arps :
      Fresh arp_key (items c.arps) v.arps
      × ((x : Arp) → In x (items c.arps) → ok.arp x × Home c v x.dev)

pub record Created (c : NodeConfigSpec) (v w : Tables) : Type 0 where
  pub devices : (a : Device) → In a w.devices ↔ (In a v.devices ⊎ In a (items c.devices))
  pub routes : (a : Route) → In a w.routes ↔ (In a v.routes ⊎ In a (items c.routes))
  pub iptables : (a : Iptables) → In a w.iptables ↔ (In a v.iptables ⊎ In a (items c.iptables))
  pub fdbs : (a : Fdb) → In a w.fdbs ↔ (In a v.fdbs ⊎ In a (items c.fdbs))
  pub arps : (a : Arp) → In a w.arps ↔ (In a v.arps ⊎ In a (items c.arps))

along : {A : Type 0} (a : A) {w v : List A} {P : Type 0} → w ≡ v → In a v ↔ P → In a w ↔ P
along a e h = rw e h

from :
    {A : Type 0} (a : A) {w v : List A} {P N : Type 0} → w ≡ v → P ↔ (In a w × N) → P ↔ (In a v × N)
from a e h = rw (← e) h

from_sum :
    {A : Type 0} (a : A) {w v : List A} {P N : Type 0} → w ≡ v → P ↔ (In a w ⊎ N) → P ↔ (In a v ⊎ N)
from_sum a e h = rw (← e) h

-- Two deletions, one after the other.
twice : {P Q R M N : Type 0} → P ↔ (Q × N) → Q ↔ (R × M) → P ↔ ((R × M) × N)
twice p q = (λ x. (q.0 (p.0 x).0, (p.0 x).1), λ y. p.1 (q.1 y.0, y.1))

within : {A : Type 0} (xs : List A) {v w : List A} → w ≡ v → Within xs v → Within xs w
within xs e h a m = subst (In a) (sym e) (h a m)

Fresh-along :
    {A K : Type 0} (key : A → K) (xs : List A) {v w : List A}
    → w ≡ v
    → Fresh key xs v
    → Fresh key xs w
Fresh-along key xs e h = (h.0, λ x m a i. h.1 x m a (subst (In a) e i))

OnDevices-along : (dev : String) {v w : List Device} → w ≡ v → OnDevices v dev → OnDevices w dev
OnDevices-along dev e (d, m, name) = (d, subst (In d) (sym e) m, name)

module _ {S : Type 0} (view : S → Tables) (ok : Accepts) (net : NetWork S)
    (k : IsKernel view ok net) where
  pub write_deletes-Deleted :
      (c : NodeConfigSpec) (r : Option String × S)
      → r.0 ≡ none
      → Deletable c (view r.1)
      → ((write_deletes net (some c) r).0 ≡ none)
        × Deleted c (view r.1) (view (write_deletes net (some c) r).1)
  unfolding write_deletes
  write_deletes-Deleted c r e h =
      let q1 = attempt net c.arps net.delete_arps r in
      let q2 = attempt net c.fdbs net.delete_fdbs q1 in
      let q3 = attempt net c.iptables net.delete_iptables q2 in
      let q4 = attempt net c.routes net.delete_routes q3 in
      let d1 =
        attempt-Deletes view net arp_table net.delete_arps c.arps r k.arps_deleted e h.arps in
      let fdbs1 : (view q1.1).fdbs ≡ (view r.1).fdbs = ap (λ (v : Tables). v.fdbs) d1.others in
      let iptables1 : (view q1.1).iptables ≡ (view r.1).iptables =
        ap (λ (v : Tables). v.iptables) d1.others in
      let routes1 : (view q1.1).routes ≡ (view r.1).routes =
        ap (λ (v : Tables). v.routes) d1.others in
      let devices1 : (view q1.1).devices ≡ (view r.1).devices =
        ap (λ (v : Tables). v.devices) d1.others in
      let d2 =
        attempt-Deletes view net fdb_table net.delete_fdbs c.fdbs q1 k.fdbs_deleted d1.fine
          (within (items c.fdbs) fdbs1 h.fdbs) in
      let iptables2 : (view q2.1).iptables ≡ (view r.1).iptables =
        ap (λ (v : Tables). v.iptables) d2.others ∙ iptables1 in
      let routes2 : (view q2.1).routes ≡ (view r.1).routes =
        ap (λ (v : Tables). v.routes) d2.others ∙ routes1 in
      let devices2 : (view q2.1).devices ≡ (view r.1).devices =
        ap (λ (v : Tables). v.devices) d2.others ∙ devices1 in
      let d3 =
        attempt-Deletes view net iptables_table net.delete_iptables c.iptables q2 k.iptables_deleted
          d2.fine (within (items c.iptables) iptables2 h.iptables) in
      let routes3 : (view q3.1).routes ≡ (view r.1).routes =
        ap (λ (v : Tables). v.routes) d3.others ∙ routes2 in
      let devices3 : (view q3.1).devices ≡ (view r.1).devices =
        ap (λ (v : Tables). v.devices) d3.others ∙ devices2 in
      let d4 =
        attempt-Deletes view net route_table net.delete_routes c.routes q3 k.routes_deleted d3.fine
          (within (items c.routes) routes3 h.routes) in
      let devices4 : (view q4.1).devices ≡ (view r.1).devices =
        ap (λ (v : Tables). v.devices) d4.others ∙ devices3 in
      let (fine, gone) =
        attempt-DeletesDevices view net net.delete_devices c.devices q4 k.devices_deleted d4.fine
          (within (items c.devices) devices4 h.devices) in
      let arps4 : (view q4.1).arps ≡ (view q1.1).arps =
        ap (λ (v : Tables). v.arps) d4.others
        ∙ ap (λ (v : Tables). v.arps) d3.others
        ∙ ap (λ (v : Tables). v.arps) d2.others in
      let fdbs4 : (view q4.1).fdbs ≡ (view q2.1).fdbs =
        ap (λ (v : Tables). v.fdbs) d4.others ∙ ap (λ (v : Tables). v.fdbs) d3.others in
      let iptables5 = gone.iptables ∙ ap (λ (v : Tables). v.iptables) d4.others in
      (
        fine,
        record {
          devices = λ a. from a devices4 (gone.devices a);
          routes = λ a. twice (gone.routes a) (from a routes3 (d4.entries a));
          iptables = λ a. along a iptables5 (from a iptables2 (d3.entries a));
          fdbs = λ a. twice (gone.fdbs a) (along a fdbs4 (from a fdbs1 (d2.entries a)));
          arps = λ a. twice (gone.arps a) (along a arps4 (d1.entries a));
        },
      )

  pub write_creates-Created :
      (c : NodeConfigSpec) (r : Option String × S)
      → r.0 ≡ none
      → Creatable ok c (view r.1)
      → ((write_creates net (some c) r).0 ≡ none)
        × Created c (view r.1) (view (write_creates net (some c) r).1)
  unfolding write_creates
  write_creates-Created c r e h =
      let q1 = attempt net c.devices net.add_devices r in
      let q2 = attempt net c.arps net.add_arps q1 in
      let q3 = attempt net c.fdbs net.add_fdbs q2 in
      let q4 = attempt net c.iptables net.add_iptables q3 in
      let d1 =
        attempt-Adds view net device_table (CanDevices ok) net.add_devices c.devices r
          k.devices_added e h.devices in
      let homed : (dev : String) → Home c (view r.1) dev → OnDevices (view q1.1).devices dev =
        λ dev (d, there, name). (d, (d1.entries d).1 there, name) in
      let arps1 : (view q1.1).arps ≡ (view r.1).arps = ap (λ (v : Tables). v.arps) d1.others in
      let fdbs1 : (view q1.1).fdbs ≡ (view r.1).fdbs = ap (λ (v : Tables). v.fdbs) d1.others in
      let d2 =
        attempt-Adds view net arp_table (CanArps ok) net.add_arps c.arps q1 k.arps_added d1.fine (
          Fresh-along arp_key (items c.arps) arps1 h.arps.0,
          λ x m. ((h.arps.1 x m).0, homed x.dev (h.arps.1 x m).1),
        ) in
      let devices2 : (view q2.1).devices ≡ (view q1.1).devices =
        ap (λ (v : Tables). v.devices) d2.others in
      let fdbs2 : (view q2.1).fdbs ≡ (view r.1).fdbs =
        ap (λ (v : Tables). v.fdbs) d2.others ∙ fdbs1 in
      let d3 =
        attempt-Adds view net fdb_table (CanFdbs ok) net.add_fdbs c.fdbs q2 k.fdbs_added d2.fine (
          Fresh-along fdb_key (items c.fdbs) fdbs2 h.fdbs.0,
          λ x m. ((h.fdbs.1 x m).0, OnDevices-along x.dev devices2 (homed x.dev (h.fdbs.1 x m).1)),
        ) in
      let d4 =
        attempt-Adds view net iptables_table (CanIptables ok) net.add_iptables c.iptables q3
          k.iptables_added d3.fine h.iptables in
      let devices4 : (view q4.1).devices ≡ (view q1.1).devices =
        ap (λ (v : Tables). v.devices) d4.others
        ∙ ap (λ (v : Tables). v.devices) d3.others
        ∙ devices2 in
      let routes4 : (view q4.1).routes ≡ (view r.1).routes =
        ap (λ (v : Tables). v.routes) d4.others
        ∙ ap (λ (v : Tables). v.routes) d3.others
        ∙ ap (λ (v : Tables). v.routes) d2.others
        ∙ ap (λ (v : Tables). v.routes) d1.others in
      let iptables3 : (view q3.1).iptables ≡ (view r.1).iptables =
        ap (λ (v : Tables). v.iptables) d3.others
        ∙ ap (λ (v : Tables). v.iptables) d2.others
        ∙ ap (λ (v : Tables). v.iptables) d1.others in
      let d5 =
        attempt-Adds view net route_table (CanRoutes ok) net.add_routes c.routes q4 k.routes_added
          d4.fine
          (
            Fresh-along route_key (items c.routes) routes4 h.routes.0,
            λ x m. (
              (h.routes.1 x m).0,
              OnDevices-along x.dev devices4 (homed x.dev (h.routes.1 x m).1),
            ),
          ) in
      (
        d5.fine,
        record {
          devices =
              λ a. along a (ap (λ (v : Tables). v.devices) d5.others ∙ devices4) (d1.entries a);
          routes = λ a. from_sum a routes4 (d5.entries a);
          iptables = λ a.
              along a (ap (λ (v : Tables). v.iptables) d5.others)
                (from_sum a iptables3 (d4.entries a));
          fdbs = λ a.
              along a
                (ap (λ (v : Tables). v.fdbs) d5.others ∙ ap (λ (v : Tables). v.fdbs) d4.others)
                (from_sum a fdbs2 (d3.entries a));
          arps = λ a.
              along a
                (ap (λ (v : Tables). v.arps) d5.others
                  ∙ ap (λ (v : Tables). v.arps) d4.others
                  ∙ ap (λ (v : Tables). v.arps) d3.others)
                (from_sum a arps1 (d2.entries a));
        },
      )
