-- ===== src/Agent/Sync/Kernel.antt =====
-- What the agent relies on of the node. An operation is relied on where what it is asked for can be done:
-- what is deleted is there, and what is added is accepted, is not there yet, and its device is. The
-- deletion of a device takes its routes and entries along. Stated of the entries that the tables hold, not
-- of their order.
use kosmos.Base.{
  String, ◌≡◌, refl, sym, ◌↔◌, ◌⊎◌, inl, inr, Option, none, some, List, Slice, items, In,
}
use kosmos.Api.Config.{Device, Route, Iptables, Fdb, Arp, NodeConfigSpec}
use kosmos.Agent.Network.{NetWork, Action}
use kosmos.Agent.Sync.{attempt}
use kosmos.Agent.Diff.{broadcast_mac}
use kosmos.Base.{◌==◌, if◌then◌else◌, [], ◌∷◌}

-- The five tables of a node.
pub record Tables : Type 0 where
  pub devices : List Device
  pub routes : List Route
  pub iptables : List Iptables
  pub fdbs : List Fdb
  pub arps : List Arp

abbrev pub tables_of : NodeConfigSpec → Tables
tables_of c = record {
  devices = items c.devices;
  routes = items c.routes;
  iptables = items c.iptables;
  fdbs = items c.fdbs;
  arps = items c.arps;
}

-- One of the five tables: how to read it, and how to put another in its place.
pub record Table (A : Type 0) : Type 0 where
  pub get : Tables → List A
  pub put : List A → Tables → Tables
  pub put-get : (v : Tables) → put (get v) v ≡ v

abbrev pub device_table : Table Device
device_table = record {
  get = λ v. v.devices;
  put = λ xs v. record v { devices = xs };
  put-get = λ v. refl;
}

abbrev pub route_table : Table Route
route_table = record {
  get = λ v. v.routes;
  put = λ xs v. record v { routes = xs };
  put-get = λ v. refl;
}

abbrev pub iptables_table : Table Iptables
iptables_table = record {
  get = λ v. v.iptables;
  put = λ xs v. record v { iptables = xs };
  put-get = λ v. refl;
}

abbrev pub fdb_table : Table Fdb
fdb_table = record { get = λ v. v.fdbs; put = λ xs v. record v { fdbs = xs }; put-get = λ v. refl }

abbrev pub arp_table : Table Arp
arp_table = record { get = λ v. v.arps; put = λ xs v. record v { arps = xs }; put-get = λ v. refl }

-- What the node accepts: texts that parse, and an interface to bind to.
pub record Accepts : Type 1 where
  pub device : Device → Type 0
  pub route : Route → Type 0
  pub iptables : Iptables → Type 0
  pub fdb : Fdb → Type 0
  pub arp : Arp → Type 0

-- What the kernel tells the entries of a table apart by.
abbrev pub device_key : Device → String
device_key x = x.name

abbrev pub route_key : Route → String
route_key x = x.cidr

abbrev pub fdb_key : Fdb → String × (String × String)
fdb_key x = (x.dev, (x.mac, if x.mac == broadcast_mac then x.ip else ""))

abbrev pub arp_key : Arp → String × String
arp_key x = (x.dev, x.ip)

-- No two entries of the list have the same key.
unfoldable pub Apart : {A K : Type 0} → (A → K) → List A → Type 0
Apart key [] = Unit
Apart {A} key (x ∷ xs) = ((y : A) → In y xs → ¬ (key x ≡ key y)) × Apart key xs

-- Nor has one of them the key of an entry that is there.
abbrev pub Fresh : {A K : Type 0} → (A → K) → List A → List A → Type 0
Fresh {A} key xs old = Apart key xs × ((x : A) → In x xs → (a : A) → In a old → ¬ (key a ≡ key x))

-- A device of that name is in the list.
abbrev pub OnDevices : List Device → String → Type 0
OnDevices xs dev = (d : Device) × In d xs × (d.name ≡ dev)

abbrev pub Within : {A : Type 0} → List A → List A → Type 0
Within {A} xs ys = (a : A) → In a xs → In a ys

-- The devices are gone, with what was on them.
pub record DevicesGone (xs : List Device) (v w : Tables) : Type 0 where
  pub devices : (a : Device) → In a w.devices ↔ (In a v.devices × ¬ (OnDevices xs a.name))
  pub routes : (a : Route) → In a w.routes ↔ (In a v.routes × ¬ (OnDevices xs a.dev))
  pub iptables : w.iptables ≡ v.iptables
  pub fdbs : (a : Fdb) → In a w.fdbs ↔ (In a v.fdbs × ¬ (OnDevices xs a.dev))
  pub arps : (a : Arp) → In a w.arps ↔ (In a v.arps × ¬ (OnDevices xs a.dev))

module _ (ok : Accepts) where
  abbrev pub CanDevices : List Device → Tables → Type 0
  CanDevices xs v = Fresh device_key xs v.devices × ((x : Device) → In x xs → ok.device x)

  abbrev pub CanRoutes : List Route → Tables → Type 0
  CanRoutes xs v =
      Fresh route_key xs v.routes × ((x : Route) → In x xs → ok.route x × OnDevices v.devices x.dev)

  abbrev pub CanIptables : List Iptables → Tables → Type 0
  CanIptables xs v = (x : Iptables) → In x xs → ok.iptables x

  abbrev pub CanFdbs : List Fdb → Tables → Type 0
  CanFdbs xs v =
      Fresh fdb_key xs v.fdbs × ((x : Fdb) → In x xs → ok.fdb x × OnDevices v.devices x.dev)

  abbrev pub CanArps : List Arp → Tables → Type 0
  CanArps xs v =
      Fresh arp_key xs v.arps × ((x : Arp) → In x xs → ok.arp x × OnDevices v.devices x.dev)

module _ {S : Type 0} (view : S → Tables) where
  -- What is deleted was there: the operation succeeds, removes it from its table, and touches no other.
  pub record Deletes {A : Type 0} (t : Table A) (op : Action S A) : Type 0 where
    pub succeeds : (xs : List A) (s : S) → Within xs (t.get (view s)) → (op xs s).0 ≡ none
    pub others :
        (xs : List A) (s : S)
        → Within xs (t.get (view s))
        → view (op xs s).1 ≡ t.put (t.get (view (op xs s).1)) (view s)
    pub entries :
        (xs : List A) (s : S)
        → Within xs (t.get (view s))
        → (a : A) → In a (t.get (view (op xs s).1)) ↔ (In a (t.get (view s)) × ¬ In a xs)

  pub record DeletesDevices (op : Action S Device) : Type 0 where
    pub succeeds : (xs : List Device) (s : S) → Within xs (view s).devices → (op xs s).0 ≡ none
    pub gone :
        (xs : List Device) (s : S)
        → Within xs (view s).devices
        → DevicesGone xs (view s) (view (op xs s).1)

  -- What is added can be: the operation succeeds, adds it to its table, and touches no other.
  pub record Adds {A : Type 0} (t : Table A) (Can : List A → Tables → Type 0) (op : Action S A)
      : Type 0 where
    pub succeeds : (xs : List A) (s : S) → Can xs (view s) → (op xs s).0 ≡ none
    pub others :
        (xs : List A) (s : S)
        → Can xs (view s)
        → view (op xs s).1 ≡ t.put (t.get (view (op xs s).1)) (view s)
    pub entries :
        (xs : List A) (s : S)
        → Can xs (view s)
        → (a : A) → In a (t.get (view (op xs s).1)) ↔ (In a (t.get (view s)) ⊎ In a xs)

  pub record IsKernel (ok : Accepts) (net : NetWork S) : Type 0 where
    pub load_reads :
        (s : S) → (net.load_sys_config s).0 ≡ none → tables_of (net.load_sys_config s).1 ≡ view s
    pub devices_added : Adds device_table (CanDevices ok) net.add_devices
    pub routes_added : Adds route_table (CanRoutes ok) net.add_routes
    pub iptables_added : Adds iptables_table (CanIptables ok) net.add_iptables
    pub fdbs_added : Adds fdb_table (CanFdbs ok) net.add_fdbs
    pub arps_added : Adds arp_table (CanArps ok) net.add_arps
    pub devices_deleted : DeletesDevices net.delete_devices
    pub routes_deleted : Deletes route_table net.delete_routes
    pub iptables_deleted : Deletes iptables_table net.delete_iptables
    pub fdbs_deleted : Deletes fdb_table net.delete_fdbs
    pub arps_deleted : Deletes arp_table net.delete_arps

  -- From `r` to `q` nothing failed, only the table `t` changed, and to what `E` says.
  pub record Changed {A : Type 0} (t : Table A) (E : List A → A → Type 0) (r q : Option String × S)
      : Type 0 where
    pub fine : q.0 ≡ none
    pub others : view q.1 ≡ t.put (t.get (view q.1)) (view r.1)
    pub entries : (a : A) → In a (t.get (view q.1)) ↔ E (t.get (view r.1)) a

  pub attempt-Deletes :
      (net : NetWork S) {A : Type 0} (t : Table A) (op : Action S A) (c : Slice A)
      (r : Option String × S)
      → Deletes t op
      → r.0 ≡ none
      → Within (items c) (t.get (view r.1))
      → Changed t (λ old a. In a old × ¬ In a (items c)) r (attempt net c op r)
  unfolding attempt
  attempt-Deletes net t op none r d e w = record {
    fine = e;
    others = sym (t.put-get (view r.1));
    entries = λ a. (λ m. (m, λ k. k), λ p. p.0);
  }
  attempt-Deletes net t op (some xs) r d e w = record {
    fine = rw (d.succeeds xs r.1 w) e;
    others = d.others xs r.1 w;
    entries = d.entries xs r.1 w;
  }

  pub attempt-DeletesDevices :
      (net : NetWork S) (op : Action S Device) (c : Slice Device) (r : Option String × S)
      → DeletesDevices op
      → r.0 ≡ none
      → Within (items c) (view r.1).devices
      → ((attempt net c op r).0 ≡ none)
        × DevicesGone (items c) (view r.1) (view (attempt net c op r).1)
  unfolding attempt
  attempt-DeletesDevices net op none r d e w = (
    e,
    record {
      devices = λ a. (λ m. (m, λ (d, m, n). m), λ p. p.0);
      routes = λ a. (λ m. (m, λ (d, m, n). m), λ p. p.0);
      iptables = refl;
      fdbs = λ a. (λ m. (m, λ (d, m, n). m), λ p. p.0);
      arps = λ a. (λ m. (m, λ (d, m, n). m), λ p. p.0);
    },
  )
  attempt-DeletesDevices net op (some xs) r d e w = (rw (d.succeeds xs r.1 w) e, d.gone xs r.1 w)

  pub attempt-Adds :
      (net : NetWork S) {A : Type 0} (t : Table A) (Can : List A → Tables → Type 0)
      (op : Action S A) (c : Slice A) (r : Option String × S)
      → Adds t Can op
      → r.0 ≡ none
      → Can (items c) (view r.1)
      → Changed t (λ old a. In a old ⊎ In a (items c)) r (attempt net c op r)
  unfolding attempt
  attempt-Adds net t Can op none r d e can = record {
    fine = e;
    others = sym (t.put-get (view r.1));
    entries = λ a. (λ m. inl m, λ p. elim p [ inl m ↦ m | inr k ↦ absurd k ]);
  }
  attempt-Adds net t Can op (some xs) r d e can = record {
    fine = rw (d.succeeds xs r.1 can) e;
    others = d.others xs r.1 can;
    entries = d.entries xs r.1 can;
  }
