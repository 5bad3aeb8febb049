-- ===== src/Agent/Sync/Plan.antt =====
-- What `Diff` asks for can be done, and leads to what is wanted.
use kosmos.Base.{String, refl, sym, subst, ◌↔◌, ◌⊎◌, inl, inr, List, In, items}
use kosmos.Api.Config.{
  Device, NodeConfigSpec, compare_device, compare_route, compare_iptables, compare_fdb, compare_arp,
  compare_device-Decides, compare_route-Decides, compare_iptables-Decides, compare_fdb-Decides,
  compare_arp-Decides,
}
use kosmos.Agent.Diff.{diff}
use kosmos.Agent.Diff.Apply.{apply_kept, apply_without_broadcast}
use kosmos.Agent.Sync.Kernel.{
  Tables, tables_of, Accepts, OnDevices, device_key, route_key, fdb_key, arp_key,
}
use kosmos.Agent.Sync.Keys.{deleted, deleted_lem, created_lem, without_broadcast-old, created-Fresh}
use kosmos.Agent.Sync.Write.{Deletable, Deleted, Home, Creatable, Created}
use kosmos.Agent.Sync.Reached.{Lost, Reached, IsReachable, IsAdmissible, After}

-- What is left of a table, and what is added to it.
plain : {P Q O D N C : Type 0} → P ↔ (Q ⊎ C) → Q ↔ (O × ¬ D) → ((O × ¬ D) ⊎ C) ↔ N → P ↔ N
plain p q r = (
  λ x. r.0 (elim (p.0 x) [ inl m ↦ inl (q.0 m) | inr c ↦ inr c ]),
  λ n. p.1 (elim (r.1 n) [ inl m ↦ inl (q.1 m) | inr c ↦ inr c ]),
)

-- The same where what is on a deleted device goes with it, and nothing that is wanted is on one.
exact :
    {P Q O D G N C : Type 0}
    → P ↔ (Q ⊎ C)
    → Q ↔ ((O × ¬ D) × ¬ G)
    → ((O × ¬ D) ⊎ C) ↔ N
    → (N → O → ¬ G)
    → P ↔ N
exact p q r stay = (
  λ x. elim (p.0 x) [ inl m ↦ r.0 (inl (q.0 m).0) | inr c ↦ r.0 (inr c) ],
  λ n. p.1 (elim (r.1 n) [ inl (o, d) ↦ inl (q.1 ((o, d), stay n o)) | inr c ↦ inr c ]),
)

-- And where the broadcast entries are left.
with_broadcast :
    {P Q O D G L N B C : Type 0}
    → P ↔ (Q ⊎ C)
    → Q ↔ ((O × ¬ D) × ¬ G)
    → ((O × ¬ D) ⊎ C) ↔ (N ⊎ (O × B))
    → G ↔ L
    → (C → N)
    → (N → O → ¬ L)
    → P ↔ (N ⊎ ((O × B) × ¬ L))
with_broadcast p q r g wanted stay = (
  λ x. elim (p.0 x) [
    | inr c ↦ inl (wanted c)
    | inl m ↦
        let (left, on) = q.0 m in
        elim (r.0 (inl left)) [ inl n ↦ inl n | inr k ↦ inr (k, λ l. on (g.1 l)) ]
  ],
  λ y. p.1 (elim y [
    | inl n ↦ elim (r.1 (inl n)) [
      | inl (o, d) ↦ inl (q.1 ((o, d), λ on. stay n o (g.0 on)))
      | inr c ↦ inr c
    ]
    | inr (k, l) ↦ elim (r.1 (inr k)) [ inl m ↦ inl (q.1 (m, λ on. l (g.0 on))) | inr c ↦ inr c ]
  ]),
)

module _ (ok : Accepts) (from to : NodeConfigSpec) (h : IsAdmissible ok to (tables_of from)) where
  gone : List Device
  gone = deleted compare_device from.devices to.devices

  gone-Lost : (dev : String) → OnDevices gone dev ↔ Lost to (tables_of from) dev
  unfolding gone
  gone-Lost dev = (
    λ (d, m, name).
        let (o, n) =
          (deleted_lem compare_device compare_device-Decides from.devices to.devices d).0 m in
        (d, o, name, n),
    λ (d, o, name, n). (
      d,
      (deleted_lem compare_device compare_device-Decides from.devices to.devices d).1 (o, n),
      name,
    ),
  )

  -- A wanted device that is there is not of the name of one that goes.
  device_stays :
      (a : Device) → In a (items to.devices) → In a (items from.devices) → ¬ (OnDevices gone a.name)
  device_stays a n o on =
      let (d, there, name, lost) = (gone-Lost a.name).0 on in
      let same = h.names_apart a d o there (sym name) in
      lost (subst (λ x. In x (items to.devices)) same n)

  pub diff-Deletable : Deletable (diff from to).delete_config (tables_of from)
  unfolding diff
  diff-Deletable = record {
    devices = λ a m.
        ((deleted_lem compare_device compare_device-Decides from.devices to.devices a).0 m).0;
    routes =
        λ a m. ((deleted_lem compare_route compare_route-Decides from.routes to.routes a).0 m).0;
    iptables = λ a m.
        ((deleted_lem compare_iptables compare_iptables-Decides from.iptables to.iptables a).0 m).0;
    fdbs = λ a m.
        without_broadcast-old compare_fdb compare_fdb-Decides from.fdbs to.fdbs a (λ f. f.mac) m;
    arps = λ a m.
        without_broadcast-old compare_arp compare_arp-Decides from.arps to.arps a (λ f. f.mac) m;
  }

  module _ (w : Tables) (done : Deleted (diff from to).delete_config (tables_of from) w) where
    device_left :
        (a : Device)
        → In a w.devices ↔ ((In a (items from.devices) × ¬ In a gone) × ¬ (OnDevices gone a.name))
    unfolding diff gone
    device_left a =
        let q = done.devices a in
        (λ m. let (o, on) = q.0 m in ((o, λ d. on (a, d, refl)), on), λ ((o, d), on). q.1 (o, on))

    home :
        (dev : String) → OnDevices (items to.devices) dev → Home (diff from to).create_config w dev
    unfolding diff gone
    home dev (d, n, name) =
        elim ((apply_kept compare_device compare_device-Decides from.devices to.devices d).1 n) [
          | inl (o, k) ↦ (d, inl ((device_left d).1 ((o, k), device_stays d n o)), name)
          | inr c ↦ (d, inr c, name)
        ]

    pub diff-Creatable : Creatable ok (diff from to).create_config w
    unfolding diff gone
    diff-Creatable = record {
      devices = (
        created-Fresh device_key compare_device compare_device-Decides from.devices to.devices
            w.devices (λ a i. ((device_left a).0 i).0.0)
            (λ a i x n e.
              (apply_kept compare_device compare_device-Decides from.devices to.devices a).0
                (inl ((device_left a).0 i).0))
            h.devices_apart,
        λ x m.
            h.devices_accepted x
              ((created_lem compare_device compare_device-Decides from.devices to.devices x).0 m).0,
      );
      routes = (
        created-Fresh route_key compare_route compare_route-Decides from.routes to.routes w.routes
            (λ a i. ((done.routes a).0 i).0.0)
            (λ a i x n e.
              (apply_kept compare_route compare_route-Decides from.routes to.routes a).0
                (inl ((done.routes a).0 i).0))
            h.routes_apart,
        λ x m.
            let (fine, on) =
              h.routes_homed x
                ((created_lem compare_route compare_route-Decides from.routes to.routes x).0 m).0 in
            (fine, home x.dev on),
      );
      iptables = λ x m.
          h.iptables_accepted x
            ((created_lem compare_iptables compare_iptables-Decides from.iptables to.iptables x).0
              m).0;
      fdbs = (
        created-Fresh fdb_key compare_fdb compare_fdb-Decides from.fdbs to.fdbs w.fdbs
            (λ a i. ((done.fdbs a).0 i).0.0)
            (λ a i x n e.
              elim ((apply_without_broadcast compare_fdb compare_fdb-Decides from.fdbs to.fdbs a
                  (λ f. f.mac)).0
                (inl ((done.fdbs a).0 i).0)) [ inl m ↦ m | inr (o, b) ↦ h.fdbs_free a o b x n e ])
            h.fdbs_apart,
        λ x m.
            let (fine, on) =
              h.fdbs_homed x
                ((created_lem compare_fdb compare_fdb-Decides from.fdbs to.fdbs x).0 m).0 in
            (fine, home x.dev on),
      );
      arps = (
        created-Fresh arp_key compare_arp compare_arp-Decides from.arps to.arps w.arps
            (λ a i. ((done.arps a).0 i).0.0)
            (λ a i x n e.
              elim ((apply_without_broadcast compare_arp compare_arp-Decides from.arps to.arps a
                  (λ f. f.mac)).0
                (inl ((done.arps a).0 i).0)) [ inl m ↦ m | inr (o, b) ↦ h.arps_free a o b x n e ])
            h.arps_apart,
        λ x m.
            let (fine, on) =
              h.arps_homed x
                ((created_lem compare_arp compare_arp-Decides from.arps to.arps x).0 m).0 in
            (fine, home x.dev on),
      );
    }

    pub diff-After :
        (z : Tables) → Created (diff from to).create_config w z → After to (tables_of from) z
    unfolding diff gone
    diff-After z made = record {
      devices = λ a.
          exact (made.devices a) (device_left a)
            (apply_kept compare_device compare_device-Decides from.devices to.devices a)
            (device_stays a);
      fdbs = λ a m. elim ((made.fdbs a).0 m) [
        | inl i ↦
            (apply_without_broadcast compare_fdb compare_fdb-Decides from.fdbs to.fdbs a
                (λ f. f.mac)).0
              (inl ((done.fdbs a).0 i).0)
        | inr c ↦ inl ((created_lem compare_fdb compare_fdb-Decides from.fdbs to.fdbs a).0 c).0
      ];
      arps = λ a m. elim ((made.arps a).0 m) [
        | inl i ↦
            (apply_without_broadcast compare_arp compare_arp-Decides from.arps to.arps a
                (λ f. f.mac)).0
              (inl ((done.arps a).0 i).0)
        | inr c ↦ inl ((created_lem compare_arp compare_arp-Decides from.arps to.arps a).0 c).0
      ];
    }

    -- What the deletions and then the creations lead to.
    pub diff-Reached :
        IsReachable ok to (tables_of from)
        → (z : Tables) → Created (diff from to).create_config w z
        → Reached to (tables_of from) z
    unfolding diff gone
    diff-Reached reachable z made = record {
      devices = λ a.
          exact (made.devices a) (device_left a)
            (apply_kept compare_device compare_device-Decides from.devices to.devices a)
            (device_stays a);
      routes = λ a.
          exact (made.routes a) (done.routes a)
            (apply_kept compare_route compare_route-Decides from.routes to.routes a)
            (λ n o on. reachable.routes_stay a n o ((gone-Lost a.dev).0 on));
      iptables = λ a.
          plain (made.iptables a) (done.iptables a)
            (apply_kept compare_iptables compare_iptables-Decides from.iptables to.iptables a);
      fdbs = λ a.
          with_broadcast (made.fdbs a) (done.fdbs a)
            (apply_without_broadcast compare_fdb compare_fdb-Decides from.fdbs to.fdbs a
              (λ f. f.mac))
            (gone-Lost a.dev)
            (λ c. ((created_lem compare_fdb compare_fdb-Decides from.fdbs to.fdbs a).0 c).0)
            (reachable.fdbs_stay a);
      arps = λ a.
          with_broadcast (made.arps a) (done.arps a)
            (apply_without_broadcast compare_arp compare_arp-Decides from.arps to.arps a
              (λ f. f.mac))
            (gone-Lost a.dev)
            (λ c. ((created_lem compare_arp compare_arp-Decides from.arps to.arps a).0 c).0)
            (reachable.arps_stay a);
    }
