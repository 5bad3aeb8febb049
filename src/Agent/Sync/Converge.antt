-- ===== src/Agent/Sync/Converge.antt =====
-- One round of `UpdateSync` on a node whose operations work.
use kosmos.Base.{
  String, ◌≡◌, refl, sym, subst, inl, inr, Option, none, some, Bool-cases, Returns, Returns-bind,
  Returns-mono, Outcome, ◌>>=◌, ◌↔◌, In, items, deref, if◌then◌else◌,
}
use kosmos.Api.Config.{Device, Route, Iptables, Fdb, Arp, NodeConfigSpec}
use kosmos.Agent.Diff.{diff}
use kosmos.Agent.Network.{NetWork}
use kosmos.Agent.Sync.{
  NetworkManager, SyncStatus, success, sync_from, record_write, write_sys, write_deletes,
  write_creates, update_sync,
}
use kosmos.Agent.Sync.Kernel.{Tables, tables_of, Accepts, IsKernel}
use kosmos.Agent.Sync.Write.{Deletable, Deleted, write_deletes-Deleted, write_creates-Created}
use kosmos.Agent.Sync.Reached.{
  Reached, IsReachable, IsAdmissible, After, After-IsReachable, Reached-After, diff_same-Reached,
}
use kosmos.Agent.Sync.Plan.{diff-After, diff-Deletable, diff-Creatable, diff-Reached}

module _ {S : Type 0} (view : S → Tables) (ok : Accepts) (net : NetWork S)
    (k : IsKernel view ok net) where
  -- What a round leads to, and more where one is enough.
  abbrev Leads : NodeConfigSpec → Tables → Tables → Type 0
  Leads to v w = After to v w × (IsReachable ok to v → Reached to v w)

  -- Writing what `Diff` found brings the tables to the wanted ones.
  write_sys-Leads :
      (from to : NodeConfigSpec) (s : S)
      → tables_of from ≡ view s
      → IsAdmissible ok to (view s)
      → let d = diff from to in
        let q =
          write_sys net
            (record { delete_config = some d.delete_config; create_config = some d.create_config })
            s in
        (q.0 ≡ none) × Leads to (view s) (view q.1)
  unfolding write_sys
  write_sys-Leads from to s e admissible =
      let d = diff from to in
      let h = subst (IsAdmissible ok to) (sym e) admissible in
      let r = write_deletes net (some d.delete_config) (none, s) in
      let (fine, left) =
        write_deletes-Deleted view ok net k d.delete_config (none, s) refl
          (subst (Deletable d.delete_config) e (diff-Deletable ok from to h)) in
      let done = subst (λ v. Deleted d.delete_config v (view r.1)) (sym e) left in
      let (good, made) =
        write_creates-Created view ok net k d.create_config r fine
          (diff-Creatable ok from to h (view r.1) done) in
      (
        good,
        subst (λ v. Leads to v (view (write_creates net (some d.create_config) r).1)) e
            (
              diff-After ok from to h (view r.1) done _ made,
              λ reachable. diff-Reached ok from to h (view r.1) done reachable _ made,
            ),
      )

  abbrev pub Synced : NodeConfigSpec → S → SyncStatus × NetworkManager × S → Type 0
  Synced to s (st, m, t) = (st ≡ success) × Reached to (view s) (view t)

  abbrev Round : NodeConfigSpec → S → SyncStatus × NetworkManager × S → Type 0
  Round to s (st, m, t) = (st ≡ success) × (m.to_config ≡ some to) × Leads to (view s) (view t)

  record_write-Round :
      (m : NetworkManager) (s : S) (to : NodeConfigSpec) (q : Option String × S)
      → m.to_config ≡ some to
      → q.0 ≡ none
      → Leads to (view s) (view q.1)
      → Round to s (record_write m q)
  unfolding record_write
  record_write-Round m s to (none, t) w e h = (refl, w, h)
  record_write-Round m s to (some err, t) w e h = cc

  sync_from-Round :
      (m : NetworkManager) (s : S) (r : Option String × NodeConfigSpec) (to : NodeConfigSpec)
      → m.to_config ≡ some to
      → r.0 ≡ none
      → (r.0 ≡ none → tables_of r.1 ≡ view s)
      → IsAdmissible ok to (view s)
      → Returns (Round to s) (sync_from net m s r)
  unfolding sync_from
  sync_from-Round m s (some err, from) to h e v admissible = cc
  sync_from-Round m s (none, from) to h e reads admissible =
      let v = reads refl in
      rw (h, deref)
        (elim (Bool-cases (diff from to).is_same) [
          | inl same ↦
              let there = rw v at (diff_same-Reached from to same) in
              rw (same, if◌then◌else◌)
                (refl, refl, (Reached-After to (view s) (view s) there, λ reachable. there))
          | inr differ ↦
              let w = write_sys-Leads from to s v admissible in
              rw (differ, if◌then◌else◌)
                (record_write-Round (record m { to_config = some to }) s to
                  (write_sys net
                    (record {
                      delete_config = some (diff from to).delete_config;
                      create_config = some (diff from to).create_config;
                    })
                    s)
                  refl w.0 w.1)
        ])

  update_sync-Round :
      (m : NetworkManager) (s : S) (to : NodeConfigSpec)
      → m.to_config ≡ some to
      → (net.load_sys_config s).0 ≡ none
      → IsAdmissible ok to (view s)
      → Returns (Round to s) (update_sync net m s)
  unfolding update_sync
  update_sync-Round m s to h readable admissible =
      sync_from-Round m s (net.load_sys_config s) to h readable (k.load_reads s) admissible

  -- Where the node can be read, its devices have different names, what is wanted is accepted, has
  -- different keys and is on wanted devices, no broadcast entry that is there has the key of a wanted one
  -- without being it, and no wanted entry that is there is on a device that is to go, one round of
  -- `UpdateSync` returns success. The node then has exactly the wanted devices, routes and iptables
  -- rules, and the wanted forwarding and neighbour entries beside those with the broadcast address that
  -- it had on a device that stays.
  pub update_sync-Reached :
      (m : NetworkManager) (s : S) (to : NodeConfigSpec)
      → m.to_config ≡ some to
      → (net.load_sys_config s).0 ≡ none
      → IsReachable ok to (view s)
      → Returns (Synced to s) (update_sync net m s)
  update_sync-Reached m s to h readable reachable =
      Returns-mono (Round to s) (Synced to s) (update_sync net m s)
        (λ (st, n, t) (fine, wanted, (left, reached)). (fine, reached reachable))
        (update_sync-Round m s to h readable reachable.admissible)

  -- The tables hold exactly the wanted devices, routes and iptables rules, and all the wanted entries.
  pub record Settled (to : NodeConfigSpec) (after : Tables) : Type 0 where
    pub devices : (a : Device) → In a after.devices ↔ In a (items to.devices)
    pub routes : (a : Route) → In a after.routes ↔ In a (items to.routes)
    pub iptables : (a : Iptables) → In a after.iptables ↔ In a (items to.iptables)
    pub fdbs : (a : Fdb) → In a (items to.fdbs) → In a after.fdbs
    pub arps : (a : Arp) → In a (items to.arps) → In a after.arps

  unfoldable pub two_rounds : NetworkManager → S → Outcome (SyncStatus × NetworkManager × S)
  two_rounds m s = do (st, n, t) ← update_sync net m s; update_sync net n t

  -- Where the node can be read, its devices have different names, what is wanted is accepted, has
  -- different keys and is on wanted devices, and no broadcast entry that is there has the key of a wanted
  -- one without being it, two rounds of `UpdateSync` end with success, also where devices are replaced
  -- that wanted entries are on. The node then has exactly the wanted devices, routes and iptables rules,
  -- and all the wanted forwarding and neighbour entries.
  pub two_rounds-Settled :
      (m : NetworkManager) (s : S) (to : NodeConfigSpec)
      → m.to_config ≡ some to
      → ((t : S) → (net.load_sys_config t).0 ≡ none)
      → IsAdmissible ok to (view s)
      → Returns (λ (st, n, t). (st ≡ success) × Settled to (view t)) (two_rounds m s)
  unfolding two_rounds
  two_rounds-Settled m s to h readable admissible =
      let Q : SyncStatus × NetworkManager × S → Type 0 =
        λ (st, n, t). (st ≡ success) × Settled to (view t) in
      Returns-bind (Round to s) Q (update_sync net m s) _
        (update_sync-Round m s to h (readable s) admissible)
        (λ (st, n, t) (fine, wanted, (left, reached)).
          Returns-mono (Synced to t) Q (update_sync net n t)
            (λ (last, o, u) (good, r). (
              good,
              record {
                devices = r.devices;
                routes = r.routes;
                iptables = r.iptables;
                fdbs = λ a n. (r.fdbs a).1 (inl n);
                arps = λ a n. (r.arps a).1 (inl n);
              },
            ))
            (update_sync-Reached n t to wanted (readable t)
              (After-IsReachable ok to (view s) (view t) admissible left)))
