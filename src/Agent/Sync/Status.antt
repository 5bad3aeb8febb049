-- ===== src/Agent/Sync/Status.antt =====
-- The status that the agent records and the one that it returns, over any sequence of its two entry
-- points.
use kosmos.Base.{
  ◌≡◌, ◌↔◌, ap, refl, ◌⊎◌, inl, inr, true, false, Option, none, some, is_some, List, arith, String,
  Bool-cases, Option-cases, Outcome, returns, Returns, Returns-bind, Returns-mono, ◌>>=◌, deref,
  for_each, for_each-Returns, if◌then◌else◌,
}
use kosmos.Api.Config.{NodeConfig, NodeConfigSpec}
use kosmos.Agent.Diff.{diff}
use kosmos.Agent.Network.{NetWork}
use kosmos.Agent.Sync.{
  Changes, NetworkManager, SyncStatus, success, exception, write_sys, record_write, sync_from,
  update_sync, update_from_crd, update_from_checker, new_network_manager,
}

-- What wakes the agent: a `NodeConfig` that was read, or the timer of the checker.
pub data Wake : Type 0 where
  crd : NodeConfig → Wake
  checker : Wake

module _ {S : Type 0} (net : NetWork S) where
  unfoldable pub step : Wake → NetworkManager × S → Outcome (NetworkManager × S)
  step (crd c) (m, s) = do (st, n, t) ← update_from_crd net m c s; returns (n, t)
  step checker (m, s) = do (st, n, t) ← update_from_checker net m s; returns (n, t)

  unfoldable pub run : List Wake → NetworkManager × S → Outcome (NetworkManager × S)
  run wakes r = for_each wakes step r

  abbrev changes : NodeConfigSpec → NodeConfigSpec → Changes
  changes from to = record {
    delete_config = some (diff from to).delete_config;
    create_config = some (diff from to).create_config;
  }

  -- The node could not be read.
  abbrev Unread : S → SyncStatus × NetworkManager × S → Type 0
  Unread s (st, n, t) =
      (err : String) × ((net.load_sys_config s).0 ≡ some err)
      × (st ≡ exception)
      × (n.status ≡ exception)
      × (n.reason ≡ err)
      × (t ≡ s)

  -- The node was read and found as wanted: nothing is recorded.
  abbrev Unchanged : NetworkManager → S → SyncStatus × NetworkManager × S → Type 0
  Unchanged m s (st, n, t) =
      (to : NodeConfigSpec) × (m.to_config ≡ some to)
      × ((net.load_sys_config s).0 ≡ none)
      × ((diff (net.load_sys_config s).1 to).is_same ≡ true)
      × (st ≡ success)
      × (n ≡ m)
      × (t ≡ s)

  -- The node was read, found to differ and written: the status says whether the write failed.
  abbrev WrittenTo : NetworkManager → S → SyncStatus × NetworkManager × S → Type 0
  WrittenTo m s (st, n, t) =
      (to : NodeConfigSpec) × (m.to_config ≡ some to)
      × ((net.load_sys_config s).0 ≡ none)
      × ((diff (net.load_sys_config s).1 to).is_same ≡ false)
      × (n.status ≡ st)
      × ((st ≡ success) ↔ ((write_sys net (changes (net.load_sys_config s).1 to) s).0 ≡ none))
      × (t ≡ (write_sys net (changes (net.load_sys_config s).1 to) s).1)

  abbrev pub Recorded : NetworkManager → S → SyncStatus × NetworkManager × S → Type 0
  Recorded m s r =
      (is_some r.1.to_config ≡ true) × (Unread s r ⊎ (Unchanged m s r ⊎ WrittenTo m s r))

  record_write_recorded :
      (m : NetworkManager) (q : Option String × S)
      → is_some m.to_config ≡ true
      → (is_some (record_write m q).1.to_config ≡ true)
        × ((record_write m q).1.status ≡ (record_write m q).0)
        × (((record_write m q).0 ≡ success) ↔ (q.0 ≡ none))
        × ((record_write m q).2 ≡ q.1)
  unfolding record_write
  record_write_recorded m (none, t) h = (h, refl, (λ e. refl, λ e. refl), refl)
  record_write_recorded m (some err, t) h = (h, refl, (λ e. cc, λ e. cc), refl)

  sync_from-Recorded :
      (m : NetworkManager) (s : S) (to : NodeConfigSpec) (r : Option String × NodeConfigSpec)
      → m.to_config ≡ some to
      → net.load_sys_config s ≡ r
      → Returns (Recorded m s) (sync_from net m s r)
  unfolding sync_from
  sync_from-Recorded m s to (some err, from) h l =
      (ground (arith, h), inl (err, ap (λ x. x.0) l, refl, refl, refl, refl))
  sync_from-Recorded m s to (none, from) h l =
      simp (h, deref)
        (elim (Bool-cases (diff from to).is_same) [
          | inl same ↦
              rw (same, if◌then◌else◌)
                (
                  ground (arith, h),
                  inr (inl (to, refl, ap (λ x. x.0) l, rw l same, refl, refl, refl)),
                )
          | inr differ ↦
              let c = write_sys net (changes from to) s in
              let w = record_write_recorded m c (ground (arith, h)) in
              rw (differ, if◌then◌else◌)
                (w.0, inr (inr (to, refl, ap (λ x. x.0) l, rw l differ, w.1, rw l w.2, rw l w.3)))
        ])

  update_sync-Recorded :
      (m : NetworkManager) (s : S)
      → is_some m.to_config ≡ true
      → Returns (Recorded m s) (update_sync net m s)
  unfolding update_sync
  update_sync-Recorded m s h = elim (Option-cases m.to_config) [
    | inl e ↦ ground (arith, h, e)
    | inr (to, e) ↦ sync_from-Recorded m s to (net.load_sys_config s) e refl
  ]

  abbrev HasConfig : SyncStatus × NetworkManager × S → Type 0
  HasConfig (st, n, t) = is_some n.to_config ≡ true

  checker-sync :
      (m : NetworkManager) (s : S) (to : NodeConfigSpec)
      → m.to_config ≡ some to
      → update_from_checker net m s ≡ update_sync net m s
  unfolding update_from_checker
  checker-sync m s to e = unfolded m.to_config e
    where
      unfolded :
          (o : Option NodeConfigSpec)
          → o ≡ some to
          → (elim o [ none ↦ returns (m.status, m, s) | some t ↦ update_sync net m s ])
            ≡ update_sync net m s
      unfolded none h = cc
      unfolded (some t) h = refl

  -- Where the manager has a configuration, the checker does not panic, and one of three things happened. The
  -- node could not be read: it returns and records an exception with the reason, and leaves the node. The
  -- node was read and `diff` found no change: it returns success and changes neither the manager nor the
  -- node. Or `diff` found a change and it was written: the status that it returns is the one that it
  -- records, and is success just where the write reported no error.
  pub update_from_checker-Recorded :
      (m : NetworkManager) (s : S)
      → is_some m.to_config ≡ true
      → Returns (Recorded m s) (update_from_checker net m s)
  update_from_checker-Recorded m s h = elim (Option-cases m.to_config) [
    | inl e ↦ ground (arith, h, e)
    | inr (to, e) ↦ rw (checker-sync m s to e) (update_sync-Recorded m s h)
  ]

  update_from_crd-Returns :
      (m : NetworkManager) (c : NodeConfig) (s : S)
      → is_some m.to_config ≡ true
      → Returns HasConfig (update_from_crd net m c s)
  unfolding update_from_crd
  update_from_crd-Returns m c s h = elim (Option-cases m.to_config) [
    | inl e ↦ ground (arith, h, e)
    | inr (to, e) ↦
        simp (e, deref)
          (elim (Bool-cases (diff to c.spec).is_same) [
            | inl same ↦ rw (same, if◌then◌else◌) h
            | inr differ ↦
                rw (differ, if◌then◌else◌)
                  (Returns-mono (Recorded (record m { to_config = some c.spec }) s) HasConfig _
                    (λ r p. p.0)
                    (update_sync-Recorded (record m { to_config = some c.spec }) s refl))
          ])
  ]

  abbrev pub HoldsConfig : NetworkManager × S → Type 0
  HoldsConfig (m, s) = is_some m.to_config ≡ true

  step-Returns :
      (w : Wake) (r : NetworkManager × S) → HoldsConfig r → Returns HoldsConfig (step w r)
  unfolding step
  step-Returns (crd c) (m, s) h =
      Returns-bind HasConfig HoldsConfig (update_from_crd net m c s) _
        (update_from_crd-Returns m c s h) (λ q p. p)
  step-Returns checker (m, s) h =
      Returns-bind (Recorded m s) HoldsConfig (update_from_checker net m s) _
        (update_from_checker-Recorded m s h) (λ q p. p.0)

  -- From a new manager, whatever wakes the agent and however often operations fail, it does not
  -- panic, and it holds a configuration all the while.
  pub run-Returns :
      (wakes : List Wake) (s : S) → Returns HoldsConfig (run wakes (new_network_manager, s))
  unfolding run new_network_manager
  run-Returns wakes s =
      for_each-Returns HoldsConfig wakes step (λ w _ r. step-Returns w r) (new_network_manager, s)
        refl
