-- ===== src/Tree/Conditions/Debounced.antt =====
-- When a change of the readiness is reported.
use kosmos.Base.{
  Returns-option, deref-some, ℕ, ◌+◌, String, ◌≡◌, refl, sym, subst, Bool, true, false, not, ◌&&◌,
  Option, none, some, List, arith, eq_iff, ◌==◌, if◌then◌else◌, leb, In, Outcome, returns, ◌>>=◌,
  deref, for_each, Returns, Returns-bind, for_each-Returns,
}
use kosmos.Base.Dict
use kosmos.Tree.Conditions.{
  NodeCondition, ClusterData, ClusterConditionStore, Call, condition_true, find_status_condition,
  get, update, renewed, threshold_of, flips, report, adjust_known,
  threshold_adjusted_ready_condition,
}

unfoldable pub status_of : Option NodeCondition → Option String
status_of none = none
status_of (some x) = some x.status

-- A call for a cluster that is known, at which the observed and the current readiness are as given.
pub record Reads (cluster observed current : String) (call : Call) : Type 0 where
  pub named : call.cluster ≡ cluster
  pub observes : status_of (find_status_condition call.observed) ≡ some observed
  pub currents : status_of (find_status_condition call.current) ≡ some current

-- The threshold that the call gives for what it observes.
unfoldable pub limit : Call → String → ℕ
limit call observed =
    if observed == condition_true then call.success_threshold else call.failure_threshold

pub Adjusted :
    String → String → ClusterData → Call → List NodeCondition × ClusterConditionStore → Type 0
Adjusted observed current saved call (reported, d) =
    let entry = renewed saved observed call.now in
    (get call.cluster d ≡ some entry)
    × (reported ≡ (
        if flips observed current
          && not (leb (entry.threshold_start_time + limit call observed) call.now)
        then call.current
        else call.observed))

get-kept :
    (call : Call) (c : ClusterConditionStore) (observed : String) (saved : ClusterData)
    → get call.cluster c ≡ some saved
    → get call.cluster (
        if saved.ready_condition == observed
        then c
        else update call.cluster (renewed saved observed call.now) c)
      ≡ some (renewed saved observed call.now)
unfolding get update renewed
get-kept call c observed saved g =
    let entry : ClusterData = record {
      ready_condition = observed;
      threshold_start_time = call.now;
    } in
    let seen = Dict.lookup-insert call.cluster call.cluster entry c.cluster_data_map in
    ground (arith, g, seen, eq_iff call.cluster call.cluster)

threshold-kept :
    (call : Call) (c : ClusterConditionStore) (observed : String) (b : Bool) (entry : ClusterData)
    → c.success_threshold ≡ call.success_threshold
    → c.failure_threshold ≡ call.failure_threshold
    → threshold_of (if b then c else update call.cluster entry c) observed ≡ limit call observed
unfolding threshold_of limit update
threshold-kept call c observed true entry s f = ground (arith, s, f)
threshold-kept call c observed false entry s f = ground (arith, s, f)

adjust_known-Adjusted :
    (call : Call) (c : ClusterConditionStore) (observed : String) (current : NodeCondition)
    (saved : ClusterData)
    → find_status_condition call.current ≡ some current
    → get call.cluster c ≡ some saved
    → c.success_threshold ≡ call.success_threshold
    → c.failure_threshold ≡ call.failure_threshold
    → Returns (Adjusted observed current.status saved call) (adjust_known call c observed saved)
unfolding adjust_known Adjusted report
adjust_known-Adjusted call c observed current saved k g success failure =
    Returns-bind (λ x. x ≡ current) (Adjusted observed current.status saved call)
      (deref (find_status_condition call.current)) _
      (deref-some (find_status_condition call.current) current k)
      (λ x same.
        let entry = renewed saved observed call.now in
        let b = saved.ready_condition == observed in
        (
          get-kept call c observed saved g,
          rw (same, threshold-kept call c observed b entry success failure, report) refl,
        ))

status_of-some :
    (o : Option NodeCondition) (status : String)
    → status_of o ≡ some status
    → (x : NodeCondition) × (o ≡ some x) × (x.status ≡ status)
unfolding status_of
status_of-some none status h = cc
status_of-some (some x) status h = (x, refl, cc)

-- A call that reads the given statuses, for a cluster with saved data.
read-Adjusted :
    (cluster observed current : String) (call : Call) (c : ClusterConditionStore)
    (saved : ClusterData)
    → Reads cluster observed current call
    → get call.cluster c ≡ some saved
    → Returns (Adjusted observed current saved call) (threshold_adjusted_ready_condition call c)
unfolding threshold_adjusted_ready_condition get status_of
read-Adjusted cluster observed current call c saved reads g =
    let (x, found, is_observed) =
      status_of-some (find_status_condition call.observed) observed reads.observes in
    let (y, present, is_current) =
      status_of-some (find_status_condition call.current) current reads.currents in
    let P = Adjusted observed current saved call in
    Returns-option P (find_status_condition call.observed) _ _ (λ e. cc)
      (λ b e.
        let same : b.status ≡ observed = cc in
        Returns-option P (get call.cluster c) _ _ (λ q. cc)
          (λ d q.
            let stored : saved ≡ d = cc in
            subst (λ st. Returns P (adjust_known call set b.status st)) stored
              (subst (λ st. Returns P (adjust_known call set st saved)) (sym same)
                (subst
                  (λ st.
                    Returns (Adjusted observed st saved call)
                      (adjust_known call set observed saved))
                  is_current
                  (adjust_known-Adjusted call set observed y saved present g refl refl)))))
  where
    set : ClusterConditionStore
    set = record c {
      success_threshold = call.success_threshold;
      failure_threshold = call.failure_threshold;
    }

-- Some calls, one after the other.
unfoldable pub step : Call → ClusterConditionStore → Outcome ClusterConditionStore
step call c = do (reported, d) ← threshold_adjusted_ready_condition call c; returns d

-- What is reported by the last of some calls.
unfoldable pub last_report :
    Call → List Call → Call → ClusterConditionStore → Outcome (List NodeCondition)
last_report first calls last c = do
  after_first ← step first c
  d ← for_each calls step after_first
  (reported, e) ← threshold_adjusted_ready_condition last d
  returns reported

-- A call that observes the status, whatever the current one is.
abbrev pub Observes : String → String → Call → Type 0
Observes cluster observed call = (current : String) × Reads cluster observed current call

-- The cluster's data in the store.
abbrev Holds : String → ClusterData → ClusterConditionStore → Type 0
Holds cluster entry c = get cluster c ≡ some entry

step-Holds :
    (cluster observed : String) (call : Call) (c : ClusterConditionStore) (saved : ClusterData)
    → Observes cluster observed call
    → Holds cluster saved c
    → Returns (Holds cluster (renewed saved observed call.now)) (step call c)
unfolding step Adjusted
step-Holds cluster observed call c saved (current, reads) h =
    Returns-bind (Adjusted observed current saved call)
      (Holds cluster (renewed saved observed call.now)) (threshold_adjusted_ready_condition call c)
      _
      (read-Adjusted cluster observed current call c saved reads
        (subst (λ k. Holds k saved c) (sym reads.named) h))
      (λ r a. subst (λ k. Holds k (renewed saved observed call.now) r.1) reads.named (held r a))
  where
    held :
        (r : List NodeCondition × ClusterConditionStore)
        → Adjusted observed current saved call r
        → Holds call.cluster (renewed saved observed call.now) r.1
    held r a = a.0

renewed-same :
    (saved : ClusterData) (status : String) (now : ℕ)
    → saved.ready_condition ≡ status
    → renewed saved status now ≡ saved
unfolding renewed
renewed-same saved status now h = ground (arith, h, eq_iff saved.ready_condition status)

renewed-status :
    (saved : ClusterData) (status : String) (now : ℕ)
    → (renewed saved status now).ready_condition ≡ status
unfolding renewed
renewed-status saved status now = ground (arith, eq_iff saved.ready_condition status)

calls-Holds :
    (cluster observed : String) (calls : List Call) (c : ClusterConditionStore)
    (entry : ClusterData)
    → entry.ready_condition ≡ observed
    → ((call : Call) → In call calls → Observes cluster observed call)
    → Holds cluster entry c
    → Returns (Holds cluster entry) (for_each calls step c)
calls-Holds cluster observed calls c entry same steady h =
    for_each-Returns (Holds cluster entry) calls step
      (λ call m d held.
        subst (λ e. Returns (Holds cluster e) (step call d))
          (renewed-same entry observed call.now same)
          (step-Holds cluster observed call d entry (steady call m) held))
      c h

-- What the last call reports, by the time from which the observed status is known.
abbrev pub Reported : Call → String → String → ℕ → List NodeCondition → Type 0
Reported call observed current start reported = reported ≡ (
    if flips observed current && not (leb (start + limit call observed) call.now)
    then call.current
    else call.observed)

pub last_report-Reported :
    (cluster observed current : String) (first : Call) (calls : List Call) (last : Call)
    (c : ClusterConditionStore) (saved : ClusterData)
    → get cluster c ≡ some saved
    → Observes cluster observed first
    → ((call : Call) → In call calls → Observes cluster observed call)
    → Reads cluster observed current last
    → Returns
        (Reported last observed current (renewed saved observed first.now).threshold_start_time)
        (last_report first calls last c)
unfolding last_report Adjusted
last_report-Reported cluster observed current first calls last c saved h begins steady ends =
    let entry = renewed saved observed first.now in
    let same = renewed-status saved observed first.now in
    let P = Reported last observed current entry.threshold_start_time in
    Returns-bind (Holds cluster entry) P (step first c) _
      (step-Holds cluster observed first c saved begins h)
      (λ c1 h1.
        Returns-bind (Holds cluster entry) P (for_each calls step c1) _
          (calls-Holds cluster observed calls c1 entry same steady h1)
          (λ c2 h2.
            Returns-bind (Adjusted observed current entry last) P
              (threshold_adjusted_ready_condition last c2) _
              (read-Adjusted cluster observed current last c2 entry ends
                (subst (λ k. Holds k entry c2) (sym ends.named) h2))
              (λ r a. told r a)))
  where
    told :
        (r : List NodeCondition × ClusterConditionStore)
        → Adjusted observed current (renewed saved observed first.now) last r
        → Reported last observed current (renewed saved observed first.now).threshold_start_time r.0
    told r a =
        let entry = renewed saved observed first.now in
        subst (λ (e : ClusterData). Reported last observed current e.threshold_start_time r.0)
          (renewed-same entry observed last.now (renewed-status saved observed first.now)) a.1
