-- ===== src/Tree/Conditions/Lasting.antt =====
-- A change of the readiness that lasts, and one that does not.
use kosmos.Base.{◌+◌, ◌≤◌, String, ◌≡◌, some, List, arith, In, Returns, Returns-mono}
use kosmos.Tree.Conditions.{ClusterData, ClusterConditionStore, Call, renewed, get}
use kosmos.Tree.Conditions.Debounced.{
  Reads, Observes, limit, last_report, Reported, last_report-Reported,
}

-- For a cluster whose saved data is not of a later time than the first of some calls, where all calls
-- observe one status, the last call does not panic, and it reports what was observed as soon as the
-- threshold has passed since the first call.
pub last_report-settled :
    (cluster observed current : String) (first : Call) (calls : List Call) (last : Call)
    (c : ClusterConditionStore) (saved : ClusterData)
    → get cluster c ≡ some saved
    → saved.threshold_start_time ≤ first.now
    → Observes cluster observed first
    → ((call : Call) → In call calls → Observes cluster observed call)
    → Reads cluster observed current last
    → first.now + limit last observed ≤ last.now
    → Returns (λ reported. reported ≡ last.observed) (last_report first calls last c)
unfolding renewed
last_report-settled cluster observed current first calls last c saved h before begins steady ends
      passed =
    Returns-mono
      (Reported last observed current (renewed saved observed first.now).threshold_start_time) _
      (last_report first calls last c)
      (λ reported told.
        let start : (renewed saved observed first.now).threshold_start_time ≤ first.now =
          ground (arith, before) in
        let due : (renewed saved observed first.now).threshold_start_time + limit last observed
            ≤ last.now =
          omega (arith, start, passed) in
        ground (arith, told, due))
      (last_report-Reported cluster observed current first calls last c saved h begins steady ends)
