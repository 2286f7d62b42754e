-- ===== src/Runs/Claims.antt =====
-- The coordination of reapers and live workers in marlinspike/run_store.py: conditional updates
-- that the database serialises, from any number of processes and in any order.
use net_discover.Prelude.{
  ℕ, suc, ◌+◌, ◌≤◌, String, List, [], ◌∷◌, Option, none, some, Bool, true, false, ◌&&◌, ◌≡◌, refl,
  arith, if◌then◌else◌, str_eq, str_eq_iff, count_where, All,
}
use net_discover.Runs.Row.{
  claimed, finalizing, ScanHistory, Database, is_running, is_none, is_finalizing, find_run,
}
use net_discover.Runs.Store.{
  Finish, finish_row, record_finish, set_state, claimable, reclaimable, markable,
  claim_for_recovery, reclaim_finalizing, mark_finalizing, pid_row, update_pid,
}
use net_discover.Runs.Rows.{
  IsUnique, find_run-modify_run, find_run-update_where, modify_run-IsUnique, update_where-IsUnique,
  count_where-matched,
}

-- One statement of some process, with what the database answers to its commit.
pub data Op : Type 0 where
  claim reclaim mark : (commits : Bool) → Op
  finish : (commits : Bool) (now : ℕ) (f : Finish) → Op
  move_pid : (commits : Bool) (pid : Option ℕ) (argv : Option (List String)) → Op

pub record Call : Type 0 where
  pub target : String
  pub op : Op

-- The call's answer, true where its caller now owns the run, and the database after it.
unfoldable pub run_call : Call → Database → Bool × Database
run_call c db = elim c.op [
  | claim b ↦ claim_for_recovery b c.target db
  | reclaim b ↦ reclaim_finalizing b c.target db
  | mark b ↦ (false, mark_finalizing b c.target db)
  | finish b now f ↦ (false, record_finish b now c.target f db)
  | move_pid b pid argv ↦ (false, update_pid b c.target pid argv db)
]

-- How many of the calls won the run `k`.
unfoldable pub wins : String → List Call → Database → ℕ
wins k [] db = 0
wins k (c ∷ cs) db =
    let (won, after) = run_call c db in
    let rest = wins k cs after in if won && str_eq c.target k then suc rest else rest

abbrev is_mark_of : String → Call → Bool
is_mark_of k c = str_eq c.target k && (elim c.op [ mark b ↦ true | _ ↦ false ])

-- How often a live worker announced that it finalises the run `k`.
unfoldable pub marks : String → List Call → ℕ
unfolding count_where
marks k cs = count_where (is_mark_of k) cs

-- A `record_finish` that leaves the run in a terminal status.
abbrev pub EndsRun : Call → Type 0
EndsRun c = elim c.op [ finish b now f ↦ is_running f.status ≡ false | _ ↦ Unit ]

-- What a reaper can still win of a row: 1 while it is running and not yet taken.
abbrev open_row : Option ScanHistory → ℕ
open_row none = 0
open_row (some r) =
    if is_running r.status
    then elim r.recovery_state [ none ↦ 1 | some finalizing ↦ 1 | _ ↦ 0 ]
    else 0

abbrev Counts : String → Call → Database → Bool → Database → Type 0
Counts k c db won after =
    (if won && str_eq c.target k then 1 else 0) + open_row (find_run k after.rows)
    ≤ open_row (find_run k db.rows) + (if is_mark_of k c then 1 else 0)

module _ (k j : String) (db : Database) (u : IsUnique db.rows) where
  claim-Counts :
      (b : Bool)
      → Counts k
          (record { target = j; op = claim b })
          db
          (claim_for_recovery b j db).0
          (claim_for_recovery b j db).1
  unfolding claim_for_recovery
  claim-Counts false = omega arith
  claim-Counts true =
      let q : ScanHistory → Bool = λ r. is_running r.status && is_none r.recovery_state in
      ground (
        arith,
        str_eq_iff j k,
        count_where-matched j q db.rows u,
        find_run-update_where (set_state claimed) (λ r. refl) j k q db.rows,
      )

  reclaim-Counts :
      (b : Bool)
      → Counts k
          (record { target = j; op = reclaim b })
          db
          (reclaim_finalizing b j db).0
          (reclaim_finalizing b j db).1
  unfolding reclaim_finalizing
  reclaim-Counts false = omega arith
  reclaim-Counts true =
      let q : ScanHistory → Bool = λ r. is_running r.status && is_finalizing r.recovery_state in
      ground (
        arith,
        str_eq_iff j k,
        count_where-matched j q db.rows u,
        find_run-update_where (set_state claimed) (λ r. refl) j k q db.rows,
      )

  mark-Counts :
      (b : Bool) → Counts k (record { target = j; op = mark b }) db false (mark_finalizing b j db)
  unfolding mark_finalizing
  mark-Counts false = omega arith
  mark-Counts true = ground (
    arith,
    str_eq_iff j k,
    find_run-update_where (set_state finalizing) (λ r. refl) j k (λ r. is_running r.status) db.rows,
  )

  finish-Counts :
      (b : Bool) (now : ℕ) (f : Finish)
      → is_running f.status ≡ false
      → Counts k (record { target = j; op = finish b now f }) db false (record_finish b now j f db)
  unfolding record_finish
  finish-Counts b now f h =
      ground (arith, str_eq_iff j k, find_run-modify_run (finish_row now f) (λ r. refl) j k db.rows)

  move_pid-Counts :
      (b : Bool) (pid : Option ℕ) (argv : Option (List String))
      → Counts k
          (record { target = j; op = move_pid b pid argv })
          db
          false
          (update_pid b j pid argv db)
  unfolding update_pid
  move_pid-Counts b pid argv =
      ground (arith, str_eq_iff j k, find_run-modify_run (pid_row pid argv) (λ r. refl) j k db.rows)

  run_call-IsUnique : (op : Op) → IsUnique (run_call (record { target = j; op = op }) db).1.rows
  unfolding run_call claim_for_recovery reclaim_finalizing mark_finalizing record_finish update_pid
  run_call-IsUnique (claim true) =
      update_where-IsUnique (set_state claimed) (λ r. refl) (claimable j) db.rows u
  run_call-IsUnique (reclaim true) =
      update_where-IsUnique (set_state claimed) (λ r. refl) (reclaimable j) db.rows u
  run_call-IsUnique (mark true) =
      update_where-IsUnique (set_state finalizing) (λ r. refl) (markable j) db.rows u
  run_call-IsUnique (claim false) = u
  run_call-IsUnique (reclaim false) = u
  run_call-IsUnique (mark false) = u
  run_call-IsUnique (finish b now f) =
      ground (arith, u, modify_run-IsUnique (finish_row now f) (λ r. refl) j db.rows)
  run_call-IsUnique (move_pid true pid argv) =
      modify_run-IsUnique (pid_row pid argv) (λ r. refl) j db.rows u
  run_call-IsUnique (move_pid false pid argv) = u

run_call-Counts :
    (k : String) (c : Call) (db : Database)
    → IsUnique db.rows
    → EndsRun c
    → Counts k c db (run_call c db).0 (run_call c db).1
unfolding run_call
run_call-Counts k c db u = go c.op
  where
    go :
        (op : Op)
        → EndsRun (record { target = c.target; op = op })
        → Counts k
            (record { target = c.target; op = op })
            db
            (run_call (record { target = c.target; op = op }) db).0
            (run_call (record { target = c.target; op = op }) db).1
    go (claim b) e = claim-Counts k c.target db u b
    go (reclaim b) e = reclaim-Counts k c.target db u b
    go (mark b) e = mark-Counts k c.target db u b
    go (finish b now f) e = finish-Counts k c.target db u b now f e
    go (move_pid b pid argv) e = move_pid-Counts k c.target db u b pid argv

wins-marks-open :
    (k : String) (cs : List Call) (db : Database)
    → IsUnique db.rows
    → All EndsRun cs
    → wins k cs db ≤ open_row (find_run k db.rows) + marks k cs
unfolding wins marks count_where
wins-marks-open k [] db u e = omega arith
wins-marks-open k (c ∷ cs) db u e = ground (
  arith,
  run_call-Counts k c db u e.0,
  wins-marks-open k cs (run_call c db).1 (run_call-IsUnique k c.target db u c.op) e.1,
)

open_row-le : (o : Option ScanHistory) → open_row o ≤ 1
open_row-le o = ground arith

-- However the statements of any number of reapers and live workers interleave over a table with
-- unique run ids, and whichever of them fail to commit, a run is won at most once more than a
-- live worker has marked it as finalizing; `record_finish` is taken to end in a terminal status.
pub wins-le-marks :
    (k : String) (cs : List Call) (db : Database)
    → IsUnique db.rows
    → All EndsRun cs
    → wins k cs db ≤ 1 + marks k cs
wins-le-marks k cs db u e =
    omega (arith, wins-marks-open k cs db u e, open_row-le (find_run k db.rows))
