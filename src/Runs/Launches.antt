-- ===== src/Runs/Launches.antt =====
-- What record_start of marlinspike/run_store.py writes, as get reads it.
use net_discover.Prelude.{
  ℕ, String, List, [], ◌∷◌, Option, none, some, true, ◌≡◌, refl, arith, str_eq_iff, Option-cases,
  inl, inr,
}
use net_discover.Runs.Row.{running, ScanHistory, Database, find_run}
use net_discover.Runs.Store.{
  Launch, dump_argv, load_argv, deadline, fresh_row, start_row, upsert, record_start,
}
use net_discover.Runs.View.{RunView, view, get_run}
use net_discover.Runs.Rows.{find_run-modify_run}

-- An empty command line is stored as none.
abbrev pub or_none : Option (List String) → Option (List String)
or_none (some []) = none
or_none argv = argv

load_argv-dump_argv : (argv : Option (List String)) → load_argv (dump_argv argv) ≡ or_none argv
unfolding load_argv dump_argv
load_argv-dump_argv none = refl
load_argv-dump_argv (some []) = refl
load_argv-dump_argv (some (arg ∷ args)) = refl

find_run-upsert :
    (k : String) (new : ScanHistory) (f : ScanHistory → ScanHistory) (rows : List ScanHistory)
    → ((r : ScanHistory) → (f r).run_id ≡ r.run_id)
    → new.run_id ≡ k
    → find_run k (upsert k new f rows)
      ≡ some (elim (find_run k rows) [ none ↦ f new | some r ↦ f r ])
unfolding upsert find_run
find_run-upsert k new f rows keeps named = elim (Option-cases (find_run k rows)) [
  | inl unknown ↦
      ground (arith, unknown, keeps new, named, str_eq_iff k k, str_eq_iff (f new).run_id k)
  | inr (r, known) ↦ ground (arith, known, str_eq_iff k k, find_run-modify_run f keeps k k rows)
]

get_run-found :
    (k : String) (db : Database) (r : ScanHistory)
    → find_run k db.rows ≡ some r
    → get_run k db ≡ some (view r)
unfolding get_run
get_run-found k db r h = cc h

-- A scan that record_start recorded is read back by get, whether its row is new or was there: it is
-- running under the process and the command line that it was launched with, with its deadline, its
-- paths and no recovery state.
pub record_start-get_run :
    (now default_s : ℕ) (k : String) (l : Launch) (db : Database)
    → (after : Database) × (record_start true now default_s k l db ≡ some after)
      × (v : RunView) × (get_run k after ≡ some v)
      × (v.status ≡ running)
      × (v.engine_pid ≡ l.engine_pid)
      × (v.engine_argv ≡ or_none l.engine_argv)
      × (v.timeout_at ≡ deadline now default_s l.timeout_s)
      × (v.pcap_path ≡ some l.pcap_path)
      × (v.report_path ≡ some l.report_path)
      × (v.recovery_state ≡ none)
unfolding record_start view start_row fresh_row
record_start-get_run now default_s k l db =
    let f : ScanHistory → ScanHistory = start_row l (deadline now default_s l.timeout_s) in
    let new : ScanHistory = fresh_row now k l.user_id in
    let found : ScanHistory = elim (find_run k db.rows) [ none ↦ f new | some r ↦ f r ] in
    let argv = load_argv-dump_argv l.engine_argv in
    (
      record db { rows = upsert k new f db.rows },
      refl,
      view found,
      get_run-found k (record db { rows = upsert k new f db.rows }) found
          (find_run-upsert k new f db.rows (λ r. refl) refl),
      ground arith,
      ground arith,
      ground (arith, argv),
      ground arith,
      ground arith,
      ground arith,
      ground arith,
    )
