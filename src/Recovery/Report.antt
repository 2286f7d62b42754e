-- ===== src/Recovery/Report.antt =====
-- report_complete and _ingest_completed_report of marlinspike/recovery.py. A report that parses
-- is an object, as the engine writes it, and its bytes are UTF-8: on others report_complete raises,
-- which is left out; enrich.run_all is a parameter: the exception's text.
use Prim.Native.String
use net_discover.Prelude.{
  ℕ, String, List, [], ◌∷◌, Option, none, some, Bool, true, false, ◌&&◌, if◌then◌else◌, str_eq,
  length, contains,
}
use net_discover.Runs.Row.{
  completed, RecoveryState, ScanHistory, Database, reaped_completed, reaped_completed_degraded,
}
use net_discover.Runs.Store.{Finish, record_finish}
use net_discover.Recovery.Liveness.{is_empty}

pub record Topology : Type 0 where
  pub nodes : List String
  pub edges : List String

-- The keys of a report that recovery reads, at the top level and under "results". A missing list
-- is empty, as the code reads it.
pub record Report : Type 0 where
  pub completed_stages : List String
  pub topology : Option Topology
  pub results_completed_stages : List String
  pub results_topology : Option Topology

pub data ReportFile : Type 0 where
  missing unreadable : ReportFile
  parsed : Report → ReportFile

pub record Disk : Type 0 where
  pub report_file : String → ReportFile
  pub enrich : String → Option String

abbrev pub final_stage : String
final_stage = "Risk Surface Report"

-- `a or b` on lists.
abbrev or_list : List String → List String → List String
or_list [] ys = ys
or_list (x ∷ xs) ys = x ∷ xs

unfoldable pub stages_of : Report → List String
stages_of r = or_list r.completed_stages r.results_completed_stages

unfoldable pub topology_of : Report → Option Topology
topology_of r = elim r.results_topology [ some t ↦ some t | none ↦ r.topology ]

-- `report_path and os.path.isfile(report_path)`, and what is then read.
unfoldable pub open_report : Disk → Option String → ReportFile
open_report disk none = missing
open_report disk (some path) = if is_empty path then missing else disk.report_file path

unfoldable pub report_complete : Disk → Option String → Bool
unfolding open_report stages_of contains
report_complete disk path = elim (open_report disk path) [
  | missing ↦ false
  | unreadable ↦ false
  | parsed r ↦ contains final_stage (stages_of r)
]

-- `node_count, edge_count`: zero where the report does not parse.
unfoldable pub graph_size : Disk → Option String → ℕ × ℕ
unfolding open_report topology_of
graph_size disk path = elim (open_report disk path) [
  | parsed r ↦ elim (topology_of r) [ none ↦ (0, 0) | some t ↦ (length t.nodes, length t.edges) ]
  | _ ↦ (0, 0)
]

abbrev is_file : ReportFile → Bool
is_file missing = false
is_file _ = true

-- `degraded_reason`: enrichment runs for a "chain" whose report is a file.
unfoldable pub degraded_reason : Disk → ScanHistory → Option String
unfolding open_report
degraded_reason disk rec = elim rec.report_path [
  | none ↦ none
  | some path ↦
      if str_eq rec.command "chain" && is_file (open_report disk (some path))
      then elim (disk.enrich path) [
        | none ↦ none
        | some exc ↦ some (String.◌++◌ "enrichment incomplete during recovery: " exc)
      ]
      else none
]

-- `"reaped_completed_degraded" if degraded_reason else "reaped_completed"`
abbrev pub ingest_state : Option String → RecoveryState
ingest_state none = reaped_completed
ingest_state (some _) = reaped_completed_degraded

unfoldable pub ingest_finish : Disk → ScanHistory → Finish
ingest_finish disk rec =
    let (node_count, edge_count) = graph_size disk rec.report_path in
    let degraded = degraded_reason disk rec in
    record {
      status = completed;
      error_tail = degraded;
      node_count = some node_count;
      edge_count = some edge_count;
      recovery_state = some (ingest_state degraded);
    }

unfoldable pub ingest_completed_report : Bool → ℕ → Disk → ScanHistory → Database → Database
unfolding ingest_finish record_finish
ingest_completed_report commits now disk rec db =
    record_finish commits now rec.run_id (ingest_finish disk rec) db
