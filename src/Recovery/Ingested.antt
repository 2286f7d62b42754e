-- ===== src/Recovery/Ingested.antt =====
-- What _ingest_completed_report of marlinspike/recovery.py counts, by the fields of the report.
use net_discover.Prelude.{
  ℕ, String, [], Option, none, some, true, ◌≡◌, refl, arith, length, Option-cases, inl, inr, ◌⊎◌,
  ◌∙◌, ap,
}
use net_discover.Recovery.Report.{
  Topology, Report, ReportFile, missing, unreadable, parsed, Disk, open_report, topology_of,
  report_complete, graph_size,
}

-- The topology of a report is the one under "results", or else the one at the top level, or else
-- empty.
abbrev pub IsTopology : Report → Topology → Type 0
IsTopology r t =
    (r.results_topology ≡ some t)
    ⊎ ((r.results_topology ≡ none)
        × ((r.topology ≡ some t) ⊎ ((r.topology ≡ none) × (t ≡ record { nodes = []; edges = [] }))))

-- The counts are those of the nodes and the edges in the topology of the report at the path.
pub record Ingested (disk : Disk) (report_path : Option String) (node_count edge_count : Option ℕ)
    : Type 0 where
  pub path : String
  pub report : Report
  pub topology : Topology
  pub at : report_path ≡ some path
  pub on_disk : disk.report_file path ≡ parsed report
  pub is_topology : IsTopology report topology
  pub nodes : node_count ≡ some (length topology.nodes)
  pub edges : edge_count ≡ some (length topology.edges)

ReportFile-cases :
    (f : ReportFile) → ((f ≡ missing) ⊎ (f ≡ unreadable)) ⊎ ((r : Report) × (f ≡ parsed r))
ReportFile-cases missing = inl (inl refl)
ReportFile-cases unreadable = inl (inr refl)
ReportFile-cases (parsed r) = inr (r, refl)

-- A report that parses has a topology, and graph_size counts it.
topology_of-IsTopology :
    (r : Report)
    → (t : Topology) × IsTopology r t
      × ((disk : Disk) (p : Option String)
          → open_report disk p ≡ parsed r
          → graph_size disk p ≡ (length t.nodes, length t.edges))
unfolding graph_size topology_of
topology_of-IsTopology r = elim (Option-cases r.results_topology) [
  | inr (t, inner) ↦ (t, inl inner, λ disk p is. rw (graph_size, is, inner) refl)
  | inl outer ↦ elim (Option-cases r.topology) [
    | inr (t, top) ↦ (t, inr (outer, inl top), λ disk p is. rw (graph_size, is, outer, top) refl)
    | inl bare ↦ (
      record { nodes = []; edges = [] },
      inr (outer, inr (bare, refl)),
      λ disk p is. rw (graph_size, is, outer, bare) refl,
    )
  ]
]

open_report-parsed :
    (disk : Disk) (report_path : Option String)
    → report_complete disk report_path ≡ true
    → (path : String) × (report : Report) × (report_path ≡ some path)
      × (disk.report_file path ≡ parsed report)
      × (open_report disk report_path ≡ parsed report)
unfolding report_complete open_report
open_report-parsed disk none complete = absurd (ground (arith, complete))
open_report-parsed disk (some path) complete = elim (ReportFile-cases (disk.report_file path)) [
  | inl none_read ↦ absurd (ground (arith, complete, none_read))
  | inr (r, is) ↦ (path, r, refl, is, ground (arith, complete, is))
]

pub complete-Ingested :
    (disk : Disk) (report_path : Option String) {n m : Option ℕ}
    → report_complete disk report_path ≡ true
    → n ≡ some (graph_size disk report_path).0
    → m ≡ some (graph_size disk report_path).1
    → Ingested disk report_path n m
complete-Ingested disk report_path complete nodes edges =
    let (path, r, at, is, open_is) = open_report-parsed disk report_path complete in
    let (t, topology, size) = topology_of-IsTopology r in
    let counted = size disk report_path open_is in
    record {
      path = path;
      report = r;
      topology = t;
      at = at;
      on_disk = is;
      is_topology = topology;
      nodes = nodes ∙ ap (λ c. some c.0) counted;
      edges = edges ∙ ap (λ c. some c.1) counted;
    }
