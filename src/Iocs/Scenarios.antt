-- ===== src/Iocs/Scenarios.antt =====
-- Searches of small reports, for texts in lower case without blanks around them.
use net_discover.Prelude.{
  ℕ, zero, suc, String, List, [], ◌∷◌, Option, none, some, false, ◌≡◌, refl, map, take,
}
use net_discover.Capd.FileNames.{codes}
use net_discover.Iocs.Reports.{
  Text, Texts, ReportNode, name, object, Conversation, Report, IocType, Entry, domain_matches,
  base_of,
}
use net_discover.Iocs.Scan.{
  max_hits_per_report, max_hits_total, ReportHit, concat_map, candidates, scan_report, hits_of,
  scan_ioc_list_against_reports, total_hits,
}
use net_discover.Iocs.Summary.{by_severity, by_ioc_type, sum_of}
use net_discover.Iocs.Capped.{matches_of}
use net_discover.Iocs.Totals.{scan_ioc_list_against_reports-capped}

abbrev texts : Texts
texts = record { lower = λ t. t; strip = λ t. t; ip_address = λ t. none }

abbrev plain_node : Text → ReportNode
plain_node a = record { ip = a; mac = codes "00-1d-9c-aa-bb-cc" }

abbrev talk : Text → Text → Conversation
talk a b = record {
  src_ip = a;
  dst_ip = b;
  src_mac = [];
  dst_mac = [];
  dns_queries =
      name (codes "www.evil.com.")
      ∷ name (codes "notevil.com")
      ∷ object (codes "query" ∷ codes "evil.com" ∷ codes "a.evil.com" ∷ [])
      ∷ [];
}

abbrev report : Report
report = record {
  nodes = plain_node (codes "10.0.0.1") ∷ plain_node (codes "10.0.0.2") ∷ [];
  conversations = talk (codes "10.0.0.1") (codes "10.0.0.9") ∷ [];
  c2_indicators = [];
  risk_findings = (codes "10.0.0.1" ∷ codes "10.0.0.3" ∷ []) ∷ [];
  malware_findings = [];
}

abbrev entry : IocType → String → Entry
entry kind value = record {
  id = none;
  ioc_type = kind;
  value = codes value;
  label = none;
  severity = none;
}

abbrev locations : List (Entry × List (String × Text)) → List (List String)
locations hits = map (λ h. map (λ m. m.0) h.1) hits

by_address :
    locations (scan_report texts report (entry IocType.ip "10.0.0.1" ∷ []))
    ≡ ("node.ip" ∷ "conversation.src_ip" ∷ "risk_finding.affected_nodes" ∷ []) ∷ []
unfolding scan_report
by_address = refl

-- Dashes are colons, and three octets are enough.
by_oui :
    locations (scan_report texts report (entry IocType.oui "00:1d:9c" ∷ []))
    ≡ ("node.mac (oui)" ∷ "node.mac (oui)" ∷ []) ∷ []
unfolding scan_report
by_oui = refl

-- A lookalike does not match, and an object counts once.
by_domain :
    matches_of (scan_report texts report (entry IocType.domain "*.evil.com" ∷ []))
    ≡ ("conversation.dns_queries", codes "www.evil.com.")
      ∷ ("conversation.dns_queries", codes "evil.com")
      ∷ []
unfolding scan_report concat_map
by_domain = refl

no_base : domain_matches texts (base_of texts (codes "*.")) (codes "evil.com") ≡ false
unfolding domain_matches base_of
no_base = refl

abbrev copies : ℕ → List ReportNode
copies zero = []
copies (suc n) = plain_node (codes "10.0.0.1") ∷ copies n

abbrev busy : ℕ → Report
busy n = record report { nodes = copies n }

abbrev entries : List Entry
entries = entry IocType.ip "10.0.0.1" ∷ entry IocType.domain "evil.com" ∷ []

abbrev reports : List (String × Option Report)
reports = ("a.json", some report) ∷ ("b.json", none) ∷ ("c.json", some report) ∷ []

scan_ioc_list_against_reports-capped_example :
    ((scan_ioc_list_against_reports texts entries reports).hits
      ≡ take max_hits_total (concat_map (hits_of texts entries) reports))
    × ((scan_ioc_list_against_reports texts entries reports).truncated ≡ false
        → (scan_ioc_list_against_reports texts entries reports).hits
          ≡ concat_map (hits_of texts entries) reports)
    × ((r : Report)
        → matches_of (scan_report texts r entries)
          ≡ take max_hits_per_report (concat_map (candidates texts r) entries))
    × ((hits : List ReportHit) (lower : String → String)
        → (sum_of (by_severity lower hits) ≡ total_hits hits)
          × (sum_of (by_ioc_type hits) ≡ total_hits hits))
scan_ioc_list_against_reports-capped_example =
    scan_ioc_list_against_reports-capped texts entries reports

by_type :
    by_ioc_type (scan_ioc_list_against_reports texts entries reports).hits
    ≡ ("ip", 6) ∷ ("domain", 4) ∷ []
unfolding scan_ioc_list_against_reports by_ioc_type
by_type = refl

ten_matches : total_hits (scan_ioc_list_against_reports texts entries reports).hits ≡ 10
unfolding scan_ioc_list_against_reports total_hits
ten_matches = refl

-- Sixty nodes of the address fill the cap, so the second entry is not looked for; the result is not
-- marked truncated.
fifty_matches :
    total_hits (scan_ioc_list_against_reports texts entries (("a.json", some (busy 60)) ∷ [])).hits
    ≡ 50
unfolding scan_ioc_list_against_reports total_hits
fifty_matches = refl

not_marked :
    (scan_ioc_list_against_reports texts entries (("a.json", some (busy 60)) ∷ [])).truncated
    ≡ false
unfolding scan_ioc_list_against_reports
not_marked = refl
