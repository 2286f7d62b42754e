-- ===== src/Iocs/Scan.antt =====
-- The search itself: _scan_report and scan_ioc_list_against_reports of marlinspike/iocs.py.
use net_discover.Prelude.{
  ℕ, suc, ◌+◌, String, List, [], ◌∷◌, ◌++◌, Option, none, some, Bool, true, false, leb, ltb,
  if◌then◌else◌, map, take, length,
}
use net_discover.Upload.Disk.{path_eq}
use net_discover.Iocs.Reports.{
  Text, Texts, DnsQuery, name, object, Report, ip, mac, oui, domain, sha256, md5, Entry, Match,
  norm_mac, norm_ip, norm_value, base_of, domain_matches,
}

-- _MAX_HITS_PER_REPORT and _MAX_HITS_TOTAL
abbrev pub max_hits_per_report : ℕ
max_hits_per_report = 50

abbrev pub max_hits_total : ℕ
max_hits_total = 1000

unfoldable pub concat_map : {A : Type 0} → {B : Type 0} → (A → List B) → List A → List B
concat_map f [] = []
concat_map f (x ∷ xs) = f x ++ concat_map f xs

-- A field that equals the value that is looked for.
unfoldable pub hit : String → Text → Text → List Match
unfolding path_eq
hit location norm v = if path_eq v norm then (location, v) ∷ [] else []

-- The first text of an object that matches.
unfoldable pub first_match : (Text → Bool) → List Text → List Match
first_match p [] = []
first_match p (t ∷ ts) =
    let rest = first_match p ts in if p t then ("conversation.dns_queries", t) ∷ [] else rest

module _ (texts : Texts) where
  unfoldable pub ip_hits : Text → Report → List Match
  unfolding concat_map hit norm_ip
  ip_hits norm r =
      concat_map (λ n. hit "node.ip" norm (norm_ip texts n.ip)) r.nodes
      ++ concat_map
          (λ c.
            hit "conversation.src_ip" norm (norm_ip texts c.src_ip)
            ++ hit "conversation.dst_ip" norm (norm_ip texts c.dst_ip))
          r.conversations
      ++ concat_map
          (λ i.
            hit "c2_indicator.dst" norm (norm_ip texts i.dst)
            ++ hit "c2_indicator.src" norm (norm_ip texts i.src))
          r.c2_indicators
      ++ concat_map
          (concat_map (λ v.
            if path_eq (norm_ip texts v) norm then ("risk_finding.affected_nodes", v) ∷ [] else []))
          r.risk_findings

  unfoldable pub mac_hits : Text → Report → List Match
  unfolding concat_map hit norm_mac
  mac_hits norm r =
      concat_map (λ n. hit "node.mac" norm (norm_mac texts n.mac)) r.nodes
      ++ concat_map
          (λ c.
            hit "conversation.src_mac" norm (norm_mac texts c.src_mac)
            ++ hit "conversation.dst_mac" norm (norm_mac texts c.dst_mac))
          r.conversations
      ++ concat_map
          (λ i.
            hit "c2_indicator.dst_mac" norm (norm_mac texts i.dst_mac)
            ++ hit "c2_indicator.src_mac" norm (norm_mac texts i.src_mac))
          r.c2_indicators

  -- The first three octets.
  unfoldable pub oui_hit : String → Text → Text → List Match
  unfolding norm_mac take path_eq
  oui_hit location norm v =
      let m = norm_mac texts v in if path_eq (take 8 m) norm then (location, m) ∷ [] else []

  unfoldable pub oui_hits : Text → Report → List Match
  unfolding concat_map oui_hit
  oui_hits norm r =
      concat_map (λ n. oui_hit "node.mac (oui)" norm n.mac) r.nodes
      ++ concat_map
          (λ c.
            oui_hit "conversation.src_mac (oui)" norm c.src_mac
            ++ oui_hit "conversation.dst_mac (oui)" norm c.dst_mac)
          r.conversations

  unfoldable pub query_hits : Text → DnsQuery → List Match
  unfolding domain_matches first_match
  query_hits base (name q) =
      if domain_matches texts base q then ("conversation.dns_queries", q) ∷ [] else []
  query_hits base (object ts) = first_match (domain_matches texts base) ts

  unfoldable pub domain_hits : Text → Report → List Match
  unfolding concat_map query_hits base_of
  domain_hits norm r =
      concat_map (λ c. concat_map (query_hits (base_of texts norm)) c.dns_queries) r.conversations

  -- What the entry is recorded for, as long as there is room.
  unfoldable pub candidates : Report → Entry → List Match
  unfolding norm_value ip_hits mac_hits oui_hits domain_hits concat_map hit
  candidates r e =
      let norm = norm_value texts e.ioc_type e.value in
      elim e.ioc_type [
        | ip ↦ ip_hits norm r
        | mac ↦ mac_hits norm r
        | oui ↦ oui_hits norm r
        | domain ↦ domain_hits norm r
        | sha256 ↦
            concat_map (λ f. hit "malware_finding.sha256" norm (texts.lower f.sha256))
              r.malware_findings
        | md5 ↦
            concat_map (λ f. hit "malware_finding.md5" norm (texts.lower f.md5)) r.malware_findings
      ]

-- `_record` for each candidate: the number of hits, and those of the entry.
unfoldable pub record_hits : List Match → ℕ → List Match → ℕ × List Match
record_hits [] n ms = (n, ms)
record_hits (m ∷ rest) n ms =
    if ltb n max_hits_per_report
    then record_hits rest (suc n) (ms ++ m ∷ [])
    else record_hits rest n ms

unfoldable pub add_hit : Entry → List Match → List (Entry × List Match) → List (Entry × List Match)
add_hit e [] hits = hits
add_hit e (m ∷ ms) hits = (e, m ∷ ms) ∷ hits

module _ (texts : Texts) where
  -- The loop over the entries after `n` hits.
  unfoldable pub scan_entries : Report → ℕ → List Entry → List (Entry × List Match)
  unfolding candidates record_hits add_hit
  scan_entries r n [] = []
  scan_entries r n (e ∷ es) =
      let (n', matches) = record_hits (candidates texts r e) n [] in
      let rest = scan_entries r n' es in
      if leb max_hits_per_report n then [] else add_hit e matches rest

  unfoldable pub scan_report : Report → List Entry → List (Entry × List Match)
  unfolding scan_entries
  scan_report r es = scan_entries r 0 es

-- A hit of the payload: the report it is in, by the basename of its path, and the entry's hit.
abbrev pub ReportHit : Type 0
ReportHit = String × (Entry × List Match)

-- The loop over a report's hits: those kept, and whether it was cut short.
unfoldable pub append_hits : List ReportHit → List ReportHit → List ReportHit × Bool
unfolding length
append_hits hits [] = (hits, false)
append_hits hits (h ∷ rest) =
    let more = append_hits (hits ++ h ∷ []) rest in
    if leb max_hits_total (length hits) then (hits, true) else more

pub record ScanResult : Type 0 where
  pub scanned_reports : ℕ
  pub hits : List ReportHit
  pub truncated : Bool

module _ (texts : Texts) (entries : List Entry) where
  unfoldable pub hits_of : String × Option Report → List ReportHit
  unfolding scan_report
  hits_of (filename, none) = []
  hits_of (filename, some r) = map (λ h. (filename, h)) (scan_report texts r entries)

  unfoldable pub scan_next : String × Option Report → ScanResult → ScanResult
  unfolding append_hits hits_of
  scan_next (filename, none) s = s
  scan_next (filename, some r) s =
      let (hits, cut) = append_hits s.hits (hits_of (filename, some r)) in
      record {
        scanned_reports = suc s.scanned_reports;
        hits = hits;
        truncated = if cut then true else s.truncated;
      }

  -- The reports by the basenames of their paths, `none` where the loader raised or gave no object.
  unfoldable pub scan_all : List (String × Option Report) → ScanResult → ScanResult
  unfolding scan_next length
  scan_all [] s = s
  scan_all (p ∷ rest) s =
      let next = scan_all rest (scan_next p s) in
      if leb max_hits_total (length s.hits) then record s { truncated = true } else next

  unfoldable pub scan_ioc_list_against_reports : List (String × Option Report) → ScanResult
  unfolding scan_all
  scan_ioc_list_against_reports reports =
      scan_all reports (record { scanned_reports = 0; hits = []; truncated = false })

-- `total_hits` of the summary.
unfoldable pub total_hits : List ReportHit → ℕ
unfolding length
total_hits [] = 0
total_hits ((filename, (e, ms)) ∷ rest) = length ms + total_hits rest
