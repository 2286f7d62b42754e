-- ===== src/Iocs/Totals.antt =====
-- The hits over all reports of marlinspike/iocs.py against those of every report by itself.
use net_discover.Prelude.{
  ℕ, suc, zero, ◌+◌, ◌-◌, String, List, [], ◌∷◌, ◌++◌, Option, none, some, true, false, ◌≡◌, ◌∙◌,
  refl, sym, ap, arith, leb, length, length-append, length-take, take, Bool-cases, inl, inr,
}
use net_discover.Iocs.Reports.{Texts, Report, Entry}
use net_discover.Iocs.Scan.{
  max_hits_per_report, max_hits_total, concat_map, candidates, scan_report, ReportHit, append_hits,
  ScanResult, hits_of, scan_next, scan_all, scan_ioc_list_against_reports, total_hits,
}
use net_discover.Iocs.Summary.{by_severity, by_ioc_type, sum_of, sum-by_severity, sum-by_ioc_type}
use net_discover.Iocs.Capped.{
  matches_of, append_nil, append_assoc, take_nil, take-split, scan_report-take,
}

append_hits-take :
    (hits new : List ReportHit) (k : ℕ)
    → length hits + k ≡ max_hits_total
    → (append_hits hits new).0 ≡ hits ++ take k new
unfolding append_hits take
append_hits-take hits [] k at_cap = rw (take_nil {A = ReportHit} k [] refl) (sym (append_nil hits))
append_hits-take hits (h ∷ rest) zero at_cap =
    let full : leb max_hits_total (length hits) ≡ true = ground (arith, at_cap) in
    rw full (sym (append_nil hits))
append_hits-take hits (h ∷ rest) (suc k) at_cap =
    let more : leb max_hits_total (length hits) ≡ false = ground (arith, at_cap) in
    rw more (
      append_hits-take (hits ++ h ∷ []) rest k (omega (arith, at_cap, length-append hits (h ∷ [])))
      ∙ append_assoc hits (h ∷ []) (take k rest))

-- A report whose hits were not cut short was taken whole.
append_hits-whole :
    (hits new : List ReportHit)
    → (append_hits hits new).1 ≡ false
    → (append_hits hits new).0 ≡ hits ++ new
unfolding append_hits
append_hits-whole hits [] = λ whole. sym (append_nil hits)
append_hits-whole hits (h ∷ rest) = elim (Bool-cases (leb max_hits_total (length hits))) [
  | inl full ↦ rw full (λ whole. absurd (ground (arith, whole)))
  | inr more ↦
      rw more
        (λ whole. append_hits-whole (hits ++ h ∷ []) rest whole ∙ append_assoc hits (h ∷ []) rest)
]

module _ (texts : Texts) (entries : List Entry) where
  scan_next-hits :
      (p : String × Option Report) (s : ScanResult) (k : ℕ)
      → length s.hits + k ≡ max_hits_total
      → (scan_next texts entries p s).hits ≡ s.hits ++ take k (hits_of texts entries p)
  unfolding scan_next hits_of
  scan_next-hits (filename, none) s k at_cap =
      rw (take_nil {A = ReportHit} k [] refl) (sym (append_nil s.hits))
  scan_next-hits (filename, some r) s k at_cap =
      append_hits-take s.hits (hits_of texts entries (filename, some r)) k at_cap

  scan_all-hits :
      (ps : List (String × Option Report)) (s : ScanResult) (k : ℕ)
      → length s.hits + k ≡ max_hits_total
      → (scan_all texts entries ps s).hits
        ≡ s.hits ++ take k (concat_map (hits_of texts entries) ps)
  unfolding scan_all concat_map take
  scan_all-hits [] s k at_cap = rw (take_nil {A = ReportHit} k [] refl) (sym (append_nil s.hits))
  scan_all-hits (p ∷ ps) s zero at_cap =
      let full : leb max_hits_total (length s.hits) ≡ true = ground (arith, at_cap) in
      rw full (sym (append_nil s.hits))
  scan_all-hits (p ∷ ps) s (suc k) at_cap =
      let more : leb max_hits_total (length s.hits) ≡ false = ground (arith, at_cap) in
      let new = hits_of texts entries p in
      let kept = take (suc k) new in
      let here = scan_next-hits p s (suc k) at_cap in
      let room : length (scan_next texts entries p s).hits + (suc k - length kept)
          ≡ max_hits_total =
        omega (arith, at_cap, ap length here, length-append s.hits kept, length-take (suc k) new) in
      rw more (
        scan_all-hits ps (scan_next texts entries p s) (suc k - length kept) room
        ∙ ap (λ us. us ++ take (suc k - length kept) (concat_map (hits_of texts entries) ps)) here
        ∙ append_assoc s.hits kept
            (take (suc k - length kept) (concat_map (hits_of texts entries) ps))
        ∙ ap (λ us. s.hits ++ us)
            (sym (take-split (suc k) new (concat_map (hits_of texts entries) ps))))

  scan_next-truncated :
      (p : String × Option Report) (s : ScanResult)
      → (scan_next texts entries p s).truncated ≡ false
      → (s.truncated ≡ false)
        × ((scan_next texts entries p s).hits ≡ s.hits ++ hits_of texts entries p)
  unfolding scan_next hits_of
  scan_next-truncated (filename, none) s = λ whole. (whole, sym (append_nil s.hits))
  scan_next-truncated (filename, some r) s =
      let new = hits_of texts entries (filename, some r) in
      elim (Bool-cases (append_hits s.hits new).1) [
        | inl cut ↦ rw cut (λ whole. absurd (ground (arith, whole)))
        | inr uncut ↦ rw uncut (λ whole. (whole, append_hits-whole s.hits new uncut))
      ]

  scan_all-whole :
      (ps : List (String × Option Report)) (s : ScanResult)
      → (scan_all texts entries ps s).truncated ≡ false
      → (s.truncated ≡ false)
        × ((scan_all texts entries ps s).hits ≡ s.hits ++ concat_map (hits_of texts entries) ps)
  unfolding scan_all concat_map
  scan_all-whole [] s = λ whole. (whole, sym (append_nil s.hits))
  scan_all-whole (p ∷ ps) s = elim (Bool-cases (leb max_hits_total (length s.hits))) [
    | inl full ↦ rw full (λ whole. absurd (ground (arith, whole)))
    | inr more ↦ rw more (λ whole.
        let rest = scan_all-whole ps (scan_next texts entries p s) whole in
        let here = scan_next-truncated p s rest.0 in
        (
          here.0,
          rest.1
              ∙ ap (λ us. us ++ concat_map (hits_of texts entries) ps) here.1
              ∙ append_assoc s.hits (hits_of texts entries p)
                  (concat_map (hits_of texts entries) ps),
        ))
  ]

  -- Searching reports gives the first thousand of the hits that each report gives by itself, in
  -- order, and all of them where the result is not marked truncated; the matches of a report are
  -- the first fifty of those that its fields give entry after entry; and the summary's counts by
  -- severity and by type each add up to the number of matches.
  pub scan_ioc_list_against_reports-capped :
      (reports : List (String × Option Report))
      → ((scan_ioc_list_against_reports texts entries reports).hits
          ≡ take max_hits_total (concat_map (hits_of texts entries) reports))
        × ((scan_ioc_list_against_reports texts entries reports).truncated ≡ false
            → (scan_ioc_list_against_reports texts entries reports).hits
              ≡ concat_map (hits_of texts entries) reports)
        × ((r : Report)
            → matches_of (scan_report texts r entries)
              ≡ take max_hits_per_report (concat_map (candidates texts r) entries))
        × ((hits : List ReportHit) (lower : String → String)
            → (sum_of (by_severity lower hits) ≡ total_hits hits)
              × (sum_of (by_ioc_type hits) ≡ total_hits hits))
  unfolding scan_ioc_list_against_reports
  scan_ioc_list_against_reports-capped reports =
      let nothing : ScanResult = record { scanned_reports = 0; hits = []; truncated = false } in
      (
        scan_all-hits reports nothing max_hits_total refl,
        λ whole. (scan_all-whole reports nothing whole).1,
        λ r. scan_report-take texts r entries,
        λ hits lower. (sum-by_severity lower hits, sum-by_ioc_type hits),
      )
