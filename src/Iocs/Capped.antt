-- ===== src/Iocs/Capped.antt =====
-- The caps of the search of marlinspike/iocs.py against a search without them.
use net_discover.Prelude.{
  ℕ, suc, zero, ◌+◌, ◌-◌, ◌≤◌, List, [], ◌∷◌, ◌++◌, true, false, ◌≡◌, ◌∙◌, refl, sym, ap, arith,
  leb, ltb, length, length-take, take,
}
use net_discover.Iocs.Reports.{Texts, Report, Entry, Match}
use net_discover.Iocs.Scan.{
  max_hits_per_report, concat_map, candidates, record_hits, add_hit, scan_entries, scan_report,
}

-- The matches of a report's hits, one entry after the other.
abbrev pub matches_of : List (Entry × List Match) → List Match
matches_of hits = concat_map (λ h. h.1) hits

module _ {A : Type 0} where
  pub append_nil : (xs : List A) → xs ++ [] ≡ xs
  append_nil [] = refl
  append_nil (x ∷ xs) = ap (λ ys. x ∷ ys) (append_nil xs)

  pub append_assoc : (xs ys zs : List A) → (xs ++ ys) ++ zs ≡ xs ++ (ys ++ zs)
  append_assoc [] ys zs = refl
  append_assoc (x ∷ xs) ys zs = ap (λ us. x ∷ us) (append_assoc xs ys zs)

  pub take_nil : (k : ℕ) (xs : List A) → xs ≡ [] → take k xs ≡ []
  unfolding take
  take_nil zero xs e = refl
  take_nil (suc k) [] e = refl
  take_nil (suc k) (x ∷ xs) e = absurd (ground (arith, e))

  pub take-split :
      (k : ℕ) (xs ys : List A) → take k (xs ++ ys) ≡ take k xs ++ take (k - length (take k xs)) ys
  unfolding take
  take-split zero xs ys = refl
  take-split (suc k) [] ys =
      let whole : suc k ≡ suc k - 0 = omega arith in ap (λ m. take m ys) whole
  take-split (suc k) (x ∷ xs) ys =
      ap (λ us. x ∷ us) (take-split k xs ys) ∙ ap (λ m. x ∷ take k xs ++ take m ys) (omega arith)

  pub take_all : (k : ℕ) (xs : List A) → length xs ≤ k → take k xs ≡ xs
  unfolding take
  take_all zero [] le = refl
  take_all zero (x ∷ xs) le = absurd (omega (arith, le))
  take_all (suc k) [] le = refl
  take_all (suc k) (x ∷ xs) le = ap (λ us. x ∷ us) (take_all k xs (omega (arith, le)))

record_hits-take :
    (cs : List Match) (n k : ℕ) (ms : List Match)
    → n + k ≡ max_hits_per_report
    → record_hits cs n ms ≡ (n + length (take k cs), ms ++ take k cs)
unfolding record_hits take
record_hits-take [] n k ms at_cap =
    rw (take_nil {A = Match} k [] refl, append_nil ms) (ap (λ m. (m, ms)) (omega arith))
record_hits-take (c ∷ cs) n zero ms at_cap =
    let full : ltb n max_hits_per_report ≡ false = ground (arith, at_cap) in
    rw full (record_hits-take cs n zero ms at_cap)
record_hits-take (c ∷ cs) n (suc k) ms at_cap =
    let more : ltb n max_hits_per_report ≡ true = ground (arith, at_cap) in
    rw more (
      record_hits-take cs (suc n) k (ms ++ c ∷ []) (omega (arith, at_cap))
      ∙ rw (append_assoc ms (c ∷ []) (take k cs))
          (ap (λ m. (m, ms ++ c ∷ take k cs)) (omega arith)))

add_hit-matches :
    (e : Entry) (ms : List Match) (hits : List (Entry × List Match))
    → matches_of (add_hit e ms hits) ≡ ms ++ matches_of hits
unfolding add_hit concat_map
add_hit-matches e [] hits = refl
add_hit-matches e (m ∷ ms) hits = refl

module _ (texts : Texts) (r : Report) where
  scan_entries-take :
      (n k : ℕ) (es : List Entry)
      → n + k ≡ max_hits_per_report
      → matches_of (scan_entries texts r n es) ≡ take k (concat_map (candidates texts r) es)
  unfolding scan_entries concat_map take
  scan_entries-take n zero [] at_cap = refl
  scan_entries-take n (suc k) [] at_cap = refl
  scan_entries-take n zero (e ∷ es) at_cap =
      let full : leb max_hits_per_report n ≡ true = ground (arith, at_cap) in rw full refl
  scan_entries-take n (suc k) (e ∷ es) at_cap =
      let more : leb max_hits_per_report n ≡ false = ground (arith, at_cap) in
      let cs = candidates texts r e in
      let kept = take (suc k) cs in
      let room : n + length kept + (suc k - length kept) ≡ max_hits_per_report =
        omega (arith, at_cap, length-take (suc k) cs) in
      rw (more, record_hits-take cs n (suc k) [] at_cap)
        (add_hit-matches e kept (scan_entries texts r (n + length kept) es)
          ∙ ap (λ us. kept ++ us)
              (scan_entries-take (n + length kept) (suc k - length kept) es room)
          ∙ sym (take-split (suc k) cs (concat_map (candidates texts r) es)))

-- Before any hit.
pub scan_report-take :
    (texts : Texts) (r : Report) (es : List Entry)
    → matches_of (scan_report texts r es)
      ≡ take max_hits_per_report (concat_map (candidates texts r) es)
unfolding scan_report
scan_report-take texts r es = scan_entries-take texts r 0 max_hits_per_report es refl
