-- ===== src/Iocs/Summary.antt =====
-- The summary of a search: the end of scan_ioc_list_against_reports of marlinspike/iocs.py. A
-- dictionary lists its keys in the order in which they came.
use net_discover.Prelude.{
  ℕ, ◌+◌, String, List, [], ◌∷◌, none, some, ◌≡◌, arith, if◌then◌else◌, str_eq, length,
}
use net_discover.Fleet.Gateway.{given_text}
use net_discover.Iocs.Reports.{IocType, ip, mac, oui, domain, sha256, md5, Entry}
use net_discover.Iocs.Scan.{ReportHit, total_hits}

-- `d[key] = d.get(key, 0) + n`
unfoldable pub add_count : String → ℕ → List (String × ℕ) → List (String × ℕ)
add_count key n [] = (key, n) ∷ []
add_count key n ((k, m) ∷ rest) =
    let more = add_count key n rest in if str_eq k key then (k, m + n) ∷ rest else (k, m) ∷ more

unfoldable pub type_text : IocType → String
type_text ip = "ip"
type_text mac = "mac"
type_text oui = "oui"
type_text domain = "domain"
type_text sha256 = "sha256"
type_text md5 = "md5"

unfoldable pub severity_of : (String → String) → Entry → String
unfolding given_text
severity_of lower e = lower (elim (given_text e.severity) [ none ↦ "unknown" | some t ↦ t ])

-- The counts by a key of the entries, after those so far.
unfoldable pub counts_by : (Entry → String) → List ReportHit → List (String × ℕ) → List (String × ℕ)
unfolding add_count
counts_by key [] d = d
counts_by key ((filename, (e, ms)) ∷ rest) d = counts_by key rest (add_count (key e) (length ms) d)

unfoldable pub by_severity : (String → String) → List ReportHit → List (String × ℕ)
unfolding counts_by severity_of
by_severity lower hits = counts_by (severity_of lower) hits []

unfoldable pub by_ioc_type : List ReportHit → List (String × ℕ)
unfolding counts_by type_text
by_ioc_type hits = counts_by (λ e. type_text e.ioc_type) hits []

unfoldable pub sum_of : List (String × ℕ) → ℕ
sum_of [] = 0
sum_of ((k, n) ∷ rest) = n + sum_of rest

sum-add_count :
    (key : String) (n : ℕ) (d : List (String × ℕ)) → sum_of (add_count key n d) ≡ sum_of d + n
unfolding sum_of add_count
sum-add_count key n [] = omega arith
sum-add_count key n ((k, m) ∷ rest) = ground (arith, sum-add_count key n rest)

sum-counts_by :
    (key : Entry → String) (hits : List ReportHit) (d : List (String × ℕ))
    → sum_of (counts_by key hits d) ≡ sum_of d + total_hits hits
unfolding counts_by total_hits
sum-counts_by key [] d = omega arith
sum-counts_by key ((filename, (e, ms)) ∷ rest) d = omega (
  arith,
  sum-counts_by key rest (add_count (key e) (length ms) d),
  sum-add_count (key e) (length ms) d,
)

pub sum-by_severity :
    (lower : String → String) (hits : List ReportHit)
    → sum_of (by_severity lower hits) ≡ total_hits hits
unfolding by_severity sum_of
sum-by_severity lower hits = omega (arith, sum-counts_by (severity_of lower) hits [])

pub sum-by_ioc_type : (hits : List ReportHit) → sum_of (by_ioc_type hits) ≡ total_hits hits
unfolding by_ioc_type sum_of
sum-by_ioc_type hits = omega (arith, sum-counts_by (λ e. type_text e.ioc_type) hits [])
