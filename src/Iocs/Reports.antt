-- ===== src/Iocs/Reports.antt =====
-- What the search reads of a report, and how values are compared: marlinspike/iocs.py. A text is its
-- code points; a field that is missing is the empty text. `Texts` is what Python's `str` and
-- ipaddress do: `lower`, `strip`, and the text of a parsed address.
use net_discover.Prelude.{
  ℕ, String, List, [], ◌∷◌, Option, none, some, Bool, true, false, not, ◌&&◌, ◌||◌, ◌==◌,
  if◌then◌else◌, map, take, drop,
}
use net_discover.Capd.FileNames.{codes}
use net_discover.Upload.Disk.{path_eq}
use net_discover.Upload.Paths.{ends_with}

abbrev pub Text : Type 0
Text = List ℕ

pub record Texts : Type 0 where
  pub lower : Text → Text
  pub strip : Text → Text
  pub ip_address : Text → Option Text

pub record ReportNode : Type 0 where
  pub ip : Text
  pub mac : Text

-- A query is a text, or an object by the texts in it.
pub data DnsQuery : Type 0 where
  name : Text → DnsQuery
  object : List Text → DnsQuery

pub record Conversation : Type 0 where
  pub src_ip : Text
  pub dst_ip : Text
  pub src_mac : Text
  pub dst_mac : Text
  pub dns_queries : List DnsQuery

pub record Indicator : Type 0 where
  pub dst : Text
  pub src : Text
  pub dst_mac : Text
  pub src_mac : Text

pub record MalwareFinding : Type 0 where
  pub sha256 : Text
  pub md5 : Text

-- Of a risk finding, the texts in its affected nodes.
pub record Report : Type 0 where
  pub nodes : List ReportNode
  pub conversations : List Conversation
  pub c2_indicators : List Indicator
  pub risk_findings : List (List Text)
  pub malware_findings : List MalwareFinding

pub data IocType : Type 0 where
  ip mac oui domain sha256 md5 : IocType

pub record Entry : Type 0 where
  pub id : Option ℕ
  pub ioc_type : IocType
  pub value : Text
  pub label : Option String
  pub severity : Option String

-- The location and the context of a match.
abbrev pub Match : Type 0
Match = String × Text

-- `v.replace("-", ":")`
abbrev pub dash_to_colon : ℕ → ℕ
dash_to_colon c = if c == b'-' then b':' else c

-- `s.rstrip(".")`
unfoldable pub rstrip_dots : Text → Text
rstrip_dots [] = []
rstrip_dots (c ∷ cs) = elim (rstrip_dots cs) [
  | [] ↦ if c == b'.' then [] else c ∷ []
  | d ∷ ds ↦ c ∷ d ∷ ds
]

abbrev pub is_empty : Text → Bool
is_empty [] = true
is_empty (c ∷ cs) = false

module _ (texts : Texts) where
  unfoldable pub norm_mac : Text → Text
  norm_mac v = texts.lower (map dash_to_colon v)

  unfoldable pub norm_ip : Text → Text
  norm_ip v = elim (texts.ip_address v) [ none ↦ texts.lower v | some a ↦ a ]

  unfoldable pub norm_value : IocType → Text → Text
  unfolding norm_ip norm_mac
  norm_value ip v = norm_ip v
  norm_value mac v = norm_mac v
  norm_value oui v = norm_mac v
  norm_value _ v = texts.lower v

  -- The base of a domain without its `*.`
  unfoldable pub base_of : Text → Text
  unfolding path_eq take drop
  base_of norm = if path_eq (take 2 norm) (codes "*.") then drop 2 norm else norm

  unfoldable pub domain_matches : Text → Text → Bool
  unfolding rstrip_dots path_eq ends_with
  domain_matches base candidate =
      let c = rstrip_dots (texts.strip (texts.lower candidate)) in
      not (is_empty base) && (path_eq c base || ends_with (b'.' ∷ base) c)
