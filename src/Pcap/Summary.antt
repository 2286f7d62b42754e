-- ===== src/Pcap/Summary.antt =====
-- CaptureSummary of marlinspike/_pcap_header.py. A time is an exact fraction of a second, where the
-- code rounds to a float.
use net_discover.Prelude.{
  ℕ, suc, ◌*◌, String, List, [], ◌∷◌, Option, none, some, if◌then◌else◌, ◌==◌,
}

-- `ticks / divisor` seconds.
pub record Time : Type 0 where
  pub ticks : ℕ
  pub divisor : ℕ

-- `(plus - minus) / divisor` seconds: packets need not be in order.
pub record Duration : Type 0 where
  pub plus : ℕ
  pub minus : ℕ
  pub divisor : ℕ

-- A name of the table, or `LINKTYPE_` and the number.
pub data LinkType : Type 0 where
  name : String → LinkType
  numbered : ℕ → LinkType

pub data Format : Type 0 where
  pcap pcapng : Format

pub record CaptureSummary : Type 0 where
  pub packet_count : ℕ
  pub duration_seconds : Duration
  pub start_ts : Option Time
  pub end_ts : Option Time
  pub link_type : LinkType
  pub snaplen : ℕ
  pub format : Format

-- The ValueErrors, and the IndexError of a byte past the end of a block's options.
pub data Failure : Type 0 where
  too_short no_global_header no_shb not_shb index_error : Failure
  bad_magic bad_bom absurd_length : ℕ → Failure

pub data Outcome (A : Type 0) : Type 0 where
  ok : A → Outcome A
  raise : Failure → Outcome A

linktype_names : List (ℕ × String)
linktype_names =
    (0, "BSD loopback")
    ∷ (1, "Ethernet")
    ∷ (9, "PPP")
    ∷ (105, "IEEE 802.11")
    ∷ (113, "Linux cooked v1")
    ∷ (127, "IEEE 802.11 radiotap")
    ∷ (143, "DOCSIS")
    ∷ (147, "DLT_USER0")
    ∷ (148, "DLT_USER1")
    ∷ (195, "IEEE 802.15.4 with FCS")
    ∷ (228, "IPv4")
    ∷ (229, "IPv6")
    ∷ (276, "Linux cooked v2")
    ∷ []

-- `_LINKTYPE_NAMES.get(n, f"LINKTYPE_{n}")`
unfoldable pub link_name : ℕ → List (ℕ × String) → LinkType
link_name n [] = numbered n
link_name n ((k, label) ∷ rest) =
    let later = link_name n rest in if k == n then name label else later

unfoldable pub link_type_of : ℕ → LinkType
unfolding link_name linktype_names
link_type_of n = link_name n linktype_names

-- The packets seen so far: their number, and the first and the last time.
pub record Seen : Type 0 where
  pub packet_count : ℕ
  pub first_ts : Option Time
  pub last_ts : Option Time

abbrev pub none_seen : Seen
none_seen = record { packet_count = 0; first_ts = none; last_ts = none }

abbrev pub or_first : Option Time → Time → Option Time
or_first none t = some t
or_first (some u) t = some u

-- `if first_ts is None: first_ts = ts`, `last_ts = ts`, `packet_count += 1`
unfoldable pub see : Time → Seen → Seen
see t s = record {
  packet_count = suc s.packet_count;
  first_ts = or_first s.first_ts t;
  last_ts = some t;
}

unfoldable pub duration : Option Time → Option Time → Duration
duration (some first) (some last) = record {
  plus = last.ticks * first.divisor;
  minus = first.ticks * last.divisor;
  divisor = last.divisor * first.divisor;
}
duration _ _ = record { plus = 0; minus = 0; divisor = 1 }

unfoldable pub summarize : Seen → LinkType → ℕ → Format → CaptureSummary
unfolding duration
summarize s link snaplen format = record {
  packet_count = s.packet_count;
  duration_seconds = duration s.first_ts s.last_ts;
  start_ts = s.first_ts;
  end_ts = s.last_ts;
  link_type = link;
  snaplen = snaplen;
  format = format;
}
