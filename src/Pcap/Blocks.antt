-- ===== src/Pcap/Blocks.antt =====
-- _read_pcapng of marlinspike/_pcap_header.py: the walk over the blocks of a pcapng file. `none` is
-- a loop that has run out of fuel.
use net_discover.Prelude.{
  ℕ, zero, suc, ◌+◌, ◌-◌, ◌*◌, ◌/◌, ◌%◌, ◌^◌, List, [], ◌∷◌, ◌++◌, Option, none, some, Bool, ◌&&◌,
  ◌||◌, not, ◌==◌, if◌then◌else◌, ltb, leb, min, max, length, take, drop,
}
use net_discover.Pcap.Bytes.{Endian, little, big, u32_at, u16_at}
use net_discover.Pcap.Summary.{
  CaptureSummary, Time, LinkType, name, Outcome, ok, raise, no_shb, not_shb, bad_bom, index_error,
  Seen, none_seen, see, summarize, link_type_of, pcapng,
}

pub data BlockType : Type 0 where
  idb epb pb spb unknown : BlockType

unfoldable pub block_type : ℕ → BlockType
block_type n =
    if n == 1
    then idb
    else if n == 6
    then epb
    else if n == 2
    then pb
    else if n == 3
    then spb
    else unknown

-- How much of a body is read.
unfoldable pub read_len : BlockType → ℕ → ℕ
read_len idb body_len = min body_len 4_096
read_len epb body_len = min body_len 20
read_len pb body_len = min body_len 12
read_len _ body_len = 0

-- The walk's variables.
pub record Walk : Type 0 where
  pub if_resolutions : List ℕ
  pub if_linktypes : List ℕ
  pub snaplen_max : ℕ
  pub seen : Seen

-- The units per second of the option `if_tsresol`.
unfoldable pub units : ℕ → ℕ
units tsresol = if tsresol / 128 % 2 == 1 then 2 ^ (tsresol % 128) else 10 ^ tsresol

-- `4 + ((opt_len + 3) & ~3)`
abbrev pub option_size : ℕ → ℕ
option_size opt_len = 4 + (opt_len + 3) / 4 * 4

-- `if_resolutions[-1]` after an option; reading past the body's end raises.
unfoldable pub tsresol_option : ℕ → ℕ → List ℕ → ℕ → Outcome ℕ
unfolding units
tsresol_option opt_code opt_len value resolution =
    if (opt_code == 9) && leb 1 opt_len
    then elim value [ [] ↦ raise index_error | tsresol ∷ _ ↦ ok (units tsresol) ]
    else ok resolution

-- The walk over the options of an interface; `body` starts at `opt_pos`.
unfoldable pub read_options : ℕ → Endian → List ℕ → ℕ → Option (Outcome ℕ)
unfolding u16_at drop tsresol_option
read_options zero e body resolution = none
read_options (suc fuel) e body resolution =
    let opt_code = u16_at e 0 body in
    let opt_len = u16_at e 2 body in
    if ltb (length body) 4 || (opt_code == 0)
    then some (ok resolution)
    else elim (tsresol_option opt_code opt_len (drop 4 body) resolution) [
      | raise x ↦ some (raise x)
      | ok r ↦ read_options fuel e (drop (option_size opt_len) body) r
    ]

-- `if_resolutions[if_id]`, or microseconds.
unfoldable pub resolution_of : ℕ → List ℕ → ℕ
resolution_of if_id [] = 1_000_000
resolution_of zero (r ∷ rs) = r
resolution_of (suc i) (r ∷ rs) = resolution_of i rs

-- `(ts_high << 32) | ts_low`
abbrev pub ts_raw : ℕ → ℕ → ℕ
ts_raw ts_high ts_low = ts_high * 4_294_967_296 + ts_low

abbrev pub see_at : Time → Walk → Walk
see_at t w = record w { seen = see t w.seen }

-- What a block whose bytes are there does to the variables.
unfoldable pub read_block : BlockType → Endian → List ℕ → Walk → Option (Outcome Walk)
unfolding u32_at u16_at drop read_options resolution_of see
read_block idb e body w =
    if leb 8 (length body)
    then elim (read_options (suc (length body)) e (drop 8 body) 1_000_000) [
      | none ↦ none
      | some (raise x) ↦ some (raise x)
      | some (ok r) ↦ some (
          ok (record w {
            if_resolutions = w.if_resolutions ++ r ∷ [];
            if_linktypes = w.if_linktypes ++ u16_at e 0 body ∷ [];
            snaplen_max = max w.snaplen_max (u32_at e 4 body);
          }))
    ]
    else some (ok w)
read_block epb e body w =
    if leb 20 (length body)
    then some (
        ok (
          see_at
            (record {
              ticks = ts_raw (u32_at e 4 body) (u32_at e 8 body);
              divisor = resolution_of (u32_at e 0 body) w.if_resolutions;
            })
            w))
    else some (ok w)
read_block pb e body w =
    if leb 20 (length body)
    then some (
        ok (
          see_at
            (record { ticks = ts_raw (u32_at e 4 body) (u32_at e 8 body); divisor = 1_000_000 }) w))
    else some (ok w)
read_block spb e body w =
    some (ok (record w { seen = record (w.seen) { packet_count = suc w.seen.packet_count } }))
read_block unknown e body w = some (ok w)

-- Are the next block's length and bytes as they should be? The trailing length is not compared.
unfoldable pub is_block : ℕ → ℕ → List ℕ → Bool
unfolding take drop
is_block block_len wanted f =
    leb 8 (length f)
    && (leb 12 block_len && (block_len % 4 == 0))
    && (leb wanted (length (take wanted (drop 8 f))) && leb 4 (length (drop (block_len - 4) f)))

-- The loop over the blocks.
unfoldable pub read_blocks : ℕ → Endian → List ℕ → Walk → Option (Outcome Walk)
unfolding take drop u32_at block_type read_len is_block read_block
read_blocks zero e f w = none
read_blocks (suc fuel) e f w =
    let kind = block_type (u32_at e 0 f) in
    let block_len = u32_at e 4 f in
    let wanted = read_len kind (block_len - 12) in
    if is_block block_len wanted f
    then elim (read_block kind e (take wanted (drop 8 f)) w) [
      | none ↦ none
      | some (raise x) ↦ some (raise x)
      | some (ok w') ↦ read_blocks fuel e (drop block_len f) w'
    ]
    else some (ok w)

unfoldable pub headline : List ℕ → LinkType
headline [] = name "Unknown"
headline (n ∷ _) = link_type_of n

abbrev pub finish_pcapng : Outcome Walk → Outcome CaptureSummary
finish_pcapng (raise x) = raise x
finish_pcapng (ok w) = ok (summarize w.seen (headline w.if_linktypes) w.snaplen_max pcapng)

abbrev pub none_read : Walk
none_read = record { if_resolutions = []; if_linktypes = []; snaplen_max = 0; seen = none_seen }

-- The byte order of the section header.
unfoldable pub byte_order : ℕ → Option Endian
byte_order bom =
    if bom == 0x1A2B3C4D then some little else if bom == 0x4D3C2B1A then some big else none

-- What follows the section header.
unfoldable pub read_section : ℕ → Option Endian → List ℕ → List ℕ → Option (Outcome CaptureSummary)
unfolding drop u32_at read_blocks
read_section fuel none raw f = some (raise (bad_bom (u32_at little 8 raw)))
read_section fuel (some e) raw f = elim (read_blocks fuel e (drop (u32_at e 4 raw) f) none_read) [
  | none ↦ none
  | some outcome ↦ some (finish_pcapng outcome)
]

-- `f` is the whole file.
unfoldable pub read_pcapng : ℕ → List ℕ → Option (Outcome CaptureSummary)
unfolding take u32_at byte_order read_section
read_pcapng fuel f =
    let raw = take 12 f in
    if ltb (length raw) 12
    then some (raise no_shb)
    else if not (u32_at little 0 raw == 0x0A0D0D0A)
    then some (raise not_shb)
    else read_section fuel (byte_order (u32_at little 8 raw)) raw f
