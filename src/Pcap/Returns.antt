-- ===== src/Pcap/Returns.antt =====
-- The loops of marlinspike/_pcap_header.py end on every file: each round takes bytes off what is
-- left, so the length of the file is fuel enough.
use net_discover.Prelude.{
  Option, ltb, ◌==◌, Bool-cases, true, ◌≤◌, ℕ, zero, suc, ◌-◌, ◌<◌, List, none, some, ◌≡◌, ◌≢◌,
  refl, arith, inl, inr, ◌⊎◌, Option-cases, length, take, drop, length-drop, length-take,
}
use net_discover.Pcap.Bytes.{Endian, little, u32_at, u16_at}
use net_discover.Pcap.Summary.{CaptureSummary, Failure, Outcome, ok, raise, Seen, none_seen, see}
use net_discover.Pcap.Classic.{read_with, magic, record_time, read_records, read_pcap}
use net_discover.Pcap.Blocks.{
  read_section, byte_order, BlockType, idb, epb, pb, spb, unknown, block_type, read_len, Walk,
  none_read, option_size, tsresol_option, read_options, read_block, is_block, read_blocks,
  read_pcapng,
}
use net_discover.Pcap.Reader.{read_capture_summary}

pub Outcome-cases :
    {A : Type 0} (o : Outcome A) → ((x : Failure) × (o ≡ raise x)) ⊎ ((a : A) × (o ≡ ok a))
Outcome-cases (raise x) = inl (x, refl)
Outcome-cases (ok a) = inr (a, refl)

read_records-returns :
    (fuel : ℕ) (e : Endian) (ts_divisor snaplen : ℕ) (f : List ℕ) (seen : Seen)
    → length f < fuel
    → read_records fuel e ts_divisor snaplen f seen ≢ none
unfolding read_records
read_records-returns zero e d s f seen h = absurd (omega (arith, h))
read_records-returns (suc fuel) e d s f seen h =
    let rec_hdr = take 16 f in
    let left = drop (u32_at e 8 rec_hdr) (drop 16 f) in
    let later = read_records-returns fuel e d s left (see (record_time e d rec_hdr) seen) in
    ground (
      arith,
      length-take 16 f,
      length-drop 16 f,
      length-drop (u32_at e 8 rec_hdr) (drop 16 f),
      later,
    )

pub read_options-returns :
    (fuel : ℕ) (e : Endian) (body : List ℕ) (resolution : ℕ)
    → length body < fuel
    → read_options fuel e body resolution ≢ none
unfolding read_options
read_options-returns zero e body r h = absurd (omega (arith, h))
read_options-returns (suc fuel) e body r h =
    let opt_len = u16_at e 2 body in
    let size = option_size opt_len in
    elim (Outcome-cases (tsresol_option (u16_at e 0 body) opt_len (drop 4 body) r)) [
      | inl (x, failed) ↦ ground (arith, failed)
      | inr (r', went) ↦
          ground
            (arith, went, length-drop size body, read_options-returns fuel e (drop size body) r')
    ]

read_block-returns :
    (kind : BlockType) (e : Endian) (body : List ℕ) (w : Walk) → read_block kind e body w ≢ none
unfolding read_block
read_block-returns idb e body w =
    ground (
      arith,
      length-drop 8 body,
      read_options-returns (suc (length body)) e (drop 8 body) 1_000_000,
    )
read_block-returns epb e body w = ground arith
read_block-returns pb e body w = ground arith
read_block-returns spb e body w = ground arith
read_block-returns unknown e body w = ground arith

is_block-size :
    (block_len wanted : ℕ) (f : List ℕ)
    → is_block block_len wanted f ≡ true
    → (12 ≤ block_len) × (8 ≤ length f)
unfolding is_block
is_block-size block_len wanted f h = ground arith

read_blocks-returns :
    (fuel : ℕ) (e : Endian) (f : List ℕ) (w : Walk)
    → length f < fuel
    → read_blocks fuel e f w ≢ none
unfolding read_blocks
read_blocks-returns zero e f w h = absurd (omega (arith, h))
read_blocks-returns (suc fuel) e f w h =
    let kind = block_type (u32_at e 0 f) in
    let block_len = u32_at e 4 f in
    let wanted = read_len kind (block_len - 12) in
    let body = take wanted (drop 8 f) in
    elim (Bool-cases (is_block block_len wanted f)) [
      | inr stop ↦ λ ended. cc (stop, ended)
      | inl goes_on ↦ elim (Option-cases (read_block kind e body w)) [
        | inl never ↦ absurd (read_block-returns kind e body w never)
        | inr (o, read) ↦ elim (Outcome-cases o) [
          | inl (x, failed) ↦ λ ended. cc (goes_on, read, failed, ended)
          | inr (w', went) ↦
              let size = is_block-size block_len wanted f goes_on in
              let less : length (drop block_len f) < fuel =
                omega (arith, size, h, length-drop block_len f) in
              let later = read_blocks-returns fuel e (drop block_len f) w' less in
              λ ended. later (cc (goes_on, read, went, ended))
        ]
      ]
    ]

read_with-returns :
    (fuel : ℕ) (m : Option (Endian × ℕ)) (header f : List ℕ)
    → length f < fuel
    → read_with fuel m header f ≢ none
unfolding read_with
read_with-returns fuel none header f h = λ ended. ground (arith, ended)
read_with-returns fuel (some (e, d)) header f h =
    let later = read_records-returns fuel e d (u32_at e 16 header) (drop 24 f) none_seen in
    ground (arith, length-drop 24 f, later)

read_pcap-returns : (fuel : ℕ) (f : List ℕ) → length f < fuel → read_pcap fuel f ≢ none
unfolding read_pcap
read_pcap-returns fuel f h =
    let header = take 24 f in
    let m = magic (u32_at little 0 header) in
    elim (Bool-cases (ltb (length header) 24)) [
      | inl short ↦ λ ended. cc (short, ended)
      | inr long ↦ λ ended. read_with-returns fuel m header f h (cc (long, ended))
    ]

read_section-returns :
    (fuel : ℕ) (o : Option Endian) (raw f : List ℕ)
    → length f < fuel
    → read_section fuel o raw f ≢ none
unfolding read_section
read_section-returns fuel none raw f h = λ ended. ground (arith, ended)
read_section-returns fuel (some e) raw f h =
    let first = u32_at e 4 raw in
    let later = read_blocks-returns fuel e (drop first f) none_read in
    ground (arith, length-drop first f, later)

read_pcapng-returns : (fuel : ℕ) (f : List ℕ) → length f < fuel → read_pcapng fuel f ≢ none
unfolding read_pcapng
read_pcapng-returns fuel f h =
    let raw = take 12 f in
    let o = byte_order (u32_at little 8 raw) in
    elim (Bool-cases (ltb (length raw) 12)) [
      | inl short ↦ λ ended. cc (short, ended)
      | inr long ↦ elim (Bool-cases (u32_at little 0 raw == 0x0A0D0D0A)) [
        | inl is_shb ↦ λ ended. read_section-returns fuel o raw f h (cc (long, is_shb, ended))
        | inr other ↦ λ ended. cc (long, other, ended)
      ]
    ]

-- Reading the summary of a capture ends on every file, whatever bytes are in it: with a summary or
-- with one of the failures, never in a loop.
pub read_capture_summary-returns :
    (f : List ℕ) → (r : Outcome CaptureSummary) × (read_capture_summary f ≡ some r)
unfolding read_capture_summary
read_capture_summary-returns f =
    let classic = read_pcap-returns (suc (length f)) f (omega arith) in
    let blocks = read_pcapng-returns (suc (length f)) f (omega arith) in
    elim (Option-cases (read_capture_summary f)) [
      | inl never ↦ absurd (ground (arith, classic, blocks, never))
      | inr found ↦ found
    ]
