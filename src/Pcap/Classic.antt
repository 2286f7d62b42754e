-- ===== src/Pcap/Classic.antt =====
-- _read_pcap of marlinspike/_pcap_header.py: a classic capture file. `none` is a loop that has run
-- out of fuel.
use net_discover.Prelude.{
  ℕ, zero, suc, ◌+◌, ◌*◌, List, Option, none, some, Bool, ◌&&◌, ◌==◌, if◌then◌else◌, ltb, length,
  take, drop,
}
use net_discover.Pcap.Bytes.{Endian, little, big, u32_at}
use net_discover.Pcap.Summary.{
  CaptureSummary, Time, Outcome, ok, raise, no_global_header, bad_magic, absurd_length, Seen,
  none_seen, see, summarize, link_type_of, pcap,
}

-- The byte order and the ticks of a second of a magic number, which is read as little-endian.
unfoldable pub magic : ℕ → Option (Endian × ℕ)
magic n =
    if n == 0xA1B2C3D4
    then some (little, 1_000_000)
    else if n == 0xD4C3B2A1
    then some (big, 1_000_000)
    else if n == 0xA1B23C4D
    then some (little, 1_000_000_000)
    else if n == 0x4D3CB2A1
    then some (big, 1_000_000_000)
    else none

-- A payload that no capture has.
abbrev pub is_absurd : ℕ → ℕ → Bool
is_absurd snaplen incl_len = ltb (snaplen * 4 + 1_048_576) incl_len && ltb 16_777_216 incl_len

-- The time of a record header.
unfoldable pub record_time : Endian → ℕ → List ℕ → Time
unfolding u32_at
record_time e ts_divisor rec_hdr = record {
  ticks = u32_at e 0 rec_hdr * ts_divisor + u32_at e 4 rec_hdr;
  divisor = ts_divisor;
}

-- The loop over the records.
unfoldable pub read_records : ℕ → Endian → ℕ → ℕ → List ℕ → Seen → Option (Outcome Seen)
unfolding take drop u32_at record_time see
read_records zero e ts_divisor snaplen f seen = none
read_records (suc fuel) e ts_divisor snaplen f seen =
    let rec_hdr = take 16 f in
    let incl_len = u32_at e 8 rec_hdr in
    let rest =
      read_records fuel e ts_divisor snaplen (drop incl_len (drop 16 f))
        (see (record_time e ts_divisor rec_hdr) seen) in
    if ltb (length rec_hdr) 16
    then some (ok seen)
    else if is_absurd snaplen incl_len
    then some (raise (absurd_length incl_len))
    else rest

abbrev pub finish_pcap : ℕ → ℕ → Outcome Seen → Outcome CaptureSummary
finish_pcap network snaplen (raise e) = raise e
finish_pcap network snaplen (ok seen) = ok (summarize seen (link_type_of network) snaplen pcap)

-- What follows the global header.
unfoldable pub read_with :
    ℕ → Option (Endian × ℕ) → List ℕ → List ℕ → Option (Outcome CaptureSummary)
unfolding drop u32_at read_records
read_with fuel none header f = some (raise (bad_magic (u32_at little 0 header)))
read_with fuel (some (e, ts_divisor)) header f =
    elim (read_records fuel e ts_divisor (u32_at e 16 header) (drop 24 f) none_seen) [
      | none ↦ none
      | some outcome ↦ some (finish_pcap (u32_at e 20 header) (u32_at e 16 header) outcome)
    ]

-- `f` is the whole file.
unfoldable pub read_pcap : ℕ → List ℕ → Option (Outcome CaptureSummary)
unfolding take u32_at magic read_with
read_pcap fuel f =
    let header = take 24 f in
    if ltb (length header) 24
    then some (raise no_global_header)
    else read_with fuel (magic (u32_at little 0 header)) header f
