-- ===== src/Pcap/RoundTrip.antt =====
-- _read_pcap of marlinspike/_pcap_header.py reads back what a writer of captures wrote.
use net_discover.Prelude.{
  sym, subst, ℕ, zero, suc, ◌+◌, ◌<◌, ◌≤◌, List, [], ◌∷◌, ◌++◌, some, Bool, true, false, ◌≡◌, refl,
  arith, ◌∙◌, length, take, drop, take-append, drop-append, length-append, All,
}
use net_discover.Pcap.Bytes.{Endian, little, big, u32, u32_at, pack32, pack16}
use net_discover.Pcap.Summary.{
  Time, CaptureSummary, ok, Seen, none_seen, see, summarize, link_type_of, pcap,
}
use net_discover.Pcap.Classic.{magic, record_time, read_records, read_with, read_pcap}
use net_discover.Pcap.Reader.{read_capture_summary}
use net_discover.Pcap.Files.{
  Packet, record_header, write_records, global_header, write_pcap, ticks_per_second, time_of,
  first_time, last_time, Fits,
}

pub u32-pack32 :
    (e : Endian) (n : ℕ) (rest : List ℕ) → n < 4_294_967_296 → u32 e (pack32 e n ++ rest) ≡ n
unfolding u32 pack32
u32-pack32 little n rest h = omega arith
u32-pack32 big n rest h = omega arith

header_length : (e : Endian) (p : Packet) → length (record_header e p) ≡ 16
unfolding record_header
header_length little p = refl
header_length big p = refl

module _ (e : Endian) (p : Packet) (snaplen : ℕ) (h : Fits snaplen p) where
  header-incl : u32_at e 8 (record_header e p) ≡ length p.payload
  unfolding u32_at record_header drop
  header-incl = elim e as (λ e. u32_at e 8 (record_header e p) ≡ length p.payload) [
    | little ↦ u32-pack32 little (length p.payload) (pack32 little p.orig_len) h.incl
    | big ↦ u32-pack32 big (length p.payload) (pack32 big p.orig_len) h.incl
  ]

  header-time : (d : ℕ) → record_time e d (record_header e p) ≡ time_of d p
  unfolding record_time u32_at record_header drop
  header-time d = elim e as (λ e. record_time e d (record_header e p) ≡ time_of d p) [
    | little ↦ rw (u32-pack32 little p.ts_sec _ h.sec, u32-pack32 little p.ts_subsec _ h.subsec)
    | big ↦ rw (u32-pack32 big p.ts_sec _ h.sec, u32-pack32 big p.ts_subsec _ h.subsec)
  ]

-- One record is read, and the loop goes on behind its payload.
read_records-record :
    (fuel : ℕ) (e : Endian) (d snaplen : ℕ) (p : Packet) (rest : List ℕ) (seen : Seen)
    → Fits snaplen p
    → read_records (suc fuel) e d snaplen (record_header e p ++ (p.payload ++ rest)) seen
      ≡ read_records fuel e d snaplen rest (see (time_of d p) seen)
unfolding read_records
read_records-record fuel e d snaplen p rest seen h =
    let f : List ℕ = record_header e p ++ (p.payload ++ rest) in
    let head : take 16 f ≡ record_header e p =
      subst (λ n. take n f ≡ record_header e p) (header_length e p)
        (take-append (record_header e p) (p.payload ++ rest)) in
    let tail : drop 16 f ≡ p.payload ++ rest =
      subst (λ n. drop n f ≡ p.payload ++ rest) (header_length e p)
        (drop-append (record_header e p) (p.payload ++ rest)) in
    rw (
      head,
      tail,
      header_length e p,
      header-incl e p snaplen h,
      h.plausible,
      drop-append p.payload rest,
      header-time e p snaplen h d,
    )

-- What the packets add to what was seen.
see_all : ℕ → List Packet → Seen → Seen
see_all d [] seen = seen
see_all d (p ∷ ps) seen = see_all d ps (see (time_of d p) seen)

read_records-write :
    (fuel : ℕ) (e : Endian) (d snaplen : ℕ) (ps : List Packet) (seen : Seen)
    → length ps < fuel
    → All (Fits snaplen) ps
    → read_records fuel e d snaplen (write_records e ps) seen ≡ some (ok (see_all d ps seen))
unfolding read_records write_records see_all
read_records-write zero e d s ps seen h a = absurd (omega (arith, h))
read_records-write (suc fuel) e d s [] seen h a = refl
read_records-write (suc fuel) e d s (p ∷ ps) seen h a =
    read_records-record fuel e d s p (write_records e ps) seen a.0
    ∙ read_records-write fuel e d s ps (see (time_of d p) seen) (omega (arith, h)) a.1

length-write_records : (e : Endian) (ps : List Packet) → length ps ≤ length (write_records e ps)
unfolding write_records
length-write_records e [] = omega arith
length-write_records e (p ∷ ps) = omega (
  arith,
  length-append (record_header e p) (p.payload ++ write_records e ps),
  length-append p.payload (write_records e ps),
  header_length e p,
  length-write_records e ps,
)

see_all-count :
    (d : ℕ) (ps : List Packet) (seen : Seen)
    → (see_all d ps seen).packet_count ≡ seen.packet_count + length ps
unfolding see_all see
see_all-count d [] seen = omega arith
see_all-count d (p ∷ ps) seen = omega (arith, see_all-count d ps (see (time_of d p) seen))

see_all-first :
    (d : ℕ) (ps : List Packet) (seen : Seen) (t : Time)
    → seen.first_ts ≡ some t
    → (see_all d ps seen).first_ts ≡ some t
unfolding see_all see
see_all-first d [] seen t h = h
see_all-first d (p ∷ ps) seen t h =
    see_all-first d ps (see (time_of d p) seen) t (ground (arith, h))

see_all-last :
    (d : ℕ) (p : Packet) (ps : List Packet) (seen : Seen)
    → (see_all d (p ∷ ps) seen).last_ts ≡ last_time d (p ∷ ps)
unfolding see_all see last_time
see_all-last d p [] seen = refl
see_all-last d p (q ∷ ps) seen = see_all-last d q ps (see (time_of d p) seen)

see_all-ends :
    (d : ℕ) (ps : List Packet)
    → ((see_all d ps none_seen).first_ts ≡ first_time d ps)
      × ((see_all d ps none_seen).last_ts ≡ last_time d ps)
unfolding see_all see last_time first_time
see_all-ends d [] = (refl, refl)
see_all-ends d (p ∷ ps) = (
  see_all-first d ps (see (time_of d p) none_seen) (time_of d p) refl,
  see_all-last d p ps none_seen,
)

-- The reader takes a written file for a classic capture, and knows its byte order and its clock.
read_capture_summary-classic :
    (e : Endian) (nanos : Bool) (snaplen network : ℕ) (ps : List Packet)
    → let f = write_pcap e nanos snaplen network ps in
      read_capture_summary f
      ≡ read_with
          (suc (length f))
          (some (e, ticks_per_second nanos))
          (global_header e nanos snaplen network)
          f
unfolding read_capture_summary read_pcap magic write_pcap global_header pack32 pack16 take u32_at
    u32 drop
read_capture_summary-classic little false snaplen network ps = refl
read_capture_summary-classic little true snaplen network ps = refl
read_capture_summary-classic big false snaplen network ps = refl
read_capture_summary-classic big true snaplen network ps = refl

global_header-fields :
    (e : Endian) (nanos : Bool) (snaplen network : ℕ) (rest : List ℕ)
    → snaplen < 4_294_967_296
    → network < 4_294_967_296
    → let header = global_header e nanos snaplen network in
      (u32_at e 16 header ≡ snaplen)
      × (u32_at e 20 header ≡ network)
      × (length header ≡ 24)
      × (drop 24 (header ++ rest) ≡ rest)
unfolding global_header pack16 pack32 u32_at drop
global_header-fields little nanos snaplen network rest s n = (
  u32-pack32 little snaplen (pack32 little network) s,
  u32-pack32 little network [] n,
  refl,
  refl,
)
global_header-fields big nanos snaplen network rest s n =
    (u32-pack32 big snaplen (pack32 big network) s, u32-pack32 big network [] n, refl, refl)

read_with-ok :
    (fuel : ℕ) (e : Endian) (d snaplen network : ℕ) (header f : List ℕ) (seen : Seen)
    → u32_at e 16 header ≡ snaplen
    → u32_at e 20 header ≡ network
    → read_records fuel e d snaplen (drop 24 f) none_seen ≡ some (ok seen)
    → read_with fuel (some (e, d)) header f
      ≡ some (ok (summarize seen (link_type_of network) snaplen pcap))
unfolding read_with
read_with-ok fuel e d snaplen network header f seen snap net records = cc (snap, net, records)

-- A classic capture file, of either byte order and with either clock, is read back: the number of
-- packets, the times of the first and of the last one, the link type and the snapshot length are
-- those that were written, if every field has its width and no payload is absurdly long.
pub read_capture_summary-write_pcap :
    (e : Endian) (nanos : Bool) (snaplen network : ℕ) (ps : List Packet)
    → snaplen < 4_294_967_296
    → network < 4_294_967_296
    → All (Fits snaplen) ps
    → (r : CaptureSummary) × (read_capture_summary (write_pcap e nanos snaplen network ps)
        ≡ some (ok r))
      × (r.packet_count ≡ length ps)
      × (r.start_ts ≡ first_time (ticks_per_second nanos) ps)
      × (r.end_ts ≡ last_time (ticks_per_second nanos) ps)
      × (r.link_type ≡ link_type_of network)
      × (r.snaplen ≡ snaplen)
unfolding write_pcap read_with summarize
read_capture_summary-write_pcap e nanos snaplen network ps s n fits =
    let d = ticks_per_second nanos in
    let header : List ℕ = global_header e nanos snaplen network in
    let f : List ℕ = header ++ write_records e ps in
    let (snap, net, len, behind) =
      global_header-fields e nanos snaplen network (write_records e ps) s n in
    let enough : length ps < suc (length f) =
      omega (arith, length-append header (write_records e ps), length-write_records e ps) in
    let records = read_records-write (suc (length f)) e d snaplen ps none_seen enough fits in
    let (first, last) = see_all-ends d ps in
    (
      summarize (see_all d ps none_seen) (link_type_of network) snaplen pcap,
      read_capture_summary-classic e nanos snaplen network ps
          ∙ read_with-ok (suc (length f)) e d snaplen network header f (see_all d ps none_seen) snap
              net
              (subst
                (λ g.
                  read_records (suc (length f)) e d snaplen g none_seen
                  ≡ some (ok (see_all d ps none_seen)))
                (sym behind) records),
      omega (arith, see_all-count d ps none_seen),
      first,
      last,
      refl,
      refl,
    )
