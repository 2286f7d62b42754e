-- ===== src/Pcap/Counting.antt =====
-- Which blocks _read_pcapng of marlinspike/_pcap_header.py counts as packets, over any sequence of
-- them.
use net_discover.Prelude.{
  true, sym, subst, min, ap, false, max, ◌++◌, ℕ, zero, suc, ◌+◌, ◌<◌, List, [], ◌∷◌, some, Bool,
  ◌&&◌, ◌||◌, ◌==◌, leb, ◌≡◌, refl, arith, ◌∙◌, inl, inr, ◌⊎◌, Bool-cases, Option-cases, length,
  take, drop, length-take, length-drop, count_where, All, if◌then◌else◌,
}
use net_discover.Pcap.Bytes.{Endian, u32_at, u16_at}
use net_discover.Pcap.Summary.{Time, Failure, ok, raise, index_error, see}
use net_discover.Pcap.Blocks.{
  BlockType, idb, epb, pb, spb, unknown, block_type, read_len, Walk, see_at, ts_raw, resolution_of,
  option_size, tsresol_option, read_options, read_block, read_blocks,
}
use net_discover.Pcap.Layout.{
  Block, write_blocks, IsAligned, seen_body, read_blocks-ok, read_blocks-raise,
}
use net_discover.Pcap.Returns.{Outcome-cases, read_options-returns}

-- An enhanced packet block with all of its fields, or a simple packet block.
unfoldable pub is_counted : Block → Bool
is_counted b = ((b.kind == 6) && leb 20 (length b.body)) || (b.kind == 3)

tsresol_option-raises :
    (opt_code opt_len : ℕ) (value : List ℕ) (resolution : ℕ) (x : Failure)
    → tsresol_option opt_code opt_len value resolution ≡ raise x
    → x ≡ index_error
unfolding tsresol_option
tsresol_option-raises opt_code opt_len value resolution x h = ground (arith, h)

read_options-raises :
    (fuel : ℕ) (e : Endian) (body : List ℕ) (resolution : ℕ) (x : Failure)
    → read_options fuel e body resolution ≡ some (raise x)
    → x ≡ index_error
unfolding read_options
read_options-raises zero e body r x h = ground (arith, h)
read_options-raises (suc fuel) e body r x h =
    let opt_len = u16_at e 2 body in
    elim (Outcome-cases (tsresol_option (u16_at e 0 body) opt_len (drop 4 body) r)) [
      | inl (y, failed) ↦
          let why = tsresol_option-raises (u16_at e 0 body) opt_len (drop 4 body) r y failed in
          ground (arith, failed, why, h)
      | inr (r', went) ↦
          let later = read_options-raises fuel e (drop (option_size opt_len) body) r' x in
          ground (arith, went, later, h)
    ]

abbrev Counted : ℕ → ℕ → Bool → Type 0
Counted before after counted = after ≡ before + (if counted then 1 else 0)

-- What a block comes to: the options of an interface ran past its end, or it was counted or not.
abbrev BlockResult : BlockType → Endian → List ℕ → Walk → Bool → Type 0
BlockResult kind e body w counted =
    (read_block kind e body w ≡ some (raise index_error))
    ⊎ ((w' : Walk) × (read_block kind e body w ≡ some (ok w'))
        × Counted w.seen.packet_count w'.seen.packet_count counted)

idb-BlockResult : (e : Endian) (body : List ℕ) (w : Walk) → BlockResult idb e body w false
unfolding read_block
idb-BlockResult e body w = elim (Bool-cases (leb 8 (length body))) [
  | inr short ↦ inr (w, cc short, omega arith)
  | inl long ↦
      let options = read_options (suc (length body)) e (drop 8 body) 1_000_000 in
      elim (Option-cases options) [
        | inl never ↦ absurd (
            read_options-returns (suc (length body)) e (drop 8 body) 1_000_000
              (omega (arith, length-drop 8 body)) never)
        | inr (o, found) ↦ elim (Outcome-cases o) [
          | inl (x, failed) ↦ inl (
              let why =
                read_options-raises (suc (length body)) e (drop 8 body) 1_000_000 x
                  (found ∙ ap some failed) in
              cc (long, found, failed, why))
          | inr (r, went) ↦ inr (
            record w {
              if_resolutions = w.if_resolutions ++ r ∷ [];
              if_linktypes = w.if_linktypes ++ u16_at e 0 body ∷ [];
              snaplen_max = max w.snaplen_max (u32_at e 4 body);
            },
            cc (long, found, went),
            omega arith,
          )
        ]
      ]
]

epb-BlockResult :
    (e : Endian) (body : List ℕ) (w : Walk) → BlockResult epb e body w (leb 20 (length body))
unfolding read_block see
epb-BlockResult e body w =
    let time : Time = record {
      ticks = ts_raw (u32_at e 4 body) (u32_at e 8 body);
      divisor = resolution_of (u32_at e 0 body) w.if_resolutions;
    } in
    elim (Bool-cases (leb 20 (length body))) [
      | inl full ↦ inr (see_at time w, cc full, ground (arith, full))
      | inr short ↦ inr (w, cc short, ground (arith, short))
    ]

pb-BlockResult :
    (e : Endian) (body : List ℕ) (w : Walk) → length body < 20 → BlockResult pb e body w false
unfolding read_block
pb-BlockResult e body w short = inr (w, ground (arith, short), omega arith)

abbrev counts : BlockType → ℕ → Bool
counts epb n = leb 20 n
counts spb n = true
counts _ n = false

is_counted-type :
    (b : Block) (t : BlockType) → block_type b.kind ≡ t → is_counted b ≡ counts t (length b.body)
unfolding is_counted block_type
is_counted-type b idb h = ground (arith, h)
is_counted-type b epb h = ground (arith, h)
is_counted-type b pb h = ground (arith, h)
is_counted-type b spb h = ground (arith, h)
is_counted-type b unknown h = ground (arith, h)

-- A block with the bytes that are read of it.
type-BlockResult :
    (t : BlockType) (e : Endian) (body : List ℕ) (w : Walk)
    → BlockResult t e (take (read_len t (length body)) body) w (counts t (length body))
unfolding read_len read_block
type-BlockResult idb e body w = idb-BlockResult e (take (min (length body) 4_096) body) w
type-BlockResult epb e body w =
    let n = min (length body) 20 in
    let same : leb 20 (length (take n body)) ≡ leb 20 (length body) =
      ground (arith, length-take n body) in
    subst (BlockResult epb e (take n body) w) same (epb-BlockResult e (take n body) w)
type-BlockResult pb e body w =
    let n = min (length body) 12 in
    pb-BlockResult e (take n body) w (omega (arith, length-take n body))
type-BlockResult spb e body w = inr (
  record w { seen = record (w.seen) { packet_count = suc w.seen.packet_count } },
  refl,
  omega arith,
)
type-BlockResult unknown e body w = inr (w, refl, omega arith)

block-BlockResult :
    (e : Endian) (b : Block) (w : Walk)
    → BlockResult (block_type b.kind) e (seen_body b) w (is_counted b)
block-BlockResult e b w =
    subst (BlockResult (block_type b.kind) e (seen_body b) w)
      (sym (is_counted-type b (block_type b.kind) refl))
      (type-BlockResult (block_type b.kind) e b.body w)

-- However the blocks of a pcapng file follow one another, the walk over them either raises the
-- IndexError of an interface's options or counts exactly the enhanced packet blocks that have all
-- of their fields and the simple packet blocks: an obsolete packet block is never counted.
pub read_blocks-counts :
    (fuel : ℕ) (e : Endian) (bs : List Block) (w : Walk)
    → length bs < fuel
    → All IsAligned bs
    → (read_blocks fuel e (write_blocks e bs) w ≡ some (raise index_error))
      ⊎ ((w' : Walk) × (read_blocks fuel e (write_blocks e bs) w ≡ some (ok w'))
          × (w'.seen.packet_count ≡ w.seen.packet_count + count_where is_counted bs))
unfolding read_blocks write_blocks count_where
read_blocks-counts zero e bs w h a = absurd (omega (arith, h))
read_blocks-counts (suc fuel) e [] w h a = inr (w, refl, omega arith)
read_blocks-counts (suc fuel) e (b ∷ bs) w h a = elim (block-BlockResult e b w) [
  | inl failed ↦ inl (read_blocks-raise e b (write_blocks e bs) a.0 fuel w index_error failed)
  | inr (w', went, counted) ↦
      let here = read_blocks-ok e b (write_blocks e bs) a.0 fuel w w' went in
      elim (read_blocks-counts fuel e bs w' (omega (arith, h)) a.1) [
        | inl failed ↦ inl (here ∙ failed)
        | inr (w'', done, all) ↦ inr (w'', here ∙ done, ground (arith, counted, all))
      ]
]
