-- ===== src/Pcap/Layout.antt =====
-- Blocks as the pcapng format lays them out, and the loop of _read_pcapng
-- (marlinspike/_pcap_header.py) over the first of them.
use net_discover.Prelude.{
  ℕ, zero, suc, ◌+◌, ◌-◌, ◌%◌, ◌<◌, ◌≤◌, List, [], ◌∷◌, ◌++◌, some, true, ◌≡◌, refl, arith, subst,
  ap, ◌∙◌, length, take, drop, drop-append, length-append, length-take, length-drop,
}
use net_discover.Pcap.Bytes.{Endian, little, big, u32_at, pack32}
use net_discover.Pcap.Summary.{Failure, ok, raise}
use net_discover.Pcap.Blocks.{
  BlockType, idb, epb, pb, spb, unknown, block_type, read_len, Walk, read_block, is_block,
  read_blocks,
}
use net_discover.Pcap.RoundTrip.{u32-pack32}

pub record Block : Type 0 where
  pub kind : ℕ
  pub body : List ℕ

unfoldable pub write_block : Endian → Block → List ℕ
unfolding pack32
write_block e b =
    let block_len = length b.body + 12 in
    pack32 e b.kind ++ (pack32 e block_len ++ (b.body ++ pack32 e block_len))

unfoldable pub write_blocks : Endian → List Block → List ℕ
unfolding write_block
write_blocks e [] = []
write_blocks e (b ∷ bs) = write_block e b ++ write_blocks e bs

-- The block's type and length have their width, and its length is a multiple of four.
pub record IsAligned (b : Block) : Type 0 where
  pub kind : b.kind < 4_294_967_296
  pub size : length b.body + 12 < 4_294_967_296
  pub aligned : length b.body % 4 ≡ 0

pub length-write_block : (e : Endian) (b : Block) → length (write_block e b) ≡ length b.body + 12
unfolding write_block pack32
length-write_block little b =
    omega (arith, length-append b.body (pack32 little (length b.body + 12)))
length-write_block big b = omega (arith, length-append b.body (pack32 big (length b.body + 12)))

read_len-le : (kind : BlockType) (n : ℕ) → read_len kind n ≤ n
unfolding read_len
read_len-le idb n = omega arith
read_len-le epb n = omega arith
read_len-le pb n = omega arith
read_len-le spb n = omega arith
read_len-le unknown n = omega arith

take-prefix : (n : ℕ) (xs ys : List ℕ) → n ≤ length xs → take n (xs ++ ys) ≡ take n xs
unfolding take
take-prefix zero xs ys h = refl
take-prefix (suc n) [] ys h = absurd (omega (arith, h))
take-prefix (suc n) (x ∷ xs) ys h = ap (λ zs. x ∷ zs) (take-prefix n xs ys (omega (arith, h)))

-- The first eight bytes of a block.
heading :
    (e : Endian) (k n : ℕ) (xs : List ℕ)
    → k < 4_294_967_296
    → n < 4_294_967_296
    → let f = pack32 e k ++ (pack32 e n ++ xs) in
      (u32_at e 0 f ≡ k) × (u32_at e 4 f ≡ n) × (drop 8 f ≡ xs) × (length f ≡ 8 + length xs)
unfolding u32_at pack32 drop
heading little k n xs k< n< =
    (u32-pack32 little k (pack32 little n ++ xs) k<, u32-pack32 little n xs n<, refl, omega arith)
heading big k n xs k< n< =
    (u32-pack32 big k (pack32 big n ++ xs) k<, u32-pack32 big n xs n<, refl, omega arith)

-- A block and what follows it.
write_block-layout :
    (e : Endian) (b : Block) (rest : List ℕ)
    → let n = length b.body + 12 in
      write_block e b ++ rest ≡ pack32 e b.kind ++ (pack32 e n ++ ((b.body ++ pack32 e n) ++ rest))
unfolding write_block pack32
write_block-layout little b rest = refl
write_block-layout big b rest = refl

length-pack32 : (e : Endian) (n : ℕ) → length (pack32 e n) ≡ 4
unfolding pack32
length-pack32 little n = refl
length-pack32 big n = refl

-- The bytes of the body that are read.
abbrev pub seen_body : Block → List ℕ
seen_body b = take (read_len (block_type b.kind) (length b.body)) b.body

module _ (e : Endian) (b : Block) (rest : List ℕ) (a : IsAligned b) where
  abbrev block_len : ℕ
  block_len = length b.body + 12

  abbrev behind : List ℕ
  behind = (b.body ++ pack32 e block_len) ++ rest

  fields :
      let f = write_block e b ++ rest in
      (u32_at e 0 f ≡ b.kind)
      × (u32_at e 4 f ≡ block_len)
      × (drop 8 f ≡ behind)
      × (length f ≡ 8 + length behind)
  fields = rw (write_block-layout e b rest) (heading e b.kind block_len behind a.kind a.size)

  length-behind : length behind ≡ length b.body + 4 + length rest
  length-behind = omega (
    arith,
    length-append (b.body ++ pack32 e block_len) rest,
    length-append b.body (pack32 e block_len),
    length-pack32 e block_len,
  )

  take-behind : (n : ℕ) → n ≤ length b.body → take n behind ≡ take n b.body
  take-behind n h =
      take-prefix n (b.body ++ pack32 e block_len) rest
        (omega (arith, h, length-append b.body (pack32 e block_len)))
      ∙ take-prefix n b.body (pack32 e block_len) h

  block_len-IsBlock :
      (wanted : ℕ)
      → wanted ≤ length b.body
      → is_block block_len wanted (write_block e b ++ rest) ≡ true
  unfolding is_block
  block_len-IsBlock wanted h = ground (
    arith,
    fields,
    length-behind,
    length-take wanted behind,
    length-drop (length b.body + 12 - 4) (write_block e b ++ rest),
    a.aligned,
  )

  drop-block : drop block_len (write_block e b ++ rest) ≡ rest
  drop-block =
      subst (λ n. drop n (write_block e b ++ rest) ≡ rest) (length-write_block e b)
        (drop-append (write_block e b) rest)

  body_size : block_len - 12 ≡ length b.body
  body_size = omega arith

  seen_body-read :
      let n = read_len (block_type b.kind) (length b.body) in
      take n (drop 8 (write_block e b ++ rest)) ≡ seen_body b
  seen_body-read =
      let n = read_len (block_type b.kind) (length b.body) in
      ap (λ xs. take n xs) fields.2
      ∙ take-behind n (read_len-le (block_type b.kind) (length b.body))

  goes_on :
      is_block block_len (read_len (block_type b.kind) (length b.body)) (write_block e b ++ rest)
      ≡ true
  goes_on = block_len-IsBlock _ (read_len-le (block_type b.kind) (length b.body))

  pub read_blocks-ok :
      (fuel : ℕ) (w w' : Walk)
      → read_block (block_type b.kind) e (seen_body b) w ≡ some (ok w')
      → read_blocks (suc fuel) e (write_block e b ++ rest) w ≡ read_blocks fuel e rest w'
  unfolding read_blocks
  read_blocks-ok fuel w w' read =
      cc (fields.0, fields.1, body_size, seen_body-read, goes_on, drop-block, read)

  pub read_blocks-raise :
      (fuel : ℕ) (w : Walk) (x : Failure)
      → read_block (block_type b.kind) e (seen_body b) w ≡ some (raise x)
      → read_blocks (suc fuel) e (write_block e b ++ rest) w ≡ some (raise x)
  unfolding read_blocks
  read_blocks-raise fuel w x read =
      cc (fields.0, fields.1, body_size, seen_body-read, goes_on, drop-block, read)
