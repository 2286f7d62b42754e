-- ===== src/Capd/Server/Framing.antt =====
-- The framing of messages in marlinspike-capd/capd/server.py, whatever chunks the socket gives.
use net_discover.Prelude.{
  ◌==◌, ◌≢◌, ℕ, zero, suc, ◌+◌, ◌-◌, ◌<◌, ◌≤◌, List, [], ◌∷◌, ◌++◌, some, false, ◌≡◌, refl, arith,
  ap, sym, ◌∙◌, Bool-cases, inl, inr, ltb, length, take, drop, take-append, drop-append,
  length-drop, length-append,
}
use net_discover.Pcap.Bytes.{big, u32, pack32}
use net_discover.Pcap.RoundTrip.{u32-pack32}
use net_discover.Capd.Server.Wire.{
  Json, max_message_bytes, given, recv_exact, message, or_empty, recv_json, send_json,
}

take_nil : (n : ℕ) → take {A = ℕ} n [] ≡ []
unfolding take
take_nil zero = refl
take_nil (suc n) = refl

drop_nil : (n : ℕ) → drop {A = ℕ} n [] ≡ []
unfolding drop
drop_nil zero = refl
drop_nil (suc n) = refl

take_zero : (xs : List ℕ) → take 0 xs ≡ []
unfolding take
take_zero xs = refl

drop_zero : (xs : List ℕ) → drop 0 xs ≡ xs
unfolding drop
drop_zero xs = refl

take_split : (k m n : ℕ) (xs : List ℕ) → k + m ≡ n → take k xs ++ take m (drop k xs) ≡ take n xs
unfolding take drop
take_split zero m n xs h = ap (λ i. take i xs) (omega (arith, h))
take_split (suc k) m zero xs h = absurd (omega (arith, h))
take_split (suc k) m (suc n) [] h = take_nil m
take_split (suc k) m (suc n) (x ∷ xs) h = ap (λ ys. x ∷ ys) (take_split k m n xs (omega (arith, h)))

drop_split : (k m n : ℕ) (xs : List ℕ) → k + m ≡ n → drop m (drop k xs) ≡ drop n xs
unfolding drop
drop_split zero m n xs h = ap (λ i. drop i xs) (omega (arith, h))
drop_split (suc k) m zero xs h = absurd (omega (arith, h))
drop_split (suc k) m (suc n) [] h = drop_nil m
drop_split (suc k) m (suc n) (x ∷ xs) h = drop_split k m n xs (omega (arith, h))

-- Enough bytes are received as if they came at once.
recv_exact-takes :
    (fuel : ℕ) (sizes : ℕ → ℕ) (n : ℕ) (sock : List ℕ)
    → n ≤ fuel
    → n ≤ length sock
    → recv_exact fuel sizes n sock ≡ some (take n sock, drop n sock)
unfolding recv_exact
recv_exact-takes fuel sizes zero sock f h = ground (arith, take_zero sock, drop_zero sock)
recv_exact-takes zero sizes (suc n) sock f h = absurd (omega (arith, f))
recv_exact-takes (suc fuel) sizes (suc n) [] f h = absurd (omega (arith, h))
recv_exact-takes (suc fuel) sizes (suc n) (b ∷ sock) f h =
    let k = given sizes (suc n) in
    let later =
      recv_exact-takes fuel sizes (suc n - k) (drop k (b ∷ sock)) (omega (arith, f))
        (omega (arith, h, length-drop k (b ∷ sock))) in
    let whole : k + (suc n - k) ≡ suc n = omega arith in
    cc (
      later,
      take_split k (suc n - k) (suc n) (b ∷ sock) whole,
      drop_split k (suc n - k) (suc n) (b ∷ sock) whole,
    )

four_bytes :
    (n : ℕ) (body rest : List ℕ)
    → let f = (pack32 big n ++ body) ++ rest in
      (take 4 f ≡ pack32 big n) × (drop 4 f ≡ body ++ rest) × (4 ≤ length f)
unfolding take drop pack32
four_bytes n body rest = (refl, refl, omega arith)

u32-pack32_big : (n : ℕ) → n < 4_294_967_296 → u32 big (pack32 big n) ≡ n
unfolding pack32
u32-pack32_big n h = u32-pack32 big n [] h

-- The four bytes of the length, and the body, are given back from what follows them.
framed :
    {A : Type 0} (json : Json A) (sizes body_sizes : ℕ → ℕ) (body rest : List ℕ)
    → length body ≢ 0
    → length body ≤ max_message_bytes
    → recv_json json sizes body_sizes ((pack32 big (length body) ++ body) ++ rest)
      ≡ message (or_empty json (json.decode body)) rest
unfolding recv_json
framed json sizes body_sizes body rest some_byte small =
    let n = length body in
    let f : List ℕ = (pack32 big n ++ body) ++ rest in
    let header : recv_exact 4 sizes 4 f ≡ some (pack32 big n, body ++ rest) =
      recv_exact-takes 4 sizes 4 f (omega arith) (four_bytes n body rest).2
      ∙ rw ((four_bytes n body rest).0, (four_bytes n body rest).1) in
    let content : recv_exact n body_sizes n (body ++ rest) ≡ some (body, rest) =
      recv_exact-takes n body_sizes n (body ++ rest) (omega arith)
        (omega (arith, length-append body rest))
      ∙ rw (take-append body rest, drop-append body rest) in
    let size : u32 big (pack32 big n) ≡ n = u32-pack32_big n (omega (arith, small)) in
    let not_zero : (n == 0) ≡ false = ground (arith, some_byte) in
    let not_large : ltb max_message_bytes n ≡ false = ground (arith, small) in
    cc (header, size, not_zero, not_large, content)

empty_of : (xs : List ℕ) → length xs ≡ 0 → xs ≡ []
empty_of [] h = refl
empty_of (x ∷ xs) h = absurd (omega (arith, h))

some_inj : {x y : List ℕ} → some x ≡ some y → x ≡ y
some_inj h = ground (arith, h)

-- What is sent is received, in whatever chunks the socket gives it and whatever follows on the
-- stream, if json.loads reads back what json.dumps wrote of the object.
pub recv_json-send_json :
    {A : Type 0} (json : Json A) (sizes body_sizes : ℕ → ℕ) (a : A) (bytes rest : List ℕ)
    → json.decode (json.encode a) ≡ some a
    → json.encode a ≢ []
    → send_json json a ≡ some bytes
    → recv_json json sizes body_sizes (bytes ++ rest) ≡ message a rest
unfolding send_json
recv_json-send_json json sizes body_sizes a bytes rest reads_back some_text sent =
    elim (Bool-cases (ltb max_message_bytes (length (json.encode a)))) [
      | inl large ↦ absurd (ground (arith, large, sent))
      | inr small ↦
          let received =
            framed json sizes body_sizes (json.encode a) rest
              (λ e. some_text (empty_of (json.encode a) e)) (ground (arith, small)) in
          let bytes_are : bytes ≡ pack32 big (length (json.encode a)) ++ json.encode a =
            some_inj (sym sent ∙ rw small) in
          cc (received, bytes_are, reads_back)
    ]
