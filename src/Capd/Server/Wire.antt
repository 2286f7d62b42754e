-- ===== src/Capd/Server/Wire.antt =====
-- The messages of marlinspike-capd/capd/server.py: _recv_exact, _recv_json_async and
-- _send_json_async. `json` is a parameter: what json.dumps and json.loads make of an object.
use net_discover.Prelude.{
  ℕ, zero, suc, ◌-◌, List, [], ◌∷◌, ◌++◌, Option, none, some, ◌==◌, ◌||◌, if◌then◌else◌, min, max,
  ltb, length, take, drop,
}
use net_discover.Pcap.Bytes.{big, u32, pack32}

-- The codec of messages. `decode` is none where the bytes are not UTF-8 or not JSON.
pub record Json (A : Type 0) : Type 0 where
  pub encode : A → List ℕ
  pub decode : List ℕ → Option A
  -- The object `{}`.
  pub empty : A

abbrev pub max_message_bytes : ℕ
max_message_bytes = 1_048_576

-- How many bytes the socket gives when so many are wanted: one at least, no more than wanted.
abbrev pub given : (ℕ → ℕ) → ℕ → ℕ
given sizes wanted = min wanted (max 1 (sizes wanted))

-- `none` is the end of the stream before the bytes are there. Each chunk has a byte at least, so
-- the number of bytes wanted is fuel.
unfoldable pub recv_exact : ℕ → (ℕ → ℕ) → ℕ → List ℕ → Option (List ℕ × List ℕ)
unfolding take drop
recv_exact fuel sizes zero sock = some ([], sock)
recv_exact zero sizes (suc n) sock = none
recv_exact (suc fuel) sizes (suc n) [] = none
recv_exact (suc fuel) sizes (suc n) (b ∷ sock) =
    let k = given sizes (suc n) in
    elim (recv_exact fuel sizes (suc n - k) (drop k (b ∷ sock))) [
      | none ↦ none
      | some (later, left) ↦ some (take k (b ∷ sock) ++ later, left)
    ]

-- A message with what is left of the stream, or the end of the connection.
pub data Received (A : Type 0) : Type 0 where
  closed : Received A
  message : A → List ℕ → Received A

abbrev pub or_empty : {A : Type 0} → Json A → Option A → A
or_empty json none = json.empty
or_empty json (some a) = a

unfoldable pub recv_json : {A : Type 0} → Json A → (ℕ → ℕ) → (ℕ → ℕ) → List ℕ → Received A
unfolding recv_exact u32
recv_json json sizes body_sizes sock = elim (recv_exact 4 sizes 4 sock) [
  | none ↦ closed
  | some (header, left) ↦
      let length = u32 big header in
      if (length == 0) || ltb max_message_bytes length
      then closed
      else elim (recv_exact length body_sizes length left) [
        | none ↦ closed
        | some (body, rest) ↦ message (or_empty json (json.decode body)) rest
      ]
]

-- The bytes that are sent: `none` is the ValueError of a message that is too large.
unfoldable pub send_json : {A : Type 0} → Json A → A → Option (List ℕ)
unfolding pack32
send_json json a =
    let body = json.encode a in
    if ltb max_message_bytes (length body) then none else some (pack32 big (length body) ++ body)
