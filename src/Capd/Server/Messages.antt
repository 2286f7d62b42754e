-- ===== src/Capd/Server/Messages.antt =====
-- A message of the capture daemon's socket (marlinspike-capd/capd/server.py), byte by byte.
use net_discover.Prelude.{ℕ, List, [], ◌∷◌, ◌++◌, Option, none, some, ◌≡◌, ◌≢◌, refl, arith}
use net_discover.Pcap.Bytes.{pack32}
use net_discover.Capd.Server.Wire.{Json, message, closed, recv_json, send_json}
use net_discover.Capd.Server.Framing.{recv_json-send_json}

-- A codec of lists: their first byte is a brace.
abbrev read_text : List ℕ → Option (List ℕ)
read_text [] = none
read_text (b ∷ bs) = some bs

abbrev text : Json (List ℕ)
text = record { encode = λ bs. 123 ∷ bs; decode = read_text; empty = [] }

bytes_sent : send_json text (7 ∷ 8 ∷ []) ≡ some (0 ∷ 0 ∷ 0 ∷ 3 ∷ 123 ∷ 7 ∷ 8 ∷ [])
unfolding send_json pack32
bytes_sent = refl

-- A length of zero ends the connection.
zero_closes : recv_json text (λ _. 1) (λ _. 1) (0 ∷ 0 ∷ 0 ∷ 0 ∷ 9 ∷ []) ≡ closed
unfolding recv_json
zero_closes = refl

some_text : text.encode (7 ∷ 8 ∷ []) ≢ []
some_text h = ground (arith, h)

recv_json-send_json_example :
    recv_json text (λ _. 1) (λ n. n) ((0 ∷ 0 ∷ 0 ∷ 3 ∷ 123 ∷ 7 ∷ 8 ∷ []) ++ 9 ∷ [])
    ≡ message (7 ∷ 8 ∷ []) (9 ∷ [])
recv_json-send_json_example =
    recv_json-send_json text (λ _. 1) (λ n. n) (7 ∷ 8 ∷ []) (0 ∷ 0 ∷ 0 ∷ 3 ∷ 123 ∷ 7 ∷ 8 ∷ [])
      (9 ∷ []) refl some_text bytes_sent
