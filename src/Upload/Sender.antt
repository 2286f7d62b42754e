-- ===== src/Upload/Sender.antt =====
-- The agent's side of an upload: _send_pcap and _ship_pcap of marlinspike-agent/agent/client.py.
use net_discover.Prelude.{
  ℕ, suc, zero, ◌+◌, ◌-◌, ◌*◌, ◌/◌, ◌<◌, max, String, List, [], ◌∷◌, ◌++◌, map, Option, none, some,
  Bool, true, false, ◌≡◌, ◌∙◌, ap, arith, length, take, drop, get_elem?, drop-drop, if◌then◌else◌,
}
use net_discover.Upload.Transfers.{ChunkParams, CompleteParams}

-- `max(1, -(-total_size // _PCAP_CHUNK_RAW_BYTES))`
unfoldable pub total_chunks_of : ℕ → ℕ → ℕ
total_chunks_of size total_size = max 1 ((total_size + (size - 1)) / size)

pub data SentFrame : Type 0 where
  pcap_chunk : ChunkParams → SentFrame
  pcap_complete : CompleteParams → SentFrame

module _ (size : ℕ) (session_id filename : String) where
  -- The frame of a chunk, with its data as `b64decode` reads it back.
  abbrev pub chunk_params : ℕ → ℕ → List ℕ → ChunkParams
  chunk_params total i bytes = record {
    filename = filename;
    session_id = session_id;
    chunk_index = some i;
    total_chunks = some total;
    chunk_bytes = some bytes;
  }

  -- The reads of the file, from the i-th chunk on, and the frame that follows each.
  unfoldable pub read_chunks : ℕ → ℕ → ℕ → List ℕ → List ChunkParams
  read_chunks total i zero bytes = []
  read_chunks total i (suc n) bytes =
      chunk_params total i (take size bytes) ∷ read_chunks total (suc i) n (drop size bytes)

  unfoldable pub chunks_of_file : List ℕ → List ChunkParams
  unfolding read_chunks total_chunks_of
  chunks_of_file file =
      let total = total_chunks_of size (length file) in read_chunks total 0 total file

  abbrev pub complete_params : List ℕ → CompleteParams
  complete_params file = record {
    filename = filename;
    total_chunks = some (total_chunks_of size (length file));
  }

  -- The frames that were written, whether the file may be removed, and whether a reference to it is
  -- spooled.
  pub record Sent : Type 0 where
    pub frames : List SentFrame
    pub shipped : Bool
    pub spooled : Bool

  unfoldable pub all_frames : List ℕ → List SentFrame
  unfolding chunks_of_file
  all_frames file =
      map pcap_chunk (chunks_of_file file) ++ pcap_complete (complete_params file) ∷ []

  -- The file is `none` where the ring has taken it; `drops` is the number of frames that go out
  -- before the link drops.
  unfoldable pub send_pcap : Bool → Option (List ℕ) → Option ℕ → Sent
  unfolding all_frames
  send_pcap false file drops = record { frames = []; shipped = false; spooled = true }
  send_pcap true none drops = record { frames = []; shipped = true; spooled = false }
  send_pcap true (some file) (some n) = record {
    frames = take n (all_frames file);
    shipped = false;
    spooled = true;
  }
  send_pcap true (some file) none = record {
    frames = all_frames file;
    shipped = true;
    spooled = false;
  }

  -- The local copy after `_ship_pcap`, where `removes` is whether the removal succeeds.
  unfoldable pub ship_pcap : Bool → Bool → Option (List ℕ) → Option ℕ → Option (List ℕ)
  unfolding send_pcap
  ship_pcap removes connected file drops =
      if (send_pcap connected file drops).shipped then if removes then none else file else file

  pub get_elem?-read_chunks :
      (total k n i j : ℕ) (bytes : List ℕ)
      → i < n
      → j ≡ k + i
      → get_elem? (read_chunks total k n bytes) i
        ≡ some (chunk_params total j (take size (drop (i * size) bytes)))
  unfolding read_chunks drop
  get_elem?-read_chunks total k zero i j bytes h e = absurd (omega (arith, h))
  get_elem?-read_chunks total k (suc n) zero j bytes h e =
      ap (λ a. some (chunk_params total a (take size bytes))) (omega (arith, e))
      ∙ ap (λ d. some (chunk_params total j (take size d)))
          (drop-drop 0 0 (0 * size) bytes (omega arith))
  get_elem?-read_chunks total k (suc n) (suc i) j bytes h e =
      get_elem?-read_chunks total (suc k) n i j (drop size bytes) (omega (arith, h))
        (omega (arith, e))
      ∙ ap (λ d. some (chunk_params total j (take size d)))
          (drop-drop size (i * size) (suc i * size) bytes (omega arith))
