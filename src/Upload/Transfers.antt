-- ===== src/Upload/Transfers.antt =====
-- The uploads of one connection: _PcapTransfer and _handle_event of
-- marlinspike/fleet/gateway/server.py, cut where a handler waits. `max_size` is PCAP_MAX_SIZE, and
-- `size` is _PCAP_CHUNK_RAW_BYTES, so that small examples have several chunks.
use net_discover.Prelude.{
  ℕ, suc, zero, ◌+◌, ◌-◌, ◌*◌, ◌/◌, String, List, [], ◌∷◌, Option, none, some, Bool, true, false,
  ◌&&◌, ◌||◌, ◌==◌, ltb, leb, if◌then◌else◌, str_eq, find_where, delete_where, take,
}
use net_discover.Upload.Disk.{FilePath, FileStore, remove_file, write_file}
use net_discover.Upload.Paths.{Resolved}

-- _PCAP_CHUNK_RAW_BYTES
abbrev pub pcap_chunk_raw_bytes : ℕ
pcap_chunk_raw_bytes = 512 * 1024

-- _MAX_PCAP_CHUNKS
unfoldable pub max_pcap_chunks : ℕ → ℕ → ℕ
max_pcap_chunks size max_size = (max_size + (size - 1)) / size + 1

-- The open handle is the number of its file.
pub record PcapTransfer : Type 0 where
  pub partial_path : FilePath
  pub final_path : FilePath
  pub fh : ℕ
  pub total_chunks : Option ℕ
  pub received : List ℕ
  pub session_id : String

-- A call of `scan.launch_scan`.
pub record Scan : Type 0 where
  pub pcap_path : FilePath
  pub session_uuid : String
  pub resolved : Resolved

-- A connection with the disk, the uploads that wait to be published and the scans, newest first.
pub record Connection : Type 0 where
  pub pcap_transfers : List (String × PcapTransfer)
  pub finishing : List PcapTransfer
  pub launched : List Scan
  pub disk : FileStore

-- The params of `pcap_chunk`, as `str` and `int` read them: `none` is a number below 0, and of the
-- data what `b64decode` makes of it, `none` where it raises.
pub record ChunkParams : Type 0 where
  pub filename : String
  pub session_id : String
  pub chunk_index : Option ℕ
  pub total_chunks : Option ℕ
  pub chunk_bytes : Option (List ℕ)

pub record CompleteParams : Type 0 where
  pub filename : String
  pub total_chunks : Option ℕ

-- What the disk answers to a chunk: whether the file opens, and the number of bytes that are
-- written before the disk fails, `none` where all are.
pub record DiskEnv : Type 0 where
  pub opens : Bool
  pub written : Option ℕ

abbrev pub is_for : String → String × PcapTransfer → Bool
is_for filename e = str_eq e.0 filename

unfoldable pub get_transfer : String → List (String × PcapTransfer) → Option PcapTransfer
unfolding find_where
get_transfer filename xs = elim (find_where (is_for filename) xs) [
  | none ↦ none
  | some (k, x) ↦ some x
]

unfoldable pub pop_transfer : String → List (String × PcapTransfer) → List (String × PcapTransfer)
unfolding delete_where
pop_transfer filename xs = delete_where (is_for filename) xs

unfoldable pub set_transfer :
    String → PcapTransfer → List (String × PcapTransfer) → List (String × PcapTransfer)
set_transfer filename x [] = (filename, x) ∷ []
set_transfer filename x ((k, y) ∷ xs) =
    if str_eq k filename then (k, x) ∷ xs else (k, y) ∷ set_transfer filename x xs

abbrev pub below_opt : Option ℕ → ℕ → Bool
below_opt none n = false
below_opt (some i) n = ltb i n

-- `0 < total_chunks <= _MAX_PCAP_CHUNKS`
abbrev pub is_total : ℕ → Option ℕ → Bool
is_total limit none = false
is_total limit (some n) = ltb 0 n && leb n limit

unfoldable pub abort_pcap_transfer : String → Connection → Connection
unfolding get_transfer pop_transfer remove_file
abort_pcap_transfer filename c = elim (get_transfer filename c.pcap_transfers) [
  | none ↦ c
  | some x ↦ record c {
    pcap_transfers = pop_transfer filename c.pcap_transfers;
    disk = remove_file x.partial_path c.disk;
  }
]

abbrev pub number_or_zero : Option ℕ → ℕ
number_or_zero none = 0
number_or_zero (some n) = n

unfoldable pub has_index : ℕ → List ℕ → Bool
has_index i [] = false
has_index i (j ∷ js) = j == i || has_index i js

-- `set.add`
unfoldable pub add_index : ℕ → List ℕ → List ℕ
unfolding has_index
add_index i js = if has_index i js then js else i ∷ js

-- `any(i not in received for i in range(n))`, read from the end.
unfoldable pub has_all : ℕ → List ℕ → Bool
unfolding has_index
has_all zero js = true
has_all (suc n) js = has_index n js && has_all n js

-- A chunk's data: an upload whose data is no base64 is aborted, and a chunk that the disk did not
-- take is not counted.
unfoldable pub write_chunk : ℕ → DiskEnv → ChunkParams → ℕ → PcapTransfer → Connection → Connection
unfolding set_transfer abort_pcap_transfer write_file add_index take
write_chunk size env p i x c = elim p.chunk_bytes [
  | none ↦ abort_pcap_transfer p.filename c
  | some bytes ↦ elim env.written [
    | some n ↦ record c { disk = write_file x.fh (i * size) (take n bytes) c.disk }
    | none ↦ record c {
      pcap_transfers =
          set_transfer p.filename (record x { received = add_index i x.received }) c.pcap_transfers;
      disk = write_file x.fh (i * size) bytes c.disk;
    }
  ]
]

-- A chunk in its transfer, unless it names another session.
unfoldable pub store_chunk : ℕ → DiskEnv → ChunkParams → ℕ → PcapTransfer → Connection → Connection
unfolding write_chunk set_transfer
store_chunk size env p i x c =
    if str_eq x.session_id p.session_id
    then write_chunk size env p i (record x { total_chunks = p.total_chunks })
        (record c {
          pcap_transfers =
              set_transfer p.filename (record x { total_chunks = p.total_chunks }) c.pcap_transfers;
        })
    else c
