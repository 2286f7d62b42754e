-- ===== src/Upload/Scenarios.antt =====
-- Uploads of small files in chunks of two bytes, and the theorems about them there.
use net_discover.Prelude.{
  ℕ, zero, suc, ◌<◌, ◌≤◌, List, [], ◌∷◌, ◌++◌, none, some, true, ◌≡◌, refl, arith, All, length,
}
use net_discover.Capd.FileNames.{codes}
use net_discover.Fleet.Agents.{Agent, AgentStatus, SessionStatus, Tables}
use net_discover.Upload.Disk.{FilePath, FileStore, read_file, file_of}
use net_discover.Upload.Paths.{Resolved, begin_pcap_upload, resolve_upload}
use net_discover.Upload.Transfers.{Connection, Scan, get_transfer, has_index, max_pcap_chunks}
use net_discover.Upload.Sender.{chunks_of_file, complete_params, total_chunks_of}
use net_discover.Upload.Events.{Gateway, complete, handle_events}
use net_discover.Upload.Arrivals.{delivered}
use net_discover.Upload.Reassembly.{upload_events, upload-reassembles, upload-incomplete}

abbrev sensor : Agent
sensor = record {
  id = 1;
  agent_uuid = "u1";
  project_id = 5;
  name = "sensor";
  status = AgentStatus.online;
  agent_version = none;
  os_info = none;
  last_seen_at = none;
  revoked_at = none;
  health = record {
    cpu_percent = none;
    memory_percent = none;
    disk_percent = none;
    uptime_s = none;
    capd_reachable = none;
    capture_active = none;
    last_error = none;
  };
}

abbrev tables : Tables
tables = record {
  agents = sensor ∷ [];
  tokens = [];
  credentials = [];
  sessions =
      record {
        id = 3;
        session_uuid = "s";
        user_id = 7;
        project_id = some 5;
        status = SessionStatus.running;
        stopped_at = none;
        bytes_captured = 0;
        packets_captured = 0;
        drop_count = 0;
        rotation_count = 0;
        agent_id = some 1;
      }
      ∷ [];
  projects = record { id = 5; user_id = 7 } ∷ [];
  members = [];
  next_agent_id = 2;
}

abbrev gateway : Gateway
gateway = record {
  uploads = record { out_dir = λ uid pid. codes "/up"; is_inside = λ dir p. true };
  chunk_size = 2;
  max_size = 8;
  agent_uuid = "u1";
}

abbrev final : FilePath
final = codes "/up/a.pcap"

abbrev partial : FilePath
partial = codes "/up/a.pcap.partial"

-- The name is cut to its basename.
begins : begin_pcap_upload gateway.uploads "s" "x/../a.pcap" "u1" tables ≡ some (partial, final)
unfolding begin_pcap_upload
begins = refl

refuses : begin_pcap_upload gateway.uploads "s" "passwd" "u1" tables ≡ none
unfolding begin_pcap_upload
refuses = refl

abbrev new_connection : FileStore → Connection
new_connection d = record { pcap_transfers = []; finishing = []; launched = []; disk = d }

abbrev empty_disk : FileStore
empty_disk = record { names = []; contents = λ n. []; next = 0 }

abbrev file : List ℕ
file = 10 ∷ 20 ∷ 30 ∷ []

abbrev owner : Resolved
owner = record { user_id = 7; project_id = 5; agent_id = some 1 }

abbrev scan : Scan
scan = record { pcap_path = final; session_uuid = "s"; resolved = owner }

two_chunks : total_chunks_of 2 (length file) ≡ 2
unfolding total_chunks_of
two_chunks = refl

fits : total_chunks_of 2 (length file) ≤ max_pcap_chunks 2 8
unfolding total_chunks_of max_pcap_chunks
fits = omega arith

-- The last chunk first, and the first one twice.
abbrev order : List ℕ
order = 1 ∷ 0 ∷ 0 ∷ []

in_file : All (λ i. i < total_chunks_of 2 (length file)) order
unfolding total_chunks_of
in_file = (omega arith, (omega arith, (omega arith, tt)))

all_sent : (j : ℕ) → j < total_chunks_of 2 (length file) → has_index j order ≡ true
unfolding total_chunks_of has_index
all_sent zero below = refl
all_sent (suc zero) below = refl
all_sent (suc (suc j)) below = absurd (omega (arith, below))

unnamed : file_of partial empty_disk ≡ none
unfolding file_of
unnamed = refl

unknown : get_transfer "a.pcap" [] ≡ none
unfolding get_transfer
unknown = refl

begun : begin_pcap_upload gateway.uploads "s" "a.pcap" "u1" tables ≡ some (partial, final)
unfolding begin_pcap_upload
begun = refl

resolved : resolve_upload "s" "u1" tables ≡ some owner
unfolding resolve_upload
resolved = refl

abbrev uploaded : List ℕ → FileStore → Connection
uploaded is d =
    handle_events gateway (upload_events gateway "s" "a.pcap" file partial final tables tables is)
      (new_connection d)

upload-reassembles_example :
    (read_file final (uploaded order empty_disk).disk ≡ some file)
    × ((uploaded order empty_disk).launched ≡ scan ∷ [])
upload-reassembles_example =
    upload-reassembles gateway "s" "a.pcap" file partial final (new_connection empty_disk) tables
      fits tables order begun unknown unnamed in_file owner (omega arith) resolved all_sent

upload-incomplete_example :
    let c =
      handle_events gateway
        (delivered tables (1 ∷ 1 ∷ []) (chunks_of_file 2 "s" "a.pcap" file)
          ++ complete (some (complete_params 2 "s" "a.pcap" file)) ∷ [])
        (new_connection empty_disk) in
    (c.launched ≡ []) × ((c.finishing ≡ []) × (file_of partial c.disk ≡ none))
unfolding total_chunks_of has_index
upload-incomplete_example =
    upload-incomplete gateway "s" "a.pcap" file partial final (new_connection empty_disk) tables
      fits begun unknown unnamed (1 ∷ 1 ∷ []) (omega arith, (omega arith, tt)) 0 (omega arith) refl

-- A partial file that an earlier connection left, longer than the file: its tail stays.
abbrev stale_disk : FileStore
stale_disk = record { names = (partial, 0) ∷ []; contents = λ n. 1 ∷ 2 ∷ 3 ∷ 4 ∷ 5 ∷ []; next = 1 }

stale_tail : read_file final (uploaded order stale_disk).disk ≡ some (10 ∷ 20 ∷ 30 ∷ 4 ∷ 5 ∷ [])
unfolding read_file handle_events delivered chunks_of_file
stale_tail = refl
