-- ===== src/Upload/Paths.antt =====
-- Where a forwarded capture belongs: begin_pcap_upload and finish_pcap_upload of
-- marlinspike/fleet/gateway/db.py. A path is its code points.
use net_discover.Prelude.{
  ℕ, ◌+◌, ◌-◌, String, [], ◌∷◌, ◌++◌, Option, none, some, Bool, ◌&&◌, ◌||◌, ◌==◌, leb, length, drop,
  if◌then◌else◌, find_where, map,
}
use net_discover.Capd.FileNames.{codes, basename}
use net_discover.Fleet.Agents.{CaptureSession, ProjectRow, Tables, has_session}
use net_discover.Fleet.Presence.{session_owned_by_agent}
use net_discover.Upload.Disk.{FilePath, path_eq, FileStore, replace_file}

-- `str.lower` on the letters that the suffixes are made of.
abbrev pub lower : ℕ → ℕ
lower c = if leb b'A' c && leb c b'Z' then c + 32 else c

unfoldable pub ends_with : FilePath → FilePath → Bool
unfolding drop path_eq
ends_with suffix p =
    leb (length suffix) (length p) && path_eq (drop (length p - length suffix) p) suffix

abbrev pub dot_pcap : FilePath
dot_pcap = codes ".pcap"

abbrev pub dot_pcapng : FilePath
dot_pcapng = codes ".pcapng"

abbrev pub dot_partial : FilePath
dot_partial = codes ".partial"

-- The basename of a file that may be uploaded.
unfoldable pub safe_filename : String → Option FilePath
unfolding basename ends_with path_eq
safe_filename filename =
    let name = basename (codes filename) in
    let lowered = map lower name in
    if path_eq name [] || (path_eq name (codes ".") || path_eq name (codes ".."))
    then none
    else if ends_with dot_pcap lowered || ends_with dot_pcapng lowered
    then some name
    else none

-- The session of the agent, and its project.
unfoldable pub owned_project : String → String → Tables → Option (CaptureSession × ProjectRow)
unfolding find_where session_owned_by_agent
owned_project session_uuid agent_uuid t = elim (find_where (has_session session_uuid) t.sessions) [
  | none ↦ none
  | some cs ↦ elim cs.project_id [
    | none ↦ none
    | some pid ↦
        if session_owned_by_agent cs agent_uuid t
        then elim (find_where (λ p. p.id == pid) t.projects) [ none ↦ none | some p ↦ some (cs, p) ]
        else none
  ]
]

-- What the deployment and the file system answer: the directory of a user's project, and whether
-- the resolved path is inside the resolved directory.
pub record Uploads : Type 0 where
  pub out_dir : ℕ → ℕ → FilePath
  pub is_inside : FilePath → FilePath → Bool

unfoldable pub final_path_of : Uploads → ℕ → ℕ → FilePath → FilePath
final_path_of up user_id project_id name = up.out_dir user_id project_id ++ b'/' ∷ name

-- The partial and the final path.
unfoldable pub begin_pcap_upload :
    Uploads → String → String → String → Tables → Option (FilePath × FilePath)
unfolding safe_filename owned_project final_path_of
begin_pcap_upload up session_uuid filename agent_uuid t = elim (safe_filename filename) [
  | none ↦ none
  | some name ↦ elim (owned_project session_uuid agent_uuid t) [
    | none ↦ none
    | some (cs, p) ↦
        let final = final_path_of up p.user_id p.id name in
        if up.is_inside (up.out_dir p.user_id p.id) final
        then some (final ++ dot_partial, final)
        else none
  ]
]

-- The owner, the project and the agent to scan for.
pub record Resolved : Type 0 where
  pub user_id : ℕ
  pub project_id : ℕ
  pub agent_id : Option ℕ

unfoldable pub resolve_upload : String → String → Tables → Option Resolved
unfolding owned_project
resolve_upload session_uuid agent_uuid t = elim (owned_project session_uuid agent_uuid t) [
  | none ↦ none
  | some (cs, p) ↦ some (record { user_id = p.user_id; project_id = p.id; agent_id = cs.agent_id })
]

-- The rename comes first, and stands where the checks fail after it.
unfoldable pub finish_pcap_upload :
    FilePath → FilePath → String → String → Tables → FileStore → Option Resolved × FileStore
unfolding replace_file resolve_upload
finish_pcap_upload partial_path final_path session_uuid agent_uuid t d =
    elim (replace_file partial_path final_path d) [
      | none ↦ (none, d)
      | some e ↦ (resolve_upload session_uuid agent_uuid t, e)
    ]
