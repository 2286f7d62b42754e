-- ===== src/Upload/Events.antt =====
-- The frames that a connection handles, one after the other: the rest of _handle_event in
-- marlinspike/fleet/gateway/server.py. What each query finds is the tables of its event.
use net_discover.Prelude.{
  ℕ, suc, zero, String, List, [], ◌∷◌, Option, none, some, Bool, ◌&&◌, ◌==◌, length, if◌then◌else◌,
}
use net_discover.Fleet.Agents.{Tables}
use net_discover.Upload.Disk.{FilePath, FileStore, open_file, remove_file}
use net_discover.Upload.Paths.{Uploads, Resolved, begin_pcap_upload, finish_pcap_upload}
use net_discover.Upload.Transfers.{
  PcapTransfer, Connection, ChunkParams, CompleteParams, DiskEnv, get_transfer, pop_transfer,
  set_transfer, below_opt, is_total, number_or_zero, has_all, store_chunk, abort_pcap_transfer,
  max_pcap_chunks,
}

-- What the gateway is configured with, and the agent that the connection authenticated.
pub record Gateway : Type 0 where
  pub uploads : Uploads
  pub chunk_size : ℕ
  pub max_size : ℕ
  pub agent_uuid : String

unfoldable pub new_transfer : FilePath → FilePath → ℕ → String → PcapTransfer
new_transfer partial_path final_path fh session_id = record {
  partial_path = partial_path;
  final_path = final_path;
  fh = fh;
  total_chunks = none;
  received = [];
  session_id = session_id;
}

unfoldable pub open_transfer :
    String → String → FilePath × FilePath → Connection → PcapTransfer × Connection
unfolding open_file new_transfer set_transfer
open_transfer filename session_id (partial_path, final_path) c =
    let opened = open_file partial_path c.disk in
    let x = new_transfer partial_path final_path opened.0 session_id in
    (x, record c { pcap_transfers = set_transfer filename x c.pcap_transfers; disk = opened.1 })

-- The scan of an upload whose owner is known.
unfoldable pub launch_resolved :
    PcapTransfer → Option Resolved × FileStore → Connection → Connection
launch_resolved x (none, d) c = record c { disk = d }
launch_resolved x (some owner, d) c = record c {
  disk = d;
  launched =
      record { pcap_path = x.final_path; session_uuid = x.session_id; resolved = owner }
      ∷ c.launched;
}

-- The executor takes a waiting upload, the n-th of them.
unfoldable pub pull : ℕ → List PcapTransfer → Option (PcapTransfer × List PcapTransfer)
pull n [] = none
pull zero (x ∷ xs) = some (x, xs)
pull (suc n) (x ∷ xs) = elim (pull n xs) [ none ↦ none | some (y, ys) ↦ some (y, x ∷ ys) ]

-- A frame, or the turn of a waiting upload, or the end of the connection and a new one. The
-- params that `str` or `int` refuse are `none`.
pub data GatewayEvent : Type 0 where
  chunk : Tables → DiskEnv → Option ChunkParams → GatewayEvent
  complete : Option CompleteParams → GatewayEvent
  published : ℕ → Tables → GatewayEvent
  reconnected : GatewayEvent

module _ (g : Gateway) where
  abbrev pub limit : ℕ
  limit = max_pcap_chunks g.chunk_size g.max_size

  -- The first chunk of a file.
  unfoldable pub create_transfer :
      Tables → DiskEnv → ChunkParams → Connection → Option (PcapTransfer × Connection)
  unfolding begin_pcap_upload open_transfer
  create_transfer t env p c =
      elim (begin_pcap_upload g.uploads p.session_id p.filename g.agent_uuid t) [
        | none ↦ none
        | some paths ↦
            if env.opens then some (open_transfer p.filename p.session_id paths c) else none
      ]

  -- An index and a total in their ranges.
  unfoldable pub is_in_range : ChunkParams → Bool
  unfolding max_pcap_chunks
  is_in_range p = below_opt p.chunk_index limit && is_total limit p.total_chunks

  unfoldable pub pcap_chunk : Tables → DiskEnv → ChunkParams → Connection → Connection
  unfolding is_in_range abort_pcap_transfer get_transfer create_transfer store_chunk
  pcap_chunk t env p c =
      if is_in_range p
      then elim (get_transfer p.filename c.pcap_transfers) [
        | some x ↦ store_chunk g.chunk_size env p (number_or_zero p.chunk_index) x c
        | none ↦ elim (create_transfer t env p c) [
          | none ↦ c
          | some (x, d) ↦ store_chunk g.chunk_size env p (number_or_zero p.chunk_index) x d
        ]
      ]
      else abort_pcap_transfer p.filename c

  unfoldable pub is_complete : Option ℕ → PcapTransfer → Bool
  unfolding has_all max_pcap_chunks
  is_complete total x =
      is_total limit total
      && (length x.received == number_or_zero total && has_all (number_or_zero total) x.received)

  -- The upload leaves the connection, to be published or dropped.
  unfoldable pub pcap_complete : CompleteParams → Connection → Connection
  unfolding get_transfer pop_transfer is_complete remove_file
  pcap_complete p c = elim (get_transfer p.filename c.pcap_transfers) [
    | none ↦ c
    | some x ↦
        let rest = pop_transfer p.filename c.pcap_transfers in
        if is_complete p.total_chunks x
        then record c { pcap_transfers = rest; finishing = x ∷ c.finishing }
        else record c { pcap_transfers = rest; disk = remove_file x.partial_path c.disk }
  ]

  unfoldable pub publish : Tables → PcapTransfer → Connection → Connection
  unfolding finish_pcap_upload launch_resolved
  publish t x c =
      launch_resolved x
        (finish_pcap_upload x.partial_path x.final_path x.session_id g.agent_uuid t c.disk) c

  unfoldable pub finish_next : ℕ → Tables → Connection → Connection
  unfolding pull publish
  finish_next n t c = elim (pull n c.finishing) [
    | none ↦ c
    | some (x, rest) ↦ publish t x (record c { finishing = rest })
  ]

  unfoldable pub handle_event : GatewayEvent → Connection → Connection
  unfolding pcap_chunk pcap_complete finish_next
  handle_event (chunk t env none) c = c
  handle_event (chunk t env (some p)) c = pcap_chunk t env p c
  handle_event (complete none) c = c
  handle_event (complete (some p)) c = pcap_complete p c
  handle_event (published n t) c = finish_next n t c
  handle_event reconnected c = record c { pcap_transfers = [] }

  unfoldable pub handle_events : List GatewayEvent → Connection → Connection
  unfolding handle_event
  handle_events [] c = c
  handle_events (e ∷ es) c = handle_events es (handle_event e c)
