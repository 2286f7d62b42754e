-- ===== src/Upload/Reassembly.antt =====
-- An upload from the first frame to the scan: marlinspike-agent/agent/client.py against
-- marlinspike/fleet/gateway/server.py.
use net_discover.Prelude.{
  ℕ, ◌≤◌, ◌<◌, String, List, [], ◌∷◌, ◌++◌, none, some, true, false, ◌≡◌, ◌∙◌, inl, inr, refl, sym,
  ap, arith, length, Bool-cases, All,
}
use net_discover.Fleet.Agents.{Tables}
use net_discover.Upload.Disk.{FilePath, file_of, read_file}
use net_discover.Upload.Paths.{Resolved, begin_pcap_upload, resolve_upload}
use net_discover.Upload.Transfers.{Connection, get_transfer, has_index}
use net_discover.Upload.Sender.{total_chunks_of, chunks_of_file, complete_params}
use net_discover.Upload.Events.{
  Gateway, GatewayEvent, complete, published, limit, handle_event, handle_events,
}
use net_discover.Upload.Arrivals.{
  delivered, handle_events-append, onto, has_index-onto, onto-has_index, total-positive,
  first-InProgress,
}
use net_discover.Upload.Publishing.{scan_of, finished-upload, dropped-upload, nothing-arrived}

module _ (g : Gateway) (session filename : String) (file : List ℕ) (partial final : FilePath) where
  abbrev pub chunk_count : ℕ
  chunk_count = total_chunks_of g.chunk_size (length file)

  abbrev pub upload_events : Tables → Tables → List ℕ → List GatewayEvent
  upload_events t t' order =
      delivered t order (chunks_of_file g.chunk_size session filename file)
      ++ complete (some (complete_params g.chunk_size session filename file)) ∷ published 0 t' ∷ []

  module _ (before : Connection) (t : Tables) (fits : chunk_count ≤ limit g) where
    not-arrived :
        (j : ℕ) (order : List ℕ) → has_index j order ≡ false → has_index j (onto order []) ≡ false
    unfolding has_index
    not-arrived j order missing = elim (Bool-cases (has_index j (onto order []))) [
      | inl had ↦ absurd (ground (arith, missing, onto-has_index j order [] had))
      | inr lacks ↦ lacks
    ]

    -- Where a chunk of the file has not arrived when the last frame comes, nothing is scanned or
    -- waits to be published, and no partial file is left, if none was left from before.
    pub upload-incomplete :
        begin_pcap_upload g.uploads session filename g.agent_uuid t ≡ some (partial, final)
        → get_transfer filename before.pcap_transfers ≡ none
        → file_of partial before.disk ≡ none
        → (order : List ℕ) → All (λ i. i < chunk_count) order
        → (j : ℕ) → j < chunk_count
        → has_index j order ≡ false
        → let c =
            handle_events g
              (delivered t order (chunks_of_file g.chunk_size session filename file)
                ++ complete (some (complete_params g.chunk_size session filename file)) ∷ [])
              before in
          (c.launched ≡ before.launched)
          × ((c.finishing ≡ before.finishing) × (file_of partial c.disk ≡ none))
    unfolding handle_events handle_event delivered
    upload-incomplete begun fresh unnamed [] sent j below missing =
        rw (nothing-arrived g session filename file partial final before t fits fresh)
          (refl, (refl, unnamed))
    upload-incomplete begun fresh unnamed (i ∷ is) sent j below missing =
        rw
          (handle_events-append g
            (delivered t (i ∷ is) (chunks_of_file g.chunk_size session filename file))
            (complete (some (complete_params g.chunk_size session filename file)) ∷ []) before)
          (dropped-upload g session filename file partial final before t fits _ (onto (i ∷ is) []) j
            (first-InProgress g session filename file partial final before t fits (i ∷ is)
              (λ e. ground (arith, e)) begun fresh unnamed sent)
            below (not-arrived j (i ∷ is) missing))

    module _ (t' : Tables) (order : List ℕ)
        (begun : begin_pcap_upload g.uploads session filename g.agent_uuid t
          ≡ some (partial, final))
        (fresh : get_transfer filename before.pcap_transfers ≡ none)
        (unnamed : file_of partial before.disk ≡ none)
        (sent : All (λ i. i < chunk_count) order) where
      -- The frames of a file, in any order and any of them repeated, leave exactly the file under its
      -- final name and start one scan of it, where each chunk has arrived when the last frame comes,
      -- no partial file is left from before, and the session still has its project.
      pub upload-reassembles :
          (owner : Resolved)
          → 0 < g.chunk_size
          → resolve_upload session g.agent_uuid t' ≡ some owner
          → ((j : ℕ) → j < chunk_count → has_index j order ≡ true)
          → let c = handle_events g (upload_events t t' order) before in
            (read_file final c.disk ≡ some file)
            × (c.launched ≡ scan_of session final owner ∷ before.launched)
      unfolding handle_events handle_event has_index
      upload-reassembles owner positive resolved every =
          rw
            (handle_events-append g _
              (complete (some (complete_params g.chunk_size session filename file))
                ∷ published 0 t'
                ∷ [])
              before)
            (finished-upload g session filename file partial final before t fits _ (onto order [])
              t' owner
              (first-InProgress g session filename file partial final before t fits order
                (λ none_sent. ground (
                  arith,
                  sym (ap (λ o. has_index 0 o) none_sent)
                      ∙ every 0 (total-positive g.chunk_size (length file)),
                ))
                begun fresh unnamed sent)
              (λ j below. has_index-onto j order [] (ground (arith, every j below))) positive
              resolved)
