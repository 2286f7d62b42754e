-- ===== src/Upload/Progress.antt =====
-- An upload under way in marlinspike/fleet/gateway/server.py: what the chunks of one file that have
-- been handled have left in its transfer and on the disk.
use net_discover.Prelude.{
  ℕ, suc, ◌≤◌, ◌<◌, String, List, [], ◌∷◌, none, some, true, ◌≡◌, ◌∙◌, inl, inr, refl, sym, ap,
  subst, arith, str_eq_refl, ==_iff, ◌==◌, find_where, Bool-cases,
}
use net_discover.Fleet.Agents.{Tables}
use net_discover.Upload.Disk.{FilePath, path_eq, file_of, open_file, set_contents, write_file}
use net_discover.Upload.Paths.{begin_pcap_upload}
use net_discover.Upload.Transfers.{
  PcapTransfer, Connection, ChunkParams, DiskEnv, get_transfer, set_transfer, has_index, add_index,
  write_chunk, store_chunk,
}
use net_discover.Upload.Sender.{chunk_params}
use net_discover.Upload.Events.{
  Gateway, limit, is_in_range, new_transfer, open_transfer, create_transfer, pcap_chunk,
}
use net_discover.Upload.Patches.{chunk_of, Patch, Patch-write, Patch-empty}
use net_discover.Upload.Received.{
  IndexSet, add_index-IndexSet, has_index-add_index, has_index-add_index_self,
}

get-set_transfer :
    (f : String) (x : PcapTransfer) (xs : List (String × PcapTransfer))
    → get_transfer f (set_transfer f x xs) ≡ some x
unfolding get_transfer set_transfer find_where
get-set_transfer f x [] = ground (arith, str_eq_refl f)
get-set_transfer f x ((k, y) ∷ xs) = ground (arith, get-set_transfer f x xs)

pub path_eq_refl : (p : FilePath) → path_eq p p ≡ true
unfolding path_eq
path_eq_refl [] = refl
path_eq_refl (c ∷ cs) = ground (arith, ==_iff c c, path_eq_refl cs)

-- A disk on which every write succeeds.
abbrev pub good_disk : DiskEnv
good_disk = record { opens = true; written = none }

module _ (g : Gateway) (session filename : String) (file : List ℕ) (total : ℕ)
    (partial final : FilePath) where
  -- The transfer of the file, in which the chunks that arrived are counted and written.
  pub record Uploading (before : Connection) (arrived : List ℕ) (c : Connection) : Type 0 where
    pub transfer : PcapTransfer
    pub found : get_transfer filename c.pcap_transfers ≡ some transfer
    pub same_session : transfer.session_id ≡ session
    pub same_partial : transfer.partial_path ≡ partial
    pub same_final : transfer.final_path ≡ final
    pub named : file_of partial c.disk ≡ some transfer.fh
    pub patch : Patch g.chunk_size file transfer.received (c.disk.contents transfer.fh)
    pub indices : IndexSet total transfer.received
    pub counted : (j : ℕ) → has_index j arrived ≡ true → has_index j transfer.received ≡ true
    pub only : (j : ℕ) → has_index j transfer.received ≡ true → has_index j arrived ≡ true
    pub same_finishing : c.finishing ≡ before.finishing
    pub same_launched : c.launched ≡ before.launched

  abbrev pub chunk_at : ℕ → ChunkParams
  chunk_at i = chunk_params g.chunk_size session filename total i (chunk_of g.chunk_size file i)

  module _ (before : Connection) where
    -- The connection in which the transfer has taken its total.
    abbrev with_total : ℕ → PcapTransfer → Connection → Connection
    with_total i x c = record c {
      pcap_transfers =
          set_transfer filename (record x { total_chunks = some total }) c.pcap_transfers;
    }

    store_chunk-write_chunk :
        (i : ℕ) (x : PcapTransfer) (c : Connection)
        → x.session_id ≡ session
        → store_chunk g.chunk_size good_disk (chunk_at i) i x c
          ≡ write_chunk g.chunk_size good_disk
              (chunk_at i)
              i
              (record x { total_chunks = some total })
              (with_total i x c)
    unfolding store_chunk
    store_chunk-write_chunk i x c same = rw (store_chunk, same, str_eq_refl session) refl

    counted-next :
        (i j : ℕ) (arrived received : List ℕ)
        → (has_index j arrived ≡ true → has_index j received ≡ true)
        → has_index j (i ∷ arrived) ≡ true
        → has_index j (add_index i received) ≡ true
    unfolding has_index
    counted-next i j arrived received had is = elim (Bool-cases (i == j)) [
      | inl this ↦
          subst (λ k. has_index k (add_index i received) ≡ true) ((==_iff i j).0 this)
            (has_index-add_index_self i received)
      | inr other ↦ has_index-add_index i j received (had (ground (arith, is, other)))
    ]

    only-next :
        (i j : ℕ) (arrived received : List ℕ)
        → (has_index j received ≡ true → has_index j arrived ≡ true)
        → has_index j (add_index i received) ≡ true
        → has_index j (i ∷ arrived) ≡ true
    unfolding has_index add_index
    only-next i j arrived received had is = ground (arith, had, is)

    store_chunk-Uploading :
        (i : ℕ) (arrived : List ℕ) (c : Connection)
        → i < total
        → (u : Uploading before arrived c) → {x : PcapTransfer} → u.transfer ≡ x
        → Uploading before (i ∷ arrived) (store_chunk g.chunk_size good_disk (chunk_at i) i x c)
    unfolding write_chunk write_file set_contents file_of
    store_chunk-Uploading i arrived c below u is =
        subst (λ d. Uploading before (i ∷ arrived) d)
          (sym (store_chunk-write_chunk i u.transfer c u.same_session)
            ∙ ap (λ y. store_chunk g.chunk_size good_disk (chunk_at i) i y c) is)
          (record {
            transfer = record u.transfer {
              total_chunks = some total;
              received = add_index i u.transfer.received;
            };
            found = get-set_transfer filename _ _;
            same_session = u.same_session;
            same_partial = u.same_partial;
            same_final = u.same_final;
            named = u.named;
            patch =
                rw ((==_iff u.transfer.fh u.transfer.fh).1 refl)
                  (Patch-write g.chunk_size file i u.patch);
            indices = add_index-IndexSet total i u.transfer.received below u.indices;
            counted = λ j. counted-next i j arrived u.transfer.received (u.counted j);
            only = λ j. only-next i j arrived u.transfer.received (u.only j);
            same_finishing = u.same_finishing;
            same_launched = u.same_launched;
          })

    chunk-is_in_range : (i : ℕ) → total ≤ limit g → i < total → is_in_range g (chunk_at i) ≡ true
    unfolding is_in_range
    chunk-is_in_range i fits below = ground (arith, fits, below)

    under_way :
        (t : Tables) (i : ℕ) (c : Connection) {x : PcapTransfer}
        → total ≤ limit g
        → i < total
        → get_transfer filename c.pcap_transfers ≡ some x
        → pcap_chunk g t good_disk (chunk_at i) c
          ≡ store_chunk g.chunk_size good_disk (chunk_at i) i x c
    unfolding pcap_chunk
    under_way t i c fits below found = rw (pcap_chunk, chunk-is_in_range i fits below, found) refl

    abbrev opened : PcapTransfer × Connection
    opened = open_transfer filename session (partial, final) before

    created :
        (t : Tables) (i : ℕ)
        → begin_pcap_upload g.uploads session filename g.agent_uuid t ≡ some (partial, final)
        → get_transfer filename before.pcap_transfers ≡ none
        → total ≤ limit g
        → i < total
        → pcap_chunk g t good_disk (chunk_at i) before
          ≡ store_chunk g.chunk_size good_disk (chunk_at i) i opened.0 opened.1
    unfolding pcap_chunk create_transfer
    created t i begun fresh fits below =
        rw (pcap_chunk, chunk-is_in_range i fits below, fresh, create_transfer, begun) refl

    abbrev opened_transfer : PcapTransfer
    opened_transfer = new_transfer partial final before.disk.next session

    abbrev opened_connection : Connection
    opened_connection = record before {
      pcap_transfers = set_transfer filename opened_transfer before.pcap_transfers;
      disk = set_contents before.disk.next [] (record before.disk {
        names = (partial, before.disk.next) ∷ before.disk.names;
        next = suc before.disk.next;
      });
    }

    opened-is : file_of partial before.disk ≡ none → opened ≡ (opened_transfer, opened_connection)
    unfolding open_transfer open_file
    opened-is unnamed = rw (open_file, unnamed) refl

    opened-Uploading : (u : Uploading before [] opened_connection) × (u.transfer ≡ opened_transfer)
    unfolding new_transfer set_contents has_index file_of find_where
    opened-Uploading = (
      record {
        transfer = opened_transfer;
        found = get-set_transfer filename opened_transfer before.pcap_transfers;
        same_session = refl;
        same_partial = refl;
        same_final = refl;
        named = rw (file_of, path_eq_refl partial) refl;
        patch =
            rw ((==_iff before.disk.next before.disk.next).1 refl) (Patch-empty g.chunk_size file);
        indices = tt;
        counted = λ j is. absurd (ground (arith, is));
        only = λ j is. absurd (ground (arith, is));
        same_finishing = refl;
        same_launched = refl;
      },
      refl,
    )

    -- A chunk of an upload that is under way.
    pub next-Uploading :
        (t : Tables) (i : ℕ) (arrived : List ℕ) (c : Connection)
        → total ≤ limit g
        → i < total
        → Uploading before arrived c
        → Uploading before (i ∷ arrived) (pcap_chunk g t good_disk (chunk_at i) c)
    next-Uploading t i arrived c fits below u =
        subst (λ d. Uploading before (i ∷ arrived) d) (sym (under_way t i c fits below u.found))
          (store_chunk-Uploading i arrived c below u refl)

    -- The first chunk of an upload whose partial file does not exist.
    pub first-Uploading :
        (t : Tables) (i : ℕ)
        → begin_pcap_upload g.uploads session filename g.agent_uuid t ≡ some (partial, final)
        → get_transfer filename before.pcap_transfers ≡ none
        → file_of partial before.disk ≡ none
        → total ≤ limit g
        → i < total
        → Uploading before (i ∷ []) (pcap_chunk g t good_disk (chunk_at i) before)
    first-Uploading t i begun fresh unnamed fits below =
        subst (λ d. Uploading before (i ∷ []) d)
          (ap (λ o. store_chunk g.chunk_size good_disk (chunk_at i) i o.0 o.1)
              (sym (opened-is unnamed))
            ∙ sym (created t i begun fresh fits below))
          (store_chunk-Uploading i [] opened_connection below opened-Uploading.0 opened-Uploading.1)
