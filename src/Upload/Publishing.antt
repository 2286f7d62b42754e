-- ===== src/Upload/Publishing.antt =====
-- The end of an upload in marlinspike/fleet/gateway/server.py: what the last frame makes of the chunks
-- that have arrived.
use net_discover.Prelude.{
  ℕ, ◌≤◌, ◌<◌, String, List, ◌∷◌, none, some, true, false, ◌≡◌, ◌∙◌, inl, inr, refl, sym, ap, arith,
  length, ==_iff, find_where, find_where-delete_where, Bool-cases,
}
use net_discover.Fleet.Agents.{Tables}
use net_discover.Upload.Disk.{
  is_named, FilePath, FileStore, file_of, read_file, replace_file, remove_file,
}
use net_discover.Upload.Paths.{Resolved, resolve_upload, finish_pcap_upload}
use net_discover.Upload.Transfers.{
  PcapTransfer, Scan, Connection, get_transfer, has_index, pop_transfer,
}
use net_discover.Upload.Sender.{complete_params}
use net_discover.Upload.Events.{
  Gateway, limit, is_complete, pcap_complete, pull, publish, launch_resolved, finish_next,
}
use net_discover.Upload.Patches.{Patch-complete}
use net_discover.Upload.Received.{length-has_all, all-has_all, missing-has_all}
use net_discover.Upload.Progress.{path_eq_refl}
use net_discover.Upload.Arrivals.{total-enough, total-positive, total, InProgress}

-- The scan that is started for a file.
abbrev pub scan_of : String → FilePath → Resolved → Scan
scan_of session final owner = record { pcap_path = final; session_uuid = session; resolved = owner }

module _ (g : Gateway) (session filename : String) (file : List ℕ) (partial final : FilePath) where
  abbrev pub chunks : ℕ
  chunks = total g session filename file partial final

  abbrev pub Running : Connection → List ℕ → Connection → Type 0
  Running before arrived c = InProgress g session filename file partial final before arrived c

  module _ (before : Connection) (t : Tables) (fits : chunks ≤ limit g) where
    arrived-is_complete :
        (c : Connection) (arrived : List ℕ)
        → (u : Running before arrived c) → ((j : ℕ) → j < chunks → has_index j arrived ≡ true)
        → is_complete g (some chunks) u.transfer ≡ true
    unfolding is_complete
    arrived-is_complete c arrived u every =
        let x = u.transfer in
        let a = all-has_all chunks x.received (λ j below. u.counted j (every j below)) in
        let l = length-has_all chunks x.received u.indices a in
        ground (
          arith,
          total-positive g.chunk_size (length file),
          fits,
          a,
          l,
          ==_iff (length x.received) chunks,
        )

    -- What pcap_complete makes of an upload whose chunks have all arrived.
    completed :
        (c : Connection) (arrived : List ℕ)
        → (u : Running before arrived c) → ((j : ℕ) → j < chunks → has_index j arrived ≡ true)
        → pcap_complete g (complete_params g.chunk_size session filename file) c ≡ record c {
          pcap_transfers = pop_transfer filename c.pcap_transfers;
          finishing = u.transfer ∷ c.finishing;
        }
    unfolding pcap_complete
    completed c arrived u every =
        rw (pcap_complete, u.found, arrived-is_complete c arrived u every) refl

    -- The disk after the rename.
    abbrev moved : ℕ → FileStore → FileStore
    moved fh d = record d {
      names = (final, fh) ∷ (remove_file final (remove_file partial d)).names;
    }

    replaced :
        (d : FileStore) (fh : ℕ)
        → file_of partial d ≡ some fh
        → replace_file partial final d ≡ some (moved fh d)
    unfolding replace_file
    replaced d fh named = rw (replace_file, named) refl

    finished :
        (d : FileStore) (fh : ℕ) (t' : Tables)
        → file_of partial d ≡ some fh
        → finish_pcap_upload partial final session g.agent_uuid t' d
          ≡ (resolve_upload session g.agent_uuid t', moved fh d)
    unfolding finish_pcap_upload
    finished d fh t' named = rw (finish_pcap_upload, replaced d fh named) refl

    published-upload :
        (c : Connection) (x : PcapTransfer) (t' : Tables) (owner : Resolved)
        → x.partial_path ≡ partial
        → x.final_path ≡ final
        → x.session_id ≡ session
        → file_of partial c.disk ≡ some x.fh
        → resolve_upload session g.agent_uuid t' ≡ some owner
        → publish g t' x c ≡ record c {
          disk = moved x.fh c.disk;
          launched = scan_of session final owner ∷ c.launched;
        }
    unfolding publish launch_resolved
    published-upload c x t' owner is_partial is_final is_session named resolved =
        let e : finish_pcap_upload x.partial_path x.final_path x.session_id g.agent_uuid t' c.disk
            ≡ (some owner, moved x.fh c.disk) =
          rw (is_partial, is_final, is_session)
            (finished c.disk x.fh t' named ∙ rw resolved refl) in
        ap (λ r. launch_resolved x r c) e ∙ rw (is_final, is_session) refl

    moved-read : (fh : ℕ) (d : FileStore) → read_file final (moved fh d) ≡ some (d.contents fh)
    unfolding read_file file_of find_where
    moved-read fh d = rw (read_file, file_of, path_eq_refl final) refl

    finish_next-first :
        (x : PcapTransfer) (xs : List PcapTransfer) (t' : Tables) (c : Connection)
        → finish_next g 0 t' (record c { finishing = x ∷ xs })
          ≡ publish g t' x (record c { finishing = xs })
    unfolding finish_next pull
    finish_next-first x xs t' c = refl

    pub finished-upload :
        (c : Connection) (arrived : List ℕ) (t' : Tables) (owner : Resolved)
        → (u : Running before arrived c) → ((j : ℕ) → j < chunks → has_index j arrived ≡ true)
        → 0 < g.chunk_size
        → resolve_upload session g.agent_uuid t' ≡ some owner
        → let d =
            finish_next g 0 t'
              (pcap_complete g (complete_params g.chunk_size session filename file) c) in
          (read_file final d.disk ≡ some file)
          × (d.launched ≡ scan_of session final owner ∷ before.launched)
    finished-upload c arrived t' owner u every positive resolved =
        let x = u.transfer in
        let ts = pop_transfer filename c.pcap_transfers in
        let e =
          ap (λ d. finish_next g 0 t' d) (completed c arrived u every)
          ∙ finish_next-first x c.finishing t' (record c { pcap_transfers = ts })
          ∙ published-upload (record c { pcap_transfers = ts }) x t' owner u.same_partial
              u.same_final u.same_session u.named resolved in
        let whole =
          Patch-complete g.chunk_size file chunks x.received (c.disk.contents x.fh) u.patch positive
            (total-enough g.chunk_size (length file) positive)
            (λ j below. u.counted j (every j below)) in
        rw e (
          moved-read x.fh c.disk ∙ ap some whole,
          ap (λ l. scan_of session final owner ∷ l) u.same_launched,
        )

    missing-is_complete :
        (c : Connection) (arrived : List ℕ) (j : ℕ)
        → (u : Running before arrived c) → j < chunks
        → has_index j arrived ≡ false
        → is_complete g (some chunks) u.transfer ≡ false
    unfolding is_complete
    missing-is_complete c arrived j u below missing =
        elim (Bool-cases (has_index j u.transfer.received)) [
          | inl had ↦ absurd (ground (arith, sym missing ∙ u.only j had))
          | inr lacks ↦ ground (arith, missing-has_all chunks j u.transfer.received below lacks)
        ]

    discarded :
        (c : Connection) (arrived : List ℕ) (j : ℕ)
        → (u : Running before arrived c) → j < chunks
        → has_index j arrived ≡ false
        → pcap_complete g (complete_params g.chunk_size session filename file) c ≡ record c {
          pcap_transfers = pop_transfer filename c.pcap_transfers;
          disk = remove_file u.transfer.partial_path c.disk;
        }
    unfolding pcap_complete
    discarded c arrived j u below missing =
        rw (pcap_complete, u.found, missing-is_complete c arrived j u below missing) refl

    file_of-remove_file : (p : FilePath) (d : FileStore) → file_of p (remove_file p d) ≡ none
    unfolding file_of remove_file
    file_of-remove_file p d = rw (file_of, find_where-delete_where (is_named p) d.names) refl

    pub dropped-upload :
        (c : Connection) (arrived : List ℕ) (j : ℕ)
        → Running before arrived c
        → j < chunks
        → has_index j arrived ≡ false
        → let d = pcap_complete g (complete_params g.chunk_size session filename file) c in
          (d.launched ≡ before.launched)
          × ((d.finishing ≡ before.finishing) × (file_of partial d.disk ≡ none))
    dropped-upload c arrived j u below missing =
        rw (discarded c arrived j u below missing, u.same_partial)
          (u.same_launched, (u.same_finishing, file_of-remove_file partial c.disk))

    pub nothing-arrived :
        get_transfer filename before.pcap_transfers ≡ none
        → pcap_complete g (complete_params g.chunk_size session filename file) before ≡ before
    unfolding pcap_complete
    nothing-arrived fresh = rw (pcap_complete, fresh) refl
