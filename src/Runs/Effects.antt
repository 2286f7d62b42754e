-- ===== src/Runs/Effects.antt =====
-- What each function of marlinspike/run_store.py does to one row that is known, and to the
-- others. The functions stay shut behind these laws.
use net_discover.Prelude.{
  ℕ, String, Option, some, Bool, true, false, ◌&&◌, ◌≡◌, refl, arith, if◌then◌else◌, str_eq,
  str_eq_iff,
}
use net_discover.Runs.Row.{
  RecoveryState, claimed, ScanHistory, Database, is_running, is_none, is_finalizing, find_run,
}
use net_discover.Runs.Store.{
  Finish, finish_row, record_finish, set_state, update_one, claimable, reclaimable,
  claim_for_recovery, reclaim_finalizing,
}
use net_discover.Runs.Rows.{
  IsUnique, for_run, find_run-modify_run, find_run-update_where, modify_run-IsUnique,
  update_where-IsUnique, count_where-matched,
}

module _ (k : String) (db : Database) (u : IsUnique db.rows) where
  module _ (r : ScanHistory) (known : find_run k db.rows ≡ some r) where
    abbrev after_update : Bool → (ScanHistory → Bool) → RecoveryState → String → Option ScanHistory
    after_update b q s j =
        if str_eq k j then some (if b && q r then set_state s r else r) else find_run j db.rows

    update_one-won :
        (b : Bool) (q : ScanHistory → Bool) (s : RecoveryState)
        → (update_one b (for_run k q) s db).0 ≡ (b && q r)
    unfolding update_one
    update_one-won true q s = ground (arith, count_where-matched k q db.rows u, known)
    update_one-won false q s = refl

    update_one-find :
        (b : Bool) (q : ScanHistory → Bool) (s : RecoveryState) (j : String)
        → find_run j (update_one b (for_run k q) s db).1.rows ≡ after_update b q s j
    unfolding update_one
    update_one-find true q s j =
        ground
          (arith, str_eq_iff k j, find_run-update_where (set_state s) (λ r. refl) k j q db.rows)
    update_one-find false q s j = ground (arith, str_eq_iff k j)

    pub claim-won :
        (b : Bool)
        → (claim_for_recovery b k db).0 ≡ (b && (is_running r.status && is_none r.recovery_state))
    unfolding claim_for_recovery
    claim-won b = update_one-won b (λ r. is_running r.status && is_none r.recovery_state) claimed

    pub find_run-claim :
        (b : Bool) (j : String)
        → find_run j (claim_for_recovery b k db).1.rows
          ≡ after_update b (λ r. is_running r.status && is_none r.recovery_state) claimed j
    unfolding claim_for_recovery
    find_run-claim b =
        update_one-find b (λ r. is_running r.status && is_none r.recovery_state) claimed

    pub reclaim-won :
        (b : Bool)
        → (reclaim_finalizing b k db).0
          ≡ (b && (is_running r.status && is_finalizing r.recovery_state))
    unfolding reclaim_finalizing
    reclaim-won b =
        update_one-won b (λ r. is_running r.status && is_finalizing r.recovery_state) claimed

    pub find_run-reclaim :
        (b : Bool) (j : String)
        → find_run j (reclaim_finalizing b k db).1.rows
          ≡ after_update b (λ r. is_running r.status && is_finalizing r.recovery_state) claimed j
    unfolding reclaim_finalizing
    find_run-reclaim b =
        update_one-find b (λ r. is_running r.status && is_finalizing r.recovery_state) claimed

    pub find_run-finish :
        (b : Bool) (now : ℕ) (f : Finish) (j : String)
        → find_run j (record_finish b now k f db).rows
          ≡ (if str_eq k j then some (if b then finish_row now f r else r) else find_run j db.rows)
    unfolding record_finish
    find_run-finish b now f j = ground (
      arith,
      known,
      str_eq_iff k j,
      find_run-modify_run (finish_row now f) (λ r. refl) k j db.rows,
    )

  update_one-IsUnique :
      (b : Bool) (p : ScanHistory → Bool) (s : RecoveryState)
      → IsUnique (update_one b p s db).1.rows
  unfolding update_one
  update_one-IsUnique true p s = update_where-IsUnique (set_state s) (λ r. refl) p db.rows u
  update_one-IsUnique false p s = u

  pub claim-IsUnique : (b : Bool) → IsUnique (claim_for_recovery b k db).1.rows
  unfolding claim_for_recovery
  claim-IsUnique b = update_one-IsUnique b (claimable k) claimed

  pub reclaim-IsUnique : (b : Bool) → IsUnique (reclaim_finalizing b k db).1.rows
  unfolding reclaim_finalizing
  reclaim-IsUnique b = update_one-IsUnique b (reclaimable k) claimed

  pub finish-IsUnique :
      (b : Bool) (now : ℕ) (f : Finish) → IsUnique (record_finish b now k f db).rows
  unfolding record_finish
  finish-IsUnique b now f =
      ground (arith, u, modify_run-IsUnique (finish_row now f) (λ r. refl) k db.rows)
