-- ===== src/Recovery/Refines.antt =====
-- reap_orphan_runs of marlinspike/recovery.py against a description of what it makes of each row,
-- one row at a time and with no table.
use net_discover.Prelude.{
  String, some, Bool, true, false, ◌&&◌, not, ◌≡◌, arith, if◌then◌else◌, str_eq, str_eq_iff,
  str_eq_refl,
}
use net_discover.Runs.Row.{
  RecoveryState, claimed, ScanHistory, Database, is_running, is_none, is_finalizing, find_run,
}
use net_discover.Runs.Store.{Finish, finish_row, set_state, claim_for_recovery}
use net_discover.Runs.Rows.{IsUnique}
use net_discover.Runs.Effects.{
  claim-won, find_run-claim, reclaim-won, find_run-reclaim, find_run-finish, claim-IsUnique,
  reclaim-IsUnique, finish-IsUnique,
}
use net_discover.Recovery.Report.{report_complete, ingest_finish}
use net_discover.Recovery.Reaper.{
  World, Boot, Ownership, by_claim, by_reclaim, elsewhere, is_past_deadline, engine_alive, failure,
  crashed_tail, acquire, reconcile, proceed, reap_one,
}

-- Whether this process comes to own a row, if no other does meanwhile.
unfoldable pub owner_of : World → ScanHistory → Ownership
owner_of w r =
    if w.claim_commits r.run_id && (is_running r.status && is_none r.recovery_state)
    then by_claim
    else if is_past_deadline w r
        && (w.reclaim_commits r.run_id && (is_running r.status && is_finalizing r.recovery_state))
    then by_reclaim
    else elsewhere

-- What becomes of a row that it owns.
unfoldable pub settle : World → Bool → ScanHistory → ScanHistory
settle w reclaimed r =
    let mine = set_state claimed r in
    let done : Finish → ScanHistory =
      λ f. if w.finish_commits r.run_id then finish_row w.now f mine else mine in
    if not reclaimed && engine_alive w r
    then mine
    else if report_complete w.disk r.report_path
    then done (ingest_finish w.disk r)
    else if is_past_deadline w r && not reclaimed
    then done (failure w.abandoned_tail RecoveryState.reaped_abandoned)
    else done (failure crashed_tail RecoveryState.reaped_failed)

unfoldable pub reap_row : World → ScanHistory → ScanHistory
unfolding owner_of settle
reap_row w r = elim (owner_of w r) [
  | by_claim ↦ settle w false r
  | by_reclaim ↦ settle w true r
  | elsewhere ↦ r
]

abbrev pub owned_row : Ownership → ScanHistory → ScanHistory
owned_row elsewhere r = r
owned_row _ r = set_state claimed r

module _ (w : World) (r : ScanHistory) (db : Database) (u : IsUnique db.rows)
    (known : find_run r.run_id db.rows ≡ some r) where
  abbrev claim_b : Bool
  claim_b = w.claim_commits r.run_id

  abbrev claim_db : Database
  claim_db = (claim_for_recovery claim_b r.run_id db).1

  claimed-IsUnique : IsUnique claim_db.rows
  claimed-IsUnique = claim-IsUnique r.run_id db u claim_b

  abbrev claimed_row : ScanHistory
  claimed_row =
      if claim_b && (is_running r.status && is_none r.recovery_state)
      then set_state claimed r
      else r

  claim_known : find_run r.run_id claim_db.rows ≡ some claimed_row
  claim_known =
      ground (arith, find_run-claim r.run_id db u r known claim_b r.run_id, str_eq_refl r.run_id)

  pub acquire-owner_of : (acquire w (is_past_deadline w r) r db).0 ≡ owner_of w r
  unfolding acquire owner_of
  acquire-owner_of = ground (
    arith,
    claim-won r.run_id db u r known claim_b,
    reclaim-won r.run_id claim_db claimed-IsUnique claimed_row claim_known
        (w.reclaim_commits r.run_id),
  )

  find_run-acquire :
      (j : String)
      → find_run j (acquire w (is_past_deadline w r) r db).1.rows
        ≡ (if str_eq r.run_id j then some (owned_row (owner_of w r) r) else find_run j db.rows)
  unfolding acquire owner_of
  find_run-acquire j = ground (
    arith,
    claim-won r.run_id db u r known claim_b,
    find_run-claim r.run_id db u r known claim_b j,
    reclaim-won r.run_id claim_db claimed-IsUnique claimed_row claim_known
        (w.reclaim_commits r.run_id),
    find_run-reclaim r.run_id claim_db claimed-IsUnique claimed_row claim_known
        (w.reclaim_commits r.run_id) j,
  )

  acquire-IsUnique : IsUnique (acquire w (is_past_deadline w r) r db).1.rows
  unfolding acquire
  acquire-IsUnique = ground (
    arith,
    claimed-IsUnique,
    reclaim-IsUnique r.run_id claim_db claimed-IsUnique (w.reclaim_commits r.run_id),
  )

module _ (w : World) (r : ScanHistory) (reclaimed : Bool) (b : Boot) (u : IsUnique b.db.rows)
    (known : find_run r.run_id b.db.rows ≡ some (set_state claimed r)) where
  abbrev finish_b : Bool
  finish_b = w.finish_commits r.run_id

  find_run-reconcile :
      (j : String)
      → find_run j (reconcile w (is_past_deadline w r) reclaimed r b).db.rows
        ≡ (if str_eq r.run_id j then some (settle w reclaimed r) else find_run j b.db.rows)
  unfolding reconcile settle
  find_run-reconcile j =
      let finished = λ (f : Finish).
        find_run-finish r.run_id b.db u (set_state claimed r) known finish_b w.now f j in
      ground (
        arith,
        known,
        str_eq_iff r.run_id j,
        finished (ingest_finish w.disk r),
        finished (failure w.abandoned_tail RecoveryState.reaped_abandoned),
        finished (failure crashed_tail RecoveryState.reaped_failed),
      )

  reconcile-IsUnique : IsUnique (reconcile w (is_past_deadline w r) reclaimed r b).db.rows
  unfolding reconcile
  reconcile-IsUnique =
      let kept = λ (f : Finish). finish-IsUnique r.run_id b.db u finish_b w.now f in
      ground (
        arith,
        u,
        kept (ingest_finish w.disk r),
        kept (failure w.abandoned_tail RecoveryState.reaped_abandoned),
        kept (failure crashed_tail RecoveryState.reaped_failed),
      )

-- The row of `proceed`, by the owner.
abbrev proceed_row : World → ScanHistory → Ownership → ScanHistory
proceed_row w r by_claim = settle w false r
proceed_row w r by_reclaim = settle w true r
proceed_row w r elsewhere = r

find_run-proceed :
    (w : World) (r : ScanHistory) (b : Boot) (u : IsUnique b.db.rows) (owner : Ownership)
    → find_run r.run_id b.db.rows ≡ some (owned_row owner r)
    → (j : String)
    → find_run j (proceed w (is_past_deadline w r) r b owner).db.rows
      ≡ (if str_eq r.run_id j then some (proceed_row w r owner) else find_run j b.db.rows)
unfolding proceed
find_run-proceed w r b u by_claim known j = find_run-reconcile w r false b u known j
find_run-proceed w r b u by_reclaim known j = find_run-reconcile w r true b u known j
find_run-proceed w r b u elsewhere known j = ground (arith, known, str_eq_iff r.run_id j)

proceed-IsUnique :
    (w : World) (r : ScanHistory) (b : Boot) (u : IsUnique b.db.rows) (owner : Ownership)
    → find_run r.run_id b.db.rows ≡ some (owned_row owner r)
    → IsUnique (proceed w (is_past_deadline w r) r b owner).db.rows
unfolding proceed
proceed-IsUnique w r b u by_claim known = reconcile-IsUnique w r false b u known
proceed-IsUnique w r b u by_reclaim known = reconcile-IsUnique w r true b u known
proceed-IsUnique w r b u elsewhere known = u

module _ (w : World) (r : ScanHistory) (b : Boot) (u : IsUnique b.db.rows)
    (known : find_run r.run_id b.db.rows ≡ some r) where
  abbrev acquired : Database
  acquired = (acquire w (is_past_deadline w r) r b.db).1

  acquired_known :
      find_run r.run_id acquired.rows
      ≡ some (owned_row (acquire w (is_past_deadline w r) r b.db).0 r)
  acquired_known = ground (
    arith,
    acquire-owner_of w r b.db u known,
    find_run-acquire w r b.db u known r.run_id,
    str_eq_refl r.run_id,
  )

  pub find_run-reap_one :
      (j : String)
      → find_run j (reap_one w r b).db.rows
        ≡ (if str_eq r.run_id j then some (reap_row w r) else find_run j b.db.rows)
  unfolding reap_one reap_row
  find_run-reap_one j = ground (
    arith,
    acquire-owner_of w r b.db u known,
    find_run-acquire w r b.db u known j,
    find_run-proceed w r (record b { db = acquired }) (acquire-IsUnique w r b.db u known)
        (acquire w (is_past_deadline w r) r b.db).0 acquired_known j,
  )

  pub reap_one-IsUnique : IsUnique (reap_one w r b).db.rows
  unfolding reap_one
  reap_one-IsUnique =
      proceed-IsUnique w r (record b { db = acquired }) (acquire-IsUnique w r b.db u known)
        (acquire w (is_past_deadline w r) r b.db).0 acquired_known
