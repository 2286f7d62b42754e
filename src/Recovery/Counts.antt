-- ===== src/Recovery/Counts.antt =====
-- The counters and the watcher threads of reap_orphan_runs (marlinspike/recovery.py).
use net_discover.Prelude.{
  ℕ, ◌+◌, String, List, [], ◌∷◌, none, some, Bool, true, false, ◌&&◌, ◌||◌, ◌≡◌, refl, arith,
  if◌then◌else◌, str_eq, str_eq_iff, length, any,
}
use net_discover.Runs.Row.{ScanHistory, Database, find_run}
use net_discover.Runs.Rows.{IsUnique}
use net_discover.Recovery.Reaper.{
  World, Boot, Counters, Watcher, Ownership, by_claim, by_reclaim, elsewhere, engine_alive,
  is_past_deadline, acquire, reconcile, proceed, reap_one, reap_all, reap_orphan_runs,
}
use net_discover.Recovery.Refines.{owner_of, acquire-owner_of, reap_one-IsUnique}
use net_discover.Recovery.Loop.{IsSynced, reap_one-IsSynced}

-- The verdicts that the counters hold.
abbrev pub verdicts : Counters → ℕ
verdicts c =
    c.reattached + c.reaped_completed + c.reaped_failed + c.reaped_abandoned + c.skipped_claimed

-- One more verdict, and one more watcher where it is a re-attachment.
abbrev Steps : Boot → Boot → Type 0
Steps b b' =
    (verdicts b'.counters ≡ verdicts b.counters + 1)
    × (b'.counters.checked ≡ b.counters.checked)
    × (length b'.watchers + b.counters.reattached ≡ length b.watchers + b'.counters.reattached)

reconcile-Steps :
    (w : World) (past reclaimed : Bool) (r : ScanHistory) (b : Boot)
    → Steps b (reconcile w past reclaimed r b)
unfolding reconcile
reconcile-Steps w past reclaimed r b = ground arith

proceed-Steps :
    (w : World) (past : Bool) (r : ScanHistory) (b : Boot) (owner : Ownership)
    → Steps b (proceed w past r b owner)
unfolding proceed
proceed-Steps w past r b by_claim = reconcile-Steps w past false r b
proceed-Steps w past r b by_reclaim = reconcile-Steps w past true r b
proceed-Steps w past r b elsewhere = ground arith

reap_one-Steps : (w : World) (r : ScanHistory) (b : Boot) → Steps b (reap_one w r b)
unfolding reap_one
reap_one-Steps w r b =
    let past = is_past_deadline w r in
    let (owner, db) = acquire w past r b.db in proceed-Steps w past r (record b { db = db }) owner

reap_all-counts :
    (w : World) (recs : List ScanHistory) (b : Boot)
    → (verdicts (reap_all w recs b).counters ≡ verdicts b.counters + length recs)
      × ((reap_all w recs b).counters.checked ≡ b.counters.checked)
      × (length (reap_all w recs b).watchers + b.counters.reattached
          ≡ length b.watchers + (reap_all w recs b).counters.reattached)
unfolding reap_all
reap_all-counts w [] b = omega arith
reap_all-counts w (r ∷ rs) b =
    omega (arith, reap_one-Steps w r b, reap_all-counts w rs (reap_one w r b))

-- Every row that the query returned is given exactly one verdict, so the counters add up to the
-- number checked, and there are as many watcher threads as re-attachments; for any query.
pub reap_orphan_runs-accounts :
    (w : World) (get_active : Database → List ScanHistory) (db : Database)
    → let b = reap_orphan_runs w get_active db in
      (b.counters.checked ≡ length (get_active db))
      × (verdicts b.counters ≡ b.counters.checked)
      × (length b.watchers ≡ b.counters.reattached)
unfolding reap_orphan_runs
reap_orphan_runs-accounts w get_active db = omega (arith, reap_all-counts w (get_active db) _)

-- Is there a watcher for the run `k`?
unfoldable pub is_watched : String → List Watcher → Bool
unfolding any
is_watched k ts = any (λ t. str_eq t.run_id k) ts

-- A row that is re-attached.
abbrev pub is_attached : World → ScanHistory → Bool
is_attached w r = elim (owner_of w r) [ by_claim ↦ engine_alive w r | _ ↦ false ]

reconcile-watched :
    (w : World) (past reclaimed : Bool) (r : ScanHistory) (b : Boot) (j : String)
    → is_watched j (reconcile w past reclaimed r b).watchers ≡ (
        (if reclaimed then false else engine_alive w r && str_eq r.run_id j)
        || is_watched j b.watchers)
unfolding reconcile is_watched
reconcile-watched w past reclaimed r b j = ground (arith, str_eq_iff r.run_id j)

proceed-watched :
    (w : World) (past : Bool) (r : ScanHistory) (b : Boot) (owner : Ownership) (j : String)
    → is_watched j (proceed w past r b owner).watchers ≡ (
        (elim owner [ by_claim ↦ engine_alive w r && str_eq r.run_id j | _ ↦ false ])
        || is_watched j b.watchers)
unfolding proceed
proceed-watched w past r b by_claim j = reconcile-watched w past false r b j
proceed-watched w past r b by_reclaim j = reconcile-watched w past true r b j
proceed-watched w past r b elsewhere j = refl

reap_one-watched :
    (w : World) (r : ScanHistory) (b : Boot)
    → IsUnique b.db.rows
    → find_run r.run_id b.db.rows ≡ some r
    → (j : String)
    → is_watched j (reap_one w r b).watchers
      ≡ ((is_attached w r && str_eq r.run_id j) || is_watched j b.watchers)
unfolding reap_one
reap_one-watched w r b u known j =
    let past = is_past_deadline w r in
    let (owner, db) = acquire w past r b.db in
    ground (
      arith,
      str_eq_iff r.run_id j,
      acquire-owner_of w r b.db u known,
      proceed-watched w past r (record b { db = db }) owner j,
    )

pub reap_all-watched :
    (w : World) (recs : List ScanHistory) (b : Boot)
    → IsUnique b.db.rows
    → IsUnique recs
    → IsSynced b.db.rows recs
    → (j : String)
    → is_watched j (reap_all w recs b).watchers ≡ (
        (elim (find_run j recs) [ none ↦ false | some r ↦ is_attached w r ])
        || is_watched j b.watchers)
unfolding reap_all find_run
reap_all-watched w [] b u d s j = refl
reap_all-watched w (r ∷ rs) b u d s j = ground (
  arith,
  str_eq_iff r.run_id j,
  reap_one-watched w r b u s.0 j,
  reap_all-watched w rs (reap_one w r b) (reap_one-IsUnique w r b u s.0) d.1
      (reap_one-IsSynced w r b u s.0 rs d.0 s.1) j,
)
