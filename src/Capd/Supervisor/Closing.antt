-- ===== src/Capd/Supervisor/Closing.antt =====
-- Which rotated files _snapshot (marlinspike-capd/capd/supervisor.py) reports as closed, and how
-- often.
use net_discover.Prelude.{
  String, List, [], ◌∷◌, ◌++◌, Option, none, some, Bool, true, false, ◌&&◌, ◌||◌, not, ◌≡◌, refl,
  sym, ◌∙◌, ap, arith, if◌then◌else◌, str_eq, str_eq_iff, contains, Bool-cases, inl, inr,
}
use mathlib.Core.List.{append-nil, append_assoc}
use net_discover.Capd.FileNames.{sorted, insert_sorted, last}
use net_discover.Capd.Supervisor.Snapshot.{
  Sight, Tracker, new_tracker, CaptureStats, Emission, same_file, emit, emit_previous, emit_rotated,
  emit_final, emissions, snapshot,
}

pub contains-append :
    (x : String) (xs ys : List String) → contains x (xs ++ ys) ≡ (contains x xs || contains x ys)
unfolding contains
contains-append x [] ys = refl
contains-append x (y ∷ xs) ys = ground (arith, contains-append x xs ys)

-- No file stands twice in the list.
abbrev pub IsDistinct : List String → Type 0
IsDistinct [] = Unit
IsDistinct (x ∷ xs) = (contains x xs ≡ false) × IsDistinct xs

IsDistinct-snoc :
    (xs : List String) (x : String)
    → contains x xs ≡ false
    → IsDistinct xs
    → IsDistinct (xs ++ x ∷ [])
unfolding contains
IsDistinct-snoc [] x h d = (refl, tt)
IsDistinct-snoc (y ∷ xs) x h d = (
  ground (arith, contains-append y xs (x ∷ []), str_eq_iff x y, str_eq_iff y x, d.0),
  IsDistinct-snoc xs x (ground (arith, str_eq_iff x y)) d.1,
)

-- What was emitted before comes first, and no file twice.
record Extends (before : List String) (e : Emission) : Type 0 where
  extends : e.closed_emitted ≡ before ++ e.newly_closed
  distinct : IsDistinct e.closed_emitted

module _ (before : List String) where
  emit-Extends : (f : String) (e : Emission) → Extends before e → Extends before (emit f e)
  unfolding emit
  emit-Extends f e h = elim (Bool-cases (contains f e.closed_emitted)) [
    | inl old ↦ rw old h
    | inr new ↦ rw new (record {
      extends = ap (λ l. l ++ f ∷ []) h.extends ∙ append_assoc before e.newly_closed (f ∷ []);
      distinct = IsDistinct-snoc e.closed_emitted f new h.distinct;
    })
  ]

  if-Extends :
      (b : Bool) (e e' : Emission)
      → Extends before e
      → Extends before e'
      → Extends before (if b then e else e')
  if-Extends true e e' h h' = h
  if-Extends false e e' h h' = h'

  emit_previous-Extends :
      (previous active : Option String) (e : Emission)
      → Extends before e
      → Extends before (emit_previous previous active e)
  unfolding emit_previous
  emit_previous-Extends none active e h = h
  emit_previous-Extends (some f) active e h =
      if-Extends (same_file (some f) active) e (emit f e) h (emit-Extends f e h)

  emit_rotated-Extends :
      (active : Option String) (files : List String) (e : Emission)
      → Extends before e
      → Extends before (emit_rotated active files e)
  unfolding emit_rotated
  emit_rotated-Extends active [] e h = h
  emit_rotated-Extends active (f ∷ fs) e h =
      emit_rotated-Extends active fs _
        (if-Extends (same_file (some f) active) e (emit f e) h (emit-Extends f e h))

  emit_final-Extends :
      (finalize : Bool) (active : Option String) (e : Emission)
      → Extends before e
      → Extends before (emit_final finalize active e)
  unfolding emit_final
  emit_final-Extends true (some f) e h = emit-Extends f e h
  emit_final-Extends true none e h = h
  emit_final-Extends false active e h = h

-- Whether one emission of `f` adds `g`.
contains-emit :
    (g f : String) (e : Emission)
    → contains g (emit f e).closed_emitted ≡ (contains g e.closed_emitted || str_eq g f)
unfolding emit contains
contains-emit g f e = ground (arith, str_eq_iff g f, contains-append g e.closed_emitted (f ∷ []))

contains-emit_previous :
    (g : String) (previous active : Option String) (e : Emission)
    → contains g (emit_previous previous active e).closed_emitted ≡ (
        contains g e.closed_emitted
        || (same_file (some g) previous && not (same_file (some g) active)))
unfolding emit_previous
contains-emit_previous g none active e = ground arith
contains-emit_previous g (some f) none e = ground (arith, contains-emit g f e)
contains-emit_previous g (some f) (some a) e =
    ground (arith, contains-emit g f e, str_eq_iff f a, str_eq_iff g f, str_eq_iff g a)

contains-emit_rotated :
    (g : String) (active : Option String) (files : List String) (e : Emission)
    → contains g (emit_rotated active files e).closed_emitted
      ≡ (contains g e.closed_emitted || (contains g files && not (same_file (some g) active)))
unfolding emit_rotated contains
contains-emit_rotated g active [] e = ground arith
contains-emit_rotated g none (f ∷ fs) e =
    ground (arith, contains-emit g f e, contains-emit_rotated g none fs (emit f e))
contains-emit_rotated g (some a) (f ∷ fs) e = ground (
  arith,
  str_eq_iff g f,
  str_eq_iff f a,
  str_eq_iff g a,
  contains-emit g f e,
  contains-emit_rotated g (some a) fs e,
  contains-emit_rotated g (some a) fs (emit f e),
)

contains-emit_final :
    (g : String) (finalize : Bool) (active : Option String) (e : Emission)
    → contains g (emit_final finalize active e).closed_emitted
      ≡ (contains g e.closed_emitted || (finalize && same_file (some g) active))
unfolding emit_final
contains-emit_final g true (some f) e = contains-emit g f e
contains-emit_final g true none e = ground arith
contains-emit_final g false active e = ground arith

contains-insert_sorted :
    (g x : String) (xs : List String)
    → contains g (insert_sorted x xs) ≡ (str_eq g x || contains g xs)
unfolding insert_sorted contains
contains-insert_sorted g x [] = refl
contains-insert_sorted g x (y ∷ ys) = ground (arith, contains-insert_sorted g x ys)

contains-sorted : (g : String) (xs : List String) → contains g (sorted xs) ≡ contains g xs
unfolding sorted contains
contains-sorted g [] = refl
contains-sorted g (x ∷ xs) =
    ground (arith, contains-sorted g xs, contains-insert_sorted g x (sorted xs))

-- The file that dumpcap is taken to be writing: the last of the names in order.
abbrev pub active_of : Sight → Option String
active_of s = last (sorted s.names)

-- What makes a file closed at a poll: it was the active one, or stands on disk, and is not active
-- now; or it is active, and the capture has ended.
abbrev pub is_due : Bool → Sight → Tracker → String → Bool
is_due finalize s t g =
    (same_file (some g) t.previous_active && not (same_file (some g) (active_of s)))
    || (contains g s.names && not (same_file (some g) (active_of s)))
    || (finalize && same_file (some g) (active_of s))

abbrev pub CloseSpec : Bool → Sight → Tracker → CaptureStats → Tracker → Type 0
CloseSpec finalize s t stats after =
    (after.closed_emitted ≡ t.closed_emitted ++ stats.files_closed)
    × ((g : String)
        → contains g after.closed_emitted ≡ (contains g t.closed_emitted || is_due finalize s t g))
    × IsDistinct after.closed_emitted

-- A poll appends to the list of closed files exactly those that it reports, without naming any file
-- twice, and a file is then in the list exactly if it was before or is due: so every file on disk
-- but the active one is reported, and the active one only when the capture has ended.
pub snapshot-closes :
    (running finalize : Bool) (s : Sight) (t : Tracker)
    → IsDistinct t.closed_emitted
    → let (stats, after) = snapshot running finalize s t in CloseSpec finalize s t stats after
unfolding snapshot emissions
snapshot-closes running finalize s t d = (grown.extends, found, grown.distinct)
  where
    active : Option String
    active = active_of s

    start : Emission
    start = record { newly_closed = []; closed_emitted = t.closed_emitted }

    first : Emission
    first = emit_previous t.previous_active active start

    second : Emission
    second = emit_rotated active (sorted s.names) first

    grown : Extends t.closed_emitted (emit_final finalize active second)
    grown = emit_final-Extends t.closed_emitted finalize active second (
        emit_rotated-Extends t.closed_emitted active (sorted s.names) first (
          emit_previous-Extends t.closed_emitted t.previous_active active start
            (record { extends = sym (append-nil t.closed_emitted); distinct = d })))

    found :
        (g : String)
        → contains g (emit_final finalize active second).closed_emitted
          ≡ (contains g t.closed_emitted || is_due finalize s t g)
    found g = ground (
      arith,
      contains-emit_final g finalize active second,
      contains-emit_rotated g active (sorted s.names) first,
      contains-emit_previous g t.previous_active active start,
      contains-sorted g s.names,
    )

-- One poll: is dumpcap running, has the capture ended, and what is on disk.
pub record Poll : Type 0 where
  pub running : Bool
  pub finalize : Bool
  pub sight : Sight

-- Every file that a series of polls reports as closed, in order, and the tracker after it.
unfoldable pub run_polls : List Poll → Tracker → List String × Tracker
run_polls [] t = ([], t)
run_polls (p ∷ ps) t =
    let (stats, after) = snapshot p.running p.finalize p.sight t in
    let (later, final) = run_polls ps after in (stats.files_closed ++ later, final)

run_polls-extends :
    (ps : List Poll) (t : Tracker)
    → IsDistinct t.closed_emitted
    → ((run_polls ps t).1.closed_emitted ≡ t.closed_emitted ++ (run_polls ps t).0)
      × IsDistinct (run_polls ps t).1.closed_emitted
unfolding run_polls
run_polls-extends [] t d = (sym (append-nil t.closed_emitted), d)
run_polls-extends (p ∷ ps) t d =
    let (stats, after) = snapshot p.running p.finalize p.sight t in
    let (grows, _, d') = snapshot-closes p.running p.finalize p.sight t d in
    let (more, d'') = run_polls-extends ps after d' in
    (
      more
          ∙ (ap (λ l. l ++ (run_polls ps after).0) grows
              ∙ append_assoc t.closed_emitted stats.files_closed (run_polls ps after).0),
      d'',
    )

-- Over the life of a capture no file is reported as closed twice, however polls and the final
-- snapshot follow one another and whatever stands on disk at each.
pub run_polls-IsDistinct : (ps : List Poll) → IsDistinct (run_polls ps new_tracker).0
run_polls-IsDistinct ps = let (grows, d) = run_polls-extends ps new_tracker tt in rw grows at d
