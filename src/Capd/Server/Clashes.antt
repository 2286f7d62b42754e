-- ===== src/Capd/Server/Clashes.antt =====
-- The table of sessions of marlinspike-capd/capd/server.py: which captures clash, and what keeps a
-- table without clashes as it is.
use net_discover.Prelude.{
  ℕ, suc, ◌<◌, String, List, [], ◌∷◌, none, Bool, true, false, ◌&&◌, ◌≡◌, refl, arith, str_eq,
  str_eq_iff, Bool-cases, inl, inr,
}
use net_discover.Capd.Supervisor.Process.{Supervisor, stop, poll, is_running}
use net_discover.Capd.Server.Sessions.{
  PollEnv, find_session, set_session, pop_session, set_heap, conflict,
}
use net_discover.Capd.Server.Events.{exit_proc}

-- Two captures run on interfaces that conflict.
abbrev pub clash : Supervisor → Supervisor → Bool
clash s t = (is_running s && is_running t) && conflict s.cfg.interface t.cfg.interface

abbrev pub Apart : (ℕ → Supervisor) → Supervisor → List (String × ℕ) → Type 0
Apart heap s [] = Unit
Apart heap s ((sid, h) ∷ rest) = (clash s (heap h) ≡ false) × Apart heap s rest

-- No two sessions of the table clash.
abbrev pub Exclusive : (ℕ → Supervisor) → List (String × ℕ) → Type 0
Exclusive heap [] = Unit
Exclusive heap ((sid, h) ∷ rest) = Apart heap (heap h) rest × Exclusive heap rest

abbrev pub Keyed : List (String × ℕ) → Type 0
Keyed [] = Unit
Keyed ((sid, h) ∷ rest) = (find_session sid rest ≡ none) × Keyed rest

abbrev pub Below : ℕ → List (String × ℕ) → Type 0
Below n [] = Unit
Below n ((sid, h) ∷ rest) = (h < n) × Below n rest

-- Nothing runs that did not run before, and no interface has changed.
abbrev pub Quieter : Supervisor → Supervisor → Type 0
Quieter s s' = (is_running s' ≡ true → is_running s ≡ true) × (s'.cfg.interface ≡ s.cfg.interface)

pub Apart-Quieter :
    (heap heap' : ℕ → Supervisor) (s s' : Supervisor)
    → ((g : ℕ) → Quieter (heap g) (heap' g))
    → Quieter s s'
    → (l : List (String × ℕ)) → Apart heap s l
    → Apart heap' s' l
Apart-Quieter heap heap' s s' q qs [] a = tt
Apart-Quieter heap heap' s s' q qs ((sid, h) ∷ rest) a =
    (ground (arith, (q h).0, (q h).1, qs.0, qs.1, a.0), Apart-Quieter heap heap' s s' q qs rest a.1)

pub Exclusive-Quieter :
    (heap heap' : ℕ → Supervisor)
    → ((g : ℕ) → Quieter (heap g) (heap' g))
    → (l : List (String × ℕ)) → Exclusive heap l
    → Exclusive heap' l
Exclusive-Quieter heap heap' q [] x = tt
Exclusive-Quieter heap heap' q ((sid, h) ∷ rest) x = (
  Apart-Quieter heap heap' (heap h) (heap' h) q (q h) rest x.0,
  Exclusive-Quieter heap heap' q rest x.1,
)

pub set_heap-Quieter :
    (heap : ℕ → Supervisor) (h : ℕ) (s : Supervisor)
    → Quieter (heap h) s
    → (g : ℕ) → Quieter (heap g) (set_heap heap h s g)
unfolding set_heap
set_heap-Quieter heap h s q g = ground (arith, q.0, q.1)

pub Exclusive-set_heap :
    (heap : ℕ → Supervisor) (h : ℕ) (s : Supervisor)
    → Quieter (heap h) s
    → (l : List (String × ℕ)) → Exclusive heap l
    → Exclusive (set_heap heap h s) l
Exclusive-set_heap heap h s q =
    Exclusive-Quieter heap (set_heap heap h s) (set_heap-Quieter heap h s q)

pub stop-Quieter :
    (env : PollEnv) (s : Supervisor)
    → Quieter s (stop env.ending env.summary env.lines env.sight s).1
unfolding stop is_running
stop-Quieter env s = ground arith

pub poll-Quieter :
    (env : PollEnv) (s : Supervisor) → Quieter s (poll env.summary env.lines env.sight s).1
unfolding poll is_running
poll-Quieter env s = ground arith

pub exit_proc-Quieter : (code : ℕ) (s : Supervisor) → Quieter s (exit_proc code s)
unfolding exit_proc
exit_proc-Quieter code s = ground arith

module _ (k : String) where
  pub Apart-pop :
      (heap : ℕ → Supervisor) (s : Supervisor) (l : List (String × ℕ))
      → Apart heap s l
      → Apart heap s (pop_session k l)
  unfolding pop_session
  Apart-pop heap s [] a = tt
  Apart-pop heap s ((sid, h) ∷ rest) a = elim (Bool-cases (str_eq sid k)) [
    | inl same ↦ rw same a.1
    | inr other ↦ rw other (a.0, Apart-pop heap s rest a.1)
  ]

  pub Exclusive-pop :
      (heap : ℕ → Supervisor) (l : List (String × ℕ))
      → Exclusive heap l
      → Exclusive heap (pop_session k l)
  unfolding pop_session
  Exclusive-pop heap [] x = tt
  Exclusive-pop heap ((sid, h) ∷ rest) x = elim (Bool-cases (str_eq sid k)) [
    | inl same ↦ rw same x.1
    | inr other ↦ rw other (Apart-pop heap (heap h) rest x.0, Exclusive-pop heap rest x.1)
  ]

  pub Below-pop : (n : ℕ) (l : List (String × ℕ)) → Below n l → Below n (pop_session k l)
  unfolding pop_session
  Below-pop n [] b = tt
  Below-pop n ((sid, h) ∷ rest) b = elim (Bool-cases (str_eq sid k)) [
    | inl same ↦ rw same b.1
    | inr other ↦ rw other (b.0, Below-pop n rest b.1)
  ]

  pub find_session-pop_none :
      (j : String) (l : List (String × ℕ))
      → find_session j l ≡ none
      → find_session j (pop_session k l) ≡ none
  unfolding pop_session find_session
  find_session-pop_none j [] f = refl
  find_session-pop_none j ((sid, h) ∷ rest) f = ground (arith, find_session-pop_none j rest)

  pub Keyed-pop : (l : List (String × ℕ)) → Keyed l → Keyed (pop_session k l)
  unfolding pop_session
  Keyed-pop [] u = tt
  Keyed-pop ((sid, h) ∷ rest) u = elim (Bool-cases (str_eq sid k)) [
    | inl same ↦ rw same u.1
    | inr other ↦ rw other (find_session-pop_none sid rest u.0, Keyed-pop rest u.1)
  ]

module _ (k : String) (n : ℕ) where
  pub find_session-set_none :
      (j : String) (l : List (String × ℕ))
      → str_eq j k ≡ false
      → find_session j l ≡ none
      → find_session j (set_session k n l) ≡ none
  unfolding set_session find_session
  find_session-set_none j [] d f = ground (arith, str_eq_iff j k, str_eq_iff k j)
  find_session-set_none j ((sid, h) ∷ rest) d f = ground (arith, find_session-set_none j rest)

  pub Keyed-set : (l : List (String × ℕ)) → Keyed l → Keyed (set_session k n l)
  unfolding set_session find_session
  Keyed-set [] u = (refl, tt)
  Keyed-set ((sid, h) ∷ rest) u = elim (Bool-cases (str_eq sid k)) [
    | inl same ↦ rw same u
    | inr other ↦ rw other (find_session-set_none sid rest other u.0, Keyed-set rest u.1)
  ]

  pub Below-set : (l : List (String × ℕ)) → Below n l → Below (suc n) (set_session k n l)
  unfolding set_session
  Below-set [] b = omega arith
  Below-set ((sid, h) ∷ rest) b = elim (Bool-cases (str_eq sid k)) [
    | inl same ↦ rw same (omega arith, Below-suc rest b.1)
    | inr other ↦ rw other (omega arith, Below-set rest b.1)
  ]
    where
      Below-suc : (l : List (String × ℕ)) → Below n l → Below (suc n) l
      Below-suc [] c = tt
      Below-suc ((sid', h') ∷ rest') c = (omega arith, Below-suc rest' c.1)
