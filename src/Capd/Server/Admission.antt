-- ===== src/Capd/Server/Admission.antt =====
-- A capture that _start_session (marlinspike-capd/capd/server.py) admits clashes with no other.
use net_discover.Prelude.{
  ℕ, ◌<◌, String, List, [], ◌∷◌, none, false, ◌≡◌, arith, str_eq, str_eq_iff, Bool-cases, inl, inr,
}
use net_discover.Capd.Supervisor.Process.{CaptureConfig, Supervisor, ok, new_supervisor, start}
use net_discover.Capd.Server.Sessions.{
  StartEnv, find_session, set_session, set_heap, first_conflict, launch,
}
use net_discover.Capd.Server.Clashes.{clash, Apart, Exclusive, Keyed, Below}

-- A new capture `sup` of the session `k`, at the fresh place `n` of the heap.
module _ (k : String) (n : ℕ) (sup : Supervisor) (heap : ℕ → Supervisor) where
  abbrev pub grown : ℕ → Supervisor
  grown = set_heap heap n sup

  pub grown-below : (h : ℕ) → h < n → grown h ≡ heap h
  unfolding set_heap
  grown-below h b = ground arith

  pub grown_self : grown n ≡ sup
  unfolding set_heap
  grown_self = ground arith

  pub Apart-grown :
      (s : Supervisor) (l : List (String × ℕ)) → Below n l → Apart heap s l → Apart grown s l
  Apart-grown s [] b a = tt
  Apart-grown s ((sid, h) ∷ rest) b a =
      (ground (arith, grown-below h b.0, a.0), Apart-grown s rest b.1 a.1)

  pub Exclusive-grown : (l : List (String × ℕ)) → Below n l → Exclusive heap l → Exclusive grown l
  Exclusive-grown [] b x = tt
  Exclusive-grown ((sid, h) ∷ rest) b x = (
    let e = grown-below h b.0 in rw e (Apart-grown (heap h) rest b.1 x.0),
    Exclusive-grown rest b.1 x.1,
  )

  -- What the search for a conflict found nothing in, apart from the session itself.
  pub Apart-free :
      (l : List (String × ℕ))
      → Below n l
      → find_session k l ≡ none
      → first_conflict k sup.cfg.interface heap l ≡ none
      → Apart grown sup l
  unfolding find_session first_conflict
  Apart-free [] b f c = tt
  Apart-free ((sid, h) ∷ rest) b f c =
      (ground (arith, grown-below h b.0), Apart-free rest b.1 (ground arith) (ground arith))

  pub Apart-set :
      (s : Supervisor) (l : List (String × ℕ))
      → Below n l
      → clash s sup ≡ false
      → Apart heap s l
      → Apart grown s (set_session k n l)
  unfolding set_session
  Apart-set s [] b new a = (ground (arith, grown_self), tt)
  Apart-set s ((sid, h) ∷ rest) b new a = elim (Bool-cases (str_eq sid k)) [
    | inl same ↦ rw same (ground (arith, grown_self), Apart-grown s rest b.1 a.1)
    | inr other ↦ rw other (ground (arith, grown-below h b.0, a.0), Apart-set s rest b.1 new a.1)
  ]

  pub Exclusive-set :
      (l : List (String × ℕ))
      → Below n l
      → Keyed l
      → first_conflict k sup.cfg.interface heap l ≡ none
      → Exclusive heap l
      → Exclusive grown (set_session k n l)
  unfolding set_session first_conflict
  Exclusive-set [] b u c x = (tt, tt)
  Exclusive-set ((sid, h) ∷ rest) b u c x = elim (Bool-cases (str_eq sid k)) [
    | inl same ↦ rw same (
      rw grown_self (Apart-free rest b.1 (ground (arith, str_eq_iff sid k, u.0)) (ground arith)),
      Exclusive-grown rest b.1 x.1,
    )
    | inr other ↦ rw other (
      (let e = grown-below h b.0 in
          rw e (
            Apart-set (heap h) rest b.1
              (ground (
                arith,
                str_eq_iff sup.cfg.interface (heap h).cfg.interface,
                str_eq_iff (heap h).cfg.interface sup.cfg.interface,
              ))
              x.0)),
      Exclusive-set rest b.1 u.1 (ground arith) x.1,
    )
  ]

pub launch-interface :
    (env : StartEnv) (cfg : CaptureConfig) (sup : Supervisor)
    → launch env cfg ≡ ok sup
    → sup.cfg ≡ cfg
unfolding launch new_supervisor start
launch-interface env cfg sup e = ground arith
