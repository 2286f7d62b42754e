-- ===== src/Gateway/Window.antt =====
-- The limiter of marlinspike/fleet/gateway/server.py against the list of all attempts.
use net_discover.Prelude.{
  none, find_where, Unique, Unique-keep, subst, ℕ, suc, ◌+◌, ◌≤◌, String, List, [], ◌∷◌, ◌++◌, Bool,
  false, ◌≡◌, ◌∙◌, refl, sym, ap, arith, ltb, leb, if◌then◌else◌, str_eq, str_eq_iff, length,
  length-append, any, keep, count_where, Bool-cases, inl, inr,
}
use net_discover.Gateway.Limiter.{
  attempts_per_window, Attempts, attempts_of, set_attempts, is_fresh, prune, auth_rate_limited,
  run_attempts, in_window, IsOrdered,
}

module _ (window : ℕ) where
  count-keep-fresh :
      (old now : ℕ) (ts : List ℕ)
      → old ≤ now
      → count_where (is_fresh window now) (keep (is_fresh window old) ts)
        ≡ count_where (is_fresh window now) ts
  unfolding count_where keep
  count-keep-fresh old now [] le = refl
  count-keep-fresh old now (t ∷ ts) le = ground (arith, le, count-keep-fresh old now ts le)

  count-append :
      (p : ℕ → Bool) (ts us : List ℕ)
      → count_where p (ts ++ us) ≡ count_where p ts + count_where p us
  unfolding count_where
  count-append p [] us = omega arith
  count-append p (t ∷ ts) us = ground (arith, count-append p ts us)

  none_fresh :
      (old now : ℕ) (ts : List ℕ)
      → old ≤ now
      → any (is_fresh window old) ts ≡ false
      → count_where (is_fresh window now) ts ≡ 0
  unfolding count_where any
  none_fresh old now [] le none_left = refl
  none_fresh old now (t ∷ ts) le none_left = ground (arith, le, none_left, none_fresh old now ts le)

  length-keep-count : (p : ℕ → Bool) (ts : List ℕ) → length (keep p ts) ≡ count_where p ts
  unfolding count_where keep
  length-keep-count p [] = refl
  length-keep-count p (t ∷ ts) = ground (arith, length-keep-count p ts)

  attempts_of-set_attempts :
      (ip j : String) (ts : List ℕ) (a : Attempts)
      → attempts_of j (set_attempts ip ts a) ≡ (if str_eq ip j then ts else attempts_of j a)
  unfolding attempts_of set_attempts
  attempts_of-set_attempts ip j ts [] = ground arith
  attempts_of-set_attempts ip j ts ((k, us) ∷ rest) = ground (
    arith,
    str_eq_iff k ip,
    str_eq_iff k j,
    str_eq_iff ip j,
    attempts_of-set_attempts ip j ts rest,
  )

  abbrev named : String → String × List ℕ → Bool
  named k e = str_eq e.0 k

  -- A dictionary holds a key once.
  abbrev IsDict : Attempts → Type 0
  IsDict = Unique (λ x y. named x.0 y)

  attempts_of-absent :
      (k : String) (a : Attempts) → find_where (named k) a ≡ none → attempts_of k a ≡ []
  unfolding find_where attempts_of
  attempts_of-absent k [] absent = refl
  attempts_of-absent k ((j, ts) ∷ rest) absent = ground (arith, absent, attempts_of-absent k rest)

  absent-set_attempts :
      (k ip : String) (ts : List ℕ) (a : Attempts)
      → find_where (named k) a ≡ none
      → str_eq ip k ≡ false
      → find_where (named k) (set_attempts ip ts a) ≡ none
  unfolding find_where set_attempts
  absent-set_attempts k ip ts [] absent other = ground (arith, other)
  absent-set_attempts k ip ts ((j, us) ∷ rest) absent other =
      ground (arith, absent, other, absent-set_attempts k ip ts rest)

  set_attempts-IsDict :
      (ip : String) (ts : List ℕ) (a : Attempts) → IsDict a → IsDict (set_attempts ip ts a)
  unfolding set_attempts find_where
  set_attempts-IsDict ip ts [] d = (refl, tt)
  set_attempts-IsDict ip ts ((j, us) ∷ rest) d = elim (Bool-cases (str_eq j ip)) [
    | inl same ↦ rw same d
    | inr other ↦ rw other (
      absent-set_attempts j ip ts rest d.0
          (ground (arith, other, str_eq_iff j ip, str_eq_iff ip j)),
      set_attempts-IsDict ip ts rest d.1,
    )
  ]

  prune-IsDict : (now : ℕ) (a : Attempts) → IsDict a → IsDict (prune window now a)
  unfolding prune
  prune-IsDict now a d = elim (Bool-cases (ltb 10_000 (length a))) [
    | inl many ↦
        rw (prune, many) (Unique-keep (λ x y. named x.0 y) (λ e. any (is_fresh window now) e.1) a d)
    | inr few ↦ rw (prune, few) d
  ]

  count-keep :
      (old now : ℕ) (ip : String) (a : Attempts)
      → old ≤ now
      → IsDict a
      → count_where
          (is_fresh window now)
          (attempts_of ip (keep (λ e. any (is_fresh window old) e.1) a))
        ≡ count_where (is_fresh window now) (attempts_of ip a)
  unfolding attempts_of keep count_where
  count-keep old now ip [] le d = refl
  count-keep old now ip ((k, ts) ∷ rest) le d = elim (Bool-cases (any (is_fresh window old) ts)) [
    | inl kept ↦ ground (arith, kept, count-keep old now ip rest le d.1)
    | inr dropped ↦ elim (Bool-cases (str_eq k ip)) [
      | inr other ↦ ground (arith, dropped, other, count-keep old now ip rest le d.1)
      | inl same ↦
          let gone : attempts_of ip rest ≡ [] =
            attempts_of-absent ip rest
              (subst (λ n. find_where (named n) rest ≡ none) ((str_eq_iff k ip).0 same) d.0) in
          rw (dropped, same)
            (count-keep old now ip rest le d.1
              ∙ ap (count_where (is_fresh window now)) gone
              ∙ sym (none_fresh old now ts le dropped))
    ]
  ]

  count-prune :
      (old now : ℕ) (ip : String) (a : Attempts)
      → old ≤ now
      → IsDict a
      → count_where (is_fresh window now) (attempts_of ip (prune window old a))
        ≡ count_where (is_fresh window now) (attempts_of ip a)
  unfolding prune
  count-prune old now ip a le d = elim (Bool-cases (ltb 10_000 (length a))) [
    | inl many ↦ rw (prune, many) (count-keep old now ip a le d)
    | inr few ↦ rw (prune, few) refl
  ]

  run_attempts-IsDict : (before : List (String × ℕ)) → IsDict (run_attempts window before)
  unfolding run_attempts auth_rate_limited
  run_attempts-IsDict [] = tt
  run_attempts-IsDict ((ip, t) ∷ before) =
      prune-IsDict t _
        (set_attempts-IsDict ip _ (run_attempts window before) (run_attempts-IsDict before))

  pub IsOrdered-later :
      (t now : ℕ) (before : List (String × ℕ)) → t ≤ now → IsOrdered t before → IsOrdered now before
  IsOrdered-later t now [] le o = tt
  IsOrdered-later t now ((ip, u) ∷ before) le o = (omega (arith, le, o.0), o.1)

  count-attempt :
      (t now : ℕ) (us : List ℕ)
      → t ≤ now
      → count_where (is_fresh window now) (keep (is_fresh window t) us ++ t ∷ []) ≡ (
          if is_fresh window now t
          then suc (count_where (is_fresh window now) us)
          else count_where (is_fresh window now) us)
  unfolding count_where
  count-attempt t now us le = ground (
    arith,
    count-append (is_fresh window now) (keep (is_fresh window t) us) (t ∷ []),
    count-keep-fresh t now us le,
  )

  -- What is kept for an address, as far as it is in the window, is what the list of attempts holds.
  count-run_attempts :
      (now : ℕ) (ip : String) (before : List (String × ℕ))
      → IsOrdered now before
      → count_where (is_fresh window now) (attempts_of ip (run_attempts window before))
        ≡ count_where (in_window window ip now) before
  unfolding run_attempts auth_rate_limited attempts_of count_where
  count-run_attempts now ip [] o = refl
  count-run_attempts now ip ((k, t) ∷ before) o =
      let a = run_attempts window before in
      let ts = keep (is_fresh window t) (attempts_of k a) ++ t ∷ [] in
      let rest = count-run_attempts now ip before (IsOrdered-later t now before o.0 o.1) in
      count-prune t now ip (set_attempts k ts a) o.0
        (set_attempts-IsDict k ts a (run_attempts-IsDict before))
      ∙ ap (count_where (is_fresh window now)) (attempts_of-set_attempts k ip ts a)
      ∙ elim (Bool-cases (str_eq k ip)) [
        | inl same ↦
            let c =
              ap (λ n. count_where (is_fresh window now) (attempts_of n a))
                ((str_eq_iff k ip).0 same)
              ∙ rest in
            ground (arith, same, count-attempt t now (attempts_of k a) o.0, c)
        | inr other ↦ ground (arith, other, rest)
      ]

  -- An attempt is refused exactly if its address has made twenty or more in the window before it,
  -- refused ones included, whatever the other addresses do, as long as the clock does not go back.
  pub auth_rate_limited_iff :
      (before : List (String × ℕ)) (ip : String) (now : ℕ)
      → IsOrdered now before
      → (auth_rate_limited window ip now (run_attempts window before)).0
        ≡ leb attempts_per_window (count_where (in_window window ip now) before)
  unfolding auth_rate_limited
  auth_rate_limited_iff before ip now o =
      let us = attempts_of ip (run_attempts window before) in
      ground (
        arith,
        length-append (keep (is_fresh window now) us) (now ∷ []),
        length-keep-count (is_fresh window now) us,
        count-run_attempts now ip before o,
      )
