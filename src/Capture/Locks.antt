-- ===== src/Capture/Locks.antt =====
-- The interface locks of marlinspike/capture/sessions.py, over any sequence of calls.
use net_discover.Prelude.{
  sym, ap, if◌then◌else◌, ◌∙◌, String, List, [], ◌∷◌, none, some, false, ◌≡◌, ◌≢◌, ◌⊎◌, refl, arith,
  str_eq, str_eq_iff, any, inl, inr, All,
}
use net_discover.Capture.Manager.{
  Manager, new_manager, holder_of, set_lock, pop_lock, some_other_lock, acquire_locks,
  acquire_interface, release_locks, release_interface, Operation, acquire, release, register,
  register_hub, drop_hub, drop, perform, perform_all,
}

abbrev Locks : Type 0
Locks = List (String × String)

module _ (i j s : String) where
  holder_of-set_lock :
      (ls : Locks) → holder_of j (set_lock i s ls) ≡ (if str_eq i j then some s else holder_of j ls)
  unfolding holder_of set_lock
  holder_of-set_lock [] = ground arith
  holder_of-set_lock ((k, h) ∷ ls) =
      ground (arith, str_eq_iff k i, str_eq_iff k j, str_eq_iff i j, holder_of-set_lock ls)

  holder_of-pop_lock : (ls : Locks) → i ≢ j → holder_of j (pop_lock i ls) ≡ holder_of j ls
  unfolding holder_of pop_lock
  holder_of-pop_lock [] d = refl
  holder_of-pop_lock ((k, h) ∷ ls) d =
      ground (arith, str_eq_iff k i, str_eq_iff k j, holder_of-pop_lock ls d)

  none-pop_lock : (ls : Locks) → holder_of j ls ≡ none → holder_of j (pop_lock i ls) ≡ none
  unfolding holder_of pop_lock
  none-pop_lock [] free = refl
  none-pop_lock ((k, h) ∷ ls) free = ground (arith, none-pop_lock ls)

-- Every lock is on `any`.
abbrev IsWildcard : Locks → Type 0
IsWildcard ls = some_other_lock ls ≡ false

set_lock-IsWildcard : (s : String) (ls : Locks) → IsWildcard ls → IsWildcard (set_lock "any" s ls)
unfolding set_lock any
set_lock-IsWildcard s [] w = refl
set_lock-IsWildcard s ((k, h) ∷ ls) w = ground (arith, set_lock-IsWildcard s ls)

pop_lock-IsWildcard : (i : String) (ls : Locks) → IsWildcard ls → IsWildcard (pop_lock i ls)
unfolding pop_lock any
pop_lock-IsWildcard i [] w = refl
pop_lock-IsWildcard i ((k, h) ∷ ls) w = ground (arith, pop_lock-IsWildcard i ls)

wildcard-holder : (j s : String) (ls : Locks) → IsWildcard ls → holder_of j ls ≡ some s → j ≡ "any"
unfolding holder_of any
wildcard-holder j s [] w held = absurd (ground (arith, held))
wildcard-holder j s ((k, h) ∷ ls) w held =
    ground (arith, str_eq_iff k "any", str_eq_iff k j, wildcard-holder j s ls, w, held)

-- Either `any` is free, or nothing else is held.
abbrev IsExclusive : Locks → Type 0
IsExclusive ls = (holder_of "any" ls ≡ none) ⊎ IsWildcard ls

acquire_locks-IsExclusive :
    (i s : String) (ls : Locks) → IsExclusive ls → IsExclusive (acquire_locks i s ls).1
unfolding acquire_locks
acquire_locks-IsExclusive i s ls x =
    ground (arith, str_eq_iff i "any", holder_of-set_lock i "any" s ls, set_lock-IsWildcard s ls)

release_locks-IsExclusive :
    (i s : String) (ls : Locks) → IsExclusive ls → IsExclusive (release_locks i s ls)
unfolding release_locks
release_locks-IsExclusive i s ls x =
    ground (arith, none-pop_lock i "any" s ls, pop_lock-IsWildcard i ls)

perform-IsExclusive :
    (op : Operation) (m : Manager)
    → IsExclusive m.iface_locks
    → IsExclusive (perform op m).iface_locks
unfolding perform acquire_interface release_interface register_hub drop_hub
perform-IsExclusive (acquire i s) m x = acquire_locks-IsExclusive i s m.iface_locks x
perform-IsExclusive (release i s) m x = release_locks-IsExclusive i s m.iface_locks x
perform-IsExclusive (register hub) m x = x
perform-IsExclusive (drop s) m x = x

perform_all-IsExclusive :
    (ops : List Operation) (m : Manager)
    → IsExclusive m.iface_locks
    → IsExclusive (perform_all ops m).iface_locks
unfolding perform_all
perform_all-IsExclusive [] m x = x
perform_all-IsExclusive (op ∷ ops) m x =
    perform_all-IsExclusive ops (perform op m) (perform-IsExclusive op m x)

none_not_some : {A : Type 0} {a : A} → none ≢ some a
none_not_some h = ground (arith, h)

abbrev pub locks_after : List Operation → Locks
locks_after ops = (perform_all ops new_manager).iface_locks

-- Whatever calls a new manager has had, where two interfaces are held neither of them is `any`.
pub perform_all-exclusive :
    (ops : List Operation) (i j s t : String)
    → holder_of i (locks_after ops) ≡ some s
    → holder_of j (locks_after ops) ≡ some t
    → i ≢ j
    → (i ≢ "any") × (j ≢ "any")
unfolding holder_of
perform_all-exclusive ops i j s t held_i held_j d =
    let ls = locks_after ops in
    elim (perform_all-IsExclusive ops new_manager (inl refl)) [
      | inl free ↦ (
        λ is. none_not_some (sym free ∙ ap (λ k. holder_of k ls) (sym is) ∙ held_i),
        λ is. none_not_some (sym free ∙ ap (λ k. holder_of k ls) (sym is) ∙ held_j),
      )
      | inr w ↦ absurd (d (wildcard-holder i s ls w held_i ∙ sym (wildcard-holder j t ls w held_j)))
    ]

acquire_locks-keeps :
    (i h j s : String) (ls : Locks)
    → h ≢ ""
    → holder_of i ls ≡ some h
    → holder_of i (acquire_locks j s ls).1 ≡ some h
unfolding acquire_locks
acquire_locks-keeps i h j s ls named held =
    ground
      (arith, held, str_eq_iff j i, str_eq_iff h "", str_eq_iff h s, holder_of-set_lock j i s ls)

release_locks-keeps :
    (i h j s : String) (ls : Locks)
    → holder_of i ls ≡ some h
    → (j ≢ i) ⊎ (s ≢ h)
    → holder_of i (release_locks j s ls) ≡ some h
unfolding release_locks
release_locks-keeps i h j s ls held other =
    ground (arith, held, str_eq_iff h s, str_eq_iff j i, holder_of-pop_lock j i s ls)

-- The call is no release of the interface by its holder.
abbrev pub IsForeign : String → String → Operation → Type 0
IsForeign i h (release j s) = (j ≢ i) ⊎ (s ≢ h)
IsForeign i h _ = Unit

perform-keeps :
    (i h : String) (op : Operation) (m : Manager)
    → h ≢ ""
    → holder_of i m.iface_locks ≡ some h
    → IsForeign i h op
    → holder_of i (perform op m).iface_locks ≡ some h
unfolding perform acquire_interface release_interface register_hub drop_hub
perform-keeps i h (acquire j s) m named held f =
    acquire_locks-keeps i h j s m.iface_locks named held
perform-keeps i h (release j s) m named held f = release_locks-keeps i h j s m.iface_locks held f
perform-keeps i h (register hub) m named held f = held
perform-keeps i h (drop s) m named held f = held

-- An interface stays with the session that holds it through any calls of other sessions, and its
-- own, until that session releases it; for a session with a name.
pub perform_all-keeps :
    (i h : String) (ops : List Operation) (m : Manager)
    → h ≢ ""
    → holder_of i m.iface_locks ≡ some h
    → All (IsForeign i h) ops
    → holder_of i (perform_all ops m).iface_locks ≡ some h
unfolding perform_all
perform_all-keeps i h [] m named held f = held
perform_all-keeps i h (op ∷ ops) m named held f =
    perform_all-keeps i h ops (perform op m) named (perform-keeps i h op m named held f.0) f.1
