-- ===== src/Capture/Manager.antt =====
-- CaptureSessionManager of marlinspike/capture/sessions.py. Its dictionaries are lists of pairs in the
-- order of insertion; each method runs under the manager's lock.
use net_discover.Prelude.{
  String, List, [], ◌∷◌, Option, none, some, Bool, false, ◌&&◌, not, if◌then◌else◌, str_eq, any, ℕ,
  count_where,
}

-- A StatsHub, as the manager sees it.
pub record Hub : Type 0 where
  pub session_uuid : String
  pub running : Bool

pub record Manager : Type 0 where
  pub hubs : List Hub
  -- Interfaces with the sessions that hold them.
  pub iface_locks : List (String × String)

abbrev pub new_manager : Manager
new_manager = record { hubs = []; iface_locks = [] }

unfoldable pub holder_of : String → List (String × String) → Option String
holder_of i [] = none
holder_of i ((k, s) ∷ rest) = let later = holder_of i rest in if str_eq k i then some s else later

-- `self._iface_locks[interface] = session_uuid`
unfoldable pub set_lock : String → String → List (String × String) → List (String × String)
set_lock i s [] = (i, s) ∷ []
set_lock i s ((k, h) ∷ rest) =
    let later = set_lock i s rest in if str_eq k i then (k, s) ∷ rest else (k, h) ∷ later

-- `self._iface_locks.pop(interface, None)`
unfoldable pub pop_lock : String → List (String × String) → List (String × String)
pop_lock i [] = []
pop_lock i ((k, h) ∷ rest) =
    let later = pop_lock i rest in if str_eq k i then rest else (k, h) ∷ later

-- `holder and holder != session_uuid`
abbrev pub is_other : Option String → String → Bool
is_other none s = false
is_other (some h) s = not (str_eq h "") && not (str_eq h s)

-- The session of the first lock.
abbrev pub first_holder : List (String × String) → Option String
first_holder [] = none
first_holder ((k, h) ∷ rest) = some h

abbrev pub some_other_lock : List (String × String) → Bool
some_other_lock ls = any (λ l. not (str_eq l.0 "any")) ls

-- `none` is success, and else the holder.
unfoldable pub acquire_locks :
    String → String → List (String × String) → Option String × List (String × String)
unfolding holder_of set_lock any
acquire_locks interface session ls =
    let holder = holder_of interface ls in
    let wildcard = holder_of "any" ls in
    if is_other holder session
    then (holder, ls)
    else if str_eq interface "any" && some_other_lock ls
    then (first_holder ls, ls)
    else elim wildcard [
      | some w ↦
          if str_eq interface "any" then (none, set_lock interface session ls) else (some w, ls)
      | none ↦ (none, set_lock interface session ls)
    ]

unfoldable pub acquire_interface : String → String → Manager → Option String × Manager
unfolding acquire_locks
acquire_interface interface session m =
    let (held, ls) = acquire_locks interface session m.iface_locks in
    (held, record m { iface_locks = ls })

unfoldable pub release_locks : String → String → List (String × String) → List (String × String)
unfolding holder_of pop_lock
release_locks interface session ls = elim (holder_of interface ls) [
  | none ↦ ls
  | some h ↦ if str_eq h session then pop_lock interface ls else ls
]

unfoldable pub release_interface : String → String → Manager → Manager
unfolding release_locks
release_interface interface session m = record m {
  iface_locks = release_locks interface session m.iface_locks;
}

unfoldable pub set_hub : Hub → List Hub → List Hub
set_hub hub [] = hub ∷ []
set_hub hub (g ∷ hs) =
    let later = set_hub hub hs in
    if str_eq g.session_uuid hub.session_uuid then hub ∷ hs else g ∷ later

unfoldable pub register_hub : Hub → Manager → Manager
unfolding set_hub
register_hub hub m = record m { hubs = set_hub hub m.hubs }

unfoldable pub find_hub : String → List Hub → Option Hub
find_hub s [] = none
find_hub s (g ∷ hs) = let later = find_hub s hs in if str_eq g.session_uuid s then some g else later

unfoldable pub get_hub : String → Manager → Option Hub
unfolding find_hub
get_hub s m = find_hub s m.hubs

unfoldable pub pop_hub : String → List Hub → List Hub
pop_hub s [] = []
pop_hub s (g ∷ hs) = let later = pop_hub s hs in if str_eq g.session_uuid s then hs else g ∷ later

unfoldable pub drop_hub : String → Manager → Option Hub × Manager
unfolding find_hub pop_hub
drop_hub s m = (find_hub s m.hubs, record m { hubs = pop_hub s m.hubs })

unfoldable pub active_session_count : Manager → ℕ
unfolding count_where
active_session_count m = count_where (λ h. h.running) m.hubs

-- A call of the manager.
pub data Operation : Type 0 where
  acquire release : (interface session : String) → Operation
  register : Hub → Operation
  drop : (session : String) → Operation

unfoldable pub perform : Operation → Manager → Manager
unfolding acquire_interface release_interface register_hub drop_hub
perform (acquire i s) m = (acquire_interface i s m).1
perform (release i s) m = release_interface i s m
perform (register hub) m = register_hub hub m
perform (drop s) m = (drop_hub s m).1

unfoldable pub perform_all : List Operation → Manager → Manager
unfolding perform
perform_all [] m = m
perform_all (c ∷ cs) m = perform_all cs (perform c m)
