-- ===== src/Fleet/Badge.antt =====
-- The health badge of an agent: _compute_health of marlinspike/fleet/api.py.
use net_discover.Prelude.{
  ℕ, Option, none, some, Bool, true, false, ◌||◌, if◌then◌else◌, leb, str_eq, not,
}
use net_discover.Fleet.Agents.{pending, online, revoked, Reading, number, infinity, Health, Agent}

abbrev pub warn_percent : ℕ
warn_percent = 75

abbrev pub critical_percent : ℕ
critical_percent = 90

abbrev pub at_least : ℕ → Option Reading → Bool
at_least limit (some (number n)) = leb limit n
at_least limit (some infinity) = true
at_least limit _ = false

unfoldable pub any_resource : ℕ → Health → Bool
any_resource limit h =
    at_least limit h.cpu_percent
    || (at_least limit h.memory_percent || at_least limit h.disk_percent)

pub data Badge : Type 0 where
  offline critical warning healthy : Badge

-- `agent.last_error or agent.capd_reachable is False`
unfoldable pub is_failing : Health → Bool
is_failing h =
    elim h.last_error [ none ↦ false | some e ↦ not (str_eq e "") ]
    || elim h.capd_reachable [ none ↦ false | some up ↦ not up ]

unfoldable pub compute_health : Agent → Option Badge
unfolding is_failing any_resource
compute_health a = elim a.status [
  | revoked ↦ none
  | pending ↦ none
  | online ↦ some (
      if is_failing a.health
      then critical
      else if any_resource critical_percent a.health
      then critical
      else if any_resource warn_percent a.health
      then warning
      else healthy)
  | _ ↦ some offline
]
