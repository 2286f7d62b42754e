-- ===== src/Capture/Scenarios.antt =====
-- Calls of the registry of marlinspike/capture/sessions.py, and the theorems about it at those calls.
use net_discover.Prelude.{
  ◌*◌, ◌≤◌, ◌<◌, ◌⊎◌, ◌↔◌, true, contains, String, List, [], ◌∷◌, some, ◌≡◌, ◌≢◌, refl, arith,
  str_eq_iff, inr,
}
use net_discover.Capture.Manager.{
  new_manager, holder_of, acquire_interface, Operation, acquire, release, perform_all,
}
use net_discover.Capture.Policy.{
  resolve_interface_allowlist, applied, refused, apply_max_total_bytes_cap, IsAllowed,
}
use net_discover.Capture.Limits.{
  resolve_interface_allowlist_iff, Limited, apply_max_total_bytes_cap-Limited,
}
use net_discover.Capture.Locks.{locks_after, perform_all-exclusive, perform_all-keeps}

abbrev eth0 : String
eth0 = "eth0"

abbrev eth1 : String
eth1 = "eth1"

abbrev a : String
a = "a"

abbrev b : String
b = "b"

abbrev calls : List Operation
calls = acquire eth0 a ∷ acquire eth1 b ∷ acquire "any" "c" ∷ acquire eth0 "d" ∷ []

any_refused : (acquire_interface "any" "c" (perform_all calls new_manager)).0 ≡ some a
unfolding acquire_interface perform_all
any_refused = refl

eth0-a : holder_of eth0 (locks_after calls) ≡ some a
unfolding holder_of perform_all
eth0-a = refl

eth1-b : holder_of eth1 (locks_after calls) ≡ some b
unfolding holder_of perform_all
eth1-b = refl

eth0_not_eth1 : eth0 ≢ eth1
eth0_not_eth1 h = ground (arith, str_eq_iff eth0 eth1, h)

perform_all-exclusive_example : (eth0 ≢ "any") × (eth1 ≢ "any")
perform_all-exclusive_example =
    perform_all-exclusive calls eth0 eth1 a b eth0-a eth1-b eth0_not_eth1

a_named : a ≢ ""
a_named h = ground (arith, str_eq_iff a "", h)

b_not_a : b ≢ a
b_not_a h = ground (arith, str_eq_iff b a, h)

perform_all-keeps_example :
    holder_of eth0
      (perform_all
        (acquire eth0 b ∷ release eth0 b ∷ [])
        (perform_all calls new_manager)).iface_locks
    ≡ some a
perform_all-keeps_example =
    perform_all-keeps eth0 a (acquire eth0 b ∷ release eth0 b ∷ []) (perform_all calls new_manager)
      a_named eth0-a (tt, (inr b_not_a, tt))

-- Ten files of 200000 KiB, and 64 MiB to keep them in.
ten_files :
    apply_max_total_bytes_cap 200_000 10 (some 67_108_864)
    ≡ applied 6_553 10 2_048_000_000 67_102_720
unfolding apply_max_total_bytes_cap
ten_files = refl

apply_max_total_bytes_cap-Limited_example :
    ((67_108_864 < 1_024)
      × (apply_max_total_bytes_cap 200_000 10 (some 67_108_864) ≡ refused (200_000 * 1_024 * 10)))
    ⊎ ((1_024 ≤ 67_108_864) × Limited 200_000 10 67_108_864)
apply_max_total_bytes_cap-Limited_example = apply_max_total_bytes_cap-Limited 200_000 10 67_108_864

resolve_interface_allowlist_iff_example :
    IsAllowed eth0 (resolve_interface_allowlist (eth0 ∷ eth1 ∷ []) (some (eth0 ∷ []))) ↔ (
      ((eth0 ∷ eth1 ∷ [] ≡ []) ⊎ (contains eth0 (eth0 ∷ eth1 ∷ []) ≡ true))
      × IsAllowed eth0 (some (eth0 ∷ [])))
resolve_interface_allowlist_iff_example =
    resolve_interface_allowlist_iff (eth0 ∷ eth1 ∷ []) (some (eth0 ∷ [])) eth0
