-- ===== src/Capture/Policy.antt =====
-- The capture policy of marlinspike/capture/api.py: _resolve_interface_allowlist and
-- _apply_max_total_bytes_cap.
use net_discover.Prelude.{
  ℕ, zero, suc, ◌*◌, ◌/◌, String, List, [], ◌∷◌, Option, none, some, true, ◌&&◌, ◌≡◌, min, max, ltb,
  if◌then◌else◌, contains, keep,
}

-- `system` is empty, and `project` none, where there is no restriction.
unfoldable pub resolve_interface_allowlist :
    List String → Option (List String) → Option (List String)
unfolding keep contains
resolve_interface_allowlist [] project = project
resolve_interface_allowlist (s ∷ ss) none = some (s ∷ ss)
resolve_interface_allowlist (s ∷ ss) (some project) = some (keep (λ i. contains i (s ∷ ss)) project)

-- The ring that is applied, with its bytes as requested and as applied, or a refusal.
pub data Ring : Type 0 where
  applied : (filesize_kb files requested_bytes applied_bytes : ℕ) → Ring
  refused : (requested_bytes : ℕ) → Ring

abbrev pub file_share : ℕ → ℕ → ℕ → ℕ
file_share max_total_kb ring_filesize_kb files = min ring_filesize_kb (max 1 (max_total_kb / files))

-- The `while` loop: fewer files until they fit.
unfoldable pub shrink : ℕ → ℕ → ℕ → ℕ → ℕ × ℕ
shrink max_total_kb ring_filesize_kb zero filesize_kb = (zero, filesize_kb)
shrink max_total_kb ring_filesize_kb (suc n) filesize_kb =
    let fewer =
      shrink max_total_kb ring_filesize_kb n (file_share max_total_kb ring_filesize_kb n) in
    if ltb 1 (suc n) && ltb max_total_kb (suc n * filesize_kb) then fewer else (suc n, filesize_kb)

unfoldable pub apply_max_total_bytes_cap : ℕ → ℕ → Option ℕ → Ring
unfolding shrink
apply_max_total_bytes_cap filesize_kb files none =
    applied filesize_kb files (filesize_kb * 1_024 * files) (filesize_kb * 1_024 * files)
apply_max_total_bytes_cap filesize_kb files (some cap) =
    let requested = filesize_kb * 1_024 * files in
    let max_total_kb = cap / 1_024 in
    let first = max 1 (min files max_total_kb) in
    let (n, size) =
      shrink max_total_kb filesize_kb first (file_share max_total_kb filesize_kb first) in
    let total = n * size * 1_024 in
    if ltb cap 1_024
    then refused requested
    else if ltb cap total
    then refused requested
    else applied size n requested total

-- The interface is allowed by the list, or there is none.
unfoldable pub IsAllowed : String → Option (List String) → Type 0
IsAllowed i none = Unit
IsAllowed i (some allowed) = contains i allowed ≡ true
