-- ===== src/Pcap/Bytes.antt =====
-- How marlinspike/_pcap_header.py reads a file: `f.read(n)` is `take n` of the bytes that are left
-- and a seek forward `drop`, past the end too; `struct.unpack` in both byte orders.
use net_discover.Prelude.{ℕ, ◌+◌, ◌*◌, ◌/◌, ◌%◌, List, [], ◌∷◌, drop}

-- The prefix `<` or `>` of a format.
pub data Endian : Type 0 where
  little big : Endian

-- The format `I`. The code asks for the length before.
unfoldable pub u32 : Endian → List ℕ → ℕ
u32 little (a ∷ b ∷ c ∷ d ∷ _) = a + 256 * b + 65_536 * c + 16_777_216 * d
u32 big (a ∷ b ∷ c ∷ d ∷ _) = d + 256 * c + 65_536 * b + 16_777_216 * a
u32 _ _ = 0

-- The format `H`.
unfoldable pub u16 : Endian → List ℕ → ℕ
u16 little (a ∷ b ∷ _) = a + 256 * b
u16 big (a ∷ b ∷ _) = b + 256 * a
u16 _ _ = 0

-- The field at an offset of a format.
unfoldable pub u32_at : Endian → ℕ → List ℕ → ℕ
unfolding u32 drop
u32_at e offset bs = u32 e (drop offset bs)

unfoldable pub u16_at : Endian → ℕ → List ℕ → ℕ
unfolding u16 drop
u16_at e offset bs = u16 e (drop offset bs)

-- `struct.pack`, for the files that the theorems read.
unfoldable pub pack32 : Endian → ℕ → List ℕ
pack32 little n = n % 256 ∷ n / 256 % 256 ∷ n / 65_536 % 256 ∷ n / 16_777_216 ∷ []
pack32 big n = n / 16_777_216 ∷ n / 65_536 % 256 ∷ n / 256 % 256 ∷ n % 256 ∷ []

unfoldable pub pack16 : Endian → ℕ → List ℕ
pack16 little n = n % 256 ∷ n / 256 ∷ []
pack16 big n = n / 256 ∷ n % 256 ∷ []
