-- ===== src/Pcap/Files.antt =====
-- The classic capture files that marlinspike/_pcap_header.py reads, as a writer of captures makes
-- them: the format is the libpcap project's.
use net_discover.Prelude.{
  ℕ, ◌+◌, ◌*◌, ◌<◌, List, [], ◌∷◌, ◌++◌, Option, none, some, Bool, false, ◌≡◌, if◌then◌else◌,
  length,
}
use net_discover.Pcap.Bytes.{Endian, pack32, pack16}
use net_discover.Pcap.Summary.{Time}
use net_discover.Pcap.Classic.{is_absurd}

pub record Packet : Type 0 where
  pub ts_sec : ℕ
  pub ts_subsec : ℕ
  pub orig_len : ℕ
  pub payload : List ℕ

unfoldable pub record_header : Endian → Packet → List ℕ
unfolding pack32
record_header e p =
    pack32 e p.ts_sec
    ++ (pack32 e p.ts_subsec ++ (pack32 e (length p.payload) ++ pack32 e p.orig_len))

unfoldable pub write_records : Endian → List Packet → List ℕ
unfolding record_header
write_records e [] = []
write_records e (p ∷ ps) = record_header e p ++ (p.payload ++ write_records e ps)

unfoldable pub global_header : Endian → Bool → ℕ → ℕ → List ℕ
unfolding pack32 pack16
global_header e nanos snaplen network =
    pack32 e (if nanos then 0xA1B23C4D else 0xA1B2C3D4)
    ++ (pack16 e 2
        ++ (pack16 e 4 ++ (pack32 e 0 ++ (pack32 e 0 ++ (pack32 e snaplen ++ pack32 e network)))))

-- A file of version 2.4, with times in nanoseconds or microseconds.
unfoldable pub write_pcap : Endian → Bool → ℕ → ℕ → List Packet → List ℕ
unfolding global_header write_records
write_pcap e nanos snaplen network ps = global_header e nanos snaplen network ++ write_records e ps

abbrev pub ticks_per_second : Bool → ℕ
ticks_per_second nanos = if nanos then 1_000_000_000 else 1_000_000

abbrev pub time_of : ℕ → Packet → Time
time_of divisor p = record { ticks = p.ts_sec * divisor + p.ts_subsec; divisor = divisor }

unfoldable pub first_time : ℕ → List Packet → Option Time
first_time divisor [] = none
first_time divisor (p ∷ ps) = some (time_of divisor p)

unfoldable pub last_time : ℕ → List Packet → Option Time
last_time divisor [] = none
last_time divisor (p ∷ []) = some (time_of divisor p)
last_time divisor (p ∷ q ∷ ps) = last_time divisor (q ∷ ps)

-- The packet's fields have their widths, and its payload is none that the reader refuses.
pub record Fits (snaplen : ℕ) (p : Packet) : Type 0 where
  pub sec : p.ts_sec < 4_294_967_296
  pub subsec : p.ts_subsec < 4_294_967_296
  pub incl : length p.payload < 4_294_967_296
  pub plausible : is_absurd snaplen (length p.payload) ≡ false
