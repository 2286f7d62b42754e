-- ===== src/Pcap/Scenarios.antt =====
-- Small capture files for marlinspike/_pcap_header.py, and the theorems about it at those files.
use net_discover.Prelude.{List, [], ◌∷◌, ◌++◌, some, true, ◌≡◌, refl, arith, ◌⊎◌, ◌+◌, count_where}
use net_discover.Pcap.Bytes.{little, big, pack32}
use net_discover.Pcap.Summary.{
  summarize, CaptureSummary, Outcome, ok, raise, name, index_error, link_type_of,
}
use net_discover.Pcap.Blocks.{Walk, none_read, read_blocks}
use net_discover.Pcap.Reader.{read_capture_summary}
use net_discover.Pcap.Files.{Packet, write_pcap, first_time, last_time}
use net_discover.Pcap.Layout.{Block, write_blocks}
use net_discover.Pcap.Returns.{read_capture_summary-returns}
use net_discover.Pcap.RoundTrip.{read_capture_summary-write_pcap}
use net_discover.Pcap.Counting.{is_counted, read_blocks-counts}

abbrev packets : List Packet
packets =
    record { ts_sec = 5; ts_subsec = 7; orig_len = 60; payload = 1 ∷ 2 ∷ 3 ∷ [] }
    ∷ record { ts_sec = 6; ts_subsec = 1; orig_len = 0; payload = [] }
    ∷ []

two_packets :
    (r : CaptureSummary) × (read_capture_summary (write_pcap big true 65_535 1 packets)
      ≡ some (ok r))
    × (r.packet_count ≡ 2)
    × (r.duration_seconds.plus ≡ 6_000_000_001_000_000_000)
    × (r.link_type ≡ name "Ethernet")
unfolding read_capture_summary write_pcap summarize link_type_of
two_packets = (_, refl, refl, refl, refl)

read_capture_summary-returns_example :
    (r : Outcome CaptureSummary) × (read_capture_summary (1 ∷ 2 ∷ []) ≡ some r)
read_capture_summary-returns_example = read_capture_summary-returns (1 ∷ 2 ∷ [])

read_capture_summary-write_pcap_example :
    (r : CaptureSummary) × (read_capture_summary (write_pcap big true 65_535 1 packets)
      ≡ some (ok r))
    × (r.packet_count ≡ 2)
    × (r.start_ts ≡ first_time 1_000_000_000 packets)
    × (r.end_ts ≡ last_time 1_000_000_000 packets)
    × (r.link_type ≡ link_type_of 1)
    × (r.snaplen ≡ 65_535)
read_capture_summary-write_pcap_example =
    read_capture_summary-write_pcap big true 65_535 1 packets (omega arith) (omega arith) (
      record { sec = omega arith; subsec = omega arith; incl = omega arith; plausible = refl },
      (
        record { sec = omega arith; subsec = omega arith; incl = omega arith; plausible = refl },
        tt,
      ),
    )

-- A simple packet block, and an obsolete packet block with all of its twenty bytes.
abbrev blocks : List Block
blocks =
    record { kind = 3; body = 0 ∷ 0 ∷ 0 ∷ 0 ∷ [] }
    ∷ record {
      kind = 2;
      body =
          pack32 little 0
          ++ (pack32 little 0 ++ (pack32 little 9 ++ (pack32 little 0 ++ pack32 little 0)));
    }
    ∷ []

-- The obsolete one is lost.
one_counted : count_where is_counted blocks ≡ 1
unfolding count_where is_counted pack32
one_counted = refl

read_blocks-counts_example :
    (read_blocks 3 little (write_blocks little blocks) none_read ≡ some (raise index_error))
    ⊎ ((w' : Walk) × (read_blocks 3 little (write_blocks little blocks) none_read ≡ some (ok w'))
        × (w'.seen.packet_count ≡ 0 + count_where is_counted blocks))
unfolding pack32
read_blocks-counts_example = read_blocks-counts 3 little blocks none_read (omega arith) (
  record { kind = omega arith; size = omega arith; aligned = refl },
  (record { kind = omega arith; size = omega arith; aligned = refl }, tt),
)

-- A section header and an interface whose last option, `if_tsresol`, has no byte left in it.
no_tsresol :
    read_capture_summary (
      pack32 big 0x0A0D0D0A
      ++ (pack32 big 12
          ++ (pack32 big 0x1A2B3C4D
              ++ write_blocks big (
                  record { kind = 1; body = 0 ∷ 1 ∷ 0 ∷ 0 ∷ 0 ∷ 0 ∷ 0 ∷ 0 ∷ 0 ∷ 9 ∷ 0 ∷ 1 ∷ [] }
                  ∷ []))))
    ≡ some (raise index_error)
unfolding read_capture_summary pack32 write_blocks
no_tsresol = refl
