-- ===== src/Pcap/Reader.antt =====
-- read_capture_summary of marlinspike/_pcap_header.py. Every record takes 16 bytes and every block
-- 12, so the length of the file is fuel for its loops.
use net_discover.Prelude.{suc, ℕ, List, Option, some, ◌==◌, if◌then◌else◌, ltb, length, take}
use net_discover.Pcap.Bytes.{big, u32_at}
use net_discover.Pcap.Summary.{CaptureSummary, Outcome, raise, too_short}
use net_discover.Pcap.Classic.{read_pcap}
use net_discover.Pcap.Blocks.{read_pcapng}

unfoldable pub read_capture_summary : List ℕ → Option (Outcome CaptureSummary)
unfolding take u32_at read_pcap read_pcapng
read_capture_summary f =
    let head = take 4 f in
    let fuel = suc (length f) in
    if ltb (length head) 4
    then some (raise too_short)
    else if u32_at big 0 head == 0x0A0D0D0A
    then read_pcapng fuel f
    else read_pcap fuel f
