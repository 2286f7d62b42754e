-- ===== src/Pcap.antt =====
-- marlinspike/_pcap_header.py: the number of packets and the times of a capture file, from its
-- headers alone. `Classic` and `Blocks` are the two formats and `Reader` chooses; `Files` and `Layout`
-- write such files, and the others prove.
pub mod Bytes
pub mod Summary
pub mod Classic
pub mod Blocks
pub mod Reader
pub mod Returns
pub mod Files
pub mod RoundTrip
pub mod Layout
pub mod Counting
mod Scenarios
