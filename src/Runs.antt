-- ===== src/Runs.antt =====
-- marlinspike/models.py (ScanHistory) and marlinspike/run_store.py: the durable rows of scan runs.
-- `Row` is the table, `Store` and `View` the functions of run_store.py, the others prove.
pub mod Row
pub mod Store
pub mod View
pub mod Rows
pub mod Effects
pub mod Claims
pub mod Launches
mod Scenarios
