-- ===== src/Iocs.antt =====
-- The search of reports for indicators of compromise: marlinspike/iocs.py.
mod Reports
mod Scan
mod Summary
mod Capped
mod Totals
mod Scenarios
