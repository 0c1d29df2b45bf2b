-- ===== src/Tests.antt =====
-- Sample data, the witnesses of the theorems at concrete inputs, and runs of the definitions.
mod Sample
mod Runs
mod Texts
mod Positions
mod Messages
mod Diffs
mod Logs
mod Fakes
mod Processes
mod Commands
mod Slot
mod Published
