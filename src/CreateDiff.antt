-- ===== src/CreateDiff.antt =====
-- src/osmdbt-create-diff.cpp
pub mod Key
pub mod Group
pub mod Rows
pub mod Query
pub mod Cursor
pub mod Process
pub mod Join
pub mod Complete
pub mod Redaction
pub mod Publish
pub mod App
pub mod Select
