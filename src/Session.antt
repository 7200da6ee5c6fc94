-- ===== src/Session.antt =====
-- The session curator of memoryos_eval/memory: its tables (store_curator.py), and the runs that read
-- windows of a session's messages and write memories (session_curator.py).
pub mod Tables
pub mod Store
pub mod Activities
pub mod Window
pub mod Variables
pub mod Run
pub mod Steps
pub mod Rounds
pub mod Ends
pub mod History
pub mod Linked
pub mod Failing
pub mod Skips
pub mod Kept
pub mod Tallies
pub mod Lookups
pub mod Mirror
