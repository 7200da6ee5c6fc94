-- ===== src/Curate.antt =====
-- src/memoryos_lite/curator: one request to distil the memories of a module.
pub mod Model
pub mod TopicKey
pub mod Check
pub mod Proposals
pub mod Accounting
pub mod Consolidate
pub mod Raising
pub mod Encodable
pub mod Texts
pub mod Total
pub mod Versions
pub mod Newest
pub mod Response
pub mod Loop
pub mod Usage
pub mod Prompts
pub mod Listed
pub mod Assigned
pub mod Sourced
