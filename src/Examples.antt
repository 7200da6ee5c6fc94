-- ===== src/Examples.antt =====
-- The theorems at concrete inputs, and runs of the definitions.
mod Base
mod Curation
mod Calling
mod Memory
mod Asking
mod Vectors
mod Sessions
mod Evidence
