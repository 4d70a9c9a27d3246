-- ===== src/Runs.antt =====
-- The theorems at concrete inputs, and runs of the definitions.
mod Wire
mod Index
mod Blocks
mod Protection
mod Journal
mod Priority
mod BpTree
mod Streams
mod Fuzzy
mod Pages
mod Rounds
