-- ===== src/Tests.antt =====
-- The theorems at concrete inputs, and runs of the definitions.
mod Fraction
mod Metrics
mod Bandwidth
mod Hashing
mod Latency
mod Chunked
mod Digest
mod Phases
mod Options
mod Requests
mod Samples
mod Selections
mod System
mod Documents
mod Reports
mod Caches
mod Disks
mod Fills
mod Sessions
mod Transfer
