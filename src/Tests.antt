-- ===== src/Tests.antt =====
-- Concrete inputs that the theorems apply to, and runs of the operations on them.
mod Samples
mod Names
mod Packets
mod Caching
mod Decisions
mod Lists
mod Loops
mod Exchanges
mod Resolutions
