-- ===== src/Probes.antt =====
-- The probes of tools/BPF-tools/old that pair the start of an operation with its end, count in an
-- array map, or filter events.
pub mod Iosnoop
pub mod Pairing
pub mod Vfsreadlat
pub mod Counters
pub mod Dist
pub mod Stats
pub mod Reads
pub mod Filters
