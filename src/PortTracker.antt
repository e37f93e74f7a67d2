-- ===== src/PortTracker.antt =====
-- src/core/port_tracker.hpp: the 65536-slot table of local TCP ports. A slot is a 64-bit word
-- {state:8 | pool generation:24 | pool index:32} and auxiliary fields beside it.
pub mod Word
pub mod Slot
pub mod Race
pub mod Table
