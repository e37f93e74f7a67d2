-- ===== src/SynParker.antt =====
-- src/core/syn_parker.hpp: the pool of parked SYNs, the release queue and the injector's work.
pub mod Packet
pub mod Pool
pub mod Injector
