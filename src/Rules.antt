-- ===== src/Rules.antt =====
-- src/rules and the filter types of src/config/types.hpp.
pub mod Cidr
pub mod TrafficFilter
pub mod PolicyTable
pub mod Wildcard
pub mod Engine
