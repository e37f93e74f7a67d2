-- ===== src/Examples.antt =====
-- Concrete inputs at which the theorems are applied.
mod Data
mod Tracker
mod Parker
mod Rules
mod Tables
mod Manager
mod Datagrams
mod Proxies
mod Configs
mod Projections
