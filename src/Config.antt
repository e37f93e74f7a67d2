-- ===== src/Config.antt =====
-- src/config: the configuration, its validation, its migration and its store.
pub mod Target
pub mod Redirect
pub mod Groups
pub mod Store
