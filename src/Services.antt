-- ===== src/Services.antt =====
-- src/services/group_service.cpp, src/services/rule_service.cpp: the services behind the API.
pub mod Groups
pub mod Rules
