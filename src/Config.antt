-- ===== src/Config.antt =====
-- components/app_config/app_config.c: the node id and its storage. The table is AppConfig.antt.
pub mod State
pub mod NodeId
pub mod Storage
pub mod Generated
mod Examples
