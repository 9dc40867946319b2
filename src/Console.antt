-- ===== src/Console.antt =====
-- components/app_console/app_console.c: the serial console.
pub mod State
pub mod Providers
pub mod Reports
pub mod Commands
pub mod Repl
