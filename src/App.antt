-- ===== src/App.antt =====
-- main/app_main.c: the application.
pub mod State
pub mod Led
pub mod Blink
pub mod Callback
pub mod Sampling
pub mod Status
pub mod Main
pub mod Stages
pub mod ClockStage
pub mod NodeStage
pub mod ConsoleStage
pub mod Boot
pub mod Requests
mod Examples
