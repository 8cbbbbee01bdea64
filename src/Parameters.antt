-- ===== src/Parameters.antt =====
-- The core parameter tables (app/src/parameters).
pub mod Definition
mod Bits
pub mod System
pub mod Csp
pub mod Watchdog
pub mod Telemetry
pub mod Board
pub mod Storage
