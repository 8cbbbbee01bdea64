-- ===== src/Startup.antt =====
-- app/src/main.c: what the application calls to start, in order. Each stage of `main` is a function
-- on the variables of `main`; its `log_info` lines are left out.
pub mod Services
pub mod Storage
pub mod Link
pub mod Supervision
pub mod Run
pub mod Order
mod Tests
