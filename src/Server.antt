-- ===== src/Server.antt =====
-- The forwarding server: include/forge.h, src/server/, src/handler/, src/scheduler.c and
-- src/dispatcher/posix.c.
pub mod Types
pub mod Env
pub mod Handles
pub mod Batch
pub mod System
pub mod Dispatch
pub mod Service
pub mod Runs
pub mod Pvfs
pub mod Step
pub mod Shutdown
pub mod Ledger
