-- ===== src/Tests.antt =====
-- Concrete hash tables and a concrete file system, and examples of the theorems.
pub mod Tables
pub mod Servers
pub mod Files
pub mod Queues
pub mod Workloads
pub mod Configs
pub mod Sorted
pub mod Disks
pub mod Words
pub mod Searches
pub mod Scripts
pub mod Trees
pub mod Templates
pub mod Forms
pub mod Panels
pub mod Moderation
pub mod Highlights
pub mod Popups
pub mod Clients
pub mod Callbacks
pub mod Memory
