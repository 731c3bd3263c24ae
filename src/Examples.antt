-- ===== src/Examples.antt =====
-- The theorems at concrete inputs, by component.
pub mod Pools
pub mod Queues
pub mod Openings
pub mod Downloads
pub mod Files
pub mod Loans
pub mod Requests
pub mod Dispatches
pub mod Columns
pub mod Clients
pub mod Regions
pub mod Services
pub mod Benches
pub mod Sleepers
