-- ===== src/Tests.antt =====
-- A machine that satisfies the interface of Host.Storage, and each theorem at concrete input.
pub mod Splitting
pub mod Cells
pub mod Machine
mod Votes
mod Balances
mod Netmaps
mod Subnets
mod Funds
mod Containers
mod Domains
mod Results
