-- ===== src/Tests.antt =====
-- Small markets and caches, and the theorems on them.
pub mod Market
mod Invariants
mod Refusals
mod Terms
mod Effects
mod Sales
mod Broken
mod Services
mod Wallet
pub mod Stores
pub mod Caches
mod Quotas
mod Providers
mod Tasks
mod Health
mod Perception
mod Secrets
mod Parser
