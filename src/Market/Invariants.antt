-- ===== src/Market/Invariants.antt =====
-- What every sequence of calls keeps.
pub mod Prices
pub mod Resolved
pub mod Auctions
pub mod Growth
pub mod Single
pub mod Sales
pub mod Blocks
pub mod Columns
pub mod Steps
pub mod Owners
