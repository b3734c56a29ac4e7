-- ===== src/Market/Effects.antt =====
-- What one call does to the database, on every branch.
pub mod Previews
pub mod Refusals
pub mod Terms
pub mod Broken
pub mod Bidding
pub mod Acceptance
pub mod Purchases
