-- ===== src/Market.antt =====
-- MarketplaceService (marketplace/services.py), one child for each group of methods.
pub mod Response
pub mod Checks
pub mod Listings
pub mod Sales
pub mod Offers
pub mod Negotiation
pub mod Auctions
pub mod Columns
pub mod Requests
pub mod Stable
pub mod Effects
pub mod Invariants
