-- ===== src/Market/Stable.antt =====
-- The writes of the service to NFTs, bids and auctions, each with what the call has checked before
-- it, as an interface, and its use by the calls.
pub mod Writes
mod Nfts
mod Bids
mod Found
mod Auctions
pub mod Calls
