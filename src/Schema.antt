-- ===== src/Schema.antt =====
-- The rows that the marketplace reads and writes: the Django models of marketplace/models.py,
-- marketplace/vitality_models.py, nft_data/models.py and indexer/models.py. Wallets, mint
-- addresses and signatures are only compared, so they are numbers; an amount in SOL is an integer
-- of lamports, 10^-9 SOL; a time is in microseconds; scores and percentages are in hundredths.
mod Market
mod Monitoring
mod Vitality
pub use Market.*
pub use Monitoring.*
pub use Vitality.*
