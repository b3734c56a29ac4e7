-- ===== src/Indexer.antt =====
-- The indexer: the quotas of the providers that it calls, its background tasks, and the parser that
-- stores the events of transactions.
pub mod Quota
pub mod Tasks
pub mod Parser
