-- ===== src/Core.antt =====
-- What core/ gives to the other applications: the cache and the providers of Solana's RPC.
pub mod Cache
pub mod Limiter
pub mod Rpc
pub mod Providers
