-- ===== src/Lib.antt =====
-- The market of TraitKeeper, a Django site on which NFTs of the Solana chain are listed, auctioned
-- and negotiated over with private bids, and the services of the site that it rests on: the
-- caches, the access to the providers of the chain, the tasks that index it, the webhooks of
-- perception, the health checks and the store of secrets.
--
-- Parts. MarketplaceService (marketplace/services.py) is what the views (marketplace/views.py)
-- call. It fetches rows, validates a call with SafetyValidationService
-- (marketplace/safety_validation.py) and BidValidationService
-- (marketplace/bid_validation_service.py), and writes the tables of marketplace/models.py,
-- nft_data/models.py and indexer/models.py. Most methods have two steps: without a signed
-- transaction they answer with an instruction that the wallet signs, with one they write.
-- TransactionMonitoring (marketplace/models.py) records what became of a transaction. CacheManager
-- (core/cache_manager.py) keeps values in Django's cache, which the settings put in Redis, and in
-- Redis by a client of its own; ProviderQuotaManager (indexer/quota_manager.py) counts requests in
-- it, and APIProviderManager (core/api_provider/api_providers.py) asks the quotas which provider
-- to use; the provider itself spaces its requests and repeats those that fail
-- (core/api_provider/base.py). BackgroundTaskManager (indexer/background_task_manager.py) runs the
-- indexing, whose events TransactionParserService (indexer/services/parser.py) stores.
-- ParallelLinesIntegrationService (marketplace/perception_service.py) takes webhooks, whose secret
-- EncryptedSecret (admin_secure/models.py) gives out.
--
-- Files. Base has the shared tests, lists, texts, integers and results. Schema has the rows and
-- the exceptions; Table the statements on one table; Orm the database and the calls as actions on
-- it, with Orm/Preserves for invariants of actions and Orm/Tables for the tables beside the
-- market. Chain has what comes from outside. Monitoring models TransactionMonitoring and
-- `_create_transaction_record`; Safety and Validation model the two validation services, method by
-- method. Market models MarketplaceService: Checks the part of each method that fetches and
-- validates, Listings, Sales, Offers, Negotiation and Auctions the methods under their own names,
-- with the nested functions beside them (`_update_db_after_sale` is update_db_after_sale),
-- Response the dictionaries that they return, Columns what a write leaves in its row, Requests the
-- calls as one data type with `handle` for one call and `serve` for a sequence of them.
-- Market/Stable has the single writes, each with what the checks before it have established, as an
-- interface that a predicate on the tables fills; Market/Invariants has such predicates, and the
-- owner column against the log of events (Sales, Blocks, Columns, Steps, Owners), which takes the
-- atomic blocks whole; Market/Effects states what one call does. Monitoring/Lifecycle has the
-- marks of a transaction in any order. Wallet models WalletProfile (wallet/models.py), from which
-- the views take the wallet of a call: its `save` and `get_primary_wallet`. Core has Cache for
-- CacheManager, Limiter for AsyncRateLimiter, Rpc for SolanaRPCProvider and Providers for
-- APIProviderManager and PrimaryProviderSetting (admin_panel/models.py). Indexer has Quota for
-- ProviderQuotaManager, Tasks for BackgroundTaskManager and Parser for TransactionParserService
-- (indexer/services/parser.py). Perception models ParallelLinesIntegrationService, Health the
-- check of system_health/monitoring.py and the alerts of system_health/utils.py, Secrets
-- EncryptedSecret. In each, the functions have the names of the methods without a leading
-- underscore (in Perception and Secrets they are in Calls, beside the rows; the balances of SOL
-- are in Indexer/Parser/Native and those of tokens in Indexer/Parser/Tokens), and the other child
-- modules hold what is shown of them. Tests has small markets, caches and tables and applies each
-- result to them.
--
-- State. A database is a record of tables, a table the list of its rows in the order of insertion,
-- and a row is found by its primary key. An action takes a database to a result and a database: an
-- exception keeps what was written before it, and `transaction.atomic()` takes it back. A method
-- that reads outside its lock is one action here, so that a sequence of calls is serial; the one
-- interleaving of the market that is stated runs the writes of two purchases after the checks of
-- both, and the coroutines of the limiter run their rounds in any order. The core services keep
-- their own state records, which each method takes and gives back.
--
-- Values. Wallets, mints, signatures and ids of the market are numbers, since they are only
-- compared; keys of caches and names are texts, lists of character codes, since the code builds
-- and compares them. Amounts has what becomes of an amount: a call has a number of 10^-13 SOL,
-- where minimums are whole too, and a column the lamports, 10^-9 SOL, to which PostgreSQL rounds
-- it, or an exception where it is too large. Finer decimals, infinities and NaN are not
-- represented. Times of the market are microseconds, those of caches, tasks, webhooks and secrets
-- seconds, those of the limiter ticks. Scores and percentages of the market are hundredths,
-- readings of the health check tenths, scores of perception millionths; where the source computes
-- with floats the model is exact, but for the balances of tokens, whose floats are an interface.
-- No number is of fixed width: Python's are not.
--
-- Loops. Recursion is on lists, but for three loops that count the rounds that are left: `wait` of
-- the limiter runs at most two when nobody else runs between them, `post_attempts` three, which is
-- the source's number of attempts, and `fetch_batches` one for each twenty signatures.
--
-- Outside the model. Env holds the clock, the `uuid4()` of a call, what the Solana client
-- (marketplace/solana_client.py) answers when it builds an instruction or waits for a
-- confirmation, and whether the client was initialized before; it is arbitrary in every result.
-- TTLCache, Redis, Django's cache and JSON are interfaces with the laws of Core/Cache/Laws.
-- Django's cache and the client of Redis are two stores there, although one server may hold both;
-- whether a command of the one or the other is answered is given for each command, since an outage
-- raises in both. The counters of the quotas are read and written by one coroutine after the
-- other; floats of token amounts are an interface with the laws of Indexer/Parser/Tokens/Moves;
-- the order of a Python set is an argument; Fernet is an interface whose tokens open with their
-- key, HMAC any function. Log lines, notifications (which are comments in the code), display texts
-- and columns that no method reads are left out, as is the quest eligibility inside the methods,
-- which only log it; Safety models it by itself, and Safety/Score the score of an NFT. A second
-- row with the same primary key raises IntegrityError; the foreign keys and the widths of text
-- columns are not checked. The configuration methods of the service, the averages of
-- TransactionMonitoring, the scores of vitality, the parsers of the instructions of the chain and
-- the other Django applications are not modelled.
pub mod Base
pub mod Secrets
pub mod Schema
pub mod Table
pub mod Outcome
pub mod Orm
pub mod Chain
pub mod Amounts
pub mod Core
pub mod Indexer
pub mod Monitoring
pub mod Safety
pub mod Validation
pub mod Market
pub mod Wallet
pub mod Perception
pub mod Health
pub mod Tests
