-- ===== src/Schema/Monitoring.antt =====
-- TransactionMonitoring (marketplace/models.py), and the errors whose text it stores.
use traitkeeper_eco.Base.{ℕ, ℤ, Option, String}

-- The texts that the services raise with.
pub data Message : Type 0 where
  not_owner nft_not_found bid_not_found : Message
  bid_not_active bid_has_expired not_your_bid active_bid_not_found : Message
  own_nft price_not_positive amount_not_positive : Message
  not_for_direct_sale no_asking_price not_negotiable : Message
  already_listed already_in_auction auction_not_found auction_not_active : Message
  start_or_duration_not_positive auction_has_ended auction_not_ended creator_cannot_bid : Message
  auction_has_bids amount_mismatch pending_bid_not_found confirmation_failed : Message
  bid_spam : ℕ → Message
  bid_not_above : ℤ → Message
  not_positive below_absolute_minimum no_vitality insufficient_data : Message
  bid_too_low : ℤ → Message

-- Python's exception classes. `does_not_exist` is any `Model.DoesNotExist`; `chain_error` is a
-- plain `Exception`, or one that the Solana client lets through.
pub data Error : Type 0 where
  value_error permission_error : Message → Error
  does_not_exist integrity_error attribute_error : Error
  key_error type_error field_error data_error chain_error : Error

-- What `error_message` can hold: nothing, the text of an exception, or the timeout text.
pub data ErrorText : Type 0 where
  blank : ErrorText
  str : Error → ErrorText
  timeout_after : ℕ → ErrorText

-- `TransactionMonitoring.TransactionStatus`
pub data TransactionStatus : Type 0 where
  submitted pending confirmed finalized failed timeout : TransactionStatus

pub record TransactionMonitoring : Type 0 where
  pub transaction_signature : ℕ
  pub action_type : String
  pub submitted_at : ℕ
  pub confirmed_at : Option ℕ
  pub finalized_at : Option ℕ
  pub status : TransactionStatus
  pub confirmation_time_ms : Option ℤ
  pub finalization_time_ms : Option ℤ
  pub nft_mint : Option ℕ
  pub user_wallet : Option ℕ
  pub error_message : ErrorText
  pub retry_count : ℕ
