-- ===== src/Safety/Score.antt =====
-- The score of an NFT that SafetyValidationService (marketplace/safety_validation.py) is to show.
use traitkeeper_eco.Base.{
  ℕ, ◌-◌, ◌*◌, ◌/◌, ◌≡◌, refl, Bool, true, false, Option, none, some, List, [], ◌∷◌, ◌++◌, ok, err,
  length, select, ltb, ◌==◌, if◌then◌else◌,
}
use traitkeeper_eco.Schema.{Nft, NftEvent, field_error}
use traitkeeper_eco.Outcome.{Outcome, ◌>>=◌}
use traitkeeper_eco.Orm.{Db}
use traitkeeper_eco.Safety.{nft, event_type, timestamp_gte, is_field, filter_events, latest}

pub data Duration : Type 0 where
  new_owner established : Duration
  recent : ℕ → Duration

pub data Frequency : Type 0 where
  very_high high normal : Frequency

pub data Flag : Type 0 where
  recently_acquired frequently_traded : Flag

pub record SafetyScore : Type 0 where
  pub score : ℕ
  pub ownership_duration : Duration
  pub trade_frequency : Frequency
  pub flags : List Flag

-- The cost of an indicator, and its flag.
abbrev of_duration : ℕ → ℕ × Duration × List Flag
of_duration days =
    if ltb days 1
    then (20, Duration.new_owner, Flag.recently_acquired ∷ [])
    else if ltb days 7
    then (10, Duration.recent days, [])
    else (0, Duration.established, [])

abbrev of_trades : ℕ → ℕ × Frequency × List Flag
of_trades trades =
    if ltb 10 trades
    then (30, Frequency.very_high, Flag.frequently_traded ∷ [])
    else if ltb 5 trades
    then (15, Frequency.high, [])
    else (0, Frequency.normal, [])

abbrev same_buyer : Option ℕ → NftEvent → Bool
same_buyer owner e = elim owner [
  | none ↦ elim e.buyer [ none ↦ true | some b ↦ false ]
  | some o ↦ elim e.buyer [ none ↦ false | some b ↦ b == o ]
]

abbrev pub day : ℕ
day = 86_400_000_000

-- `buyer=nft.owner` names a field, so that it may select the rows after the other keywords.
abbrev pub get_ownership_duration : ℕ → Nft → Db → Outcome ℕ
get_ownership_duration now n db = do
  rows ← filter_events (nft n.mint_address ∷ event_type 0 ∷ []) db.events
  ok (elim (latest (select (same_buyer n.owner) rows)) [
    | none ↦ 999
    | some e ↦ (now - e.timestamp) / day
  ])

abbrev pub get_trade_count : ℕ → Nft → Db → Outcome ℕ
get_trade_count now n db = do
  rows ←
      filter_events (nft n.mint_address ∷ event_type 0 ∷ timestamp_gte (now - 30 * day) ∷ [])
        db.events
  ok (length rows)

unfoldable pub get_safety_score : ℕ → Nft → Db → Outcome SafetyScore
unfolding filter_events latest
get_safety_score now n db = do
  days ← get_ownership_duration now n db
  trades ← get_trade_count now n db
  ok (record {
    score = 100 - (of_duration days).0 - (of_trades trades).0;
    ownership_duration = (of_duration days).1;
    trade_frequency = (of_trades trades).1;
    flags = (of_duration days).2 ++ (of_trades trades).2;
  })

-- No NFT gets a score: the first query names a field that NFTEvent does not have.
pub get_safety_score_raises :
    (now : ℕ) (n : Nft) (db : Db) → get_safety_score now n db ≡ err field_error
unfolding get_safety_score filter_events is_field
get_safety_score_raises now n db = refl
