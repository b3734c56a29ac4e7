-- ===== src/Safety/Quests.antt =====
-- Quest eligibility: what the check answers, whatever the events are.
use traitkeeper_eco.Base.{ℕ, ◌≡◌, refl, Bool, true, false, not}
use traitkeeper_eco.Schema.{Nft}
use traitkeeper_eco.Orm.{Db}
use traitkeeper_eco.Safety.{ActionType, sale, list, check_quest_eligibility}

-- Whether the action is one that the check tests for ownership and velocity.
abbrev pub is_tested : ActionType → Bool
is_tested sale = true
is_tested list = true
is_tested _ = false

-- The answer depends on the kind of action alone: a sale or a listing is never eligible, since its
-- query raises and the error counts as a refusal, and any other action always is.
pub eligibility_by_action :
    (clock : ℕ → ℕ) (n : Nft) (wallet : ℕ) (a : ActionType) (db : Db)
    → check_quest_eligibility clock n wallet a db ≡ not (is_tested a)
unfolding check_quest_eligibility
eligibility_by_action clock n wallet sale db = refl
eligibility_by_action clock n wallet list db = refl
eligibility_by_action clock n wallet _ db = refl
