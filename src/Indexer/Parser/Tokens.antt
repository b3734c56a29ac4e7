-- ===== src/Indexer/Parser/Tokens.antt =====
-- The transfers of tokens that TransactionParserService (indexer/services/parser.py) reads from
-- balances.
pub mod Moves
use traitkeeper_eco.Base.{
  ℕ, Bool, true, false, ◌&&◌, Option, none, some, List, [], ◌∷◌, ◌++◌, Text, codes, ◌==◌,
  if◌then◌else◌,
}

-- The floats of amounts and those of changes: `float` of a text, the difference, and its comparisons
-- with 0 and 1.
pub record Floats (F D : Type 0) : Type 0 where
  pub float : Text → F
  pub minus : F → F → D
  pub is_zero : D → Bool
  pub is_positive : D → Bool
  pub is_one : D → Bool

pub record TokenBalance : Type 0 where
  pub mint : ℕ
  pub owner : ℕ
  pub ui_amount_string : Option Text
  pub decimals : ℕ

-- The dictionary of the balances keeps the last row of a mint and an owner.
unfoldable pub last_row : ℕ → ℕ → List TokenBalance → Option TokenBalance
last_row m k [] = none
last_row m k (b ∷ bs) =
    let rest = last_row m k bs in
    elim rest [ some a ↦ some a | none ↦ if b.mint == m && b.owner == k then some b else none ]

-- `.get('uiAmountString', '0')`
abbrev text_or_zero : Option Text → Text
text_or_zero none = codes "0"
text_or_zero (some t) = t

abbrev amount_string : Option TokenBalance → Text
amount_string none = codes "0"
amount_string (some b) = text_or_zero b.ui_amount_string

unfoldable pub decimals_of : ℕ → List TokenBalance → ℕ
decimals_of m [] = 0
decimals_of m (b ∷ bs) = let rest = decimals_of m bs in if b.mint == m then b.decimals else rest

-- The keys `to` and `amount` are set together.
pub record MintChange (D : Type 0) : Type 0 where
  pub mint : ℕ
  pub sender : Option ℕ
  pub receiver : Option (ℕ × D)

pub record TokenTransfer (D : Type 0) : Type 0 where
  pub mint : ℕ
  pub from_user_account : ℕ
  pub to_user_account : ℕ
  pub token_amount : D
  pub is_non_fungible : Bool
  pub decimals : ℕ

module _ {F D : Type 0} (fl : Floats F D) where
  unfoldable pub balance : ℕ → ℕ → List TokenBalance → F
  unfolding last_row
  balance m k bs = fl.float (amount_string (last_row m k bs))

  -- One key of the loop changes the entry of its mint.
  abbrev pub changed : ℕ → D → MintChange D → MintChange D
  changed k change c =
      if fl.is_positive change
      then record c { receiver = some (k, change) }
      else record c { sender = some k }

  unfoldable pub put_change : ℕ → ℕ → D → List (MintChange D) → List (MintChange D)
  put_change m k change [] =
      changed k change (record { mint = m; sender = none; receiver = none }) ∷ []
  put_change m k change (c ∷ cs) =
      let rest = put_change m k change cs in
      if c.mint == m then changed k change c ∷ cs else c ∷ rest

  unfoldable pub note_change : ℕ → ℕ → D → List (MintChange D) → List (MintChange D)
  unfolding put_change
  note_change m k change cs = if fl.is_zero change then cs else put_change m k change cs

  -- The keys are gone through in the order of a Python set, which is an argument.
  unfoldable pub mint_changes :
      List TokenBalance
      → List TokenBalance
      → List (ℕ × ℕ)
      → List (MintChange D)
      → List (MintChange D)
  unfolding note_change balance
  mint_changes pre post [] cs = cs
  mint_changes pre post ((m, k) ∷ keys) cs =
      mint_changes pre post keys
        (note_change m k (fl.minus (balance m k post) (balance m k pre)) cs)

  abbrev pub transfer_of : List TokenBalance → ℕ → ℕ → ℕ → D → TokenTransfer D
  transfer_of post m sender receiver amount = record {
    mint = m;
    from_user_account = sender;
    to_user_account = receiver;
    token_amount = amount;
    is_non_fungible = decimals_of m post == 0 && fl.is_one amount;
    decimals = decimals_of m post;
  }

  abbrev pub transfer_if_moved : List TokenBalance → MintChange D → List (TokenTransfer D)
  transfer_if_moved post c = elim c.sender [
    | none ↦ []
    | some s ↦ elim c.receiver [
      | none ↦ []
      | some (r, amount) ↦ transfer_of post c.mint s r amount ∷ []
    ]
  ]

  unfoldable pub transfers_of : List TokenBalance → List (MintChange D) → List (TokenTransfer D)
  transfers_of post [] = []
  transfers_of post (c ∷ cs) = let rest = transfers_of post cs in transfer_if_moved post c ++ rest

  unfoldable pub parse_token_transfers_from_balances :
      List TokenBalance → List TokenBalance → List (ℕ × ℕ) → List (TokenTransfer D)
  unfolding mint_changes transfers_of
  parse_token_transfers_from_balances [] post keys = []
  parse_token_transfers_from_balances (b ∷ bs) [] keys = []
  parse_token_transfers_from_balances (b ∷ bs) (a ∷ as_) keys =
      transfers_of (a ∷ as_) (mint_changes (b ∷ bs) (a ∷ as_) keys [])
