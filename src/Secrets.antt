-- ===== src/Secrets.antt =====
-- EncryptedSecret (admin_secure/models.py): the rows of secrets, their statements on the
-- table, and what surrounds the calls.
pub mod Calls
pub mod Reading
pub mod Written
pub mod Rotation
pub mod Names
use traitkeeper_eco.Base.{
  ℕ, ◌+◌, Bool, true, false, not, ◌&&◌, ◌||◌, Option, none, some, List, [], ◌∷◌, ◌++◌, Result, ok,
  err, Text, codes, same_text, ◌==◌, ltb, if◌then◌else◌,
}
use traitkeeper_eco.Core.Cache.{LocalCache}

pub data SecretType : Type 0 where
  program_authority rpc_api_key webhook_secret encryption_key api_token : SecretType

pub record AdminUser : Type 0 where
  pub id : ℕ
  pub username : Text
  pub is_superuser : Bool

-- A row, or an instance that is not saved yet, whose id no row has. Times are seconds.
pub record EncryptedSecret (T : Type 0) : Type 0 where
  pub id : ℕ
  pub name : Text
  pub secret_type : SecretType
  pub encrypted_value : T
  pub encryption_key_id : Text
  pub created_by : ℕ
  pub last_modified_by : Option ℕ
  pub last_accessed_at : Option ℕ
  pub access_count : ℕ
  pub is_active : Bool
  pub expires_at : Option ℕ

-- The package `cryptography`: whether a text is a key, a token of a text with the random part of it,
-- and the text of a token, none where it raises.
pub record Fernet (T : Type 0) : Type 0 where
  pub is_key : Text → Bool
  pub encrypt : Text → ℕ → Text → T
  pub decrypt : Text → T → Option Text

pub data SecretError : Type 0 where
  permission_denied value_error invalid_token integrity_error database_error cache_error :
      SecretError

pub data Action : Type 0 where
  encrypted decrypted rotated : Action

-- The row of SystemAlert that an access leaves.
pub record AccessAlert : Type 0 where
  pub action : Action
  pub secret_name : Text
  pub user_id : ℕ
  pub access_count : ℕ

pub record State (T L : Type 0) : Type 0 where
  pub secrets : List (EncryptedSecret T)
  pub alerts : List AccessAlert
  pub cache : L

-- SECRET_ENCRYPTION_KEY, the clock, the random part of the next token, whether the table of alerts
-- takes a row, the users in the order of their table, and whether Django's cache answers a read and a
-- write, which raise when its Redis is out.
pub record Surroundings : Type 0 where
  pub master_key : Option Text
  pub now : ℕ
  pub noise : ℕ
  pub takes_alerts : Bool
  pub users : List AdminUser
  pub cache_reads : Bool
  pub cache_writes : Bool

-- The failure to log is caught.
abbrev pub log_access_to_health :
    {T L : Type 0} → Surroundings → Action → AdminUser → EncryptedSecret T → State T L → State T L
log_access_to_health e action user secret s =
    if e.takes_alerts
    then record s {
      alerts =
          s.alerts
          ++ (record {
            action = action;
            secret_name = secret.name;
            user_id = user.id;
            access_count = secret.access_count;
          }
              ∷ []);
    }
    else s

abbrev pub has_expired : ℕ → Option ℕ → Bool
has_expired now none = false
has_expired now (some t) = ltb t now

module _ {T : Type 0} where
  -- The unique constraint on the name.
  unfoldable pub is_name_taken : EncryptedSecret T → List (EncryptedSecret T) → Bool
  is_name_taken x [] = false
  is_name_taken x (r ∷ rows) =
      let rest = is_name_taken x rows in (same_text r.name x.name && not (r.id == x.id)) || rest

  unfoldable pub has_row : ℕ → List (EncryptedSecret T) → Bool
  has_row k [] = false
  has_row k (r ∷ rows) = let rest = has_row k rows in r.id == k || rest

  unfoldable pub put_row : EncryptedSecret T → List (EncryptedSecret T) → List (EncryptedSecret T)
  put_row x [] = []
  put_row x (r ∷ rows) = let rest = put_row x rows in if r.id == x.id then x ∷ rest else r ∷ rest

  -- `save()`
  unfoldable pub save :
      EncryptedSecret T → List (EncryptedSecret T) → Result SecretError (List (EncryptedSecret T))
  unfolding is_name_taken has_row put_row
  save x rows =
      if is_name_taken x rows
      then err SecretError.integrity_error
      else if has_row x.id rows
      then ok (put_row x rows)
      else ok (rows ++ x ∷ [])

  -- `save(update_fields=['last_accessed_at', 'access_count'])`
  unfoldable pub save_access :
      EncryptedSecret T → List (EncryptedSecret T) → List (EncryptedSecret T)
  save_access x [] = []
  save_access x (r ∷ rows) =
      let rest = save_access x rows in
      if r.id == x.id
      then record r { last_accessed_at = x.last_accessed_at; access_count = x.access_count } ∷ rest
      else r ∷ rest

  -- `objects.get(name=…, is_active=True)`
  unfoldable pub find_active : Text → List (EncryptedSecret T) → Option (EncryptedSecret T)
  find_active name [] = none
  find_active name (r ∷ rows) =
      let rest = find_active name rows in
      if same_text r.name name && r.is_active then some r else rest

abbrev find_system : List AdminUser → Option AdminUser
find_system [] = none
find_system (u ∷ us) =
    let rest = find_system us in
    if u.is_superuser && same_text u.username (codes "system") then some u else rest

abbrev find_superuser : List AdminUser → Option AdminUser
find_superuser [] = none
find_superuser (u ∷ us) = let rest = find_superuser us in if u.is_superuser then some u else rest

-- The user that decrypts for the system.
unfoldable pub system_user : List AdminUser → Option AdminUser
system_user us = elim (find_system us) [ some u ↦ some u | none ↦ find_superuser us ]

abbrev pub cache_key : Text → Text
cache_key name = codes "encrypted_secret:" ++ name
