-- ===== src/Tests/Secrets.antt =====
-- One secret, with tokens that hold their text and their key.
use traitkeeper_eco.Base.{
  ℕ, ◌≡◌, true, false, none, some, List, [], ◌∷◌, err, Text, codes, same_text, arith, ◌⊎◌,
  if◌then◌else◌,
}
use traitkeeper_eco.Secrets.{
  EncryptedSecret, SecretType, SecretError, Fernet, AdminUser, State, Surroundings,
}
use traitkeeper_eco.Secrets.Calls.{
  Request, encrypt_and_save, rotate_secret, decrypt_value, get_secret_value, serve,
}
use traitkeeper_eco.Secrets.Reading.{LostAnswer, failed_access_changes_nothing}
use traitkeeper_eco.Secrets.Names.{HasUniqueNames, count_id, count_name, serve-HasUniqueNames}
use traitkeeper_eco.Tests.Stores.{Entry, list_cache}

abbrev Token : Type 0
Token = Text × Text

abbrev plain_fernet : Fernet Token
plain_fernet = record {
  is_key = λ k. true;
  encrypt = λ k n p. (k, p);
  decrypt = λ k t. if same_text t.0 k then some t.1 else none;
}

abbrev admin : AdminUser
admin = record { id = 1; username = codes "system"; is_superuser = true }

abbrev at : ℕ → Surroundings
at now = record {
  master_key = some (codes "k");
  now = now;
  noise = 0;
  takes_alerts = true;
  users = admin ∷ [];
  cache_reads = true;
  cache_writes = true;
}

abbrev name : Text
name = codes "HELIUS"

abbrev secret : EncryptedSecret Token
secret = record {
  id = 1;
  name = name;
  secret_type = SecretType.rpc_api_key;
  encrypted_value = (codes "k", codes "old");
  encryption_key_id = codes "v1";
  created_by = 1;
  last_modified_by = none;
  last_accessed_at = none;
  access_count = 0;
  is_active = true;
  expires_at = some 9_000;
}

abbrev State₁ : Type 0
State₁ = State Token (List (Entry Text))

abbrev stored : State₁
stored = record { secrets = secret ∷ []; alerts = []; cache = [] }

abbrev outsider : AdminUser
outsider = record { id = 2; username = codes "eve"; is_superuser = false }

failed_access_changes_nothing_example :
    ((encrypt_and_save plain_fernet (at 10) (codes "new") outsider secret stored).0
        ≡ err SecretError.permission_denied
      → (encrypt_and_save plain_fernet (at 10) (codes "new") outsider secret stored).1 ≡ stored)
    × ((rotate_secret plain_fernet (at 10) (codes "new") outsider secret stored).0
          ≡ err SecretError.permission_denied
        → (rotate_secret plain_fernet (at 10) (codes "new") outsider secret stored).1 ≡ stored)
    × ((decrypt_value plain_fernet (at 10) outsider secret stored).0
          ≡ err SecretError.permission_denied
        → (decrypt_value plain_fernet (at 10) outsider secret stored).1 ≡ stored)
    × ((get_secret_value plain_fernet list_cache (at 10) name stored).0
          ≡ err SecretError.permission_denied
        → ((get_secret_value plain_fernet list_cache (at 10) name stored).1 ≡ stored)
          ⊎ LostAnswer plain_fernet list_cache
              (at 10)
              name
              stored
              (get_secret_value plain_fernet list_cache (at 10) name stored).1
              SecretError.permission_denied)
failed_access_changes_nothing_example =
    failed_access_changes_nothing plain_fernet list_cache (at 10) (codes "new") name outsider secret
      stored SecretError.permission_denied

abbrev rotated : EncryptedSecret Token
rotated = record secret { encrypted_value = (codes "k", codes "new"); last_modified_by = some 1 }

abbrev after : State₁
after =
    (rotate_secret plain_fernet (at 20) (codes "new") admin secret
      (get_secret_value plain_fernet list_cache (at 10) name stored).1).1

stored-HasUniqueNames : HasUniqueNames stored.secrets
unfolding count_id count_name
stored-HasUniqueNames = record { ids = λ k. ground arith; names = λ n. ground arith }

serve-HasUniqueNames_example :
    HasUniqueNames
      (serve plain_fernet list_cache
        (Request.look_up (at 10) name
          ∷ Request.rotate (at 20) (codes "new") admin secret
          ∷ Request.encrypt (at 30) (codes "x") admin (record secret { id = 2 })
          ∷ [])
        stored).secrets
serve-HasUniqueNames_example =
    serve-HasUniqueNames plain_fernet list_cache
      (Request.look_up (at 10) name
        ∷ Request.rotate (at 20) (codes "new") admin secret
        ∷ Request.encrypt (at 30) (codes "x") admin (record secret { id = 2 })
        ∷ [])
      stored stored-HasUniqueNames
