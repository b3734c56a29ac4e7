-- ===== src/Secrets/Calls.antt =====
-- The methods of EncryptedSecret (admin_secure/models.py).
use traitkeeper_eco.Base.{
  ◌+◌, not, none, some, List, [], ◌∷◌, Result, ok, err, Text, codes, if◌then◌else◌,
}
use traitkeeper_eco.Core.Cache.{LocalCache}
use traitkeeper_eco.Secrets.{
  Action, AdminUser, EncryptedSecret, Fernet, SecretError, State, Surroundings, cache_key,
  find_active, has_expired, has_row, log_access_to_health, save, save_access, system_user,
}

module _ {T : Type 0} (f : Fernet T) where
  -- `Fernet(self.get_encryption_key())`
  unfoldable pub get_encryption_key : Surroundings → Result SecretError Text
  get_encryption_key e = elim e.master_key [
    | none ↦ err SecretError.value_error
    | some key ↦ if f.is_key key then ok key else err SecretError.value_error
  ]

  module _ {L : Type 0} where
    -- The columns of the instance are written, and the access is logged.
    unfoldable pub write :
        Surroundings
        → Action
        → AdminUser
        → EncryptedSecret T
        → State T L
        → Result SecretError (EncryptedSecret T) × State T L
    unfolding save
    write e action user row s = elim (save row s.secrets) [
      | err x ↦ (err x, s)
      | ok rows ↦ (ok row, log_access_to_health e action user row (record s { secrets = rows }))
    ]

    unfoldable pub encrypt_and_save :
        Surroundings
        → Text
        → AdminUser
        → EncryptedSecret T
        → State T L
        → Result SecretError (EncryptedSecret T) × State T L
    unfolding get_encryption_key write
    encrypt_and_save e plaintext user secret s =
        let encrypted : Text → EncryptedSecret T = λ key. record secret {
          encrypted_value = f.encrypt key e.noise plaintext;
          encryption_key_id = codes "v1";
          created_by = user.id;
          last_modified_by = some user.id;
        } in
        if not user.is_superuser
        then (err SecretError.permission_denied, s)
        else (elim (get_encryption_key e) [
          | err x ↦ (err x, s)
          | ok key ↦ write e Action.encrypted user (encrypted key) s
        ])

    unfoldable pub rotate_secret :
        Surroundings
        → Text
        → AdminUser
        → EncryptedSecret T
        → State T L
        → Result SecretError (EncryptedSecret T) × State T L
    unfolding get_encryption_key write
    rotate_secret e plaintext user secret s =
        let rotated : Text → EncryptedSecret T = λ key. record secret {
          encrypted_value = f.encrypt key e.noise plaintext;
          last_modified_by = some user.id;
        } in
        if not user.is_superuser
        then (err SecretError.permission_denied, s)
        else (elim (get_encryption_key e) [
          | err x ↦ (err x, s)
          | ok key ↦ write e Action.rotated user (rotated key) s
        ])

    -- The part of `decrypt_value` in its `try`.
    unfoldable pub decrypt_and_count :
        Surroundings
        → AdminUser
        → EncryptedSecret T
        → State T L
        → Result SecretError Text × State T L
    unfolding get_encryption_key has_row save_access
    decrypt_and_count e user secret s =
        let counted : EncryptedSecret T = record secret {
          last_accessed_at = some e.now;
          access_count = secret.access_count + 1;
        } in
        elim (get_encryption_key e) [
          | err x ↦ (err x, s)
          | ok key ↦ elim (f.decrypt key secret.encrypted_value) [
            | none ↦ (err SecretError.invalid_token, s)
            | some plaintext ↦
                if has_row secret.id s.secrets
                then (
                  ok plaintext,
                  log_access_to_health e Action.decrypted user counted
                      (record s { secrets = save_access counted s.secrets }),
                )
                else (err SecretError.database_error, s)
          ]
        ]

    unfoldable pub decrypt_value :
        Surroundings
        → AdminUser
        → EncryptedSecret T
        → State T L
        → Result SecretError Text × State T L
    unfolding decrypt_and_count
    decrypt_value e user secret s =
        if not user.is_superuser
        then (err SecretError.permission_denied, s)
        else if not secret.is_active
        then (err SecretError.value_error, s)
        else if has_expired e.now secret.expires_at
        then (err SecretError.value_error, s)
        else decrypt_and_count e user secret s

    module _ (c : LocalCache L Text) where
      -- What `get_secret_value` does when the cache has no value.
      unfoldable pub read_secret :
          Surroundings → Text → State T L → Result SecretError Text × State T L
      unfolding find_active system_user decrypt_value
      read_secret e name s = elim (find_active name s.secrets) [
        | none ↦ (err SecretError.value_error, s)
        | some secret ↦ elim (system_user e.users) [
          | none ↦ (err SecretError.value_error, s)
          | some user ↦
              let (answer, s₁) = decrypt_value e user secret s in
              elim answer [
                | err x ↦ (err x, s₁)
                | ok value ↦
                    if e.cache_writes
                    then (
                      ok value,
                      record s₁ { cache = c.set e.now (cache_key name) value 300 s₁.cache },
                    )
                    else (err SecretError.cache_error, s₁)
              ]
        ]
      ]

      -- An empty text in the cache counts as no value.
      unfoldable pub get_secret_value :
          Surroundings → Text → State T L → Result SecretError Text × State T L
      unfolding read_secret
      get_secret_value e name s =
          let fresh : Result SecretError Text × State T L = read_secret e name s in
          let answered : Result SecretError Text × State T L =
            elim (c.get e.now (cache_key name) s.cache) [
              | none ↦ fresh
              | some [] ↦ fresh
              | some (x ∷ xs) ↦ (ok (x ∷ xs), s)
            ] in
          if e.cache_reads then answered else (err SecretError.cache_error, s)

-- The calls, each with what surrounds it.
pub data Request (T : Type 0) : Type 0 where
  encrypt rotate : Surroundings → Text → AdminUser → EncryptedSecret T → Request T
  decrypt : Surroundings → AdminUser → EncryptedSecret T → Request T
  look_up : Surroundings → Text → Request T

module _ {T L : Type 0} (f : Fernet T) (c : LocalCache L Text) where
  unfoldable pub handle : Request T → State T L → State T L
  unfolding encrypt_and_save rotate_secret decrypt_value get_secret_value
  handle (Request.encrypt e plaintext user secret) s =
      (encrypt_and_save f e plaintext user secret s).1
  handle (Request.rotate e plaintext user secret) s = (rotate_secret f e plaintext user secret s).1
  handle (Request.decrypt e user secret) s = (decrypt_value f e user secret s).1
  handle (Request.look_up e name) s = (get_secret_value f c e name s).1

  unfoldable pub serve : List (Request T) → State T L → State T L
  unfolding handle
  serve [] s = s
  serve (q ∷ qs) s = serve qs (handle q s)
