-- ===== src/Secrets/Reading.antt =====
-- What an access to a secret needs, and what it changes.
use traitkeeper_eco.Base.{
  ℕ, ◌+◌, ◌≡◌, refl, sym, ap, ◌∙◌, true, false, Option, none, some, [], ◌∷◌, ok, err, Text, arith,
  Bool-cases, Option-cases, Result-cases, ◌⊎◌, inl, inr,
}
use traitkeeper_eco.Core.Cache.{LocalCache}
use mathlib.Core.Path.{subst⁻¹}
use traitkeeper_eco.Secrets.{
  EncryptedSecret, Fernet, SecretError, Action, AdminUser, State, Surroundings, has_expired,
  has_row, save_access, save, find_active, system_user, cache_key, log_access_to_health,
}
use traitkeeper_eco.Secrets.Calls.{
  write, get_encryption_key, encrypt_and_save, rotate_secret, decrypt_and_count, decrypt_value,
  read_secret, get_secret_value,
}

pub Text-cases :
    (o : Option Text) → (o ≡ none) ⊎ ((o ≡ some []) ⊎ ((d : ℕ) × (ds : Text) × (o ≡ some (d ∷ ds))))
Text-cases none = inl refl
Text-cases (some []) = inr (inl refl)
Text-cases (some (d ∷ ds)) = inr (inr (d, ds, refl))

module _ {T : Type 0} where
  -- The row after an access.
  abbrev pub counted : Surroundings → EncryptedSecret T → EncryptedSecret T
  counted e row = record row { last_accessed_at = some e.now; access_count = row.access_count + 1 }

  -- The secret can be read, and its text is this one.
  pub record CanRead (f : Fernet T) (e : Surroundings) (row : EncryptedSecret T) (v : Text)
      : Type 0 where
    pub active : row.is_active ≡ true
    pub current : has_expired e.now row.expires_at ≡ false
    pub key : Text
    pub keyed : get_encryption_key f e ≡ ok key
    pub opened : f.decrypt key row.encrypted_value ≡ some v

module _ {T L : Type 0} (f : Fernet T) where
  write_fails :
      (e : Surroundings) (a : Action) (user : AdminUser) (row : EncryptedSecret T) (s : State T L)
      (x : SecretError)
      → (write f e a user row s).0 ≡ err x
      → (write f e a user row s).1 ≡ s
  unfolding write
  write_fails e a user row s x h = elim (Result-cases (save row s.secrets)) [
    | inl (rows, saved) ↦ absurd (ground (arith, saved, h))
    | inr (y, failed) ↦ ground (arith, failed)
  ]

  counting_fails :
      (e : Surroundings) (user : AdminUser) (row : EncryptedSecret T) (s : State T L)
      (x : SecretError)
      → (decrypt_and_count f e user row s).0 ≡ err x
      → (decrypt_and_count f e user row s).1 ≡ s
  unfolding decrypt_and_count
  counting_fails e user row s x h = elim (Result-cases (get_encryption_key f e)) [
    | inr (y, keyless) ↦ ground (arith, keyless)
    | inl (key, keyed) ↦ elim (Option-cases (f.decrypt key row.encrypted_value)) [
      | inl bad ↦ ground (arith, keyed, bad)
      | inr (v, good) ↦ ground (arith, keyed, good, h)
    ]
  ]

  pub decrypt_fails :
      (e : Surroundings) (user : AdminUser) (row : EncryptedSecret T) (s : State T L)
      (x : SecretError)
      → (decrypt_value f e user row s).0 ≡ err x
      → (decrypt_value f e user row s).1 ≡ s
  unfolding decrypt_value
  decrypt_fails e user row s x h = ground (arith, h, counting_fails e user row s x)

  abbrev pub accessed : Surroundings → AdminUser → EncryptedSecret T → State T L → State T L
  accessed e user row s =
      log_access_to_health e Action.decrypted user (counted e row)
        (record s { secrets = save_access (counted e row) s.secrets })

  counting_succeeds :
      (e : Surroundings) (user : AdminUser) (row : EncryptedSecret T) (s : State T L) (v : Text)
      → (decrypt_and_count f e user row s).0 ≡ ok v
      → (decrypt_and_count f e user row s ≡ (ok v, accessed e user row s))
        × ((key : Text) × (get_encryption_key f e ≡ ok key)
            × (f.decrypt key row.encrypted_value ≡ some v))
  unfolding decrypt_and_count
  counting_succeeds e user row s v h = elim (Result-cases (get_encryption_key f e)) [
    | inr (y, keyless) ↦ absurd (ground (arith, keyless, h))
    | inl (key, keyed) ↦ elim (Option-cases (f.decrypt key row.encrypted_value)) [
      | inl bad ↦ absurd (ground (arith, keyed, bad, h))
      | inr (w, good) ↦ elim (Bool-cases (has_row row.id s.secrets)) [
        | inr lost ↦ absurd (ground (arith, keyed, good, lost, h))
        | inl stored ↦ (
          ground (arith, keyed, good, stored, h),
          (key, keyed, ground (arith, keyed, good, stored, h)),
        )
      ]
    ]
  ]

  pub decrypt_succeeds :
      (e : Surroundings) (user : AdminUser) (row : EncryptedSecret T) (s : State T L) (v : Text)
      → (decrypt_value f e user row s).0 ≡ ok v
      → (decrypt_value f e user row s ≡ (ok v, accessed e user row s))
        × (user.is_superuser ≡ true)
        × CanRead f e row v
  unfolding decrypt_value
  decrypt_succeeds e user row s v h =
      let inner : decrypt_value f e user row s ≡ decrypt_and_count f e user row s =
        ground (arith, h) in
      let done : (decrypt_and_count f e user row s ≡ (ok v, accessed e user row s))
          × ((key : Text) × (get_encryption_key f e ≡ ok key)
              × (f.decrypt key row.encrypted_value ≡ some v)) =
        counting_succeeds e user row s v (sym (ap (λ a. a.0) inner) ∙ h) in
      (
        inner ∙ done.0,
        ground (arith, h),
        record {
          active = ground (arith, h);
          current = ground (arith, h);
          key = done.1.0;
          keyed = done.1.1;
          opened = done.1.2;
        },
      )

  pub encrypt_fails :
      (e : Surroundings) (plaintext : Text) (user : AdminUser) (row : EncryptedSecret T)
      (s : State T L) (x : SecretError)
      → (encrypt_and_save f e plaintext user row s).0 ≡ err x
      → (encrypt_and_save f e plaintext user row s).1 ≡ s
  unfolding encrypt_and_save
  encrypt_fails e plaintext user row s x h = elim (Bool-cases user.is_superuser) [
    | inr down ↦ ground (arith, down)
    | inl up ↦ elim (Result-cases (get_encryption_key f e)) [
      | inr (y, keyless) ↦ ground (arith, up, keyless)
      | inl (key, keyed) ↦ ground (arith, up, keyed, h, write_fails e Action.encrypted user _ s x)
    ]
  ]

  pub rotate_fails :
      (e : Surroundings) (plaintext : Text) (user : AdminUser) (row : EncryptedSecret T)
      (s : State T L) (x : SecretError)
      → (rotate_secret f e plaintext user row s).0 ≡ err x
      → (rotate_secret f e plaintext user row s).1 ≡ s
  unfolding rotate_secret
  rotate_fails e plaintext user row s x h = elim (Bool-cases user.is_superuser) [
    | inr down ↦ ground (arith, down)
    | inl up ↦ elim (Result-cases (get_encryption_key f e)) [
      | inr (y, keyless) ↦ ground (arith, up, keyless)
      | inl (key, keyed) ↦ ground (arith, up, keyed, h, write_fails e Action.rotated user _ s x)
    ]
  ]

  module _ (c : LocalCache L Text) where
    -- What a read from the table found, and what it leaves.
    pub record ReadFromTable (e : Surroundings) (name : Text) (s : State T L) (v : Text)
        : Type 0 where
      pub row : EncryptedSecret T
      pub user : AdminUser
      pub found : find_active name s.secrets ≡ some row
      pub readable : CanRead f e row v
      pub superuser : user.is_superuser ≡ true
      pub after : read_secret f c e name s ≡ (
        ok v,
        record (accessed e user row s) {
          cache = c.set e.now (cache_key name) v 300 (accessed e user row s).cache;
        },
      )

    pub read_succeeds :
        (e : Surroundings) (name : Text) (s : State T L) (v : Text)
        → (read_secret f c e name s).0 ≡ ok v
        → ReadFromTable e name s v
    unfolding read_secret
    read_succeeds e name s v h = elim (Option-cases (find_active name s.secrets)) [
      | inl missing ↦ absurd (ground (arith, missing, h))
      | inr (row, found) ↦ elim (Option-cases (system_user e.users)) [
        | inl nobody ↦ absurd (ground (arith, found, nobody, h))
        | inr (user, somebody) ↦ elim (Result-cases (decrypt_value f e user row s).0) [
          | inr (x, failed) ↦ absurd (ground (arith, found, somebody, failed, h))
          | inl (w, done) ↦
              let same : w ≡ v = ground (arith, found, somebody, done, h) in
              let effect : (decrypt_value f e user row s ≡ (ok v, accessed e user row s))
                  × (user.is_superuser ≡ true)
                  × CanRead f e row v =
                decrypt_succeeds e user row s v (done ∙ ap ok same) in
              record {
                row = row;
                user = user;
                found = found;
                readable = effect.2;
                superuser = effect.1;
                after = ground (arith, found, somebody, effect.0, h);
              }
        ]
      ]
    ]

    -- The row was decrypted for a user, and the access counted, when Django's cache did not take the
    -- text.
    pub record LostAnswer (e : Surroundings) (name : Text) (s after : State T L) (x : SecretError)
        : Type 0 where
      pub row : EncryptedSecret T
      pub user : AdminUser
      pub value : Text
      pub found : find_active name s.secrets ≡ some row
      pub readable : CanRead f e row value
      pub refused : e.cache_writes ≡ false
      pub error : x ≡ SecretError.cache_error
      pub counted_once : after ≡ accessed e user row s

    read_fails :
        (e : Surroundings) (name : Text) (s : State T L) (x : SecretError)
        → (read_secret f c e name s).0 ≡ err x
        → ((read_secret f c e name s).1 ≡ s) ⊎ LostAnswer e name s (read_secret f c e name s).1 x
    unfolding read_secret
    read_fails e name s x h = elim (Option-cases (find_active name s.secrets)) [
      | inl missing ↦ inl (ground (arith, missing))
      | inr (row, found) ↦ elim (Option-cases (system_user e.users)) [
        | inl nobody ↦ inl (ground (arith, found, nobody))
        | inr (user, somebody) ↦ elim (Result-cases (decrypt_value f e user row s).0) [
          | inl (w, done) ↦
              let effect : (decrypt_value f e user row s ≡ (ok w, accessed e user row s))
                  × (user.is_superuser ≡ true)
                  × CanRead f e row w =
                decrypt_succeeds e user row s w done in
              inr (record {
                row = row;
                user = user;
                value = w;
                found = found;
                readable = effect.2;
                refused = ground (arith, found, somebody, effect.0, h);
                error = ground (arith, found, somebody, effect.0, h);
                counted_once = ground (arith, found, somebody, effect.0, h);
              })
          | inr (y, failed) ↦
              inl (ground (arith, found, somebody, failed, decrypt_fails e user row s y failed))
        ]
      ]
    ]

    same_failure :
        (e : Surroundings) (name : Text) (s after : State T L) (x : SecretError)
        → after ≡ (read_secret f c e name s).1
        → ((read_secret f c e name s).1 ≡ s) ⊎ LostAnswer e name s (read_secret f c e name s).1 x
        → (after ≡ s) ⊎ LostAnswer e name s after x
    same_failure e name s after x same h = subst⁻¹ (λ a. (a ≡ s) ⊎ LostAnswer e name s a x) same h

    pub get_secret_value_fails :
        (e : Surroundings) (name : Text) (s : State T L) (x : SecretError)
        → (get_secret_value f c e name s).0 ≡ err x
        → ((get_secret_value f c e name s).1 ≡ s)
          ⊎ LostAnswer e name s (get_secret_value f c e name s).1 x
    unfolding get_secret_value
    get_secret_value_fails e name s x h = elim (Bool-cases e.cache_reads) [
      | inr down ↦ inl (ground (arith, down))
      | inl up ↦ elim (Text-cases (c.get e.now (cache_key name) s.cache)) [
        | inl missing ↦
            same_failure e name s _ x (ground (arith, up, missing))
              (read_fails e name s x (ground (arith, up, missing, h)))
        | inr (inl empty) ↦
            same_failure e name s _ x (ground (arith, up, empty))
              (read_fails e name s x (ground (arith, up, empty, h)))
        | inr (inr (d, ds, hit)) ↦ absurd (ground (arith, up, hit, h))
      ]
    ]

    -- A call that raises changes nothing: no row, no alert and no entry of the cache. There is one
    -- exception: a lookup that decrypted a readable secret, which has counted the access and logged
    -- it, raises when Django's cache does not take the text.
    pub failed_access_changes_nothing :
        (e : Surroundings) (plaintext name : Text) (user : AdminUser) (row : EncryptedSecret T)
        (s : State T L) (x : SecretError)
        → ((encrypt_and_save f e plaintext user row s).0 ≡ err x
            → (encrypt_and_save f e plaintext user row s).1 ≡ s)
          × ((rotate_secret f e plaintext user row s).0 ≡ err x
              → (rotate_secret f e plaintext user row s).1 ≡ s)
          × ((decrypt_value f e user row s).0 ≡ err x → (decrypt_value f e user row s).1 ≡ s)
          × ((get_secret_value f c e name s).0 ≡ err x
              → ((get_secret_value f c e name s).1 ≡ s)
                ⊎ LostAnswer e name s (get_secret_value f c e name s).1 x)
    failed_access_changes_nothing e plaintext name user row s x = (
      encrypt_fails e plaintext user row s x,
      rotate_fails e plaintext user row s x,
      decrypt_fails e user row s x,
      get_secret_value_fails e name s x,
    )

    -- A value that the lookup answers was in the cache, or is the text of the first active row of this
    -- name, which has not expired and which the master key opens.
    pub answered_secret_is_cached_or_readable :
        (e : Surroundings) (name : Text) (s : State T L) (v : Text)
        → (get_secret_value f c e name s).0 ≡ ok v
        → (c.get e.now (cache_key name) s.cache ≡ some v)
          ⊎ ((row : EncryptedSecret T) × (find_active name s.secrets ≡ some row)
              × CanRead f e row v)
    unfolding get_secret_value
    answered_secret_is_cached_or_readable e name s v h =
        elim (Text-cases (c.get e.now (cache_key name) s.cache)) [
          | inl missing ↦
              inr (readable_part (read_succeeds e name s v (ground (arith, missing, h))))
          | inr (inl empty) ↦
              inr (readable_part (read_succeeds e name s v (ground (arith, empty, h))))
          | inr (inr (d, ds, hit)) ↦ inl (ground (arith, hit, h))
        ]
      where
        readable_part :
            ReadFromTable e name s v
            → (row : EncryptedSecret T) × (find_active name s.secrets ≡ some row)
              × CanRead f e row v
        readable_part r = (r.row, r.found, r.readable)
