-- ===== src/Secrets/Written.antt =====
-- What a successful `encrypt_and_save` or `rotate_secret` leaves in the table.
use traitkeeper_eco.Base.{
  ◌≡◌, refl, sym, ap, ◌∙◌, true, false, some, List, [], ◌∷◌, ◌++◌, ok, Text, codes, same_text_iff,
  arith, Bool-cases, Result-cases, inl, inr,
}
use mathlib.Core.Path.{subst⁻¹}
use traitkeeper_eco.Secrets.{
  EncryptedSecret, Fernet, Action, AdminUser, State, Surroundings, is_name_taken, has_row, put_row,
  save, find_active,
}
use traitkeeper_eco.Secrets.Calls.{write, get_encryption_key, encrypt_and_save, rotate_secret}

module _ {T : Type 0} where
  find_active-put_row :
      (x : EncryptedSecret T) (rows : List (EncryptedSecret T))
      → is_name_taken x rows ≡ false
      → has_row x.id rows ≡ true
      → x.is_active ≡ true
      → find_active x.name (put_row x rows) ≡ some x
  unfolding is_name_taken has_row put_row find_active
  find_active-put_row x [] free there active = ground arith
  find_active-put_row x (r ∷ rows) free there active =
      ground (arith, find_active-put_row x rows, same_text_iff x.name x.name, free, there, active)

  find_active-append :
      (x : EncryptedSecret T) (rows : List (EncryptedSecret T))
      → is_name_taken x rows ≡ false
      → has_row x.id rows ≡ false
      → x.is_active ≡ true
      → find_active x.name (rows ++ x ∷ []) ≡ some x
  unfolding is_name_taken has_row find_active
  find_active-append x [] free gone active = ground (arith, same_text_iff x.name x.name, active)
  find_active-append x (r ∷ rows) free gone active =
      ground (arith, find_active-append x rows, free, gone, active)

  -- A row that was saved is the one of its name.
  pub find_active-save :
      (x : EncryptedSecret T) (rows after : List (EncryptedSecret T))
      → save x rows ≡ ok after
      → x.is_active ≡ true
      → find_active x.name after ≡ some x
  unfolding save
  find_active-save x rows after saved active =
      ground (arith, saved, active, find_active-put_row x rows, find_active-append x rows)

module _ {T L : Type 0} (f : Fernet T) where
  -- What a successful write of a row leaves.
  pub record Written (e : Surroundings) (x : EncryptedSecret T) (s after : State T L) : Type 0 where
    pub saved : save x s.secrets ≡ ok after.secrets
    pub cache : after.cache ≡ s.cache

  write_succeeds :
      (e : Surroundings) (a : Action) (user : AdminUser) (x r : EncryptedSecret T) (s : State T L)
      → (write f e a user x s).0 ≡ ok r
      → Written e x s (write f e a user x s).1
  unfolding write
  write_succeeds e a user x r s h = elim (Result-cases (save x s.secrets)) [
    | inr (y, failed) ↦ absurd (ground (arith, failed, h))
    | inl (rows, saved) ↦ record { saved = ground (arith, saved); cache = ground (arith, saved) }
  ]

  -- The row that a call writes, with a token of the text.
  pub record HasToken (e : Surroundings) (plaintext : Text) (row : EncryptedSecret T)
      (s after : State T L) : Type 0 where
    pub x : EncryptedSecret T
    pub key : Text
    pub keyed : get_encryption_key f e ≡ ok key
    pub written : Written e x s after
    pub name : x.name ≡ row.name
    pub active : x.is_active ≡ row.is_active
    pub expires : x.expires_at ≡ row.expires_at
    pub token : x.encrypted_value ≡ f.encrypt key e.noise plaintext

  pub encrypt_succeeds :
      (e : Surroundings) (plaintext : Text) (user : AdminUser) (row r : EncryptedSecret T)
      (s : State T L)
      → (encrypt_and_save f e plaintext user row s).0 ≡ ok r
      → HasToken e plaintext row s (encrypt_and_save f e plaintext user row s).1
  unfolding encrypt_and_save
  encrypt_succeeds e plaintext user row r s h = elim (Bool-cases user.is_superuser) [
    | inr down ↦ absurd (ground (arith, down, h))
    | inl up ↦ elim (Result-cases (get_encryption_key f e)) [
      | inr (y, keyless) ↦ absurd (ground (arith, up, keyless, h))
      | inl (key, keyed) ↦
          let x : EncryptedSecret T = record row {
            encrypted_value = f.encrypt key e.noise plaintext;
            encryption_key_id = codes "v1";
            created_by = user.id;
            last_modified_by = some user.id;
          } in
          let called : encrypt_and_save f e plaintext user row s
              ≡ write f e Action.encrypted user x s =
            ground (arith, up, keyed) in
          record {
            x = x;
            key = key;
            keyed = keyed;
            written =
                subst⁻¹ (λ o. Written e x s o.1) called
                  (write_succeeds e Action.encrypted user x r s (sym (ap (λ o. o.0) called) ∙ h));
            name = refl;
            active = refl;
            expires = refl;
            token = refl;
          }
    ]
  ]

  pub rotate_succeeds :
      (e : Surroundings) (plaintext : Text) (user : AdminUser) (row r : EncryptedSecret T)
      (s : State T L)
      → (rotate_secret f e plaintext user row s).0 ≡ ok r
      → HasToken e plaintext row s (rotate_secret f e plaintext user row s).1
  unfolding rotate_secret
  rotate_succeeds e plaintext user row r s h = elim (Bool-cases user.is_superuser) [
    | inr down ↦ absurd (ground (arith, down, h))
    | inl up ↦ elim (Result-cases (get_encryption_key f e)) [
      | inr (y, keyless) ↦ absurd (ground (arith, up, keyless, h))
      | inl (key, keyed) ↦
          let x : EncryptedSecret T = record row {
            encrypted_value = f.encrypt key e.noise plaintext;
            last_modified_by = some user.id;
          } in
          let called : rotate_secret f e plaintext user row s ≡ write f e Action.rotated user x s =
            ground (arith, up, keyed) in
          record {
            x = x;
            key = key;
            keyed = keyed;
            written =
                subst⁻¹ (λ o. Written e x s o.1) called
                  (write_succeeds e Action.rotated user x r s (sym (ap (λ o. o.0) called) ∙ h));
            name = refl;
            active = refl;
            expires = refl;
            token = refl;
          }
    ]
  ]
