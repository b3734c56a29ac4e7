-- ===== src/Secrets/Names.antt =====
-- The names of the secrets stay unique.
use traitkeeper_eco.Base.{
  ℕ, ◌+◌, ◌≤◌, ◌≡◌, refl, false, ◌==◌, List, [], ◌∷◌, ◌++◌, ok, Text, same_text, same_text_iff,
  arith, Bool-cases, Result-cases, ◌⊎◌, inl, inr, if◌then◌else◌,
}
use traitkeeper_eco.Secrets.{
  EncryptedSecret, SecretError, is_name_taken, has_row, put_row, save, save_access, Fernet,
  AdminUser, State, Surroundings, cache_key,
}
use traitkeeper_eco.Secrets.Calls.{
  encrypt_and_save, rotate_secret, decrypt_value, read_secret, get_secret_value, Request, handle,
  serve,
}
use traitkeeper_eco.Secrets.Reading.{
  Text-cases, encrypt_fails, rotate_fails, decrypt_fails, get_secret_value_fails, counted, accessed,
  decrypt_succeeds, LostAnswer, ReadFromTable, read_succeeds,
}
use traitkeeper_eco.Secrets.Written.{HasToken, encrypt_succeeds, rotate_succeeds}
use traitkeeper_eco.Core.Cache.{LocalCache}
use mathlib.Core.Path.{subst, subst⁻¹}

module _ {T : Type 0} where
  unfoldable pub count_id : ℕ → List (EncryptedSecret T) → ℕ
  count_id k [] = 0
  count_id k (r ∷ rows) = let rest = count_id k rows in if r.id == k then rest + 1 else rest

  unfoldable pub count_name : Text → List (EncryptedSecret T) → ℕ
  count_name n [] = 0
  count_name n (r ∷ rows) =
      let rest = count_name n rows in if same_text r.name n then rest + 1 else rest

  -- No two rows have the same id or the same name.
  pub record HasUniqueNames (rows : List (EncryptedSecret T)) : Type 0 where
    pub ids : (k : ℕ) → count_id k rows ≤ 1
    pub names : (n : Text) → count_name n rows ≤ 1

  count_id-put_row :
      (x : EncryptedSecret T) (k : ℕ) (rows : List (EncryptedSecret T))
      → count_id k (put_row x rows) ≡ count_id k rows
  unfolding count_id put_row
  count_id-put_row x k [] = refl
  count_id-put_row x k (r ∷ rows) = ground (arith, count_id-put_row x k rows)

  -- The other names lose the row, and its own name has no other row.
  count_other_name-put_row :
      (x : EncryptedSecret T) (n : Text) (rows : List (EncryptedSecret T))
      → same_text x.name n ≡ false
      → count_name n (put_row x rows) ≤ count_name n rows
  unfolding count_name put_row
  count_other_name-put_row x n [] h = omega arith
  count_other_name-put_row x n (r ∷ rows) h = ground (arith, count_other_name-put_row x n rows h, h)

  count_own_name-put_row :
      (x : EncryptedSecret T) (rows : List (EncryptedSecret T))
      → is_name_taken x rows ≡ false
      → count_name x.name (put_row x rows) ≤ count_id x.id rows
  unfolding count_name put_row count_id is_name_taken
  count_own_name-put_row x [] h = omega arith
  count_own_name-put_row x (r ∷ rows) h = ground (arith, count_own_name-put_row x rows, h)

  count_id-append :
      (x : EncryptedSecret T) (k : ℕ) (rows : List (EncryptedSecret T))
      → count_id k (rows ++ x ∷ []) ≡ count_id k rows + (if x.id == k then 1 else 0)
  unfolding count_id
  count_id-append x k [] = ground arith
  count_id-append x k (r ∷ rows) = ground (arith, count_id-append x k rows)

  count_name-append :
      (x : EncryptedSecret T) (n : Text) (rows : List (EncryptedSecret T))
      → count_name n (rows ++ x ∷ []) ≡ count_name n rows + (if same_text x.name n then 1 else 0)
  unfolding count_name
  count_name-append x n [] = ground arith
  count_name-append x n (r ∷ rows) = ground (arith, count_name-append x n rows)

  no_row_of_id :
      (k : ℕ) (rows : List (EncryptedSecret T)) → has_row k rows ≡ false → count_id k rows ≡ 0
  unfolding has_row count_id
  no_row_of_id k [] h = refl
  no_row_of_id k (r ∷ rows) h = ground (arith, no_row_of_id k rows, h)

  no_row_of_name :
      (x : EncryptedSecret T) (rows : List (EncryptedSecret T))
      → is_name_taken x rows ≡ false
      → has_row x.id rows ≡ false
      → count_name x.name rows ≡ 0
  unfolding is_name_taken has_row count_name
  no_row_of_name x [] free gone = refl
  no_row_of_name x (r ∷ rows) free gone = ground (arith, no_row_of_name x rows, free, gone)

  count_id-save_access :
      (x : EncryptedSecret T) (k : ℕ) (rows : List (EncryptedSecret T))
      → count_id k (save_access x rows) ≡ count_id k rows
  unfolding count_id save_access
  count_id-save_access x k [] = refl
  count_id-save_access x k (r ∷ rows) = ground (arith, count_id-save_access x k rows)

  count_name-save_access :
      (x : EncryptedSecret T) (n : Text) (rows : List (EncryptedSecret T))
      → count_name n (save_access x rows) ≡ count_name n rows
  unfolding count_name save_access
  count_name-save_access x n [] = refl
  count_name-save_access x n (r ∷ rows) = ground (arith, count_name-save_access x n rows)

  save-HasUniqueNames :
      (x : EncryptedSecret T) (rows after : List (EncryptedSecret T))
      → save x rows ≡ ok after
      → HasUniqueNames rows
      → HasUniqueNames after
  unfolding save
  save-HasUniqueNames x rows after saved u = elim (Bool-cases (is_name_taken x rows)) [
    | inl taken ↦ absurd (ground (arith, taken, saved))
    | inr free ↦ elim (Bool-cases (has_row x.id rows)) [
      | inl there ↦ subst HasUniqueNames (ground (arith, free, there, saved)) (record {
        ids = λ k. ground (arith, count_id-put_row x k rows, u.ids k);
        names = λ n. put_name n free;
      })
      | inr gone ↦ subst HasUniqueNames (ground (arith, free, gone, saved)) (record {
        ids = λ k. ground (arith, count_id-append x k rows, no_row_of_id x.id rows gone, u.ids k);
        names = λ n. append_name n free gone;
      })
    ]
  ]
    where
      put_name : (n : Text) → is_name_taken x rows ≡ false → count_name n (put_row x rows) ≤ 1
      put_name n free = elim (Bool-cases (same_text x.name n)) [
        | inl same ↦
            subst (λ t. count_name t (put_row x rows) ≤ 1) ((same_text_iff x.name n).0 same)
              (omega (arith, count_own_name-put_row x rows free, u.ids x.id))
        | inr other ↦ omega (arith, count_other_name-put_row x n rows other, u.names n)
      ]

      append_name :
          (n : Text)
          → is_name_taken x rows ≡ false
          → has_row x.id rows ≡ false
          → count_name n (rows ++ x ∷ []) ≤ 1
      append_name n free gone = elim (Bool-cases (same_text x.name n)) [
        | inl same ↦
            subst (λ t. count_name t (rows ++ x ∷ []) ≤ 1) ((same_text_iff x.name n).0 same)
              (ground (arith, count_name-append x x.name rows, no_row_of_name x rows free gone))
        | inr other ↦ ground (arith, count_name-append x n rows, other, u.names n)
      ]

  save_access-HasUniqueNames :
      (x : EncryptedSecret T) (rows : List (EncryptedSecret T))
      → HasUniqueNames rows
      → HasUniqueNames (save_access x rows)
  save_access-HasUniqueNames x rows u = record {
    ids = λ k. ground (arith, count_id-save_access x k rows, u.ids k);
    names = λ n. ground (arith, count_name-save_access x n rows, u.names n);
  }

stored-HasUniqueNames :
    {T L : Type 0} {f : Fernet T} {e : Surroundings} {plaintext : Text} {x : EncryptedSecret T}
    {s after : State T L}
    → HasToken f e plaintext x s after
    → HasUniqueNames s.secrets
    → HasUniqueNames after.secrets
stored-HasUniqueNames {s} {after} w u =
    save-HasUniqueNames w.x s.secrets after.secrets w.written.saved u

module _ {T L : Type 0} (f : Fernet T) (c : LocalCache L Text) where
  encrypt-HasUniqueNames :
      (e : Surroundings) (plaintext : Text) (user : AdminUser) (x : EncryptedSecret T)
      (s : State T L)
      → HasUniqueNames s.secrets
      → HasUniqueNames (encrypt_and_save f e plaintext user x s).1.secrets
  encrypt-HasUniqueNames e plaintext user x s u =
      elim (Result-cases (encrypt_and_save f e plaintext user x s).0) [
        | inr (y, failed) ↦
            subst⁻¹ (λ a. HasUniqueNames a.secrets) (encrypt_fails f e plaintext user x s y failed)
              u
        | inl (r, done) ↦ stored-HasUniqueNames (encrypt_succeeds f e plaintext user x r s done) u
      ]

  rotate-HasUniqueNames :
      (e : Surroundings) (plaintext : Text) (user : AdminUser) (x : EncryptedSecret T)
      (s : State T L)
      → HasUniqueNames s.secrets
      → HasUniqueNames (rotate_secret f e plaintext user x s).1.secrets
  rotate-HasUniqueNames e plaintext user x s u =
      elim (Result-cases (rotate_secret f e plaintext user x s).0) [
        | inr (y, failed) ↦
            subst⁻¹ (λ a. HasUniqueNames a.secrets) (rotate_fails f e plaintext user x s y failed) u
        | inl (r, done) ↦ stored-HasUniqueNames (rotate_succeeds f e plaintext user x r s done) u
      ]

  accessed_secrets :
      (e : Surroundings) (user : AdminUser) (x : EncryptedSecret T) (s : State T L)
      → (accessed f e user x s).secrets ≡ save_access (counted e x) s.secrets
  accessed_secrets e user x s = ground arith

  accessed-HasUniqueNames :
      (e : Surroundings) (user : AdminUser) (x : EncryptedSecret T) (s : State T L)
      → HasUniqueNames s.secrets
      → HasUniqueNames (accessed f e user x s).secrets
  accessed-HasUniqueNames e user x s u =
      subst⁻¹ HasUniqueNames (accessed_secrets e user x s)
        (save_access-HasUniqueNames (counted e x) s.secrets u)

  decrypt-HasUniqueNames :
      (e : Surroundings) (user : AdminUser) (x : EncryptedSecret T) (s : State T L)
      → HasUniqueNames s.secrets
      → HasUniqueNames (decrypt_value f e user x s).1.secrets
  decrypt-HasUniqueNames e user x s u = elim (Result-cases (decrypt_value f e user x s).0) [
    | inr (y, failed) ↦
        subst⁻¹ (λ a. HasUniqueNames a.secrets) (decrypt_fails f e user x s y failed) u
    | inl (v, done) ↦
        subst⁻¹ (λ o. HasUniqueNames o.1.secrets) (decrypt_succeeds f e user x s v done).0
          (accessed-HasUniqueNames e user x s u)
  ]

  read-HasUniqueNames :
      (e : Surroundings) (name : Text) (s : State T L) (v : Text)
      → (read_secret f c e name s).0 ≡ ok v
      → HasUniqueNames s.secrets
      → HasUniqueNames (read_secret f c e name s).1.secrets
  read-HasUniqueNames e name s v h u =
      let r : ReadFromTable f c e name s v = read_succeeds f c e name s v h in
      subst⁻¹ (λ o. HasUniqueNames o.1.secrets) r.after (accessed-HasUniqueNames e r.user r.row s u)

  look_up-HasUniqueNames :
      (e : Surroundings) (name : Text) (s : State T L)
      → HasUniqueNames s.secrets
      → HasUniqueNames (get_secret_value f c e name s).1.secrets
  unfolding get_secret_value
  look_up-HasUniqueNames e name s u = elim (Result-cases (get_secret_value f c e name s).0) [
    | inr (y, failed) ↦
        failed_lookup (get_secret_value f c e name s).1
          (get_secret_value_fails f c e name s y failed)
    | inl (v, done) ↦ elim (Text-cases (c.get e.now (cache_key name) s.cache)) [
      | inl missing ↦
          from_table (ground (arith, missing))
            (read-HasUniqueNames e name s v (ground (arith, missing, done)) u)
      | inr (inl empty) ↦
          from_table (ground (arith, empty))
            (read-HasUniqueNames e name s v (ground (arith, empty, done)) u)
      | inr (inr (d, ds, hit)) ↦ unchanged (ground (arith, hit))
    ]
  ]
    where
      failed_lookup :
          {x : SecretError} (after : State T L)
          → (after ≡ s) ⊎ LostAnswer f c e name s after x
          → HasUniqueNames after.secrets
      failed_lookup after (inl same) = subst⁻¹ (λ a. HasUniqueNames a.secrets) same u
      failed_lookup after (inr r) =
          subst⁻¹ (λ a. HasUniqueNames a.secrets) r.counted_once
            (accessed-HasUniqueNames e r.user r.row s u)

      unchanged :
          (get_secret_value f c e name s).1 ≡ s
          → HasUniqueNames (get_secret_value f c e name s).1.secrets
      unchanged same = subst⁻¹ (λ a. HasUniqueNames a.secrets) same u

      from_table :
          (get_secret_value f c e name s) ≡ read_secret f c e name s
          → HasUniqueNames (read_secret f c e name s).1.secrets
          → HasUniqueNames (get_secret_value f c e name s).1.secrets
      from_table same h = subst⁻¹ (λ o. HasUniqueNames o.1.secrets) same h

  handle-HasUniqueNames :
      (q : Request T) (s : State T L)
      → HasUniqueNames s.secrets
      → HasUniqueNames (handle f c q s).secrets
  unfolding handle
  handle-HasUniqueNames (Request.encrypt e plaintext user x) s u =
      encrypt-HasUniqueNames e plaintext user x s u
  handle-HasUniqueNames (Request.rotate e plaintext user x) s u =
      rotate-HasUniqueNames e plaintext user x s u
  handle-HasUniqueNames (Request.decrypt e user x) s u = decrypt-HasUniqueNames e user x s u
  handle-HasUniqueNames (Request.look_up e name) s u = look_up-HasUniqueNames e name s u

  -- Whatever calls come in, with whatever instances of rows, read by then or not, no two secrets come
  -- to have the same id or the same name.
  pub serve-HasUniqueNames :
      (qs : List (Request T)) (s : State T L)
      → HasUniqueNames s.secrets
      → HasUniqueNames (serve f c qs s).secrets
  unfolding serve
  serve-HasUniqueNames [] s u = u
  serve-HasUniqueNames (q ∷ qs) s u =
      serve-HasUniqueNames qs (handle f c q s) (handle-HasUniqueNames q s u)
