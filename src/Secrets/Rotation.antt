-- ===== src/Secrets/Rotation.antt =====
-- What is read of a secret after it was written.
use traitkeeper_eco.Base.{ℕ, ◌≡◌, true, some, Text}
use traitkeeper_eco.Secrets.{Fernet}

-- A token opens with its key.
pub record IsFernet {T : Type 0} (f : Fernet T) : Type 0 where
  pub decrypt-encrypt :
      (key plaintext : Text) (noise : ℕ)
      → f.is_key key ≡ true
      → f.decrypt key (f.encrypt key noise plaintext) ≡ some plaintext
