-- ===== src/Core/Providers/Primary.antt =====
-- The primary provider among the rows of PrimaryProviderSetting (admin_panel/models.py).
use traitkeeper_eco.Base.{
  ℕ, ◌+◌, ◌≤◌, ◌≡◌, refl, Bool, true, false, not, ◌&&◌, List, [], ◌∷◌, ◌++◌, err, count_if, ◌==◌,
  arith, if◌then◌else◌, Bool-cases, inl, inr,
}
use mathlib.Core.Path.{subst⁻¹}
use mathlib.Core.Logic.{◌≢◌}
use traitkeeper_eco.Table.{find, update, update_where, is_taken}
use traitkeeper_eco.Indexer.Quota.{ProviderSetting}
use traitkeeper_eco.Core.Providers.{
  provider_model, save, unset_primary, is_name_taken, get_primary_name_from_db, Database, Failure,
}

abbrev with_id : ℕ → ProviderSetting → Bool
with_id k r = r.id == k

abbrev is_other : ℕ → ProviderSetting → Bool
is_other k r = r.is_primary && not (r.id == k)

abbrev primaries : List ProviderSetting → ℕ
primaries rows = count_if (λ r. r.is_primary) rows

-- Keys are not shared, and at most one row is primary.
pub record HasOnePrimary (rows : List ProviderSetting) : Type 0 where
  pub keys : (k : ℕ) → count_if (with_id k) rows ≤ 1
  pub one : primaries rows ≤ 1

count_if-append :
    (p : ProviderSetting → Bool) (rows : List ProviderSetting) (r : ProviderSetting)
    → count_if p (rows ++ r ∷ []) ≡ count_if p rows + count_if p (r ∷ [])
count_if-append p [] r = omega arith
count_if-append p (x ∷ rows) r = ground (arith, count_if-append p rows r)

not_taken :
    (rows : List ProviderSetting) (r : ProviderSetting)
    → is_taken r rows ≡ false
    → count_if (with_id r.id) rows ≡ 0
unfolding find
not_taken [] r h = refl
not_taken (x ∷ rows) r h = ground (arith, not_taken rows r)

with_id-unset_primary :
    (j k : ℕ) (rows : List ProviderSetting)
    → count_if (with_id k) (unset_primary j rows) ≡ count_if (with_id k) rows
unfolding unset_primary update_where
with_id-unset_primary j k [] = refl
with_id-unset_primary j k (x ∷ rows) = ground (arith, with_id-unset_primary j k rows)

others-unset_primary :
    (j : ℕ) (rows : List ProviderSetting) → count_if (is_other j) (unset_primary j rows) ≡ 0
unfolding unset_primary update_where
others-unset_primary j [] = refl
others-unset_primary j (x ∷ rows) = ground (arith, others-unset_primary j rows)

primaries-unset_primary :
    (j : ℕ) (rows : List ProviderSetting) → primaries (unset_primary j rows) ≤ primaries rows
unfolding unset_primary update_where
primaries-unset_primary j [] = omega arith
primaries-unset_primary j (x ∷ rows) = ground (arith, primaries-unset_primary j rows)

primaries-le :
    (k : ℕ) (rows : List ProviderSetting)
    → primaries rows ≤ count_if (with_id k) rows + count_if (is_other k) rows
primaries-le k [] = omega arith
primaries-le k (x ∷ rows) = ground (arith, primaries-le k rows)

module _ (r : ProviderSetting) where
  with_id-update :
      (k : ℕ) (rows : List ProviderSetting)
      → count_if (with_id k) (update r.id (λ _. r) rows) ≡ count_if (with_id k) rows
  unfolding update_where
  with_id-update k [] = refl
  with_id-update k (x ∷ rows) = ground (arith, with_id-update k rows)

  primaries-update :
      (rows : List ProviderSetting)
      → primaries (update r.id (λ _. r) rows)
        ≤ count_if (with_id r.id) rows + count_if (is_other r.id) rows
  unfolding update_where
  primaries-update [] = omega arith
  primaries-update (x ∷ rows) = ground (arith, primaries-update rows)

  primaries-update_plain :
      (rows : List ProviderSetting)
      → r.is_primary ≡ false
      → primaries (update r.id (λ _. r) rows) ≤ primaries rows
  unfolding update_where
  primaries-update_plain [] h = omega arith
  primaries-update_plain (x ∷ rows) h = ground (arith, primaries-update_plain rows h)

  -- The rows that `save` writes to.
  abbrev cleared : List ProviderSetting → List ProviderSetting
  cleared rows = if r.is_primary then unset_primary r.id rows else rows

  cleared-HasOnePrimary :
      (rows : List ProviderSetting) → HasOnePrimary rows → HasOnePrimary (cleared rows)
  cleared-HasOnePrimary rows h = record {
    keys = λ k. ground (arith, h.keys k, with_id-unset_primary r.id k rows);
    one = ground (arith, h.one, primaries-unset_primary r.id rows);
  }

  others-cleared :
      (rows : List ProviderSetting)
      → r.is_primary ≡ true
      → count_if (is_other r.id) (cleared rows) ≡ 0
  others-cleared rows h = ground (arith, h, others-unset_primary r.id rows)

  -- The row is written over the one with its key, or added.
  abbrev stored : Bool → List ProviderSetting → List ProviderSetting
  stored taken rows = if taken then update r.id (λ _. r) rows else rows ++ r ∷ []

  stored-HasOnePrimary :
      (taken : Bool) (rows : List ProviderSetting)
      → is_taken r rows ≡ taken
      → (r.is_primary ≡ true → count_if (is_other r.id) rows ≡ 0)
      → HasOnePrimary rows
      → HasOnePrimary (stored taken rows)
  stored-HasOnePrimary true rows t others h = record {
    keys = λ k. ground (arith, h.keys k, with_id-update k rows);
    one = elim (Bool-cases r.is_primary) [
      | inl primary ↦ ground (arith, others primary, h.keys r.id, primaries-update rows)
      | inr plain ↦ ground (arith, h.one, primaries-update_plain rows plain)
    ];
  }
  stored-HasOnePrimary false rows t others h = record {
    keys = λ k. ground (arith, h.keys k, not_taken rows r t, count_if-append (with_id k) rows r);
    one = elim (Bool-cases r.is_primary) [
      | inl primary ↦ ground (
        arith,
        others primary,
        not_taken rows r t,
        primaries-le r.id rows,
        count_if-append (λ x. x.is_primary) rows r,
      )
      | inr plain ↦ ground (arith, h.one, count_if-append (λ x. x.is_primary) rows r)
    ];
  }

  saved_rows :
      (rows : List ProviderSetting)
      → (save r rows).1 ≡ (
          if is_name_taken r (cleared rows)
          then cleared rows
          else stored (is_taken r (cleared rows)) (cleared rows))
  unfolding save
  saved_rows rows = ground arith

  save-HasOnePrimary :
      (rows : List ProviderSetting) → HasOnePrimary rows → HasOnePrimary (save r rows).1
  save-HasOnePrimary rows h =
      subst⁻¹ HasOnePrimary (saved_rows rows) (choice (is_name_taken r (cleared rows)))
    where
      choice :
          (clash : Bool)
          → HasOnePrimary
              (if clash then cleared rows else stored (is_taken r (cleared rows)) (cleared rows))
      choice true = cleared-HasOnePrimary rows h
      choice false =
          stored-HasOnePrimary (is_taken r (cleared rows)) (cleared rows) refl (others-cleared rows)
            (cleared-HasOnePrimary rows h)

unfoldable pub saves : List ProviderSetting → List ProviderSetting → List ProviderSetting
saves [] rows = rows
saves (r ∷ rs) rows = saves rs (save r rows).1

saves-HasOnePrimary :
    (rs rows : List ProviderSetting) → HasOnePrimary rows → HasOnePrimary (saves rs rows)
unfolding saves
saves-HasOnePrimary [] rows h = h
saves-HasOnePrimary (r ∷ rs) rows h =
    saves-HasOnePrimary rs (save r rows).1 (save-HasOnePrimary r rows h)

active-primaries-le :
    (rows : List ProviderSetting)
    → count_if (λ r. r.is_primary && r.is_active) rows ≤ primaries rows
active-primaries-le [] = omega arith
active-primaries-le (x ∷ rows) = ground (arith, active-primaries-le rows)

no_multiple :
    (db : Database)
    → primaries db.rpc ≤ 1
    → get_primary_name_from_db db ≢ err Failure.multiple_objects
unfolding get_primary_name_from_db
no_multiple db h = ground (arith, active-primaries-le db.rpc)

-- From rows with keys of their own of which at most one is primary, saving rows in any order, those
-- that fail for a name that is taken included, leaves such rows, and the manager's query for the
-- primary provider never finds more than one.
pub saves_keep_one_primary :
    (rs : List ProviderSetting) (db : Database)
    → HasOnePrimary db.rpc
    → HasOnePrimary (saves rs db.rpc)
      × (get_primary_name_from_db (record db { rpc = saves rs db.rpc })
          ≢ err Failure.multiple_objects)
saves_keep_one_primary rs db h = (
  saves-HasOnePrimary rs db.rpc h,
  no_multiple (record db { rpc = saves rs db.rpc }) (saves-HasOnePrimary rs db.rpc h).one,
)
