-- ===== src/Wallet/Single.antt =====
-- One primary wallet for each user, under saves and deletions.
use mathlib.Core.Option
use mathlib.Core.Path.{subst⁻¹}
use traitkeeper_eco.Base.{
  ℕ, ◌≡◌, refl, true, false, not, ◌&&◌, ◌||◌, none, some, List, [], ◌∷◌, arith, ◌==◌, is_value,
  count_if, Bool-cases, Option-cases, inl, inr, if◌then◌else◌, ◌⊎◌,
}
use traitkeeper_eco.Table.{
  find, update, update_where, remove, is_taken, find-update_where, find-append, pk-find,
}
use traitkeeper_eco.Wallet.{
  WalletProfile, wallet_model, Instance, save, is_clean, is_other_primary, not_primary, is_first,
  unset_others, stored, saved, insert,
}

-- Two keys of primary wallets of one user are one key.
abbrev pub HasOnePrimary : List WalletProfile → Type 0
HasOnePrimary rows =
    (j k : ℕ) (a b : WalletProfile)
    → find j rows ≡ some a
    → find k rows ≡ some b
    → a.is_primary ≡ true
    → b.is_primary ≡ true
    → a.user ≡ b.user
    → j ≡ k

-- A row after the others were unset: it was there, is primary only if it was, and not beside w.
record WasIn (w : Instance) (rows : List WalletProfile) (k : ℕ) (r : WalletProfile) : Type 0 where
  row : WalletProfile
  found : find k rows ≡ some row
  same_user : row.user ≡ r.user
  was_primary : r.is_primary ≡ true → row.is_primary ≡ true
  alone : w.is_primary && r.is_primary && r.user == w.user && not (is_value w.pk k) ≡ false

unset-WasIn :
    (w : Instance) (rows : List WalletProfile) (k : ℕ) (r : WalletProfile)
    → find k (unset_others w rows) ≡ some r
    → WasIn w rows k r
unfolding unset_others
unset-WasIn w rows k r e = elim (Option-cases (find k rows)) [
  | inl missing ↦ ground (arith, moved)
  | inr (x, found) ↦ record {
    row = x;
    found = found;
    same_user = ground (arith, moved);
    was_primary = λ p. ground (arith, moved);
    alone = ground (arith, moved, pk-find k {r = x} rows);
  }
]
  where
    moved :
        find k (update_where (is_other_primary w) not_primary rows)
        ≡ Option.map (λ x. if is_other_primary w x then not_primary x else x) (find k rows)
    moved = find-update_where (is_other_primary w) not_primary k rows (λ x _. refl)

unset-HasOnePrimary :
    (w : Instance) (rows : List WalletProfile)
    → HasOnePrimary rows
    → HasOnePrimary (unset_others w rows)
unset-HasOnePrimary w rows h j k a b ea eb pa pb same =
    let x = unset-WasIn w rows j a ea in
    let y = unset-WasIn w rows k b eb in
    h j k x.row y.row x.found y.found (x.was_primary pa) (y.was_primary pb)
      (ground (arith, x.same_user, y.same_user))

-- A found wallet of a user is counted.
found_counts :
    (user k : ℕ) (rows : List WalletProfile) (a : WalletProfile)
    → find k rows ≡ some a
    → a.user ≡ user
    → (count_if (λ r. r.user == user) rows == 0) ≡ false
unfolding find
found_counts user k [] a e h = ground arith
found_counts user k (r ∷ rows) a e h = ground (arith, found_counts user k rows a)

-- A wallet that is stored as primary is then alone among its user's.
no_other_primary :
    (w : Instance) (rows : List WalletProfile) (k : ℕ) (r : WalletProfile)
    → find k (unset_others w rows) ≡ some r
    → r.is_primary ≡ true
    → r.user ≡ w.user
    → (w.is_primary || is_first w rows) ≡ true
    → is_value w.pk k ≡ true
no_other_primary w rows k r e p same primary =
    let x = unset-WasIn w rows k r e in
    ground (arith, x.alone, found_counts w.user k rows x.row x.found, x.same_user)

remove-gone : (k : ℕ) (rows : List WalletProfile) → find k (remove k rows) ≡ none
unfolding find remove
remove-gone k [] = refl
remove-gone k (r ∷ rows) = ground (arith, remove-gone k rows)

remove-found :
    (k j : ℕ) (rows : List WalletProfile) (a : WalletProfile)
    → find j (remove k rows) ≡ some a
    → find j rows ≡ some a
unfolding find remove
remove-found k j [] a e = ground arith
remove-found k j (r ∷ rows) a e = grind (arith, remove-gone k rows, remove-found k j rows a)

removed-HasOnePrimary :
    (k : ℕ) (rows : List WalletProfile) → HasOnePrimary rows → HasOnePrimary (remove k rows)
removed-HasOnePrimary k rows h i j a b ea eb pa pb same =
    h i j a b (remove-found k i rows a ea) (remove-found k j rows b eb) pa pb same

inserted-HasOnePrimary :
    (w : Instance) (rows : List WalletProfile) (c : WalletProfile)
    → HasOnePrimary rows
    → c.user ≡ w.user
    → (c.is_primary ≡ true → (w.is_primary || is_first w rows) ≡ true)
    → ((k : ℕ) → is_value w.pk k ≡ true → c.id ≡ k)
    → HasOnePrimary (insert c (unset_others w rows)).1
inserted-HasOnePrimary w rows c h user primary key =
    elim (Bool-cases (is_taken c (unset_others w rows)))
      as (λ _. HasOnePrimary (insert c (unset_others w rows)).1) [
        | inl taken ↦ λ j k a b ea eb pa pb same.
            unset-HasOnePrimary w rows h j k a b (ground arith) (ground arith) pa pb same
        | inr fresh ↦ λ j k a b ea eb pa pb same. ground (
          arith,
          find-append j others c,
          find-append k others c,
          user,
          primary,
          key j,
          key k,
          unset-HasOnePrimary w rows h j k a b,
          no_other_primary w rows j a,
          no_other_primary w rows k b,
          pk-find j {r = a} others,
          pk-find k {r = b} others,
        )
      ]
  where
    others : List WalletProfile
    others = unset_others w rows

updated-found :
    (w : Instance) (k : ℕ) (rows : List WalletProfile) (i : ℕ) (a : WalletProfile)
    → find i (update k (saved w) rows) ≡ some a
    → ((i ≡ k) × (a.user ≡ w.user) × (a.is_primary ≡ w.is_primary)) ⊎ (find i rows ≡ some a)
updated-found w k rows i a e = elim (Option-cases (find i rows)) [
  | inl missing ↦ ground (arith, moved)
  | inr (x, found) ↦ elim (Bool-cases (x.id == k)) [
    | inl here ↦
        inl (ground (arith, pk-find i {r = x} rows), ground (arith, moved), ground (arith, moved))
    | inr there ↦ inr (ground (arith, moved))
  ]
]
  where
    moved :
        find i (update k (saved w) rows)
        ≡ Option.map (λ x. if x.id == k then saved w x else x) (find i rows)
    moved = find-update_where (λ (x : WalletProfile). x.id == k) (saved w) i rows (λ x _. refl)

updated-HasOnePrimary :
    (w : Instance) (rows : List WalletProfile) (k : ℕ)
    → HasOnePrimary rows
    → w.pk ≡ some k
    → HasOnePrimary (update k (saved w) (unset_others w rows))
updated-HasOnePrimary w rows k h key i j a b ea eb pa pb same =
    by_rows (updated-found w k others i a ea) (updated-found w k others j b eb)
  where
    others : List WalletProfile
    others = unset_others w rows

    by_rows :
        ((i ≡ k) × (a.user ≡ w.user) × (a.is_primary ≡ w.is_primary)) ⊎ (find i others ≡ some a)
        → ((j ≡ k) × (b.user ≡ w.user) × (b.is_primary ≡ w.is_primary)) ⊎ (find j others ≡ some b)
        → i ≡ j
    by_rows (inl x) (inl y) = ground (arith, x.0, y.0)
    by_rows (inl x) (inr old) = ground (arith, x.0, x.1, x.2, no_other_primary w rows j b old)
    by_rows (inr old) (inl y) = ground (arith, y.0, y.1, y.2, no_other_primary w rows i a old)
    by_rows (inr old) (inr old') = unset-HasOnePrimary w rows h i j a b old old' pa pb same

-- What changes the wallets, from outside the model.
pub data Step : Type 0 where
  saving : (now new_id : ℕ) → Instance → Step
  deleting : (id : ℕ) → Step

abbrev pub step : Step → List WalletProfile → List WalletProfile
step (saving now new_id w) rows = (save now new_id w rows).1
step (deleting id) rows = remove id rows

abbrev pub steps : List Step → List WalletProfile → List WalletProfile
steps [] rows = rows
steps (s ∷ rest) rows = steps rest (step s rows)

save-HasOnePrimary :
    (now new_id : ℕ) (w : Instance) (rows : List WalletProfile)
    → HasOnePrimary rows
    → HasOnePrimary (save now new_id w rows).1
unfolding save
save-HasOnePrimary now new_id w rows h = elim (Bool-cases (is_clean w rows)) [
  | inr dirty ↦ subst⁻¹ HasOnePrimary (ground arith) h
  | inl clean ↦ elim (Option-cases w.pk) [
    | inl new ↦
        subst⁻¹ HasOnePrimary {x = (save now new_id w rows).1}
          {y = (insert (stored now new_id w rows) (unset_others w rows)).1} (ground arith)
          (inserted-HasOnePrimary w rows (stored now new_id w rows) h refl (λ e. e)
            (λ k e. ground arith))
    | inr (k, key) ↦ elim (Option-cases (find k (unset_others w rows))) [
      | inl missing ↦
          subst⁻¹ HasOnePrimary {x = (save now new_id w rows).1}
            {y = (insert (stored now k w rows) (unset_others w rows)).1} (ground arith)
            (inserted-HasOnePrimary w rows (stored now k w rows) h refl (λ e. e)
              (λ j e. ground arith))
      | inr (r, found) ↦
          subst⁻¹ HasOnePrimary {x = (save now new_id w rows).1}
            {y = update k (saved w) (unset_others w rows)} (ground arith)
            (updated-HasOnePrimary w rows k h key)
    ]
  ]
]

-- From wallets of which no user has two that are primary, saves and deletions in any order lead to
-- such wallets.
pub steps-HasOnePrimary :
    (changes : List Step) (rows : List WalletProfile)
    → HasOnePrimary rows
    → HasOnePrimary (steps changes rows)
steps-HasOnePrimary [] rows h = h
steps-HasOnePrimary (saving now new_id w ∷ rest) rows h =
    steps-HasOnePrimary rest (save now new_id w rows).1 (save-HasOnePrimary now new_id w rows h)
steps-HasOnePrimary (deleting id ∷ rest) rows h =
    steps-HasOnePrimary rest (remove id rows) (removed-HasOnePrimary id rows h)
