-- ===== src/Table.antt =====
-- A database table as the list of its rows, in the order of insertion, and the statements that the
-- services run on it. The primary key of a row is given by its `Model` instance.
use traitkeeper_eco.Base.{
  ℕ, ◌≡◌, refl, Bool, true, false, Option, none, some, List, [], ◌∷◌, ◌++◌, arith, ◌==◌, All,
  Bool-cases, Option-cases, inl, inr, if◌then◌else◌,
}
use mathlib.Core.Option
use mathlib.Core.Path.{subst}

pub record Model (R : Type 0) : Type 0 where
  pub pk : R → ℕ

abbrev pub or_else {ℓ} : {A : Type ℓ} → Option A → Option A → Option A
or_else none o = o
or_else (some a) o = some a

module _ {R : Type 0} ⦃m : Model R⦄ where
  -- SELECT … WHERE pk = k
  unfoldable pub find : ℕ → List R → Option R
  find k [] = none
  find k (r ∷ t) = if m.pk r == k then some r else find k t

  -- UPDATE … SET f WHERE p
  unfoldable pub update_where : (R → Bool) → (R → R) → List R → List R
  update_where p f [] = []
  update_where p f (r ∷ t) = (if p r then f r else r) ∷ update_where p f t

  -- UPDATE … SET f WHERE pk = k: `save(update_fields=…)` on the row k.
  abbrev pub update : ℕ → (R → R) → List R → List R
  update k f = update_where (λ r. m.pk r == k) f

  -- INSERT: `objects.create`, which a row with the same key makes fail.
  abbrev pub is_taken : R → List R → Bool
  is_taken r t = elim (find (m.pk r) t) [ none ↦ false | some _ ↦ true ]

  -- DELETE … WHERE pk = k
  unfoldable pub remove : ℕ → List R → List R
  remove k [] = []
  remove k (r ∷ t) = let rest = remove k t in if m.pk r == k then rest else r ∷ rest

  pub find-update_where :
      (p : R → Bool) (f : R → R) (k : ℕ) (t : List R)
      → ((r : R) → p r ≡ true → m.pk (f r) ≡ m.pk r)
      → find k (update_where p f t) ≡ Option.map (λ r. if p r then f r else r) (find k t)
  unfolding find update_where
  find-update_where p f k [] keeps = refl
  find-update_where p f k (r ∷ t) keeps = ground (arith, keeps r, find-update_where p f k t keeps)

  pub pk-find : (k : ℕ) {r : R} (t : List R) → find k t ≡ some r → m.pk r ≡ k
  unfolding find
  pk-find k [] h = ground arith
  pk-find k {r} (s ∷ t) h = ground (arith, pk-find k {r = r} t)

  pub find-append :
      (k : ℕ) (t : List R) (r : R)
      → find k (t ++ r ∷ []) ≡ or_else (find k t) (if m.pk r == k then some r else none)
  unfolding find
  find-append k [] r = refl
  find-append k (s ∷ t) r = ground (arith, find-append k t r)

  pub All-find : (P : R → Type 0) (k : ℕ) {r : R} (t : List R) → All P t → find k t ≡ some r → P r
  unfolding find
  All-find P k [] h e = ground arith
  All-find P k {r} (s ∷ t) h e = ground (arith, All-find P k {r = r} t h.1)

  pub All-update_where :
      (P : R → Type 0) (p : R → Bool) (f : R → R) (t : List R)
      → All P t
      → ((r : R) → P r → p r ≡ true → P (f r))
      → All P (update_where p f t)
  unfolding update_where
  All-update_where P p f [] h keeps = tt
  All-update_where P p f (r ∷ t) h keeps = (choose (p r) refl, All-update_where P p f t h.1 keeps)
    where
      choose : (b : Bool) → p r ≡ b → P (if b then f r else r)
      choose true e = keeps r h.0 e
      choose false e = h.0

  -- A property of all the rows that a key finds outlives an update of one of them to a row that has
  -- it, and the insertion of one that has it.
  pub found_after :
      (P : R → Type 0) (f : R → R) (c : R) (t : List R)
      → ((k : ℕ) (r : R) → find k t ≡ some r → P r)
      → find (m.pk c) t ≡ some c
      → P (f c)
      → ((r : R) → m.pk r ≡ m.pk c → m.pk (f r) ≡ m.pk c)
      → (k : ℕ) (r : R) → find k (update (m.pk c) f t) ≡ some r
      → P r
  found_after P f c t h row valid keeps k r e = elim (Option-cases (find k t)) [
    | inl missing ↦ ground (arith, moved)
    | inr (x, found) ↦ elim (Bool-cases (m.pk x == m.pk c)) [
      | inl same ↦ subst P (changed x found same) valid
      | inr other ↦ h k r (ground (arith, moved))
    ]
  ]
    where
      moved :
          find k (update (m.pk c) f t)
          ≡ Option.map (λ x. if m.pk x == m.pk c then f x else x) (find k t)
      moved = find-update_where (λ x. m.pk x == m.pk c) f k t (λ x e. ground (arith, keeps x))

      changed : (x : R) → find k t ≡ some x → (m.pk x == m.pk c) ≡ true → f c ≡ r
      changed x found same = ground (arith, moved, pk-find k {r = x} t)

  pub found_appended :
      (P : R → Type 0) (c : R) (t : List R)
      → ((k : ℕ) (r : R) → find k t ≡ some r → P r)
      → P c
      → (k : ℕ) (r : R) → find k (t ++ c ∷ []) ≡ some r
      → P r
  found_appended P c t h valid k r e = elim (Option-cases (find k t)) [
    | inl missing ↦ subst P (ground (arith, find-append k t c)) valid
    | inr (x, found) ↦ h k r (ground (arith, find-append k t c))
  ]

  pub find-update :
      (f : R → R) (k : ℕ) (t : List R) {r : R}
      → find k t ≡ some r
      → m.pk (f r) ≡ k
      → find k (update k f t) ≡ some (f r)
  unfolding find update_where
  find-update f k [] e same = ground arith
  find-update f k (s ∷ t) {r} e same = ground (arith, find-update f k t {r = r})
