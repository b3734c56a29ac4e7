-- ===== src/Orm/Preserves.antt =====
-- Invariants of calls: a predicate on the database that a call keeps whether it returns or raises,
-- with one rule for each way to build a call.
use traitkeeper_eco.Base.{◌≡◌, refl, Bool, true, false, Option, none, some, ok, err, if◌then◌else◌}
use traitkeeper_eco.Schema.{Error}
use traitkeeper_eco.Outcome.{Outcome}
use traitkeeper_eco.Orm
use traitkeeper_eco.Orm.{Db, Action, pure, raise, lift, query, atomic, ◌>>=◌}

pub record Preserves {A : Type 0} (P : Db → Type 0) (m : Action A) : Type 0 where
  pub holds : (db : Db) → P db → P (m db).1

module _ {P : Db → Type 0} {A : Type 0} where
  pub Preserves-pure : (a : A) → Preserves P (pure a)
  unfolding ◌>>=◌
  Preserves-pure a = record { holds = λ db h. h }

  pub Preserves-raise : (e : Error) → Preserves P (raise {A = A} e)
  unfolding ◌>>=◌
  Preserves-raise e = record { holds = λ db h. h }

  pub Preserves-lift : (r : Outcome A) → Preserves P (lift r)
  unfolding ◌>>=◌
  Preserves-lift r = record { holds = λ db h. h }

  pub Preserves-query : (q : Db → Outcome A) → Preserves P (query q)
  unfolding ◌>>=◌
  Preserves-query q = record { holds = λ db h. h }

  pub Preserves-if :
      (b : Bool) (m n : Action A) → Preserves P m → Preserves P n → Preserves P (if b then m else n)
  Preserves-if true m n hm hn = hm
  Preserves-if false m n hm hn = hn

  pub Preserves-option :
      {B : Type 0} (o : Option B) (m : Action A) (f : B → Action A)
      → (o ≡ none → Preserves P m)
      → ((b : B) → o ≡ some b → Preserves P (f b))
      → Preserves P (elim o [ none ↦ m | some b ↦ f b ])
  Preserves-option none m f hm hf = hm refl
  Preserves-option (some b) m f hm hf = hf b refl

  -- A block that is rolled back leaves the database as it was.
  pub Preserves-atomic : (m : Action A) → Preserves P m → Preserves P (atomic m)
  unfolding ◌>>=◌
  Preserves-atomic m hm = record {
    holds = λ db h. by_outcome (m db).0 db (m db).1 h (hm.holds db h);
  }
    where
      by_outcome : (r : Outcome A) (old new : Db) → P old → P new → P (Orm.rollback old r new)
      by_outcome (ok a) old new ho hn = hn
      by_outcome (err e) old new ho hn = ho

module _ {P : Db → Type 0} {A B : Type 0} where
  -- What follows a fallible step may use that it returned.
  pub Preserves-bind_lift :
      (r : Outcome A) (f : A → Action B)
      → ((a : A) → r ≡ ok a → Preserves P (f a))
      → Preserves P (lift r >>= f)
  unfolding ◌>>=◌
  Preserves-bind_lift (ok a) f hf = record { holds = (hf a refl).holds }
  Preserves-bind_lift (err e) f hf = record { holds = λ db h. h }

  -- What follows a read may use what it found, in a database where the invariant holds.
  pub Preserves-bind_query :
      (q : Db → Outcome A) (f : A → Action B)
      → ((a : A) (db : Db) → P db → q db ≡ ok a → Preserves P (f a))
      → Preserves P (query q >>= f)
  unfolding ◌>>=◌
  Preserves-bind_query q f hf = record {
    holds = λ db h. (Preserves-bind_lift (q db) f (λ a e. hf a db h e)).holds db h;
  }

  pub Preserves-bind :
      (m : Action A) (f : A → Action B)
      → Preserves P m
      → ((a : A) → Preserves P (f a))
      → Preserves P (m >>= f)
  unfolding ◌>>=◌
  Preserves-bind m f hm hf = record {
    holds = λ db h. (Preserves-bind_lift (m db).0 f (λ a _. hf a)).holds (m db).1 (hm.holds db h);
  }

-- The same from one database: what was read still holds there when the next statement runs.
pub record KeepsAt {A : Type 0} (P : Db → Type 0) (m : Action A) (db : Db) : Type 0 where
  pub at : P (m db).1

module _ {P : Db → Type 0} {A : Type 0} where
  pub Preserves-at : (m : Action A) → ((db : Db) → P db → KeepsAt P m db) → Preserves P m
  Preserves-at m h = record { holds = λ db p. (h db p).at }

  pub at-Preserves : {m : Action A} (db : Db) → P db → Preserves P m → KeepsAt P m db
  at-Preserves db p h = record { at = h.holds db p }

  pub KeepsAt-atomic : (m : Action A) (db : Db) → P db → KeepsAt P m db → KeepsAt P (atomic m) db
  unfolding ◌>>=◌
  KeepsAt-atomic m db h hm = record { at = by_outcome (m db).0 }
    where
      by_outcome : (r : Outcome A) → P (Orm.rollback db r (m db).1)
      by_outcome (ok a) = hm.at
      by_outcome (err e) = h

  pub KeepsAt-option :
      {B : Type 0} (o : Option B) (m : Action A) (f : B → Action A) (db : Db)
      → (o ≡ none → KeepsAt P m db)
      → ((b : B) → o ≡ some b → KeepsAt P (f b) db)
      → KeepsAt P (elim o [ none ↦ m | some b ↦ f b ]) db
  KeepsAt-option none m f db hm hf = hm refl
  KeepsAt-option (some b) m f db hm hf = hf b refl

module _ {P : Db → Type 0} {A B : Type 0} where
  pub KeepsAt-lift :
      (r : Outcome A) (f : A → Action B) (db : Db)
      → P db
      → ((a : A) → r ≡ ok a → KeepsAt P (f a) db)
      → KeepsAt P (lift r >>= f) db
  unfolding ◌>>=◌
  KeepsAt-lift (ok a) f db h hf = record { at = (hf a refl).at }
  KeepsAt-lift (err e) f db h hf = record { at = h }

  pub KeepsAt-query :
      (q : Db → Outcome A) (f : A → Action B) (db : Db)
      → P db
      → ((a : A) → q db ≡ ok a → KeepsAt P (f a) db)
      → KeepsAt P (query q >>= f) db
  unfolding ◌>>=◌
  KeepsAt-query q f db h hf = record { at = (KeepsAt-lift (q db) f db h hf).at }

  pub KeepsAt-bind :
      (m : Action A) (f : A → Action B) (db : Db)
      → KeepsAt P m db
      → ((a : A) → Preserves P (f a))
      → KeepsAt P (m >>= f) db
  unfolding ◌>>=◌
  KeepsAt-bind m f db h hf = record {
    at = (Preserves-bind_lift (m db).0 f (λ a _. hf a)).holds (m db).1 h.at;
  }

pub ruleset preserves_rules = (
  Preserves-pure, Preserves-raise, Preserves-lift, Preserves-query, Preserves-if, Preserves-option,
  Preserves-atomic, Preserves-bind_lift, Preserves-bind,
)
