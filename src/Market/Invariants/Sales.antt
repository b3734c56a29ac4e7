-- ===== src/Market/Invariants/Sales.antt =====
-- The owner column against the log of events: the writes.
use mathlib.Core.Option
use mathlib.Core.Path.{subst⁻¹}
use traitkeeper_eco.Base.{
  ℕ, ◌≡◌, refl, Bool, false, ◌==◌, Option, some, List, [], ◌∷◌, ◌++◌, arith, is_value, Option-cases,
  ◌⊎◌, inl, inr, if◌then◌else◌,
}
use traitkeeper_eco.Schema.{Nft, NftEvent, EventType}
use traitkeeper_eco.Table.{find, update, find-update_where, pk-find}
use traitkeeper_eco.Orm.{
  Db, ◌>>=◌, nft_model, auction_model, event_model, transaction_model, update_nft,
}
use traitkeeper_eco.Orm.Preserves.{Preserves}

abbrev is_sale_of : ℕ → NftEvent → Bool
is_sale_of k e = elim e.event_type [ EventType.sale ↦ is_value e.nft_mint k | _ ↦ false ]

-- The owner of an NFT by the log: the buyer of its latest sale, or the first owner.
unfoldable pub owner_by_log : ℕ → Option ℕ → List NftEvent → Option ℕ
owner_by_log k first [] = first
owner_by_log k first (e ∷ es) = owner_by_log k (if is_sale_of k e then e.buyer else first) es

owner_by_log-append :
    (k : ℕ) (first : Option ℕ) (es : List NftEvent) (e : NftEvent)
    → owner_by_log k first (es ++ e ∷ [])
      ≡ (if is_sale_of k e then e.buyer else owner_by_log k first es)
unfolding owner_by_log
owner_by_log-append k first [] e = refl
owner_by_log-append k first (d ∷ es) e =
    owner_by_log-append k (if is_sale_of k d then d.buyer else first) es e

module _ (first : ℕ → Option ℕ) where
  -- Each NFT belongs to the owner that the log gives.
  abbrev pub AreRecorded : List Nft → List NftEvent → Type 0
  AreRecorded nfts events =
      (k : ℕ) (n : Nft) → find k nfts ≡ some n → n.owner ≡ owner_by_log k (first k) events

  abbrev pub IsRecorded : Db → Type 0
  IsRecorded db = AreRecorded db.nfts db.events

  -- A sale in the log and the new owner in the table.
  sold-AreRecorded :
      (m : ℕ) (f : Nft → Nft) (buyer : Option ℕ) (e : NftEvent) (nfts : List Nft)
      (events : List NftEvent)
      → AreRecorded nfts events
      → ((n : Nft) → (f n).owner ≡ buyer)
      → ((n : Nft) → (f n).mint_address ≡ n.mint_address)
      → e.event_type ≡ EventType.sale
      → e.nft_mint ≡ some m
      → e.buyer ≡ buyer
      → AreRecorded (update m f nfts) (events ++ e ∷ [])
  sold-AreRecorded m f buyer e nfts events h owns keeps sale mint buys k n found =
      elim (Option-cases (find k nfts)) [
        | inl missing ↦ ground (arith, moved)
        | inr (x, was) ↦ ground (
          arith,
          moved,
          owner_by_log-append k (first k) events e,
          owns x,
          h k x,
          pk-find k {r = x} nfts,
          sale,
          mint,
          buys,
        )
      ]
    where
      moved :
          find k (update m f nfts)
          ≡ Option.map (λ r. if r.mint_address == m then f r else r) (find k nfts)
      moved = find-update_where (λ (r : Nft). r.mint_address == m) f k nfts (λ r _. keeps r)

  -- A write to other columns of an NFT.
  pub columns-IsRecorded :
      (m : ℕ) (f : Nft → Nft)
      → ((n : Nft) → (f n).owner ≡ n.owner)
      → ((n : Nft) → (f n).mint_address ≡ n.mint_address)
      → Preserves IsRecorded (update_nft m f)
  unfolding ◌>>=◌
  columns-IsRecorded m f owns keeps = record {
    holds = λ db h k n found. elim (Option-cases (find k db.nfts)) [
      | inl missing ↦
          ground (
            arith,
            find-update_where (λ (r : Nft). r.mint_address == m) f k db.nfts (λ r _. keeps r),
          )
      | inr (x, was) ↦ ground (
        arith,
        owns x,
        h k x,
        find-update_where (λ (r : Nft). r.mint_address == m) f k db.nfts (λ r _. keeps r),
      )
    ];
  }

  -- A block that writes a sale leaves the database as it was, or with the sale and the new owner.
  pub record IsSaleOf (buyer : Option ℕ) (old new : Db) : Type 0 where
    pub mint : ℕ
    pub event : NftEvent
    pub columns : Nft → Nft
    pub owns : (n : Nft) → (columns n).owner ≡ buyer
    pub keeps : (n : Nft) → (columns n).mint_address ≡ n.mint_address
    pub is_sale : event.event_type ≡ EventType.sale
    pub of_mint : event.nft_mint ≡ some mint
    pub bought : event.buyer ≡ buyer
    pub nfts : new.nfts ≡ update mint columns old.nfts
    pub events : new.events ≡ old.events ++ event ∷ []

  pub after_sale :
      (buyer : Option ℕ) (old new : Db)
      → IsRecorded old
      → (new ≡ old) ⊎ IsSaleOf buyer old new
      → IsRecorded new
  after_sale buyer old new h (inl same) = subst⁻¹ IsRecorded same h
  after_sale buyer old new h (inr s) =
      subst⁻¹ (λ nfts. AreRecorded nfts new.events) s.nfts
        (subst⁻¹ (AreRecorded (update s.mint s.columns old.nfts)) s.events (
          sold-AreRecorded s.mint s.columns buyer s.event old.nfts old.events h s.owns s.keeps
            s.is_sale s.of_mint s.bought))
