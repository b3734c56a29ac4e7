-- ===== src/Core/Rpc/Batches.antt =====
-- The batches of `get_transactions` in SolanaRPCProvider.
use traitkeeper_eco.Base.{
  ℕ, zero, suc, ◌+◌, ◌*◌, ◌≤◌, ◌≡◌, refl, ap, ◌∙◌, sym, List, [], ◌∷◌, ◌++◌, map, arith, length,
}
use traitkeeper_eco.Core.Rpc.{slice, fetch_batches, get_transactions, batch_size, batch_count}

-- `xs[i:]`
drop : {A : Type 0} → ℕ → List A → List A
drop zero xs = xs
drop (suc i) [] = []
drop (suc i) (x ∷ xs) = drop i xs

append-drop :
    {A : Type 0} (i n j : ℕ) (xs : List A) → i + n ≡ j → slice i n xs ++ drop j xs ≡ drop i xs
unfolding slice drop
append-drop zero zero zero xs e = refl
append-drop zero (suc n) (suc j) [] e = refl
append-drop zero (suc n) (suc j) (x ∷ xs) e =
    ap (λ ys. x ∷ ys) (append-drop zero n j xs (omega arith))
append-drop (suc i) n (suc j) [] e = refl
append-drop (suc i) n (suc j) (x ∷ xs) e = append-drop i n j xs (omega arith)
append-drop zero zero (suc j) xs e = absurd (omega arith)
append-drop zero (suc n) zero xs e = absurd (omega arith)
append-drop (suc i) n zero xs e = absurd (omega arith)

drop_all : {A : Type 0} (i : ℕ) (xs : List A) → length xs ≤ i → drop i xs ≡ []
unfolding drop
drop_all zero [] h = refl
drop_all zero (x ∷ xs) h = absurd (omega arith)
drop_all (suc i) [] h = refl
drop_all (suc i) (x ∷ xs) h = drop_all i xs (omega arith)

map_append : {A B : Type 0} (f : A → B) (xs ys : List A) → map f (xs ++ ys) ≡ map f xs ++ map f ys
map_append f [] ys = refl
map_append f (x ∷ xs) ys = ap (λ zs. f x ∷ zs) (map_append f xs ys)

length-slice-le : {A : Type 0} (i n : ℕ) (xs : List A) → length (slice i n xs) ≤ n
unfolding slice
length-slice-le zero zero xs = omega arith
length-slice-le zero (suc n) [] = omega arith
length-slice-le zero (suc n) (x ∷ xs) = omega (arith, length-slice-le zero n xs)
length-slice-le (suc i) n [] = omega arith
length-slice-le (suc i) n (x ∷ xs) = length-slice-le i n xs

-- With a round for every batch, what is left is fetched whole and in order.
fetch_batches_lem :
    {A B : Type 0} (get : A → B) (signatures : List A) (left i : ℕ)
    → length signatures ≤ i + left * batch_size
    → fetch_batches get signatures left i ≡ map get (drop i signatures)
unfolding fetch_batches
fetch_batches_lem get signatures zero i h = ap (map get) (sym (drop_all i signatures (omega arith)))
fetch_batches_lem get signatures (suc left) i h =
    ap (λ ys. map get (slice i batch_size signatures) ++ ys)
      (fetch_batches_lem get signatures left (i + batch_size) (omega arith))
    ∙ sym (map_append get (slice i batch_size signatures) (drop (i + batch_size) signatures))
    ∙ ap (map get) (append-drop i batch_size (i + batch_size) signatures refl)

-- The batches of `get_transactions` are as many as are needed: it returns one result for each
-- signature, in their order, as if each had been fetched by itself, and no more than twenty
-- requests are under way at a time.
pub get_transactions-eq-map :
    {A B : Type 0} (get : A → B) (signatures : List A)
    → (get_transactions get signatures ≡ map get signatures)
      × ((i : ℕ) → length (slice i batch_size signatures) ≤ 20)
unfolding get_transactions drop
get_transactions-eq-map get signatures = (
  fetch_batches_lem get signatures (batch_count (length signatures)) 0 (omega arith),
  λ i. length-slice-le i batch_size signatures,
)
