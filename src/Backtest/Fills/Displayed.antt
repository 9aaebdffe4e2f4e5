-- ===== src/Backtest/Fills/Displayed.antt =====
-- `level_size` against the book's own dict.
use kalshi_quant_research.Prelude.{
  ℕ, ◌≤◌, ◌<◌, ◌≡◌, refl, ◌∙◌, some, [], ◌∷◌, map, arith, All, nat_key, string_key,
}
use kalshi_quant_research.Prelude.Dict.{get_or}
use kalshi_quant_research.Market.Contracts.{Price, Qty, Side}
use kalshi_quant_research.Market.OrderBook.{Bids, OrderBook, level_of, bids_of, bids, sorted_desc}
use kalshi_quant_research.Market.OrderBook.Sorting.{
  Descending, lookup-sorted_desc, sorted_desc-Descending,
}
use kalshi_quant_research.Market.OrderBook.Invariant.{IsValid, IsValidSide, bids_of-IsValidSide}
use kalshi_quant_research.Market.OrderBook.Delta.{resting}
use kalshi_quant_research.Backtest.Fills.{level_size_in, level_size}

below-get_or :
    (p r : ℕ) (ys : Bids) → r ≤ p → All (λ (y : Price × Qty). y.0 < r) ys → get_or p 0 ys ≡ 0
below-get_or p r [] le h = refl
below-get_or p r (y ∷ ys) le h = ground (arith, below-get_or p r ys le h.1)

level_size_in-eq-get_or :
    (p : ℕ) (xs : Bids) → Descending xs → level_size_in p (map level_of xs) ≡ get_or p 0 xs
unfolding level_size_in
level_size_in-eq-get_or p [] h = refl
level_size_in-eq-get_or p (x ∷ xs) h =
    ground (arith, level_size_in-eq-get_or p xs h.1, below-get_or p x.0 xs)

-- The early stop of the scan loses nothing: in a valid book it finds the quantity at the price.
pub level_size-eq-resting :
    (b : OrderBook) (s : Side) (p : Price) → IsValid b → level_size (some b) s p ≡ resting b s p
unfolding level_size bids
level_size-eq-resting b s p h =
    let v : IsValidSide (bids_of b s) = bids_of-IsValidSide b s h in
    level_size_in-eq-get_or p (sorted_desc (bids_of b s)) (sorted_desc-Descending (bids_of b s) v.1)
    ∙ ground (arith, lookup-sorted_desc p (bids_of b s))
