-- ===== src/Market/OrderBook/Canonical.antt =====
-- `as_levels`, `depth`: what a book shows does not depend on the order in which it was built.
use kalshi_quant_research.Prelude.{
  ℕ, ◌≡◌, refl, sym, ◌∙◌, inl, inr, [], ◌∷◌, map, arith, Option-cases, sum_by, nat_key, string_key,
}
use kalshi_quant_research.Prelude.Dict.{lookup, get_or}
use mathlib.Core.Path.{Σ_path}
use kalshi_quant_research.Market.Contracts.{Price, Qty, Side, yes_side, no_side}
use kalshi_quant_research.Market.OrderBook.{
  Bids, Level, OrderBook, bids_of, level_of, bids, depth, sorted_desc, as_levels,
}
use kalshi_quant_research.Market.OrderBook.Sorting.{
  lookup-sorted_desc, sum_by-sorted_desc, sorted_desc-Descending, Descending-unique,
}
use kalshi_quant_research.Market.OrderBook.Invariant.{IsValid, IsValidSide, lookup-IsLevel}
use kalshi_quant_research.Market.OrderBook.Delta.{resting}

-- in a valid side an entry is told by its quantity, since no quantity is zero
lookup-of-get_or :
    (d e : Bids) (p : ℕ)
    → IsValidSide d
    → IsValidSide e
    → get_or p 0 d ≡ get_or p 0 e
    → lookup p d ≡ lookup p e
lookup-of-get_or d e p h k same = elim (Option-cases (lookup p d)) [
  | inl gone ↦ elim (Option-cases (lookup p e)) [
    | inl gone' ↦ gone ∙ sym gone'
    | inr (w, found) ↦ absurd (ground (arith, lookup-IsLevel p w e k.0 found))
  ]
  | inr (v, found) ↦ elim (Option-cases (lookup p e)) [
    | inl gone' ↦ absurd (ground (arith, lookup-IsLevel p v d h.0 found))
    | inr (w, found') ↦ ground arith
  ]
]

sorted_desc-canonical :
    (d e : Bids)
    → IsValidSide d
    → IsValidSide e
    → ((p : ℕ) → get_or p 0 d ≡ get_or p 0 e)
    → sorted_desc d ≡ sorted_desc e
sorted_desc-canonical d e h k same =
    Descending-unique (sorted_desc d) (sorted_desc e) (sorted_desc-Descending d h.1)
      (sorted_desc-Descending e k.1)
      λ j.
        lookup-sorted_desc j d ∙ lookup-of-get_or d e j h k (same j) ∙ sym (lookup-sorted_desc j e)

-- Two valid books with the same quantity at each price of each side have the same `as_levels`, in
-- whatever order their levels were read or written.
pub as_levels_canonical :
    (b c : OrderBook)
    → IsValid b
    → IsValid c
    → ((s : Side) (p : Price) → resting b s p ≡ resting c s p)
    → as_levels b ≡ as_levels c
unfolding as_levels
as_levels_canonical b c h k same =
    Σ_path (sorted_desc-canonical b.yes_bids c.yes_bids h.yes_valid k.yes_valid (same yes_side))
      (sorted_desc-canonical b.no_bids c.no_bids h.no_valid k.no_valid (same no_side))

-- The depth of a side is the total quantity of its sorted bids.
pub depth-eq-sum-bids :
    (s : Side) (b : OrderBook) → sum_by (λ (l : Level). l.qty) (bids s b) ≡ depth s b
unfolding depth bids
depth-eq-sum-bids s b =
    qty-level_of (sorted_desc (bids_of b s)) ∙ sum_by-sorted_desc _ (bids_of b s)
  where
    qty-level_of :
        (d : Bids)
        → sum_by (λ (l : Level). l.qty) (map level_of d) ≡ sum_by (λ (x : Price × Qty). x.1) d
    qty-level_of [] = refl
    qty-level_of (x ∷ d) = omega (arith, qty-level_of d)
