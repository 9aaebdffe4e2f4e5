-- ===== src/Market/OrderBook/Quotes.antt =====
-- The best quotes: the heads of the sorted sides, and when a book is crossed.
use kalshi_quant_research.Prelude.{
  ℕ, ◌+◌, ◌<◌, ◌≡◌, refl, sym, ap, ◌∙◌, inl, inr, Bool, false, Option, none, some, List, [], ◌∷◌,
  map, arith, ltb, Bool-cases, Option-cases, All, All-map, nat_key, string_key,
}
use kalshi_quant_research.Prelude.Int.{ℤ, pos, sub_ℕ, leb_ℤ}
use kalshi_quant_research.Prelude.Dict.{lookup, Distinct}
use kalshi_quant_research.Market.Contracts.{
  Price, Qty, Side, yes_side, no_side, opposite, price_scale, complement,
}
use kalshi_quant_research.Market.OrderBook.{
  Bids, Level, OrderBook, bids_of, level_of, ask_of, bids, asks, max_level, best_bid, best_ask,
  spread, spread_of, is_crossed, crossed, complemented, place_desc, sorted_desc,
}
use kalshi_quant_research.Market.OrderBook.Sorting.{
  Descending, lookup-sorted_desc, sorted_desc-Descending,
}
use kalshi_quant_research.Market.OrderBook.Invariant.{
  IsLevel, IsValid, IsValidSide, bids_of-IsValidSide,
}

-- the first of a list of levels
abbrev pub first : List Level → Option Level
first [] = none
first (l ∷ ls) = some l

max_level-place :
    (p q : ℕ) (d : Bids) (ys : Bids)
    → max_level d ≡ first (map level_of ys)
    → lookup p ys ≡ none
    → max_level ((p, q) ∷ d) ≡ first (map level_of (place_desc (p, q) ys))
unfolding max_level place_desc
max_level-place p q d [] ih new = rw ih
max_level-place p q d (y ∷ ys) ih new = rw ih (ground arith)

max_level-eq-first : (d : Bids) → Distinct d → max_level d ≡ first (map level_of (sorted_desc d))
unfolding max_level sorted_desc
max_level-eq-first [] h = refl
max_level-eq-first ((p, q) ∷ d) h =
    max_level-place p q d (sorted_desc d) (max_level-eq-first d h.1) (lookup-sorted_desc p d ∙ h.0)

-- `max(book)` agrees with the sorted view: the best bid of a valid book is the first of its bids.
pub best_bid-eq-first : (s : Side) (b : OrderBook) → IsValid b → best_bid s b ≡ first (bids s b)
unfolding best_bid bids
best_bid-eq-first s b h = max_level-eq-first (bids_of b s) (bids_of-IsValidSide b s h).1

complemented-first :
    (o : Option Level) (d : Bids)
    → o ≡ first (map level_of d)
    → complemented o ≡ first (map ask_of d)
complemented-first o [] e = rw e
complemented-first o (x ∷ d) e = rw e

-- The best ask of a valid book is the first of its asks.
pub best_ask-eq-first : (s : Side) (b : OrderBook) → IsValid b → best_ask s b ≡ first (asks s b)
unfolding best_ask asks bids best_bid
best_ask-eq-first s b h =
    complemented-first (max_level (bids_of b (opposite s))) (sorted_desc (bids_of b (opposite s)))
      (max_level-eq-first _ (bids_of-IsValidSide b (opposite s) h).1)

-- Strictly rising prices above `low`.
abbrev pub Rising : List Level → Type 0
Rising [] = Unit
Rising (l ∷ ls) = All (λ (m : Level). l.price < m.price) ls × Rising ls

asks-above :
    (p : ℕ) (xs : Bids)
    → p < price_scale
    → All (λ (y : Price × Qty). y.0 < p) xs
    → All (λ (m : Level). complement p < m.price) (map ask_of xs)
asks-above p [] lt h = tt
asks-above p (x ∷ xs) lt h = (omega arith, asks-above p xs lt h.1)

asks-Rising :
    (xs : Bids)
    → Descending xs
    → All (λ (y : Price × Qty). y.0 < price_scale) xs
    → Rising (map ask_of xs)
asks-Rising [] h k = tt
asks-Rising (x ∷ xs) h k = (asks-above x.0 xs k.0 h.0, asks-Rising xs h.1 k.1)

-- an ask that can be bought: a price strictly inside ($0, $1) and a quantity above zero
abbrev pub IsOffer : Level → Type 0
IsOffer l = (0 < l.price) × (l.price < price_scale) × (0 < l.qty)

place_desc-All :
    (P : Price × Qty → Type 0) (x : Price × Qty) (ys : Bids)
    → P x
    → All P ys
    → All P (place_desc x ys)
unfolding place_desc
place_desc-All P x [] p h = (p, tt)
place_desc-All P x (y ∷ ys) p h = elim (Bool-cases (ltb x.0 y.0)) [
  | inl later ↦ rw later (h.0, place_desc-All P x ys p h.1)
  | inr here ↦ rw here (p, h)
]

pub sorted_desc-All : (P : Price × Qty → Type 0) (d : Bids) → All P d → All P (sorted_desc d)
unfolding sorted_desc
sorted_desc-All P [] h = tt
sorted_desc-All P (x ∷ d) h = place_desc-All P x (sorted_desc d) h.0 (sorted_desc-All P d h.1)

offers : (xs : Bids) → All IsLevel xs → All IsOffer (map ask_of xs)
offers [] h = tt
offers (x ∷ xs) h = (omega arith, offers xs h.1)

-- In a valid book the asks of each side come with strictly rising prices, each strictly inside
-- ($0, $1) and of a quantity above zero.
pub asks_ordered :
    (s : Side) (b : OrderBook) → IsValid b → Rising (asks s b) × All IsOffer (asks s b)
unfolding asks
asks_ordered s b h =
    let d : Bids = bids_of b (opposite s) in
    let v : IsValidSide d = bids_of-IsValidSide b (opposite s) h in
    let levels : All IsLevel (sorted_desc d) = sorted_desc-All IsLevel d v.0 in
    (
      asks-Rising (sorted_desc d) (sorted_desc-Descending d v.1)
          (All-map (λ y l. l.1) (sorted_desc d) levels),
      offers (sorted_desc d) levels,
    )

max_level-IsLevel :
    (d : Bids) (l : Level) → All IsLevel d → max_level d ≡ some l → IsLevel (l.price, l.qty)
unfolding max_level
max_level-IsLevel [] l h e = cc
max_level-IsLevel (x ∷ d) l h e = elim (Option-cases (max_level d)) [
  | inl nothing ↦ ground arith
  | inr (m, best) ↦ ground (arith, max_level-IsLevel d m h.1 best)
]

pub best_bid-IsLevel :
    (s : Side) (b : OrderBook) (l : Level)
    → IsValid b
    → best_bid s b ≡ some l
    → IsLevel (l.price, l.qty)
unfolding best_bid
best_bid-IsLevel s b l h e = max_level-IsLevel (bids_of b s) l (bids_of-IsValidSide b s h).0 e

-- `1 - best_yes_bid - best_no_bid`, where there are both
abbrev pub bids_gap : Option Level → Option Level → Option ℤ
bids_gap (some y) (some n) = some (sub_ℕ price_scale (y.price + n.price))
bids_gap _ _ = none

abbrev pub is_not_positive : Option ℤ → Bool
is_not_positive none = false
is_not_positive (some z) = leb_ℤ z (pos 0)

quotes_gap :
    (y n : Option Level)
    → ((l : Level) → n ≡ some l → l.price < price_scale)
    → (spread_of y (complemented n) ≡ bids_gap y n)
      × (crossed y (complemented n) ≡ is_not_positive (bids_gap y n))
quotes_gap none n h = (refl, refl)
quotes_gap (some l) none h = (refl, refl)
quotes_gap (some l) (some m) h = (ground (arith, h m refl), ground (arith, h m refl))

-- In a valid book the spread is $1 less the two best bids, where both sides have one, and the book
-- is crossed exactly when that spread is not positive.
pub spread_of_bids :
    (b : OrderBook)
    → IsValid b
    → (spread b ≡ bids_gap (best_bid yes_side b) (best_bid no_side b))
      × (is_crossed b ≡ is_not_positive (spread b))
unfolding is_crossed spread best_ask
spread_of_bids b h =
    let (gap, cross) =
      quotes_gap (best_bid yes_side b) (best_bid no_side b)
        (λ l e. (best_bid-IsLevel no_side b l h e).1) in
    (gap, cross ∙ ap is_not_positive (sym gap))

-- The asks of a side are derived from the bids of the other.
pub best_ask-complemented :
    (s : Side) (b : OrderBook) → best_ask s b ≡ complemented (best_bid (opposite s) b)
unfolding best_ask
best_ask-complemented s b = refl
