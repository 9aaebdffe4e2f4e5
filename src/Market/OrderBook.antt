-- ===== src/Market/OrderBook.antt =====
-- market/order_book.py: the bids of both sides of one market. The two maps are dicts in insertion
-- order, `sorted(..., reverse=True)` is an insertion sort on the prices (which are distinct), and
-- an input level is a pair of signed integers until it has been checked.
pub mod Sorting
pub mod Invariant
pub mod Delta
pub mod Snapshot
pub mod Quotes
pub mod Canonical
pub mod Persistence
pub mod Witnesses
use kalshi_quant_research.Prelude.{
  ℕ, ◌+◌, ◌-◌, Bool, true, false, ◌&&◌, Option, none, some, List, [], ◌∷◌, map, ltb, leb, ◌==◌,
  if◌then◌else◌, Result, Error, ok, err, ◌>>=◌, ◌>>◌, raise_if, nat_key,
}
use kalshi_quant_research.Prelude.Int.{ℤ, pos, sub_ℕ, ltb_ℤ, leb_ℤ, ◌+ℤ◌, pos_part, neg_part}
use kalshi_quant_research.Prelude.Dict.{Dict, lookup, contains, get_or, insert, erase, total}
use kalshi_quant_research.Market.Contracts.{
  Price, Qty, Ticker, Side, yes_side, no_side, opposite, price_scale, complement,
}

abbrev pub Bids : Type 0
Bids = Dict Price Qty

pub record Level : Type 0 where
  pub price : Price
  pub qty : Qty

-- `OrderBook.__slots__`; `last_ts` is stored and read back, never looked into.
pub record OrderBook : Type 0 where
  pub ticker : Ticker
  pub yes_bids : Bids
  pub no_bids : Bids
  pub last_seq : Option ℕ
  pub last_ts : Option ℕ

abbrev pub new_book : Ticker → OrderBook
new_book t = record { ticker = t; yes_bids = []; no_bids = []; last_seq = none; last_ts = none }

-- `self._bids[side]`
abbrev pub bids_of : OrderBook → Side → Bids
bids_of b yes_side = b.yes_bids
bids_of b no_side = b.no_bids

abbrev pub with_bids : OrderBook → Side → Bids → OrderBook
with_bids b yes_side d = record b { yes_bids = d }
with_bids b no_side d = record b { no_bids = d }

-- `_check_price`: a checked price is a natural number.
unfoldable pub check_price : ℤ → Result Price
check_price price =
    if ltb_ℤ (pos 0) price && ltb_ℤ price (pos price_scale)
    then ok (pos_part price)
    else err Error.book_inconsistency

-- `_validated`, from the levels read so far.
unfoldable pub validated_from : Bids → List (ℤ × ℤ) → Result Bids
validated_from out [] = ok out
validated_from out ((price, qty) ∷ levels) = do
  p ← check_price price
  raise_if (ltb_ℤ qty (pos 0)) Error.book_inconsistency
  raise_if (contains p out) Error.book_inconsistency
  validated_from (if pos_part qty == 0 then out else insert p (pos_part qty) out) levels

unfoldable pub validated : List (ℤ × ℤ) → Result Bids
unfolding validated_from
validated = validated_from []

-- Both sides are checked before the book is written.
unfoldable pub apply_snapshot : List (ℤ × ℤ) → List (ℤ × ℤ) → OrderBook → Result OrderBook
unfolding validated
apply_snapshot yes_levels no_levels b = do
  y ← validated yes_levels
  n ← validated no_levels
  ok (record b { yes_bids = y; no_bids = n })

-- the new quantity of `apply_delta`: an error below zero, no entry at zero
unfoldable pub set_qty : Price → ℤ → Bids → Result Bids
set_qty p new_qty d =
    if ltb_ℤ new_qty (pos 0)
    then err Error.book_inconsistency
    else if pos_part new_qty == 0
    then ok (erase p d)
    else ok (insert p (pos_part new_qty) d)

unfoldable pub apply_delta : Side → ℤ → ℤ → OrderBook → Result OrderBook
apply_delta side price delta b = do
  p ← check_price price
  d ← set_qty p (pos (get_or p 0 (bids_of b side)) +ℤ delta) (bids_of b side)
  ok (with_bids b side d)

pub clear : OrderBook → OrderBook
clear b = record b { yes_bids = []; no_bids = []; last_seq = none; last_ts = none }

-- `sorted(d.items(), reverse=True)`
place_desc : Price × Qty → List (Price × Qty) → List (Price × Qty)
place_desc x [] = x ∷ []
place_desc x (y ∷ ys) = if ltb x.0 y.0 then y ∷ place_desc x ys else x ∷ y ∷ ys

unfoldable pub sorted_desc : List (Price × Qty) → List (Price × Qty)
unfolding place_desc
sorted_desc [] = []
sorted_desc (x ∷ xs) = place_desc x (sorted_desc xs)

abbrev pub level_of : Price × Qty → Level
level_of (p, q) = record { price = p; qty = q }

abbrev pub ask_of : Price × Qty → Level
ask_of (p, q) = record { price = complement p; qty = q }

unfoldable pub bids : Side → OrderBook → List Level
unfolding sorted_desc
bids side b = map level_of (sorted_desc (bids_of b side))

unfoldable pub asks : Side → OrderBook → List Level
unfolding sorted_desc
asks side b = map ask_of (sorted_desc (bids_of b (opposite side)))

-- `max(book)` with its quantity
unfoldable pub max_level : Bids → Option Level
max_level [] = none
max_level ((p, q) ∷ d) = elim (max_level d) [
  | none ↦ some (record { price = p; qty = q })
  | some l ↦ some (if ltb l.price p then record { price = p; qty = q } else l)
]

unfoldable pub best_bid : Side → OrderBook → Option Level
unfolding max_level
best_bid side b = max_level (bids_of b side)

abbrev pub complemented : Option Level → Option Level
complemented none = none
complemented (some l) = some (record { price = complement l.price; qty = l.qty })

unfoldable pub best_ask : Side → OrderBook → Option Level
unfolding best_bid
best_ask side b = complemented (best_bid (opposite side) b)

pub depth : Side → OrderBook → Qty
depth side b = total (λ q. q) (bids_of b side)

abbrev null : Bids → Bool
null [] = true
null (x ∷ d) = false

abbrev pub is_empty : OrderBook → Bool
is_empty b = null b.yes_bids && null b.no_bids

abbrev pub spread_of : Option Level → Option Level → Option ℤ
spread_of (some bid) (some ask) = some (sub_ℕ ask.price bid.price)
spread_of _ _ = none

pub spread : OrderBook → Option ℤ
unfolding best_bid best_ask
spread b = spread_of (best_bid yes_side b) (best_ask yes_side b)

abbrev pub crossed : Option Level → Option Level → Bool
crossed (some bid) (some ask) = leb ask.price bid.price
crossed _ _ = false

pub is_crossed : OrderBook → Bool
unfolding best_bid best_ask
is_crossed b = crossed (best_bid yes_side b) (best_ask yes_side b)

-- `as_levels`: the bids of both sides, best first.
pub as_levels : OrderBook → List (Price × Qty) × List (Price × Qty)
unfolding sorted_desc
as_levels b = (sorted_desc b.yes_bids, sorted_desc b.no_bids)

-- `copy`: both dicts are copied, so later writes to either book leave the other alone.
abbrev pub copy : OrderBook → OrderBook
copy b = record {
  ticker = b.ticker;
  yes_bids = b.yes_bids;
  no_bids = b.no_bids;
  last_seq = b.last_seq;
  last_ts = b.last_ts;
}
