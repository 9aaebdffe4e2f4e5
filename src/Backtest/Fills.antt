-- ===== src/Backtest/Fills.antt =====
-- backtest/fills.py: taker and maker fill models. A float factor enters as the function that it is
-- used for: `int(factor * size)` on natural sizes. Times are nanoseconds.
pub mod Displayed
pub mod Taker
pub mod Queue
pub mod Sameness
pub mod Ordering
pub mod Witnesses
use kalshi_quant_research.Prelude.{
  ℕ, ◌+◌, ◌-◌, min, String, Bool, true, false, ◌||◌, not, Option, none, some, List, [], ◌∷◌, ltb,
  leb, ◌==◌, if◌then◌else◌, Result, ok, err,
}
use kalshi_quant_research.Prelude.Int.{ℤ, pos, neg}
use kalshi_quant_research.Market.Contracts.{
  Price, Qty, Ticker, Side, yes_side, no_side, opposite, same_side, Trade, complement,
}
use kalshi_quant_research.Market.OrderBook.{OrderBook, Level, bids, asks, best_ask, apply_delta}

pub record RestingOrder : Type 0 where
  pub order_id : ℕ
  pub ticker : Ticker
  pub side : Side
  pub price : Price
  pub qty : Qty
  pub original_qty : Qty
  pub placed_ts : ℕ
  pub tag : String
  pub ahead : Qty
  pub last_level_size : Qty
  pub traded_at_level_since : Qty
  pub filled : Qty

abbrev pub trade_price : Side → Trade → Price
trade_price yes_side t = t.yes_price
trade_price no_side t = t.no_price

abbrev pub hits_side : Side → Trade → Bool
hits_side side t = elim t.taker_side [ none ↦ false | some taker ↦ same_side taker (opposite side) ]

-- the loop of `level_size`: it stops below the price, since bids come best first
level_size_in : Price → List Level → Qty
level_size_in price [] = 0
level_size_in price (lv ∷ lvs) =
    let rest = level_size_in price lvs in
    if lv.price == price then lv.qty else if ltb lv.price price then 0 else rest

unfoldable pub level_size : Option OrderBook → Side → Price → Qty
unfolding level_size_in
level_size none side price = 0
level_size (some b) side price = level_size_in price (bids side b)

-- `depth_of q` is `int(q * depth_fraction)`.
pub record TakerModel : Type 0 where
  pub max_staleness_ns : Option ℕ
  pub extra_slippage_ticks : ℕ
  pub depth_of : ℕ → ℕ

-- the loop of `execute`; where nothing can be taken at a level the loop goes on
unfoldable pub take_asks : TakerModel → Price → Qty → List Level → List (Price × Qty)
take_asks m limit remaining [] = []
take_asks m limit remaining (lv ∷ lvs) =
    let px = lv.price + m.extra_slippage_ticks in
    let take = min remaining (m.depth_of lv.qty) in
    let rest = take_asks m limit (remaining - take) lvs in
    if remaining == 0
    then []
    else if ltb limit lv.price || ltb limit px
    then []
    else if take == 0
    then rest
    else (px, take) ∷ rest

-- `max_staleness_ns is not None and age > max_staleness_ns`
abbrev pub too_old : TakerModel → ℕ → Bool
too_old m age = elim m.max_staleness_ns [ none ↦ false | some limit ↦ ltb limit age ]

unfoldable pub execute :
    TakerModel → Option OrderBook → Option ℕ → Side → Price → Qty → List (Price × Qty)
execute m none age side limit qty = []
execute m (some b) none side limit qty = []
execute m (some b) (some age) side limit qty =
    if too_old m age then [] else take_asks m limit qty (asks side b)

-- `alpha_of n` is `int(alpha * n)`, `cancels_of n` is `int(cancel_share * n)`.
pub record QueueModel : Type 0 where
  pub alpha_of : ℕ → ℕ
  pub cancels_of : ℕ → ℕ
  pub through_only : Bool

-- alpha = 0, cancel_share = 0
abbrev pub optimistic : QueueModel
optimistic = record { alpha_of = λ n. 0; cancels_of = λ n. 0; through_only = false }

-- alpha = 1, cancel_share = 0
abbrev pub pessimistic : QueueModel
pessimistic = record { alpha_of = λ n. n; cancels_of = λ n. 0; through_only = true }

abbrev pub queue : (ℕ → ℕ) → (ℕ → ℕ) → QueueModel
queue alpha_of cancels_of = record {
  alpha_of = alpha_of;
  cancels_of = cancels_of;
  through_only = false;
}

unfoldable pub on_place : QueueModel → RestingOrder → Option OrderBook → RestingOrder
on_place m o book =
    let size = level_size book o.side o.price in
    record o { ahead = m.alpha_of size; last_level_size = size; traded_at_level_since = 0 }

-- The order afterwards, and the contracts that this print fills.
pub on_trade : QueueModel → RestingOrder → Trade → RestingOrder × Qty
on_trade m o t =
    let px = trade_price o.side t in
    let consumed = min o.ahead t.count in
    if not (hits_side o.side t) || (o.qty == 0)
    then (o, 0)
    else if ltb o.price px
    then (o, 0)
    else if ltb px o.price
    then (o, o.qty)
    else if m.through_only
    then (o, 0)
    else (
      record o {
        ahead = o.ahead - consumed;
        traded_at_level_since = o.traded_at_level_since + t.count;
      },
      min o.qty (t.count - consumed),
    )

-- the market offers at or below our bid
abbrev pub crosses : Option Level → Price → Bool
crosses none price = false
crosses (some ask) price = leb ask.price price

-- `max(0, min(ahead, size))` of a queue that unexplained cancellations have moved forward
abbrev pub requeue : QueueModel → RestingOrder → Qty → RestingOrder
requeue m o size =
    let expected = o.last_level_size - o.traded_at_level_since in
    let moved = if ltb size expected then o.ahead - m.cancels_of (expected - size) else o.ahead in
    record o { ahead = min moved size; last_level_size = size; traded_at_level_since = 0 }

pub on_book : QueueModel → RestingOrder → OrderBook → RestingOrder × Qty
on_book m o book =
    if crosses (best_ask o.side book) o.price
    then (o, o.qty)
    else (requeue m o (level_size (some book) o.side o.price), 0)

-- A removal that the book refuses is passed over.
abbrev pub or_keep : OrderBook → Result OrderBook → OrderBook
or_keep b (ok b') = b'
or_keep b (err e) = b

abbrev pub apply_taker_fills_to_book : OrderBook → Side → List (Price × Qty) → OrderBook
apply_taker_fills_to_book b side [] = b
apply_taker_fills_to_book b side ((price, qty) ∷ fills) =
    apply_taker_fills_to_book
      (or_keep b (apply_delta (opposite side) (pos (complement price)) (neg (pos qty)) b)) side
      fills
