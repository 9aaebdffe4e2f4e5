-- ===== src/Backtest/Fills/Queue.antt =====
-- One print or snapshot never fills more than is left, and never moves the order back in the queue.
use kalshi_quant_research.Prelude.{
  ◌+◌, ◌-◌, ◌≤◌, ◌≡◌, ◌≢◌, ◌⊎◌, inl, inr, true, false, some, arith, Bool-cases, nat_key, string_key,
}
use kalshi_quant_research.Market.Contracts.{Trade}
use kalshi_quant_research.Market.OrderBook.{OrderBook, best_ask}
use kalshi_quant_research.Backtest.Fills.{
  RestingOrder, QueueModel, hits_side, trade_price, level_size, crosses, on_trade, on_book,
}

-- A print fills at most what is left of the order, nothing at a price above the order's, everything
-- at a hit below it, and at the order's price at most what the print leaves after the queue ahead;
-- the queue ahead never grows.
pub on_trade_bounds :
    (m : QueueModel) (o : RestingOrder) (t : Trade)
    → let (o', got) = on_trade m o t in
      (got ≤ o.qty)
      × (o'.ahead ≤ o.ahead)
      × ((trade_price o.side t ≤ o.price) ⊎ (got ≡ 0))
      × ((hits_side o.side t ≡ false) ⊎ (o.price ≤ trade_price o.side t) ⊎ (got ≡ o.qty))
      × ((trade_price o.side t ≢ o.price) ⊎ (got + (o.ahead - o'.ahead) ≤ t.count))
      × ((hits_side o.side t ≡ true) ⊎ (o' ≡ o) × (got ≡ 0))
unfolding on_trade
on_trade_bounds m o t =
    (ground arith, ground arith, ground arith, ground arith, ground arith, ground arith)

-- A snapshot fills the whole order when the market offers at or below its price; otherwise nothing,
-- and then the queue ahead does not grow and is not longer than the displayed level.
pub on_book_bounds :
    (m : QueueModel) (o : RestingOrder) (book : OrderBook)
    → let (o', got) = on_book m o book in
      (crosses (best_ask o.side book) o.price ≡ true) × (o' ≡ o) × (got ≡ o.qty)
      ⊎ (crosses (best_ask o.side book) o.price ≡ false)
        × (got ≡ 0)
        × (o'.ahead ≤ o.ahead)
        × (o'.ahead ≤ level_size (some book) o.side o.price)
        × (o'.last_level_size ≡ level_size (some book) o.side o.price)
        × (o'.traded_at_level_since ≡ 0)
unfolding on_book
on_book_bounds m o book = elim (Bool-cases (crosses (best_ask o.side book) o.price)) [
  | inl cross ↦ inl (cross, ground arith, ground arith)
  | inr clear ↦ inr (clear, ground arith, ground arith, ground arith, ground arith, ground arith)
]
