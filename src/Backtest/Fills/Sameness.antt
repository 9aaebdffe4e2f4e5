-- ===== src/Backtest/Fills/Sameness.antt =====
-- What the queue models leave alone of a resting order.
use kalshi_quant_research.Prelude.{
  ◌≡◌, refl, inl, inr, Option, arith, Bool-cases, nat_key, string_key,
}
use kalshi_quant_research.Market.Contracts.{Trade}
use kalshi_quant_research.Market.OrderBook.{OrderBook, best_ask}
use kalshi_quant_research.Backtest.Fills.{
  RestingOrder, QueueModel, on_trade, on_book, on_place, crosses,
}

-- the number, the market, the price and the quantity of an order
pub record SameOrder (o x : RestingOrder) : Type 0 where
  pub order_id : x.order_id ≡ o.order_id
  pub ticker : x.ticker ≡ o.ticker
  pub price : x.price ≡ o.price
  pub qty : x.qty ≡ o.qty

pub on_place-SameOrder :
    (m : QueueModel) (o : RestingOrder) (book : Option OrderBook) → SameOrder o (on_place m o book)
unfolding on_place
on_place-SameOrder m o book = record { order_id = refl; ticker = refl; price = refl; qty = refl }

pub on_book-SameOrder :
    (m : QueueModel) (o : RestingOrder) (book : OrderBook) → SameOrder o (on_book m o book).0
unfolding on_book
on_book-SameOrder m o book = elim (Bool-cases (crosses (best_ask o.side book) o.price)) [
  | inl crossed ↦ rw crossed (record { order_id = refl; ticker = refl; price = refl; qty = refl })
  | inr quiet ↦ rw quiet (record { order_id = refl; ticker = refl; price = refl; qty = refl })
]

pub on_trade-SameOrder :
    (m : QueueModel) (o : RestingOrder) (t : Trade) → SameOrder o (on_trade m o t).0
unfolding on_trade
on_trade-SameOrder m o t = record {
  order_id = ground arith;
  ticker = ground arith;
  price = ground arith;
  qty = ground arith;
}
