-- ===== src/Backtest/Engine/Placing.antt =====
-- The number of an order from the exchange's door to its rest.
use kalshi_quant_research.Prelude.{
  ℕ, ◌+◌, ◌*◌, String, ◌≡◌, refl, ap, inl, inr, true, ◌||◌, Option, List, [], ◌∷◌, ◌++◌, arith,
  ◌==◌, Bool-cases, All-append, AllOk, AllOk-weaken, read-AllOk, >>=-AllOk, nat_key, string_key,
}
use kalshi_quant_research.Prelude.Int.{pos, ◌-ℤ◌, ltb_ℤ}
use kalshi_quant_research.Prelude.Dict.{
  lookup, insert, lookup-insert_self, lookup-insert_ne, insert-Distinct,
}
use kalshi_quant_research.Market.Contracts.{Price, Qty}
use kalshi_quant_research.Market.OrderBook.{OrderBook}
use kalshi_quant_research.Backtest.Fills.{RestingOrder, execute}
use kalshi_quant_research.Backtest.Fills.Sameness.{on_place-SameOrder}
use kalshi_quant_research.Backtest.Engine.State.{
  BacktestConfig, Order, MarketState, Engine, schedule, must, record_of, reserved_total,
}
use kalshi_quant_research.Backtest.Engine.Matching.{ids_of, book_fill}
use kalshi_quant_research.Backtest.Engine.Arrival.{
  Checked, checked, in_range, has_outcome, no_fills, age_of, is_post_only, rests, reject,
  record_each, record_fills, take_book, placed, rest_order, finish_order, accept, on_order_arrival,
  marketable, taker_record,
}
use kalshi_quant_research.Backtest.Engine.Reserved.{
  count, held, IsReserved, IsTidy, SameBut, other-All,
}
use kalshi_quant_research.Backtest.Engine.Owners.{
  orders_of, held-insert, held-orders, orders-All, put-Entries,
}
use kalshi_quant_research.Backtest.Engine.Tidy.{
  Apart, Apart-IsTidy, Apart-trans, schedule-Apart, sample-Apart, book_fill-Apart,
}

count-append :
    (i : ℕ) (o : RestingOrder) (os : List RestingOrder)
    → count i (ids_of (os ++ o ∷ [])) ≡ count i (ids_of os) + count i (o.order_id ∷ [])
count-append i o [] = omega arith
count-append i o (x ∷ xs) = omega (arith, count-append i o xs)

-- a number that is given up
settled : (oid : ℕ) (e : Engine) → IsTidy (oid ∷ []) e → IsTidy [] e
settled oid e h = record {
  once = λ i. omega (arith, h.once i);
  reserved = h.reserved;
  keys = h.keys;
}

module _ (cfg : BacktestConfig) where
  record_each-Apart :
      (o : Checked) (xs : List (Price × Qty × ℕ)) (e : Engine)
      → AllOk (Apart e) (record_each cfg o xs e)
  unfolding record_each
  record_each-Apart o [] e = record {
    resting = refl;
    reserved = refl;
    next = refl;
    waiting = λ i. refl;
  }
  record_each-Apart o (x ∷ xs) e =
      >>=-AllOk (Apart e) (Apart e) (book_fill cfg (taker_record cfg e.now o x) e) _
        (book_fill-Apart cfg _ e)
        (λ a first.
          AllOk-weaken (Apart a) (Apart e) (record_each cfg o xs a) (record_each-Apart o xs a)
            (λ b rest. Apart-trans e a b first rest))

  take_book-Apart :
      (o : Checked) (st : MarketState) (e : Engine)
      → AllOk (λ (r : Qty × Engine). Apart e r.1) (take_book cfg o st e)
  unfolding take_book record_fills
  take_book-Apart o st e =
      let fills = execute cfg.taker st.book (age_of e.now st.book_ts) o.side o.price o.qty in
      elim (Bool-cases (no_fills fills)) [
        | inl nothing ↦
            rw nothing
              (record { resting = refl; reserved = refl; next = refl; waiting = λ i. refl })
        | inr taken ↦ rw taken (
            >>=-AllOk (Apart e) (λ (r : Qty × Engine). Apart e r.1) (record_fills cfg o fills _ e) _
              (>>=-AllOk (Apart e) (Apart e) (record_each cfg o _ e) _ (record_each-Apart o _ e)
                (λ a each. Apart-trans e a _ each (sample-Apart cfg true a)))
              (λ a kept. record {
                resting = kept.resting;
                reserved = kept.reserved;
                next = kept.next;
                waiting = kept.waiting;
              }))
      ]

  rest_order-IsTidy :
      (o : Checked) (remaining : Qty) (book : Option OrderBook) (e : Engine)
      → IsTidy (o.order_id ∷ []) e
      → IsTidy [] (rest_order cfg o remaining book e)
  unfolding rest_order
  rest_order-IsTidy o remaining book e h =
      let unheld : held o.order_id e.resting ≡ 0 = let all = h.once o.order_id in ground arith in
      let x = placed cfg o remaining book e in
      let same = on_place-SameOrder cfg.maker _ book in
      let os = orders_of o.ticker e.resting in
      let reserved = insert o.order_id (o.price * remaining) e.reserved in
      let most = held-orders o.order_id o.ticker e.resting in
      let apart : SameBut o.order_id e.reserved reserved =
        λ j ne. lookup-insert_ne o.order_id j (o.price * remaining) e.reserved ne in
      record {
        once = λ i. omega (
          arith,
          h.once i,
          held-insert i o.ticker (os ++ x ∷ []) e.resting,
          count-append i x os,
          ap (λ n. count i (n ∷ [])) same.order_id,
        );
        reserved =
            put-Entries o.order_id e.reserved reserved o.ticker (os ++ x ∷ []) e.resting apart
              (omega (arith, unheld)) h.reserved
              (All-append (IsReserved o.ticker reserved) os (x ∷ [])
                (other-All o.ticker o.order_id e.reserved reserved os apart
                  (omega (arith, unheld, most))
                  (orders-All o.ticker e.reserved e.resting h.reserved))
                (
                  (
                    same.ticker,
                    rw (same.order_id, same.price, same.qty)
                        (lookup-insert_self o.order_id (o.price * remaining) e.reserved),
                  ),
                  tt,
                ));
        keys = insert-Distinct o.ticker (os ++ x ∷ []) e.resting h.keys;
      }

  finish_order-IsTidy :
      (o : Checked) (remaining : Qty) (e : Engine)
      → IsTidy (o.order_id ∷ []) e
      → AllOk (IsTidy []) (finish_order cfg o remaining e)
  unfolding finish_order
  finish_order-IsTidy o remaining e h =
      let done =
        λ (a : Engine) (same : Apart e a). settled o.order_id a (Apart-IsTidy _ e a same h) in
      read-AllOk (IsTidy []) (record_of o.order_id e) _ (λ rec.
        read-AllOk (IsTidy []) (must (lookup o.ticker e.state)) _ (λ st.
          elim (Bool-cases (remaining == 0)) [
            | inl all_filled ↦ rw all_filled (
                done _
                  (record { resting = refl; reserved = refl; next = refl; waiting = λ i. refl }))
            | inr left ↦ elim (Bool-cases (rests o.tif)) [
              | inl rested ↦
                  rw (left, rested)
                    (rest_order-IsTidy o remaining st.book _
                      (record { once = h.once; reserved = h.reserved; keys = h.keys }))
              | inr dropped ↦
                  rw (left, dropped)
                    (done _ (record {
                      resting = refl;
                      reserved = refl;
                      next = refl;
                      waiting = λ i. refl;
                    }))
            ]
          ]))

  reject-IsTidy :
      (oid : ℕ) (reason : String) (e : Engine)
      → IsTidy (oid ∷ []) e
      → AllOk (IsTidy []) (reject cfg oid reason e)
  unfolding reject
  reject-IsTidy oid reason e h = read-AllOk (IsTidy []) (record_of oid e) _ (λ rec.
      AllOk-weaken (Apart _) (IsTidy []) (schedule _ _ _ _) (schedule-Apart _ _ _ _ refl) (λ a same.
        settled oid a (
          Apart-IsTidy (oid ∷ []) e a
            (record {
              resting = same.resting;
              reserved = same.reserved;
              next = same.next;
              waiting = same.waiting;
            })
            h)))

  accept-IsTidy :
      (o : Checked) (st : MarketState) (e : Engine)
      → IsTidy (o.order_id ∷ []) e
      → AllOk (IsTidy []) (accept cfg o st e)
  unfolding accept
  accept-IsTidy o st e h =
      elim (Bool-cases
        (ltb_ℤ (e.portfolio.cash -ℤ pos (reserved_total e)) (pos (o.price * o.qty)))) [
          | inl poor ↦ rw poor (reject-IsTidy o.order_id _ e h)
          | inr funded ↦ elim (Bool-cases (marketable st.book o.side o.price)) [
            | inr quiet ↦ rw (funded, quiet) (finish_order-IsTidy o o.qty e h)
            | inl crossing ↦ elim (Bool-cases (is_post_only o.tif)) [
              | inl refused ↦ rw (funded, crossing, refused) (reject-IsTidy o.order_id _ e h)
              | inr taking ↦
                  rw (funded, crossing, taking)
                    (>>=-AllOk (λ (r : Qty × Engine). Apart e r.1) (IsTidy [])
                      (take_book cfg o st e) _ (take_book-Apart o st e)
                      (λ r same. finish_order-IsTidy o r.0 r.1 (Apart-IsTidy _ e r.1 same h)))
            ]
          ]
        ]

  -- An arriving order, whose number neither waits nor rests, leaves the numbers tidy.
  pub on_order_arrival-IsTidy :
      (oid : ℕ) (order : Order) (e : Engine)
      → IsTidy (oid ∷ []) e
      → AllOk (IsTidy []) (on_order_arrival cfg oid order e)
  unfolding on_order_arrival
  on_order_arrival-IsTidy oid order e h = read-AllOk (IsTidy []) (record_of oid e) _ (λ rec.
      read-AllOk (IsTidy []) (must (lookup order.ticker e.state)) _ (λ st.
        elim (Bool-cases (st.closed || has_outcome st.outcome)) [
          | inl shut ↦ rw shut (reject-IsTidy oid _ e h)
          | inr open_market ↦ elim (Bool-cases (in_range order)) [
            | inr invalid ↦ rw (open_market, invalid) (reject-IsTidy oid _ e h)
            | inl valid ↦ rw (open_market, valid) (accept-IsTidy (checked oid order) st e h)
          ]
        ]))
