-- ===== src/Backtest/Engine/Sound.antt =====
-- Buying power over the handlers: the reservations are covered, and they are those of the resting orders.
use kalshi_quant_research.Prelude.{
  ℕ, ◌*◌, ◌≤◌, String, ◌≡◌, refl, inl, inr, Bool, true, some, List, [], ◌∷◌, arith, ◌==◌,
  Bool-cases, Option-cases, Result, AllOk, AllOk-both, read-AllOk, >>=-AllOk, nat_key, string_key,
}
use kalshi_quant_research.Prelude.Int.{ℤ, int_laws, parts_of_eq}
use kalshi_quant_research.Prelude.Dict.{Dict, lookup, total-erase_le}
use kalshi_quant_research.Market.Contracts.{Price, Qty, Ticker, Trade, price_scale}
use kalshi_quant_research.Market.OrderBook.{apply_snapshot, new_book}
use kalshi_quant_research.Backtest.Portfolio.{settle}
use kalshi_quant_research.Backtest.Portfolio.Cash.{settle_pays}
use kalshi_quant_research.Backtest.Fills.{RestingOrder, trade_price}
use kalshi_quant_research.Backtest.Fills.Sameness.{SameOrder, on_book-SameOrder, on_trade-SameOrder}
use kalshi_quant_research.Backtest.Events.{
  FeedEvent, book_update, book_confirm, trade_tick, market_close, settlement,
}
use kalshi_quant_research.Backtest.Engine.State.{
  BacktestConfig, OrderStatus, cancelled, OrderRecord, MarketState, Engine, record_of, resting_of,
  sample_equity,
}
use kalshi_quant_research.Backtest.Engine.Matching.{
  Budget, find_order, put_order, remove_resting, drop_resting, for_orders, drop_all, maker_fill,
  take_fill, match_book, match_one, match_from, match_resting,
}
use kalshi_quant_research.Backtest.Engine.Feed.{
  on_market, signed_levels, apply_book, apply_trade, apply_close, apply_settlement, apply_feed,
}
use kalshi_quant_research.Backtest.Engine.Released.{maker_fill-AllOk}
use kalshi_quant_research.Backtest.Engine.Leverage.{IsFunded, Reserving-IsFunded, sampled}
use kalshi_quant_research.Backtest.Engine.Reserved.{IsReserved, IsTidy, count-find, find-All}
use kalshi_quant_research.Backtest.Engine.Owners.{orders_of, orders-All}
use kalshi_quant_research.Backtest.Engine.Tidy.{
  Apart-IsTidy, Rests, put_order-IsTidy, sample-Apart, maker_fill-IsTidy, drop_resting-IsTidy,
}

unfoldable pub IsSound : Engine → Type 0
IsSound e = IsFunded e × IsTidy [] e

-- An order that rests in its market with its reservation.
abbrev pub IsOwned : RestingOrder → Engine → Type 0
IsOwned o e = Rests o e × (lookup o.order_id e.reserved ≡ some (o.price * o.qty))

-- an order that is found in a market's list
pub found-IsOwned :
    (t : Ticker) (oid : ℕ) (o : RestingOrder) (e : Engine)
    → IsTidy [] e
    → find_order oid (orders_of t e.resting) ≡ some o
    → IsOwned o e
found-IsOwned t oid o e h found =
    let os = orders_of t e.resting in
    let (id, some_there) = count-find oid os o found in
    let (ticker, reserved) =
      find-All (IsReserved t e.reserved) oid os o (orders-All t e.reserved e.resting h.reserved)
        found in
    (rw (ticker, id) some_there, reserved)

-- a model's change of an order leaves it in its place
same-IsOwned : (o x : RestingOrder) (e : Engine) → SameOrder o x → IsOwned o e → IsOwned x e
same-IsOwned o x e same h =
    (rw (same.order_id, same.ticker) h.0, rw (same.order_id, same.price, same.qty) h.1)

-- the parts that neither property reads
pub elsewhere :
    (e : Engine) (now : ℕ) (state : Dict Ticker MarketState) (records : Dict ℕ OrderRecord)
    (settlements : List (ℕ × Ticker × Price × ℤ)) (next_sample : ℕ)
    → IsSound e
    → IsSound (record e {
      now = now;
      state = state;
      records = records;
      settlements = settlements;
      next_sample = next_sample;
    })
unfolding IsSound
elsewhere e now state records settlements next_sample h = (
  record { covered = h.0.covered; charged = h.0.charged },
  record { once = h.1.once; reserved = h.1.reserved; keys = h.1.keys },
)

-- A settlement pays at most $1.
abbrev pub IsSettleable : FeedEvent → Type 0
IsSettleable (book_update ev) = Unit
IsSettleable (book_confirm ev) = Unit
IsSettleable (trade_tick ev) = Unit
IsSettleable (market_close ev) = Unit
IsSettleable (settlement ev) = ev.value ≤ price_scale

module _ (cfg : BacktestConfig) where
  take_fill-IsSound :
      (x : RestingOrder) (qty : Qty) (e : Engine)
      → IsSound e
      → IsOwned x e
      → AllOk IsSound (take_fill cfg (x, qty) e)
  unfolding IsSound take_fill put_order
  take_fill-IsSound x qty e h owned =
      let (tidy, rests) =
        put_order-IsTidy x e.records e.reserved e h.1 owned.0 (λ j ne. refl) owned.1 in
      let funded : IsFunded (put_order x e) = record {
        covered = h.0.covered;
        charged = h.0.charged;
      } in
      elim (Bool-cases (qty == 0)) [
        | inl nothing ↦ rw nothing (funded, tidy)
        | inr filled ↦ rw filled (
            AllOk-both IsFunded (IsTidy []) (maker_fill cfg x qty (put_order x e))
              (maker_fill-AllOk cfg x qty _ owned.1 funded)
              (maker_fill-IsTidy cfg x qty _ tidy rests))
      ]

  for_orders-IsSound :
      (body : RestingOrder → Engine → Result Engine)
      → ((o : RestingOrder) (e : Engine) → IsSound e → IsOwned o e → AllOk IsSound (body o e))
      → (t : Ticker) (ids : List ℕ) (e : Engine) → IsSound e
      → AllOk IsSound (for_orders body t ids e)
  unfolding IsSound for_orders
  for_orders-IsSound body each t [] e h = h
  for_orders-IsSound body each t (oid ∷ ids) e h =
      elim (Option-cases (find_order oid (resting_of t e))) [
        | inl gone ↦ rw (gone, AllOk) (for_orders-IsSound body each t ids e h)
        | inr (o, found) ↦
            rw (found, AllOk)
              (>>=-AllOk IsSound IsSound _ _ (each o e h (found-IsOwned t oid o e h.1 found))
                (λ a kept. for_orders-IsSound body each t ids a kept))
      ]

  pub drop_resting-IsSound :
      (o : RestingOrder) (status : OrderStatus) (reason : String) (e : Engine)
      → IsSound e
      → IsOwned o e
      → AllOk IsSound (drop_resting o status reason e)
  unfolding IsSound drop_resting remove_resting
  drop_resting-IsSound o status reason e h owned =
      AllOk-both IsFunded (IsTidy []) (drop_resting o status reason e)
        (read-AllOk IsFunded (record_of o.order_id e) _ (λ rec.
          Reserving-IsFunded e _
            (record {
              portfolio = refl;
              reserved = omega (arith, total-erase_le (λ n. n) o.order_id e.reserved);
            })
            h.0))
        (drop_resting-IsTidy cfg o status reason e h.1 owned.0)

  match_one-IsSound :
      (trade : Trade) (budget : Budget cfg) (o : RestingOrder) (e : Engine)
      → IsSound e
      → IsOwned o e
      → AllOk (λ (r : Budget cfg × Engine). IsSound r.1) (match_one cfg trade budget o e)
  unfolding match_one
  match_one-IsSound trade budget o e h owned =
      elim (Bool-cases (trade_price o.side trade == o.price)) [
        | inl level ↦ rw level (
            >>=-AllOk IsSound (λ (r : Budget cfg × Engine). IsSound r.1) _ _
              (take_fill-IsSound _ _ e h
                (same-IsOwned o _ e (on_trade-SameOrder cfg.maker o _) owned))
              (λ a kept. kept))
        | inr away ↦ rw away (
            >>=-AllOk IsSound (λ (r : Budget cfg × Engine). IsSound r.1) _ _
              (take_fill-IsSound _ _ e h
                (same-IsOwned o _ e (on_trade-SameOrder cfg.maker o trade) owned))
              (λ a kept. kept))
      ]

  match_from-IsSound :
      (trade : Trade) (t : Ticker) (budget : Budget cfg) (ids : List ℕ) (e : Engine)
      → IsSound e
      → AllOk IsSound (match_from cfg trade t budget ids e)
  unfolding IsSound match_from
  match_from-IsSound trade t budget [] e h = h
  match_from-IsSound trade t budget (oid ∷ ids) e h =
      elim (Option-cases (find_order oid (resting_of t e))) [
        | inl gone ↦ rw (gone, AllOk) (match_from-IsSound trade t budget ids e h)
        | inr (o, found) ↦
            rw (found, AllOk)
              (>>=-AllOk (λ (r : Budget cfg × Engine). IsSound r.1) IsSound _ _
                (match_one-IsSound trade budget o e h (found-IsOwned t oid o e h.1 found))
                (λ r kept. match_from-IsSound trade t r.0 ids r.1 kept))
      ]

  pub sample-IsSound : (force : Bool) (e : Engine) → IsSound e → IsSound (sample_equity cfg force e)
  unfolding IsSound
  sample-IsSound force e h = (
    Reserving-IsFunded e _ (sampled cfg force e) h.0,
    Apart-IsTidy [] e _ (sample-Apart cfg force e) h.1,
  )

  settle-IsSound :
      (t : Ticker) (value : Price) (settlements : List (ℕ × Ticker × Price × ℤ)) (e : Engine)
      → value ≤ price_scale
      → IsSound e
      → IsSound (record e { portfolio = (settle t value e.portfolio).0; settlements = settlements })
  unfolding IsSound
  settle-IsSound t value settlements e le h =
      let (cash, fees) = settle_pays t value e.portfolio le in
      let same = parts_of_eq fees in
      (
        record {
          covered = omega (int_laws, h.0.covered, cash, same);
          charged = omega (int_laws, h.0.charged, same);
        },
        record { once = h.1.once; reserved = h.1.reserved; keys = h.1.keys },
      )

  on_market-IsSound :
      (t : Ticker) (handler : MarketState → Engine → Result Engine) (e : Engine)
      → ((st : MarketState) → AllOk IsSound (handler st e))
      → IsSound e
      → AllOk IsSound (on_market cfg t handler e)
  on_market-IsSound t handler e each h = elim (Option-cases (lookup t e.state)) [
    | inl unknown ↦ rw (unknown, AllOk) h
    | inr (st, found) ↦ rw (found, AllOk) (each st)
  ]

  drop_all-IsSound :
      (reason : String) (t : Ticker) (e : Engine) → IsSound e → AllOk IsSound (drop_all reason t e)
  unfolding drop_all
  drop_all-IsSound reason t e h =
      for_orders-IsSound _ (λ o a. drop_resting-IsSound o cancelled reason a) t _ e h

  pub apply_feed-IsSound :
      (ev : FeedEvent) (e : Engine)
      → IsSettleable ev
      → IsSound e
      → AllOk IsSound (apply_feed cfg ev e)
  unfolding apply_feed apply_book apply_trade apply_close apply_settlement match_book match_resting
  apply_feed-IsSound (book_confirm ev) e fine h = elsewhere e _ _ _ _ _ h
  apply_feed-IsSound (book_update ev) e fine h =
      on_market-IsSound ev.ticker (apply_book cfg ev) e
        (λ st.
          read-AllOk IsSound
            (apply_snapshot (signed_levels ev.yes_bids) (signed_levels ev.no_bids)
              (new_book ev.ticker))
            _
            (λ book.
              for_orders-IsSound _
                (λ o a kept owned.
                  take_fill-IsSound _ _ a kept
                    (same-IsOwned o _ a (on_book-SameOrder cfg.maker o book) owned))
                ev.ticker _ _ (elsewhere e _ _ _ _ _ h)))
        h
  apply_feed-IsSound (trade_tick ev) e fine h =
      on_market-IsSound ev.ticker (apply_trade cfg ev) e
        (λ st. match_from-IsSound ev.trade ev.ticker [] _ _ (elsewhere e _ _ _ _ _ h)) h
  apply_feed-IsSound (market_close ev) e fine h =
      on_market-IsSound ev.ticker (apply_close cfg ev) e
        (λ st. drop_all-IsSound "market closed" ev.ticker _ (elsewhere e _ _ _ _ _ h)) h
  apply_feed-IsSound (settlement ev) e fine h =
      on_market-IsSound ev.ticker (apply_settlement cfg ev) e
        (λ st.
          >>=-AllOk IsSound IsSound _ _
            (drop_all-IsSound "market settled" ev.ticker _ (elsewhere e _ _ _ _ _ h))
            (λ a kept. sample-IsSound true _ (settle-IsSound ev.ticker ev.value _ a fine kept)))
        h
