-- ===== src/Backtest/Engine/Funding.antt =====
-- Buying power over a whole replay.
use kalshi_quant_research.Prelude.{
  ℕ, ◌+◌, ◌≡◌, refl, ap, inl, inr, List, [], ◌∷◌, arith, Option-cases, All, ok, AllOk, AllOk-value,
  AllOk-both, AllOk-weaken, read-AllOk, >>=-AllOk, nat_key, string_key,
}
use kalshi_quant_research.Prelude.Int.{pos, ◌+ℤ◌, ◌≤ℤ◌, int_laws}
use kalshi_quant_research.Prelude.Dict.{lookup}
use mathlib.Core.Path.{subst}
use kalshi_quant_research.Market.Contracts.{Ticker}
use kalshi_quant_research.Backtest.Events.{Priority, FeedEvent}
use kalshi_quant_research.Backtest.Engine.State.{
  BacktestConfig, Order, cancelled, Payload, order_payload, Scheduled, Engine, new_engine, schedule,
  must, reserved_total, submit, request_cancel,
}
use kalshi_quant_research.Backtest.Engine.Arrival.{on_order_arrival}
use kalshi_quant_research.Backtest.Engine.Context.{Strategy}
use kalshi_quant_research.Backtest.Engine.Replay.{
  Replay, on_cancel, find_resting, at_time, start, turns,
}
use kalshi_quant_research.Backtest.Engine.Kept.{SurvivesHandlers}
use kalshi_quant_research.Backtest.Engine.Runs.{start-kept, turns-kept}
use kalshi_quant_research.Backtest.Engine.Payments.{Framed, schedule-Framed}
use kalshi_quant_research.Backtest.Engine.Leverage.{IsFunded, Reserving-IsFunded, arrival-AllOk}
use kalshi_quant_research.Backtest.Engine.Reserved.{count, ids_in, queued, EntryReserved, IsTidy}
use kalshi_quant_research.Backtest.Engine.Owners.{find_resting-orders}
use kalshi_quant_research.Backtest.Engine.Tidy.{
  Apart, Apart-IsTidy, schedule-Apart, schedule-IsTidy,
}
use kalshi_quant_research.Backtest.Engine.Placing.{on_order_arrival-IsTidy}
use kalshi_quant_research.Backtest.Engine.Sound.{
  IsSound, IsSettleable, elsewhere, found-IsOwned, drop_resting-IsSound, sample-IsSound,
  apply_feed-IsSound,
}

schedule-IsFunded :
    (ts : ℕ) (p : Priority) (x : Payload) (e : Engine)
    → IsFunded e
    → AllOk IsFunded (schedule ts p x e)
schedule-IsFunded ts p x e h =
    AllOk-weaken (Framed e) IsFunded (schedule ts p x e) (schedule-Framed ts p x e) (λ a framed.
      Reserving-IsFunded e a
        (record { portfolio = framed.portfolio; reserved = rw framed.reserved (omega arith) }) h)

-- what is scheduled is no order
plan-IsSound :
    (ts : ℕ) (p : Priority) (x : Payload) (e : Engine)
    → ids_in x ≡ []
    → IsSound e
    → AllOk IsSound (schedule ts p x e)
unfolding IsSound
plan-IsSound ts p x e no_order h =
    AllOk-both IsFunded (IsTidy []) (schedule ts p x e) (schedule-IsFunded ts p x e h.0) (
      AllOk-weaken (Apart e) (IsTidy []) (schedule ts p x e) (schedule-Apart ts p x e no_order)
        (λ a same. Apart-IsTidy [] e a same h.1))

-- the popped schedule has one entry less
queued-pop :
    (i : ℕ) (top : Scheduled) (heap : List Scheduled) (e : Engine)
    → e.heap ≡ top ∷ heap
    → queued i e.heap ≡ count i (ids_in top.payload) + queued i heap
queued-pop i top heap e same = ap (queued i) same

pop-IsTidy :
    (top : Scheduled) (heap : List Scheduled) (e : Engine)
    → e.heap ≡ top ∷ heap
    → IsTidy [] e
    → IsTidy (ids_in top.payload) (at_time top.ts_ns (record e { heap = heap }))
pop-IsTidy top heap e same h = record {
  once = λ i. omega (arith, h.once i, queued-pop i top heap e same);
  reserved = h.reserved;
  keys = h.keys;
}

module _ (cfg : BacktestConfig) where
  arrives-IsSound :
      (top : Scheduled) (heap : List Scheduled) (oid : ℕ) (order : Order) (e : Engine)
      → e.heap ≡ top ∷ heap
      → top.payload ≡ order_payload oid order
      → IsSound e
      → AllOk IsSound
          (on_order_arrival cfg oid order (at_time top.ts_ns (record e { heap = heap })))
  unfolding IsSound
  arrives-IsSound top heap oid order e same is_order h =
      let popped = at_time top.ts_ns (record e { heap = heap }) in
      AllOk-both IsFunded (IsTidy []) (on_order_arrival cfg oid order popped)
        (arrival-AllOk cfg oid order popped
          (record { covered = h.0.covered; charged = h.0.charged }))
        (on_order_arrival-IsTidy cfg oid order popped
          (subst (λ p. IsTidy (ids_in p) popped) is_order (pop-IsTidy top heap e same h.1)))

  takes-IsSound :
      (top : Scheduled) (heap : List Scheduled) (e : Engine)
      → e.heap ≡ top ∷ heap
      → IsSound e
      → IsSound (at_time top.ts_ns (record e { heap = heap }))
  unfolding IsSound
  takes-IsSound top heap e same h =
      let tidy = pop-IsTidy top heap e same h.1 in
      (
        record { covered = h.0.covered; charged = h.0.charged },
        record {
          once = λ i. omega (arith, tidy.once i);
          reserved = tidy.reserved;
          keys = tidy.keys;
        },
      )

  on_cancel-IsSound : (oid : ℕ) (e : Engine) → IsSound e → AllOk IsSound (on_cancel oid e)
  unfolding IsSound on_cancel
  on_cancel-IsSound oid e h = elim (Option-cases (find_resting oid e.resting)) [
    | inl gone ↦ rw (gone, AllOk) h
    | inr (o, found) ↦
        let listed = find_resting-orders oid e.reserved e.resting o h.1.reserved h.1.keys found in
        rw (found, AllOk)
          (drop_resting-IsSound cfg o cancelled _ e h (found-IsOwned o.ticker oid o e h.1 listed.0))
  ]

  submit-IsSound :
      (order : Order) (e : Engine)
      → IsSound e
      → AllOk (λ (r : ℕ × Engine). IsSound r.1) (submit cfg order e)
  unfolding IsSound submit
  submit-IsSound order e h =
      read-AllOk (λ (r : ℕ × Engine). IsSound r.1) (must (lookup order.ticker e.state)) _
        (λ st.
          >>=-AllOk IsSound (λ (r : ℕ × Engine). IsSound r.1) (schedule _ _ _ _) _
            (AllOk-both IsFunded (IsTidy []) (schedule _ _ _ _)
              (schedule-IsFunded _ _ _ _ (record { covered = h.0.covered; charged = h.0.charged }))
              (schedule-IsTidy _ _ (order_payload e.next_order_id order) _ (record {
                once = λ i. let all = h.1.once i in ground arith;
                reserved = h.1.reserved;
                keys = h.1.keys;
              })))
            (λ a kept. kept))

  IsSound-SurvivesHandlers : SurvivesHandlers cfg IsSettleable IsSound
  unfolding request_cancel
  IsSound-SurvivesHandlers = record {
    feeds = apply_feed-IsSound cfg;
    arrives = arrives-IsSound;
    cancels = on_cancel-IsSound;
    submits = submit-IsSound;
    asks = λ oid e h. plan-IsSound _ _ _ e refl h;
    wakes = λ w e h. plan-IsSound _ _ _ e refl h;
    samples = sample-IsSound cfg;
    begins = λ e h. elsewhere e _ _ _ _ _ h;
    advances = λ ts e le head h. elsewhere e _ _ _ _ _ h;
    takes = takes-IsSound;
  }

  new-IsSound :
      (tickers : List Ticker) → pos 0 ≤ℤ cfg.initial_cash_micro → IsSound (new_engine cfg tickers)
  unfolding IsSound
  new-IsSound tickers cash = (
    record { covered = omega (int_laws, cash); charged = omega arith },
    record { once = λ i. omega arith; reserved = tt; keys = tt },
  )

  -- At every moment of a replay, what is reserved is covered by the cash and the fees paid, and it is the
  -- price times the quantity left of each resting order, order by order. The feed's settlements pay at
  -- most $1 and the replay starts with no debt; the strategy is any.
  pub turns_funded :
      {S : Type 0} (strategy : Strategy S) (n : ℕ) (tickers : List Ticker) (s : S)
      (feed : List FeedEvent) (begun after : Replay S)
      → pos 0 ≤ℤ cfg.initial_cash_micro
      → All IsSettleable feed
      → start cfg strategy tickers s feed ≡ ok begun
      → turns cfg strategy n begun ≡ ok after
      → (pos (reserved_total after.engine)
          ≤ℤ after.engine.portfolio.cash +ℤ after.engine.portfolio.fees)
        × All (EntryReserved after.engine.reserved) after.engine.resting
  unfolding IsSound
  turns_funded strategy n tickers s feed begun after cash fine is_begun is_after =
      let SoundReplay = λ (r : Replay _). IsSound r.engine × All IsSettleable r.feed in
      let first =
        AllOk-value SoundReplay _ begun
          (start-kept cfg strategy IsSound-SurvivesHandlers tickers s feed fine
            (new-IsSound tickers cash))
          is_begun in
      let kept =
        AllOk-value SoundReplay _ after
          (turns-kept cfg strategy IsSound-SurvivesHandlers n begun first) is_after in
      (kept.0.0.covered, kept.0.1.reserved)
