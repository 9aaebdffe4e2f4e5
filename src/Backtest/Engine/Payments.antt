-- ===== src/Backtest/Engine/Payments.antt =====
-- What the fills of an order do to the cash, the fees and the reservations.
use kalshi_quant_research.Prelude.{
  ℕ, ◌+◌, ◌*◌, ◌<◌, ◌≡◌, refl, ◌∙◌, inl, inr, Bool, true, ◌||◌, List, [], ◌∷◌, arith, ltb, leb,
  Bool-cases, sum_by, ok, AllOk, AllOk-value, AllOk-weaken, read-AllOk, >>=-AllOk, nat_key,
  string_key,
}
use kalshi_quant_research.Prelude.Int.{pos, ◌+ℤ◌, ◌≤ℤ◌, int_laws, parts_of_eq}
use Prim.{absurd}
use mathlib.Core.Path.{subst}
use kalshi_quant_research.Market.Contracts.{Price, Qty}
use kalshi_quant_research.Backtest.Events.{Priority}
use kalshi_quant_research.Backtest.Portfolio.Cash.{Bought, buy_pays}
use kalshi_quant_research.Backtest.Engine.State.{
  BacktestConfig, Payload, FillRecord, Engine, schedule, record_of, sample_equity,
}
use kalshi_quant_research.Backtest.Engine.Matching.{book_fill}
use kalshi_quant_research.Backtest.Engine.Arrival.{
  Checked, quantity_of, with_fees, taker_record, record_each, record_fills,
}
use kalshi_quant_research.Backtest.Engine.Fees.{fee_of, cost_of, with_fees_total, with_fees_cost}

-- From `e`, at most `cost` and exactly `fee` have been paid, and nothing else is reserved.
pub record Paid (cost fee : ℕ) (e a : Engine) : Type 0 where
  pub cash : e.portfolio.cash ≤ℤ a.portfolio.cash +ℤ pos (cost + fee)
  pub fees : a.portfolio.fees ≡ e.portfolio.fees +ℤ pos fee
  pub reserved : a.reserved ≡ e.reserved

-- the parts of the state that a change of the schedule or of the samples leaves alone
pub record Framed (e a : Engine) : Type 0 where
  pub portfolio : a.portfolio ≡ e.portfolio
  pub reserved : a.reserved ≡ e.reserved

Framed-refl : (e : Engine) → Framed e e
Framed-refl e = record { portfolio = refl; reserved = refl }

pub schedule-Framed :
    (ts : ℕ) (p : Priority) (x : Payload) (e : Engine) → AllOk (Framed e) (schedule ts p x e)
unfolding schedule
schedule-Framed ts p x e = elim (Bool-cases (ltb ts e.now)) [
  | inl past ↦ rw (past, AllOk) tt
  | inr due ↦ rw (due, AllOk) (record { portfolio = refl; reserved = refl })
]

Paid-Framed : (cost fee : ℕ) (e a b : Engine) → Paid cost fee e a → Framed a b → Paid cost fee e b
Paid-Framed cost fee e a b paid framed = record {
  cash = rw framed.portfolio paid.cash;
  fees = rw framed.portfolio paid.fees;
  reserved = framed.reserved ∙ paid.reserved;
}

Paid-trans : (c d f g : ℕ) (x y z : Engine) → Paid c f x y → Paid d g y z → Paid (c + d) (f + g) x z
Paid-trans c d f g x y z h k = record {
  cash = omega (int_laws, h.cash, k.cash);
  fees = omega (int_laws, parts_of_eq h.fees, parts_of_eq k.fees);
  reserved = k.reserved ∙ h.reserved;
}

module _ (cfg : BacktestConfig) where
  pub sample-Framed : (force : Bool) (e : Engine) → Framed e (sample_equity cfg force e)
  unfolding sample_equity
  sample-Framed force e = elim (Bool-cases (force || leb e.next_sample e.now)) [
    | inl due ↦ rw due (record { portfolio = refl; reserved = refl })
    | inr not_yet ↦ rw not_yet (Framed-refl e)
  ]

  pub book_fill-Paid :
      (r : FillRecord) (e : Engine)
      → AllOk (Paid (r.price * r.qty) r.fee_micro e) (book_fill cfg r e)
  unfolding book_fill
  book_fill-Paid r e =
      >>=-AllOk (Bought (r.price * r.qty) r.fee_micro e.portfolio)
        (Paid (r.price * r.qty) r.fee_micro e) _ _
        (buy_pays r.ticker r.side r.price r.qty r.fee_micro e.portfolio)
        (λ f paid.
          read-AllOk (Paid (r.price * r.qty) r.fee_micro e) (record_of r.order_id e) _ (λ rec.
            AllOk-weaken (Framed _) (Paid (r.price * r.qty) r.fee_micro e) (schedule _ _ _ _)
              (schedule-Framed _ _ _ _)
              (λ a framed.
                Paid-Framed _ _ e _ a (record { cash = paid.0; fees = paid.1; reserved = refl })
                  framed)))

  record_each-Paid :
      (o : Checked) (xs : List (Price × Qty × ℕ)) (e : Engine)
      → AllOk (Paid (sum_by cost_of xs) (sum_by fee_of xs) e) (record_each cfg o xs e)
  unfolding record_each
  record_each-Paid o [] e = record { cash = omega int_laws; fees = omega int_laws; reserved = refl }
  record_each-Paid o (x ∷ xs) e =
      >>=-AllOk (Paid (cost_of x) (fee_of x) e) _ (book_fill cfg (taker_record cfg e.now o x) e) _
        (book_fill-Paid (taker_record cfg e.now o x) e)
        (λ a first.
          AllOk-weaken (Paid (sum_by cost_of xs) (sum_by fee_of xs) a)
            (Paid (sum_by cost_of (x ∷ xs)) (sum_by fee_of (x ∷ xs)) e) (record_each cfg o xs a)
            (record_each-Paid o xs a)
            (λ b rest.
              Paid-trans (cost_of x) (sum_by cost_of xs) (fee_of x) (sum_by fee_of xs) e a b first
                rest))

  pub record_fills-Paid :
      (o : Checked) (fills : List (Price × Qty)) (fee : ℕ) (e : Engine)
      → 0 < quantity_of fills
      → AllOk
          (Paid (sum_by (λ (x : Price × Qty). x.0 * x.1) fills) fee e)
          (record_fills cfg o fills fee e)
  unfolding record_fills
  record_fills-Paid o [] fee e some_q = absurd (omega arith)
  record_fills-Paid o (x ∷ fills) fee e some_q =
      let total_q = quantity_of (x ∷ fills) in
      let shares = with_fees fee total_q fee (x ∷ fills) in
      let in_full : sum_by fee_of shares ≡ fee =
        with_fees_total fee total_q fee x fills some_q (omega arith) in
      >>=-AllOk (Paid (sum_by (λ (y : Price × Qty). y.0 * y.1) (x ∷ fills)) fee e) _
        (record_each cfg o shares e) _
        (subst
          (λ n.
            AllOk (Paid (sum_by (λ (y : Price × Qty). y.0 * y.1) (x ∷ fills)) n e)
              (record_each cfg o shares e))
          in_full
          (subst (λ n. AllOk (Paid n (sum_by fee_of shares) e) (record_each cfg o shares e))
            (with_fees_cost fee total_q fee (x ∷ fills)) (record_each-Paid o shares e)))
        (λ a paid. Paid-Framed _ _ e a _ paid (sample-Framed true a))

  -- The fee of an order's fills is booked in full, whatever its shares; the cash falls by no more than
  -- the cost of the fills and that fee; no reservation changes. There is something to fill.
  pub record_fills_effect :
      (o : Checked) (fills : List (Price × Qty)) (fee : ℕ) (e a : Engine)
      → 0 < quantity_of fills
      → record_fills cfg o fills fee e ≡ ok a
      → (a.portfolio.fees ≡ e.portfolio.fees +ℤ pos fee)
        × (e.portfolio.cash
            ≤ℤ a.portfolio.cash +ℤ pos (sum_by (λ (x : Price × Qty). x.0 * x.1) fills + fee))
        × (a.reserved ≡ e.reserved)
  record_fills_effect o fills fee e a some_q done =
      let paid =
        AllOk-value (Paid (sum_by (λ (x : Price × Qty). x.0 * x.1) fills) fee e) _ a
          (record_fills-Paid o fills fee e some_q) done in
      (paid.fees, paid.cash, paid.reserved)
