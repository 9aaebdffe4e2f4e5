-- ===== src/Backtest/Engine/Leverage.antt =====
-- Buying power: arriving orders against the cash and what is reserved for resting orders.
use kalshi_quant_research.Prelude.{
  Bool, ℕ, ◌+◌, ◌-◌, ◌*◌, ◌≤◌, ◌<◌, String, ◌≡◌, refl, ap, inl, inr, ◌⊎◌, false, some, ◌||◌, List,
  [], ◌∷◌, arith, ltb, ◌==◌, Bool-cases, sum_by, All, ok, AllOk, AllOk-value, AllOk-weaken,
  read-AllOk, >>=-AllOk, nat_key, string_key,
}
use kalshi_quant_research.Prelude.Int.{
  pos, pos_part, ◌+ℤ◌, ◌-ℤ◌, ◌≤ℤ◌, ltb_ℤ, int_laws, parts_of_eq,
}
use kalshi_quant_research.Prelude.Dict.{lookup, lookup-insert_self, total, total-insert_le}
use Prim.{absurd}
use kalshi_quant_research.Market.Contracts.{Price, Qty}
use kalshi_quant_research.Market.Fees.{for_ticker, order_fee_micro}
use kalshi_quant_research.Backtest.Fills.{execute}
use kalshi_quant_research.Backtest.Fills.Taker.{IsFill, cost-le, execute_bounds}
use kalshi_quant_research.Backtest.Events.{Priority}
use kalshi_quant_research.Backtest.Engine.State.{
  Order, OrderStatus, OrderRecord, Payload, set_record, BacktestConfig, MarketState, Engine,
  schedule, must, record_of, reserved_total, sample_equity,
}
use kalshi_quant_research.Backtest.Engine.Arrival.{
  Checked, checked, in_range, has_outcome, no_fills, quantity_of, age_of, is_post_only, rests,
  reject, record_fills, take_book, rest_order, finish_order, accept, on_order_arrival, marketable,
}
use kalshi_quant_research.Backtest.Engine.Payments.{Paid, sample-Framed, record_fills-Paid}

-- The account covers its reservations without the fees it has paid: cash and fees together are at
-- least what is reserved, and no fee was negative.
pub record IsFunded (e : Engine) : Type 0 where
  pub covered : pos (reserved_total e) ≤ℤ e.portfolio.cash +ℤ e.portfolio.fees
  pub charged : pos 0 ≤ℤ e.portfolio.fees

-- The state after a step that reserves `more` at most and leaves the ledger alone.
pub record Reserving (more : ℕ) (e a : Engine) : Type 0 where
  pub portfolio : a.portfolio ≡ e.portfolio
  pub reserved : reserved_total a ≤ reserved_total e + more

pub Reserving-IsFunded : (e a : Engine) → Reserving 0 e a → IsFunded e → IsFunded a
Reserving-IsFunded e a r h = record {
  covered = rw r.portfolio (omega (arith, r.reserved, h.covered));
  charged = rw r.portfolio h.charged;
}

-- The state after an order of the value `need` that fits in the buying power: the cash without what is
-- reserved covers it, and what is paid for it, without the fees, and reserved for it is no more.
pub record Fits (need : ℕ) (e a : Engine) : Type 0 where
  pub afford : pos need ≤ℤ e.portfolio.cash -ℤ pos (reserved_total e)
  pub spent :
      e.portfolio.cash +ℤ e.portfolio.fees +ℤ pos (reserved_total a)
      ≤ℤ a.portfolio.cash +ℤ a.portfolio.fees +ℤ pos (reserved_total e + need)
  pub charged : e.portfolio.fees ≤ℤ a.portfolio.fees

-- The order is refused: its record says so, and nothing is bought, reserved or rests for it.
pub record Refused (oid : ℕ) (e a : Engine) : Type 0 where
  pub portfolio : a.portfolio ≡ e.portfolio
  pub reserved : a.reserved ≡ e.reserved
  pub resting : a.resting ≡ e.resting
  pub fill_log : a.fill_log ≡ e.fill_log
  pub rec : OrderRecord
  pub recorded : lookup oid a.records ≡ some rec
  pub status : rec.status ≡ OrderStatus.rejected

-- An order of the value `need` is refused or fits.
abbrev pub IsSettled : ℕ → ℕ → Engine → Engine → Type 0
IsSettled oid need e a = Refused oid e a ⊎ Fits need e a

IsSettled-IsFunded :
    (oid need : ℕ) (e a : Engine) → IsSettled oid need e a → IsFunded e → IsFunded a
IsSettled-IsFunded oid need e a (inl refused) h =
    Reserving-IsFunded e a
      (record { portfolio = refused.portfolio; reserved = rw refused.reserved (omega arith) }) h
IsSettled-IsFunded oid need e a (inr fits) h = record {
  covered = omega (int_laws, h.charged, fits.afford, fits.spent);
  charged = omega (int_laws, h.charged, fits.charged);
}

-- the value of an order at its limit
abbrev pub value_of : Order → ℕ
value_of order = pos_part order.price * pos_part order.qty

some_fills :
    (limit : Price) (fills : List (Price × Qty))
    → All (IsFill limit) fills
    → no_fills fills ≡ false
    → 0 < quantity_of fills
some_fills limit [] good taken = absurd cc
some_fills limit (x ∷ fills) good taken = omega (arith, good.0.1)

-- fills within a limit, and the limit's price of what is left
spends :
    (limit qty : ℕ) (fills : List (Price × Qty))
    → quantity_of fills ≤ qty
    → sum_by (λ (x : Price × Qty). x.0 * x.1) fills ≤ limit * quantity_of fills
    → sum_by (λ (x : Price × Qty). x.0 * x.1) fills + limit * (qty - quantity_of fills)
      ≤ limit * qty
spends limit qty fills fits cheap =
    let split : limit * qty ≡ limit * (quantity_of fills + (qty - quantity_of fills)) =
      ap (λ n. limit * n) (omega arith) in
    omega arith

module _ (cfg : BacktestConfig) where
  pub sampled : (force : Bool) (e : Engine) → Reserving 0 e (sample_equity cfg force e)
  sampled force e =
      let framed = sample-Framed cfg force e in
      record { portfolio = framed.portfolio; reserved = rw framed.reserved (omega arith) }

  schedule-Refused :
      (oid ts : ℕ) (p : Priority) (x : Payload) (rec : OrderRecord) (e : Engine)
      → rec.status ≡ OrderStatus.rejected
      → AllOk (Refused oid e) (schedule ts p x (set_record oid rec e))
  unfolding schedule
  schedule-Refused oid ts p x rec e refused = elim (Bool-cases (ltb ts e.now)) [
    | inl past ↦ rw (past, AllOk) tt
    | inr due ↦
        rw (due, AllOk)
          (record {
            portfolio = refl;
            reserved = refl;
            resting = refl;
            fill_log = refl;
            rec = rec;
            recorded = lookup-insert_self oid rec e.records;
            status = refused;
          })
  ]

  reject-Refused :
      (oid : ℕ) (reason : String) (e : Engine) → AllOk (Refused oid e) (reject cfg oid reason e)
  unfolding reject
  reject-Refused oid reason e = read-AllOk (Refused oid e) (record_of oid e) _ (λ rec.
      schedule-Refused oid _ _ _ (record rec { status = OrderStatus.rejected; reason = reason }) e
        refl)

  finish_order-Reserving :
      (o : Checked) (remaining : Qty) (e : Engine)
      → AllOk (Reserving (o.price * remaining) e) (finish_order cfg o remaining e)
  unfolding finish_order rest_order
  finish_order-Reserving o remaining e = read-AllOk _ (record_of o.order_id e) _ (λ rec.
      read-AllOk _ (must (lookup o.ticker e.state)) _ (λ st. elim (Bool-cases (remaining == 0)) [
        | inl all_filled ↦ rw all_filled (record { portfolio = refl; reserved = omega arith })
        | inr left ↦ elim (Bool-cases (rests o.tif)) [
          | inl rested ↦
              rw (left, rested)
                (record {
                  portfolio = refl;
                  reserved = total-insert_le (λ n. n) o.order_id (o.price * remaining) e.reserved;
                })
          | inr dropped ↦ rw (left, dropped) (record { portfolio = refl; reserved = omega arith })
        ]
      ]))

  -- What a marketable order took: the account after it, and what is left of the order.
  record Took (o : Checked) (e : Engine) (left : Qty) (a : Engine) : Type 0 where
    cost : ℕ
    fee : ℕ
    paid : Paid cost fee e a
    within : cost + o.price * left ≤ o.price * o.qty

  untouched : (o : Checked) (e : Engine) → Took o e o.qty e
  untouched o e = record {
    cost = 0;
    fee = 0;
    paid = record { cash = omega int_laws; fees = omega int_laws; reserved = refl };
    within = omega arith;
  }

  take_book-Took :
      (o : Checked) (st : MarketState) (e : Engine)
      → AllOk (λ (r : Qty × Engine). Took o e r.0 r.1) (take_book cfg o st e)
  unfolding take_book
  take_book-Took o st e =
      let age = age_of e.now st.book_ts in
      let fills = execute cfg.taker st.book age o.side o.price o.qty in
      let fee = order_fee_micro (for_ticker cfg.fees o.ticker) false fills in
      let (good, fits, _, _) = execute_bounds cfg.taker st.book age o.side o.price o.qty in
      let cost = sum_by (λ (x : Price × Qty). x.0 * x.1) fills in
      elim (Bool-cases (no_fills fills)) [
        | inl nothing ↦ rw nothing (untouched o e)
        | inr taken ↦ rw taken (
            >>=-AllOk (Paid cost fee e) (λ (r : Qty × Engine). Took o e r.0 r.1)
              (record_fills cfg o fills fee e) _
              (record_fills-Paid cfg o fills fee e (some_fills o.price fills good taken))
              (λ a paid. record {
                cost = cost;
                fee = fee;
                paid = record { cash = paid.cash; fees = paid.fees; reserved = paid.reserved };
                within = spends o.price o.qty fills fits (cost-le o.price fills good);
              }))
      ]

  take_finish-Fits :
      (o : Checked) (e a b : Engine) (left : Qty)
      → pos (o.price * o.qty) ≤ℤ e.portfolio.cash -ℤ pos (reserved_total e)
      → Took o e left a
      → Reserving (o.price * left) a b
      → IsSettled o.order_id (o.price * o.qty) e b
  take_finish-Fits o e a b left afford took rested =
      let same : reserved_total a ≡ reserved_total e = ap (total (λ n. n)) took.paid.reserved in
      let paid = parts_of_eq took.paid.fees in
      inr (record {
        afford = afford;
        spent =
            rw rested.portfolio
              (omega (int_laws, took.paid.cash, paid, took.within, rested.reserved, same));
        charged = rw rested.portfolio (omega (int_laws, paid));
      })

  accept-IsSettled :
      (o : Checked) (st : MarketState) (e : Engine)
      → AllOk (IsSettled o.order_id (o.price * o.qty) e) (accept cfg o st e)
  unfolding accept
  accept-IsSettled o st e =
      let need = o.price * o.qty in
      let refuse = λ (reason : String).
        AllOk-weaken (Refused o.order_id e) (IsSettled o.order_id need e)
          (reject cfg o.order_id reason e) (reject-Refused o.order_id reason e)
          (λ a refused. inl refused) in
      elim (Bool-cases (ltb_ℤ (e.portfolio.cash -ℤ pos (reserved_total e)) (pos need))) [
        | inl poor ↦ rw poor (refuse "insufficient buying power")
        | inr funded ↦
            let afford : pos need ≤ℤ e.portfolio.cash -ℤ pos (reserved_total e) = ground arith in
            elim (Bool-cases (marketable st.book o.side o.price)) [
              | inr quiet ↦
                  rw (funded, quiet)
                    (AllOk-weaken (Reserving need e) (IsSettled o.order_id need e)
                      (finish_order cfg o o.qty e) (finish_order-Reserving o o.qty e)
                      (λ a r. take_finish-Fits o e e a o.qty afford (untouched o e) r))
              | inl crossing ↦ elim (Bool-cases (is_post_only o.tif)) [
                | inl refused ↦
                    rw (funded, crossing, refused) (refuse "post-only order would cross")
                | inr taking ↦
                    rw (funded, crossing, taking)
                      (>>=-AllOk (λ (r : Qty × Engine). Took o e r.0 r.1)
                        (IsSettled o.order_id need e) (take_book cfg o st e) _
                        (take_book-Took o st e)
                        (λ r took.
                          AllOk-weaken (Reserving (o.price * r.0) r.1) (IsSettled o.order_id need e)
                            (finish_order cfg o r.0 r.1) (finish_order-Reserving o r.0 r.1)
                            (λ b rested. take_finish-Fits o e r.1 b r.0 afford took rested)))
              ]
            ]
      ]

  arrival-AllSettled :
      (oid : ℕ) (order : Order) (e : Engine)
      → AllOk (IsSettled oid (value_of order) e) (on_order_arrival cfg oid order e)
  unfolding on_order_arrival
  arrival-AllSettled oid order e =
      let settled = IsSettled oid (value_of order) e in
      let refuse = λ (reason : String).
        AllOk-weaken (Refused oid e) settled (reject cfg oid reason e) (reject-Refused oid reason e)
          (λ a refused. inl refused) in
      read-AllOk settled (record_of oid e) _ (λ rec.
        read-AllOk settled (must (lookup order.ticker e.state)) _ (λ st.
          elim (Bool-cases (st.closed || has_outcome st.outcome)) [
            | inl shut ↦ rw shut (refuse "market closed")
            | inr open_market ↦ elim (Bool-cases (in_range order)) [
              | inr invalid ↦ rw (open_market, invalid) (refuse "invalid price or quantity")
              | inl valid ↦ rw (open_market, valid) (accept-IsSettled (checked oid order) st e)
            ]
          ]))

  pub arrival-AllOk :
      (oid : ℕ) (order : Order) (e : Engine)
      → IsFunded e
      → AllOk IsFunded (on_order_arrival cfg oid order e)
  arrival-AllOk oid order e h =
      AllOk-weaken (IsSettled oid (value_of order) e) IsFunded (on_order_arrival cfg oid order e)
        (arrival-AllSettled oid order e)
        (λ a done. IsSettled-IsFunded oid (value_of order) e a done h)

  -- An order that arrives, whatever its price, size and kind, is refused: its record
  -- says so, and the account, the reservations, the resting orders and the fills stay as they are. Or its
  -- value at its limit was at most the cash less what is
  -- reserved, and what is paid for its fills, without the fees, and what is newly reserved come to no
  -- more than that value.
  pub arrival-IsSettled :
      (oid : ℕ) (order : Order) (e a : Engine)
      → on_order_arrival cfg oid order e ≡ ok a
      → IsSettled oid (value_of order) e a
  arrival-IsSettled oid order e a done =
      AllOk-value (IsSettled oid (value_of order) e) _ a (arrival-AllSettled oid order e) done
