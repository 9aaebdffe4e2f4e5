-- ===== src/Backtest/Engine/Released.antt =====
-- Fills of resting orders, against what is reserved for them.
use kalshi_quant_research.Prelude.{
  ℕ, ◌+◌, ◌-◌, ◌*◌, ◌≤◌, min, ◌≡◌, refl, ap, inl, inr, true, some, arith, ◌==◌, Bool-cases, ok,
  AllOk, AllOk-value, AllOk-weaken, read-AllOk, >>=-AllOk, nat_key, string_key,
}
use kalshi_quant_research.Prelude.Int.{int_laws, parts_of_eq}
use kalshi_quant_research.Prelude.Dict.{lookup, insert, total, total-insert, total-erase_le}
use kalshi_quant_research.Market.Contracts.{Qty}
use kalshi_quant_research.Backtest.Fills.{RestingOrder}
use kalshi_quant_research.Backtest.Engine.State.{BacktestConfig, Engine, record_of, reserved_total}
use kalshi_quant_research.Backtest.Engine.Matching.{
  maker_fill, book_fill, settle_order, put_order, remove_resting,
}
use kalshi_quant_research.Backtest.Engine.Payments.{Paid, book_fill-Paid}
use kalshi_quant_research.Backtest.Engine.Leverage.{IsFunded, Reserving-IsFunded, sampled}

module _ (cfg : BacktestConfig) where
  -- the ledger is untouched, and the reservation of a resting order goes down to its new quantity
  record Released (o : RestingOrder) (old : ℕ) (e a : Engine) : Type 0 where
    portfolio : a.portfolio ≡ e.portfolio
    reserved : reserved_total a + old ≤ reserved_total e + o.price * o.qty

  settle_order-Released :
      (o : RestingOrder) (old : ℕ) (e : Engine)
      → lookup o.order_id e.reserved ≡ some old
      → AllOk (Released o old e) (settle_order cfg o e)
  unfolding settle_order put_order remove_resting
  settle_order-Released o old e found =
      let written = insert o.order_id (o.price * o.qty) e.reserved in
      let moved = total-insert (λ n. n) o.order_id (o.price * o.qty) old e.reserved found in
      let dropped = total-erase_le (λ n. n) o.order_id written in
      read-AllOk (Released o old e) (record_of o.order_id e) _ (λ rec.
        elim (Bool-cases (o.qty == 0)) [
          | inl gone ↦
              rw gone (record { portfolio = refl; reserved = omega (arith, moved, dropped) })
          | inr left ↦ rw left (record { portfolio = refl; reserved = omega (arith, moved) })
        ])

  filled-IsFunded :
      (o : RestingOrder) (qty fee : ℕ) (e a b : Engine)
      → qty ≤ o.qty
      → IsFunded e
      → Paid (o.price * qty) fee e a
      → Released (record o { qty = o.qty - qty; filled = o.filled + qty }) (o.price * o.qty) a b
      → IsFunded b
  filled-IsFunded o qty fee e a b le h paid released =
      let same : reserved_total a ≡ reserved_total e = ap (total (λ n. n)) paid.reserved in
      let booked = parts_of_eq paid.fees in
      let split : o.price * o.qty ≡ o.price * (qty + (o.qty - qty)) =
        ap (λ n. o.price * n) (omega arith) in
      record {
        covered =
            rw released.portfolio
              (omega (int_laws, h.covered, paid.cash, booked, released.reserved, same, split));
        charged = rw released.portfolio (omega (int_laws, h.charged, booked));
      }

  pub maker_fill-AllOk :
      (o : RestingOrder) (wanted : Qty) (e : Engine)
      → lookup o.order_id e.reserved ≡ some (o.price * o.qty)
      → IsFunded e
      → AllOk IsFunded (maker_fill cfg o wanted e)
  unfolding maker_fill
  maker_fill-AllOk o wanted e found h =
      let qty = min wanted o.qty in
      let after : RestingOrder = record o { qty = o.qty - qty; filled = o.filled + qty } in
      elim (Bool-cases (qty == 0)) [
        | inl nothing ↦ rw nothing h
        | inr some_left ↦ rw some_left (
            >>=-AllOk IsFunded IsFunded _ _
              (>>=-AllOk (Paid (o.price * qty) _ e) IsFunded (book_fill cfg _ e) _
                (book_fill-Paid cfg _ e)
                (λ a paid.
                  AllOk-weaken (Released after (o.price * o.qty) a) IsFunded
                    (settle_order cfg after a)
                    (settle_order-Released after (o.price * o.qty) a (rw paid.reserved found))
                    (λ b released. filled-IsFunded o qty _ e a b (ground arith) h paid released)))
              (λ b funded. Reserving-IsFunded b _ (sampled cfg true b) funded))
      ]

  -- A fill of a resting order leaves the reservations covered, where its reservation is its price
  -- times what it has left: what the fill costs comes out of that reservation.
  pub maker_fill-IsFunded :
      (o : RestingOrder) (wanted : Qty) (e a : Engine)
      → lookup o.order_id e.reserved ≡ some (o.price * o.qty)
      → IsFunded e
      → maker_fill cfg o wanted e ≡ ok a
      → IsFunded a
  maker_fill-IsFunded o wanted e a found h done =
      AllOk-value IsFunded _ a (maker_fill-AllOk o wanted e found h) done
