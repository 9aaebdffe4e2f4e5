-- ===== src/Backtest/Engine/Tidy.antt =====
-- The numbers and the reservations of the resting orders, through the handlers.
use kalshi_quant_research.Prelude.{
  ℕ, ◌+◌, ◌-◌, ◌*◌, ◌≤◌, ◌<◌, min, String, ◌≡◌, refl, ap, ◌∙◌, inl, inr, Bool, true, ◌||◌, some,
  List, [], arith, ltb, leb, ◌==◌, Bool-cases, AllOk, AllOk-weaken, read-AllOk, >>=-AllOk, nat_key,
  string_key,
}
use kalshi_quant_research.Prelude.Dict.{
  Dict, lookup, insert, erase, lookup-insert_self, lookup-insert_ne, get_or-insert_self,
  lookup-erase_ne, insert-Distinct,
}
use kalshi_quant_research.Market.Contracts.{Qty}
use kalshi_quant_research.Backtest.Portfolio.{buy}
use kalshi_quant_research.Backtest.Events.{Priority}
use kalshi_quant_research.Backtest.Fills.{RestingOrder}
use kalshi_quant_research.Backtest.Engine.State.{
  BacktestConfig, OrderStatus, OrderRecord, FillRecord, Payload, Engine, schedule, record_of,
  sample_equity,
}
use kalshi_quant_research.Backtest.Engine.Matching.{
  ids_of, replace_order, without_order, put_order, remove_resting, drop_resting, book_fill,
  settle_order, maker_fill,
}
use kalshi_quant_research.Backtest.Engine.Reserved.{
  count, ids_in, queued, held, IsTidy, queued-push, count-replace, count-without, SameBut,
  replace-All, without-All,
}
use kalshi_quant_research.Backtest.Engine.Owners.{orders_of, held-insert, orders-All, put-Entries}

-- the parts of the state that a change of the rest leaves alone
pub record Apart (e a : Engine) : Type 0 where
  pub resting : a.resting ≡ e.resting
  pub reserved : a.reserved ≡ e.reserved
  pub next : a.next_order_id ≡ e.next_order_id
  pub waiting : (i : ℕ) → queued i a.heap ≡ queued i e.heap

pub Apart-IsTidy : (out : List ℕ) (e a : Engine) → Apart e a → IsTidy out e → IsTidy out a
Apart-IsTidy out e a same h = record {
  once = λ i. rw (same.resting, same.next, same.waiting i) (h.once i);
  reserved = rw (same.resting, same.reserved) h.reserved;
  keys = rw same.resting h.keys;
}

pub Apart-trans : (e a b : Engine) → Apart e a → Apart a b → Apart e b
Apart-trans e a b h k = record {
  resting = k.resting ∙ h.resting;
  reserved = k.reserved ∙ h.reserved;
  next = k.next ∙ h.next;
  waiting = λ i. k.waiting i ∙ h.waiting i;
}

-- what is scheduled is no order
pub schedule-Apart :
    (ts : ℕ) (p : Priority) (x : Payload) (e : Engine)
    → ids_in x ≡ []
    → AllOk (Apart e) (schedule ts p x e)
unfolding schedule
schedule-Apart ts p x e no_order = elim (Bool-cases (ltb ts e.now)) [
  | inl past ↦ rw (past, AllOk) tt
  | inr due ↦
      rw (due, AllOk)
        (record {
          resting = refl;
          reserved = refl;
          next = refl;
          waiting = λ i. omega (arith, queued-push i _ e.heap, ap (λ ids. count i ids) no_order);
        })
]

-- what is scheduled is an order that neither waits nor rests
pub schedule-IsTidy :
    (ts : ℕ) (p : Priority) (x : Payload) (e : Engine)
    → IsTidy (ids_in x) e
    → AllOk (IsTidy []) (schedule ts p x e)
unfolding schedule
schedule-IsTidy ts p x e h = elim (Bool-cases (ltb ts e.now)) [
  | inl past ↦ rw (past, AllOk) tt
  | inr due ↦
      rw (due, AllOk)
        (record {
          once = λ i. omega (arith, h.once i, queued-push i _ e.heap);
          reserved = h.reserved;
          keys = h.keys;
        })
]

-- an order that rests in its market
abbrev pub Rests : RestingOrder → Engine → Type 0
Rests o e = 0 < count o.order_id (ids_of (orders_of o.ticker e.resting))

-- A number that rests in a market rests nowhere else.
only_here :
    (o : RestingOrder) (e : Engine)
    → IsTidy [] e
    → Rests o e
    → held o.order_id e.resting ≤ count o.order_id (ids_of (orders_of o.ticker e.resting))
only_here o e h rests = let all = h.once o.order_id in ground arith

-- The order is written back, with its reservation.
pub put_order-IsTidy :
    (o : RestingOrder) (records : Dict ℕ OrderRecord) (reserved : Dict ℕ ℕ) (e : Engine)
    → IsTidy [] e
    → Rests o e
    → SameBut o.order_id e.reserved reserved
    → lookup o.order_id reserved ≡ some (o.price * o.qty)
    → let a = put_order o (record e { reserved = reserved; records = records }) in
      IsTidy [] a × Rests o a
unfolding put_order
put_order-IsTidy o records reserved e h rests same new =
    let os = orders_of o.ticker e.resting in
    let replaced = replace_order o os in
    (
      record {
        once = λ i.
            omega
              (arith, h.once i, held-insert i o.ticker replaced e.resting, count-replace i o os);
        reserved =
            put-Entries o.order_id e.reserved reserved o.ticker replaced e.resting same
              (only_here o e h rests) h.reserved
              (replace-All o.ticker e.reserved reserved o os same (refl, new)
                (orders-All o.ticker e.reserved e.resting h.reserved));
        keys = insert-Distinct o.ticker replaced e.resting h.keys;
      },
      rw (get_or-insert_self o.ticker replaced [] e.resting, count-replace o.order_id o os) rests,
    )

pub remove_resting-IsTidy :
    (o : RestingOrder) (e : Engine) → IsTidy [] e → Rests o e → IsTidy [] (remove_resting o e)
unfolding remove_resting
remove_resting-IsTidy o e h rests =
    let os = orders_of o.ticker e.resting in
    let left = without_order o.order_id os in
    let same : SameBut o.order_id e.reserved (erase o.order_id e.reserved) =
      λ j ne. lookup-erase_ne o.order_id j e.reserved ne in
    record {
      once = λ i.
          omega
            (arith, h.once i, held-insert i o.ticker left e.resting, count-without i o.order_id os);
      reserved =
          put-Entries o.order_id e.reserved _ o.ticker left e.resting same (only_here o e h rests)
            h.reserved
            (without-All o.ticker o.order_id e.reserved _ os same
              (orders-All o.ticker e.reserved e.resting h.reserved));
      keys = insert-Distinct o.ticker left e.resting h.keys;
    }

module _ (cfg : BacktestConfig) where
  pub sample-Apart : (force : Bool) (e : Engine) → Apart e (sample_equity cfg force e)
  unfolding sample_equity
  sample-Apart force e = elim (Bool-cases (force || leb e.next_sample e.now)) [
    | inl due ↦
        rw due (record { resting = refl; reserved = refl; next = refl; waiting = λ i. refl })
    | inr not_yet ↦
        rw not_yet (record { resting = refl; reserved = refl; next = refl; waiting = λ i. refl })
  ]

  pub book_fill-Apart : (r : FillRecord) (e : Engine) → AllOk (Apart e) (book_fill cfg r e)
  unfolding book_fill
  book_fill-Apart r e =
      read-AllOk (Apart e) (buy r.ticker r.side r.price r.qty r.fee_micro e.portfolio) _ (λ f.
        read-AllOk (Apart e) (record_of r.order_id e) _ (λ rec.
          AllOk-weaken (Apart _) (Apart e) (schedule _ _ _ _) (schedule-Apart _ _ _ _ refl)
            (λ a same. record {
              resting = same.resting;
              reserved = same.reserved;
              next = same.next;
              waiting = same.waiting;
            })))

  settle_order-IsTidy :
      (o : RestingOrder) (e : Engine)
      → IsTidy [] e
      → Rests o e
      → AllOk (IsTidy []) (settle_order cfg o e)
  unfolding settle_order
  settle_order-IsTidy o e h rests =
      let reserved = insert o.order_id (o.price * o.qty) e.reserved in
      read-AllOk (IsTidy []) (record_of o.order_id e) _ (λ rec.
        let put = λ (records : Dict ℕ OrderRecord).
          put_order-IsTidy o records reserved e h rests
            (λ j ne. lookup-insert_ne o.order_id j (o.price * o.qty) e.reserved ne)
            (lookup-insert_self o.order_id (o.price * o.qty) e.reserved) in
        elim (Bool-cases (o.qty == 0)) [
          | inl gone ↦ rw gone (remove_resting-IsTidy o _ (put _).0 (put _).1)
          | inr left ↦ rw left (put _).0
        ])

  pub maker_fill-IsTidy :
      (o : RestingOrder) (wanted : Qty) (e : Engine)
      → IsTidy [] e
      → Rests o e
      → AllOk (IsTidy []) (maker_fill cfg o wanted e)
  unfolding maker_fill
  maker_fill-IsTidy o wanted e h rests =
      let qty = min wanted o.qty in
      let after : RestingOrder = record o { qty = o.qty - qty; filled = o.filled + qty } in
      elim (Bool-cases (qty == 0)) [
        | inl nothing ↦ rw nothing h
        | inr some_left ↦ rw some_left (
            >>=-AllOk (IsTidy []) (IsTidy []) _ _
              (>>=-AllOk (Apart e) (IsTidy []) (book_fill cfg _ e) _ (book_fill-Apart _ e)
                (λ a same.
                  settle_order-IsTidy after a (Apart-IsTidy [] e a same h) (rw same.resting rests)))
              (λ b tidy. Apart-IsTidy [] b _ (sample-Apart true b) tidy))
      ]

  pub drop_resting-IsTidy :
      (o : RestingOrder) (status : OrderStatus) (reason : String) (e : Engine)
      → IsTidy [] e
      → Rests o e
      → AllOk (IsTidy []) (drop_resting o status reason e)
  unfolding drop_resting
  drop_resting-IsTidy o status reason e h rests =
      read-AllOk (IsTidy []) (record_of o.order_id e) _ (λ rec.
        remove_resting-IsTidy o _ (record { once = h.once; reserved = h.reserved; keys = h.keys })
          rests)
