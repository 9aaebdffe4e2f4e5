-- ===== src/Backtest/Fills/Ordering.antt =====
-- The order of the fill models: pessimistic <= queue(1, 0) <= queue(a, c) <= optimistic, for one
-- resting order and the same prints and snapshots.
use kalshi_quant_research.Prelude.{
  ℕ, ◌+◌, ◌-◌, ◌≤◌, min, ◌≡◌, refl, sym, ◌∙◌, inl, inr, true, false, Option, some, List, [], ◌∷◌,
  arith, ◌==◌, Bool-cases, nat_key, string_key,
}
use kalshi_quant_research.Market.Contracts.{Qty, Trade}
use kalshi_quant_research.Market.OrderBook.{OrderBook}
use kalshi_quant_research.Backtest.Fills.{
  RestingOrder, QueueModel, optimistic, pessimistic, queue, level_size, on_place, on_trade, on_book,
}

-- What a resting order meets.
pub data MarketEvent : Type 0 where
  print_of : Trade → MarketEvent
  snapshot_of : OrderBook → MarketEvent

-- `_maker_fill` on the order: `qty = min(qty, o.qty); o.qty -= qty; o.filled += qty`
abbrev pub take_fill : RestingOrder × Qty → RestingOrder
take_fill (o, got) = record o { qty = o.qty - min got o.qty; filled = o.filled + min got o.qty }

pub meet : QueueModel → MarketEvent → RestingOrder → RestingOrder
meet m (print_of t) o = take_fill (on_trade m o t)
meet m (snapshot_of b) o = take_fill (on_book m o b)

pub meet_all : QueueModel → List MarketEvent → RestingOrder → RestingOrder
meet_all m [] o = o
meet_all m (e ∷ es) o = meet_all m es (meet m e o)

-- `m` is no more generous than `n`: it ignores prints at the price, or `n` puts every order at the
-- front of the queue, or it joins further back and credits fewer cancellations.
pub data NoMoreGenerous (m n : QueueModel) : Type 0 where
  ignores_prints : m.through_only ≡ true → NoMoreGenerous m n
  behind_front : n.through_only ≡ false → ((k : ℕ) → n.alpha_of k ≡ 0) → NoMoreGenerous m n
  further_back :
      n.through_only ≡ false
      → ((k : ℕ) → n.alpha_of k ≤ m.alpha_of k)
      → ((k : ℕ) → m.cancels_of k ≤ n.cancels_of k)
      → NoMoreGenerous m n

-- how the queues of the two orders compare while the second is unfilled
data Queued (m n : QueueModel) (o p : RestingOrder) : Type 0 where
  done : p.qty ≡ 0 → Queued m n o p
  ignoring : m.through_only ≡ true → Queued m n o p
  at_front : n.through_only ≡ false → p.ahead ≡ 0 → Queued m n o p
  behind :
      m.through_only ≡ false
      → n.through_only ≡ false
      → ((k : ℕ) → m.cancels_of k ≤ n.cancels_of k)
      → p.ahead ≤ o.ahead
      → p.last_level_size ≡ o.last_level_size
      → p.traded_at_level_since ≡ o.traded_at_level_since
      → Queued m n o p

-- the same order under the two models
record Ranked (m n : QueueModel) (o p : RestingOrder) : Type 0 where
  same_side : p.side ≡ o.side
  same_price : p.price ≡ o.price
  less_left : p.qty ≤ o.qty
  same_total : o.filled + o.qty ≡ p.filled + p.qty
  queued : Queued m n o p

print-less :
    (m n : QueueModel) (o p : RestingOrder) (t : Trade)
    → p.side ≡ o.side
    → p.price ≡ o.price
    → p.qty ≤ o.qty
    → Queued m n o p
    → (meet n (print_of t) p).qty ≤ (meet m (print_of t) o).qty
unfolding meet on_trade
print-less m n o p t s x l (done e) = ground arith
print-less m n o p t s x l (ignoring e) = ground arith
print-less m n o p t s x l (at_front e f) = ground arith
print-less m n o p t s x l (behind u e f g h i) = ground arith

print-Queued :
    (m n : QueueModel) (o p : RestingOrder) (t : Trade)
    → p.side ≡ o.side
    → p.price ≡ o.price
    → p.qty ≤ o.qty
    → ((meet n (print_of t) p).qty == 0) ≡ false
    → Queued m n o p
    → Queued m n (meet m (print_of t) o) (meet n (print_of t) p)
unfolding meet on_trade
print-Queued m n o p t s x l left (done e) = done (ground arith)
print-Queued m n o p t s x l left (ignoring e) = ignoring e
print-Queued m n o p t s x l left (at_front e f) = at_front e (ground arith)
print-Queued m n o p t s x l left (behind u e f g h i) =
    behind u e f (ground arith) (ground arith) (ground arith)

book-less :
    (m n : QueueModel) (o p : RestingOrder) (b : OrderBook)
    → p.side ≡ o.side
    → p.price ≡ o.price
    → p.qty ≤ o.qty
    → (meet n (snapshot_of b) p).qty ≤ (meet m (snapshot_of b) o).qty
unfolding meet on_book
book-less m n o p b s x l = ground arith

book-Queued :
    (m n : QueueModel) (o p : RestingOrder) (b : OrderBook)
    → p.side ≡ o.side
    → p.price ≡ o.price
    → ((meet n (snapshot_of b) p).qty == 0) ≡ false
    → Queued m n o p
    → Queued m n (meet m (snapshot_of b) o) (meet n (snapshot_of b) p)
unfolding meet on_book
book-Queued m n o p b s x left (done e) = done (ground arith)
book-Queued m n o p b s x left (ignoring e) = ignoring e
book-Queued m n o p b s x left (at_front e f) = at_front e (ground arith)
book-Queued m n o p b s x left (behind u e f g h i) =
    behind u e f
      (ground (
        arith,
        f (p.last_level_size - p.traded_at_level_since - level_size (some b) p.side p.price),
      ))
      (ground arith) (ground arith)

meet-less :
    (m n : QueueModel) (e : MarketEvent) (o p : RestingOrder)
    → Ranked m n o p
    → (meet n e p).qty ≤ (meet m e o).qty
meet-less m n (print_of t) o p r =
    print-less m n o p t r.same_side r.same_price r.less_left r.queued
meet-less m n (snapshot_of b) o p r = book-less m n o p b r.same_side r.same_price r.less_left

meet-Queued :
    (m n : QueueModel) (e : MarketEvent) (o p : RestingOrder)
    → Ranked m n o p
    → ((meet n e p).qty == 0) ≡ false
    → Queued m n (meet m e o) (meet n e p)
meet-Queued m n (print_of t) o p r left =
    print-Queued m n o p t r.same_side r.same_price r.less_left left r.queued
meet-Queued m n (snapshot_of b) o p r left =
    book-Queued m n o p b r.same_side r.same_price left r.queued

-- an event keeps the side and the price of an order, and moves what it takes into `filled`
meet_keeps :
    (m : QueueModel) (e : MarketEvent) (o : RestingOrder)
    → ((meet m e o).side ≡ o.side)
      × ((meet m e o).price ≡ o.price)
      × ((meet m e o).filled + (meet m e o).qty ≡ o.filled + o.qty)
unfolding meet on_trade on_book
meet_keeps m (print_of t) o = (ground arith, ground arith, ground arith)
meet_keeps m (snapshot_of b) o = (ground arith, ground arith, ground arith)

meet-Ranked :
    (m n : QueueModel) (e : MarketEvent) (o p : RestingOrder)
    → Ranked m n o p
    → Ranked m n (meet m e o) (meet n e p)
meet-Ranked m n e o p r =
    let (o_side, o_price, o_total) = meet_keeps m e o in
    let (p_side, p_price, p_total) = meet_keeps n e p in
    record {
      same_side = p_side ∙ r.same_side ∙ sym o_side;
      same_price = p_price ∙ r.same_price ∙ sym o_price;
      less_left = meet-less m n e o p r;
      same_total = o_total ∙ r.same_total ∙ sym p_total;
      queued = elim (Bool-cases ((meet n e p).qty == 0)) [
        | inl empty ↦ done (ground arith)
        | inr left ↦ meet-Queued m n e o p r left
      ];
    }

meet_all-Ranked :
    (m n : QueueModel) (es : List MarketEvent) (o p : RestingOrder)
    → Ranked m n o p
    → Ranked m n (meet_all m es o) (meet_all n es p)
unfolding meet_all
meet_all-Ranked m n [] o p r = r
meet_all-Ranked m n (e ∷ es) o p r =
    meet_all-Ranked m n es (meet m e o) (meet n e p) (meet-Ranked m n e o p r)

on_place-Queued :
    (m n : QueueModel) (o : RestingOrder) (book : Option OrderBook)
    → NoMoreGenerous m n
    → Queued m n (on_place m o book) (on_place n o book)
unfolding on_place
on_place-Queued m n o book (ignores_prints e) = ignoring e
on_place-Queued m n o book (behind_front e f) = at_front e (f _)
on_place-Queued m n o book (further_back e f g) = elim (Bool-cases m.through_only) [
  | inl through ↦ ignoring through
  | inr u ↦ behind u e g (f _) refl refl
]

on_place-Ranked :
    (m n : QueueModel) (o : RestingOrder) (book : Option OrderBook)
    → NoMoreGenerous m n
    → Ranked m n (on_place m o book) (on_place n o book)
unfolding on_place
on_place-Ranked m n o book g = record {
  same_side = refl;
  same_price = refl;
  less_left = omega arith;
  same_total = refl;
  queued = on_place-Queued m n o book g;
}

-- Placed against the same book, and meeting the same prints and snapshots, an order has at every
-- instant filled no more under a model than under one that is at least as generous.
pub fills_ordered :
    (m n : QueueModel) (o : RestingOrder) (book : Option OrderBook) (es : List MarketEvent)
    → NoMoreGenerous m n
    → (meet_all m es (on_place m o book)).filled ≤ (meet_all n es (on_place n o book)).filled
fills_ordered m n o book es g =
    let r =
      meet_all-Ranked m n es (on_place m o book) (on_place n o book)
        (on_place-Ranked m n o book g) in
    omega (arith, r.less_left, r.same_total)

abbrev pub filled_under : QueueModel → RestingOrder → Option OrderBook → List MarketEvent → Qty
filled_under m o book es = (meet_all m es (on_place m o book)).filled

-- The three families of the module are ordered, for every share `alpha` of at most one and every
-- share of cancellations: pessimistic <= queue(1, 0) <= queue(alpha, c) <= optimistic.
pub model_families_ordered :
    (alpha cancels : ℕ → ℕ) (o : RestingOrder) (book : Option OrderBook) (es : List MarketEvent)
    → ((k : ℕ) → alpha k ≤ k)
    → (filled_under pessimistic o book es ≤ filled_under (queue (λ k. k) (λ k. 0)) o book es)
      × (filled_under (queue (λ k. k) (λ k. 0)) o book es
          ≤ filled_under (queue alpha cancels) o book es)
      × (filled_under (queue alpha cancels) o book es ≤ filled_under optimistic o book es)
model_families_ordered alpha cancels o book es share = (
  fills_ordered pessimistic (queue (λ k. k) (λ k. 0)) o book es (ignores_prints refl),
  fills_ordered (queue (λ k. k) (λ k. 0)) (queue alpha cancels) o book es
      (further_back refl share (λ k. omega arith)),
  fills_ordered (queue alpha cancels) optimistic o book es (behind_front refl (λ k. refl)),
)
