-- ===== src/Market/OrderBook/Delta.antt =====
-- `apply_delta` on each branch: what is refused, and what the book holds afterwards.
use kalshi_quant_research.Prelude.{
  ℕ, ◌<◌, ◌≡◌, refl, ◌≢◌, ◌↔◌, ◌⊎◌, true, arith, ==_iff, Error, ok, err, is_ok, nat_key, string_key,
}
use kalshi_quant_research.Prelude.Int.{ℤ, pos, pos_part, ◌+ℤ◌, ◌≤ℤ◌, ◌<ℤ◌}
use kalshi_quant_research.Prelude.Dict.{get_or, lookup-insert, lookup-erase_ne, lookup-erase_self}
use kalshi_quant_research.Market.Contracts.{Price, Side, yes_side, no_side, opposite, price_scale}
use kalshi_quant_research.Market.OrderBook.{
  Bids, OrderBook, bids_of, with_bids, check_price, set_qty, apply_delta,
}
use kalshi_quant_research.Market.OrderBook.Invariant.{
  IsValid, IsValidSide, bids_of-IsValidSide, with_bids-IsValid, insert-IsValidSide,
  erase-IsValidSide,
}

-- the quantity resting on a side at a price
abbrev pub resting : OrderBook → Side → Price → ℕ
resting b s p = get_or p 0 (bids_of b s)

-- A delta that a book with this quantity can take.
abbrev pub Fits : ℤ → ℤ → ℕ → Type 0
Fits price delta old = (pos 0 <ℤ price) × (price <ℤ pos price_scale) × (pos 0 ≤ℤ pos old +ℤ delta)

-- A checked price is the natural number that was given, strictly inside ($0, $1).
pub check_price-eq-ok :
    (price : ℤ) (p : ℕ) → check_price price ≡ ok p → (price ≡ pos p) × (0 < p) × (p < price_scale)
unfolding check_price
check_price-eq-ok price p e = ground arith

set_qty-IsValidSide :
    (p : ℕ) (q : ℤ) (d d' : Bids)
    → 0 < p
    → p < price_scale
    → IsValidSide d
    → set_qty p q d ≡ ok d'
    → IsValidSide d'
unfolding set_qty
set_qty-IsValidSide p q d d' lo hi h e =
    ground (arith, erase-IsValidSide p d h, insert-IsValidSide p (pos_part q) d)

set_qty-lookup :
    (p : ℕ) (q : ℤ) (d d' : Bids)
    → IsValidSide d
    → set_qty p q d ≡ ok d'
    → (pos (get_or p 0 d') ≡ q) × ((j : ℕ) → p ≢ j → get_or j 0 d' ≡ get_or j 0 d)
unfolding set_qty
set_qty-lookup p q d d' h e = (
  ground (arith, lookup-erase_self p d h.1, lookup-insert p p (pos_part q) d, ==_iff p p),
  λ j ne. ground (arith, lookup-erase_ne p j d ne, lookup-insert p j (pos_part q) d, ==_iff p j),
)

-- what a delta that went through has checked and written
apply_delta-eq-ok :
    (s : Side) (price delta : ℤ) (b b' : OrderBook)
    → apply_delta s price delta b ≡ ok b'
    → (p : ℕ) × (d : Bids) × (check_price price ≡ ok p)
      × (set_qty p (pos (resting b s p) +ℤ delta) (bids_of b s) ≡ ok d)
      × (b' ≡ with_bids b s d)
unfolding apply_delta
apply_delta-eq-ok s price delta b b' e = ground arith

-- A delta that goes through keeps the invariant of the book.
pub apply_delta-IsValid :
    (s : Side) (price delta : ℤ) (b b' : OrderBook)
    → IsValid b
    → apply_delta s price delta b ≡ ok b'
    → IsValid b'
apply_delta-IsValid s price delta b b' h e =
    let (p, d, checked, written, done) = apply_delta-eq-ok s price delta b b' e in
    let (_, lo, hi) = check_price-eq-ok price p checked in
    rw done (
      with_bids-IsValid b s d h
        (set_qty-IsValidSide p _ (bids_of b s) d lo hi (bids_of-IsValidSide b s h) written))

resting-with_bids_self :
    (b : OrderBook) (s : Side) (d : Bids) (p : ℕ) → resting (with_bids b s d) s p ≡ get_or p 0 d
resting-with_bids_self b yes_side d p = refl
resting-with_bids_self b no_side d p = refl

resting-with_bids-opposite :
    (b : OrderBook) (s : Side) (d : Bids) (p : ℕ)
    → resting (with_bids b s d) (opposite s) p ≡ resting b (opposite s) p
resting-with_bids-opposite b yes_side d p = refl
resting-with_bids-opposite b no_side d p = refl

with_bids_self :
    (b : OrderBook) (s : Side) (d : Bids)
    → with_bids b s d ≡ with_bids b s (bids_of (with_bids b s d) s)
with_bids_self b yes_side d = refl
with_bids_self b no_side d = refl

-- A delta that goes through on a valid book adds exactly `delta` to the quantity at its price and
-- changes no other price `q` of that side. Nothing else of the book changes: neither the other side nor
-- its ticker, its last number or its last time.
pub apply_delta_writes :
    (s : Side) (price delta : ℤ) (b b' : OrderBook) (q : ℕ)
    → IsValid b
    → apply_delta s price delta b ≡ ok b'
    → pos_part price ≢ q
    → (pos (resting b' s (pos_part price)) ≡ pos (resting b s (pos_part price)) +ℤ delta)
      × (resting b' s q ≡ resting b s q)
      × ((p : ℕ) → resting b' (opposite s) p ≡ resting b (opposite s) p)
      × (b' ≡ with_bids b s (bids_of b' s))
apply_delta_writes s price delta b b' q h e other =
    let (p, d, checked, written, done) = apply_delta-eq-ok s price delta b b' e in
    let (is_p, _, _) = check_price-eq-ok price p checked in
    let (here, there) = set_qty-lookup p _ (bids_of b s) d (bids_of-IsValidSide b s h) written in
    rw (done, is_p)
      (
        rw resting-with_bids_self here,
        rw resting-with_bids_self (there q (rw is_p at other)),
        λ j. resting-with_bids-opposite b s d j,
        with_bids_self b s d,
      )

-- A delta is taken exactly when its price lies strictly inside ($0, $1) and the quantity that it
-- leaves is not negative; any other raises `OrderBookInconsistency`.
pub apply_delta_taken :
    (s : Side) (price delta : ℤ) (b : OrderBook)
    → (Fits price delta (resting b s (pos_part price))
        ↔ (is_ok (apply_delta s price delta b) ≡ true))
      × ((is_ok (apply_delta s price delta b) ≡ true)
          ⊎ (apply_delta s price delta b ≡ err Error.book_inconsistency))
unfolding apply_delta check_price set_qty
apply_delta_taken s price delta b = ((λ fits. ground arith, λ taken. ground arith), ground arith)
