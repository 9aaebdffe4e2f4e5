-- ===== src/Market/OrderBook/Persistence.antt =====
-- `as_levels`, the form in which a book is kept, and `apply_snapshot`, which reads it.
use kalshi_quant_research.Prelude.{
  ℕ, ◌<◌, ◌≡◌, refl, ap, ◌∙◌, inl, inr, Option, none, some, List, [], ◌∷◌, arith, ltb, ==_iff,
  Bool-cases, All, ok, nat_key, string_key,
}
use kalshi_quant_research.Prelude.Int.{ℤ, pos}
use kalshi_quant_research.Prelude.Dict.{lookup, get_or, insert, lookup-insert}
use kalshi_quant_research.Market.Contracts.{Price, Qty, Side, yes_side, no_side}
use kalshi_quant_research.Market.OrderBook.{
  Bids, OrderBook, check_price, validated_from, validated, apply_snapshot, place_desc, sorted_desc,
  as_levels,
}
use kalshi_quant_research.Market.OrderBook.Sorting.{
  Descending, lookup-sorted_desc, sorted_desc-Descending,
}
use kalshi_quant_research.Market.OrderBook.Invariant.{IsLevel, IsValid, IsValidSide}
use kalshi_quant_research.Market.OrderBook.Delta.{resting}
use kalshi_quant_research.Market.OrderBook.Snapshot.{listed, apply_snapshot_reads}
use kalshi_quant_research.Market.OrderBook.Canonical.{as_levels_canonical}

-- Levels as a snapshot lists them.
abbrev pub snapshot_levels : List (Price × Qty) → List (ℤ × ℤ)
snapshot_levels [] = []
snapshot_levels ((p, q) ∷ xs) = (pos p, pos q) ∷ snapshot_levels xs

place_desc-All :
    (P : Price × Qty → Type 0) (x : Price × Qty) (ys : Bids)
    → P x
    → All P ys
    → All P (place_desc x ys)
unfolding place_desc
place_desc-All P x [] h k = (h, tt)
place_desc-All P x (y ∷ ys) h k = elim (Bool-cases (ltb x.0 y.0)) [
  | inl lower ↦ rw (lower, All) (k.0, place_desc-All P x ys h k.1)
  | inr first ↦ rw (first, All) (h, k)
]

sorted_desc-All : (P : Price × Qty → Type 0) (d : Bids) → All P d → All P (sorted_desc d)
unfolding sorted_desc
sorted_desc-All P [] h = tt
sorted_desc-All P (x ∷ d) h = place_desc-All P x (sorted_desc d) h.0 (sorted_desc-All P d h.1)

-- a price above all of a list is not in it
lookup-above : (p : ℕ) (xs : Bids) → All (λ (y : Price × Qty). y.0 < p) xs → lookup p xs ≡ none
lookup-above p [] h = refl
lookup-above p ((i, w) ∷ xs) h = ground (arith, lookup-above p xs h.1, ==_iff i p)

-- what a list gives to a price, where each price is in it once
listed-of-get_or :
    (j : ℕ) (xs : Bids) → Descending xs → listed j (snapshot_levels xs) ≡ get_or j 0 xs
listed-of-get_or j [] h = refl
listed-of-get_or j ((p, q) ∷ xs) h =
    ground (arith, listed-of-get_or j xs h.1, lookup-above p xs h.0, ==_iff p j)

-- no price of the list has been read
abbrev Unread : Bids → Bids → Type 0
Unread out = All (λ (x : Price × Qty). lookup x.0 out ≡ none)

insert-Unread :
    (p q : ℕ) (out xs : Bids)
    → All (λ (y : Price × Qty). y.0 < p) xs
    → Unread out xs
    → Unread (insert p q out) xs
insert-Unread p q out [] h k = tt
insert-Unread p q out ((i, w) ∷ xs) h k = (
  ground (arith, lookup-insert p i q out, ==_iff p i, h.0, k.0),
  insert-Unread p q out xs h.1 k.1,
)

-- Levels of a valid side in descending order can be read.
validated_from-Descending :
    (xs out : Bids)
    → All IsLevel xs
    → Descending xs
    → Unread out xs
    → (d : Bids) × (validated_from out (snapshot_levels xs) ≡ ok d)
unfolding validated_from check_price
validated_from-Descending [] out levels h k = (out, refl)
validated_from-Descending ((p, q) ∷ xs) out levels h k =
    let (d, rest) =
      validated_from-Descending xs (insert p q out) levels.1 h.1
        (insert-Unread p q out xs h.0 k.1) in
    (d, ground (arith, rest, k.0, levels.0))

sorted_desc-read :
    (d : Bids) → IsValidSide d → (e : Bids) × (validated (snapshot_levels (sorted_desc d)) ≡ ok e)
unfolding validated
sorted_desc-read d h =
    validated_from-Descending (sorted_desc d) [] (sorted_desc-All IsLevel d h.0)
      (sorted_desc-Descending d h.1) (unread (sorted_desc d))
  where
    unread : (xs : Bids) → Unread [] xs
    unread [] = tt
    unread (x ∷ xs) = (refl, unread xs)

snapshot-read :
    (yes_levels no_levels : List (ℤ × ℤ)) (y n : Bids) (c : OrderBook)
    → validated yes_levels ≡ ok y
    → validated no_levels ≡ ok n
    → apply_snapshot yes_levels no_levels c ≡ ok (record c { yes_bids = y; no_bids = n })
unfolding apply_snapshot
snapshot-read yes_levels no_levels y n c h k = rw (h, k) refl

-- The levels of a valid book, in the form of `as_levels`, are a snapshot that any book takes; the book
-- that it leaves is valid, has the quantity of the first one at each price of each side, and the same
-- `as_levels`.
pub as_levels_round_trip :
    (b c : OrderBook)
    → IsValid b
    → (b' : OrderBook) × (apply_snapshot
          (snapshot_levels (as_levels b).0)
          (snapshot_levels (as_levels b).1)
          c
        ≡ ok b')
      × IsValid b'
      × ((s : Side) (p : Price) → resting b' s p ≡ resting b s p)
      × (as_levels b' ≡ as_levels b)
unfolding as_levels
as_levels_round_trip b c h =
    let (y, yes_read) = sorted_desc-read b.yes_bids h.yes_valid in
    let (n, no_read) = sorted_desc-read b.no_bids h.no_valid in
    let b' : OrderBook = record c { yes_bids = y; no_bids = n } in
    let taken =
      snapshot-read (snapshot_levels (sorted_desc b.yes_bids))
        (snapshot_levels (sorted_desc b.no_bids)) y n c yes_read no_read in
    let (valid, yes_same, no_same) =
      apply_snapshot_reads (snapshot_levels (sorted_desc b.yes_bids))
        (snapshot_levels (sorted_desc b.no_bids)) c b' taken in
    let same = same_resting b' yes_same no_same in
    (b', taken, valid, same, as_levels_canonical b' b valid h same)
  where
    kept :
        (d : Bids) (p : Price)
        → IsValidSide d
        → listed p (snapshot_levels (sorted_desc d)) ≡ get_or p 0 d
    kept d p k =
        listed-of-get_or p (sorted_desc d) (sorted_desc-Descending d k.1)
        ∙ ap (λ (o : Option Qty). elim o [ none ↦ 0 | some q ↦ q ]) (lookup-sorted_desc p d)

    same_resting :
        (b' : OrderBook)
        → ((p : Price)
            → resting b' yes_side p ≡ listed p (snapshot_levels (sorted_desc b.yes_bids)))
        → ((p : Price) → resting b' no_side p ≡ listed p (snapshot_levels (sorted_desc b.no_bids)))
        → (s : Side) (p : Price) → resting b' s p ≡ resting b s p
    same_resting b' y n yes_side p = y p ∙ kept b.yes_bids p h.yes_valid
    same_resting b' y n no_side p = n p ∙ kept b.no_bids p h.no_valid
