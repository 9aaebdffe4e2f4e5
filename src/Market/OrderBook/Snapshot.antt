-- ===== src/Market/OrderBook/Snapshot.antt =====
-- `apply_snapshot` (`_validated`): the new book is valid, and holds what the snapshot lists.
use kalshi_quant_research.Prelude.{
  ℕ, ◌+◌, ◌<◌, ◌≡◌, false, List, [], ◌∷◌, arith, ◌==◌, if◌then◌else◌, ==_iff, ok, nat_key,
  string_key,
}
use kalshi_quant_research.Prelude.Int.{ℤ, pos_part}
use kalshi_quant_research.Prelude.Dict.{contains, get_or, insert, lookup-insert}
use kalshi_quant_research.Market.Contracts.{Price, yes_side, no_side, price_scale}
use kalshi_quant_research.Market.OrderBook.{
  Bids, OrderBook, check_price, validated_from, apply_snapshot,
}
use kalshi_quant_research.Market.OrderBook.Invariant.{IsValid, IsValidSide, insert-IsValidSide}
use kalshi_quant_research.Market.OrderBook.Delta.{check_price-eq-ok, resting}

-- the quantity that a list of levels gives to a price, over all its levels there
abbrev pub listed : Price → List (ℤ × ℤ) → ℕ
listed p [] = 0
listed p ((price, qty) ∷ levels) =
    (if pos_part price == p then pos_part qty else 0) + listed p levels

abbrev read_level : ℕ → ℤ → Bids → Bids
read_level p qty out = if pos_part qty == 0 then out else insert p (pos_part qty) out

-- one round of the loop that went through
validated_from-cons :
    (price qty : ℤ) (levels : List (ℤ × ℤ)) (out d : Bids)
    → validated_from out ((price, qty) ∷ levels) ≡ ok d
    → (p : ℕ) × (check_price price ≡ ok p)
      × (contains p out ≡ false)
      × (validated_from (read_level p qty out) levels ≡ ok d)
unfolding validated_from
validated_from-cons price qty levels out d e = ground arith

read_level-IsValidSide :
    (p : ℕ) (qty : ℤ) (out : Bids)
    → 0 < p
    → p < price_scale
    → IsValidSide out
    → IsValidSide (read_level p qty out)
read_level-IsValidSide p qty out lo hi h = ground (arith, insert-IsValidSide p (pos_part qty) out)

read_level-get_or :
    (p j : ℕ) (qty : ℤ) (out : Bids)
    → contains p out ≡ false
    → get_or j 0 (read_level p qty out) ≡ (if p == j then pos_part qty else 0) + get_or j 0 out
read_level-get_or p j qty out new = ground (arith, lookup-insert p j (pos_part qty) out, ==_iff p j)

validated_from-IsValidSide :
    (levels : List (ℤ × ℤ)) (out d : Bids)
    → IsValidSide out
    → validated_from out levels ≡ ok d
    → IsValidSide d
unfolding validated_from
validated_from-IsValidSide [] out d h e = ground arith
validated_from-IsValidSide ((price, qty) ∷ levels) out d h e =
    let (p, checked, new, rest) = validated_from-cons price qty levels out d e in
    let (_, lo, hi) = check_price-eq-ok price p checked in
    validated_from-IsValidSide levels (read_level p qty out) d
      (read_level-IsValidSide p qty out lo hi h) rest

validated_from-get_or :
    (j : ℕ) (levels : List (ℤ × ℤ)) (out d : Bids)
    → validated_from out levels ≡ ok d
    → get_or j 0 d ≡ get_or j 0 out + listed j levels
unfolding validated_from
validated_from-get_or j [] out d e = ground arith
validated_from-get_or j ((price, qty) ∷ levels) out d e =
    let (p, checked, new, rest) = validated_from-cons price qty levels out d e in
    let (is_p, _, _) = check_price-eq-ok price p checked in
    rw is_p (
      omega (
        arith,
        validated_from-get_or j levels (read_level p qty out) d rest,
        read_level-get_or p j qty out new,
      ))

apply_snapshot-eq-ok :
    (yes_levels no_levels : List (ℤ × ℤ)) (b b' : OrderBook)
    → apply_snapshot yes_levels no_levels b ≡ ok b'
    → (validated_from [] yes_levels ≡ ok b'.yes_bids)
      × (validated_from [] no_levels ≡ ok b'.no_bids)
unfolding apply_snapshot
apply_snapshot-eq-ok yes_levels no_levels b b' e = ground arith

-- Whatever the book was, a snapshot that goes through leaves a valid book whose quantity at each
-- price of each side is the total that the snapshot lists there (zero where it lists nothing).
pub apply_snapshot_reads :
    (yes_levels no_levels : List (ℤ × ℤ)) (b b' : OrderBook)
    → apply_snapshot yes_levels no_levels b ≡ ok b'
    → IsValid b'
      × ((p : Price) → resting b' yes_side p ≡ listed p yes_levels)
      × ((p : Price) → resting b' no_side p ≡ listed p no_levels)
apply_snapshot_reads yes_levels no_levels b b' e =
    let (y, n) = apply_snapshot-eq-ok yes_levels no_levels b b' e in
    (
      record {
        yes_valid = validated_from-IsValidSide yes_levels [] b'.yes_bids (tt, tt) y;
        no_valid = validated_from-IsValidSide no_levels [] b'.no_bids (tt, tt) n;
      },
      λ p. omega (arith, validated_from-get_or p yes_levels [] b'.yes_bids y),
      λ p. omega (arith, validated_from-get_or p no_levels [] b'.no_bids n),
    )
