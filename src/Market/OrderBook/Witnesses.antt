-- ===== src/Market/OrderBook/Witnesses.antt =====
-- Concrete books, deltas and snapshots for the theorems on the order book.
use kalshi_quant_research.Prelude.{
  ℕ, ◌≡◌, refl, ◌↔◌, ◌⊎◌, true, none, [], ◌∷◌, arith, All, Error, ok, err, is_ok, nat_key,
  string_key,
}
use kalshi_quant_research.Prelude.Int.{pos, negsuc, ◌+ℤ◌}
use kalshi_quant_research.Market.Contracts.{Price, Side, yes_side, no_side}
use kalshi_quant_research.Market.OrderBook.{
  Bids, OrderBook, bids_of, with_bids, new_book, apply_snapshot, apply_delta, check_price, set_qty,
  validated, validated_from, asks, best_bid, as_levels, spread, is_crossed,
}
use kalshi_quant_research.Market.OrderBook.Invariant.{IsValid}
use kalshi_quant_research.Market.OrderBook.Delta.{
  resting, Fits, apply_delta_writes, apply_delta_taken,
}
use kalshi_quant_research.Market.OrderBook.Snapshot.{listed, apply_snapshot_reads}
use kalshi_quant_research.Market.OrderBook.Canonical.{as_levels_canonical}
use kalshi_quant_research.Market.OrderBook.Persistence.{snapshot_levels, as_levels_round_trip}
use kalshi_quant_research.Market.OrderBook.Quotes.{
  Rising, IsOffer, bids_gap, is_not_positive, asks_ordered, spread_of_bids,
}

abbrev book_with : Bids → Bids → OrderBook
book_with y n = record { ticker = "T"; yes_bids = y; no_bids = n; last_seq = none; last_ts = none }

-- bids at 40 and 30 cents for YES, at 55 cents for NO
abbrev two_sided : OrderBook
two_sided = book_with ((4000, 10) ∷ (3000, 5) ∷ []) ((5500, 7) ∷ [])

abbrev reordered : OrderBook
reordered = book_with ((3000, 5) ∷ (4000, 10) ∷ []) ((5500, 7) ∷ [])

two_sided-IsValid : IsValid two_sided
two_sided-IsValid = record {
  yes_valid = ((ground arith, (ground arith, tt)), (refl, (refl, tt)));
  no_valid = ((ground arith, tt), (refl, tt));
}

reordered-IsValid : IsValid reordered
reordered-IsValid = record {
  yes_valid = ((ground arith, (ground arith, tt)), (refl, (refl, tt)));
  no_valid = ((ground arith, tt), (refl, tt));
}

abbrev thinned : OrderBook
thinned = book_with ((4000, 4) ∷ (3000, 5) ∷ []) ((5500, 7) ∷ [])

thinned-taken : apply_delta yes_side (pos 4000) (negsuc 5) two_sided ≡ ok thinned
unfolding apply_delta check_price set_qty ◌+ℤ◌
thinned-taken = refl

apply_delta_writes_example :
    (pos (resting thinned yes_side 4000) ≡ pos (resting two_sided yes_side 4000) +ℤ negsuc 5)
    × (resting thinned yes_side 3000 ≡ resting two_sided yes_side 3000)
    × ((p : ℕ) → resting thinned no_side p ≡ resting two_sided no_side p)
    × (thinned ≡ with_bids two_sided yes_side (bids_of thinned yes_side))
apply_delta_writes_example =
    apply_delta_writes yes_side (pos 4000) (negsuc 5) two_sided thinned 3000 two_sided-IsValid
      thinned-taken (ground arith)

apply_delta_taken_example :
    (Fits (pos 4000) (negsuc 5) (resting two_sided yes_side 4000)
      ↔ (is_ok (apply_delta yes_side (pos 4000) (negsuc 5) two_sided) ≡ true))
    × ((is_ok (apply_delta yes_side (pos 4000) (negsuc 5) two_sided) ≡ true)
        ⊎ (apply_delta yes_side (pos 4000) (negsuc 5) two_sided ≡ err Error.book_inconsistency))
apply_delta_taken_example = apply_delta_taken yes_side (pos 4000) (negsuc 5) two_sided

snapshot-taken :
    apply_snapshot
      ((pos 4000, pos 10) ∷ (pos 3000, pos 5) ∷ [])
      ((pos 5500, pos 7) ∷ [])
      (new_book "T")
    ≡ ok two_sided
unfolding apply_snapshot validated validated_from check_price
snapshot-taken = refl

apply_snapshot_reads_example :
    IsValid two_sided
    × ((p : ℕ)
        → resting two_sided yes_side p ≡ listed p ((pos 4000, pos 10) ∷ (pos 3000, pos 5) ∷ []))
    × ((p : ℕ) → resting two_sided no_side p ≡ listed p ((pos 5500, pos 7) ∷ []))
apply_snapshot_reads_example =
    apply_snapshot_reads ((pos 4000, pos 10) ∷ (pos 3000, pos 5) ∷ []) ((pos 5500, pos 7) ∷ [])
      (new_book "T") two_sided snapshot-taken

same_quantities : (s : Side) (p : ℕ) → resting two_sided s p ≡ resting reordered s p
same_quantities yes_side p = ground arith
same_quantities no_side p = refl

as_levels_canonical_example : as_levels two_sided ≡ as_levels reordered
as_levels_canonical_example =
    as_levels_canonical two_sided reordered two_sided-IsValid reordered-IsValid same_quantities

asks_ordered_example : Rising (asks no_side two_sided) × All IsOffer (asks no_side two_sided)
asks_ordered_example = asks_ordered no_side two_sided two_sided-IsValid

spread_of_bids_example :
    (spread two_sided ≡ bids_gap (best_bid yes_side two_sided) (best_bid no_side two_sided))
    × (is_crossed two_sided ≡ is_not_positive (spread two_sided))
spread_of_bids_example = spread_of_bids two_sided two_sided-IsValid

as_levels_round_trip_example :
    (b' : OrderBook) × (apply_snapshot
        (snapshot_levels (as_levels two_sided).0)
        (snapshot_levels (as_levels two_sided).1)
        thinned
      ≡ ok b')
    × IsValid b'
    × ((s : Side) (p : Price) → resting b' s p ≡ resting two_sided s p)
    × (as_levels b' ≡ as_levels two_sided)
as_levels_round_trip_example = as_levels_round_trip two_sided thinned two_sided-IsValid
