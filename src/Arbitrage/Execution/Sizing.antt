-- ===== src/Arbitrage/Execution/Sizing.antt =====
-- Sizing a bundle: what `optimize` returns, and when it returns anything.
use kalshi_quant_research.Prelude.{
  ◌*◌, ◌/◌, ◌≤◌, ◌<◌, min, ◌≡◌, refl, sym, ◌↔◌, ◌⊎◌, inl, inr, true, false, ◌&&◌, Option, none,
  some, List, [], ◌∷◌, arith, ltb, leb, Bool-cases, Option-cases, length, All, In, All-In, nat_key,
  string_key,
}
use mathlib.Core.Path.{subst}
use kalshi_quant_research.Prelude.Division.{div_bounds}
use kalshi_quant_research.Market.Contracts.{Qty}
use kalshi_quant_research.Market.Fees.{FeeBook}
use kalshi_quant_research.Market.Relationships.{Constraint}
use kalshi_quant_research.Arbitrage.Execution.{
  Books, PricedBundle, price_bundle, max_bundles, insert_size, add_size, sizes_at, candidate_sizes,
  price_all, better, best_from, largest_profitable, SizeResult, size_result, capped, optimize,
}
use kalshi_quant_research.Arbitrage.Execution.Bundle.{
  HasQty, is_some, max_bundles_exact, price_bundle-fields,
}

better_trans : (b w p : PricedBundle) → better b w ≡ false → better w p ≡ false → better b p ≡ false
better_trans b w p h k = ground arith

better-asym : (p q : PricedBundle) → better p q ≡ true → better q p ≡ false
better-asym p q h = ground arith

abbrev pub IsBest : PricedBundle → List PricedBundle → Type 0
IsBest b ps = In b ps × All (λ q. better b q ≡ false) ps

-- `best_from` gives an element of the list, and none of the list is better.
best_from-highest : (p : PricedBundle) (ps : List PricedBundle) → IsBest (best_from p ps) (p ∷ ps)
unfolding best_from
best_from-highest p [] = (inl refl, (ground arith, tt))
best_from-highest p (q ∷ qs) = elim (Bool-cases (better p q)) [
  | inl up ↦
      let step : best_from q qs ≡ best_from p (q ∷ qs) = rw (up, best_from) refl in
      let (here, high) = best_from-highest q qs in
      subst (λ b. IsBest b (p ∷ q ∷ qs)) step
        (inr here, (better_trans (best_from q qs) q p high.0 (better-asym p q up), high))
  | inr down ↦
      let step : best_from p qs ≡ best_from p (q ∷ qs) = rw (down, best_from) refl in
      let (here, high) = best_from-highest p qs in
      subst (λ b. IsBest b (p ∷ q ∷ qs)) step
        (kept here, (high.0, (better_trans (best_from p qs) p q high.0 down, high.1)))
]
  where
    kept : In (best_from p qs) (p ∷ qs) → In (best_from p qs) (p ∷ q ∷ qs)
    kept (inl e) = inl e
    kept (inr i) = inr (inr i)

-- The bundles of `price_all` are priced.
abbrev pub IsPriced : Constraint → Books → FeeBook → PricedBundle → Type 0
IsPriced c books fees p = price_bundle c books p.bundles fees ≡ some p

pub price_all-IsPriced :
    (c : Constraint) (books : Books) (fees : FeeBook) (ss : List Qty)
    → All (IsPriced c books fees) (price_all c books fees ss)
price_all-IsPriced c books fees [] = tt
price_all-IsPriced c books fees (s ∷ ss) = elim (Option-cases (price_bundle c books s fees)) [
  | inl short ↦ rw (short, price_all) (price_all-IsPriced c books fees ss)
  | inr (p, priced) ↦
      rw (priced, price_all)
        (
          subst (λ k. price_bundle c books k fees ≡ some p)
              (sym (price_bundle-fields c books s fees p priced).1) priced,
          price_all-IsPriced c books fees ss,
        )
]

price_all-In :
    (c : Constraint) (books : Books) (fees : FeeBook) (ss : List Qty) (s : Qty) (p : PricedBundle)
    → In s ss
    → price_bundle c books s fees ≡ some p
    → In p (price_all c books fees ss)
price_all-In c books fees [] s p i e = absurd i
price_all-In c books fees (t ∷ ss) s p (inl same) e = rw (sym same, e, price_all) (inl refl)
price_all-In c books fees (t ∷ ss) s p (inr i) e =
    elim (Option-cases (price_bundle c books t fees)) [
      | inl short ↦ rw (short, price_all) (price_all-In c books fees ss s p i e)
      | inr (q, priced) ↦ rw (priced, price_all) (inr (price_all-In c books fees ss s p i e))
    ]

-- Membership in the sorted sizes.
insert_size_self : (s : Qty) (xs : List Qty) → In s (insert_size s xs)
insert_size_self s [] = inl refl
insert_size_self s (x ∷ xs) = ground (arith, insert_size_self s xs)

insert_size-keeps : (s t : Qty) (xs : List Qty) → In t xs → In t (insert_size s xs)
insert_size-keeps s t [] i = absurd i
insert_size-keeps s t (x ∷ xs) i = ground (arith, insert_size-keeps s t xs)

add_size-keeps : (lot cap s t : Qty) (xs : List Qty) → In t xs → In t (add_size lot cap s xs)
add_size-keeps lot cap s t xs i = elim (Bool-cases (leb lot s && leb s cap)) [
  | inl in_range ↦ rw (in_range, add_size) (insert_size-keeps s t xs i)
  | inr out ↦ rw (out, add_size) i
]

lot-In :
    (c : Constraint) (books : Books) (lot cap : Qty)
    → 0 < lot
    → lot ≤ cap
    → In lot (candidate_sizes c books lot cap)
unfolding candidate_sizes sizes_at
lot-In c books lot cap h k = rw one_lot (elim (Bool-cases (leb lot lot && leb lot cap)) [
  | inl in_range ↦ rw (in_range, add_size) (insert_size_self lot _)
  | inr out ↦ ground arith
])
  where
    one_lot : min lot cap / lot * lot ≡ lot
    one_lot = let m : min lot cap ≡ lot = omega arith in rw m (grind (arith, div_bounds lot lot h))

-- Of the sizes that `size_result` prices, `best` is one, and none is better.
pub size_result-IsBest :
    (c : Constraint) (books : Books) (fees : FeeBook) (lot : Qty) (ps : List PricedBundle)
    (r : SizeResult)
    → size_result c books fees lot ps ≡ some r
    → IsBest r.best ps
size_result-IsBest c books fees lot [] r e = ground arith
size_result-IsBest c books fees lot (p ∷ ps) r e =
    subst (λ b. IsBest b (p ∷ ps)) (is_best (Option-cases (largest_profitable none (p ∷ ps))))
      (best_from-highest p ps)
  where
    is_best :
        (largest_profitable none (p ∷ ps) ≡ none)
          ⊎ ((l : PricedBundle) × (largest_profitable none (p ∷ ps) ≡ some l))
        → best_from p ps ≡ r.best
    is_best (inl nothing) = ground (arith, rw (nothing, size_result) at e)
    is_best (inr (l, found)) = ground (arith, rw (found, size_result) at e)

size_result-found :
    (c : Constraint) (books : Books) (fees : FeeBook) (lot : Qty) (ps : List PricedBundle)
    (p : PricedBundle)
    → In p ps
    → is_some (size_result c books fees lot ps) ≡ true
size_result-found c books fees lot [] p i = absurd i
size_result-found c books fees lot (q ∷ ps) p i =
    elim (Option-cases (largest_profitable none (q ∷ ps))) [
      | inl nothing ↦ rw (nothing, size_result) refl
      | inr (l, found) ↦ rw (found, size_result) refl
    ]

-- The deepest size that `optimize` considers.
abbrev pub deepest_size : Constraint → Books → Qty → Option Qty → Qty
deepest_size c books lot cap = capped cap lot (max_bundles c books / lot * lot)

-- A result of `optimize` is one of the sizes it prices.
pub optimize-sized :
    (c : Constraint) (books : Books) (fees : FeeBook) (lot : Qty) (cap : Option Qty)
    (r : SizeResult)
    → optimize c books fees lot cap ≡ some r
    → size_result c books fees lot
        (price_all c books fees (candidate_sizes c books lot (deepest_size c books lot cap)))
      ≡ some r
unfolding optimize
optimize-sized c books fees lot cap r e =
    elim (Bool-cases (ltb (deepest_size c books lot cap) lot)) [
      | inl shallow ↦ absurd (ground (arith, rw (shallow, optimize) at e))
      | inr deep ↦ rw (deep, optimize) at e
    ]

-- What `optimize` returns as best is a bundle that the books fill; and no size `s` that it considers
-- and can price has a higher net, or the same net at fewer bundles.
pub optimize_best :
    (c : Constraint) (books : Books) (fees : FeeBook) (lot : Qty) (cap : Option Qty)
    (r : SizeResult) (s : Qty) (p : PricedBundle)
    → optimize c books fees lot cap ≡ some r
    → In s (candidate_sizes c books lot (deepest_size c books lot cap))
    → price_bundle c books s fees ≡ some p
    → (price_bundle c books r.best.bundles fees ≡ some r.best) × (better r.best p ≡ false)
unfolding optimize
optimize_best c books fees lot cap r s p e i priced =
    let sizes = candidate_sizes c books lot (deepest_size c books lot cap) in
    let (is_in, high) =
      size_result-IsBest c books fees lot (price_all c books fees sizes) r
        (optimize-sized c books fees lot cap r e) in
    (
      All-In (IsPriced c books fees) r.best (price_all c books fees sizes)
          (price_all-IsPriced c books fees sizes) is_in,
      All-In (λ q. better r.best q ≡ false) p (price_all c books fees sizes) high
          (price_all-In c books fees sizes s p i priced),
    )

-- A cap, where one is given, allows the size.
abbrev pub Allows : Option Qty → Qty → Type 0
Allows none size = Unit
Allows (some cap) size = size ≤ cap

-- A size is at most another one rounded down to whole lots, where it is a lot at most that one.
lot_le : (lot m : Qty) → 0 < lot → lot ≤ m → lot ≤ m / lot * lot
lot_le lot m h le = grind (arith, div_bounds m lot h)

deepest-Allows :
    (c : Constraint) (books : Books) (lot : Qty) (cap : Option Qty)
    → 0 < lot
    → (lot ≤ deepest_size c books lot cap) ↔ (Allows cap lot × (lot ≤ max_bundles c books))
deepest-Allows c books lot none h = (
  λ le. (tt, omega (arith, div_bounds (max_bundles c books) lot h)),
  λ k. lot_le lot (max_bundles c books) h k.1,
)
deepest-Allows c books lot (some cap) h = (
  λ le.
      (omega (arith, div_bounds cap lot h), omega (arith, div_bounds (max_bundles c books) lot h)),
  λ k. omega (arith, lot_le lot cap h k.0, lot_le lot (max_bundles c books) h k.1),
)

optimize-deep :
    (c : Constraint) (books : Books) (fees : FeeBook) (lot : Qty) (cap : Option Qty)
    (p : PricedBundle)
    → 0 < lot
    → lot ≤ deepest_size c books lot cap
    → price_bundle c books lot fees ≡ some p
    → is_some (optimize c books fees lot cap) ≡ true
unfolding optimize
optimize-deep c books fees lot cap p h enough priced =
    let deep : ltb (deepest_size c books lot cap) lot ≡ false = ground arith in
    rw deep (
      size_result-found c books fees lot _ p (
        price_all-In c books fees _ lot p
          (lot-In c books lot (deepest_size c books lot cap) h enough) priced))

optimize-reaches :
    (c : Constraint) (books : Books) (fees : FeeBook) (lot : Qty) (cap : Option Qty)
    → is_some (optimize c books fees lot cap) ≡ true
    → lot ≤ deepest_size c books lot cap
unfolding optimize
optimize-reaches c books fees lot cap found =
    elim (Bool-cases (ltb (deepest_size c books lot cap) lot)) [
      | inl shallow ↦ absurd (ground (arith, rw shallow at found))
      | inr deep ↦ ground arith
    ]

-- With a lot above zero, and a constraint that has a leg and whose legs have quantities, `optimize`
-- returns a result exactly when the cap, if there is one, is at least one lot and the books can fill a
-- bundle of one lot.
pub optimize_found :
    (c : Constraint) (books : Books) (fees : FeeBook) (lot : Qty) (cap : Option Qty)
    → 0 < lot
    → All HasQty c.legs
    → 0 < length c.legs
    → (is_some (optimize c books fees lot cap) ≡ true)
      ↔ (Allows cap lot × (p : PricedBundle) × (price_bundle c books lot fees ≡ some p))
optimize_found c books fees lot cap h q some_leg =
    let (shrink, grow) = deepest-Allows c books lot cap h in
    let exact = max_bundles_exact c books lot fees h q some_leg in
    (
      λ found.
          let (allowed, le) = shrink (optimize-reaches c books fees lot cap found) in
          elim (Option-cases (price_bundle c books lot fees)) [
            | inl short ↦ absurd (ground (arith, exact, short, le))
            | inr (p, filled) ↦ (allowed, p, filled)
          ],
      λ (allowed, p, filled).
          let le : lot ≤ max_bundles c books = ground (arith, exact, filled) in
          optimize-deep c books fees lot cap p h (grow (allowed, le)) filled,
    )
