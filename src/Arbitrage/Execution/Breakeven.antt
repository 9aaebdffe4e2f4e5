-- ===== src/Arbitrage/Execution/Breakeven.antt =====
-- The break-even size that `optimize` returns beside the best one.
use kalshi_quant_research.Prelude.{
  ◌-◌, ◌≤◌, ◌<◌, ◌≡◌, refl, ◌⊎◌, inl, inr, true, false, ◌&&◌, Option, none, some, List, [], ◌∷◌,
  arith, ltb, ltb→lt, Bool-cases, All, In, All-In, nat_key, string_key,
}
use mathlib.Core.Path.{subst}
use kalshi_quant_research.Market.Contracts.{Qty}
use kalshi_quant_research.Market.Fees.{FeeBook}
use kalshi_quant_research.Market.Relationships.{Constraint}
use kalshi_quant_research.Arbitrage.Execution.{
  Books, PricedBundle, price_bundle, candidate_sizes, price_all, is_profitable, largest_profitable,
  next_size, bisect, breakeven_of, SizeResult, size_result, optimize,
}
use kalshi_quant_research.Arbitrage.Execution.Bundle.{price_bundle-fields}
use kalshi_quant_research.Arbitrage.Execution.Sizing.{
  IsPriced, price_all-IsPriced, deepest_size, size_result-IsBest, optimize-sized,
}
use kalshi_quant_research.Arbitrage.Execution.Bisection.{bisect-IsCrossing}

abbrev IsAtMost : PricedBundle → PricedBundle → Type 0
IsAtMost r p = is_profitable p ≡ true → p.bundles ≤ r.bundles

abbrev IsLargest : PricedBundle → List PricedBundle → Type 0
IsLargest r ps = In r ps × (is_profitable r ≡ true) × All (IsAtMost r) ps

IsLargest-from :
    (q : PricedBundle) (ps : List PricedBundle)
    → is_profitable q ≡ true
    → (r : PricedBundle) × (largest_profitable (some q) ps ≡ some r) × IsLargest r (q ∷ ps)
unfolding largest_profitable
IsLargest-from q [] gain = (q, refl, (inl refl, gain, (λ _. omega arith, tt)))
IsLargest-from q (p ∷ ps) gain = elim (Bool-cases (is_profitable p && ltb q.bundles p.bundles)) [
  | inl larger ↦
      let (r, found, (is_in, profit, high)) = IsLargest-from p ps (ground arith) in
      let up : IsAtMost r q = λ _. omega (arith, high.0 (ground arith), lt_of larger) in
      (r, rw (larger, largest_profitable) found, (inr is_in, profit, (up, high)))
  | inr not_larger ↦
      let (r, found, (is_in, profit, high)) = IsLargest-from q ps gain in
      let up : IsAtMost r p = λ k. ground (arith, high.0 gain, not_larger, k) in
      (r, rw (not_larger, largest_profitable) found, (kept r is_in, profit, (high.0, (up, high.1))))
]
  where
    lt_of : (is_profitable p && ltb q.bundles p.bundles) ≡ true → q.bundles < p.bundles
    lt_of h = ground arith

    kept : (r : PricedBundle) → In r (q ∷ ps) → In r (q ∷ p ∷ ps)
    kept r (inl e) = inl e
    kept r (inr i) = inr (inr i)

IsLargest-cases :
    (ps : List PricedBundle)
    → All (λ p. is_profitable p ≡ false) ps
      ⊎ ((r : PricedBundle) × (largest_profitable none ps ≡ some r) × IsLargest r ps)
unfolding largest_profitable
IsLargest-cases [] = inl tt
IsLargest-cases (p ∷ ps) = elim (Bool-cases (is_profitable p)) [
  | inl gain ↦
      let (r, found, largest) = IsLargest-from p ps gain in
      inr (r, rw (gain, largest_profitable) found, largest)
  | inr loss ↦ elim (IsLargest-cases ps) [
    | inl losses ↦ inl (loss, losses)
    | inr (r, found, (is_in, profit, high)) ↦ inr (
      r,
      rw (loss, largest_profitable) found,
      (inr is_in, profit, ((λ k. ground (arith, loss, k)), high)),
    )
  ]
]

-- `breakeven_of` keeps a profitable bundle, at `last` or above it.
breakeven_of_lem :
    (c : Constraint) (books : Books) (fees : FeeBook) (lot : Qty) (last : PricedBundle)
    (hi : Option Qty)
    → 0 < lot
    → IsPriced c books fees last
    → is_profitable last ≡ true
    → let r = breakeven_of c books fees lot last hi in
      IsPriced c books fees r × (is_profitable r ≡ true) × (last.bundles ≤ r.bundles)
unfolding bisect
breakeven_of_lem c books fees lot last none h priced gain = (priced, gain, omega arith)
breakeven_of_lem c books fees lot last (some hi) h priced gain =
    elim (Bool-cases (ltb last.bundles hi)) [
      | inl above ↦
          let (again, profit, far, _) =
            bisect-IsCrossing (λ s. price_bundle c books s fees) lot h
              (λ s p e. (price_bundle-fields c books s fees p e).1) (hi - last.bundles) last.bundles
              hi last (ltb→lt last.bundles hi above) (omega arith) priced gain in
          (again, profit, far)
      | inr none_above ↦
          let spent : hi - last.bundles ≡ 0 = ground arith in rw spent (priced, gain, omega arith)
    ]

-- Where the best size of `optimize` makes a profit, the break-even size makes one too, is at least
-- as large, and is a bundle that the books fill.
pub optimize_breakeven :
    (c : Constraint) (books : Books) (fees : FeeBook) (lot : Qty) (cap : Option Qty)
    (r : SizeResult)
    → 0 < lot
    → optimize c books fees lot cap ≡ some r
    → is_profitable r.best ≡ true
    → (price_bundle c books r.breakeven.bundles fees ≡ some r.breakeven)
      × (is_profitable r.breakeven ≡ true)
      × (r.best.bundles ≤ r.breakeven.bundles)
optimize_breakeven c books fees lot cap r h e gain =
    sized (price_all c books fees sizes) (price_all-IsPriced c books fees sizes)
      (optimize-sized c books fees lot cap r e)
  where
    sizes : List Qty
    sizes = candidate_sizes c books lot (deepest_size c books lot cap)

    sized :
        (ps : List PricedBundle)
        → All (IsPriced c books fees) ps
        → size_result c books fees lot ps ≡ some r
        → IsPriced c books fees r.breakeven
          × (is_profitable r.breakeven ≡ true)
          × (r.best.bundles ≤ r.breakeven.bundles)
    sized [] priced s = ground arith
    sized (p ∷ ps) priced s = elim (IsLargest-cases (p ∷ ps)) [
      | inl losses ↦ absurd (
          ground (
            arith,
            gain,
            All-In (λ q. is_profitable q ≡ false) r.best (p ∷ ps) losses
                (size_result-IsBest c books fees lot (p ∷ ps) r s).0,
          ))
      | inr (last, found, (is_in, profit, high)) ↦
          let best_le : r.best.bundles ≤ last.bundles =
            All-In (IsAtMost last) r.best (p ∷ ps) high
              (size_result-IsBest c books fees lot (p ∷ ps) r s).0 gain in
          let is_even : breakeven_of c books fees lot last (next_size last.bundles none (p ∷ ps))
              ≡ r.breakeven =
            ground (arith, rw (found, size_result) at s) in
          let (again, still, far) =
            breakeven_of_lem c books fees lot last (next_size last.bundles none (p ∷ ps)) h
              (All-In (IsPriced c books fees) last (p ∷ ps) priced is_in) profit in
          subst
            (λ b. IsPriced c books fees b × (is_profitable b ≡ true) × (r.best.bundles ≤ b.bundles))
            is_even (again, still, omega (arith, best_le, far))
    ]
