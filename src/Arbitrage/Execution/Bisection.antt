-- ===== src/Arbitrage/Execution/Bisection.antt =====
-- The bisection for the break-even size: it ends, and what it has found where it ends.
use kalshi_quant_research.Prelude.{
  ℕ, zero, suc, ◌+◌, ◌-◌, ◌*◌, ◌/◌, ◌≤◌, ◌<◌, ◌≡◌, refl, sym, ◌⊎◌, inl, inr, Bool, true, false, not,
  Option, none, some, arith, ltb, ◌==◌, ltb→lt, Bool-cases, Option-cases, nat_key, string_key,
}
use mathlib.Core.Path.{subst}
use kalshi_quant_research.Prelude.Division.{div_bounds}
use kalshi_quant_research.Market.Contracts.{Qty}
use kalshi_quant_research.Arbitrage.Execution.{PricedBundle, is_profitable, half_lots, bisect}

-- No bundle of size `s` is priced at a profit.
abbrev pub fails : (Qty → Option PricedBundle) → Qty → Bool
fails probe s = elim (probe s) [ none ↦ true | some p ↦ not (is_profitable p) ]

-- A profitable bundle of at least `lo`, and a size `h` above it by a lot at most, which is `hi` or fails.
abbrev pub IsCrossing : (Qty → Option PricedBundle) → Qty → Qty → Qty → PricedBundle → Type 0
IsCrossing probe lot lo hi r =
    (probe r.bundles ≡ some r)
    × (is_profitable r ≡ true)
    × (lo ≤ r.bundles)
    × ((h : Qty) × (r.bundles < h) × (h ≤ r.bundles + lot) × ((h ≡ hi) ⊎ (fails probe h ≡ true)))

-- The middle is strictly between the ends.
half_lots_lem :
    (lot gap : ℕ)
    → 0 < lot
    → lot < gap
    → (0 < half_lots lot gap * lot) × (half_lots lot gap * lot < gap)
half_lots_lem lot gap h wide = elim (Bool-cases (gap / (2 * lot) == 0)) [
  | inl small ↦ rw (small, half_lots) (omega arith)
  | inr large ↦
      rw (large, half_lots)
        (let b = div_bounds gap (2 * lot) (omega arith) in
          let pos_quotient : 0 < gap / (2 * lot) = ground arith in grind (arith, b, pos_quotient))
]

abbrev middle : Qty → Qty → Qty → Qty
middle lot lo hi = lo + half_lots lot (hi - lo) * lot

module _ (probe : Qty → Option PricedBundle) (lot : Qty) where
  step_narrow :
      (fuel lo hi : Qty) (last : PricedBundle)
      → ltb lot (hi - lo) ≡ false
      → last ≡ bisect probe lot fuel lo hi last
  unfolding bisect
  step_narrow zero lo hi last narrow = refl
  step_narrow (suc fuel) lo hi last narrow = rw (narrow, bisect) refl

  step_down :
      (fuel lo hi : Qty) (last : PricedBundle)
      → ltb lot (hi - lo) ≡ true
      → fails probe (middle lot lo hi) ≡ true
      → bisect probe lot fuel lo (middle lot lo hi) last ≡ bisect probe lot (suc fuel) lo hi last
  unfolding bisect
  step_down fuel lo hi last wide f = elim (Option-cases (probe (middle lot lo hi))) [
    | inl short ↦ rw (wide, short, bisect) refl
    | inr (p, priced) ↦
        let loss : is_profitable p ≡ false = ground (arith, rw (priced, fails) at f) in
        rw (wide, priced, loss, bisect) refl
  ]

  step_up :
      (fuel lo hi : Qty) (last p : PricedBundle)
      → ltb lot (hi - lo) ≡ true
      → probe (middle lot lo hi) ≡ some p
      → is_profitable p ≡ true
      → bisect probe lot fuel (middle lot lo hi) hi p ≡ bisect probe lot (suc fuel) lo hi last
  unfolding bisect
  step_up fuel lo hi last p wide priced gain = rw (wide, priced, gain, bisect) refl

  module _ (h : 0 < lot)
      (sized : (s : Qty) (p : PricedBundle) → probe s ≡ some p → p.bundles ≡ s) where
    IsCrossing-narrow :
        (fuel lo hi : Qty) (last : PricedBundle)
        → lo < hi
        → ltb lot (hi - lo) ≡ false
        → probe lo ≡ some last
        → is_profitable last ≡ true
        → IsCrossing probe lot lo hi (bisect probe lot fuel lo hi last)
    IsCrossing-narrow fuel lo hi last below narrow priced gain =
        let same : last.bundles ≡ lo = sized lo last priced in
        subst (IsCrossing probe lot lo hi) (step_narrow fuel lo hi last narrow) (
          subst (λ k. probe k ≡ some last) (sym same) priced,
          gain,
          omega (arith, same),
          (hi, omega (arith, same, below), ground (arith, same), inl refl),
        )

    narrower :
        (lo mid hi : Qty) (r : PricedBundle)
        → lo ≤ mid
        → IsCrossing probe lot mid hi r
        → IsCrossing probe lot lo hi r
    narrower lo mid hi r le (priced, gain, far, crossing) = (priced, gain, omega arith, crossing)

    lower :
        (lo mid hi : Qty) (r : PricedBundle)
        → fails probe mid ≡ true
        → IsCrossing probe lot lo mid r
        → IsCrossing probe lot lo hi r
    lower lo mid hi r f (priced, gain, far, (k, above, near, inl e)) =
        (priced, gain, far, (mid, rw (sym e) above, rw (sym e) near, inr f))
    lower lo mid hi r f (priced, gain, far, (k, above, near, inr g)) =
        (priced, gain, far, (k, above, near, inr g))

    -- Where a probe gives bundles of the size it is asked for, the lot is above zero and `lo` is below
    -- `hi`, fuel of `hi - lo` brings the bisection, from a profitable bundle of `lo`, to a profitable
    -- bundle of at least `lo` and a size above it by one lot at most, which is `hi` or at which no
    -- bundle makes a profit.
    pub bisect-IsCrossing :
        (fuel lo hi : Qty) (last : PricedBundle)
        → lo < hi
        → hi - lo ≤ fuel
        → probe lo ≡ some last
        → is_profitable last ≡ true
        → IsCrossing probe lot lo hi (bisect probe lot fuel lo hi last)
    bisect-IsCrossing zero lo hi last order enough priced gain =
        IsCrossing-narrow zero lo hi last order (ground arith) priced gain
    bisect-IsCrossing (suc fuel) lo hi last order enough priced gain =
        elim (Bool-cases (ltb lot (hi - lo))) [
          | inr narrow ↦ IsCrossing-narrow (suc fuel) lo hi last order narrow priced gain
          | inl wide ↦
              let mid = middle lot lo hi in
              let (up, below) = half_lots_lem lot (hi - lo) h (ltb→lt lot (hi - lo) wide) in
              elim (probe-cases mid) [
                | inl f ↦ subst (IsCrossing probe lot lo hi) (step_down fuel lo hi last wide f) (
                    lower lo mid hi _ f
                      (bisect-IsCrossing fuel lo mid last (omega arith) (omega arith) priced gain))
                | inr (p, found, profit) ↦
                    subst (IsCrossing probe lot lo hi) (step_up fuel lo hi last p wide found profit)
                      (narrower lo mid hi _ (omega arith)
                        (bisect-IsCrossing fuel mid hi p (omega arith) (omega arith) found profit))
              ]
        ]
      where
        probe-cases :
            (m : Qty)
            → (fails probe m ≡ true)
              ⊎ ((p : PricedBundle) × (probe m ≡ some p) × (is_profitable p ≡ true))
        probe-cases m = elim (Option-cases (probe m)) [
          | inl short ↦ inl (rw (short, fails) refl)
          | inr (p, found) ↦ elim (Bool-cases (is_profitable p)) [
            | inl profit ↦ inr (p, found, profit)
            | inr loss ↦ inl (rw (found, fails) (ground arith))
          ]
        ]
