-- ===== src/MarketMaking/Risk/KillSwitch.antt =====
-- The kill-switch: what trips it, and that it stays tripped.
use kalshi_quant_research.Prelude.{
  ℕ, String, ◌≡◌, refl, sym, ap, ◌∙◌, ◌⊎◌, inl, inr, Bool, true, false, not, Option, none, some,
  arith, Bool-cases, nat_key, string_key,
}
use kalshi_quant_research.Prelude.Int.{ℤ, ◌-ℤ◌, ◌≤ℤ◌}
use kalshi_quant_research.MarketMaking.Risk.{Positions, RiskState, kill, peak, checked, check}

kill-killed : (now : ℕ) (reason : String) (s : RiskState) → (kill now reason s).killed ≡ true
unfolding kill
kill-killed now reason s = ground arith

peak-ge : (o : Option ℤ) (equity : ℤ) → equity ≤ℤ peak o equity
peak-ge none equity = omega arith
peak-ge (some high) equity = ground arith

module _ (drawdown_hit : ℤ → Bool) (loss_hit : Positions → Bool) where
  -- A live state after the tests: none of them was hit.
  checked-live :
      (now : ℕ) (high equity : ℤ) (positions : Positions) (s : RiskState)
      → (checked drawdown_hit loss_hit now high equity positions s).killed ≡ false
      → (checked drawdown_hit loss_hit now high equity positions s ≡ s)
        × (drawdown_hit (high -ℤ equity) ≡ false)
        × (loss_hit positions ≡ false)
  unfolding checked
  checked-live now high equity positions s live =
      elim (Bool-cases (drawdown_hit (high -ℤ equity))) [
        | inl hit ↦ absurd (cc (rw (hit, checked) at live, kill-killed now "drawdown" s))
        | inr fine ↦ elim (Bool-cases (loss_hit positions)) [
          | inl hit ↦
              absurd (
                cc (rw (fine, hit, checked) at live, kill-killed now "portfolio worst-case loss" s))
          | inr none_hit ↦ rw (fine, none_hit, checked) (refl, refl, refl)
        ]
      ]

  latched :
      (now : ℕ) (equity : ℤ) (positions : Positions) (s : RiskState)
      → s.killed ≡ true
      → check drawdown_hit loss_hit now equity positions s ≡ (false, s)
  unfolding check
  latched now equity positions s dead = rw (dead, check) refl

  check-cases :
      (now : ℕ) (equity : ℤ) (positions : Positions) (s : RiskState)
      → let t =
          checked drawdown_hit loss_hit now
            (peak s.peak_equity equity)
            equity
            positions
            (record s { peak_equity = some (peak s.peak_equity equity) }) in
        ((s.killed ≡ true) × (check drawdown_hit loss_hit now equity positions s ≡ (false, s)))
        ⊎ (check drawdown_hit loss_hit now equity positions s ≡ (not t.killed, t))
  unfolding check
  check-cases now equity positions s = elim (Bool-cases s.killed) [
    | inl dead ↦ inl (dead, latched now equity positions s dead)
    | inr live ↦ inr (rw (live, check) refl)
  ]

  -- After a check that does not allow trading, each later check forbids it too and changes nothing.
  pub check_latches :
      (now later : ℕ) (equity next : ℤ) (positions others : Positions) (s t : RiskState)
      → check drawdown_hit loss_hit now equity positions s ≡ (false, t)
      → check drawdown_hit loss_hit later next others t ≡ (false, t)
  check_latches now later equity next positions others s t e =
      elim (check-cases now equity positions s) [
        | inl (dead, same) ↦ latched later next others t (ground (arith, dead, same, e))
        | inr same ↦
            let is_t = ap (λ (o : Bool × RiskState). o.1) (sym same ∙ e) in
            let is_forbidden = ap (λ (o : Bool × RiskState). o.0) (sym same ∙ e) in
            latched later next others t (rw (sym is_t) (not_false _ is_forbidden))
      ]
    where
      not_false : (b : Bool) → not b ≡ false → b ≡ true
      not_false b h = ground arith

  -- After a check that allows trading, a peak is kept that is at least the equity, and neither the
  -- drawdown from that peak nor the positions hit their test.
  pub check_allows :
      (now : ℕ) (equity : ℤ) (positions : Positions) (s t : RiskState)
      → check drawdown_hit loss_hit now equity positions s ≡ (true, t)
      → (high : ℤ) × (t.peak_equity ≡ some high)
        × (equity ≤ℤ high)
        × (drawdown_hit (high -ℤ equity) ≡ false)
        × (loss_hit positions ≡ false)
  check_allows now equity positions s t e = elim (check-cases now equity positions s) [
    | inl (dead, same) ↦ absurd (ground (arith, same, e))
    | inr same ↦
        let high = peak s.peak_equity equity in
        let u : RiskState = record s { peak_equity = some high } in
        let is_t = ap (λ (o : Bool × RiskState). o.1) (sym same ∙ e) in
        let is_allowed = ap (λ (o : Bool × RiskState). o.0) (sym same ∙ e) in
        let (kept, calm, safe) = checked-live now high equity positions u (not_true _ is_allowed) in
        (
          high,
          ap (λ (r : RiskState). r.peak_equity) (sym is_t ∙ kept),
          peak-ge s.peak_equity equity,
          calm,
          safe,
        )
  ]
    where
      not_true : (b : Bool) → not b ≡ true → b ≡ false
      not_true b h = ground arith
