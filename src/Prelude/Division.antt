-- ===== src/Prelude/Division.antt =====
-- Division rounded up, and the bounds that tell a quotient.
use Prim.Native.Nat.{ℕ, ◌+◌, ◌-◌, ◌*◌, ◌/◌, ◌≤◌, ◌<◌}
use native.Mathlib.Nat.{div-add-mod, mod-lt}
use native.Mathlib.Omega.{arith}

-- `-((-n) // d)` for n ≥ 0 and d > 0
unfoldable pub ceil_div : ℕ → ℕ → ℕ
ceil_div n d = (n + (d - 1)) / d

-- The multiple of d that rounding up gives lies in [n, n + d).
pub ceil_div_bounds : (n d : ℕ) → 0 < d → (n ≤ d * ceil_div n d) × (d * ceil_div n d < n + d)
unfolding ceil_div
ceil_div_bounds n d h = omega (arith, div-add-mod (n + (d - 1)) d, mod-lt (n + (d - 1)) h)

-- x ≤ y if d * x stays below the next multiple after d * y.
pub le_of_multiples : (d x y : ℕ) → d * x < d * y + d → x ≤ y
le_of_multiples d x y h = grind arith

pub div_bounds : (n d : ℕ) → 0 < d → (d * (n / d) ≤ n) × (n < d * (n / d) + d)
div_bounds n d h = omega (arith, div-add-mod n d, mod-lt n h)
