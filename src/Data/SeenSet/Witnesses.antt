-- ===== src/Data/SeenSet/Witnesses.antt =====
-- A full set for the theorem on the bounded set.
use kalshi_quant_research.Prelude.{◌≡◌, refl, true, not, [], ◌∷◌, arith, nat_key, string_key}
use kalshi_quant_research.Data.SeenSet.{SeenSet, has_key, add}
use kalshi_quant_research.Data.SeenSet.Bounded.{IsBounded, add_keeps_bound}

abbrev full : SeenSet
full = record { maxlen = 2; items = "a" ∷ "b" ∷ [] }

full-IsBounded : IsBounded full
full-IsBounded = (ground arith, ground arith, (refl, (refl, tt)))

add_keeps_bound_example :
    ((add "c" full).0 ≡ not (has_key "c" full.items))
    × IsBounded (add "c" full).1
    × (has_key "c" (add "c" full).1.items ≡ true)
add_keeps_bound_example = add_keeps_bound "c" full full-IsBounded
