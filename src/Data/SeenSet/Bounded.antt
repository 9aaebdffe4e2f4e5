-- ===== src/Data/SeenSet/Bounded.antt =====
-- The bounded set: it holds at most its bound, each key once, and the last key always.
use kalshi_quant_research.Prelude.{
  suc, ◌+◌, ◌≤◌, ◌<◌, String, ◌≡◌, refl, inl, inr, true, false, not, ◌||◌, List, [], ◌∷◌, ◌++◌,
  arith, ltb, Bool-cases, length, length-append, nat_key, string_key, beq_refl,
}
use kalshi_quant_research.Data.SeenSet.{SeenSet, has_key, without, pop_first, add}

abbrev pub Once : List String → Type 0
Once [] = Unit
Once (x ∷ xs) = (has_key x xs ≡ false) × Once xs

-- At most `maxlen` keys, each of them once, where `maxlen` is not zero.
abbrev pub IsBounded : SeenSet → Type 0
IsBounded s = (0 < s.maxlen) × (length s.items ≤ s.maxlen) × Once s.items

has_key-append :
    (k : String) (xs ys : List String) → has_key k (xs ++ ys) ≡ (has_key k xs || has_key k ys)
has_key-append k [] ys = refl
has_key-append k (x ∷ xs) ys = ground (arith, has_key-append k xs ys)

Once-snoc : (k : String) (xs : List String) → has_key k xs ≡ false → Once xs → Once (xs ++ k ∷ [])
Once-snoc k [] h o = (refl, tt)
Once-snoc k (x ∷ xs) h o = ground (
  arith,
  has_key-append x xs (k ∷ []),
  Once-snoc k xs,
  string_key.same_iff x k,
  string_key.same_iff k x,
)

has_key-without_other :
    (k j : String) (xs : List String) → has_key j xs ≡ false → has_key j (without k xs) ≡ false
has_key-without_other k j [] h = refl
has_key-without_other k j (x ∷ xs) h = ground (arith, has_key-without_other k j xs)

without-Once :
    (k : String) (xs : List String)
    → Once xs
    → Once (without k xs) × (has_key k (without k xs) ≡ false)
without-Once k [] o = (tt, refl)
without-Once k (x ∷ xs) o =
    ground (arith, without-Once k xs, has_key-without_other k x xs, string_key.same_iff x k)

length-without :
    (k : String) (xs : List String) → has_key k xs ≡ true → suc (length (without k xs)) ≡ length xs
length-without k [] h = ground arith
length-without k (x ∷ xs) h = ground (arith, length-without k xs)

has_key-last : (k : String) (xs : List String) → has_key k (xs ++ k ∷ []) ≡ true
has_key-last k xs = ground (arith, has_key-append k xs (k ∷ []), beq_refl k)

pop_first-Once : (xs : List String) → Once xs → Once (pop_first xs)
pop_first-Once [] o = tt
pop_first-Once (x ∷ xs) o = o.1

pop_first-last :
    (k : String) (xs : List String)
    → 0 < length xs
    → (has_key k (pop_first (xs ++ k ∷ [])) ≡ true)
      × (suc (length (pop_first (xs ++ k ∷ []))) ≡ length xs + 1)
pop_first-last k [] h = ground arith
pop_first-last k (x ∷ xs) h = (has_key-last k xs, omega (arith, length-append xs (k ∷ [])))

-- `add` answers whether the key is new, and leaves a set within its bound that holds the key.
pub add_keeps_bound :
    (k : String) (s : SeenSet)
    → IsBounded s
    → ((add k s).0 ≡ not (has_key k s.items))
      × IsBounded (add k s).1
      × (has_key k (add k s).1.items ≡ true)
unfolding add
add_keeps_bound k s (some_room, room, once) = elim (Bool-cases (has_key k s.items)) [
  | inl seen ↦
      let (apart, gone) = without-Once k s.items once in
      rw (seen, add)
        (
          refl,
          (
            some_room,
            omega (
              arith,
              room,
              length-without k s.items seen,
              length-append (without k s.items) (k ∷ []),
            ),
            Once-snoc k (without k s.items) gone apart,
          ),
          has_key-last k (without k s.items),
        )
  | inr new ↦
      let grown = Once-snoc k s.items new once in
      let one_more = length-append s.items (k ∷ []) in
      elim (Bool-cases (ltb s.maxlen (length (s.items ++ k ∷ [])))) [
        | inr fits ↦
            rw (new, fits, add)
              (refl, (some_room, ground (arith, fits), grown), has_key-last k s.items)
        | inl full ↦
            let (last, shorter) =
              pop_first-last k s.items (ground (arith, full, one_more, some_room)) in
            rw (new, full, add)
              (
                refl,
                (some_room, omega (arith, shorter, room), pop_first-Once (s.items ++ k ∷ []) grown),
                last,
              )
      ]
]
