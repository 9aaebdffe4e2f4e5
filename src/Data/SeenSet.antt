-- ===== src/Data/SeenSet.antt =====
-- `SeenSet` of data/normalization/book_stream.py: the bounded set of keys, least recently seen first.
pub mod Bounded
pub mod Witnesses
use kalshi_quant_research.Prelude.{
  ℕ, Bool, true, false, ◌||◌, List, [], ◌∷◌, ◌++◌, String, ltb, length, if◌then◌else◌, ◌=?◌,
  string_key,
}

pub record SeenSet : Type 0 where
  pub maxlen : ℕ
  pub items : List String

abbrev pub has_key : String → List String → Bool
has_key k [] = false
has_key k (x ∷ xs) = (x =? k) || has_key k xs

-- `del items[k]`, of a key that stands once
abbrev pub without : String → List String → List String
without k [] = []
without k (x ∷ xs) = if x =? k then xs else x ∷ without k xs

-- `move_to_end`
abbrev pub move_to_end : String → List String → List String
move_to_end k xs = without k xs ++ k ∷ []

-- `popitem(last=False)`
abbrev pub pop_first : List String → List String
pop_first [] = []
pop_first (x ∷ xs) = xs

pub add : String → SeenSet → Bool × SeenSet
add key s =
    let grown = s.items ++ key ∷ [] in
    if has_key key s.items
    then (false, record s { items = move_to_end key s.items })
    else (true, record s { items = if ltb s.maxlen (length grown) then pop_first grown else grown })

-- `__len__`
abbrev pub count : SeenSet → ℕ
count s = length s.items
