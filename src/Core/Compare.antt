-- ===== src/Core/Compare.antt =====
-- The comparisons of outputs and contents in src/core/general_process.cc. A number of a result is
-- printed anew through `double`: that is the parameter `float_text`, for `stod`, `round` and
-- `to_string`. The files with the differences are left out.
pub mod Rows
use mathlib.Core.Option
use dbfuzz_multidb.Common.{◌≡◌, refl}
use dbfuzz_multidb.Common.{
  ℕ, zero, suc, ◌+◌, ◌*◌, ◌-◌, ◌^◌, ◌%◌, Bool, true, false, not, ◌&&◌, ◌||◌, ◌==◌, ltb, leb, List,
  [], ◌∷◌, map, Option, none, some, Text, codes, text_eq, length, take, any, if◌then◌else◌,
}

-- A `char` is signed: as a `size_t` it keeps its value below 128, and above it wraps around.
abbrev pub char_size_t : ℕ → ℕ
char_size_t c = if ltb c 128 then c else 2 ^ 64 - 256 + c

-- The loop stops at the NUL that ends a string.
abbrev pub bkdr_hash : Text → ℕ → ℕ
bkdr_hash [] hash = hash
bkdr_hash (c ∷ str) hash = elim (c == 0) [
  | true ↦ hash
  | false ↦ bkdr_hash str ((hash * 131 + char_size_t c) % 2 ^ 64)
]

abbrev pub row_hash : List Text → ℕ → ℕ
row_hash [] hash = hash
row_hash (str ∷ row) hash = row_hash row (bkdr_hash str hash)

-- `std::sort`
abbrev pub insert_sorted : ℕ → List ℕ → List ℕ
insert_sorted x [] = x ∷ []
insert_sorted x (y ∷ ys) = if leb x y then x ∷ y ∷ ys else y ∷ insert_sorted x ys

abbrev pub sort_hashes : List ℕ → List ℕ
sort_hashes [] = []
sort_hashes (x ∷ xs) = insert_sorted x (sort_hashes xs)

abbrev pub row_hashes : List (List Text) → List ℕ
row_hashes output = map (λ row. row_hash row 0) output

abbrev pub hash_output_to_set : List (List Text) → List ℕ
hash_output_to_set output = sort_hashes (row_hashes output)

abbrev is_digit_char : ℕ → Bool
is_digit_char c = leb b'0' c && leb c b'9'

-- The points of the characters behind the first one, `none` where another character is no digit.
abbrev count_points : Text → Option ℕ
count_points [] = some 0
count_points (c ∷ s) =
    if c == b'.'
    then Option.map suc (count_points s)
    else if is_digit_char c
    then count_points s
    else none

abbrev at_most_one : Option ℕ → Bool
at_most_one none = false
at_most_one (some point) = leb point 1

abbrev is_sign : ℕ → Bool
is_sign c = c == b'+' || c == b'-'

unfoldable pub is_number : Text → Bool
is_number [] = false
is_number (c ∷ []) = is_digit_char c
is_number (c ∷ d ∷ s) =
    if c == b'.'
    then at_most_one (Option.map suc (count_points (d ∷ s)))
    else if is_digit_char c || (is_sign c && is_digit_char d)
    then at_most_one (count_points (d ∷ s))
    else false

abbrev pub equal_hashes : List ℕ → List ℕ → Bool
equal_hashes [] [] = true
equal_hashes (x ∷ xs) (y ∷ ys) = (x == y) && equal_hashes xs ys
equal_hashes _ _ = false

-- `a_content.begin()`, as the place in the map.
abbrev first_table : ℕ
first_table = 0

module _ (float_text : Text → Text) where
  abbrev pub normalize_text : Text → Text
  unfolding is_number
  normalize_text str = if is_number str && any (λ c. c == b'.') str then float_text str else str

  abbrev pub nomoalize_content : List (List Text) → List (List Text)
  unfolding is_number
  nomoalize_content content = map (map normalize_text) content

  -- One statement's output, or one table's content, against another.
  abbrev pub equal_rows : List (List Text) → List (List Text) → Bool
  unfolding is_number
  equal_rows a b =
      equal_hashes (hash_output_to_set (nomoalize_content a))
        (hash_output_to_set (nomoalize_content b))

  abbrev pub equal_outputs : List (List (List Text)) → List (List (List Text)) → Bool
  unfolding is_number
  equal_outputs [] bs = true
  equal_outputs (a ∷ xs) [] = true
  equal_outputs (a ∷ xs) (b ∷ bs) = equal_rows a b && equal_outputs xs bs

  unfoldable pub compare_output : List (List (List Text)) → List (List (List Text)) → Bool
  unfolding is_number
  compare_output a_output b_output =
      (length a_output == length b_output) && equal_outputs a_output b_output

  -- `b_content.count(table)` and `b_content[table]`
  abbrev table_of : Text → List (Text × List (List Text)) → Option (List (List Text))
  table_of table [] = none
  table_of table ((name, content) ∷ rest) =
      if text_eq name table then some content else table_of table rest

  abbrev pub equal_table : Option (List (List Text)) → List (List Text) → Bool
  unfolding is_number
  equal_table none a = false
  equal_table (some b) a = equal_rows a b

  abbrev pub equal_tables : List (Text × List (List Text)) → List (Text × List (List Text)) → Bool
  unfolding is_number
  equal_tables [] b_content = true
  equal_tables ((table, content) ∷ rest) b_content =
      equal_table (table_of table b_content) content && equal_tables rest b_content

  -- The loop begins at `a_content.begin()` and ends where its iterator is `a_content.begin()`: the
  -- tables that it reads are the ones between.
  unfoldable pub compare_content :
      List (Text × List (List Text)) → List (Text × List (List Text)) → Bool
  unfolding is_number
  compare_content a_content b_content =
      (length a_content == length b_content)
      && equal_tables (take (first_table - first_table) a_content) b_content
