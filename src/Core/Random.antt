-- ===== src/Core/Random.antt =====
-- The random choices of src/core/random.cc and src/core/random.hh, from a file or from the generator
-- `smith::rng`. The distribution over the generator is the parameter `pick`. A file is read with
-- three bytes at most at a time, so that an `int` holds what is read.
pub mod Bounds
use dbfuzz_multidb.Common.{
  ℕ, zero, suc, ◌+◌, ◌*◌, ◌-◌, ◌/◌, ◌%◌, ◌^◌, Bool, true, false, not, ◌||◌, ◌==◌, ltb, leb, List,
  [], ◌∷◌, ◌++◌, Option, none, some, Text, length, get_or, get_elem?, if◌then◌else◌,
}
use dbfuzz_multidb.Txcheck.Result.{
  Result, ok, throw, process_exit, no_candidates, demand, out_of_bounds, ◌>>=◌,
}

-- `buffer` is NULL for an empty file. The flag `shown_all_used` and `read_byte` serve a warning only.
pub record FileRandomMachine : Type 0 where
  pub buffer : Option (List ℕ)
  pub cur_pos : ℕ
  pub end_pos : ℕ
  pub read_byte : ℕ

-- The constructor, on the bytes of the file. For an empty file the positions stay unset; nothing
-- reads them.
unfoldable pub file_random_machine : List ℕ → Result FileRandomMachine
file_random_machine bytes =
    if length bytes == 0
    then ok (record { buffer = none; cur_pos = 0; end_pos = 0; read_byte = 0 })
    else if ltb (length bytes) 100
    then throw process_exit
    else ok (record { buffer = some bytes; cur_pos = 0; end_pos = length bytes; read_byte = 0 })

-- `memcpy` of `n` bytes from a place on into an `int` that is 0, in little endian.
abbrev pub copy_bytes : List ℕ → ℕ → ℕ → ℕ
copy_bytes bytes pos zero = 0
copy_bytes bytes pos (suc n) = get_or bytes pos 0 + 256 * copy_bytes bytes (suc pos) n

abbrev pub read_size : FileRandomMachine → ℕ → ℕ
read_size m byte_num =
    if ltb (m.end_pos - m.cur_pos) byte_num then m.end_pos - m.cur_pos else byte_num

abbrev pub advance : FileRandomMachine → ℕ → FileRandomMachine
advance m read_num = record m {
  cur_pos = if leb m.end_pos (m.cur_pos + read_num) then 0 else m.cur_pos + read_num;
  read_byte = m.read_byte + read_num;
}

-- `max - min + 1` is at most 0 where `max + 1 - min` is 0 on ℕ.
abbrev pub read_random :
    List ℕ → (scope min byte_num : ℕ) → FileRandomMachine → ℕ × FileRandomMachine
read_random bytes zero min byte_num m = (min, m)
read_random bytes (suc n) min byte_num m = (
  min + copy_bytes bytes m.cur_pos (read_size m byte_num) % suc n,
  advance m (read_size m byte_num),
)

abbrev pub read_buffer :
    Option (List ℕ) → (min max byte_num : ℕ) → FileRandomMachine → ℕ × FileRandomMachine
read_buffer none min max byte_num m = (0, m)
read_buffer (some bytes) min max byte_num m = read_random bytes (max + 1 - min) min byte_num m

-- Every caller asks for one, two or three bytes, so that `rand_num` is never negative; from four on
-- its sign bit could be set, which is not modelled.
unfoldable pub get_random_num : (min max byte_num : ℕ) → FileRandomMachine → ℕ × FileRandomMachine
get_random_num min max byte_num m = read_buffer m.buffer min max byte_num m

-- 0xff >> 3 is 31 and 0xffff >> 3 is 8191.
abbrev pub dx_bytes : ℕ → ℕ
dx_bytes x = if leb x 31 then 1 else if leb x 8191 then 2 else 3

-- The quotes, the backslash, `%`, `_` and the line feed.
abbrev pub is_left_out : ℕ → Bool
is_left_out c = c == 39 || c == 34 || c == 92 || c == 37 || c == 95 || c == 10

-- `using_file` and `smith::rng`
pub record Source (G : Type 0) : Type 0 where
  pub using_file : Option FileRandomMachine
  pub rng : G

module _ {G : Type 0} (pick : (min max : ℕ) → G → ℕ × G) where
  abbrev pub from_file : Source G → ℕ × FileRandomMachine → ℕ × Source G
  from_file s (n, m) = (n, record s { using_file = some m })

  abbrev pub from_rng : Source G → ℕ × G → ℕ × Source G
  from_rng s (n, g) = (n, record s { rng = g })

  -- `d6`, `d9`, `d12` and `d20` read one byte, `d42` and `d100` two.
  abbrev die_of : (sides byte_num : ℕ) → Option FileRandomMachine → Source G → ℕ × Source G
  unfolding get_random_num
  die_of sides byte_num none s = from_rng s (pick 1 sides s.rng)
  die_of sides byte_num (some m) s = from_file s (get_random_num 1 sides byte_num m)

  unfoldable pub d6 : Source G → ℕ × Source G
  unfolding get_random_num
  d6 s = die_of 6 1 s.using_file s

  unfoldable pub d9 : Source G → ℕ × Source G
  unfolding get_random_num
  d9 s = die_of 9 1 s.using_file s

  unfoldable pub d12 : Source G → ℕ × Source G
  unfolding get_random_num
  d12 s = die_of 12 1 s.using_file s

  unfoldable pub d20 : Source G → ℕ × Source G
  unfolding get_random_num
  d20 s = die_of 20 1 s.using_file s

  unfoldable pub d42 : Source G → ℕ × Source G
  unfolding get_random_num
  d42 s = die_of 42 2 s.using_file s

  unfoldable pub d100 : Source G → ℕ × Source G
  unfolding get_random_num
  d100 s = die_of 100 2 s.using_file s

  abbrev pub dx_of : ℕ → Option FileRandomMachine → Source G → ℕ × Source G
  unfolding get_random_num
  dx_of x none s = from_rng s (pick 1 x s.rng)
  dx_of x (some m) s = if x == 1 then (1, s) else from_file s (get_random_num 1 x (dx_bytes x) m)

  unfoldable pub dx : ℕ → Source G → ℕ × Source G
  unfolding get_random_num
  dx x s = dx_of x s.using_file s

  -- `random_pick` of a vector: the element at the index that is chosen, which is a position of the
  -- distribution 0 .. size - 1 or, from a file, `dx(size) - 1`.
  abbrev pub pick_index : {A : Type 0} → List A → Option FileRandomMachine → Source G → ℕ × Source G
  unfolding get_random_num dx
  pick_index container none s = from_rng s (pick 0 (length container - 1) s.rng)
  pick_index container (some m) s = dx (length container) s

  abbrev pub element_at :
      {A : Type 0} → List A → Option FileRandomMachine → ℕ × Source G → Result (A × Source G)
  element_at container none (n, s) = demand (get_elem? container n) out_of_bounds >>= λ a. ok (a, s)
  element_at container (some m) (zero, s) = throw out_of_bounds
  element_at container (some m) (suc n, s) =
      demand (get_elem? container n) out_of_bounds >>= λ a. ok (a, s)

  unfoldable pub random_pick : {A : Type 0} → List A → Source G → Result (A × Source G)
  unfolding get_random_num dx
  random_pick [] s = throw no_candidates
  random_pick (a ∷ container) s =
      element_at (a ∷ container) s.using_file (pick_index (a ∷ container) s.using_file s)

  -- `random_string`: the loop draws until `char_num` characters are taken. Whether that happens hangs
  -- on the draws, so that the model counts them: `fuel` is the number of draws it allows.
  unfoldable pub random_string : ℕ → ℕ → Text → Source G → Option (Text × Source G)
  unfolding get_random_num dx
  random_string fuel zero str s = some (str, s)
  random_string zero (suc char_num) str s = none
  random_string (suc fuel) (suc char_num) str s =
      let (rand_value, t) = dx 256 s in
      let c = 32 + (rand_value + 2 ^ 32 - 1) % 2 ^ 32 % 95 in
      elim (is_left_out c) [
        | true ↦ random_string fuel (suc char_num) str t
        | false ↦ random_string fuel char_num (str ++ c ∷ []) t
      ]
