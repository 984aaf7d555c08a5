-- ===== src/Core/Random/Bounds.antt =====
-- The bounds of the random choices of src/core/random.cc and src/core/random.hh.
use dbfuzz_multidb.Common.{
  ℕ, zero, suc, ◌+◌, ◌-◌, ◌%◌, ◌^◌, ◌≤◌, ◌<◌, arith, ◌≡◌, ◌≢◌, refl, sym, ap, ◌∙◌, subst, ◌⊎◌, inl,
  inr, Bool, true, false, Bool-cases, not, ◌&&◌, ◌==◌, leb, List, [], ◌∷◌, ◌++◌, Option, none, some,
  Text, length, all, get_elem?, get_elem?-below, length-append, all-snoc, if◌then◌else◌, mem,
}
use dbfuzz_multidb.Txcheck.Result.{Result, ok, throw, out_of_bounds}
use dbfuzz_multidb.Core.Random.{
  FileRandomMachine, file_random_machine, copy_bytes, read_size, advance, read_random, read_buffer,
  get_random_num, Source, from_file, from_rng, dx, dx_of, dx_bytes, random_pick, element_at,
  pick_index, is_left_out, random_string,
}

-- What a machine reads next lies in its buffer.
abbrev pub WellFormed : FileRandomMachine → Type 0
WellFormed m =
    (m.buffer ≡ none)
    ⊎ ((bytes : List ℕ) × (m.buffer ≡ some bytes)
        × (m.end_pos ≡ length bytes)
        × (m.cur_pos < m.end_pos))

-- The machine that the constructor makes is well formed.
pub file_random_machine-WellFormed :
    (bytes : List ℕ) (m : FileRandomMachine) → file_random_machine bytes ≡ ok m → WellFormed m
unfolding file_random_machine
file_random_machine-WellFormed bytes m returned = ground arith

-- A machine with a buffer, as in `WellFormed`.
abbrev pub Loaded : FileRandomMachine → Type 0
Loaded m =
    (bytes : List ℕ) × (m.buffer ≡ some bytes)
    × (m.end_pos ≡ length bytes)
    × (m.cur_pos < m.end_pos)

advance-Loaded :
    (m : FileRandomMachine) (byte_num : ℕ) → Loaded m → Loaded (advance m (read_size m byte_num))
advance-Loaded m byte_num (bytes, buffer, size, pos) = (bytes, buffer, size, ground arith)

-- The answer of a draw and the machine after it.
abbrev pub InBounds : (min max : ℕ) → ℕ × FileRandomMachine → Type 0
InBounds min max (n, m) = (min ≤ n) × (n ≤ max) × Loaded m

read_random-InBounds :
    (bytes : List ℕ) (scope min max byte_num : ℕ) (m : FileRandomMachine)
    → Loaded m
    → min + scope ≡ suc max
    → min ≤ max
    → InBounds min max (read_random bytes scope min byte_num m)
read_random-InBounds bytes zero min max byte_num m loaded size le = absurd (omega arith)
read_random-InBounds bytes (suc n) min max byte_num m loaded size le =
    let drawn = copy_bytes bytes m.cur_pos (read_size m byte_num) in
    let below : drawn % suc n < suc n = omega arith in
    (omega arith, omega arith, advance-Loaded m byte_num loaded)

get_random_num-InBounds :
    (min max byte_num : ℕ) (m : FileRandomMachine)
    → Loaded m
    → min ≤ max
    → InBounds min max (get_random_num min max byte_num m)
unfolding get_random_num
get_random_num-InBounds min max byte_num m loaded le =
    let (bytes, buffer, size, pos) = loaded in
    subst (λ b. InBounds min max (read_buffer b min max byte_num m)) (sym buffer)
      (read_random-InBounds bytes (max + 1 - min) min max byte_num m loaded (omega arith) le)

-- The number that is read, before it is brought between the bounds.
abbrev pub number_read : Option (List ℕ) → ℕ → FileRandomMachine → ℕ
number_read none byte_num m = 0
number_read (some bytes) byte_num m = copy_bytes bytes m.cur_pos (read_size m byte_num)

module _ {G : Type 0} (pick : (min max : ℕ) → G → ℕ × G)
    (in_range : (min max : ℕ) (g : G)
      → min ≤ max
      → (min ≤ (pick min max g).0) × ((pick min max g).0 ≤ max)) where
  -- A source that draws from the generator, or from a machine with a buffer.
  abbrev pub Ready : Source G → Type 0
  Ready s = (m : FileRandomMachine) → s.using_file ≡ some m → Loaded m

  -- A draw between 1 and `x`.
  abbrev pub Drawn : ℕ → ℕ × Source G → Type 0
  Drawn x (n, s) = (1 ≤ n) × (n ≤ x) × Ready s

  from_file-Drawn :
      (x : ℕ) (s : Source G) (r : ℕ × FileRandomMachine)
      → InBounds 1 x r
      → Drawn x (from_file pick s r)
  from_file-Drawn x s (n, m) (low, high, loaded) =
      (low, high, λ k e. let same : m ≡ k = cc in subst Loaded same loaded)

  from_rng-Drawn :
      (x : ℕ) (s : Source G) → 1 ≤ x → Ready s → Drawn x (from_rng pick s (pick 1 x s.rng))
  from_rng-Drawn x s positive ready =
      let (low, high) = in_range 1 x s.rng positive in (low, high, ready)

  -- `dx(x)` is between 1 and `x`, and leaves its source ready for more.
  pub dx-bounds : (x : ℕ) (s : Source G) → 1 ≤ x → Ready s → Drawn x (dx pick x s)
  unfolding dx get_random_num
  dx-bounds x s positive ready = go s.using_file refl
    where
      go :
          (using : Option FileRandomMachine) → s.using_file ≡ using → Drawn x (dx_of pick x using s)
      go none e = from_rng-Drawn x s positive ready
      go (some m) e =
          elim (x == 1)
            as (λ b.
              Drawn x
                (if b then (1, s) else from_file pick s (get_random_num 1 x (dx_bytes x) m))) [
                  | true ↦ (omega arith, positive, ready)
                  | false ↦
                      from_file-Drawn x s (get_random_num 1 x (dx_bytes x) m)
                        (get_random_num-InBounds 1 x (dx_bytes x) m (ready m e) positive)
                ]

  -- An element of the container is the answer.
  abbrev pub Element : (A : Type 0) → List A → Result (A × Source G) → Type 0
  Element A container r =
      (i : ℕ) × (a : A) × (t : Source G) × (get_elem? container i ≡ some a) × (r ≡ ok (a, t))

  element_at-rng :
      (A : Type 0) (container : List A) (n : ℕ) (s : Source G)
      → n < length container
      → Element A container (element_at pick container none (n, s))
  element_at-rng A container n s below =
      let (a, found) = get_elem?-below container n below in (n, a, s, found, rw found)

  element_at-file :
      (A : Type 0) (container : List A) (m : FileRandomMachine) (r : ℕ × Source G)
      → Drawn (length container) r
      → Element A container (element_at pick container (some m) r)
  element_at-file A container m (zero, s) (low, high, ready) = absurd (omega arith)
  element_at-file A container m (suc n, s) (low, high, ready) =
      let (a, found) = get_elem?-below container n (omega arith) in (n, a, s, found, rw found)

  -- `random_pick` of a vector with elements, from a source that is ready, returns an element of the
  -- vector.
  pub random_pick-Element :
      (A : Type 0) (container : List A) (s : Source G)
      → container ≢ []
      → Ready s
      → Element A container (random_pick pick container s)
  unfolding random_pick dx get_random_num
  random_pick-Element A [] s filled ready = absurd (filled refl)
  random_pick-Element A (a ∷ container) s filled ready = go s.using_file
    where
      go :
          (using : Option FileRandomMachine)
          → Element A
              (a ∷ container)
              (element_at pick (a ∷ container) using (pick_index pick (a ∷ container) using s))
      go none =
          let last = length (a ∷ container) - 1 in
          let chosen = in_range 0 last s.rng (omega arith) in
          element_at-rng A (a ∷ container) (pick 0 last s.rng).0
            (record s { rng = (pick 0 last s.rng).1 }) (omega (arith, chosen.1))
      go (some m) =
          element_at-file A (a ∷ container) m (dx pick (length (a ∷ container)) s)
            (dx-bounds (length (a ∷ container)) s (omega arith) ready)

-- A printable character that is no quote, backslash, percent sign or underscore.
abbrev pub is_plain : ℕ → Bool
is_plain c = leb 32 c && leb c 126 && not (mem c (39 ∷ 34 ∷ 92 ∷ 37 ∷ 95 ∷ []))

module _ {G : Type 0} (pick : (min max : ℕ) → G → ℕ × G) where
  -- How many of the next draws give a character that is taken.
  abbrev pub plain_draws : ℕ → Source G → ℕ
  unfolding dx get_random_num
  plain_draws zero s = 0
  plain_draws (suc n) s =
      (if is_plain (32 + ((dx pick 256 s).0 + 2 ^ 32 - 1) % 2 ^ 32 % 95) then 1 else 0)
      + plain_draws n (dx pick 256 s).1

  left_out_iff : (c : ℕ) → 32 ≤ c → c ≤ 126 → is_left_out c ≡ not (is_plain c)
  left_out_iff c low high = ground arith

  -- The text has as many characters as it is asked for, each of them plain.
  abbrev pub PlainText : ℕ → Option (Text × Source G) → Type 0
  PlainText size r =
      (out : Text) × (t : Source G) × (r ≡ some (out, t))
      × (length out ≡ size)
      × (all is_plain out ≡ true)

  random_string-grows :
      (fuel char_num : ℕ) (str : Text) (s : Source G)
      → char_num ≤ plain_draws fuel s
      → all is_plain str ≡ true
      → PlainText (length str + char_num) (random_string pick fuel char_num str s)
  unfolding random_string dx get_random_num
  random_string-grows fuel zero str s enough plain = (str, s, refl, omega arith, plain)
  random_string-grows zero (suc char_num) str s enough plain = absurd (omega arith)
  random_string-grows (suc fuel) (suc char_num) str s enough plain =
      let u = (dx pick 256 s).1 in
      let c = 32 + ((dx pick 256 s).0 + 2 ^ 32 - 1) % 2 ^ 32 % 95 in
      let below : c ≤ 126 = omega arith in
      let low : 32 ≤ c = omega arith in
      let same = left_out_iff c low below in
      elim (Bool-cases (is_left_out c)) [
        | inl h ↦
            let not_plain : is_plain c ≡ false = ground (arith, same, h) in
            let more : suc char_num ≤ 0 + plain_draws fuel u =
              subst (λ b. suc char_num ≤ (if b then 1 else 0) + plain_draws fuel u) not_plain
                enough in
            let (out, t, returned, size, good) =
              random_string-grows fuel (suc char_num) str u (omega (arith, more)) plain in
            (out, t, rw (random_string, h) returned, size, good)
        | inr h ↦
            let fits : is_plain c ≡ true = ground (arith, same, h) in
            let more : suc char_num ≤ 1 + plain_draws fuel u =
              subst (λ b. suc char_num ≤ (if b then 1 else 0) + plain_draws fuel u) fits enough in
            let (out, t, returned, size, good) =
              random_string-grows fuel char_num (str ++ c ∷ []) u (omega (arith, more))
                (all-snoc is_plain str c ∙ ground (arith, plain, fits)) in
            (
              out,
              t,
              rw (random_string, h) returned,
              omega (arith, size, length-append str (c ∷ [])),
              good,
            )
      ]

  -- Where enough of the draws that it is allowed give a printable character that is no quote,
  -- backslash, percent sign or underscore, `random_string` returns a text of the length that it is
  -- asked for, of such characters.
  pub random_string-plain :
      (fuel char_num : ℕ) (s : Source G)
      → char_num ≤ plain_draws fuel s
      → PlainText char_num (random_string pick fuel char_num [] s)
  random_string-plain fuel char_num s enough =
      let (out, t, returned, size, good) = random_string-grows fuel char_num [] s enough refl in
      (out, t, returned, omega (arith, size), good)

  -- From an empty file, `random_pick` of two or more elements reads before the vector.
  pub random_pick-empty_file :
      (A : Type 0) (a b : A) (container : List A) (m : FileRandomMachine) (g : G)
      → m.buffer ≡ none
      → random_pick pick (a ∷ b ∷ container) (record { using_file = some m; rng = g })
        ≡ throw out_of_bounds
  unfolding random_pick dx get_random_num
  random_pick-empty_file A a b container m g empty =
      let several : (length (a ∷ b ∷ container) == 1) ≡ false = ground arith in
      rw (several, empty_draw (length (a ∷ b ∷ container)) (dx_bytes (length (a ∷ b ∷ container))))
    where
      empty_draw : (x byte_num : ℕ) → get_random_num 1 x byte_num m ≡ (0, m)
      empty_draw x byte_num = ap (λ b. read_buffer b 1 x byte_num m) empty
