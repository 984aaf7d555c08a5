-- ===== src/Common/Int.antt =====
-- The C++ `int` values that the analyzer compares: keys of rows, parsed from text by `stoi`.
use dbfuzz_multidb.Common.Tests.{◌==◌, leb, if◌then◌else◌}
use Prim.Native.Nat.{ℕ, zero, suc, ◌+◌, ◌-◌, ◌*◌}
use Prim.Native.Char.{code}
use Prim.Native.String.{String}
use mathlib.Core.Path.{◌≡◌, refl}
use mathlib.Core.Logic.{◌↔◌}
use mathlib.Core.Bool.{Bool, true, false, ◌&&◌, ◌||◌}
use mathlib.Core.Option.{Option, none, some}
use mathlib.Core.List.{List, [], ◌∷◌}
use native.Mathlib.Omega.{arith}

-- `negsuc n` is -(n + 1).
pub data ℤ : Type 0 where
  pos : ℕ → ℤ
  negsuc : ℕ → ℤ

abbrev pub int_eq : ℤ → ℤ → Bool
int_eq (pos a) (pos b) = a == b
int_eq (negsuc a) (negsuc b) = a == b
int_eq _ _ = false

pub int_eq_iff : (a b : ℤ) → (int_eq a b ≡ true) ↔ (a ≡ b)
int_eq_iff a b = ground arith

-- A text is the list of its bytes.
abbrev pub Text : Type 0
Text = List ℕ

-- The bytes of an ASCII literal.
abbrev pub codes : String → Text
codes String.[] = []
codes (String.◌∷◌ c s) = code c ∷ codes s

abbrev pub text_eq : Text → Text → Bool
text_eq [] [] = true
text_eq (x ∷ xs) (y ∷ ys) = (x == y) && text_eq xs ys
text_eq _ _ = false

pub text_eq_refl : (s : Text) → text_eq s s ≡ true
text_eq_refl [] = refl
text_eq_refl (c ∷ s) = ground (arith, text_eq_refl s)

pub text_eq→eq : (s t : Text) → text_eq s t ≡ true → s ≡ t
text_eq→eq [] [] h = refl
text_eq→eq [] (y ∷ t) h = ground arith
text_eq→eq (x ∷ s) [] h = ground arith
text_eq→eq (x ∷ s) (y ∷ t) h = ground (arith, text_eq→eq s t)

abbrev is_digit : ℕ → Bool
is_digit c = leb b'0' c && leb c b'9'

-- The digits at the head of a text, read in base ten onto `acc`.
abbrev digits_value : ℕ → Text → ℕ
digits_value acc [] = acc
digits_value acc (c ∷ s) =
    let rest = digits_value (acc * 10 + (c - b'0')) s in if is_digit c then rest else acc

abbrev starts_with_digit : Text → Bool
starts_with_digit [] = false
starts_with_digit (c ∷ s) = is_digit c

-- The white space of `isspace`: blank, tab, line feed, vertical tab, form feed, carriage return.
abbrev skip_space : Text → Text
skip_space [] = []
skip_space (c ∷ s) = if c == 32 || leb 9 c && leb c 13 then skip_space s else c ∷ s

abbrev stoi_pos : Text → Option ℤ
stoi_pos s =
    if starts_with_digit s
    then (if leb (digits_value 0 s) 2147483647 then some (pos (digits_value 0 s)) else none)
    else none

abbrev negate : ℕ → ℤ
negate zero = pos 0
negate (suc n) = negsuc n

abbrev stoi_neg : Text → Option ℤ
stoi_neg s =
    if starts_with_digit s
    then (if leb (digits_value 0 s) 2147483648 then some (negate (digits_value 0 s)) else none)
    else none

abbrev stoi_signed : Text → Option ℤ
stoi_signed [] = none
stoi_signed (c ∷ s) =
    if c == b'-' then stoi_neg s else if c == b'+' then stoi_pos s else stoi_pos (c ∷ s)

-- `std::stoi` in base ten: `none` where it throws, without digits or out of the range of `int`.
unfoldable pub stoi : Text → Option ℤ
stoi s = stoi_signed (skip_space s)

stoi_runs :
    (stoi (32 ∷ b'-' ∷ b'4' ∷ b'2' ∷ b'x' ∷ []) ≡ some (negsuc 41)) × (stoi (b'x' ∷ []) ≡ none)
unfolding stoi
stoi_runs = (refl, refl)
