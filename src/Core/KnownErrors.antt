-- ===== src/Core/KnownErrors.antt =====
-- The list of known errors, src/core/known_errors.cc. A pattern of the second file is a regular
-- expression of the standard library: the type `Regex`, the parameter `compile` for its constructor,
-- which may throw, and `regex_search`.
use dbfuzz_multidb.Common.{
  ℕ, ◌+◌, ◌≡◌, inl, inr, refl, ap, arith, Bool, true, false, ◌&&◌, ◌||◌, ◌==◌, Bool-cases, List, [],
  ◌∷◌, ◌++◌, Option, none, some, Text, any, map, select, length, if◌then◌else◌,
}
use dbfuzz_multidb.Txcheck.Instrumentor.{contains_text}

-- The carriage return, the line feed and the blank at the end are taken off.
abbrev pub is_trimmed : ℕ → Bool
is_trimmed c = c == 13 || c == 10 || c == 32

abbrev pub is_nil : Text → Bool
is_nil [] = true
is_nil (c ∷ s) = false

abbrev pub trim_right : Text → Text
trim_right [] = []
trim_right (c ∷ s) = let rest = trim_right s in if is_nil rest && is_trimmed c then [] else c ∷ rest

-- An empty line or a comment.
abbrev pub skips_line : Text → Bool
skips_line [] = true
skips_line (c ∷ s) = c == b'#'

-- The lines that `getline` returns.
unfoldable pub load_file : List Text → List Text
load_file [] = []
load_file (line ∷ f) =
    let rest = load_file f in
    let kept = if is_nil (trim_right line) then rest else trim_right line ∷ rest in
    if skips_line line then rest else kept

pub record KnownErrors (Regex : Type 0) : Type 0 where
  pub exact_patterns : List Text
  pub regex_patterns : List Regex
  pub suppressed_count : ℕ

abbrev add_regexes : {Regex : Type 0} → (Text → Option Regex) → List Text → List Regex
add_regexes compile [] = []
add_regexes compile (line ∷ lines) = elim (compile line) [
  | none ↦ add_regexes compile lines
  | some re ↦ re ∷ add_regexes compile lines
]

-- `known_errors_init`, on the lines of its two files; a file that is missing has none.
unfoldable pub known_errors_init :
    {Regex : Type 0}
    → (Text → Option Regex)
    → List Text
    → List Text
    → KnownErrors Regex
    → KnownErrors Regex
unfolding load_file
known_errors_init compile known known_re k = record k {
  exact_patterns = k.exact_patterns ++ load_file known;
  regex_patterns = k.regex_patterns ++ add_regexes compile (load_file known_re);
}

module _ {Regex : Type 0} (regex_search : Text → Regex → Bool) where
  abbrev count_suppressed : KnownErrors Regex → KnownErrors Regex
  count_suppressed k = record k { suppressed_count = k.suppressed_count + 1 }

  unfoldable pub is_known_error : Text → KnownErrors Regex → Bool × KnownErrors Regex
  is_known_error msg k =
      if any (λ pat. contains_text pat msg) k.exact_patterns
      then (true, count_suppressed k)
      else if any (regex_search msg) k.regex_patterns
      then (true, count_suppressed k)
      else (false, k)

trim_right-short : (s : Text) → is_nil (trim_right s) ≡ false → is_nil s ≡ false
trim_right-short [] h = h
trim_right-short (c ∷ s) h = refl

-- The last character of a text.
abbrev ends_trimmed : Text → Bool
ends_trimmed [] = false
ends_trimmed (c ∷ []) = is_trimmed c
ends_trimmed (c ∷ d ∷ s) = ends_trimmed (d ∷ s)

ends_trimmed-cons :
    (c : ℕ) (s : Text)
    → is_nil s && is_trimmed c ≡ false
    → ends_trimmed s ≡ false
    → ends_trimmed (c ∷ s) ≡ false
ends_trimmed-cons c [] h k = ground arith
ends_trimmed-cons c (d ∷ s) h k = k

trim_right-ends : (s : Text) → ends_trimmed (trim_right s) ≡ false
trim_right-ends [] = refl
trim_right-ends (c ∷ s) = elim (Bool-cases (is_nil (trim_right s) && is_trimmed c)) [
  | inl h ↦ rw h refl
  | inr h ↦ rw h (ends_trimmed-cons c (trim_right s) h (trim_right-ends s))
]

-- No pattern that is loaded is empty, which would occur in every message, and none ends in a blank or
-- the end of a line.
pub load_file-patterns :
    (f : List Text) → any (λ pat. is_nil pat || ends_trimmed pat) (load_file f) ≡ false
unfolding load_file
load_file-patterns [] = refl
load_file-patterns (line ∷ f) = ground (arith, load_file-patterns f, trim_right-ends line)

module _ {Regex : Type 0} (regex_search : Text → Regex → Bool) where
  -- A message holds one of the patterns.
  abbrev pub is_known : KnownErrors Regex → Text → Bool
  is_known k msg =
      any (λ pat. contains_text pat msg) k.exact_patterns || any (regex_search msg) k.regex_patterns

  -- The messages that come in, one after another, with the answers.
  abbrev pub check_messages : List Text → KnownErrors Regex → List Bool × KnownErrors Regex
  unfolding is_known_error
  check_messages [] k = ([], k)
  check_messages (msg ∷ msgs) k =
      let (answer, l) = is_known_error regex_search msg k in
      let (answers, m) = check_messages msgs l in (answer ∷ answers, m)

  same_patterns :
      (msg : Text) (k : KnownErrors Regex)
      → is_known_error regex_search msg k ≡ (
        is_known k msg,
        record k { suppressed_count = k.suppressed_count + (if is_known k msg then 1 else 0) },
      )
  unfolding is_known_error
  same_patterns msg k = ground arith

  -- For every sequence of messages the answers of `is_known_error` say which ones hold a pattern, and
  -- `suppressed_count` grows by the number of these.
  pub is_known_error-counts :
      (msgs : List Text) (k : KnownErrors Regex)
      → ((check_messages msgs k).0 ≡ map (is_known k) msgs)
        × ((check_messages msgs k).1.suppressed_count
            ≡ k.suppressed_count + length (select (is_known k) msgs))
  unfolding is_known_error
  is_known_error-counts [] k = (refl, omega arith)
  is_known_error-counts (msg ∷ msgs) k =
      let l : KnownErrors Regex = record k {
        suppressed_count = k.suppressed_count + (if is_known k msg then 1 else 0);
      } in
      let (answers, count) = is_known_error-counts msgs l in
      rw (same_patterns msg k) (ap (λ xs. is_known k msg ∷ xs) answers, ground (arith, count))
