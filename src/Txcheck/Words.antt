-- ===== src/Txcheck/Words.antt =====
-- `extract_words_begin_with` of src/txcheck/instrumentor.cc. The positions `pos` and `interval_pos`
-- are the walk over the rest of the text; the `set<string>` is a sorted list.
use dbfuzz_multidb.Common.{
  ℕ, Bool, true, false, ◌&&◌, ◌||◌, ◌==◌, ltb, List, [], ◌∷◌, ◌++◌, Option, none, some,
  if◌then◌else◌, Text, text_eq, ◌≡◌, refl, codes,
}

-- `str.find(begin_str, pos) == pos`
abbrev pub starts_with : Text → Text → Bool
starts_with [] s = true
starts_with (b ∷ bs) [] = false
starts_with (b ∷ bs) (c ∷ s) = (b == c) && starts_with bs s

-- `operator<` of strings.
abbrev pub text_lt : Text → Text → Bool
text_lt [] [] = false
text_lt [] (d ∷ t) = true
text_lt (c ∷ s) [] = false
text_lt (c ∷ s) (d ∷ t) = if c == d then text_lt s t else ltb c d

abbrev pub insert_word : Text → List Text → List Text
insert_word w [] = w ∷ []
insert_word w (v ∷ vs) =
    if text_eq w v then v ∷ vs else if text_lt w v then w ∷ v ∷ vs else v ∷ insert_word w vs

-- A word may begin at the start of the text or behind `(`, a blank or a line feed.
abbrev pub may_begin : Option ℕ → Bool
may_begin none = true
may_begin (some c) = c == b'(' || c == 32 || c == 10

abbrev pub ends_word : ℕ → Bool
ends_word c = c == b')' || c == b'.' || c == 32 || c == 10 || c == b';'

-- `prev` is the character before the rest of the text; `word` holds what has been read of a word.
unfoldable pub scan_words : Text → Option ℕ → Option Text → Text → List Text
scan_words begin_str prev none [] = []
scan_words begin_str prev none (c ∷ s) =
    scan_words begin_str (some c)
      (if starts_with begin_str (c ∷ s) && may_begin prev then some (c ∷ []) else none) s
scan_words begin_str prev (some word) [] = insert_word word []
scan_words begin_str prev (some word) (c ∷ s) =
    let ended = insert_word word (scan_words begin_str (some c) none s) in
    let longer = scan_words begin_str (some c) (some (word ++ c ∷ [])) s in
    if ends_word c then ended else longer

unfoldable pub extract_words_begin_with : Text → Text → List Text
unfolding scan_words
extract_words_begin_with str begin_str = scan_words begin_str none none str

words_found :
    extract_words_begin_with (codes "select * from t_2, t_1 where (t_1.c_t_3 > 0)") (codes "t_")
    ≡ codes "t_1" ∷ codes "t_2," ∷ []
unfolding extract_words_begin_with
words_found = refl
