-- ===== src/Core/Compare/Rows.antt =====
-- What `compare_output` and `compare_content` of src/core/general_process.cc decide.
use mathlib.Core.List.Perm
use mathlib.Core.List.{Perm, foldr}
use dbfuzz_multidb.Common.{
  ℕ, ◌*◌, ◌+◌, ◌%◌, ◌^◌, arith, ◌≡◌, refl, sym, ap, ◌∙◌, subst, ◌↔◌, true, false, ◌&&◌, ||-false,
  Bool-cases, ◌==◌, leb, inl, inr, List, [], ◌∷◌, ◌++◌, map, Text, length, Each, any,
}
use dbfuzz_multidb.Core.Compare.{
  bkdr_hash, row_hash, row_hashes, is_number, normalize_text, char_size_t, insert_sorted,
  sort_hashes, nomoalize_content, equal_hashes, equal_rows, equal_outputs, compare_output,
  compare_content,
}

insert_sorted_comm :
    (x y : ℕ) (zs : List ℕ)
    → insert_sorted x (insert_sorted y zs) ≡ insert_sorted y (insert_sorted x zs)
insert_sorted_comm x y [] = ground arith
insert_sorted_comm x y (z ∷ zs) = ground (arith, insert_sorted_comm x y zs)

insert_sorted-Perm : (x : ℕ) (ys : List ℕ) → Perm (insert_sorted x ys) (x ∷ ys)
insert_sorted-Perm x [] = Perm.rfl
insert_sorted-Perm x (y ∷ ys) = elim (Bool-cases (leb x y)) [
  | inl h ↦ rw h Perm.rfl
  | inr h ↦ rw h (Perm.trans (Perm.cons y (insert_sorted-Perm x ys)) (Perm.swap x y ys))
]

sort_hashes-Perm : (xs : List ℕ) → Perm (sort_hashes xs) xs
sort_hashes-Perm [] = Perm.rfl
sort_hashes-Perm (x ∷ xs) =
    Perm.trans (insert_sorted-Perm x (sort_hashes xs)) (Perm.cons x (sort_hashes-Perm xs))

sort_hashes-foldr : (xs : List ℕ) → sort_hashes xs ≡ foldr insert_sorted [] xs
sort_hashes-foldr [] = refl
sort_hashes-foldr (x ∷ xs) = ap (insert_sorted x) (sort_hashes-foldr xs)

hashes_set : IsSet (List ℕ)
hashes_set = hlevel

-- Two lists are permutations of each other when they are equal once sorted.
sort_hashes_iff : (xs ys : List ℕ) → (sort_hashes xs ≡ sort_hashes ys) ↔ Perm xs ys
sort_hashes_iff xs ys = (
  λ e.
      Perm.trans (Perm.symm (sort_hashes-Perm xs))
        (subst (λ l. Perm l ys) (sym e) (sort_hashes-Perm ys)),
  λ p.
      sort_hashes-foldr xs
      ∙ Perm.foldr-eq hashes_set insert_sorted insert_sorted_comm p []
      ∙ sym (sort_hashes-foldr ys),
)

equal_hashes_iff : (xs ys : List ℕ) → (equal_hashes xs ys ≡ true) ↔ (xs ≡ ys)
equal_hashes_iff [] [] = ground arith
equal_hashes_iff [] (y ∷ ys) = ground arith
equal_hashes_iff (x ∷ xs) [] = ground arith
equal_hashes_iff (x ∷ xs) (y ∷ ys) = ground (arith, equal_hashes_iff xs ys)

abbrev pub columns_text : List Text → Text
columns_text [] = []
columns_text (str ∷ row) = str ++ columns_text row

bkdr_hash-append :
    (s t : Text) (hash : ℕ)
    → any (λ c. c == 0) s ≡ false
    → bkdr_hash (s ++ t) hash ≡ bkdr_hash t (bkdr_hash s hash)
bkdr_hash-append [] t hash free = refl
bkdr_hash-append (c ∷ s) t hash free =
    let rest = bkdr_hash-append s t ((hash * 131 + char_size_t c) % 2 ^ 64) in ground (arith, rest)

-- The hash of a row without NUL characters is the hash of its columns put together: where one column
-- ends and the next begins does not count.
pub row_hash-columns_text :
    (row : List Text) (hash : ℕ)
    → any (any (λ c. c == 0)) row ≡ false
    → row_hash row hash ≡ bkdr_hash (columns_text row) hash
row_hash-columns_text [] hash free = refl
row_hash-columns_text (str ∷ row) hash free =
    let (here, there) = ||-false _ _ free in
    row_hash-columns_text row (bkdr_hash str hash) there
    ∙ sym (bkdr_hash-append str (columns_text row) hash here)

module _ (float_text : Text → Text) where
  -- Two contents have the same rows, up to the order, for their hashes.
  abbrev pub SameHashes : List (List Text) → List (List Text) → Type 0
  unfolding is_number
  SameHashes a b =
      Perm (row_hashes (nomoalize_content float_text a))
        (row_hashes (nomoalize_content float_text b))

  equal_rows_iff : (a b : List (List Text)) → (equal_rows float_text a b ≡ true) ↔ SameHashes a b
  unfolding is_number
  equal_rows_iff a b =
      let hashes = λ (c : List (List Text)). row_hashes (nomoalize_content float_text c) in
      let equal = equal_hashes_iff (sort_hashes (hashes a)) (sort_hashes (hashes b)) in
      let sorted = sort_hashes_iff (hashes a) (hashes b) in
      (λ h. sorted.0 (equal.0 h), λ p. equal.1 (sorted.1 p))

  equal_outputs_iff :
      (xs ys : List (List (List Text)))
      → (((length xs == length ys) && equal_outputs float_text xs ys) ≡ true)
        ↔ Each SameHashes xs ys
  unfolding is_number
  equal_outputs_iff [] [] = ground arith
  equal_outputs_iff [] (y ∷ ys) = ground arith
  equal_outputs_iff (x ∷ xs) [] = ground arith
  equal_outputs_iff (x ∷ xs) (y ∷ ys) = ground (arith, equal_outputs_iff xs ys, equal_rows_iff x y)

  -- `compare_output` is true exactly when there are as many outputs on both sides and the two outputs
  -- of each statement have the same rows up to their order, each row known by its hash.
  pub compare_output_iff :
      (a_output b_output : List (List (List Text)))
      → (compare_output float_text a_output b_output ≡ true) ↔ Each SameHashes a_output b_output
  unfolding compare_output
  compare_output_iff a_output b_output = equal_outputs_iff a_output b_output

  Each-SameHashes : (xs ys : List (List (List Text))) → Each Perm xs ys → Each SameHashes xs ys
  unfolding is_number
  Each-SameHashes [] [] h = tt
  Each-SameHashes [] (y ∷ ys) h = absurd h
  Each-SameHashes (x ∷ xs) [] h = absurd h
  Each-SameHashes (x ∷ xs) (y ∷ ys) (p, h) = (
    Perm.map (λ row. row_hash row 0) (Perm.map (map (normalize_text float_text)) p),
    Each-SameHashes xs ys h,
  )

  -- The order of the rows does not matter: outputs whose rows are those of the other side in another
  -- order compare as equal.
  pub compare_output-Perm :
      (a_output b_output : List (List (List Text)))
      → Each Perm a_output b_output
      → compare_output float_text a_output b_output ≡ true
  compare_output-Perm a_output b_output h =
      (compare_output_iff a_output b_output).1 (Each-SameHashes a_output b_output h)

  -- `compare_content` is true exactly when the two contents have as many tables: it reads neither
  -- their names nor their rows.
  pub compare_content_iff :
      (a_content b_content : List (Text × List (List Text)))
      → (compare_content float_text a_content b_content ≡ true)
        ↔ (length a_content ≡ length b_content)
  unfolding compare_content
  compare_content_iff a_content b_content = ground arith
