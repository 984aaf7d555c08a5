-- ===== src/Txcheck/Instrumentor/Passes.antt =====
-- The analyzer's check of the instrumentation accepts what the instrumentor made.
use mathlib.Core.List.{append_assoc}
use native.Mathlib.Numerals.{add-one}
use dbfuzz_multidb.Common.{
  ℕ, suc, ◌+◌, ◌-◌, ◌≡◌, refl, sym, subst, true, false, List, [], ◌∷◌, ◌++◌, map, Option, none,
  some, arith, Text, Bool-cases, inl, inr, length, get_or, range, length-append,
}
use dbfuzz_multidb.Txcheck.Usage.{
  usage, has_type, init_type, before_write_read, after_write_read, version_set_read,
}
use dbfuzz_multidb.Txcheck.Result.{ok, fold_result}
use dbfuzz_multidb.Txcheck.Analyzer.{Analyzer, instrument_depend, build_stmt_depend_from_stmt_idx}
use dbfuzz_multidb.Txcheck.Analyzer.Instrument.{
  is_normal, usage_of, tid_of, find_normal, instrument_stmt, build_stmt_instrument_dependency,
}
use dbfuzz_multidb.Txcheck.Instrumentor.{Prod, Schema, Entry, instrumentor}
use dbfuzz_multidb.Txcheck.Instrumentor.Fits.{normal_ahead, fits, all_fit, instrumentor-AllFit}

get_or-map :
    {A B : Type 0} (f : A → B) (before : List A) (a : A) (after : List A) (d : B)
    → get_or (map f (before ++ a ∷ after)) (length before) d ≡ f a
get_or-map f [] a after d = refl
get_or-map f (b ∷ before) a after d = get_or-map f before a after d

-- The check does not throw at index `i`.
abbrev StmtOk : Analyzer → ℕ → Type 0
StmtOk da i = (s : Analyzer) → (t : Analyzer) × (instrument_stmt da i s ≡ ok t)

module _ {E : Type 0} (da : Analyzer) where
  -- The queue of the analyzer from index `i` on is the list of entries.
  abbrev Aligned : ℕ → List (Entry E) → Type 0
  Aligned i [] = i ≡ da.stmt_num
  Aligned i (e ∷ es) = (usage_of da i ≡ e.stmt_u) × (tid_of da i ≡ e.tid) × Aligned (suc i) es

  abbrev PrevAligned : ℕ → Option (Entry E) → Type 0
  PrevAligned i none = Unit {0}
  PrevAligned i (some e) =
      (j : ℕ) × (i ≡ suc j) × (usage_of da j ≡ e.stmt_u) × (tid_of da j ≡ e.tid)

  Aligned-length : (i : ℕ) (es : List (Entry E)) → Aligned i es → i + length es ≡ da.stmt_num
  Aligned-length i [] a = omega arith
  Aligned-length i (e ∷ es) a = omega (arith, Aligned-length (suc i) es a.2)

  find_normal-ok :
      (tid i : ℕ) (es : List (Entry E))
      → Aligned i es
      → normal_ahead tid es ≡ true
      → (k : ℕ) × (find_normal da tid (length es) i ≡ ok k)
  unfolding find_normal
  find_normal-ok tid i [] a h = ground arith
  find_normal-ok tid i (e ∷ es) a h = elim (Bool-cases (is_normal e.stmt_u)) [
    | inl here ↦ (i, ground arith)
    | inr later ↦
        let (k, found) = find_normal-ok tid (suc i) es a.2 (ground arith) in (k, ground arith)
  ]

  before_write_ok :
      (i : ℕ) (e : Entry E) (es : List (Entry E))
      → Aligned i (e ∷ es)
      → has_type e.stmt_u before_write_read ≡ true
      → fits none e es ≡ true
      → StmtOk da i
  unfolding instrument_stmt
  before_write_ok i e [] a kind h s = ground arith
  before_write_ok i e (n ∷ es) a kind h s = (
    build_stmt_depend_from_stmt_idx i (i + 1) instrument_depend s,
    rw (add-one, a.0, a.1, a.2.0, a.2.1)
        (ground (arith, kind, Aligned-length (suc i) (n ∷ es) a.2)),
  )

  after_write_ok :
      (i : ℕ) (prev : Option (Entry E)) (e : Entry E) (es : List (Entry E))
      → Aligned i (e ∷ es)
      → PrevAligned i prev
      → has_type e.stmt_u after_write_read ≡ true
      → fits prev e es ≡ true
      → StmtOk da i
  unfolding instrument_stmt
  after_write_ok i none e es a p kind h s = ground arith
  after_write_ok i (some q) e es a (j, eq, pu, pt) kind h s =
      let back : i - 1 ≡ j = omega arith in
      (
        build_stmt_depend_from_stmt_idx j i instrument_depend s,
        rw (a.0, a.1, back, pu, pt) (ground (arith, kind)),
      )

  version_set_ok :
      (i : ℕ) (e : Entry E) (es : List (Entry E))
      → Aligned i (e ∷ es)
      → has_type e.stmt_u version_set_read ≡ true
      → fits none e es ≡ true
      → StmtOk da i
  unfolding instrument_stmt
  version_set_ok i e es a kind h s =
      let (k, found) = find_normal-ok e.tid (suc i) es a.2 (ground arith) in
      let room : da.stmt_num - suc i ≡ length es = omega (arith, Aligned-length (suc i) es a.2) in
      (
        build_stmt_depend_from_stmt_idx i k instrument_depend s,
        rw (add-one, a.0, a.1, room, found) (ground (arith, kind)),
      )

  other_ok :
      (i : ℕ) (e : Entry E) (es : List (Entry E))
      → Aligned i (e ∷ es)
      → has_type e.stmt_u before_write_read ≡ false
      → has_type e.stmt_u after_write_read ≡ false
      → has_type e.stmt_u version_set_read ≡ false
      → StmtOk da i
  unfolding instrument_stmt
  other_ok i e es a b c d s = (s, rw (a.0) (ground (arith, b, c, d)))

  stmt_ok :
      (i : ℕ) (prev : Option (Entry E)) (e : Entry E) (es : List (Entry E))
      → Aligned i (e ∷ es)
      → PrevAligned i prev
      → fits prev e es ≡ true
      → StmtOk da i
  stmt_ok i prev e es a p h = elim (Bool-cases (has_type e.stmt_u before_write_read)) [
    | inl b ↦ before_write_ok i e es a b (ground arith)
    | inr nb ↦ elim (Bool-cases (has_type e.stmt_u after_write_read)) [
      | inl c ↦ after_write_ok i prev e es a p c h
      | inr nc ↦ elim (Bool-cases (has_type e.stmt_u version_set_read)) [
        | inl d ↦ version_set_ok i e es a d (ground arith)
        | inr nd ↦ other_ok i e es a nb nc nd
      ]
    ]
  ]

  all_ok :
      (i : ℕ) (prev : Option (Entry E)) (es : List (Entry E))
      → Aligned i es
      → PrevAligned i prev
      → all_fit prev es ≡ true
      → (s : Analyzer)
      → (t : Analyzer) × (fold_result (instrument_stmt da) (range i (length es)) s ≡ ok t)
  all_ok i prev [] a p h s = (s, refl)
  all_ok i prev (e ∷ es) a p h s =
      let (u, first) = stmt_ok i prev e es a p (ground arith) s in
      let (t, rest) = all_ok (suc i) (some e) es a.2 (i, refl, a.0, a.1) (ground arith) u in
      (t, rw first rest)

  Aligned-append :
      (before es : List (Entry E))
      → da.f_txn_id_queue ≡ map (λ e. e.tid) (before ++ es)
      → da.f_stmt_usage ≡ map (λ e. e.stmt_u) (before ++ es)
      → da.stmt_num ≡ length (before ++ es)
      → Aligned (length before) es
  Aligned-append before [] q u n = omega (arith, length-append before [])
  Aligned-append before (e ∷ es) q u n =
      let shift = append_assoc before (e ∷ []) es in
      let longer : length (before ++ e ∷ []) ≡ suc (length before) =
        omega (arith, length-append before (e ∷ [])) in
      (
        rw u (get_or-map (λ (f : Entry E). f.stmt_u) before e es (usage init_type false)),
        rw q (get_or-map (λ (f : Entry E). f.tid) before e es 0),
        rw longer at (Aligned-append (before ++ e ∷ []) es (rw shift q) (rw shift u) (rw shift n)),
      )

-- If the queue of the analyzer is the queue that the instrumentor returned, then
-- `build_stmt_instrument_dependency` does not throw.
pub instrument_dependency-instrumentor :
    {E : Type 0} (print : Prod E → Text) (db_schema : Schema) (queue : List (ℕ × Prod E))
    (es : List (Entry E)) (da : Analyzer)
    → instrumentor print db_schema queue ≡ ok es
    → da.f_txn_id_queue ≡ map (λ e. e.tid) es
    → da.f_stmt_usage ≡ map (λ e. e.stmt_u) es
    → da.stmt_num ≡ length es
    → (t : Analyzer) × (build_stmt_instrument_dependency da ≡ ok t)
unfolding build_stmt_instrument_dependency
instrument_dependency-instrumentor print db_schema queue es da h q u n =
    subst (λ (k : ℕ). (t : Analyzer) × (fold_result (instrument_stmt da) (range 0 k) da ≡ ok t))
      (sym n)
      (all_ok da 0 none es (Aligned-append da [] es q u n) tt
        (instrumentor-AllFit print db_schema queue es h none) da)
