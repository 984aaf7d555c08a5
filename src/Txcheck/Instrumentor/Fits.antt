-- ===== src/Txcheck/Instrumentor/Fits.antt =====
-- The entries that the instrumentor returns stand in the order that the analyzer asks for.
use mathlib.Core.List.{append_assoc}
use dbfuzz_multidb.Common.{
  ℕ, ◌≡◌, refl, Bool, true, false, ◌&&◌, ◌||◌, ◌==◌, List, [], ◌∷◌, ◌++◌, Option, none, some, arith,
  Text, if◌then◌else◌,
}
use dbfuzz_multidb.Txcheck.Usage.{
  usage, usage_on, has_type, select_read, update_write, insert_write, delete_write,
  before_write_read, after_write_read, version_set_read,
}
use dbfuzz_multidb.Txcheck.Result.{ok, >>=-eq-ok, ok-injective}
use dbfuzz_multidb.Txcheck.Analyzer.Instrument.{is_normal}
use dbfuzz_multidb.Txcheck.Instrumentor.{
  Prod, Schema, Entry, entry, version_read, version_reads, instrument_stmt, instrumentor,
}
use dbfuzz_multidb.Txcheck.Instrumentor.Block.{
  Block, updated, deleted, inserted, queried, alone, instrument_stmt-Block,
}

module _ {E : Type 0} where
  -- The first statement of the test case ahead belongs to the transaction, and so does all before it.
  abbrev pub normal_ahead : ℕ → List (Entry E) → Bool
  normal_ahead tid [] = false
  normal_ahead tid (e ∷ es) = e.tid == tid && (is_normal e.stmt_u || normal_ahead tid es)

  abbrev next_is_write : ℕ → List (Entry E) → Bool
  next_is_write tid [] = false
  next_is_write tid (e ∷ es) =
      e.tid == tid && (has_type e.stmt_u update_write || has_type e.stmt_u delete_write)

  abbrev prev_is_write : ℕ → Option (Entry E) → Bool
  prev_is_write tid none = false
  prev_is_write tid (some e) =
      e.tid == tid && (has_type e.stmt_u update_write || has_type e.stmt_u insert_write)

  -- A read of the instrumentor stands where its write or its statement is.
  abbrev pub fits : Option (Entry E) → Entry E → List (Entry E) → Bool
  fits prev e es =
      if has_type e.stmt_u before_write_read
      then next_is_write e.tid es
      else if has_type e.stmt_u after_write_read
      then prev_is_write e.tid prev
      else if has_type e.stmt_u version_set_read
      then normal_ahead e.tid es
      else true

  abbrev pub all_fit : Option (Entry E) → List (Entry E) → Bool
  all_fit prev [] = true
  all_fit prev (e ∷ es) = fits prev e es && all_fit (some e) es

  abbrev pub AllFit : List (Entry E) → Type 0
  AllFit es = (prev : Option (Entry E)) → all_fit prev es ≡ true

module _ {E : Type 0} (print : Prod E → Text) where
  normal_ahead-version_reads :
      (tid : ℕ) (tables : List Text) (es : List (Entry E))
      → normal_ahead tid es ≡ true
      → normal_ahead tid (version_reads print tid tables ++ es) ≡ true
  normal_ahead-version_reads tid [] es h = h
  normal_ahead-version_reads tid (t ∷ ts) es h =
      ground (arith, normal_ahead-version_reads tid ts es h)

  version_reads-AllFit :
      (tid : ℕ) (tables : List Text) (es : List (Entry E))
      → normal_ahead tid es ≡ true
      → AllFit es
      → AllFit (version_reads print tid tables ++ es)
  version_reads-AllFit tid [] es h fit prev = fit prev
  version_reads-AllFit tid (t ∷ ts) es h fit prev = ground (
    arith,
    normal_ahead-version_reads tid ts es h,
    version_reads-AllFit tid ts es h fit (some (version_read tid t)),
  )

  Block-AllFit :
      (tid : ℕ) (stmt : Prod E) (es rest : List (Entry E))
      → Block print tid stmt es
      → AllFit rest
      → AllFit (es ++ rest)
  Block-AllFit tid stmt es rest (updated tables table before after e) fit =
      rw (e, append_assoc)
        (version_reads-AllFit tid tables _ (ground arith) (λ prev.
          ground (arith, fit (some (entry tid after (usage_on after_write_read true table))))))
  Block-AllFit tid stmt es rest (deleted tables table before e) fit =
      rw (e, append_assoc)
        (version_reads-AllFit tid tables _ (ground arith)
          (λ prev. ground (arith, fit (some (entry tid stmt (usage_on delete_write false table))))))
  Block-AllFit tid stmt es rest (inserted tables table after e) fit =
      rw (e, append_assoc)
        (version_reads-AllFit tid tables _ (ground arith) (λ prev.
          ground (arith, fit (some (entry tid after (usage_on after_write_read true table))))))
  Block-AllFit tid stmt es rest (queried tables e) fit =
      rw (e, append_assoc)
        (version_reads-AllFit tid tables _ (ground arith)
          (λ prev. ground (arith, fit (some (entry tid stmt (usage select_read false))))))
  Block-AllFit tid stmt es rest (alone e) fit = rw e (λ prev. fit _)

  pub instrumentor-AllFit :
      (db_schema : Schema) (queue : List (ℕ × Prod E)) (es : List (Entry E))
      → instrumentor print db_schema queue ≡ ok es
      → AllFit es
  unfolding instrumentor
  instrumentor-AllFit db_schema [] es h = rw (← ok-injective h) (λ prev. refl)
  instrumentor-AllFit db_schema ((tid, stmt) ∷ queue) es h =
      let (block, e1, h1) = >>=-eq-ok (instrument_stmt print db_schema tid stmt) _ h in
      let (rest, e2, h2) = >>=-eq-ok (instrumentor print db_schema queue) _ h1 in
      rw (← ok-injective h2) (
        Block-AllFit tid stmt block rest (instrument_stmt-Block print db_schema tid stmt block e1)
          (instrumentor-AllFit db_schema queue rest e2))
