-- ===== src/Txcheck/Instrumentor/Clean.antt =====
-- Removing the instrumentation gives the queue back.
use mathlib.Core.List.{map-append}
use dbfuzz_multidb.Common.{ℕ, ◌≡◌, refl, List, [], ◌∷◌, ◌++◌, map, arith, Text}
use dbfuzz_multidb.Txcheck.Result.{ok, >>=-eq-ok, ok-injective}
use dbfuzz_multidb.Txcheck.Instrumentor.{
  Prod, Schema, Entry, version_reads, instrument_stmt, instrumentor, clean_instrument,
}
use dbfuzz_multidb.Txcheck.Instrumentor.Block.{
  Block, updated, deleted, inserted, queried, alone, instrument_stmt-Block,
}

module _ {E : Type 0} where
  -- The statement of an entry with its transaction.
  abbrev pub pair_of : Entry E → ℕ × Prod E
  pair_of e = (e.tid, e.stmt)

  clean-append :
      (es fs : List (Entry E))
      → clean_instrument (es ++ fs) ≡ clean_instrument es ++ clean_instrument fs
  unfolding clean_instrument
  clean-append [] fs = refl
  clean-append (e ∷ es) fs = ground (arith, clean-append es fs)

module _ {E : Type 0} (print : Prod E → Text) where
  clean-version_reads :
      (tid : ℕ) (tables : List Text) (es : List (Entry E))
      → clean_instrument (version_reads print tid tables ++ es) ≡ clean_instrument es
  unfolding clean_instrument
  clean-version_reads tid [] es = refl
  clean-version_reads tid (t ∷ ts) es = clean-version_reads tid ts es

  abbrev IsClean : ℕ → Prod E → List (Entry E) → Type 0
  IsClean tid stmt es = map pair_of (clean_instrument es) ≡ (tid, stmt) ∷ []

  Block-IsClean :
      (tid : ℕ) (stmt : Prod E) (es : List (Entry E))
      → Block print tid stmt es
      → IsClean tid stmt es
  unfolding clean_instrument
  Block-IsClean tid stmt es (updated tables table before after e) =
      rw (e, clean-version_reads tid tables _)
  Block-IsClean tid stmt es (deleted tables table before e) =
      rw (e, clean-version_reads tid tables _)
  Block-IsClean tid stmt es (inserted tables table after e) =
      rw (e, clean-version_reads tid tables _)
  Block-IsClean tid stmt es (queried tables e) = rw (e, clean-version_reads tid tables _)
  Block-IsClean tid stmt es (alone e) = rw e

-- `clean_instrument` undoes the instrumentor: what is left of the entries that it returns is the
-- queue that it was given, each statement with its transaction and in its place.
pub clean-instrumentor :
    {E : Type 0} (print : Prod E → Text) (db_schema : Schema) (queue : List (ℕ × Prod E))
    (es : List (Entry E))
    → instrumentor print db_schema queue ≡ ok es
    → map pair_of (clean_instrument es) ≡ queue
unfolding instrumentor clean_instrument
clean-instrumentor print db_schema [] es h = rw (← ok-injective h)
clean-instrumentor print db_schema ((tid, stmt) ∷ queue) es h =
    let (block, e1, h1) = >>=-eq-ok (instrument_stmt print db_schema tid stmt) _ h in
    let (rest, e2, h2) = >>=-eq-ok (instrumentor print db_schema queue) _ h1 in
    let here =
      Block-IsClean print tid stmt block
        (instrument_stmt-Block print db_schema tid stmt block e1) in
    let there = clean-instrumentor print db_schema queue rest e2 in
    rw (← ok-injective h2, clean-append block rest, map-append, here, there)
