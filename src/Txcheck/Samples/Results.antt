-- ===== src/Txcheck/Samples/Results.antt =====
-- Comparisons of small outputs, and random choices from a small file.
use dbfuzz_multidb.Core.Random.{dx}
use dbfuzz_multidb.Common.{
  zero, suc, ℕ, zero, suc, arith, ◌≡◌, refl, subst, ◌↔◌, Bool, true, false, List, [], ◌∷◌, none,
  some, Text, codes, length, Each,
}
use dbfuzz_multidb.Txcheck.Result.{ok, throw, out_of_bounds}
use dbfuzz_multidb.Txcheck.StmtId.{StmtId}
use dbfuzz_multidb.Txcheck.Analyzer.{StmtOutput}
use dbfuzz_multidb.Txcheck.Tester.Normal.{Normal, check_normal_stmt_result}
use dbfuzz_multidb.Txcheck.Tester.Agrees.{SameError, check_normal_stmt_result_iff}
use dbfuzz_multidb.Txcheck.Samples.Runs.{run_end}
use dbfuzz_multidb.Core.Compare.{compare_output, compare_content, row_hash, bkdr_hash}
use dbfuzz_multidb.Core.Compare.Rows.{
  SameHashes, compare_output_iff, compare_content_iff, columns_text, row_hash-columns_text,
}
use dbfuzz_multidb.Core.Random.{FileRandomMachine, Source, random_pick, random_string}
use dbfuzz_multidb.Core.Random.Bounds.{
  Loaded, Element, random_pick-Element, random_pick-empty_file, PlainText, random_string-plain,
}
use dbfuzz_multidb.Core.KnownErrors.{KnownErrors}

-- Numbers are left as they are.
abbrev plain_text : Text → Text
plain_text str = str

abbrev two_rows : List StmtOutput
two_rows = ((codes "a" ∷ []) ∷ (codes "b" ∷ []) ∷ []) ∷ []

abbrev two_rows_turned : List StmtOutput
two_rows_turned = ((codes "b" ∷ []) ∷ (codes "a" ∷ []) ∷ []) ∷ []

turned_rows_equal : compare_output plain_text two_rows two_rows_turned ≡ true
unfolding compare_output
turned_rows_equal = refl

compare_output_iff_example :
    (compare_output plain_text two_rows two_rows_turned ≡ true)
    ↔ Each (SameHashes plain_text) two_rows two_rows_turned
compare_output_iff_example = compare_output_iff plain_text two_rows two_rows_turned

-- Two tables of one name less and other rows.
abbrev one_table : List (Text × StmtOutput)
one_table = (codes "t", (codes "1" ∷ []) ∷ []) ∷ []

abbrev other_table : List (Text × StmtOutput)
other_table = (codes "u", []) ∷ []

tables_unread : compare_content plain_text one_table other_table ≡ true
unfolding compare_content
tables_unread = refl

compare_content_iff_example :
    (compare_content plain_text one_table other_table ≡ true)
    ↔ (length one_table ≡ length other_table)
compare_content_iff_example = compare_content_iff plain_text one_table other_table

row_hash-columns_text_example :
    row_hash (codes "ab" ∷ codes "c" ∷ []) 0
    ≡ bkdr_hash (columns_text (codes "ab" ∷ codes "c" ∷ [])) 0
row_hash-columns_text_example = row_hash-columns_text (codes "ab" ∷ codes "c" ∷ []) 0 refl

-- The path of the first statement of each transaction of the sample run.
abbrev sample_path : List StmtId
sample_path =
    record { txn_id = 0; stmt_idx_in_txn = 0 } ∷ record { txn_id = 1; stmt_idx_in_txn = 0 } ∷ []

abbrev sample_normal : Normal
sample_normal = record {
  normal_stmt_output = [] ∷ [] ∷ [];
  normal_stmt_err_info = [] ∷ codes "error" ∷ [];
  normal_stmt_db_content = [];
}

check_normal_stmt_result_iff_example :
    (check_normal_stmt_result plain_text sample_path run_end sample_normal ≡ ok true) ↔ (
      (length run_end.trans_db_content ≡ length sample_normal.normal_stmt_db_content)
      × Each SameError ([] ∷ [] ∷ []) sample_normal.normal_stmt_err_info
      × Each (SameHashes plain_text) ([] ∷ [] ∷ []) sample_normal.normal_stmt_output)
unfolding run_end
check_normal_stmt_result_iff_example =
    check_normal_stmt_result_iff plain_text sample_path run_end sample_normal
      (([], []) ∷ ([], []) ∷ []) refl

abbrev repeat_byte : ℕ → ℕ → List ℕ
repeat_byte b zero = []
repeat_byte b (suc n) = b ∷ repeat_byte b n

-- A machine near the end of a file of 100 bytes.
abbrev sample_machine : FileRandomMachine
sample_machine = record {
  buffer = some (repeat_byte 200 100);
  cur_pos = 99;
  end_pos = 100;
  read_byte = 99;
}

sample_machine-Loaded : Loaded sample_machine
sample_machine-Loaded = (repeat_byte 200 100, refl, refl, omega arith)

-- A generator that always gives the least number.
abbrev pub pick_least : ℕ → ℕ → Unit {0} → ℕ × Unit {0}
pick_least min max g = (min, g)

abbrev file_source : Source (Unit {0})
file_source = record { using_file = some sample_machine; rng = tt }

random_pick-Element_example :
    Element pick_least
      (λ min max g le. (omega arith, le))
      ℕ
      (3 ∷ 5 ∷ [])
      (random_pick pick_least (3 ∷ 5 ∷ []) file_source)
random_pick-Element_example =
    random_pick-Element pick_least (λ min max g le. (omega arith, le)) ℕ (3 ∷ 5 ∷ []) file_source
      (λ e. cc)
      (λ m e. let same : sample_machine ≡ m = cc in subst Loaded same sample_machine-Loaded)

random_pick-empty_file_example :
    random_pick pick_least {A = ℕ} (3 ∷ 5 ∷ []) (record {
      using_file = some (record { buffer = none; cur_pos = 0; end_pos = 0; read_byte = 0 });
      rng = tt;
    })
    ≡ throw out_of_bounds
random_pick-empty_file_example =
    random_pick-empty_file pick_least ℕ 3 5 []
      (record { buffer = none; cur_pos = 0; end_pos = 0; read_byte = 0 }) tt refl

-- The least draw gives a blank.
random_string-plain_example :
    PlainText pick_least 2
      (random_string pick_least 3 2 [] (record { using_file = none; rng = tt }))
unfolding dx
random_string-plain_example =
    random_string-plain pick_least 3 2 (record { using_file = none; rng = tt }) (omega arith)

abbrev sample_known : KnownErrors ℕ
sample_known = record {
  exact_patterns = codes "dead" ∷ [];
  regex_patterns = 7 ∷ [];
  suppressed_count = 2;
}

abbrev never_found : Text → ℕ → Bool
never_found msg re = false
