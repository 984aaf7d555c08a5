-- ===== src/Txcheck/Result.antt =====
-- The errors of the modelled files of src/txcheck and src/core as values.
use dbfuzz_multidb.Common.{◌≡◌, refl, subst, Bool, if◌then◌else◌, List, [], ◌∷◌, Option, none, some}

pub data Error : Type 0 where
  -- the three vectors of the constructor differ in size
  size_mismatch : Error
  -- `stoi` throws, or a row has no column with the key's index
  bad_key : Error
  -- "BUG: Cannot find the corresponding write"
  cannot_find_write : Error
  -- "something wrong, target_op.stmt_u is not BEFORE_WRITE_READ"
  not_before_write_read : Error
  -- the messages that begin with [INSTRUMENT_ERR]
  instrument_err : Error
  -- the instrumentor finds no version key column, no value for it, or no operator "="
  no_version_key : Error
  no_version_value : Error
  no_equal_op : Error
  -- the tester has lost the connection, or an exception names a bug
  lost_connection : Error
  -- `dut_reset_to_backup`, `dut_get_content` or `dut_setup` throws
  dut_failed : Error
  -- `exit(-1)`
  process_exit : Error
  -- "some stmt is still not executed", and the size test behind it
  not_executed : Error
  wrong_size : Error
  -- a loop of the model has run out of fuel
  no_fuel : Error
  -- "illegal final_status"
  illegal_status : Error
  -- `random_pick` of nothing
  no_candidates : Error
  -- an index past the end of a vector, where the C++ code has no defined behaviour
  out_of_bounds : Error
  -- `pop_back` of an empty vector, which has no defined behaviour either
  empty_vector : Error
  -- an `assert` that fails
  assertion_failed : Error
  -- a null pointer is used, for instance after a `dynamic_pointer_cast` that fails
  null_dereference : Error

-- What a function returns that may throw.
pub data Result {ℓ} (A : Type ℓ) : Type ℓ where
  throw : Error → Result A
  ok : A → Result A

infixl 5 ◌>>=◌
abbrev pub ◌>>=◌ {ℓ μ} : {S : Type ℓ} {T : Type μ} → Result S → (S → Result T) → Result T
throw problem >>= next = throw problem
ok s >>= next = next s

infixl 5 ◌>>◌
abbrev pub ◌>>◌ {μ} : {T : Type μ} → Result (Unit {0}) → Result T → Result T
check >> next = check >>= λ _. next

-- `if (!test) throw problem;`
abbrev pub ensure : Bool → Error → Result (Unit {0})
ensure test problem = if test then ok tt else throw problem

abbrev pub demand {ℓ} : {A : Type ℓ} → Option A → Error → Result A
demand (some a) e = ok a
demand none e = throw e

pub ok-injective {ℓ} : {A : Type ℓ} {a b : A} → ok a ≡ ok b → a ≡ b
ok-injective h = cc

-- Where two steps return, the first returned.
pub >>=-eq-ok {ℓ μ} :
    {S : Type ℓ} {T : Type μ} (first : Result S) (next : S → Result T) {t : T}
    → (first >>= next) ≡ ok t
    → (s : S) × (first ≡ ok s) × (next s ≡ ok t)
>>=-eq-ok (throw problem) next returned = cc
>>=-eq-ok (ok s) next returned = (s, refl, returned)

module _ {ℓ κ} {A : Type ℓ} {S : Type κ} where
  -- A loop over a list whose body may throw.
  abbrev pub fold_result : (A → S → Result S) → List A → S → Result S
  fold_result body [] s = ok s
  fold_result body (x ∷ xs) s = body x s >>= fold_result body xs

  -- What each round of the body keeps holds after the loop.
  pub fold_result-keeps {μ} :
      (P : S → Type μ) (body : A → S → Result S)
      → ((x : A) (s t : S) → body x s ≡ ok t → P s → P t)
      → (xs : List A) (s t : S) → fold_result body xs s ≡ ok t
      → P s
      → P t
  fold_result-keeps P body keep [] s t h p = subst P (ok-injective h) p
  fold_result-keeps P body keep (x ∷ xs) s t h p =
      let (u, e, k) = >>=-eq-ok (body x s) (fold_result body xs) h in
      fold_result-keeps P body keep xs u t k (keep x s u e p)
