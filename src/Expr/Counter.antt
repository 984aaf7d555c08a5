-- ===== src/Expr/Counter.antt =====
-- A function that counts and may throw: its counter is passed on. The transformation counts the
-- random draws, the numbering of the components counts the components.
use dbfuzz_multidb.Common.{ℕ}
use dbfuzz_multidb.Txcheck.Result.{Result, ok, throw}

abbrev pub Counter : Type 0 → Type 0
Counter A = ℕ → Result (A × ℕ)

abbrev pub next_with : {A B : Type 0} → (A → Counter B) → Result (A × ℕ) → Result (B × ℕ)
next_with f (ok (a, n)) = f a n
next_with f (throw problem) = throw problem

infixl 5 ◌>>=◌
abbrev pub ◌>>=◌ : {A B : Type 0} → Counter A → (A → Counter B) → Counter B
◌>>=◌ m f n = next_with f (m n)

abbrev pub pure : {A : Type 0} → A → Counter A
pure a n = ok (a, n)

-- A step that does not count.
abbrev pub lift : {A : Type 0} → Result A → Counter A
lift (ok a) n = ok (a, n)
lift (throw problem) n = throw problem
