-- ===== src/Common/Related.antt =====
-- Two lists related element by element.
use dbfuzz_multidb.Common.Lists.{length}
use Prim.Native.Nat.{suc}
use mathlib.Core.Path.{◌≡◌, refl, ap}
use mathlib.Core.List.{List, [], ◌∷◌, ◌++◌}

module _ {ℓ κ} {A : Type ℓ} {B : Type κ} where
  abbrev pub Each : (A → B → Type 0) → List A → List B → Type 0
  Each R [] [] = Unit
  Each R (x ∷ xs) (y ∷ ys) = R x y × Each R xs ys
  Each R _ _ = ⊥

  pub Each-append :
      (R : A → B → Type 0) (xs : List A) (ys : List B) (x : A) (y : B)
      → Each R xs ys
      → R x y
      → Each R (xs ++ x ∷ []) (ys ++ y ∷ [])
  Each-append R [] [] x y h r = (r, tt)
  Each-append R [] (b ∷ ys) x y h r = absurd h
  Each-append R (a ∷ xs) [] x y h r = absurd h
  Each-append R (a ∷ xs) (b ∷ ys) x y h r = (h.0, Each-append R xs ys x y h.1 r)

  pub Each-length :
      (R : A → B → Type 0) (xs : List A) (ys : List B) → Each R xs ys → length xs ≡ length ys
  Each-length R [] [] h = refl
  Each-length R [] (y ∷ ys) h = absurd h
  Each-length R (x ∷ xs) [] h = absurd h
  Each-length R (x ∷ xs) (y ∷ ys) h = ap suc (Each-length R xs ys h.1)

module _ {ℓ} {A : Type ℓ} where
  pub Each-refl : (R : A → A → Type 0) → ((x : A) → R x x) → (xs : List A) → Each R xs xs
  Each-refl R r [] = tt
  Each-refl R r (x ∷ xs) = (r x, Each-refl R r xs)

  pub Each-trans :
      (R : A → A → Type 0)
      → ((x y z : A) → R x y → R y z → R x z)
      → (xs ys zs : List A) → Each R xs ys
      → Each R ys zs
      → Each R xs zs
  Each-trans R t [] [] [] h k = tt
  Each-trans R t [] [] (z ∷ zs) h k = absurd k
  Each-trans R t [] (y ∷ ys) zs h k = absurd h
  Each-trans R t (x ∷ xs) [] zs h k = absurd h
  Each-trans R t (x ∷ xs) (y ∷ ys) [] h k = absurd k
  Each-trans R t (x ∷ xs) (y ∷ ys) (z ∷ zs) h k = (t x y z h.0 k.0, Each-trans R t xs ys zs h.1 k.1)
