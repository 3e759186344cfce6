-- ===== src/Prelude/Slices.antt =====
-- Fixed storage written in place: the model of `memcpy` into a buffer.
use Prim.Native.Nat.{ℕ, zero, suc, ◌+◌, ◌-◌, ◌≤◌}
use mathlib.Core.Path.{◌≡◌, refl, ap}
use mathlib.Core.List.{List, [], ◌∷◌, ◌++◌}
use native.Mathlib.Omega.{arith}
use iouring_runtime.Prelude.Lists.{length, take, drop}

module _ {ℓ} {A : Type ℓ} where
  -- Bytes that would fall past the end of the storage are dropped.
  abbrev pub splice : List A → ℕ → List A → List A
  splice [] p ds = []
  splice (x ∷ xs) zero [] = x ∷ xs
  splice (x ∷ xs) zero (d ∷ ds) = d ∷ splice xs zero ds
  splice (x ∷ xs) (suc p) ds = x ∷ splice xs p ds

  pub length-splice : (xs : List A) (p : ℕ) (ds : List A) → length (splice xs p ds) ≡ length xs
  length-splice [] p ds = refl
  length-splice (x ∷ xs) zero [] = refl
  length-splice (x ∷ xs) zero (d ∷ ds) = ap suc (length-splice xs zero ds)
  length-splice (x ∷ xs) (suc p) ds = ap suc (length-splice xs p ds)

  -- What stands before the written bytes stays, and the bytes follow it.
  pub take-splice :
      (xs : List A) (p n : ℕ) (ds : List A)
      → n ≡ p + length ds
      → n ≤ length xs
      → take n (splice xs p ds) ≡ take p xs ++ ds
  take-splice [] zero zero [] e h = refl
  take-splice [] zero zero (d ∷ ds) e h = absurd (omega arith)
  take-splice [] (suc p) zero ds e h = absurd (omega arith)
  take-splice [] p (suc n) ds e h = absurd (omega arith)
  take-splice (x ∷ xs) zero zero [] e h = refl
  take-splice (x ∷ xs) zero zero (d ∷ ds) e h = absurd (omega arith)
  take-splice (x ∷ xs) zero (suc n) [] e h = absurd (omega arith)
  take-splice (x ∷ xs) zero (suc n) (d ∷ ds) e h =
      ap (◌∷◌ d) (take-splice xs zero n ds (omega arith) (omega arith))
  take-splice (x ∷ xs) (suc p) zero ds e h = absurd (omega arith)
  take-splice (x ∷ xs) (suc p) (suc n) ds e h =
      ap (◌∷◌ x) (take-splice xs p n ds (omega arith) (omega arith))

  pub drop-splice :
      (r p : ℕ) (xs ds : List A) → r ≤ p → drop r (splice xs p ds) ≡ splice (drop r xs) (p - r) ds
  drop-splice zero p xs ds h = ap (λ k. splice xs k ds) (omega arith)
  drop-splice (suc r) p [] ds h = refl
  drop-splice (suc r) zero (x ∷ xs) ds h = absurd (omega arith)
  drop-splice (suc r) (suc p) (x ∷ xs) ds h =
      rw (drop-splice r p xs ds (omega arith)) (ap (λ k. splice (drop r xs) k ds) (omega arith))
