-- ===== src/Prelude/Maps.antt =====
-- Maps with numbers as keys, as lists of entries.
use Prim.Native.Nat.{ℕ}
use mathlib.Core.Path.{◌≡◌, refl}
use mathlib.Core.Bool.{Bool, true, false}
use mathlib.Core.List.{List, [], ◌∷◌}
use mathlib.Core.Option.{Option, none, some}
use mathlib.Core.Logic.{inl, inr}
use native.Mathlib.Omega.{arith}
use iouring_runtime.Prelude.Tests.{◌==◌, if◌then◌else◌, Bool-cases}

abbrev pub Map {ℓ} : Type ℓ → Type ℓ
Map V = List (ℕ × V)

module _ {ℓ} {V : Type ℓ} where
  -- the value of a key, as `find` gives it
  abbrev pub find : ℕ → Map V → Option V
  find k [] = none
  find k (e ∷ m) = let later = find k m in if e.0 == k then some e.1 else later

  abbrev pub contains : ℕ → Map V → Bool
  contains k m = elim (find k m) [ none ↦ false | some v ↦ true ]

  abbrev pub erase : ℕ → Map V → Map V
  erase k [] = []
  erase k (e ∷ m) = let rest = erase k m in if e.0 == k then rest else e ∷ rest

  -- an assignment through the value of a key
  abbrev pub modify : ℕ → (V → V) → Map V → Map V
  modify k f [] = []
  modify k f (e ∷ m) = (e.0, if e.0 == k then f e.1 else e.1) ∷ modify k f m

  pub find-same : (k : ℕ) (v : V) (m : Map V) → find k ((k, v) ∷ m) ≡ some v
  find-same k v m = let e : (k == k) ≡ true = ground arith in rw e refl

  pub find-other : (j k : ℕ) (v : V) (m : Map V) → ¬ (j ≡ k) → find j ((k, v) ∷ m) ≡ find j m
  find-other j k v m ne = let e : (k == j) ≡ false = ground arith in rw e refl

  pub find-erase : (k : ℕ) (m : Map V) → find k (erase k m) ≡ none
  find-erase k [] = refl
  find-erase k (e ∷ m) = elim (Bool-cases (e.0 == k)) [
    | inl same ↦ rw same (find-erase k m)
    | inr other ↦ rw (other, other) (find-erase k m)
  ]

  pub find-erase_other : (j k : ℕ) (m : Map V) → ¬ (j ≡ k) → find j (erase k m) ≡ find j m
  find-erase_other j k [] ne = refl
  find-erase_other j k (e ∷ m) ne = elim (Bool-cases (e.0 == k)) [
    | inl same ↦
        let other : (e.0 == j) ≡ false = ground arith in
        rw (same, other) (find-erase_other j k m ne)
    | inr other ↦ elim (Bool-cases (e.0 == j)) [
      | inl here ↦ rw (other, here) refl
      | inr there ↦ rw (other, there) (find-erase_other j k m ne)
    ]
  ]

  pub find-modify :
      (k : ℕ) (f : V → V) (m : Map V) (v : V)
      → find k m ≡ some v
      → find k (modify k f m) ≡ some (f v)
  find-modify k f [] v e = cc
  find-modify k f (x ∷ m) v e = elim (Bool-cases (x.0 == k)) [
    | inl same ↦ ground arith
    | inr other ↦ ground (arith, find-modify k f m v)
  ]

  pub find-modify_other :
      (j k : ℕ) (f : V → V) (m : Map V) → ¬ (j ≡ k) → find j (modify k f m) ≡ find j m
  find-modify_other j k f [] ne = refl
  find-modify_other j k f (x ∷ m) ne = elim (Bool-cases (x.0 == j)) [
    | inl here ↦ let other : (x.0 == k) ≡ false = ground arith in rw (here, other) refl
    | inr there ↦ rw (there) (find-modify_other j k f m ne)
  ]

  pub find-modify-none :
      (k : ℕ) (f : V → V) (m : Map V) → find k m ≡ none → find k (modify k f m) ≡ none
  find-modify-none k f [] e = refl
  find-modify-none k f (x ∷ m) e = elim (Bool-cases (x.0 == k)) [
    | inl same ↦ ground arith
    | inr other ↦ ground (arith, find-modify-none k f m)
  ]
