-- ===== src/Prelude/Texts.antt =====
-- Texts: the bytes of a `std::string` or of a view.
use Prim.Native.Nat.{ℕ, suc, ◌≤◌}
use Prim.Native.Char.{code}
use Prim.Native.String.{String}
use mathlib.Core.Path.{◌≡◌, refl}
use mathlib.Core.Logic.{inl, inr}
use mathlib.Core.Bool.{Bool, true, false, ◌&&◌}
use mathlib.Core.List.{List, [], ◌∷◌, ◌++◌}
use mathlib.Core.Option.{Option, none, some}
use native.Mathlib.Omega.{arith}
use iouring_runtime.Prelude.Tests.{◌==◌, if◌then◌else◌, Bool-cases, Option-cases}
use iouring_runtime.Prelude.Lists.{length}

abbrev pub Text : Type 0
Text = List ℕ

-- the bytes of a literal
abbrev pub codes : String → Text
codes String.[] = []
codes (String.◌∷◌ c s) = code c ∷ codes s

-- `==` on strings and views
abbrev pub same_text : Text → Text → Bool
same_text [] [] = true
same_text (c ∷ s) (d ∷ t) = (c == d) && same_text s t
same_text s t = false

pub same_text_refl : (s : Text) → same_text s s ≡ true
same_text_refl [] = refl
same_text_refl (c ∷ s) = ground (arith, same_text_refl s)

pub same_text→eq : (s t : Text) → same_text s t ≡ true → s ≡ t
same_text→eq [] [] h = refl
same_text→eq [] (d ∷ t) h = cc
same_text→eq (c ∷ s) [] h = cc
same_text→eq (c ∷ s) (d ∷ t) h = ground (arith, same_text→eq s t)

-- `find` of a byte: its first index
abbrev pub index_of : ℕ → Text → Option ℕ
index_of c [] = none
index_of c (d ∷ s) =
    let later = index_of c s in
    if d == c then some 0 else elim later [ none ↦ none | some i ↦ some (suc i) ]

-- `starts_with`
abbrev pub starts_with : Text → Text → Bool
starts_with [] s = true
starts_with (c ∷ p) [] = false
starts_with (c ∷ p) (d ∷ s) = (d == c) && starts_with p s

-- whether a byte stands in a text
abbrev pub has_byte : ℕ → Text → Bool
has_byte c [] = false
has_byte c (d ∷ s) = let later = has_byte c s in if d == c then true else later

-- whether the last byte is a given one
abbrev pub ends_in : ℕ → Text → Bool
ends_in c [] = false
ends_in c (d ∷ []) = d == c
ends_in c (d ∷ e ∷ s) = ends_in c (e ∷ s)

pub index_of-absent : (c : ℕ) (s : Text) → has_byte c s ≡ false → index_of c s ≡ none
index_of-absent c [] h = refl
index_of-absent c (d ∷ s) h = elim (Bool-cases (d == c)) [
  | inl e ↦ absurd (cc (e, h))
  | inr e ↦
      let later : has_byte c s ≡ false = ground (arith) in rw (e, index_of-absent c s later) refl
]

pub index_of-append :
    (c : ℕ) (s t : Text) → has_byte c s ≡ false → index_of c (s ++ c ∷ t) ≡ some (length s)
index_of-append c [] t h = let e : (c == c) ≡ true = ground arith in rw e refl
index_of-append c (d ∷ s) t h = elim (Bool-cases (d == c)) [
  | inl e ↦ absurd (cc (e, h))
  | inr e ↦
      let later : has_byte c s ≡ false = ground (arith) in rw (e, index_of-append c s t later) refl
]

pub index_of-bound : (c : ℕ) (s : Text) (i : ℕ) → index_of c s ≡ some i → suc i ≤ length s
index_of-bound c [] i h = cc
index_of-bound c (d ∷ s) i h = elim (Bool-cases (d == c)) [
  | inl e ↦ ground arith
  | inr e ↦ elim (Option-cases (index_of c s)) [
    | inl n ↦ absurd (cc (e, n, h))
    | inr (j, f) ↦ ground (arith, index_of-bound c s j f)
  ]
]
