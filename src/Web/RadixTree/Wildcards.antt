-- ===== src/Web/RadixTree/Wildcards.antt =====
-- src/modules/web/RadixTree.cpp, `MatchNode`: the value of a wildcard, from the view of its first segment
-- to the end of `segments.back()`.
use iouring_runtime.Prelude.{
  ℕ, suc, ◌+◌, ◌-◌, ◌^◌, ◌%◌, ◌≤◌, ◌<◌, true, false, ◌&&◌, List, [], ◌∷◌, ◌++◌, ◌≡◌, refl, sym, ap,
  subst, ◌∙◌, arith, length, length-append, Text, ends_in, append-nil, ltb, lt→ltb, if◌then◌else◌,
}
use iouring_runtime.Web.Paths.{
  slash, skip_slash, Segment, split_view_from, start_of, no_segment, split_path_view,
}
use iouring_runtime.Web.Paths.Ends.{
  Within, and, last_end, last_end-append, Within-append, last_end-split_path_view,
  split_path_view-Within, trailing-open,
}
use iouring_runtime.Web.RadixTree.Match.{back, wildcard_value}

last_end-back :
    (v : Segment) (vs : List Segment)
    → (back v vs).data_at + length (back v vs).text ≡ last_end (v ∷ vs)
last_end-back v [] = refl
last_end-back v (w ∷ vs) = last_end-back w vs

size_of_difference : (e d : ℕ) → d ≤ e → e < 2 ^ 64 → d + (e + (2 ^ 64 - d % 2 ^ 64)) % 2 ^ 64 ≡ e
size_of_difference e d h k = omega arith

size_of_null : (d : ℕ) → 0 < d → d < 2 ^ 64 → d + (0 + 0 + (2 ^ 64 - d % 2 ^ 64)) % 2 ^ 64 ≡ 2 ^ 64
size_of_null d h k = omega arith

Within-head :
    (a b : ℕ) (v : Segment) (vs : List Segment)
    → Within a b (v ∷ vs)
    → (a ≤ v.data_at) × (v.data_at + length v.text ≤ b)
Within-head a b v vs (and _ _ from to w) = (from, to)

-- Whatever segment of a request's path a wildcard takes first, its value ends where the path ends, if the
-- path does not end in a slash and lies below the last address.
pub wildcard_value-open :
    (base : ℕ) (path : Text) (before : List Segment) (first : Segment) (rest : List Segment)
    → base + length path < 2 ^ 64
    → ends_in slash path ≡ false
    → split_path_view base path ≡ before ++ first ∷ rest
    → first.data_at + (wildcard_value first rest).size ≡ base + length path
unfolding wildcard_value split_path_view split_view_from
wildcard_value-open base [] before first rest fits open_end e =
    let none_left : 0 ≡ length (before ++ first ∷ rest) = ap length e in
    absurd (omega (arith, none_left, length-append before (first ∷ rest)))
wildcard_value-open base (c ∷ s) before first rest fits open_end e =
    rw (last_end-back first rest, ends)
      (size_of_difference (base + suc (length s)) first.data_at (omega (arith, inside.1)) fits)
  where
    views : List Segment
    views =
        split_view_from (length (skip_slash (c ∷ s))) (base + start_of (c ∷ s)) (skip_slash (c ∷ s))

    ends : last_end (first ∷ rest) ≡ base + suc (length s)
    ends =
        sym (last_end-append before first rest)
        ∙ ap last_end (sym e)
        ∙ last_end-split_path_view base (c ∷ s) (omega arith) open_end

    e' : views ≡ before ++ first ∷ rest
    e' = sym (append-nil views) ∙ ap (λ t. views ++ t) (sym (trailing-open (c ∷ s) open_end)) ∙ e

    inside : (base ≤ first.data_at) × (first.data_at + length first.text ≤ base + suc (length s))
    inside = Within-head base (base + suc (length s)) first rest (
        Within-append base (base + suc (length s)) before (first ∷ rest)
          (subst (Within base (base + suc (length s))) e' (split_path_view-Within base (c ∷ s))))

back_end : (d x : Segment) (vs : List Segment) → back d (vs ++ x ∷ []) ≡ x
back_end d x [] = refl
back_end d x (v ∷ vs) = back_end v x vs

back-append :
    (d : Segment) (vs : List Segment) (w : Segment) (ws : List Segment)
    → back d (vs ++ w ∷ ws) ≡ back w ws
back-append d [] w ws = refl
back-append d (v ∷ vs) w ws = back-append v vs w ws

-- A segment with another behind it is not the last one.
Within-inner :
    (a b : ℕ) (vs : List Segment) (x : Segment) (before : List Segment) (f g : Segment)
    (rest : List Segment)
    → Within a b vs
    → vs ++ x ∷ [] ≡ before ++ f ∷ g ∷ rest
    → (a ≤ f.data_at) × (f.data_at + length f.text ≤ b)
Within-inner a b [] x [] f g rest w e = absurd (omega (arith, ap length e))
Within-inner a b [] x (u ∷ us) f g rest w e =
    absurd (omega (arith, ap length e, length-append us (f ∷ g ∷ rest)))
Within-inner a b (v ∷ vs) x [] f g rest (and _ _ from to w) e =
    let same : v ≡ f = cc in
    subst (λ q. (a ≤ q.data_at) × (q.data_at + length q.text ≤ b)) same (from, to)
Within-inner a b (v ∷ vs) x (u ∷ us) f g rest (and _ _ from to w) e =
    Within-inner a b vs x us f g rest w cc

-- If a request's path ends in a slash, a wildcard that takes a segment before the last one has a value
-- that ends at the last address, past the end of the path.
pub wildcard_value-trailing :
    (base : ℕ) (path : Text) (before : List Segment) (first second : Segment) (rest : List Segment)
    → 0 < base
    → base + length path < 2 ^ 64
    → ends_in slash path ≡ true
    → split_path_view base path ≡ before ++ first ∷ second ∷ rest
    → first.data_at + (wildcard_value first (second ∷ rest)).size ≡ 2 ^ 64
unfolding wildcard_value split_path_view split_view_from
wildcard_value-trailing base [] before first second rest some_base fits slash_end e = absurd cc
wildcard_value-trailing base (c ∷ []) before first second rest some_base fits slash_end e =
    let none_left : 0 ≡ length (before ++ first ∷ second ∷ rest) =
      subst
        (λ b.
          length (
            split_view_from (length (if b then [] else c ∷ [])) (base + (if b then 1 else 0))
              (if b then [] else c ∷ [])
            ++ [])
          ≡ length (before ++ first ∷ second ∷ rest))
        slash_end (ap length e) in
    absurd (omega (arith, none_left, length-append before (first ∷ second ∷ rest)))
wildcard_value-trailing base (c ∷ d ∷ s) before first second rest some_base fits slash_end e =
    rw last_null (size_of_null first.data_at (omega (arith, inside.0)) (omega (arith, inside.1)))
  where
    path : Text
    path = c ∷ d ∷ s

    views : List Segment
    views = split_view_from (length (skip_slash path)) (base + start_of path) (skip_slash path)

    long : (ltb 1 (suc (suc (length s))) && ends_in slash path) ≡ true
    long = rw (lt→ltb 1 (suc (suc (length s))) (omega arith)) slash_end

    e' : views ++ no_segment ∷ [] ≡ before ++ first ∷ second ∷ rest
    e' = ap (λ b. views ++ (if b then no_segment ∷ [] else [])) (sym long) ∙ e

    last_null : back second rest ≡ no_segment
    last_null =
        sym (back-append no_segment before first (second ∷ rest))
        ∙ ap (back no_segment) (sym e')
        ∙ back_end no_segment no_segment views

    inside : (base ≤ first.data_at) × (first.data_at + length first.text ≤ base + length path)
    inside =
        Within-inner base (base + length path) views no_segment before first second rest
          (split_path_view-Within base path) e'
