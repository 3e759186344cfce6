-- ===== src/Web/Paths/Segments.antt =====
-- src/modules/web/RadixTree.cpp, `SplitPath` and `SplitPathView`: what the splits of a path give.
use iouring_runtime.Prelude.{
  ℕ, zero, suc, ◌+◌, ◌-◌, ◌≤◌, ◌<◌, true, false, List, [], ◌∷◌, ◌++◌, map, Option, none, some, ◌≡◌,
  refl, ap, ap₂, ◌∙◌, arith, length, take, drop, ltb, Text, index_of, has_byte, index_of-absent,
  index_of-append, length-drop, length-append, take-append, drop-append_ge, take_all, append-nil,
}
use iouring_runtime.Web.Paths.{
  slash, split_from, skip_slash, split_path, Segment, cut, cut_view, split_view_from, start_of,
  trailing, split_path_view,
}

positive : (p : ℕ) → ltb 0 (suc p) ≡ true
positive p = ground arith

-- The views have the texts of the other split.
texts-cut_view :
    (next : ℕ → Text → List Segment) (next' : Text → List Text) (at : ℕ) (s : Text) (o : Option ℕ)
    → ((at : ℕ) (s : Text) → map (λ v. v.text) (next at s) ≡ next' s)
    → map (λ v. v.text) (cut_view next at s o) ≡ cut next' s o
texts-cut_view next next' at s none h = refl
texts-cut_view next next' at s (some zero) h = h (at + 1) (drop 1 s)
texts-cut_view next next' at s (some (suc p)) h =
    rw (positive p) (ap (◌∷◌ (take (suc p) s)) (h (at + suc (suc p)) (drop (suc (suc p)) s)))

texts-split_view_from :
    (fuel at : ℕ) (s : Text) → map (λ v. v.text) (split_view_from fuel at s) ≡ split_from fuel s
unfolding split_from split_view_from
texts-split_view_from zero at s = refl
texts-split_view_from (suc fuel) at [] = refl
texts-split_view_from (suc fuel) at (c ∷ s) =
    texts-cut_view (split_view_from fuel) (split_from fuel) at (c ∷ s) (index_of slash (c ∷ s))
      (texts-split_view_from fuel)

map-append :
    (xs ys : List Segment)
    → map (λ v. v.text) (xs ++ ys) ≡ map (λ v. v.text) xs ++ map (λ v. v.text) ys
map-append [] ys = refl
map-append (x ∷ xs) ys = ap (◌∷◌ x.text) (map-append xs ys)

-- The texts of a request's segments are the segments of a route's path that is spelt like the request,
-- with an empty one behind them for a slash at the end.
pub texts-split_path_view :
    (base : ℕ) (path : Text)
    → map (λ v. v.text) (split_path_view base path)
      ≡ split_path path ++ map (λ v. v.text) (trailing path)
unfolding split_path split_path_view
texts-split_path_view base path =
    map-append (split_view_from (length (skip_slash path)) (base + start_of path) (skip_slash path))
      (trailing path)
    ∙ ap (λ t. t ++ map (λ v. v.text) (trailing path))
        (texts-split_view_from (length (skip_slash path)) (base + start_of path) (skip_slash path))

cut-cong :
    (f g : Text → List Text) (s : Text) (o : Option ℕ)
    → ((pos : ℕ) → o ≡ some pos → f (drop (suc pos) s) ≡ g (drop (suc pos) s))
    → cut f s o ≡ cut g s o
cut-cong f g s none h = refl
cut-cong f g s (some zero) h = h 0 refl
cut-cong f g s (some (suc p)) h = rw (positive p) (ap (◌∷◌ (take (suc p) s)) (h (suc p) refl))

-- More fuel than the text is long changes nothing.
split_from-fuel :
    (fuel more : ℕ) (s : Text)
    → length s ≤ fuel
    → fuel ≤ more
    → split_from more s ≡ split_from fuel s
unfolding split_from
split_from-fuel zero zero [] h k = refl
split_from-fuel zero (suc more) [] h k = refl
split_from-fuel (suc fuel) (suc more) [] h k = refl
split_from-fuel (suc fuel) zero s h k = absurd (omega arith)
split_from-fuel zero more (c ∷ s) h k = absurd (omega arith)
split_from-fuel (suc fuel) (suc more) (c ∷ s) h k =
    cut-cong (split_from more) (split_from fuel) (c ∷ s) (index_of slash (c ∷ s)) (λ pos f.
      split_from-fuel fuel more (drop pos s) (omega (arith, length-drop pos s)) (omega arith))

-- a segment that a path can spell: bytes, and no slash among them
pub record IsSegment (s : Text) : Type 0 where
  pub some_byte : 0 < length s
  pub no_slash : has_byte slash s ≡ false

pub data Segments : List Text → Type 0 where
  none_left : Segments []
  and : (s : Text) (ss : List Text) → IsSegment s → Segments ss → Segments (s ∷ ss)

-- the path with these segments: "/" and the segment, for each
abbrev pub path_of : List Text → Text
path_of [] = []
path_of (s ∷ ss) = slash ∷ s ++ path_of ss

split_from-last : (fuel : ℕ) (s : Text) → IsSegment s → length s ≤ fuel → split_from fuel s ≡ s ∷ []
unfolding split_from
split_from-last fuel [] i h = absurd (omega (arith, i.some_byte))
split_from-last zero (c ∷ s) i h = absurd (omega arith)
split_from-last (suc fuel) (c ∷ s) i h =
    ap (cut (split_from fuel) (c ∷ s)) (index_of-absent slash (c ∷ s) i.no_slash)

split_from-step :
    (fuel : ℕ) (s t : Text)
    → IsSegment s
    → split_from (suc fuel) (s ++ slash ∷ t) ≡ s ∷ split_from fuel t
unfolding split_from
split_from-step fuel [] t i = absurd (omega (arith, i.some_byte))
split_from-step fuel (c ∷ s) t i =
    ap (cut (split_from fuel) (c ∷ s ++ slash ∷ t)) (index_of-append slash (c ∷ s) t i.no_slash)
    ∙ rw (positive (length s)) (
        ap₂ (λ a b. a ∷ split_from fuel b)
          (take-append (length (c ∷ s)) (c ∷ s) (slash ∷ t) (omega arith)
            ∙ take_all (length (c ∷ s)) (c ∷ s) (omega arith))
          (drop-append_ge (suc (length (c ∷ s))) (c ∷ s) (slash ∷ t) (omega arith)
            ∙ ap (λ k. drop k (slash ∷ t)) one_more))
  where
    one_more : suc (length (c ∷ s)) - length (c ∷ s) ≡ 1
    one_more = omega arith

-- what follows the first slash of a path
split_from-path_of :
    (fuel : ℕ) (s : Text) (ss : List Text)
    → Segments (s ∷ ss)
    → length (s ++ path_of ss) ≤ fuel
    → split_from fuel (s ++ path_of ss) ≡ s ∷ ss
split_from-path_of fuel s [] (and _ _ i rest) h =
    rw (append-nil s) (split_from-last fuel s i (omega (arith, length-append s [])))
split_from-path_of zero s (t ∷ ts) (and _ _ i rest) h =
    absurd (omega (arith, length-append s (path_of (t ∷ ts))))
split_from-path_of (suc fuel) s (t ∷ ts) (and _ _ i rest) h =
    split_from-step fuel s (t ++ path_of ts) i
    ∙ ap (◌∷◌ s)
        (split_from-path_of fuel t ts rest (omega (arith, length-append s (path_of (t ∷ ts)))))

-- A path made of segments that are not empty and hold no slash is split into just these.
pub split_path-path_of : (ss : List Text) → Segments ss → split_path (path_of ss) ≡ ss
unfolding split_path split_from
split_path-path_of [] g = refl
split_path-path_of (s ∷ ss) g = split_from-path_of (length (s ++ path_of ss)) s ss g (omega arith)
