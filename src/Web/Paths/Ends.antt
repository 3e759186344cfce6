-- ===== src/Web/Paths/Ends.antt =====
-- src/modules/web/RadixTree.cpp, `SplitPathView`: where the views of a request's path stand, and what
-- that makes of a wildcard's value.
use iouring_runtime.Prelude.{
  ℕ, zero, suc, ◌+◌, ◌≤◌, ◌<◌, false, List, [], ◌∷◌, ◌++◌, Option, none, some, ◌≡◌, refl, subst,
  ◌∙◌, inl, inr, arith, Bool-cases, Option-cases, length, take, drop, ltb, ◌==◌, Text, index_of,
  ends_in, index_of-bound, length-drop, length-take, append-nil,
}
use iouring_runtime.Web.Paths.{
  slash, skip_slash, Segment, cut_view, split_view_from, start_of, trailing, split_path_view,
}

-- Every view lies in a stretch of memory.
pub data Within : ℕ → ℕ → List Segment → Type 0 where
  no_views : {a b : ℕ} → Within a b []
  and :
      {a b : ℕ} (v : Segment) (vs : List Segment)
      → a ≤ v.data_at
      → v.data_at + length v.text ≤ b
      → Within a b vs
      → Within a b (v ∷ vs)

Within-mono : (a a' b : ℕ) (vs : List Segment) → a ≤ a' → Within a' b vs → Within a b vs
Within-mono a a' b [] h w = no_views
Within-mono a a' b (v ∷ vs) h (and _ _ from to w) =
    and v vs (omega arith) to (Within-mono a a' b vs h w)

cut_view-Within :
    (next : ℕ → Text → List Segment) (at : ℕ) (s : Text) (o : Option ℕ)
    → ((pos : ℕ)
        → o ≡ some pos
        → (suc pos ≤ length s)
          × Within (at + suc pos) (at + length s) (next (at + suc pos) (drop (suc pos) s)))
    → Within at (at + length s) (cut_view next at s o)
cut_view-Within next at s none h =
    and (record { data_at = at; text = s }) [] (omega arith) (omega arith) no_views
cut_view-Within next at s (some pos) h = elim (Bool-cases (ltb 0 pos)) [
  | inl some_byte ↦
      let (fits, w) = h pos refl in
      rw some_byte (
        and (record { data_at = at; text = take pos s }) (next (at + suc pos) (drop (suc pos) s))
          (omega arith) (omega (arith, length-take pos s))
          (Within-mono at (at + suc pos) (at + length s) (next (at + suc pos) (drop (suc pos) s))
            (omega arith) w))
  | inr gap ↦
      let (fits, w) = h pos refl in
      rw gap (
        Within-mono at (at + suc pos) (at + length s) (next (at + suc pos) (drop (suc pos) s))
          (omega arith) w)
]

split_view_from-Within :
    (fuel at : ℕ) (s : Text) → Within at (at + length s) (split_view_from fuel at s)
unfolding split_view_from
split_view_from-Within zero at s = no_views
split_view_from-Within (suc fuel) at [] = no_views
split_view_from-Within (suc fuel) at (c ∷ s) =
    cut_view-Within (split_view_from fuel) at (c ∷ s) (index_of slash (c ∷ s)) (λ pos f.
      let fits = index_of-bound slash (c ∷ s) pos f in
      let e : at + suc pos + length (drop pos s) ≡ at + suc (length s) =
        omega (arith, length-drop pos s) in
      (
        fits,
        subst (λ b. Within (at + suc pos) b (split_view_from fuel (at + suc pos) (drop pos s))) e
            (split_view_from-Within fuel (at + suc pos) (drop pos s)),
      ))

-- the end of the last view
abbrev pub last_end : List Segment → ℕ
last_end [] = 0
last_end (v ∷ []) = v.data_at + length v.text
last_end (v ∷ w ∷ vs) = last_end (w ∷ vs)

last_end-cons :
    (v : Segment) (vs : List Segment) → 0 < last_end vs → last_end (v ∷ vs) ≡ last_end vs
last_end-cons v [] h = absurd (omega arith)
last_end-cons v (w ∷ vs) h = refl

pub last_end-append :
    (vs : List Segment) (w : Segment) (ws : List Segment)
    → last_end (vs ++ w ∷ ws) ≡ last_end (w ∷ ws)
last_end-append [] w ws = refl
last_end-append (v ∷ []) w ws = refl
last_end-append (v ∷ u ∷ vs) w ws = last_end-append (u ∷ vs) w ws

-- What follows a slash is not empty and does not end in one, if the text does not.
after_slash :
    (s : Text) (pos : ℕ)
    → index_of slash s ≡ some pos
    → ends_in slash s ≡ false
    → (0 < length (drop (suc pos) s)) × (ends_in slash (drop (suc pos) s) ≡ false)
after_slash [] pos f h = absurd cc
after_slash (c ∷ []) pos f h = absurd (ground arith)
after_slash (c ∷ d ∷ s) pos f h = elim (Bool-cases (c == slash)) [
  | inl here ↦ let e : pos ≡ 0 = ground arith in rw e (omega arith, h)
  | inr later ↦ elim (Option-cases (index_of slash (d ∷ s))) [
    | inl n ↦ absurd (ground arith)
    | inr (p, g) ↦ let e : pos ≡ suc p = ground arith in rw e (after_slash (d ∷ s) p g h)
  ]
]

last_end-cut_view :
    (next : ℕ → Text → List Segment) (at : ℕ) (s : Text) (o : Option ℕ)
    → ((pos : ℕ) → o ≡ some pos → last_end (next (at + suc pos) (drop (suc pos) s)) ≡ at + length s)
    → 0 < length s
    → last_end (cut_view next at s o) ≡ at + length s
last_end-cut_view next at s none h some_byte = refl
last_end-cut_view next at s (some pos) h some_byte = elim (Bool-cases (ltb 0 pos)) [
  | inl first ↦
      let e = h pos refl in
      rw first (
        last_end-cons (record { data_at = at; text = take pos s })
          (next (at + suc pos) (drop (suc pos) s)) (omega (arith, e))
        ∙ e)
  | inr gap ↦ rw gap (h pos refl)
]

last_end-split_view_from :
    (fuel at : ℕ) (s : Text)
    → length s ≤ fuel
    → 0 < length s
    → ends_in slash s ≡ false
    → last_end (split_view_from fuel at s) ≡ at + length s
unfolding split_view_from
last_end-split_view_from fuel at [] h some_byte open_end = absurd (omega arith)
last_end-split_view_from zero at (c ∷ s) h some_byte open_end = absurd (omega arith)
last_end-split_view_from (suc fuel) at (c ∷ s) h some_byte open_end =
    last_end-cut_view (split_view_from fuel) at (c ∷ s) (index_of slash (c ∷ s))
      (λ pos f.
        let (more, open_rest) = after_slash (c ∷ s) pos f open_end in
        let fits = index_of-bound slash (c ∷ s) pos f in
        last_end-split_view_from fuel (at + suc pos) (drop pos s) (omega (arith, length-drop pos s))
          more open_rest
        ∙ omega (arith, length-drop pos s))
      some_byte

pub trailing-open : (path : Text) → ends_in slash path ≡ false → trailing path ≡ []
trailing-open path open_end = ground (arith)

-- Every view lies in the path, less the one behind a slash at the end.
pub split_path_view-Within :
    (base : ℕ) (path : Text)
    → Within base
        (base + length path)
        (split_view_from (length (skip_slash path)) (base + start_of path) (skip_slash path))
unfolding split_view_from
split_path_view-Within base [] = no_views
split_path_view-Within base (c ∷ s) = elim (Bool-cases (c == slash)) [
  | inl root ↦ rw root (from_mid (base + 1) s (omega arith) (omega arith))
  | inr bare ↦ rw bare (from_mid (base + 0) (c ∷ s) (omega arith) (omega arith))
]
  where
    from_mid :
        (at : ℕ) (t : Text)
        → base ≤ at
        → at + length t ≡ base + suc (length s)
        → Within base (base + suc (length s)) (split_view_from (length t) at t)
    from_mid at t h e =
        subst (λ b. Within base b (split_view_from (length t) at t)) e
          (Within-mono base at (at + length t) (split_view_from (length t) at t) h
            (split_view_from-Within (length t) at t))

-- The views of a path end where the path ends, unless that is a slash.
pub last_end-split_path_view :
    (base : ℕ) (path : Text)
    → 0 < length path
    → ends_in slash path ≡ false
    → last_end (split_path_view base path) ≡ base + length path
unfolding split_path_view
last_end-split_path_view base path some_byte open_end =
    rw (trailing-open path open_end, append-nil views) (from_start path some_byte open_end)
  where
    views : List Segment
    views = split_view_from (length (skip_slash path)) (base + start_of path) (skip_slash path)

    from_start :
        (path : Text)
        → 0 < length path
        → ends_in slash path ≡ false
        → last_end
            (split_view_from (length (skip_slash path)) (base + start_of path) (skip_slash path))
          ≡ base + length path
    from_start [] some_byte open_end = absurd (omega arith)
    from_start (c ∷ []) some_byte open_end = rw open_end (
        last_end-split_view_from 1 (base + 0) (c ∷ []) (omega arith) (omega arith) open_end
        ∙ omega arith)
    from_start (c ∷ d ∷ s) some_byte open_end = elim (Bool-cases (c == slash)) [
      | inl root ↦ rw root (
          last_end-split_view_from (suc (length s)) (base + 1) (d ∷ s) (omega arith) (omega arith)
            open_end
          ∙ omega arith)
      | inr bare ↦ rw bare (
          last_end-split_view_from (suc (suc (length s))) (base + 0) (c ∷ d ∷ s) (omega arith)
            (omega arith) open_end
          ∙ omega arith)
    ]

pub Within-append : (a b : ℕ) (vs ws : List Segment) → Within a b (vs ++ ws) → Within a b ws
Within-append a b [] ws w = w
Within-append a b (v ∷ vs) ws (and _ _ from to w) = Within-append a b vs ws w
