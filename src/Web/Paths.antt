-- ===== src/Web/Paths.antt =====
-- src/modules/web/RadixTree.cpp, `SplitPath` and `SplitPathView`: the segments of a route's path and
-- of a request's. The views of a request point into its path, which stands at an address.
pub mod Segments
pub mod Ends
use iouring_runtime.Prelude.{
  ℕ, zero, suc, ◌+◌, ◌-◌, ◌^◌, ◌%◌, Bool, true, false, not, ◌&&◌, ◌||◌, List, [], ◌∷◌, ◌++◌, map,
  Option, none, some, length, take, drop, ltb, leb, ◌==◌, if◌then◌else◌, Text, codes, same_text,
  index_of, ends_in,
}

abbrev pub slash : ℕ
slash = 47

-- One turn of the loop of `SplitPath` on the text from `start`, with the slash that `find` gives.
abbrev pub cut : (Text → List Text) → Text → Option ℕ → List Text
cut next s none = s ∷ []
cut next s (some pos) =
    let rest = next (drop (suc pos) s) in if ltb 0 pos then take pos s ∷ rest else rest

-- The loop of `SplitPath`; the fuel is the length of the text.
unfoldable pub split_from : ℕ → Text → List Text
split_from zero s = []
split_from (suc fuel) [] = []
split_from (suc fuel) (c ∷ s) = cut (split_from fuel) (c ∷ s) (index_of slash (c ∷ s))

abbrev pub skip_slash : Text → Text
skip_slash [] = []
skip_slash (c ∷ s) = if c == slash then s else c ∷ s

unfoldable pub split_path : Text → List Text
split_path path = let s = skip_slash path in split_from (length s) s

-- A `string_view`: the address of its first byte, 0 for a null pointer, and its size.
pub record View : Type 0 where
  pub data_at : ℕ
  pub size : ℕ

-- a segment of a path: the address of the view, and the bytes there
pub record Segment : Type 0 where
  pub data_at : ℕ
  pub text : Text

abbrev pub view : Segment → View
view s = record { data_at = s.data_at; size = length s.text }

-- One turn of the loop of `SplitPathView`, on the text from `start`, which stands at an address.
abbrev pub cut_view : (ℕ → Text → List Segment) → ℕ → Text → Option ℕ → List Segment
cut_view next at s none = record { data_at = at; text = s } ∷ []
cut_view next at s (some pos) =
    let rest = next (at + suc pos) (drop (suc pos) s) in
    if ltb 0 pos then record { data_at = at; text = take pos s } ∷ rest else rest

unfoldable pub split_view_from : ℕ → ℕ → Text → List Segment
split_view_from zero at s = []
split_view_from (suc fuel) at [] = []
split_view_from (suc fuel) at (c ∷ s) =
    cut_view (split_view_from fuel) at (c ∷ s) (index_of slash (c ∷ s))

abbrev pub start_of : Text → ℕ
start_of [] = 0
start_of (c ∷ s) = if c == slash then 1 else 0

-- `segments.emplace_back()`: a view without data
abbrev pub no_segment : Segment
no_segment = record { data_at = 0; text = [] }

abbrev pub trailing : Text → List Segment
trailing path = if ltb 1 (length path) && ends_in slash path then no_segment ∷ [] else []

unfoldable pub split_path_view : ℕ → Text → List Segment
split_path_view base path =
    let s = skip_slash path in split_view_from (length s) (base + start_of path) s ++ trailing path
