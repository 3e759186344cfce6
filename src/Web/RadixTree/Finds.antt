-- ===== src/Web/RadixTree/Finds.antt =====
-- src/modules/web/RadixTree.cpp, `MatchNode`: what a step of the search finds, and how steps compose.
use iouring_runtime.Prelude.{
  Bool, true, false, ◌||◌, List, [], ◌∷◌, Option, none, some, ◌≡◌, refl, sym, ap, subst, ◌∙◌, inl,
  inr, ◌⊎◌, Bool-cases,
}
use iouring_runtime.Web.Method.{HttpMethod}
use iouring_runtime.Web.RadixTree.{RouteEntry, Routes, has_any_handler, node_has_any_handler}
use iouring_runtime.Web.RadixTree.Match.{MatchResult, Params, match_routes, unless_found}
use iouring_runtime.Web.RadixTree.Table.{Pattern}
use iouring_runtime.Web.RadixTree.Patterns.{
  or_else, active, first_active, any_active, any-own, or_true, or_false, or_assoc,
}

-- What a step of the search does: it finds the entry, if there is one, and notes whether a route is there.
unfoldable pub Finds : (MatchResult → MatchResult) → Option RouteEntry → Bool → Type 0
Finds step e b =
    (r : MatchResult)
    → r.entry ≡ none
    → ((step r).entry ≡ e) × ((step r).path_exists ≡ r.path_exists || b)

-- An entry that is found comes with a route that is there.
unfoldable pub Sound : Option RouteEntry → Bool → Type 0
Sound e b = (e ≡ none) ⊎ (b ≡ true)

pub active-Sound :
    (routes : Routes) (m : HttpMethod) → Sound (active routes m) (node_has_any_handler routes)
unfolding Sound
active-Sound routes m = elim (Bool-cases (has_any_handler (routes m))) [
  | inl own ↦ inr (any-own routes m own)
  | inr bare ↦ inl (rw bare refl)
]

pub match_routes-Finds :
    (routes : Routes) (m : HttpMethod) (params : Params)
    → Finds (λ r. match_routes routes m r params) (active routes m) (node_has_any_handler routes)
unfolding Finds match_routes
match_routes-Finds routes m params r e = elim (Bool-cases (has_any_handler (routes m))) [
  | inl own ↦
      let some_route = any-own routes m own in
      (rw own refl, rw (own, some_route) (sym (or_true r.path_exists)))
  | inr bare ↦ elim (Bool-cases (node_has_any_handler routes)) [
    | inl others ↦ (rw (bare, others) e, rw (bare, others) (sym (or_true r.path_exists)))
    | inr nobody ↦ (rw (bare, nobody) e, rw (bare, nobody) (sym (or_false r.path_exists)))
  ]
]

pub unless_found-none :
    (g : MatchResult → MatchResult) (r : MatchResult) → r.entry ≡ none → unless_found g r ≡ g r
unless_found-none g r e = simp (e, unless_found)

pub unless_found-some :
    (g : MatchResult → MatchResult) (r : MatchResult) (a : RouteEntry)
    → r.entry ≡ some a
    → unless_found g r ≡ r
unless_found-some g r a e = simp (e, unless_found)

pub then_Finds :
    (f g : MatchResult → MatchResult) (e e' : Option RouteEntry) (b b' : Bool)
    → Sound e b
    → Finds f e b
    → Finds g e' b'
    → Finds (λ r. unless_found g (f r)) (or_else e e') (b || b')
unfolding Finds Sound
then_Finds f g none e' b b' s h h' r fresh =
    let (found, exists) = h r fresh in
    let (found', exists') = h' (f r) found in
    let goes_on = unless_found-none g (f r) found in
    (
      ap (λ q. q.entry) goes_on ∙ found',
      ap (λ q. q.path_exists) goes_on
          ∙ exists'
          ∙ ap (λ a. a || b') exists
          ∙ or_assoc r.path_exists b b',
    )
then_Finds f g (some a) e' b b' s h h' r fresh =
    let (found, exists) = h r fresh in
    let there : b ≡ true = elim s [ inl n ↦ absurd cc | inr t ↦ t ] in
    let stops = unless_found-some g (f r) a found in
    (ap (λ q. q.entry) stops ∙ found, ap (λ q. q.path_exists) stops ∙ exists ∙ rw there refl)

pub fresh_Finds :
    (g : MatchResult → MatchResult) (e : Option RouteEntry) (b : Bool)
    → Finds g e b
    → Finds (unless_found g) e b
unfolding Finds
fresh_Finds g e b h r fresh =
    let (found, exists) = h r fresh in
    let goes_on = unless_found-none g r fresh in
    (ap (λ q. q.entry) goes_on ∙ found, ap (λ q. q.path_exists) goes_on ∙ exists)

pub then_Sound :
    (e e' : Option RouteEntry) (b b' : Bool)
    → Sound e b
    → Sound e' b'
    → Sound (or_else e e') (b || b')
unfolding Sound
then_Sound none e' b b' s (inl n) = inl n
then_Sound none e' b b' s (inr t) = inr (rw t (or_true b))
then_Sound (some a) e' b b' (inl n) s' = absurd cc
then_Sound (some a) e' b b' (inr t) s' = inr (rw t refl)

pub skip-Finds : Finds (λ r. r) none false
unfolding Finds
skip-Finds r e = (e, sym (or_false r.path_exists))

pub first_active-Sound :
    (t : Pattern → Routes) (m : HttpMethod) (ps : List Pattern)
    → Sound (first_active t m ps) (any_active t ps)
unfolding Sound
first_active-Sound t m [] = inl refl
first_active-Sound t m (p ∷ ps) =
    then_Sound (active (t p) m) (first_active t m ps) (node_has_any_handler (t p)) (any_active t ps)
      (active-Sound (t p) m) (first_active-Sound t m ps)

pub as_Finds :
    (f : MatchResult → MatchResult) (e e' : Option RouteEntry) (b b' : Bool)
    → e ≡ e'
    → b ≡ b'
    → Finds f e b
    → Finds f e' b'
as_Finds f e e' b b' p q h = subst (λ x. Finds f x b') p (subst (λ x. Finds f e x) q h)
