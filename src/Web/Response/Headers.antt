-- ===== src/Web/Response/Headers.antt =====
-- include/iouring_runtime/web/HttpResponse.h and src/modules/web/HttpResponse.cpp: the headers of a
-- response, by name.
use iouring_runtime.Prelude.{
  true, false, List, [], ◌∷◌, ◌++◌, map, if◌then◌else◌, ◌==◌, Text, codes, same_text, ◌≡◌, refl,
  sym, ap, ◌∙◌, inl, inr, Bool-cases, same_text_refl, same_text→eq,
}
use iouring_runtime.Web.Status.{HttpStatus}
use iouring_runtime.Web.Response.{
  HttpResponse, HeaderPair, lower, header_name_equals, has_header_in, has_header, without_header,
  remove_header, redirect,
}

-- Two names are equal for the response exactly when they are equal in lower case.
pub header_name_equals-lower :
    (a b : Text) → header_name_equals a b ≡ same_text (map lower a) (map lower b)
unfolding header_name_equals
header_name_equals-lower [] [] = refl
header_name_equals-lower [] (c ∷ b) = refl
header_name_equals-lower (c ∷ a) [] = refl
header_name_equals-lower (c ∷ a) (d ∷ b) = elim (Bool-cases (lower c == lower d)) [
  | inl same ↦ rw (same, header_name_equals-lower a b) refl
  | inr other ↦ rw other refl
]

header_name_equals_trans :
    (a b c : Text) → header_name_equals a b ≡ true → header_name_equals a c ≡ header_name_equals b c
header_name_equals_trans a b c h =
    header_name_equals-lower a c
    ∙ ap (λ t. same_text t (map lower c))
        (same_text→eq (map lower a) (map lower b) (sym (header_name_equals-lower a b) ∙ h))
    ∙ sym (header_name_equals-lower b c)

header_name_equals_refl : (a : Text) → header_name_equals a a ≡ true
header_name_equals_refl a = header_name_equals-lower a a ∙ same_text_refl (map lower a)

has_header_in-without_header_other :
    (hs : List HeaderPair) (n m : Text)
    → header_name_equals n m ≡ false
    → has_header_in (without_header hs n) m ≡ has_header_in hs m
unfolding has_header_in without_header
has_header_in-without_header_other [] n m ne = refl
has_header_in-without_header_other (h ∷ hs) n m ne =
    elim (Bool-cases (header_name_equals h.name n)) [
      | inl same ↦
          let gone : header_name_equals h.name m ≡ false =
            header_name_equals_trans h.name n m same ∙ ne in
          rw (same, gone) (has_header_in-without_header_other hs n m ne)
      | inr other ↦ rw (other, has_header_in-without_header_other hs n m ne) refl
    ]

abbrev content_type_name : Text
content_type_name = codes "Content-Type"

-- Names equal to the same one are equal.
header_name_equals_join :
    (a b c : Text)
    → header_name_equals a c ≡ true
    → header_name_equals b c ≡ true
    → header_name_equals a b ≡ true
header_name_equals_join a b c h k =
    header_name_equals_trans a c b h
    ∙ sym (header_name_equals_trans b c b k)
    ∙ header_name_equals_refl b

has_header_in_same :
    (n m : Text) (hs : List HeaderPair)
    → header_name_equals n m ≡ true
    → has_header_in (without_header hs n) m ≡ false
unfolding has_header_in without_header
has_header_in_same n m [] same = refl
has_header_in_same n m (h ∷ hs) same = elim (Bool-cases (header_name_equals h.name n)) [
  | inl here ↦ rw here (has_header_in_same n m hs same)
  | inr other ↦ elim (Bool-cases (header_name_equals h.name m)) [
    | inl there ↦ absurd (cc (other, header_name_equals_join h.name n m there same))
    | inr away ↦ rw (other, away) (has_header_in_same n m hs same)
  ]
]

-- After `RemoveHeader` no header of that name is there, and every other name has what it had.
pub has_header-remove_header :
    (r : HttpResponse) (n m : Text)
    → has_header (remove_header r n) m ≡ (if header_name_equals n m then false else has_header r m)
unfolding has_header remove_header
has_header-remove_header r n m = elim (Bool-cases (header_name_equals n m)) [
  | inl same ↦
      let gone : has_header_in (without_header r.headers n) m ≡ false =
        has_header_in_same n m r.headers same in
      elim (Bool-cases (header_name_equals n content_type_name)) [
        | inl own ↦
            let own' = sym (header_name_equals_trans n m content_type_name same) ∙ own in
            rw (same, own, own', gone) refl
        | inr foreign ↦
            let foreign' = sym (header_name_equals_trans n m content_type_name same) ∙ foreign in
            rw (same, foreign, foreign', gone) refl
      ]
  | inr other ↦ elim (Bool-cases (header_name_equals n content_type_name)) [
    | inl own ↦ elim (Bool-cases (header_name_equals m content_type_name)) [
      | inl both ↦ absurd (cc (other, header_name_equals_join n m content_type_name own both))
      | inr foreign ↦
          rw (other, own, foreign, has_header_in-without_header_other r.headers n m other) refl
    ]
    | inr foreign ↦ rw (other, foreign, has_header_in-without_header_other r.headers n m other) refl
  ]
]

-- The headers of a name, in their order.
abbrev pub values_of : Text → List HeaderPair → List Text
values_of m [] = []
values_of m (h ∷ hs) =
    let rest = values_of m hs in if header_name_equals h.name m then h.value ∷ rest else rest

values_of-without_header :
    (hs : List HeaderPair) (n : Text) (h : HeaderPair)
    → header_name_equals h.name n ≡ true
    → values_of n (without_header hs n ++ h ∷ []) ≡ h.value ∷ []
unfolding without_header
values_of-without_header [] n h same = rw same refl
values_of-without_header (g ∷ hs) n h same = elim (Bool-cases (header_name_equals g.name n)) [
  | inl here ↦ rw here (values_of-without_header hs n h same)
  | inr other ↦ rw (other, other) (values_of-without_header hs n h same)
]

-- However often a response is redirected, it has one header "Location", with the last URL, and no body.
pub redirect_lem :
    (r : HttpResponse) (url : Text) (s : HttpStatus)
    → (values_of (codes "Location") (redirect url s r).headers ≡ url ∷ [])
      × ((redirect url s r).body ≡ [])
      × ((redirect url s r).status ≡ s)
unfolding redirect remove_header header_name_equals lower
redirect_lem r url s = (
  values_of-without_header r.headers (codes "Location")
      (record { name = codes "Location"; value = url }) refl,
  refl,
  refl,
)
