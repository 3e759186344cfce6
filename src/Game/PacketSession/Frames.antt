-- ===== src/Game/PacketSession/Frames.antt =====
-- The packet format, apart from how the bytes arrive: what a whole stream stands for.
use iouring_runtime.Prelude.{
  ℕ, ◌-◌, ◌≤◌, ◌<◌, ◌≡◌, refl, sym, ap, ◌∙◌, subst, ◌⊎◌, List, [], ◌∷◌, ◌++◌, arith, length, take,
  drop, length-append, length-drop, take-append, drop-append,
}
use iouring_runtime.Game.PacketSession.{
  Event, packet, disconnect, read_le16, header_size, max_packet_size,
}

-- A front of a packet: no whole header, or a good header and too few bytes.
abbrev pub IsPartial : List ℕ → Type 0
IsPartial bs =
    (length bs < header_size)
    ⊎ ((header_size ≤ read_le16 bs) × (header_size ≤ length bs) × (length bs < read_le16 bs))

abbrev pub IsBad : List ℕ → Type 0
IsBad bs = (header_size ≤ length bs) × (read_le16 bs < header_size)

abbrev pub IsWhole : List ℕ → Type 0
IsWhole bs = (header_size ≤ read_le16 bs) × (read_le16 bs ≤ length bs)

-- the packet at the front of a stream
abbrev pub front : List ℕ → Event
front bs = packet (read_le16 (drop 2 bs)) (take (read_le16 bs - header_size) (drop header_size bs))

-- how a stream ends: in the front of a packet, or in a size that no packet has
pub data End : Type 0 where
  waits : List ℕ → End
  fails : End

-- The packets of a stream, and its end.
pub data Frames : List ℕ → List Event → End → Type 0 where
  partial :
      {bs : List ℕ} {ps : List Event} {e : End}
      → IsPartial bs
      → ps ≡ []
      → e ≡ waits bs
      → Frames bs ps e
  bad :
      {bs : List ℕ} {ps : List Event} {e : End}
      → IsBad bs
      → ps ≡ disconnect ∷ []
      → e ≡ fails
      → Frames bs ps e
  whole :
      {bs rest : List ℕ} {ps qs : List Event} {e : End}
      → IsWhole bs
      → rest ≡ drop (read_le16 bs) bs
      → Frames rest qs e
      → ps ≡ front bs ∷ qs
      → Frames bs ps e

pub read_le16-le : (bs : List ℕ) → read_le16 bs ≤ max_packet_size
unfolding read_le16
read_le16-le bs = omega arith

-- The size depends on the first two bytes alone.
pub read_le16-append :
    (bs more : List ℕ) → header_size ≤ length bs → read_le16 (bs ++ more) ≡ read_le16 bs
unfolding read_le16
read_le16-append [] more h = absurd (omega arith)
read_le16-append (x ∷ []) more h = absurd (omega arith)
read_le16-append (x ∷ y ∷ bs) more h = refl

pub read_le16-id :
    (bs more : List ℕ)
    → header_size ≤ length bs
    → read_le16 (drop 2 (bs ++ more)) ≡ read_le16 (drop 2 bs)
unfolding read_le16
read_le16-id [] more h = absurd (omega arith)
read_le16-id (x ∷ []) more h = absurd (omega arith)
read_le16-id (x ∷ y ∷ []) more h = absurd (omega arith)
read_le16-id (x ∷ y ∷ z ∷ []) more h = absurd (omega arith)
read_le16-id (x ∷ y ∷ z ∷ w ∷ bs) more h = refl

-- A whole packet is read the same with more bytes behind it.
pub front-append : (bs more : List ℕ) → IsWhole bs → front (bs ++ more) ≡ front bs
front-append bs more w = rw (
  read_le16-append bs more (omega arith),
  read_le16-id bs more (omega arith),
  drop-append header_size bs more (omega arith),
  take-append (read_le16 bs - header_size) (drop header_size bs) more
      (omega (arith, length-drop header_size bs)),
)

waits-injective : {xs ys : List ℕ} → waits xs ≡ waits ys → xs ≡ ys
waits-injective e = cc

later : (bs more : List ℕ) → IsWhole bs → IsWhole (bs ++ more)
later bs more w =
    rw (read_le16-append bs more (omega arith)) (w.0, omega (arith, length-append bs more))

left :
    (bs more : List ℕ) {rest : List ℕ}
    → IsWhole bs
    → rest ≡ drop (read_le16 bs) bs
    → rest ++ more ≡ drop (read_le16 (bs ++ more)) (bs ++ more)
left bs more w e =
    rw (read_le16-append bs more (omega arith), drop-append (read_le16 bs) bs more (omega arith))
      (ap (λ ys. ys ++ more) e)

-- Bytes that arrive later are a continuation of what waits.
pub Frames-append :
    {bs rest : List ℕ} {ps qs : List Event} {e x : End} (more : List ℕ)
    → Frames bs ps e
    → e ≡ waits rest
    → Frames (rest ++ more) qs x
    → Frames (bs ++ more) (ps ++ qs) x
Frames-append {rest = rest} {qs = qs} {x = x} more (partial {bs = bs} h pe ee) w fr =
    rw pe (subst (λ ys. Frames (ys ++ more) qs x) (waits-injective (sym w ∙ ee)) fr)
Frames-append more (bad h pe ee) w fr = absurd (cc)
Frames-append {qs = qs} {x = x} more (whole {bs = bs} {qs = qs'} h re f pe) w fr = rw pe (
    whole (later bs more h) (left bs more h re) (Frames-append more f w fr)
      (ap (λ p. p ∷ (qs' ++ qs)) (sym (front-append bs more h))))

-- A stream has one list of packets and one end.
pub Frames-unique :
    {bs : List ℕ} {ps qs : List Event} {e x : End}
    → Frames bs ps e
    → Frames bs qs x
    → (ps ≡ qs) × (e ≡ x)
Frames-unique (partial h p q) (partial h' p' q') = (p ∙ sym p', q ∙ sym q')
Frames-unique (partial h p q) (bad h' p' q') = absurd (omega arith)
Frames-unique (partial h p q) (whole h' r' f' p') = absurd (omega arith)
Frames-unique (bad h p q) (partial h' p' q') = absurd (omega arith)
Frames-unique (bad h p q) (bad h' p' q') = (p ∙ sym p', q ∙ sym q')
Frames-unique (bad h p q) (whole h' r' f' p') = absurd (omega arith)
Frames-unique (whole h r f p) (partial h' p' q') = absurd (omega arith)
Frames-unique (whole h r f p) (bad h' p' q') = absurd (omega arith)
Frames-unique (whole {bs = bs} {e = e} h r f p) (whole {qs = qs'} {e = x} h' r' f' p') =
    let (same, end) = Frames-unique f (subst (λ ys. Frames ys qs' x) (r' ∙ sym r) f') in
    (p ∙ ap (λ ps. front bs ∷ ps) same ∙ sym p', end)

-- A bad size stays bad, whatever follows.
pub Frames_fails-append :
    {bs : List ℕ} {ps : List Event} {e : End} (more : List ℕ)
    → Frames bs ps e
    → e ≡ fails
    → Frames (bs ++ more) ps e
Frames_fails-append more (partial h pe ee) w = absurd (cc)
Frames_fails-append more (bad {bs = bs} h pe ee) w =
    bad (omega (arith, length-append bs more, read_le16-append bs more h.0)) pe ee
Frames_fails-append more (whole {bs = bs} {qs = qs} h re f pe) w =
    whole (later bs more h) (left bs more h re) (Frames_fails-append more f w)
      (pe ∙ ap (λ p. p ∷ qs) (sym (front-append bs more h)))
