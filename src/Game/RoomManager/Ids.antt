-- ===== src/Game/RoomManager/Ids.antt =====
-- A new room gets an id that no room has.
use iouring_runtime.Prelude.{
  contains, ◌⊎◌, ℕ, zero, suc, ◌+◌, ◌%◌, ◌^◌, ◌≤◌, ◌<◌, ◌≡◌, refl, sym, ap, ◌∙◌, subst, inl, inr,
  false, ◌||◌, List, [], ◌∷◌, none, some, arith, length, ◌==◌, Bool-cases, Option-cases, ℕ_discrete,
  add32, Map, find, erase, find-same, find-other, find-erase_other,
}
use iouring_runtime.Game.RoomManager.{Room, RoomManager, next_free, enough, create_room, find_room}

none-ne-some : {A : Type 0} {a : A} → none ≡ some a → ⊥
none-ne-some e = cc

length-erase_le : {V : Type 0} (k : ℕ) (m : Map V) → length (erase k m) ≤ length m
length-erase_le k [] = omega arith
length-erase_le k (e ∷ m) = elim (Bool-cases (e.0 == k)) [
  | inl same ↦ rw same (omega (arith, length-erase_le k m))
  | inr other ↦ rw other (omega (arith, length-erase_le k m))
]

-- Taking a key out leaves fewer entries.
length-erase :
    {V : Type 0} (k : ℕ) (v : V) (m : Map V) → find k m ≡ some v → length (erase k m) < length m
length-erase k v [] e = absurd (none-ne-some e)
length-erase k v (x ∷ m) e = elim (Bool-cases (x.0 == k)) [
  | inl same ↦ rw same (omega (arith, length-erase_le k m))
  | inr other ↦
      let there : find k m ≡ some v = ground (arith, e) in
      rw other (omega (arith, length-erase k v m there))
]

-- Of more ids in a row than there are entries, one is free.
free_id :
    {V : Type 0} (f n : ℕ) (m : Map V)
    → length m < f
    → f ≤ 2 ^ 32
    → (k : ℕ) × (k < f) × (find ((n + k) % 2 ^ 32) m ≡ none)
free_id zero n m h b = absurd (omega arith)
free_id (suc f) n m h b = elim (Option-cases (find ((n + 0) % 2 ^ 32) m)) [
  | inl free ↦ (0, omega arith, free)
  | inr (v, taken) ↦
      let (k, lt, free) =
        free_id f (n + 1) (erase ((n + 0) % 2 ^ 32) m)
          (omega (arith, length-erase ((n + 0) % 2 ^ 32) v m taken)) (omega arith) in
      let same : (n + 1 + k) % 2 ^ 32 ≡ (n + (k + 1)) % 2 ^ 32 = omega arith in
      let apart : ¬ ((n + (k + 1)) % 2 ^ 32 ≡ (n + 0) % 2 ^ 32) = λ e. omega (arith, e) in
      (
        k + 1,
        omega arith,
        sym (find-erase_other ((n + (k + 1)) % 2 ^ 32) ((n + 0) % 2 ^ 32) m apart)
            ∙ ap (λ j. find j (erase ((n + 0) % 2 ^ 32) m)) (sym same)
            ∙ free,
      )
]

-- what the loop looks for
abbrev pub IsFree : ℕ → Map Room → Type 0
IsFree id rooms = (0 < id) × (id < 2 ^ 32) × (find id rooms ≡ none)

taken : (id : ℕ) (rooms : Map Room) → IsFree id rooms → (id == 0 || contains id rooms) ≡ false
taken id rooms (p, b, e) = rw (e, contains) (ground arith)

IsFree-here :
    (id : ℕ) (rooms : Map Room)
    → id < 2 ^ 32
    → (id == 0 || contains id rooms) ≡ false
    → IsFree id rooms
IsFree-here id rooms b e = elim (Option-cases (find id rooms)) [
  | inl n ↦ (ground arith, b, n)
  | inr (r, f) ↦ absurd (ground (arith, f))
]

-- The loop finds a free id, if there is one ahead within the fuel.
next_free_finds :
    (f n k : ℕ) (rooms : Map Room)
    → k < f
    → n < 2 ^ 32
    → IsFree ((n + k) % 2 ^ 32) rooms
    → (id : ℕ) × (next_free f n rooms ≡ some id) × IsFree id rooms
unfolding next_free
next_free_finds zero n k rooms h b free = absurd (omega arith)
next_free_finds (suc f) n zero rooms h b free =
    let here : IsFree n rooms = subst (λ j. IsFree j rooms) (omega arith) free in
    (n, rw (taken n rooms here) refl, here)
next_free_finds (suc f) n (suc k) rooms h b free = elim (Bool-cases (n == 0 || contains n rooms)) [
  | inr here ↦ (n, rw here refl, IsFree-here n rooms b here)
  | inl passed ↦
      let ahead : (n + suc k) % 2 ^ 32 ≡ (add32 n 1 + k) % 2 ^ 32 = omega arith in
      let (id, found, ok) =
        next_free_finds f (add32 n 1) k rooms (omega arith) (omega arith)
          (subst (λ j. IsFree j rooms) ahead free) in
      (id, rw passed found, ok)
]

-- 0 counts as taken.
IsFree-ahead :
    (n : ℕ) (rooms : Map Room)
    → enough rooms ≤ 2 ^ 32
    → (k : ℕ) × (k < enough rooms) × IsFree ((n + k) % 2 ^ 32) rooms
IsFree-ahead n rooms b =
    let (k, lt, free) = free_id (enough rooms) n marked (omega arith) b in
    let apart : ¬ ((n + k) % 2 ^ 32 ≡ 0) =
      λ e. none-ne-some (sym free ∙ ap (λ j. find j marked) e ∙ find-same 0 nobody rooms) in
    (
      k,
      lt,
      (
        omega (arith, apart),
        omega arith,
        sym (find-other ((n + k) % 2 ^ 32) 0 nobody rooms apart) ∙ free,
      ),
    )
  where
    nobody : Room
    nobody = record { id = 0; name = []; players = [] }

    marked : Map Room
    marked = (0, nobody) ∷ rooms

create_room_with :
    (m : RoomManager) (name : List ℕ) (id : ℕ)
    → next_free (enough m.rooms) m.next_room_id m.rooms ≡ some id
    → create_room m name
      ≡ some (
        record { id = id; name = name; players = [] },
        record {
          next_room_id = add32 id 1;
          rooms = (id, record { id = id; name = name; players = [] }) ∷ m.rooms;
        },
      )
unfolding create_room
create_room_with m name id found = rw (found, create_room) refl

-- With fewer than 2^32 - 1 rooms and a next id of 32 bits, a room is created: the loop ends, the room's
-- id is a number of 32 bits other than 0 that no room had, the room has the given name and no player and
-- is found by its id, every other id finds what it found before, and the next id is again of 32 bits.
pub create_room_lem :
    (m : RoomManager) (name : List ℕ)
    → enough m.rooms ≤ 2 ^ 32
    → m.next_room_id < 2 ^ 32
    → (room : Room) × (m' : RoomManager) × (create_room m name ≡ some (room, m'))
      × IsFree room.id m.rooms
      × (room.name ≡ name)
      × (room.players ≡ [])
      × (find_room m' room.id ≡ some room)
      × ((id : ℕ) → (id ≡ room.id) ⊎ (find_room m' id ≡ find_room m id))
      × (m'.next_room_id < 2 ^ 32)
create_room_lem m name b n =
    let (k, lt, free) = IsFree-ahead m.next_room_id m.rooms b in
    let (id, found, ok) = next_free_finds (enough m.rooms) m.next_room_id k m.rooms lt n free in
    (
      new id,
      after id,
      create_room_with m name id found,
      ok,
      refl,
      refl,
      find-same id (new id) m.rooms,
      λ j. elim (ℕ_discrete j id) [
        | yes same ↦ inl same
        | no other ↦ inr (find-other j id (new id) m.rooms other)
      ],
      omega arith,
    )
  where
    new : ℕ → Room
    new id = record { id = id; name = name; players = [] }

    after : ℕ → RoomManager
    after id = record { next_room_id = add32 id 1; rooms = (id, new id) ∷ m.rooms }
