-- ===== src/Tests/Rooms.antt =====
-- A manager whose next ids are taken.
use iouring_runtime.Prelude.{ℕ, ◌≡◌, ◌<◌, ◌⊎◌, ◌^◌, [], ◌∷◌, some, arith}
use iouring_runtime.Game.RoomManager.{Room, RoomManager, create_room, find_room}
use iouring_runtime.Game.RoomManager.Ids.{IsFree, create_room_lem}

abbrev lobby : ℕ → Room
lobby id = record { id = id; name = []; players = [] }

-- The next id is the last of 32 bits, and it is taken; so is 1, but 0 is no id.
abbrev crowded : RoomManager
crowded = record {
  next_room_id = 4294967295;
  rooms = (4294967295, lobby 4294967295) ∷ (1, lobby 1) ∷ [];
}

create_room_lem_example :
    (room : Room) × (m' : RoomManager) × (create_room crowded (65 ∷ []) ≡ some (room, m'))
    × IsFree room.id crowded.rooms
    × (room.name ≡ 65 ∷ [])
    × (room.players ≡ [])
    × (find_room m' room.id ≡ some room)
    × ((id : ℕ) → (id ≡ room.id) ⊎ (find_room m' id ≡ find_room crowded id))
    × (m'.next_room_id < 2 ^ 32)
create_room_lem_example = create_room_lem crowded (65 ∷ []) (omega arith) (omega arith)
