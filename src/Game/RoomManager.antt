-- ===== src/Game/RoomManager.antt =====
-- include/iouring_runtime/game/Room.h and RoomManager.h, src/modules/game/Room.cpp and RoomManager.cpp:
-- rooms by their ids. A room is its id, its name and its players; its jobs are JobQueue's.
pub mod Ids
use iouring_runtime.Prelude.{
  ℕ, zero, suc, ◌+◌, ◌^◌, Bool, true, false, not, ◌||◌, List, [], ◌∷◌, Option, none, some, map,
  length, leb, ◌==◌, if◌then◌else◌, u32, add32, Map, find, contains, erase,
}

pub record Room : Type 0 where
  pub id : ℕ
  pub name : List ℕ
  pub players : Map ℕ

-- `Room::kMaxPlayers`
abbrev pub max_players : ℕ
max_players = 500

abbrev pub player_count : Room → ℕ
player_count r = u32 (length r.players)

abbrev pub is_full : Room → Bool
is_full r = leb max_players (length r.players)

abbrev pub has_player : Room → ℕ → Bool
has_player r player_id = contains player_id r.players

-- `players_[player.player_id] = player`; a `PlayerState` is the player's id.
abbrev pub add_player : Room → ℕ → Room
add_player r player_id = record r { players = (player_id, player_id) ∷ erase player_id r.players }

abbrev pub remove_player : Room → ℕ → Room
remove_player r player_id = record r { players = erase player_id r.players }

pub record RoomManager : Type 0 where
  pub next_room_id : ℕ
  pub rooms : Map Room

-- a manager as it is constructed
abbrev pub empty : RoomManager
empty = record { next_room_id = 1; rooms = [] }

-- The loop of `NextRoomIdLocked`, on fuel; `none` is a loop that did not end.
pub next_free : ℕ → ℕ → Map Room → Option ℕ
next_free zero id rooms = none
next_free (suc fuel) id rooms =
    let later = next_free fuel (add32 id 1) rooms in
    if id == 0 || contains id rooms then later else some id

-- At most the ids of the rooms and 0 are passed over.
abbrev pub enough : Map Room → ℕ
enough rooms = length rooms + 2

-- `CreateRoomAs`: the room and the manager, if the loop ends
unfoldable pub create_room : RoomManager → List ℕ → Option (Room × RoomManager)
unfolding next_free
create_room m name = elim (next_free (enough m.rooms) m.next_room_id m.rooms) [
  | none ↦ none
  | some room_id ↦
      let room : Room = record { id = room_id; name = name; players = [] } in
      some (room, record { next_room_id = add32 room_id 1; rooms = (room_id, room) ∷ m.rooms })
]

-- `AddRoom`, of a room or of null
unfoldable pub add_room : RoomManager → Option Room → Bool × RoomManager
add_room m none = (false, m)
add_room m (some room) =
    if contains room.id m.rooms
    then (false, m)
    else (true, record m { rooms = (room.id, room) ∷ m.rooms })

abbrev pub find_room : RoomManager → ℕ → Option Room
find_room m room_id = find room_id m.rooms

unfoldable pub remove_room : RoomManager → ℕ → Bool × RoomManager
remove_room m room_id = (contains room_id m.rooms, record m { rooms = erase room_id m.rooms })

abbrev pub room_count : RoomManager → ℕ
room_count m = u32 (length m.rooms)
