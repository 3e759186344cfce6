-- ===== src/Game/PlayerRegistry.antt =====
-- include/iouring_runtime/game/PlayerRegistry.h and src/modules/game/PlayerRegistry.cpp: the players
-- that are connected, by session and by player. Each method holds the mutex from beginning to end, so a
-- method is one step. A `RoomLike*` is an address, or null.
pub mod Agreement
pub mod Histories
use iouring_runtime.Prelude.{
  ℕ, Bool, true, false, ◌||◌, List, [], ◌∷◌, Option, none, some, map, length, ◌==◌, if◌then◌else◌,
  u32, Map, find, contains, erase, modify,
}

pub record PlayerRecord : Type 0 where
  pub session_id : ℕ
  pub player_id : ℕ
  pub room_id : ℕ
  pub room : Option ℕ

pub record PlayerRegistry : Type 0 where
  pub by_session : Map PlayerRecord
  pub by_player : Map ℕ

-- a registry as it is constructed
abbrev pub empty : PlayerRegistry
empty = record { by_session = []; by_player = [] }

unfoldable pub register : PlayerRegistry → ℕ → ℕ → Bool × PlayerRegistry
register r session_id player_id =
    let entry : PlayerRecord = record {
      session_id = session_id;
      player_id = player_id;
      room_id = 0;
      room = none;
    } in
    if session_id == 0 || player_id == 0
    then (false, r)
    else if contains session_id r.by_session || contains player_id r.by_player
    then (false, r)
    else (
      true,
      record {
        by_session = (session_id, entry) ∷ r.by_session;
        by_player = (player_id, session_id) ∷ r.by_player;
      },
    )

unfoldable pub unregister_by_session : PlayerRegistry → ℕ → Option PlayerRecord × PlayerRegistry
unregister_by_session r session_id = elim (find session_id r.by_session) [
  | none ↦ (none, r)
  | some entry ↦ (
    some entry,
    record {
      by_session = erase session_id r.by_session;
      by_player = erase entry.player_id r.by_player;
    },
  )
]

unfoldable pub unregister_by_player : PlayerRegistry → ℕ → Option PlayerRecord × PlayerRegistry
unregister_by_player r player_id = elim (find player_id r.by_player) [
  | none ↦ (none, r)
  | some session_id ↦ elim (find session_id r.by_session) [
    | none ↦ (none, record r { by_player = erase player_id r.by_player })
    | some entry ↦ (
      some entry,
      record {
        by_session = erase session_id r.by_session;
        by_player = erase player_id r.by_player;
      },
    )
  ]
]

-- `BindRoomLocked` on the record of a session, which is there
abbrev pub bind_room_locked : PlayerRegistry → ℕ → ℕ → Option ℕ → Bool × PlayerRegistry
bind_room_locked r session_id room_id none = (false, r)
bind_room_locked r session_id room_id (some room) = if room_id == 0 then (false, r) else (
  true,
  record r {
    by_session =
        modify session_id (λ p. record p { room_id = room_id; room = some room }) r.by_session;
  },
)

-- `ClearRoomLocked`
abbrev pub clear_room_locked : PlayerRegistry → ℕ → Bool × PlayerRegistry
clear_room_locked r session_id = (
  true,
  record r {
    by_session = modify session_id (λ p. record p { room_id = 0; room = none }) r.by_session;
  },
)

-- the session of a player, where both maps have it
unfoldable pub session_of : PlayerRegistry → ℕ → Option ℕ
session_of r player_id = elim (find player_id r.by_player) [
  | none ↦ none
  | some session_id ↦ elim (find session_id r.by_session) [ none ↦ none | some p ↦ some session_id ]
]

unfoldable pub bind_room_by_session : PlayerRegistry → ℕ → ℕ → Option ℕ → Bool × PlayerRegistry
bind_room_by_session r session_id room_id room = elim (find session_id r.by_session) [
  | none ↦ (false, r)
  | some p ↦ bind_room_locked r session_id room_id room
]

unfoldable pub bind_room_by_player : PlayerRegistry → ℕ → ℕ → Option ℕ → Bool × PlayerRegistry
unfolding session_of
bind_room_by_player r player_id room_id room = elim (session_of r player_id) [
  | none ↦ (false, r)
  | some session_id ↦ bind_room_locked r session_id room_id room
]

unfoldable pub clear_room_by_session : PlayerRegistry → ℕ → Bool × PlayerRegistry
clear_room_by_session r session_id = elim (find session_id r.by_session) [
  | none ↦ (false, r)
  | some p ↦ clear_room_locked r session_id
]

unfoldable pub clear_room_by_player : PlayerRegistry → ℕ → Bool × PlayerRegistry
unfolding session_of
clear_room_by_player r player_id = elim (session_of r player_id) [
  | none ↦ (false, r)
  | some session_id ↦ clear_room_locked r session_id
]

abbrev pub find_by_session : PlayerRegistry → ℕ → Option PlayerRecord
find_by_session r session_id = find session_id r.by_session

unfoldable pub find_by_player : PlayerRegistry → ℕ → Option PlayerRecord
find_by_player r player_id = elim (find player_id r.by_player) [
  | none ↦ none
  | some session_id ↦ find session_id r.by_session
]

-- The records in the order of the list; the source's order is that of its hash table.
abbrev pub records : PlayerRegistry → List PlayerRecord
records r = map (λ e. e.1) r.by_session

abbrev pub player_count : PlayerRegistry → ℕ
player_count r = u32 (length r.by_session)
