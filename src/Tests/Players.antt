-- ===== src/Tests/Players.antt =====
-- A registry with two players, one of whom leaves.
use iouring_runtime.Prelude.{◌≡◌, ◌↔◌, refl, true, List, [], ◌∷◌, some}
use iouring_runtime.Game.PlayerRegistry.{
  PlayerRecord, empty, register, find_by_session, find_by_player, bind_room_by_player, session_of,
  unregister_by_player,
}
use iouring_runtime.Game.PlayerRegistry.Agreement.{Agrees, empty-Agrees}
use iouring_runtime.Game.PlayerRegistry.Histories.{
  Op, registers, unregisters_player, binds_player, run, step, run-Agrees, find_by_player_lem,
  register-unregister, newcomer,
}

abbrev evening : List Op
evening =
    registers 1 10
    ∷ registers 2 20
    ∷ registers 3 20
    ∷ binds_player 10 5 (some 77)
    ∷ unregisters_player 20
    ∷ []

abbrev seated : PlayerRecord
seated = record { session_id = 1; player_id = 10; room_id = 5; room = some 77 }

run-Agrees_example : Agrees (run empty evening)
run-Agrees_example = run-Agrees evening empty empty-Agrees

find_by_player_lem_example :
    (find_by_player (run empty evening) 10 ≡ some seated)
    ↔ ((find_by_session (run empty evening) 1 ≡ some seated) × (seated.player_id ≡ 10))
find_by_player_lem_example = find_by_player_lem evening 10 seated

accepted : (register (run empty evening) 3 20).0 ≡ true
unfolding run step register unregister_by_player bind_room_by_player session_of
accepted = refl

register-unregister_example :
    let r = (register (run empty evening) 3 20).1 in
    (find_by_session r 3 ≡ some (newcomer 3 20))
    × (find_by_player r 20 ≡ some (newcomer 3 20))
    × ((unregister_by_player r 20).0 ≡ some (newcomer 3 20))
register-unregister_example = register-unregister evening 3 20 accepted
