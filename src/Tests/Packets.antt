-- ===== src/Tests/Packets.antt =====
-- A stream of two packets, cut in two ways.
use mathlib.Core.List.{flatten}
use iouring_runtime.Prelude.{true, arith, ℕ, ◌≡◌, refl, List, [], ◌∷◌, some}
use iouring_runtime.Game.PacketSession.{Receiver, deliver_all, fresh}
use iouring_runtime.Game.PacketBuilder.{build}
use iouring_runtime.Game.PacketBuilder.RoundTrip.{calls, build_deliver}
use iouring_runtime.Game.PacketSession.Receive.{Received}
use iouring_runtime.Game.PacketSession.Chunks.{deliver_all-fresh}

-- the packets 7 with the payload 9, and 8 without one, cut in the middle of headers and payload
abbrev pieces : List (List ℕ)
pieces = (5 ∷ []) ∷ (0 ∷ 7 ∷ 0 ∷ []) ∷ (9 ∷ 4 ∷ 0 ∷ []) ∷ (8 ∷ 0 ∷ []) ∷ []

abbrev whole : List (List ℕ)
whole = (5 ∷ 0 ∷ 7 ∷ 0 ∷ 9 ∷ 4 ∷ 0 ∷ 8 ∷ 0 ∷ []) ∷ []

deliver_all-fresh_example :
    (r : Receiver) × (deliver_all fresh pieces ≡ some r) × Received (flatten pieces) [] r
deliver_all-fresh_example = deliver_all-fresh pieces

-- the two packets of `whole`, as messages
abbrev messages : List (ℕ × List ℕ)
messages = (7, 9 ∷ []) ∷ (8, []) ∷ []

build_deliver_example :
    (r : Receiver) × (deliver_all fresh pieces ≡ some r)
    × (r.out ≡ calls messages)
    × (r.is_open ≡ true)
unfolding flatten build
build_deliver_example =
    build_deliver messages pieces (omega arith, omega arith, (omega arith, omega arith, tt)) refl
