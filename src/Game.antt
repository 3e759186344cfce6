-- ===== src/Game.antt =====
-- The packet game server helpers: include/iouring_runtime/game and src/modules/game.
pub mod PacketSession
pub mod PacketBuilder
pub mod PlayerRegistry
pub mod RoomManager
