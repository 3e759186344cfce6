-- ===== src/Tests.antt =====
-- Concrete runs of the modelled code, and the theorems applied to them.
pub mod Buffers
pub mod Sessions
pub mod Packets
pub mod Players
pub mod Jobs
pub mod Rooms
pub mod Responses
pub mod Routes
pub mod Parsing
pub mod Queries
pub mod Pools
pub mod Rings
pub mod Playlists
