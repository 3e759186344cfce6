-- ===== src/Core.antt =====
-- The protocol-agnostic runtime: include/iouring_runtime/core and src/runtime.
pub mod RecvBuffer
pub mod SendQueue
pub mod SendState
pub mod Session
pub mod JobQueue
pub mod BufferPool
pub mod RingBuffer
