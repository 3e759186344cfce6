-- ===== src/Core/Session.antt =====
-- include/iouring_runtime/core/Session.h, src/runtime/io/Session.cpp and SessionSend.cpp: a
-- connection on its owner's thread. `State` has the session, `Close`, `Recv`, `Send` and `Timers` its
-- methods, `Events` what the ring and the application may do to it.
pub mod State
pub mod Close
pub mod Recv
pub mod Send
pub mod Timers
pub mod Events
pub mod Life
