-- ===== src/Lib.antt =====
-- The runtime is a C++ library for servers on io_uring. A worker thread owns a ring and the sessions
-- on it; a session receives into provided buffers, hands the bytes to its subclass through `OnRecv`,
-- and sends what other threads or its handlers push into its queue. The game module cuts the bytes
-- into packets.
-- Jobs that any thread pushes are executed by one worker at a time.
--
-- Which file models which part, with paths from the repository's root:
-- - Core/RecvBuffer: include/iouring_runtime/core/RecvBuffer.h. The storage is a list of bytes of fixed
--   length, the two positions are numbers, and each method is a function on the record.
-- - Core/SendQueue: include/iouring_runtime/core/SendQueue.h. A method holds the mutex from beginning to
--   end, so that a history of calls from any threads is a list of operations.
-- - Core/SendState: include/iouring_runtime/core/SessionDetail.h. An `iovec` is the bytes it points at.
-- - Core/Session: include/iouring_runtime/core/Session.h, src/runtime/io/Session.cpp and
--   src/runtime/io/SessionSend.cpp. `State` has the session's fields, `Close`, `Recv`, `Send` and
--   `Timers` its methods in snake case, `Events` the steps: what the ring completes, what the timer
--   ticks, and what the application calls. `Life` has the proofs about them.
-- - Core/JobQueue: include/iouring_runtime/core/JobQueue.h, src/runtime/job/JobQueue.cpp and
--   GlobalQueue.cpp. The threads that push and execute are data, and a step is one atomic action of one
--   of them, so that a chain of steps is an interleaving.
-- - Core/BufferPool: include/iouring_runtime/core/SendBuffer.h. An allocation is one action, a release two,
--   with the mutex taken or not, so that a list of actions is an interleaving.
-- - Core/RingBuffer: include/iouring_runtime/core/RingBuffer.h and src/runtime/ring/RingBuffer.cpp. The
--   buffers are known by their addresses, and the calls to liburing are a list.
-- - Game/PacketSession: src/modules/game/PacketSession.cpp, on top of RecvBuffer. `Frames` describes the
--   packets of a whole stream independently of the code.
-- - Game/PacketBuilder: include/iouring_runtime/game/PacketBuilder.h. A message is what its generated
--   class answers.
-- - Game/PlayerRegistry: include/iouring_runtime/game/PlayerRegistry.h and
--   src/modules/game/PlayerRegistry.cpp. A hash map is a list of entries; the order in which `Records`
--   returns them is the list's.
-- - Game/RoomManager: include/iouring_runtime/game/Room.h and RoomManager.h, and
--   src/modules/game/Room.cpp and RoomManager.cpp. The ids, the map of rooms and the players of a room.
-- - Web/Method, Web/Status: include/iouring_runtime/web/HttpMethod.h and HttpStatus.h.
-- - Web/Paths, Web/RadixTree: src/modules/web/RadixTree.cpp. A pointer to a node is part of the tree, the
--   array of routes a function of the method, and a view an address and a size. `Table` describes the
--   routes as a flat list of registrations, independently of the tree.
-- - Web/Request: include/iouring_runtime/web/HttpRequest.h. Its loops over the query and the cookies run on
--   as much fuel as there are bytes, and a round takes at least one.
-- - Web/Parser: include/iouring_runtime/web/HttpParser.h and src/modules/web/HttpParser.cpp. What the
--   parser library calls is a list of events.
-- - Web/Response: include/iouring_runtime/web/HttpResponse.h and src/modules/web/HttpResponse.cpp. What the
--   session does with a response or a stream that `Send` gives it is not part of it.
-- - Web/Router: src/modules/web/Router.cpp. A handler, and a middleware, is a function of the context that
--   returns or throws.
-- - Media/Url, Media/Hls: src/modules/media/Hls.cpp. The loop of `RewriteHlsManifest` over a line runs on
--   as much fuel as the line has bytes, and a round takes five.
-- - Prelude: numbers of fixed width, lists, maps, results, and tests. Tests: concrete runs.
--
-- Conventions and bounds. Bytes are numbers, read modulo 256, and the host is little-endian, as
-- `ReadLe16` needs. `std::uint32_t` and `std::size_t` arithmetic wraps. The loop of
-- `PacketSession::OnRecv` runs on as much fuel as there are bytes, and a round takes at least one; that
-- it ends is part of the result about it. The loop of `DrainPausedRecv` runs on as much fuel as chunks
-- are queued, and a round takes one. The search of `NextRoomIdLocked` runs on as much fuel as there are
-- rooms and two more: it passes over 0 and the ids of rooms, each at most once. The loops over a path
-- run on as much fuel as it has bytes, and a round takes at least one. Durations and time points are
-- numbers in the clock's unit.
--
-- A session's surroundings are fields of its record: the answers of `new (std::nothrow)` and of the
-- submission queue, in the order in which they are asked for and in any pattern, the operations that
-- the kernel has in flight, the clock, and the entry in the session manager. The virtual methods are
-- a record of functions on the session; the results about sessions are for callbacks that keep the
-- invariant, as those do that act on the session through its methods.
--
-- Not modelled: logging, `CaptureRemoteAddr`, ids and file descriptors, `Submit`, the task that
-- `RunOnOwner` posts from another thread (it is the same step, later), and the parts of the repository
-- that no file here names: the ring itself, the workers and listeners, the job timer, the packets of
-- rooms, the HTTP sessions, the proxy module, and the applications. A send of a null buffer has no
-- bytes here, where the source would dereference it. A copy of 2^32 bytes or more into a buffer of a
-- response goes past the buffer in the source; here it gives what the buffer reports.
pub mod Prelude
pub mod Core
pub mod Game
pub mod Web
pub mod Media
pub mod Tests
