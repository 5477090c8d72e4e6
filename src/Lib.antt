-- ===== src/Lib.antt =====
-- LuxPolaris: a TCP network library in the reactor style. An EventLoop polls descriptors and runs
-- functors that other threads give it; a Channel stands for a descriptor in it; Acceptor and Connector
-- make connections, TCPServer keeps them, and a TCPConnection moves bytes between a socket and two
-- Buffers.
--
-- Which file models which part (the paths are below LuxPolaris/src):
-- - Buffer: include/Buffer.h and Buffer.cc. The vector is a list of bytes with the two indices; a
--   pointer into it is an index. `append`, `retrieve`, `make_space`, `read_fd` and the others are the
--   methods of that name. Buffer/Find has findCRLF and findEOL, Buffer/Ints the integers in network
--   order, Buffer/Fill readFd; Buffer/Contents the proofs; Buffer/Refinement
--   the buffer as a queue of bytes.
-- - Channel: Channel.cc and include/Channel.h; event masks are records of bits.
-- - Poller: EPollPoller.cc and Poller.cc; a Channel* is a number in `heap`, epoll(7) an interface.
-- - EventLoop: EventLoop.cc. EventLoop/Thread has the loop beside other threads as single steps,
--   EventLoop/Updating and EventLoop/Removing have `update` and `remove` of a channel with what a loop
--   checks before it gives the channel to its poller, EventLoop/Retiring both in a row, EventLoop/Owner
--   the threads that loops belong to, EventLoop/Scheduling runAt, runAfter, runEvery and cancel.
-- - Timers: Timer.cc and TimerQueue.cc; std::set is an ordered list, a Timer* an address in `store`.
--   Timers/Callbacks has what a callback asks of the queue, Timers/Rounds a whole round.
-- - Connection: TCPConnection.cc. Connection/Closing and Connection/Handling have its other methods,
--   Connection/Operation the methods as steps, Connection/Runs the runs with the bytes that were
--   accepted in them, Connection/Draining a socket that is writable again and again. Of the channel a
--   connection has the events and whether the poller has it.
-- - LoopThread: EventLoopThread.cc, the owner and the thread as single steps.
-- - InetAddress: InetAddress.cc and the conversions of Sockets.cc; Sockets: the rest of Sockets.cc.
--   inet_ntop, inet_pton and %u are an interface with laws.
-- - Connector: Connector.cc. LoopPool: EventLoopThreadPool.cc. Acceptor: Acceptor.cc. WeakCallback:
--   include/WeakCallback.h.
-- - Server: TCPServer.cc. Server/Running has the server with its connections and the functors that wait
--   in the loops as single steps, Server/Sharing the threads that the connections go to.
-- - Client: TCPClient.cc. Client/Session has the client with its connector.
-- - Prelude has what the others share; Tests has runs on concrete inputs.
--
-- A method returns the object after it, inside Outcome where it can fail: asserts are kept, so this is
-- the build without NDEBUG. A callback or a functor given to a loop is an entry of a log; what it does
-- is a later call. System calls, the clock and the logging library (a git submodule) are arguments.
-- size_t is arithmetic modulo 2 ^ 64. All recursion is structural; no fuel is used.
--
-- Not modelled: the wrappers of Sockets.cc that only call the system, and getTcpInfo;
-- include/LuxAny.h, a copy of a third-party header; the strings for debugging; the
-- setters of callbacks that only store them; what a constructor asks of the system but does not look
-- at.
pub mod Prelude
pub mod Buffer
pub mod Channel
pub mod Poller
pub mod Connection
pub mod Connector
pub mod LoopThread
pub mod LoopPool
pub mod EventLoop
pub mod Timers
pub mod Acceptor
pub mod Server
pub mod Client
pub mod WeakCallback
pub mod InetAddress
pub mod Sockets
pub mod Tests
