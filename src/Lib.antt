-- ===== src/Lib.antt =====
-- dumbo, a fiber-based asynchronous runtime: a reactor runs on each cpu, and its fibers wait for
-- files, sockets and calls on other reactors while the event loop goes on.
--
-- The parts, and how they work together:
-- - Ring: include/dumbo/v1/reactor/ring_buffer.hpp, the ring between the IO poller and the event
--   loop. The positions are int64_t and the sizes size_t, with their wrap-around. Ring.Quotient
--   forgets where in the buffer the values stand.
-- - Poller: src/reactor/linux/io_poller.cpp. `poll` puts the messages of ready descriptors and of
--   finished file operations into the ring. The kernel is the parameter `Kernel`. Poller.Setup is
--   the constructor and the destructor.
-- - Mpsc: include/dumbo/v1/reactor/mpsc_queue.hpp, the inbox of a reactor, over the parameter
--   `Disruptor`; `Fifo` names what is relied on of it.
-- - Smp: include/dumbo/v1/reactor/smp_base.hpp, the inboxes of all reactors.
-- - Message: include/dumbo/v1/reactor/message/*.hpp and src/reactor/message.cpp. A message's
--   class is a constructor of `Class`; a call of a user's function is the argument `Outcome`;
--   what `finish` does to the world is a list of `Effect`.
-- - Scheduler: include/dumbo/v1/reactor/scheduler.hpp, the queues of ready and of waiting fibers.
-- - Worker and Pool: include/dumbo/v1/reactor/thread_pool.hpp and src/reactor/thread_pool.cpp. A
--   thread is a state that steps; the pool keeps its workers in a free and a busy list.
-- - Offload: the way of a call through the thread pool, which joins Worker, Pool, Smp and Reactor.
-- - Reactor: src/reactor/reactor.cpp and include/dumbo/v1/reactor/reactor.hpp: what becomes of a
--   message at a reactor, and the calls `run_at` and `run_at_async`.
--   Reactor.System lets the reactors work together, in any order of their steps.
-- - EventLoop: the event loop of src/reactor/reactor.cpp, which joins the parts above.
--   EventLoop.Wake goes on to the scheduler, with the fibers that a turn resumes.
-- - Application: include/dumbo/v1/reactor/application.hpp and src/reactor/application.cpp: the
--   reactors of a program and their shutdown. Application.Run is `run`, with the threads of the
--   reactors, which include/dumbo/v1/reactor/reactor.hpp starts and joins.
-- - File: src/reactor/linux/file_impl.cpp and include/dumbo/v1/reactor/linux/buffer_vec.hpp: the
--   single operation and the batch, over io_submit and the completions, the parameter `Aio`.
--   File.Messages is the message of an operation and of a batch, which the poller and the event
--   loop call. File.Handle opens, closes and seeks, over the parameter `Posix`.
-- - Socket: src/reactor/linux/socket_impl.cpp, with the system calls, the parameter `Net`, in a
--   list.
-- - IpAddress: src/reactor/linux/ip_address.cpp, the variant of the two kinds of address, with
--   inet_pton and inet_ntop as parameters.
-- - Windows: the port in src/reactor/msvc and include/dumbo/v1/reactor/msvc. Its calls are the
--   parameter `Win`, and those that were made stand in a list. Completions is the poller
--   (msvc_io_poller.cpp) over the completion port, the parameter `Port`; Files and Batches are
--   msvc_file_impl.cpp and msvc_buffer_vec.hpp; Sockets is msvc_socket_impl.cpp; Streams joins
--   `read` and `write` of both, which run the loop `transfer`; Streams.Polled joins these with
--   the poller that finishes their operations.
-- - Tools: include/dumbo/v1/tools: the string buffer, the texts that perror.hpp throws and
--   prints, and the latch.
-- - Base: what the parts share: lists and tests on the native numbers, integers of C++, bits,
--   steps that fault.
--
-- A failed BOOST_ASSERT, an access out of range and a signed overflow are `none`, or `err
-- asserted` where the code also throws or calls std::terminate. An exception that leaves the
-- `finish` of a message, and with it the event loop, is `none` too.
--
-- Bounds: the ring has a power of two of cells, as its callers give it (16384), and its positions
-- stay below 2 ^ 63, which is a hypothesis where a value is pushed. A poll asks for at most 512
-- events of each kind. Fuel: the loop over the ring has as much as the ring has values; the event
-- loop has any amount, and ends with it only by `none`; `stop` tries three steps of the thread,
-- and a thread that can end does so in two; a batch has as many rounds as blocks, since each
-- round that goes on takes one; the rounds in which io_submit answers 0 are counted by a
-- hypothesis; two rounds are enough for a transfer of a connection, for an `accept` that waits once,
-- and for a block of a batch of the Windows port.
--
-- Waits: an IO message resumes its fiber when its counter comes down to 0. Where no event is left to
-- bring it there the wait has no end, which is `err blocked`: in Socket after the one event of a
-- message, and in the Windows port where too few operations were started. That a counter comes round
-- after 2 ^ 64 events is left out there.
--
-- Not modelled: include/dumbo/v1/fiber, src/fiber and include/dumbo/v1/disruptor, which are
-- copies of other libraries and are parameters where they are called; what else is printed, and
-- the texts of system errors; the addresses of the Windows port, whose constructors are those of
-- Linux; ptr_cast.hpp and bzero_struct.hpp, which are casts; main.cpp, which is a demonstration.
-- Interleavings are sequences of whole calls: what a thread does under a lock, or a queue does in
-- one call, is one step.
pub mod Application
pub mod Base
pub mod EventLoop
pub mod File
pub mod IpAddress
pub mod Message
pub mod Mpsc
pub mod Offload
pub mod Poller
pub mod Pool
pub mod Reactor
pub mod Ring
pub mod Scheduler
pub mod Smp
pub mod Socket
pub mod Tools
pub mod Windows
pub mod Worker
