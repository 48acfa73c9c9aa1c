-- ===== src/Lib.antt =====
-- guitar-tea: a framework for server programs. One process with several threads: the main thread
-- waits for signals, a network thread accepts connections, four datanet threads read them. Each of
-- these threads runs the loop of a poller over an epoll instance.
--
-- The program's parts and the files that model them (paths from the repository's root):
--   user/comm/gt_list.h            Dlist.antt     circular doubly linked lists, and the loops over them
--   user/core/gt_core.c, .h        Phase.antt     the functions registered for the start-up, and their run
--   user/core/gt_log.c, .h         Log.antt       the log line and its buffer
--   user/core/gt_spinlock.h        Spinlock.antt  the spin lock, with the threads of test/spinlock_test.c
--   user/core/gt_poller.c, .h      Poller.antt    event sources, and one round of the loop of a poller
--   user/core/gt_network.c         Network.antt   listening, accepting, handing over, reading
--   user/core/gt_signal.c, .h      Signal.antt    handlers, and the pipe from them to the core poller
--   user/core/gt_worker.c          Worker.antt    the creation of the threads, their routines, and the call
--                                                 that wakes them
--   user/core/gt_ring_queue.h, .c  RingQueue.antt the types of the ring queue
--   user/main/main.c               Main.antt      parameters, daemon, start of the system, and main loop,
--                                  Boot.antt      with the calls of gt_init_system that register functions
-- Common.antt holds what they share: tests, lists, signed return codes, and commands on a state.
-- Definitions keep the names of the functions, types, fields and constants that they model; a part of
-- a function, such as the body of a loop, has a name of its own and a comment that says what it is.
--
-- How the parts interact. At the start the modules register functions in the table of Phase.antt
-- (Boot.antt), which then runs them (Main.antt). Network.antt and Signal.antt create event sources in
-- a poller (Poller.antt), each with a function that reads it; a poller keeps its sources in a list
-- (Dlist.antt), and its loop calls that function for each source that the kernel reports.
--
-- State. A command takes a state and returns a result with the next state, or nothing where the code
-- faults, as at a read through a pointer where nothing is allocated. The lists work on the list heads
-- of the process, by address (ListMem); the pollers on the process as a whole (World of Os.antt): list
-- heads, events on the heap, pollers, the ends of the signal pipe, and the kernel. Kernel and C library
-- are the parameter Os: its answers are arbitrary unless a theorem has a hypothesis about them.
-- Addresses are natural numbers with the offsets that the structs have on a 64-bit machine; an
-- `int32_t` that is returned is a signed integer of Common/Int.antt.
--
-- A process is healthy (Healthy of Poller/Population.antt) where the links between the heads of the
-- pollers and their events fit together, pollers are global objects, and events are blocks that were given
-- out; what an allocator does as documented is Heap there.
--
-- Fuel. The loops over a list take fuel, the number of rounds that they may run; theorems about them
-- ask for more fuel than the list has entries, which is what a full round takes, and a theorem about a
-- fault states it of the rounds themselves, whatever follows them. The loops of
-- gt_phase_run and of the creation of threads take the rounds that are left, from the sizes of the
-- arrays on, and all others are recursions on a list. The endless loop of gt_do_run runs for a number
-- of rounds that is an argument. Runs of threads have any length.
--
-- Interleavings are modelled for the spin lock (Spinlock.antt) and for the mutex and the condition
-- variable of the threads (Worker/Routine.antt), as a step relation in which any thread may be next,
-- and for the list of a poller that two threads change (Poller/Unlocked.antt), where a turn is one read
-- or one write of a pointer, seen by both at once; the other parts are the calls of one thread.
--
-- Whole runs. Poller/Modes.antt follows one event source through any starts and stops, and
-- Poller/Population.antt all pollers and event sources of the process, with the functions of the network
-- that make and destroy them, through any sequence of calls, through a round of the loop of any poller, and
-- through the rounds of the main loop (Main/Rounds.antt).
--
-- Not modelled: the log lines of all parts but the log itself (they are output only), prctl and the
-- names of the threads, what the C library makes of the command line (the address and the number are
-- arguments of gt_parse_parameters) and of the stack in a call trace (the texts of the symbols are an
-- argument of gt_backtrace_print), the end of a thread whose argument is NULL (the callers pass
-- entries of their tables), and the operations of the ring queue that have no body. A pointer to a
-- poller is taken to lead to one: the pollers of the program are global objects, and a load through a
-- NULL pointer to one is no fault here.
pub mod Common
pub mod Dlist
pub mod Phase
pub mod Log
pub mod Spinlock
pub mod Os
pub mod Poller
pub mod Network
pub mod Signal
pub mod Boot
pub mod RingQueue
pub mod Worker
pub mod Main
