-- ===== src/Lib.antt =====
-- Verification of dthread, a library that runs the threads of one program in the processes (ranks)
-- of an MPI job, with shared memory between them.
--
-- A rank has a manager thread, an MPI thread and application threads. They meet in the queues of
-- libdthread/dt_queuing.c: the application threads queue requests, the MPI thread queues the
-- messages that come in and takes those that go out, and the manager works on both. The managers
-- of all ranks speak a protocol (CREATE, START, STARTED, CREATED, JOIN, ...). The manager of rank 0
-- owns the global thread table `gtab[]`, and the manager of each rank the table `ltab[]` of the
-- threads that run there.
--
-- The files, and the code that they model:
--   Types, Types/*             include/dthread/dthread.h, libdthread/dt_reqmsg.h: thread handles,
--                              argrets, requests, messages, operation codes, sizes.
--   Queuing                    libdthread/dt_queuing.c: `struct dtq_state` as the record `Dtq`, one
--                              function for each `dtq_*`, all under the queue lock and so each one
--                              step. Queuing/Invariant has the step relation of all callers; the
--                              other children follow the drain, the signals, the order of the
--                              messages and the end.
--   Manager/State              libdthread/dt_internal.h and `struct dt_mgrstate`: the state of a rank.
--   Manager/Pending            `find_pending_req`, `get_free_seq`, `find_pending_msgreq`,
--                              `joinwait_search`.
--   Manager/Tables             `gtab_alloc`, `gtab_free`, `ltab_alloc`, `ltab_free`, and
--                              `dthread_dt2gtab` of libdthread/dt_ops.c.
--   Manager/Router             `binary_router`.
--   Manager/Broadcast          `broadcast_shutdown` on all ranks of the job.
--   Manager/Shutdown, Replies, Create, Handlers, Dispatch
--                              the handlers of libdthread/dt_mgrthread.c, `process_mqe` and
--                              `process_req`; a handler that is long is several functions, one for
--                              each step that can fail.
--   Manager/Wrapper            what application threads run: `dthreadwrap`, `dthreadcleanup`,
--                              `retclean_request`, `app0wrap`, `app0cleanup`.
--   Manager/Main               `mgr_startapp` and a round of the loop of `mgr_main`.
--   Manager/Startup            the state that libdthread/dt_init.c leaves for the manager, and the start
--                              of `mgr_main`; Startup/Reach is the relation of the states of rank 0
--                              that follow.
--   Manager/Counts, Join, Detach, RoundTrip, Cleanup, Ending, Create/*
--                              the theorems on these handlers.
--   Mpi                        `struct mpimtsmgr` of libdthread/dt_mpithread.c, the sends in flight, as
--                              the record `MpiMtsMgr` with one function for each `mpimts_*`.
--                              Mpi/Thread is the MPI thread itself: `mpit_main` as its start, a round of
--                              its loop and its end, `mpimqerecv` and `mpit_stop`. Mpi/Reach is the
--                              relation of the states that it comes to, over the calls of
--                              Queuing/Invariant, with other threads' calls between its rounds and
--                              between the three parts of a round.
--   Shm                        `dthread_shmref2ptr` and `dthread_ptr2shmref` of libdthread/dt_ops.c.
--   Shm/Segment                the segment allocator of libdthread/dt_segops.c.
--   Shm/Establish              `establish` of libdthread/dt_segops.c, with the answers of the system's
--                              calls as an argument.
--   Shm/Umap                   the loop of `dthread_shmseg_establish` that all ranks run together for a
--                              segment, with the ranks as a list.
--   Shm/Break                  the break driver of libdthread/dt_shmops.c: a block's header is a value
--                              at its offset, and `copies` records the calls of `memcpy`.
--   Shm/Bsd                    the bsd driver of libdthread/dt_shmops.c: the overhead words of the
--                              blocks are read at their offsets; Bsd/Blocks has its invariant.
--   Shm/Arena                  the drivers' table, the default arena and the `dthread_shm_*` calls of
--                              libdthread/dt_shmops.c. Arena/Driver is what a driver promises,
--                              Arena/Internal fills it with the break and the bsd driver, and
--                              Arena/Client draws the conclusions for all callers of an arena.
--   Calls, Calls/*             the calls of application threads in libdthread/dt_threadops.c: the request
--                              that a call posts and the result that its thread collects.
--   Base                       shared helpers: Boolean tests on the native numbers, lists indexed by
--                              them, counting.
--
-- Conventions. Machine integers are natural numbers. Where the code keeps a counter below its
-- bound by a guard, plain addition is used; counters without a guard (`threads_running`,
-- `threads_starting`, `mpindequeuedsends`, `nloop`) keep their 32-bit pattern (`int_incr`, `int_decr`),
-- and `uint32_t` and `uint64_t` sums that can wrap are taken modulo 2^32 and 2^64. Sizes are
-- those of x86-64 Linux. An int that is -1 for "none" is an Option. TAILQ lists are lists; a
-- request of an application thread is shared with its thread, so the lists hold its index of
-- `ltab[]`, while an internal request has one owner and travels with its contents (`ReqRef`). A
-- message frame is a value of `Msg`, and `Msg.header` a frame of which only the header is known.
-- The answers of `malloc` and `pthread_create` are oracle lists in the state (`mem`, `pcreate`);
-- calls of pthread and of the user's callbacks are recorded in `events`; `fault` marks the
-- accesses out of bounds that the code would make. `signals` counts the signals on the manager's
-- condition variable.
--
-- Shared memory. `gtab[]` is one table for all ranks. The state of a rank holds what it reads there;
-- only the manager of rank 0 takes and frees slots, and what other ranks write meanwhile is the step
-- `writes` of Startup/Reach. The other theorems follow the steps of one rank.
--
-- Fuel. `get_free_seq` loops with one step more than there are pending requests, and
-- `get_free_seq-free` shows that this is enough. The searches of the tables run over `nmaxthread`
-- slots, and the theorems on `gtab_alloc` and `ltab_alloc` show that they find a free slot if
-- there is one. The loop of `bsd_malloc` doubles a 64-bit number at most 64 times until it is 0,
-- and gets 65 steps; `bsd_malloc_lem` finds the bucket of every size up to 1 GB. The loops of
-- `bsd_init` over the buckets get 28 steps, for pages of at most 1 GB. A page is a power of two.
-- The loops of `mpimts_test` run over the slots in use, and the retries of
-- `dthread_shmseg_establish` are counted down from 9.
--
-- Not modelled: logging (libdthread/mlog.c), the MPI and shared memory set-up of
-- libdthread/dt_init.c, MPI itself (its answers are arguments of Mpi/Thread), the system's calls
-- of libdthread/dt_segops.c and its clean-up after a failure, the statistics of
-- libdthread/dt_shmops.c, the cancel state, the scheduling attributes and the decoding of joined
-- values in libdthread/dt_threadops.c, the synchronisation operations (libdthread/dt_syncops.c,
-- dt_syncops_pshared.c), and xthread.
pub mod Base
pub mod Types
pub mod Queuing
pub mod Manager
pub mod Mpi
pub mod Shm
pub mod Calls
