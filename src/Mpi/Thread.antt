-- ===== src/Mpi/Thread.antt =====
-- The MPI thread of libdthread/dt_mpithread.c (`mpit_main`, `mpimqerecv`, `mpit_stop`). MPI is a
-- parameter: its answers in a round of the loop are an argument, and a message that comes in is given
-- as the frame that MPI_Recv writes. `events` records what the thread asks of MPI.
use dthread.Base.{
  ℕ, ◌+◌, Bool, true, false, not, ◌||◌, Option, none, some, List, [], ◌∷◌, if◌then◌else◌, ltb,
}
use dthread.Types.{Mqe, Msg}
use dthread.Types.SizeOf
use dthread.Queuing.{Dtq, send_dequeue, mqe_alloc, recv_enqueue, recv_release}
use dthread.Mpi.{
  MpiMtsMgr, Testsome, mpimts_initsz, mpimts_init, mpimts_add, mpimts_done, mpimts_test,
  mpimts_finalize,
}

-- MTS_INIT, MTS_START, MTS_RUN, MTS_STOP and MTS_DONE
pub data MtsState : Type 0 where
  mts_init mts_start mts_run mts_stop mts_done : MtsState

-- What the thread asks of MPI: a send with its request, a send that failed, the requests that are
-- freed, and the end of the job.
pub data Event : Type 0 where
  isend : Mqe → ℕ → Event
  isend_failed : Mqe → Event
  request_free : List ℕ → Event
  mpi_abort : Event

-- the `mpit_` fields of the rank state, with the local state of the thread
pub record Mpit : Type 0 where
  pub mpit_state : MtsState
  pub mts : MpiMtsMgr
  pub isend_cnt : ℕ
  pub isend_bytes : ℕ
  pub iprobe_cnt : ℕ
  pub recv_cnt : ℕ
  pub recv_bytes : ℕ
  pub events : List Event

-- DTQ_MAXMSGSIZE, the largest `sizeof` of a message
abbrev pub maxmsgsize : ℕ
maxmsgsize = SizeOf.create

-- A message that MPI_Iprobe has found: its size, its sender, the frame, and whether MPI_Recv succeeds.
pub record Arrival : Type 0 where
  pub count : ℕ
  pub source : ℕ
  pub frame : Msg
  pub received : Bool

-- The result of `mpimqerecv`: `mlog_exit`, or the number of bytes. `overrun` says that MPI_Recv was
-- given more bytes than the buffer has.
pub data Recvd : Type 0 where
  exits : Recvd
  returns : ℕ → Dtq → (overrun : Bool) → Recvd

-- `mpimqerecv` once there is a buffer
abbrev recv_into : Arrival → Mqe → Dtq → Recvd
recv_into a mqe q =
    let mqe' : Mqe = record { frame = a.frame; flen = a.count; peer = a.source } in
    if ltb maxmsgsize a.count || not a.received
    then returns 0 (recv_release mqe' q) (ltb maxmsgsize a.count)
    else returns a.count (recv_enqueue mqe' q) false

-- `mpimqerecv`; `ok` says whether malloc succeeds.
unfoldable pub mpimqerecv : Bool → Arrival → Dtq → Recvd
mpimqerecv ok a q =
    let (o, q1) = mqe_alloc ok q in
    if ltb a.count 1 then exits else elim o [ none ↦ exits | some mqe ↦ recv_into a mqe q1 ]

-- MPI's and malloc's answers in a round of the loop. `isend_ret` is the new request, or none if
-- MPI_Isend fails; `probed` is none if MPI_Iprobe fails.
pub record Round : Type 0 where
  pub tested : Testsome
  pub isend_ret : Option ℕ
  pub grow_ok : Bool
  pub probed : Option (Option Arrival)
  pub mqe_ok : Bool

-- How a round ends. After `overruns` MPI_Recv has written behind the end of the frame, and nothing more
-- can be said of the process.
pub data Outcome : Type 0 where
  goes_on : Mpit → Dtq → Outcome
  aborts : Mpit → Dtq → Outcome
  exits : Outcome
  overruns : Outcome

-- the send of an entry whose MPI_Isend gave a request
abbrev track_send : Bool → Mqe → ℕ → Mpit → Dtq → Mpit × Dtq
track_send ok mqe req t q =
    let (added, mts') = mpimts_add ok mqe req t.mts in
    let t1 = record t {
      isend_cnt = t.isend_cnt + 1;
      isend_bytes = t.isend_bytes + mqe.flen;
      mts = mts';
      events = isend mqe req ∷ t.events;
    } in
    if added
    then (t1, q)
    else (record t1 { events = request_free (req ∷ []) ∷ t1.events }, mpimts_done (some mqe) q)

-- the send side of a round
unfoldable pub start_send : Round → Mpit → Dtq → Mpit × Dtq
start_send r t q =
    let (o, q1) = send_dequeue q in
    elim o [
      | none ↦ (t, q1)
      | some mqe ↦ elim r.isend_ret [
        | none ↦ (record t { events = isend_failed mqe ∷ t.events }, mpimts_done (some mqe) q1)
        | some req ↦ track_send r.grow_ok mqe req t q1
      ]
    ]

abbrev count_recv : ℕ → Mpit → Mpit
count_recv ret t =
    if ltb 0 ret then record t { recv_cnt = t.recv_cnt + 1; recv_bytes = t.recv_bytes + ret } else t

-- the receive side of a round
unfoldable pub probe_recv : Round → Mpit → Dtq → Outcome
probe_recv r t q =
    let t1 = record t { iprobe_cnt = t.iprobe_cnt + 1 } in
    elim r.probed [
      | none ↦ aborts t1 q
      | some flag ↦ elim flag [
        | none ↦ goes_on t1 q
        | some a ↦ elim (mpimqerecv r.mqe_ok a q) [
          | exits ↦ exits
          | returns ret q1 overrun ↦ if overrun then overruns else goes_on (count_recv ret t1) q1
        ]
      ]
    ]

-- A round of the loop of `mpit_main`, as one step. The code holds the queue lock only during each
-- `dtq_` call; Mpi/Reach also lets other threads' calls come between the three parts of a round.
unfoldable pub mpit_round : Round → Mpit → Dtq → Outcome
mpit_round r t q =
    let (ok, mts1, q1) = mpimts_test r.tested t.mts q in
    let t1 = record t { mts = mts1 } in
    let (t2, q2) = start_send r t1 q1 in if ok then probe_recv r t2 q2 else aborts t1 q1

-- `mpit_main` up to its loop; `false` is a return. `ok` says whether the reallocs succeed.
unfoldable pub mpit_start : Bool → Mpit → Bool × Mpit
mpit_start ok t =
    let (inited, mts1) = mpimts_init ok mpimts_initsz in
    let up = if inited then (true, record t { mpit_state = mts_run; mts = mts1 }) else (false, t) in
    elim t.mpit_state [
      | mts_start ↦ up
      | mts_init ↦ (false, record t { mpit_state = mts_done })
      | mts_run ↦ (false, record t { mpit_state = mts_done })
      | mts_stop ↦ (false, record t { mpit_state = mts_done })
      | mts_done ↦ (false, record t { mpit_state = mts_done })
    ]

-- the end of `mpit_main`; `null` is MPI_REQUEST_NULL.
unfoldable pub mpit_end : ℕ → (mpiabort : Bool) → Mpit → Dtq → Mpit × Dtq
mpit_end null mpiabort t q =
    let (freed, mts1, q1) = mpimts_finalize null t.mts q in
    let events1 = request_free freed ∷ t.events in
    (
      record t {
        mts = mts1;
        mpit_state = mts_done;
        events = if mpiabort then mpi_abort ∷ events1 else events1;
      },
      q1,
    )

-- `mpit_stop` before its wait; `true` if it waits for MTS_DONE.
unfoldable pub mpit_stop : Mpit → Bool × Mpit
mpit_stop t = elim t.mpit_state [
  | mts_run ↦ (true, record t { mpit_state = mts_stop })
  | mts_init ↦ (false, t)
  | mts_start ↦ (false, t)
  | mts_stop ↦ (false, t)
  | mts_done ↦ (false, t)
]
