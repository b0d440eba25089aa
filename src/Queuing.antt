-- ===== src/Queuing.antt =====
-- libdthread/dt_queuing.c and dt_queuing.h: the queues between the manager thread, the MPI thread
-- and the application threads. Each function runs under the queue lock, so each is one step.
-- `malloc` is an argument that says whether it succeeds.
pub mod Invariant
pub mod Final
pub mod Order
pub mod Wakeup
pub mod Drain
mod Tests
use dthread.Base.{
  ℕ, ◌+◌, ◌-◌, ◌%◌, ◌^◌, Bool, true, false, ◌&&◌, not, Option, none, some, List, [], ◌∷◌, ◌++◌, ltb,
  ◌==◌, if◌then◌else◌,
}
use dthread.Types.{Mqe, Request, ReqRef, internal_init, mqe_init}

-- DTQ_DD_INIT, DTQ_DD_DRAINING, DTQ_DD_DRAINED
abbrev pub dd_init : ℕ
dd_init = 0

abbrev pub dd_draining : ℕ
dd_draining = 1

abbrev pub dd_drained : ℕ
dd_drained = 2

-- `struct dtq_state`. `signals` counts the signals sent on `mgr_notify`.
pub record Dtq : Type 0 where
  pub mgrreqq : List ReqRef
  pub mgrrqlen : ℕ
  pub mgrmaxrqlen : ℕ
  pub signals : ℕ
  pub notifytimelimit : ℕ
  pub nreq : ℕ
  pub reqfree : List Request
  pub mpisendq : List Mqe
  pub mpisqlen : ℕ
  pub mpimaxsqlen : ℕ
  pub mpindequeuedsends : ℕ
  pub mpisq_draindown : ℕ
  pub mpirecvq : List Mqe
  pub mpirqlen : ℕ
  pub mpimaxrqlen : ℕ
  pub nloop : ℕ
  pub nmqe : ℕ
  pub mqefree : List Mqe

abbrev pub is_nil {ℓ} : {A : Type ℓ} → List A → Bool
is_nil [] = true
is_nil (x ∷ xs) = false

-- TAILQ_FIRST of both queues is NULL
abbrev pub no_work : Dtq → Bool
no_work q = is_nil q.mpirecvq && is_nil q.mgrreqq

abbrev signal_if : Bool → ℕ → ℕ
signal_if b n = if b then n + 1 else n

abbrev max_of : ℕ → ℕ → ℕ
max_of len m = if ltb m len then len else m

req_dequeue_of : List ReqRef → Dtq → Option ReqRef × Dtq
req_dequeue_of [] q = (none, q)
req_dequeue_of (r ∷ rs) q = (some r, record q { mgrreqq = rs; mgrrqlen = q.mgrrqlen - 1 })

-- `dtq_req_dequeue_locked`, and `dtq_req_dequeue`, which takes the lock around it
unfoldable pub req_dequeue : Dtq → Option ReqRef × Dtq
unfolding req_dequeue_of
req_dequeue q = req_dequeue_of q.mgrreqq q

recv_dequeue_of : List Mqe → Dtq → Option Mqe × Dtq
recv_dequeue_of [] q = (none, q)
recv_dequeue_of (m ∷ ms) q = (some m, record q { mpirecvq = ms; mpirqlen = q.mpirqlen - 1 })

-- `dtq_recv_dequeue_locked`, and `dtq_recv_dequeue`
unfoldable pub recv_dequeue : Dtq → Option Mqe × Dtq
unfolding recv_dequeue_of
recv_dequeue q = recv_dequeue_of q.mpirecvq q

-- `dtq_notifywait`. If there is no work the caller sleeps in `pthread_cond_wait` without the lock;
-- `others` is what the other threads do to the queues meanwhile.
unfoldable pub notifywait : (Dtq → Dtq) → Dtq → Option Mqe × Option ReqRef × Dtq
unfolding req_dequeue recv_dequeue
notifywait others q =
    let q0 : Dtq = if no_work q then others q else q in
    let (m, q1) = recv_dequeue q0 in let (r, q2) = req_dequeue q1 in (m, r, q2)

-- `dtq_notifytimelimit`; a negative argument is 0 too.
unfoldable pub set_notifytimelimit : ℕ → Dtq → Dtq
set_notifytimelimit newval q = record q { notifytimelimit = if ltb newval 1 then 0 else newval }

req_alloc_of : List Request → Bool → Dtq → Option Request × Dtq
req_alloc_of (r ∷ rs) ok q = (some r, record q { reqfree = rs })
req_alloc_of [] true q = (some internal_init, record q { nreq = q.nreq + 1 })
req_alloc_of [] false q = (none, q)

-- `dtq_req_alloc`
unfoldable pub req_alloc : Bool → Dtq → Option Request × Dtq
unfolding req_alloc_of
req_alloc ok q = req_alloc_of q.reqfree ok q

-- `dtq_req_enqueue`
unfoldable pub req_enqueue : ReqRef → Dtq → Dtq
req_enqueue r q = record q {
  mgrreqq = q.mgrreqq ++ (r ∷ []);
  mgrrqlen = q.mgrrqlen + 1;
  mgrmaxrqlen = max_of (q.mgrrqlen + 1) q.mgrmaxrqlen;
  signals = signal_if (no_work q) q.signals;
}

-- the branch of `dtq_req_release` for an internal request
unfoldable pub req_release_internal : Request → Dtq → Dtq
req_release_internal r q = record q { reqfree = r ∷ q.reqfree }

mqe_alloc_of : List Mqe → Bool → Dtq → Option Mqe × Dtq
mqe_alloc_of (m ∷ ms) ok q = (some m, record q { mqefree = ms })
mqe_alloc_of [] true q = (some mqe_init, record q { nmqe = q.nmqe + 1 })
mqe_alloc_of [] false q = (none, q)

-- `dtq_mqe_alloc`
unfoldable pub mqe_alloc : Bool → Dtq → Option Mqe × Dtq
unfolding mqe_alloc_of
mqe_alloc ok q = mqe_alloc_of q.mqefree ok q

-- `dtq_mqe_unalloc`
unfoldable pub mqe_unalloc : Mqe → Dtq → Dtq
mqe_unalloc m q = record q { mqefree = m ∷ q.mqefree }

-- `dtq_recv_enqueue_locked`, and `dtq_recv_enqueue`
unfoldable pub recv_enqueue : Mqe → Dtq → Dtq
recv_enqueue m q = record q {
  mpirecvq = q.mpirecvq ++ (m ∷ []);
  mpirqlen = q.mpirqlen + 1;
  mpimaxrqlen = max_of (q.mpirqlen + 1) q.mpimaxrqlen;
  signals = signal_if (no_work q) q.signals;
}

-- `n++` and `n--` on a 32-bit `int`, as its bit pattern
abbrev pub int_incr : ℕ → ℕ
int_incr n = (n + 1) % 2 ^ 32

abbrev pub int_decr : ℕ → ℕ
int_decr n = (n + (2 ^ 32 - 1)) % 2 ^ 32

loop_enqueue : Mqe → Dtq → Dtq
unfolding recv_enqueue
loop_enqueue m q = let q' = recv_enqueue m q in record q' { nloop = int_incr q'.nloop }

sendq_enqueue : Mqe → Dtq → Dtq
sendq_enqueue m q = record q {
  mpisendq = q.mpisendq ++ (m ∷ []);
  mpisqlen = q.mpisqlen + 1;
  mpimaxsqlen = max_of (q.mpisqlen + 1) q.mpimaxsqlen;
}

-- `dtq_send_enqueue`, at the rank `rank`: the entry comes back if it cannot be sent.
unfoldable pub send_enqueue : ℕ → Mqe → Dtq → Option Mqe × Dtq
unfolding loop_enqueue sendq_enqueue
send_enqueue rank m q =
    if not (q.mpisq_draindown == dd_init)
    then (some m, q)
    else if m.peer == rank
    then (none, loop_enqueue m q)
    else (none, sendq_enqueue m q)

send_dequeue_of : List Mqe → Dtq → Option Mqe × Dtq
send_dequeue_of [] q = (none, q)
send_dequeue_of (m ∷ ms) q = (
  some m,
  record q {
    mpisendq = ms;
    mpisqlen = q.mpisqlen - 1;
    mpindequeuedsends = q.mpindequeuedsends + 1;
  },
)

-- `dtq_send_dequeue`
unfoldable pub send_dequeue : Dtq → Option Mqe × Dtq
unfolding send_dequeue_of
send_dequeue q = send_dequeue_of q.mpisendq q

drained_after : Dtq → Dtq
drained_after q =
    if not (q.mpisq_draindown == dd_init) && q.mpisqlen == 0 && q.mpindequeuedsends == 0
    then record q { mpisq_draindown = dd_drained; signals = q.signals + 1 }
    else q

-- `dtq_send_release`
unfoldable pub send_release : Mqe → Dtq → Dtq
unfolding drained_after
send_release m q =
    drained_after
      (record q { mpindequeuedsends = int_decr q.mpindequeuedsends; mqefree = m ∷ q.mqefree })

-- `dtq_recv_release`
unfoldable pub recv_release : Mqe → Dtq → Dtq
recv_release m q = record q { mqefree = m ∷ q.mqefree }

-- `dtq_send_draindown`: the number of entries that are still to be sent.
unfoldable pub send_draindown : Dtq → ℕ × Dtq
send_draindown q =
    let rv = q.mpisqlen + q.mpindequeuedsends in
    (rv, record q { mpisq_draindown = if rv == 0 then dd_drained else dd_draining })

-- `dtq_send_drainstate`
abbrev pub send_drainstate : Dtq → ℕ
send_drainstate q = q.mpisq_draindown

-- `dtq_init`
unfoldable pub init : Dtq
init = record {
  mgrreqq = [];
  mgrrqlen = 0;
  mgrmaxrqlen = 0;
  signals = 0;
  notifytimelimit = 0;
  nreq = 0;
  reqfree = [];
  mpisendq = [];
  mpisqlen = 0;
  mpimaxsqlen = 0;
  mpindequeuedsends = 0;
  mpisq_draindown = dd_init;
  mpirecvq = [];
  mpirqlen = 0;
  mpimaxrqlen = 0;
  nloop = 0;
  nmqe = 0;
  mqefree = [];
}
