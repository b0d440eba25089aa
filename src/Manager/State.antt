-- ===== src/Manager/State.antt =====
-- The state of a rank: `dthread_dtrs_t`, `dthread_gtab_t` and `dthread_ltab_t` of
-- libdthread/dt_internal.h and `struct dt_mgrstate` of libdthread/dt_mgrthread.c.
use dthread.Base.{ℕ, Bool, true, false, Option, none, some, List, [], ◌∷◌, ◌++◌, get_or, set, leb}
use dthread.Types.{Argret, Mqe, Request, ReqState, ReqRef, app, internal_req, internal_init}
use dthread.Queuing
use dthread.Queuing.{Dtq}

-- An entry of the dispatch table: which of its proc functions are set.
pub record Dispatch : Type 0 where
  pub argproc : Bool
  pub retproc : Bool

-- `dthread_gtab_t`
pub record Gtab : Type 0 where
  pub allocated : Bool
  pub rank : ℕ
  pub seq : ℕ
  pub disp_idx : ℕ
  pub arg : Argret
  pub ret : Argret
  pub detached : Bool
  pub terminated : ℕ
  pub has_ltab : Bool
  pub ltab_idx : ℕ

-- LT_NONE to LT_CLEANUP
abbrev pub lt_none : ℕ
lt_none = 0

abbrev pub lt_starting : ℕ
lt_starting = 1

abbrev pub lt_running : ℕ
lt_running = 2

abbrev pub lt_returned : ℕ
lt_returned = 3

abbrev pub lt_exited : ℕ
lt_exited = 4

abbrev pub lt_canceled : ℕ
lt_canceled = 5

abbrev pub lt_cleanup : ℕ
lt_cleanup = 6

-- LT_NEED_FINALSTATE
abbrev pub need_finalstate : ℕ → Bool
need_finalstate x = leb x lt_running

-- `dthread_ltab_t`
pub record Ltab : Type 0 where
  pub gtab_idx : ℕ
  pub seq : ℕ
  pub pth_state : ℕ
  pub req : Request

-- What the code does outside its own state: pthread calls on the thread of a slot, the user's FREE
-- callback on a return value or on an argument, and the wake-up of a thread that waits for its
-- request.
pub data Event : Type 0 where
  pthread_create pthread_cancel pthread_join proc_free arg_free notify : ℕ → Event

-- the part of `dthread_dtrs_t` that does not change once the manager runs
pub record Config : Type 0 where
  pub mpi_rank : ℕ
  pub mpi_wsize : ℕ
  pub nmaxthread : ℕ
  pub ndsps : ℕ
  pub dsps : List Dispatch

-- `dthread_dtrs_t` (to `dtq`) and `struct dt_mgrstate` (from `draining`). `mem` and `pcreate` are
-- the answers of the coming calls of `malloc` and `pthread_create`; `fault` is set where the code
-- would leave an array or follow a null pointer. `gtab` is shared memory of all ranks: only the manager
-- of rank 0 takes and frees slots of it, and the record holds what this rank reads there; the writes of
-- other ranks are steps of their own in Startup/Reach.
pub record State : Type 0 where
  pub cfg : Config
  pub open cfg use *
  pub seqsrc : ℕ
  pub gtab : List Gtab
  pub ltab : List Ltab
  pub dtq : Dtq
  pub draining : Bool
  pub rpending : List ReqRef
  pub ltab_alloc : ℕ
  pub ltab_lastslot : ℕ
  pub threads_alloc : ℕ
  pub threads_starting : ℕ
  pub threads_running : ℕ
  pub last_slot : ℕ
  pub next_rank : ℕ
  pub mem : List Bool
  pub pcreate : List ℕ
  pub events : List Event
  pub fault : Bool

abbrev pub argret_zero : Argret
argret_zero = record { argret_type = 0; inlinelen = 0; bytes = [] }

-- table entries as `memset` and `calloc` leave them
abbrev pub gtab_zero : Gtab
gtab_zero = record {
  allocated = false;
  rank = 0;
  seq = 0;
  disp_idx = 0;
  arg = argret_zero;
  ret = argret_zero;
  detached = false;
  terminated = 0;
  has_ltab = false;
  ltab_idx = 0;
}

abbrev pub ltab_zero : Ltab
ltab_zero = record {
  gtab_idx = 0;
  seq = 0;
  pth_state = 0;
  req = record internal_init { reqstate = ReqState.idle };
}

abbrev pub gtab_at : State → ℕ → Gtab
gtab_at s i = get_or s.gtab i gtab_zero

abbrev pub ltab_at : State → ℕ → Ltab
ltab_at s i = get_or s.ltab i ltab_zero

-- Only the argret's type is written.
abbrev pub set_argret_type : ℕ → Argret → Argret
set_argret_type t a = record a { argret_type = t }

-- the contents of a request
abbrev pub req_of : List Ltab → ReqRef → Request
req_of ltab (app i) = (get_or ltab i ltab_zero).req
req_of ltab (internal_req r) = r

-- The next answer of `malloc`. It counts only where the free list is empty.
abbrev pub next_ok : List Bool → Bool
next_ok [] = false
next_ok (b ∷ bs) = b

abbrev pub later {ℓ} : {A : Type ℓ} → List A → List A
later [] = []
later (x ∷ xs) = xs

-- `dtq_mqe_alloc`
unfoldable pub alloc_mqe : State → Option Mqe × State
alloc_mqe s =
    let (o, q) = Queuing.mqe_alloc (next_ok s.mem) s.dtq in
    (o, record s { dtq = q; mem = later s.mem })

-- `dtq_req_alloc`
unfoldable pub alloc_req : State → Option Request × State
alloc_req s =
    let (o, q) = Queuing.req_alloc (next_ok s.mem) s.dtq in
    (o, record s { dtq = q; mem = later s.mem })

abbrev unalloc_if : Option Mqe × Dtq → Dtq
unalloc_if (none, q) = q
unalloc_if (some m, q) = Queuing.mqe_unalloc m q

-- `dtq_send_enqueue`, and `dtq_mqe_unalloc` of what it gives back
unfoldable pub send_or_drop : Mqe → State → State
send_or_drop m s = record s { dtq = unalloc_if (Queuing.send_enqueue s.mpi_rank m s.dtq) }

-- `dtq_recv_release`
unfoldable pub release_mqe : Mqe → State → State
release_mqe m s = record s { dtq = Queuing.recv_release m s.dtq }

abbrev set_reqstate : ReqState → Ltab → Ltab
set_reqstate st l = record l { req = record (l.req) { reqstate = st } }

-- `dtq_req_release`: `reqstate` is DTREQ_INTERNAL for the requests that `dtq_req_alloc` made.
unfoldable pub req_release : ReqRef → Bool → State → State
req_release (internal_req r) notified s = record s { dtq = Queuing.req_release_internal r s.dtq }
req_release (app i) true s = record s {
  ltab = set s.ltab i (set_reqstate ReqState.done (ltab_at s i));
  events = s.events ++ (Event.notify i ∷ []);
}
req_release (app i) false s = record s {
  ltab = set s.ltab i (set_reqstate ReqState.idle (ltab_at s i));
}
