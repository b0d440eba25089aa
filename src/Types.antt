-- ===== src/Types.antt =====
-- The data that ranks and threads exchange: include/dthread/dthread.h (thread handles, argrets)
-- and libdthread/dt_reqmsg.h (operations, requests, messages).
pub mod Op
pub mod Errno
pub mod SizeOf
use dthread.Base.{ℕ, Bool, false, Option, none, List, []}

-- `dthread_t`
pub record DThread : Type 0 where
  pub dt_index : ℕ
  pub dt_seq : ℕ

-- `dthread_argret_t`; `bytes` is the union of the inline bytes and the shmref.
pub record Argret : Type 0 where
  pub argret_type : ℕ
  pub inlinelen : ℕ
  pub bytes : List ℕ

-- DTHREAD_NODATA and DTHREAD_CANCELED
abbrev pub argret_nodata : ℕ
argret_nodata = 1

abbrev pub argret_canceled : ℕ
argret_canceled = 4

-- What the manager reads and writes of a `pthread_attr_t`; `other` is the rest of it.
pub record Attrs : Type 0 where
  pub detached : Bool
  pub stackaddr : ℕ
  pub stacksize : ℕ
  pub other : ℕ

-- `struct dtmsg_*`: the header's op is the constructor, and the first field is the header's
-- xidseq. `header` is a frame of which only the header is there: a shutdown broadcast, an unknown
-- operation, or a frame too short for its operation.
pub data Msg : Type 0 where
  create : ℕ → Attrs → ℕ → Argret → Msg
  created : ℕ → ℕ → DThread → Msg
  start : ℕ → DThread → Attrs → Msg
  started : ℕ → ℕ → Msg
  detach : ℕ → DThread → Msg
  detached : ℕ → ℕ → Msg
  cancel : ℕ → DThread → Msg
  canceled : ℕ → ℕ → Msg
  join : ℕ → DThread → Msg
  joined : ℕ → ℕ → Argret → Msg
  terminated : ℕ → DThread → ℕ → Msg
  header : ℕ → ℕ → Msg

-- `hdr->op`
abbrev pub op_of : Msg → ℕ
op_of (create x a d g) = Op.create
op_of (created x e t) = Op.created
op_of (start x t a) = Op.start
op_of (started x e) = Op.started
op_of (detach x t) = Op.detach
op_of (detached x e) = Op.detached
op_of (cancel x t) = Op.cancel
op_of (canceled x e) = Op.canceled
op_of (join x t) = Op.join
op_of (joined x e r) = Op.joined
op_of (terminated x t f) = Op.terminated
op_of (header o x) = o

-- `hdr->xidseq`
abbrev pub xidseq_of : Msg → ℕ
xidseq_of (create x a d g) = x
xidseq_of (created x e t) = x
xidseq_of (start x t a) = x
xidseq_of (started x e) = x
xidseq_of (detach x t) = x
xidseq_of (detached x e) = x
xidseq_of (cancel x t) = x
xidseq_of (canceled x e) = x
xidseq_of (join x t) = x
xidseq_of (joined x e r) = x
xidseq_of (terminated x t f) = x
xidseq_of (header o x) = x

-- `hdr->xidseq = seq`
abbrev pub set_xidseq : ℕ → Msg → Msg
set_xidseq s (create x a d g) = create s a d g
set_xidseq s (created x e t) = created s e t
set_xidseq s (start x t a) = start s t a
set_xidseq s (started x e) = started s e
set_xidseq s (detach x t) = detach s t
set_xidseq s (detached x e) = detached s e
set_xidseq s (cancel x t) = cancel s t
set_xidseq s (canceled x e) = canceled s e
set_xidseq s (join x t) = join s t
set_xidseq s (joined x e r) = joined s e r
set_xidseq s (terminated x t f) = terminated s t f
set_xidseq s (header o x) = header o s

-- `struct dtq_mpiqentry`: the frame is read as the message that it holds.
pub record Mqe : Type 0 where
  pub frame : Msg
  pub flen : ℕ
  pub peer : ℕ

-- `DTREQ_*`
pub data ReqState : Type 0 where
  idle busy done internal : ReqState

-- the union of `dthread_request_t`; `retval` is the buffer that the pointer names, if it is set.
pub data ReqUnion : Type 0 where
  unset : ReqUnion
  newdthread : DThread → ReqUnion
  retval : Option Argret → ReqUnion
  creinfo : DThread → ℕ → ℕ → ReqUnion
  waitthread : DThread → ReqUnion

-- `dthread_request_t`; `req_ltabidx` is `none` for -1.
pub record Request : Type 0 where
  pub req_ltabidx : Option ℕ
  pub reqstate : ReqState
  pub reqpeer : ℕ
  pub reqop : ℕ
  pub mqe : Option Mqe
  pub xidseq : ℕ
  pub reqerror : ℕ
  pub u : ReqUnion

-- A `dthread_request_t *`. An application thread's request is shared with its thread and stays in
-- `ltab[i].req`; an internal request has one owner at a time and travels with its contents.
pub data ReqRef : Type 0 where
  app : ℕ → ReqRef
  internal_req : Request → ReqRef

-- a request as `malloc` and `memset` leave it
abbrev pub internal_init : Request
internal_init = record {
  req_ltabidx = none;
  reqstate = internal;
  reqpeer = 0;
  reqop = Op.none;
  mqe = none;
  xidseq = 0;
  reqerror = 0;
  u = unset;
}

-- an entry as `malloc` leaves it: its contents mean nothing, and every caller overwrites them
abbrev pub mqe_init : Mqe
mqe_init = record { frame = header Op.none 0; flen = 0; peer = 0 }
