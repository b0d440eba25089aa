-- ===== src/Manager/Create.antt =====
-- `create_thread` of libdthread/dt_mgrthread.c, the handler of a CREATE message on rank 0.
pub mod Outcome
pub mod Send
pub mod Thread
use dthread.Base.{ℕ, ◌+◌, ◌%◌, false, ◌||◌, none, some, [], ◌∷◌, ◌++◌, if◌then◌else◌, ◌==◌, leb}
use dthread.Types.{Argret, Attrs, Msg, Mqe, Request, ReqUnion, internal_req}
use dthread.Types.Op
use dthread.Types.Errno
use dthread.Types.SizeOf
use dthread.Queuing
use dthread.Queuing.{int_incr, int_decr}
use dthread.Manager.State.{State, gtab_at, alloc_mqe, alloc_req, req_release}
use dthread.Manager.Pending.{get_free_seq}
use dthread.Manager.Tables.{gtab_alloc, gtab_free}
use dthread.Manager.Replies.{send_created_error}

-- `pthread_attr_setstack` fails below PTHREAD_STACK_MIN, and then changes nothing.
abbrev pthread_stack_min : ℕ
pthread_stack_min = 16384

-- The new thread is joinable and its stack is not placed, whatever the attributes asked for.
abbrev pub fix_attrs : Attrs → Attrs
fix_attrs a = record a {
  detached = false;
  stackaddr = if leb pthread_stack_min a.stacksize then 0 else a.stackaddr;
}

-- The START message, for the slot `gidx` that `gtab_alloc` has set up.
abbrev pub start_msg : State → ℕ → ℕ → ℕ → Attrs → Mqe
start_msg s xid gidx target attrs = record {
  frame =
      Msg.start xid (record { dt_index = gidx; dt_seq = (gtab_at s gidx).seq }) (fix_attrs attrs);
  flen = SizeOf.start;
  peer = target;
}

-- The internal START request, with what the CREATED message will need.
abbrev pub start_req : State → Request → ℕ → ℕ → ℕ → ℕ → ℕ → Request
start_req s r xid gidx target c_peer c_xidseq = record r {
  reqpeer = target;
  reqop = Op.start;
  mqe = none;
  xidseq = xid;
  reqerror = 0;
  u = ReqUnion.creinfo (record { dt_index = gidx; dt_seq = (gtab_at s gidx).seq }) c_peer c_xidseq;
}

unfoldable pub create_send : Mqe → ℕ → Attrs → ℕ → Request → Mqe → ℕ → State → State
create_send m xid attrs target startreq startmqe gidx s =
    let (sxid, s1) = get_free_seq Op.start s in
    let r = start_req s1 startreq sxid gidx target m.peer xid in
    let (back, q) = Queuing.send_enqueue s1.mpi_rank (start_msg s1 sxid gidx target attrs) s1.dtq in
    let s2 = record s1 { dtq = q } in
    elim back [
      | none ↦ record s2 {
        threads_starting = int_incr s2.threads_starting;
        rpending = s2.rpending ++ (internal_req r ∷ []);
      }
      | some e ↦
          let s3 = req_release (internal_req r) false s2 in
          let s4 = record s3 { dtq = Queuing.mqe_unalloc e s3.dtq } in
          send_created_error m xid Errno.eio (gtab_free gidx s4)
    ]

unfoldable pub create_slot : Mqe → ℕ → Attrs → ℕ → Argret → ℕ → Request → Mqe → State → State
create_slot m xid attrs disp arg target startreq startmqe s =
    let (slot, s1) = gtab_alloc target disp arg s in
    elim slot [
      | none ↦
          let s2 = req_release (internal_req startreq) false s1 in
          send_created_error m xid Errno.enomem
            (record s2 { dtq = Queuing.mqe_unalloc startmqe s2.dtq })
      | some gidx ↦ create_send m xid attrs target startreq startmqe gidx s1
    ]

unfoldable pub create_mqe : Mqe → ℕ → Attrs → ℕ → Argret → ℕ → Request → State → State
create_mqe m xid attrs disp arg target startreq s =
    let (o, s1) = alloc_mqe s in
    elim o [
      | none ↦ send_created_error m xid Errno.enomem (req_release (internal_req startreq) false s1)
      | some startmqe ↦ create_slot m xid attrs disp arg target startreq startmqe s1
    ]

unfoldable pub create_req : Mqe → ℕ → Attrs → ℕ → Argret → ℕ → State → State
create_req m xid attrs disp arg target s =
    let (o, s1) = alloc_req s in
    elim o [
      | none ↦ send_created_error m xid Errno.enomem s1
      | some startreq ↦ create_mqe m xid attrs disp arg target startreq s1
    ]

-- `create_thread`
unfoldable pub create_thread : Mqe → ℕ → Attrs → ℕ → Argret → State → State
create_thread m xid attrs disp arg s =
    if disp == 0 || leb s.ndsps disp
    then send_created_error m xid Errno.einval s
    else if leb s.nmaxthread s.threads_alloc
    then send_created_error m xid Errno.eagain s
    else create_req m xid attrs disp arg s.next_rank
        (record s { next_rank = (s.next_rank + 1) % s.mpi_wsize })
