-- ===== src/Manager/Replies.antt =====
-- What the handlers of libdthread/dt_mgrthread.c share: `recycle_dtmsg_mqe`,
-- `joinwait_end_release`, `detached_ret_cleanup` and the error reply of `create_thread`.
use dthread.Base.{
  ℕ, ◌+◌, true, false, not, ◌||◌, none, some, [], ◌∷◌, ◌++◌, if◌then◌else◌, ◌==◌, ltb, leb, get_or,
  set,
}
use dthread.Types.{DThread, argret_nodata, Msg, Mqe, Request, internal_req}
use dthread.Types.Op
use dthread.Types.SizeOf
use dthread.Manager.State.{
  State, Dispatch, Event, gtab_at, set_argret_type, alloc_mqe, send_or_drop, req_release,
}
use dthread.Manager.Pending.{waitthread_of}

-- `recycle_dtmsg_mqe`, with the message that the caller then fills in; the peer stays.
abbrev pub recycle : Mqe → Msg → ℕ → Mqe
recycle m msg size = record m { frame = msg; flen = size }

-- a handle in a message with an error: it is not filled in, and not read
abbrev pub no_thread : DThread
no_thread = record { dt_index = 0; dt_seq = 0 }

-- the JOINED message of `joinwait_end_release`
abbrev pub joined_reply : State → Request → Mqe
joined_reply s r = record {
  frame = Msg.joined r.xidseq r.reqerror (
      if r.reqerror == 0
      then (gtab_at s (waitthread_of r.u).dt_index).ret
      else record { argret_type = argret_nodata; inlinelen = 0; bytes = [] });
  flen = SizeOf.joined;
  peer = r.reqpeer;
}

unfoldable pub send_joined : Request → State → State
send_joined r s =
    let (o, s') = alloc_mqe s in elim o [ none ↦ s' | some m ↦ send_or_drop (joined_reply s' r) s' ]

-- `joinwait_end_release`
unfoldable pub joinwait_end_release : Request → State → State
joinwait_end_release r s =
    let s' : State = if r.reqop == Op.joinwait then send_joined r s else s in
    req_release (internal_req r) true s'

no_dispatch : Dispatch
no_dispatch = record { argproc = false; retproc = false }

-- `detached_ret_cleanup`, of the entry `i`
unfoldable pub detached_ret_cleanup : ℕ → State → State
unfolding no_dispatch
detached_ret_cleanup i s =
    let gt = gtab_at s i in
    if ltb gt.disp_idx 1 || leb s.ndsps gt.disp_idx
    then s
    else if not (get_or s.dsps gt.disp_idx no_dispatch).retproc
    then s
    else record s {
      gtab = set s.gtab i (record gt { ret = set_argret_type argret_nodata gt.ret });
      events = s.events ++ (Event.proc_free i ∷ []);
    }

-- the CREATED message with an error
abbrev pub created_error : State → Mqe → ℕ → ℕ → Mqe
created_error s m xid err = record {
  frame = Msg.created xid err (record { dt_index = s.nmaxthread + 1; dt_seq = 0 });
  flen = SizeOf.created;
  peer = m.peer;
}

-- the block `send_created_error` of `create_thread`
unfoldable pub send_created_error : Mqe → ℕ → ℕ → State → State
send_created_error m xid err s =
    let (o, s') = alloc_mqe s in
    elim o [ none ↦ s' | some e ↦ send_or_drop (created_error s' m xid err) s' ]
