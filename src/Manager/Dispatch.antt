-- ===== src/Manager/Dispatch.antt =====
-- `process_mqe` and `process_req` of libdthread/dt_mgrthread.c: what the manager does with each
-- message and each request that it takes from its queues.
use dthread.Base.{
  ℕ, Bool, true, false, not, ◌&&◌, ◌||◌, none, some, [], ◌∷◌, ◌++◌, if◌then◌else◌, ◌==◌, ltb, leb,
  set,
}
use dthread.Types.{
  DThread, Argret, Msg, op_of, set_xidseq, Mqe, Request, ReqState, ReqUnion, ReqRef, app,
  internal_req,
}
use dthread.Types.Op
use dthread.Types.Errno
use dthread.Types.SizeOf
use dthread.Queuing
use dthread.Queuing.{int_incr, int_decr}
use dthread.Manager.State.{
  State, Event, Ltab, gtab_at, ltab_at, lt_running, req_of, alloc_mqe, send_or_drop, release_mqe,
  req_release,
}
use dthread.Manager.Pending.{get_free_seq, find_pending_msgreq}
use dthread.Manager.Tables.{gtab_free, ltab_free}
use dthread.Manager.Replies.{no_thread}
use dthread.Manager.Shutdown.{broadcast_shutdown}
use dthread.Manager.Create.{create_thread}
use dthread.Manager.Handlers.{
  start_thread, detach_thread, cancel_thread, join_thread, terminated_thread,
}

-- A write to the request `r`, which for an application thread lies in `ltab[]`.
abbrev pub put_req : ReqRef → Request → State → State
put_req (app i) q s = record s { ltab = set s.ltab i (record (ltab_at s i) { req = q }) }
put_req (internal_req r) q s = s

-- the same request, with what was written to it
abbrev pub ref_with : ReqRef → Request → ReqRef
ref_with (app i) q = app i
ref_with (internal_req r) q = internal_req q

-- A reply is written to the request `r`, and its thread is woken.
unfoldable pub finish : ReqRef → Request → State → State
finish r q s = req_release (ref_with r q) true (put_req r q s)

abbrev pub created_result : Request → ℕ → DThread → Request
created_result q err t =
    if err == 0
    then record q { reqerror = err; u = ReqUnion.newdthread t }
    else record q { reqerror = err }

-- `if (req->u.retval) *req->u.retval = joined->joinret;`
abbrev pub joined_union : ReqUnion → Argret → ReqUnion
joined_union (ReqUnion.retval (some old)) ret = ReqUnion.retval (some ret)
joined_union u ret = u

abbrev pub joined_result : Request → ℕ → Argret → Request
joined_result q err ret = record q { reqerror = err; u = joined_union q.u ret }

-- The cases CREATED, DETACHED, CANCELED and JOINED: a reply to the pending request `pending_op`,
-- whose contents `result` gives; the message is done with in any case.
unfoldable pub reply_to : Mqe → ℕ → ℕ → (Request → Request) → State → State
reply_to m pending_op size result s = elim (find_pending_msgreq m pending_op size s) [
  | none ↦ release_mqe m s
  | some (r, s1) ↦ release_mqe m (finish r (result (req_of s1.ltab r)) s1)
]

-- `req->u.creinfo`
abbrev pub creinfo_of : ReqUnion → DThread × ℕ × ℕ
creinfo_of (ReqUnion.creinfo t peer xid) = (t, peer, xid)
creinfo_of _ = (no_thread, 0, 0)

-- the CREATED message that a STARTED message is recycled into
abbrev pub created_msg : Mqe → Request → ℕ → Mqe
created_msg m q err =
    let (t, peer, xid) = creinfo_of q.u in
    record {
      frame = Msg.created xid err (if err == 0 then t else no_thread);
      flen = SizeOf.created;
      peer = peer;
    }

unfoldable pub started_found : Mqe → ℕ → ReqRef → State → State
started_found m err r s =
    let q = req_of s.ltab r in
    let (t, peer, xid) = creinfo_of q.u in
    let s1 = record s { threads_starting = int_decr s.threads_starting } in
    let s2 : State =
      if err == 0
      then record s1 { threads_running = int_incr s1.threads_running }
      else gtab_free t.dt_index s1 in
    req_release r false (send_or_drop (created_msg m q err) s2)

-- the case STARTED
unfoldable pub started_case : Mqe → ℕ → State → State
started_case m err s = elim (find_pending_msgreq m Op.start SizeOf.started s) [
  | none ↦ release_mqe m s
  | some (r, s1) ↦ started_found m err r s1
]

-- the test of the case TERMINATED, on rank 0
abbrev pub terminated_ok : Mqe → DThread → ℕ → State → Bool
terminated_ok m t finstate s =
    m.flen == SizeOf.terminated
    && not (leb s.nmaxthread t.dt_index)
    && (gtab_at s t.dt_index).seq == t.dt_seq
    && not (finstate == lt_running)

abbrev if_long : Mqe → ℕ → State → State → State
if_long m size handled s = if leb size m.flen then handled else s

-- The `switch` of `process_mqe`. A DETACH or CANCEL that is too short is dropped without being
-- released; a JOIN that is too short is released.
unfoldable pub dispatch : Mqe → Msg → State → State
dispatch m (Msg.create xid attrs disp arg) s =
    release_mqe m (if_long m SizeOf.create (create_thread m xid attrs disp arg s) s)
dispatch m (Msg.created xid err t) s =
    reply_to m Op.create SizeOf.created (λ q. created_result q err t) s
dispatch m (Msg.start xid t attrs) s =
    release_mqe m (if_long m SizeOf.start (start_thread xid t s) s)
dispatch m (Msg.started xid err) s = started_case m err s
dispatch m (Msg.detach xid t) s = if_long m SizeOf.detach (detach_thread m xid t s) s
dispatch m (Msg.detached xid err) s =
    reply_to m Op.detach SizeOf.detached (λ q. record q { reqerror = err }) s
dispatch m (Msg.cancel xid t) s = if_long m SizeOf.cancel (cancel_thread m xid t s) s
dispatch m (Msg.canceled xid err) s =
    reply_to m Op.cancel SizeOf.canceled (λ q. record q { reqerror = err }) s
dispatch m (Msg.join xid t) s = if_long m SizeOf.join (join_thread m xid t s) (release_mqe m s)
dispatch m (Msg.joined xid err ret) s =
    reply_to m Op.join SizeOf.joined (λ q. joined_result q err ret) s
dispatch m (Msg.terminated xid t finstate) s =
    release_mqe m (if terminated_ok m t finstate s then terminated_thread t finstate s else s)
dispatch m (Msg.header op xid) s =
    if op == Op.bcastshutdown
    then release_mqe m (broadcast_shutdown s)
    else if op == Op.detach || op == Op.cancel
    then s
    else release_mqe m s

-- the messages for rank 0 only
abbrev pub for_rank0 : ℕ → Bool
for_rank0 op =
    op == Op.create || op == Op.started || op == Op.detach || op == Op.join || op == Op.terminated

-- `process_mqe`
unfoldable pub process_mqe : Mqe → State → State
process_mqe m s =
    if ltb m.flen SizeOf.header
    then release_mqe m s
    else if not (s.mpi_rank == 0) && for_rank0 (op_of m.frame)
    then release_mqe m s
    else dispatch m m.frame s

unfoldable pub request_sent : ℕ → Mqe → State → State
request_sent i m s =
    let (back, q) = Queuing.send_enqueue s.mpi_rank m s.dtq in
    let s1 = record s { dtq = q } in
    elim back [
      | none ↦ record s1 { rpending = s1.rpending ++ (app i ∷ []) }
      | some e ↦
          let s2 = record s1 { dtq = Queuing.mqe_unalloc e s1.dtq } in
          req_release (app i) true
            (put_req (app i) (record (req_of s2.ltab (app i)) { reqerror = Errno.eio }) s2)
    ]

-- the cases CREATE, DETACH, CANCEL and JOIN: the message goes to its peer, under a sequence number
-- that no pending request of this operation has. The code writes to the message before it tests
-- that there is one.
unfoldable pub request_case : ℕ → Request → State → State
request_case i q s = elim q.mqe [
  | none ↦ record s { fault = true }
  | some m ↦
      let (seq, s1) = get_free_seq q.reqop s in
      request_sent i (record m { frame = set_xidseq seq m.frame })
        (put_req (app i) (record q { mqe = none; xidseq = seq }) s1)
]

abbrev pub terminated_msg : Ltab → Mqe
terminated_msg lt = record {
  frame = Msg.terminated 0 (record { dt_index = lt.gtab_idx; dt_seq = lt.seq }) lt.pth_state;
  flen = SizeOf.terminated;
  peer = 0;
}

-- The entry of the thread in `gtab[]` names the slot `i` as its own.
abbrev pub is_linked : ℕ → State → Bool
is_linked i s =
    let gt = gtab_at s (ltab_at s i).gtab_idx in
    gt.has_ltab && gt.ltab_idx == i && gt.seq == (ltab_at s i).seq

abbrev pub disconnect : ℕ → State → State
disconnect i s =
    if is_linked i s
    then record s {
      gtab =
          set s.gtab (ltab_at s i).gtab_idx
            (record (gtab_at s (ltab_at s i).gtab_idx) { has_ltab = false });
    }
    else s

-- the case RETCLEAN
unfoldable pub retclean_case : ℕ → State → State
retclean_case i s =
    let (o, s1) = alloc_mqe s in
    elim o [
      | none ↦ req_release (app i) false s1
      | some m ↦
          let s2 = disconnect i s1 in
          let s3 = record s2 { events = s2.events ++ (Event.pthread_join i ∷ []) } in
          req_release (app i) false (ltab_free i (send_or_drop (terminated_msg (ltab_at s3 i)) s3))
    ]

-- the `switch` of `process_req`
unfoldable pub request_switch : ℕ → Request → State → State
request_switch i q s =
    if q.reqop == Op.create || q.reqop == Op.detach || q.reqop == Op.cancel || q.reqop == Op.join
    then request_case i q s
    else if q.reqop == Op.retclean
    then retclean_case i s
    else if q.reqop == Op.app0_ret
    then req_release (app i) false (if s.mpi_rank == 0 then broadcast_shutdown s else s)
    else req_release (app i) true s

-- the sanity checks: the request is that of the slot which it names, and it is busy
abbrev req_ok : ℕ → Request → State → Bool
req_ok i q s = elim q.req_ltabidx [
  | none ↦ false
  | some j ↦
      not (leb s.nmaxthread j) && j == i && elim q.reqstate [ ReqState.busy ↦ true | _ ↦ false ]
]

-- `process_req`
unfoldable pub process_req : ReqRef → State → State
process_req (internal_req r) s = req_release (internal_req r) true s
process_req (app i) s =
    let q = req_of s.ltab (app i) in
    if req_ok i q s then request_switch i q s else req_release (app i) true s
