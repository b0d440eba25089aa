-- ===== src/Manager/Counts/Global.antt =====
-- `threads_alloc` stays the number of slots of `gtab[]` in use, whatever the manager of rank 0 is
-- given (libdthread/dt_mgrthread.c).
use dthread.Base.{ℕ, refl, Bool, true, false, List, [], ◌∷◌, arith}
use dthread.Types.{DThread, Argret, Attrs, Msg, Mqe, Request, ReqRef, app, internal_req}
use dthread.Manager.State.{
  State, gtab_at, alloc_req, alloc_mqe, send_or_drop, release_mqe, req_release,
}
use dthread.Manager.Pending.{get_free_seq, find_pending_msgreq}
use dthread.Manager.Tables.{ltab_alloc, ltab_free}
use dthread.Manager.Tables.Global.{GtabInv, gtab_free-GtabInv, gtab_alloc-GtabInv, set-Counted}
use dthread.Manager.Replies.{
  send_joined, joinwait_end_release, detached_ret_cleanup, send_created_error,
}
use dthread.Manager.Router.{binary_router}
use dthread.Manager.Shutdown.{broadcast_one, broadcast_to, broadcast_shutdown}
use dthread.Manager.Create.{create_send, create_slot, create_mqe, create_req, create_thread}
use dthread.Manager.Handlers.{
  start_pthread, start_ltab, start_thread, detach_found, detach_thread, cancel_ltab, cancel_status,
  cancel_thread, join_wait, join_valid, join_thread, terminated_zombie, terminated_waiter,
  terminated_alone, terminated_thread,
}
use dthread.Manager.Dispatch.{finish, reply_to, started_found, started_case, dispatch, process_mqe}

joinwait_end_release-GtabInv :
    (r : Request) (s : State) → GtabInv s → GtabInv (joinwait_end_release r s)
unfolding joinwait_end_release send_joined alloc_mqe send_or_drop req_release
joinwait_end_release-GtabInv r s v = ground arith

detached_ret_cleanup-GtabInv : (i : ℕ) (s : State) → GtabInv s → GtabInv (detached_ret_cleanup i s)
unfolding detached_ret_cleanup
detached_ret_cleanup-GtabInv i s v = ground (
  arith,
  set-Counted s.gtab i
      (record (gtab_at s i) { ret = record ((gtab_at s i).ret) { argret_type = 1 } }) v refl,
)

send_created_error-GtabInv :
    (m : Mqe) (xid err : ℕ) (s : State) → GtabInv s → GtabInv (send_created_error m xid err s)
unfolding send_created_error alloc_mqe send_or_drop
send_created_error-GtabInv m xid err s v = ground arith

create_send-GtabInv :
    (m : Mqe) (xid : ℕ) (a : Attrs) (target : ℕ) (r : Request) (e : Mqe) (gidx : ℕ) (s : State)
    → GtabInv s
    → GtabInv (create_send m xid a target r e gidx s)
unfolding create_send get_free_seq req_release
create_send-GtabInv m xid a target r e gidx s v =
    grind (arith, send_created_error-GtabInv, gtab_free-GtabInv)

create_slot-GtabInv :
    (m : Mqe) (xid : ℕ) (a : Attrs) (disp : ℕ) (arg : Argret) (target : ℕ) (r : Request) (e : Mqe)
    (s : State)
    → GtabInv s
    → GtabInv (create_slot m xid a disp arg target r e s)
unfolding create_slot req_release
create_slot-GtabInv m xid a disp arg target r e s v =
    grind (arith, send_created_error-GtabInv, create_send-GtabInv, gtab_alloc-GtabInv)

create_mqe-GtabInv :
    (m : Mqe) (xid : ℕ) (a : Attrs) (disp : ℕ) (arg : Argret) (target : ℕ) (r : Request) (s : State)
    → GtabInv s
    → GtabInv (create_mqe m xid a disp arg target r s)
unfolding create_mqe req_release alloc_mqe
create_mqe-GtabInv m xid a disp arg target r s v =
    grind (arith, send_created_error-GtabInv, create_slot-GtabInv)

create_req-GtabInv :
    (m : Mqe) (xid : ℕ) (a : Attrs) (disp : ℕ) (arg : Argret) (target : ℕ) (s : State)
    → GtabInv s
    → GtabInv (create_req m xid a disp arg target s)
unfolding create_req alloc_req
create_req-GtabInv m xid a disp arg target s v =
    grind (arith, send_created_error-GtabInv, create_mqe-GtabInv)

create_thread-GtabInv :
    (m : Mqe) (xid : ℕ) (a : Attrs) (disp : ℕ) (arg : Argret) (s : State)
    → GtabInv s
    → GtabInv (create_thread m xid a disp arg s)
unfolding create_thread
create_thread-GtabInv m xid a disp arg s v =
    grind (arith, send_created_error-GtabInv, create_req-GtabInv)

start_thread-GtabInv :
    (xid : ℕ) (t : DThread) (s : State) → GtabInv s → GtabInv (start_thread xid t s)
unfolding start_thread start_ltab start_pthread alloc_mqe send_or_drop ltab_alloc ltab_free
start_thread-GtabInv xid t s v = ground arith

detach_found-GtabInv :
    (m : Mqe) (xid : ℕ) (t : DThread) (i : ℕ) (s : State)
    → GtabInv s
    → GtabInv (detach_found m xid t i s)
unfolding detach_found send_or_drop
detach_found-GtabInv m xid t i s v =
    let v' = set-Counted s.gtab i (record (gtab_at s i) { detached = true }) v refl in
    grind (arith, joinwait_end_release-GtabInv)

detach_thread-GtabInv :
    (m : Mqe) (xid : ℕ) (t : DThread) (s : State) → GtabInv s → GtabInv (detach_thread m xid t s)
unfolding detach_thread send_or_drop
detach_thread-GtabInv m xid t s v = grind (arith, detach_found-GtabInv)

cancel_thread-GtabInv :
    (m : Mqe) (xid : ℕ) (t : DThread) (s : State) → GtabInv s → GtabInv (cancel_thread m xid t s)
unfolding cancel_thread cancel_status cancel_ltab send_or_drop
cancel_thread-GtabInv m xid t s v = ground arith

join_thread-GtabInv :
    (m : Mqe) (xid : ℕ) (t : DThread) (s : State) → GtabInv s → GtabInv (join_thread m xid t s)
unfolding join_thread join_valid join_wait alloc_req send_or_drop release_mqe
join_thread-GtabInv m xid t s v = grind (arith, gtab_free-GtabInv)

terminated_zombie-GtabInv :
    (i fin : ℕ) (s : State) → GtabInv s → GtabInv (terminated_zombie i fin s)
unfolding terminated_zombie
terminated_zombie-GtabInv i fin s v =
    set-Counted s.gtab i (record (gtab_at s i) { terminated = fin; has_ltab = false }) v refl

terminated_waiter-GtabInv :
    (i : ℕ) (r : Request) (s : State) → GtabInv s → GtabInv (terminated_waiter i r s)
unfolding terminated_waiter
terminated_waiter-GtabInv i r s v =
    grind (arith, gtab_free-GtabInv, detached_ret_cleanup-GtabInv, joinwait_end_release-GtabInv)

terminated_alone-GtabInv : (i : ℕ) (s : State) → GtabInv s → GtabInv (terminated_alone i s)
unfolding terminated_alone
terminated_alone-GtabInv i s v = grind (arith, gtab_free-GtabInv, detached_ret_cleanup-GtabInv)

terminated_thread-GtabInv :
    (t : DThread) (fin : ℕ) (s : State) → GtabInv s → GtabInv (terminated_thread t fin s)
unfolding terminated_thread
terminated_thread-GtabInv t fin s v =
    let v' = terminated_zombie-GtabInv t.dt_index fin s v in
    grind (arith, terminated_waiter-GtabInv, terminated_alone-GtabInv)

broadcast_one-GtabInv : (c : ℕ) (s : State) → GtabInv s → GtabInv (broadcast_one c s)
unfolding broadcast_one alloc_mqe send_or_drop
broadcast_one-GtabInv c s v = ground arith

broadcast_to-GtabInv : (cs : List ℕ) (s : State) → GtabInv s → GtabInv (broadcast_to cs s)
unfolding broadcast_to
broadcast_to-GtabInv [] s v = v
broadcast_to-GtabInv (c ∷ cs) s v =
    broadcast_to-GtabInv cs (broadcast_one c s) (broadcast_one-GtabInv c s v)

pub broadcast_shutdown-GtabInv : (s : State) → GtabInv s → GtabInv (broadcast_shutdown s)
unfolding broadcast_shutdown
broadcast_shutdown-GtabInv s v = broadcast_to-GtabInv (binary_router 0 s.mpi_wsize s.mpi_rank) s v

pub req_release-GtabInv :
    (r : ReqRef) (b : Bool) (s : State) → GtabInv s → GtabInv (req_release r b s)
unfolding req_release
req_release-GtabInv (internal_req r) b s v = v
req_release-GtabInv (app i) true s v = v
req_release-GtabInv (app i) false s v = v

finish-GtabInv : (r : ReqRef) (q : Request) (s : State) → GtabInv s → GtabInv (finish r q s)
unfolding finish
finish-GtabInv (internal_req r) q s v = req_release-GtabInv (internal_req q) true s v
finish-GtabInv (app i) q s v = req_release-GtabInv (app i) true _ v

reply_to-GtabInv :
    (m : Mqe) (op size : ℕ) (f : Request → Request) (s : State)
    → GtabInv s
    → GtabInv (reply_to m op size f s)
unfolding reply_to find_pending_msgreq release_mqe
reply_to-GtabInv m op size f s v = grind (arith, finish-GtabInv)

started_found-GtabInv :
    (m : Mqe) (err : ℕ) (r : ReqRef) (s : State) → GtabInv s → GtabInv (started_found m err r s)
unfolding started_found send_or_drop
started_found-GtabInv m err r s v = grind (arith, req_release-GtabInv, gtab_free-GtabInv)

started_case-GtabInv : (m : Mqe) (err : ℕ) (s : State) → GtabInv s → GtabInv (started_case m err s)
unfolding started_case find_pending_msgreq release_mqe
started_case-GtabInv m err s v = grind (arith, started_found-GtabInv)

dispatch-GtabInv : (m : Mqe) (f : Msg) (s : State) → GtabInv s → GtabInv (dispatch m f s)
unfolding dispatch release_mqe
dispatch-GtabInv m (Msg.create xid a d g) s v = grind (arith, create_thread-GtabInv)
dispatch-GtabInv m (Msg.created xid e t) s v = reply_to-GtabInv m _ _ _ s v
dispatch-GtabInv m (Msg.start xid t a) s v = grind (arith, start_thread-GtabInv)
dispatch-GtabInv m (Msg.started xid e) s v = started_case-GtabInv m e s v
dispatch-GtabInv m (Msg.detach xid t) s v = grind (arith, detach_thread-GtabInv)
dispatch-GtabInv m (Msg.detached xid e) s v = reply_to-GtabInv m _ _ _ s v
dispatch-GtabInv m (Msg.cancel xid t) s v = grind (arith, cancel_thread-GtabInv)
dispatch-GtabInv m (Msg.canceled xid e) s v = reply_to-GtabInv m _ _ _ s v
dispatch-GtabInv m (Msg.join xid t) s v = grind (arith, join_thread-GtabInv)
dispatch-GtabInv m (Msg.joined xid e g) s v = reply_to-GtabInv m _ _ _ s v
dispatch-GtabInv m (Msg.terminated xid t fin) s v = grind (arith, terminated_thread-GtabInv)
dispatch-GtabInv m (Msg.header op xid) s v = grind (arith, broadcast_shutdown-GtabInv)

-- Whatever message rank 0 receives, `threads_alloc` stays the number of slots of `gtab[]` in use and
-- `last_slot` a slot of the table.
pub process_mqe-GtabInv : (m : Mqe) (s : State) → GtabInv s → GtabInv (process_mqe m s)
unfolding process_mqe release_mqe
process_mqe-GtabInv m s v = grind (arith, dispatch-GtabInv)
