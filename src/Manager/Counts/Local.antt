-- ===== src/Manager/Counts/Local.antt =====
-- `ltab_alloc` stays the number of slots of `ltab[]` in use, whatever message the manager is given
-- (libdthread/dt_mgrthread.c).
use dthread.Base.{ℕ, refl, Bool, true, false, List, [], ◌∷◌, arith, set}
use dthread.Types.{DThread, Argret, Attrs, Msg, Mqe, Request, ReqRef, app, internal_req}
use dthread.Manager.State.{
  State, ltab_at, alloc_req, alloc_mqe, send_or_drop, release_mqe, req_release,
}
use dthread.Manager.Pending.{get_free_seq, find_pending_msgreq}
use dthread.Manager.Tables.{gtab_free, gtab_alloc, gtab_take, gtab_give}
use dthread.Manager.Tables.Local.{LtabInv, ltab_free-LtabInv, ltab_alloc-LtabInv, set-Counted}
use dthread.Manager.Replies.{
  send_joined, joinwait_end_release, detached_ret_cleanup, send_created_error,
}
use dthread.Manager.Router.{binary_router}
use dthread.Manager.Shutdown.{broadcast_one, broadcast_to, broadcast_shutdown}
use dthread.Manager.Create.{create_send, create_slot, create_mqe, create_req, create_thread}
use dthread.Manager.Handlers.{
  start_pthread, start_ltab, start_thread, detach_found, detach_thread, cancel_ltab, cancel_status,
  cancel_thread, join_wait, join_valid, join_thread, terminated_zombie, terminated_waiter,
  terminated_alone, terminated_thread,
}
use dthread.Manager.Dispatch.{finish, reply_to, started_found, started_case, dispatch, process_mqe}

gtab_free-LtabInv : (i : ℕ) (s : State) → LtabInv s → LtabInv (gtab_free i s)
unfolding gtab_free gtab_give
gtab_free-LtabInv i s v = ground arith

gtab_alloc-LtabInv :
    (rank disp : ℕ) (arg : Argret) (s : State) → LtabInv s → LtabInv (gtab_alloc rank disp arg s).1
unfolding gtab_alloc gtab_take get_free_seq
gtab_alloc-LtabInv rank disp arg s v = ground arith

joinwait_end_release-LtabInv :
    (r : Request) (s : State) → LtabInv s → LtabInv (joinwait_end_release r s)
unfolding joinwait_end_release send_joined alloc_mqe send_or_drop req_release
joinwait_end_release-LtabInv r s v = ground arith

send_created_error-LtabInv :
    (m : Mqe) (xid err : ℕ) (s : State) → LtabInv s → LtabInv (send_created_error m xid err s)
unfolding send_created_error alloc_mqe send_or_drop
send_created_error-LtabInv m xid err s v = ground arith

create_send-LtabInv :
    (m : Mqe) (xid : ℕ) (a : Attrs) (target : ℕ) (r : Request) (e : Mqe) (gidx : ℕ) (s : State)
    → LtabInv s
    → LtabInv (create_send m xid a target r e gidx s)
unfolding create_send get_free_seq req_release
create_send-LtabInv m xid a target r e gidx s v =
    grind (arith, send_created_error-LtabInv, gtab_free-LtabInv)

create_slot-LtabInv :
    (m : Mqe) (xid : ℕ) (a : Attrs) (disp : ℕ) (arg : Argret) (target : ℕ) (r : Request) (e : Mqe)
    (s : State)
    → LtabInv s
    → LtabInv (create_slot m xid a disp arg target r e s)
unfolding create_slot req_release
create_slot-LtabInv m xid a disp arg target r e s v =
    grind (arith, send_created_error-LtabInv, create_send-LtabInv, gtab_alloc-LtabInv)

create_mqe-LtabInv :
    (m : Mqe) (xid : ℕ) (a : Attrs) (disp : ℕ) (arg : Argret) (target : ℕ) (r : Request) (s : State)
    → LtabInv s
    → LtabInv (create_mqe m xid a disp arg target r s)
unfolding create_mqe req_release alloc_mqe
create_mqe-LtabInv m xid a disp arg target r s v =
    grind (arith, send_created_error-LtabInv, create_slot-LtabInv)

create_req-LtabInv :
    (m : Mqe) (xid : ℕ) (a : Attrs) (disp : ℕ) (arg : Argret) (target : ℕ) (s : State)
    → LtabInv s
    → LtabInv (create_req m xid a disp arg target s)
unfolding create_req alloc_req
create_req-LtabInv m xid a disp arg target s v =
    grind (arith, send_created_error-LtabInv, create_mqe-LtabInv)

create_thread-LtabInv :
    (m : Mqe) (xid : ℕ) (a : Attrs) (disp : ℕ) (arg : Argret) (s : State)
    → LtabInv s
    → LtabInv (create_thread m xid a disp arg s)
unfolding create_thread
create_thread-LtabInv m xid a disp arg s v =
    grind (arith, send_created_error-LtabInv, create_req-LtabInv)

start_pthread-LtabInv : (xid lidx : ℕ) (s : State) → LtabInv s → LtabInv (start_pthread xid lidx s)
unfolding start_pthread send_or_drop
start_pthread-LtabInv xid lidx s v = grind (arith, ltab_free-LtabInv)

start_ltab-LtabInv : (xid : ℕ) (t : DThread) (s : State) → LtabInv s → LtabInv (start_ltab xid t s)
unfolding start_ltab
start_ltab-LtabInv xid t s v = grind (arith, ltab_alloc-LtabInv, start_pthread-LtabInv)

start_thread-LtabInv :
    (xid : ℕ) (t : DThread) (s : State) → LtabInv s → LtabInv (start_thread xid t s)
unfolding start_thread alloc_mqe send_or_drop
start_thread-LtabInv xid t s v = grind (arith, start_ltab-LtabInv)

detach_thread-LtabInv :
    (m : Mqe) (xid : ℕ) (t : DThread) (s : State) → LtabInv s → LtabInv (detach_thread m xid t s)
unfolding detach_thread detach_found send_or_drop
detach_thread-LtabInv m xid t s v = grind (arith, joinwait_end_release-LtabInv)

cancel_ltab-LtabInv : (l : ℕ) (s : State) → LtabInv s → LtabInv (cancel_ltab l s)
unfolding cancel_ltab
cancel_ltab-LtabInv l s v =
    let v' = set-Counted s.ltab l (record (ltab_at s l) { pth_state = 5 }) v in ground (arith, v')

cancel_thread-LtabInv :
    (m : Mqe) (xid : ℕ) (t : DThread) (s : State) → LtabInv s → LtabInv (cancel_thread m xid t s)
unfolding cancel_thread cancel_status send_or_drop
cancel_thread-LtabInv m xid t s v = grind (arith, cancel_ltab-LtabInv)

join_thread-LtabInv :
    (m : Mqe) (xid : ℕ) (t : DThread) (s : State) → LtabInv s → LtabInv (join_thread m xid t s)
unfolding join_thread join_valid join_wait alloc_req send_or_drop release_mqe
join_thread-LtabInv m xid t s v = grind (arith, gtab_free-LtabInv)

terminated_thread-LtabInv :
    (t : DThread) (fin : ℕ) (s : State) → LtabInv s → LtabInv (terminated_thread t fin s)
unfolding terminated_thread terminated_zombie terminated_waiter terminated_alone
    detached_ret_cleanup
terminated_thread-LtabInv t fin s v = grind (arith, gtab_free-LtabInv, joinwait_end_release-LtabInv)

broadcast_one-LtabInv : (c : ℕ) (s : State) → LtabInv s → LtabInv (broadcast_one c s)
unfolding broadcast_one alloc_mqe send_or_drop
broadcast_one-LtabInv c s v = ground arith

broadcast_to-LtabInv : (cs : List ℕ) (s : State) → LtabInv s → LtabInv (broadcast_to cs s)
unfolding broadcast_to
broadcast_to-LtabInv [] s v = v
broadcast_to-LtabInv (c ∷ cs) s v =
    broadcast_to-LtabInv cs (broadcast_one c s) (broadcast_one-LtabInv c s v)

pub broadcast_shutdown-LtabInv : (s : State) → LtabInv s → LtabInv (broadcast_shutdown s)
unfolding broadcast_shutdown
broadcast_shutdown-LtabInv s v = broadcast_to-LtabInv (binary_router 0 s.mpi_wsize s.mpi_rank) s v

-- A write to the request of a slot.
pub put-LtabInv :
    (i : ℕ) (q : Request) (s : State)
    → LtabInv s
    → LtabInv (record s { ltab = set s.ltab i (record (ltab_at s i) { req = q }) })
put-LtabInv i q s v = set-Counted s.ltab i (record (ltab_at s i) { req = q }) v refl

pub req_release-LtabInv :
    (r : ReqRef) (b : Bool) (s : State) → LtabInv s → LtabInv (req_release r b s)
unfolding req_release
req_release-LtabInv (internal_req r) b s v = v
req_release-LtabInv (app i) true s v = put-LtabInv i _ s v
req_release-LtabInv (app i) false s v = put-LtabInv i _ s v

finish-LtabInv : (r : ReqRef) (q : Request) (s : State) → LtabInv s → LtabInv (finish r q s)
unfolding finish
finish-LtabInv (internal_req r) q s v = req_release-LtabInv (internal_req q) true s v
finish-LtabInv (app i) q s v = req_release-LtabInv (app i) true _ (put-LtabInv i q s v)

reply_to-LtabInv :
    (m : Mqe) (op size : ℕ) (f : Request → Request) (s : State)
    → LtabInv s
    → LtabInv (reply_to m op size f s)
unfolding reply_to find_pending_msgreq release_mqe
reply_to-LtabInv m op size f s v = grind (arith, finish-LtabInv)

started_found-LtabInv :
    (m : Mqe) (err : ℕ) (r : ReqRef) (s : State) → LtabInv s → LtabInv (started_found m err r s)
unfolding started_found send_or_drop
started_found-LtabInv m err r s v = grind (arith, req_release-LtabInv, gtab_free-LtabInv)

started_case-LtabInv : (m : Mqe) (err : ℕ) (s : State) → LtabInv s → LtabInv (started_case m err s)
unfolding started_case find_pending_msgreq release_mqe
started_case-LtabInv m err s v = grind (arith, started_found-LtabInv)

dispatch-LtabInv : (m : Mqe) (f : Msg) (s : State) → LtabInv s → LtabInv (dispatch m f s)
unfolding dispatch release_mqe
dispatch-LtabInv m (Msg.create xid a d g) s v = grind (arith, create_thread-LtabInv)
dispatch-LtabInv m (Msg.created xid e t) s v = reply_to-LtabInv m _ _ _ s v
dispatch-LtabInv m (Msg.start xid t a) s v = grind (arith, start_thread-LtabInv)
dispatch-LtabInv m (Msg.started xid e) s v = started_case-LtabInv m e s v
dispatch-LtabInv m (Msg.detach xid t) s v = grind (arith, detach_thread-LtabInv)
dispatch-LtabInv m (Msg.detached xid e) s v = reply_to-LtabInv m _ _ _ s v
dispatch-LtabInv m (Msg.cancel xid t) s v = grind (arith, cancel_thread-LtabInv)
dispatch-LtabInv m (Msg.canceled xid e) s v = reply_to-LtabInv m _ _ _ s v
dispatch-LtabInv m (Msg.join xid t) s v = grind (arith, join_thread-LtabInv)
dispatch-LtabInv m (Msg.joined xid e g) s v = reply_to-LtabInv m _ _ _ s v
dispatch-LtabInv m (Msg.terminated xid t fin) s v = grind (arith, terminated_thread-LtabInv)
dispatch-LtabInv m (Msg.header op xid) s v = grind (arith, broadcast_shutdown-LtabInv)

-- Whatever message a rank receives, `ltab_alloc` stays the number of slots of `ltab[]` in use and
-- `ltab_lastslot` a slot of the table.
pub process_mqe-LtabInv : (m : Mqe) (s : State) → LtabInv s → LtabInv (process_mqe m s)
unfolding process_mqe release_mqe
process_mqe-LtabInv m s v = grind (arith, dispatch-LtabInv)
