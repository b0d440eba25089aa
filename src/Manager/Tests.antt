-- ===== src/Manager/Tests.antt =====
-- The theorems on libdthread/dt_mgrthread.c at small states.
use dthread.Base.{ℕ, ◌-◌, ◌≡◌, refl, true, false, [], ◌∷◌, ◌++◌, arith}
use dthread.Types.{Msg, Mqe, Request, ReqState, app, internal_init}
use dthread.Types.Op
use dthread.Types.Errno
use dthread.Types.SizeOf
use dthread.Queuing
use dthread.Queuing.{Dtq}
use dthread.Manager.Samples.{rank_with, runner, handle, from1, attrs0, no_arg, create_request}
use dthread.Manager.State.{
  State, Event, gtab_at, gtab_zero, ltab_at, send_or_drop, alloc_req, alloc_mqe, lt_returned,
  lt_none,
}
use dthread.Manager.Pending.{
  take_first, joinwait_search, find_pending_req, free_seq_loop, get_free_seq,
}
use dthread.Manager.Tables.{dt2gtab}
use dthread.Manager.Tables.Global.{GtabInv}
use dthread.Manager.Tables.Local.{LtabInv}
use dthread.Manager.Dispatch.{process_req, reply_to, request_case}
use dthread.Manager.Main.{main_round, check_shutdown, mgr_startapp}
use dthread.Manager.Counts.Requests.{TabsInv}
use dthread.Manager.Startup.{run_state, mgr_boot}
use dthread.Manager.Startup.Reach.{Reach, Reach-TabsInv}
use dthread.Calls.{collect}
use dthread.Manager.Handlers.{
  join_thread, terminated_thread, detach_thread, joined_msg, argret_none,
}
use dthread.Manager.Join.{Joinable, Answered, visible, join_thread-terminated_thread}
use dthread.Manager.RoundTrip.{Sendable, sent_req, request_case-reply_to}
use dthread.Manager.Create.{create_thread}
use dthread.Manager.Broadcast.{Told, broadcast_shutdown-Told}
use dthread.Manager.Create.Outcome.{Outcome}
use dthread.Manager.Create.Thread.{create_thread-Outcome}
use dthread.Manager.Wrapper.{retclean_request}
use dthread.Manager.Ending.{Ends, ended_msg, retclean_request-process_req}
use dthread.Manager.Detach.{Unwaited, Asks, detach_thread-join_thread}

sample-GtabInv : (rank : ℕ) → GtabInv (rank_with rank)
sample-GtabInv rank = record { size = refl; counted = refl; last_in = omega arith }

sample-LtabInv : (rank : ℕ) → LtabInv (rank_with rank)
sample-LtabInv rank = record { size = refl; counted = refl; last_in = omega arith }

-- rank 0 of the job when its manager enters the loop
abbrev booted : State
booted = mgr_boot no_arg (run_state (rank_with 0).cfg [] [])

sample-Reach : Reach (rank_with 0).cfg [] [] no_arg (collect 0 booted).2
sample-Reach = Reach.collects 0 (Reach.boots refl)

Reach-TabsInv_example : TabsInv (main_round (λ q. q) (check_shutdown (collect 0 booted).2))
unfolding mgr_boot run_state mgr_startapp get_free_seq collect check_shutdown
Reach-TabsInv_example = Reach-TabsInv (omega arith) (Reach.rounds (λ q. q) sample-Reach refl)

sample-Joinable : Joinable handle (rank_with 0)
unfolding dt2gtab joinwait_search take_first
sample-Joinable = record {
  size = refl;
  valid = refl;
  joinable = refl;
  running = refl;
  no_waiter = refl;
}

abbrev join_msg : Mqe
join_msg = from1 (Msg.join 7 handle) SizeOf.join

join_thread-terminated_thread_example :
    let late = join_thread join_msg 7 handle (terminated_thread handle lt_returned (rank_with 0)) in
    (visible (terminated_thread handle lt_returned (join_thread join_msg 7 handle (rank_with 0)))
      ≡ visible late)
    × Answered join_msg 7 handle (rank_with 0) sample-Joinable lt_returned late
unfolding alloc_req Queuing.req_alloc Queuing.init
join_thread-terminated_thread_example =
    join_thread-terminated_thread join_msg 7 handle (rank_with 0) sample-Joinable lt_returned
      internal_init refl refl

abbrev create_mail : Mqe
create_mail = record { frame = Msg.create 0 attrs0 1 no_arg; flen = SizeOf.create; peer = 0 }

sample-Sendable : Sendable 0 create_request create_mail (rank_with 1)
unfolding Queuing.init
sample-Sendable = record {
  message = refl;
  is_op = λ e. absurd (omega arith);
  slot = omega arith;
  not_draining = refl;
  alone = tt;
  ranks = omega arith;
  small = omega arith;
  room = omega arith;
}

-- the answer to the request, whose number is 4
abbrev answer : Mqe
answer = from1 (Msg.created 4 Errno.eagain handle) SizeOf.created

abbrev with_error : Request → Request
with_error q = record q { reqerror = Errno.eagain }

request_case-reply_to_example :
    let t =
      reply_to answer Op.create SizeOf.created with_error
        (request_case 0 create_request (rank_with 1)) in
    (t.rpending ≡ (rank_with 1).rpending)
    × ((ltab_at t 0).req
        ≡ record (with_error (sent_req create_request (rank_with 1))) { reqstate = ReqState.done })
    × (t.events ≡ (rank_with 1).events ++ Event.notify 0 ∷ [])
unfolding get_free_seq free_seq_loop find_pending_req take_first
request_case-reply_to_example =
    request_case-reply_to 0 create_request create_mail (rank_with 1) sample-Sendable answer
      SizeOf.created with_error refl (omega arith) (omega arith)

create_thread-Outcome_example :
    Outcome
      (from1 (Msg.create 7 attrs0 1 no_arg) SizeOf.create)
      7
      (rank_with 0).next_rank
      (rank_with 0)
      (create_thread
        (from1 (Msg.create 7 attrs0 1 no_arg) SizeOf.create)
        7
        attrs0
        1
        no_arg
        (rank_with 0))
create_thread-Outcome_example =
    create_thread-Outcome (from1 (Msg.create 7 attrs0 1 no_arg) SizeOf.create) 7 attrs0 1 no_arg
      (rank_with 0) (sample-GtabInv 0)

sample-Ends : Ends 0 (rank_with 1)
sample-Ends = record { in_range = omega arith; size = refl; own = refl }

retclean_request-process_req_example :
    let t = process_req (app 0) (retclean_request 0 lt_returned (rank_with 1)) in
    ((ltab_at t 0).pth_state ≡ lt_none)
    × (t.ltab_alloc ≡ (rank_with 1).ltab_alloc - 1)
    × (t.events ≡ (rank_with 1).events ++ Event.pthread_join 0 ∷ [])
    × (t.dtq.mpisendq
        ≡ (rank_with 1).dtq.mpisendq ++ ended_msg 0 lt_returned (rank_with 1) sample-Ends ∷ [])
unfolding alloc_mqe Queuing.mqe_alloc Queuing.init
retclean_request-process_req_example =
    retclean_request-process_req 0 lt_returned (rank_with 1) sample-Ends (λ e. absurd (omega arith))
      (λ e. absurd (omega arith)) (λ e. cc) (λ e. absurd (omega arith)) refl

-- rank 0 when its thread has ended and nobody has asked for it
abbrev with_zombie : State
with_zombie = record (rank_with 0) {
  gtab = record runner { terminated = lt_returned; has_ltab = false } ∷ gtab_zero ∷ [];
}

sample-Unwaited : Unwaited handle with_zombie
unfolding dt2gtab joinwait_search take_first
sample-Unwaited = record { size = refl; valid = refl; no_waiter = refl }

abbrev detach_msg : Mqe
detach_msg = from1 (Msg.detach 7 handle) SizeOf.detach

detach_thread-join_thread_example :
    let u = join_thread join_msg 8 handle (detach_thread detach_msg 7 handle with_zombie) in
    ((gtab_at u 0).allocated ≡ true)
    × (u.threads_alloc ≡ with_zombie.threads_alloc)
    × ((m' : Mqe) (xid' : ℕ)
        → join_thread m' xid' handle u
          ≡ send_or_drop (joined_msg m' xid' Errno.einval argret_none) u)
detach_thread-join_thread_example =
    detach_thread-join_thread detach_msg 7 handle with_zombie sample-Unwaited
      (Asks.joins join_msg 8 Asks.start)

-- five ranks whose threads have all ended
abbrev idle_ranks : ℕ → State
idle_ranks r = record (rank_with r) {
  cfg = record ((rank_with r).cfg) { mpi_wsize = 5 };
  threads_running = 0;
}

broadcast_shutdown-Told_example : Told idle_ranks 3
unfolding Queuing.init
broadcast_shutdown-Told_example =
    broadcast_shutdown-Told 5 idle_ranks
      (λ r h. record { is_rank = refl; ranks = refl; is_open = refl; memory = (refl, (refl, tt)) })
      refl refl 3 (omega arith) (omega arith)
