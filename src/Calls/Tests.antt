-- ===== src/Calls/Tests.antt =====
-- The theorems on the calls of application threads (libdthread/dt_threadops.c) at small states.
use dthread.Base.{◌≡◌, refl, true, false, some, arith}
use dthread.Types.{Msg, Mqe, ReqUnion}
use dthread.Types.Op
use dthread.Types.Errno
use dthread.Types.SizeOf
use dthread.Queuing
use dthread.Manager.State.{gtab_at, ltab_at, lt_exited, alloc_mqe}
use dthread.Manager.Samples.{rank_with, handle, from1, runner}
use dthread.Manager.Pending.{take_first, find_pending_req, free_seq_loop, get_free_seq}
use dthread.Manager.Wrapper.{dthreadcleanup}
use dthread.Calls.{exit_common, to_rank0}
use dthread.Calls.Answer.{Ready, Replies, Result, collect-process_mqe}
use dthread.Calls.Exit.{RunsNative, exited, exit_common-dthreadcleanup}

sample-Ready : Ready 0 (rank_with 1)
unfolding alloc_mqe Queuing.mqe_alloc Queuing.init
sample-Ready = record {
  in_range = omega arith;
  size = refl;
  own = refl;
  idle = refl;
  entry = λ e. cc;
  not_draining = refl;
  alone = tt;
  ranks = omega arith;
  small = omega arith;
  room = omega arith;
}

abbrev detach_mail : Mqe
detach_mail = to_rank0 (Msg.detach 0 handle) SizeOf.detach

-- the answer to the call, whose request has the number 4
abbrev answer : Mqe
answer = from1 (Msg.detached 4 Errno.esrch) SizeOf.detached

abbrev same : ReqUnion → ReqUnion
same u = u

collect-process_mqe_example :
    Result 0 same detach_mail
      (rank_with 1)
      sample-Ready
      answer
      Op.detach
      Errno.esrch
      (ltab_at (rank_with 1) 0).req.u
unfolding alloc_mqe get_free_seq free_seq_loop find_pending_req take_first
collect-process_mqe_example =
    collect-process_mqe 0 same detach_mail (rank_with 1) sample-Ready answer
      (Replies.detaches Errno.esrch) refl (omega arith)

sample-RunsNative : RunsNative 0 (rank_with 1)
sample-RunsNative = record {
  in_range = omega arith;
  gtab_size = refl;
  slot = omega arith;
  same_seq = refl;
  disp = omega arith;
  native = refl;
}

exit_common-dthreadcleanup_example :
    let t =
      dthreadcleanup 0 false 0 runner.ret (exited 0 runner.arg (rank_with 1) sample-RunsNative) in
    (exit_common true 0 (some runner.arg) 0 runner.arg (rank_with 1)
      ≡ some (exited 0 runner.arg (rank_with 1) sample-RunsNative))
    × ((gtab_at t 0).ret ≡ runner.arg)
    × ((ltab_at t 0).pth_state ≡ lt_exited)
exit_common-dthreadcleanup_example =
    exit_common-dthreadcleanup 0 runner.arg (rank_with 1) sample-RunsNative 0 runner.ret
