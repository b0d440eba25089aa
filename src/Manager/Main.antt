-- ===== src/Manager/Main.antt =====
-- `mgr_startapp` and the main loop of `mgr_main` of libdthread/dt_mgrthread.c.
use dthread.Base.{
  ◌+◌, ◌%◌, Bool, true, false, not, ◌&&◌, Option, none, some, [], ◌∷◌, ◌++◌, if◌then◌else◌, ◌==◌,
  set,
}
use dthread.Types.{Argret, argret_nodata, Mqe, ReqRef}
use dthread.Types.Op
use dthread.Queuing
use dthread.Queuing.{Dtq, dd_drained}
use dthread.Manager.State.{State, Event, gtab_at, ltab_at, set_argret_type, lt_running}
use dthread.Manager.Pending.{get_free_seq}
use dthread.Manager.Shutdown.{broadcast_shutdown}
use dthread.Manager.Dispatch.{process_mqe, process_req}

-- `mgr_startapp`, with the inline argument `arg` that holds `argc` and `argv`: slot 0 of both
-- tables is the main thread. The code leaves `terminated` as the boot step cleared it.
unfoldable pub mgr_startapp : Argret → State → State
mgr_startapp arg s =
    let (seq, s1) = get_free_seq Op.none s in
    record s1 {
      ltab_alloc = 1;
      ltab_lastslot = 0;
      threads_alloc = 1;
      threads_running = 1;
      last_slot = 0;
      next_rank = (s1.next_rank + 1) % s1.mpi_wsize;
      gtab = set s1.gtab 0 (record (gtab_at s1 0) {
        allocated = true;
        rank = 0;
        seq = seq;
        disp_idx = 0;
        arg = arg;
        ret = set_argret_type argret_nodata (gtab_at s1 0).ret;
        detached = false;
        has_ltab = true;
        ltab_idx = 0;
      });
      ltab =
          set s1.ltab 0 (record (ltab_at s1 0) { gtab_idx = 0; seq = seq; pth_state = lt_running });
      events = s1.events ++ (Event.pthread_create 0 ∷ []);
    }

-- The head of the loop: rank 0 starts the shutdown when no thread runs any more.
unfoldable pub check_shutdown : State → State
check_shutdown s =
    if s.mpi_rank == 0 && s.threads_running == 0 && not s.draining then broadcast_shutdown s else s

-- `break`: the drain is complete.
abbrev pub is_finished : State → Bool
is_finished s = s.draining && Queuing.send_drainstate s.dtq == dd_drained

abbrev pub on_mqe : Option Mqe → State → State
on_mqe none s = s
on_mqe (some m) s = process_mqe m s

abbrev pub on_req : Option ReqRef → State → State
on_req none s = s
on_req (some r) s = process_req r s

-- One round of the loop that does not break. `others` is what the other threads do to the queues
-- while the manager sleeps.
unfoldable pub main_round : (Dtq → Dtq) → State → State
main_round others s =
    let (m, r, q) = Queuing.notifywait others s.dtq in on_req r (on_mqe m (record s { dtq = q }))
