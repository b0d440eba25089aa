-- ===== src/Mpi/Tests.antt =====
-- The theorems on libdthread/dt_mpithread.c at a thread with three sends in flight.
use dthread.Base.{ℕ, ◌+◌, ◌-◌, ◌≡◌, inl, refl, true, false, none, some, [], ◌∷◌, arith}
use dthread.Types.{Mqe, mqe_init}
use dthread.Queuing.{Dtq, mqe_alloc, send_enqueue, send_dequeue, init}
use dthread.Queuing.Invariant.{Sys, Step, Reach, start, count}
use dthread.Mpi.{
  MpiMtsMgr, mpi_success, Testsome, mpimtsmgr_init, mpimts_test, mpimts_add, mpimts_setslots,
  mpimts_init,
}
use dthread.Mpi.Release.{completed, release_each}
use dthread.Mpi.Shrink.{in_flight, IsMts}
use dthread.Mpi.InFlight.{Answers, Retired, mpimts_test_lem}
use dthread.Mpi.Thread.{
  mts_start, mts_done, Mpit, Round, Outcome, goes_on, aborts, exits, overruns, mpit_round,
  mpit_start, mpit_end, start_send, probe_recv,
}
use dthread.Mpi.Calls.{Tracks, with_q}
use dthread.Mpi.Start.{Starts, mpit_start_lem}
use dthread.Mpi.Reach.{Runs, Runs-Tracks, Runs-mpit_end}

abbrev mqe_to : ℕ → Mqe
mqe_to peer = record mqe_init { peer = peer }

-- three sends in four slots
abbrev three : MpiMtsMgr
three = record mpimtsmgr_init {
  nalloc = 4;
  nused = 3;
  mqes = λ i. some (mqe_to i);
  reqs = λ i. i + 100;
}

three-IsMts : IsMts three
three-IsMts = record {
  some_slots = omega arith;
  fits = omega arith;
  full = λ i l u. (mqe_to i, refl);
}

-- the sends in the slots 1 and 0 are complete
abbrev two_done : Testsome
two_done = record { rv = mpi_success; idxout = 1 ∷ 0 ∷ []; reqs = λ i. i + 100 }

two_done-Answers : Answers two_done three
two_done-Answers = record {
  ok = inl refl;
  distinct = (omega arith, (λ e. absurd (omega (arith, e)), tt), (omega arith, tt, tt));
  unchanged = λ i h. refl;
}

abbrev busy : Dtq
busy = record init { mpindequeuedsends = 3; nmqe = 3 }

mpimts_test_example :
    let (ok, mts', q') = mpimts_test two_done three busy in
    (ok ≡ true) × Retired (completed two_done.idxout three.mqes three.reqs) three busy mts' q'
mpimts_test_example = mpimts_test_lem two_done three busy three-IsMts two_done-Answers

-- the thread before it starts
abbrev fresh : Mpit
fresh = record {
  mpit_state = mts_start;
  mts = mpimtsmgr_init;
  isend_cnt = 0;
  isend_bytes = 0;
  iprobe_cnt = 0;
  recv_cnt = 0;
  recv_bytes = 0;
  events = [];
}

mpit_start_example : Starts true fresh (mpit_start true fresh)
mpit_start_example = mpit_start_lem true fresh

-- Rank 0 has queued an entry for rank 1.
abbrev with_entry : Sys
with_entry = record {
  q = (mqe_alloc true start.q).1;
  held = start.held + count (mqe_alloc true start.q).0;
}

abbrev queued : Sys
queued = record {
  q = (send_enqueue 0 (mqe_to 1) with_entry.q).1;
  held = with_entry.held - 1 + count (send_enqueue 0 (mqe_to 1) with_entry.q).0;
}

queued_reached : Reach 0 queued
unfolding init mqe_alloc
queued_reached =
    Reach.next (Reach.next Reach.here (Step.allocs_mqe start true (omega arith)))
      (Step.sends with_entry (mqe_to 1) (omega arith))

-- The thread comes up, and its first round takes the entry.
abbrev first_round : Round
first_round = record {
  tested = record { rv = mpi_success; idxout = []; reqs = λ i. 0 };
  isend_ret = some 7;
  grow_ok = true;
  probed = some none;
  mqe_ok = true;
}

abbrev parts : Mpit → Dtq → Outcome → Mpit × Dtq
parts t q (goes_on t' q') = (t', q')
parts t q (aborts t' q') = (t, q)
parts t q exits = (t, q)
parts t q overruns = (t, q)

abbrev came_up : Mpit
came_up = (mpit_start true fresh).1

sending : Mpit × Dtq
sending = parts came_up queued.q (mpit_round first_round came_up queued.q)

sending_Runs : Runs 0 (with_q 0 queued sending.1) sending.0
unfolding sending mpit_round mpimts_test start_send probe_recv mpit_start mpimts_init
    mpimts_setslots mpimts_add send_dequeue send_enqueue mqe_alloc init
sending_Runs =
    Runs.round first_round queued came_up sending.0 sending.1
      (Runs.up true queued fresh queued_reached refl refl) refl
      (record { ok = inl refl; distinct = tt; unchanged = λ i h. refl }) (omega arith) refl

Runs-Tracks_example : Reach 0 (with_q 0 queued sending.1) × Tracks sending.0.mts sending.1
Runs-Tracks_example = Runs-Tracks 0 sending_Runs

Runs-mpit_end_example :
    let (t1, q1) = mpit_end 0 false sending.0 sending.1 in
    (t1.mpit_state ≡ mts_done)
    × (t1.mts ≡ mpimtsmgr_init)
    × (q1 ≡ release_each (in_flight sending.0.mts) sending.1)
    × (q1.mpindequeuedsends ≡ 0)
    × Reach 0 (with_q 0 queued q1)
Runs-mpit_end_example = Runs-mpit_end 0 0 false sending_Runs
