-- ===== src/Queuing/Drain.antt =====
-- The shutdown protocol of libdthread/dt_queuing.c: `dtq_send_draindown` closes the send queue,
-- and the MPI thread's `dtq_send_dequeue` and `dtq_send_release` empty it.
use dthread.Base.{ℕ, zero, suc, ◌≤◌, ◌≡◌, ◌≢◌, none, some, length, arith}
use dthread.Queuing.{
  Dtq, dd_init, dd_drained, req_dequeue, recv_dequeue, set_notifytimelimit, req_alloc, req_enqueue,
  req_release_internal, mqe_alloc, mqe_unalloc, recv_enqueue, send_enqueue, send_dequeue,
  send_release, recv_release, send_draindown,
}
use dthread.Queuing.Invariant.{
  Sys, Step, Inv, outstanding, takes_req, takes_recv, sets_limit, allocs_req, puts_req, frees_req,
  allocs_mqe, unallocs_mqe, puts_recv, sends, takes_send, sent, frees_recv, drains,
}

module _ (rank : ℕ) where
  -- Once the drain has begun no call ends it, and no call adds to the sends that are outstanding.
  pub Step-draining :
      {s t : Sys}
      → Step rank s t
      → Inv s
      → s.q.mpisq_draindown ≢ dd_init
      → (t.q.mpisq_draindown ≢ dd_init) × (outstanding t.q ≤ outstanding s.q)
  unfolding req_dequeue recv_dequeue set_notifytimelimit req_alloc req_enqueue req_release_internal
      mqe_alloc mqe_unalloc recv_enqueue send_enqueue send_dequeue send_release recv_release
      send_draindown
  Step-draining (takes_req s) v d = ground arith
  Step-draining (takes_recv s) v d = ground arith
  Step-draining (sets_limit s n) v d = ground arith
  Step-draining (allocs_req s ok) v d = ground arith
  Step-draining (puts_req s r) v d = ground arith
  Step-draining (frees_req s r) v d = ground arith
  Step-draining (allocs_mqe s ok h) v d = ground arith
  Step-draining (unallocs_mqe s m h) v d = ground arith
  Step-draining (puts_recv s m h) v d = ground arith
  Step-draining (sends s m h) v d = ground arith
  Step-draining (takes_send s) v d = ground arith
  Step-draining (sent s m h) v d = ground arith
  Step-draining (frees_recv s m h) v d = ground arith
  Step-draining (drains s) v d = ground arith

-- One send by the MPI thread, from the queue to its completion.
pub send_one : Dtq → Dtq
send_one q = let (r, q') = send_dequeue q in elim r [ none ↦ q' | some m ↦ send_release m q' ]

pub send_all : ℕ → Dtq → Dtq
send_all zero q = q
send_all (suc n) q = send_all n (send_one q)

abbrev Closed : Dtq → ℕ → Type 0
Closed q n =
    (q.mpisqlen ≡ length q.mpisendq)
    × (q.mpisqlen ≡ n)
    × (q.mpindequeuedsends ≡ 0)
    × (q.mpisq_draindown ≢ dd_init)

send_one-Closed : (q : Dtq) (n : ℕ) → Closed q (suc n) → Closed (send_one q) n
unfolding send_one send_dequeue send_release
send_one-Closed q n c = ground arith

send_one-drained : (q : Dtq) → Closed q 1 → (send_one q).mpisq_draindown ≡ dd_drained
unfolding send_one send_dequeue send_release
send_one-drained q c = ground arith

send_all-drained :
    (n : ℕ) (q : Dtq) → Closed q (suc n) → (send_all (suc n) q).mpisq_draindown ≡ dd_drained
unfolding send_all
send_all-drained zero q c = send_one-drained q c
send_all-drained (suc n) q c = send_all-drained n (send_one q) (send_one-Closed q (suc n) c)

send_draindown-Closed :
    (s : Sys)
    → Inv s
    → s.q.mpindequeuedsends ≡ 0
    → Closed (send_draindown s.q).1 (send_draindown s.q).0
unfolding send_draindown
send_draindown-Closed s v h = ground arith

send_draindown_empty :
    (q : Dtq) → (send_draindown q).0 ≡ 0 → (send_draindown q).1.mpisq_draindown ≡ dd_drained
unfolding send_draindown
send_draindown_empty q h = ground arith

drain_from :
    (n : ℕ) (q : Dtq)
    → Closed q n
    → (n ≡ 0 → q.mpisq_draindown ≡ dd_drained)
    → (send_all n q).mpisq_draindown ≡ dd_drained
unfolding send_all
drain_from zero q c h = h (omega arith)
drain_from (suc n) q c h = send_all-drained n q c

-- Draining comes to its end: when `dtq_send_draindown` is called with no send in flight, sending as
-- many entries as it returns leaves the state drained, so that the manager can stop.
pub draindown_completes :
    (s : Sys)
    → Inv s
    → s.q.mpindequeuedsends ≡ 0
    → let (n, q) = send_draindown s.q in (send_all n q).mpisq_draindown ≡ dd_drained
draindown_completes s v h =
    drain_from (send_draindown s.q).0 (send_draindown s.q).1 (send_draindown-Closed s v h)
      (send_draindown_empty s.q)
