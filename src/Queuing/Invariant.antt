-- ===== src/Queuing/Invariant.antt =====
-- libdthread/dt_queuing.c under any interleaving of its callers: the counters, the drain state
-- and the balance of the queue entries.
use dthread.Base.{
  ℕ, ◌+◌, ◌-◌, ◌^◌, ◌≤◌, ◌<◌, ◌≡◌, Bool, Option, none, some, [], ◌∷◌, arith, length, length-append,
}
use dthread.Types.{Mqe, Request, ReqRef}
use dthread.Queuing.{
  Dtq, dd_draining, dd_drained, req_dequeue, recv_dequeue, set_notifytimelimit, req_alloc,
  req_enqueue, req_release_internal, mqe_alloc, mqe_unalloc, recv_enqueue, send_enqueue,
  send_dequeue, send_release, recv_release, send_draindown, init,
}

-- The queues, and how many entries are in the hands of a caller that received or allocated them.
pub record Sys : Type 0 where
  pub q : Dtq
  pub held : ℕ

abbrev pub count {ℓ} : {A : Type ℓ} → Option A → ℕ
count none = 0
count (some a) = 1

-- One call of one thread, at the rank `rank`. A caller gives away only what it holds, and the MPI
-- thread releases only what it dequeued.
pub data Step (rank : ℕ) : Sys → Sys → Type 0 where
  takes_req : (s : Sys) → Step rank s (record s { q = (req_dequeue s.q).1 })
  takes_recv :
      (s : Sys)
      → Step rank s
          (record { q = (recv_dequeue s.q).1; held = s.held + count (recv_dequeue s.q).0 })
  sets_limit : (s : Sys) (n : ℕ) → Step rank s (record s { q = set_notifytimelimit n s.q })
  allocs_req : (s : Sys) (ok : Bool) → Step rank s (record s { q = (req_alloc ok s.q).1 })
  puts_req : (s : Sys) (r : ReqRef) → Step rank s (record s { q = req_enqueue r s.q })
  frees_req : (s : Sys) (r : Request) → Step rank s (record s { q = req_release_internal r s.q })
  allocs_mqe :
      (s : Sys) (ok : Bool)
      → s.q.nmqe + 1 < 2 ^ 31
      → Step rank s
          (record { q = (mqe_alloc ok s.q).1; held = s.held + count (mqe_alloc ok s.q).0 })
  unallocs_mqe :
      (s : Sys) (m : Mqe)
      → 0 < s.held
      → Step rank s (record { q = mqe_unalloc m s.q; held = s.held - 1 })
  puts_recv :
      (s : Sys) (m : Mqe)
      → 0 < s.held
      → Step rank s (record { q = recv_enqueue m s.q; held = s.held - 1 })
  sends :
      (s : Sys) (m : Mqe)
      → 0 < s.held
      → Step rank s (record {
        q = (send_enqueue rank m s.q).1;
        held = s.held - 1 + count (send_enqueue rank m s.q).0;
      })
  takes_send : (s : Sys) → Step rank s (record s { q = (send_dequeue s.q).1 })
  sent :
      (s : Sys) (m : Mqe)
      → 0 < s.q.mpindequeuedsends
      → Step rank s (record s { q = send_release m s.q })
  frees_recv :
      (s : Sys) (m : Mqe)
      → 0 < s.held
      → Step rank s (record { q = recv_release m s.q; held = s.held - 1 })
  drains : (s : Sys) → Step rank s (record s { q = (send_draindown s.q).1 })

-- what is queued for sending or being sent
abbrev pub outstanding : Dtq → ℕ
outstanding q = q.mpisqlen + q.mpindequeuedsends

pub record Inv (s : Sys) : Type 0 where
  pub reqs_counted : s.q.mgrrqlen ≡ length s.q.mgrreqq
  pub reqs_max : s.q.mgrrqlen ≤ s.q.mgrmaxrqlen
  pub sends_counted : s.q.mpisqlen ≡ length s.q.mpisendq
  pub sends_max : s.q.mpisqlen ≤ s.q.mpimaxsqlen
  pub recvs_counted : s.q.mpirqlen ≡ length s.q.mpirecvq
  pub recvs_max : s.q.mpirqlen ≤ s.q.mpimaxrqlen
  pub drain_state : s.q.mpisq_draindown ≤ 2
  pub draining : s.q.mpisq_draindown ≡ dd_draining → 0 < outstanding s.q
  pub drained : s.q.mpisq_draindown ≡ dd_drained → outstanding s.q ≡ 0
  pub small : s.q.nmqe < 2 ^ 31
  pub balance :
      s.q.nmqe
      ≡ s.held
        + length s.q.mqefree
        + length s.q.mpisendq
        + s.q.mpindequeuedsends
        + length s.q.mpirecvq

abbrev pub start : Sys
start = record { q = init; held = 0 }

module _ (rank : ℕ) where
  -- Every call keeps the counters equal to the lengths of the queues, and keeps the balance of the
  -- entries and the meaning of the drain state.
  pub Step-Inv : {s t : Sys} → Step rank s t → Inv s → Inv t
  unfolding req_dequeue recv_dequeue set_notifytimelimit req_alloc req_enqueue req_release_internal
      mqe_alloc mqe_unalloc recv_enqueue send_enqueue send_dequeue send_release recv_release
      send_draindown
  Step-Inv (takes_req s) v = ground arith
  Step-Inv (takes_recv s) v = ground arith
  Step-Inv (sets_limit s n) v = ground arith
  Step-Inv (allocs_req s ok) v = ground arith
  Step-Inv (puts_req s r) v = ground (arith, length-append s.q.mgrreqq (r ∷ []))
  Step-Inv (frees_req s r) v = ground arith
  Step-Inv (allocs_mqe s ok h) v = ground arith
  Step-Inv (unallocs_mqe s m h) v = ground arith
  Step-Inv (puts_recv s m h) v = ground (arith, length-append s.q.mpirecvq (m ∷ []))
  Step-Inv (sends s m h) v =
      ground (arith, length-append s.q.mpirecvq (m ∷ []), length-append s.q.mpisendq (m ∷ []))
  Step-Inv (takes_send s) v = ground arith
  Step-Inv (sent s m h) v = ground arith
  Step-Inv (frees_recv s m h) v = ground arith
  Step-Inv (drains s) v = ground arith

  -- The states that the calls lead to, from the queues as `dtq_init` leaves them.
  pub data Reach : Sys → Type 0 where
    here : Reach start
    next : {s t : Sys} → Reach s → Step rank s t → Reach t

  start-Inv : Inv start
  unfolding init
  start-Inv = record {
    reqs_counted = omega arith;
    reqs_max = omega arith;
    sends_counted = omega arith;
    sends_max = omega arith;
    recvs_counted = omega arith;
    recvs_max = omega arith;
    drain_state = omega arith;
    draining = λ e. absurd (omega arith);
    drained = λ e. omega arith;
    small = omega arith;
    balance = omega arith;
  }

  -- However the calls of the threads interleave, the counters are the lengths of the queues, no
  -- entry is lost or made up, and the drain state says whether a send is outstanding.
  pub Reach-Inv : {s : Sys} → Reach s → Inv s
  Reach-Inv here = start-Inv
  Reach-Inv (next r st) = Step-Inv st (Reach-Inv r)
