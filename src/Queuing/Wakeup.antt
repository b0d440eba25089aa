-- ===== src/Queuing/Wakeup.antt =====
-- Notification of the manager by libdthread/dt_queuing.c.
use dthread.Base.{ℕ, ◌+◌, ◌<◌, ◌≡◌, ◌⊎◌, length}
use dthread.Queuing.{Dtq, dd_draining, dd_drained, notifywait, req_dequeue, recv_dequeue}

-- the number of entries in the two queues that the manager reads
abbrev pub work : Dtq → ℕ
work q = length q.mpirecvq + length q.mgrreqq

-- what the manager waits for: work in an empty pair of queues, or the end of the drain
abbrev pub Wakes : Dtq → Dtq → Type 0
Wakes q t =
    ((work q ≡ 0) × (0 < work t))
    ⊎ ((q.mpisq_draindown ≡ dd_draining) × (t.mpisq_draindown ≡ dd_drained))

-- what `dtq_notifywait` returns if it does not sleep
abbrev pub AtOnce : Dtq → Type 0
AtOnce q =
    (others : Dtq → Dtq)
    → notifywait others q
      ≡ ((recv_dequeue q).0, (req_dequeue (recv_dequeue q).1).0, (req_dequeue (recv_dequeue q).1).1)
