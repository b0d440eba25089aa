-- ===== src/Queuing/Order.antt =====
-- The order of the messages through libdthread/dt_queuing.c.
use mathlib.Core.List.{append-nil, append_assoc}
use dthread.Base.{ℕ, ◌+◌, ◌%◌, ◌^◌, ◌≡◌, List, [], ◌∷◌, ◌++◌, arith, length, ◌==◌, if◌then◌else◌}
use dthread.Types.{Mqe}
use dthread.Queuing.{Dtq, dd_init, recv_enqueue, send_enqueue}

module _ (rank : ℕ) where
  -- `dtq_send_enqueue` of one entry after another.
  pub send_each : List Mqe → Dtq → Dtq
  send_each [] q = q
  send_each (m ∷ ms) q = send_each ms (send_enqueue rank m q).1

  -- the entries for another rank, and those for this rank
  pub remote : List Mqe → List Mqe
  remote [] = []
  remote (m ∷ ms) = if m.peer == rank then remote ms else m ∷ remote ms

  pub local : List Mqe → List Mqe
  local [] = []
  local (m ∷ ms) = if m.peer == rank then m ∷ local ms else local ms

  -- As long as no drain has begun, each entry for another rank is appended to the send queue and
  -- each entry for this rank to the receive queue, each in the order of the calls, and `nloop` counts
  -- the latter modulo 2^32.
  pub send_each_lem :
      (ms : List Mqe) (q : Dtq)
      → q.mpisq_draindown ≡ dd_init
      → ((send_each ms q).mpisendq ≡ q.mpisendq ++ remote ms)
        × ((send_each ms q).mpirecvq ≡ q.mpirecvq ++ local ms)
        × ((send_each ms q).nloop % 2 ^ 32 ≡ (q.nloop + length (local ms)) % 2 ^ 32)
  unfolding send_each remote local send_enqueue recv_enqueue
  send_each_lem [] q h = (rw append-nil, rw append-nil, omega arith)
  send_each_lem (m ∷ ms) q h = ground (
    arith,
    send_each_lem ms (send_enqueue rank m q).1,
    append_assoc q.mpisendq (m ∷ []) (remote ms),
    append_assoc q.mpirecvq (m ∷ []) (local ms),
  )
