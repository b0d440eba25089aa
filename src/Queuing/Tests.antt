-- ===== src/Queuing/Tests.antt =====
-- The theorems on libdthread/dt_queuing.c at small queues.
use dthread.Base.{◌%◌, ◌^◌, ◌+◌, ◌-◌, ◌≤◌, ◌≡◌, ◌≢◌, inl, refl, true, [], ◌∷◌, ◌++◌, arith, length}
use dthread.Types.{Msg, Mqe, internal_req, internal_init}
use dthread.Types.Op
use dthread.Queuing.{
  dd_init, dd_drained, mqe_alloc, send_enqueue, send_draindown, send_dequeue, send_release,
  req_enqueue, init,
}
use dthread.Queuing.Invariant.{
  Sys, start, count, Reach, here, next, Inv, Reach-Inv, outstanding, allocs_mqe, sends, drains,
  takes_send, sent,
}
use dthread.Queuing.Drain.{Step-draining, send_all, draindown_completes}
use dthread.Queuing.Wakeup.{Wakes}
use dthread.Queuing.Order.{send_each, remote, local, send_each_lem}
use dthread.Queuing.Final.{stats, finalize, finalize-frees}

-- a message for rank 1, and one for rank 0
abbrev mail : Mqe
mail = record { frame = Msg.header Op.bcastshutdown 0; flen = 8; peer = 1 }

abbrev note : Mqe
note = record { frame = Msg.started 3 0; flen = 12; peer = 0 }

-- Rank 0 has taken an entry,
abbrev with_entry : Sys
with_entry = record {
  q = (mqe_alloc true start.q).1;
  held = start.held + count (mqe_alloc true start.q).0;
}

-- has queued it for rank 1,
abbrev queued : Sys
queued = record {
  q = (send_enqueue 0 mail with_entry.q).1;
  held = with_entry.held - 1 + count (send_enqueue 0 mail with_entry.q).0;
}

-- and has begun to drain.
abbrev closing : Sys
closing = record queued { q = (send_draindown queued.q).1 }

abbrev in_flight : Sys
in_flight = record closing { q = (send_dequeue closing.q).1 }

with_entry_reached : Reach 0 with_entry
unfolding init
with_entry_reached = next here (allocs_mqe start true (omega arith))

queued_reached : Reach 0 queued
unfolding init mqe_alloc
queued_reached = next with_entry_reached (sends with_entry mail (omega arith))

closing_reached : Reach 0 closing
closing_reached = next queued_reached (drains queued)

Reach-Inv_example : Inv closing
Reach-Inv_example = Reach-Inv 0 closing_reached

Step-draining_example :
    (in_flight.q.mpisq_draindown ≢ dd_init) × (outstanding in_flight.q ≤ outstanding closing.q)
unfolding init mqe_alloc send_enqueue send_draindown
Step-draining_example =
    Step-draining 0 (takes_send closing) (Reach-Inv 0 closing_reached) (λ e. absurd (omega arith))

draindown_completes_example :
    (send_all (send_draindown queued.q).0 (send_draindown queued.q).1).mpisq_draindown ≡ dd_drained
unfolding init mqe_alloc send_enqueue
draindown_completes_example = draindown_completes queued (Reach-Inv 0 queued_reached) refl

-- an idle manager that gets a request
abbrev asked : Sys
asked = record start { q = req_enqueue (internal_req internal_init) start.q }

asked-Wakes : Wakes start.q asked.q
unfolding init req_enqueue
asked-Wakes = inl (refl, omega arith)

send_each_example :
    ((send_each 0 (mail ∷ note ∷ mail ∷ []) start.q).mpisendq
      ≡ start.q.mpisendq ++ remote 0 (mail ∷ note ∷ mail ∷ []))
    × ((send_each 0 (mail ∷ note ∷ mail ∷ []) start.q).mpirecvq
        ≡ start.q.mpirecvq ++ local 0 (mail ∷ note ∷ mail ∷ []))
    × ((send_each 0 (mail ∷ note ∷ mail ∷ []) start.q).nloop % 2 ^ 32
        ≡ (start.q.nloop + length (local 0 (mail ∷ note ∷ mail ∷ []))) % 2 ^ 32)
unfolding init
send_each_example = send_each_lem 0 (mail ∷ note ∷ mail ∷ []) start.q refl

-- The entry has been sent.
abbrev sent_out : Sys
sent_out = record closing { q = send_release mail (send_dequeue closing.q).1 }

sent_out_reached : Reach 0 sent_out
unfolding init mqe_alloc send_enqueue send_draindown send_dequeue
sent_out_reached =
    next (next closing_reached (takes_send closing)) (sent in_flight mail (omega arith))

finalize-frees_example :
    (length (finalize sent_out.q).0.mqes ≡ (stats sent_out.q).nmqe)
    × ((finalize sent_out.q).1.mpisendq ≡ [])
    × ((finalize sent_out.q).1.mpirecvq ≡ [])
    × ((finalize sent_out.q).1.mqefree ≡ [])
unfolding init mqe_alloc send_enqueue send_draindown send_dequeue send_release
finalize-frees_example = finalize-frees sent_out (Reach-Inv 0 sent_out_reached) refl refl
