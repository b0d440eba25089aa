-- ===== src/Manager/Pending/Tests.antt =====
-- The theorems on the pending list of libdthread/dt_mgrthread.c at small states.
use dthread.Base.{◌≡◌, ◌≢◌, refl, none, [], ◌∷◌, arith}
use dthread.Types.{Msg, Mqe, internal_req, internal_init}
use dthread.Types.Op
use dthread.Types.SizeOf
use dthread.Manager.Samples.{rank_with, from1}
use dthread.Manager.State.{State}
use dthread.Manager.Pending.{find_pending_req, get_free_seq}
use dthread.Manager.Pending.FreeSeq.{get_free_seq-free}
use dthread.Manager.Pending.Keys.{SeqInv, get_free_seq-ne}

-- a rank on which a request to start a thread is pending
abbrev busy : State
busy = record (rank_with 0) {
  rpending = internal_req (record internal_init { reqop = Op.start; xidseq = 4 }) ∷ [];
}

abbrev started : Mqe
started = from1 (Msg.started 4 0) SizeOf.started

get_free_seq-free_example : find_pending_req Op.start (get_free_seq Op.start busy).0 busy ≡ none
get_free_seq-free_example =
    get_free_seq-free Op.start busy (λ e. absurd (omega arith)) (omega arith) (omega arith)
      (omega arith)

abbrev third : State
third = record (rank_with 1) { seqsrc = 3 }

busy-SeqInv : SeqInv busy
busy-SeqInv = record { fits = omega arith; small = omega arith; of_rank = (2, refl) }

third-SeqInv : SeqInv third
third-SeqInv = record { fits = omega arith; small = omega arith; of_rank = (1, refl) }

get_free_seq-ne_example : (get_free_seq Op.start busy).0 ≢ (get_free_seq Op.join third).0
get_free_seq-ne_example =
    get_free_seq-ne Op.start Op.join busy third busy-SeqInv third-SeqInv refl (omega arith)
      (omega arith) (λ e. absurd (omega arith))
