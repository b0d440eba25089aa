-- ===== src/Manager/Cleanup.antt =====
-- The case RETCLEAN of `process_req` in libdthread/dt_mgrthread.c, step by step.
use dthread.Base.{
  ℕ, ◌-◌, ◌≡◌, ◌≢◌, ◌<◌, false, none, [], ◌∷◌, ◌++◌, arith, length, set, get_or-set_self,
  length-set,
}
use dthread.Types.{Mqe, ReqState, app}
use dthread.Queuing.{dd_init, mqe_alloc, send_enqueue}
use dthread.Manager.State.{
  State, Event, ltab_at, ltab_zero, alloc_mqe, send_or_drop, req_release, lt_none,
}
use dthread.Manager.Tables.{ltab_free, ltab_give}
use dthread.Manager.Dispatch.{retclean_case, disconnect, terminated_msg}

-- what the manager has done to the slot before it gives it back
module _ (i : ℕ) (t : State) where
  abbrev pub gathered : State → State
  gathered a =
      let s2 = disconnect i a in record s2 { events = s2.events ++ Event.pthread_join i ∷ [] }

  pub retclean_case-some :
      (alloc_mqe t).0 ≢ none
      → retclean_case i t
        ≡ req_release (app i) false (
            ltab_free i (
              send_or_drop
                (terminated_msg (ltab_at (gathered (alloc_mqe t).1) i))
                (gathered (alloc_mqe t).1)))
  unfolding retclean_case
  retclean_case-some h = ground arith

  pub gathered-same :
      (a : State)
      → ((gathered a).ltab ≡ a.ltab)
        × ((gathered a).mpi_rank ≡ a.mpi_rank)
        × ((gathered a).dtq ≡ a.dtq)
        × ((gathered a).ltab_alloc ≡ a.ltab_alloc)
        × ((gathered a).events ≡ a.events ++ Event.pthread_join i ∷ [])
  gathered-same a = ground arith

  pub alloc_mqe-same :
      ((alloc_mqe t).1.ltab ≡ t.ltab)
      × ((alloc_mqe t).1.mpi_rank ≡ t.mpi_rank)
      × ((alloc_mqe t).1.dtq.mpisendq ≡ t.dtq.mpisendq)
      × ((alloc_mqe t).1.dtq.mpisq_draindown ≡ t.dtq.mpisq_draindown)
      × ((alloc_mqe t).1.ltab_alloc ≡ t.ltab_alloc)
      × ((alloc_mqe t).1.events ≡ t.events)
  unfolding alloc_mqe mqe_alloc
  alloc_mqe-same = ground arith

  pub send_or_drop-same :
      (m : Mqe) (u : State)
      → u.mpi_rank ≢ m.peer
      → u.dtq.mpisq_draindown ≡ dd_init
      → send_or_drop m u ≡ record u { dtq = (send_or_drop m u).dtq }
        × ((send_or_drop m u).dtq.mpisendq ≡ u.dtq.mpisendq ++ m ∷ [])
  unfolding send_or_drop send_enqueue
  send_or_drop-same m u r d = ground arith

  pub given_back :
      (u : State)
      → i < length u.ltab
      → (ltab_at u i).pth_state ≢ lt_none
      → let w = req_release (app i) false (ltab_free i u) in
        ((ltab_at w i).pth_state ≡ lt_none)
        × (w.ltab_alloc ≡ u.ltab_alloc - 1)
        × (w.events ≡ u.events)
        × (w.dtq ≡ u.dtq)
  unfolding req_release ltab_free ltab_give
  given_back u n live =
      let l = record (ltab_at u i) { seq = 0; pth_state = lt_none } in
      ground (
        arith,
        get_or-set_self u.ltab i l ltab_zero n,
        get_or-set_self (set u.ltab i l) i
            (record l { req = record (l.req) { reqstate = ReqState.idle } }) ltab_zero
            (omega (arith, length-set u.ltab i l)),
      )
