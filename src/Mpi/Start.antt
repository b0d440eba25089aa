-- ===== src/Mpi/Start.antt =====
-- The states of the MPI thread of libdthread/dt_mpithread.c: its start in `mpit_main`, and `mpit_stop`.
use dthread.Base.{◌≡◌, ◌≢◌, ◌⊎◌, inl, inr, refl, Bool, true, false, arith}
use dthread.Mpi.{mpimts_init, mpimts_setslots}
use dthread.Mpi.Shrink.{IsMts}
use dthread.Mpi.Thread.{
  MtsState, mts_init, mts_start, mts_run, mts_stop, mts_done, Mpit, mpit_start, mpit_stop,
}

-- the three ends of the start
abbrev pub Starts : Bool → Mpit → Bool × Mpit → Type 0
Starts ok t (came_up, t1) =
    ((came_up ≡ true)
      × (t.mpit_state ≡ mts_start)
      × (ok ≡ true)
      × (t1.mpit_state ≡ mts_run)
      × (t1.mts.nused ≡ 0)
      × IsMts t1.mts)
    ⊎ ((came_up ≡ false) × (t.mpit_state ≡ mts_start) × (ok ≡ false) × (t1.mpit_state ≡ mts_start))
    ⊎ ((came_up ≡ false) × (t.mpit_state ≢ mts_start) × (t1.mpit_state ≡ mts_done))

start_at :
    (st : MtsState) (ok : Bool) (t : Mpit) → t.mpit_state ≡ st → Starts ok t (mpit_start ok t)
unfolding mpit_start mpimts_init mpimts_setslots
start_at mts_start true t e =
    rw (mpit_start, e)
      (inl (
        refl,
        refl,
        refl,
        refl,
        refl,
        record {
          some_slots = omega arith;
          fits = omega arith;
          full = λ i l u. absurd (omega arith);
        },
      ))
start_at mts_start false t e = rw (mpit_start, e) (inr (inl (refl, refl, refl, e)))
start_at mts_init ok t e = rw (mpit_start, e) (inr (inr (refl, λ f. absurd (cc), refl)))
start_at mts_run ok t e = rw (mpit_start, e) (inr (inr (refl, λ f. absurd (cc), refl)))
start_at mts_stop ok t e = rw (mpit_start, e) (inr (inr (refl, λ f. absurd (cc), refl)))
start_at mts_done ok t e = rw (mpit_start, e) (inr (inr (refl, λ f. absurd (cc), refl)))

-- `mpit_main` comes up, in MTS_RUN and with free slots, exactly if it is started in MTS_START and there
-- is memory for the slots. Started in another state it ends in MTS_DONE. Without memory it returns, but
-- leaves MTS_START, for whose end `dthread_run` waits.
pub mpit_start_lem : (ok : Bool) (t : Mpit) → Starts ok t (mpit_start ok t)
mpit_start_lem ok t = start_at t.mpit_state ok t refl

stop_at : (st : MtsState) (t : Mpit) → t.mpit_state ≡ st → (mpit_stop t).1.mts ≡ t.mts
unfolding mpit_stop
stop_at mts_init t e = rw (mpit_stop, e) refl
stop_at mts_start t e = rw (mpit_stop, e) refl
stop_at mts_run t e = rw (mpit_stop, e) refl
stop_at mts_stop t e = rw (mpit_stop, e) refl
stop_at mts_done t e = rw (mpit_stop, e) refl

pub mpit_stop-mts : (t : Mpit) → (mpit_stop t).1.mts ≡ t.mts
mpit_stop-mts t = stop_at t.mpit_state t refl
