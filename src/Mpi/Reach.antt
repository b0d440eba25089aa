-- ===== src/Mpi/Reach.antt =====
-- The states that the MPI thread of libdthread/dt_mpithread.c comes to, with the other threads' calls
-- of the queues in between, and its end.
use dthread.Base.{
  ℕ, zero, suc, ◌+◌, ◌^◌, ◌<◌, ◌≡◌, inl, inr, refl, ap, sym, ◌∙◌, subst, Bool, true, false, Option,
  List, [], ◌∷◌, if◌then◌else◌, ◌==◌, arith, Option-cases,
}
use dthread.Types.{Mqe}
use dthread.Queuing.{Dtq, send_release}
use dthread.Queuing.Invariant.{Sys, Step, Reach, Reach-Inv}
use dthread.Mpi.{mpimts_test, mpimtsmgr_init, mpimts_done, finalize_loop, mpimts_finalize}
use dthread.Mpi.Slots.{sends, sends-some, sends-none, length-sends}
use dthread.Mpi.Release.{release_each}
use dthread.Mpi.Shrink.{in_flight}
use dthread.Mpi.InFlight.{Answers}
use dthread.Mpi.Thread.{
  mts_run, mts_done, Mpit, Round, goes_on, start_send, probe_recv, mpit_round, mpit_start, mpit_end,
  mpit_stop,
}
use dthread.Mpi.Calls.{Tracks, Steps, Steps-Reach, with_q, release_each-Steps, Goes, test-Goes}
use dthread.Mpi.Round.{Ends, start_send-Goes, probe_recv-Ends, mpit_round-Ends}
use dthread.Mpi.Start.{mpit_start_lem, mpit_stop-mts}

module _ (rank : ℕ) where
  -- The loop of `mpimts_finalize` releases what is in flight.
  finalize_loop-sends :
      (null k lcv : ℕ) (f : ℕ → Option Mqe) (r : ℕ → ℕ) (freed : List ℕ) (q : Dtq)
      → (finalize_loop null k lcv f r freed q).1 ≡ release_each (sends k lcv f r) q
  unfolding finalize_loop release_each
  finalize_loop-sends null zero lcv f r freed q = refl
  finalize_loop-sends null (suc k) lcv f r freed q =
      let freed' : List ℕ = if r lcv == null then freed else r lcv ∷ freed in
      elim (Option-cases (f lcv)) [
        | inl n ↦
            ap (λ x. (finalize_loop null k (suc lcv) f r freed' (mpimts_done x q)).1) n
            ∙ finalize_loop-sends null k (suc lcv) f r freed' q
            ∙ ap (λ l. release_each l q) (sym (sends-none f r k lcv n))
        | inr (m, y) ↦
            ap (λ x. (finalize_loop null k (suc lcv) f r freed' (mpimts_done x q)).1) y
            ∙ finalize_loop-sends null k (suc lcv) f r freed' (send_release m q)
            ∙ ap (λ l. release_each l q) (sym (sends-some f r k lcv m y))
      ]

  -- The end of the MPI thread releases every send that is in flight, so that no send is outstanding but
  -- those still queued, and leaves the thread in MTS_DONE without slots.
  pub mpit_end-Goes :
      (null : ℕ) (mpiabort : Bool) (s : Sys) (t : Mpit)
      → Tracks t.mts s.q
      → s.q.mpindequeuedsends < 2 ^ 31
      → let (t1, q1) = mpit_end null mpiabort t s.q in
        (t1.mpit_state ≡ mts_done)
        × (t1.mts ≡ mpimtsmgr_init)
        × (q1 ≡ release_each (in_flight t.mts) s.q)
        × (q1.mpindequeuedsends ≡ 0)
        × Steps rank s (with_q rank s q1)
  unfolding mpit_end mpimts_finalize
  mpit_end-Goes null mpiabort s t v h =
      let e = finalize_loop-sends null t.mts.nused 0 t.mts.mqes t.mts.reqs [] s.q in
      let n = length-sends t.mts.mqes t.mts.reqs t.mts.nused 0 v.is_mts.full in
      let (st, c, m) =
        release_each-Steps rank (in_flight t.mts) s s (Steps.done s) h
          (omega (arith, n, v.in_sync)) in
      (refl, refl, e, rw e (omega (arith, c, n, v.in_sync)), rw e st)

  -- The states of the queues and the MPI thread: it comes up, makes its rounds while it is in MTS_RUN,
  -- as a whole or part by part, and is told to stop, while the other threads make any calls but those on
  -- sends that were taken from the queue, which are the MPI thread's. Their calls come between the
  -- rounds and between the parts of a round. Fewer than 2^31 - 1 entries are allocated when it works.
  pub data Runs : Sys → Mpit → Type 0 where
    up :
        (ok : Bool) (s : Sys) (t : Mpit)
        → Reach rank s
        → s.q.mpindequeuedsends ≡ 0
        → (mpit_start ok t).0 ≡ true
        → Runs s (mpit_start ok t).1
    others :
        (s s' : Sys) (t : Mpit)
        → Runs s t
        → Step rank s s'
        → s'.q.mpindequeuedsends ≡ s.q.mpindequeuedsends
        → Runs s' t
    round :
        (r : Round) (s : Sys) (t t' : Mpit) (q' : Dtq)
        → Runs s t
        → t.mpit_state ≡ mts_run
        → Answers r.tested t.mts
        → s.q.nmqe + 1 < 2 ^ 31
        → mpit_round r t s.q ≡ goes_on t' q'
        → Runs (with_q rank s q') t'
    tests :
        (r : Round) (s : Sys) (t : Mpit)
        → Runs s t
        → Answers r.tested t.mts
        → s.q.nmqe + 1 < 2 ^ 31
        → Runs
            (with_q rank s (mpimts_test r.tested t.mts s.q).2)
            (record t { mts = (mpimts_test r.tested t.mts s.q).1 })
    sends_one :
        (r : Round) (s : Sys) (t : Mpit)
        → Runs s t
        → s.q.nmqe + 1 < 2 ^ 31
        → Runs (with_q rank s (start_send r t s.q).1) (start_send r t s.q).0
    probes :
        (r : Round) (s : Sys) (t t' : Mpit) (q' : Dtq)
        → Runs s t
        → s.q.nmqe + 1 < 2 ^ 31
        → probe_recv r t s.q ≡ goes_on t' q'
        → Runs (with_q rank s q') t'
    stopped : (s : Sys) (t : Mpit) → Runs s t → Runs s (mpit_stop t).1

  -- In every state that the MPI thread comes to, its calls are ones that the queues allow, so that the
  -- queues are in a state of their own step relation; each slot in use holds an entry; and there are as
  -- many as sends that were taken from the queue and not released.
  pub Runs-Tracks : {s : Sys} {t : Mpit} → Runs s t → Reach rank s × Tracks t.mts s.q
  Runs-Tracks (up ok s t r z e) = elim (mpit_start_lem ok t) [
    | inl (f, h, o, run, none_used, v) ↦ (r, record { is_mts = v; in_sync = z ∙ sym none_used })
    | inr other ↦ elim other [
      | inl (f, h, o, start) ↦ (let bad : false ≡ true = sym f ∙ e in absurd (cc))
      | inr (f, h, end) ↦ (let bad : false ≡ true = sym f ∙ e in absurd (cc))
    ]
  ]
  Runs-Tracks (others s s' t r st e) =
      let (x, v) = Runs-Tracks r in
      (Reach.next x st, record { is_mts = v.is_mts; in_sync = e ∙ v.in_sync })
  Runs-Tracks (round r s t t' q' p run w h e) =
      let (x, v) = Runs-Tracks p in
      let i = Reach-Inv rank x in
      let g : Goes rank s t'.mts q' =
        subst (λ o. Ends rank s o) e
          (mpit_round-Ends rank r s t v w (omega (arith, i.balance, h)) h) in
      (Steps-Reach rank g.steps x, g.tracks)
  Runs-Tracks (tests r s t p w h) =
      let (x, v) = Runs-Tracks p in
      let i = Reach-Inv rank x in
      let (ok, few, same, g) = test-Goes rank r s t v (omega (arith, i.balance, h)) w in
      (Steps-Reach rank g.steps x, g.tracks)
  Runs-Tracks (sends_one r s t p h) =
      let (x, v) = Runs-Tracks p in
      let i = Reach-Inv rank x in
      let (g, n) =
        start_send-Goes rank r s t s.q (record { steps = Steps.done s; tracks = v })
          (omega (arith, i.balance, h)) in
      (Steps-Reach rank g.steps x, g.tracks)
  Runs-Tracks (probes r s t t' q' p h e) =
      let (x, v) = Runs-Tracks p in
      let g : Goes rank s t'.mts q' =
        subst (λ o. Ends rank s o) e
          (probe_recv-Ends rank r s t s.q (record { steps = Steps.done s; tracks = v }) h) in
      (Steps-Reach rank g.steps x, g.tracks)
  Runs-Tracks (stopped s t r) = let (x, v) = Runs-Tracks r in (x, rw (mpit_stop-mts t) v)

  -- When the MPI thread ends, in a state that it comes to, it releases every send in flight, each once,
  -- and no send that was taken from the queue is outstanding. It leaves no slots and is in MTS_DONE.
  pub Runs-mpit_end :
      (null : ℕ) (mpiabort : Bool) {s : Sys} {t : Mpit}
      → Runs s t
      → let (t1, q1) = mpit_end null mpiabort t s.q in
        (t1.mpit_state ≡ mts_done)
        × (t1.mts ≡ mpimtsmgr_init)
        × (q1 ≡ release_each (in_flight t.mts) s.q)
        × (q1.mpindequeuedsends ≡ 0)
        × Reach rank (with_q rank s q1)
  Runs-mpit_end null mpiabort {s} {t} r =
      let (x, v) = Runs-Tracks r in
      let i = Reach-Inv rank x in
      let (a, b, c, d, st) =
        mpit_end-Goes null mpiabort s t v (omega (arith, i.balance, i.small)) in
      (a, b, c, d, Steps-Reach rank st x)
