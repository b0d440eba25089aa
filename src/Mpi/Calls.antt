-- ===== src/Mpi/Calls.antt =====
-- The calls that the MPI thread of libdthread/dt_mpithread.c makes of the queues
-- (libdthread/dt_queuing.c) in `mpimts_test`, and the slots that `mpimts_add` takes.
use dthread.Base.{
  ℕ, ◌+◌, ◌*◌, ◌^◌, ◌≤◌, ◌<◌, ◌≡◌, ◌⊎◌, inl, inr, refl, ap, ◌∙◌, Bool, true, false, Option, some,
  List, [], ◌∷◌, leb, ◌==◌, length, arith, dec_lt, Bool-cases,
}
use dthread.Types.{Mqe}
use dthread.Queuing.{Dtq, send_release}
use dthread.Queuing.Invariant.{Sys, Step, Reach}
use dthread.Mpi.{MpiMtsMgr, put, add_slot, mpimts_setslots, mpimts_add, mpimts_test}
use dthread.Mpi.Slots.{Send, Full, put_self, put_ne}
use dthread.Mpi.Release.{release_each, completed}
use dthread.Mpi.Shrink.{IsMts}
use dthread.Mpi.InFlight.{Answers, mpimts_test_lem}
use dthread.Mpi.Thread.{Mpit, Round}

-- The slots are in order, and as many as the sends that were taken from the queue and not released.
pub record Tracks (mts : MpiMtsMgr) (q : Dtq) : Type 0 where
  pub is_mts : IsMts mts
  pub in_sync : q.mpindequeuedsends ≡ mts.nused

module _ (rank : ℕ) where
  -- calls of one thread in a row
  pub data Steps : Sys → Sys → Type 0 where
    done : (s : Sys) → Steps s s
    more : {s t u : Sys} → Steps s t → Step rank t u → Steps s u

  pub Steps-Reach : {s t : Sys} → Steps s t → Reach rank s → Reach rank t
  Steps-Reach (done s) r = r
  Steps-Reach (more st x) r = Reach.next (Steps-Reach st r) x

  abbrev pub with_q : Sys → Dtq → Sys
  with_q s q = record s { q = q }

  abbrev pub small : ℕ
  small = 2 ^ 31

  -- the queues after some sends are released
  pub release_each-Steps :
      (xs : List Send) (s u : Sys)
      → Steps s u
      → u.q.mpindequeuedsends < small
      → length xs ≤ u.q.mpindequeuedsends
      → Steps s (with_q u (release_each xs u.q))
        × ((release_each xs u.q).mpindequeuedsends + length xs ≡ u.q.mpindequeuedsends)
        × ((release_each xs u.q).nmqe ≡ u.q.nmqe)
  unfolding release_each send_release
  release_each-Steps [] s u st l h = (st, omega arith, refl)
  release_each-Steps (x ∷ xs) s u st l h =
      let q1 = send_release x.0 u.q in
      let one : (q1.mpindequeuedsends + 1 ≡ u.q.mpindequeuedsends) × (q1.nmqe ≡ u.q.nmqe) =
        ground (arith, h, l) in
      let (a, b, c) =
        release_each-Steps xs s (with_q u q1) (Steps.more st (Step.sent u x.0 (omega (arith, h))))
          (omega (arith, one, l)) (omega (arith, one, h)) in
      (a, omega (arith, b, one), c ∙ one.1)

  -- What a part of a round comes to: calls of the queues that leave no entry with the thread, and the
  -- slots in step with them.
  pub record Goes (s : Sys) (mts : MpiMtsMgr) (q : Dtq) : Type 0 where
    pub steps : Steps s (with_q s q)
    pub tracks : Tracks mts q

  Full-put : (n : ℕ) (f : ℕ → Option Mqe) (m : Mqe) → Full n 0 f → Full (n + 1) 0 (put n (some m) f)
  Full-put n f m v i l u = elim (dec_lt i n) [
    | yes low ↦
        let (m', e) = v i (omega arith) (omega arith) in
        (m', put_ne n i (some m) f (λ q. omega arith) ∙ e)
    | no last ↦
        let same : i ≡ n = omega arith in (m, ap (put n (some m) f) same ∙ put_self n (some m) f)
  ]

  IsMts-grown :
      (mts : MpiMtsMgr) (n : ℕ) → mts.nalloc ≤ n → IsMts mts → IsMts (record mts { nalloc = n })
  IsMts-grown mts n h v = record {
    some_slots = omega (arith, v.some_slots);
    fits = omega (arith, v.fits);
    full = v.full;
  }

  IsMts-add :
      (mts : MpiMtsMgr) (mqe : Mqe) (req : ℕ)
      → mts.nused < mts.nalloc
      → IsMts mts
      → IsMts (add_slot mqe req mts)
  IsMts-add mts mqe req h v = record {
    some_slots = v.some_slots;
    fits = omega arith;
    full = Full-put mts.nused mts.mqes mqe v.full;
  }

  pub mpimts_add_lem :
      (ok : Bool) (mqe : Mqe) (req : ℕ) (mts : MpiMtsMgr)
      → IsMts mts
      → let (added, mts') = mpimts_add ok mqe req mts in
        IsMts mts'
        × (((added ≡ true) × (mts'.nused ≡ mts.nused + 1))
            ⊎ ((added ≡ false) × (mts'.nused ≡ mts.nused)))
  unfolding mpimts_add mpimts_setslots
  mpimts_add_lem ok mqe req mts v = elim (Bool-cases (mts.nused == mts.nalloc)) [
    | inr room ↦ rw room (IsMts-add mts mqe req (ground (arith, room, v.fits)) v, inl (refl, refl))
    | inl last ↦
        let z : leb (mts.nalloc * 2) mts.nalloc ≡ false = ground (arith, v.some_slots) in
        elim (Bool-cases ok) [
          | inr out ↦ rw (last, z, out) (v, inr (refl, refl))
          | inl grown ↦
              rw (last, z, grown)
                (
                  IsMts-add (record mts { nalloc = mts.nalloc * 2 }) mqe req
                      (omega (arith, v.fits, v.some_slots))
                      (IsMts-grown mts (mts.nalloc * 2) (omega arith) v),
                  inl (refl, refl),
                )
        ]
  ]

  pub test-Goes :
      (r : Round) (s : Sys) (t : Mpit)
      → Tracks t.mts s.q
      → s.q.mpindequeuedsends + 1 < small
      → Answers r.tested t.mts
      → let (ok, mts1, q1) = mpimts_test r.tested t.mts s.q in
        (ok ≡ true) × (q1.mpindequeuedsends + 1 < small) × (q1.nmqe ≡ s.q.nmqe) × Goes s mts1 q1
  test-Goes r s t v h w =
      let gone = completed r.tested.idxout t.mts.mqes t.mts.reqs in
      let (ok, x) = mpimts_test_lem r.tested t.mts s.q v.is_mts w in
      let (st, n, m) =
        release_each-Steps gone s s (Steps.done s) (omega (arith, h))
          (omega (arith, x.counted, v.in_sync)) in
      (
        ok,
        rw x.queue (omega (arith, n, h)),
        rw x.queue m,
        rw x.queue (record {
          steps = st;
          tracks = record { is_mts = x.is_mts; in_sync = omega (arith, n, x.counted, v.in_sync) };
        }),
      )
