-- ===== src/Mpi/InFlight.antt =====
-- `mpimts_test` of libdthread/dt_mpithread.c: the sends that are complete are released, and the others
-- stay in flight.
use dthread.Base.{
  ℕ, ◌+◌, ◌<◌, ◌≡◌, ◌⊎◌, inl, inr, refl, ap, sym, ◌∙◌, subst, true, Option, some, List, [], ◌∷◌,
  ◌++◌, leb, ◌==◌, length, arith, Bool-cases,
}
use mathlib.Core.List.{Permᴰ}
use mathlib.Core.List.Permᴰ
use dthread.Types.{Mqe}
use dthread.Queuing.{Dtq}
use dthread.Mpi.{
  MpiMtsMgr, mpi_success, mpi_err_in_status, Testsome, release_loop, compact, retire, count_got,
  test_complete, mpimts_test,
}
use dthread.Mpi.Slots.{Send, sends, length-sends, sends-Full, sends-agree}
use dthread.Mpi.Compact.{length-nil}
use dthread.Mpi.Release.{
  NotIn, Distinct, completed, release_each, Released, release_loop_lem, firsthole_lem,
}
use dthread.Mpi.Shrink.{in_flight, length-Permᴰ, IsMts, compact_lem}

-- What MPI_Testsome promises: it succeeds, perhaps with errors in the statuses; the indices it returns
-- are different ones of the slots it was given; and it keeps the requests that are not complete.
pub record Answers (t : Testsome) (mts : MpiMtsMgr) : Type 0 where
  pub ok : (t.rv ≡ mpi_success) ⊎ (t.rv ≡ mpi_err_in_status)
  pub distinct : Distinct mts.nused t.idxout
  pub unchanged : (i : ℕ) → NotIn i t.idxout → t.reqs i ≡ mts.reqs i

-- The slots and the queues after the sends `gone` are released.
pub record Retired (gone : List Send) (mts : MpiMtsMgr) (q : Dtq) (mts' : MpiMtsMgr) (q' : Dtq)
    : Type 0 where
  pub queue : q' ≡ release_each gone q
  pub counted : length gone + mts'.nused ≡ mts.nused
  pub sends_kept : Permᴰ (in_flight mts) (gone ++ in_flight mts')
  pub same_size : mts'.nalloc ≡ mts.nalloc
  pub is_mts : IsMts mts'

-- the manager as MPI_Testsome leaves it
abbrev given : (ℕ → ℕ) → MpiMtsMgr → MpiMtsMgr
given reqs mts = record mts { ntestsome = mts.ntestsome + 1; reqs = reqs }

module _ (mts : MpiMtsMgr) (q : Dtq) (v : IsMts mts) (idxout : List ℕ) (reqs : ℕ → ℕ)
    (d : Distinct mts.nused idxout)
    (unchanged : (i : ℕ) → NotIn i idxout → reqs i ≡ mts.reqs i) where
  abbrev gone : List Send
  gone = completed idxout mts.mqes mts.reqs

  module _ (first : ℕ) where
    abbrev released : ℕ × (ℕ → Option Mqe) × Dtq
    released = release_loop idxout first mts.mqes q

    loop : Released mts.nused idxout mts.mqes mts.reqs q released
    loop =
        release_loop_lem mts.nused idxout first mts.mqes mts.reqs q d
          (λ i l. inr (v.full i (omega arith) (omega arith)))

    -- what is left, before the holes are filled
    abbrev holed : MpiMtsMgr
    holed = record (count_got (length idxout) (given reqs mts)) { mqes = released.1 }

    holed-in_flight : in_flight holed ≡ sends mts.nused 0 released.1 mts.reqs
    holed-in_flight = sends-agree released.1 released.1 mts.reqs reqs mts.nused 0 (λ i l u.
        (refl, elim (loop.emptied i) [ inl hole ↦ inl hole | inr other ↦ inr (unchanged i other) ]))

    abbrev rest : ℕ
    rest = length (in_flight holed)

    counts : length idxout + rest ≡ mts.nused
    counts = omega (
      arith,
      loop.counted,
      length-sends mts.mqes mts.reqs mts.nused 0 v.full,
      ap (λ (x : List Send). length x) holed-in_flight,
    )

    low : (i : ℕ) → i < released.0 → i < mts.nused → (m : Mqe) × (released.1 i ≡ some m)
    low i h u =
        let (m, e) = v.full i (omega arith) (omega arith) in
        (m, loop.untouched i ((firsthole_lem idxout first mts.mqes q).1 i h) ∙ e)

    Retired-of :
        (mts' : MpiMtsMgr)
        → mts'.nused ≡ rest
        → mts'.nalloc ≡ mts.nalloc
        → Permᴰ (in_flight mts') (in_flight holed)
        → Retired gone mts q mts' released.2
    Retired-of mts' n a p = record {
      queue = loop.queue;
      counted = omega (arith, n, counts, loop.listed);
      sends_kept = Permᴰ.trans loop.kept (
          Permᴰ.append_left gone
            (Permᴰ.symm (subst (λ x. Permᴰ (in_flight mts') x) holed-in_flight p)));
      same_size = a;
      is_mts = record {
        some_slots = omega (arith, a, v.some_slots);
        fits = omega (arith, n, a, counts, v.fits);
        full = sends-Full mts'.mqes mts'.reqs mts'.nused 0 (length-Permᴰ p ∙ sym n);
      };
    }

    retire_lem :
        let (mts', q') = retire first idxout (given reqs mts) q in Retired gone mts q mts' q'
    unfolding retire
    retire_lem = elim (Bool-cases (leb mts.nused (length idxout))) [
      | inl all ↦
          let z : 0 ≡ rest = ground (arith, counts, all) in
          rw all (
            Retired-of (record holed { nused = 0 }) z refl
              (subst (λ x. Permᴰ [] x) (sym (length-nil (in_flight holed) (sym z))) Permᴰ.nil))
      | inr few ↦
          let (n, a, p) = compact_lem (length idxout) released.0 holed rest counts refl low in
          rw few (Retired-of (compact (length idxout) released.0 holed) n a p)
    ]

complete_lem :
    (mts : MpiMtsMgr) (q : Dtq) (v : IsMts mts) (idxout : List ℕ) (reqs : ℕ → ℕ)
    → Distinct mts.nused idxout
    → ((i : ℕ) → NotIn i idxout → reqs i ≡ mts.reqs i)
    → let (mts', q') = test_complete idxout (given reqs mts) q in
      Retired (completed idxout mts.mqes mts.reqs) mts q mts' q'
unfolding completed release_each
complete_lem mts q v [] reqs d u = record {
  queue = refl;
  counted = omega arith;
  sends_kept =
      subst (λ x. Permᴰ (in_flight mts) x)
        (sym
          (sends-agree mts.mqes mts.mqes mts.reqs reqs mts.nused 0 (λ i l h. (refl, inr (u i tt)))))
        (Permᴰ.refl (in_flight mts));
  same_size = refl;
  is_mts = record { some_slots = v.some_slots; fits = v.fits; full = v.full };
}
complete_lem mts q v (i ∷ is) reqs d u = retire_lem mts q v (i ∷ is) reqs d u i

Distinct-nil : (n : ℕ) (idxout : List ℕ) → n ≡ 0 → Distinct n idxout → idxout ≡ []
Distinct-nil n [] e d = refl
Distinct-nil n (i ∷ is) e (l, o, d) = absurd (omega (arith, l, e))

-- `mpimts_test` for every answer that MPI may give. The sends that are complete are released, each once
-- and in the order of MPI's indices, and all others stay in flight with their requests: the holes are
-- filled, and the overflow of the pull, for which the code has a message, does not occur. Each slot in
-- use still holds an entry.
pub mpimts_test_lem :
    (t : Testsome) (mts : MpiMtsMgr) (q : Dtq)
    → IsMts mts
    → Answers t mts
    → let (ok, mts', q') = mpimts_test t mts q in
      (ok ≡ true) × Retired (completed t.idxout mts.mqes mts.reqs) mts q mts' q'
unfolding mpimts_test completed release_each
mpimts_test_lem t mts q v w =
    let lem = complete_lem mts q v t.idxout t.reqs w.distinct w.unchanged in
    elim (Bool-cases (mts.nused == 0)) [
      | inl e ↦
          let none_listed = Distinct-nil mts.nused t.idxout (ground (arith, e)) w.distinct in
          rw (e, none_listed)
            (
              refl,
              record {
                queue = refl;
                counted = omega arith;
                sends_kept = Permᴰ.refl (in_flight mts);
                same_size = refl;
                is_mts = v;
              },
            )
      | inr e ↦ elim w.ok [ inl s ↦ rw (e, s) (refl, lem) | inr s ↦ rw (e, s) (refl, lem) ]
    ]
