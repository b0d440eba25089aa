-- ===== src/Mpi/Round.antt =====
-- A round of the loop of `mpit_main` in libdthread/dt_mpithread.c.
use dthread.Base.{
  ℕ, ◌+◌, ◌-◌, ◌^◌, ◌<◌, ◌≡◌, ◌⊎◌, inl, inr, refl, ◌∙◌, subst, Bool, false, Option, none, some,
  List, [], ◌∷◌, not, ◌||◌, ltb, arith, Bool-cases, Option-cases,
}
use dthread.Types.{Mqe}
use dthread.Queuing.{Dtq, send_dequeue, send_release, mqe_alloc, recv_enqueue, recv_release}
use dthread.Queuing.Invariant.{Sys, Step, count}
use dthread.Mpi.{MpiMtsMgr, mpimts_add, mpimts_test}
use dthread.Mpi.Shrink.{IsMts}
use dthread.Mpi.InFlight.{Answers}
use dthread.Mpi.Thread.{
  Mpit, Arrival, Recvd, maxmsgsize, mpimqerecv, Round, Outcome, goes_on, aborts, overruns,
  start_send, probe_recv, mpit_round,
}
use dthread.Mpi.Calls.{Tracks, Steps, with_q, small, Goes, mpimts_add_lem, test-Goes}

module _ (rank : ℕ) where
  List-cases : (l : List Mqe) → (l ≡ []) ⊎ ((m : Mqe) × (ms : List Mqe) × (l ≡ m ∷ ms))
  List-cases [] = inl refl
  List-cases (m ∷ ms) = inr (m, ms, refl)

  send_dequeue_cases :
      (q : Dtq)
      → let (o, q1) = send_dequeue q in
        ((o ≡ none) × (q1 ≡ q))
        ⊎ ((m : Mqe) × (o ≡ some m)
            × (q1.mpindequeuedsends ≡ q.mpindequeuedsends + 1)
            × (q1.nmqe ≡ q.nmqe))
  unfolding send_dequeue
  send_dequeue_cases q = elim (List-cases q.mpisendq) [
    | inl e ↦ rw e (inl (refl, refl))
    | inr (m, ms, e) ↦ rw e (inr (m, refl, refl, refl))
  ]

  -- an entry that was taken and is released at once
  release-Goes :
      (s : Sys) (mts : MpiMtsMgr) (q : Dtq) (m : Mqe)
      → Steps rank s (with_q rank s q)
      → IsMts mts
      → q.mpindequeuedsends ≡ mts.nused + 1
      → q.mpindequeuedsends < small rank
      → Goes rank s mts (send_release m q) × ((send_release m q).nmqe ≡ q.nmqe)
  unfolding send_release
  release-Goes s mts q m st v e h =
      let one : ((send_release m q).mpindequeuedsends + 1 ≡ q.mpindequeuedsends)
          × ((send_release m q).nmqe ≡ q.nmqe) =
        ground (arith, h, e) in
      (
        record {
          steps = Steps.more st (Step.sent (with_q rank s q) m (omega (arith, e)));
          tracks = record { is_mts = v; in_sync = omega (arith, one, e) };
        },
        one.1,
      )

  pub start_send-Goes :
      (r : Round) (s : Sys) (t : Mpit) (q : Dtq)
      → Goes rank s t.mts q
      → q.mpindequeuedsends + 1 < small rank
      → let (t1, q1) = start_send r t q in Goes rank s t1.mts q1 × (q1.nmqe ≡ q.nmqe)
  unfolding start_send
  start_send-Goes r s t q g h = elim (send_dequeue_cases q) [
    | inl (e, f) ↦ rw (start_send, e, f) (g, refl)
    | inr (m, e, n, w) ↦
        let q1 = (send_dequeue q).1 in
        let st : Steps rank s (with_q rank s q1) =
          Steps.more g.steps (Step.takes_send (with_q rank s q)) in
        elim (Option-cases r.isend_ret) [
          | inl fails ↦
              let (a, b) =
                release-Goes s t.mts q1 m st g.tracks.is_mts (omega (arith, n, g.tracks.in_sync))
                  (omega (arith, n, h)) in
              rw (start_send, e, fails) (a, b ∙ w)
          | inr (req, sent) ↦
              let (v, c) = mpimts_add_lem rank r.grow_ok m req t.mts g.tracks.is_mts in
              elim c [
                | inl (added, grown) ↦
                    rw (start_send, e, sent, added)
                      (
                        record {
                          steps = st;
                          tracks = record {
                            is_mts = v;
                            in_sync = omega (arith, n, grown, g.tracks.in_sync);
                          };
                        },
                        w,
                      )
                | inr (dropped, same) ↦
                    let (a, b) =
                      release-Goes s (mpimts_add r.grow_ok m req t.mts).1 q1 m st v
                        (omega (arith, n, same, g.tracks.in_sync)) (omega (arith, n, h)) in
                    rw (start_send, e, sent, dropped) (a, b ∙ w)
              ]
        ]
  ]

  -- What a round leaves behind, unless the process has exited.
  abbrev pub Ends : Sys → Outcome → Type 0
  Ends s (goes_on t q) = Goes rank s t.mts q
  Ends s (aborts t q) = Goes rank s t.mts q
  Ends s Outcome.exits = Unit {0}
  Ends s overruns = Unit {0}

  alloc-in_sync : (ok : Bool) (q : Dtq) → (mqe_alloc ok q).1.mpindequeuedsends ≡ q.mpindequeuedsends
  unfolding mqe_alloc
  alloc-in_sync ok q = ground arith

  mpimqerecv_lem :
      (ok : Bool) (a : Arrival) (s : Sys) (q : Dtq)
      → Steps rank s (with_q rank s q)
      → q.nmqe + 1 < 2 ^ 31
      → (mpimqerecv ok a q ≡ Recvd.exits)
        ⊎ ((ret : ℕ) × (q1 : Dtq) × (overrun : Bool) × (mpimqerecv ok a q
              ≡ Recvd.returns ret q1 overrun)
            × Steps rank s (with_q rank s q1)
            × (q1.mpindequeuedsends ≡ q.mpindequeuedsends))
  unfolding mpimqerecv recv_release recv_enqueue
  mpimqerecv_lem ok a s q st h = elim (Bool-cases (ltb a.count 1)) [
    | inl few ↦ inl (rw few refl)
    | inr many ↦ elim (Option-cases (mqe_alloc ok q).0) [
      | inl n ↦ inl (rw (many, n) refl)
      | inr (m, y) ↦
          let q1 = (mqe_alloc ok q).1 in
          let mqe : Mqe = record { frame = a.frame; flen = a.count; peer = a.source } in
          let u : Sys = record { q = q1; held = s.held + 1 } in
          let st1 : Steps rank s u =
            subst (λ (o : Option Mqe). Steps rank s (record { q = q1; held = s.held + count o })) y
              (Steps.more st (Step.allocs_mqe (with_q rank s q) ok h)) in
          let back : s.held + 1 - 1 ≡ s.held = omega arith in
          elim (Bool-cases (ltb maxmsgsize a.count || not a.received)) [
            | inl bad ↦ inr (
              0,
              recv_release mqe q1,
              ltb maxmsgsize a.count,
              rw (many, y, bad) refl,
              subst (λ x. Steps rank s (record { q = recv_release mqe q1; held = x })) back
                  (Steps.more st1 (Step.frees_recv u mqe (omega arith))),
              alloc-in_sync ok q,
            )
            | inr good ↦ inr (
              a.count,
              recv_enqueue mqe q1,
              false,
              rw (many, y, good) refl,
              subst (λ x. Steps rank s (record { q = recv_enqueue mqe q1; held = x })) back
                  (Steps.more st1 (Step.puts_recv u mqe (omega arith))),
              alloc-in_sync ok q,
            )
          ]
    ]
  ]

  pub probe_recv-Ends :
      (r : Round) (s : Sys) (t : Mpit) (q : Dtq)
      → Goes rank s t.mts q
      → q.nmqe + 1 < 2 ^ 31
      → Ends s (probe_recv r t q)
  unfolding probe_recv
  probe_recv-Ends r s t q g h = elim (Option-cases r.probed) [
    | inl fails ↦ rw (probe_recv, fails) g
    | inr (flag, y) ↦ elim (Option-cases flag) [
      | inl idle ↦ rw (probe_recv, y, idle) g
      | inr (a, z) ↦ elim (mpimqerecv_lem r.mqe_ok a s q g.steps h) [
        | inl e ↦ rw (probe_recv, y, z, e) tt
        | inr (ret, q1, overrun, e, st, n) ↦
            let g1 : Goes rank s t.mts q1 = record {
              steps = st;
              tracks = record { is_mts = g.tracks.is_mts; in_sync = n ∙ g.tracks.in_sync };
            } in
            elim (Bool-cases overrun) [
              | inl over ↦ rw (probe_recv, y, z, e, over) tt
              | inr fits ↦ elim (Bool-cases (ltb 0 ret)) [
                | inl got ↦ rw (probe_recv, y, z, e, fits, got) g1
                | inr lost ↦ rw (probe_recv, y, z, e, fits, lost) g1
              ]
            ]
      ]
    ]
  ]

  -- In a round of its loop the MPI thread makes only calls that the queues allow, leaves no entry
  -- behind, and has as many slots in use as sends taken from the queue and not released.
  pub mpit_round-Ends :
      (r : Round) (s : Sys) (t : Mpit)
      → Tracks t.mts s.q
      → Answers r.tested t.mts
      → s.q.mpindequeuedsends + 1 < 2 ^ 31
      → s.q.nmqe + 1 < 2 ^ 31
      → Ends s (mpit_round r t s.q)
  unfolding mpit_round
  mpit_round-Ends r s t v w h k =
      let (ok, few, same, g) = test-Goes rank r s t v h w in
      let res = mpimts_test r.tested t.mts s.q in
      let (g1, n) = start_send-Goes r s (record t { mts = res.1 }) res.2 g few in
      rw (mpit_round, ok) (probe_recv-Ends r s _ _ g1 (omega (arith, n, same, k)))
