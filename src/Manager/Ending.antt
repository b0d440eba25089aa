-- ===== src/Manager/Ending.antt =====
-- How a thread ends on its own rank: `retclean_request`, which the thread runs last, and the case
-- RETCLEAN of `process_req` (libdthread/dt_mgrthread.c).
use dthread.Base.{
  ℕ, ◌-◌, ◌≡◌, ◌≢◌, ◌<◌, ◌∙◌, ap, sym, none, some, List, [], ◌∷◌, ◌++◌, arith, length, get_or,
  get_or-set_self, length-set, if◌then◌else◌,
}
use dthread.Types.{Msg, Mqe, ReqState, app}
use dthread.Types.Op
use dthread.Types.SizeOf
use dthread.Queuing
use dthread.Queuing.{dd_init, req_enqueue, mqe_alloc, send_enqueue, recv_enqueue}
use dthread.Manager.State.{
  State, Event, Ltab, ltab_at, ltab_zero, alloc_mqe, send_or_drop, need_finalstate, lt_none,
}
use dthread.Manager.Dispatch.{process_req, request_switch, retclean_case, terminated_msg}
use dthread.Manager.Wrapper.{retclean_request, mark_canceled, finalize_state}
use dthread.Manager.Cleanup.{
  retclean_case-some, gathered, gathered-same, alloc_mqe-same, send_or_drop-same, given_back,
}

-- the final state that a thread ends with: a cancel that has come first stays
abbrev pub final_of : ℕ → ℕ → ℕ
final_of state finalstate = if need_finalstate state then finalstate else state

-- A thread runs in the slot `i`.
pub record Ends (i : ℕ) (s : State) : Type 0 where
  pub in_range : i < s.nmaxthread
  pub size : length s.ltab ≡ s.nmaxthread
  pub own : (ltab_at s i).req.req_ltabidx ≡ some i

-- the slot as `retclean_request` leaves it
abbrev ending : ℕ → ℕ → State → Ltab
ending i fin s = record (ltab_at s i) {
  pth_state = final_of (ltab_at s i).pth_state fin;
  req = record ((ltab_at s i).req) {
    reqstate = ReqState.busy;
    reqpeer = 0;
    reqop = Op.retclean;
    mqe = none;
  };
}

module _ (i fin : ℕ) (s : State) (v : Ends i s) where
  finalize-at :
      ltab_at (finalize_state i fin s) i
      ≡ record (ltab_at s i) { pth_state = final_of (ltab_at s i).pth_state fin }
  unfolding finalize_state
  finalize-at = ground (
    arith,
    get_or-set_self s.ltab i (record (ltab_at s i) { pth_state = fin }) ltab_zero
        (omega (arith, v.in_range, v.size)),
  )

  finalize-length : length (finalize_state i fin s).ltab ≡ length s.ltab
  unfolding finalize_state
  finalize-length = ground (arith, length-set s.ltab i (record (ltab_at s i) { pth_state = fin }))

  mark-ltab : (u : State) → (mark_canceled i u).ltab ≡ u.ltab
  unfolding mark_canceled
  mark-ltab u = ground arith

  retclean_request-at : ltab_at (retclean_request i fin s) i ≡ ending i fin s
  unfolding retclean_request req_enqueue
  retclean_request-at =
      let u = mark_canceled i (finalize_state i fin s) in
      let e : u.ltab ≡ (finalize_state i fin s).ltab = mark-ltab (finalize_state i fin s) in
      let a : ltab_at u i
          ≡ record (ltab_at s i) { pth_state = final_of (ltab_at s i).pth_state fin } =
        ap (λ (x : List Ltab). get_or x i ltab_zero) e ∙ finalize-at in
      get_or-set_self u.ltab i _ ltab_zero
        (omega (arith, ap length e, finalize-length, v.in_range, v.size))
      ∙ ap
          (λ (l : Ltab). record l {
            req = record (l.req) {
              reqstate = ReqState.busy;
              reqpeer = 0;
              reqop = Op.retclean;
              mqe = none;
            };
          })
          a

  -- the state that the manager finds
  abbrev handed : State
  handed = retclean_request i fin s

  handed-same :
      (handed.nmaxthread ≡ s.nmaxthread)
      × (handed.mpi_rank ≡ s.mpi_rank)
      × (handed.events ≡ s.events)
      × (handed.mem ≡ s.mem)
      × (handed.ltab_alloc ≡ s.ltab_alloc)
      × (handed.dtq.mpisendq ≡ s.dtq.mpisendq)
      × (handed.dtq.mqefree ≡ s.dtq.mqefree)
      × (handed.dtq.mpisq_draindown ≡ s.dtq.mpisq_draindown)
  unfolding retclean_request req_enqueue mark_canceled finalize_state
  handed-same = ground arith

  handed-length : length handed.ltab ≡ length s.ltab
  unfolding retclean_request req_enqueue
  handed-length =
      length-set (mark_canceled i (finalize_state i fin s)).ltab i _
      ∙ ap length (mark-ltab (finalize_state i fin s))
      ∙ finalize-length

  process_req-retclean : process_req (app i) handed ≡ retclean_case i handed
  unfolding process_req request_switch
  process_req-retclean = ground (arith, retclean_request-at, v.own, v.in_range, handed-same)

  -- the TERMINATED message of the thread
  abbrev pub ended_msg : Mqe
  ended_msg = record {
    frame =
        Msg.terminated 0 (record { dt_index = (ltab_at s i).gtab_idx; dt_seq = (ltab_at s i).seq })
          (final_of (ltab_at s i).pth_state fin);
    flen = SizeOf.terminated;
    peer = 0;
  }

  alloc-handed : (alloc_mqe s).0 ≢ none → (alloc_mqe handed).0 ≢ none
  unfolding alloc_mqe mqe_alloc
  alloc-handed h = ground (arith, handed-same)

  final-live :
      (ltab_at s i).pth_state ≢ lt_none
      → fin ≢ lt_none
      → final_of (ltab_at s i).pth_state fin ≢ lt_none
  final-live live f = ground arith

  -- A thread that ends gives its slot back and is joined, and rank 0 is told its handle and how it
  -- ended; a cancel that came before the end is what is told. This needs a message entry, another
  -- rank than 0 and that no drain has begun.
  pub retclean_request-process_req :
      (ltab_at s i).pth_state ≢ lt_none
      → fin ≢ lt_none
      → (alloc_mqe s).0 ≢ none
      → s.mpi_rank ≢ 0
      → s.dtq.mpisq_draindown ≡ dd_init
      → let t = process_req (app i) (retclean_request i fin s) in
        ((ltab_at t i).pth_state ≡ lt_none)
        × (t.ltab_alloc ≡ s.ltab_alloc - 1)
        × (t.events ≡ s.events ++ Event.pthread_join i ∷ [])
        × (t.dtq.mpisendq ≡ s.dtq.mpisendq ++ ended_msg ∷ [])
  retclean_request-process_req live f mem r d =
      let (hn, hr, he, hm, ha, hs, hf, hd) = handed-same in
      let (al, ar, aq, ad, aa, ae) = alloc_mqe-same i handed in
      let a = (alloc_mqe handed).1 in
      let (gl, gr, gq, ga, ge) = gathered-same i handed a in
      let g = gathered i handed a in
      let at : ltab_at g i ≡ ending i fin s =
        ap (λ (x : List Ltab). get_or x i ltab_zero) (gl ∙ al) ∙ retclean_request-at in
      let m = terminated_msg (ltab_at g i) in
      let (eq, sent) =
        send_or_drop-same i handed m g (λ e. r (sym (gr ∙ ar ∙ hr) ∙ e))
          (ap (λ (q : Queuing.Dtq). q.mpisq_draindown) gq ∙ ad ∙ hd ∙ d) in
      let u = send_or_drop m g in
      let ul : u.ltab ≡ g.ltab = ap (λ (x : State). x.ltab) eq in
      let ua : ltab_at u i ≡ ending i fin s =
        ap (λ (x : List Ltab). get_or x i ltab_zero) ul ∙ at in
      let n : i < length u.ltab =
        omega
          (arith, ap length ul, ap length gl, ap length al, handed-length, v.size, v.in_range) in
      let (bp, ba, be, bq) =
        given_back i handed u n
          (λ e. final-live live f (sym (ap (λ (x : Ltab). x.pth_state) ua) ∙ e)) in
      rw (process_req-retclean ∙ retclean_case-some i handed (alloc-handed mem)) (
        bp,
        ba ∙ ap (λ x. x - 1) (ap (λ (x : State). x.ltab_alloc) eq ∙ ga ∙ aa ∙ ha),
        be
            ∙ ap (λ (x : State). x.events) eq
            ∙ ge
            ∙ ap (λ x. x ++ Event.pthread_join i ∷ []) (ae ∙ he),
        ap (λ (x : Queuing.Dtq). x.mpisendq) bq
            ∙ sent
            ∙ ap (λ x. x ++ m ∷ []) (ap (λ (x : Queuing.Dtq). x.mpisendq) gq ∙ aq ∙ hs)
            ∙ ap (λ (l : Ltab). s.dtq.mpisendq ++ terminated_msg l ∷ []) at,
      )
