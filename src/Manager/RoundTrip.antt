-- ===== src/Manager/RoundTrip.antt =====
-- A request of an application thread and the reply to it (`process_req` and `process_mqe` of
-- libdthread/dt_mgrthread.c).
use dthread.Base.{
  ℕ, ◌+◌, ◌*◌, ◌^◌, ◌≡◌, ◌≢◌, ◌<◌, ◌≤◌, refl, ap, ◌∙◌, Bool, false, none, some, List, [], ◌∷◌, ◌++◌,
  arith, length, get_or, set, get_or-set_self, get_or-set_ne, length-set, ◌==◌, suc,
}
use dthread.Types.{Mqe, Request, ReqState, ReqRef, app, internal_req, xidseq_of}
use dthread.Types.Op
use dthread.Types.SizeOf
use dthread.Queuing.{dd_init, send_enqueue}
use dthread.Manager.State.{State, Event, Ltab, ltab_at, ltab_zero, req_of, release_mqe, req_release}
use dthread.Manager.Pending.{
  take_first, has_key, find_pending_req, find_pending_msgreq, get_free_seq,
}
use dthread.Manager.Pending.Search.{NoneOf, take_first-append}
use dthread.Manager.Pending.FreeSeq.{get_free_seq-free}
use dthread.Manager.Dispatch.{request_sent, request_case, reply_to, finish}

abbrev pub is_app : ℕ → ReqRef → Bool
is_app i (app j) = j == i
is_app i (internal_req r) = false

req_of-set :
    (ltab : List Ltab) (i : ℕ) (l : Ltab) (r : ReqRef)
    → is_app i r ≡ false
    → req_of (set ltab i l) r ≡ req_of ltab r
req_of-set ltab i l (app j) e =
    ap (λ (x : Ltab). x.req) (get_or-set_ne ltab i j l ltab_zero (λ h. ground arith))
req_of-set ltab i l (internal_req r) e = refl

-- A write to the slot of a thread that has no request pending leaves the search failing.
take_first-set :
    (ltab : List Ltab) (i : ℕ) (l : Ltab) (op seq : ℕ) (rs : List ReqRef)
    → NoneOf (is_app i) rs
    → take_first (has_key ltab op seq) rs ≡ none
    → take_first (has_key (set ltab i l) op seq) rs ≡ none
unfolding take_first
take_first-set ltab i l op seq [] n e = refl
take_first-set ltab i l op seq (r ∷ rs) (n, ns) e =
    ground (arith, req_of-set ltab i l r n, take_first-set ltab i l op seq rs ns)

finish-app :
    (i : ℕ) (f : Request) (u : State)
    → i < length u.ltab
    → ((finish (app i) f u).rpending ≡ u.rpending)
      × ((ltab_at (finish (app i) f u) i).req ≡ record f { reqstate = ReqState.done })
      × ((finish (app i) f u).events ≡ u.events ++ Event.notify i ∷ [])
unfolding finish req_release
finish-app i f u n =
    let l = record (ltab_at u i) { req = f } in
    let l' = record (ltab_at u i) { req = record f { reqstate = ReqState.done } } in
    ground (
      arith,
      get_or-set_self u.ltab i l ltab_zero n,
      get_or-set_self (set u.ltab i l) i l' ltab_zero (omega (arith, length-set u.ltab i l)),
    )

-- The slot `i` can send the request `q` with the message `m`: nothing is drained, the thread has no
-- other request pending, and enough numbers are left.
pub record Sendable (i : ℕ) (q : Request) (m : Mqe) (s : State) : Type 0 where
  pub message : q.mqe ≡ some m
  pub is_op : q.reqop ≢ Op.none
  pub slot : i < length s.ltab
  pub not_draining : s.dtq.mpisq_draindown ≡ dd_init
  pub alone : NoneOf (is_app i) s.rpending
  pub ranks : 0 < s.mpi_wsize
  pub small : s.seqsrc < 2 ^ 32
  pub room : s.mpi_rank + s.mpi_wsize + suc (length s.rpending) * s.mpi_wsize < 2 ^ 32

-- the request as it waits for its reply
abbrev pub sent_req : Request → State → Request
sent_req q s = record q { mqe = none; xidseq = (get_free_seq q.reqop s).0 }

module _ (i : ℕ) (q : Request) (m : Mqe) (s : State) (v : Sendable i q m s) where
  abbrev ltab' : List Ltab
  ltab' = set s.ltab i (record (ltab_at s i) { req = sent_req q s })

  at_slot : get_or ltab' i ltab_zero ≡ record (ltab_at s i) { req = sent_req q s }
  at_slot = get_or-set_self s.ltab i _ ltab_zero v.slot

  request_case-pends :
      ((request_case i q s).rpending ≡ s.rpending ++ app i ∷ [])
      × ((request_case i q s).ltab ≡ ltab')
      × ((request_case i q s).events ≡ s.events)
  unfolding request_case request_sent get_free_seq send_enqueue
  request_case-pends = ground (arith, v.message, v.not_draining)

  find_sent :
      find_pending_req q.reqop (get_free_seq q.reqop s).0 (request_case i q s)
      ≡ some (app i, s.rpending)
  unfolding find_pending_req
  find_sent =
      let (p, l, e) = request_case-pends in
      rw (p, l)
        (take_first-append (has_key ltab' q.reqop (get_free_seq q.reqop s).0) s.rpending (app i)
          (take_first-set s.ltab i _ q.reqop _ s.rpending v.alone
            (get_free_seq-free q.reqop s v.is_op v.ranks v.small v.room))
          (ground (arith, at_slot)))

  found :
      (r : Mqe) (size : ℕ)
      → xidseq_of r.frame ≡ (get_free_seq q.reqop s).0
      → SizeOf.header ≤ r.flen
      → size ≤ r.flen
      → find_pending_msgreq r q.reqop size (request_case i q s)
        ≡ some (app i, record (request_case i q s) { rpending = s.rpending })
  unfolding find_pending_msgreq
  found r size x h z = ground (arith, x, find_sent)

  contents : req_of (request_case i q s).ltab (app i) ≡ sent_req q s
  contents =
      ap (λ (x : List Ltab). req_of x (app i)) request_case-pends.1
      ∙ ap (λ (x : Ltab). x.req) at_slot

  replied :
      (r : Mqe) (size : ℕ) (result : Request → Request)
      → xidseq_of r.frame ≡ (get_free_seq q.reqop s).0
      → SizeOf.header ≤ r.flen
      → size ≤ r.flen
      → reply_to r q.reqop size result (request_case i q s)
        ≡ release_mqe r (
            finish
              (app i)
              (result (sent_req q s))
              (record (request_case i q s) { rpending = s.rpending }))
  unfolding reply_to
  replied r size result x h z = ground (arith, found r size x h z, contents)

  -- A request that a thread hands to the manager is answered by the first reply that carries its
  -- number and is not too short: the reply's contents are written to the thread's request, the
  -- request is done, its thread is woken, and the pending list is as it was before.
  pub request_case-reply_to :
      (r : Mqe) (size : ℕ) (result : Request → Request)
      → xidseq_of r.frame ≡ (get_free_seq q.reqop s).0
      → SizeOf.header ≤ r.flen
      → size ≤ r.flen
      → let t = reply_to r q.reqop size result (request_case i q s) in
        (t.rpending ≡ s.rpending)
        × ((ltab_at t i).req ≡ record (result (sent_req q s)) { reqstate = ReqState.done })
        × (t.events ≡ s.events ++ Event.notify i ∷ [])
  unfolding release_mqe
  request_case-reply_to r size result x h z =
      let (p, l, e) = request_case-pends in
      let n : i < length (request_case i q s).ltab = omega (
        arith,
        v.slot,
        ap length l,
        length-set s.ltab i (record (ltab_at s i) { req = sent_req q s }),
      ) in
      let (fp, fl, fe) =
        finish-app i (result (sent_req q s)) (record (request_case i q s) { rpending = s.rpending })
          n in
      rw (replied r size result x h z) (fp, fl, fe ∙ ap (λ y. y ++ Event.notify i ∷ []) e)
