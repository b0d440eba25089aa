-- ===== src/Calls/Answer.antt =====
-- A call of an application thread from its request to its result (libdthread/dt_threadops.c with
-- libdthread/dt_mgrthread.c).
use dthread.Base.{
  ℕ, ◌+◌, ◌*◌, ◌^◌, ◌≡◌, ◌≢◌, ◌<◌, ◌≤◌, ◌⊎◌, inl, inr, refl, ap, false, ◌==◌, ◌∙◌, none, some, [],
  ◌∷◌, ◌++◌, arith, length, set, get_or-set_self, length-set, suc,
}
use dthread.Types.{DThread, Argret, Msg, Mqe, Request, ReqState, ReqUnion, app, xidseq_of}
use dthread.Types.Op
use dthread.Types.SizeOf
use dthread.Queuing
use dthread.Queuing.{dd_init}
use dthread.Manager.State.{State, Event, ltab_at, ltab_zero, alloc_mqe}
use dthread.Manager.Pending.{get_free_seq}
use dthread.Manager.Pending.Search.{NoneOf}
use dthread.Manager.Dispatch.{
  process_req, process_mqe, dispatch, request_switch, request_case, reply_to, created_result,
  joined_result, joined_union,
}
use dthread.Manager.RoundTrip.{is_app, Sendable, sent_req, request_case-reply_to}
use dthread.Calls.{waits, get_my_req, busy_req, post, collect}

-- The thread in the slot `i` can call the manager: its request is idle and not pending, nothing is
-- drained, and there are message entries and numbers.
pub record Ready (i : ℕ) (s : State) : Type 0 where
  pub in_range : i < s.nmaxthread
  pub size : length s.ltab ≡ s.nmaxthread
  pub own : (ltab_at s i).req.req_ltabidx ≡ some i
  pub idle : (ltab_at s i).req.reqstate ≡ ReqState.idle
  pub entry : (alloc_mqe s).0 ≢ none
  pub not_draining : s.dtq.mpisq_draindown ≡ dd_init
  pub alone : NoneOf (is_app i) s.rpending
  pub ranks : 0 < s.mpi_wsize
  pub small : s.seqsrc < 2 ^ 32
  pub room : s.mpi_rank + s.mpi_wsize + suc (length s.rpending) * s.mpi_wsize < 2 ^ 32

-- the operations of `process_req` that send a message
abbrev pub Sends : ℕ → Type 0
Sends op = (op ≡ Op.create) ⊎ (op ≡ Op.detach) ⊎ (op ≡ Op.cancel) ⊎ (op ≡ Op.join)

module _ (i op : ℕ) (u : ReqUnion → ReqUnion) (m : Mqe) (s : State) (v : Ready i s) where
  -- the request as it is posted, and the state then
  abbrev pub posted_req : Request
  posted_req = busy_req (ltab_at s i).req m op (u (ltab_at s i).req.u)

  abbrev pub posted : State
  posted = record (alloc_mqe s).1 {
    ltab = set s.ltab i (record (ltab_at s i) { req = posted_req });
    dtq = Queuing.req_enqueue (app i) (alloc_mqe s).1.dtq;
  }

  pub post-waits : post i op u m s ≡ waits posted
  unfolding post get_my_req alloc_mqe
  post-waits = ground (arith, v.idle, v.entry)

  posted-at : ltab_at posted i ≡ record (ltab_at s i) { req = posted_req }
  posted-at = get_or-set_self s.ltab i _ ltab_zero (omega (arith, v.in_range, v.size))

  posted-same :
      (posted.rpending ≡ s.rpending)
      × (posted.seqsrc ≡ s.seqsrc)
      × (posted.dtq.mpisq_draindown ≡ s.dtq.mpisq_draindown)
      × (posted.events ≡ s.events)
  unfolding alloc_mqe Queuing.mqe_alloc Queuing.req_enqueue
  posted-same = ground arith

  posted-config :
      (posted.nmaxthread ≡ s.nmaxthread)
      × (posted.mpi_rank ≡ s.mpi_rank)
      × (posted.mpi_wsize ≡ s.mpi_wsize)
  unfolding alloc_mqe
  posted-config = ground arith

  posted-Sendable : Sends op → Sendable i posted_req m posted
  posted-Sendable sends =
      let (p, q, d, e) = posted-same in
      let (n, r, w) = posted-config in
      record {
        message = refl;
        is_op = λ e. ground (arith, sends, e);
        slot = omega (
          arith,
          length-set s.ltab i (record (ltab_at s i) { req = posted_req }),
          v.in_range,
          v.size,
        );
        not_draining = d ∙ v.not_draining;
        alone = rw p v.alone;
        ranks = rw w v.ranks;
        small = rw q v.small;
        room = rw (p, r, w) v.room;
      }

  process_req-posted : Sends op → process_req (app i) posted ≡ request_case i posted_req posted
  unfolding process_req request_switch
  process_req-posted sends = ground (arith, posted-at, v.own, v.in_range, posted-config, sends)

  -- whatever the handler of the reply does to the request
  post-collect :
      Sends op
      → (r : Mqe) (size : ℕ) (result : Request → Request)
      → xidseq_of r.frame ≡ (get_free_seq op posted).0
      → SizeOf.header ≤ r.flen
      → size ≤ r.flen
      → let q = result (sent_req posted_req posted) in
        let (err, answer, t) = collect i (reply_to r op size result (process_req (app i) posted)) in
        (post i op u m s ≡ waits posted)
        × (err ≡ q.reqerror)
        × (answer ≡ q.u)
        × (t.rpending ≡ s.rpending)
        × (t.events ≡ s.events ++ Event.notify i ∷ [])
  unfolding collect
  post-collect sends r size result x h z =
      let (p, l, e) =
        request_case-reply_to i posted_req m posted (posted-Sendable sends) r size result x h z in
      let (sp, sq, sd, se) = posted-same in
      rw (process_req-posted sends) (
        post-waits,
        ap (λ (y : Request). y.reqerror) l,
        ap (λ (y : Request). y.u) l,
        p ∙ sp,
        e ∙ ap (λ y. y ++ Event.notify i ∷ []) se,
      )

-- The replies to an operation whose request has the number `seq` and the union `u0`: the frame, its
-- size, and the error and the union that the thread is to get.
pub data Replies (u0 : ReqUnion) (seq : ℕ) : ℕ → Msg → ℕ → ℕ → ReqUnion → Type 0 where
  creates :
      (t : DThread)
      → Replies u0 seq Op.create (Msg.created seq 0 t) SizeOf.created 0 (ReqUnion.newdthread t)
  creates_not :
      (err : ℕ) (t : DThread)
      → err ≢ 0
      → Replies u0 seq Op.create (Msg.created seq err t) SizeOf.created err u0
  detaches : (err : ℕ) → Replies u0 seq Op.detach (Msg.detached seq err) SizeOf.detached err u0
  cancels : (err : ℕ) → Replies u0 seq Op.cancel (Msg.canceled seq err) SizeOf.canceled err u0
  joins :
      (err : ℕ) (old ret : Argret)
      → u0 ≡ ReqUnion.retval (some old)
      → Replies u0 seq Op.join
          (Msg.joined seq err ret)
          SizeOf.joined
          err
          (ReqUnion.retval (some ret))
  joins_only :
      (err : ℕ) (ret : Argret)
      → u0 ≡ ReqUnion.retval none
      → Replies u0 seq Op.join (Msg.joined seq err ret) SizeOf.joined err (ReqUnion.retval none)

module _ (i : ℕ) (u : ReqUnion → ReqUnion) (m : Mqe) (s : State) (v : Ready i s) (r : Mqe) where
  -- what a call of the operation `op` comes to: the error, the union, and the state
  abbrev pub Result : ℕ → ℕ → ReqUnion → Type 0
  Result op err union =
      let p = posted i op u m s v in
      let (e, answer, t) = collect i (process_mqe r (process_req (app i) p)) in
      (post i op u m s ≡ waits p)
      × (e ≡ err)
      × (answer ≡ union)
      × (t.rpending ≡ s.rpending)
      × (t.events ≡ s.events ++ Event.notify i ∷ [])

  created_lem :
      (seq err : ℕ) (t : DThread) (z : State)
      → r.frame ≡ Msg.created seq err t
      → SizeOf.created ≤ r.flen
      → process_mqe r z ≡ reply_to r Op.create SizeOf.created (λ q. created_result q err t) z
  unfolding process_mqe dispatch
  created_lem seq err t z e h = ground (arith, e)

  detached_lem :
      (seq err : ℕ) (z : State)
      → r.frame ≡ Msg.detached seq err
      → SizeOf.detached ≤ r.flen
      → process_mqe r z ≡ reply_to r Op.detach SizeOf.detached (λ q. record q { reqerror = err }) z
  unfolding process_mqe dispatch
  detached_lem seq err z e h = ground (arith, e)

  canceled_lem :
      (seq err : ℕ) (z : State)
      → r.frame ≡ Msg.canceled seq err
      → SizeOf.canceled ≤ r.flen
      → process_mqe r z ≡ reply_to r Op.cancel SizeOf.canceled (λ q. record q { reqerror = err }) z
  unfolding process_mqe dispatch
  canceled_lem seq err z e h = ground (arith, e)

  joined_lem :
      (seq err : ℕ) (ret : Argret) (z : State)
      → r.frame ≡ Msg.joined seq err ret
      → SizeOf.joined ≤ r.flen
      → process_mqe r z ≡ reply_to r Op.join SizeOf.joined (λ q. joined_result q err ret) z
  unfolding process_mqe dispatch
  joined_lem seq err ret z e h = ground (arith, e)

  answered :
      (op size err : ℕ) (union : ReqUnion) (result : Request → Request)
      → Sends op
      → let p = posted i op u m s v in
        let z = process_req (app i) p in
        let q = result (sent_req (posted_req i op u m s v) p) in
        process_mqe r z ≡ reply_to r op size result z
        → xidseq_of r.frame ≡ (get_free_seq op p).0
        → SizeOf.header ≤ r.flen
        → size ≤ r.flen
        → q.reqerror ≡ err
        → q.u ≡ union
        → Result op err union
  answered op size err union result sends e x h z re ru =
      let (w, a, b, c, d) = post-collect i op u m s v sends r size result x h z in
      rw e (w, a ∙ re, b ∙ ru, c, d)

  -- A call of a thread that is ready, from its request to its result, returns the error that the
  -- reply with the number of its request carries, and in the request's union the new handle of a
  -- CREATE that has succeeded, the value of a JOIN that has asked for it, and else what was there; the
  -- thread is woken once, and the pending list is as before the call.
  pub collect-process_mqe :
      {op size err : ℕ} {frame : Msg} {union : ReqUnion}
      → Replies
          (u (ltab_at s i).req.u)
          (get_free_seq op (posted i op u m s v)).0
          op
          frame
          size
          err
          union
      → r.frame ≡ frame
      → size ≤ r.flen
      → Result op err union
  collect-process_mqe (creates t) f h =
      answered Op.create SizeOf.created 0 _ (λ q. created_result q 0 t) (inl refl)
        (created_lem _ 0 t _ f h) (ap xidseq_of f) (omega (arith, h)) h refl refl
  collect-process_mqe (creates_not err t ne) f h =
      let z : err == 0 ≡ false = ground (arith, ne) in
      answered Op.create SizeOf.created err _ (λ q. created_result q err t) (inl refl)
        (created_lem _ err t _ f h) (ap xidseq_of f) (omega (arith, h)) h (rw z refl) (rw z refl)
  collect-process_mqe (detaches err) f h =
      answered Op.detach SizeOf.detached err _ (λ q. record q { reqerror = err }) (inr (inl refl))
        (detached_lem _ err _ f h) (ap xidseq_of f) (omega (arith, h)) h refl refl
  collect-process_mqe (cancels err) f h =
      answered Op.cancel SizeOf.canceled err _ (λ q. record q { reqerror = err })
        (inr (inr (inl refl))) (canceled_lem _ err _ f h) (ap xidseq_of f) (omega (arith, h)) h refl
        refl
  collect-process_mqe (joins err old ret e) f h =
      answered Op.join SizeOf.joined err _ (λ q. joined_result q err ret) (inr (inr (inr refl)))
        (joined_lem _ err ret _ f h) (ap xidseq_of f) (omega (arith, h)) h refl
        (ap (λ x. joined_union x ret) e)
  collect-process_mqe (joins_only err ret e) f h =
      answered Op.join SizeOf.joined err _ (λ q. joined_result q err ret) (inr (inr (inr refl)))
        (joined_lem _ err ret _ f h) (ap xidseq_of f) (omega (arith, h)) h refl
        (ap (λ x. joined_union x ret) e)
