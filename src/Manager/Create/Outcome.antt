-- ===== src/Manager/Create/Outcome.antt =====
-- What `create_thread` of libdthread/dt_mgrthread.c leaves behind: a thread that is starting, or
-- nothing.
use dthread.Base.{
  ℕ, ◌+◌, ◌≡◌, ◌≢◌, ◌<◌, ◌⊎◌, inl, inr, ap, ◌∙◌, sym, true, false, List, [], ◌∷◌, ◌++◌, arith,
  get_or, length, count_if,
}
use dthread.Types.{Mqe, Request, ReqRef, ReqUnion, internal_req}
use dthread.Types.Op
use dthread.Queuing
use dthread.Queuing.{int_incr, dd_init, send_enqueue, mqe_unalloc}
use dthread.Manager.State.{State, Gtab, gtab_at, gtab_zero, alloc_mqe, alloc_req, send_or_drop}
use dthread.Manager.Tables.Global.{GtabInv, is_allocated}
use dthread.Manager.Replies.{send_created_error}

-- No thread has come or gone, no slot in use has changed, and no request is pending that was not.
pub record Refused (s t : State) : Type 0 where
  pub slots : (j : ℕ) → (gtab_at t j).allocated ≡ (gtab_at s j).allocated
  pub kept_used : (j : ℕ) → (gtab_at s j).allocated ≡ true → gtab_at t j ≡ gtab_at s j
  pub alloc : t.threads_alloc ≡ s.threads_alloc
  pub starting : t.threads_starting ≡ s.threads_starting
  pub pending : t.rpending ≡ s.rpending

-- A thread that was not there starts in the slot `p` on the rank whose turn it was, and a START
-- request waits that knows whom to tell.
pub record Accepted (m : Mqe) (xid target : ℕ) (s t : State) (p : ℕ) : Type 0 where
  pub in_range : p < s.nmaxthread
  pub was_free : (gtab_at s p).allocated ≡ false
  pub used : (gtab_at t p).allocated ≡ true
  pub on_rank : (gtab_at t p).rank ≡ target
  pub others : (j : ℕ) → p ≢ j → gtab_at t j ≡ gtab_at s j
  pub alloc : t.threads_alloc ≡ s.threads_alloc + 1
  pub starting : t.threads_starting ≡ int_incr s.threads_starting
  pub req : Request
  pub pending : t.rpending ≡ s.rpending ++ internal_req req ∷ []
  pub req_op : req.reqop ≡ Op.start
  pub req_peer : req.reqpeer ≡ target
  pub creinfo :
      req.u ≡ ReqUnion.creinfo (record { dt_index = p; dt_seq = (gtab_at t p).seq }) m.peer xid

abbrev pub Kept : Type 0
Kept = List Gtab × ℕ × ℕ × ℕ × List ReqRef × ℕ × ℕ

-- the parts of the state that these steps are about
abbrev pub kept : State → Kept
kept s = (
  s.gtab, s.threads_alloc, s.threads_starting, s.nmaxthread, s.rpending, s.last_slot,
  s.dtq.mpisq_draindown,
)

pub send_created_error-kept :
    (m : Mqe) (xid err : ℕ) (s : State) → kept (send_created_error m xid err s) ≡ kept s
unfolding send_created_error alloc_mqe send_or_drop Queuing.mqe_alloc Queuing.send_enqueue
    mqe_unalloc Queuing.recv_enqueue
send_created_error-kept m xid err s = ground arith

pub alloc_mqe-kept : (s : State) → kept (alloc_mqe s).1 ≡ kept s
unfolding alloc_mqe Queuing.mqe_alloc
alloc_mqe-kept s = ground arith

pub alloc_req-kept : (s : State) → kept (alloc_req s).1 ≡ kept s
unfolding alloc_req Queuing.req_alloc
alloc_req-kept s = ground arith

pub Refused-kept : (s t : State) → kept t ≡ kept s → Refused s t
Refused-kept s t e = record {
  slots = λ j. ap (λ (x : Kept). (get_or x.0 j gtab_zero).allocated) e;
  kept_used = λ j u. ap (λ (x : Kept). get_or x.0 j gtab_zero) e;
  alloc = ground arith;
  starting = ground arith;
  pending = ground arith;
}

abbrev pub Outcome : Mqe → ℕ → ℕ → State → State → Type 0
Outcome m xid target s t = Refused s t ⊎ ((p : ℕ) × Accepted m xid target s t p)

-- The two states agree on what an outcome is about.
pub Refused-from : (b w t : State) → kept w ≡ kept b → Refused w t → Refused b t
Refused-from b w t k o = record {
  slots = λ j. o.slots j ∙ ap (λ (x : Kept). (get_or x.0 j gtab_zero).allocated) k;
  kept_used = λ j u.
      let at = ap (λ (x : Kept). get_or x.0 j gtab_zero) k in
      o.kept_used j (ap (λ (x : Gtab). x.allocated) at ∙ u) ∙ at;
  alloc = o.alloc ∙ ap (λ (x : Kept). x.1) k;
  starting = o.starting ∙ ap (λ (x : Kept). x.2) k;
  pending = o.pending ∙ ap (λ (x : Kept). x.4) k;
}

pub GtabInv-kept : (b w : State) → kept w ≡ kept b → GtabInv b → GtabInv w
GtabInv-kept b w k v = record {
  size = ap (λ (x : Kept). length x.0) k ∙ v.size ∙ sym (ap (λ (x : Kept). x.3) k);
  counted =
      ap (λ (x : Kept). x.1) k ∙ v.counted ∙ sym (ap (λ (x : Kept). count_if is_allocated x.0) k);
  last_in = ground (arith, v.last_in);
}

module _ (m : Mqe) (xid : ℕ) (target : ℕ) (b w t : State) where
  Accepted-from :
      (p : ℕ) → kept w ≡ kept b → Accepted m xid target w t p → Accepted m xid target b t p
  Accepted-from p k o =
      let at = λ (j : ℕ). ap (λ (x : Kept). get_or x.0 j gtab_zero) k in
      record {
        in_range = ground (arith, o.in_range);
        was_free = ap (λ (x : Gtab). x.allocated) (sym (at p)) ∙ o.was_free;
        used = o.used;
        on_rank = o.on_rank;
        others = λ j ne. o.others j ne ∙ at j;
        alloc = o.alloc ∙ ap (λ (x : Kept). x.1 + 1) k;
        starting = o.starting ∙ ap (λ (x : Kept). int_incr x.2) k;
        req = o.req;
        pending = o.pending ∙ ap (λ (x : Kept). x.4 ++ internal_req o.req ∷ []) k;
        req_op = o.req_op;
        req_peer = o.req_peer;
        creinfo = o.creinfo;
      }

  pub Outcome-from : kept w ≡ kept b → Outcome m xid target w t → Outcome m xid target b t
  Outcome-from k (inl o) = inl (Refused-from b w t k o)
  Outcome-from k (inr (p, o)) = inr (p, Accepted-from p k o)
