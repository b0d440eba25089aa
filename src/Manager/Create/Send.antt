-- ===== src/Manager/Create/Send.antt =====
-- `create_send`: a slot that `gtab_alloc` has set up is given back, or its thread is started
-- (`create_thread` of libdthread/dt_mgrthread.c).
use dthread.Base.{
  ℕ, ◌+◌, ◌≡◌, ◌≢◌, inl, inr, refl, ap, ◌∙◌, sym, true, false, List, [], ◌∷◌, ◌++◌, arith,
  Bool-cases, ◌==◌, get_or,
}
use dthread.Types.{Argret, Attrs, Mqe, Request, ReqUnion, internal_req}
use dthread.Types.Op
use dthread.Queuing
use dthread.Queuing.{int_incr, dd_init, send_enqueue, mqe_unalloc}
use dthread.Manager.State.{State, Gtab, gtab_at, gtab_zero, req_release}
use dthread.Manager.Pending.{get_free_seq}
use dthread.Manager.Tables.{gtab_give, gtab_free}
use dthread.Manager.Tables.Global.{Allocated, Freed, gtab_free-Freed}
use dthread.Manager.Create.{start_req, create_send}
use dthread.Manager.Create.Outcome.{Refused, Accepted, Outcome, Kept, kept, send_created_error-kept}

-- A slot is set up and given back again.
module _ (target disp : ℕ) (arg : Argret) (b w : State) (p : ℕ)
    (a : Allocated target disp arg b w p) where
  slots_back :
      (t : State) → Freed w t p → (j : ℕ) → (gtab_at t j).allocated ≡ (gtab_at b j).allocated
  slots_back t f j = elim (Bool-cases (p == j)) [
    | inl e ↦
        let q : p ≡ j = ground arith in
        ap (λ x. (gtab_at t x).allocated) (sym q)
        ∙ f.free
        ∙ sym a.was_free
        ∙ ap (λ x. (gtab_at b x).allocated) q
    | inr e ↦
        let ne : p ≢ j = λ q. ground arith in
        ap (λ (g : Gtab). g.allocated) (f.others j ne ∙ a.others j ne)
  ]

  used_back :
      (t : State)
      → Freed w t p
      → (j : ℕ) → (gtab_at b j).allocated ≡ true
      → gtab_at t j ≡ gtab_at b j
  used_back t f j u =
      let ne : p ≢ j = λ q.
        (let z : false ≡ true = sym a.was_free ∙ ap (λ x. (gtab_at b x).allocated) q ∙ u in cc) in
      f.others j ne ∙ a.others j ne

  given_back :
      (t : State)
      → w.nmaxthread ≡ b.nmaxthread
      → w.threads_alloc ≡ b.threads_alloc + 1
      → w.threads_starting ≡ b.threads_starting
      → w.rpending ≡ b.rpending
      → kept t ≡ kept (gtab_free p w)
      → Refused b t
  unfolding gtab_free gtab_give
  given_back t nm n st pe k =
      let f = gtab_free-Freed p w a.inv (omega (arith, a.in_range)) in
      record {
        slots = λ j.
            ap (λ (x : Kept). (get_or x.0 j gtab_zero).allocated) k
            ∙ slots_back (gtab_free p w) f j;
        kept_used =
            λ j u. ap (λ (x : Kept). get_or x.0 j gtab_zero) k ∙ used_back (gtab_free p w) f j u;
        alloc = ground (arith, a.entry);
        starting = ground arith;
        pending = ground arith;
      }

module _ (m : Mqe) (xid : ℕ) (attrs : Attrs) (disp : ℕ) (arg : Argret) (target : ℕ) (r : Request)
    (e : Mqe) where
  -- the request as `create_send` queues it
  abbrev queued : ℕ → State → Request
  queued p w = start_req w r (get_free_seq Op.start w).0 p target m.peer xid

  create_send-sent :
      (p : ℕ) (w : State)
      → w.dtq.mpisq_draindown ≡ dd_init
      → let t = create_send m xid attrs target r e p w in
        (t.gtab ≡ w.gtab)
        × (t.threads_alloc ≡ w.threads_alloc)
        × (t.threads_starting ≡ int_incr w.threads_starting)
        × (t.rpending ≡ w.rpending ++ internal_req (queued p w) ∷ [])
  unfolding create_send send_enqueue get_free_seq
  create_send-sent p w d = ground arith

  create_send-unsent :
      (p : ℕ) (w : State)
      → w.dtq.mpisq_draindown ≢ dd_init
      → kept (create_send m xid attrs target r e p w) ≡ kept (gtab_free p w)
  unfolding create_send send_enqueue get_free_seq req_release mqe_unalloc gtab_free gtab_give
      Queuing.req_release_internal
  create_send-unsent p w d = grind (arith, send_created_error-kept)

  create_send-Accepted :
      (b w : State) (p : ℕ)
      → Allocated target disp arg b w p
      → w.threads_alloc ≡ b.threads_alloc + 1
      → w.threads_starting ≡ b.threads_starting
      → w.rpending ≡ b.rpending
      → w.dtq.mpisq_draindown ≡ dd_init
      → Accepted m xid target b (create_send m xid attrs target r e p w) p
  create_send-Accepted b w p a n st pe d =
      let (g, al, sta, pen) = create_send-sent p w d in
      let at = λ (j : ℕ). ap (λ (x : List Gtab). get_or x j gtab_zero) g in
      record {
        in_range = a.in_range;
        was_free = a.was_free;
        used = ap (λ (x : Gtab). x.allocated) (at p ∙ a.entry);
        on_rank = ap (λ (x : Gtab). x.rank) (at p ∙ a.entry);
        others = λ j ne. at j ∙ a.others j ne;
        alloc = al ∙ n;
        starting = sta ∙ ap int_incr st;
        req = queued p w;
        pending = pen ∙ ap (λ x. x ++ internal_req (queued p w) ∷ []) pe;
        req_op = refl;
        req_peer = refl;
        creinfo =
            ap (λ (x : Gtab). ReqUnion.creinfo (record { dt_index = p; dt_seq = x.seq }) m.peer xid)
              (sym (at p));
      }

  pub create_send-Outcome :
      (b w : State) (p : ℕ)
      → Allocated target disp arg b w p
      → w.nmaxthread ≡ b.nmaxthread
      → w.threads_alloc ≡ b.threads_alloc + 1
      → w.threads_starting ≡ b.threads_starting
      → w.rpending ≡ b.rpending
      → Outcome m xid target b (create_send m xid attrs target r e p w)
  create_send-Outcome b w p a nm n st pe = elim (Bool-cases (w.dtq.mpisq_draindown == dd_init)) [
    | inl d ↦ inr (p, create_send-Accepted b w p a n st pe (ground arith))
    | inr d ↦ inl (
        given_back target disp arg b w p a _ nm n st pe
          (create_send-unsent p w (λ x. ground arith)))
  ]
