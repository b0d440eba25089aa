-- ===== src/Manager/Create/Thread.antt =====
-- `create_thread` of libdthread/dt_mgrthread.c as a whole: what each way through it leaves.
use dthread.Base.{
  ℕ, ◌+◌, ◌%◌, ◌≡◌, ◌≢◌, ◌<◌, ◌⊎◌, inl, inr, refl, sym, Option-cases, ◌≤◌, none, some, arith,
  Bool-cases, ◌==◌, leb, ◌||◌, subst,
}
use dthread.Types.{Argret, Attrs, Mqe, Request}
use dthread.Queuing
use dthread.Queuing.{dd_init, send_enqueue, mqe_unalloc}
use dthread.Manager.State.{State, alloc_mqe, alloc_req, req_release}
use dthread.Manager.Pending.{get_free_seq}
use dthread.Manager.Tables.{gtab_alloc, gtab_take}
use dthread.Manager.Tables.Global.{GtabInv, gtab_alloc_lem}
use dthread.Manager.Create.{create_send, create_slot, create_mqe, create_req, create_thread}
use dthread.Manager.Create.Outcome.{
  Outcome, kept, send_created_error-kept, alloc_mqe-kept, alloc_req-kept, Refused-kept,
  Outcome-from, GtabInv-kept,
}
use dthread.Manager.Create.Send.{create_send-Outcome}

gtab_alloc-kept :
    (target disp : ℕ) (arg : Argret) (s : State) (p : ℕ)
    → (gtab_alloc target disp arg s).0 ≡ some p
    → let w = (gtab_alloc target disp arg s).1 in
      (w.nmaxthread ≡ s.nmaxthread)
      × (w.threads_alloc ≡ s.threads_alloc + 1)
      × (w.threads_starting ≡ s.threads_starting)
      × (w.rpending ≡ s.rpending)
unfolding gtab_alloc gtab_take get_free_seq
gtab_alloc-kept target disp arg s p e = ground arith

module _ (m : Mqe) (xid : ℕ) (attrs : Attrs) (disp : ℕ) (arg : Argret) (target : ℕ) where
  create_slot-full :
      (r : Request) (e : Mqe) (s : State)
      → gtab_alloc target disp arg s ≡ (none, s)
      → kept (create_slot m xid attrs disp arg target r e s) ≡ kept s
  unfolding create_slot req_release mqe_unalloc Queuing.req_release_internal
  create_slot-full r e s f = grind (arith, send_created_error-kept)

  create_slot-found :
      (r : Request) (e : Mqe) (s : State) (p : ℕ)
      → (gtab_alloc target disp arg s).0 ≡ some p
      → Outcome m xid target s
          (create_send m xid attrs target r e p (gtab_alloc target disp arg s).1)
      → Outcome m xid target s (create_slot m xid attrs disp arg target r e s)
  unfolding create_slot
  create_slot-found r e s p f o =
      let eq : create_slot m xid attrs disp arg target r e s
          ≡ create_send m xid attrs target r e p (gtab_alloc target disp arg s).1 =
        ground (arith, f) in
      subst (λ t. Outcome m xid target s t) (sym eq) o

  create_slot-Outcome :
      (r : Request) (e : Mqe) (s : State)
      → GtabInv s
      → Outcome m xid target s (create_slot m xid attrs disp arg target r e s)
  create_slot-Outcome r e s v = elim (gtab_alloc_lem target disp arg s v) [
    | inl (full, f) ↦ inl (Refused-kept s _ (create_slot-full r e s f))
    | inr (p, f, a) ↦
        let (nm, n, st, pe) = gtab_alloc-kept target disp arg s p f in
        create_slot-found r e s p f (
          create_send-Outcome m xid attrs disp arg target r e s (gtab_alloc target disp arg s).1 p a
            nm n st pe)
  ]

  Outcome-eq : (s t t' : State) → t' ≡ t → Outcome m xid target s t → Outcome m xid target s t'
  Outcome-eq s t t' e o = subst (λ x. Outcome m xid target s x) (sym e) o

  create_mqe-none :
      (r : Request) (s : State)
      → (alloc_mqe s).0 ≡ none
      → kept (create_mqe m xid attrs disp arg target r s) ≡ kept s
  unfolding create_mqe req_release Queuing.req_release_internal
  create_mqe-none r s e = grind (arith, send_created_error-kept, alloc_mqe-kept)

  create_mqe-some :
      (r : Request) (s : State) (q : Mqe)
      → (alloc_mqe s).0 ≡ some q
      → create_mqe m xid attrs disp arg target r s
        ≡ create_slot m xid attrs disp arg target r q (alloc_mqe s).1
  unfolding create_mqe
  create_mqe-some r s q e = ground (arith, e)

  create_mqe-Outcome :
      (r : Request) (s : State)
      → GtabInv s
      → Outcome m xid target s (create_mqe m xid attrs disp arg target r s)
  create_mqe-Outcome r s v = elim (Option-cases (alloc_mqe s).0) [
    | inl e ↦ inl (Refused-kept s _ (create_mqe-none r s e))
    | inr (q, e) ↦
        let k = alloc_mqe-kept s in
        Outcome-eq s _ _ (create_mqe-some r s q e) (
          Outcome-from m xid target s (alloc_mqe s).1 _ k
            (create_slot-Outcome r q (alloc_mqe s).1 (GtabInv-kept s (alloc_mqe s).1 k v)))
  ]

  create_req-none :
      (s : State)
      → (alloc_req s).0 ≡ none
      → kept (create_req m xid attrs disp arg target s) ≡ kept s
  unfolding create_req
  create_req-none s e = grind (arith, send_created_error-kept, alloc_req-kept)

  create_req-some :
      (s : State) (r : Request)
      → (alloc_req s).0 ≡ some r
      → create_req m xid attrs disp arg target s
        ≡ create_mqe m xid attrs disp arg target r (alloc_req s).1
  unfolding create_req
  create_req-some s r e = ground (arith, e)

  create_req-Outcome :
      (s : State) → GtabInv s → Outcome m xid target s (create_req m xid attrs disp arg target s)
  create_req-Outcome s v = elim (Option-cases (alloc_req s).0) [
    | inl e ↦ inl (Refused-kept s _ (create_req-none s e))
    | inr (r, e) ↦
        let k = alloc_req-kept s in
        Outcome-eq s _ _ (create_req-some s r e) (
          Outcome-from m xid target s (alloc_req s).1 _ k
            (create_mqe-Outcome r (alloc_req s).1 (GtabInv-kept s (alloc_req s).1 k v)))
  ]

create_thread-error :
    (m : Mqe) (xid : ℕ) (attrs : Attrs) (disp : ℕ) (arg : Argret) (s : State)
    → ((disp ≡ 0) ⊎ (s.ndsps ≤ disp)) ⊎ (s.nmaxthread ≤ s.threads_alloc)
    → kept (create_thread m xid attrs disp arg s) ≡ kept s
unfolding create_thread
create_thread-error m xid attrs disp arg s h = grind (arith, send_created_error-kept)

create_thread-valid :
    (m : Mqe) (xid : ℕ) (attrs : Attrs) (disp : ℕ) (arg : Argret) (s : State)
    → disp ≢ 0
    → disp < s.ndsps
    → s.threads_alloc < s.nmaxthread
    → create_thread m xid attrs disp arg s
      ≡ create_req m xid attrs disp arg s.next_rank
          (record s { next_rank = (s.next_rank + 1) % s.mpi_wsize })
unfolding create_thread
create_thread-valid m xid attrs disp arg s ne lt room = ground arith

-- If `threads_alloc` is the number of slots in use, a CREATE message does one of two things. In all
-- error cases each slot is in use or free as before, a slot in use keeps its contents, and the counts
-- and the pending requests are as before; a free slot may be left with other contents. Or a free slot
-- is set up for a thread on the rank whose turn it is, the counts grow by one, no other slot is
-- touched, and a START request is pending that keeps the new handle, the sender and the sender's
-- number.
pub create_thread-Outcome :
    (m : Mqe) (xid : ℕ) (attrs : Attrs) (disp : ℕ) (arg : Argret) (s : State)
    → GtabInv s
    → Outcome m xid s.next_rank s (create_thread m xid attrs disp arg s)
create_thread-Outcome m xid attrs disp arg s v =
    elim (Bool-cases (disp == 0 || leb s.ndsps disp || leb s.nmaxthread s.threads_alloc)) [
      | inl e ↦ inl (Refused-kept s _ (create_thread-error m xid attrs disp arg s (ground arith)))
      | inr e ↦
          let b = record s { next_rank = (s.next_rank + 1) % s.mpi_wsize } in
          Outcome-eq m xid attrs disp arg s.next_rank s _ _
            (create_thread-valid m xid attrs disp arg s (ground arith) (ground arith)
              (ground arith))
            (Outcome-from m xid s.next_rank s b _ refl
              (create_req-Outcome m xid attrs disp arg s.next_rank b (GtabInv-kept s b refl v)))
    ]
