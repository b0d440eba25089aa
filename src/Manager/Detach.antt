-- ===== src/Manager/Detach.antt =====
-- `detach_thread` of libdthread/dt_mgrthread.c with the end of the thread and with a JOIN.
use dthread.Base.{
  ℕ, ◌-◌, ◌≡◌, ◌<◌, ◌∙◌, refl, ap, true, false, none, some, List, arith, length, get_or, set,
  get_or-set_self, length-set,
}
use dthread.Types.{DThread, Msg, Mqe}
use dthread.Types.Errno
use dthread.Types.SizeOf
use dthread.Manager.State.{State, Gtab, gtab_at, gtab_zero, send_or_drop}
use dthread.Manager.Pending.{joinwait_search}
use dthread.Manager.Tables.{dt2gtab, gtab_free, gtab_give}
use dthread.Manager.Replies.{recycle, detached_ret_cleanup}
use dthread.Manager.Handlers.{
  detach_thread, detach_found, join_thread, join_valid, joined_msg, argret_none, terminated_thread,
  terminated_zombie, terminated_alone,
}

-- The handle is valid and nobody waits for its thread.
pub record Unwaited (t : DThread) (s : State) : Type 0 where
  pub size : length s.gtab ≡ s.nmaxthread
  pub valid : dt2gtab t s ≡ some t.dt_index
  pub no_waiter : joinwait_search t s ≡ none

-- The states that JOIN and DETACH messages for the thread lead to.
pub data Asks (t : DThread) (d : State) : State → Type 0 where
  start : Asks t d d
  joins : {u : State} (m : Mqe) (xid : ℕ) → Asks t d u → Asks t d (join_thread m xid t u)
  detaches : {u : State} (m : Mqe) (xid : ℕ) → Asks t d u → Asks t d (detach_thread m xid t u)

cleanup-fields :
    (i : ℕ) (u : State)
    → i < length u.gtab
    → ((gtab_at (detached_ret_cleanup i u) i).allocated ≡ (gtab_at u i).allocated)
      × (length (detached_ret_cleanup i u).gtab ≡ length u.gtab)
      × ((detached_ret_cleanup i u).threads_alloc ≡ u.threads_alloc)
unfolding detached_ret_cleanup
cleanup-fields i u n =
    let g = record (gtab_at u i) { ret = record ((gtab_at u i).ret) { argret_type = 1 } } in
    ground (arith, get_or-set_self u.gtab i g gtab_zero n, length-set u.gtab i g)

gtab_free-fields :
    (i : ℕ) (u : State)
    → i < length u.gtab
    → (gtab_at u i).allocated ≡ true
    → ((gtab_at (gtab_free i u) i).allocated ≡ false)
      × ((gtab_free i u).threads_alloc ≡ u.threads_alloc - 1)
unfolding gtab_free gtab_give
gtab_free-fields i u n e = ground (
  arith,
  get_or-set_self u.gtab i (record (gtab_at u i) { allocated = false; seq = 0; has_ltab = false })
      gtab_zero n,
)

alone_frees :
    (fin i : ℕ) (d : State)
    → i < length d.gtab
    → (gtab_at d i).detached ≡ true
    → (gtab_at d i).allocated ≡ true
    → let u = terminated_alone i (terminated_zombie i fin d) in
      ((gtab_at u i).allocated ≡ false) × (u.threads_alloc ≡ d.threads_alloc - 1)
unfolding terminated_alone terminated_zombie
alone_frees fin i d n e a =
    let z = record (gtab_at d i) { terminated = fin; has_ltab = false } in
    let u = terminated_zombie i fin d in
    let at = get_or-set_self d.gtab i z gtab_zero n in
    let nu : i < length u.gtab = omega (arith, length-set d.gtab i z) in
    let (ca, cl, cn) = cleanup-fields i u nu in
    let (fa, fn) =
      gtab_free-fields i (detached_ret_cleanup i u) (omega arith)
        (ca ∙ ap (λ (x : Gtab). x.allocated) at ∙ a) in
    ground (arith, at)

module _ (m : Mqe) (xid : ℕ) (t : DThread) (s : State) (v : Unwaited t s) where
  abbrev entry : Gtab
  entry = record (gtab_at s t.dt_index) { detached = true }

  in_range : t.dt_index < length s.gtab
  unfolding dt2gtab
  in_range = ground (arith, v.valid, v.size)

  entry-at : get_or (set s.gtab t.dt_index entry) t.dt_index gtab_zero ≡ entry
  entry-at = get_or-set_self s.gtab t.dt_index entry gtab_zero in_range

  detach_thread-fields :
      ((detach_thread m xid t s).gtab ≡ set s.gtab t.dt_index entry)
      × ((detach_thread m xid t s).nmaxthread ≡ s.nmaxthread)
      × ((detach_thread m xid t s).threads_alloc ≡ s.threads_alloc)
      × ((detach_thread m xid t s).ltab ≡ s.ltab)
      × ((detach_thread m xid t s).rpending ≡ s.rpending)
  unfolding detach_thread detach_found send_or_drop joinwait_search
  detach_thread-fields = ground (arith, v.valid, v.no_waiter)

  allocated_before : (gtab_at s t.dt_index).allocated ≡ true
  unfolding dt2gtab
  allocated_before = ground (arith, v.valid)

  still_unwaited :
      (d : State) → d.ltab ≡ s.ltab → d.rpending ≡ s.rpending → joinwait_search t d ≡ none
  unfolding joinwait_search
  still_unwaited d l p = ground (arith, v.no_waiter)

  unwaited-end :
      (fin : ℕ) (d : State)
      → joinwait_search t d ≡ none
      → terminated_thread t fin d ≡ terminated_alone t.dt_index (terminated_zombie t.dt_index fin d)
  unfolding terminated_thread terminated_zombie joinwait_search
  unwaited-end fin d e = ground (arith, e)

  -- what stays as it is from the DETACH on
  abbrev Held : State → Type 0
  Held u =
      (get_or u.gtab t.dt_index gtab_zero ≡ entry)
      × (length u.gtab ≡ s.nmaxthread)
      × (u.nmaxthread ≡ s.nmaxthread)
      × (u.threads_alloc ≡ s.threads_alloc)
      × (u.ltab ≡ s.ltab)
      × (u.rpending ≡ s.rpending)

  detach_thread-Held : Held (detach_thread m xid t s)
  detach_thread-Held =
      let (g, nm, al, l, p) = detach_thread-fields in
      (
        ap (λ (x : List Gtab). get_or x t.dt_index gtab_zero) g ∙ entry-at,
        ap length g ∙ length-set s.gtab t.dt_index entry ∙ v.size,
        nm,
        al,
        l,
        p,
      )

  sent-Held : (r : Mqe) (z : State) → Held z → Held (send_or_drop r z)
  unfolding send_or_drop
  sent-Held r z k = k

  module _ (m' : Mqe) (xid' : ℕ) (u : State) (h : Held u) where
    join_thread-refused :
        join_thread m' xid' t u ≡ send_or_drop (joined_msg m' xid' Errno.einval argret_none) u
    unfolding join_thread join_valid dt2gtab
    join_thread-refused = ground (arith, h, v.valid)

    still_valid : dt2gtab t u ≡ some t.dt_index
    unfolding dt2gtab
    still_valid = ground (arith, h, v.valid)

    abbrev marked : State
    marked = record u {
      gtab = set u.gtab t.dt_index (record (gtab_at u t.dt_index) { detached = true });
    }

    again :
        detach_thread m' xid' t u
        ≡ send_or_drop (recycle m' (Msg.detached xid' 0) SizeOf.detached) marked
    unfolding detach_thread detach_found
    again = rw (detach_thread, still_valid, detach_found, still_unwaited marked h.4 h.5) refl

    marked-Held : Held marked
    marked-Held =
        let n : t.dt_index < length u.gtab = omega (arith, h, in_range, v.size) in
        let g = record (gtab_at u t.dt_index) { detached = true } in
        (
          get_or-set_self u.gtab t.dt_index g gtab_zero n
              ∙ ap (λ (x : Gtab). record x { detached = true }) h.0,
          length-set u.gtab t.dt_index g ∙ h.1,
          h.2,
          h.3,
          h.4,
          h.5,
        )

    again-Held : Held (detach_thread m' xid' t u)
    again-Held = rw again (sent-Held _ marked marked-Held)

  Asks-Held : {u : State} → Asks t (detach_thread m xid t s) u → Held u
  Asks-Held start = detach_thread-Held
  Asks-Held (joins {u} m' xid' a) =
      let h = Asks-Held a in rw (join_thread-refused m' xid' u h) (sent-Held _ u h)
  Asks-Held (detaches {u} m' xid' a) = again-Held m' xid' u (Asks-Held a)

  -- After a DETACH of a valid handle for whose thread nobody waits, be it that the thread has ended
  -- already, and after any number of further JOIN and DETACH messages for it, the slot is still in
  -- use and counted, and a JOIN is answered with EINVAL and does nothing else.
  pub detach_thread-join_thread :
      {u : State}
      → Asks t (detach_thread m xid t s) u
      → ((gtab_at u t.dt_index).allocated ≡ true)
        × (u.threads_alloc ≡ s.threads_alloc)
        × ((m' : Mqe) (xid' : ℕ)
            → join_thread m' xid' t u
              ≡ send_or_drop (joined_msg m' xid' Errno.einval argret_none) u)
  detach_thread-join_thread {u} a =
      let h = Asks-Held a in
      (
        ap (λ (x : Gtab). x.allocated) h.0 ∙ allocated_before,
        h.3,
        λ m' xid'. join_thread-refused m' xid' u h,
      )

  -- A thread that is detached while it runs gives its slot back when it ends.
  pub detach_thread-terminated_thread :
      (fin : ℕ)
      → let d = terminated_thread t fin (detach_thread m xid t s) in
        ((gtab_at d t.dt_index).allocated ≡ false) × (d.threads_alloc ≡ s.threads_alloc - 1)
  detach_thread-terminated_thread fin =
      let d = detach_thread m xid t s in
      let (g, nm, al, l, p) = detach_thread-fields in
      let at : gtab_at d t.dt_index ≡ entry =
        ap (λ (x : List Gtab). get_or x t.dt_index gtab_zero) g ∙ entry-at in
      let n : t.dt_index < length d.gtab =
        omega (arith, ap length g, length-set s.gtab t.dt_index entry, in_range) in
      let (f, c) =
        alone_frees fin t.dt_index d n (ap (λ (x : Gtab). x.detached) at)
          (ap (λ (x : Gtab). x.allocated) at ∙ allocated_before) in
      rw (unwaited-end fin d (still_unwaited d l p)) (f, c ∙ ap (λ x. x - 1) al)
