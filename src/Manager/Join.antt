-- ===== src/Manager/Join.antt =====
-- `join_thread` and `terminated_thread` of libdthread/dt_mgrthread.c: a JOIN and the end of the
-- thread that it waits for.
use dthread.Base.{
  ℕ, ◌≡◌, ◌<◌, refl, true, false, none, some, List, [], ◌∷◌, ◌++◌, arith, length, get_or, set, ap,
  get_or-set_self, length-set, ◌-◌, ◌∙◌,
}
use dthread.Types.{DThread, Mqe, Request, ReqRef, internal_req}
use dthread.Types.Errno
use dthread.Queuing.{
  req_alloc, mqe_alloc, mqe_unalloc, recv_release, req_release_internal, send_enqueue, recv_enqueue,
}
use dthread.Manager.State.{
  State, Gtab, Ltab, Event, gtab_at, gtab_zero, need_finalstate, alloc_req, alloc_mqe, send_or_drop,
  release_mqe, req_release, later,
}
use dthread.Manager.Pending.{joinwait_search, waits_for}
use dthread.Manager.Pending.Search.{take_first-append}
use dthread.Manager.Tables.{gtab_free, gtab_give, dt2gtab}
use dthread.Manager.Replies.{send_joined, joinwait_end_release}
use dthread.Manager.Handlers.{
  join_wait, join_valid, join_thread, joinwait_req, joined_msg, argret_none, terminated_zombie,
  terminated_waiter, terminated_alone, terminated_thread,
}

-- The handle names a thread that has not ended, that is not detached and that nobody waits for.
pub record Joinable (t : DThread) (s : State) : Type 0 where
  pub size : length s.gtab ≡ s.nmaxthread
  pub valid : dt2gtab t s ≡ some t.dt_index
  pub joinable : (gtab_at s t.dt_index).detached ≡ false
  pub running : need_finalstate (gtab_at s t.dt_index).terminated ≡ true
  pub no_waiter : joinwait_search t s ≡ none

-- what others see of a state: the tables, the counts, the pending list, the queues and the calls
abbrev pub visible :
    State → List Gtab × List Ltab × ℕ × ℕ × List ReqRef × List Mqe × List Mqe × List Event
visible s = (
  s.gtab, s.ltab, s.threads_alloc, s.threads_running, s.rpending, s.dtq.mpirecvq, s.dtq.mpisendq,
  s.events,
)

visible-send_or_drop :
    (m : Mqe) (u z : State)
    → visible u ≡ visible z
    → u.mpi_rank ≡ z.mpi_rank
    → u.dtq.mpisq_draindown ≡ z.dtq.mpisq_draindown
    → visible (send_or_drop m u) ≡ visible (send_or_drop m z)
unfolding send_or_drop send_enqueue recv_enqueue mqe_unalloc
visible-send_or_drop m u z e r d = ground arith

visible-gtab_free :
    (i : ℕ) (q : Request) (u z : State)
    → visible u ≡ visible z
    → visible (gtab_free i (req_release (internal_req q) true u)) ≡ visible (gtab_free i z)
unfolding gtab_free gtab_give req_release req_release_internal
visible-gtab_free i q u z e = ground arith

free_after : (s : State) → (alloc_req s).1.dtq.mqefree ≡ s.dtq.mqefree
unfolding alloc_req req_alloc
free_after s = ground arith

visible-alloc_req : (s : State) → visible (alloc_req s).1 ≡ visible s
unfolding alloc_req req_alloc
visible-alloc_req s = ground arith

draindown-alloc_req : (s : State) → (alloc_req s).1.dtq.mpisq_draindown ≡ s.dtq.mpisq_draindown
unfolding alloc_req req_alloc
draindown-alloc_req s = ground arith

-- the state in which the request `r` waits for the thread
abbrev waiting : Mqe → ℕ → DThread → Request → State → State
waiting m xid t r s = release_mqe m (record (alloc_req s).1 {
  rpending = s.rpending ++ (internal_req (joinwait_req r m xid t) ∷ []);
})

module _ (m : Mqe) (xid : ℕ) (t : DThread) (s : State) (v : Joinable t s) where
  join_thread-waits :
      (r : Request) → (alloc_req s).0 ≡ some r → join_thread m xid t s ≡ waiting m xid t r s
  unfolding join_thread join_valid join_wait alloc_req
  join_thread-waits r e = ground (arith, v.valid, v.joinable, v.running, v.no_waiter, e)

  waiting-found :
      (r : Request) (u : State)
      → u.rpending ≡ s.rpending ++ internal_req (joinwait_req r m xid t) ∷ []
      → u.ltab ≡ s.ltab
      → joinwait_search t u ≡ some (internal_req (joinwait_req r m xid t), s.rpending)
  unfolding joinwait_search
  waiting-found r u p l =
      rw (p, l) (take_first-append (waits_for s.ltab t) s.rpending _ v.no_waiter (ground arith))

  waiting-refuses :
      (m' : Mqe) (xid' : ℕ) (r : Request)
      → (alloc_req s).0 ≡ some r
      → join_thread m' xid' t (waiting m xid t r s)
        ≡ send_or_drop (joined_msg m' xid' Errno.einval argret_none) (waiting m xid t r s)
  unfolding join_thread join_valid dt2gtab alloc_req release_mqe
  waiting-refuses m' xid' r e =
      let f = waiting-found r (waiting m xid t r s) refl refl in
      ground (arith, v.valid, v.joinable, v.running, f)

  -- A second JOIN of a thread that a first one waits for is answered with EINVAL; the first goes on
  -- waiting, and nothing else changes.
  pub join_thread-twice :
      (m' : Mqe) (xid' : ℕ) (r : Request)
      → (alloc_req s).0 ≡ some r
      → join_thread m' xid' t (join_thread m xid t s)
        ≡ send_or_drop (joined_msg m' xid' Errno.einval argret_none) (join_thread m xid t s)
  join_thread-twice m' xid' r e = rw (join_thread-waits r e) (waiting-refuses m' xid' r e)

  -- the thread's entry once it has ended and is given back
  abbrev ended : ℕ → Gtab
  ended fin = record (gtab_at s t.dt_index) { terminated = fin; has_ltab = false }

  in_range : t.dt_index < length s.gtab
  unfolding dt2gtab
  in_range = ground (arith, v.valid, v.size)

  ended-at : (fin : ℕ) → get_or (set s.gtab t.dt_index (ended fin)) t.dt_index gtab_zero ≡ ended fin
  ended-at fin = get_or-set_self s.gtab t.dt_index (ended fin) gtab_zero in_range

  -- The slot of the thread is free, and the value has gone to the one who asked, as far as it can.
  abbrev pub Answered : ℕ → State → Type 0
  Answered fin u =
      ((gtab_at u t.dt_index).allocated ≡ false)
      × (u.threads_alloc ≡ s.threads_alloc - 1)
      × (u.rpending ≡ s.rpending)
      × (u.dtq
          ≡ (send_or_drop (joined_msg m xid 0 (gtab_at s t.dt_index).ret)
              (terminated_zombie t.dt_index fin s)).dtq)

  early_lem :
      (fin : ℕ) (r : Request)
      → terminated_thread t fin (waiting m xid t r s)
        ≡ terminated_waiter t.dt_index
            (joinwait_req r m xid t)
            (record (terminated_zombie t.dt_index fin (waiting m xid t r s)) {
              rpending = s.rpending;
            })
  unfolding terminated_thread terminated_zombie alloc_req release_mqe
  early_lem fin r =
      let f = waiting-found r (terminated_zombie t.dt_index fin (waiting m xid t r s)) refl refl in
      ground (arith, f)

  late_lem :
      (fin : ℕ)
      → need_finalstate fin ≡ false
      → join_thread m xid t (terminated_thread t fin s)
        ≡ gtab_free t.dt_index (
            send_or_drop
              (joined_msg m xid 0 (gtab_at s t.dt_index).ret)
              (terminated_zombie t.dt_index fin s))
  unfolding join_thread join_valid terminated_thread terminated_alone terminated_zombie dt2gtab
      joinwait_search
  late_lem fin h = ground (arith, v.valid, v.joinable, v.no_waiter, ended-at fin)

  answered :
      (fin : ℕ) (r : Request) (u : State)
      → u.gtab ≡ set s.gtab t.dt_index (ended fin)
      → u.dtq.mqefree ≡ m ∷ s.dtq.mqefree
      → terminated_waiter t.dt_index (joinwait_req r m xid t) u
        ≡ gtab_free t.dt_index (
            req_release (internal_req (joinwait_req r m xid t)) true (
              send_or_drop
                (joined_msg m xid 0 (gtab_at s t.dt_index).ret)
                (record u { dtq = record (u.dtq) { mqefree = s.dtq.mqefree }; mem = later u.mem })))
  unfolding terminated_waiter joinwait_end_release send_joined alloc_mqe mqe_alloc
  answered fin r u g f = ground (arith, ended-at fin, v.joinable)

  -- what the end of the thread leaves in the slot
  zombie-at :
      (fin : ℕ)
      → let z =
          send_or_drop
            (joined_msg m xid 0 (gtab_at s t.dt_index).ret)
            (terminated_zombie t.dt_index fin s) in
        (z.gtab ≡ set s.gtab t.dt_index (ended fin))
        × (z.rpending ≡ s.rpending)
        × (z.threads_alloc ≡ s.threads_alloc)
  unfolding terminated_zombie send_or_drop
  zombie-at fin = ground arith

  freed :
      (fin : ℕ) (z : State)
      → z.gtab ≡ set s.gtab t.dt_index (ended fin)
      → ((gtab_at (gtab_free t.dt_index z) t.dt_index).allocated ≡ false)
        × ((gtab_free t.dt_index z).threads_alloc ≡ z.threads_alloc - 1)
        × ((gtab_free t.dt_index z).rpending ≡ z.rpending)
        × ((gtab_free t.dt_index z).dtq ≡ z.dtq)
  unfolding gtab_free gtab_give dt2gtab
  freed fin z g =
      let n : t.dt_index < length z.gtab =
        omega (arith, in_range, ap length g, length-set s.gtab t.dt_index (ended fin)) in
      let at = ap (λ (x : List Gtab). get_or x t.dt_index gtab_zero) g ∙ ended-at fin in
      let back = record (ended fin) { allocated = false; seq = 0; has_ltab = false } in
      let e = get_or-set_self z.gtab t.dt_index back gtab_zero n in ground (arith, v.valid, at, e)

  late-Answered :
      (fin : ℕ)
      → need_finalstate fin ≡ false
      → Answered fin (join_thread m xid t (terminated_thread t fin s))
  late-Answered fin h =
      let z =
        send_or_drop (joined_msg m xid 0 (gtab_at s t.dt_index).ret)
          (terminated_zombie t.dt_index fin s) in
      let (g, p, n) = zombie-at fin in
      let (f, n', p', d) = freed fin z g in
      rw (late_lem fin h) (f, n' ∙ ap (λ x. x - 1) n, p' ∙ p, d)

  same :
      (fin : ℕ) (r : Request)
      → need_finalstate fin ≡ false
      → (alloc_req s).0 ≡ some r
      → visible (terminated_thread t fin (join_thread m xid t s))
        ≡ visible (join_thread m xid t (terminated_thread t fin s))
  unfolding terminated_zombie alloc_req req_alloc release_mqe recv_release
  same fin r h e =
      rw
        (
          join_thread-waits r e,
          early_lem fin r,
          late_lem fin h,
          answered fin r
              (record (terminated_zombie t.dt_index fin (waiting m xid t r s)) {
                rpending = s.rpending;
              })
              refl (ap (◌∷◌ m) (free_after s)),
        )
        (visible-gtab_free _ _ _ _ (
          visible-send_or_drop _ _ _ (ground (arith, visible-alloc_req s)) refl
            (draindown-alloc_req s)))

  -- If an internal request can be had, it does not matter whether a JOIN arrives while the thread
  -- runs or after it has ended: the states are the same to others. The slot is free, the count one
  -- less, the pending list as it was, and the queues are those after `send_or_drop` of one JOINED
  -- message with no error and the value of the thread (which a drain of the send queue drops).
  pub join_thread-terminated_thread :
      (fin : ℕ) (r : Request)
      → need_finalstate fin ≡ false
      → (alloc_req s).0 ≡ some r
      → let late = join_thread m xid t (terminated_thread t fin s) in
        (visible (terminated_thread t fin (join_thread m xid t s)) ≡ visible late)
        × Answered fin late
  join_thread-terminated_thread fin r h e = (same fin r h e, late-Answered fin h)
