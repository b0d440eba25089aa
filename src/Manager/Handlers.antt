-- ===== src/Manager/Handlers.antt =====
-- The handlers of libdthread/dt_mgrthread.c for the other messages: `start_thread`,
-- `detach_thread`, `cancel_thread`, `join_thread` and `terminated_thread`.
use dthread.Base.{
  ℕ, Bool, true, false, not, ◌&&◌, none, some, List, [], ◌∷◌, ◌++◌, if◌then◌else◌, ◌==◌, leb, set,
}
use dthread.Types.{DThread, Argret, argret_nodata, Msg, Mqe, Request, ReqUnion, internal_req}
use dthread.Types.Op
use dthread.Types.Errno
use dthread.Types.SizeOf
use dthread.Queuing.{int_decr}
use dthread.Manager.State.{
  State, Event, gtab_at, ltab_at, need_finalstate, lt_running, lt_canceled, req_of, later,
  alloc_mqe, alloc_req, send_or_drop, release_mqe,
}
use dthread.Manager.Pending.{joinwait_search}
use dthread.Manager.Tables.{gtab_free, ltab_alloc, ltab_free, dt2gtab}
use dthread.Manager.Replies.{recycle, joinwait_end_release, detached_ret_cleanup}

-- the next answer of `pthread_create`
abbrev next_error : List ℕ → ℕ
next_error [] = 0
next_error (e ∷ es) = e

abbrev started_msg : ℕ → ℕ → Mqe
started_msg xid err = record { frame = Msg.started xid err; flen = SizeOf.started; peer = 0 }

-- the validation of `start_thread`
abbrev pub start_ok : DThread → State → Bool
start_ok t s =
    not (leb s.nmaxthread t.dt_index)
    && t.dt_seq == (gtab_at s t.dt_index).seq
    && (gtab_at s t.dt_index).allocated
    && not ((gtab_at s t.dt_index).disp_idx == 0)
    && not (leb s.ndsps (gtab_at s t.dt_index).disp_idx)
    && not (gtab_at s t.dt_index).has_ltab

-- `pthread_create` for the slot `lidx`, and the end of `start_thread`
unfoldable pub start_pthread : ℕ → ℕ → State → State
start_pthread xid lidx s =
    let err = next_error s.pcreate in
    let s1 = record s {
      pcreate = later s.pcreate;
      events = s.events ++ (Event.pthread_create lidx ∷ []);
    } in
    send_or_drop (started_msg xid err) (if err == 0 then s1 else ltab_free lidx s1)

unfoldable pub start_ltab : ℕ → DThread → State → State
start_ltab xid t s =
    let (slot, s1) = ltab_alloc t s in
    elim slot [ none ↦ record s1 { fault = true } | some lidx ↦ start_pthread xid lidx s1 ]

-- `start_thread`; the code does not test for a full `ltab[]`.
unfoldable pub start_thread : ℕ → DThread → State → State
start_thread xid t s =
    let (o, s1) = alloc_mqe s in
    elim o [
      | none ↦ s1
      | some m ↦
          if start_ok t s1
          then start_ltab xid t s1
          else send_or_drop (started_msg xid Errno.einval) s1
    ]

unfoldable pub detach_found : Mqe → ℕ → DThread → ℕ → State → State
detach_found m xid t i s =
    let s1 = record s { gtab = set s.gtab i (record (gtab_at s i) { detached = true }) } in
    let reply = recycle m (Msg.detached xid 0) SizeOf.detached in
    elim (joinwait_search t s1) [
      | none ↦ send_or_drop reply s1
      | some (r, rest) ↦
          joinwait_end_release (record (req_of s1.ltab r) { reqerror = Errno.einval })
            (send_or_drop reply (record s1 { rpending = rest }))
    ]

-- `detach_thread`
unfoldable pub detach_thread : Mqe → ℕ → DThread → State → State
detach_thread m xid t s = elim (dt2gtab t s) [
  | none ↦ send_or_drop (recycle m (Msg.detached xid Errno.esrch) SizeOf.detached) s
  | some i ↦ detach_found m xid t i s
]

-- The thread of the slot `i` runs on this rank, in a slot of `ltab[]` that is still its own.
abbrev pub has_own_ltab : ℕ → State → Bool
has_own_ltab i s =
    (gtab_at s i).has_ltab
    && not (leb s.nmaxthread (gtab_at s i).ltab_idx)
    && (ltab_at s (gtab_at s i).ltab_idx).seq == (gtab_at s i).seq

unfoldable pub cancel_ltab : ℕ → State → State
cancel_ltab l s =
    if (ltab_at s l).pth_state == lt_running
    then record s {
      ltab = set s.ltab l (record (ltab_at s l) { pth_state = lt_canceled });
      events = s.events ++ (Event.pthread_cancel l ∷ []);
    }
    else s

-- the errstatus of `cancel_thread`, and what it does to the thread
unfoldable pub cancel_status : DThread → State → ℕ × State
cancel_status t s = elim (dt2gtab t s) [
  | none ↦ (Errno.esrch, s)
  | some i ↦
      if not ((gtab_at s i).rank == s.mpi_rank)
      then (Errno.einval, s)
      else if has_own_ltab i s
      then (0, cancel_ltab (gtab_at s i).ltab_idx s)
      else (0, s)
]

-- `cancel_thread`
unfoldable pub cancel_thread : Mqe → ℕ → DThread → State → State
cancel_thread m xid t s =
    let (err, s1) = cancel_status t s in
    send_or_drop (recycle m (Msg.canceled xid err) SizeOf.canceled) s1

-- a JOINED message for the sender of the JOIN
abbrev pub joined_msg : Mqe → ℕ → ℕ → Argret → Mqe
joined_msg m xid err ret = recycle m (Msg.joined xid err ret) SizeOf.joined

abbrev pub argret_none : Argret
argret_none = record { argret_type = argret_nodata; inlinelen = 0; bytes = [] }

abbrev pub joinwait_req : Request → Mqe → ℕ → DThread → Request
joinwait_req r m xid t = record r {
  reqpeer = m.peer;
  reqop = Op.joinwait;
  mqe = none;
  xidseq = xid;
  reqerror = 0;
  u = ReqUnion.waitthread t;
}

unfoldable pub join_wait : Mqe → ℕ → DThread → State → State
join_wait m xid t s =
    let (o, s1) = alloc_req s in
    elim o [
      | none ↦ send_or_drop (joined_msg m xid Errno.enomem argret_none) s1
      | some r ↦
          release_mqe m
            (record s1 { rpending = s1.rpending ++ (internal_req (joinwait_req r m xid t) ∷ []) })
    ]

unfoldable pub join_valid : Mqe → ℕ → DThread → ℕ → State → State
join_valid m xid t i s =
    if (gtab_at s i).detached
    then send_or_drop (joined_msg m xid Errno.einval argret_none) s
    else if not (need_finalstate (gtab_at s i).terminated)
    then gtab_free i (send_or_drop (joined_msg m xid 0 (gtab_at s i).ret) s)
    else elim (joinwait_search t s) [
      | none ↦ join_wait m xid t s
      | some prev ↦ send_or_drop (joined_msg m xid Errno.einval argret_none) s
    ]

-- `join_thread`
unfoldable pub join_thread : Mqe → ℕ → DThread → State → State
join_thread m xid t s = elim (dt2gtab t s) [
  | none ↦ send_or_drop (joined_msg m xid Errno.esrch argret_none) s
  | some i ↦ join_valid m xid t i s
]

unfoldable pub terminated_zombie : ℕ → ℕ → State → State
terminated_zombie i finstate s = record s {
  gtab = set s.gtab i (record (gtab_at s i) { terminated = finstate; has_ltab = false });
  threads_running = int_decr s.threads_running;
}

abbrev fail_if : Bool → Request → Request
fail_if b r = if b then record r { reqerror = Errno.einval } else r

unfoldable pub terminated_waiter : ℕ → Request → State → State
terminated_waiter i r s =
    let s1 = joinwait_end_release (fail_if (gtab_at s i).detached r) s in
    gtab_free i (if (gtab_at s i).detached then detached_ret_cleanup i s1 else s1)

unfoldable pub terminated_alone : ℕ → State → State
terminated_alone i s = if (gtab_at s i).detached then gtab_free i (detached_ret_cleanup i s) else s

-- `terminated_thread`
unfoldable pub terminated_thread : DThread → ℕ → State → State
terminated_thread t finstate s =
    let s1 = terminated_zombie t.dt_index finstate s in
    elim (joinwait_search t s1) [
      | none ↦ terminated_alone t.dt_index s1
      | some (r, rest) ↦
          terminated_waiter t.dt_index (req_of s1.ltab r) (record s1 { rpending = rest })
    ]
