-- ===== src/Calls.antt =====
-- The calls of an application thread in libdthread/dt_threadops.c. A call that needs the manager is
-- three steps: it posts the request of the thread's slot, the manager works on it while the thread
-- waits, and the thread collects the result. A calling thread has its entry of `ltab[]`, whose index
-- is an argument; `pthread_setcancelstate` succeeds with these arguments. The calls of a proc
-- function to free a value are not recorded.
pub mod Answer
pub mod Exit
mod Tests
use dthread.Base.{
  ℕ, suc, ◌+◌, Bool, true, false, not, ◌&&◌, ◌||◌, Option, none, some, List, [], ◌∷◌, ◌++◌,
  if◌then◌else◌, ◌==◌, leb, get_or, set,
}
use dthread.Types.{
  DThread, Argret, argret_nodata, argret_canceled, Attrs, Msg, Mqe, Request, ReqState, ReqUnion,
  app,
}
use dthread.Types.Op
use dthread.Types.Errno
use dthread.Types.SizeOf
use dthread.Queuing
use dthread.Manager.State.{
  State, Dispatch, Event, gtab_at, ltab_at, alloc_mqe, set_argret_type, lt_exited,
}
use dthread.Manager.Tables.{dt2gtab}

-- What a call does at first: it returns an error, or its thread waits for the manager.
pub data Posted : Type 0 where
  returns : ℕ → State → Posted
  waits : State → Posted

-- the loop of `get_dispatch_idx` over the start functions from the entry `didx` on
abbrev index_of : ℕ → List ℕ → ℕ → ℕ
index_of f [] didx = 0
index_of f (g ∷ gs) didx = if f == g then didx else index_of f gs (suc didx)

abbrev tail_of : List ℕ → List ℕ
tail_of [] = []
tail_of (g ∷ gs) = gs

-- `get_dispatch_idx`, in the table whose start functions are `starts`
unfoldable pub get_dispatch_idx : ℕ → List ℕ → ℕ
get_dispatch_idx f starts = index_of f (tail_of starts) 1

abbrev pub is_idle : ReqState → Bool
is_idle ReqState.idle = true
is_idle _ = false

-- `get_my_req`, of the thread in the slot `i`
unfoldable pub get_my_req : ℕ → State → Option Mqe × State
get_my_req i s = if is_idle (ltab_at s i).req.reqstate then alloc_mqe s else (none, s)

-- the thread's request as a call sets it up; only a JOIN writes to the union
abbrev pub busy_req : Request → Mqe → ℕ → ReqUnion → Request
busy_req q m op u = record q {
  reqstate = ReqState.busy;
  reqpeer = m.peer;
  reqop = op;
  mqe = some m;
  reqerror = 0;
  u = u;
}

-- the common part of all calls: `busy`, and `dtq_req_enqueue`
unfoldable pub post : ℕ → ℕ → (ReqUnion → ReqUnion) → Mqe → State → Posted
post i op u m s =
    let (o, s1) = get_my_req i s in
    elim o [
      | none ↦ returns Errno.enomem s1
      | some e ↦
          let q = (ltab_at s1 i).req in
          waits (record s1 {
            ltab = set s1.ltab i (record (ltab_at s1 i) { req = busy_req q m op (u q.u) });
            dtq = Queuing.req_enqueue (app i) s1.dtq;
          })
    ]

abbrev pub to_rank0 : Msg → ℕ → Mqe
to_rank0 msg size = record { frame = msg; flen = size; peer = 0 }

abbrev no_argret : Argret
no_argret = record { argret_type = argret_nodata; inlinelen = 0; bytes = [] }

abbrev arg_of : Option Argret → Argret
arg_of none = no_argret
arg_of (some arg) = arg

-- `dthread_create_common`; `attrs` holds what the attributes become.
unfoldable pub create_common : ℕ → Attrs → ℕ → Option Argret → State → Posted
create_common i attrs didx arg s =
    post i Op.create (λ u. u) (to_rank0 (Msg.create 0 attrs didx (arg_of arg)) SizeOf.create) s

abbrev pub no_procs : Dispatch
no_procs = record { argproc = false; retproc = false }

abbrev pub disp_at : State → ℕ → Dispatch
disp_at s didx = get_or s.dsps didx no_procs

-- `dthread_ncreate`, of a pointer `dthread` that is not NULL
unfoldable pub ncreate : ℕ → Attrs → ℕ → List ℕ → Option Argret → State → Posted
ncreate i attrs dtstart starts arg s =
    let didx = get_dispatch_idx dtstart starts in
    if didx == 0
    then returns Errno.enoent s
    else if (disp_at s didx).argproc || (disp_at s didx).retproc
    then returns Errno.eopnotsupp s
    else create_common i attrs didx arg s

-- `dthread_create`, where the proc function gives `encode` and `procarg`
unfoldable pub create : ℕ → Attrs → ℕ → List ℕ → ℕ → Argret → State → Posted
create i attrs dtstart starts encode procarg s =
    let didx = get_dispatch_idx dtstart starts in
    if didx == 0
    then returns Errno.enoent s
    else if not (disp_at s didx).argproc || not (disp_at s didx).retproc
    then returns Errno.eopnotsupp s
    else if not (encode == 0)
    then returns encode s
    else create_common i attrs didx (some procarg) s

-- `dthread_detach`
unfoldable pub detach : ℕ → DThread → State → Posted
detach i t s = elim (dt2gtab t s) [
  | none ↦ returns Errno.esrch s
  | some g ↦ post i Op.detach (λ u. u) (to_rank0 (Msg.detach 0 t) SizeOf.detach) s
]

-- `dthread_cancel`
unfoldable pub cancel : ℕ → DThread → State → Posted
cancel i t s = elim (dt2gtab t s) [
  | none ↦ returns Errno.esrch s
  | some g ↦
      post i Op.cancel (λ u. u)
        (record {
          frame = Msg.cancel 0 t;
          flen = SizeOf.cancel;
          peer = (gtab_at s t.dt_index).rank;
        })
        s
]

-- `dthread_join_common`, with the buffer `ret`
unfoldable pub join_common : ℕ → DThread → Argret → State → Posted
join_common i t ret s =
    post i Op.join (λ u. ReqUnion.retval (some ret)) (to_rank0 (Msg.join 0 t) SizeOf.join) s

-- the tests of `dthread_njoin` and `dthread_join`; `native` tells them apart.
unfoldable pub join_checked : Bool → ℕ → DThread → Argret → State → Posted
join_checked native i t ret s =
    let didx = (gtab_at s t.dt_index).disp_idx in
    let d = disp_at s didx in
    elim (dt2gtab t s) [
      | none ↦ returns Errno.esrch s
      | some g ↦
          if (ltab_at s i).gtab_idx == t.dt_index
          then returns Errno.edeadlk s
          else if leb s.ndsps didx
          then returns Errno.eio s
          else if (if native then d.argproc || d.retproc else not d.argproc || not d.retproc)
          then returns Errno.eopnotsupp s
          else join_common i t ret s
    ]

-- The thread has been woken: it takes the error and the request's union, and its request is idle.
unfoldable pub collect : ℕ → State → ℕ × ReqUnion × State
collect i s =
    let q = (ltab_at s i).req in
    (
      q.reqerror,
      q.u,
      record s {
        ltab = set s.ltab i (record (ltab_at s i) { req = record q { reqstate = ReqState.idle } });
      },
    )

-- what `dthread_join_common` leaves in the buffer, which has no data where the call fails
unfoldable pub join_result : ℕ → ReqUnion → ReqUnion
join_result rv (ReqUnion.retval (some ret)) =
    ReqUnion.retval (some (if rv == 0 then ret else set_argret_type argret_nodata ret))
join_result rv u = u

-- the value that `dthread_exit_common` leaves: `ret` of a native call, `encode` and `encoded` of the
-- proc function otherwise
abbrev exit_value : Bool → Dispatch → Option Argret → ℕ → Argret → Argret → Argret
exit_value native d ret encode encoded old =
    if native
    then (if d.argproc || d.retproc then old else elim ret [ none ↦ old | some r ↦ r ])
    else if not d.argproc && not d.retproc
    then old
    else if encode == 0
    then encoded
    else set_argret_type argret_canceled encoded

-- `dthread_exit_common` up to `pthread_exit`; `none` is `exit(1)`.
unfoldable pub exit_common : Bool → ℕ → Option Argret → ℕ → Argret → State → Option State
exit_common native i ret encode encoded s =
    let g = (ltab_at s i).gtab_idx in
    let gt = gtab_at s g in
    let old = set_argret_type argret_nodata gt.ret in
    let value : Argret =
      if leb s.ndsps gt.disp_idx
      then old
      else exit_value native (disp_at s gt.disp_idx) ret encode encoded old in
    if leb s.nmaxthread g
    then none
    else if not ((ltab_at s i).seq == gt.seq)
    then none
    else some (record s {
      gtab = set s.gtab g (record gt { ret = value });
      ltab = set s.ltab i (record (ltab_at s i) { pth_state = lt_exited });
    })
