-- ===== src/Manager/Wrapper.antt =====
-- What the application threads run of libdthread/dt_mgrthread.c: `retclean_request`,
-- `dthreadwrap`, `dthreadcleanup`, `app0cleanup` and `app0wrap`. The calls of the user's code and
-- of `pthread_setspecific` are arguments that hold their results.
use dthread.Base.{
  ℕ, Bool, true, false, not, ◌&&◌, ◌||◌, none, [], ◌∷◌, ◌++◌, if◌then◌else◌, ◌==◌, ltb, leb, get_or,
  set,
}
use dthread.Types.{Argret, argret_canceled, ReqState, app}
use dthread.Types.Op
use dthread.Queuing
use dthread.Manager.State.{
  State, Dispatch, Event, gtab_at, ltab_at, set_argret_type, need_finalstate, lt_running,
  lt_returned, lt_canceled, lt_cleanup,
}

-- `retclean_request` and the end of `app0wrap`: the thread hands its own request to the manager.
abbrev pub hand_over : ℕ → ℕ → State → State
hand_over lidx op s = record s {
  ltab = set s.ltab lidx (record (ltab_at s lidx) {
    req = record ((ltab_at s lidx).req) {
      reqstate = ReqState.busy;
      reqpeer = 0;
      reqop = op;
      mqe = none;
    };
  });
  dtq = Queuing.req_enqueue (app lidx) s.dtq;
}

unfoldable pub finalize_state : ℕ → ℕ → State → State
finalize_state lidx finalstate s =
    if need_finalstate (ltab_at s lidx).pth_state
    then record s { ltab = set s.ltab lidx (record (ltab_at s lidx) { pth_state = finalstate }) }
    else s

unfoldable pub mark_canceled : ℕ → State → State
mark_canceled lidx s =
    let g = (ltab_at s lidx).gtab_idx in
    if (ltab_at s lidx).pth_state == lt_canceled || (ltab_at s lidx).pth_state == lt_cleanup
    then record s {
      gtab =
          set s.gtab g
            (record (gtab_at s g) { ret = set_argret_type argret_canceled (gtab_at s g).ret });
    }
    else s

-- `retclean_request`
unfoldable pub retclean_request : ℕ → ℕ → State → State
retclean_request lidx finalstate s =
    hand_over lidx Op.retclean (mark_canceled lidx (finalize_state lidx finalstate s))

abbrev no_procs : Dispatch
no_procs = record { argproc = false; retproc = false }

-- the test for a native start function
abbrev pub is_native : State → ℕ → Bool
is_native s disp =
    not (get_or s.dsps disp no_procs).argproc && not (get_or s.dsps disp no_procs).retproc

unfoldable pub set_running : ℕ → ℕ → State → State
set_running lidx gidx s = record s {
  gtab = set s.gtab gidx (record (gtab_at s gidx) { ltab_idx = lidx; has_ltab = true });
  ltab = set s.ltab lidx (record (ltab_at s lidx) { pth_state = lt_running });
}

-- `dthreadwrap` up to the call of the start function, which is made if the result is `true`.
unfoldable pub dthreadwrap_enter : ℕ → ℕ → ℕ → State → Bool × State
dthreadwrap_enter lidx setspecific decode s =
    let gidx = (ltab_at s lidx).gtab_idx in
    let disp = (gtab_at s gidx).disp_idx in
    if leb s.nmaxthread lidx
    then (false, s)
    else if leb s.nmaxthread gidx
    then (false, s)
    else if not ((gtab_at s gidx).seq == (ltab_at s lidx).seq)
    then (false, s)
    else if not (setspecific == 0)
    then (false, retclean_request lidx lt_canceled s)
    else if ltb disp 1 || leb s.ndsps disp
    then (false, retclean_request lidx lt_canceled s)
    else if not (is_native s disp) && not (decode == 0)
    then (false, retclean_request lidx lt_canceled s)
    else (true, set_running lidx gidx s)

unfoldable pub set_ret : ℕ → Argret → State → State
set_ret gidx ret s = record s { gtab = set s.gtab gidx (record (gtab_at s gidx) { ret = ret }) }

unfoldable pub free_arg : ℕ → State → State
free_arg gidx s = record s { events = s.events ++ (Event.arg_free gidx ∷ []) }

-- `dthreadcleanup`. `encode` and `ret` are what the proc function gives for the thread's result.
unfoldable pub dthreadcleanup : ℕ → Bool → ℕ → Argret → State → State
dthreadcleanup lidx returned encode ret s =
    let gidx = (ltab_at s lidx).gtab_idx in
    let finalstate : ℕ = if returned then lt_returned else lt_cleanup in
    if is_native s (gtab_at s gidx).disp_idx
    then retclean_request lidx finalstate s
    else if not returned
    then retclean_request lidx finalstate (free_arg gidx s)
    else if encode == 0
    then retclean_request lidx finalstate (set_ret gidx ret (free_arg gidx s))
    else retclean_request lidx lt_canceled
        (set_ret gidx (set_argret_type argret_canceled ret) (free_arg gidx s))

-- The end of `dthreadwrap`: the start function has returned `ret`, which a native one returns
-- into `gtab[]` and another through the proc function.
unfoldable pub dthreadwrap_leave : ℕ → ℕ → Argret → State → State
dthreadwrap_leave lidx encode ret s =
    let gidx = (ltab_at s lidx).gtab_idx in
    dthreadcleanup lidx true encode ret
      (if is_native s (gtab_at s gidx).disp_idx then set_ret gidx ret s else s)

-- `app0cleanup`
unfoldable pub app0cleanup : State → State
app0cleanup s = retclean_request 0 lt_cleanup s

-- `app0wrap`, from the return of the application's main function on
unfoldable pub app0wrap_leave : State → State
app0wrap_leave s =
    hand_over 0 Op.app0_ret
      (record s { ltab = set s.ltab 0 (record (ltab_at s 0) { pth_state = lt_returned }) })
