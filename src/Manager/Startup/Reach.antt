-- ===== src/Manager/Startup/Reach.antt =====
-- The states that rank 0 can come to: the loop of `mgr_main` (libdthread/dt_mgrthread.c) with the
-- steps of its application threads between the rounds (libdthread/dt_threadops.c).
use dthread.Base.{
  ℕ, zero, suc, ◌≡◌, ◌≢◌, ◌<◌, refl, sym, ◌∙◌, Bool, true, false, Option, some, List, [], ◌∷◌, ap,
  set, arith, length, length-set, count_if, count_if-set_first,
}
use dthread.Types.{Argret, argret_canceled, Mqe, ReqUnion}
use dthread.Types.Op
use dthread.Queuing.{Dtq}
use dthread.Manager.State.{
  State, Config, Gtab, lt_exited, gtab_at, gtab_zero, ltab_at, ltab_zero, lt_running, lt_none,
  lt_returned, lt_cleanup, lt_canceled, set_argret_type, alloc_mqe,
}
use dthread.Manager.Pending.{get_free_seq}
use dthread.Manager.Main.{mgr_startapp, check_shutdown, is_finished, main_round}
use dthread.Manager.Tables.Global
use dthread.Manager.Tables.Global.{GtabInv, is_allocated}
use dthread.Manager.Tables.Local
use dthread.Manager.Tables.Local.{LtabInv, in_use}
use dthread.Manager.Counts.Local.{put-LtabInv}
use dthread.Manager.Counts.Requests.{TabsInv, main_round-TabsInv}
use dthread.Manager.Wrapper.{
  finalize_state, mark_canceled, hand_over, retclean_request, set_ret, free_arg, set_running,
  dthreadcleanup, dthreadwrap_enter, dthreadwrap_leave, app0wrap_leave, app0cleanup,
}
use dthread.Manager.Startup.{init_gtab, init_ltab, run_state, mgr_boot}
use dthread.Calls.{get_my_req, post, waits, collect, exit_common}

-- which slots of `gtab[]` are in use
abbrev pub flags : List Gtab → List Bool
flags [] = []
flags (g ∷ gs) = g.allocated ∷ flags gs

-- The states of rank 0 from the start of its manager on. `gtab[]` is shared memory: the steps `writes`
-- are the writes of the other ranks to it, none of which takes or frees a slot.
pub data Reach (cfg : Config) (mem : List Bool) (pcreate : List ℕ) (arg : Argret)
    : State → Type 0 where
  boots : cfg.mpi_rank ≡ 0 → Reach cfg mem pcreate arg (mgr_boot arg (run_state cfg mem pcreate))
  rounds :
      {s : State} (others : Dtq → Dtq)
      → Reach cfg mem pcreate arg s
      → is_finished (check_shutdown s) ≡ false
      → Reach cfg mem pcreate arg (main_round others (check_shutdown s))
  writes :
      {s : State} (g : List Gtab)
      → Reach cfg mem pcreate arg s
      → flags g ≡ flags s.gtab
      → Reach cfg mem pcreate arg (record s { gtab = g })
  posts :
      {s t : State} (i op : ℕ) (u : ReqUnion → ReqUnion) (m : Mqe)
      → Reach cfg mem pcreate arg s
      → post i op u m s ≡ waits t
      → Reach cfg mem pcreate arg t
  collects :
      {s : State} (i : ℕ) → Reach cfg mem pcreate arg s → Reach cfg mem pcreate arg (collect i s).2
  enters :
      {s : State} (i setspecific decode : ℕ)
      → Reach cfg mem pcreate arg s
      → in_use (ltab_at s i) ≡ true
      → Reach cfg mem pcreate arg (dthreadwrap_enter i setspecific decode s).1
  exits :
      {s t : State} (native : Bool) (i : ℕ) (ret : Option Argret) (encode : ℕ) (encoded : Argret)
      → Reach cfg mem pcreate arg s
      → in_use (ltab_at s i) ≡ true
      → exit_common native i ret encode encoded s ≡ some t
      → Reach cfg mem pcreate arg t
  leaves :
      {s : State} (i encode : ℕ) (ret : Argret)
      → Reach cfg mem pcreate arg s
      → in_use (ltab_at s i) ≡ true
      → Reach cfg mem pcreate arg (dthreadwrap_leave i encode ret s)
  ends :
      {s : State} (i : ℕ) (returned : Bool) (encode : ℕ) (ret : Argret)
      → Reach cfg mem pcreate arg s
      → in_use (ltab_at s i) ≡ true
      → Reach cfg mem pcreate arg (dthreadcleanup i returned encode ret s)
  app0_leaves :
      {s : State}
      → Reach cfg mem pcreate arg s
      → in_use (ltab_at s 0) ≡ true
      → Reach cfg mem pcreate arg (app0wrap_leave s)
  app0_ends :
      {s : State}
      → Reach cfg mem pcreate arg s
      → in_use (ltab_at s 0) ≡ true
      → Reach cfg mem pcreate arg (app0cleanup s)

init_gtab-Counted : (n : ℕ) → (length (init_gtab n) ≡ n) × (count_if is_allocated (init_gtab n) ≡ 0)
init_gtab-Counted zero = (refl, refl)
init_gtab-Counted (suc n) = let (l, c) = init_gtab-Counted n in (omega (arith, l), omega (arith, c))

init_ltab-Counted :
    (n lcv : ℕ) → (length (init_ltab n lcv) ≡ n) × (count_if in_use (init_ltab n lcv) ≡ 0)
init_ltab-Counted zero lcv = (refl, refl)
init_ltab-Counted (suc n) lcv =
    let (l, c) = init_ltab-Counted n (suc lcv) in (omega (arith, l), omega (arith, c))

module _ (cfg : Config) (mem : List Bool) (pcreate : List ℕ) (h : 0 < cfg.nmaxthread) where
  run_state-TabsInv : TabsInv (run_state cfg mem pcreate)
  unfolding run_state
  run_state-TabsInv =
      let (gl, gc) = init_gtab-Counted cfg.nmaxthread in
      let (ll, lc) = init_ltab-Counted cfg.nmaxthread 0 in
      (
        record { size = gl; counted = sym gc; last_in = h },
        record { size = ll; counted = sym lc; last_in = h },
      )

  startapp-TabsInv : (arg : Argret) → TabsInv (mgr_startapp arg (run_state cfg mem pcreate))
  unfolding run_state mgr_startapp get_free_seq
  startapp-TabsInv arg =
      let (gl, gc) = init_gtab-Counted cfg.nmaxthread in
      let (ll, lc) = init_ltab-Counted cfg.nmaxthread 0 in
      (
        record {
          size = length-set (init_gtab cfg.nmaxthread) 0 _ ∙ gl;
          counted =
              count_if-set_first is_allocated (init_gtab cfg.nmaxthread) 0 _ gtab_zero gc refl
                (omega (arith, gl, h));
          last_in = h;
        },
        record {
          size = length-set (init_ltab cfg.nmaxthread 0) 0 _ ∙ ll;
          counted =
              count_if-set_first in_use (init_ltab cfg.nmaxthread 0) 0 _ ltab_zero lc refl
                (omega (arith, ll, h));
          last_in = h;
        },
      )

  mgr_boot-TabsInv : (arg : Argret) → TabsInv (mgr_boot arg (run_state cfg mem pcreate))
  unfolding mgr_boot
  mgr_boot-TabsInv arg = ground (arith, startapp-TabsInv arg, run_state-TabsInv)

post-TabsInv :
    (i op : ℕ) (u : ReqUnion → ReqUnion) (m : Mqe) (s t : State)
    → TabsInv s
    → post i op u m s ≡ waits t
    → TabsInv t
unfolding post get_my_req alloc_mqe
post-TabsInv i op u m s t (g, l) e = grind (arith, put-LtabInv i _ s l)

collect-TabsInv : (i : ℕ) (s : State) → TabsInv s → TabsInv (collect i s).2
unfolding collect
collect-TabsInv i s (g, l) = (g, put-LtabInv i _ s l)

finalize_state-TabsInv :
    (i finalstate : ℕ) (s : State)
    → TabsInv s
    → in_use (ltab_at s i) ≡ true
    → finalstate ≢ lt_none
    → TabsInv (finalize_state i finalstate s)
unfolding finalize_state
finalize_state-TabsInv i f s (g, l) used ne =
    let l' =
      Local.set-Counted s.ltab i (record (ltab_at s i) { pth_state = f }) l
        (ground (arith, used, ne)) in
    ground (arith, g, l, l')

hand_over-TabsInv : (i op : ℕ) (s : State) → TabsInv s → TabsInv (hand_over i op s)
hand_over-TabsInv i op s (g, l) = (g, put-LtabInv i _ s l)

mark_canceled-TabsInv : (i : ℕ) (s : State) → TabsInv s → TabsInv (mark_canceled i s)
unfolding mark_canceled
mark_canceled-TabsInv i s (g, l) =
    let p = (ltab_at s i).gtab_idx in
    let ret = set_argret_type argret_canceled (gtab_at s p).ret in
    let g' = Global.set-Counted s.gtab p (record (gtab_at s p) { ret = ret }) g refl in
    ground (arith, g, l, g')

retclean_request-TabsInv :
    (i finalstate : ℕ) (s : State)
    → TabsInv s
    → in_use (ltab_at s i) ≡ true
    → finalstate ≢ lt_none
    → TabsInv (retclean_request i finalstate s)
unfolding retclean_request
retclean_request-TabsInv i f s v used ne =
    let t = finalize_state i f s in
    hand_over-TabsInv i Op.retclean (mark_canceled i t)
      (mark_canceled-TabsInv i t (finalize_state-TabsInv i f s v used ne))

set_ret-TabsInv : (p : ℕ) (ret : Argret) (s : State) → TabsInv s → TabsInv (set_ret p ret s)
unfolding set_ret
set_ret-TabsInv p ret s (g, l) =
    (Global.set-Counted s.gtab p (record (gtab_at s p) { ret = ret }) g refl, l)

dthreadcleanup-TabsInv :
    (i : ℕ) (returned : Bool) (encode : ℕ) (ret : Argret) (s : State)
    → TabsInv s
    → in_use (ltab_at s i) ≡ true
    → TabsInv (dthreadcleanup i returned encode ret s)
unfolding dthreadcleanup free_arg set_ret
dthreadcleanup-TabsInv i returned encode ret s v used =
    let p = (ltab_at s i).gtab_idx in
    let freed = free_arg p s in
    let canceled = set_argret_type argret_canceled ret in
    ground (
      arith,
      retclean_request-TabsInv i lt_returned s v used (omega arith),
      retclean_request-TabsInv i lt_cleanup s v used (omega arith),
      retclean_request-TabsInv i lt_cleanup freed v used (omega arith),
      retclean_request-TabsInv i lt_returned (set_ret p ret freed) (set_ret-TabsInv p ret freed v)
          used (omega arith),
      retclean_request-TabsInv i lt_canceled (set_ret p canceled freed)
          (set_ret-TabsInv p canceled freed v) used (omega arith),
    )

dthreadwrap_enter-TabsInv :
    (i setspecific decode : ℕ) (s : State)
    → TabsInv s
    → in_use (ltab_at s i) ≡ true
    → TabsInv (dthreadwrap_enter i setspecific decode s).1
unfolding dthreadwrap_enter set_running
dthreadwrap_enter-TabsInv i setspecific decode s (g, l) used =
    let p = (ltab_at s i).gtab_idx in
    let g' =
      Global.set-Counted s.gtab p (record (gtab_at s p) { ltab_idx = i; has_ltab = true }) g refl in
    let l' =
      Local.set-Counted s.ltab i (record (ltab_at s i) { pth_state = lt_running }) l
        (ground (arith, used)) in
    let r = retclean_request-TabsInv i lt_canceled s (g, l) used (omega arith) in
    ground (arith, r, g, l, g', l')

-- what `dthread_exit_common` leaves of a thread that exits with `r`
abbrev exited : ℕ → Argret → State → State
exited i r s =
    let p = (ltab_at s i).gtab_idx in
    record s {
      gtab = set s.gtab p (record (gtab_at s p) { ret = r });
      ltab = set s.ltab i (record (ltab_at s i) { pth_state = lt_exited });
    }

length-flags : (gs : List Gtab) → length (flags gs) ≡ length gs
length-flags [] = refl
length-flags (g ∷ gs) = ap suc (length-flags gs)

count_if-flags : (gs : List Gtab) → count_if (λ b. b) (flags gs) ≡ count_if is_allocated gs
count_if-flags [] = refl
count_if-flags (g ∷ gs) = omega (arith, count_if-flags gs)

writes-TabsInv :
    (g : List Gtab) (s : State)
    → TabsInv s
    → flags g ≡ flags s.gtab
    → TabsInv (record s { gtab = g })
writes-TabsInv g s (v, l) e = (
  record {
    size = sym (length-flags g) ∙ ap length e ∙ length-flags s.gtab ∙ v.size;
    counted =
        v.counted ∙ sym (count_if-flags s.gtab) ∙ ap (count_if (λ b. b)) (sym e) ∙ count_if-flags g;
    last_in = v.last_in;
  },
  l,
)

exited-TabsInv :
    (i : ℕ) (s : State)
    → TabsInv s
    → in_use (ltab_at s i) ≡ true
    → (r : Argret) → TabsInv (exited i r s)
exited-TabsInv i s (g, l) used r =
    let p = (ltab_at s i).gtab_idx in
    (
      Global.set-Counted s.gtab p (record (gtab_at s p) { ret = r }) g refl,
      Local.set-Counted s.ltab i (record (ltab_at s i) { pth_state = lt_exited }) l
          (ground (arith, used)),
    )

exits-TabsInv :
    (native : Bool) (i : ℕ) (ret : Option Argret) (encode : ℕ) (encoded : Argret) (s t : State)
    → TabsInv s
    → in_use (ltab_at s i) ≡ true
    → exit_common native i ret encode encoded s ≡ some t
    → TabsInv t
unfolding exit_common
exits-TabsInv native i ret encode encoded s t v used e = grind (arith, e, exited-TabsInv i s v used)

leaves-TabsInv :
    (i encode : ℕ) (ret : Argret) (s : State)
    → TabsInv s
    → in_use (ltab_at s i) ≡ true
    → TabsInv (dthreadwrap_leave i encode ret s)
unfolding dthreadwrap_leave set_ret
leaves-TabsInv i encode ret s v used =
    let p = (ltab_at s i).gtab_idx in
    ground (
      arith,
      dthreadcleanup-TabsInv i true encode ret s v used,
      dthreadcleanup-TabsInv i true encode ret (set_ret p ret s) (set_ret-TabsInv p ret s v) used,
    )

app0wrap_leave-TabsInv :
    (s : State) → TabsInv s → in_use (ltab_at s 0) ≡ true → TabsInv (app0wrap_leave s)
unfolding app0wrap_leave
app0wrap_leave-TabsInv s (g, l) used =
    let t = record s { ltab = set s.ltab 0 (record (ltab_at s 0) { pth_state = lt_returned }) } in
    hand_over-TabsInv 0 Op.app0_ret t (
      g,
      Local.set-Counted s.ltab 0 (record (ltab_at s 0) { pth_state = lt_returned }) l
          (ground (arith, used)),
    )

app0cleanup-TabsInv :
    (s : State) → TabsInv s → in_use (ltab_at s 0) ≡ true → TabsInv (app0cleanup s)
unfolding app0cleanup
app0cleanup-TabsInv s v used = retclean_request-TabsInv 0 lt_cleanup s v used (omega arith)

-- In every state that rank 0 comes to, `threads_alloc` and `ltab_alloc` are the numbers of slots in
-- use: from the start on, over rounds of the manager, writes of the other ranks to `gtab[]` that leave
-- the slots in use as they are, and the calls, exits and ends of its threads. There is at least one
-- slot, and a thread that enters, exits or ends has its slot of `ltab[]`.
pub Reach-TabsInv :
    {cfg : Config} {mem : List Bool} {pcreate : List ℕ} {arg : Argret} {s : State}
    → 0 < cfg.nmaxthread
    → Reach cfg mem pcreate arg s
    → TabsInv s
Reach-TabsInv {cfg} {mem} {pcreate} {arg} h (boots z) = mgr_boot-TabsInv cfg mem pcreate h arg
Reach-TabsInv h (rounds {s} others r e) = main_round-TabsInv others s (Reach-TabsInv h r)
Reach-TabsInv h (writes {s} g r e) = writes-TabsInv g s (Reach-TabsInv h r) e
Reach-TabsInv h (posts {s} {t} i op u m r e) = post-TabsInv i op u m s t (Reach-TabsInv h r) e
Reach-TabsInv h (collects {s} i r) = collect-TabsInv i s (Reach-TabsInv h r)
Reach-TabsInv h (enters {s} i sp d r e) = dthreadwrap_enter-TabsInv i sp d s (Reach-TabsInv h r) e
Reach-TabsInv h (exits {s} {t} b i ret e enc r u x) =
    exits-TabsInv b i ret e enc s t (Reach-TabsInv h r) u x
Reach-TabsInv h (leaves {s} i e ret r u) = leaves-TabsInv i e ret s (Reach-TabsInv h r) u
Reach-TabsInv h (ends {s} i b e ret r u) = dthreadcleanup-TabsInv i b e ret s (Reach-TabsInv h r) u
Reach-TabsInv h (app0_leaves {s} r u) = app0wrap_leave-TabsInv s (Reach-TabsInv h r) u
Reach-TabsInv h (app0_ends {s} r u) = app0cleanup-TabsInv s (Reach-TabsInv h r) u
