-- ===== src/Manager/Counts/Requests.antt =====
-- The requests of the application threads, and a round of the main loop of the manager, keep the
-- counts of both tables (libdthread/dt_mgrthread.c).
use dthread.Base.{ℕ, refl, false, none, some, arith, Option}
use dthread.Types.{Mqe, Request, ReqRef, app, internal_req}
use dthread.Queuing
use dthread.Queuing.{Dtq}
use dthread.Manager.State.{State, gtab_at, ltab_at, alloc_mqe, send_or_drop}
use dthread.Manager.Pending.{get_free_seq}
use dthread.Manager.Tables.{ltab_free, ltab_give}
use dthread.Manager.Tables.Global
use dthread.Manager.Tables.Global.{GtabInv}
use dthread.Manager.Tables.Local.{LtabInv, ltab_free-LtabInv}
use dthread.Manager.Dispatch.{
  request_sent, request_case, retclean_case, request_switch, process_req,
}
use dthread.Manager.Main.{on_mqe, on_req, check_shutdown, main_round}
use dthread.Manager.Counts.Global.{
  process_mqe-GtabInv, broadcast_shutdown-GtabInv, req_release-GtabInv,
}
use dthread.Manager.Counts.Local.{
  process_mqe-LtabInv, broadcast_shutdown-LtabInv, req_release-LtabInv, put-LtabInv,
}

request_sent-GtabInv : (i : ℕ) (m : Mqe) (s : State) → GtabInv s → GtabInv (request_sent i m s)
unfolding request_sent
request_sent-GtabInv i m s v = grind (arith, req_release-GtabInv)

request_case-GtabInv : (i : ℕ) (q : Request) (s : State) → GtabInv s → GtabInv (request_case i q s)
unfolding request_case get_free_seq
request_case-GtabInv i q s v = grind (arith, request_sent-GtabInv)

retclean_case-GtabInv : (i : ℕ) (s : State) → GtabInv s → GtabInv (retclean_case i s)
unfolding retclean_case alloc_mqe send_or_drop ltab_free ltab_give
retclean_case-GtabInv i s v =
    let g = (ltab_at s i).gtab_idx in
    let v' = Global.set-Counted s.gtab g (record (gtab_at s g) { has_ltab = false }) v refl in
    grind (arith, req_release-GtabInv)

request_switch-GtabInv :
    (i : ℕ) (q : Request) (s : State) → GtabInv s → GtabInv (request_switch i q s)
unfolding request_switch
request_switch-GtabInv i q s v = grind (
  arith, request_case-GtabInv, retclean_case-GtabInv, req_release-GtabInv,
  broadcast_shutdown-GtabInv,
)

-- Whatever request an application thread hands over, `threads_alloc` stays the number of slots of
-- `gtab[]` in use.
pub process_req-GtabInv : (r : ReqRef) (s : State) → GtabInv s → GtabInv (process_req r s)
unfolding process_req
process_req-GtabInv (internal_req r) s v = req_release-GtabInv (internal_req r) _ s v
process_req-GtabInv (app i) s v = grind (arith, request_switch-GtabInv, req_release-GtabInv)

request_sent-LtabInv : (i : ℕ) (m : Mqe) (s : State) → LtabInv s → LtabInv (request_sent i m s)
unfolding request_sent
request_sent-LtabInv i m s v = grind (arith, req_release-LtabInv, put-LtabInv)

request_case-LtabInv : (i : ℕ) (q : Request) (s : State) → LtabInv s → LtabInv (request_case i q s)
unfolding request_case get_free_seq
request_case-LtabInv i q s v = grind (arith, request_sent-LtabInv, put-LtabInv)

retclean_case-LtabInv : (i : ℕ) (s : State) → LtabInv s → LtabInv (retclean_case i s)
unfolding retclean_case alloc_mqe send_or_drop
retclean_case-LtabInv i s v = grind (arith, req_release-LtabInv, ltab_free-LtabInv)

request_switch-LtabInv :
    (i : ℕ) (q : Request) (s : State) → LtabInv s → LtabInv (request_switch i q s)
unfolding request_switch
request_switch-LtabInv i q s v = grind (
  arith, request_case-LtabInv, retclean_case-LtabInv, req_release-LtabInv,
  broadcast_shutdown-LtabInv,
)

process_req-LtabInv : (r : ReqRef) (s : State) → LtabInv s → LtabInv (process_req r s)
unfolding process_req
process_req-LtabInv (internal_req r) s v = req_release-LtabInv (internal_req r) _ s v
process_req-LtabInv (app i) s v = grind (arith, request_switch-LtabInv, req_release-LtabInv)

-- Both tables agree with their counters.
abbrev pub TabsInv : State → Type 0
TabsInv s = GtabInv s × LtabInv s

on_mqe-TabsInv : (m : Option Mqe) (s : State) → TabsInv s → TabsInv (on_mqe m s)
on_mqe-TabsInv none s v = v
on_mqe-TabsInv (some m) s (g, l) = (process_mqe-GtabInv m s g, process_mqe-LtabInv m s l)

on_req-TabsInv : (r : Option ReqRef) (s : State) → TabsInv s → TabsInv (on_req r s)
on_req-TabsInv none s v = v
on_req-TabsInv (some r) s (g, l) = (process_req-GtabInv r s g, process_req-LtabInv r s l)

check_shutdown-TabsInv : (s : State) → TabsInv s → TabsInv (check_shutdown s)
unfolding check_shutdown
check_shutdown-TabsInv s (g, l) =
    grind (arith, broadcast_shutdown-GtabInv, broadcast_shutdown-LtabInv)

-- A round of the main loop, shutdown test included, keeps both tables in agreement with their
-- counters, whatever the other threads queue while the manager waits.
pub main_round-TabsInv :
    (others : Dtq → Dtq) (s : State) → TabsInv s → TabsInv (main_round others (check_shutdown s))
unfolding main_round
main_round-TabsInv others s v =
    let (m, r, q) = Queuing.notifywait others (check_shutdown s).dtq in
    on_req-TabsInv r _ (on_mqe-TabsInv m _ (check_shutdown-TabsInv s v))
