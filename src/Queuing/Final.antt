-- ===== src/Queuing/Final.antt =====
-- `dtq_stats` and `dtq_finalize` of libdthread/dt_queuing.c.
use dthread.Base.{ℕ, ◌≡◌, refl, List, [], ◌∷◌, ◌++◌, arith, length, length-append}
use dthread.Types.{Mqe, Request, ReqState, ReqRef, app, internal_req}
use dthread.Queuing.{Dtq}
use dthread.Queuing.Invariant.{Sys, Inv}

-- `struct dtq_stats`
pub record Stats : Type 0 where
  pub nreq : ℕ
  pub nloop : ℕ
  pub nmqe : ℕ
  pub mpimaxsqlen : ℕ
  pub mpimaxrqlen : ℕ
  pub mgrmaxrqlen : ℕ

-- `dtq_stats`
unfoldable pub stats : Dtq → Stats
stats q = record {
  nreq = q.nreq;
  nloop = q.nloop;
  nmqe = q.nmqe;
  mpimaxsqlen = q.mpimaxsqlen;
  mpimaxrqlen = q.mpimaxrqlen;
  mgrmaxrqlen = q.mgrmaxrqlen;
}

-- The orphaned internal requests of `mgrreqq`; those of the threads are freed with `ltab[]`.
unfoldable pub orphans : List ReqRef → List Request
orphans [] = []
orphans (app i ∷ rs) = orphans rs
orphans (internal_req r ∷ rs) = elim r.reqstate [
  | ReqState.internal ↦ r ∷ orphans rs
  | _ ↦ orphans rs
]

-- What `dtq_finalize` frees.
pub record Freed : Type 0 where
  pub reqs : List Request
  pub mqes : List Mqe

-- `dtq_finalize`: the loops take every list apart.
unfoldable pub finalize : Dtq → Freed × Dtq
finalize q = (
  record { reqs = orphans q.mgrreqq ++ q.reqfree; mqes = q.mpisendq ++ q.mpirecvq ++ q.mqefree },
  record q { mgrreqq = []; reqfree = []; mpisendq = []; mpirecvq = []; mqefree = [] },
)

-- When no caller holds an entry and no send is in flight, `dtq_finalize` frees exactly as many
-- entries as were ever allocated, and leaves no entry behind.
pub finalize-frees :
    (s : Sys)
    → Inv s
    → s.held ≡ 0
    → s.q.mpindequeuedsends ≡ 0
    → (length (finalize s.q).0.mqes ≡ (stats s.q).nmqe)
      × ((finalize s.q).1.mpisendq ≡ [])
      × ((finalize s.q).1.mpirecvq ≡ [])
      × ((finalize s.q).1.mqefree ≡ [])
unfolding finalize stats
finalize-frees s v h e = (
  omega (
    arith,
    length-append (s.q.mpisendq ++ s.q.mpirecvq) s.q.mqefree,
    length-append s.q.mpisendq s.q.mpirecvq,
    v.balance,
  ),
  refl,
  refl,
  refl,
)
