-- ===== src/Mpi.antt =====
-- The manager of the sends in flight of libdthread/dt_mpithread.c (`struct mpimtsmgr`). The arrays
-- `mqes` and `reqs` are functions of the slot number, and realloc keeps them. MPI is a parameter: the
-- answer of MPI_Testsome is an argument, an MPI_Request is a number, and the status array, which is
-- only logged, is left out. The slot counts stay far below 2^31, since each slot takes memory.
pub mod Thread
mod Slots
mod Compact
mod Release
mod Shrink
pub mod InFlight
mod Calls
pub mod Round
pub mod Start
pub mod Reach
mod Tests
use dthread.Base.{
  ℕ, zero, suc, ◌+◌, ◌-◌, ◌*◌, Bool, true, false, not, ◌&&◌, Option, none, some, List, [], ◌∷◌,
  if◌then◌else◌, ◌==◌, ltb, leb, length,
}
use dthread.Types.{Mqe}
use dthread.Queuing.{Dtq, send_release}

-- `struct mpimtsmgr`
pub record MpiMtsMgr : Type 0 where
  pub nalloc : ℕ
  pub nused : ℕ
  pub ntestsome : ℕ
  pub got1 : ℕ
  pub gotmore : ℕ
  pub gotmax : ℕ
  pub mqes : ℕ → Option Mqe
  pub reqs : ℕ → ℕ

-- MPIMTSMGR_INIT
abbrev pub mpimtsmgr_init : MpiMtsMgr
mpimtsmgr_init = record {
  nalloc = 0;
  nused = 0;
  ntestsome = 0;
  got1 = 0;
  gotmore = 0;
  gotmax = 0;
  mqes = λ i. none;
  reqs = λ i. 0;
}

abbrev pub mpimts_initsz : ℕ
mpimts_initsz = 16

-- `a[i] = x`
abbrev pub put {ℓ} : {A : Type ℓ} → ℕ → A → (ℕ → A) → ℕ → A
put i x a j = if j == i then x else a j

-- `mpimts_setslots`; `ok` says whether all the four reallocs succeed, and so does the result.
unfoldable pub mpimts_setslots : Bool → ℕ → MpiMtsMgr → Bool × MpiMtsMgr
mpimts_setslots ok n mts =
    if leb n mts.nalloc
    then (true, mts)
    else if ok
    then (true, record mts { nalloc = n })
    else (false, mts)

-- `mpimts_init`, and `mpimts_afree` where it fails
unfoldable pub mpimts_init : Bool → ℕ → Bool × MpiMtsMgr
mpimts_init ok n =
    let (ret, mts) = mpimts_setslots ok n mpimtsmgr_init in
    if ret then (true, mts) else (false, mpimtsmgr_init)

-- the end of `mpimts_add`
abbrev pub add_slot : Mqe → ℕ → MpiMtsMgr → MpiMtsMgr
add_slot mqe req mts = record mts {
  mqes = put mts.nused (some mqe) mts.mqes;
  reqs = put mts.nused req mts.reqs;
  nused = mts.nused + 1;
}

-- `mpimts_add`
unfoldable pub mpimts_add : Bool → Mqe → ℕ → MpiMtsMgr → Bool × MpiMtsMgr
mpimts_add ok mqe req mts =
    let (grown, mts1) =
      if mts.nused == mts.nalloc then mpimts_setslots ok (mts.nalloc * 2) mts else (true, mts) in
    if grown then (true, add_slot mqe req mts1) else (false, mts1)

-- What MPI_Testsome returns, and the constants of MPI that the code compares it with.
pub data TestRv : Type 0 where
  mpi_success mpi_err_in_status mpi_undefined mpi_failure : TestRv

-- An answer of MPI_Testsome: `got` is the length of `idxout`, and `reqs` the requests after it.
pub record Testsome : Type 0 where
  pub rv : TestRv
  pub idxout : List ℕ
  pub reqs : ℕ → ℕ

-- `mpimts_done` of what was in a slot; a NULL does not occur there.
abbrev pub mpimts_done : Option Mqe → Dtq → Dtq
mpimts_done none q = q
mpimts_done (some mqe) q = send_release mqe q

-- the loop that releases the sends that are complete, and the smallest index
unfoldable pub release_loop : List ℕ → ℕ → (ℕ → Option Mqe) → Dtq → ℕ × (ℕ → Option Mqe) × Dtq
release_loop [] firsthole mqes q = (firsthole, mqes, q)
release_loop (i ∷ idxout) firsthole mqes q =
    release_loop idxout (if ltb i firsthole then i else firsthole) (put i none mqes)
      (mpimts_done (mqes i) q)

-- the scan for an entry to pull, with at most `k` steps left
unfoldable pub pull : ℕ → ℕ → (ℕ → Option Mqe) → ℕ
pull zero pullfrom mqes = pullfrom
pull (suc k) pullfrom mqes = elim (mqes pullfrom) [
  | none ↦ pull k (suc pullfrom) mqes
  | some mqe ↦ pullfrom
]

-- The loop that fills the holes, with `k` slots left; `false` is the pull overflow.
unfoldable pub fill_loop :
    ℕ → ℕ → ℕ → ℕ → (ℕ → Option Mqe) → (ℕ → ℕ) → Bool × (ℕ → Option Mqe) × (ℕ → ℕ)
fill_loop zero nused lcv pullfrom mqes reqs = (true, mqes, reqs)
fill_loop (suc k) nused lcv pullfrom mqes reqs =
    let p = pull (nused - pullfrom) pullfrom mqes in
    let rest =
      fill_loop k nused (suc lcv) (suc p) (put lcv (mqes p) mqes) (put lcv (reqs p) reqs) in
    elim (mqes lcv) [
      | some mqe ↦ fill_loop k nused (suc lcv) pullfrom mqes reqs
      | none ↦ if leb nused p then (false, mqes, reqs) else rest
    ]

-- the statistics
abbrev pub count_got : ℕ → MpiMtsMgr → MpiMtsMgr
count_got got mts = record mts {
  got1 = if got == 1 then mts.got1 + 1 else mts.got1;
  gotmore = if ltb 1 got then mts.gotmore + 1 else mts.gotmore;
  gotmax = if ltb mts.gotmax got then got else mts.gotmax;
}

-- `mpimts_test` once there is something to compact
unfoldable pub compact : ℕ → ℕ → MpiMtsMgr → MpiMtsMgr
compact got firsthole mts =
    let new_nused = mts.nused - got in
    let (ok, mqes', reqs') =
      fill_loop (new_nused - firsthole) mts.nused firsthole new_nused mts.mqes mts.reqs in
    record mts { mqes = mqes'; reqs = reqs'; nused = if ok then new_nused else 0 }

-- `mpimts_test` with at least one send complete
unfoldable pub retire : ℕ → List ℕ → MpiMtsMgr → Dtq → MpiMtsMgr × Dtq
retire first idxout mts q =
    let (firsthole, mqes', q') = release_loop idxout first mts.mqes q in
    let mts1 = record (count_got (length idxout) mts) { mqes = mqes' } in
    (
      if leb mts.nused (length idxout)
          then record mts1 { nused = 0 }
          else compact (length idxout) firsthole mts1,
      q',
    )

abbrev pub test_complete : List ℕ → MpiMtsMgr → Dtq → MpiMtsMgr × Dtq
test_complete [] mts q = (mts, q)
test_complete (i ∷ idxout) mts q = retire i (i ∷ idxout) mts q

abbrev test_answer : TestRv → List ℕ → MpiMtsMgr → Dtq → Bool × MpiMtsMgr × Dtq
test_answer mpi_undefined idxout mts q = (true, record mts { nused = 0 }, q)
test_answer mpi_failure idxout mts q = (false, mts, q)
test_answer mpi_success idxout mts q =
    let (mts1, q1) = test_complete idxout mts q in (true, mts1, q1)
test_answer mpi_err_in_status idxout mts q =
    let (mts1, q1) = test_complete idxout mts q in (true, mts1, q1)

-- `mpimts_test`; `false` is -1.
unfoldable pub mpimts_test : Testsome → MpiMtsMgr → Dtq → Bool × MpiMtsMgr × Dtq
mpimts_test t mts q =
    if mts.nused == 0
    then (true, mts, q)
    else test_answer t.rv t.idxout (record mts { ntestsome = mts.ntestsome + 1; reqs = t.reqs }) q

-- The loop of `mpimts_finalize`: the requests that are freed, where `null` is MPI_REQUEST_NULL.
unfoldable pub finalize_loop : ℕ → ℕ → ℕ → (ℕ → Option Mqe) → (ℕ → ℕ) → List ℕ → Dtq → List ℕ × Dtq
finalize_loop null zero lcv mqes reqs freed q = (freed, q)
finalize_loop null (suc k) lcv mqes reqs freed q =
    finalize_loop null k (suc lcv) mqes reqs (if reqs lcv == null then freed else reqs lcv ∷ freed)
      (mpimts_done (mqes lcv) q)

-- `mpimts_finalize`, which ends in `mpimts_afree`
unfoldable pub mpimts_finalize : ℕ → MpiMtsMgr → Dtq → List ℕ × MpiMtsMgr × Dtq
mpimts_finalize null mts q =
    let (freed, q') = finalize_loop null mts.nused 0 mts.mqes mts.reqs [] q in
    (freed, mpimtsmgr_init, q')
