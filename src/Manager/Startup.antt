-- ===== src/Manager/Startup.antt =====
-- The state in which `dthread_run` of libdthread/dt_init.c enters the manager of a rank, and the
-- start of `mgr_main` of libdthread/dt_mgrthread.c.
pub mod Reach
use dthread.Base.{ℕ, zero, suc, Bool, false, some, List, [], ◌∷◌, ◌+◌, if◌then◌else◌, ◌==◌}
use dthread.Types.{Argret}
use dthread.Queuing
use dthread.Manager.State.{State, Config, Gtab, Ltab, gtab_zero, ltab_zero}
use dthread.Manager.Main.{mgr_startapp}

-- `gtab[]` as `dthread_shm_bootstrap` clears it
abbrev pub init_gtab : ℕ → List Gtab
init_gtab zero = []
init_gtab (suc n) = gtab_zero ∷ init_gtab n

-- `ltab[]` from the entry `lcv` on, with the back pointers
abbrev pub init_ltab : ℕ → ℕ → List Ltab
init_ltab zero lcv = []
init_ltab (suc n) lcv =
    record ltab_zero { req = record ltab_zero.req { req_ltabidx = some lcv } }
    ∷ init_ltab n (suc lcv)

-- A rank as `dthread_init` and `dthread_run` set it up; what is not written there starts as 0.
unfoldable pub run_state : Config → List Bool → List ℕ → State
run_state cfg mem pcreate = record {
  cfg = cfg;
  seqsrc = cfg.mpi_rank + cfg.mpi_wsize;
  gtab = init_gtab cfg.nmaxthread;
  ltab = init_ltab cfg.nmaxthread 0;
  dtq = Queuing.init;
  draining = false;
  rpending = [];
  ltab_alloc = 0;
  ltab_lastslot = 0;
  threads_alloc = 0;
  threads_starting = 0;
  threads_running = 0;
  last_slot = 0;
  next_rank = 0;
  mem = mem;
  pcreate = pcreate;
  events = [];
  fault = false;
}

-- `mgr_main` up to its loop: rank 0 starts the main thread.
unfoldable pub mgr_boot : Argret → State → State
mgr_boot arg s = if s.mpi_rank == 0 then mgr_startapp arg s else s
