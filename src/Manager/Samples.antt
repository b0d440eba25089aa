-- ===== src/Manager/Samples.antt =====
-- Small states for the tests of the manager (libdthread/dt_mgrthread.c): a job of two ranks with
-- two thread slots.
use dthread.Base.{ℕ, true, false, some, [], ◌∷◌}
use dthread.Types.{DThread, Argret, Attrs, Msg, Mqe, Request, ReqState, internal_init}
use dthread.Types.Op
use dthread.Types.SizeOf
use dthread.Queuing
use dthread.Manager.State.{State, Gtab, Ltab, gtab_zero, ltab_zero, lt_running}

-- the thread that runs on this rank
abbrev pub runner : Gtab
runner = record gtab_zero {
  allocated = true;
  seq = 2;
  disp_idx = 1;
  has_ltab = true;
  ret = record { argret_type = 2; inlinelen = 1; bytes = 9 ∷ [] };
}

abbrev pub running : Ltab
running = record ltab_zero {
  gtab_idx = 0;
  seq = 2;
  pth_state = lt_running;
  req = record internal_init { req_ltabidx = some 0; reqstate = ReqState.idle };
}

-- this rank, with one thread of its own
abbrev pub rank_with : ℕ → State
rank_with rank = record {
  cfg = record {
    mpi_rank = rank;
    mpi_wsize = 2;
    nmaxthread = 2;
    ndsps = 2;
    dsps =
        record { argproc = false; retproc = false }
        ∷ (record { argproc = false; retproc = false } ∷ []);
  };
  seqsrc = 4;
  gtab = runner ∷ (gtab_zero ∷ []);
  ltab = running ∷ (ltab_zero ∷ []);
  dtq = Queuing.init;
  draining = false;
  rpending = [];
  ltab_alloc = 1;
  ltab_lastslot = 0;
  threads_alloc = 1;
  threads_starting = 0;
  threads_running = 1;
  last_slot = 0;
  next_rank = 1;
  mem = true ∷ (true ∷ (true ∷ []));
  pcreate = 0 ∷ [];
  events = [];
  fault = false;
}

abbrev pub handle : DThread
handle = record { dt_index = 0; dt_seq = 2 }

abbrev pub from1 : Msg → ℕ → Mqe
from1 msg len = record { frame = msg; flen = len; peer = 1 }

abbrev pub attrs0 : Attrs
attrs0 = record { detached = false; stackaddr = 0; stacksize = 0; other = 0 }

abbrev pub no_arg : Argret
no_arg = record { argret_type = 1; inlinelen = 0; bytes = [] }

-- a request to create a thread, as the application hands it over
abbrev pub create_request : Request
create_request = record internal_init {
  req_ltabidx = some 0;
  reqstate = ReqState.busy;
  reqop = Op.create;
  mqe = some (record { frame = Msg.create 0 attrs0 1 no_arg; flen = SizeOf.create; peer = 0 });
}
