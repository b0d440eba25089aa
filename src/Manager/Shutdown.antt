-- ===== src/Manager/Shutdown.antt =====
-- `broadcast_shutdown` of libdthread/dt_mgrthread.c.
use dthread.Base.{ℕ, true, none, some, List, [], ◌∷◌}
use dthread.Types.{Msg, Mqe}
use dthread.Types.Op
use dthread.Types.SizeOf
use dthread.Queuing
use dthread.Queuing.{int_decr}
use dthread.Manager.State.{State, alloc_mqe, send_or_drop}
use dthread.Manager.Router.{binary_router}

abbrev pub shutdown_msg : ℕ → Mqe
shutdown_msg child = record {
  frame = Msg.header Op.bcastshutdown 0;
  flen = SizeOf.header;
  peer = child;
}

unfoldable pub broadcast_one : ℕ → State → State
broadcast_one c s =
    let (o, s1) = alloc_mqe s in elim o [ none ↦ s1 | some m ↦ send_or_drop (shutdown_msg c) s1 ]

unfoldable pub broadcast_to : List ℕ → State → State
broadcast_to [] s = s
broadcast_to (c ∷ cs) s = broadcast_to cs (broadcast_one c s)

-- `broadcast_shutdown`
unfoldable pub broadcast_shutdown : State → State
broadcast_shutdown s =
    let s1 = broadcast_to (binary_router 0 s.mpi_wsize s.mpi_rank) s in
    record s1 {
      dtq = Queuing.set_notifytimelimit 10 (Queuing.send_draindown s1.dtq).1;
      draining = true;
    }
