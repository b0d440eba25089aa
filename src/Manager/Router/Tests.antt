-- ===== src/Manager/Router/Tests.antt =====
-- The broadcast tree of libdthread/dt_mgrthread.c in a job of five ranks with root 3.
use dthread.Base.{ℕ}

abbrev forwarder : ℕ
forwarder = 4
