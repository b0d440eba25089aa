-- ===== src/Shm/Arena/Contract.antt =====
-- The arena calls of libdthread/dt_shmops.c over the two internal drivers.
use dthread.Base.{List, ℕ}
use dthread.Shm.{ShmRef, ShmMap}
use dthread.Shm.Break.{AllocMd}
use dthread.Shm.Arena.{Dtrs}
use dthread.Shm.Arena.Driver.{All, Apart, Inside}
use dthread.Shm.Arena.Internal.{Mem, md_at, break_ops, bsd_ops}
use dthread.Shm.Arena.Internal.BreakDriver.{break_driver}
use dthread.Shm.Arena.Internal.BsdDriver.{bsd_driver}
use dthread.Shm.Arena.Client.{Calls, Calls-Apart}

module _ (maps : List ShmMap) (a : ShmRef) (md : AllocMd) {d : Dtrs Mem} {live : List ShmRef} where
  -- Over the break driver: after any history of `dthread_shm_malloc`, `dthread_shm_free` and
  -- `dthread_shm_free_ref` on the arena, with sizes of at most 2^63 and less than 2^31 blocks at a
  -- time, the blocks that the callers hold do not overlap and lie in the user's part of the arena.
  pub break_ops-Calls-Apart :
      Calls md_at (break_ops maps) a md (break_driver maps a md) d live
      → Apart live × All (Inside a md) live
  break_ops-Calls-Apart c = Calls-Apart md_at (break_ops maps) a md (break_driver maps a md) c

  -- Over the bsd driver: after any history of `dthread_shm_malloc`, `dthread_shm_free` and
  -- `dthread_shm_free_ref` on the arena, with sizes of at most 1 GB, the blocks that the callers hold
  -- do not overlap and lie in the user's part of the arena.
  pub bsd_ops-Calls-Apart :
      (pagesize : ℕ)
      → Calls md_at (bsd_ops maps pagesize) a md (bsd_driver maps pagesize a md) d live
      → Apart live × All (Inside a md) live
  bsd_ops-Calls-Apart pagesize c =
      Calls-Apart md_at (bsd_ops maps pagesize) a md (bsd_driver maps pagesize a md) c
