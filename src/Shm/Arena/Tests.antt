-- ===== src/Shm/Arena/Tests.antt =====
-- The theorems on the arena calls of libdthread/dt_shmops.c at a small arena.
use dthread.Base.{ℕ, ◌≤◌, ◌≡◌, ◌≢◌, ◌⊎◌, refl, none, some, List, [], ◌∷◌, length, arith}
use dthread.Shm.{ShmRef, ShmMap, shmref2ptr}
use dthread.Shm.Break.{AllocMd, Brk, break_malloc, break_take}
use dthread.Shm.Break.Blocks.{BreakInv}
use dthread.Shm.Bsd.{
  BsdMd, buck_size, find_bucket, bucket_of, bsd_morecore, core_take, link, bsd_pop, bsd_take,
  bsd_malloc, overhead_loop, bucket_loop,
}
use dthread.Shm.Bsd.Init.{fresh, fresh-BsdInv}
use dthread.Shm.Arena.{
  AllocOps, Dtrs, shm_md_magic, find_name, get_mopid, mopid2ops, validate_md, validate_arena,
  shm_malloc,
}
use dthread.Shm.Arena.Select.{get_mopid-mopid2ops}
use dthread.Shm.Arena.Driver.{All, Apart, Inside}
use dthread.Shm.Arena.Internal.{
  brk, bsd, Mem, md_at, break_ops, bsd_ops, internal_mops, bare_brk, bare_bsd,
}
use dthread.Shm.Arena.Internal.BreakDriver.{BreakUses, break_driver}
use dthread.Shm.Arena.Internal.BsdDriver.{BsdUses, bsd_driver}
use dthread.Shm.Arena.Client.{Ready, Calls}
use dthread.Shm.Arena.Contract.{break_ops-Calls-Apart, bsd_ops-Calls-Apart}

abbrev maps : List ShmMap
maps = record { mapping = 4096; md_offset = 0; size = 8192 } ∷ []

abbrev arena : ShmRef
arena = record { dt_shmid = 0; dt_offset = 128; dt_length = 4096 }

-- the metadata with the driver `mopid`, whose own metadata end at `low`
abbrev md_with : ℕ → ℕ → AllocMd
md_with low mopid = record {
  mdmagic = shm_md_magic;
  self = arena;
  min_uoffset = low;
  max_uoffset = 4224;
  badalign_bits = 15;
  mopid = mopid;
}

abbrev rank : Mem → Dtrs Mem
rank m = record {
  mpi_rank = 0;
  pagesize = 64;
  maps = maps;
  segs = [];
  internal = internal_mops maps 64;
  mop = [];
  defarena = none;
  da_src = record { dt_shmid = 0; dt_offset = 0; dt_length = 0 };
  mem = m;
}

-- an arena of the break driver
abbrev break_state : Brk
break_state = record (bare_brk (md_with 208 0)) { allocated = 80; hdrlen = 16 }

break_state-BreakInv : BreakInv arena break_state []
break_state-BreakInv = record {
  same_arena = refl;
  header = refl;
  low = omega arith;
  above = omega arith;
  inside = omega arith;
  fits = omega arith;
  count = refl;
  few = omega arith;
  stacked = tt;
  headed = tt;
}

abbrev break_rank : Dtrs Mem
break_rank = rank (λ s o. brk break_state)

break_rank-Ready : Ready md_at (break_ops maps) arena (md_with 208 0) break_rank
unfolding mopid2ops internal_mops shmref2ptr
break_rank-Ready = record {
  magic = refl;
  self = refl;
  align_bits = refl;
  ops_known = refl;
  mapped = λ e. (cc);
}

break_rank-Uses : BreakUses maps arena (md_with 208 0) (λ s o. brk break_state) []
break_rank-Uses = record {
  state = break_state;
  here = refl;
  amd_is = refl;
  end = refl;
  inv = break_state-BreakInv;
  low_aligned = refl;
  top_aligned = refl;
  aligned = tt;
  segment = tt;
}

abbrev block : ShmRef
block = record { dt_shmid = 0; dt_offset = 224; dt_length = 40 }

break_one : Dtrs Mem
break_one = (shm_malloc md_at (some arena) 40 break_rank).1

break_one-Calls :
    Calls md_at
      (break_ops maps)
      arena
      (md_with 208 0)
      (break_driver maps arena (md_with 208 0))
      break_one
      (block ∷ [])
unfolding break_one shm_malloc validate_arena validate_md mopid2ops internal_mops break_ops
    shmref2ptr break_malloc break_take break_driver
break_one-Calls =
    Calls.mallocs break_rank [] 40 (4320, block)
      (Calls.starts break_rank break_rank-Ready break_rank-Uses) (omega arith) (omega arith) refl

break_ops-Calls-Apart_example : Apart (block ∷ []) × All (Inside arena (md_with 208 0)) (block ∷ [])
break_ops-Calls-Apart_example = break_ops-Calls-Apart maps arena (md_with 208 0) break_one-Calls

-- an arena of the bsd driver
abbrev bsd_state : BsdMd
bsd_state =
    fresh maps arena 4224 4096 1056 2 (bare_bsd (md_with 1184 1)) refl refl (omega arith) refl refl
      (omega arith) (omega arith) (omega arith)

abbrev bsd_rank : Dtrs Mem
bsd_rank = rank (λ s o. bsd bsd_state)

bsd_rank-Ready : Ready md_at (bsd_ops maps 64) arena (md_with 1184 1) bsd_rank
unfolding mopid2ops internal_mops shmref2ptr
bsd_rank-Ready = record {
  magic = refl;
  self = refl;
  align_bits = refl;
  ops_known = refl;
  mapped = λ e. (cc);
}

bsd_rank-Uses : BsdUses maps 64 arena (md_with 1184 1) (λ s o. bsd bsd_state) []
bsd_rank-Uses = record {
  state = bsd_state;
  here = refl;
  amd_is = refl;
  self_is = refl;
  inv =
      fresh-BsdInv maps arena 4224 4096 1056 2 (bare_bsd (md_with 1184 1)) refl refl (omega arith)
        refl refl (omega arith) (omega arith) (omega arith) (omega arith);
  mapped = record { known = omega arith; large = omega arith };
  segment = tt;
}

abbrev bsd_block : ShmRef
bsd_block = record { dt_shmid = 0; dt_offset = 1200; dt_length = 20 }

bsd_one : Dtrs Mem
bsd_one = (shm_malloc md_at (some arena) 20 bsd_rank).1

bsd_one-Calls :
    Calls md_at
      (bsd_ops maps 64)
      arena
      (md_with 1184 1)
      (bsd_driver maps 64 arena (md_with 1184 1))
      bsd_one
      (bsd_block ∷ [])
unfolding bsd_one shm_malloc validate_arena validate_md mopid2ops internal_mops bsd_ops shmref2ptr
    bsd_malloc bucket_of find_bucket bsd_take bsd_pop bsd_morecore core_take link buck_size
    overhead_loop bucket_loop bsd_driver
bsd_one-Calls =
    Calls.mallocs bsd_rank [] 20 (5296, bsd_block)
      (Calls.starts bsd_rank bsd_rank-Ready bsd_rank-Uses) (omega arith) (omega arith) refl

bsd_ops-Calls-Apart_example :
    Apart (bsd_block ∷ []) × All (Inside arena (md_with 1184 1)) (bsd_block ∷ [])
bsd_ops-Calls-Apart_example = bsd_ops-Calls-Apart maps arena (md_with 1184 1) 64 bsd_one-Calls

get_mopid-mopid2ops_example :
    ((i : ℕ) × (m : AllocOps Mem) × (get_mopid "bsd" bsd_rank ≡ some i)
      × (mopid2ops i bsd_rank ≡ some m)
      × (m.name ≡ "bsd")
      × ((length bsd_rank.internal ≤ i) ⊎ (find_name bsd_rank.mop "bsd" ≡ none)))
    ⊎ ((get_mopid "bsd" bsd_rank ≡ none)
        × ((i : ℕ) (m : AllocOps Mem) → mopid2ops i bsd_rank ≡ some m → m.name ≢ "bsd"))
get_mopid-mopid2ops_example = get_mopid-mopid2ops "bsd" bsd_rank
