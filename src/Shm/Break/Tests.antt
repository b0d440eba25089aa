-- ===== src/Shm/Break/Tests.antt =====
-- The theorems on the break driver of libdthread/dt_shmops.c at a small arena.
use dthread.Base.{refl, List, [], ◌∷◌, arith}
use dthread.Shm.{ShmRef, ShmMap}
use dthread.Shm.Break.{Brk, break_malloc, break_take}
use dthread.Shm.Break.Blocks.{BreakInv}
use dthread.Shm.Break.Free.{History, empty, mallocs, History-BreakInv}

abbrev maps : List ShmMap
maps = record { mapping = 4096; md_offset = 0; size = 1024 } ∷ []

abbrev arena : ShmRef
arena = record { dt_shmid = 0; dt_offset = 128; dt_length = 512 }

-- a driver without blocks, with 96 bytes of metadata
abbrev fresh : Brk
fresh = record {
  amd = record {
    mdmagic = 0;
    self = arena;
    min_uoffset = 224;
    max_uoffset = 640;
    badalign_bits = 15;
    mopid = 0;
  };
  allocated = 96;
  hdrlen = 16;
  nalloc = 0;
  hdrs = λ o. record { before = 0; len_hi = 0; len_lo = 0; after = 0 };
  copies = [];
}

fresh-BreakInv : BreakInv arena fresh []
fresh-BreakInv = record {
  same_arena = refl;
  header = refl;
  low = omega arith;
  above = omega arith;
  inside = omega arith;
  fits = omega arith;
  count = refl;
  few = omega arith;
  stacked = tt;
  headed = tt;
}

abbrev one_block : Brk
one_block = (break_malloc 4096 arena 40 fresh).1

-- the block that the first call gives
abbrev block : ShmRef
block = record { dt_shmid = 0; dt_offset = 240; dt_length = 40 }

one_block-History : History 4096 arena one_block (block ∷ [])
unfolding break_malloc break_take
one_block-History =
    mallocs fresh [] 40 (4336, block) (empty fresh fresh-BreakInv) (omega arith) (omega arith) refl

History-BreakInv_example : BreakInv arena one_block (block ∷ [])
History-BreakInv_example = History-BreakInv one_block-History
