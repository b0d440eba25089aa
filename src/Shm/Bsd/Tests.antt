-- ===== src/Shm/Bsd/Tests.antt =====
-- The theorems on the bsd driver of libdthread/dt_shmops.c at a small arena, with pages of 64 bytes.
use dthread.Base.{◌+◌, ◌^◌, ◌≡◌, ◌≢◌, ◌⊎◌, refl, true, none, some, List, [], ◌∷◌, ◌++◌, arith}
use dthread.Shm.{ShmRef, ShmMap, shmref2ptr}
use dthread.Shm.Segment.{Got}
use dthread.Shm.Bsd.{
  BsdMd, buck_size, find_bucket, bucket_of, at, bsd_morecore, core_take, link, bsd_pop, bsd_take,
  bsd_malloc, bsd_free, bsd_realloc, same_bucket, overhead_loop, bucket_loop,
}
use dthread.Shm.Bsd.Sizes.{same_bucket-bucket_of}
use dthread.Shm.Bsd.Blocks.{BsdInv}
use dthread.Shm.Bsd.Take.{Mapped}
use dthread.Shm.Bsd.Malloc.{bsd_malloc-got}
use dthread.Shm.Bsd.Realloc.{bsd_free-twice, resized, NoRoom, Moved, bsd_realloc_lem, bucket}
use dthread.Shm.Bsd.Init.{fresh, fresh-BsdInv}
use dthread.Shm.Bsd.Overflow.{bsd_malloc-overflow}

abbrev maps : List ShmMap
maps = record { mapping = 4096; md_offset = 0; size = 8192 } ∷ []

abbrev arena : ShmRef
arena = record { dt_shmid = 0; dt_offset = 128; dt_length = 4096 }

-- the metadata before `bsd_init`
abbrev bare : BsdMd
bare = record {
  amd = record {
    mdmagic = 0;
    self = arena;
    min_uoffset = 192;
    max_uoffset = 4224;
    badalign_bits = 0;
    mopid = 1;
  };
  oversize = 0;
  minbucket = 0;
  pagesz = 0;
  pagebucket = 0;
  nextf = [];
  nmalloc = [];
  mycore = 0;
  core_resid = 0;
  ov = λ o. 0;
  copies = [];
}

-- the driver without blocks
abbrev start : BsdMd
start =
    fresh maps arena 4224 4096 1056 2 bare refl refl (omega arith) refl refl (omega arith)
      (omega arith) (omega arith)

start-BsdInv : BsdInv start []
start-BsdInv =
    fresh-BsdInv maps arena 4224 4096 1056 2 bare refl refl (omega arith) refl refl (omega arith)
      (omega arith) (omega arith) (omega arith)

start-Mapped : Mapped maps start
start-Mapped = record { known = omega arith; large = omega arith }

same_bucket-bucket_of_example :
    (same_bucket 20 3 start ≡ true → bucket_of 20 start ≡ at 3)
    × (bucket_of 20 start ≡ at 3 → same_bucket 20 3 start ≡ true)
same_bucket-bucket_of_example =
    same_bucket-bucket_of start start-BsdInv.geometry 20 3 (omega arith) (omega arith) (omega arith)

-- the driver with one block
abbrev one : BsdMd
one = (bsd_malloc maps 20 start).1

abbrev block : ShmRef
block = record { dt_shmid = 0; dt_offset = 1200; dt_length = 20 }

one-BsdInv : BsdInv one (block ∷ [])
unfolding bsd_malloc bucket_of find_bucket bsd_take bsd_pop bsd_morecore core_take link buck_size
    shmref2ptr overhead_loop bucket_loop
one-BsdInv =
    (bsd_malloc-got maps 20 start [] (5296, block) start-BsdInv start-Mapped (omega arith) refl).2

one-Mapped : Mapped maps one
unfolding bsd_malloc bucket_of find_bucket bsd_take bsd_pop bsd_morecore core_take link buck_size
    shmref2ptr overhead_loop bucket_loop
one-Mapped = record { known = omega arith; large = omega arith }

bsd_free-twice_example : bsd_free block (bsd_free block one) ≡ bsd_free block one
bsd_free-twice_example = bsd_free-twice one [] block [] one-BsdInv

bsd_realloc_example :
    let r = bsd_realloc maps 5296 block 100 one in
    ((bucket_of 100 one ≡ at (bucket one [] block [] one-BsdInv))
      × (r ≡ (some (5296, resized one [] block [] one-BsdInv 100), one))
      × BsdInv one ([] ++ resized one [] block [] one-BsdInv 100 ∷ []))
    ⊎ ((bucket_of 100 one ≢ at (bucket one [] block [] one-BsdInv))
        × ((NoRoom one [] block [] one-BsdInv maps 5296 100 one-Mapped × (r ≡ (none, one)))
            ⊎ Moved one [] block [] one-BsdInv maps 5296 100 one-Mapped r))
bsd_realloc_example =
    bsd_realloc_lem one [] block [] one-BsdInv maps 5296 100 one-Mapped (omega arith)

bsd_malloc-overflow_example :
    let (o, b') = bsd_malloc maps (2 ^ 31 + 100) start in
    ((got : Got) × (o ≡ some got) × (got.1.dt_length ≡ 2 ^ 31 + 100))
    × (b'.mycore ≡ start.mycore + start.pagesz)
bsd_malloc-overflow_example =
    bsd_malloc-overflow maps start [] start-BsdInv start-Mapped (2 ^ 31 + 100) (omega arith)
      (omega arith) refl (omega arith)
