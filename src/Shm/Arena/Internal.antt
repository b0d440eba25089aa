-- ===== src/Shm/Arena/Internal.antt =====
-- `internal_mops[]` of libdthread/dt_shmops.c: the two drivers as tables of operations, on a memory
-- that holds an arena's contents at its segment and offset. Memory that no driver has written reads
-- as 0.
pub mod BreakDriver
pub mod BsdDriver
use mathlib.Core.Path.{fun_ext}
use dthread.Base.{
  ℕ, ◌+◌, ◌*◌, ◌≡◌, refl, ap, sym, ◌∙◌, subst, ◌++◌, Bool, true, false, ◌&&◌, Option, none, some,
  List, [], ◌∷◌, if◌then◌else◌, ◌==◌, arith,
}
use dthread.Types.Errno
use dthread.Shm.{ShmRef, ShmMap, map_at}
use dthread.Shm.Segment.{Got}
use dthread.Shm.Break.{AllocMd, Brk, break_init, break_malloc, break_free, break_realloc}
use dthread.Shm.Bsd.{BsdMd, bsd_init, bsd_malloc, bsd_free, bsd_realloc}
use dthread.Shm.Arena.{AllocOps, Dtrs}
use dthread.Shm.Arena.Driver.{All}

-- What lies at an arena's start: bare metadata, or the state of one of the drivers.
pub data ArenaMem : Type 0 where
  bare : AllocMd → ArenaMem
  brk : Brk → ArenaMem
  bsd : BsdMd → ArenaMem

abbrev pub Mem : Type 0
Mem = ℕ → ℕ → ArenaMem

abbrev pub mem_at : ShmRef → Mem → ArenaMem
mem_at a m = m a.dt_shmid a.dt_offset

abbrev pub put_mem : ShmRef → ArenaMem → Mem → Mem
put_mem a x m shmid offset =
    if shmid == a.dt_shmid && offset == a.dt_offset then x else m shmid offset

abbrev pub md_of : ArenaMem → AllocMd
md_of (bare md) = md
md_of (brk b) = b.amd
md_of (bsd b) = b.amd

abbrev pub md_at : ShmRef → Mem → AllocMd
md_at a m = md_of (mem_at a m)

abbrev pub put_md : AllocMd → Mem → Mem
put_md md m = put_mem md.self (bare md) m

-- the drivers' state over metadata that were just written
abbrev pub bare_brk : AllocMd → Brk
bare_brk md = record {
  amd = md;
  allocated = 0;
  hdrlen = 0;
  nalloc = 0;
  hdrs = λ o. record { before = 0; len_hi = 0; len_lo = 0; after = 0 };
  copies = [];
}

abbrev pub bare_bsd : AllocMd → BsdMd
bare_bsd md = record {
  amd = md;
  oversize = 0;
  minbucket = 0;
  pagesz = 0;
  pagebucket = 0;
  nextf = [];
  nmalloc = [];
  mycore = 0;
  core_resid = 0;
  ov = λ o. 0;
  copies = [];
}

-- `sizeof` of the two drivers' metadata
abbrev pub break_md_size : ℕ
break_md_size = 80

abbrev pub bsd_md_size : ℕ
bsd_md_size = 1056

abbrev pub local_ptr : List ShmMap → ShmRef → ℕ
local_ptr maps r = (map_at maps r.dt_shmid).mapping + r.dt_offset

-- the new state of the arena beside a result
abbrev pub stored {ℓ} : {A : Type ℓ} {B : Type 0} → (B → ArenaMem) → ShmRef → Mem → A × B → A × Mem
stored f a m (r, b) = (r, put_mem a (f b) m)

module _ (maps : List ShmMap) (a : ShmRef) where
  -- the drivers' functions on the arena `a`, with what lies there
  abbrev pub break_malloc_in : ℕ → ArenaMem → Mem → Option Got × Mem
  break_malloc_in size (brk b) m =
      stored brk a m (break_malloc (map_at maps a.dt_shmid).mapping a size b)
  break_malloc_in size _ m = (none, m)

  abbrev pub break_free_in : ShmRef → ArenaMem → Mem → Mem
  break_free_in ref (brk b) m = put_mem a (brk (break_free ref b)) m
  break_free_in ref _ m = m

  abbrev pub break_realloc_in : ShmRef → ℕ → ArenaMem → Mem → Option Got × Mem
  break_realloc_in ref size (brk b) m =
      stored brk a m (break_realloc (map_at maps a.dt_shmid).mapping a ref size b)
  break_realloc_in ref size _ m = (none, m)

  abbrev pub bsd_malloc_in : ℕ → ArenaMem → Mem → Option Got × Mem
  bsd_malloc_in size (bsd b) m = stored bsd a m (bsd_malloc maps size b)
  bsd_malloc_in size _ m = (none, m)

  abbrev pub bsd_free_in : ShmRef → ArenaMem → Mem → Mem
  bsd_free_in ref (bsd b) m = put_mem a (bsd (bsd_free ref b)) m
  bsd_free_in ref _ m = m

  abbrev pub bsd_realloc_in : ShmRef → ℕ → ArenaMem → Mem → Option Got × Mem
  bsd_realloc_in ref size (bsd b) m =
      stored bsd a m (bsd_realloc maps (local_ptr maps ref) ref size b)
  bsd_realloc_in ref size _ m = (none, m)

-- `internal_mops[0]`
unfoldable pub break_ops : List ShmMap → AllocOps Mem
break_ops maps = record {
  name = "break";
  init = λ a m. elim (break_init maps a (local_ptr maps a) break_md_size (bare_brk (md_at a m))) [
    | none ↦ (Errno.enomem, m)
    | some b ↦ (0, put_mem a (brk b) m)
  ];
  finalize = λ a m. (0, m);
  malloc = λ a size m. break_malloc_in maps a size (mem_at a m) m;
  free = λ a ref m. break_free_in maps a ref (mem_at a m) m;
  realloc = λ a ref size m. break_realloc_in maps a ref size (mem_at a m) m;
}

-- `internal_mops[1]`, with `getpagesize()` as an argument
unfoldable pub bsd_ops : List ShmMap → ℕ → AllocOps Mem
bsd_ops maps pagesize = record {
  name = "bsd";
  init = λ a m.
      elim (bsd_init maps a (local_ptr maps a) bsd_md_size pagesize (bare_bsd (md_at a m))) [
        | none ↦ (Errno.enomem, m)
        | some b ↦ (0, put_mem a (bsd b) m)
      ];
  finalize = λ a m. (0, m);
  malloc = λ a size m. bsd_malloc_in maps a size (mem_at a m) m;
  free = λ a ref m. bsd_free_in maps a ref (mem_at a m) m;
  realloc = λ a ref size m. bsd_realloc_in maps a ref size (mem_at a m) m;
}

unfoldable pub internal_mops : List ShmMap → ℕ → List (AllocOps Mem)
internal_mops maps pagesize = break_ops maps ∷ bsd_ops maps pagesize ∷ []

pub put_mem_self : (a : ShmRef) (x : ArenaMem) (m : Mem) → mem_at a (put_mem a x m) ≡ x
put_mem_self a x m = ground arith

-- To write what is there changes nothing.
pub put_mem-same : (a : ShmRef) (m : Mem) → put_mem a (mem_at a m) m ≡ m
put_mem-same a m = fun_ext λ s. fun_ext λ o. ground arith

pub put_mem-eq : (a : ShmRef) (x : ArenaMem) (m : Mem) → mem_at a m ≡ x → put_mem a x m ≡ m
put_mem-eq a x m e = subst (λ y. put_mem a y m ≡ m) e (put_mem-same a m)

abbrev pub InSegment : ShmRef → List ShmRef → Type 0
InSegment a live = All (λ r. r.dt_shmid ≡ a.dt_shmid) live

pub InSegment-remove :
    (a : ShmRef) (pre : List ShmRef) (ref : ShmRef) (post : List ShmRef)
    → InSegment a (pre ++ ref ∷ post)
    → InSegment a (pre ++ post)
InSegment-remove a [] ref post (x, v) = v
InSegment-remove a (r ∷ pre) ref post (x, v) = (x, InSegment-remove a pre ref post v)
