-- ===== src/Shm/Arena/Driver.antt =====
-- What an arena promises its callers, and what a driver of libdthread/dt_shmops.c has to do for it.
use dthread.Base.{
  ℕ, zero, suc, ◌+◌, ◌/◌, ◌%◌, ◌≤◌, ◌<◌, ◌≡◌, ◌⊎◌, refl, none, some, List, [], ◌∷◌, ◌++◌, length,
  arith,
}
use dthread.Shm.{ShmRef}
use dthread.Shm.Segment.{Got}
use dthread.Shm.Break.{AllocMd}
use dthread.Shm.Arena.{AllocOps, bits_and}

-- Two blocks do not overlap.
abbrev pub Disjoint : ShmRef → ShmRef → Type 0
Disjoint r s = (r.dt_offset + r.dt_length ≤ s.dt_offset) ⊎ (s.dt_offset + s.dt_length ≤ r.dt_offset)

abbrev pub All : (ShmRef → Type 0) → List ShmRef → Type 0
All P [] = Unit
All P (r ∷ rs) = P r × All P rs

-- No two of the blocks overlap.
abbrev pub Apart : List ShmRef → Type 0
Apart [] = Unit
Apart (r ∷ rs) = All (Disjoint r) rs × Apart rs

-- A block lies in the user's part of the arena, at an aligned offset.
pub record Inside (a : ShmRef) (md : AllocMd) (r : ShmRef) : Type 0 where
  pub shmid : r.dt_shmid ≡ a.dt_shmid
  pub from : md.min_uoffset ≤ r.dt_offset
  pub to : r.dt_offset + r.dt_length ≤ md.max_uoffset
  pub aligned : r.dt_offset % 16 ≡ 0

-- The abstract view of an arena `a` with the metadata `md`: `Uses s live` says that in the memory
-- `s` the blocks `live` are in use. A driver keeps them apart and inside the arena; `malloc` adds one
-- block of the size asked for, or fails; `free` takes one away, and does not read its length.
pub record Driver (S : Type 0) (md_at : ShmRef → S → AllocMd) (ops : AllocOps S) (a : ShmRef)
    (md : AllocMd) : Type 1 where
  pub Uses : S → List ShmRef → Type 0
  pub max_size : ℕ
  pub max_blocks : ℕ
  pub same_md : (s : S) (live : List ShmRef) → Uses s live → md_at a s ≡ md
  pub all_inside : (s : S) (live : List ShmRef) → Uses s live → All (Inside a md) live
  pub all_apart : (s : S) (live : List ShmRef) → Uses s live → Apart live
  pub on_malloc :
      (s : S) (live : List ShmRef) (size : ℕ) (got : Got)
      → Uses s live
      → size ≤ max_size
      → suc (length live) < max_blocks
      → (ops.malloc a size s).0 ≡ some got
      → (got.1.dt_length ≡ size) × Uses (ops.malloc a size s).1 (got.1 ∷ live)
  pub on_refusal :
      (s : S) (live : List ShmRef) (size : ℕ)
      → Uses s live
      → size ≤ max_size
      → suc (length live) < max_blocks
      → (ops.malloc a size s).0 ≡ none
      → (ops.malloc a size s).1 ≡ s
  pub on_free :
      (s : S) (pre : List ShmRef) (ref : ShmRef) (post : List ShmRef) (len : ℕ)
      → Uses s (pre ++ ref ∷ post)
      → Uses (ops.free a (record ref { dt_length = len }) s) (pre ++ post)

pub All-middle :
    (P : ShmRef → Type 0) (pre : List ShmRef) (ref : ShmRef) (post : List ShmRef)
    → All P (pre ++ ref ∷ post)
    → P ref
All-middle P [] ref post (p, v) = p
All-middle P (r ∷ pre) ref post (p, v) = All-middle P pre ref post v

bits_and_zero : (n a : ℕ) → bits_and n a 0 ≡ 0
unfolding bits_and
bits_and_zero zero a = refl
bits_and_zero (suc n) a = omega (arith, bits_and_zero n (a / 2))

-- `& 15` is the remainder modulo 16.
pub bits_and_15 : (a : ℕ) → bits_and 64 a 15 ≡ a % 16
unfolding bits_and
bits_and_15 a = omega (arith, bits_and_zero 60 (a / 2 / 2 / 2 / 2))
