-- ===== src/Shm/Break/Init.antt =====
-- `break_init` of libdthread/dt_shmops.c, and `break_malloc` of a size that is too large.
use dthread.Base.{
  ℕ, ◌+◌, ◌-◌, ◌%◌, ◌≤◌, ◌<◌, ◌≡◌, ◌⊎◌, inl, inr, refl, ap, none, some, List, [], arith,
  Option-cases,
}
use dthread.Shm.{ShmRef, ShmMap, shmref2ptr}
use dthread.Shm.Segment.{align, Got}
use dthread.Shm.Break.{Brk, word, break_init, break_total, break_take, mdalign_size, break_malloc}
use dthread.Shm.Break.Blocks.{BreakInv}

-- the driver as `break_init` sets it up
abbrev ready : ℕ → ℕ → Brk → Brk
ready base md_basesize b = record b {
  amd = record (b.amd) {
    min_uoffset = b.self.dt_offset + mdalign_size base md_basesize;
    badalign_bits = align - 1;
  };
  allocated = mdalign_size base md_basesize;
  hdrlen = 16;
  nalloc = 0;
}

pub shmref2ptr_room :
    (maps : List ShmMap) (ref : ShmRef) (len ptr : ℕ)
    → shmref2ptr maps ref len ≡ some ptr
    → 0 < len
    → len ≤ ref.dt_length
unfolding shmref2ptr
shmref2ptr_room maps ref len ptr e p = ground (arith, e)

ready-BreakInv :
    (arena : ShmRef) (base md_basesize : ℕ) (b : Brk)
    → b.self ≡ arena
    → arena.dt_offset + arena.dt_length < word
    → mdalign_size base md_basesize ≤ arena.dt_length
    → BreakInv arena (ready base md_basesize b) []
ready-BreakInv arena base md_basesize b e f room =
    let off : b.self.dt_offset ≡ arena.dt_offset = ap (λ (x : ShmRef). x.dt_offset) e in
    record {
      same_arena = e;
      header = refl;
      low = ground (arith, off);
      above = ground (arith, off);
      inside = room;
      fits = f;
      count = refl;
      few = omega arith;
      stacked = tt;
      headed = tt;
    }

-- `break_init` leaves a driver with no blocks, if the arena has room for the metadata; otherwise it
-- fails.
pub break_init_lem :
    (maps : List ShmMap) (arena : ShmRef) (base md_basesize : ℕ) (b : Brk)
    → b.self ≡ arena
    → arena.dt_offset + arena.dt_length < word
    → 0 < md_basesize
    → ((break_init maps arena base md_basesize b ≡ none)
        × (shmref2ptr maps arena (mdalign_size base md_basesize) ≡ none))
      ⊎ ((b' : Brk) × (break_init maps arena base md_basesize b ≡ some b')
          × BreakInv arena b' []
          × ((base + b'.allocated) % align ≡ 0))
unfolding break_init
break_init_lem maps arena base md_basesize b e f p =
    let o = shmref2ptr maps arena (mdalign_size base md_basesize) in
    elim (Option-cases o) [
      | inl n ↦ inl (ground (arith, n), n)
      | inr (q, y) ↦ inr (
        ready base md_basesize b,
        ground (arith, y),
        ready-BreakInv arena base md_basesize b e f
            (shmref2ptr_room maps arena _ q y (omega arith)),
        ground arith,
      )
    ]

-- A size of 2^64 - 16 is not refused: with its header it wraps to 0, so the block is given out and
-- the break does not move.
pub break_malloc-wrap :
    (mapping : ℕ) (arena : ShmRef) (b : Brk)
    → b.hdrlen ≡ 16
    → let (o, b') = break_malloc mapping arena (word - 16) b in
      ((got : Got) × (o ≡ some got) × (got.1.dt_length ≡ word - 16)) × (b'.allocated ≡ b.allocated)
unfolding break_malloc break_take
break_malloc-wrap mapping arena b h =
    let e : break_total (word - 16) b ≡ 0 = ground (arith, h) in
    (((break_take mapping arena (word - 16) b).0, ground (arith, e), refl), ground (arith, e))
