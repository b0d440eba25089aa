-- ===== src/Shm/Break/Blocks.antt =====
-- The blocks that the break driver of libdthread/dt_shmops.c has given out.
use dthread.Base.{
  ℕ, ◌+◌, ◌-◌, ◌^◌, ◌≤◌, ◌<◌, ◌≡◌, true, false, List, [], ◌∷◌, ◌++◌, ◌==◌, arith, length,
}
use dthread.Shm.{ShmRef}
use dthread.Shm.Break.{Hdr, Brk, word, write_hdr, hdr_ok, size_of}

-- The blocks lie one behind the other, each with room for its header, from the newest down.
abbrev pub Stacked : ℕ → ℕ → List ShmRef → Type 0
Stacked low top [] = Unit
Stacked low top (ref ∷ refs) =
    (low + 16 ≤ ref.dt_offset)
    × (ref.dt_offset + ref.dt_length ≤ top)
    × Stacked low (ref.dt_offset - 16) refs

-- Each block has a valid header, which holds its length.
abbrev pub Headed : (ℕ → Hdr) → List ShmRef → Type 0
Headed hdrs [] = Unit
Headed hdrs (ref ∷ refs) =
    (hdr_ok (hdrs (ref.dt_offset - 16)) ≡ true)
    × (size_of (hdrs (ref.dt_offset - 16)) ≡ ref.dt_length)
    × Headed hdrs refs

-- What holds of the driver with the blocks `live`.
pub record BreakInv (arena : ShmRef) (b : Brk) (live : List ShmRef) : Type 0 where
  pub same_arena : b.self ≡ arena
  pub header : b.hdrlen ≡ 16
  pub low : arena.dt_offset ≤ b.min_uoffset
  pub above : b.min_uoffset ≤ arena.dt_offset + b.allocated
  pub inside : b.allocated ≤ arena.dt_length
  pub fits : arena.dt_offset + arena.dt_length < word
  pub count : b.nalloc ≡ length live
  pub few : length live < 2 ^ 31
  pub stacked : Stacked b.min_uoffset (arena.dt_offset + b.allocated) live
  pub headed : Headed b.hdrs live

pub Stacked-le :
    (low top top' : ℕ) (refs : List ShmRef)
    → top ≤ top'
    → Stacked low top refs
    → Stacked low top' refs
Stacked-le low top top' [] h s = tt
Stacked-le low top top' (ref ∷ refs) h (a, b, s) = (a, omega arith, s)

pub Stacked-remove :
    (low top : ℕ) (pre : List ShmRef) (ref : ShmRef) (post : List ShmRef)
    → Stacked low top (pre ++ ref ∷ post)
    → Stacked low top (pre ++ post)
Stacked-remove low top [] ref post (a, b, s) =
    Stacked-le low (ref.dt_offset - 16) top post (omega arith) s
Stacked-remove low top (r ∷ pre) ref post (a, b, s) =
    (a, b, Stacked-remove low (r.dt_offset - 16) pre ref post s)

pub Stacked-in :
    (low top : ℕ) (pre : List ShmRef) (ref : ShmRef) (post : List ShmRef)
    → Stacked low top (pre ++ ref ∷ post)
    → (low + 16 ≤ ref.dt_offset) × (ref.dt_offset + ref.dt_length ≤ top)
Stacked-in low top [] ref post (a, b, s) = (a, b)
Stacked-in low top (r ∷ pre) ref post (a, b, s) =
    let (c, d) = Stacked-in low (r.dt_offset - 16) pre ref post s in (c, omega arith)

-- A write above the blocks leaves their headers.
pub Headed-above :
    (low top o : ℕ) (h : Hdr) (hdrs : ℕ → Hdr) (refs : List ShmRef)
    → top ≤ o
    → Stacked low top refs
    → Headed hdrs refs
    → Headed (write_hdr o h hdrs) refs
Headed-above low top o h hdrs [] t s v = tt
Headed-above low top o h hdrs (ref ∷ refs) t (a, b, s) (x, y, v) =
    let ne : ref.dt_offset - 16 == o ≡ false = ground arith in
    (rw ne x, rw ne y, Headed-above low (ref.dt_offset - 16) o h hdrs refs (omega arith) s v)

-- A write to the header of one block leaves those of the others.
pub Headed-remove :
    (low top : ℕ) (h : Hdr) (hdrs : ℕ → Hdr) (pre : List ShmRef) (ref : ShmRef) (post : List ShmRef)
    → Stacked low top (pre ++ ref ∷ post)
    → Headed hdrs (pre ++ ref ∷ post)
    → Headed (write_hdr (ref.dt_offset - 16) h hdrs) (pre ++ post)
Headed-remove low top h hdrs [] ref post (a, b, s) (x, y, v) =
    Headed-above low (ref.dt_offset - 16) (ref.dt_offset - 16) h hdrs post (omega arith) s v
Headed-remove low top h hdrs (r ∷ pre) ref post (a, b, s) (x, y, v) =
    let (c, d) = Stacked-in low (r.dt_offset - 16) pre ref post s in
    let ne : r.dt_offset - 16 == ref.dt_offset - 16 ≡ false = ground arith in
    (rw ne x, rw ne y, Headed-remove low (r.dt_offset - 16) h hdrs pre ref post s v)
