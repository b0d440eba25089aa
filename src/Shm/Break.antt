-- ===== src/Shm/Break.antt =====
-- The break driver of libdthread/dt_shmops.c: `mdalign_size`, `break_init`, `break_malloc`,
-- `break_free` and `break_realloc`. The header of a block is read at its offset in the segment, and
-- `copies` records the calls of `memcpy` (to, from, length).
pub mod Blocks
pub mod History
pub mod Free
pub mod Realloc
pub mod Init
mod Tests
use dthread.Base.{
  ℕ, ◌+◌, ◌-◌, ◌*◌, ◌/◌, ◌%◌, ◌^◌, Bool, true, false, not, ◌&&◌, ◌||◌, Option, none, some, List, [],
  ◌∷◌, ◌++◌, if◌then◌else◌, ◌==◌, ltb, leb,
}
use dthread.Queuing.{int_decr}
use dthread.Queuing.{int_incr}
use dthread.Shm.{ShmRef, ShmMap, shmref2ptr}
use dthread.Shm.Segment.{align, pad_of, Got}

-- `dthread_shm_alloc_md_t`, without the lock
pub record AllocMd : Type 0 where
  pub mdmagic : ℕ
  pub self : ShmRef
  pub min_uoffset : ℕ
  pub max_uoffset : ℕ
  pub badalign_bits : ℕ
  pub mopid : ℕ

-- the four words of a block's header
pub record Hdr : Type 0 where
  pub before : ℕ
  pub len_hi : ℕ
  pub len_lo : ℕ
  pub after : ℕ

-- `struct break_malloc_md`, and the memory that the driver reads and writes
pub record Brk : Type 0 where
  pub amd : AllocMd
  pub open amd use *
  pub allocated : ℕ
  pub hdrlen : ℕ
  pub nalloc : ℕ
  pub hdrs : ℕ → Hdr
  pub copies : List (ℕ × ℕ × ℕ)

-- BREAK_BEFORE, BREAK_AFTER, and the word that marks a header as free
abbrev pub break_before : ℕ
break_before = 3203407378

abbrev pub break_after : ℕ
break_after = 2937983813

abbrev pub dead_word : ℕ
dead_word = 3735936685

abbrev pub word : ℕ
word = 2 ^ 64

-- the word array `hdrs` with the header at `o` replaced
abbrev pub write_hdr : ℕ → Hdr → (ℕ → Hdr) → ℕ → Hdr
write_hdr o h hdrs x = if x == o then h else hdrs x

abbrev pub hdr_ok : Hdr → Bool
hdr_ok h = h.before == break_before && h.after == break_after

-- `old_size` of `break_realloc`
abbrev pub size_of : Hdr → ℕ
size_of h = h.len_hi * 2 ^ 32 + h.len_lo

abbrev pub new_hdr : ℕ → Hdr
new_hdr size = record {
  before = break_before;
  len_hi = size / 2 ^ 32;
  len_lo = size % 2 ^ 32;
  after = break_after;
}

-- `mdalign_size`, of metadata that start at the address `base`
abbrev pub mdalign_size : ℕ → ℕ → ℕ
mdalign_size base md_basesize = md_basesize + pad_of (base + md_basesize)

-- `break_init`, with `sizeof(struct break_malloc_md)` as an argument; `none` is ENOMEM.
unfoldable pub break_init : List ShmMap → ShmRef → ℕ → ℕ → Brk → Option Brk
break_init maps arena base md_basesize b =
    let mdsize = mdalign_size base md_basesize in
    elim (shmref2ptr maps arena mdsize) [
      | none ↦ none
      | some p ↦ some (record b {
        amd = record (b.amd) { min_uoffset = b.self.dt_offset + mdsize; badalign_bits = align - 1 };
        allocated = mdsize;
        hdrlen = 16;
        nalloc = 0;
      })
    ]

-- `size + pad + bmd->hdrlen`, on `size_t`
abbrev pub break_total : ℕ → Brk → ℕ
break_total size b = (size + pad_of size + b.hdrlen) % word

-- a difference of `uint64_t`
abbrev pub sub64 : ℕ → ℕ → ℕ
sub64 x y = (x + (word - y)) % word

unfoldable pub break_take : ℕ → ShmRef → ℕ → Brk → Got × Brk
break_take mapping arena size b =
    let start = arena.dt_offset + b.allocated in
    (
      (
        mapping + start + b.hdrlen,
        record { dt_shmid = arena.dt_shmid; dt_offset = start + b.hdrlen; dt_length = size },
      ),
      record b {
        hdrs = write_hdr start (new_hdr size) b.hdrs;
        allocated = b.allocated + break_total size b;
        nalloc = int_incr b.nalloc;
      },
    )

-- `break_malloc`; `mapping` is where the segment of the arena is mapped.
unfoldable pub break_malloc : ℕ → ShmRef → ℕ → Brk → Option Got × Brk
break_malloc mapping arena size b =
    if leb (break_total size b) (sub64 b.self.dt_length b.allocated)
    then (let (got, b') = break_take mapping arena size b in (some got, b'))
    else (none, b)

-- the checks of `break_free` and `break_realloc`
abbrev pub is_block : ShmRef → Brk → Bool
is_block ref b =
    not (ltb ref.dt_offset (b.min_uoffset + b.hdrlen)) && hdr_ok (b.hdrs (ref.dt_offset - b.hdrlen))

abbrev pub less_one : ℕ → ℕ
less_one n = if n == 0 then n else int_decr n

-- what `break_free` does under the lock
unfoldable pub break_drop : ShmRef → Brk → Brk
break_drop ref b =
    let o = ref.dt_offset - b.hdrlen in
    record b {
      hdrs = write_hdr o (record (b.hdrs o) { before = dead_word }) b.hdrs;
      nalloc = less_one b.nalloc;
      allocated =
          if less_one b.nalloc == 0 then sub64 b.min_uoffset b.self.dt_offset else b.allocated;
    }

-- `break_free`
unfoldable pub break_free : ShmRef → Brk → Brk
break_free ref b = if is_block ref b then break_drop ref b else b

-- a new block, the copy, and the end of the old block
unfoldable pub break_grow : ℕ → ShmRef → ShmRef → ℕ → Brk → Option Got × Brk
break_grow mapping arena inref new_size b =
    let old_size = size_of (b.hdrs (inref.dt_offset - b.hdrlen)) in
    let (o, b1) = break_malloc mapping arena new_size b in
    elim o [
      | none ↦ (none, b1)
      | some got ↦ (
        some got,
        break_free inref
            (record b1 { copies = b1.copies ++ (got.0, mapping + inref.dt_offset, old_size) ∷ [] }),
      )
    ]

-- `break_realloc`
unfoldable pub break_realloc : ℕ → ShmRef → ShmRef → ℕ → Brk → Option Got × Brk
break_realloc mapping arena inref new_size b =
    let old_size = size_of (b.hdrs (inref.dt_offset - b.hdrlen)) in
    if not (is_block inref b)
    then (none, b)
    else if leb new_size old_size
    then (
      some (
        mapping + inref.dt_offset,
        record { dt_shmid = arena.dt_shmid; dt_offset = inref.dt_offset; dt_length = new_size },
      ),
      b,
    )
    else break_grow mapping arena inref new_size b
