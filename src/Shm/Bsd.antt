-- ===== src/Shm/Bsd.antt =====
-- The bsd driver of libdthread/dt_shmops.c: `bsd_init`, `bsd_morecore`, `bsd_malloc`, `bsd_free` and
-- `bsd_realloc`. The overhead word of a block is read at its offset in the segment, and `copies`
-- records the calls of `memcpy` (to, from, length). An int that meets a `uint64_t` is converted to
-- it, and a shift of an int is that of x86-64, which takes the count modulo 32.
pub mod Search
pub mod Sizes
pub mod Blocks
pub mod Morecore
pub mod Take
pub mod Malloc
pub mod Free
pub mod Realloc
pub mod Init
pub mod Overflow
mod Tests
use dthread.Base.{
  ℕ, zero, suc, ◌+◌, ◌-◌, ◌*◌, ◌/◌, ◌%◌, ◌^◌, Bool, true, false, not, ◌&&◌, ◌||◌, Option, none,
  some, List, [], ◌∷◌, ◌++◌, if◌then◌else◌, ◌==◌, ltb, leb, get_or, set,
}
use dthread.Shm.{ShmRef, ShmMap, shmref2ptr}
use dthread.Shm.Segment.{align, Got}
use dthread.Shm.Break.{AllocMd, word, sub64, mdalign_size}

-- `struct bsd_malloc_md`, and the memory that the driver reads and writes
pub record BsdMd : Type 0 where
  pub amd : AllocMd
  pub open amd use *
  pub oversize : ℕ
  pub minbucket : ℕ
  pub pagesz : ℕ
  pub pagebucket : ℕ
  pub nextf : List ℕ
  pub nmalloc : List ℕ
  pub mycore : ℕ
  pub core_resid : ℕ
  pub ov : ℕ → ℕ
  pub copies : List (ℕ × ℕ × ℕ)

abbrev pub nbuckets : ℕ
nbuckets = 60

-- MAGIC, OV_MAGIC, OV_INDEX and OV_MAGIDX
abbrev pub magic : ℕ
magic = 21845

abbrev pub ov_magic : ℕ → ℕ
ov_magic x = x % 2 ^ 16

abbrev pub ov_index : ℕ → ℕ
ov_index x = x / 2 ^ 16 % 2 ^ 8

abbrev pub ov_magidx : ℕ → ℕ
ov_magidx i = i % 2 ^ 8 * 2 ^ 16 + magic

-- `1 << k` of an int, for a `k` below 31
abbrev pub shl1 : ℕ → ℕ
shl1 zero = 1
shl1 (suc k) = 2 * shl1 k

-- BUCKSIZE, as a `uint64_t`: from bucket 27 on the int overflows.
unfoldable pub buck_size : ℕ → ℕ
buck_size x = if (x + 4) % 32 == 31 then word - 2 ^ 31 else shl1 ((x + 4) % 32)

-- the overhead words with the one at `o` replaced
abbrev pub write_ov : ℕ → ℕ → (ℕ → ℕ) → ℕ → ℕ
write_ov o w ov x = if x == o then w else ov x

-- The loop at the end of `bsd_morecore`, with `--nblks` rounds left: the blocks from `off` on are
-- linked.
unfoldable pub link : ℕ → ℕ → ℕ → (ℕ → ℕ) → ℕ → ℕ
link zero sz off ov = write_ov off 0 ov
link (suc n) sz off ov = link n sz (off + sz) (write_ov off (off + sz) ov)

abbrev pub core_amt : ℕ → BsdMd → ℕ
core_amt sz b = if ltb sz b.pagesz then b.pagesz else (sz + b.pagesz) % word

abbrev pub core_nblks : ℕ → BsdMd → ℕ
core_nblks sz b = if ltb sz b.pagesz then b.pagesz / sz else 1

-- the new blocks of `bsd_morecore`
unfoldable pub core_take : ℕ → ℕ → BsdMd → BsdMd
core_take bucket sz b = record b {
  mycore = b.mycore + core_amt sz b;
  core_resid = b.core_resid - core_amt sz b;
  nextf = set b.nextf bucket b.mycore;
  ov = link (core_nblks sz b - 1) sz b.mycore b.ov;
}

-- `bsd_morecore`
unfoldable pub bsd_morecore : List ShmMap → ℕ → BsdMd → BsdMd
bsd_morecore maps bucket b =
    let sz = buck_size bucket in
    let oref : ShmRef = record {
      dt_shmid = b.self.dt_shmid;
      dt_offset = b.mycore;
      dt_length = core_amt sz b;
    } in
    if ltb bucket b.minbucket || leb nbuckets bucket
    then b
    else if ltb b.core_resid (core_amt sz b)
    then b
    else elim (shmref2ptr maps oref (core_amt sz b)) [ none ↦ b | some op ↦ core_take bucket sz b ]

-- the loop of `bsd_init` over the overhead size, and those over the buckets
unfoldable pub overhead_loop : ℕ → ℕ → ℕ
overhead_loop zero oversize = oversize
overhead_loop (suc f) oversize =
    let rest = overhead_loop f (oversize + align) in if ltb oversize 8 then rest else oversize

unfoldable pub bucket_loop : ℕ → ℕ → ℕ → ℕ
bucket_loop zero limit bucket = bucket
bucket_loop (suc f) limit bucket =
    let rest = bucket_loop f limit (suc bucket) in
    if ltb (buck_size bucket) limit then rest else bucket

abbrev pub zeros : ℕ → List ℕ
zeros zero = []
zeros (suc n) = 0 ∷ zeros n

-- `bsd_init`, with `sizeof(struct bsd_malloc_md)` and `getpagesize()` as arguments; `none` is ENOMEM.
unfoldable pub bsd_init : List ShmMap → ShmRef → ℕ → ℕ → ℕ → BsdMd → Option BsdMd
bsd_init maps arena base md_basesize pagesz b =
    let mdsize = mdalign_size base md_basesize in
    let oversize = overhead_loop 8 0 in
    elim (shmref2ptr maps arena mdsize) [
      | none ↦ none
      | some p ↦ some (record b {
        amd = record (b.amd) { min_uoffset = b.self.dt_offset + mdsize; badalign_bits = align - 1 };
        oversize = oversize;
        minbucket = bucket_loop 28 (1 + oversize) 0;
        pagesz = pagesz;
        pagebucket = bucket_loop 28 pagesz 0;
        nextf = zeros nbuckets;
        nmalloc = zeros nbuckets;
        mycore = arena.dt_offset + mdsize;
        core_resid = arena.dt_length - mdsize;
      })
    ]

-- The result of the search for a bucket.
pub data Found : Type 0 where
  at : ℕ → Found
  too_large : Found
  out_of_fuel : Found

-- the loop of `bsd_malloc`, on `size_t`
unfoldable pub find_bucket : ℕ → ℕ → ℕ → ℕ → ℕ → Found
find_bucket zero size amt n bucket = out_of_fuel
find_bucket (suc f) size amt n bucket =
    let next = find_bucket f size ((amt + amt) % word) n (suc bucket) in
    if leb size ((amt + n) % word)
    then at bucket
    else if (amt + amt) % word == 0
    then too_large
    else next

-- The bucket for a size. An `amt` that is not 0 becomes 0 in at most 64 doublings.
unfoldable pub bucket_of : ℕ → BsdMd → Found
bucket_of size b =
    if leb size (sub64 (b.pagesz / 2) b.oversize)
    then find_bucket 65 size (buck_size b.minbucket) (sub64 0 b.oversize) b.minbucket
    else find_bucket 65 size b.pagesz (sub64 b.pagesz b.oversize) b.pagebucket

-- `bsd_malloc` once the free list of the bucket has a block at `ovoff`
unfoldable pub bsd_pop : ℕ → ℕ → ℕ → ℕ → BsdMd → Got × BsdMd
bsd_pop ovp ovoff bucket size b = (
  (
    ovp + b.oversize,
    record { dt_shmid = b.self.dt_shmid; dt_offset = ovoff + b.oversize; dt_length = size },
  ),
  record b {
    nextf = set b.nextf bucket (b.ov ovoff);
    ov = write_ov ovoff (ov_magidx bucket) b.ov;
    nmalloc = set b.nmalloc bucket ((get_or b.nmalloc bucket 0 + 1) % word);
  },
)

-- `bsd_malloc` after the call of `bsd_morecore`
unfoldable pub bsd_take : List ShmMap → ℕ → ℕ → BsdMd → Option Got × BsdMd
bsd_take maps bucket size b =
    let ovoff = get_or b.nextf bucket 0 in
    let ovref : ShmRef = record {
      dt_shmid = b.self.dt_shmid;
      dt_offset = ovoff;
      dt_length = b.oversize;
    } in
    if ovoff == 0 then (none, b) else elim (shmref2ptr maps ovref b.oversize) [
      | none ↦ (none, b)
      | some ovp ↦ (let (got, b') = bsd_pop ovp ovoff bucket size b in (some got, b'))
    ]

-- `bsd_malloc`
unfoldable pub bsd_malloc : List ShmMap → ℕ → BsdMd → Option Got × BsdMd
bsd_malloc maps size b = elim (bucket_of size b) [
  | too_large ↦ (none, b)
  | out_of_fuel ↦ (none, b)
  | at bucket ↦
      bsd_take maps bucket size
        (if get_or b.nextf bucket 0 == 0 then bsd_morecore maps bucket b else b)
]

-- the checks of `bsd_free` and `bsd_realloc` before that of the bucket
abbrev pub has_magic : ShmRef → BsdMd → Bool
has_magic ref b =
    not (ltb ref.dt_offset (b.min_uoffset + b.oversize))
    && ov_magic (b.ov (ref.dt_offset - b.oversize)) == magic

-- what `bsd_free` does under the lock
unfoldable pub bsd_push : ℕ → ℕ → BsdMd → BsdMd
bsd_push curoff bucket b = record b {
  ov = write_ov curoff (get_or b.nextf bucket 0) b.ov;
  nextf = set b.nextf bucket curoff;
  nmalloc = set b.nmalloc bucket (sub64 (get_or b.nmalloc bucket 0) 1);
}

-- `bsd_free`
unfoldable pub bsd_free : ShmRef → BsdMd → BsdMd
bsd_free ref b =
    let bucket = ov_index (b.ov (ref.dt_offset - b.oversize)) in
    if not (has_magic ref b)
    then b
    else if leb nbuckets bucket
    then b
    else bsd_push (ref.dt_offset - b.oversize) bucket b

-- `bucksize` and `prevbucksize` of `bsd_realloc`: the bytes that a block of the bucket has for the user
abbrev pub room_of : ℕ → BsdMd → ℕ
room_of bucket b =
    if ltb (buck_size bucket) b.pagesz
    then sub64 (buck_size bucket) b.oversize
    else (buck_size bucket + sub64 b.pagesz b.oversize) % word

abbrev pub prev_room : ℕ → BsdMd → ℕ
prev_room bucket b = if leb bucket b.minbucket then 0 else room_of (bucket - 1) b

abbrev pub same_bucket : ℕ → ℕ → BsdMd → Bool
same_bucket new_size bucket b =
    leb new_size (room_of bucket b)
    && (prev_room bucket b == 0 || ltb (prev_room bucket b) new_size)

-- a new block, the copy, and the end of the old block
unfoldable pub bsd_move : List ShmMap → ℕ → ShmRef → ℕ → ℕ → BsdMd → Option Got × BsdMd
bsd_move maps ptr inref new_size bucket b =
    let len : ℕ = if ltb new_size (room_of bucket b) then new_size else room_of bucket b in
    let (o, b1) = bsd_malloc maps new_size b in
    elim o [
      | none ↦ (none, b1)
      | some got ↦
          (some got, bsd_free inref (record b1 { copies = b1.copies ++ (got.0, ptr, len) ∷ [] }))
    ]

-- `bsd_realloc`; `ptr` is the local pointer of `inref`.
unfoldable pub bsd_realloc : List ShmMap → ℕ → ShmRef → ℕ → BsdMd → Option Got × BsdMd
bsd_realloc maps ptr inref new_size b =
    let bucket = ov_index (b.ov (inref.dt_offset - b.oversize)) in
    if not (has_magic inref b)
    then (none, b)
    else if ltb bucket b.minbucket || leb nbuckets bucket
    then (none, b)
    else if same_bucket new_size bucket b
    then (
      some (
        ptr,
        record { dt_shmid = inref.dt_shmid; dt_offset = inref.dt_offset; dt_length = new_size },
      ),
      b,
    )
    else bsd_move maps ptr inref new_size bucket b
