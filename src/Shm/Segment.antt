-- ===== src/Shm/Segment.antt =====
-- The segment allocator of libdthread/dt_segops.c: `dthread_shmseg_alloc`, `dthread_shm_segavail`
-- and `dthread_shm_seginfo`. `max_align_t` is aligned to 16, and a sum of `uint64_t` wraps.
pub mod Bounds
pub mod Apart
use dthread.Base.{
  ℕ, ◌+◌, ◌-◌, ◌%◌, ◌^◌, Bool, true, false, not, ◌||◌, Option, none, some, List, [], ◌∷◌,
  if◌then◌else◌, ◌==◌, ltb, leb, length, get_or, set,
}
use dthread.Types.Errno
use dthread.Shm.{ShmRef, ShmMap}

-- DTHREAD_SEG_MD_MAGIC
abbrev pub seg_md_magic_value : ℕ
seg_md_magic_value = 7238525345956979761

-- `dthread_shmseg_md_t`, without the lock
pub record SegMd : Type 0 where
  pub seg_md_magic : ℕ
  pub self : ShmRef
  pub srcflags : ℕ
  pub umapaddr : ℕ
  pub first_avail : ℕ
  pub end_avail : ℕ

-- A segment as a rank sees it: its entry of `shmmap[]`, and the metadata that lie in the segment.
pub record Seg : Type 0 where
  pub map : ShmMap
  pub open map use *
  pub md : SegMd

-- `dthread_seginfo_t`
pub record SegInfo : Type 0 where
  pub si_mapping : ℕ
  pub si_size : ℕ
  pub si_mdoffset : ℕ
  pub si_srcflags : ℕ
  pub si_umapaddr : ℕ
  pub si_firstavail : ℕ
  pub si_endavail : ℕ

abbrev pub align : ℕ
align = 16

-- the bytes that bring `n` up to a multiple of the alignment
abbrev pub pad_of : ℕ → ℕ
pad_of n = if n % align == 0 then 0 else align - n % align

-- `total = want + pad`, on `uint64_t`
abbrev pub total_of : ℕ → ℕ
total_of want = (want + pad_of want) % 2 ^ 64

abbrev pub good_magic : Seg → Bool
good_magic g = g.md.seg_md_magic == seg_md_magic_value

-- What an allocation gives: the local pointer, and the reference to it.
abbrev pub Got : Type 0
Got = ℕ × ShmRef

-- `total` bytes of the segment `shmid`
unfoldable pub seg_take : ℕ → ℕ → Seg → Got × Seg
seg_take shmid total g = (
  (
    g.mapping + g.md.first_avail,
    record { dt_shmid = shmid; dt_offset = g.md.first_avail; dt_length = total },
  ),
  record g { md = record (g.md) { first_avail = g.md.first_avail + total } },
)

-- what `dthread_shmseg_alloc` does under the lock
unfoldable pub seg_alloc : ℕ → ℕ → Seg → Option Got × Seg
seg_alloc shmid want g =
    let room = g.md.end_avail - g.md.first_avail in
    if leb g.size g.md.first_avail || leb g.md.end_avail g.md.first_avail
    then (none, g)
    else if total_of want == 0
    then (let (got, g') = seg_take shmid room g in (some got, g'))
    else if ltb room (total_of want)
    then (none, g)
    else (let (got, g') = seg_take shmid (total_of want) g in (some got, g'))

abbrev pub no_seg : Seg
no_seg = record {
  map = record { mapping = 0; md_offset = 0; size = 0 };
  md = record {
    seg_md_magic = 0;
    self = record { dt_shmid = 0; dt_offset = 0; dt_length = 0 };
    srcflags = 0;
    umapaddr = 0;
    first_avail = 0;
    end_avail = 0;
  };
}

abbrev pub seg_at : List Seg → ℕ → Seg
seg_at segs shmid = get_or segs shmid no_seg

-- `dthread_shmseg_alloc`; `locked` says whether the spin lock was had.
unfoldable pub shmseg_alloc : ℕ → ℕ → Bool → List Seg → Option Got × List Seg
shmseg_alloc shmid want locked segs =
    if leb (length segs) shmid
    then (none, segs)
    else if not (good_magic (seg_at segs shmid))
    then (none, segs)
    else if not locked
    then (none, segs)
    else (let (o, g) = seg_alloc shmid want (seg_at segs shmid) in (o, set segs shmid g))

-- `dthread_shm_segavail`; `none` is EINVAL.
unfoldable pub segavail : ℕ → List Seg → Option ShmRef
segavail shmid segs =
    let g = seg_at segs shmid in
    if leb (length segs) shmid
    then none
    else if not (good_magic g)
    then none
    else if ltb g.size g.md.first_avail || ltb g.md.end_avail g.md.first_avail
    then some (record { dt_shmid = shmid; dt_offset = g.md.end_avail; dt_length = 0 })
    else some (record {
      dt_shmid = shmid;
      dt_offset = g.md.first_avail;
      dt_length = g.md.end_avail - g.md.first_avail;
    })

-- `dthread_shm_seginfo`: the error, and what is filled in if it is 0.
unfoldable pub seginfo : ℕ → List Seg → ℕ × Option SegInfo
seginfo shmid segs =
    let g = seg_at segs shmid in
    if leb (length segs) shmid
    then (Errno.enoent, none)
    else if not (good_magic g)
        || not (g.md.self.dt_shmid == shmid)
        || not (g.md.self.dt_offset == 0)
        || not (g.md.self.dt_length == g.size)
    then (Errno.einval, none)
    else (
      0,
      some (record {
        si_mapping = g.mapping;
        si_size = g.size;
        si_mdoffset = g.md_offset;
        si_srcflags = g.md.srcflags;
        si_umapaddr = g.md.umapaddr;
        si_firstavail = g.md.first_avail;
        si_endavail = g.md.end_avail;
      }),
    )
