-- ===== src/Shm/Establish.antt =====
-- `establish` of libdthread/dt_segops.c: a rank maps a segment and sets up or checks its metadata. The
-- answers of the system's calls are an argument, and the metadata in the segment are given by their
-- offset. Each failing path closes the descriptor, and unmaps what it has mapped.
pub mod Metadata
mod Tests
use dthread.Base.{
  ℕ, ◌+◌, ◌-◌, ◌*◌, ◌/◌, ◌%◌, ◌^◌, Bool, true, false, not, ◌&&◌, ◌||◌, if◌then◌else◌, ◌==◌, ltb,
  leb,
}
use dthread.Types.Errno
use dthread.Shm.{ShmRef, ShmMap}
use dthread.Shm.Segment.{SegMd, seg_md_magic_value}
use dthread.Shm.Break.{word, sub64}

-- `dthread_shmsrc_t`, without the file name
pub record ShmSrc : Type 0 where
  pub dt_srcflags : ℕ
  pub dt_mmoffset : ℕ
  pub dt_mmsize : ℕ
  pub dt_addr : ℕ
  pub dt_reserve_front : ℕ
  pub dt_reserve_back : ℕ

-- DTHREAD_SRC_DEV, DTHREAD_SRC_FILE, DTHREAD_SRC_PSHM and DTHREAD_SRC_ADDR
pub data SrcType : Type 0 where
  src_dev src_file src_pshm src_addr src_bad : SrcType

-- `dt_srcflags & DTHREAD_SRC_MASK`
abbrev pub src_type : ShmSrc → SrcType
src_type src =
    let t = src.dt_srcflags % 8 in
    if t == 1
    then src_dev
    else if t == 2
    then src_file
    else if t == 3
    then src_pshm
    else if t == 4
    then src_addr
    else src_bad

-- DTHREAD_SRC_UMAP
abbrev pub is_umap : ShmSrc → Bool
is_umap src = src.dt_srcflags / 8 % 2 == 1

-- MAP_FAILED with errno, or the address
pub data Mmap : Type 0 where
  map_failed : ℕ → Mmap
  mapped : ℕ → Mmap

-- The answers of the system's calls: 0 or errno, the size of the file, and mmap's.
pub record Os : Type 0 where
  pub open_ret : ℕ
  pub fstat_ret : ℕ
  pub st_size : ℕ
  pub ftruncate_ret : ℕ
  pub mmap_ret : Mmap
  pub spin_ret : ℕ

-- The result of the switch over the type: an error, or the new mapping and whether a descriptor is open.
pub data NewMapping : Type 0 where
  failed : ℕ → NewMapping
  got_mapping : ℕ → Bool → NewMapping

abbrev map_fd : Mmap → NewMapping
map_fd (map_failed e) = failed e
map_fd (mapped a) = got_mapping a true

-- DTHREAD_SRC_FILE and DTHREAD_SRC_PSHM
abbrev map_file : Os → ShmSrc → Bool → NewMapping
map_file os src initialize =
    let resized = os.st_size == (src.dt_mmoffset + src.dt_mmsize) % word in
    if not (os.open_ret == 0)
    then failed os.open_ret
    else if not (os.fstat_ret == 0)
    then failed os.fstat_ret
    else if initialize && not resized && not (os.ftruncate_ret == 0)
    then failed os.ftruncate_ret
    else if not initialize && not resized
    then failed Errno.eio
    else map_fd os.mmap_ret

abbrev map_type : SrcType → Os → ShmSrc → Bool → NewMapping
map_type src_dev os src initialize =
    if not (os.open_ret == 0) then failed os.open_ret else map_fd os.mmap_ret
map_type src_file os src initialize = map_file os src initialize
map_type src_pshm os src initialize = map_file os src initialize
map_type src_addr os src initialize =
    if is_umap src then failed Errno.einval else got_mapping src.dt_addr false
map_type src_bad os src initialize = failed Errno.einval

unfoldable pub new_mapping : Os → ShmSrc → Bool → NewMapping
new_mapping os src initialize = map_type (src_type src) os src initialize

-- the result: an error, or the new entry of `shmmap[]`, the metadata, and whether a descriptor is open
pub data Established : Type 0 where
  fails : ℕ → Established
  establishes : ShmMap → SegMd → Bool → Established

-- `newmdoffset`: behind the front reserve, at the next page
unfoldable pub md_offset_of : ℕ → ShmSrc → ℕ → ℕ
md_offset_of pagesize src newmapping =
    let mdptr = newmapping + src.dt_reserve_front in
    src.dt_reserve_front + (if mdptr % pagesize == 0 then 0 else pagesize - mdptr % pagesize)

-- the new metadata
abbrev pub fresh_md : ℕ → ShmSrc → ℕ → ℕ → SegMd
fresh_md pagesize src idx newmdoffset = record {
  seg_md_magic = seg_md_magic_value;
  self = record { dt_shmid = idx; dt_offset = 0; dt_length = src.dt_mmsize };
  srcflags = src.dt_srcflags;
  umapaddr = 0;
  first_avail = newmdoffset + pagesize;
  end_avail = sub64 src.dt_mmsize src.dt_reserve_back;
}

abbrev bad_md : ShmSrc → ℕ → SegMd → Bool
bad_md src idx md =
    not (md.seg_md_magic == seg_md_magic_value)
    || not (md.self.dt_shmid == idx)
    || not (md.self.dt_offset == 0)
    || not (md.self.dt_length == src.dt_mmsize)

-- `establish` once there is a mapping. The metadata that another rank has set up are those that `mem`
-- has at their offset.
unfoldable pub use_mapping : Os → ℕ → ShmSrc → ℕ → Bool → (ℕ → SegMd) → ℕ → Bool → Established
use_mapping os pagesize src idx initialize mem newmapping fd =
    let newmdoffset = md_offset_of pagesize src newmapping in
    let map : ShmMap = record {
      mapping = newmapping;
      md_offset = newmdoffset;
      size = src.dt_mmsize;
    } in
    let md = fresh_md pagesize src idx newmdoffset in
    if initialize
    then if leb md.end_avail md.first_avail
      then fails Errno.einval
      else if not (os.spin_ret == 0)
      then fails os.spin_ret
      else establishes map md fd
    else if bad_md src idx (mem newmdoffset)
    then fails Errno.einval
    else establishes map (mem newmdoffset) fd

-- `establish`
unfoldable pub establish : Os → ℕ → ShmSrc → ℕ → Bool → (ℕ → SegMd) → Established
establish os pagesize src idx initialize mem =
    let totalreserve = (src.dt_reserve_front + src.dt_reserve_back) % word in
    if leb src.dt_mmsize totalreserve
    then fails Errno.einval
    else if ltb (src.dt_mmsize - totalreserve) (2 * pagesize)
    then fails Errno.einval
    else elim (new_mapping os src initialize) [
      | failed rv ↦ fails rv
      | got_mapping newmapping fd ↦ use_mapping os pagesize src idx initialize mem newmapping fd
    ]
