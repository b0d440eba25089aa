-- ===== src/Shm.antt =====
-- Shared memory: references and local pointers (libdthread/dt_ops.c), with the segment allocator
-- and the arena allocators in the children. A pointer is a number, and `none` is NULL.
pub mod RoundTrip
pub mod Segment
pub mod Break
pub mod Establish
pub mod Umap
pub mod Bsd
pub mod Arena
mod Tests
use dthread.Base.{
  ℕ, suc, ◌+◌, ◌-◌, Bool, true, false, ◌&&◌, not, Option, none, some, List, [], ◌∷◌, if◌then◌else◌,
  ◌==◌, ltb, leb, length, get_or,
}

-- `dthread_shmref_t`
pub record ShmRef : Type 0 where
  pub dt_shmid : ℕ
  pub dt_offset : ℕ
  pub dt_length : ℕ

-- `dthread_shmmap_t`
pub record ShmMap : Type 0 where
  pub mapping : ℕ
  pub md_offset : ℕ
  pub size : ℕ

abbrev pub no_map : ShmMap
no_map = record { mapping = 0; md_offset = 0; size = 0 }

abbrev pub map_at : List ShmMap → ℕ → ShmMap
map_at shmmap i = get_or shmmap i no_map

-- `dthread_shmref2ptr` of a reference that is not NULL
unfoldable pub shmref2ptr : List ShmMap → ShmRef → ℕ → Option ℕ
shmref2ptr shmmap ref len =
    if leb (length shmmap) ref.dt_shmid
    then none
    else if leb (map_at shmmap ref.dt_shmid).size ref.dt_offset
    then none
    else if ltb ((map_at shmmap ref.dt_shmid).size - ref.dt_offset) ref.dt_length
    then none
    else if not (len == 0) && ltb ref.dt_length len
    then none
    else some ((map_at shmmap ref.dt_shmid).mapping + ref.dt_offset)

-- the test of the loop of `dthread_ptr2shmref`
abbrev pub holds : ShmMap → ℕ → Bool
holds m ptr = leb m.mapping ptr && ltb (ptr - m.mapping) m.size

-- The loop, which starts at the segment `shmid`: the segment that holds the pointer, and the offset.
unfoldable pub find_seg : List ShmMap → ℕ → ℕ → Option (ℕ × ℕ)
find_seg [] shmid ptr = none
find_seg (m ∷ ms) shmid ptr =
    let further = find_seg ms (suc shmid) ptr in
    if holds m ptr then some (shmid, ptr - m.mapping) else further

-- `dthread_ptr2shmref`; `none` is EINVAL.
unfoldable pub ptr2shmref : List ShmMap → ℕ → ℕ → Option ShmRef
ptr2shmref shmmap ptr len = elim (find_seg shmmap 0 ptr) [
  | none ↦ none
  | some (shmid, offset) ↦
      if ltb ((map_at shmmap shmid).size - offset) len
      then none
      else some (record { dt_shmid = shmid; dt_offset = offset; dt_length = len })
]
