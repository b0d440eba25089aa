-- ===== src/Shm/Arena.antt =====
-- The arena calls of libdthread/dt_shmops.c: the default arena, `dthread_shm_validate_args`, and
-- `dthread_shm_malloc`, `free`, `realloc` with their variants, over drivers with the operations
-- `dthread_shm_alloc_ops_t`. `S` is what lies in shared memory: `md_at` reads the metadata at the start
-- of an arena. A pointer that may be NULL is an Option.
pub mod Select
pub mod Driver
pub mod Internal
pub mod Client
pub mod Contract
mod Tests
use Prim.Native.String.{String}
use text.Mathlib.Text.{◌==◌ as str_eq}
use dthread.Base.{
  ℕ, zero, suc, ◌+◌, ◌-◌, ◌*◌, ◌/◌, ◌%◌, Bool, true, false, not, ◌&&◌, ◌||◌, Option, none, some,
  List, [], ◌∷◌, ◌++◌, if◌then◌else◌, ◌==◌, ltb, leb, length, get_elem?,
}
use dthread.Types.Errno
use dthread.Shm.{ShmRef, ShmMap, shmref2ptr, ptr2shmref}
use dthread.Shm.Segment.{Got, Seg, shmseg_alloc}
use dthread.Shm.Break.{AllocMd}

-- `dthread_shm_alloc_ops_t`. `malloc` and `realloc` fill in the new reference where the caller gives
-- room for one.
pub record AllocOps (S : Type 0) : Type 0 where
  pub name : String
  pub init : ShmRef → S → ℕ × S
  pub finalize : ShmRef → S → ℕ × S
  pub malloc : ShmRef → ℕ → S → Option Got × S
  pub free : ShmRef → ShmRef → S → S
  pub realloc : ShmRef → ShmRef → ℕ → S → Option Got × S

-- The part of `dthread_dtrs_t` that the arena calls use. `internal` is `internal_mops[]` and `mop`
-- the user's table; `defarena` is `da_store` once the pointer to it is set.
pub record Dtrs (S : Type 0) : Type 0 where
  pub mpi_rank : ℕ
  pub pagesize : ℕ
  pub maps : List ShmMap
  pub segs : List Seg
  pub internal : List (AllocOps S)
  pub mop : List (AllocOps S)
  pub defarena : Option ShmRef
  pub da_src : ShmRef
  pub mem : S

-- DTHREAD_SHM_MD_MAGIC, and `sizeof(dthread_shm_alloc_md_t)`
abbrev pub shm_md_magic : ℕ
shm_md_magic = 7238525273042595888

abbrev pub md_size : ℕ
md_size = 64

-- `&` of two numbers of `n` bits
unfoldable pub bits_and : ℕ → ℕ → ℕ → ℕ
bits_and zero a b = 0
bits_and (suc n) a b = 2 * bits_and n (a / 2) (b / 2) + a % 2 * (b % 2)

abbrev pub misaligned : ℕ → AllocMd → Bool
misaligned x md = not (bits_and 64 x md.badalign_bits == 0)

-- `memcmp` of two references
abbrev pub same_ref : ShmRef → ShmRef → Bool
same_ref a b = a.dt_shmid == b.dt_shmid && a.dt_offset == b.dt_offset && a.dt_length == b.dt_length

-- What `dthread_shm_validate_args` gives on success.
pub record Valid (S : Type 0) : Type 0 where
  pub ops : AllocOps S
  pub arena : ShmRef
  pub md : AllocMd

-- the tests of a reference or of a pointer's reference; `x` is what has to be aligned
abbrev pub in_arena : ShmRef → AllocMd → ShmRef → ℕ → Bool
in_arena arena md ref x = not (
    not (ref.dt_shmid == arena.dt_shmid)
    || ltb ref.dt_offset md.min_uoffset
    || leb md.max_uoffset ref.dt_offset
    || misaligned x md)

-- the metadata that `dthread_shm_new_arena` writes before the driver's `init`
abbrev pub new_md : ShmRef → ℕ → AllocMd
new_md newarena mopid = record {
  mdmagic = shm_md_magic;
  self = newarena;
  min_uoffset = newarena.dt_offset + md_size;
  max_uoffset = newarena.dt_offset + newarena.dt_length;
  badalign_bits = 0;
  mopid = mopid;
}

module _ {S : Type 0} where
  -- the place of a name in a table of drivers
  abbrev pub find_name : List (AllocOps S) → String → Option ℕ
  find_name [] name = none
  find_name (m ∷ ms) name =
      let further : Option ℕ = elim (find_name ms name) [ none ↦ none | some i ↦ some (suc i) ] in
      if str_eq m.name name then some 0 else further

  -- `dthread_get_mopid`; `none` is -1.
  unfoldable pub get_mopid : String → Dtrs S → Option ℕ
  get_mopid name d = elim (find_name d.mop name) [
    | some lcv ↦ some (length d.internal + lcv)
    | none ↦ find_name d.internal name
  ]

  -- `mopid2ops` of a `mopid` that is not negative
  unfoldable pub mopid2ops : ℕ → Dtrs S → Option (AllocOps S)
  mopid2ops mopid d =
      if ltb mopid (length d.internal)
      then get_elem? d.internal mopid
      else if ltb mopid (length d.internal + length d.mop)
      then get_elem? d.mop (mopid - length d.internal)
      else none

  -- `dthread_shm_set_defaultarena`
  unfoldable pub set_defaultarena : ShmRef → Dtrs S → ℕ × Dtrs S
  set_defaultarena dflt d = if not (d.mpi_rank == 0) then (Errno.eperm, d) else elim d.defarena [
    | none ↦ (0, record d { defarena = some dflt; da_src = dflt })
    | some a ↦ (Errno.eexist, d)
  ]

  -- `dthread_shm_get_defaultarena`
  unfoldable pub get_defaultarena : Dtrs S → Option ShmRef × Dtrs S
  get_defaultarena d = elim d.defarena [
    | some a ↦ (some a, d)
    | none ↦
        if d.da_src.dt_length == 0
        then (none, d)
        else (some d.da_src, record d { defarena = some d.da_src })
  ]

  -- with a pointer: the reference to it as well
  unfoldable pub validate_ptr : ℕ → Valid S → Dtrs S → Option ShmRef
  validate_ptr ptr v d = elim (ptr2shmref d.maps ptr 0) [
    | none ↦ none
    | some ref ↦ if in_arena v.arena v.md ref ptr then some ref else none
  ]

  abbrev pub validate_ref : ShmRef → Valid S → Bool
  validate_ref inref v = in_arena v.arena v.md inref inref.dt_offset

  abbrev pub with_mem : S → Dtrs S → Dtrs S
  with_mem m d = record d { mem = m }

  module _ (md_at : ShmRef → S → AllocMd) where
    -- the metadata and the driver of an arena
    unfoldable pub validate_md : ShmRef → Dtrs S → Option (Valid S)
    validate_md arena d =
        let md = md_at arena d.mem in
        elim (shmref2ptr d.maps arena md_size) [
          | none ↦ none
          | some p ↦
              if not (md.mdmagic == shm_md_magic) || not (same_ref arena md.self)
              then none
              else elim (mopid2ops md.mopid d) [
                | none ↦ none
                | some mops ↦ some (record { ops = mops; arena = arena; md = md })
              ]
        ]

    -- `dthread_shm_validate_args` up to the tests of the pointer and the reference
    unfoldable pub validate_arena : Option ShmRef → Dtrs S → Option (Valid S) × Dtrs S
    validate_arena (some arena) d = (validate_md arena d, d)
    validate_arena none d =
        let (o, d') = get_defaultarena d in
        elim o [ none ↦ (none, d') | some arena ↦ (validate_md arena d', d') ]

    -- `dthread_shm_finalize_arena`
    unfoldable pub finalize_arena : Option ShmRef → Dtrs S → ℕ × Dtrs S
    finalize_arena arena d =
        let (o, d1) = validate_arena arena d in
        elim o [
          | none ↦ (Errno.einval, d1)
          | some v ↦ (let (rv, m) = v.ops.finalize v.arena d1.mem in (rv, with_mem m d1))
        ]

    -- `dthread_shm_malloc`
    unfoldable pub shm_malloc : Option ShmRef → ℕ → Dtrs S → Option Got × Dtrs S
    shm_malloc arena len d =
        let (o, d1) = validate_arena arena d in
        elim o [
          | none ↦ (none, d1)
          | some v ↦ (let (got, m) = v.ops.malloc v.arena len d1.mem in (got, with_mem m d1))
        ]

    -- `dthread_shm_free`
    unfoldable pub shm_free : Option ShmRef → Option ℕ → Dtrs S → Dtrs S
    shm_free arena none d = d
    shm_free arena (some ptr) d =
        let (o, d1) = validate_arena arena d in
        elim o [
          | none ↦ d1
          | some v ↦ elim (validate_ptr ptr v d1) [
            | none ↦ d1
            | some ref ↦ with_mem (v.ops.free v.arena ref d1.mem) d1
          ]
        ]

    -- `dthread_shm_free_ref`
    unfoldable pub shm_free_ref : Option ShmRef → Option ShmRef → Dtrs S → Dtrs S
    shm_free_ref arena none d = d
    shm_free_ref arena (some ref) d =
        let (o, d1) = validate_arena arena d in
        if ref.dt_length == 0 then d else elim o [
          | none ↦ d1
          | some v ↦ if validate_ref ref v then with_mem (v.ops.free v.arena ref d1.mem) d1 else d1
        ]

    -- `dthread_shm_realloc`
    unfoldable pub shm_realloc : Option ShmRef → Option ℕ → ℕ → Dtrs S → Option Got × Dtrs S
    shm_realloc arena none len d = shm_malloc arena len d
    shm_realloc arena (some ptr) len d =
        let (o, d1) = validate_arena arena d in
        elim o [
          | none ↦ (none, d1)
          | some v ↦ elim (validate_ptr ptr v d1) [
            | none ↦ (none, d1)
            | some ref ↦
                (let (got, m) = v.ops.realloc v.arena ref len d1.mem in (got, with_mem m d1))
          ]
        ]

    -- `dthread_shm_realloc_ref`
    unfoldable pub shm_realloc_ref :
        Option ShmRef → Option ShmRef → ℕ → Dtrs S → Option Got × Dtrs S
    shm_realloc_ref arena none len d = shm_malloc arena len d
    shm_realloc_ref arena (some inref) len d =
        let (o, d1) = validate_arena arena d in
        if inref.dt_length == 0 then shm_malloc arena len d else elim o [
          | none ↦ (none, d1)
          | some v ↦
              if validate_ref inref v
              then (let (got, m) = v.ops.realloc v.arena inref len d1.mem in (got, with_mem m d1))
              else (none, d1)
        ]

  -- `dthread_shm_new_arena`, with the write of the metadata as an argument: the error, and the new
  -- arena where one was allocated
  unfoldable pub new_arena :
      (AllocMd → S → S) → ℕ → String → ℕ → Bool → Dtrs S → ℕ × Option ShmRef × Dtrs S
  new_arena put_md shmid name size locked d =
      if not (size == 0) && ltb size d.pagesize
      then (Errno.einval, none, d)
      else elim (get_mopid name d) [
        | none ↦ (Errno.enoent, none, d)
        | some mopid ↦ elim (mopid2ops mopid d) [
          | none ↦ (Errno.enoent, none, d)
          | some mops ↦
              let (o, segs') = shmseg_alloc shmid size locked d.segs in
              elim o [
                | none ↦ (Errno.enomem, none, record d { segs = segs' })
                | some got ↦
                    let (rv, m) = mops.init got.1 (put_md (new_md got.1 mopid) d.mem) in
                    (rv, some got.1, record d { segs = segs'; mem = m })
              ]
        ]
      ]
