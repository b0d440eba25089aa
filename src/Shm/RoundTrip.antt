-- ===== src/Shm/RoundTrip.antt =====
-- `dthread_shmref2ptr` and `dthread_ptr2shmref` of libdthread/dt_ops.c undo each other.
use dthread.Base.{
  ℕ, zero, suc, ◌+◌, ◌-◌, ◌≤◌, ◌<◌, ◌≡◌, inl, inr, true, false, some, List, [], ◌∷◌, arith,
  Bool-cases, length,
}
use dthread.Shm.{ShmRef, ShmMap, map_at, shmref2ptr, holds, find_seg, ptr2shmref}

-- What the loop finds: a segment that holds the pointer.
find_seg-holds :
    (ms : List ShmMap) (i ptr shmid offset : ℕ)
    → find_seg ms i ptr ≡ some (shmid, offset)
    → (k : ℕ) × (shmid ≡ i + k)
      × (k < length ms)
      × (holds (map_at ms k) ptr ≡ true)
      × (offset ≡ ptr - (map_at ms k).mapping)
unfolding find_seg
find_seg-holds [] i ptr shmid offset e = cc
find_seg-holds (m ∷ ms) i ptr shmid offset e = elim (Bool-cases (holds m ptr)) [
  | inl h ↦ (0, ground (arith, h, e), ground arith, h, ground (arith, h, e))
  | inr h ↦
      let (k, s, l, t, o) = find_seg-holds ms (suc i) ptr shmid offset (ground (arith, h, e)) in
      (suc k, omega (arith, s), omega (arith, l), t, o)
]

ptr2shmref-found :
    (shmmap : List ShmMap) (ptr len : ℕ) (ref : ShmRef)
    → ptr2shmref shmmap ptr len ≡ some ref
    → (find_seg shmmap 0 ptr ≡ some (ref.dt_shmid, ref.dt_offset))
      × (ref.dt_length ≡ len)
      × (len ≤ (map_at shmmap ref.dt_shmid).size - ref.dt_offset)
unfolding ptr2shmref
ptr2shmref-found shmmap ptr len ref e = ground (arith, e)

-- A reference that `dthread_ptr2shmref` makes has the length that was asked for, and on the same
-- rank it leads back to the pointer, for any part of that length.
pub ptr2shmref-shmref2ptr :
    (shmmap : List ShmMap) (ptr len : ℕ) (ref : ShmRef)
    → ptr2shmref shmmap ptr len ≡ some ref
    → (part : ℕ) → part ≤ len
    → (ref.dt_length ≡ len) × (shmref2ptr shmmap ref part ≡ some ptr)
unfolding ptr2shmref shmref2ptr
ptr2shmref-shmref2ptr shmmap ptr len ref e part h =
    let (f, l, n) = ptr2shmref-found shmmap ptr len ref e in
    let (k, s, b, t, o) = find_seg-holds shmmap 0 ptr ref.dt_shmid ref.dt_offset f in
    let q : ref.dt_shmid ≡ k = omega arith in ground (arith, q, t, o)

-- No segment before the one at `n` holds the pointer.
abbrev pub NotBefore : List ShmMap → ℕ → ℕ → Type 0
NotBefore [] n ptr = Unit
NotBefore (m ∷ ms) zero ptr = Unit
NotBefore (m ∷ ms) (suc n) ptr = (holds m ptr ≡ false) × NotBefore ms n ptr

find_seg-at :
    (ms : List ShmMap) (i n ptr : ℕ)
    → n < length ms
    → NotBefore ms n ptr
    → holds (map_at ms n) ptr ≡ true
    → find_seg ms i ptr ≡ some (i + n, ptr - (map_at ms n).mapping)
unfolding find_seg
find_seg-at [] i n ptr l b h = absurd (omega arith)
find_seg-at (m ∷ ms) i zero ptr l b h = ground (arith, h)
find_seg-at (m ∷ ms) i (suc n) ptr l (f, b) h =
    ground (arith, find_seg-at ms (suc i) n ptr (omega arith) b h)

-- The pointer of a valid reference leads back to the reference, if the mappings do not overlap
-- there, and what it refers to lies in the mapping.
pub shmref2ptr-ptr2shmref :
    (shmmap : List ShmMap) (ref : ShmRef) (len ptr : ℕ)
    → shmref2ptr shmmap ref len ≡ some ptr
    → NotBefore shmmap ref.dt_shmid ptr
    → (ptr2shmref shmmap ptr ref.dt_length ≡ some ref)
      × ((map_at shmmap ref.dt_shmid).mapping ≤ ptr)
      × (ptr + ref.dt_length
          ≤ (map_at shmmap ref.dt_shmid).mapping + (map_at shmmap ref.dt_shmid).size)
unfolding ptr2shmref shmref2ptr
shmref2ptr-ptr2shmref shmmap ref len ptr e b =
    let f : find_seg shmmap 0 ptr
        ≡ some (0 + ref.dt_shmid, ptr - (map_at shmmap ref.dt_shmid).mapping) =
      find_seg-at shmmap 0 ref.dt_shmid ptr (ground (arith, e)) b (ground (arith, e)) in
    ground (arith, f, e)
