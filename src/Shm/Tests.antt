-- ===== src/Shm/Tests.antt =====
-- The theorems on the shared memory of libdthread/dt_ops.c and libdthread/dt_segops.c at two small
-- segments.
use dthread.Base.{◌+◌, ◌-◌, ◌≤◌, ◌<◌, ◌≡◌, ◌⊎◌, refl, none, some, List, [], ◌∷◌, arith}
use dthread.Shm.{ShmRef, ShmMap, map_at, shmref2ptr, ptr2shmref}
use dthread.Shm.RoundTrip.{shmref2ptr-ptr2shmref}
use dthread.Shm.Segment.{Seg, seg_md_magic_value, align, Got, seg_alloc}
use dthread.Shm.Segment.Bounds.{SegInv, Fresh, seg_alloc_lem, seg_alloc-wrap}
use dthread.Shm.Segment.Apart.{alloc_each, Apart, alloc_each-Apart}

abbrev maps : List ShmMap
maps =
    record { mapping = 1000; md_offset = 0; size = 512 }
    ∷ (record { mapping = 4000; md_offset = 0; size = 256 } ∷ [])

abbrev place : ShmRef
place = record { dt_shmid = 1; dt_offset = 32; dt_length = 64 }

shmref2ptr-ptr2shmref_example :
    (ptr2shmref maps 4032 place.dt_length ≡ some place)
    × ((map_at maps place.dt_shmid).mapping ≤ 4032)
    × (4032 + place.dt_length
        ≤ (map_at maps place.dt_shmid).mapping + (map_at maps place.dt_shmid).size)
unfolding shmref2ptr
shmref2ptr-ptr2shmref_example = shmref2ptr-ptr2shmref maps place 16 4032 refl (refl, tt)

-- a segment of which the front is in use
abbrev seg : Seg
seg = record {
  map = record { mapping = 1000; md_offset = 0; size = 512 };
  md = record {
    seg_md_magic = seg_md_magic_value;
    self = record { dt_shmid = 0; dt_offset = 0; dt_length = 512 };
    srcflags = 3;
    umapaddr = 0;
    first_avail = 96;
    end_avail = 512;
  };
}

seg-SegInv : SegInv seg
seg-SegInv = record {
  in_order = omega arith;
  in_segment = omega arith;
  fits = omega arith;
  aligned = λ h. refl;
}

seg_alloc_example :
    ((seg_alloc 0 100 seg ≡ (none, seg)) × (seg.md.end_avail - seg.md.first_avail < 100 + align))
    ⊎ ((got : Got) × ((seg_alloc 0 100 seg).0 ≡ some got)
        × Fresh 0 100 seg (seg_alloc 0 100 seg).1 got
        × SegInv (seg_alloc 0 100 seg).1)
seg_alloc_example = seg_alloc_lem 0 100 seg seg-SegInv (omega arith)

alloc_each-Apart_example :
    Apart seg.md.first_avail seg.md.end_avail (alloc_each 0 (100 ∷ 40 ∷ 500 ∷ []) seg).0
alloc_each-Apart_example =
    alloc_each-Apart 0 (100 ∷ 40 ∷ 500 ∷ []) seg seg-SegInv
      (omega arith, (omega arith, (omega arith, tt)))

seg_alloc-wrap_example : seg_alloc 0 18446744073709551615 seg ≡ seg_alloc 0 0 seg
seg_alloc-wrap_example = seg_alloc-wrap 0 18446744073709551615 seg (omega arith) (omega arith)
