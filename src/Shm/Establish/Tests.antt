-- ===== src/Shm/Establish/Tests.antt =====
-- The theorems on `establish` of libdthread/dt_segops.c at a segment of eight pages.
use dthread.Base.{ℕ, ◌≡◌, refl, true, false, arith}
use dthread.Types.Errno
use dthread.Shm.Segment.{SegMd}
use dthread.Shm.Establish.{
  ShmSrc, Mmap, Os, NewMapping, failed, got_mapping, new_mapping, establishes, fresh_md,
  md_offset_of, use_mapping, establish,
}
use dthread.Shm.Establish.Metadata.{establish-establish}

-- a file with reserves of 100 bytes and a page
abbrev src : ShmSrc
src = record {
  dt_srcflags = 2;
  dt_mmoffset = 0;
  dt_mmsize = 32768;
  dt_addr = 0;
  dt_reserve_front = 100;
  dt_reserve_back = 4096;
}

abbrev os_at : ℕ → Os
os_at a = record {
  open_ret = 0;
  fstat_ret = 0;
  st_size = 32768;
  ftruncate_ret = 0;
  mmap_ret = Mmap.mapped a;
  spin_ret = 0;
}

abbrev no_md : ℕ → SegMd
no_md o = fresh_md 4096 src 7 0

abbrev second_md : ℕ → SegMd
second_md o = fresh_md 4096 src 0 4096

abbrev address_in : NewMapping → ℕ
address_in (failed rv) = 0
address_in (got_mapping a fd) = a

establish-establish_example :
    establish (os_at 40960) 4096 src 0 false second_md
    ≡ establishes (record { mapping = 40960; md_offset = 4096; size = 32768 }) (second_md 4096) true
unfolding establish new_mapping use_mapping md_offset_of
establish-establish_example =
    establish-establish 256 src (omega arith) 0 (omega arith) (omega arith) (os_at 8192)
      (os_at 40960) no_md second_md (record { mapping = 8192; md_offset = 4096; size = 32768 })
      (second_md 4096) true true 8192 40960 refl refl refl refl refl refl
