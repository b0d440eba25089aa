-- ===== src/Shm/Bsd/Init.antt =====
-- `bsd_init` of libdthread/dt_shmops.c.
use dthread.Base.{
  ℕ, zero, suc, ◌+◌, ◌-◌, ◌*◌, ◌%◌, ◌^◌, ◌≤◌, ◌<◌, ◌≡◌, ◌⊎◌, inl, inr, refl, ap, sym, ◌∙◌, true,
  false, none, some, List, [], ltb, get_or, arith, dec_lt, Option-cases,
}
use dthread.Shm.{ShmRef, ShmMap, shmref2ptr}
use dthread.Shm.Segment.{align}
use dthread.Shm.Break.{mdalign_size}
use dthread.Shm.Break.Init.{shmref2ptr_room}
use dthread.Shm.Bsd.{BsdMd, shl1, buck_size, bucket_loop, overhead_loop, nbuckets, zeros, bsd_init}
use dthread.Shm.Bsd.Search.{buck_size-small, shl1_pos, shl1-le}
use dthread.Shm.Bsd.Blocks.{BsdInv}

bucket_loop_lem : (f k i : ℕ) → i ≤ k → k < 27 → k ≤ i + f → bucket_loop f (16 * shl1 k) i ≡ k
unfolding bucket_loop
bucket_loop_lem zero k i l h e = omega arith
bucket_loop_lem (suc f) k i l h e = elim (dec_lt i k) [
  | yes p ↦
      let t : ltb (buck_size i) (16 * shl1 k) ≡ true =
        rw (buck_size-small i (omega arith)) (ground (arith, shl1-le (suc i) k p, shl1_pos i)) in
      rw t (bucket_loop_lem f k (suc i) p h (omega arith))
  | no p ↦
      let same : i ≡ k = omega arith in
      let t : ltb (buck_size i) (16 * shl1 k) ≡ false =
        rw (buck_size-small i (omega arith), same) (ground arith) in
      rw t same
]

overhead_loop_lem : overhead_loop 8 0 ≡ 16
unfolding overhead_loop
overhead_loop_lem = refl

minbucket_lem : bucket_loop 28 17 0 ≡ 1
unfolding bucket_loop buck_size
minbucket_lem = refl

zeros_at : (n i : ℕ) → get_or (zeros n) i 0 ≡ 0
zeros_at zero i = refl
zeros_at (suc n) zero = refl
zeros_at (suc n) (suc i) = zeros_at n i

module _ (maps : List ShmMap) (arena : ShmRef) (base mapping md_basesize k : ℕ) (b : BsdMd)
    (self : b.self ≡ arena) (end : b.max_uoffset ≡ arena.dt_offset + arena.dt_length)
    (fits : b.max_uoffset < 2 ^ 64) (local : base ≡ mapping + arena.dt_offset)
    (mapping_aligned : mapping % align ≡ 0) (some_md : 0 < md_basesize) (low : 2 ≤ k)
    (high : k < 27) where
  abbrev mdsize : ℕ
  mdsize = mdalign_size base md_basesize

  abbrev pub fresh : BsdMd
  fresh = record b {
    amd = record (b.amd) { min_uoffset = b.self.dt_offset + mdsize; badalign_bits = align - 1 };
    oversize = overhead_loop 8 0;
    minbucket = bucket_loop 28 (1 + overhead_loop 8 0) 0;
    pagesz = 16 * shl1 k;
    pagebucket = bucket_loop 28 (16 * shl1 k) 0;
    nextf = zeros nbuckets;
    nmalloc = zeros nbuckets;
    mycore = arena.dt_offset + mdsize;
    core_resid = arena.dt_length - mdsize;
  }

  found : bucket_loop 28 (16 * shl1 k) 0 ≡ k
  found = bucket_loop_lem 28 k 0 (omega arith) high (omega arith)

  md_aligned : (arena.dt_offset + mdsize) % 16 ≡ 0
  md_aligned = ground (arith, local, mapping_aligned)

  pub fresh-BsdInv : mdsize ≤ arena.dt_length → BsdInv fresh []
  fresh-BsdInv room =
      let off : b.self.dt_offset ≡ arena.dt_offset = ap (λ (x : ShmRef). x.dt_offset) self in
      record {
        blk = λ o. none;
        taken = λ o. false;
        free = λ i. [];
        geometry = record {
          over = overhead_loop_lem;
          min = ap (λ n. bucket_loop 28 (1 + n) 0) overhead_loop_lem ∙ minbucket_lem;
          page = ap (λ n. 16 * shl1 n) (sym found);
          page_low = rw found low;
          page_high = rw found high;
        };
        low = omega (arith, some_md);
        above = omega (arith, off);
        core_aligned = md_aligned;
        inside = omega (arith, end);
        fits = fits;
        carved = record {
          bucket = λ o i e. (cc);
          within = λ o i e. (cc);
          aligned = λ o i e. (cc);
          apart = λ o i o' j e f h. (cc);
        };
        lists = refl;
        frees = λ i h. zeros_at 60 i;
        headed = λ o i e t. (cc);
        idle = λ o h. refl;
        used = tt;
      }

  -- `bsd_init` leaves a driver with no blocks, if the arena has room for the metadata; otherwise it
  -- fails. The page is a power of two from 64 bytes to 1 GB.
  pub bsd_init_lem :
      ((bsd_init maps arena base md_basesize (16 * shl1 k) b ≡ none)
        × (shmref2ptr maps arena mdsize ≡ none))
      ⊎ ((b' : BsdMd) × (bsd_init maps arena base md_basesize (16 * shl1 k) b ≡ some b')
          × BsdInv b' [])
  unfolding bsd_init
  bsd_init_lem = elim (Option-cases (shmref2ptr maps arena mdsize)) [
    | inl n ↦ inl (rw (bsd_init, n) refl, n)
    | inr (q, y) ↦ inr (
      fresh,
      rw (bsd_init, y) refl,
      fresh-BsdInv (shmref2ptr_room maps arena mdsize q y (omega (arith, some_md))),
    )
  ]
