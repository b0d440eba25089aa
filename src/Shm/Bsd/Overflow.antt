-- ===== src/Shm/Bsd/Overflow.antt =====
-- `bsd_malloc` of libdthread/dt_shmops.c for sizes between 2 GB and 4 GB, where BUCKSIZE overflows.
use dthread.Base.{
  ℕ, ◌+◌, ◌-◌, ◌/◌, ◌^◌, ◌≤◌, ◌<◌, ◌≡◌, inl, inr, refl, ap, ◌∙◌, true, false, Option, some, List,
  ◌==◌, ltb, leb, get_or, get_or-set_self, arith, dec_lt,
}
use dthread.Shm.{ShmRef, ShmMap, map_at, shmref2ptr}
use dthread.Shm.Segment.{Got}
use dthread.Shm.Break.{sub64}
use dthread.Shm.Bsd.{
  BsdMd, buck_size, core_amt, core_take, bsd_morecore, at, find_bucket, bucket_of, bsd_pop,
  bsd_take, bsd_malloc,
}
use dthread.Shm.Bsd.Search.{First, find_bucket_lem, shl1_pos, shl1-le, shl1-lt}
use dthread.Shm.Bsd.Sizes.{cap_high, half_page}
use dthread.Shm.Bsd.Blocks.{BsdInv}
use dthread.Shm.Bsd.Take.{Mapped, shmref2ptr-some, bsd_take-some}
use dthread.Shm.Bsd.Malloc.{bsd_malloc-bucket}

buck_size_28 : buck_size 28 ≡ 1
unfolding buck_size
buck_size_28 = refl

module _ (maps : List ShmMap) (b : BsdMd) (live : List ShmRef) (v : BsdInv b live)
    (mapped : Mapped maps b) (size : ℕ) (more : 2 ^ 31 + b.pagesz - 16 < size)
    (less : size ≤ 2 ^ 32 + b.pagesz - 16) where
  First-28 : (j : ℕ) → First size (sub64 b.pagesz 16) b.pagebucket j → j ≡ 28
  First-28 j (a, c, d, inl same) = absurd (
      omega
        (arith, same, cap_high b v.geometry j c, shl1-lt j (omega (arith, v.geometry.page_high))))
  First-28 j (a, c, d, inr (e, f)) = elim (dec_lt j 28) [
    | yes l ↦ absurd (omega (arith, cap_high b v.geometry j c, shl1-le j 27 (omega arith)))
    | no l ↦ elim (dec_lt 28 j) [
      | no m ↦ omega arith
      | yes m ↦ absurd (
          omega
            (arith, cap_high b v.geometry (j - 1) (omega arith), shl1-le 28 (j - 1) (omega arith)))
    ]
  ]

  search : find_bucket 65 size b.pagesz (sub64 b.pagesz 16) b.pagebucket ≡ at 28
  search =
      let e = ap (λ x. find_bucket 65 size x (sub64 b.pagesz 16) b.pagebucket) v.geometry.page in
      elim (find_bucket_lem 65 size (sub64 b.pagesz 16) b.pagebucket
        (omega (arith, v.geometry.page_high)) (omega arith)) [
          | inl (j, f, w) ↦ e ∙ f ∙ ap at (First-28 j w)
          | inr (f, w) ↦ absurd (omega (arith, cap_high b v.geometry 59 (omega arith)))
        ]

  bucket_of-28 : bucket_of size b ≡ at 28
  unfolding bucket_of
  bucket_of-28 =
      let g = v.geometry in
      let no' : leb size (sub64 (b.pagesz / 2) b.oversize) ≡ false =
        ground (
          arith,
          g.over,
          half_page b g,
          shl1-le 1 (b.pagebucket - 1) (omega (arith, g.page_low)),
        ) in
      rw (no', g.over) search

  module _ (empty : get_or b.nextf 28 0 ≡ 0) (room : b.pagesz ≤ b.core_resid) where
    abbrev grown : BsdMd
    grown = core_take 28 1 b

    amt : core_amt 1 b ≡ b.pagesz
    amt = ground (arith, v.geometry.page, shl1_pos b.pagebucket)

    morecore : bsd_morecore maps 28 b ≡ grown
    unfolding bsd_morecore
    morecore =
        let oref : ShmRef = record {
          dt_shmid = b.self.dt_shmid;
          dt_offset = b.mycore;
          dt_length = core_amt 1 b;
        } in
        let pos : 0 < core_amt 1 b = omega (arith, amt, v.geometry.page, shl1_pos b.pagebucket) in
        let e : shmref2ptr maps oref (core_amt 1 b)
            ≡ some ((map_at maps b.self.dt_shmid).mapping + b.mycore) =
          shmref2ptr-some maps oref (core_amt 1 b) mapped.known pos
            (omega (arith, v.inside, mapped.large, amt)) (omega arith) in
        let j : ltb 28 b.minbucket ≡ false = ground (arith, v.geometry.min) in
        let f : ltb b.core_resid (core_amt 1 b) ≡ false = ground (arith, amt) in
        rw (buck_size_28, j, f, e) (ap (λ z. core_take 28 z b) buck_size_28)

    abbrev popped : Got × BsdMd
    popped = bsd_pop ((map_at maps b.self.dt_shmid).mapping + b.mycore) b.mycore 28 size grown

    take-popped : bsd_take maps 28 size grown ≡ (some popped.0, popped.1)
    unfolding core_take
    take-popped =
        let over = v.geometry.over in
        let ref : ShmRef = record {
          dt_shmid = b.self.dt_shmid;
          dt_offset = b.mycore;
          dt_length = b.oversize;
        } in
        let e : shmref2ptr maps ref b.oversize
            ≡ some ((map_at maps b.self.dt_shmid).mapping + b.mycore) =
          shmref2ptr-some maps ref b.oversize mapped.known (omega (arith, over))
            (omega (
              arith,
              over,
              v.inside,
              mapped.large,
              v.geometry.page,
              shl1-le 1 b.pagebucket (omega (arith, v.geometry.page_low)),
            ))
            (omega arith) in
        bsd_take-some maps size 28 b.mycore ((map_at maps b.self.dt_shmid).mapping + b.mycore) grown
          (get_or-set_self b.nextf 28 b.mycore 0 (omega (arith, v.lists)))
          (λ z. omega (arith, v.low, v.above)) e

    popped_lem : (popped.0.1.dt_length ≡ size) × (popped.1.mycore ≡ b.mycore + b.pagesz)
    unfolding bsd_pop core_take
    popped_lem = (refl, ap (λ n. b.mycore + n) amt)

    malloc-popped : bsd_malloc maps size b ≡ (some popped.0, popped.1)
    malloc-popped =
        let z : get_or b.nextf 28 0 == 0 ≡ true = rw empty refl in
        bsd_malloc-bucket maps size b 28 bucket_of-28 ∙ rw (z, morecore) take-popped

    -- A size of more than 2^31 and at most 2^32 bytes, each with a page more and 16 less, is
    -- not refused: in a mapped arena in which the driver's invariant holds, with at least one
    -- page left and no block of bucket 28 free, it gets a block of which the reference has
    -- that size, and for which a single page is taken of the arena.
    pub bsd_malloc-overflow :
        let (o, b') = bsd_malloc maps size b in
        ((got : Got) × (o ≡ some got) × (got.1.dt_length ≡ size))
        × (b'.mycore ≡ b.mycore + b.pagesz)
    bsd_malloc-overflow =
        let (len, core) = popped_lem in
        let e = malloc-popped in
        (
          (popped.0, ap (λ (x : Option Got × BsdMd). x.0) e, len),
          ap (λ (x : Option Got × BsdMd). x.1.mycore) e ∙ core,
        )
