-- ===== src/Shm/Arena/Internal/BsdDriver.antt =====
-- The bsd driver of libdthread/dt_shmops.c keeps the promises of an arena.
use dthread.Base.{
  ℕ, ◌-◌, ◌^◌, ◌≤◌, ◌≡◌, ◌≢◌, inl, inr, ap, sym, ◌∙◌, subst, Bool, Option, none, some, List, [],
  ◌∷◌, ◌++◌, arith, dec_lt,
}
use dthread.Shm.{ShmRef, ShmMap}
use dthread.Shm.Segment.{Got}
use dthread.Shm.Break.{AllocMd}
use dthread.Shm.Bsd.{
  BsdMd, core_take, bsd_morecore, bsd_take, bsd_pop, bsd_malloc, bsd_push, bsd_free,
}
use dthread.Shm.Bsd.Blocks.{Carved, Used, Elsewhere, AllUsed, BsdInv}
use dthread.Shm.Bsd.Take.{Mapped}
use dthread.Shm.Bsd.Malloc.{bsd_malloc-got, bsd_malloc-none}
use dthread.Shm.Bsd.Free.{bsd_free-BsdInv}
use dthread.Shm.Arena.Driver.{Driver, Disjoint, All, Apart, Inside}
use dthread.Shm.Arena.Internal.{
  ArenaMem, bsd, Mem, mem_at, put_mem, md_of, md_at, bsd_ops, bsd_malloc_in, bsd_free_in,
  put_mem_self, put_mem-eq, InSegment, InSegment-remove,
}

module _ (page low top : ℕ) (blk : ℕ → Option ℕ) (taken : ℕ → Bool)
    (c : Carved page low top blk) where
  Used-Disjoint :
      (r s : ShmRef)
      → Used page blk taken r
      → Used page blk taken s
      → s.dt_offset ≢ r.dt_offset
      → Disjoint r s
  Used-Disjoint r s u w ne = elim (dec_lt r.dt_offset s.dt_offset) [
    | yes h ↦ inl (
        omega (
          arith,
          c.apart (r.dt_offset - 16) u.bucket (s.dt_offset - 16) w.bucket u.block w.block
              (omega (arith, u.above)),
          u.fits,
          u.above,
          w.above,
        ))
    | no h ↦ elim (dec_lt s.dt_offset r.dt_offset) [
      | yes k ↦ inr (
          omega (
            arith,
            c.apart (s.dt_offset - 16) w.bucket (r.dt_offset - 16) u.bucket w.block u.block
                (omega (arith, w.above)),
            w.fits,
            u.above,
            w.above,
          ))
      | no k ↦ absurd (ne (omega arith))
    ]
  ]

  AllUsed-Disjoint :
      (r : ShmRef) (live : List ShmRef)
      → Used page blk taken r
      → Elsewhere r.dt_offset live
      → AllUsed page blk taken live
      → All (Disjoint r) live
  AllUsed-Disjoint r [] u n v = tt
  AllUsed-Disjoint r (s ∷ live) u (ne, n) (w, e, v) =
      (Used-Disjoint r s u w ne, AllUsed-Disjoint r live u n v)

  pub AllUsed-Apart : (live : List ShmRef) → AllUsed page blk taken live → Apart live
  AllUsed-Apart [] v = tt
  AllUsed-Apart (r ∷ live) (u, n, v) = (AllUsed-Disjoint r live u n v, AllUsed-Apart live v)

module _ (maps : List ShmMap) (pagesize : ℕ) (a : ShmRef) (md : AllocMd) where
  -- The arena holds a bsd driver with the blocks `live` in use.
  pub record BsdUses (m : Mem) (live : List ShmRef) : Type 0 where
    pub state : BsdMd
    pub here : mem_at a m ≡ bsd state
    pub amd_is : state.amd ≡ md
    pub self_is : md.self ≡ a
    pub inv : BsdInv state live
    pub mapped : Mapped maps state
    pub segment : InSegment a live

  pub AllUsed-Inside :
      (b : BsdMd) (live : List ShmRef) (v : BsdInv b live) (some_live : List ShmRef)
      → b.amd ≡ md
      → AllUsed b.pagesz v.blk v.taken some_live
      → InSegment a some_live
      → All (Inside a md) some_live
  AllUsed-Inside b live v [] e u s = tt
  AllUsed-Inside b live v (r ∷ rs) e (u, n, w) (s, t) =
      let k = v.carved.within (r.dt_offset - 16) u.bucket u.block in
      let al = v.carved.aligned (r.dt_offset - 16) u.bucket u.block in
      let lo : b.min_uoffset ≡ md.min_uoffset = ap (λ (x : AllocMd). x.min_uoffset) e in
      let hi : b.max_uoffset ≡ md.max_uoffset = ap (λ (x : AllocMd). x.max_uoffset) e in
      (
        record {
          shmid = s;
          from = omega (arith, k, lo);
          to = omega (arith, k, hi, u.fits, u.above, v.inside);
          aligned = omega (arith, al, u.above);
        },
        AllUsed-Inside b live v rs e w t,
      )

  bsd_amd-morecore : (j : ℕ) (b : BsdMd) → (bsd_morecore maps j b).amd ≡ b.amd
  unfolding bsd_morecore core_take
  bsd_amd-morecore j b = ground arith

  bsd_amd-take : (j size : ℕ) (b : BsdMd) → (bsd_take maps j size b).1.amd ≡ b.amd
  unfolding bsd_take bsd_pop
  bsd_amd-take j size b = ground arith

  bsd_amd-malloc : (size : ℕ) (b : BsdMd) → (bsd_malloc maps size b).1.amd ≡ b.amd
  unfolding bsd_malloc
  bsd_amd-malloc size b = grind (arith, bsd_amd-take, bsd_amd-morecore)

  bsd_amd-free : (ref : ShmRef) (b : BsdMd) → (bsd_free ref b).amd ≡ b.amd
  unfolding bsd_free bsd_push
  bsd_amd-free ref b = ground arith

  Mapped-amd : (b b' : BsdMd) → b'.amd ≡ b.amd → Mapped maps b → Mapped maps b'
  Mapped-amd b b' e k =
      subst (λ (x : AllocMd). Mapped maps (record b { amd = x }) → Mapped maps b') e
        (λ k'. record { known = k'.known; large = k'.large }) k

  -- the memory with the driver's new state
  BsdUses-put :
      (m : Mem) (b : BsdMd) (live : List ShmRef)
      → b.amd ≡ md
      → md.self ≡ a
      → BsdInv b live
      → Mapped maps b
      → InSegment a live
      → BsdUses (put_mem a (bsd b) m) live
  BsdUses-put m b live e f v k s = record {
    state = b;
    here = put_mem_self a (bsd b) m;
    amd_is = e;
    self_is = f;
    inv = v;
    mapped = k;
    segment = s;
  }

  malloc_at :
      (m : Mem) (b : BsdMd) (size : ℕ)
      → mem_at a m ≡ bsd b
      → (bsd_ops maps pagesize).malloc a size m
        ≡ ((bsd_malloc maps size b).0, put_mem a (bsd (bsd_malloc maps size b).1) m)
  unfolding bsd_ops
  malloc_at m b size e = ap (λ x. bsd_malloc_in maps a size x m) e

  free_at :
      (m : Mem) (b : BsdMd) (ref : ShmRef)
      → mem_at a m ≡ bsd b
      → (bsd_ops maps pagesize).free a ref m ≡ put_mem a (bsd (bsd_free ref b)) m
  unfolding bsd_ops
  free_at m b ref e = ap (λ x. bsd_free_in maps a ref x m) e

  pub BsdUses-malloc :
      (m : Mem) (live : List ShmRef) (size : ℕ) (got : Got)
      → BsdUses m live
      → size ≤ 2 ^ 30
      → ((bsd_ops maps pagesize).malloc a size m).0 ≡ some got
      → (got.1.dt_length ≡ size)
        × BsdUses ((bsd_ops maps pagesize).malloc a size m).1 (got.1 ∷ live)
  BsdUses-malloc m live size got u h e =
      let f = malloc_at m u.state size u.here in
      let (len, sh, v) =
        bsd_malloc-got maps size u.state live got u.inv u.mapped h
          (sym (ap (λ (x : Option Got × Mem). x.0) f) ∙ e) in
      let amd = bsd_amd-malloc size u.state in
      let self : u.state.self.dt_shmid ≡ a.dt_shmid =
        ap (λ (x : AllocMd). x.self.dt_shmid) u.amd_is
        ∙ ap (λ (x : ShmRef). x.dt_shmid) u.self_is in
      (
        len,
        rw f (
            BsdUses-put m (bsd_malloc maps size u.state).1 (got.1 ∷ live) (amd ∙ u.amd_is) u.self_is
              v (Mapped-amd u.state _ amd u.mapped) (sh ∙ self, u.segment)),
      )

  pub BsdUses-refusal :
      (m : Mem) (live : List ShmRef) (size : ℕ)
      → BsdUses m live
      → size ≤ 2 ^ 30
      → ((bsd_ops maps pagesize).malloc a size m).0 ≡ none
      → ((bsd_ops maps pagesize).malloc a size m).1 ≡ m
  BsdUses-refusal m live size u h e =
      let f = malloc_at m u.state size u.here in
      let same =
        bsd_malloc-none maps size u.state live u.inv u.mapped h
          (sym (ap (λ (x : Option Got × Mem). x.0) f) ∙ e) in
      ap (λ (x : Option Got × Mem). x.1) f
      ∙ ap (λ (x : BsdMd). put_mem a (bsd x) m) same
      ∙ put_mem-eq a (bsd u.state) m u.here

  pub BsdUses-free :
      (m : Mem) (pre : List ShmRef) (ref : ShmRef) (post : List ShmRef) (len : ℕ)
      → BsdUses m (pre ++ ref ∷ post)
      → BsdUses ((bsd_ops maps pagesize).free a (record ref { dt_length = len }) m) (pre ++ post)
  unfolding bsd_free
  BsdUses-free m pre ref post len u =
      let amd = bsd_amd-free ref u.state in
      rw (free_at m u.state (record ref { dt_length = len }) u.here) (
        BsdUses-put m (bsd_free ref u.state) (pre ++ post) (amd ∙ u.amd_is) u.self_is
          (bsd_free-BsdInv u.state pre ref post u.inv) (Mapped-amd u.state _ amd u.mapped)
          (InSegment-remove a pre ref post u.segment))

  -- The bsd driver keeps the promises of an arena, for sizes of at most 1 GB.
  unfoldable pub bsd_driver : Driver Mem md_at (bsd_ops maps pagesize) a md
  bsd_driver = record {
    Uses = BsdUses;
    max_size = 2 ^ 30;
    max_blocks = 2 ^ 64;
    same_md = λ m live u. ap (λ (x : ArenaMem). md_of x) u.here ∙ u.amd_is;
    all_inside = λ m live u. AllUsed-Inside u.state live u.inv live u.amd_is u.inv.used u.segment;
    all_apart = λ m live u.
        AllUsed-Apart u.state.pagesz u.state.min_uoffset u.state.mycore u.inv.blk u.inv.taken
          u.inv.carved live u.inv.used;
    on_malloc = λ m live size got u h n e. BsdUses-malloc m live size got u h e;
    on_refusal = λ m live size u h n e. BsdUses-refusal m live size u h e;
    on_free = BsdUses-free;
  }
