-- ===== src/Shm/Bsd/Morecore.antt =====
-- `bsd_morecore` of libdthread/dt_shmops.c: the core that it takes becomes free blocks of one bucket.
use dthread.Base.{
  ℕ, zero, suc, ◌+◌, ◌-◌, ◌*◌, ◌/◌, ◌%◌, ◌≤◌, ◌<◌, ◌≡◌, inl, inr, refl, sym, ◌∙◌, Bool, true, false,
  Option, some, List, [], ◌∷◌, if◌then◌else◌, ◌==◌, ltb, get_or, set, length-set, get_or-set_self,
  get_or-set_ne, arith, Bool-cases, dec_lt,
}
use dthread.Shm.{ShmRef}
use dthread.Shm.Bsd.{BsdMd, shl1, ov_magidx, write_ov, link, core_amt, core_nblks, core_take}
use dthread.Shm.Bsd.Search.{shl1_pos, shl1-lt}
use dthread.Shm.Bsd.Blocks.{
  extent, extent_pos, Carved, carve, Carved-le, update, NotIn, Free, Free-above, Used, AllUsed,
  BsdInv,
}

-- the new blocks from `off` on, with `n` more behind the first
abbrev pub offs : ℕ → ℕ → ℕ → List ℕ
offs zero sz off = off ∷ []
offs (suc n) sz off = off ∷ offs n sz (off + sz)

abbrev pub carve_all : ℕ → ℕ → ℕ → ℕ → (ℕ → Option ℕ) → ℕ → Option ℕ
carve_all zero sz off i blk = update off (some i) blk
carve_all (suc n) sz off i blk = carve_all n sz (off + sz) i (update off (some i) blk)

link_below : (n sz off : ℕ) (ov : ℕ → ℕ) (x : ℕ) → x < off → link n sz off ov x ≡ ov x
unfolding link
link_below zero sz off ov x h = ground arith
link_below (suc n) sz off ov x h =
    link_below n sz (off + sz) (write_ov off (off + sz) ov) x (omega arith) ∙ ground arith

carve_all-below :
    (n sz off i : ℕ) (blk : ℕ → Option ℕ) (x : ℕ) → x < off → carve_all n sz off i blk x ≡ blk x
carve_all-below zero sz off i blk x h = ground arith
carve_all-below (suc n) sz off i blk x h =
    carve_all-below n sz (off + sz) i (update off (some i) blk) x (omega arith) ∙ ground arith

carve_all-Carved :
    (page low n sz off i : ℕ) (blk : ℕ → Option ℕ)
    → Carved page low off blk
    → sz ≡ extent page i
    → low ≤ off
    → off % 16 ≡ 0
    → sz % 16 ≡ 0
    → 1 ≤ i
    → i < 27
    → Carved page low (off + suc n * sz) (carve_all n sz off i blk)
carve_all-Carved page low zero sz off i blk v e l a s p q =
    let top : off + extent page i ≡ off + 1 * sz = omega (arith, e) in
    rw (← top) (carve page low off i blk v l a p q)
carve_all-Carved page low (suc n) sz off i blk v e l a s p q =
    let v' : Carved page low (off + sz) (update off (some i) blk) =
      rw e (carve page low off i blk v l a p q) in
    let top : off + sz + suc n * sz ≡ off + suc (suc n) * sz = grind arith in
    rw (← top) (
      carve_all-Carved page low n sz (off + sz) i (update off (some i) blk) v' e (omega arith)
        (omega arith) s p q)

NotIn-offs : (n sz off x : ℕ) → x < off → NotIn x (offs n sz off)
NotIn-offs zero sz off x h = (λ e. omega arith, tt)
NotIn-offs (suc n) sz off x h = (λ e. omega arith, NotIn-offs n sz (off + sz) x (omega arith))

link-Free :
    (n sz off i : ℕ) (ov : ℕ → ℕ) (blk : ℕ → Option ℕ) (taken : ℕ → Bool)
    → 0 < sz
    → ((x : ℕ) → off ≤ x → taken x ≡ false)
    → Free (link n sz off ov) (carve_all n sz off i blk) taken i off (offs n sz off)
unfolding link
link-Free zero sz off i ov blk taken h t =
    (refl, ground arith, t off (omega arith), tt, ground arith)
link-Free (suc n) sz off i ov blk taken h t =
    let next : link n sz (off + sz) (write_ov off (off + sz) ov) off ≡ off + sz =
      link_below n sz (off + sz) (write_ov off (off + sz) ov) off (omega arith) ∙ ground arith in
    (
      refl,
      carve_all-below n sz (off + sz) i (update off (some i) blk) off (omega arith) ∙ ground arith,
      t off (omega arith),
      NotIn-offs n sz (off + sz) off (omega arith),
      rw next (
          link-Free n sz (off + sz) i (write_ov off (off + sz) ov) (update off (some i) blk) taken h
            (λ x l. t x (omega arith))),
    )

Used-mono :
    (page : ℕ) (blk blk' : ℕ → Option ℕ) (taken : ℕ → Bool) (r : ShmRef)
    → ((o i : ℕ) → blk o ≡ some i → blk' o ≡ some i)
    → Used page blk taken r
    → Used page blk' taken r
Used-mono page blk blk' taken r m u = record {
  above = u.above;
  bucket = u.bucket;
  block = m (r.dt_offset - 16) u.bucket u.block;
  is_taken = u.is_taken;
  fits = u.fits;
}

AllUsed-mono :
    (page : ℕ) (blk blk' : ℕ → Option ℕ) (taken : ℕ → Bool) (live : List ShmRef)
    → ((o i : ℕ) → blk o ≡ some i → blk' o ≡ some i)
    → AllUsed page blk taken live
    → AllUsed page blk' taken live
AllUsed-mono page blk blk' taken [] m v = tt
AllUsed-mono page blk blk' taken (r ∷ rs) m (u, e, v) =
    (Used-mono page blk blk' taken r m u, e, AllUsed-mono page blk blk' taken rs m v)

pages_fit : (page sz : ℕ) → 0 < sz → sz < page → suc (page / sz - 1) * sz ≤ page
pages_fit page sz p h = grind arith

module _ (b : BsdMd) (live : List ShmRef) (v : BsdInv b live) (i : ℕ) (l : 1 ≤ i) (h : i < 27)
    (room : core_amt (16 * shl1 i) b ≤ b.core_resid) where
  abbrev sz : ℕ
  sz = 16 * shl1 i

  abbrev blk' : ℕ → Option ℕ
  blk' = carve_all (core_nblks sz b - 1) sz b.mycore i v.blk

  page_aligned : b.pagesz % 16 ≡ 0
  page_aligned = omega (arith, v.geometry.page)

  amt_large : ltb sz b.pagesz ≡ false → core_amt sz b ≡ sz + b.pagesz
  amt_large large =
      ground (arith, large, shl1-lt i h, v.geometry.page, shl1-lt b.pagebucket v.geometry.page_high)

  amt_aligned : core_amt sz b % 16 ≡ 0
  amt_aligned = elim (Bool-cases (ltb sz b.pagesz)) [
    | inl small ↦ rw small page_aligned
    | inr large ↦ rw (amt_large large) (omega (arith, page_aligned))
  ]

  core_take-Carved : Carved b.pagesz b.min_uoffset (b.mycore + core_amt sz b) blk'
  core_take-Carved = elim (Bool-cases (ltb sz b.pagesz)) [
    | inl small ↦
        let e : sz ≡ extent b.pagesz i = ground (arith, small) in
        let c =
          carve_all-Carved b.pagesz b.min_uoffset (b.pagesz / sz - 1) sz b.mycore i v.blk v.carved e
            v.above v.core_aligned (omega arith) l h in
        let top : suc (b.pagesz / sz - 1) * sz ≤ b.pagesz =
          pages_fit b.pagesz sz (omega (arith, shl1_pos i)) (ground (arith, small)) in
        rw small (Carved-le b.pagesz b.min_uoffset _ (b.mycore + b.pagesz) _ (omega (arith, top)) c)
    | inr large ↦
        let e : extent b.pagesz i ≡ sz + b.pagesz = ground (arith, large) in
        let c = carve b.pagesz b.min_uoffset b.mycore i v.blk v.carved v.above v.core_aligned l h in
        rw (amt_large large) (rw large (rw e at c))
  ]

  old_below : (o j : ℕ) → v.blk o ≡ some j → o < b.mycore
  old_below o j e =
      omega (arith, v.carved.within o j e, extent_pos b.pagesz j (v.carved.bucket o j e).0)

  core_take-Free :
      (j : ℕ)
      → j < 27
      → Free
          (link (core_nblks sz b - 1) sz b.mycore b.ov)
          blk'
          v.taken
          j
          (get_or (set b.nextf i b.mycore) j 0)
          (if j == i then offs (core_nblks sz b - 1) sz b.mycore else v.free j)
  core_take-Free j k = elim (Bool-cases (j == i)) [
    | inl same ↦
        let e : j ≡ i = ground (arith, same) in
        let f = get_or-set_self b.nextf i b.mycore 0 (omega (arith, v.lists)) in
        rw (same, e, f)
          (link-Free (core_nblks sz b - 1) sz b.mycore i b.ov v.blk v.taken
            (omega (arith, shl1_pos i)) v.idle)
    | inr other ↦
        let f = get_or-set_ne b.nextf i j b.mycore 0 (λ e. ground (arith, other, e)) in
        rw (other, f)
          (Free-above b.pagesz b.min_uoffset b.mycore b.ov _ v.blk blk' v.taken j
            (get_or b.nextf j 0) (v.free j) v.carved
            (link_below (core_nblks sz b - 1) sz b.mycore b.ov)
            (carve_all-below (core_nblks sz b - 1) sz b.mycore i v.blk) (v.frees j k))
  ]

  core_take-headed :
      (o j : ℕ)
      → blk' o ≡ some j
      → v.taken o ≡ true
      → link (core_nblks sz b - 1) sz b.mycore b.ov o ≡ ov_magidx j
  core_take-headed o j e t = elim (dec_lt o b.mycore) [
    | yes p ↦
        link_below (core_nblks sz b - 1) sz b.mycore b.ov o p
        ∙ v.headed o j (sym (carve_all-below (core_nblks sz b - 1) sz b.mycore i v.blk o p) ∙ e) t
    | no p ↦ (let f : true ≡ false = sym t ∙ v.idle o (omega arith) in cc)
  ]

  pub core_take-BsdInv : BsdInv (core_take i sz b) live
  unfolding core_take
  core_take-BsdInv = record {
    blk = blk';
    taken = v.taken;
    free = λ j. if j == i then offs (core_nblks sz b - 1) sz b.mycore else v.free j;
    geometry = record {
      over = v.geometry.over;
      min = v.geometry.min;
      page = v.geometry.page;
      page_low = v.geometry.page_low;
      page_high = v.geometry.page_high;
    };
    low = v.low;
    above = omega (arith, v.above);
    core_aligned = omega (arith, v.core_aligned, amt_aligned);
    inside = omega (arith, v.inside);
    fits = v.fits;
    carved = core_take-Carved;
    lists = length-set b.nextf i b.mycore ∙ v.lists;
    frees = core_take-Free;
    headed = core_take-headed;
    idle = λ o p. v.idle o (omega arith);
    used =
        AllUsed-mono b.pagesz v.blk blk' v.taken live
          (λ o j e.
            carve_all-below (core_nblks sz b - 1) sz b.mycore i v.blk o (old_below o j e) ∙ e)
          v.used;
  }
