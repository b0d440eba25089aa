-- ===== src/Shm/Bsd/Free.antt =====
-- `bsd_free` of libdthread/dt_shmops.c.
use dthread.Base.{
  ℕ, ◌+◌, ◌-◌, ◌≤◌, ◌<◌, ◌≡◌, ◌≢◌, inl, inr, refl, ap, sym, ◌∙◌, subst, Bool, true, false, Option,
  some, List, [], ◌∷◌, ◌++◌, if◌then◌else◌, ◌==◌, leb, get_or, set, length-set, get_or-set_self,
  get_or-set_ne, arith, Bool-cases,
}
use dthread.Shm.{ShmRef}
use dthread.Shm.Bsd.{
  BsdMd, magic, ov_magic, ov_index, ov_magidx, write_ov, has_magic, bsd_push, bsd_free,
}
use dthread.Shm.Bsd.Blocks.{
  update, NotIn, Free, Free-frame, Free-NotIn_taken, Used, Elsewhere, AllUsed, BsdInv,
}

pub ov_magic-ov_magidx : (i : ℕ) → ov_magic (ov_magidx i) ≡ magic
ov_magic-ov_magidx i = omega arith

pub ov_index-ov_magidx : (i : ℕ) → i < 256 → ov_index (ov_magidx i) ≡ i
ov_index-ov_magidx i h = omega arith

-- The block of one reference is given back: the others stay in use.
AllUsed-drop :
    (page : ℕ) (blk : ℕ → Option ℕ) (taken : ℕ → Bool) (o : ℕ) (live : List ShmRef)
    → Elsewhere (o + 16) live
    → AllUsed page blk taken live
    → AllUsed page blk (update o false taken) live
AllUsed-drop page blk taken o [] n v = tt
AllUsed-drop page blk taken o (r ∷ rs) (m, n) (u, e, v) = (
  record {
    above = u.above;
    bucket = u.bucket;
    block = u.block;
    is_taken =
        let ne : r.dt_offset - 16 == o ≡ false = ground (arith, u.above, m) in rw ne u.is_taken;
    fits = u.fits;
  },
  e,
  AllUsed-drop page blk taken o rs n v,
)

Elsewhere-remove :
    (a : ℕ) (pre : List ShmRef) (ref : ShmRef) (post : List ShmRef)
    → Elsewhere a (pre ++ ref ∷ post)
    → (ref.dt_offset ≢ a) × Elsewhere a (pre ++ post)
Elsewhere-remove a [] ref post v = v
Elsewhere-remove a (r ∷ pre) ref post (n, v) =
    let (x, y) = Elsewhere-remove a pre ref post v in (x, (n, y))

pub AllUsed-remove :
    (page : ℕ) (blk : ℕ → Option ℕ) (taken : ℕ → Bool) (pre : List ShmRef) (ref : ShmRef)
    (post : List ShmRef)
    → AllUsed page blk taken (pre ++ ref ∷ post)
    → Used page blk taken ref
      × Elsewhere ref.dt_offset (pre ++ post)
      × AllUsed page blk taken (pre ++ post)
AllUsed-remove page blk taken [] ref post (u, e, v) = (u, e, v)
AllUsed-remove page blk taken (r ∷ pre) ref post (u, e, v) =
    let (x, y, z) = AllUsed-remove page blk taken pre ref post v in
    let (p, q) = Elsewhere-remove r.dt_offset pre ref post e in (x, (λ f. p (sym f), y), (u, q, z))

module _ (b : BsdMd) (pre : List ShmRef) (ref : ShmRef) (post : List ShmRef)
    (v : BsdInv b (pre ++ ref ∷ post)) where
  abbrev others : List ShmRef
  others = pre ++ post

  abbrev pub o : ℕ
  o = ref.dt_offset - 16

  pub live_block : Used b.pagesz v.blk v.taken ref
  live_block = (AllUsed-remove b.pagesz v.blk v.taken pre ref post v.used).0

  abbrev pub i : ℕ
  i = live_block.bucket

  pub overhead_at : ref.dt_offset - b.oversize ≡ o
  overhead_at = omega (arith, v.geometry.over)

  pub overhead : b.ov (ref.dt_offset - b.oversize) ≡ ov_magidx i
  overhead = ap b.ov overhead_at ∙ v.headed o i live_block.block live_block.is_taken

  pub bucket_ok : (1 ≤ i) × (i < 27)
  bucket_ok = v.carved.bucket o i live_block.block

  pub has_magic-true : has_magic ref b ≡ true
  has_magic-true =
      let m : ov_magic (b.ov (ref.dt_offset - b.oversize)) ≡ magic =
        ap ov_magic overhead ∙ ov_magic-ov_magidx i in
      let w = v.carved.within o i live_block.block in
      ground (arith, m, w, live_block.above, v.geometry.over)

  pub index : ov_index (b.ov (ref.dt_offset - b.oversize)) ≡ i
  index = ap ov_index overhead ∙ ov_index-ov_magidx i (omega (arith, bucket_ok))

  pub bsd_free-bsd_push : bsd_free ref b ≡ bsd_push o i b
  unfolding bsd_free
  bsd_free-bsd_push =
      let k : leb 60 i ≡ false = ground (arith, bucket_ok) in
      rw (has_magic-true, index, k, overhead_at) refl

  old_frame :
      (j : ℕ)
      → j < 27
      → NotIn o (v.free j)
        × Free
            (write_ov o (get_or b.nextf i 0) b.ov)
            v.blk
            (update o false v.taken)
            j
            (get_or b.nextf j 0)
            (v.free j)
  old_frame j k =
      let n =
        Free-NotIn_taken b.ov v.blk v.taken j (get_or b.nextf j 0) (v.free j) o live_block.is_taken
          (v.frees j k) in
      (
        n,
        Free-frame o (get_or b.nextf i 0) false b.ov v.blk v.taken j (get_or b.nextf j 0) (v.free j)
            n (v.frees j k),
      )

  new_list :
      Free
        (write_ov o (get_or b.nextf i 0) b.ov)
        v.blk
        (update o false v.taken)
        i
        (get_or (set b.nextf i o) i 0)
        (o ∷ v.free i)
  new_list =
      let (n, w) = old_frame i bucket_ok.1 in
      let next : write_ov o (get_or b.nextf i 0) b.ov o ≡ get_or b.nextf i 0 = ground arith in
      (
        get_or-set_self b.nextf i o 0 (omega (arith, v.lists, bucket_ok)),
        live_block.block,
        ground arith,
        n,
        rw next w,
      )

  bsd_push-Free :
      (j : ℕ)
      → j < 27
      → Free
          (write_ov o (get_or b.nextf i 0) b.ov)
          v.blk
          (update o false v.taken)
          j
          (get_or (set b.nextf i o) j 0)
          (if j == i then o ∷ v.free i else v.free j)
  bsd_push-Free j k = elim (Bool-cases (j == i)) [
    | inr other ↦
        let f = get_or-set_ne b.nextf i j o 0 (λ e. ground (arith, other, e)) in
        rw (other, f) (old_frame j k).1
    | inl same ↦
        let e : i ≡ j = ground (arith, same) in
        rw same (
          subst
            (λ x.
              Free (write_ov o (get_or b.nextf i 0) b.ov) v.blk (update o false v.taken) x
                (get_or (set b.nextf i o) x 0) (o ∷ v.free i))
            e new_list)
  ]

  bsd_push-headed :
      (p j : ℕ)
      → v.blk p ≡ some j
      → update o false v.taken p ≡ true
      → write_ov o (get_or b.nextf i 0) b.ov p ≡ ov_magidx j
  bsd_push-headed p j e t = ground (arith, t, v.headed p j e)

  bsd_push-BsdInv : BsdInv (bsd_push o i b) (pre ++ post)
  unfolding bsd_push
  bsd_push-BsdInv =
      let (u, n, w) = AllUsed-remove b.pagesz v.blk v.taken pre ref post v.used in
      record {
        blk = v.blk;
        taken = update o false v.taken;
        free = λ j. if j == i then o ∷ v.free i else v.free j;
        geometry = record {
          over = v.geometry.over;
          min = v.geometry.min;
          page = v.geometry.page;
          page_low = v.geometry.page_low;
          page_high = v.geometry.page_high;
        };
        low = v.low;
        above = v.above;
        core_aligned = v.core_aligned;
        inside = v.inside;
        fits = v.fits;
        carved = v.carved;
        lists = length-set b.nextf i o ∙ v.lists;
        frees = bsd_push-Free;
        headed = bsd_push-headed;
        idle = λ p q. ground (arith, v.idle p q);
        used =
            AllUsed-drop b.pagesz v.blk v.taken o (pre ++ post)
              (let e : o + 16 ≡ ref.dt_offset = omega (arith, live_block.above) in rw e n) w;
      }

  -- Freeing a block that is in use leaves a well-formed driver with the other blocks in use.
  pub bsd_free-BsdInv : BsdInv (bsd_free ref b) (pre ++ post)
  bsd_free-BsdInv = rw bsd_free-bsd_push bsd_push-BsdInv
