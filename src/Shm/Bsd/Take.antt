-- ===== src/Shm/Bsd/Take.antt =====
-- What `bsd_malloc` of libdthread/dt_shmops.c does once a bucket has a free block.
use dthread.Base.{
  ℕ, ◌+◌, ◌-◌, ◌≤◌, ◌<◌, ◌≡◌, ◌≢◌, inl, inr, ap, sym, ◌∙◌, subst, Bool, true, false, Option, some,
  List, [], ◌∷◌, if◌then◌else◌, ◌==◌, length, get_or, set, length-set, get_or-set_self,
  get_or-set_ne, arith, Bool-cases,
}
use dthread.Shm.{ShmRef, ShmMap, map_at, shmref2ptr}
use dthread.Shm.Bsd.{BsdMd, ov_magidx, write_ov, bsd_pop, bsd_take}
use dthread.Shm.Bsd.Search.{shl1_pos}
use dthread.Shm.Bsd.Sizes.{Geometry, room}
use dthread.Shm.Bsd.Blocks.{
  extent, extent_pos, update, Free, Free-frame, Free-NotIn_bucket, Elsewhere, AllUsed, BsdInv,
}

-- The segment of the arena is mapped up to the arena's end.
pub record Mapped (maps : List ShmMap) (b : BsdMd) : Type 0 where
  pub known : b.self.dt_shmid < length maps
  pub large : b.max_uoffset ≤ (map_at maps b.self.dt_shmid).size

pub shmref2ptr-some :
    (maps : List ShmMap) (ref : ShmRef) (len : ℕ)
    → ref.dt_shmid < length maps
    → 0 < ref.dt_length
    → ref.dt_offset + ref.dt_length ≤ (map_at maps ref.dt_shmid).size
    → len ≤ ref.dt_length
    → shmref2ptr maps ref len ≡ some ((map_at maps ref.dt_shmid).mapping + ref.dt_offset)
unfolding shmref2ptr
shmref2ptr-some maps ref len k p l m = ground arith

-- Another block is taken: the others stay in use.
pub AllUsed-take :
    (page : ℕ) (blk : ℕ → Option ℕ) (taken : ℕ → Bool) (o : ℕ) (live : List ShmRef)
    → AllUsed page blk taken live
    → AllUsed page blk (update o true taken) live
AllUsed-take page blk taken o [] v = tt
AllUsed-take page blk taken o (r ∷ rs) (u, e, v) = (
  record {
    above = u.above;
    bucket = u.bucket;
    block = u.block;
    is_taken = ground (arith, u.is_taken);
    fits = u.fits;
  },
  e,
  AllUsed-take page blk taken o rs v,
)

-- A free block is no block in use.
pub Elsewhere-free :
    (page : ℕ) (blk : ℕ → Option ℕ) (taken : ℕ → Bool) (o : ℕ) (live : List ShmRef)
    → taken o ≡ false
    → AllUsed page blk taken live
    → Elsewhere (o + 16) live
Elsewhere-free page blk taken o [] f v = tt
Elsewhere-free page blk taken o (r ∷ rs) f (u, e, v) = (
  λ q.
      let p : r.dt_offset - 16 ≡ o = omega (arith, q) in
      let c : true ≡ false = sym u.is_taken ∙ ap taken p ∙ f in cc,
  Elsewhere-free page blk taken o rs f v,
)

module _ (b : BsdMd) (live : List ShmRef) (v : BsdInv b live) (i : ℕ) (l : 1 ≤ i) (h : i < 27)
    (x : ℕ) (xs : List ℕ) (fr : Free b.ov v.blk v.taken i (get_or b.nextf i 0) (x ∷ xs)) where
  bsd_pop-Free :
      (j : ℕ)
      → j < 27
      → Free
          (write_ov x (ov_magidx i) b.ov)
          v.blk
          (update x true v.taken)
          j
          (get_or (set b.nextf i (b.ov x)) j 0)
          (if j == i then xs else v.free j)
  bsd_pop-Free j k = elim (Bool-cases (j == i)) [
    | inl same ↦
        let e : j ≡ i = ground (arith, same) in
        let f = get_or-set_self b.nextf i (b.ov x) 0 (omega (arith, v.lists)) in
        let (a, c, d, n, w) = fr in
        rw (same, e, f) (Free-frame x (ov_magidx i) true b.ov v.blk v.taken i (b.ov x) xs n w)
    | inr other ↦
        let f = get_or-set_ne b.nextf i j (b.ov x) 0 (λ e. ground (arith, other, e)) in
        let ne : v.blk x ≢ some j = λ e. ground (arith, other, fr.1, e) in
        rw (other, f)
          (Free-frame x (ov_magidx i) true b.ov v.blk v.taken j (get_or b.nextf j 0) (v.free j)
            (Free-NotIn_bucket b.ov v.blk v.taken j (get_or b.nextf j 0) (v.free j) x ne
              (v.frees j k))
            (v.frees j k))
  ]

  bsd_pop-headed :
      (o j : ℕ)
      → v.blk o ≡ some j
      → update x true v.taken o ≡ true
      → write_ov x (ov_magidx i) b.ov o ≡ ov_magidx j
  bsd_pop-headed o j e t = elim (Bool-cases (o == x)) [
    | inl same ↦
        let p : o ≡ x = ground (arith, same) in
        let q : some i ≡ some j = sym fr.1 ∙ ap v.blk (sym p) ∙ e in ground (arith, same, q)
    | inr other ↦ ground (arith, other, t, v.headed o j e)
  ]

  pub bsd_pop-BsdInv :
      (ovp size : ℕ)
      → size + 16 ≤ extent b.pagesz i
      → let (got, b') = bsd_pop ovp x i size b in BsdInv b' (got.1 ∷ live)
  unfolding bsd_pop
  bsd_pop-BsdInv ovp size fits =
      let below : x < b.mycore = omega (arith, v.carved.within x i fr.1, extent_pos b.pagesz i l) in
      let over : x + b.oversize ≡ x + 16 = omega (arith, v.geometry.over) in
      let back : x + b.oversize - 16 ≡ x = omega (arith, over) in
      record {
        blk = v.blk;
        taken = update x true v.taken;
        free = λ j. if j == i then xs else v.free j;
        geometry = record {
          over = v.geometry.over;
          min = v.geometry.min;
          page = v.geometry.page;
          page_low = v.geometry.page_low;
          page_high = v.geometry.page_high;
        };
        low = v.low;
        above = v.above;
        core_aligned = v.core_aligned;
        inside = v.inside;
        fits = v.fits;
        carved = v.carved;
        lists = length-set b.nextf i (b.ov x) ∙ v.lists;
        frees = bsd_pop-Free;
        headed = bsd_pop-headed;
        idle = λ o p. ground (arith, below, v.idle o p);
        used = (
          record {
            above = omega (arith, v.geometry.over);
            bucket = i;
            block = rw back fr.1;
            is_taken = rw back (ground arith);
            fits = fits;
          },
          rw over (Elsewhere-free b.pagesz v.blk v.taken x live fr.2 v.used),
          AllUsed-take b.pagesz v.blk v.taken x live v.used,
        );
      }

pub Free-nil :
    (ov : ℕ → ℕ) (blk : ℕ → Option ℕ) (taken : ℕ → Bool) (i head : ℕ) (xs : List ℕ)
    → head ≢ 0
    → Free ov blk taken i head xs
    → (ys : List ℕ) × Free ov blk taken i head (head ∷ ys)
Free-nil ov blk taken i head [] ne v = absurd (ne v)
Free-nil ov blk taken i head (x ∷ xs) ne v =
    (xs, subst (λ y. Free ov blk taken i head (y ∷ xs)) (sym v.0) v)

pub room-extent :
    (b : BsdMd)
    → Geometry b
    → (size i : ℕ) → 1 ≤ i
    → size ≤ room i b
    → size + 16 ≤ extent b.pagesz i
room-extent b v size i l h = ground (arith, shl1_pos i)

pub bsd_take-some :
    (maps : List ShmMap) (size i p ptr : ℕ) (b : BsdMd)
    → get_or b.nextf i 0 ≡ p
    → p ≢ 0
    → shmref2ptr maps
        (record { dt_shmid = b.self.dt_shmid; dt_offset = p; dt_length = b.oversize })
        b.oversize
      ≡ some ptr
    → let (got, b') = bsd_pop ptr p i size b in bsd_take maps i size b ≡ (some got, b')
unfolding bsd_take
bsd_take-some maps size i p ptr b h ne e =
    let z : p == 0 ≡ false = ground (arith, ne) in
    rw (bsd_take, h, z, e)
      (ap (λ x. (some (bsd_pop ptr x i size b).0, (bsd_pop ptr x i size b).1)) h)
