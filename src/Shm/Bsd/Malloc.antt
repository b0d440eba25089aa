-- ===== src/Shm/Bsd/Malloc.antt =====
-- `bsd_malloc` of libdthread/dt_shmops.c.
use dthread.Base.{
  ℕ, ◌+◌, ◌*◌, ◌^◌, ◌≤◌, ◌<◌, ◌≡◌, ◌≢◌, ◌⊎◌, inl, inr, refl, ap, sym, ◌∙◌, subst, true, false,
  Option, none, some, List, ◌∷◌, if◌then◌else◌, ◌==◌, ltb, leb, length, get_or, get_or-set_self,
  arith, Bool-cases, dec_lt,
}
use mathlib.Core.Option.{some-injective}
use dthread.Shm.{ShmRef, ShmMap, map_at, shmref2ptr}
use dthread.Shm.Segment.{Got}
use dthread.Shm.Bsd.{
  BsdMd, shl1, core_amt, core_take, bsd_morecore, at, bucket_of, bsd_pop, bsd_take, bsd_malloc,
}
use dthread.Shm.Bsd.Search.{buck_size-small, shl1_pos, shl1-lt}
use dthread.Shm.Bsd.Sizes.{IsBucket, bucket_of-IsBucket}
use dthread.Shm.Bsd.Blocks.{extent, extent_pos, BsdInv}
use dthread.Shm.Bsd.Morecore.{core_take-BsdInv}
use dthread.Shm.Bsd.Take.{
  Mapped, shmref2ptr-some, bsd_pop-BsdInv, Free-nil, room-extent, bsd_take-some,
}

module _ (maps : List ShmMap) (size : ℕ) where
  -- what an allocation gives
  abbrev pub Given : BsdMd → List ShmRef → Option Got × BsdMd → Type 0
  Given b live r =
      (got : Got) × (r.0 ≡ some got)
      × (got.1.dt_length ≡ size)
      × (got.1.dt_shmid ≡ b.self.dt_shmid)
      × (got.0 ≡ (map_at maps b.self.dt_shmid).mapping + got.1.dt_offset)
      × BsdInv r.1 (got.1 ∷ live)

  module _ (b : BsdMd) (live : List ShmRef) (v : BsdInv b live) (mapped : Mapped maps b) (i : ℕ)
      (l : 1 ≤ i) (h : i < 27) (fits : size + 16 ≤ extent b.pagesz i) where
    abbrev head : ℕ
    head = get_or b.nextf i 0

    abbrev popped : Got × BsdMd
    popped = bsd_pop ((map_at maps b.self.dt_shmid).mapping + head) head i size b

    bsd_take-pop :
        head + 16 ≤ b.mycore → head ≢ 0 → bsd_take maps i size b ≡ (some popped.0, popped.1)
    bsd_take-pop low ne =
        let over = v.geometry.over in
        let ref : ShmRef = record {
          dt_shmid = b.self.dt_shmid;
          dt_offset = head;
          dt_length = b.oversize;
        } in
        let e : shmref2ptr maps ref b.oversize
            ≡ some ((map_at maps b.self.dt_shmid).mapping + head) =
          shmref2ptr-some maps ref b.oversize mapped.known (omega (arith, over))
            (omega (arith, over, low, v.inside, mapped.large)) (omega arith) in
        bsd_take-some maps size i head ((map_at maps b.self.dt_shmid).mapping + head) b refl ne e

    pub bsd_take-Given : head ≢ 0 → Given b live (bsd_take maps i size b)
    unfolding bsd_pop
    bsd_take-Given ne =
        let (xs, fr) = Free-nil b.ov v.blk v.taken i head (v.free i) ne (v.frees i h) in
        let low = v.carved.within head i fr.1 in
        let e = bsd_take-pop (omega (arith, low, extent_pos b.pagesz i l)) ne in
        (
          popped.0,
          ap (λ (y : Option Got × BsdMd). y.0) e,
          refl,
          refl,
          omega arith,
          subst (λ (y : Option Got × BsdMd). BsdInv y.1 (popped.0.1 ∷ live)) (sym e)
              (bsd_pop-BsdInv b live v i l h head xs fr
                ((map_at maps b.self.dt_shmid).mapping + head) size fits),
        )

    core_amt_pos : 0 < core_amt (16 * shl1 i) b
    core_amt_pos =
        ground (
          arith,
          shl1-lt i h,
          shl1_pos i,
          v.geometry.page,
          shl1-lt b.pagebucket v.geometry.page_high,
        )

    bsd_morecore-core_take :
        core_amt (16 * shl1 i) b ≤ b.core_resid
        → bsd_morecore maps i b ≡ core_take i (16 * shl1 i) b
    unfolding bsd_morecore
    bsd_morecore-core_take enough =
        let amt = core_amt (16 * shl1 i) b in
        let oref : ShmRef = record {
          dt_shmid = b.self.dt_shmid;
          dt_offset = b.mycore;
          dt_length = amt;
        } in
        let e : shmref2ptr maps oref amt ≡ some ((map_at maps b.self.dt_shmid).mapping + b.mycore) =
          shmref2ptr-some maps oref amt mapped.known core_amt_pos
            (omega (arith, v.inside, mapped.large)) (omega arith) in
        let j : ltb i b.minbucket ≡ false = ground (arith, v.geometry.min) in
        let k : leb 60 i ≡ false = ground arith in
        let f : ltb b.core_resid amt ≡ false = ground arith in
        rw (buck_size-small i h, j, k, f, e) (ap (λ z. core_take i z b) (buck_size-small i h))

    bsd_morecore-full : b.core_resid < core_amt (16 * shl1 i) b → bsd_morecore maps i b ≡ b
    unfolding bsd_morecore
    bsd_morecore-full full =
        let f : ltb b.core_resid (core_amt (16 * shl1 i) b) ≡ true = ground arith in
        rw (buck_size-small i h, f) (ground arith)

  abbrev pub Failed : ℕ → BsdMd → Option Got × BsdMd → Type 0
  Failed i b r =
      (r ≡ (none, b)) × (get_or b.nextf i 0 ≡ 0) × (b.core_resid < core_amt (16 * shl1 i) b)

  core_take-nextf :
      (i sz : ℕ) (b : BsdMd) → i < length b.nextf → get_or (core_take i sz b).nextf i 0 ≡ b.mycore
  unfolding core_take
  core_take-nextf i sz b h = get_or-set_self b.nextf i b.mycore 0 h

  core_take-same :
      (i sz : ℕ) (b : BsdMd)
      → ((core_take i sz b).amd ≡ b.amd) × ((core_take i sz b).pagesz ≡ b.pagesz)
  unfolding core_take
  core_take-same i sz b = (refl, refl)

  core_take-Mapped : (i sz : ℕ) (b : BsdMd) → Mapped maps b → Mapped maps (core_take i sz b)
  unfolding core_take
  core_take-Mapped i sz b m = record { known = m.known; large = m.large }

  module _ (b : BsdMd) (live : List ShmRef) (v : BsdInv b live) (mapped : Mapped maps b) (i : ℕ)
      (l : 1 ≤ i) (h : i < 27) (fits : size + 16 ≤ extent b.pagesz i) where
    -- what `bsd_malloc` does with the bucket `i`
    abbrev bucket_malloc : Option Got × BsdMd
    bucket_malloc =
        bsd_take maps i size (if get_or b.nextf i 0 == 0 then bsd_morecore maps i b else b)

    refilled :
        core_amt (16 * shl1 i) b ≤ b.core_resid
        → Given b live (bsd_take maps i size (core_take i (16 * shl1 i) b))
    unfolding core_take
    refilled enough =
        let b' = core_take i (16 * shl1 i) b in
        let v' = core_take-BsdInv b live v i l h enough in
        let e = core_take-nextf i (16 * shl1 i) b (omega (arith, v.lists)) in
        bsd_take-Given b' live v' (core_take-Mapped i (16 * shl1 i) b mapped) i l h fits
          (λ z. omega (arith, e, z, v.low, v.above))

    bsd_take-full : get_or b.nextf i 0 ≡ 0 → bsd_take maps i size b ≡ (none, b)
    unfolding bsd_take
    bsd_take-full z = ground (arith, z)

    pub bucket_malloc_lem : Failed i b bucket_malloc ⊎ Given b live bucket_malloc
    bucket_malloc_lem = elim (Bool-cases (get_or b.nextf i 0 == 0)) [
      | inr some_free ↦ inr (
          rw some_free
            (bsd_take-Given b live v mapped i l h fits (λ z. ground (arith, some_free, z))))
      | inl empty ↦
          let z : get_or b.nextf i 0 ≡ 0 = ground (arith, empty) in
          elim (dec_lt b.core_resid (core_amt (16 * shl1 i) b)) [
            | yes full ↦ inl (
              rw (empty, bsd_morecore-full b live v mapped i l h fits full) (bsd_take-full z),
              z,
              full,
            )
            | no enough ↦ inr (
                rw (empty, bsd_morecore-core_take b live v mapped i l h fits (omega arith))
                  (refilled (omega arith)))
          ]
    ]

  pub bsd_malloc-bucket :
      (b : BsdMd) (i : ℕ)
      → bucket_of size b ≡ at i
      → bsd_malloc maps size b
        ≡ bsd_take maps i size (if get_or b.nextf i 0 == 0 then bsd_morecore maps i b else b)
  unfolding bsd_malloc
  bsd_malloc-bucket b i e = rw (bsd_malloc, e) refl

  pub bsd_malloc_lem :
      (b : BsdMd) (live : List ShmRef)
      → BsdInv b live
      → Mapped maps b
      → size ≤ 2 ^ 30
      → (i : ℕ) × IsBucket size i b
        × (Failed i b (bsd_malloc maps size b) ⊎ Given b live (bsd_malloc maps size b))
  bsd_malloc_lem b live v mapped h =
      let (i, e, w) = bucket_of-IsBucket b v.geometry size h in
      (
        i,
        w,
        rw (bsd_malloc-bucket b i e)
            (bucket_malloc_lem b live v mapped i w.0 w.1 (room-extent b v.geometry size i w.0 w.2)),
      )

  -- what is known of a block that was given out
  pub bsd_malloc-got :
      (b : BsdMd) (live : List ShmRef) (got : Got)
      → BsdInv b live
      → Mapped maps b
      → size ≤ 2 ^ 30
      → (bsd_malloc maps size b).0 ≡ some got
      → (got.1.dt_length ≡ size)
        × (got.1.dt_shmid ≡ b.self.dt_shmid)
        × BsdInv (bsd_malloc maps size b).1 (got.1 ∷ live)
  bsd_malloc-got b live got v mapped h e =
      let (i, w, out) = bsd_malloc_lem b live v mapped h in
      elim out [
        | inl (n, z, full) ↦
            let q : none ≡ some got = sym (ap (λ (x : Option Got × BsdMd). x.0) n) ∙ e in
            absurd (cc)
        | inr (got', g, len, sh, p, v') ↦
            let same : got' ≡ got = some-injective got' got (sym g ∙ e) in
            (
              ap (λ (x : Got). x.1.dt_length) (sym same) ∙ len,
              ap (λ (x : Got). x.1.dt_shmid) (sym same) ∙ sh,
              subst (λ (x : Got). BsdInv (bsd_malloc maps size b).1 (x.1 ∷ live)) same v',
            )
      ]

  pub bsd_malloc-none :
      (b : BsdMd) (live : List ShmRef)
      → BsdInv b live
      → Mapped maps b
      → size ≤ 2 ^ 30
      → (bsd_malloc maps size b).0 ≡ none
      → (bsd_malloc maps size b).1 ≡ b
  bsd_malloc-none b live v mapped h e =
      let (i, w, out) = bsd_malloc_lem b live v mapped h in
      elim out [
        | inl (n, z, full) ↦ ap (λ (x : Option Got × BsdMd). x.1) n
        | inr (got', g, len, sh, p, v') ↦ (let q : some got' ≡ none = sym g ∙ e in absurd (cc))
      ]
