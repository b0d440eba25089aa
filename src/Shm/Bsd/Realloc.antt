-- ===== src/Shm/Bsd/Realloc.antt =====
-- `bsd_realloc` of libdthread/dt_shmops.c, and a second `bsd_free` of the same reference.
use dthread.Base.{
  ℕ, ◌+◌, ◌-◌, ◌*◌, ◌<◌, ◌%◌, ◌^◌, ◌≤◌, ◌≡◌, ◌≢◌, ◌⊎◌, inl, inr, refl, ap, sym, ◌∙◌, subst, Bool,
  true, false, ◌||◌, Option, none, some, List, [], ◌∷◌, ◌++◌, if◌then◌else◌, ◌==◌, ltb, leb, get_or,
  arith, Bool-cases,
}
use dthread.Shm.{ShmRef, ShmMap}
use dthread.Shm.Segment.{Got}
use dthread.Shm.Bsd.{
  BsdMd, magic, ov_magic, has_magic, bsd_push, bsd_free, bsd_malloc, bucket_of, at, room_of,
  bsd_morecore, core_take, bsd_take, bsd_pop, same_bucket, bsd_move, bsd_realloc, core_amt, shl1,
}
use dthread.Shm.Bsd.Sizes.{IsBucket, room, same_bucket-bucket_of, bucket_of-IsBucket}
use dthread.Shm.Bsd.Blocks.{extent, Free, Elsewhere, AllUsed, BsdInv}
use dthread.Shm.Bsd.Take.{Mapped, room-extent}
use dthread.Shm.Bsd.Malloc.{Given, bsd_malloc_lem}
use dthread.Shm.Bsd.Free.{
  o, i, live_block, index, bucket_ok, has_magic-true, overhead_at, bsd_free-bsd_push,
  bsd_free-BsdInv,
}

copies-BsdInv :
    (b : BsdMd) (live : List ShmRef) (c : List (ℕ × ℕ × ℕ))
    → BsdInv b live
    → BsdInv (record b { copies = c }) live
copies-BsdInv b live c v = record {
  blk = v.blk;
  taken = v.taken;
  free = v.free;
  geometry = record {
    over = v.geometry.over;
    min = v.geometry.min;
    page = v.geometry.page;
    page_low = v.geometry.page_low;
    page_high = v.geometry.page_high;
  };
  low = v.low;
  above = v.above;
  core_aligned = v.core_aligned;
  inside = v.inside;
  fits = v.fits;
  carved = v.carved;
  lists = v.lists;
  frees = v.frees;
  headed = v.headed;
  idle = v.idle;
  used = v.used;
}

Elsewhere-resize :
    (a : ℕ) (pre : List ShmRef) (ref : ShmRef) (post : List ShmRef) (size : ℕ)
    → Elsewhere a (pre ++ ref ∷ post)
    → Elsewhere a (pre ++ record ref { dt_length = size } ∷ post)
Elsewhere-resize a [] ref post size v = v
Elsewhere-resize a (r ∷ pre) ref post size (n, v) = (n, Elsewhere-resize a pre ref post size v)

AllUsed-resize :
    (page : ℕ) (blk : ℕ → Option ℕ) (taken : ℕ → Bool) (pre : List ShmRef) (ref : ShmRef)
    (post : List ShmRef) (size j : ℕ)
    → blk (ref.dt_offset - 16) ≡ some j
    → size + 16 ≤ extent page j
    → AllUsed page blk taken (pre ++ ref ∷ post)
    → AllUsed page blk taken (pre ++ record ref { dt_length = size } ∷ post)
AllUsed-resize page blk taken [] ref post size j e h (u, n, v) =
    (record { above = u.above; bucket = j; block = e; is_taken = u.is_taken; fits = h }, n, v)
AllUsed-resize page blk taken (r ∷ pre) ref post size j e h (u, n, v) = (
  u,
  Elsewhere-resize r.dt_offset pre ref post size n,
  AllUsed-resize page blk taken pre ref post size j e h v,
)

copies-bsd_morecore :
    (maps : List ShmMap) (j : ℕ) (b : BsdMd) → (bsd_morecore maps j b).copies ≡ b.copies
unfolding bsd_morecore core_take
copies-bsd_morecore maps j b = ground arith

copies-bsd_take :
    (maps : List ShmMap) (j size : ℕ) (b : BsdMd) → (bsd_take maps j size b).1.copies ≡ b.copies
unfolding bsd_take bsd_pop
copies-bsd_take maps j size b = ground arith

copies-bsd_malloc :
    (maps : List ShmMap) (size : ℕ) (b : BsdMd) → (bsd_malloc maps size b).1.copies ≡ b.copies
unfolding bsd_malloc
copies-bsd_malloc maps size b = grind (arith, copies-bsd_take, copies-bsd_morecore)

copies-bsd_free : (ref : ShmRef) (b : BsdMd) → (bsd_free ref b).copies ≡ b.copies
unfolding bsd_free bsd_push
copies-bsd_free ref b = ground arith

module _ (b : BsdMd) (pre : List ShmRef) (ref : ShmRef) (post : List ShmRef)
    (v : BsdInv b (pre ++ ref ∷ post)) where
  abbrev pub bucket : ℕ
  bucket = i b pre ref post v

  head_aligned : (j head : ℕ) (xs : List ℕ) → Free b.ov v.blk v.taken j head xs → head % 16 ≡ 0
  head_aligned j head [] f = rw f refl
  head_aligned j head (x ∷ xs) f = rw f.0 (v.carved.aligned x j f.1)

  not_magic : (w : ℕ) → w % 16 ≡ 0 → ov_magic w == magic ≡ false
  not_magic w h = ground arith

  pushed-has_magic : has_magic ref (bsd_push (o b pre ref post v) bucket b) ≡ false
  unfolding bsd_push
  pushed-has_magic =
      let w = get_or b.nextf bucket 0 in
      let h =
        head_aligned bucket w (v.free bucket) (v.frees bucket (bucket_ok b pre ref post v).1) in
      let e = overhead_at b pre ref post v in ground (arith, not_magic w h, e)

  bsd_free-none : (b' : BsdMd) → has_magic ref b' ≡ false → bsd_free ref b' ≡ b'
  unfolding bsd_free
  bsd_free-none b' e = rw e refl

  -- A second free of the same reference is refused: the free list's link has replaced the magic
  -- number, and no link looks like it.
  pub bsd_free-twice : bsd_free ref (bsd_free ref b) ≡ bsd_free ref b
  bsd_free-twice = rw (bsd_free-bsd_push b pre ref post v) (bsd_free-none _ pushed-has_magic)

  tests_pass : (ltb bucket b.minbucket || leb 60 bucket) ≡ false
  tests_pass = ground (arith, bucket_ok b pre ref post v, v.geometry.min)

  -- the reference to the same block with another length
  abbrev pub resized : ℕ → ShmRef
  resized size = record { dt_shmid = ref.dt_shmid; dt_offset = ref.dt_offset; dt_length = size }

  resized-BsdInv : (size : ℕ) → size ≤ room bucket b → BsdInv b (pre ++ resized size ∷ post)
  resized-BsdInv size h = record {
    blk = v.blk;
    taken = v.taken;
    free = v.free;
    geometry = v.geometry;
    low = v.low;
    above = v.above;
    core_aligned = v.core_aligned;
    inside = v.inside;
    fits = v.fits;
    carved = v.carved;
    lists = v.lists;
    frees = v.frees;
    headed = v.headed;
    idle = v.idle;
    used =
        AllUsed-resize b.pagesz v.blk v.taken pre ref post size bucket
          (live_block b pre ref post v).block
          (room-extent b v.geometry size bucket (bucket_ok b pre ref post v).0 h) v.used;
  }

  module _ (maps : List ShmMap) (ptr size : ℕ) (mapped : Mapped maps b) where
    realloc_same :
        same_bucket size bucket b ≡ true
        → bsd_realloc maps ptr ref size b ≡ (some (ptr, resized size), b)
    unfolding bsd_realloc
    realloc_same e =
        rw (has_magic-true b pre ref post v, index b pre ref post v, tests_pass, e) refl

    realloc_move :
        same_bucket size bucket b ≡ false
        → bsd_realloc maps ptr ref size b ≡ bsd_move maps ptr ref size bucket b
    unfolding bsd_realloc
    realloc_move e =
        rw (has_magic-true b pre ref post v, index b pre ref post v, tests_pass, e) refl

    abbrev pub copied : ℕ
    copied = if ltb size (room_of bucket b) then size else room_of bucket b

    move_failed :
        bsd_malloc maps size b ≡ (none, b) → bsd_move maps ptr ref size bucket b ≡ (none, b)
    unfolding bsd_move
    move_failed e = rw (bsd_move, e) (ap (λ (y : Option Got × BsdMd). (none, y.1)) e)

    moved :
        (got : Got)
        → (bsd_malloc maps size b).0 ≡ some got
        → bsd_move maps ptr ref size bucket b ≡ (
          some got,
          bsd_free ref (record ((bsd_malloc maps size b).1) {
            copies = (bsd_malloc maps size b).1.copies ++ (got.0, ptr, copied) ∷ [];
          }),
        )
    unfolding bsd_move
    moved got e = rw (bsd_move, e) refl

    abbrev pub Moved : Option Got × BsdMd → Type 0
    Moved r =
        (got : Got) × (r.0 ≡ some got)
        × (got.1.dt_length ≡ size)
        × (r.1.copies ≡ b.copies ++ (got.0, ptr, copied) ∷ [])
        × BsdInv r.1 (got.1 ∷ pre ++ post)

    realloc_Moved :
        same_bucket size bucket b ≡ false
        → Given maps size b (pre ++ ref ∷ post) (bsd_malloc maps size b)
        → Moved (bsd_realloc maps ptr ref size b)
    realloc_Moved n (got, g, len, sh, p, inv) =
        let e = realloc_move n ∙ moved got g in
        (
          got,
          ap (λ (x : Option Got × BsdMd). x.0) e,
          len,
          ap (λ (x : Option Got × BsdMd). x.1.copies) e
              ∙ copies-bsd_free ref _
              ∙ ap (λ c. c ++ (got.0, ptr, copied) ∷ []) (copies-bsd_malloc maps size b),
          subst (λ (x : Option Got × BsdMd). BsdInv x.1 (got.1 ∷ pre ++ post)) (sym e)
              (bsd_free-BsdInv _ (got.1 ∷ pre) ref post (
                copies-BsdInv (bsd_malloc maps size b).1 (got.1 ∷ pre ++ ref ∷ post)
                  ((bsd_malloc maps size b).1.copies ++ (got.0, ptr, copied) ∷ []) inv)),
        )

    bucket_room : size ≤ 2 ^ 30 → bucket_of size b ≡ at bucket → size ≤ room bucket b
    bucket_room h e =
        let (j, f, w) = bucket_of-IsBucket b v.geometry size h in
        let same : j ≡ bucket = cc in subst (λ k. size ≤ room k b) same w.2

    -- There is no core left for the smallest bucket with room for the size, and no block of it free.
    abbrev pub NoRoom : Type 0
    NoRoom =
        (j : ℕ) × IsBucket size j b
        × (get_or b.nextf j 0 ≡ 0)
        × (b.core_resid < core_amt (16 * shl1 j) b)

    -- Resizing a block that is in use, in a mapped arena in which the driver's invariant holds, to at
    -- most 1 GB. The block stays where it is, with the new
    -- length, exactly if `bsd_malloc` takes the new size from the block's bucket, and nothing else
    -- changes. Otherwise either the smallest bucket with room for the size has no free block, there is
    -- too little core left to fill it, and nothing changes; or a block of the new size is in use in its place, the other blocks are as before, and the
    -- last copy made is that of the old contents, as far as they fit.
    pub bsd_realloc_lem :
        size ≤ 2 ^ 30
        → let r = bsd_realloc maps ptr ref size b in
          ((bucket_of size b ≡ at bucket)
            × (r ≡ (some (ptr, resized size), b))
            × BsdInv b (pre ++ resized size ∷ post))
          ⊎ ((bucket_of size b ≢ at bucket) × ((NoRoom × (r ≡ (none, b))) ⊎ Moved r))
    bsd_realloc_lem h =
        let ok = bucket_ok b pre ref post v in
        let (to, from) = same_bucket-bucket_of b v.geometry size bucket h ok.0 ok.1 in
        elim (Bool-cases (same_bucket size bucket b)) [
          | inl keeps ↦
              inl (to keeps, realloc_same keeps, resized-BsdInv size (bucket_room h (to keeps)))
          | inr leaves ↦
              let ne : bucket_of size b ≢ at bucket =
                λ e. (let f : false ≡ true = sym leaves ∙ from e in cc) in
              let (j, w, out) = bsd_malloc_lem maps size b (pre ++ ref ∷ post) v mapped h in
              inr (
                ne,
                elim out [
                  | inl f ↦ inl ((j, w, f.1, f.2), realloc_move leaves ∙ move_failed f.0)
                  | inr g ↦ inr (realloc_Moved leaves g)
                ],
              )
        ]
