-- ===== src/Shm/Bsd/Sizes.antt =====
-- The sizes of the buckets of the bsd driver (libdthread/dt_shmops.c), and the bucket that
-- `bsd_malloc` finds for a size.
use dthread.Base.{
  ℕ, suc, ◌+◌, ◌-◌, ◌*◌, ◌/◌, ◌^◌, ◌≤◌, ◌<◌, ◌≡◌, ◌≢◌, ◌⊎◌, inl, inr, refl, ap, sym, ◌∙◌, subst,
  Bool, true, ◌&&◌, ◌||◌, leb, ltb, ◌==◌, if◌then◌else◌, arith, Bool-cases, dec_lt,
}
use dthread.Shm.Break.{sub64}
use dthread.Shm.Bsd.{BsdMd, shl1, at, find_bucket, bucket_of, room_of, prev_room, same_bucket}
use dthread.Shm.Bsd.Search.{
  shl1_pos, shl1-le, buck_size-small, shl1-lt, cap, First, find_bucket_lem,
}

-- The numbers that `bsd_init` sets, for a page of at least 64 bytes and at most 1 GB.
pub record Geometry (b : BsdMd) : Type 0 where
  pub over : b.oversize ≡ 16
  pub min : b.minbucket ≡ 1
  pub page : b.pagesz ≡ 16 * shl1 b.pagebucket
  pub page_low : 2 ≤ b.pagebucket
  pub page_high : b.pagebucket < 27

-- The user's bytes in a block of the bucket `i`, on unbounded numbers.
abbrev pub room : ℕ → BsdMd → ℕ
room i b = if ltb (16 * shl1 i) b.pagesz then 16 * shl1 i - 16 else 16 * shl1 i + b.pagesz - 16

-- `i` is the smallest bucket with room for the size.
abbrev pub IsBucket : ℕ → ℕ → BsdMd → Type 0
IsBucket size i b = (1 ≤ i) × (i < 27) × (size ≤ room i b) × ((i ≡ 1) ⊎ (room (i - 1) b < size))

-- the test of `bsd_realloc`, of the room `r` of a bucket and the room `q` of the one below
abbrev fits_only : ℕ → ℕ → ℕ → ℕ → Bool
fits_only size i r q = let p : ℕ = if leb i 1 then 0 else q in leb size r && (p == 0 || ltb p size)

fits_only-true :
    (size i r q : ℕ)
    → 1 ≤ i
    → (i ≢ 1 → 0 < q)
    → (fits_only size i r q ≡ true → (size ≤ r) × ((i ≡ 1) ⊎ (q < size)))
      × ((size ≤ r) × ((i ≡ 1) ⊎ (q < size)) → fits_only size i r q ≡ true)
fits_only-true size i r q l pos = elim (dec_lt 1 i) [
  | yes h ↦ (
    λ e. (ground (arith, e), inr (ground (arith, e, pos (omega arith)))),
    λ (a, o). ground (arith, a, o),
  )
  | no h ↦
      let one : i ≡ 1 = omega arith in
      (λ e. (ground (arith, e, one), inl one), λ (a, o). ground (arith, a, one))
]

module _ (b : BsdMd) (v : Geometry b) where
  pub room_of-room : (i : ℕ) → i < 27 → 1 ≤ i → room_of i b ≡ room i b
  room_of-room i h l =
      let p = v.page in
      rw (buck_size-small i h) (
        ground
          (arith, v.over, v.page, shl1-lt i h, shl1-lt b.pagebucket v.page_high, shl1-le 1 i l))

  room-le : (i j : ℕ) → i ≤ j → room i b ≤ room j b
  room-le i j h = ground (arith, shl1-le i j h)

  IsBucket-le : (size i j : ℕ) → IsBucket size i b → IsBucket size j b → j ≤ i
  IsBucket-le size i j (a, c, d, e) (a', c', d', inl one) = omega (arith, one)
  IsBucket-le size i j (a, c, d, e) (a', c', d', inr low) = elim (dec_lt i j) [
    | no h ↦ omega arith
    | yes h ↦ absurd (omega (arith, room-le i (j - 1) (omega arith)))
  ]

  IsBucket-unique : (size i j : ℕ) → IsBucket size i b → IsBucket size j b → i ≡ j
  IsBucket-unique size i j u w = omega (arith, IsBucket-le size i j u w, IsBucket-le size j i w u)

  cap_low : (i : ℕ) → i < 60 → cap (sub64 0 16) i ≡ 16 * shl1 i - 16
  cap_low i h = omega (arith, shl1-le i 59 (omega arith), shl1_pos i)

  pub cap_high : (i : ℕ) → i < 60 → cap (sub64 b.pagesz 16) i ≡ 16 * shl1 i + b.pagesz - 16
  cap_high i h = omega (
    arith,
    shl1-le i 59 (omega arith),
    shl1_pos i,
    v.page,
    shl1_pos b.pagebucket,
    shl1-lt b.pagebucket v.page_high,
  )

  pub half_page : b.pagesz / 2 ≡ 16 * shl1 (b.pagebucket - 1)
  half_page =
      let e : b.pagebucket ≡ suc (b.pagebucket - 1) = omega (arith, v.page_low) in
      let q : shl1 b.pagebucket ≡ 2 * shl1 (b.pagebucket - 1) = ap shl1 e in
      omega (arith, v.page, q)

  small_room : (i : ℕ) → i < b.pagebucket → room i b ≡ 16 * shl1 i - 16
  small_room i h =
      ground (arith, half_page, v.page, v.page_low, shl1-le i (b.pagebucket - 1), shl1_pos i)

  large_room : (i : ℕ) → b.pagebucket ≤ i → room i b ≡ 16 * shl1 i + b.pagesz - 16
  large_room i h = ground (arith, v.page, shl1-le b.pagebucket i h)

  First-low :
      (size j : ℕ)
      → size ≤ 16 * shl1 (b.pagebucket - 1) - 16
      → First size (sub64 0 16) 1 j
      → IsBucket size j b
  First-low size j h (a, c, d, inl one) = (
    a,
    omega arith,
    rw (small_room j (omega (arith, v.page_low))) (omega (arith, cap_low j c)),
    inl one,
  )
  First-low size j h (a, c, d, inr (e, f)) = elim (dec_lt j b.pagebucket) [
    | no l ↦ absurd (
        omega
          (arith, shl1-le (b.pagebucket - 1) (j - 1) (omega arith), cap_low (j - 1) (omega arith)))
    | yes l ↦ (
      a,
      omega (arith, v.page_high),
      rw (small_room j l) (omega (arith, cap_low j c)),
      inr (rw (small_room (j - 1) (omega arith)) (omega (arith, cap_low (j - 1) (omega arith)))),
    )
  ]

  First-high :
      (size j : ℕ)
      → size ≤ 2 ^ 30
      → 16 * shl1 (b.pagebucket - 1) - 16 < size
      → First size (sub64 b.pagesz 16) b.pagebucket j
      → IsBucket size j b
  First-high size j h l (a, c, d, inl same) = (
    omega (arith, v.page_low),
    omega (arith, v.page_high),
    rw (large_room j a) (omega (arith, cap_high j (omega (arith, v.page_high)))),
    inr (rw (small_room (j - 1) (omega (arith, v.page_low))) (rw same l)),
  )
  First-high size j h l (a, c, d, inr (e, f)) = elim (dec_lt j 27) [
    | no n ↦ absurd (
        omega (
          arith,
          shl1-le 26 (j - 1) (omega arith),
          cap_high (j - 1) (omega arith),
          v.page,
          shl1_pos b.pagebucket,
        ))
    | yes n ↦ (
      omega (arith, v.page_low),
      n,
      rw (large_room j a) (omega (arith, cap_high j (omega arith))),
      inr (rw (large_room (j - 1) (omega arith)) (omega (arith, cap_high (j - 1) (omega arith)))),
    )
  ]

  search_low :
      (size : ℕ)
      → size ≤ 16 * shl1 (b.pagebucket - 1) - 16
      → (j : ℕ) × (find_bucket 65 size (16 * shl1 1) (sub64 0 16) 1 ≡ at j) × IsBucket size j b
  search_low size h = elim (find_bucket_lem 65 size (sub64 0 16) 1 (omega arith) (omega arith)) [
    | inl (j, e, f) ↦ (j, e, First-low size j h f)
    | inr (e, f) ↦ absurd (
        omega (
          arith,
          cap_low 59 (omega arith),
          shl1-lt (b.pagebucket - 1) (omega (arith, v.page_high)),
        ))
  ]

  search_high :
      (size : ℕ)
      → size ≤ 2 ^ 30
      → 16 * shl1 (b.pagebucket - 1) - 16 < size
      → (j : ℕ) × (find_bucket 65 size b.pagesz (sub64 b.pagesz 16) b.pagebucket ≡ at j)
        × IsBucket size j b
  search_high size h l =
      elim (find_bucket_lem 65 size (sub64 b.pagesz 16) b.pagebucket (omega (arith, v.page_high))
        (omega arith)) [
          | inl (j, e, f) ↦ (
            j,
            ap (λ x. find_bucket 65 size x (sub64 b.pagesz 16) b.pagebucket) v.page ∙ e,
            First-high size j h l f,
          )
          | inr (e, f) ↦ absurd (omega (arith, cap_high 59 (omega arith)))
        ]

  -- A size of at most 1 GB gets the smallest bucket with room for it.
  pub bucket_of-IsBucket :
      (size : ℕ) → size ≤ 2 ^ 30 → (j : ℕ) × (bucket_of size b ≡ at j) × IsBucket size j b
  unfolding bucket_of
  bucket_of-IsBucket size h =
      let half : sub64 (b.pagesz / 2) b.oversize ≡ 16 * shl1 (b.pagebucket - 1) - 16 = omega (
        arith,
        half_page,
        v.over,
        v.page_low,
        shl1_pos (b.pagebucket - 1),
        shl1-le 1 (b.pagebucket - 1) (omega (arith, v.page_low)),
        shl1-lt (b.pagebucket - 1) (omega (arith, v.page_high)),
      ) in
      elim (Bool-cases (leb size (sub64 (b.pagesz / 2) b.oversize))) [
        | inl few ↦
            rw (few, v.min, v.over, buck_size-small 1 (omega arith))
              (search_low size (ground (arith, few, half)))
        | inr many ↦ rw (many, v.over) (search_high size h (ground (arith, many, half)))
      ]

  prev_room-room :
      (i : ℕ) → i < 27 → 1 ≤ i → prev_room i b ≡ (if leb i 1 then 0 else room (i - 1) b)
  prev_room-room i h l = elim (dec_lt 1 i) [
    | yes m ↦ rw (v.min, room_of-room (i - 1) (omega arith) (omega arith)) refl
    | no m ↦ ground (arith, v.min)
  ]

  same_bucket-fits_only :
      (size i : ℕ)
      → i < 27
      → 1 ≤ i
      → same_bucket size i b ≡ fits_only size i (room i b) (room (i - 1) b)
  same_bucket-fits_only size i h l =
      ap (λ r. leb size r && (prev_room i b == 0 || ltb (prev_room i b) size)) (room_of-room i h l)
      ∙ ap (λ p. leb size (room i b) && (p == 0 || ltb p size)) (prev_room-room i h l)

  room_pos : (i : ℕ) → 1 ≤ i → 0 < room i b
  room_pos i l = ground (arith, shl1-le 1 i l)

  -- `bsd_realloc` keeps a block exactly if `bsd_malloc` would take one from the same bucket.
  pub same_bucket-bucket_of :
      (size i : ℕ)
      → size ≤ 2 ^ 30
      → 1 ≤ i
      → i < 27
      → (same_bucket size i b ≡ true → bucket_of size b ≡ at i)
        × (bucket_of size b ≡ at i → same_bucket size i b ≡ true)
  same_bucket-bucket_of size i h l u =
      let (to, from) =
        fits_only-true size i (room i b) (room (i - 1) b) l
          (λ ne. room_pos (i - 1) (omega arith)) in
      let e = same_bucket-fits_only size i u l in
      let (j, f, w) = bucket_of-IsBucket size h in
      (
        λ t. (let (x, y) = to (sym e ∙ t) in f ∙ ap at (IsBucket-unique size j i w (l, u, x, y))),
        λ t.
            let same : j ≡ i = cc in
            let w' = subst (λ k. IsBucket size k b) same w in e ∙ from (w'.2, w'.3),
      )
