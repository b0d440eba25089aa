-- ===== src/Shm/Bsd/Blocks.antt =====
-- The blocks that the bsd driver of libdthread/dt_shmops.c has made, its free lists, and the
-- blocks that are in use.
use dthread.Base.{
  ℕ, ◌+◌, ◌-◌, ◌*◌, ◌%◌, ◌^◌, ◌≤◌, ◌<◌, ◌≡◌, ◌≢◌, ◌⊎◌, inl, inr, ap, sym, ◌∙◌, subst, Bool, true,
  false, Option, some, List, [], ◌∷◌, if◌then◌else◌, ◌==◌, ltb, length, get_or, arith, Bool-cases,
}
use dthread.Shm.{ShmRef}
use dthread.Shm.Bsd.{BsdMd, shl1, write_ov, ov_magidx}
use dthread.Shm.Bsd.Search.{shl1-le}
use dthread.Shm.Bsd.Sizes.{Geometry}

-- the bytes that a block of the bucket `i` takes, its overhead included
abbrev pub extent : ℕ → ℕ → ℕ
extent page i = if ltb (16 * shl1 i) page then 16 * shl1 i else 16 * shl1 i + page

-- What was made of the core: `blk o` is the bucket of the block at `o`. The blocks lie between `low`
-- and `top`, on multiples of 16, and do not overlap.
pub record Carved (page low top : ℕ) (blk : ℕ → Option ℕ) : Type 0 where
  pub bucket : (o i : ℕ) → blk o ≡ some i → (1 ≤ i) × (i < 27)
  pub within : (o i : ℕ) → blk o ≡ some i → (low ≤ o) × (o + extent page i ≤ top)
  pub aligned : (o i : ℕ) → blk o ≡ some i → o % 16 ≡ 0
  pub apart : (o i o' j : ℕ) → blk o ≡ some i → blk o' ≡ some j → o < o' → o + extent page i ≤ o'

abbrev pub update {ℓ} : {A : Type ℓ} → ℕ → A → (ℕ → A) → ℕ → A
update o w f x = if x == o then w else f x

pub extent_pos : (page i : ℕ) → 1 ≤ i → 32 ≤ extent page i
extent_pos page i h = ground (arith, shl1-le 1 i h)

update-some :
    (top i : ℕ) (blk : ℕ → Option ℕ) (o j : ℕ)
    → update top (some i) blk o ≡ some j
    → ((o ≡ top) × (j ≡ i)) ⊎ (blk o ≡ some j)
update-some top i blk o j e = elim (Bool-cases (o == top)) [
  | inl same ↦ inl (ground (arith, same), ground (arith, same, e))
  | inr other ↦ inr (ground (arith, other, e))
]

-- One more block at the top.
module _ (page low top i : ℕ) (blk : ℕ → Option ℕ) (v : Carved page low top blk) (l : low ≤ top)
    (a : top % 16 ≡ 0) (p : 1 ≤ i) (q : i < 27) where
  carve-apart :
      (o j o' k : ℕ)
      → ((o ≡ top) × (j ≡ i)) ⊎ (blk o ≡ some j)
      → ((o' ≡ top) × (k ≡ i)) ⊎ (blk o' ≡ some k)
      → o < o'
      → o + extent page j ≤ o'
  carve-apart o j o' k (inl (e, e')) (inl (f, f')) h = absurd (omega arith)
  carve-apart o j o' k (inl (e, e')) (inr f) h =
      absurd (omega (arith, v.within o' k f, extent_pos page k (v.bucket o' k f).0))
  carve-apart o j o' k (inr e) (inl (f, f')) h = omega (arith, v.within o j e)
  carve-apart o j o' k (inr e) (inr f) h = v.apart o j o' k e f h

  pub carve : Carved page low (top + extent page i) (update top (some i) blk)
  carve = record {
    bucket = λ o j e. elim (update-some top i blk o j e) [
      | inl (x, y) ↦ (omega arith, omega arith)
      | inr x ↦ v.bucket o j x
    ];
    within = λ o j e. elim (update-some top i blk o j e) [
      | inl (x, y) ↦ (omega arith, rw (x, y) (omega arith))
      | inr x ↦ ((v.within o j x).0, omega (arith, v.within o j x))
    ];
    aligned = λ o j e. elim (update-some top i blk o j e) [
      | inl (x, y) ↦ rw x a
      | inr x ↦ v.aligned o j x
    ];
    apart = λ o j o' k e f h.
        carve-apart o j o' k (update-some top i blk o j e) (update-some top i blk o' k f) h;
  }

pub Carved-le :
    (page low top top' : ℕ) (blk : ℕ → Option ℕ)
    → top ≤ top'
    → Carved page low top blk
    → Carved page low top' blk
Carved-le page low top top' blk h v = record {
  bucket = v.bucket;
  within = λ o i e. ((v.within o i e).0, omega (arith, v.within o i e));
  aligned = v.aligned;
  apart = v.apart;
}

abbrev pub NotIn : ℕ → List ℕ → Type 0
NotIn o [] = Unit
NotIn o (x ∷ xs) = (o ≢ x) × NotIn o xs

-- From `head` the overhead words lead through the free blocks `xs` of the bucket `i`.
abbrev pub Free : (ℕ → ℕ) → (ℕ → Option ℕ) → (ℕ → Bool) → ℕ → ℕ → List ℕ → Type 0
Free ov blk taken i head [] = head ≡ 0
Free ov blk taken i head (x ∷ xs) =
    (head ≡ x) × (blk x ≡ some i) × (taken x ≡ false) × NotIn x xs × Free ov blk taken i (ov x) xs

-- A write to a block that is not on the list.
pub Free-frame :
    (o w : ℕ) (t : Bool) (ov : ℕ → ℕ) (blk : ℕ → Option ℕ) (taken : ℕ → Bool) (i head : ℕ)
    (xs : List ℕ)
    → NotIn o xs
    → Free ov blk taken i head xs
    → Free (write_ov o w ov) blk (update o t taken) i head xs
Free-frame o w t ov blk taken i head [] n v = v
Free-frame o w t ov blk taken i head (x ∷ xs) (ne, n) (a, b, c, d, v) =
    let e : x == o ≡ false = ground (arith, ne) in
    (a, b, rw e c, d, rw e (Free-frame o w t ov blk taken i (ov x) xs n v))

-- Changes above `top`, where no block is.
pub Free-above :
    (page low top : ℕ) (ov ov' : ℕ → ℕ) (blk blk' : ℕ → Option ℕ) (taken : ℕ → Bool) (i head : ℕ)
    (xs : List ℕ)
    → Carved page low top blk
    → ((x : ℕ) → x < top → ov' x ≡ ov x)
    → ((x : ℕ) → x < top → blk' x ≡ blk x)
    → Free ov blk taken i head xs
    → Free ov' blk' taken i head xs
Free-above page low top ov ov' blk blk' taken i head [] c p q v = v
Free-above page low top ov ov' blk blk' taken i head (x ∷ xs) c p q (a, b, t, d, v) =
    let l : x < top = omega (arith, c.within x i b, extent_pos page i (c.bucket x i b).0) in
    (
      a,
      q x l ∙ b,
      t,
      d,
      subst (λ n. Free ov' blk' taken i n xs) (sym (p x l))
          (Free-above page low top ov ov' blk blk' taken i (ov x) xs c p q v),
    )

pub Free-NotIn_bucket :
    (ov : ℕ → ℕ) (blk : ℕ → Option ℕ) (taken : ℕ → Bool) (i head : ℕ) (xs : List ℕ) (o : ℕ)
    → blk o ≢ some i
    → Free ov blk taken i head xs
    → NotIn o xs
Free-NotIn_bucket ov blk taken i head [] o ne v = tt
Free-NotIn_bucket ov blk taken i head (x ∷ xs) o ne (a, b, c, d, v) =
    (λ e. ne (ap blk e ∙ b), Free-NotIn_bucket ov blk taken i (ov x) xs o ne v)

pub Free-NotIn_taken :
    (ov : ℕ → ℕ) (blk : ℕ → Option ℕ) (taken : ℕ → Bool) (i head : ℕ) (xs : List ℕ) (o : ℕ)
    → taken o ≡ true
    → Free ov blk taken i head xs
    → NotIn o xs
Free-NotIn_taken ov blk taken i head [] o t v = tt
Free-NotIn_taken ov blk taken i head (x ∷ xs) o t (a, b, c, d, v) = (
  λ e. (let f : true ≡ false = sym t ∙ ap taken e ∙ c in cc),
  Free-NotIn_taken ov blk taken i (ov x) xs o t v,
)

-- A block in use with the reference `r`: its user's bytes follow the 16 of the overhead.
pub record Used (page : ℕ) (blk : ℕ → Option ℕ) (taken : ℕ → Bool) (r : ShmRef) : Type 0 where
  pub above : 16 ≤ r.dt_offset
  pub bucket : ℕ
  pub block : blk (r.dt_offset - 16) ≡ some bucket
  pub is_taken : taken (r.dt_offset - 16) ≡ true
  pub fits : r.dt_length + 16 ≤ extent page bucket

abbrev pub Elsewhere : ℕ → List ShmRef → Type 0
Elsewhere o [] = Unit
Elsewhere o (r ∷ rs) = (r.dt_offset ≢ o) × Elsewhere o rs

abbrev pub AllUsed : ℕ → (ℕ → Option ℕ) → (ℕ → Bool) → List ShmRef → Type 0
AllUsed page blk taken [] = Unit
AllUsed page blk taken (r ∷ rs) =
    Used page blk taken r × Elsewhere r.dt_offset rs × AllUsed page blk taken rs

-- What holds of the driver with the blocks `live` in use; `free i` is the free list of bucket `i`.
pub record BsdInv (b : BsdMd) (live : List ShmRef) : Type 0 where
  pub blk : ℕ → Option ℕ
  pub taken : ℕ → Bool
  pub free : ℕ → List ℕ
  pub geometry : Geometry b
  pub low : 0 < b.min_uoffset
  pub above : b.min_uoffset ≤ b.mycore
  pub core_aligned : b.mycore % 16 ≡ 0
  pub inside : b.mycore + b.core_resid ≡ b.max_uoffset
  pub fits : b.max_uoffset < 2 ^ 64
  pub carved : Carved b.pagesz b.min_uoffset b.mycore blk
  pub lists : length b.nextf ≡ 60
  pub frees : (i : ℕ) → i < 27 → Free b.ov blk taken i (get_or b.nextf i 0) (free i)
  pub headed : (o i : ℕ) → blk o ≡ some i → taken o ≡ true → b.ov o ≡ ov_magidx i
  pub idle : (o : ℕ) → b.mycore ≤ o → taken o ≡ false
  pub used : AllUsed b.pagesz blk taken live
