-- ===== src/Shm/Bsd/Search.antt =====
-- The shifts of BUCKSIZE and the search of `bsd_malloc` for a bucket (libdthread/dt_shmops.c).
use dthread.Base.{
  ℕ, zero, suc, ◌+◌, ◌-◌, ◌*◌, ◌%◌, ◌≤◌, ◌<◌, ◌≡◌, ◌⊎◌, inl, inr, refl, subst, false, leb, ◌==◌,
  arith, Bool-cases, dec_lt,
}
use dthread.Shm.Break.{word}
use dthread.Shm.Bsd.{shl1, buck_size, at, too_large, find_bucket}

pub shl1_add : (k : ℕ) → shl1 (k + 4) ≡ 16 * shl1 k
shl1_add zero = refl
shl1_add (suc k) = let e : suc k + 4 ≡ suc (k + 4) = omega arith in rw e (omega (arith, shl1_add k))

pub shl1_pos : (k : ℕ) → 1 ≤ shl1 k
shl1_pos zero = omega arith
shl1_pos (suc k) = omega (arith, shl1_pos k)

pub shl1-le : (i j : ℕ) → i ≤ j → shl1 i ≤ shl1 j
shl1-le i zero h = let e : i ≡ 0 = omega arith in rw e (omega arith)
shl1-le i (suc j) h = elim (dec_lt j i) [
  | yes l ↦ let e : i ≡ suc j = omega arith in rw e (omega arith)
  | no l ↦ omega (arith, shl1-le i j (omega arith))
]

-- A bucket below 27 has the size that its number says.
pub buck_size-small : (i : ℕ) → i < 27 → buck_size i ≡ 16 * shl1 i
unfolding buck_size
buck_size-small i h =
    let m : (i + 4) % 32 ≡ i + 4 = omega arith in rw m (ground (arith, shl1_add i))

pub shl1-lt : (i : ℕ) → i < 27 → shl1 i ≤ 67108864
shl1-lt i h = shl1-le i 26 (omega arith)

-- what `find_bucket` compares the size to at the bucket `i`
abbrev pub cap : ℕ → ℕ → ℕ
cap n i = (16 * shl1 i + n) % word

-- `find_bucket` finds the first bucket from `i` on that is large enough.
abbrev pub First : ℕ → ℕ → ℕ → ℕ → Type 0
First size n i j =
    (i ≤ j) × (j < 60) × (size ≤ cap n j) × ((j ≡ i) ⊎ ((i < j) × (cap n (j - 1) < size)))

doubled : (i : ℕ) → i < 59 → (16 * shl1 i + 16 * shl1 i) % word ≡ 16 * shl1 (suc i)
doubled i h = omega (arith, shl1-le i 58 (omega arith))

doubled_last : (i : ℕ) → i ≡ 59 → (16 * shl1 i + 16 * shl1 i) % word ≡ 0
doubled_last i h = rw h refl

First-suc : (size n i j : ℕ) → cap n i < size → First size n (suc i) j → First size n i j
First-suc size n i j big (a, b, c, inl e) =
    let p : j - 1 ≡ i = omega (arith, e) in (omega arith, b, c, inr (omega arith, rw p big))
First-suc size n i j big (a, b, c, inr (d, e)) = (omega arith, b, c, inr (omega arith, e))

pub find_bucket_lem :
    (f size n i : ℕ)
    → i < 60
    → 60 < i + f
    → ((j : ℕ) × (find_bucket f size (16 * shl1 i) n i ≡ at j) × First size n i j)
      ⊎ ((find_bucket f size (16 * shl1 i) n i ≡ too_large) × (cap n 59 < size))
unfolding find_bucket
find_bucket_lem zero size n i l e = absurd (omega arith)
find_bucket_lem (suc f) size n i l e = elim (Bool-cases (leb size (cap n i))) [
  | inl fits ↦ inl (i, rw fits refl, (omega arith, l, ground (arith, fits), inl refl))
  | inr more ↦
      let big : cap n i < size = ground (arith, more) in
      elim (dec_lt i 59) [
        | no last ↦
            let e9 : i ≡ 59 = omega arith in
            inr (rw (more, doubled_last i e9) refl, subst (λ x. cap n x < size) e9 big)
        | yes lt ↦
            let pos : 16 * shl1 (suc i) == 0 ≡ false = ground (arith, shl1_pos i) in
            rw (more, doubled i lt, pos)
              (elim (find_bucket_lem f size n (suc i) (omega arith) (omega arith)) [
                | inl (j, r, v) ↦ inl (j, r, First-suc size n i j big v)
                | inr (r, v) ↦ inr (r, v)
              ])
      ]
]
