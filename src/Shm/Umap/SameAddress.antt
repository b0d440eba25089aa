-- ===== src/Shm/Umap/SameAddress.antt =====
-- With UMAP the ranks map a segment at one address (`dthread_shmseg_establish` of
-- libdthread/dt_segops.c).
use dthread.Base.{
  ℕ, zero, suc, ◌≤◌, ◌≡◌, ◌≢◌, ◌⊎◌, inl, inr, refl, ap, sym, ◌∙◌, true, false, Option, List, [],
  ◌∷◌, ◌==◌, subst, arith, Bool-cases,
}
use dthread.Types.Errno
use dthread.Shm.Establish.{Mmap, mapped}
use dthread.Shm.Umap.{
  map_failed_value, attempts, larger, smaller, max_rv, min_mapping, max_mapping, keep_hint, Mapped,
  fails, maps, least, most, error_of, try_error, settle, map_loop,
}

-- Each rank has its mapping at the address.
abbrev pub AllAt : ℕ → List (ℕ × ℕ) → Type 0
AllAt a [] = Unit {0}
AllAt a (x ∷ xs) = (x.1 ≡ a) × AllAt a xs

between :
    (a lo hi : ℕ) (xs : List (ℕ × ℕ))
    → lo ≤ hi
    → min_mapping lo xs ≡ a
    → max_mapping hi xs ≡ a
    → (lo ≡ a) × (hi ≡ a) × AllAt a xs
between a lo hi [] h e f = (e, f, tt)
between a lo hi (x ∷ xs) h e f =
    let order : (smaller lo x.1 ≤ lo)
        × (smaller lo x.1 ≤ x.1)
        × (hi ≤ larger hi x.1)
        × (x.1 ≤ larger hi x.1) =
      ground (arith, h) in
    let (l, u, v) = between a (smaller lo x.1) (larger hi x.1) xs (omega (arith, order, h)) e f in
    (omega (arith, order, l, u, h), omega (arith, order, l, u, h), (omega (arith, order, l, u), v))

all_same : (rs : List (ℕ × ℕ)) → least rs ≡ most rs → AllAt (most rs) rs
all_same [] e = tt
all_same (x ∷ xs) e =
    let (l, u, v) = between (max_mapping x.1 xs) x.1 x.1 xs (omega arith) e refl in (l, v)

abbrev results_in : List (ℕ × ℕ) → Mapped → List (ℕ × ℕ)
results_in d (fails rv) = d
results_in d (maps rs) = rs

maps-injective : {rs rs' : List (ℕ × ℕ)} → maps rs ≡ maps rs' → rs ≡ rs'
maps-injective {rs} e = ap (results_in rs) e

equal : (a b : ℕ) → (a == b) ≡ true → a ≡ b
equal a b e = ground (arith, e)

unequal : (a b : ℕ) → (a == b) ≡ false → a ≢ b
unequal a b e f = absurd (ground (arith, e, f))

settle_lem :
    (next : Mapped) (rs : List (ℕ × ℕ))
    → ((try_error rs ≢ 0) × (settle true next rs ≡ fails (try_error rs)))
      ⊎ ((try_error rs ≡ 0) × (least rs ≢ most rs) × (settle true next rs ≡ next))
      ⊎ ((try_error rs ≡ 0) × (least rs ≡ most rs) × (settle true next rs ≡ maps rs))
unfolding settle
settle_lem next rs = elim (Bool-cases (try_error rs == 0)) [
  | inr bad ↦ inl (unequal (try_error rs) 0 bad, rw (settle, bad) refl)
  | inl ok ↦ elim (Bool-cases (least rs == most rs)) [
    | inr apart ↦ inr (
        inl (
          equal (try_error rs) 0 ok,
          unequal (least rs) (most rs) apart,
          rw (settle, ok, apart) refl,
        ))
    | inl same ↦ inr (
        inr
          (equal (try_error rs) 0 ok, equal (least rs) (most rs) same, rw (settle, ok, same) refl))
  ]
]

-- With UMAP, whatever mmap answers, the ranks end with an error or with all mappings at one address.
pub map_loop-AllAt :
    (retries : ℕ) (answers : ℕ → List Mmap) (ms : List (Option ℕ)) (rs : List (ℕ × ℕ))
    → map_loop retries true answers ms ≡ maps rs
    → (a : ℕ) × AllAt a rs
unfolding map_loop
map_loop-AllAt zero answers ms rs e =
    let tried = attempts ms (answers 0) in
    elim (settle_lem (fails Errno.eagain) tried) [
      | inl (ne, f) ↦ (let g : fails (try_error tried) ≡ maps rs = sym f ∙ e in absurd (cc))
      | inr other ↦ elim other [
        | inl (z, ne, f) ↦ (let g : fails Errno.eagain ≡ maps rs = sym f ∙ e in absurd (cc))
        | inr (z, same, f) ↦ (
          most tried,
          subst (λ x. AllAt (most tried) x) (maps-injective (sym f ∙ e)) (all_same tried same),
        )
      ]
    ]
map_loop-AllAt (suc retries) answers ms rs e =
    let tried = attempts ms (answers (suc retries)) in
    let next = map_loop retries true answers (keep_hint (most tried) tried) in
    elim (settle_lem next tried) [
      | inl (ne, f) ↦ (let g : fails (try_error tried) ≡ maps rs = sym f ∙ e in absurd (cc))
      | inr other ↦ elim other [
        | inl (z, ne, f) ↦
            map_loop-AllAt retries answers (keep_hint (most tried) tried) rs (sym f ∙ e)
        | inr (z, same, f) ↦ (
          most tried,
          subst (λ x. AllAt (most tried) x) (maps-injective (sym f ∙ e)) (all_same tried same),
        )
      ]
    ]

-- mmap answers with the hint on every rank.
abbrev pub honoured : ℕ → List (ℕ × ℕ) → List Mmap
honoured hint [] = []
honoured hint (x ∷ xs) = mapped hint ∷ honoured hint xs

abbrev pub Good : ℕ → List (ℕ × ℕ) → Type 0
Good a [] = Unit {0}
Good a (x ∷ xs) = (x.0 ≡ 0) × (x.1 ≡ a) × Good a xs

attempts-honoured :
    (hint : ℕ) (rs : List (ℕ × ℕ)) → Good hint (attempts (keep_hint hint rs) (honoured hint rs))
attempts-honoured hint [] = tt
attempts-honoured hint (x ∷ xs) = elim (Bool-cases (x.1 == hint)) [
  | inl kept ↦ rw kept (refl, equal x.1 hint kept, attempts-honoured hint xs)
  | inr dropped ↦ rw dropped (refl, refl, attempts-honoured hint xs)
]

Good-AllAt : (a : ℕ) (rs : List (ℕ × ℕ)) → Good a rs → (max_rv rs ≡ 0) × AllAt a rs
Good-AllAt a [] g = (refl, tt)
Good-AllAt a (x ∷ xs) (e, f, g) = let (u, v) = Good-AllAt a xs g in (ground (arith, e, u), (f, v))

min_mapping-AllAt :
    (a : ℕ) (xs : List (ℕ × ℕ)) → AllAt a xs → (min_mapping a xs ≡ a) × (max_mapping a xs ≡ a)
min_mapping-AllAt a [] v = (refl, refl)
min_mapping-AllAt a (x ∷ xs) (e, v) =
    let s : (smaller a x.1 ≡ a) × (larger a x.1 ≡ a) = ground (arith, e) in
    let (u, w) = min_mapping-AllAt a xs v in rw (s.0, s.1) (u, w)

settle-next :
    (next : Mapped) (rs : List (ℕ × ℕ))
    → try_error rs ≡ 0
    → least rs ≢ most rs
    → settle true next rs ≡ next
settle-next next rs z ne = elim (settle_lem next rs) [
  | inl (bad, f) ↦ absurd (bad z)
  | inr other ↦ elim other [ inl (y, u, f) ↦ f | inr (y, same, f) ↦ absurd (ne same) ]
]

settle-maps :
    (next : Mapped) (rs : List (ℕ × ℕ))
    → try_error rs ≡ 0
    → least rs ≡ most rs
    → settle true next rs ≡ maps rs
settle-maps next rs z e = elim (settle_lem next rs) [
  | inl (bad, f) ↦ absurd (bad z)
  | inr other ↦ elim other [ inl (y, ne, f) ↦ absurd (ne e) | inr (y, same, f) ↦ f ]
]

error_of-good : (a : ℕ) → a ≢ map_failed_value → error_of 0 a a ≡ 0
unfolding error_of
error_of-good a h = let z : (a == map_failed_value) ≡ false = ground (arith, h) in rw z refl

error_of-failed : (rv min max : ℕ) → max ≡ map_failed_value → error_of rv min max ≢ 0
unfolding error_of
error_of-failed rv min max e = elim (Bool-cases (min == map_failed_value)) [
  | inl low ↦ elim (Bool-cases (rv == 0)) [
    | inl ok ↦ rw (low, ok) (λ f. absurd (omega (arith, f)))
    | inr bad ↦ rw (low, bad) (unequal rv 0 bad)
  ]
  | inr high ↦ elim (Bool-cases (rv == 0)) [
    | inl ok ↦ rw (e, high, ok) (λ f. absurd (omega (arith, f)))
    | inr bad ↦ rw (e, high, bad) (unequal rv 0 bad)
  ]
]

Good-same :
    (a : ℕ) (rs : List (ℕ × ℕ))
    → Good a rs
    → a ≢ map_failed_value
    → (try_error rs ≡ 0) × (least rs ≡ most rs)
unfolding error_of
Good-same a [] g h = (refl, refl)
Good-same a (x ∷ xs) (e, f, g) h =
    let (rv, v) = Good-AllAt a xs g in
    let (l, u) = min_mapping-AllAt a xs v in
    let rv0 : larger x.0 (max_rv xs) ≡ 0 = ground (arith, e, rv) in
    let low : min_mapping x.1 xs ≡ a = ap (λ y. min_mapping y xs) f ∙ l in
    let high : max_mapping x.1 xs ≡ a = ap (λ y. max_mapping y xs) f ∙ u in
    (rw (rv0, low, high) (error_of-good a h), low ∙ sym high)

try_error-most : (rs : List (ℕ × ℕ)) → try_error rs ≡ 0 → most rs ≢ map_failed_value
try_error-most rs z e = error_of-failed (max_rv rs) (least rs) (most rs) e z

-- With UMAP, if a first try gives each rank a mapping but not all the same address, and mmap then
-- answers with the hint on every rank, the ranks end after this one retry, all at the largest address.
pub map_loop-honoured :
    (retries : ℕ) (answers : ℕ → List Mmap) (ms : List (Option ℕ))
    → let rs = attempts ms (answers (suc (suc retries))) in
      try_error rs ≡ 0
      → least rs ≢ most rs
      → answers (suc retries) ≡ honoured (most rs) rs
      → (rs' : List (ℕ × ℕ)) × (map_loop (suc (suc retries)) true answers ms ≡ maps rs')
        × AllAt (most rs) rs'
unfolding map_loop
map_loop-honoured retries answers ms z apart hints =
    let rs = attempts ms (answers (suc (suc retries))) in
    let rs' = attempts (keep_hint (most rs) rs) (answers (suc retries)) in
    let next = map_loop (suc retries) true answers (keep_hint (most rs) rs) in
    let good : Good (most rs) rs' =
      subst (λ x. Good (most rs) (attempts (keep_hint (most rs) rs) x)) (sym hints)
        (attempts-honoured (most rs) rs) in
    (
      rs',
      settle-next next rs z apart
          ∙ settle-maps _ rs' (Good-same (most rs) rs' good (try_error-most rs z)).0
              (Good-same (most rs) rs' good (try_error-most rs z)).1,
      (Good-AllAt (most rs) rs' good).1,
    )
