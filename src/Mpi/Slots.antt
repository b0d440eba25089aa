-- ===== src/Mpi/Slots.antt =====
-- The slots of libdthread/dt_mpithread.c in use, as the list of the sends in flight.
use dthread.Base.{
  ℕ, zero, suc, ◌+◌, ◌≤◌, ◌<◌, ◌≡◌, ◌≢◌, ◌⊎◌, inl, inr, refl, ap, sym, ◌∙◌, Option, none, some,
  List, [], ◌∷◌, ◌++◌, length, arith, dec_lt, Option-cases,
}
use mathlib.Core.List.{Permᴰ}
use mathlib.Core.List.Permᴰ
use dthread.Types.{Mqe}
use dthread.Mpi.{put}

-- a send with its request
abbrev pub Send : Type 0
Send = Mqe × ℕ

-- the sends in the `k` slots from `s` on
abbrev pub sends : ℕ → ℕ → (ℕ → Option Mqe) → (ℕ → ℕ) → List Send
sends zero s mqes reqs = []
sends (suc k) s mqes reqs = elim (mqes s) [
  | none ↦ sends k (suc s) mqes reqs
  | some mqe ↦ (mqe, reqs s) ∷ sends k (suc s) mqes reqs
]

-- Each slot from `s` on holds an entry.
abbrev pub Full : ℕ → ℕ → (ℕ → Option Mqe) → Type 0
Full k s mqes = (i : ℕ) → s ≤ i → i < s + k → (m : Mqe) × (mqes i ≡ some m)

module _ (mqes : ℕ → Option Mqe) (reqs : ℕ → ℕ) where
  pub sends-some :
      (k s : ℕ) (m : Mqe)
      → mqes s ≡ some m
      → sends (suc k) s mqes reqs ≡ (m, reqs s) ∷ sends k (suc s) mqes reqs
  sends-some k s m e = rw (sends, e) refl

  pub sends-none : (k s : ℕ) → mqes s ≡ none → sends (suc k) s mqes reqs ≡ sends k (suc s) mqes reqs
  sends-none k s e = rw (sends, e) refl

  pub length-sends_le : (k s : ℕ) → length (sends k s mqes reqs) ≤ k
  length-sends_le zero s = omega arith
  length-sends_le (suc k) s = elim (Option-cases (mqes s)) [
    | inl e ↦ rw (sends-none k s e) (omega (arith, length-sends_le k (suc s)))
    | inr (m, e) ↦ rw (sends-some k s m e) (omega (arith, length-sends_le k (suc s)))
  ]

  pub length-sends : (k s : ℕ) → Full k s mqes → length (sends k s mqes reqs) ≡ k
  length-sends zero s v = refl
  length-sends (suc k) s v =
      let (m, e) = v s (omega arith) (omega arith) in
      rw (sends-some k s m e)
        (ap suc (length-sends k (suc s) (λ i l u. v i (omega arith) (omega arith))))

  pub sends-Full : (k s : ℕ) → length (sends k s mqes reqs) ≡ k → Full k s mqes
  sends-Full zero s h i l u = absurd (omega arith)
  sends-Full (suc k) s h i l u = elim (Option-cases (mqes s)) [
    | inl e ↦ absurd (
        omega (
          arith,
          length-sends_le k (suc s),
          ap (λ (x : List Send). length x) (sends-none k s e),
          h,
        ))
    | inr (m, e) ↦
        let h' : length (sends k (suc s) mqes reqs) ≡ k =
          omega (arith, ap (λ (x : List Send). length x) (sends-some k s m e), h) in
        elim (dec_lt s i) [
          | yes more ↦ sends-Full k (suc s) h' i (omega arith) (omega arith)
          | no here ↦ (let same : i ≡ s = omega arith in (m, ap mqes same ∙ e))
        ]
  ]

  -- the slots in two parts
  pub sends-add :
      (k n t s : ℕ)
      → t ≡ k + n
      → sends t s mqes reqs ≡ sends k s mqes reqs ++ sends n (s + k) mqes reqs
  sends-add zero n t s h =
      let e : s ≡ s + 0 = omega arith in
      let g : t ≡ n = omega arith in
      ap (λ x. sends x s mqes reqs) g ∙ ap (λ x. sends n x mqes reqs) e
  sends-add (suc k) n zero s h = absurd (omega arith)
  sends-add (suc k) n (suc t) s h =
      let e : suc s + k ≡ s + suc k = omega arith in
      let rest =
        sends-add k n t (suc s) (omega arith)
        ∙ ap (λ x. sends k (suc s) mqes reqs ++ sends n x mqes reqs) e in
      elim (Option-cases (mqes s)) [
        | inl f ↦ rw (sends-none t s f, sends-none k s f) rest
        | inr (m, f) ↦ rw (sends-some t s m f, sends-some k s m f) (ap (◌∷◌ (m, reqs s)) rest)
      ]

-- Only the slots in the range count, and only the requests of those that hold an entry.
pub sends-agree :
    (f f' : ℕ → Option Mqe) (r r' : ℕ → ℕ) (k s : ℕ)
    → ((i : ℕ) → s ≤ i → i < s + k → (f' i ≡ f i) × ((f i ≡ none) ⊎ (r' i ≡ r i)))
    → sends k s f' r' ≡ sends k s f r
sends-agree f f' r r' zero s h = refl
sends-agree f f' r r' (suc k) s h =
    let rest = sends-agree f f' r r' k (suc s) (λ i l u. h i (omega arith) (omega arith)) in
    let (e, d) = h s (omega arith) (omega arith) in
    elim (Option-cases (f s)) [
      | inl n ↦ rw (sends-none f' r' k s (e ∙ n), sends-none f r k s n) rest
      | inr (m, y) ↦ elim d [
        | inl n ↦ (let bad : some m ≡ none = sym y ∙ n in absurd (cc))
        | inr w ↦
            rw (sends-some f' r' k s m (e ∙ y), sends-some f r k s m y, w) (ap (◌∷◌ (m, r s)) rest)
      ]
    ]

pub put_self {ℓ} : {A : Type ℓ} (i : ℕ) (x : A) (a : ℕ → A) → put i x a i ≡ x
put_self i x a = ground arith

pub put_ne {ℓ} : {A : Type ℓ} (i j : ℕ) (x : A) (a : ℕ → A) → j ≢ i → put i x a j ≡ a j
put_ne i j x a h = ground (arith, h)

-- a write below the range
pub sends-put_below :
    (f : ℕ → Option Mqe) (r : ℕ → ℕ) (k s i : ℕ) (x : Option Mqe) (y : ℕ)
    → i < s
    → sends k s (put i x f) (put i y r) ≡ sends k s f r
sends-put_below f r k s i x y h =
    sends-agree f (put i x f) r (put i y r) k s
      (λ j l u. let ne : j ≢ i = λ e. omega arith in (put_ne i j x f ne, inr (put_ne i j y r ne)))

-- The entry of a slot is taken out.
pub sends-take :
    (f : ℕ → Option Mqe) (r : ℕ → ℕ) (k s i : ℕ) (m : Mqe)
    → s ≤ i
    → i < s + k
    → f i ≡ some m
    → (Permᴰ (sends k s f r) ((m, r i) ∷ sends k s (put i none f) r))
      × (length (sends k s f r) ≡ suc (length (sends k s (put i none f) r)))
sends-take f r zero s i m l u e = absurd (omega arith)
sends-take f r (suc k) s i m l u e = elim (dec_lt s i) [
  | yes more ↦
      let (p, n) = sends-take f r k (suc s) i m (omega arith) (omega arith) e in
      let g : put i none f s ≡ f s = put_ne i s none f (λ q. omega arith) in
      elim (Option-cases (f s)) [
        | inl none_here ↦
            rw (sends-none f r k s none_here, sends-none (put i none f) r k s (g ∙ none_here))
              (p, n)
        | inr (m', some_here) ↦
            rw (sends-some f r k s m' some_here, sends-some (put i none f) r k s m' (g ∙ some_here))
              (Permᴰ.trans (Permᴰ.cons refl p) (Permᴰ.swap refl refl), ap suc n)
      ]
  | no here ↦
      let same : i ≡ s = omega arith in
      let g : put i none f s ≡ none = ap (put i none f) (sym same) ∙ put_self i none f in
      let e' : f s ≡ some m = ap f (sym same) ∙ e in
      let rest : sends k (suc s) (put i none f) r ≡ sends k (suc s) f r =
        sends-agree f (put i none f) r r k (suc s)
          (λ j l' u'. (put_ne i j none f (λ q. omega arith), inr refl)) in
      rw (sends-some f r k s m e', sends-none (put i none f) r k s g, rest, same)
        (Permᴰ.refl ((m, r s) ∷ sends k (suc s) f r), refl)
]
