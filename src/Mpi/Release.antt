-- ===== src/Mpi/Release.antt =====
-- The loop of `mpimts_test` in libdthread/dt_mpithread.c that releases the sends that are complete.
use dthread.Base.{
  ℕ, suc, ◌+◌, ◌≤◌, ◌<◌, ◌≡◌, ◌≢◌, ◌⊎◌, inl, inr, refl, ap, sym, ◌∙◌, subst, Option, none, some,
  List, [], ◌∷◌, ◌++◌, if◌then◌else◌, ltb, length, arith, Option-cases,
}
use native.Mathlib.Decide.{ℕ_discrete}
use mathlib.Core.List.{Permᴰ}
use mathlib.Core.List.Permᴰ
use dthread.Types.{Mqe}
use dthread.Queuing.{Dtq, send_release}
use dthread.Mpi.{put, mpimts_done, release_loop}
use dthread.Mpi.Slots.{Send, sends, put_self, put_ne, sends-take}

-- The indices are different, and all below `n`.
abbrev pub NotIn : ℕ → List ℕ → Type 0
NotIn i [] = Unit {0}
NotIn i (j ∷ js) = (i ≢ j) × NotIn i js

abbrev pub Distinct : ℕ → List ℕ → Type 0
Distinct n [] = Unit {0}
Distinct n (i ∷ is) = (i < n) × NotIn i is × Distinct n is

-- `dtq_send_release` of each of the entries
unfoldable pub release_each : List Send → Dtq → Dtq
release_each [] q = q
release_each (x ∷ xs) q = release_each xs (send_release x.0 q)

-- the sends of some slots
unfoldable pub completed : List ℕ → (ℕ → Option Mqe) → (ℕ → ℕ) → List Send
completed [] f r = []
completed (i ∷ is) f r = elim (f i) [
  | none ↦ completed is f r
  | some m ↦ (m, r i) ∷ completed is f r
]

completed-some :
    (i : ℕ) (is : List ℕ) (f : ℕ → Option Mqe) (r : ℕ → ℕ) (m : Mqe)
    → f i ≡ some m
    → completed (i ∷ is) f r ≡ (m, r i) ∷ completed is f r
unfolding completed
completed-some i is f r m e = rw (completed, e) refl

completed-put :
    (f : ℕ → Option Mqe) (r : ℕ → ℕ) (i : ℕ) (is : List ℕ)
    → NotIn i is
    → completed is (put i none f) r ≡ completed is f r
unfolding completed
completed-put f r i [] h = refl
completed-put f r i (j ∷ is) (ne, h) =
    let e : put i none f j ≡ f j = put_ne i j none f (λ q. ne (sym q)) in
    elim (Option-cases (f j)) [
      | inl n ↦ rw (completed, e, n) (completed-put f r i is h)
      | inr (m, y) ↦ rw (completed, e, y) (ap (◌∷◌ (m, r j)) (completed-put f r i is h))
    ]

-- Each of the indices is that of a slot that holds an entry.
abbrev pub Held : ℕ → (ℕ → Option Mqe) → List ℕ → Type 0
Held n f idxout = (i : ℕ) → i < n → NotIn i idxout ⊎ ((m : Mqe) × (f i ≡ some m))

-- What the loop does to the slots and the queues: the sends that are complete are released in the order
-- of `idxout`, all others stay, and no hole is below `firsthole`.
pub record Released (n : ℕ) (idxout : List ℕ) (f : ℕ → Option Mqe) (r : ℕ → ℕ) (q : Dtq)
    (res : ℕ × (ℕ → Option Mqe) × Dtq) : Type 0 where
  pub queue : res.2 ≡ release_each (completed idxout f r) q
  pub kept : Permᴰ (sends n 0 f r) (completed idxout f r ++ sends n 0 res.1 r)
  pub counted : length (sends n 0 f r) ≡ length idxout + length (sends n 0 res.1 r)
  pub listed : length (completed idxout f r) ≡ length idxout
  pub untouched : (i : ℕ) → NotIn i idxout → res.1 i ≡ f i
  pub emptied : (i : ℕ) → (res.1 i ≡ none) ⊎ NotIn i idxout

Held-put :
    (n i : ℕ) (is : List ℕ) (f : ℕ → Option Mqe)
    → NotIn i is
    → Held n f (i ∷ is)
    → Held n (put i none f) is
Held-put n i is f other h j l = elim (h j l) [
  | inl (ne, w) ↦ inl w
  | inr (m, e) ↦ elim (ℕ_discrete j i) [
    | yes same ↦ inl (subst (λ x. NotIn x is) (sym same) other)
    | no ne ↦ inr (m, put_ne i j none f ne ∙ e)
  ]
]

pub release_loop_lem :
    (n : ℕ) (idxout : List ℕ) (firsthole : ℕ) (f : ℕ → Option Mqe) (r : ℕ → ℕ) (q : Dtq)
    → Distinct n idxout
    → Held n f idxout
    → Released n idxout f r q (release_loop idxout firsthole f q)
unfolding release_loop release_each completed
release_loop_lem n [] firsthole f r q d h = record {
  queue = refl;
  kept = Permᴰ.refl (sends n 0 f r);
  counted = omega arith;
  listed = refl;
  untouched = λ i w. refl;
  emptied = λ i. inr tt;
}
release_loop_lem n (i ∷ is) firsthole f r q (l, other, d) h = elim (h i l) [
  | inl (ne, w) ↦ absurd (ne refl)
  | inr (m, e) ↦
      let w =
        release_loop_lem n is (if ltb i firsthole then i else firsthole) (put i none f) r
          (mpimts_done (f i) q) d (Held-put n i is f other h) in
      let res =
        release_loop is (if ltb i firsthole then i else firsthole) (put i none f)
          (mpimts_done (f i) q) in
      let (p, c) = sends-take f r n 0 i m (omega arith) (omega arith) e in
      let same = completed-put f r i is other in
      let head = completed-some i is f r m e in
      record {
        queue = w.queue ∙ rw (same, head, e) refl;
        kept = rw (head) (
            Permᴰ.trans p (
              Permᴰ.cons refl (
                subst (λ x. Permᴰ (sends n 0 (put i none f) r) (x ++ sends n 0 res.1 r)) same
                  w.kept)));
        counted = omega (arith, c, w.counted);
        listed = rw (head) (ap suc (ap (λ (x : List Send). length x) (sym same) ∙ w.listed));
        untouched = λ j u. w.untouched j u.1 ∙ put_ne i j none f u.0;
        emptied = λ j. elim (ℕ_discrete j i) [
          | yes here ↦ inl (
              w.untouched j (subst (λ x. NotIn x is) (sym here) other)
              ∙ ap (put i none f) here
              ∙ put_self i none f)
          | no ne ↦ elim (w.emptied j) [ inl hole ↦ inl hole | inr u ↦ inr (ne, u) ]
        ];
      }
]

-- `firsthole` is at most what it starts from, and no index is below it.
pub firsthole_lem :
    (idxout : List ℕ) (firsthole : ℕ) (f : ℕ → Option Mqe) (q : Dtq)
    → let h = (release_loop idxout firsthole f q).0 in
      (h ≤ firsthole) × ((i : ℕ) → i < h → NotIn i idxout)
unfolding release_loop
firsthole_lem [] firsthole f q = (omega arith, λ i l. tt)
firsthole_lem (i ∷ is) firsthole f q =
    let least : ℕ = if ltb i firsthole then i else firsthole in
    let (a, b) = firsthole_lem is least (put i none f) (mpimts_done (f i) q) in
    let low : (least ≤ firsthole) × (least ≤ i) = ground arith in
    (omega (arith, a, low), λ j l. (λ e. omega (arith, a, low, e), b j l))
