-- ===== src/Mpi/Compact.antt =====
-- The loop of `mpimts_test` in libdthread/dt_mpithread.c that fills the holes of the slots.
use dthread.Base.{
  ℕ, zero, suc, ◌+◌, ◌-◌, ◌≤◌, ◌<◌, ◌≡◌, ◌≢◌, inl, inr, refl, ap, sym, ◌∙◌, subst, Bool, true,
  false, Option, none, some, List, [], ◌∷◌, ◌++◌, leb, length, arith, Option-cases,
}
use mathlib.Core.List.{Permᴰ}
use mathlib.Core.List.Permᴰ
use dthread.Types.{Mqe}
use dthread.Mpi.{put, pull, fill_loop}
use dthread.Mpi.Slots.{
  Send, sends, sends-some, sends-none, length-sends_le, put_self, put_ne, sends-put_below,
}

pub length-nil : (l : List Send) → length l ≡ 0 → l ≡ []
length-nil [] h = refl
length-nil (x ∷ l) h = absurd (omega arith)

-- What the scan finds among `d` slots from `p` on: the first entry, which is at `p + e`.
record Pulled (d p : ℕ) (f : ℕ → Option Mqe) (r : ℕ → ℕ) : Type 0 where
  pub e : ℕ
  pub left : ℕ
  pub mqe : Mqe
  pub steps : d ≡ suc (e + left)
  pub found : pull d p f ≡ p + e
  pub entry : f (p + e) ≡ some mqe
  pub first : sends d p f r ≡ (mqe, r (p + e)) ∷ sends left (suc (p + e)) f r

pull_lem : (d p : ℕ) (f : ℕ → Option Mqe) (r : ℕ → ℕ) → 0 < length (sends d p f r) → Pulled d p f r
unfolding pull
pull_lem zero p f r h = absurd (omega arith)
pull_lem (suc d) p f r h = elim (Option-cases (f p)) [
  | inl n ↦
      let w =
        pull_lem d (suc p) f r
          (omega (arith, h, ap (λ (x : List Send). length x) (sends-none f r d p n))) in
      let at : suc p + w.e ≡ p + suc w.e = omega arith in
      record {
        e = suc w.e;
        left = w.left;
        mqe = w.mqe;
        steps = omega (arith, w.steps);
        found = rw (pull, n) (w.found ∙ at);
        entry = subst (λ x. f x ≡ some w.mqe) at w.entry;
        first =
            sends-none f r d p n
            ∙ subst (λ x. sends d (suc p) f r ≡ (w.mqe, r x) ∷ sends w.left (suc x) f r) at w.first;
      }
  | inr (m, y) ↦
      let at : p ≡ p + 0 = omega arith in
      record {
        e = 0;
        left = d;
        mqe = m;
        steps = omega arith;
        found = rw (pull, y) at;
        entry = subst (λ x. f x ≡ some m) at y;
        first =
            subst (λ x. sends (suc d) p f r ≡ (m, r x) ∷ sends d (suc x) f r) at
              (sends-some f r d p m y);
      }
]

-- What the loop over the `k` slots from `lcv` on leaves: no overflow, the slots below as they were, and
-- in its own slots what was there and what was pulled.
pub record Filled (k lcv : ℕ) (f : ℕ → Option Mqe) (r : ℕ → ℕ) (tail : List Send)
    (res : Bool × (ℕ → Option Mqe) × (ℕ → ℕ)) : Type 0 where
  pub ok : res.0 ≡ true
  pub below : (i : ℕ) → i < lcv → (res.1 i ≡ f i) × (res.2 i ≡ r i)
  pub moved : Permᴰ (sends k lcv res.1 res.2) (sends k lcv f r ++ tail)

module _ (nused : ℕ) where
  fill-some :
      (k lcv p : ℕ) (f : ℕ → Option Mqe) (r : ℕ → ℕ) (m : Mqe)
      → f lcv ≡ some m
      → fill_loop (suc k) nused lcv p f r ≡ fill_loop k nused (suc lcv) p f r
  unfolding fill_loop
  fill-some k lcv p f r m e = rw (fill_loop, e) refl

  fill-hole :
      (k lcv p q : ℕ) (f : ℕ → Option Mqe) (r : ℕ → ℕ)
      → f lcv ≡ none
      → pull (nused - p) p f ≡ q
      → q < nused
      → fill_loop (suc k) nused lcv p f r
        ≡ fill_loop k nused (suc lcv) (suc q) (put lcv (f q) f) (put lcv (r q) r)
  unfolding fill_loop
  fill-hole k lcv p q f r e g h =
      let z : leb nused q ≡ false = ground (arith, h) in rw (fill_loop, e, g, z) refl

  Filled-some :
      (k lcv : ℕ) (f : ℕ → Option Mqe) (r : ℕ → ℕ) (tail : List Send)
      (res : Bool × (ℕ → Option Mqe) × (ℕ → ℕ)) (m : Mqe)
      → f lcv ≡ some m
      → Filled k (suc lcv) f r tail res
      → Filled (suc k) lcv f r tail res
  Filled-some k lcv f r tail res m e w = record {
    ok = w.ok;
    below = λ i h. w.below i (omega arith);
    moved =
        let (a, b) = w.below lcv (omega arith) in
        rw (sends-some f r k lcv m e, sends-some res.1 res.2 k lcv m (a ∙ e), b)
          (Permᴰ.cons refl w.moved);
  }

  Filled-hole :
      (k lcv : ℕ) (f : ℕ → Option Mqe) (r : ℕ → ℕ) (m : Mqe) (y : ℕ) (tail : List Send)
      (res : Bool × (ℕ → Option Mqe) × (ℕ → ℕ))
      → f lcv ≡ none
      → Filled k (suc lcv) (put lcv (some m) f) (put lcv y r) tail res
      → Filled (suc k) lcv f r ((m, y) ∷ tail) res
  Filled-hole k lcv f r m y tail res e w = record {
    ok = w.ok;
    below = λ i h.
        let (a, b) = w.below i (omega arith) in
        let ne : i ≢ lcv = λ q. omega arith in
        (a ∙ put_ne lcv i (some m) f ne, b ∙ put_ne lcv i y r ne);
    moved =
        let (a, b) = w.below lcv (omega arith) in
        let here = sends-some res.1 res.2 k lcv m (a ∙ put_self lcv (some m) f) in
        let rest = sends-put_below f r k (suc lcv) lcv (some m) y (omega arith) in
        rw (sends-none f r k lcv e, here, b ∙ put_self lcv y r)
          (Permᴰ.trans
            (Permᴰ.cons refl
              (subst (λ x. Permᴰ (sends k (suc lcv) res.1 res.2) (x ++ tail)) rest w.moved))
            (Permᴰ.symm (Permᴰ.middle (m, y) (sends k (suc lcv) f r) tail)));
  }

  -- The loop over the `k` slots from `lcv` on, if the slots from `p` on have as many entries as there
  -- are holes.
  pub fill_loop_lem :
      (k d lcv p : ℕ) (f : ℕ → Option Mqe) (r : ℕ → ℕ)
      → lcv + k ≤ p
      → p + d ≡ nused
      → length (sends k lcv f r) + length (sends d p f r) ≡ k
      → Filled k lcv f r (sends d p f r) (fill_loop k nused lcv p f r)
  unfolding fill_loop
  fill_loop_lem zero d lcv p f r h g n = record {
    ok = refl;
    below = λ i u. (refl, refl);
    moved = subst (λ x. Permᴰ [] x) (sym (length-nil (sends d p f r) (omega (arith, n)))) Permᴰ.nil;
  }
  fill_loop_lem (suc k) d lcv p f r h g n = elim (Option-cases (f lcv)) [
    | inr (m, y) ↦
        let n' : length (sends k (suc lcv) f r) + length (sends d p f r) ≡ k =
          omega (arith, n, ap (λ (x : List Send). length x) (sends-some f r k lcv m y)) in
        rw (fill-some k lcv p f r m y) (
          Filled-some k lcv f r (sends d p f r) _ m y
            (fill_loop_lem k d (suc lcv) p f r (omega arith) g n'))
    | inl e ↦
        let none_here = ap (λ (x : List Send). length x) (sends-none f r k lcv e) in
        let w = pull_lem d p f r (omega (arith, n, none_here, length-sends_le f r k (suc lcv))) in
        let q = p + w.e in
        let f1 = put lcv (some w.mqe) f in
        let r1 = put lcv (r q) r in
        let d_is : d ≡ nused - p = omega arith in
        let found : pull (nused - p) p f ≡ q = subst (λ x. pull x p f ≡ q) d_is w.found in
        let k_same = sends-put_below f r k (suc lcv) lcv (some w.mqe) (r q) (omega arith) in
        let d_same = sends-put_below f r w.left (suc q) lcv (some w.mqe) (r q) (omega arith) in
        let n' : length (sends k (suc lcv) f1 r1) + length (sends w.left (suc q) f1 r1) ≡ k =
          omega (
            arith,
            n,
            none_here,
            ap (λ (x : List Send). length x) k_same,
            ap (λ (x : List Send). length x) d_same,
            ap (λ (x : List Send). length x) w.first,
          ) in
        let rest =
          fill_loop_lem k w.left (suc lcv) (suc q) f1 r1 (omega arith) (omega (arith, w.steps))
            n' in
        rw (fill-hole k lcv p q f r e found (omega (arith, w.steps)), w.first, w.entry)
          (Filled-hole k lcv f r w.mqe (r q) (sends w.left (suc q) f r) _ e (
            subst (λ x. Filled k (suc lcv) f1 r1 x (fill_loop k nused (suc lcv) (suc q) f1 r1))
              d_same rest))
  ]
