-- ===== src/Manager/Router/Tree.antt =====
-- The broadcast tree of `binary_router` in libdthread/dt_mgrthread.c.
use native.Mathlib.Nat.{mod-eq_of_lt, mod-eq-sub-mod}
use dthread.Base.{
  ℕ, suc, ◌+◌, ◌-◌, ◌*◌, ◌/◌, ◌%◌, ◌<◌, ◌≡◌, ◌⊎◌, inl, inr, List, [], ◌∷◌, arith, if◌then◌else◌,
  ltb, leb, ◌==◌, Bool-cases,
}
use dthread.Manager.Router.{binary_router, adjusted_rank}

abbrev pub Elem : ℕ → List ℕ → Type 0
Elem x [] = ⊥
Elem x (y ∷ ys) = (x ≡ y) ⊎ Elem x ys

-- the rank at the place `x` of the tree
abbrev rank_at : ℕ → ℕ → ℕ → ℕ
rank_at root wsize x = if ltb (x + root) wsize then x + root else x + root - wsize

module _ (root wsize : ℕ) (h : root < wsize) where
  wrap : (x : ℕ) → x < wsize → (x + root) % wsize ≡ rank_at root wsize x
  wrap x hx = ground (
    arith,
    mod-eq_of_lt {n = x + root} {m = wsize},
    mod-eq-sub-mod {n = x + root} {m = wsize},
    mod-eq_of_lt {n = x + root - wsize} {m = wsize},
  )

  wrap_next :
      (x : ℕ) → suc x < wsize → (rank_at root wsize x + 1) % wsize ≡ rank_at root wsize (suc x)
  wrap_next x hx = ground (
    arith,
    mod-eq_of_lt {n = rank_at root wsize x + 1} {m = wsize},
    mod-eq-sub-mod {n = rank_at root wsize x + 1} {m = wsize},
    mod-eq_of_lt {n = rank_at root wsize x + 1 - wsize} {m = wsize},
  )

  -- The children of the rank at the place `a`.
  unfoldable pub children_at : ℕ → List ℕ
  children_at a =
      if leb wsize (a * 2 + 1)
      then []
      else if a * 2 + 1 == wsize - 1
      then rank_at root wsize (a * 2 + 1) ∷ []
      else rank_at root wsize (a * 2 + 1) ∷ (rank_at root wsize (suc (a * 2 + 1)) ∷ [])

  pub router_lem :
      (rank : ℕ) → binary_router root wsize rank ≡ children_at (adjusted_rank root wsize rank)
  unfolding binary_router children_at
  router_lem rank =
      let a = adjusted_rank root wsize rank in
      elim (Bool-cases (leb wsize (a * 2 + 1))) [
        | inl e ↦ rw e
        | inr e ↦ elim (Bool-cases (a * 2 + 1 == wsize - 1)) [
          | inl e' ↦ rw (e, e', wrap (a * 2 + 1) (ground arith))
          | inr e' ↦
              rw (e, e', wrap (a * 2 + 1) (ground arith), wrap_next (a * 2 + 1) (ground arith))
        ]
      ]

  -- The place of `c` follows from the place of its parent, and the other way round.
  child_place :
      (a c : ℕ)
      → c < wsize
      → Elem c (children_at a)
      → (0 < adjusted_rank root wsize c) × (a ≡ (adjusted_rank root wsize c - 1) / 2)
  unfolding children_at
  child_place a c hc e = elim (Bool-cases (leb wsize (a * 2 + 1))) [
    | inl f ↦ absurd (rw (f, children_at) at e)
    | inr f ↦ elim (Bool-cases (a * 2 + 1 == wsize - 1)) [
      | inl g ↦ let e' = rw (f, g, children_at) at e in ground arith
      | inr g ↦ let e' = rw (f, g, children_at) at e in ground arith
    ]
  ]

  place_child :
      (a c : ℕ)
      → c < wsize
      → 0 < adjusted_rank root wsize c
      → a ≡ (adjusted_rank root wsize c - 1) / 2
      → Elem c (children_at a)
  unfolding children_at
  place_child a c hc p e = elim (Bool-cases (leb wsize (a * 2 + 1))) [
    | inl f ↦ absurd (ground arith)
    | inr f ↦ elim (Bool-cases (a * 2 + 1 == wsize - 1)) [
      | inl g ↦ rw (f, g) (ground arith)
      | inr g ↦ rw (f, g) (ground arith)
    ]
  ]

  -- A rank is a child of another exactly when it is not the root and its place in the tree is one of
  -- the two below the other's place.
  pub binary_router_children :
      (rank c : ℕ)
      → rank < wsize
      → c < wsize
      → (Elem c (binary_router root wsize rank)
          → (0 < adjusted_rank root wsize c)
            × (adjusted_rank root wsize rank ≡ (adjusted_rank root wsize c - 1) / 2))
        × (0 < adjusted_rank root wsize c
            → adjusted_rank root wsize rank ≡ (adjusted_rank root wsize c - 1) / 2
            → Elem c (binary_router root wsize rank))
  binary_router_children rank c hr hc = rw (router_lem rank) (
    child_place (adjusted_rank root wsize rank) c hc,
    place_child (adjusted_rank root wsize rank) c hc,
  )
