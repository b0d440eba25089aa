-- ===== src/Shm/Segment/Apart.antt =====
-- Sequences of allocations from a segment (libdthread/dt_segops.c).
use dthread.Base.{ℕ, ◌+◌, ◌^◌, ◌≤◌, inl, inr, Option, none, some, List, [], ◌∷◌, arith, sym, subst}
use dthread.Shm.Segment.{Seg, align, Got, seg_alloc}
use dthread.Shm.Segment.Bounds.{SegInv, seg_alloc_lem}

abbrev cons_if : Option Got → List Got → List Got
cons_if none gots = gots
cons_if (some got) gots = got ∷ gots

-- The allocations of one call after another, and the segment after them.
pub alloc_each : ℕ → List ℕ → Seg → List Got × Seg
alloc_each shmid [] g = ([], g)
alloc_each shmid (want ∷ wants) g =
    let (o, g1) = seg_alloc shmid want g in
    let (gots, g2) = alloc_each shmid wants g1 in (cons_if o gots, g2)

-- Each allocation lies behind `from` and behind the ones before it, and before `end`.
abbrev pub Apart : ℕ → ℕ → List Got → Type 0
Apart from end [] = Unit
Apart from end ((p, ref) ∷ gots) =
    (from ≤ ref.dt_offset)
    × (ref.dt_offset + ref.dt_length ≤ end)
    × Apart (ref.dt_offset + ref.dt_length) end gots

-- The size, with the padding, does not wrap around.
abbrev pub AllSmall : List ℕ → Type 0
AllSmall [] = Unit
AllSmall (want ∷ wants) = (want + align ≤ 2 ^ 64) × AllSmall wants

-- No two allocations of a well-formed segment overlap, if each size asked for has size + 16 at most
-- 2^64: each one lies behind the ones before it and inside the segment.
pub alloc_each-Apart :
    (shmid : ℕ) (wants : List ℕ) (g : Seg)
    → SegInv g
    → AllSmall wants
    → Apart g.md.first_avail g.md.end_avail (alloc_each shmid wants g).0
unfolding alloc_each
alloc_each-Apart shmid [] g v a = tt
alloc_each-Apart shmid (want ∷ wants) g v (h, hs) = elim (seg_alloc_lem shmid want g v h) [
  | inl (e, n) ↦
      subst
        (λ (x : Option Got × Seg).
          Apart g.md.first_avail g.md.end_avail (cons_if x.0 (alloc_each shmid wants x.1).0))
        (sym e) (alloc_each-Apart shmid wants g v hs)
  | inr (got, e, f, v') ↦
      let g1 = (seg_alloc shmid want g).1 in
      let rest = (alloc_each shmid wants g1).0 in
      let ih : Apart (got.1.dt_offset + got.1.dt_length) g.md.end_avail rest =
        subst (λ x. Apart x g.md.end_avail rest) f.behind
          (subst (λ x. Apart g1.md.first_avail x rest) f.same_end
            (alloc_each-Apart shmid wants g1 v' hs)) in
      subst (λ (x : Option Got). Apart g.md.first_avail g.md.end_avail (cons_if x rest)) (sym e)
        (omega (arith, f.front), f.inside, ih)
]
