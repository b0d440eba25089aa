-- ===== src/Shm/Arena/Internal/BreakDriver.antt =====
-- The break driver of libdthread/dt_shmops.c keeps the promises of an arena.
use dthread.Base.{
  ℕ, suc, ◌+◌, ◌-◌, ◌%◌, ◌^◌, ◌≤◌, ◌<◌, ◌≡◌, ◌⊎◌, inl, inr, refl, ap, sym, ◌∙◌, subst, Option, none,
  some, List, [], ◌∷◌, ◌++◌, ◌==◌, length, arith, Bool-cases,
}
use mathlib.Core.Option.{some-injective}
use dthread.Shm.{ShmRef, ShmMap, map_at}
use dthread.Shm.Segment.{Got}
use dthread.Shm.Break.{
  AllocMd, Brk, word, sub64, break_total, break_malloc, break_take, break_free, break_drop,
  is_block, less_one,
}
use dthread.Shm.Break.Blocks.{Stacked, BreakInv}
use dthread.Shm.Break.History.{break_malloc_lem, sub64_le}
use dthread.Shm.Break.Free.{break_free_lem}
use dthread.Shm.Arena.Driver.{Driver, Disjoint, All, Apart, Inside}
use dthread.Shm.Arena.Internal.{
  ArenaMem, brk, Mem, mem_at, put_mem, md_of, md_at, break_ops, break_malloc_in, break_free_in,
  put_mem_self, put_mem-eq, InSegment, InSegment-remove,
}

Stacked-Disjoint :
    (low top : ℕ) (r : ShmRef) (live : List ShmRef)
    → Stacked low top live
    → top ≤ r.dt_offset
    → All (Disjoint r) live
Stacked-Disjoint low top r [] s h = tt
Stacked-Disjoint low top r (x ∷ live) (l, u, s) h =
    (inr (omega arith), Stacked-Disjoint low (x.dt_offset - 16) r live s (omega arith))

pub Stacked-Apart : (low top : ℕ) (live : List ShmRef) → Stacked low top live → Apart live
Stacked-Apart low top [] s = tt
Stacked-Apart low top (r ∷ live) (l, u, s) = (
  Stacked-Disjoint low (r.dt_offset - 16) r live s (omega arith),
  Stacked-Apart low (r.dt_offset - 16) live s,
)

abbrev Aligned : List ShmRef → Type 0
Aligned live = All (λ r. r.dt_offset % 16 ≡ 0) live

Aligned-remove :
    (pre : List ShmRef) (ref : ShmRef) (post : List ShmRef)
    → Aligned (pre ++ ref ∷ post)
    → Aligned (pre ++ post)
Aligned-remove [] ref post (x, v) = v
Aligned-remove (r ∷ pre) ref post (x, v) = (x, Aligned-remove pre ref post v)

module _ (maps : List ShmMap) (a : ShmRef) (md : AllocMd) where
  -- The arena holds a break driver with the blocks `live` in use; all offsets are aligned.
  pub record BreakUses (m : Mem) (live : List ShmRef) : Type 0 where
    pub state : Brk
    pub here : mem_at a m ≡ brk state
    pub amd_is : state.amd ≡ md
    pub end : md.max_uoffset ≡ a.dt_offset + a.dt_length
    pub inv : BreakInv a state live
    pub low_aligned : md.min_uoffset % 16 ≡ 0
    pub top_aligned : (a.dt_offset + state.allocated) % 16 ≡ 0
    pub aligned : Aligned live
    pub segment : InSegment a live

  pub Stacked-Inside :
      (low top : ℕ) (live : List ShmRef)
      → md.min_uoffset ≤ low
      → top ≤ md.max_uoffset
      → Stacked low top live
      → Aligned live
      → InSegment a live
      → All (Inside a md) live
  Stacked-Inside low top [] l h s al g = tt
  Stacked-Inside low top (r ∷ live) l h (x, y, s) (al, als) (g, gs) = (
    record { shmid = g; from = omega arith; to = omega arith; aligned = al },
    Stacked-Inside low (r.dt_offset - 16) live l (omega arith) s als gs,
  )

  malloc_at :
      (m : Mem) (b : Brk) (size : ℕ)
      → mem_at a m ≡ brk b
      → let r = break_malloc (map_at maps a.dt_shmid).mapping a size b in
        (break_ops maps).malloc a size m ≡ (r.0, put_mem a (brk r.1) m)
  unfolding break_ops
  malloc_at m b size e = ap (λ x. break_malloc_in maps a size x m) e

  free_at :
      (m : Mem) (b : Brk) (ref : ShmRef)
      → mem_at a m ≡ brk b
      → (break_ops maps).free a ref m ≡ put_mem a (brk (break_free ref b)) m
  unfolding break_ops
  free_at m b ref e = ap (λ x. break_free_in maps a ref x m) e

  -- a block that was given out, and what happened to the driver
  break_malloc-got :
      (mapping size : ℕ) (b : Brk) (got : Got)
      → (break_malloc mapping a size b).0 ≡ some got
      → let b' = (break_malloc mapping a size b).1 in
        (b'.amd ≡ b.amd)
        × (b'.allocated ≡ b.allocated + break_total size b)
        × (got.1.dt_shmid ≡ a.dt_shmid)
        × (got.1.dt_offset ≡ a.dt_offset + b.allocated + b.hdrlen)
  unfolding break_malloc break_take
  break_malloc-got mapping size b got e = ground (arith, e)

  total_aligned : (size : ℕ) (b : Brk) → b.hdrlen ≡ 16 → break_total size b % 16 ≡ 0
  total_aligned size b h = ground (arith, h)

  break_free-state :
      (ref : ShmRef) (b : Brk)
      → ((break_free ref b).amd ≡ b.amd)
        × (((break_free ref b).allocated ≡ b.allocated)
            ⊎ ((break_free ref b).allocated ≡ sub64 b.min_uoffset b.self.dt_offset))
  unfolding break_free break_drop
  break_free-state ref b = elim (Bool-cases (is_block ref b)) [
    | inr no_block ↦ rw no_block (refl, inl refl)
    | inl block ↦ elim (Bool-cases (less_one b.nalloc == 0)) [
      | inl last ↦ rw (block, last) (refl, inr refl)
      | inr more ↦ rw (block, more) (refl, inl refl)
    ]
  ]

  BreakUses-put :
      (m : Mem) (b : Brk) (live : List ShmRef)
      → b.amd ≡ md
      → md.max_uoffset ≡ a.dt_offset + a.dt_length
      → BreakInv a b live
      → md.min_uoffset % 16 ≡ 0
      → (a.dt_offset + b.allocated) % 16 ≡ 0
      → Aligned live
      → InSegment a live
      → BreakUses (put_mem a (brk b) m) live
  BreakUses-put m b live e f v l t al s = record {
    state = b;
    here = put_mem_self a (brk b) m;
    amd_is = e;
    end = f;
    inv = v;
    low_aligned = l;
    top_aligned = t;
    aligned = al;
    segment = s;
  }

  abbrev mapping : ℕ
  mapping = (map_at maps a.dt_shmid).mapping

  pub BreakUses-malloc :
      (m : Mem) (live : List ShmRef) (size : ℕ) (got : Got)
      → BreakUses m live
      → size ≤ 2 ^ 63
      → suc (length live) < 2 ^ 31
      → ((break_ops maps).malloc a size m).0 ≡ some got
      → (got.1.dt_length ≡ size) × BreakUses ((break_ops maps).malloc a size m).1 (got.1 ∷ live)
  BreakUses-malloc m live size got u h n e =
      let b = u.state in
      let f = malloc_at m b size u.here in
      let e' = sym (ap (λ (x : Option Got × Mem). x.0) f) ∙ e in
      let (amd, top, sh, off) = break_malloc-got mapping size b got e' in
      let t = total_aligned size b u.inv.header in
      elim (break_malloc_lem mapping a b live u.inv size (omega arith) n) [
        | inl (z, full) ↦
            let q : none ≡ some got = sym (ap (λ (x : Option Got × Brk). x.0) z) ∙ e' in absurd (cc)
        | inr (got', g, len, p, v) ↦
            let same : got' ≡ got = some-injective got' got (sym g ∙ e') in
            (
              ap (λ (x : Got). x.1.dt_length) (sym same) ∙ len,
              rw f (
                  BreakUses-put m (break_malloc mapping a size b).1 (got.1 ∷ live) (amd ∙ u.amd_is)
                    u.end
                    (subst (λ (x : Got). BreakInv a (break_malloc mapping a size b).1 (x.1 ∷ live))
                      same v)
                    u.low_aligned (omega (arith, top, t, u.top_aligned))
                    (omega (arith, off, u.inv.header, u.top_aligned), u.aligned) (sh, u.segment)),
            )
      ]

  pub BreakUses-refusal :
      (m : Mem) (live : List ShmRef) (size : ℕ)
      → BreakUses m live
      → size ≤ 2 ^ 63
      → suc (length live) < 2 ^ 31
      → ((break_ops maps).malloc a size m).0 ≡ none
      → ((break_ops maps).malloc a size m).1 ≡ m
  BreakUses-refusal m live size u h n e =
      let b = u.state in
      let f = malloc_at m b size u.here in
      let e' = sym (ap (λ (x : Option Got × Mem). x.0) f) ∙ e in
      elim (break_malloc_lem mapping a b live u.inv size (omega arith) n) [
        | inl (z, full) ↦
            ap (λ (x : Option Got × Mem). x.1) f
            ∙ ap (λ (x : Option Got × Brk). put_mem a (brk x.1) m) z
            ∙ put_mem-eq a (brk b) m u.here
        | inr (got', g, len, p, v) ↦ (let q : some got' ≡ none = sym g ∙ e' in absurd (cc))
      ]

  free_top :
      (m : Mem) (pre : List ShmRef) (ref : ShmRef) (post : List ShmRef)
      (u : BreakUses m (pre ++ ref ∷ post))
      → (a.dt_offset + (break_free ref u.state).allocated) % 16 ≡ 0
  free_top m pre ref post u =
      let b = u.state in
      elim (break_free-state ref b).1 [
        | inl same ↦ rw same u.top_aligned
        | inr reset ↦
            let self : b.self.dt_offset ≡ a.dt_offset =
              ap (λ (x : ShmRef). x.dt_offset) u.inv.same_arena in
            let low : b.min_uoffset ≡ md.min_uoffset =
              ap (λ (x : AllocMd). x.min_uoffset) u.amd_is in
            let low_word : b.min_uoffset < word =
              omega (arith, u.inv.above, u.inv.inside, u.inv.fits) in
            let e = sub64_le b.min_uoffset a.dt_offset u.inv.low low_word in
            rw (reset, self, e) (omega (arith, low, u.low_aligned, u.inv.low))
      ]

  pub BreakUses-free :
      (m : Mem) (pre : List ShmRef) (ref : ShmRef) (post : List ShmRef) (len : ℕ)
      → BreakUses m (pre ++ ref ∷ post)
      → BreakUses ((break_ops maps).free a (record ref { dt_length = len }) m) (pre ++ post)
  unfolding break_free break_drop
  BreakUses-free m pre ref post len u =
      let b = u.state in
      let (amd, top) = break_free-state ref b in
      rw (free_at m b (record ref { dt_length = len }) u.here) (
        BreakUses-put m (break_free ref b) (pre ++ post) (amd ∙ u.amd_is) u.end
          (break_free_lem a b pre ref post u.inv).0 u.low_aligned (free_top m pre ref post u)
          (Aligned-remove pre ref post u.aligned) (InSegment-remove a pre ref post u.segment))

  -- The break driver keeps the promises of an arena, for sizes of at most 2^63 and for less than 2^31
  -- blocks at a time.
  unfoldable pub break_driver : Driver Mem md_at (break_ops maps) a md
  break_driver = record {
    Uses = BreakUses;
    max_size = 2 ^ 63;
    max_blocks = 2 ^ 31;
    same_md = λ m live u. ap (λ (x : ArenaMem). md_of x) u.here ∙ u.amd_is;
    all_inside = λ m live u.
        let low : u.state.min_uoffset ≡ md.min_uoffset =
          ap (λ (x : AllocMd). x.min_uoffset) u.amd_is in
        Stacked-Inside u.state.min_uoffset (a.dt_offset + u.state.allocated) live
          (omega (arith, low)) (omega (arith, u.end, u.inv.inside)) u.inv.stacked u.aligned
          u.segment;
    all_apart = λ m live u.
        Stacked-Apart u.state.min_uoffset (a.dt_offset + u.state.allocated) live u.inv.stacked;
    on_malloc = BreakUses-malloc;
    on_refusal = BreakUses-refusal;
    on_free = BreakUses-free;
  }
