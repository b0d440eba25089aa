-- ===== src/Shm/Break/Free.antt =====
-- `break_free` of libdthread/dt_shmops.c, and any history of allocations and frees.
use dthread.Base.{
  ℕ, suc, ◌+◌, ◌-◌, ◌^◌, ◌≤◌, ◌<◌, ◌≡◌, inl, inr, refl, ap, sym, subst, ◌∙◌, Bool, true, false,
  Option, none, some, List, [], ◌∷◌, ◌++◌, if◌then◌else◌, ◌==◌, arith, length,
}
use mathlib.Core.Option.{some-injective}
use dthread.Shm.{ShmRef}
use dthread.Shm.Segment.{Got}
use dthread.Shm.Break.{
  Hdr, Brk, dead_word, word, write_hdr, hdr_ok, sub64, break_malloc, is_block, less_one, break_drop,
  break_free,
}
use dthread.Shm.Break.Blocks.{Stacked, Headed, BreakInv, Stacked-remove, Stacked-in, Headed-remove}
use dthread.Shm.Break.History.{break_malloc_lem, sub64_le}

Headed-in :
    (hdrs : ℕ → Hdr) (pre : List ShmRef) (ref : ShmRef) (post : List ShmRef)
    → Headed hdrs (pre ++ ref ∷ post)
    → hdr_ok (hdrs (ref.dt_offset - 16)) ≡ true
Headed-in hdrs [] ref post (x, y, v) = x
Headed-in hdrs (r ∷ pre) ref post (x, y, v) = Headed-in hdrs pre ref post v

length-remove :
    (pre : List ShmRef) (ref : ShmRef) (post : List ShmRef)
    → length (pre ++ ref ∷ post) ≡ suc (length (pre ++ post))
length-remove [] ref post = refl
length-remove (r ∷ pre) ref post = ap suc (length-remove pre ref post)

Stacked-none : (low top : ℕ) (refs : List ShmRef) → length refs ≡ 0 → Stacked low top refs
Stacked-none low top [] e = tt
Stacked-none low top (r ∷ refs) e = absurd (omega arith)

Stacked-if :
    (low start x y : ℕ) (c : Bool) (refs : List ShmRef)
    → (c ≡ true → length refs ≡ 0)
    → Stacked low (start + y) refs
    → Stacked low (start + (if c then x else y)) refs
Stacked-if low start x y true refs e s = Stacked-none low (start + x) refs (e refl)
Stacked-if low start x y false refs e s = s

module _ (arena : ShmRef) (b : Brk) (pre : List ShmRef) (ref : ShmRef) (post : List ShmRef)
    (v : BreakInv arena b (pre ++ ref ∷ post)) where
  pub header_at : ref.dt_offset - b.hdrlen ≡ ref.dt_offset - 16
  header_at = omega (arith, v.header)

  pub in_use : is_block ref b ≡ true
  in_use =
      let (lo, hi) =
        Stacked-in b.min_uoffset (arena.dt_offset + b.allocated) pre ref post v.stacked in
      let ok = Headed-in b.hdrs pre ref post v.headed in
      let ok' : hdr_ok (b.hdrs (ref.dt_offset - b.hdrlen)) ≡ true =
        ap (λ x. hdr_ok (b.hdrs x)) header_at ∙ ok in
      ground (arith, v.header, ok')

  less : less_one b.nalloc ≡ length (pre ++ post)
  less = ground (arith, v.count, v.few, length-remove pre ref post)

  reset : sub64 b.min_uoffset b.self.dt_offset ≡ b.min_uoffset - arena.dt_offset
  reset =
      let self : b.self.dt_offset ≡ arena.dt_offset =
        ap (λ (x : ShmRef). x.dt_offset) v.same_arena in
      rw self
        (sub64_le b.min_uoffset arena.dt_offset v.low (omega (arith, v.above, v.inside, v.fits)))

  drop-Stacked :
      (n : ℕ)
      → n ≡ length (pre ++ post)
      → Stacked b.min_uoffset
          (arena.dt_offset + (if n == 0 then sub64 b.min_uoffset b.self.dt_offset else b.allocated))
          (pre ++ post)
  drop-Stacked n e =
      Stacked-if b.min_uoffset arena.dt_offset (sub64 b.min_uoffset b.self.dt_offset) b.allocated
        (n == 0) (pre ++ post) (λ c. ground (arith, e))
        (Stacked-remove b.min_uoffset (arena.dt_offset + b.allocated) pre ref post v.stacked)

  -- the header that the block is left with
  abbrev dead : Hdr
  dead = record (b.hdrs (ref.dt_offset - b.hdrlen)) { before = dead_word }

  drop-BreakInv : BreakInv arena (break_drop ref b) (pre ++ post)
  unfolding break_drop
  drop-BreakInv = record {
    same_arena = v.same_arena;
    header = v.header;
    low = v.low;
    above = ground (arith, reset, v.above, v.low);
    inside = ground (arith, reset, v.above, v.low, v.inside);
    fits = v.fits;
    count = less;
    few = omega (arith, v.few, length-remove pre ref post);
    stacked = drop-Stacked (less_one b.nalloc) less;
    headed =
        subst (λ x. Headed (write_hdr x dead b.hdrs) (pre ++ post)) (sym header_at)
          (Headed-remove b.min_uoffset (arena.dt_offset + b.allocated) dead b.hdrs pre ref post
            v.stacked v.headed);
  }

  freed : break_free ref b ≡ break_drop ref b
  unfolding break_free
  freed = rw in_use refl

  dropped :
      (break_drop ref b).nalloc ≡ 0 → (break_drop ref b).allocated ≡ b.min_uoffset - arena.dt_offset
  unfolding break_drop
  dropped e = ground (arith, e, reset)

  -- Freeing a block that is in use, in whatever order, leaves the driver well-formed with the other
  -- blocks; once no block is left, all the space behind the metadata is free again.
  pub break_free_lem :
      BreakInv arena (break_free ref b) (pre ++ post)
      × (length (pre ++ post) ≡ 0 → (break_free ref b).allocated ≡ b.min_uoffset - arena.dt_offset)
  break_free_lem = rw freed (drop-BreakInv, λ e. dropped (drop-BreakInv.count ∙ e))

-- The states that allocations and frees lead to, with the blocks in use: sizes with size + 32 at most
-- 2^64, fewer than 2^31 blocks, and frees of blocks that are in use.
pub data History (mapping : ℕ) (arena : ShmRef) : Brk → List ShmRef → Type 0 where
  empty : (b : Brk) → BreakInv arena b [] → History mapping arena b []
  mallocs :
      (b : Brk) (live : List ShmRef) (size : ℕ) (got : Got)
      → History mapping arena b live
      → size + 32 ≤ word
      → suc (length live) < 2 ^ 31
      → (break_malloc mapping arena size b).0 ≡ some got
      → History mapping arena (break_malloc mapping arena size b).1 (got.1 ∷ live)
  frees :
      (b : Brk) (pre : List ShmRef) (ref : ShmRef) (post : List ShmRef)
      → History mapping arena b (pre ++ ref ∷ post)
      → History mapping arena (break_free ref b) (pre ++ post)

malloc-BreakInv :
    (mapping : ℕ) (arena : ShmRef) (b : Brk) (live : List ShmRef) (size : ℕ) (got : Got)
    → BreakInv arena b live
    → size + 32 ≤ word
    → suc (length live) < 2 ^ 31
    → (break_malloc mapping arena size b).0 ≡ some got
    → BreakInv arena (break_malloc mapping arena size b).1 (got.1 ∷ live)
malloc-BreakInv mapping arena b live size got v l few e =
    elim (break_malloc_lem mapping arena b live v size l few) [
      | inl (n, f) ↦ let q : none ≡ some got = sym (ap (λ (x : Option Got × Brk). x.0) n) ∙ e in cc
      | inr (got', e', r, p, i) ↦
          subst (λ (g : Got). BreakInv arena (break_malloc mapping arena size b).1 (g.1 ∷ live))
            (some-injective got' got (sym e' ∙ e)) i
    ]

-- After any history of allocations, of sizes with size + 32 at most 2^64 and while fewer than 2^31
-- blocks are in use, and of frees of blocks in use, the blocks in use do not overlap, lie in the arena
-- behind its metadata, each have a valid header with their length, and are as many as `nalloc`.
pub History-BreakInv :
    {mapping : ℕ} {arena : ShmRef} {b : Brk} {live : List ShmRef}
    → History mapping arena b live
    → BreakInv arena b live
History-BreakInv (empty b v) = v
History-BreakInv (mallocs b live size got h l few e) =
    malloc-BreakInv _ _ b live size got (History-BreakInv h) l few e
History-BreakInv (frees b pre ref post h) = (break_free_lem _ b pre ref post (History-BreakInv h)).0

-- A second free of the same reference changes nothing.
pub break_free-twice :
    (ref : ShmRef) (b : Brk) → break_free ref (break_free ref b) ≡ break_free ref b
unfolding break_free break_drop
break_free-twice ref b = ground arith
