-- ===== src/Shm/Break/History.antt =====
-- Sequences of `break_malloc` and `break_free` of libdthread/dt_shmops.c.
use dthread.Base.{
  ℕ, suc, ◌+◌, ◌-◌, ◌^◌, ◌≤◌, ◌<◌, ◌≡◌, ◌⊎◌, inl, inr, refl, ap, sym, subst, ◌∙◌, true, false,
  Option, none, some, List, ◌∷◌, leb, arith, Bool-cases, length,
}
use dthread.Shm.{ShmRef}
use dthread.Shm.Segment.{Got}
use dthread.Shm.Break.{
  Hdr, Brk, word, write_hdr, hdr_ok, size_of, new_hdr, break_total, sub64, break_take, break_malloc,
}
use dthread.Shm.Break.Blocks.{BreakInv, Headed-above}

total_bounds :
    (size : ℕ) (b : Brk)
    → b.hdrlen ≡ 16
    → size + 32 ≤ word
    → (size + 16 ≤ break_total size b) × (break_total size b < size + 32)
total_bounds size b h l = ground arith

new_hdr-size_of : (size : ℕ) → size < word → size_of (new_hdr size) ≡ size
new_hdr-size_of size l = ground arith

pub sub64_le : (x y : ℕ) → y ≤ x → x < word → sub64 x y ≡ x - y
sub64_le x y h l = ground arith

write_hdr_self : (o x : ℕ) (h : Hdr) (hdrs : ℕ → Hdr) → x ≡ o → write_hdr o h hdrs x ≡ h
write_hdr_self o x h hdrs e = ground arith

module _ (mapping : ℕ) (arena : ShmRef) (b : Brk) (live : List ShmRef)
    (v : BreakInv arena b live) where
  take-BreakInv :
      (size : ℕ)
      → size + 32 ≤ word
      → suc (length live) < 2 ^ 31
      → break_total size b ≤ arena.dt_length - b.allocated
      → BreakInv arena
          (break_take mapping arena size b).1
          ((break_take mapping arena size b).0.1 ∷ live)
  unfolding break_take
  take-BreakInv size l few room =
      let (tl, th) = total_bounds size b v.header l in
      let start = arena.dt_offset + b.allocated in
      let h16 : start + b.hdrlen - 16 ≡ start = omega (arith, v.header) in
      let at = write_hdr_self start (start + b.hdrlen - 16) (new_hdr size) b.hdrs h16 in
      record {
        same_arena = v.same_arena;
        header = v.header;
        low = v.low;
        above = omega (arith, v.above);
        inside = omega (arith, v.inside);
        fits = v.fits;
        count = ground (arith, v.count, v.few);
        few = few;
        stacked = (omega (arith, v.above, v.header), omega (arith, v.header), rw h16 v.stacked);
        headed = (
          ap hdr_ok at,
          ap size_of at ∙ new_hdr-size_of size (omega (arith, l)),
          Headed-above b.min_uoffset start start (new_hdr size) b.hdrs live (omega arith) v.stacked
              v.headed,
        );
      }

  refuse :
      (size : ℕ)
      → leb (break_total size b) (sub64 b.self.dt_length b.allocated) ≡ false
      → break_malloc mapping arena size b ≡ (none, b)
  unfolding break_malloc
  refuse size full = ground (arith, full)

  granted :
      (size : ℕ)
      → leb (break_total size b) (sub64 b.self.dt_length b.allocated) ≡ true
      → break_malloc mapping arena size b
        ≡ (some (break_take mapping arena size b).0, (break_take mapping arena size b).1)
  unfolding break_malloc
  granted size room = ground (arith, room)

  grant :
      (size : ℕ)
      → leb (break_total size b) (sub64 b.self.dt_length b.allocated) ≡ true
      → BreakInv arena
          (break_take mapping arena size b).1
          ((break_take mapping arena size b).0.1 ∷ live)
      → (got : Got) × ((break_malloc mapping arena size b).0 ≡ some got)
        × (got.1.dt_length ≡ size)
        × (got.0 ≡ mapping + got.1.dt_offset)
        × BreakInv arena (break_malloc mapping arena size b).1 (got.1 ∷ live)
  unfolding break_take
  grant size room i =
      let e = granted size room in
      (
        (break_take mapping arena size b).0,
        ap (λ (x : Option Got × Brk). x.0) e,
        refl,
        omega arith,
        subst (λ x. BreakInv arena x ((break_take mapping arena size b).0.1 ∷ live))
            (sym (ap (λ (x : Option Got × Brk). x.1) e)) i,
      )

  -- `break_malloc` fails only if less is left than the size, a header and padding take, and then
  -- changes nothing. Otherwise the new block has the size asked for, lies behind all blocks that are
  -- in use and inside the arena, and nothing happens to the other blocks.
  pub break_malloc_lem :
      (size : ℕ)
      → size + 32 ≤ word
      → suc (length live) < 2 ^ 31
      → ((break_malloc mapping arena size b ≡ (none, b))
          × (arena.dt_length < b.allocated + size + 32))
        ⊎ ((got : Got) × ((break_malloc mapping arena size b).0 ≡ some got)
            × (got.1.dt_length ≡ size)
            × (got.0 ≡ mapping + got.1.dt_offset)
            × BreakInv arena (break_malloc mapping arena size b).1 (got.1 ∷ live))
  break_malloc_lem size l few =
      let (tl, th) = total_bounds size b v.header l in
      let sub = sub64_le arena.dt_length b.allocated v.inside (omega (arith, v.fits)) in
      let self : b.self.dt_length ≡ arena.dt_length =
        ap (λ (x : ShmRef). x.dt_length) v.same_arena in
      elim (Bool-cases (leb (break_total size b) (sub64 b.self.dt_length b.allocated))) [
        | inr full ↦ inl (refuse size full, ground (arith, full, self, sub, v.inside))
        | inl room ↦
            inr (grant size room (take-BreakInv size l few (ground (arith, room, self, sub))))
      ]
