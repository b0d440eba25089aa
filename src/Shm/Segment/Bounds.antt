-- ===== src/Shm/Segment/Bounds.antt =====
-- What the segment allocator of libdthread/dt_segops.c hands out.
use dthread.Base.{
  ℕ, ◌+◌, ◌-◌, ◌%◌, ◌^◌, ◌≤◌, ◌<◌, ◌≡◌, ◌⊎◌, inl, inr, refl, true, ◌||◌, Option, none, some, List,
  ◌==◌, ltb, leb, length, arith, ap, sym, subst, get_or-set_self, length-set, Bool-cases,
}
use dthread.Shm.{ShmRef}
use dthread.Shm.Segment.{
  Seg, no_seg, align, total_of, good_magic, Got, seg_take, seg_alloc, seg_at, shmseg_alloc,
  segavail,
}

-- What holds of a segment that `establish` has set up: the space that is left lies in the segment,
-- and starts at an aligned offset as long as there is any.
pub record SegInv (g : Seg) : Type 0 where
  pub in_order : g.md.first_avail ≤ g.md.end_avail
  pub in_segment : g.md.end_avail ≤ g.size
  pub fits : g.size < 2 ^ 64
  pub aligned : g.md.first_avail < g.md.end_avail → g.md.first_avail % align ≡ 0

-- An allocation is what was left at the front, is large enough, and starts at an aligned offset; the
-- rest of the segment starts right behind it.
pub record Fresh (shmid want : ℕ) (g g' : Seg) (got : Got) : Type 0 where
  pub pointer : got.0 ≡ g.mapping + got.1.dt_offset
  pub segment : got.1.dt_shmid ≡ shmid
  pub front : got.1.dt_offset ≡ g.md.first_avail
  pub aligned : got.1.dt_offset % align ≡ 0
  pub enough : want ≤ got.1.dt_length
  pub behind : g'.md.first_avail ≡ got.1.dt_offset + got.1.dt_length
  pub inside : got.1.dt_offset + got.1.dt_length ≤ g.md.end_avail
  pub same_end : g'.md.end_avail ≡ g.md.end_avail

total_of-fits :
    (want : ℕ) → want + align ≤ 2 ^ 64 → (want ≤ total_of want) × (total_of want % align ≡ 0)
total_of-fits want h = ground arith

mod_add_aligned : (a b : ℕ) → a % align ≡ 0 → b % align ≡ 0 → (a + b) % align ≡ 0
mod_add_aligned a b h k = ground arith

seg_take-Fresh :
    (shmid total want : ℕ) (g : Seg)
    → SegInv g
    → g.md.first_avail < g.md.end_avail
    → want ≤ total
    → total ≤ g.md.end_avail - g.md.first_avail
    → Fresh shmid want g (seg_take shmid total g).1 (seg_take shmid total g).0
unfolding seg_take
seg_take-Fresh shmid total want g v room w t = record {
  pointer = refl;
  segment = refl;
  front = refl;
  aligned = v.aligned room;
  enough = w;
  behind = refl;
  inside = omega arith;
  same_end = refl;
}

seg_take-SegInv :
    (shmid total : ℕ) (g : Seg)
    → SegInv g
    → g.md.first_avail < g.md.end_avail
    → total ≤ g.md.end_avail - g.md.first_avail
    → (total % align ≡ 0) ⊎ (total ≡ g.md.end_avail - g.md.first_avail)
    → SegInv (seg_take shmid total g).1
unfolding seg_take
seg_take-SegInv shmid total g v room t a = record {
  in_order = omega (arith, v.in_order);
  in_segment = v.in_segment;
  fits = v.fits;
  aligned = λ h. ground (arith, mod_add_aligned g.md.first_avail total, v.aligned room);
}

abbrev Granted : ℕ → ℕ → Seg → Type 0
Granted shmid want g =
    (got : Got) × ((seg_alloc shmid want g).0 ≡ some got)
    × Fresh shmid want g (seg_alloc shmid want g).1 got
    × SegInv (seg_alloc shmid want g).1

granted :
    (shmid total want : ℕ) (g : Seg)
    → seg_alloc shmid want g ≡ (some (seg_take shmid total g).0, (seg_take shmid total g).1)
    → SegInv g
    → g.md.first_avail < g.md.end_avail
    → want ≤ total
    → total ≤ g.md.end_avail - g.md.first_avail
    → (total % align ≡ 0) ⊎ (total ≡ g.md.end_avail - g.md.first_avail)
    → Granted shmid want g
granted shmid total want g e v room w t a =
    let got = (seg_take shmid total g).0 in
    let e' : (seg_take shmid total g).1 ≡ (seg_alloc shmid want g).1 =
      sym (ap (λ (x : Option Got × Seg). x.1) e) in
    (
      got,
      ap (λ (x : Option Got × Seg). x.0) e,
      subst (λ x. Fresh shmid want g x got) e' (seg_take-Fresh shmid total want g v room w t),
      subst SegInv e' (seg_take-SegInv shmid total g v room t a),
    )

-- On a well-formed segment a request for up to 2^64 - 16 bytes either fails and changes nothing,
-- which it does only if too little is left, or it is given fresh space at the front of what was
-- left, aligned and large enough, inside the segment. The segment stays well-formed.
pub seg_alloc_lem :
    (shmid want : ℕ) (g : Seg)
    → SegInv g
    → want + align ≤ 2 ^ 64
    → ((seg_alloc shmid want g ≡ (none, g)) × (g.md.end_avail - g.md.first_avail < want + align))
      ⊎ ((got : Got) × ((seg_alloc shmid want g).0 ≡ some got)
          × Fresh shmid want g (seg_alloc shmid want g).1 got
          × SegInv (seg_alloc shmid want g).1)
unfolding seg_alloc
seg_alloc_lem shmid want g v h =
    let (tw, ta) = total_of-fits want h in
    let room = g.md.end_avail - g.md.first_avail in
    elim (Bool-cases (leb g.size g.md.first_avail || leb g.md.end_avail g.md.first_avail)) [
      | inl full ↦ inl (ground (arith, full), ground (arith, full, v.in_order, v.in_segment))
      | inr some_left ↦ elim (Bool-cases (total_of want == 0)) [
        | inl rest ↦ inr (
            granted shmid room want g (ground (arith, some_left, rest)) v
              (ground (arith, some_left)) (ground (arith, rest, tw)) (omega arith) (inr refl))
        | inr part ↦ elim (Bool-cases (ltb room (total_of want))) [
          | inl small ↦ inl (ground (arith, some_left, part, small), ground arith)
          | inr ok ↦ inr (
              granted shmid (total_of want) want g (ground (arith, some_left, part, ok)) v
                (ground (arith, some_left)) tw (ground (arith, ok)) (inl ta))
        ]
      ]
    ]

-- A request for more than 2^64 - 16 bytes, as one that is computed from a negative number is, is
-- taken for a request for the rest of the segment.
pub seg_alloc-wrap :
    (shmid want : ℕ) (g : Seg)
    → 2 ^ 64 < want + align
    → want < 2 ^ 64
    → seg_alloc shmid want g ≡ seg_alloc shmid 0 g
unfolding seg_alloc
seg_alloc-wrap shmid want g h l = let e : total_of want ≡ 0 = ground arith in ground (arith, e)

-- `dthread_shm_segavail` and `dthread_shmseg_alloc` agree: on a segment that is well-formed and not
-- full, a request for the rest is given what was said to be left, and then nothing is.
pub segavail-shmseg_alloc :
    (shmid : ℕ) (segs : List Seg)
    → SegInv (seg_at segs shmid)
    → shmid < length segs
    → good_magic (seg_at segs shmid) ≡ true
    → (seg_at segs shmid).md.first_avail < (seg_at segs shmid).md.end_avail
    → (p : ℕ) × (ref : ShmRef) × (segavail shmid segs ≡ some ref)
      × ((shmseg_alloc shmid 0 true segs).0 ≡ some (p, ref))
      × (segavail shmid (shmseg_alloc shmid 0 true segs).1
          ≡ some (record ref { dt_offset = ref.dt_offset + ref.dt_length; dt_length = 0 }))
unfolding segavail shmseg_alloc seg_alloc seg_take
segavail-shmseg_alloc shmid segs v l m r =
    let g = seg_at segs shmid in
    let ref : ShmRef = record {
      dt_shmid = shmid;
      dt_offset = g.md.first_avail;
      dt_length = g.md.end_avail - g.md.first_avail;
    } in
    let after : Seg = record g {
      md = record (g.md) { first_avail = g.md.first_avail + (g.md.end_avail - g.md.first_avail) };
    } in
    (
      g.mapping + g.md.first_avail,
      ref,
      ground (arith, m),
      ground (arith, m, v.in_segment),
      ground (
        arith,
        m,
        v.in_segment,
        v.in_order,
        get_or-set_self segs shmid after no_seg l,
        length-set segs shmid after,
      ),
    )
