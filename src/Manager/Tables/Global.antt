-- ===== src/Manager/Tables/Global.antt =====
-- `gtab_alloc` and `gtab_free` of libdthread/dt_mgrthread.c: which slot they take or give back, and
-- that `threads_alloc` stays the number of slots in use.
use dthread.Base.{
  ℕ, ◌+◌, ◌<◌, ◌≡◌, refl, ◌∙◌, ap, ◌≢◌, ◌⊎◌, inl, inr, Bool, true, false, none, some, List, leb,
  arith, Bool-cases, length, get_or, set, length-set, get_or-set_self, get_or-set_ne, one_if,
  count_if, count_if-le, count_if-set, count_if-free, count_if-set_same, get_or-of_length_le,
  dec_lt, sym,
}
use dthread.Types.{Argret}
use dthread.Types.Op
use dthread.Manager.State.{State, Gtab, gtab_at, gtab_zero}
use dthread.Manager.Pending.{get_free_seq}
use dthread.Manager.Tables.{gtab_used, gtab_init, gtab_take, gtab_alloc, gtab_give, gtab_free}
use dthread.Manager.Tables.Search.{scan-free, scan-total}

abbrev pub is_allocated : Gtab → Bool
is_allocated g = g.allocated

-- The table has its size, `alloc` counts its slots in use, and `last` is a slot.
pub record Counted (nmax : ℕ) (gtab : List Gtab) (alloc last : ℕ) : Type 0 where
  pub size : length gtab ≡ nmax
  pub counted : alloc ≡ count_if is_allocated gtab
  pub last_in : last < nmax

-- What holds of the global table on rank 0.
abbrev pub GtabInv : State → Type 0
GtabInv s = Counted s.nmaxthread s.gtab s.threads_alloc s.last_slot

-- The table has a new thread in the slot `p`, which was free, and is otherwise as it was.
pub record Allocated (rank disp : ℕ) (arg : Argret) (s t : State) (p : ℕ) : Type 0 where
  pub in_range : p < s.nmaxthread
  pub was_free : (gtab_at s p).allocated ≡ false
  pub entry : gtab_at t p ≡ gtab_init rank disp arg (get_free_seq Op.none s).0 (gtab_at s p)
  pub others : (j : ℕ) → p ≢ j → gtab_at t j ≡ gtab_at s j
  pub inv : GtabInv t

module _ (rank disp : ℕ) (arg : Argret) (s : State) (v : GtabInv s) where
  gtab_take-Allocated :
      (p : ℕ)
      → p < s.nmaxthread
      → (gtab_at s p).allocated ≡ false
      → Allocated rank disp arg s (gtab_take rank disp arg p s) p
  unfolding gtab_take get_free_seq
  gtab_take-Allocated p h f =
      let g = gtab_init rank disp arg (get_free_seq Op.none s).0 (gtab_at s p) in
      let small : p < length s.gtab = omega (arith, v.size) in
      record {
        in_range = h;
        was_free = f;
        entry = get_or-set_self s.gtab p _ gtab_zero small;
        others = λ j ne. get_or-set_ne s.gtab p j _ gtab_zero ne;
        inv = record {
          size = length-set s.gtab p _ ∙ v.size;
          counted = ground (arith, count_if-set is_allocated s.gtab p g gtab_zero small);
          last_in = h;
        };
      }

  -- `gtab_alloc` fails exactly when `nmaxthread` threads exist, and then changes nothing.
  -- Otherwise it sets up a slot that was free.
  pub gtab_alloc_lem :
      ((s.threads_alloc ≡ s.nmaxthread) × (gtab_alloc rank disp arg s ≡ (none, s)))
      ⊎ ((p : ℕ) × ((gtab_alloc rank disp arg s).0 ≡ some p)
          × Allocated rank disp arg s (gtab_alloc rank disp arg s).1 p)
  unfolding gtab_alloc
  gtab_alloc_lem = elim (Bool-cases (leb s.nmaxthread s.threads_alloc)) [
    | inl full ↦ inl (ground (arith, count_if-le is_allocated s.gtab, v.size), rw full)
    | inr room ↦
        let (x, hx, fx) = count_if-free is_allocated s.gtab gtab_zero (ground (arith, v.size)) in
        let (p, e) =
          scan-total (gtab_used s) s.nmaxthread s.last_slot x v.last_in (ground (arith, v.size))
            fx in
        let (hp, fp) =
          scan-free (gtab_used s) s.nmaxthread s.last_slot s.nmaxthread s.last_slot p v.last_in e in
        inr (p, rw (room, e) refl, rw (room, e) (gtab_take-Allocated p hp fp))
  ]

-- The slot `p` is free, and the table is otherwise as it was.
pub record Freed (s t : State) (p : ℕ) : Type 0 where
  pub free : (gtab_at t p).allocated ≡ false
  pub others : (j : ℕ) → p ≢ j → gtab_at t j ≡ gtab_at s j
  pub fewer : t.threads_alloc + one_if (gtab_at s p).allocated ≡ s.threads_alloc
  pub inv : GtabInv t

module _ (p : ℕ) (s : State) (v : GtabInv s) (h : p < s.nmaxthread) where
  gtab_give-Freed : (gtab_at s p).allocated ≡ true → Freed s (gtab_give p s) p
  unfolding gtab_give
  gtab_give-Freed e =
      let g = record (gtab_at s p) { allocated = false; seq = 0; has_ltab = false } in
      let small : p < length s.gtab = omega (arith, v.size) in
      let count = count_if-set is_allocated s.gtab p g gtab_zero small in
      record {
        free = ap is_allocated (get_or-set_self s.gtab p g gtab_zero small);
        others = λ j ne. get_or-set_ne s.gtab p j g gtab_zero ne;
        fewer = ground (arith, count, v.counted);
        inv = record {
          size = length-set s.gtab p _ ∙ v.size;
          counted = ground (arith, count, v.counted);
          last_in = v.last_in;
        };
      }

  -- `gtab_free` makes a slot free and touches no other; `threads_alloc` falls by one if the slot was
  -- in use.
  pub gtab_free-Freed : Freed s (gtab_free p s) p
  unfolding gtab_free
  gtab_free-Freed = elim (Bool-cases (gtab_at s p).allocated) [
    | inl e ↦ rw e (gtab_give-Freed e)
    | inr e ↦ rw e (record { free = e; others = λ j ne. refl; fewer = ground arith; inv = v })
  ]

-- A write that leaves `allocated` as it is keeps the counts.
pub set-Counted :
    {nmax alloc last : ℕ} (gtab : List Gtab) (i : ℕ) (g : Gtab)
    → Counted nmax gtab alloc last
    → g.allocated ≡ (get_or gtab i gtab_zero).allocated
    → Counted nmax (set gtab i g) alloc last
set-Counted gtab i g v e = record {
  size = length-set gtab i g ∙ v.size;
  counted = v.counted ∙ sym (count_if-set_same is_allocated gtab i g gtab_zero e);
  last_in = v.last_in;
}

-- `gtab_free` keeps the counts at any index: out of range it does nothing.
pub gtab_free-GtabInv : (p : ℕ) (s : State) → GtabInv s → GtabInv (gtab_free p s)
unfolding gtab_free
gtab_free-GtabInv p s v = elim (dec_lt p s.nmaxthread) [
  | yes h ↦ (gtab_free-Freed p s v h).inv
  | no h ↦
      let e = get_or-of_length_le s.gtab p gtab_zero (omega (arith, v.size)) in
      rw (ap is_allocated e) v
]

pub gtab_alloc-GtabInv :
    (rank disp : ℕ) (arg : Argret) (s : State) → GtabInv s → GtabInv (gtab_alloc rank disp arg s).1
gtab_alloc-GtabInv rank disp arg s v = elim (gtab_alloc_lem rank disp arg s v) [
  | inl (full, e) ↦ rw e v
  | inr (p, e, a) ↦ a.inv
]
