-- ===== src/Manager/Tables/Local.antt =====
-- `ltab_alloc` and `ltab_free` of libdthread/dt_mgrthread.c: which slot they take or give back, and
-- that `ltab_alloc` stays the number of slots in use.
use dthread.Base.{
  ℕ, ◌+◌, ◌<◌, ◌≡◌, refl, ◌∙◌, ap, ◌≢◌, ◌⊎◌, inl, inr, Bool, true, false, not, none, some, List,
  ◌==◌, leb, arith, Bool-cases, length, get_or, set, length-set, get_or-set_self, get_or-set_ne,
  one_if, count_if, count_if-le, count_if-set, count_if-free, count_if-zero, count_if-set_same,
  get_or-of_length_le, dec_lt, sym,
}
use dthread.Types.{DThread}
use dthread.Manager.State.{State, Ltab, ltab_at, ltab_zero, lt_none, lt_starting}
use dthread.Manager.Tables.{ltab_used, ltab_take, ltab_slot, ltab_alloc, ltab_give, ltab_free}
use dthread.Manager.Tables.Search.{scan-free, scan-total}

abbrev pub in_use : Ltab → Bool
in_use l = not (l.pth_state == lt_none)

-- The table has its size, `alloc` counts its slots in use, and `last` is a slot.
pub record Counted (nmax : ℕ) (ltab : List Ltab) (alloc last : ℕ) : Type 0 where
  pub size : length ltab ≡ nmax
  pub counted : alloc ≡ count_if in_use ltab
  pub last_in : last < nmax

-- What holds of the local table.
abbrev pub LtabInv : State → Type 0
LtabInv s = Counted s.nmaxthread s.ltab s.ltab_alloc s.ltab_lastslot

-- The table has a starting thread in the slot `p`, which was free, and is otherwise as it was.
pub record Started (th : DThread) (s t : State) (p : ℕ) : Type 0 where
  pub in_range : p < s.nmaxthread
  pub was_free : (ltab_at s p).pth_state ≡ lt_none
  pub entry :
      ltab_at t p
      ≡ record (ltab_at s p) { gtab_idx = th.dt_index; seq = th.dt_seq; pth_state = lt_starting }
  pub others : (j : ℕ) → p ≢ j → ltab_at t j ≡ ltab_at s j
  pub inv : LtabInv t

module _ (th : DThread) (s : State) (v : LtabInv s) where
  ltab_take-Started :
      (p : ℕ) → p < s.nmaxthread → ltab_used s p ≡ false → Started th s (ltab_take th p s) p
  unfolding ltab_take
  ltab_take-Started p h f =
      let l = record (ltab_at s p) {
        gtab_idx = th.dt_index;
        seq = th.dt_seq;
        pth_state = lt_starting;
      } in
      let small : p < length s.ltab = omega (arith, v.size) in
      record {
        in_range = h;
        was_free = ground arith;
        entry = get_or-set_self s.ltab p l ltab_zero small;
        others = λ j ne. get_or-set_ne s.ltab p j l ltab_zero ne;
        inv = record {
          size = length-set s.ltab p l ∙ v.size;
          counted = ground (arith, count_if-set in_use s.ltab p l ltab_zero small, v.counted);
          last_in = h;
        };
      }

  ltab_slot-free :
      s.ltab_alloc < s.nmaxthread
      → (p : ℕ) × (ltab_slot s ≡ some p) × (p < s.nmaxthread) × (ltab_used s p ≡ false)
  unfolding ltab_slot
  ltab_slot-free room = elim (Bool-cases (s.ltab_alloc == 0)) [
    | inl e ↦ (
      0,
      rw e refl,
      ground arith,
      count_if-zero in_use s.ltab 0 ltab_zero (ground (arith, v.counted)) (ground (arith, v.size)),
    )
    | inr e ↦
        let (x, hx, fx) =
          count_if-free in_use s.ltab ltab_zero (ground (arith, v.size, v.counted)) in
        let (p, e') =
          scan-total (ltab_used s) s.nmaxthread s.ltab_lastslot x v.last_in (ground (arith, v.size))
            fx in
        let (hp, fp) =
          scan-free (ltab_used s) s.nmaxthread s.ltab_lastslot s.nmaxthread s.ltab_lastslot p
            v.last_in e' in
        (p, rw e e', hp, fp)
  ]

  -- `ltab_alloc` fails exactly when all slots are in use, and then changes nothing. Otherwise it
  -- sets up a slot that was free.
  pub ltab_alloc_lem :
      ((s.ltab_alloc ≡ s.nmaxthread) × (ltab_alloc th s ≡ (none, s)))
      ⊎ ((p : ℕ) × ((ltab_alloc th s).0 ≡ some p) × Started th s (ltab_alloc th s).1 p)
  unfolding ltab_alloc
  ltab_alloc_lem = elim (Bool-cases (leb s.nmaxthread s.ltab_alloc)) [
    | inl full ↦ inl (ground (arith, count_if-le in_use s.ltab, v.size, v.counted), rw full)
    | inr room ↦
        let (p, e, hp, fp) = ltab_slot-free (ground arith) in
        inr (p, rw (room, e) refl, rw (room, e) (ltab_take-Started p hp fp))
  ]

-- The slot `p` is free, and the table is otherwise as it was.
pub record Ended (s t : State) (p : ℕ) : Type 0 where
  pub free : (ltab_at t p).pth_state ≡ lt_none
  pub others : (j : ℕ) → p ≢ j → ltab_at t j ≡ ltab_at s j
  pub fewer : t.ltab_alloc + one_if (ltab_used s p) ≡ s.ltab_alloc
  pub inv : LtabInv t

module _ (p : ℕ) (s : State) (v : LtabInv s) (h : p < s.nmaxthread) where
  ltab_give-Ended : ltab_used s p ≡ true → Ended s (ltab_give p s) p
  unfolding ltab_give
  ltab_give-Ended e =
      let l = record (ltab_at s p) { seq = 0; pth_state = lt_none } in
      let small : p < length s.ltab = omega (arith, v.size) in
      let count = count_if-set in_use s.ltab p l ltab_zero small in
      record {
        free = ap (λ (x : Ltab). x.pth_state) (get_or-set_self s.ltab p l ltab_zero small);
        others = λ j ne. get_or-set_ne s.ltab p j l ltab_zero ne;
        fewer = ground (arith, count, v.counted);
        inv = record {
          size = length-set s.ltab p l ∙ v.size;
          counted = ground (arith, count, v.counted);
          last_in = v.last_in;
        };
      }

  -- `ltab_free` makes a slot free and touches no other; `ltab_alloc` falls by one if the slot was in
  -- use.
  pub ltab_free-Ended : Ended s (ltab_free p s) p
  unfolding ltab_free
  ltab_free-Ended = elim (Bool-cases (ltab_used s p)) [
    | inl e ↦ rw e (ltab_give-Ended e)
    | inr e ↦
        rw e (record { free = ground arith; others = λ j ne. refl; fewer = ground arith; inv = v })
  ]

-- A write that leaves a slot in use, or free, keeps the counts.
pub set-Counted :
    {nmax alloc last : ℕ} (ltab : List Ltab) (i : ℕ) (l : Ltab)
    → Counted nmax ltab alloc last
    → in_use l ≡ in_use (get_or ltab i ltab_zero)
    → Counted nmax (set ltab i l) alloc last
set-Counted ltab i l v e = record {
  size = length-set ltab i l ∙ v.size;
  counted = v.counted ∙ sym (count_if-set_same in_use ltab i l ltab_zero e);
  last_in = v.last_in;
}

pub ltab_free-LtabInv : (p : ℕ) (s : State) → LtabInv s → LtabInv (ltab_free p s)
unfolding ltab_free
ltab_free-LtabInv p s v = elim (dec_lt p s.nmaxthread) [
  | yes h ↦ (ltab_free-Ended p s v h).inv
  | no h ↦
      let e = get_or-of_length_le s.ltab p ltab_zero (omega (arith, v.size)) in rw (ap in_use e) v
]

pub ltab_alloc-LtabInv : (t : DThread) (s : State) → LtabInv s → LtabInv (ltab_alloc t s).1
ltab_alloc-LtabInv t s v = elim (ltab_alloc_lem t s v) [
  | inl (full, e) ↦ rw e v
  | inr (p, e, a) ↦ a.inv
]
