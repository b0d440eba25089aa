-- ===== src/Manager/Tables.antt =====
-- The thread tables of libdthread/dt_mgrthread.c: `gtab_alloc`, `gtab_free`, `ltab_alloc` and
-- `ltab_free`, and `dthread_dt2gtab` of libdthread/dt_ops.c.
pub mod Search
pub mod Global
pub mod Local
use dthread.Base.{
  ℕ, zero, suc, ◌+◌, ◌-◌, Bool, true, false, not, ◌||◌, Option, none, some, if◌then◌else◌, ◌==◌,
  leb, set,
}
use dthread.Types.{DThread, Argret, argret_nodata}
use dthread.Types.Op
use dthread.Manager.State.{State, Gtab, gtab_at, ltab_at, set_argret_type, lt_none, lt_starting}
use dthread.Manager.Pending.{get_free_seq}

-- `p++; if (p >= nmaxthread) p = 0;`
abbrev pub next_slot : ℕ → ℕ → ℕ
next_slot nmax p = if leb nmax (p + 1) then 0 else p + 1

-- the search of `gtab_alloc` and `ltab_alloc`: the first slot after `p` that is not in use, up to
-- `last`. A full round takes as many steps as there are slots.
unfoldable pub scan : (ℕ → Bool) → ℕ → ℕ → ℕ → ℕ → Option ℕ
scan used nmax last zero p = none
scan used nmax last (suc fuel) p =
    let p' = next_slot nmax p in
    let again = scan used nmax last fuel p' in
    if not (used p') then some p' else if p' == last then none else again

abbrev pub gtab_used : State → ℕ → Bool
gtab_used s p = (gtab_at s p).allocated

-- the entry as `gtab_alloc` sets it up; `ltab_idx` stays
abbrev pub gtab_init : ℕ → ℕ → Argret → ℕ → Gtab → Gtab
gtab_init rank disp_idx arg seq gt = record gt {
  rank = rank;
  seq = seq;
  disp_idx = disp_idx;
  arg = arg;
  ret = set_argret_type argret_nodata gt.ret;
  detached = false;
  terminated = 0;
  has_ltab = false;
  allocated = true;
}

unfoldable pub gtab_take : ℕ → ℕ → Argret → ℕ → State → State
gtab_take rank disp_idx arg p s =
    let (seq, s') = get_free_seq Op.none s in
    record s' {
      gtab = set s'.gtab p (gtab_init rank disp_idx arg seq (gtab_at s' p));
      threads_alloc = s'.threads_alloc + 1;
      last_slot = p;
    }

-- `gtab_alloc`; `none` is -1.
unfoldable pub gtab_alloc : ℕ → ℕ → Argret → State → Option ℕ × State
unfolding gtab_take
gtab_alloc rank disp_idx arg s =
    if leb s.nmaxthread s.threads_alloc
    then (none, s)
    else elim (scan (gtab_used s) s.nmaxthread s.last_slot s.nmaxthread s.last_slot) [
      | none ↦ (none, s)
      | some p ↦ (some p, gtab_take rank disp_idx arg p s)
    ]

unfoldable pub gtab_give : ℕ → State → State
gtab_give gidx s = record s {
  gtab = set s.gtab gidx (record (gtab_at s gidx) { allocated = false; seq = 0; has_ltab = false });
  threads_alloc = s.threads_alloc - 1;
}

-- `gtab_free`
unfoldable pub gtab_free : ℕ → State → State
unfolding gtab_give
gtab_free gidx s = if (gtab_at s gidx).allocated then gtab_give gidx s else s

abbrev pub ltab_used : State → ℕ → Bool
ltab_used s p = not ((ltab_at s p).pth_state == lt_none)

ltab_take : DThread → ℕ → State → State
ltab_take t p s = record s {
  ltab =
      set s.ltab p
        (record (ltab_at s p) { gtab_idx = t.dt_index; seq = t.dt_seq; pth_state = lt_starting });
  ltab_alloc = s.ltab_alloc + 1;
  ltab_lastslot = p;
}

ltab_slot : State → Option ℕ
ltab_slot s =
    if s.ltab_alloc == 0
    then some 0
    else scan (ltab_used s) s.nmaxthread s.ltab_lastslot s.nmaxthread s.ltab_lastslot

-- `ltab_alloc`; `none` is -1.
unfoldable pub ltab_alloc : DThread → State → Option ℕ × State
unfolding ltab_take ltab_slot
ltab_alloc t s =
    if leb s.nmaxthread s.ltab_alloc
    then (none, s)
    else elim (ltab_slot s) [ none ↦ (none, s) | some p ↦ (some p, ltab_take t p s) ]

unfoldable pub ltab_give : ℕ → State → State
ltab_give lidx s = record s {
  ltab = set s.ltab lidx (record (ltab_at s lidx) { seq = 0; pth_state = lt_none });
  ltab_alloc = s.ltab_alloc - 1;
}

-- `ltab_free`
unfoldable pub ltab_free : ℕ → State → State
unfolding ltab_give
ltab_free lidx s = if ltab_used s lidx then ltab_give lidx s else s

-- `dthread_dt2gtab`: the slot of a valid handle. A `uint32_t` index is never negative.
unfoldable pub dt2gtab : DThread → State → Option ℕ
dt2gtab t s =
    if leb s.nmaxthread t.dt_index
    then none
    else if not (gtab_at s t.dt_index).allocated || not (t.dt_seq == (gtab_at s t.dt_index).seq)
    then none
    else some t.dt_index
