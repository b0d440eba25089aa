-- ===== src/Manager/Tables/Search.antt =====
-- The circular search of `gtab_alloc` and `ltab_alloc` in libdthread/dt_mgrthread.c.
use dthread.Base.{
  ℕ, zero, suc, ◌+◌, ◌-◌, ◌≤◌, ◌<◌, ◌≡◌, refl, ◌⊎◌, inr, Bool, true, false, Option, none, some,
  if◌then◌else◌, ltb, arith,
}
use dthread.Manager.Tables.{scan, next_slot}

module _ (used : ℕ → Bool) (nmax last : ℕ) where
  -- What the search finds is a slot of the table that is not in use.
  pub scan-free :
      (fuel p q : ℕ)
      → p < nmax
      → scan used nmax last fuel p ≡ some q
      → (q < nmax) × (used q ≡ false)
  unfolding scan
  scan-free zero p q h e = ground arith
  scan-free (suc fuel) p q h e = ground (arith, scan-free fuel (next_slot nmax p) q)

  -- The slots that are still to be visited after `p`.
  abbrev InArc : ℕ → ℕ → Type 0
  InArc p x = ((p < last) × (p < x) × (x ≤ last)) ⊎ ((last ≤ p) × ((x ≤ last) ⊎ (p < x)))

  abbrev arc_length : ℕ → ℕ
  arc_length p = if ltb p last then last - p else last + nmax - p

  -- A search that gives up has seen every slot of its arc in use.
  scan-none :
      (fuel p x : ℕ)
      → p < nmax
      → last < nmax
      → x < nmax
      → arc_length p ≤ fuel
      → scan used nmax last fuel p ≡ none
      → InArc p x
      → used x ≡ true
  unfolding scan
  scan-none zero p x hp hl hx hf e a = ground arith
  scan-none (suc fuel) p x hp hl hx hf e a = ground (arith, scan-none fuel (next_slot nmax p) x)

  -- The search from the last slot finds a slot whenever there is one that is not in use.
  pub scan-total :
      (x : ℕ)
      → last < nmax
      → x < nmax
      → used x ≡ false
      → (q : ℕ) × (scan used nmax last nmax last ≡ some q)
  scan-total x hl hx hu = found (scan used nmax last nmax last) (λ e. seen e)
    where
      seen : scan used nmax last nmax last ≡ none → used x ≡ true
      seen e = scan-none nmax last x hl hl hx (ground arith) e (inr (omega arith, ground arith))

      found : (o : Option ℕ) → (o ≡ none → used x ≡ true) → (q : ℕ) × (o ≡ some q)
      found none g = ground (arith, g refl)
      found (some q) g = (q, refl)
