-- ===== src/Mpi/Shrink.antt =====
-- The slots of libdthread/dt_mpithread.c in use, and `mpimts_test` from where it fills the holes.
use dthread.Base.{
  ℕ, suc, ◌+◌, ◌-◌, ◌≤◌, ◌<◌, ◌≡◌, inr, refl, ap, sym, ◌∙◌, Bool, true, Option, some, List, ◌++◌,
  length, length-append, arith, dec_lt,
}
use mathlib.Core.List.{Permᴰ, append_assoc}
use mathlib.Core.List.Permᴰ
use dthread.Types.{Mqe}
use dthread.Mpi.{MpiMtsMgr, fill_loop, compact}
use dthread.Mpi.Slots.{Send, sends, Full, length-sends, sends-add, sends-agree}
use dthread.Mpi.Compact.{length-nil, Filled, fill_loop_lem}

-- the sends in flight
abbrev pub in_flight : MpiMtsMgr → List Send
in_flight mts = sends mts.nused 0 mts.mqes mts.reqs

pub length-Permᴰ : {l l' : List Send} → Permᴰ l l' → length l ≡ length l'
length-Permᴰ Permᴰ.nil = refl
length-Permᴰ (Permᴰ.cons e d) = ap suc (length-Permᴰ d)
length-Permᴰ (Permᴰ.swap e f) = refl
length-Permᴰ (Permᴰ.trans d e) = length-Permᴰ d ∙ length-Permᴰ e

-- Each slot in use holds an entry, and lies in the arrays.
pub record IsMts (mts : MpiMtsMgr) : Type 0 where
  pub some_slots : 0 < mts.nalloc
  pub fits : mts.nused ≤ mts.nalloc
  pub full : Full mts.nused 0 mts.mqes

module _ (got firsthole : ℕ) (mts : MpiMtsMgr) (rest : ℕ) (whole : got + rest ≡ mts.nused)
    (left : length (in_flight mts) ≡ rest)
    (low : (i : ℕ) → i < firsthole → i < mts.nused → (m : Mqe) × (mts.mqes i ≡ some m)) where
  rest_is : mts.nused - got ≡ rest
  rest_is = omega (arith, whole)

  -- the slots that stay, and those behind them
  parts : in_flight mts ≡ sends rest 0 mts.mqes mts.reqs ++ sends got rest mts.mqes mts.reqs
  parts =
      let e : 0 + rest ≡ rest = omega arith in
      sends-add mts.mqes mts.reqs rest got mts.nused 0 (omega (arith, whole))
      ∙ ap (λ x. sends rest 0 mts.mqes mts.reqs ++ sends got x mts.mqes mts.reqs) e

  abbrev pub filled : Bool × (ℕ → Option Mqe) × (ℕ → ℕ)
  filled =
      fill_loop (mts.nused - got - firsthole) mts.nused firsthole (mts.nused - got) mts.mqes
        mts.reqs

  abbrev pub Compacted : Type 0
  Compacted =
      (filled.0 ≡ true) × Permᴰ (sends (mts.nused - got) 0 filled.1 filled.2) (in_flight mts)

  lengths :
      length (sends rest 0 mts.mqes mts.reqs) + length (sends got rest mts.mqes mts.reqs) ≡ rest
  lengths =
      sym (length-append (sends rest 0 mts.mqes mts.reqs) (sends got rest mts.mqes mts.reqs))
      ∙ ap (λ (x : List Send). length x) (sym parts)
      ∙ left

  -- No hole is among the slots that stay.
  compacted-high : rest < firsthole → Compacted
  unfolding fill_loop
  compacted-high h =
      let n =
        length-sends mts.mqes mts.reqs rest 0
          (λ i l u. low i (omega arith) (omega (arith, whole))) in
      let tail = length-nil (sends got rest mts.mqes mts.reqs) (omega (arith, lengths, n)) in
      let z : mts.nused - got - firsthole ≡ 0 = omega (arith, rest_is) in
      (
        rw z refl,
        rw (z, rest_is, parts, tail)
            (Permᴰ.symm (Permᴰ.append-nil (sends rest 0 mts.mqes mts.reqs))),
      )

  module _ (h : firsthole ≤ rest) where
    abbrev k : ℕ
    k = rest - firsthole

    halves :
        (f : ℕ → Option Mqe) (r : ℕ → ℕ)
        → sends rest 0 f r ≡ sends firsthole 0 f r ++ sends k firsthole f r
    halves f r =
        let e : 0 + firsthole ≡ firsthole = omega arith in
        sends-add f r firsthole k rest 0 (omega (arith, h))
        ∙ ap (λ x. sends firsthole 0 f r ++ sends k x f r) e

    fills :
        Filled k firsthole mts.mqes mts.reqs
          (sends got rest mts.mqes mts.reqs)
          (fill_loop k mts.nused firsthole rest mts.mqes mts.reqs)
    fills =
        let n =
          length-sends mts.mqes mts.reqs firsthole 0
            (λ i l u. low i (omega arith) (omega (arith, whole, h))) in
        let m = ap (λ (x : List Send). length x) (halves mts.mqes mts.reqs) in
        let a =
          length-append (sends firsthole 0 mts.mqes mts.reqs)
            (sends k firsthole mts.mqes mts.reqs) in
        fill_loop_lem mts.nused k got firsthole rest mts.mqes mts.reqs (omega (arith, h))
          (omega (arith, whole)) (omega (arith, n, m, a, lengths))

    compacted-low : Compacted
    compacted-low =
        let w = fills in
        let res = fill_loop k mts.nused firsthole rest mts.mqes mts.reqs in
        let tail = sends got rest mts.mqes mts.reqs in
        let whole_parts =
          parts
          ∙ ap (λ x. x ++ tail) (halves mts.mqes mts.reqs)
          ∙ append_assoc (sends firsthole 0 mts.mqes mts.reqs) (sends k firsthole mts.mqes mts.reqs)
              tail in
        let same =
          sends-agree mts.mqes res.1 mts.reqs res.2 firsthole 0
            (λ i l u. let (a, b) = w.below i (omega arith) in (a, inr b)) in
        rw rest_is (
          w.ok,
          rw (halves res.1 res.2, same, whole_parts)
              (Permᴰ.append_left (sends firsthole 0 mts.mqes mts.reqs) w.moved),
        )

  pub compact_lem :
      let mts' = compact got firsthole mts in
      (mts'.nused ≡ rest) × (mts'.nalloc ≡ mts.nalloc) × Permᴰ (in_flight mts') (in_flight mts)
  unfolding compact
  compact_lem =
      let (ok, p) : Compacted = elim (dec_lt rest firsthole) [
        | yes high ↦ compacted-high high
        | no high ↦ compacted-low (omega arith)
      ] in
      rw ok (rest_is, refl, p)
