-- ===== src/Manager/Pending/Keys.antt =====
-- The numbers of `get_free_seq` in libdthread/dt_mgrthread.c over all ranks.
use dthread.Base.{
  ℕ, zero, suc, ◌+◌, ◌*◌, ◌^◌, ◌<◌, ◌≡◌, ◌≢◌, ◌==◌, arith, ◌||◌, Bool-cases, length, sym, ap, ◌∙◌,
  inl, inr,
}
use native.Mathlib.Decide.{dec_lt}
use dthread.Types.Op
use dthread.Manager.State.{State}
use dthread.Manager.Pending.{next_seqsrc, free_seq_loop, get_free_seq, find_pending_req, is_none}

-- Rank `r` of `w` uses the numbers that leave `r` when divided by `w`.
abbrev pub OfRank : ℕ → ℕ → ℕ → Type 0
OfRank r w v = (k : ℕ) × (v ≡ r + k * w)

next_seqsrc-OfRank :
    (r w v : ℕ) → r + w < 2 ^ 32 → OfRank r w v → v < 2 ^ 32 → OfRank r w (next_seqsrc r w v)
next_seqsrc-OfRank r w v f (k, e) l = elim (dec_lt (v + w) (2 ^ 32)) [
  | yes h ↦ (suc k, ground arith)
  | no h ↦ (1, ground arith)
]

next_seqsrc-lt : (r w v : ℕ) → next_seqsrc r w v < 2 ^ 32
next_seqsrc-lt r w v = ground arith

-- What `seqsrc` satisfies from `dthread_init` on, where it is set to `mpi_rank + mpi_wsize`.
pub record SeqInv (s : State) : Type 0 where
  pub fits : s.mpi_rank + s.mpi_wsize < 2 ^ 32
  pub small : s.seqsrc < 2 ^ 32
  pub of_rank : OfRank s.mpi_rank s.mpi_wsize s.seqsrc

abbrev Both : State → ℕ × ℕ → Type 0
Both s (v, next) =
    OfRank s.mpi_rank s.mpi_wsize v × OfRank s.mpi_rank s.mpi_wsize next × (next < 2 ^ 32)

free_seq_loop-Both :
    (fuel op : ℕ) (s : State) (v : ℕ)
    → s.mpi_rank + s.mpi_wsize < 2 ^ 32
    → v < 2 ^ 32
    → OfRank s.mpi_rank s.mpi_wsize v
    → Both s (free_seq_loop fuel op s v)
unfolding free_seq_loop
free_seq_loop-Both zero op s v f l o =
    (o, next_seqsrc-OfRank s.mpi_rank s.mpi_wsize v f o l, next_seqsrc-lt s.mpi_rank s.mpi_wsize v)
free_seq_loop-Both (suc fuel) op s v f l o =
    let o' = next_seqsrc-OfRank s.mpi_rank s.mpi_wsize v f o l in
    let l' = next_seqsrc-lt s.mpi_rank s.mpi_wsize v in
    elim (Bool-cases (op == Op.none || is_none (find_pending_req op v s))) [
      | inl e ↦ rw e (o, o', l')
      | inr e ↦ rw e (free_seq_loop-Both fuel op s (next_seqsrc s.mpi_rank s.mpi_wsize v) f l' o')
    ]

-- `get_free_seq` draws a number of its rank, and `seqsrc` stays one.
pub get_free_seq-SeqInv :
    (op : ℕ) (s : State)
    → SeqInv s
    → OfRank s.mpi_rank s.mpi_wsize (get_free_seq op s).0 × SeqInv (get_free_seq op s).1
unfolding get_free_seq
get_free_seq-SeqInv op s v =
    let b = free_seq_loop-Both (suc (length s.rpending)) op s s.seqsrc v.fits v.small v.of_rank in
    (b.0, record { fits = v.fits; small = b.2; of_rank = b.1 })

residue_unique : (r r' w k j : ℕ) → r < w → r' < w → r + k * w ≡ r' + j * w → r ≡ r'
residue_unique r r' w zero zero h h' e = omega arith
residue_unique r r' w zero (suc j) h h' e = absurd (omega arith)
residue_unique r r' w (suc k) zero h h' e = absurd (omega arith)
residue_unique r r' w (suc k) (suc j) h h' e = residue_unique r r' w k j h h' (omega arith)

-- Numbers that two different ranks of one job draw never coincide, however often each has drawn.
pub get_free_seq-ne :
    (op op' : ℕ) (s t : State)
    → SeqInv s
    → SeqInv t
    → s.mpi_wsize ≡ t.mpi_wsize
    → s.mpi_rank < s.mpi_wsize
    → t.mpi_rank < t.mpi_wsize
    → s.mpi_rank ≢ t.mpi_rank
    → (get_free_seq op s).0 ≢ (get_free_seq op' t).0
get_free_seq-ne op op' s t v v' w h h' ne e =
    let (k, p) = (get_free_seq-SeqInv op s v).0 in
    let (j, q) = (get_free_seq-SeqInv op' t v').0 in
    ne (
      residue_unique s.mpi_rank t.mpi_rank s.mpi_wsize k j h (rw w h')
        (sym p ∙ e ∙ q ∙ ap (λ x. t.mpi_rank + j * x) (sym w)))
