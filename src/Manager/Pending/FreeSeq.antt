-- ===== src/Manager/Pending/FreeSeq.antt =====
-- `get_free_seq` of libdthread/dt_mgrthread.c: its loop ends, with a number that is not in use.
use dthread.Base.{
  ℕ, zero, suc, ◌+◌, ◌*◌, ◌^◌, ◌≤◌, ◌<◌, ◌≡◌, refl, ◌≢◌, ap, ◌⊎◌, inl, inr, Bool, true, false, not,
  none, List, [], ◌∷◌, ◌==◌, length, arith, Bool-cases, if◌then◌else◌,
}
use dthread.Types.{ReqRef}
use dthread.Types.Op
use dthread.Manager.State.{State, Ltab, req_of}
use dthread.Manager.Pending.{
  take_first, has_key, is_none, find_pending_req, next_seqsrc, free_seq_loop, get_free_seq,
}

abbrev word : ℕ
word = 2 ^ 32

-- The numbers that the loop tries, from `v` on.
seq_at : ℕ → ℕ → ℕ → ℕ → ℕ
seq_at r w v zero = v
seq_at r w v (suc i) = next_seqsrc r w (seq_at r w v i)

module _ (r w v0 : ℕ) (fits : r + w < word) (v0_word : v0 < word) where
  -- Either no wrap so far, or one.
  abbrev Tried : ℕ → ℕ → Type 0
  Tried i v = (v < word) × ((v ≡ v0 + i * w) ⊎ (v + word ≤ v0 + r + w + i * w))

  next-Tried : (i v : ℕ) → Tried i v → Tried (suc i) (next_seqsrc r w v)
  next-Tried i v t = ground arith

  seq_at-Tried : (i : ℕ) → Tried i (seq_at r w v0 i)
  unfolding seq_at
  seq_at-Tried zero = (v0_word, inl (omega arith))
  seq_at-Tried (suc i) = next-Tried i (seq_at r w v0 i) (seq_at-Tried i)

  -- As long as one round of the numbers is longer, the loop does not come back to the first.
  seq_at-ne : (i : ℕ) → 0 < w → r + w + suc i * w < word → seq_at r w v0 (suc i) ≢ v0
  seq_at-ne i h l e = ground (arith, seq_at-Tried (suc i))

seq_at-next : (r w v i : ℕ) → seq_at r w (next_seqsrc r w v) i ≡ seq_at r w v (suc i)
unfolding seq_at
seq_at-next r w v zero = refl
seq_at-next r w v (suc i) = ap (next_seqsrc r w) (seq_at-next r w v i)

abbrev Elem : ℕ → List ℕ → Type 0
Elem v [] = ⊥
Elem v (k ∷ ks) = (v ≡ k) ⊎ Elem v ks

remove : ℕ → List ℕ → List ℕ
remove v [] = []
remove v (k ∷ ks) = if v == k then remove v ks else k ∷ remove v ks

length-remove-le : (v : ℕ) (ks : List ℕ) → length (remove v ks) ≤ length ks
unfolding remove
length-remove-le v [] = omega arith
length-remove-le v (k ∷ ks) = ground (arith, length-remove-le v ks)

length-remove : (v : ℕ) (ks : List ℕ) → Elem v ks → length (remove v ks) < length ks
unfolding remove
length-remove v [] e = absurd e
length-remove v (k ∷ ks) e = ground (arith, length-remove v ks, length-remove-le v ks)

Elem-remove : (u v : ℕ) (ks : List ℕ) → u ≢ v → Elem u ks → Elem u (remove v ks)
unfolding remove
Elem-remove u v [] ne e = e
Elem-remove u v (k ∷ ks) ne (inl e) = ground arith
Elem-remove u v (k ∷ ks) ne (inr e) = ground (arith, Elem-remove u v ks ne e)

keys : List Ltab → List ReqRef → List ℕ
keys ltab [] = []
keys ltab (r ∷ rs) = (req_of ltab r).xidseq ∷ keys ltab rs

length-keys : (ltab : List Ltab) (rs : List ReqRef) → length (keys ltab rs) ≡ length rs
unfolding keys
length-keys ltab [] = refl
length-keys ltab (r ∷ rs) = ap suc (length-keys ltab rs)

Elem-keys :
    (ltab : List Ltab) (op v : ℕ) (rs : List ReqRef)
    → is_none (take_first (has_key ltab op v) rs) ≡ false
    → Elem v (keys ltab rs)
unfolding keys take_first
Elem-keys ltab op v [] e = cc
Elem-keys ltab op v (r ∷ rs) e = ground (arith, Elem-keys ltab op v rs)

module _ (op : ℕ) (s : State) (is_op : op ≢ Op.none) (ranks : 0 < s.mpi_wsize) where
  -- The number is the key of a pending request.
  abbrev taken : ℕ → Bool
  taken v = not (is_none (find_pending_req op v s))

  abbrev try : ℕ → ℕ → ℕ
  try v i = seq_at s.mpi_rank s.mpi_wsize v i

  -- Past the first number, the keys without it still serve.
  rest :
      (fuel v : ℕ) (ks : List ℕ)
      → s.mpi_rank + s.mpi_wsize + suc fuel * s.mpi_wsize < word
      → v < word
      → ((i : ℕ) → i < suc fuel → taken (try v i) ≡ true → Elem (try v i) ks)
      → (i : ℕ) → i < fuel
      → taken (try (next_seqsrc s.mpi_rank s.mpi_wsize v) i) ≡ true
      → Elem (try (next_seqsrc s.mpi_rank s.mpi_wsize v) i) (remove v ks)
  rest fuel v ks l vw h i li t =
      let e = seq_at-next s.mpi_rank s.mpi_wsize v i in
      rw e (
        Elem-remove (try v (suc i)) v ks
          (seq_at-ne s.mpi_rank s.mpi_wsize v (omega arith) vw i ranks (grind arith))
          (h (suc i) (omega arith) (rw e at t)))

  -- Each number that is in the way uses up one of the keys `ks`.
  free_seq_loop-free :
      (fuel v : ℕ) (ks : List ℕ)
      → s.mpi_rank + s.mpi_wsize + fuel * s.mpi_wsize < word
      → v < word
      → ((i : ℕ) → i < fuel → taken (try v i) ≡ true → Elem (try v i) ks)
      → length ks < fuel
      → taken (free_seq_loop fuel op s v).0 ≡ false
  unfolding free_seq_loop seq_at
  free_seq_loop-free zero v ks l vw h k = absurd (omega arith)
  free_seq_loop-free (suc fuel) v ks l vw h k = elim (Bool-cases (taken v)) [
    | inl e ↦ ground (
      arith,
      free_seq_loop-free fuel (next_seqsrc s.mpi_rank s.mpi_wsize v) (remove v ks) (omega arith)
          (next-Tried s.mpi_rank s.mpi_wsize v (ground arith) vw 0 v (vw, inl (omega arith))).0
          (rest fuel v ks l vw h) (ground (arith, length-remove v ks (h 0 (omega arith) e))),
    )
    | inr e ↦ ground arith
  ]

taken-keys :
    (op : ℕ) (s : State) (i : ℕ)
    → i < suc (length s.rpending)
    → not (is_none (find_pending_req op (seq_at s.mpi_rank s.mpi_wsize s.seqsrc i) s)) ≡ true
    → Elem (seq_at s.mpi_rank s.mpi_wsize s.seqsrc i) (keys s.ltab s.rpending)
unfolding find_pending_req
taken-keys op s i li t =
    Elem-keys s.ltab op (seq_at s.mpi_rank s.mpi_wsize s.seqsrc i) s.rpending (ground arith)

-- `get_free_seq` ends with a number that no pending request of the operation has: one more try than
-- there are pending requests is enough, as long as that many numbers of the rank fit into 32 bits.
pub get_free_seq-free :
    (op : ℕ) (s : State)
    → op ≢ Op.none
    → 0 < s.mpi_wsize
    → s.seqsrc < 2 ^ 32
    → s.mpi_rank + s.mpi_wsize + suc (length s.rpending) * s.mpi_wsize < 2 ^ 32
    → find_pending_req op (get_free_seq op s).0 s ≡ none
unfolding get_free_seq
get_free_seq-free op s ne w v l = ground (
  arith,
  free_seq_loop-free op s ne w (suc (length s.rpending)) s.seqsrc (keys s.ltab s.rpending) l v
      (taken-keys op s) (omega (arith, length-keys s.ltab s.rpending)),
)
