-- ===== src/Manager/Pending.antt =====
-- The pending list of libdthread/dt_mgrthread.c: `find_pending_req`, `get_free_seq`,
-- `find_pending_msgreq` and `joinwait_search`.
pub mod Search
pub mod FreeSeq
pub mod Keys
mod Tests
use dthread.Base.{
  ℕ, zero, suc, ◌+◌, ◌%◌, ◌^◌, Bool, true, false, ◌&&◌, ◌||◌, Option, none, some, List, [], ◌∷◌,
  if◌then◌else◌, ◌==◌, ltb, length,
}
use dthread.Types.{DThread, Mqe, ReqUnion, ReqRef, xidseq_of}
use dthread.Types.Op
use dthread.Types.SizeOf
use dthread.Manager.State.{State, Ltab, req_of}

abbrev pub skip {ℓ} : {A : Type ℓ} → A → Option (A × List A) → Option (A × List A)
skip x none = none
skip x (some (y, ys)) = some (y, x ∷ ys)

-- The first entry that passes the test, and the list without it.
unfoldable pub take_first {ℓ} : {A : Type ℓ} → (A → Bool) → List A → Option (A × List A)
take_first test [] = none
take_first test (x ∷ xs) = if test x then some (x, xs) else skip x (take_first test xs)

-- the key that `find_pending_req` compares
abbrev pub has_key : List Ltab → ℕ → ℕ → ReqRef → Bool
has_key ltab op seq r = (req_of ltab r).xidseq == seq && (req_of ltab r).reqop == op

-- `find_pending_req`; the list without the request is what TAILQ_REMOVE leaves.
unfoldable pub find_pending_req : ℕ → ℕ → State → Option (ReqRef × List ReqRef)
find_pending_req op seq s = take_first (has_key s.ltab op seq) s.rpending

-- a `uint32_t` sum, and the step of `seqsrc`, which starts over when it wraps
abbrev pub next_seqsrc : ℕ → ℕ → ℕ → ℕ
next_seqsrc rank wsize rv =
    let sum = (rv + wsize) % 2 ^ 32 in if ltb sum rv then (rank + wsize) % 2 ^ 32 else sum

abbrev pub is_none {ℓ} : {A : Type ℓ} → Option A → Bool
is_none none = true
is_none (some x) = false

-- the loop of `get_free_seq`: the number it takes, and the next `seqsrc`
unfoldable pub free_seq_loop : ℕ → ℕ → State → ℕ → ℕ × ℕ
free_seq_loop zero op s rv = (rv, next_seqsrc s.mpi_rank s.mpi_wsize rv)
free_seq_loop (suc fuel) op s rv =
    let seqsrc' = next_seqsrc s.mpi_rank s.mpi_wsize rv in
    let again = free_seq_loop fuel op s seqsrc' in
    if op == Op.none || is_none (find_pending_req op rv s) then (rv, seqsrc') else again

-- `get_free_seq`. The fuel is one more than the requests that can be in the way.
unfoldable pub get_free_seq : ℕ → State → ℕ × State
get_free_seq op s =
    let (rv, seqsrc') = free_seq_loop (suc (length s.rpending)) op s s.seqsrc in
    (rv, record s { seqsrc = seqsrc' })

-- `find_pending_msgreq`, of a message whose size should be `msgsize`
unfoldable pub find_pending_msgreq : Mqe → ℕ → ℕ → State → Option (ReqRef × State)
find_pending_msgreq m pending_op msgsize s =
    if ltb m.flen SizeOf.header || ltb m.flen msgsize
    then none
    else elim (find_pending_req pending_op (xidseq_of m.frame) s) [
      | none ↦ none
      | some (r, rest) ↦ some (r, record s { rpending = rest })
    ]

-- `rqe->u.waitthread`
abbrev pub waitthread_of : ReqUnion → DThread
waitthread_of (ReqUnion.waitthread t) = t
waitthread_of _ = record { dt_index = 0; dt_seq = 0 }

abbrev pub waits_for : List Ltab → DThread → ReqRef → Bool
waits_for ltab t r =
    (req_of ltab r).reqop == Op.joinwait
    && (waitthread_of (req_of ltab r).u).dt_index == t.dt_index
    && (waitthread_of (req_of ltab r).u).dt_seq == t.dt_seq

-- `joinwait_search`; the caller that asks for removal takes the list with it.
unfoldable pub joinwait_search : DThread → State → Option (ReqRef × List ReqRef)
joinwait_search t s = take_first (waits_for s.ltab t) s.rpending
