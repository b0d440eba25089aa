-- ===== src/Manager/Broadcast.antt =====
-- The shutdown of a job by libdthread/dt_mgrthread.c: `broadcast_shutdown` on all ranks, along the
-- tree of `binary_router`.
use dthread.Base.{
  ℕ, zero, suc, ◌+◌, ◌-◌, ◌*◌, ◌/◌, ◌≤◌, ◌<◌, ◌≡◌, ◌≢◌, ◌⊎◌, inl, inr, ap, sym, ◌∙◌, subst, Bool,
  true, false, List, [], ◌∷◌, ◌++◌, ◌==◌, leb, length, arith, Bool-cases,
}
use mathlib.Core.List.{append-nil, append_assoc}
use dthread.Types.{Mqe}
use dthread.Queuing
use dthread.Queuing.{dd_init, send_enqueue, set_notifytimelimit, send_draindown, recv_release}
use dthread.Manager.State.{State, next_ok, later, alloc_mqe, send_or_drop, release_mqe}
use dthread.Manager.Router.{binary_router, adjusted_rank}
use dthread.Manager.Router.Tree.{Elem, children_at, router_lem, binary_router_children}
use dthread.Manager.Shutdown.{shutdown_msg, broadcast_one, broadcast_to, broadcast_shutdown}
use dthread.Manager.Dispatch.{process_mqe, dispatch}
use dthread.Manager.Main.{check_shutdown}

abbrev pub Among : Mqe → List Mqe → Type 0
Among m [] = ⊥
Among m (x ∷ xs) = (m ≡ x) ⊎ Among m xs

-- The next `k` calls of `malloc` succeed.
abbrev pub Trues : ℕ → List Bool → Type 0
Trues zero bs = Unit
Trues (suc k) [] = ⊥
Trues (suc k) (b ∷ bs) = (b ≡ true) × Trues k bs

-- The rank can get the queue entries for its children, and its send queue is open.
pub record Ready (n rank : ℕ) (s : State) : Type 0 where
  pub is_rank : s.mpi_rank ≡ rank
  pub ranks : s.mpi_wsize ≡ n
  pub is_open : s.dtq.mpisq_draindown ≡ dd_init
  pub memory : Trues 2 s.mem

-- The ranks for which some rank queues a BCASTSHUTDOWN message: rank 0 at the head of its loop, and
-- each rank to which such a message has come, whoever sent it. `st` holds the states in which that happens.
pub data Told (st : ℕ → State) : ℕ → Type 0 where
  starts : (c : ℕ) → Among (shutdown_msg c) (check_shutdown (st 0)).dtq.mpisendq → Told st c
  passes :
      (p c : ℕ)
      → Told st p
      → ((sender : ℕ)
          → Among
              (shutdown_msg c)
              (process_mqe (record (shutdown_msg p) { peer = sender }) (st p)).dtq.mpisendq)
      → Told st c

abbrev msgs : List ℕ → List Mqe
msgs [] = []
msgs (c ∷ cs) = shutdown_msg c ∷ msgs cs

abbrev AllOther : ℕ → List ℕ → Type 0
AllOther r [] = Unit
AllOther r (c ∷ cs) = (c ≢ r) × AllOther r cs

Among-append : (m : Mqe) (xs ys : List Mqe) → Among m ys → Among m (xs ++ ys)
Among-append m [] ys a = a
Among-append m (x ∷ xs) ys a = inr (Among-append m xs ys a)

Among-msgs : (c : ℕ) (cs : List ℕ) → Elem c cs → Among (shutdown_msg c) (msgs cs)
Among-msgs c [] e = e
Among-msgs c (x ∷ xs) (inl e) = inl (ap shutdown_msg e)
Among-msgs c (x ∷ xs) (inr e) = inr (Among-msgs c xs e)

Trues-next_ok : (bs : List Bool) → Trues 1 bs → next_ok bs ≡ true
Trues-next_ok [] t = elim t [ ]
Trues-next_ok (b ∷ bs) t = t.0

Trues-later : (k : ℕ) (bs : List Bool) → Trues (suc k) bs → Trues k (later bs)
Trues-later k [] t = elim t [ ]
Trues-later k (b ∷ bs) t = t.1

Trues-one : (k : ℕ) (bs : List Bool) → Trues (suc k) bs → Trues 1 bs
Trues-one k [] t = elim t [ ]
Trues-one k (b ∷ bs) t = (t.0, tt)

Trues-le : (k n : ℕ) (bs : List Bool) → k ≤ n → Trues n bs → Trues k bs
Trues-le zero n bs h t = tt
Trues-le (suc k) zero bs h t = absurd (omega arith)
Trues-le (suc k) (suc n) [] h t = elim t [ ]
Trues-le (suc k) (suc n) (b ∷ bs) h t = (t.0, Trues-le k n bs (omega arith) t.1)

broadcast_one-queued :
    (c : ℕ) (s : State)
    → c ≢ s.mpi_rank
    → s.dtq.mpisq_draindown ≡ dd_init
    → Trues 1 s.mem
    → let t = broadcast_one c s in
      (t.dtq.mpisendq ≡ s.dtq.mpisendq ++ shutdown_msg c ∷ [])
      × (t.dtq.mpisq_draindown ≡ dd_init)
      × (t.mpi_rank ≡ s.mpi_rank)
      × (t.mem ≡ later s.mem)
unfolding broadcast_one alloc_mqe send_or_drop Queuing.mqe_alloc send_enqueue
broadcast_one-queued c s ne o m = ground (arith, ne, o, Trues-next_ok s.mem m)

broadcast_to-queued :
    (cs : List ℕ) (s : State)
    → AllOther s.mpi_rank cs
    → s.dtq.mpisq_draindown ≡ dd_init
    → Trues (length cs) s.mem
    → (broadcast_to cs s).dtq.mpisendq ≡ s.dtq.mpisendq ++ msgs cs
unfolding broadcast_to
broadcast_to-queued [] s a o m = sym (append-nil s.dtq.mpisendq)
broadcast_to-queued (c ∷ cs) s a o m =
    let (q, o', r, l) = broadcast_one-queued c s a.0 o (Trues-one (length cs) s.mem m) in
    let t = broadcast_one c s in
    broadcast_to-queued cs t (subst (λ x. AllOther x cs) (sym r) a.1) o'
      (subst (λ x. Trues (length cs) x) (sym l) (Trues-later (length cs) s.mem m))
    ∙ ap (λ x. x ++ msgs cs) q
    ∙ append_assoc s.dtq.mpisendq (shutdown_msg c ∷ []) (msgs cs)

children-AllOther :
    (n r : ℕ) → r < n → AllOther r (binary_router 0 n r) × (length (binary_router 0 n r) ≤ 2)
unfolding children_at
children-AllOther n r h =
    rw (router_lem 0 n (omega arith) r) (elim (Bool-cases (leb n (adjusted_rank 0 n r * 2 + 1))) [
      | inl f ↦ rw (children_at, f) (tt, omega arith)
      | inr f ↦ elim (Bool-cases (adjusted_rank 0 n r * 2 + 1 == n - 1)) [
        | inl g ↦ rw (children_at, f, g) (ground arith)
        | inr g ↦ rw (children_at, f, g) (ground arith)
      ]
    ])

module _ (n : ℕ) where
  broadcast_shutdown-queued :
      (r c : ℕ) (s : State)
      → r < n
      → Ready n r s
      → Elem c (binary_router 0 n r)
      → Among (shutdown_msg c) (broadcast_shutdown s).dtq.mpisendq
  unfolding broadcast_shutdown set_notifytimelimit send_draindown
  broadcast_shutdown-queued r c s h v e =
      let cs = binary_router 0 n r in
      let (other, few) = children-AllOther n r h in
      let q =
        broadcast_to-queued cs s (subst (λ x. AllOther x cs) (sym v.is_rank) other) v.is_open
          (Trues-le (length cs) 2 s.mem few v.memory) in
      subst (λ x. Among (shutdown_msg c) x)
        (sym q
          ∙ ap (λ x. (broadcast_to x s).dtq.mpisendq)
              (sym (
                ap (λ y. binary_router 0 y s.mpi_rank) v.ranks
                ∙ ap (λ y. binary_router 0 n y) v.is_rank)))
        (Among-append (shutdown_msg c) s.dtq.mpisendq (msgs cs) (Among-msgs c cs e))

  passed_on :
      (r sender : ℕ) (s : State)
      → (process_mqe (record (shutdown_msg r) { peer = sender }) s).dtq.mpisendq
        ≡ (broadcast_shutdown s).dtq.mpisendq
  unfolding process_mqe dispatch release_mqe recv_release
  passed_on r sender s = ground arith

  started :
      (s : State)
      → s.mpi_rank ≡ 0
      → s.threads_running ≡ 0
      → s.draining ≡ false
      → check_shutdown s ≡ broadcast_shutdown s
  unfolding check_shutdown
  started s r t d = ground arith

  module _ (st : ℕ → State) (ready : (r : ℕ) → r < n → Ready n r (st r))
      (idle : (st 0).threads_running ≡ 0) (fresh : (st 0).draining ≡ false) where
    Told-below : (k c : ℕ) → 0 < c → c < n → c < k → Told st c
    Told-below zero c p h l = absurd (omega arith)
    Told-below (suc k) c p h l =
        let root : 0 < n = omega arith in
        let x = (c - 1) / 2 in
        let hx : x < n = omega arith in
        let child =
          (binary_router_children 0 n root x c hx h).1 (ground (arith, p)) (ground arith) in
        let q = broadcast_shutdown-queued x c (st x) hx (ready x hx) child in
        elim (Bool-cases (x == 0)) [
          | inl e ↦
              let z : x ≡ 0 = ground (arith, e) in
              let q0 =
                subst (λ y. Among (shutdown_msg c) (broadcast_shutdown (st y)).dtq.mpisendq) z q in
              Told.starts c (
                subst (λ (y : State). Among (shutdown_msg c) y.dtq.mpisendq)
                  (sym (started (st 0) (ready 0 root).is_rank idle fresh)) q0)
          | inr e ↦
              Told.passes x c (Told-below k x (ground (arith, e)) hx (omega arith)) (λ sender.
                subst (λ y. Among (shutdown_msg c) y) (sym (passed_on x sender (st x))) q)
        ]

    -- For every rank of the job but rank 0 a BCASTSHUTDOWN message is queued, by rank 0 at the
    -- head of its loop or by a rank that has got one, if rank 0 has no running thread and has
    -- not begun the shutdown, and for each rank, in the state in which it begins the shutdown
    -- or gets the message, the next two allocations of queue entries succeed and the send
    -- queue is open.
    pub broadcast_shutdown-Told : (c : ℕ) → 0 < c → c < n → Told st c
    broadcast_shutdown-Told c p h = Told-below (suc c) c p h (omega arith)
