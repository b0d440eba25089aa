-- ===== src/Manager/Pending/Search.antt =====
-- What the searches of the pending list find and remove (libdthread/dt_mgrthread.c,
-- `find_pending_req`, `find_pending_msgreq`, `joinwait_search`).
use dthread.Base.{
  ℕ, ◌<◌, ◌≡◌, refl, ◌⊎◌, inl, inr, Bool, true, false, Option, none, some, List, [], ◌∷◌, ◌++◌, ap,
  Bool-cases, arith, if◌then◌else◌, ◌||◌, ltb,
}
use dthread.Types.{Mqe, ReqRef, xidseq_of}
use dthread.Types.SizeOf
use dthread.Manager.State.{State, req_of}
use dthread.Manager.Pending.{take_first, skip, has_key, find_pending_req, find_pending_msgreq}

module _ {ℓ} {A : Type ℓ} (test : A → Bool) where
  -- No entry passes the test.
  abbrev pub NoneOf : List A → Type 0
  NoneOf [] = Unit
  NoneOf (x ∷ xs) = (test x ≡ false) × NoneOf xs

  -- The search fails on a list in which nothing passes the test. Otherwise it takes out the first
  -- entry that passes, and keeps the others in order.
  abbrev pub Taken : List A → Option (A × List A) → Type ℓ
  Taken xs r =
      (NoneOf xs × (r ≡ none))
      ⊎ ((pre : List A) × (x : A) × (post : List A) × (xs ≡ pre ++ x ∷ post)
          × (r ≡ some (x, pre ++ post))
          × (test x ≡ true)
          × NoneOf pre)

  skip-Taken :
      (x : A) (xs : List A) (r : Option (A × List A))
      → test x ≡ false
      → Taken xs r
      → Taken (x ∷ xs) (skip x r)
  skip-Taken x xs r e (inl (n, f)) = inl ((e, n), ap (skip x) f)
  skip-Taken x xs r e (inr (pre, y, post, l, f, t, n)) =
      inr (x ∷ pre, y, post, ap (◌∷◌ x) l, ap (skip x) f, t, (e, n))

  Taken-if :
      (x : A) (xs : List A) (r : Option (A × List A)) (b : Bool)
      → test x ≡ b
      → Taken xs r
      → Taken (x ∷ xs) (if b then some (x, xs) else skip x r)
  Taken-if x xs r true e t = inr ([], x, xs, refl, refl, e, tt)
  Taken-if x xs r false e t = skip-Taken x xs r e t

  pub take_first-Taken : (xs : List A) → Taken xs (take_first test xs)
  unfolding take_first
  take_first-Taken [] = inl (tt, refl)
  take_first-Taken (x ∷ xs) = Taken-if x xs (take_first test xs) (test x) refl (take_first-Taken xs)

-- `find_pending_msgreq` gives nothing for a message that is too short, and nothing if no pending
-- request has the operation and the message's number. Otherwise it takes the first one that has
-- them out of the pending list, keeps the others in order, and changes nothing else.
pub find_pending_msgreq_lem :
    (m : Mqe) (op size : ℕ) (s : State)
    → ((m.flen < SizeOf.header) ⊎ (m.flen < size)) × (find_pending_msgreq m op size s ≡ none)
      ⊎ NoneOf (has_key s.ltab op (xidseq_of m.frame)) s.rpending
        × (find_pending_msgreq m op size s ≡ none)
      ⊎ ((pre : List ReqRef) × (r : ReqRef) × (post : List ReqRef) × (s.rpending ≡ pre ++ r ∷ post)
          × (find_pending_msgreq m op size s ≡ some (r, record s { rpending = pre ++ post }))
          × ((req_of s.ltab r).xidseq ≡ xidseq_of m.frame)
          × ((req_of s.ltab r).reqop ≡ op)
          × NoneOf (has_key s.ltab op (xidseq_of m.frame)) pre)
unfolding find_pending_msgreq find_pending_req
find_pending_msgreq_lem m op size s =
    elim (Bool-cases (ltb m.flen SizeOf.header || ltb m.flen size)) [
      | inl short ↦ inl (ground arith, rw short)
      | inr full ↦ elim (take_first-Taken (has_key s.ltab op (xidseq_of m.frame)) s.rpending) [
        | inl (n, e) ↦ inr (inl (n, rw (full, e, find_pending_msgreq)))
        | inr (pre, r, post, l, e, t, n) ↦ inr (
            inr (pre, r, post, l, rw (full, e, find_pending_msgreq), ground arith, ground arith, n))
      ]
    ]

-- An entry that passes is found at the end of a list in which nothing passes.
pub take_first-append {ℓ} :
    {A : Type ℓ} (test : A → Bool) (xs : List A) (x : A)
    → take_first test xs ≡ none
    → test x ≡ true
    → take_first test (xs ++ x ∷ []) ≡ some (x, xs)
unfolding take_first
take_first-append test [] x n e = rw e refl
take_first-append test (y ∷ ys) x n e = elim (Bool-cases (test y)) [
  | inl b ↦ absurd (ground (arith, n, b))
  | inr b ↦ rw b (ap (skip y) (take_first-append test ys x (ground arith) e))
]
