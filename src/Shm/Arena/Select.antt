-- ===== src/Shm/Arena/Select.antt =====
-- The tables of drivers and the default arena (libdthread/dt_shmops.c).
use Prim.Native.String.{String}
use text.Mathlib.Text.{◌==◌ as str_eq}
use text.Mathlib.TextEquality.{eq_iff}
use mathlib.Core.Option.{some-injective}
use dthread.Base.{
  ℕ, zero, suc, ◌+◌, ◌-◌, ◌≤◌, ◌<◌, ◌≡◌, ◌≢◌, ◌⊎◌, inl, inr, refl, ap, ◌∙◌, true, false, none, some,
  List, [], ◌∷◌, ltb, length, get_elem?, arith, Bool-cases,
}
use dthread.Types.Errno
use dthread.Shm.{ShmRef}
use dthread.Shm.Arena.{
  AllocOps, Dtrs, find_name, get_mopid, mopid2ops, set_defaultarena, get_defaultarena,
}

module _ {S : Type 0} where
  -- what `find_name` finds in a table
  abbrev Holds : List (AllocOps S) → String → ℕ → Type 0
  Holds ms name i = (m : AllocOps S) × (get_elem? ms i ≡ some m) × (m.name ≡ name) × (i < length ms)

  abbrev Lacks : List (AllocOps S) → String → Type 0
  Lacks ms name = (i : ℕ) (m : AllocOps S) → get_elem? ms i ≡ some m → m.name ≢ name

  Lacks-cons :
      (m : AllocOps S) (ms : List (AllocOps S)) (name : String)
      → str_eq m.name name ≡ false
      → Lacks ms name
      → Lacks (m ∷ ms) name
  Lacks-cons m ms name ne l zero m' h e =
      let q : m.name ≡ name = ap (λ (x : AllocOps S). x.name) (some-injective m m' h) ∙ e in
      let t = (eq_iff m.name name).1 q in cc
  Lacks-cons m ms name ne l (suc i) m' h e = l i m' h e

  find_name_lem :
      (ms : List (AllocOps S)) (name : String)
      → ((i : ℕ) × (find_name ms name ≡ some i) × Holds ms name i)
        ⊎ ((find_name ms name ≡ none) × Lacks ms name)
  find_name_lem [] name = inr (refl, λ i m h e. (cc))
  find_name_lem (m ∷ ms) name = elim (Bool-cases (str_eq m.name name)) [
    | inl same ↦ inl (0, rw same refl, (m, refl, (eq_iff m.name name).0 same, omega arith))
    | inr other ↦ elim (find_name_lem ms name) [
      | inl (i, e, (m', g, n, l)) ↦ inl (suc i, rw (other, e) refl, (m', g, n, omega arith))
      | inr (e, l) ↦ inr (rw (other, e) refl, Lacks-cons m ms name other l)
    ]
  ]

  mopid2ops-user :
      (i : ℕ) (d : Dtrs S)
      → i < length d.mop
      → mopid2ops (length d.internal + i) d ≡ get_elem? d.mop i
  unfolding mopid2ops
  mopid2ops-user i d h =
      let a : ltb (length d.internal + i) (length d.internal) ≡ false = ground arith in
      let b : ltb (length d.internal + i) (length d.internal + length d.mop) ≡ true =
        ground arith in
      let c : length d.internal + i - length d.internal ≡ i = omega arith in rw (a, b, c) refl

  mopid2ops-internal :
      (i : ℕ) (d : Dtrs S) → i < length d.internal → mopid2ops i d ≡ get_elem? d.internal i
  unfolding mopid2ops
  mopid2ops-internal i d h = let a : ltb i (length d.internal) ≡ true = ground arith in rw a refl

  mopid2ops-none :
      (name : String) (d : Dtrs S)
      → Lacks d.mop name
      → Lacks d.internal name
      → (i : ℕ) (m : AllocOps S) → mopid2ops i d ≡ some m
      → m.name ≢ name
  unfolding mopid2ops
  mopid2ops-none name d l l' i m h = elim (Bool-cases (ltb i (length d.internal))) [
    | inl a ↦ l' i m (rw a at h)
    | inr a ↦ elim (Bool-cases (ltb i (length d.internal + length d.mop))) [
      | inl b ↦ l (i - length d.internal) m (rw (a, b) at h)
      | inr b ↦ (let h' : none ≡ some m = rw (a, b) at h in absurd (cc))
    ]
  ]

  get_mopid-user :
      (name : String) (d : Dtrs S) (i : ℕ)
      → find_name d.mop name ≡ some i
      → get_mopid name d ≡ some (length d.internal + i)
  unfolding get_mopid
  get_mopid-user name d i e = rw (get_mopid, e) refl

  get_mopid-internal :
      (name : String) (d : Dtrs S)
      → find_name d.mop name ≡ none
      → get_mopid name d ≡ find_name d.internal name
  unfolding get_mopid
  get_mopid-internal name d e = rw (get_mopid, e) refl

  -- What `dthread_get_mopid` finds for a name, `mopid2ops` leads to a driver of that name: the user's
  -- if there is one, else an internal one. It finds none exactly if no table has the name.
  pub get_mopid-mopid2ops :
      (name : String) (d : Dtrs S)
      → ((i : ℕ) × (m : AllocOps S) × (get_mopid name d ≡ some i)
          × (mopid2ops i d ≡ some m)
          × (m.name ≡ name)
          × ((length d.internal ≤ i) ⊎ (find_name d.mop name ≡ none)))
        ⊎ ((get_mopid name d ≡ none)
            × ((i : ℕ) (m : AllocOps S) → mopid2ops i d ≡ some m → m.name ≢ name))
  get_mopid-mopid2ops name d = elim (find_name_lem d.mop name) [
    | inl (i, e, (m, g, n, l)) ↦ inl (
      length d.internal + i,
      m,
      get_mopid-user name d i e,
      mopid2ops-user i d l ∙ g,
      n,
      inl (omega arith),
    )
    | inr (e, lacks) ↦ elim (find_name_lem d.internal name) [
      | inl (i, f, (m, g, n, l)) ↦
          inl (i, m, get_mopid-internal name d e ∙ f, mopid2ops-internal i d l ∙ g, n, inr e)
      | inr (f, lacks') ↦ inr (get_mopid-internal name d e ∙ f, mopid2ops-none name d lacks lacks')
    ]
  ]

  -- `dthread_shm_set_defaultarena` fails without effect or succeeds. After one that succeeds,
  -- `dthread_shm_get_defaultarena` gives that arena, other ranks can read it in shared memory, and
  -- another call with any arena gets EEXIST and changes nothing.
  pub set_defaultarena-once :
      (a a' : ShmRef) (d : Dtrs S)
      → let (rv, d1) = set_defaultarena a d in
        ((rv ≡ 0) ⊎ (d1 ≡ d))
        × (rv ≡ 0
            → ((get_defaultarena d1).0 ≡ some a)
              × (set_defaultarena a' d1 ≡ (Errno.eexist, d1))
              × (d1.da_src ≡ a))
  unfolding set_defaultarena get_defaultarena
  set_defaultarena-once a a' d = ground arith
