-- ===== src/Shm/Arena/Client.antt =====
-- The arena calls of libdthread/dt_shmops.c over any driver that keeps its promises.
use dthread.Base.{
  ℕ, suc, ◌%◌, ◌≤◌, ◌<◌, ◌≡◌, ◌≢◌, inl, inr, refl, ap, sym, ◌∙◌, true, false, Option, none, some,
  List, [], ◌∷◌, ◌++◌, ◌==◌, length, arith, Bool-cases, Option-cases,
}
use dthread.Shm.{ShmRef, shmref2ptr, ptr2shmref}
use dthread.Shm.Segment.{Got}
use dthread.Shm.Break.{AllocMd}
use dthread.Shm.Arena.{
  AllocOps, Dtrs, Valid, shm_md_magic, md_size, bits_and, in_arena, same_ref, mopid2ops,
  validate_md, validate_arena, validate_ptr, validate_ref, with_mem, shm_malloc, shm_free,
  shm_free_ref,
}
use dthread.Shm.Arena.Driver.{Driver, All, Apart, Inside, All-middle, bits_and_15}

module _ {S : Type 0} (md_at : ShmRef → S → AllocMd) (ops : AllocOps S) (a : ShmRef)
    (md : AllocMd) where
  -- The arena is set up: its metadata are those that `dthread_shm_new_arena` and the driver wrote, and
  -- its driver is in the tables.
  pub record Ready (d : Dtrs S) : Type 0 where
    pub magic : md.mdmagic ≡ shm_md_magic
    pub self : md.self ≡ a
    pub align_bits : md.badalign_bits ≡ 15
    pub ops_known : mopid2ops md.mopid d ≡ some ops
    pub mapped : shmref2ptr d.maps a md_size ≢ none

  abbrev valid : Valid S
  valid = record { ops = ops; arena = a; md = md }

  same_ref_self : (b : ShmRef) → same_ref b b ≡ true
  same_ref_self b = ground arith

  validate_md-valid :
      (d : Dtrs S) → Ready d → md_at a d.mem ≡ md → validate_md md_at a d ≡ some valid
  unfolding validate_md
  validate_md-valid d r e = elim (Option-cases (shmref2ptr d.maps a md_size)) [
    | inl n ↦ absurd (r.mapped n)
    | inr (p, f) ↦
        let m : md.mdmagic == shm_md_magic ≡ true = ground (arith, r.magic) in
        let s : same_ref a md.self ≡ true = rw r.self (same_ref_self a) in
        rw (validate_md, f, e, m, s, r.ops_known)
          (ap (λ (x : AllocMd). some (record { ops = ops; arena = a; md = x })) e)
  ]

  module _ (d : Dtrs S) (r : Ready d) (e : md_at a d.mem ≡ md) where
    shm_malloc-ops :
        (len : ℕ)
        → shm_malloc md_at (some a) len d
          ≡ ((ops.malloc a len d.mem).0, with_mem (ops.malloc a len d.mem).1 d)
    unfolding shm_malloc validate_arena
    shm_malloc-ops len = rw (shm_malloc, validate_md-valid d r e) refl

    shm_free_ref-ops :
        (ref : ShmRef)
        → 0 < ref.dt_length
        → validate_ref ref valid ≡ true
        → shm_free_ref md_at (some a) (some ref) d ≡ with_mem (ops.free a ref d.mem) d
    unfolding shm_free_ref validate_arena
    shm_free_ref-ops ref p ok =
        let z : ref.dt_length == 0 ≡ false = ground arith in
        rw (shm_free_ref, validate_md-valid d r e, z, ok) refl

    shm_free_ref-refused :
        (ref : ShmRef)
        → validate_ref ref valid ≡ false
        → shm_free_ref md_at (some a) (some ref) d ≡ d
    unfolding shm_free_ref validate_arena
    shm_free_ref-refused ref bad = elim (Bool-cases (ref.dt_length == 0)) [
      | inl z ↦ rw z refl
      | inr z ↦ rw (shm_free_ref, validate_md-valid d r e, z, bad) refl
    ]

    shm_free-ops :
        (ref : ShmRef) (ptr : ℕ)
        → ptr2shmref d.maps ptr 0 ≡ some ref
        → in_arena a md ref ptr ≡ true
        → shm_free md_at (some a) (some ptr) d ≡ with_mem (ops.free a ref d.mem) d
    unfolding shm_free validate_arena validate_ptr
    shm_free-ops ref ptr f ok = rw (shm_free, validate_md-valid d r e, validate_ptr, f, ok) refl

  Inside-in_arena :
      (d : Dtrs S)
      → Ready d
      → (ref : ShmRef) (x : ℕ) → Inside a md ref
      → ref.dt_offset < md.max_uoffset
      → x % 16 ≡ 0
      → in_arena a md ref x ≡ true
  Inside-in_arena d r ref x v l al =
      let b : bits_and 64 x md.badalign_bits ≡ 0 = rw r.align_bits (bits_and_15 x ∙ al) in
      ground (arith, b, v.shmid, v.from)

  module _ (drv : Driver S md_at ops a md) where
    -- The histories of calls on the arena, with the blocks that the callers hold. A caller may give any
    -- reference that is outside the user's part of the arena, of another segment or not aligned.
    pub data Calls : Dtrs S → List ShmRef → Type 0 where
      starts : (d : Dtrs S) → Ready d → drv.Uses d.mem [] → Calls d []
      mallocs :
          (d : Dtrs S) (live : List ShmRef) (len : ℕ) (got : Got)
          → Calls d live
          → len ≤ drv.max_size
          → suc (length live) < drv.max_blocks
          → (shm_malloc md_at (some a) len d).0 ≡ some got
          → Calls (shm_malloc md_at (some a) len d).1 (got.1 ∷ live)
      refusals :
          (d : Dtrs S) (live : List ShmRef) (len : ℕ)
          → Calls d live
          → len ≤ drv.max_size
          → suc (length live) < drv.max_blocks
          → (shm_malloc md_at (some a) len d).0 ≡ none
          → Calls (shm_malloc md_at (some a) len d).1 live
      frees :
          (d : Dtrs S) (pre : List ShmRef) (ref : ShmRef) (post : List ShmRef)
          → Calls d (pre ++ ref ∷ post)
          → 0 < ref.dt_length
          → Calls (shm_free_ref md_at (some a) (some ref) d) (pre ++ post)
      ptr_frees :
          (d : Dtrs S) (pre : List ShmRef) (ref : ShmRef) (post : List ShmRef) (ptr : ℕ)
          → Calls d (pre ++ ref ∷ post)
          → ref.dt_offset < md.max_uoffset
          → ptr2shmref d.maps ptr 0 ≡ some (record ref { dt_length = 0 })
          → ptr % 16 ≡ 0
          → Calls (shm_free md_at (some a) (some ptr) d) (pre ++ post)
      bad_frees :
          (d : Dtrs S) (live : List ShmRef) (ref : ShmRef)
          → Calls d live
          → in_arena a md ref ref.dt_offset ≡ false
          → Calls (shm_free_ref md_at (some a) (some ref) d) live

    -- what holds after a history
    abbrev pub Good : Dtrs S → List ShmRef → Type 0
    Good d live = Ready d × drv.Uses d.mem live

    with_mem-Ready : (d : Dtrs S) (m : S) → Ready d → Ready (with_mem m d)
    unfolding mopid2ops
    with_mem-Ready d m r = record {
      magic = r.magic;
      self = r.self;
      align_bits = r.align_bits;
      ops_known = r.ops_known;
      mapped = r.mapped;
    }

    malloc-Good :
        (d : Dtrs S) (live : List ShmRef) (len : ℕ) (got : Got)
        → Good d live
        → len ≤ drv.max_size
        → suc (length live) < drv.max_blocks
        → (shm_malloc md_at (some a) len d).0 ≡ some got
        → (got.1.dt_length ≡ len) × Good (shm_malloc md_at (some a) len d).1 (got.1 ∷ live)
    malloc-Good d live len got (r, u) l n e =
        let s = shm_malloc-ops d r (drv.same_md d.mem live u) len in
        let (size, u') =
          drv.on_malloc d.mem live len got u l n
            (sym (ap (λ (x : Option Got × Dtrs S). x.0) s) ∙ e) in
        (size, rw s (with_mem-Ready d (ops.malloc a len d.mem).1 r, u'))

    refusal-same :
        (d : Dtrs S) (live : List ShmRef) (len : ℕ)
        → Good d live
        → len ≤ drv.max_size
        → suc (length live) < drv.max_blocks
        → (shm_malloc md_at (some a) len d).0 ≡ none
        → (shm_malloc md_at (some a) len d).1 ≡ d
    refusal-same d live len (r, u) l n e =
        let s = shm_malloc-ops d r (drv.same_md d.mem live u) len in
        let same =
          drv.on_refusal d.mem live len u l n (sym (ap (λ (x : Option Got × Dtrs S). x.0) s) ∙ e) in
        ap (λ (x : Option Got × Dtrs S). x.1) s ∙ ap (λ m. with_mem m d) same

    free-Good :
        (d : Dtrs S) (pre : List ShmRef) (ref : ShmRef) (post : List ShmRef)
        → Good d (pre ++ ref ∷ post)
        → 0 < ref.dt_length
        → Good (shm_free_ref md_at (some a) (some ref) d) (pre ++ post)
    free-Good d pre ref post (r, u) p =
        let i =
          All-middle (Inside a md) pre ref post (drv.all_inside d.mem (pre ++ ref ∷ post) u) in
        let ok = Inside-in_arena d r ref ref.dt_offset i (omega (arith, i.to)) i.aligned in
        rw (shm_free_ref-ops d r (drv.same_md d.mem (pre ++ ref ∷ post) u) ref p ok) (
          with_mem-Ready d (ops.free a ref d.mem) r,
          drv.on_free d.mem pre ref post ref.dt_length u,
        )

    ptr_free-Good :
        (d : Dtrs S) (pre : List ShmRef) (ref : ShmRef) (post : List ShmRef) (ptr : ℕ)
        → Good d (pre ++ ref ∷ post)
        → ref.dt_offset < md.max_uoffset
        → ptr2shmref d.maps ptr 0 ≡ some (record ref { dt_length = 0 })
        → ptr % 16 ≡ 0
        → Good (shm_free md_at (some a) (some ptr) d) (pre ++ post)
    ptr_free-Good d pre ref post ptr (r, u) l f al =
        let i =
          All-middle (Inside a md) pre ref post (drv.all_inside d.mem (pre ++ ref ∷ post) u) in
        let ref' : ShmRef = record ref { dt_length = 0 } in
        let i' : Inside a md ref' = record {
          shmid = i.shmid;
          from = i.from;
          to = omega (arith, i.to);
          aligned = i.aligned;
        } in
        let ok = Inside-in_arena d r ref' ptr i' l al in
        rw (shm_free-ops d r (drv.same_md d.mem (pre ++ ref ∷ post) u) ref' ptr f ok)
          (with_mem-Ready d (ops.free a ref' d.mem) r, drv.on_free d.mem pre ref post 0 u)

    Calls-Good : {d : Dtrs S} {live : List ShmRef} → Calls d live → Good d live
    Calls-Good (starts d r u) = (r, u)
    Calls-Good (mallocs d live len got c l n e) =
        (malloc-Good d live len got (Calls-Good c) l n e).1
    Calls-Good (refusals d live len c l n e) =
        rw (refusal-same d live len (Calls-Good c) l n e) (Calls-Good c)
    Calls-Good (frees d pre ref post c p) = free-Good d pre ref post (Calls-Good c) p
    Calls-Good (ptr_frees d pre ref post ptr c l f al) =
        ptr_free-Good d pre ref post ptr (Calls-Good c) l f al
    Calls-Good (bad_frees d live ref c bad) =
        let (r, u) = Calls-Good c in
        rw (shm_free_ref-refused d r (drv.same_md d.mem live u) ref bad) (r, u)

    -- After any history of calls on an arena whose driver keeps its promises, the blocks that the
    -- callers hold do not overlap and lie in the user's part of the arena. Frees of references that
    -- are no blocks are part of the history where they are outside that part, of another segment, or
    -- not aligned.
    pub Calls-Apart :
        {d : Dtrs S} {live : List ShmRef} → Calls d live → Apart live × All (Inside a md) live
    Calls-Apart {d} {live} c =
        let (r, u) = Calls-Good c in (drv.all_apart d.mem live u, drv.all_inside d.mem live u)
