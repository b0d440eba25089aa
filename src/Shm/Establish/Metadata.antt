-- ===== src/Shm/Establish/Metadata.antt =====
-- What `establish` of libdthread/dt_segops.c leaves in a segment, and that all ranks find it there.
use dthread.Base.{
  ℕ, ◌+◌, ◌-◌, ◌*◌, ◌/◌, ◌%◌, ◌≤◌, ◌<◌, ◌≡◌, ◌≢◌, ◌⊎◌, inl, inr, refl, ap, sym, ◌∙◌, Bool, true,
  false, if◌then◌else◌, ◌==◌, ltb, leb, arith, dec_lt, Bool-cases,
}
use native.Mathlib.Nat.{add-mod, mod-mod, mod-lt, mod-eq_of_lt, zero-mod, div-add-mod, mul_assoc}
use dthread.Types.Errno
use dthread.Shm.{ShmMap}
use dthread.Shm.Segment.{SegMd}
use dthread.Shm.Segment.Bounds.{SegInv}
use dthread.Shm.Break.{word, sub64}
use dthread.Shm.Break.History.{sub64_le}
use dthread.Shm.Establish.{
  ShmSrc, Os, got_mapping, new_mapping, Established, fails, establishes, md_offset_of, fresh_md,
  use_mapping, establish,
}

-- The segment that rank 0 has set up: the metadata are on a page of their own behind the front reserve,
-- the space behind it up to the back reserve is free, and there is some.
pub record Placed (pagesize : ℕ) (src : ShmSrc) (idx : ℕ) (map : ShmMap) (md : SegMd) : Type 0 where
  pub size : map.size ≡ src.dt_mmsize
  pub front_kept : src.dt_reserve_front ≤ map.md_offset
  pub own_page : md.first_avail ≡ map.md_offset + pagesize
  pub some_space : md.first_avail < md.end_avail
  pub back_kept : md.end_avail + src.dt_reserve_back ≡ src.dt_mmsize
  pub inv : SegInv (record { map = map; md = md })

-- the parts of a result that is no error
abbrev map_in : ShmMap → Established → ShmMap
map_in d (establishes map md fd) = map
map_in d (fails rv) = d

abbrev md_in : SegMd → Established → SegMd
md_in d (establishes map md fd) = md
md_in d (fails rv) = d

eq_self : (n : ℕ) → (n == n) ≡ true
eq_self n = ground arith

round_up :
    (front r n k : ℕ)
    → r < 16 * k
    → 16 * n + r ≡ front
    → let o = front + (if r == 0 then 0 else 16 * k - r) in
      (front ≤ o) × (o < front + 16 * k) × (o % 16 ≡ 0)
round_up front r n k h e = elim (Bool-cases (r == 0)) [
  | inl whole ↦ rw whole (omega arith, omega (arith, h), ground (arith, e, whole))
  | inr part ↦ rw part (omega arith, ground (arith, h, part), omega (arith, e, h))
]

module _ (k : ℕ) (src : ShmSrc) (pos : 0 < k) where
  abbrev page : ℕ
  page = 16 * k

  -- The offset of the metadata does not depend on the mapping, if that begins with a page.
  rest_same :
      (a : ℕ) → a % page ≡ 0 → (a + src.dt_reserve_front) % page ≡ src.dt_reserve_front % page
  rest_same a e =
      add-mod a src.dt_reserve_front page
      ∙ ap (λ x. (x + src.dt_reserve_front % page) % page) e
      ∙ ap (λ x. x % page) zero_add
      ∙ mod-mod src.dt_reserve_front page
    where
      zero_add : 0 + src.dt_reserve_front % page ≡ src.dt_reserve_front % page
      zero_add = omega arith

  md_offset_of_lem :
      (a : ℕ)
      → a % page ≡ 0
      → let o = md_offset_of page src a in
        (o ≡ md_offset_of page src 0)
        × (src.dt_reserve_front ≤ o)
        × (o < src.dt_reserve_front + page)
        × (o % 16 ≡ 0)
  unfolding md_offset_of
  md_offset_of_lem a e =
      let front = src.dt_reserve_front in
      let zero_same = rest_same 0 (zero-mod page) in
      let n = k * (front / page) in
      let parts : 16 * n + front % page ≡ front =
        ap (λ x. x + front % page) (sym (mul_assoc 16 k (front / page))) ∙ div-add-mod front page in
      let (low, high, aligned) =
        round_up front (front % page) n k (mod-lt front (omega (arith, pos))) parts in
      rw (rest_same a e, zero_same) (refl, low, high, aligned)

  abbrev reserve : ℕ
  reserve = src.dt_reserve_front + src.dt_reserve_back

  module _ (idx : ℕ) (fits : src.dt_mmsize < word) where
    abbrev map_of : ℕ → ShmMap
    map_of a = record { mapping = a; md_offset = md_offset_of page src a; size = src.dt_mmsize }

    md_new : (a : ℕ) → SegMd
    md_new a = fresh_md page src idx (md_offset_of page src a)

    md_new-Placed :
        (a : ℕ)
        → a % page ≡ 0
        → reserve + 2 * page ≤ src.dt_mmsize
        → Placed page src idx (map_of a) (md_new a)
    unfolding md_new
    md_new-Placed a e h =
        let (same, low, high, aligned) = md_offset_of_lem a e in
        let end : sub64 src.dt_mmsize src.dt_reserve_back ≡ src.dt_mmsize - src.dt_reserve_back =
          sub64_le src.dt_mmsize src.dt_reserve_back (omega (arith, h)) fits in
        record {
          size = refl;
          front_kept = low;
          own_page = refl;
          some_space = rw end (omega (arith, high, h));
          back_kept = rw end (omega (arith, h));
          inv = record {
            in_order = rw end (omega (arith, high, h));
            in_segment = rw end (omega arith);
            fits = fits;
            aligned = λ l. omega (arith, aligned);
          };
        }

    use_mapping-new :
        (os : Os) (mem : ℕ → SegMd) (a : ℕ) (fd : Bool)
        → a % page ≡ 0
        → reserve + 2 * page ≤ src.dt_mmsize
        → ((os.spin_ret ≢ 0) × (use_mapping os page src idx true mem a fd ≡ fails os.spin_ret))
          ⊎ (use_mapping os page src idx true mem a fd ≡ establishes (map_of a) (md_new a) fd)
    unfolding use_mapping md_new
    use_mapping-new os mem a fd e h =
        let p = md_new-Placed a e h in
        let z : leb (md_new a).end_avail (md_new a).first_avail ≡ false =
          ground (arith, p.some_space) in
        elim (Bool-cases (os.spin_ret == 0)) [
          | inl ok ↦ inr (rw (use_mapping, z, ok) refl)
          | inr bad ↦ inl (ground (arith, bad), rw (use_mapping, z, bad) refl)
        ]

    use_mapping-old :
        (os : Os) (mem : ℕ → SegMd) (a a' : ℕ) (fd : Bool)
        → a % page ≡ 0
        → a' % page ≡ 0
        → mem (md_offset_of page src a) ≡ md_new a
        → use_mapping os page src idx false mem a' fd
          ≡ establishes (record (map_of a) { mapping = a' }) (md_new a) fd
    unfolding use_mapping md_new
    use_mapping-old os mem a a' fd e e' m =
        let same = (md_offset_of_lem a' e').0 ∙ sym (md_offset_of_lem a e).0 in
        rw (use_mapping, same, m, eq_self idx, eq_self src.dt_mmsize) refl

    module _ (total : reserve < word) where
      establish-large :
          (os : Os) (initialize : Bool) (mem : ℕ → SegMd) (a : ℕ) (fd : Bool)
          → reserve + 2 * page ≤ src.dt_mmsize
          → new_mapping os src initialize ≡ got_mapping a fd
          → establish os page src idx initialize mem
            ≡ use_mapping os page src idx initialize mem a fd
      unfolding establish
      establish-large os initialize mem a fd h e =
          let z = mod-eq_of_lt total in
          let l : leb src.dt_mmsize reserve ≡ false = ground (arith, h, pos) in
          let u : ltb (src.dt_mmsize - reserve) (2 * page) ≡ false = ground (arith, h) in
          rw (establish, z, l, u, e) refl

      establish-small :
          (os : Os) (initialize : Bool) (mem : ℕ → SegMd)
          → src.dt_mmsize < reserve + 2 * page
          → establish os page src idx initialize mem ≡ fails Errno.einval
      unfolding establish
      establish-small os initialize mem h =
          let z = mod-eq_of_lt total in
          elim (Bool-cases (leb src.dt_mmsize reserve)) [
            | inl none_left ↦ rw (establish, z, none_left) refl
            | inr some_left ↦
                let u : ltb (src.dt_mmsize - reserve) (2 * page) ≡ true =
                  ground (arith, h, some_left) in
                rw (establish, z, some_left, u) refl
          ]

      -- A rank that maps the segment after rank 0 has set it up finds the metadata where they are, at
      -- whatever page its mapping begins, and accepts them.
      pub establish-establish :
          (os os' : Os) (mem mem' : ℕ → SegMd) (map : ShmMap) (md : SegMd) (fd fd' : Bool)
          (a a' : ℕ)
          → new_mapping os src true ≡ got_mapping a fd
          → a % page ≡ 0
          → establish os page src idx true mem ≡ establishes map md fd
          → mem' map.md_offset ≡ md
          → new_mapping os' src false ≡ got_mapping a' fd'
          → a' % page ≡ 0
          → establish os' page src idx false mem' ≡ establishes (record map { mapping = a' }) md fd'
      establish-establish os os' mem mem' map md fd fd' a a' n e done m n' e' =
          elim (dec_lt src.dt_mmsize (reserve + 2 * page)) [
            | yes small ↦
                let bad : fails Errno.einval ≡ establishes map md fd =
                  sym (establish-small os true mem small) ∙ done in
                absurd (cc)
            | no large ↦
                let h : reserve + 2 * page ≤ src.dt_mmsize = omega arith in
                let f = sym (establish-large os true mem a fd h n) ∙ done in
                elim (use_mapping-new os mem a fd e h) [
                  | inl (spin, g) ↦
                      let bad : fails os.spin_ret ≡ establishes map md fd = sym g ∙ f in absurd (cc)
                  | inr g ↦
                      let map_is : map ≡ map_of a = ap (map_in (map_of a)) (sym f ∙ g) in
                      let md_is : md ≡ md_new a = ap (md_in (md_new a)) (sym f ∙ g) in
                      let found = ap (λ (x : ShmMap). mem' x.md_offset) (sym map_is) ∙ m ∙ md_is in
                      rw (map_is, md_is)
                        (establish-large os' false mem' a' fd' h n'
                          ∙ use_mapping-old os' mem' a a' fd' e e' found)
                ]
          ]
