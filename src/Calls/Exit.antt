-- ===== src/Calls/Exit.antt =====
-- `dthread_nexit` of libdthread/dt_threadops.c and the clean-up of the thread in
-- libdthread/dt_mgrthread.c.
use dthread.Base.{
  ℕ, ◌≡◌, ◌<◌, ap, ◌∙◌, true, false, some, arith, length, set, get_or-set_self, length-set,
}
use dthread.Types.{Argret}
use dthread.Types.Op
use dthread.Manager.State.{
  State, Gtab, Ltab, gtab_at, gtab_zero, ltab_at, ltab_zero, lt_exited, lt_cleanup,
}
use dthread.Manager.Wrapper.{
  is_native, dthreadcleanup, retclean_request, mark_canceled, finalize_state, hand_over,
}
use dthread.Calls.{exit_common}

-- The native thread in the slot `i` runs.
pub record RunsNative (i : ℕ) (s : State) : Type 0 where
  pub in_range : (ltab_at s i).gtab_idx < s.nmaxthread
  pub gtab_size : length s.gtab ≡ s.nmaxthread
  pub slot : i < length s.ltab
  pub same_seq : (ltab_at s i).seq ≡ (gtab_at s (ltab_at s i).gtab_idx).seq
  pub disp : (gtab_at s (ltab_at s i).gtab_idx).disp_idx < s.ndsps
  pub native : is_native s (gtab_at s (ltab_at s i).gtab_idx).disp_idx ≡ true

module _ (i : ℕ) (r : Argret) (s : State) (v : RunsNative i s) where
  abbrev g : ℕ
  g = (ltab_at s i).gtab_idx

  abbrev pub exited : State
  exited = record s {
    gtab = set s.gtab g (record (gtab_at s g) { ret = r });
    ltab = set s.ltab i (record (ltab_at s i) { pth_state = lt_exited });
  }

  exit_common-exited : exit_common true i (some r) 0 r s ≡ some exited
  unfolding exit_common
  exit_common-exited = ground (arith, v.in_range, v.same_seq, v.disp, v.native)

  ltab-at : ltab_at exited i ≡ record (ltab_at s i) { pth_state = lt_exited }
  ltab-at = get_or-set_self s.ltab i _ ltab_zero v.slot

  gtab-at : gtab_at exited g ≡ record (gtab_at s g) { ret = r }
  gtab-at = get_or-set_self s.gtab g _ gtab_zero (omega (arith, v.in_range, v.gtab_size))

  finalize-exited : finalize_state i lt_cleanup exited ≡ exited
  unfolding finalize_state
  finalize-exited = ground (arith, ltab-at)

  mark-exited : mark_canceled i exited ≡ exited
  unfolding mark_canceled
  mark-exited = ground (arith, ltab-at)

  retclean-exited : retclean_request i lt_cleanup exited ≡ hand_over i Op.retclean exited
  unfolding retclean_request
  retclean-exited =
      ap (λ x. hand_over i Op.retclean x) (ap (mark_canceled i) finalize-exited ∙ mark-exited)

  cleanup-exited :
      (encode : ℕ) (ret : Argret)
      → dthreadcleanup i false encode ret exited ≡ retclean_request i lt_cleanup exited
  unfolding dthreadcleanup
  cleanup-exited encode ret = ground (arith, ltab-at, gtab-at, v.native)

  handed : (ltab_at (hand_over i Op.retclean exited) i).pth_state ≡ lt_exited
  handed =
      ap (λ (x : Ltab). x.pth_state)
        (get_or-set_self exited.ltab i _ ltab_zero (
          omega
            (arith, v.slot, length-set s.ltab i (record (ltab_at s i) { pth_state = lt_exited }))))
      ∙ ap (λ (x : Ltab). x.pth_state) ltab-at

  -- A native thread that calls `dthread_nexit` leaves its value in its entry of `gtab[]`, and the
  -- clean-up that follows keeps the value and ends in the state LT_EXITED.
  pub exit_common-dthreadcleanup :
      (encode : ℕ) (ret : Argret)
      → let t = dthreadcleanup i false encode ret exited in
        (exit_common true i (some r) 0 r s ≡ some exited)
        × ((gtab_at t (ltab_at s i).gtab_idx).ret ≡ r)
        × ((ltab_at t i).pth_state ≡ lt_exited)
  exit_common-dthreadcleanup encode ret =
      let e = cleanup-exited encode ret ∙ retclean-exited in
      (
        exit_common-exited,
        ap (λ (x : State). (gtab_at x g).ret) e ∙ ap (λ (x : Gtab). x.ret) gtab-at,
        ap (λ (x : State). (ltab_at x i).pth_state) e ∙ handed,
      )
