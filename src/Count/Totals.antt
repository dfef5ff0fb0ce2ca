-- ===== src/Count/Totals.antt =====
-- The counter of projects/p1/p1b/xv6/kernel/syscall.c is the number of calls that were made.
use cs537_fall.Prelude.{
  ℕ, ◌+◌, ◌-◌, ◌%◌, ◌^◌, ◌<◌, ◌≡◌, refl, ◌∙◌, ap, ◌==◌, not, if◌then◌else◌, Bool, Bool-cases, inl,
  inr, ◌&&◌, List, [], ◌∷◌, arith,
}
use cs537_fall.Prelude.Arrays.{update, update_self}
use cs537_fall.Count.Calls.{
  Procs, Handlers, Proc, is_known, sys_getnumsyscallp_number, set_eax, count_call, call_handler,
  return_value, dispatch_call, syscall, make_calls,
}

-- The calls that are counted.
abbrev pub is_counted : ℕ → Bool
is_counted num = is_known num && not (num == sys_getnumsyscallp_number)

unfoldable pub counted_calls : List ℕ → ℕ
counted_calls [] = 0
counted_calls (num ∷ nums) = (if is_counted num then 1 else 0) + counted_calls nums

module _ (handlers : Handlers) (cur : ℕ)
    (keep : (num : ℕ) (procs : Procs)
      → ((handlers num procs).1 cur).numsyscalls ≡ (procs cur).numsyscalls) where
  set_eax-total :
      (v : ℕ) (procs : Procs) → (set_eax cur v procs cur).numsyscalls ≡ (procs cur).numsyscalls
  set_eax-total v procs = rw (update_self procs cur (record (procs cur) { eax = v })) refl

  -- What the dispatch does with a known call.
  dispatched-total :
      (num : ℕ) (procs : Procs)
      → (procs cur).numsyscalls < 2 ^ 32
      → (return_value cur
          (call_handler handlers num cur (count_call num cur procs))
          cur).numsyscalls
        ≡ ((procs cur).numsyscalls + (if not (num == sys_getnumsyscallp_number) then 1 else 0))
          % 2 ^ 32
  dispatched-total num procs h = elim (Bool-cases (num == sys_getnumsyscallp_number)) [
    | inl own ↦ rw own (set_eax-total (procs cur).numsyscalls procs ∙ omega arith)
    | inr other ↦
        let counted = record (procs cur) { numsyscalls = ((procs cur).numsyscalls + 1) % 2 ^ 32 } in
        rw other (
          set_eax-total (handlers num (update procs cur counted)).0
            (handlers num (update procs cur counted)).1
          ∙ keep num (update procs cur counted)
          ∙ ap (λ (p : Proc). p.numsyscalls) (update_self procs cur counted))
  ]

  dispatch_call-total :
      (num : ℕ) (procs : Procs)
      → (procs cur).numsyscalls < 2 ^ 32
      → (dispatch_call handlers num cur procs cur).numsyscalls
        ≡ ((procs cur).numsyscalls + (if is_counted num then 1 else 0)) % 2 ^ 32
  dispatch_call-total num procs h = elim (Bool-cases (is_known num)) [
    | inl known ↦ rw known (dispatched-total num procs h)
    | inr unknown ↦ rw unknown (set_eax-total (2 ^ 32 - 1) procs ∙ omega arith)
  ]

  -- One call adds one if it is counted.
  syscall-total :
      (num : ℕ) (procs : Procs)
      → (procs cur).numsyscalls < 2 ^ 32
      → (syscall handlers cur (set_eax cur num procs) cur).numsyscalls
        ≡ ((procs cur).numsyscalls + (if is_counted num then 1 else 0)) % 2 ^ 32
  unfolding syscall
  syscall-total num procs h =
      let as_set : (set_eax cur num procs cur).eax ≡ num =
        ap (λ (p : Proc). p.eax) (update_self procs cur (record (procs cur) { eax = num })) in
      ap (λ k. (dispatch_call handlers k cur (set_eax cur num procs) cur).numsyscalls) as_set
      ∙ dispatch_call-total num (set_eax cur num procs) (omega (arith, set_eax-total num procs))
      ∙ ap (λ n. (n + (if is_counted num then 1 else 0)) % 2 ^ 32) (set_eax-total num procs)

  -- Where the handlers leave the caller's counter alone, the counter after any calls, one after the other,
  -- is the counter before plus the number of calls with a known number other than that of
  -- `getnumsyscallp`, modulo 2^32.
  pub make_calls-total :
      (nums : List ℕ) (procs : Procs)
      → (procs cur).numsyscalls < 2 ^ 32
      → (make_calls handlers cur nums procs cur).numsyscalls
        ≡ ((procs cur).numsyscalls + counted_calls nums) % 2 ^ 32
  unfolding make_calls counted_calls
  make_calls-total [] procs h = omega arith
  make_calls-total (num ∷ nums) procs h =
      let after = syscall handlers cur (set_eax cur num procs) in
      make_calls-total nums after (omega (arith, syscall-total num procs h))
      ∙ omega (arith, syscall-total num procs h)

  -- Where the handlers leave the caller's counter alone, `getnumsyscallp` after any calls, one after the
  -- other, returns the counter before plus the number of those calls with a known number other than that
  -- of `getnumsyscallp`, modulo 2^32.
  pub getnumsyscallp-total :
      (nums : List ℕ) (procs : Procs)
      → (procs cur).numsyscalls < 2 ^ 32
      → (syscall handlers cur
          (set_eax cur sys_getnumsyscallp_number (make_calls handlers cur nums procs))
          cur).eax
        ≡ ((procs cur).numsyscalls + counted_calls nums) % 2 ^ 32
  unfolding syscall
  getnumsyscallp-total nums procs h =
      let after = make_calls handlers cur nums procs in
      let trapped = set_eax cur sys_getnumsyscallp_number after in
      let as_set : (trapped cur).eax ≡ sys_getnumsyscallp_number =
        ap (λ (p : Proc). p.eax)
          (update_self after cur (record (after cur) { eax = sys_getnumsyscallp_number })) in
      ap (λ k. (dispatch_call handlers k cur trapped cur).eax) as_set
      ∙ ap (λ (p : Proc). p.eax)
          (update_self trapped cur (record (trapped cur) { eax = (trapped cur).numsyscalls }))
      ∙ set_eax-total sys_getnumsyscallp_number after
      ∙ make_calls-total nums procs h
