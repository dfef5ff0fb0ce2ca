-- ===== src/Mlfq/Keeps.antt =====
-- The calls of projects/p2/p2b/xv6/xv6/kernel/proc.c on an existing process keep the balance
-- of `ninlevel` and the processes that run or could run, level by level.
use cs537_fall.Prelude.{
  ℕ, zero, suc, not, ◌||◌, ◌<◌, ◌≡◌, refl, ◌==◌, ◌&&◌, true, Bool, Bool-cases, Option-cases, Option,
  none, some, inl, inr, arith,
}
use cs537_fall.Prelude.Loops.{for_below_inv, first_below, first_below-IsFirst}
use cs537_fall.Mlfq.State.{
  nproc, running, Chan, slot, Kernel, is_sleeping, is_parent, is_zombie, chan_of, chan_eq, put,
}
use cs537_fall.Mlfq.Census.{IsBalanced, put-IsBalanced, enter-IsBalanced, leave-IsBalanced}
use cs537_fall.Mlfq.Birth.{Keeps}
use cs537_fall.Mlfq.Calls.{
  wake_slot, wakeup1, adopt_slot, close_files, become_zombie, exit, sleep, sleep_tidy, wait_scan,
  wait, Waited, reaped, no_child, asleep, yield, kill_slot, kill, wait_look, wait_from,
}

-- What a call must not touch in any slot but by the rules: the level and whether it counts.
wake_slot-IsBalanced :
    {owed : ℕ}
    → (c : Chan) (i : ℕ) (k : Kernel) → i < nproc
    → IsBalanced owed k
    → IsBalanced owed (wake_slot c i k)
unfolding wake_slot
wake_slot-IsBalanced c i k h v =
    elim (Bool-cases (is_sleeping (k.procs i).state && chan_eq (k.procs i).chan c)) [
      | inl woken ↦ rw woken (enter-IsBalanced i _ _ k h refl (v.levels i) (ground arith) refl v)
      | inr stays ↦ rw stays v
    ]

pub wakeup1-IsBalanced :
    {owed : ℕ} → (c : Chan) (k : Kernel) → IsBalanced owed k → IsBalanced owed (wakeup1 c k)
unfolding wakeup1
wakeup1-IsBalanced c k v =
    for_below_inv (IsBalanced _) nproc (wake_slot c) (λ i s h. wake_slot-IsBalanced c i s h) k v

adopt_slot-IsBalanced :
    {owed : ℕ}
    → (cur i : ℕ) (k : Kernel) → i < nproc
    → IsBalanced owed k
    → IsBalanced owed (adopt_slot cur i k)
unfolding adopt_slot
adopt_slot-IsBalanced cur i k h v =
    let w =
      put-IsBalanced i (record (k.procs i) { parent = k.initproc }) k h (v.levels i) (λ l hl. refl)
        v in
    elim (Bool-cases (is_parent (k.procs i).parent cur)) [
      | inl child ↦ elim (Bool-cases (is_zombie (k.procs i).state)) [
        | inl dead ↦ rw (child, dead) (wakeup1-IsBalanced (chan_of k.initproc) _ w)
        | inr alive ↦ rw (child, alive) w
      ]
      | inr other ↦ rw other v
    ]

-- The calling process still runs: no loop of `exit` changes its state.
pub yield-IsBalanced :
    {owed : ℕ}
    → (cur : ℕ) (k : Kernel) → cur < nproc
    → (k.procs cur).state ≡ running
    → IsBalanced owed k
    → IsBalanced owed (yield cur k)
unfolding yield
yield-IsBalanced cur k h run v = put-IsBalanced cur _ k h (v.levels cur) (λ l hl. ground arith) v

pub sleep-IsBalanced :
    {owed : ℕ}
    → (c : Chan) (cur : ℕ) (k : Kernel) → cur < nproc
    → (k.procs cur).state ≡ running
    → IsBalanced owed k
    → IsBalanced owed (sleep c cur k)
unfolding sleep
sleep-IsBalanced c cur k h run v =
    leave-IsBalanced cur _ _ k h refl (v.levels cur) (ground arith) refl v

pub sleep_tidy-IsBalanced :
    {owed : ℕ}
    → (cur : ℕ) (k : Kernel) → cur < nproc
    → IsBalanced owed k
    → IsBalanced owed (sleep_tidy cur k)
unfolding sleep_tidy
sleep_tidy-IsBalanced cur k h v = put-IsBalanced cur _ k h (v.levels cur) (λ l hl. refl) v

kill_slot-IsBalanced :
    {owed : ℕ}
    → (i : ℕ) (k : Kernel) → i < nproc
    → IsBalanced owed k
    → IsBalanced owed (kill_slot i k)
unfolding kill_slot
kill_slot-IsBalanced i k h v =
    let w =
      put-IsBalanced i (record (k.procs i) { killed = true }) k h (v.levels i) (λ l hl. refl) v in
    elim (Bool-cases (is_sleeping (k.procs i).state)) [
      | inl sleeps ↦ rw sleeps (enter-IsBalanced i _ _ _ h refl (v.levels i) (ground arith) refl w)
      | inr awake ↦ rw awake w
    ]

pub kill-IsBalanced :
    {owed : ℕ} → (pid : ℕ) (k : Kernel) → IsBalanced owed k → IsBalanced owed (kill pid k).1
unfolding kill
kill-IsBalanced pid k v = elim (Option-cases (first_below nproc (λ i. (k.procs i).pid == pid))) [
  | inl e ↦ rw (e, kill) v
  | inr (i, e) ↦ rw (e, kill) (kill_slot-IsBalanced i k (first_below-IsFirst nproc _ e).in_range v)
]

-- Through the loops of `exit` the caller stays in the census.
abbrev StillRuns : ℕ → ℕ → Kernel → Type 0
StillRuns owed cur k = IsBalanced owed k × ((k.procs cur).state ≡ running)

wake_slot-running :
    (cur : ℕ) (c : Chan) (i : ℕ) (k : Kernel)
    → (k.procs cur).state ≡ running
    → ((wake_slot c i k).procs cur).state ≡ running
unfolding wake_slot
wake_slot-running cur c i k run = ground arith

wakeup1-StillRuns :
    {owed : ℕ} (cur : ℕ) (c : Chan) (k : Kernel)
    → StillRuns owed cur k
    → StillRuns owed cur (wakeup1 c k)
unfolding wakeup1
wakeup1-StillRuns cur c k =
    for_below_inv (StillRuns _ cur) nproc (wake_slot c)
      (λ i s h p. (wake_slot-IsBalanced c i s h p.0, wake_slot-running cur c i s p.1)) k

adopt_slot-StillRuns :
    {owed : ℕ} (cur i : ℕ) (k : Kernel)
    → i < nproc
    → StillRuns owed cur k
    → StillRuns owed cur (adopt_slot cur i k)
unfolding adopt_slot
adopt_slot-StillRuns cur i k h (v, run) =
    let adopted = record (k.procs i) { parent = k.initproc } in
    let w : StillRuns _ cur (put i adopted k) =
      (put-IsBalanced i adopted k h (v.levels i) (λ l hl. refl) v, ground arith) in
    elim (Bool-cases (is_parent (k.procs i).parent cur)) [
      | inl child ↦ elim (Bool-cases (is_zombie (k.procs i).state)) [
        | inl dead ↦ rw (child, dead) (wakeup1-StillRuns cur (chan_of k.initproc) _ w)
        | inr alive ↦ rw (child, alive) w
      ]
      | inr other ↦ rw other (v, run)
    ]

become_zombie-IsBalanced :
    {owed : ℕ}
    → (cur : ℕ) (k : Kernel) → cur < nproc
    → StillRuns owed cur k
    → IsBalanced owed (become_zombie cur k)
unfolding become_zombie
become_zombie-IsBalanced cur k h (v, run) =
    leave-IsBalanced cur _ _ k h refl (v.levels cur) (ground arith) refl v

pub exit-Keeps :
    {owed : ℕ}
    → (cur : ℕ) (k : Kernel) → cur < nproc
    → (k.procs cur).state ≡ running
    → IsBalanced owed k
    → Keeps owed (exit cur k)
unfolding exit
exit-Keeps cur k h run v = elim (Bool-cases (is_parent k.initproc cur)) [
  | inl init ↦ rw init tt
  | inr other ↦ rw other (
      become_zombie-IsBalanced cur _ h (
        for_below_inv (StillRuns _ cur) nproc (adopt_slot cur)
          (λ i s hi p. adopt_slot-StillRuns cur i s hi p) _
          (wakeup1-StillRuns cur _ _ (
            put-IsBalanced cur (close_files (k.procs cur)) k h (v.levels cur) (λ l hl. refl) v,
            ground arith,
          ))))
]

-- What the scan of `wait` stops at.
pub record IsReapable (cur n : ℕ) (k : Kernel) (i : ℕ) : Type 0 where
  pub in_range : i < n
  pub child : is_parent (k.procs i).parent cur ≡ true
  pub dead : is_zombie (k.procs i).state ≡ true

abbrev pub Scanned : ℕ → ℕ → Kernel → Option ℕ × Bool → Type 0
Scanned cur n k (some i, kids) = IsReapable cur n k i
Scanned cur n k (none, kids) = Unit

wait_look-Scanned :
    (cur n : ℕ) (k : Kernel) (r : Option ℕ × Bool)
    → Scanned cur n k r
    → Scanned cur (suc n) k (wait_look cur n k r)
wait_look-Scanned cur n k (some i, kids) s = ground (arith, s)
wait_look-Scanned cur n k (none, kids) s = elim (Bool-cases (is_parent (k.procs n).parent cur)) [
  | inl child ↦ elim (Bool-cases (is_zombie (k.procs n).state)) [
    | inl dead ↦ rw (child, dead) (record { in_range = omega arith; child = child; dead = dead })
    | inr alive ↦ rw (child, alive) tt
  ]
  | inr other ↦ rw other tt
]

pub wait_scan-Scanned : (cur n : ℕ) (k : Kernel) → Scanned cur n k (wait_scan cur n k)
unfolding wait_scan
wait_scan-Scanned cur zero k = tt
wait_scan-Scanned cur (suc n) k = wait_look-Scanned cur n k _ (wait_scan-Scanned cur n k)

-- How a round of `wait` ends.
abbrev pub WaitKeeps : ℕ → Waited → Type 0
WaitKeeps owed (reaped pid k) = IsBalanced owed k
WaitKeeps owed (no_child k) = IsBalanced owed k
WaitKeeps owed (asleep k) = IsBalanced owed k

wait_from-WaitKeeps :
    {owed : ℕ}
    → (cur : ℕ) (k : Kernel) (r : Option ℕ × Bool) → cur < nproc
    → (k.procs cur).state ≡ running
    → IsBalanced owed k
    → Scanned cur nproc k r
    → WaitKeeps owed (wait_from cur k r)
wait_from-WaitKeeps cur k (some i, kids) h run v s =
    put-IsBalanced i _ k s.in_range (v.levels i) (λ l hl. ground (arith, s.dead)) v
wait_from-WaitKeeps cur k (none, kids) h run v s =
    elim (Bool-cases (not kids || (k.procs cur).killed)) [
      | inl give_up ↦ rw give_up v
      | inr stay ↦ rw stay (sleep-IsBalanced (slot cur) cur k h run v)
    ]

pub wait-WaitKeeps :
    {owed : ℕ}
    → (cur : ℕ) (k : Kernel) → cur < nproc
    → (k.procs cur).state ≡ running
    → IsBalanced owed k
    → WaitKeeps owed (wait cur k)
unfolding wait
wait-WaitKeeps cur k h run v = wait_from-WaitKeeps cur k _ h run v (wait_scan-Scanned cur nproc k)
