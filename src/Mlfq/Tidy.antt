-- ===== src/Mlfq/Tidy.antt =====
-- The slots of the table of projects/p2/p2b/xv6/xv6/kernel/proc.c: every call keeps the pids below `nextpid`,
-- and an EMBRYO at level 0, where `allocproc` has put it.
use cs537_fall.Prelude.{
  ℕ, ◌+◌, ◌<◌, ◌≡◌, ◌==◌, not, ◌&&◌, ◌||◌, true, Bool, Bool-cases, Option-cases, Option, none, some,
  inl, inr, List, arith,
}
use cs537_fall.Prelude.Loops.{for_below_inv, first_below}
use cs537_fall.Mlfq.State.{
  nproc, embryo, Chan, slot, Proc, Kernel, Outcome, done, panic, is_sleeping, is_parent, is_zombie,
  is_runnable, chan_eq, chan_of, put,
}
use cs537_fall.Mlfq.Calls.{
  fresh_proc, allocproc, userinit, userinit_from, show_child, wake_slot, wakeup1, adopt_slot,
  become_zombie, exit, sleep, sleep_tidy, yield, Waited, reaped, no_child, asleep, wait, wait_from,
  wait_scan, kill, kill_slot,
}
use cs537_fall.Mlfq.Scheduler.{dispatch, ticked, used_up}
use cs537_fall.Mlfq.Boost.{boost_slot, is_starved, check_starve_and_boost}
use cs537_fall.Mlfq.Birth.{allocproc_cases}

-- A slot whose pid has been given, and that is at level 0 while its state is EMBRYO.
pub record IsTidySlot (nextpid : ℕ) (p : Proc) : Type 0 where
  pub below : p.pid < nextpid
  pub at_top : p.state ≡ embryo → p.level ≡ 0

abbrev pub IsTidy : Kernel → Type 0
IsTidy k = (j : ℕ) → IsTidySlot k.nextpid (k.procs j)

put-IsTidy :
    (i : ℕ) (q : Proc) (k : Kernel) → IsTidy k → IsTidySlot k.nextpid q → IsTidy (put i q k)
put-IsTidy i q k h new j = elim (Bool-cases (i == j)) [
  | inl same ↦ rw same new
  | inr other ↦ rw other (h j)
]

later : (n : ℕ) (p : Proc) → IsTidySlot n p → IsTidySlot (n + 1) p
later n p h = record { below = omega (arith, h.below); at_top = h.at_top }

pub allocproc-IsTidy : (kstack : ℕ) (k : Kernel) → IsTidy k → IsTidy (allocproc kstack k).1
allocproc-IsTidy kstack k h =
    allocproc_cases (λ r. IsTidy r.1) kstack k h
      (λ i first.
        put-IsTidy i _
          (put i (fresh_proc (k.procs i) k.nextpid) (record k { nextpid = k.nextpid + 1 }))
          (put-IsTidy i _ (record k { nextpid = k.nextpid + 1 }) (λ j. later _ _ (h j))
            (record { below = omega arith; at_top = λ e. omega arith }))
          (record { below = omega arith; at_top = λ e. omega arith }))
      (λ i first.
        put-IsTidy i _
          (put i (fresh_proc (k.procs i) k.nextpid) (record k { nextpid = k.nextpid + 1 }))
          (put-IsTidy i _ (record k { nextpid = k.nextpid + 1 }) (λ j. later _ _ (h j))
            (record { below = omega arith; at_top = λ e. omega arith }))
          (record { below = omega arith; at_top = λ e. omega arith }))

abbrev pub TidyIfDone : Outcome Kernel → Type 0
TidyIfDone (done k) = IsTidy k
TidyIfDone panic = Unit

userinit_from-IsTidy :
    (pgdir cwd : ℕ) (name : List ℕ) (r : Option ℕ × Kernel)
    → IsTidy r.1
    → TidyIfDone (userinit_from pgdir cwd name r)
userinit_from-IsTidy pgdir cwd name (none, k) h = tt
userinit_from-IsTidy pgdir cwd name (some i, k) h = elim (Bool-cases (pgdir == 0)) [
  | inl null ↦ rw null tt
  | inr mapped ↦ rw mapped (
      put-IsTidy i _ (record k { initproc = some i }) h
        (record { below = (h i).below; at_top = λ e. absurd (cc) }))
]

pub userinit-IsTidy :
    (kstack pgdir cwd : ℕ) (name : List ℕ) (k : Kernel)
    → IsTidy k
    → TidyIfDone (userinit kstack pgdir cwd name k)
unfolding userinit
userinit-IsTidy kstack pgdir cwd name k h =
    userinit_from-IsTidy pgdir cwd name (allocproc kstack k) (allocproc-IsTidy kstack k h)

pub show_child-IsTidy :
    (pgdir cur : ℕ) (r : Option ℕ × Kernel) → IsTidy r.1 → IsTidy (show_child pgdir cur r).1
show_child-IsTidy pgdir cur (none, k) h = h
show_child-IsTidy pgdir cur (some i, k) h = elim (Bool-cases (pgdir == 0)) [
  | inl null ↦
      rw null (put-IsTidy i _ k h (record { below = (h i).below; at_top = λ e. absurd (cc) }))
  | inr mapped ↦
      rw mapped (put-IsTidy i _ k h (record { below = (h i).below; at_top = λ e. absurd (cc) }))
]

wake_slot-IsTidy : (c : Chan) (i : ℕ) (k : Kernel) → IsTidy k → IsTidy (wake_slot c i k)
unfolding wake_slot
wake_slot-IsTidy c i k h =
    elim (Bool-cases (is_sleeping (k.procs i).state && chan_eq (k.procs i).chan c)) [
      | inl woken ↦
          rw woken (put-IsTidy i _ k h (record { below = (h i).below; at_top = λ e. absurd (cc) }))
      | inr stays ↦ rw stays h
    ]

pub wakeup1-IsTidy : (c : Chan) (k : Kernel) → IsTidy k → IsTidy (wakeup1 c k)
unfolding wakeup1
wakeup1-IsTidy c k h =
    for_below_inv IsTidy nproc (wake_slot c) (λ i s _ t. wake_slot-IsTidy c i s t) k h

adopt_slot-IsTidy : (cur i : ℕ) (k : Kernel) → IsTidy k → IsTidy (adopt_slot cur i k)
unfolding adopt_slot
adopt_slot-IsTidy cur i k h =
    let w =
      put-IsTidy i (record (k.procs i) { parent = k.initproc }) k h
        (record { below = (h i).below; at_top = (h i).at_top }) in
    elim (Bool-cases (is_parent (k.procs i).parent cur)) [
      | inl child ↦ elim (Bool-cases (is_zombie (k.procs i).state)) [
        | inl dead ↦ rw (child, dead) (wakeup1-IsTidy (chan_of k.initproc) _ w)
        | inr alive ↦ rw (child, alive) w
      ]
      | inr other ↦ rw other h
    ]

become_zombie-IsTidy : (cur : ℕ) (k : Kernel) → IsTidy k → IsTidy (become_zombie cur k)
unfolding become_zombie
become_zombie-IsTidy cur k h =
    put-IsTidy cur _ k h (record { below = (h cur).below; at_top = λ e. absurd (cc) })

pub exit-IsTidy : (cur : ℕ) (k : Kernel) → IsTidy k → TidyIfDone (exit cur k)
unfolding exit
exit-IsTidy cur k h = elim (Bool-cases (is_parent k.initproc cur)) [
  | inl init ↦ rw init tt
  | inr other ↦ rw other (
      become_zombie-IsTidy cur _ (
        for_below_inv IsTidy nproc (adopt_slot cur) (λ i s _ t. adopt_slot-IsTidy cur i s t) _
          (wakeup1-IsTidy _ _
            (put-IsTidy cur _ k h (record { below = (h cur).below; at_top = (h cur).at_top })))))
]

pub sleep-IsTidy : (c : Chan) (cur : ℕ) (k : Kernel) → IsTidy k → IsTidy (sleep c cur k)
unfolding sleep
sleep-IsTidy c cur k h =
    put-IsTidy cur _ k h (record { below = (h cur).below; at_top = λ e. absurd (cc) })

pub sleep_tidy-IsTidy : (cur : ℕ) (k : Kernel) → IsTidy k → IsTidy (sleep_tidy cur k)
unfolding sleep_tidy
sleep_tidy-IsTidy cur k h =
    put-IsTidy cur _ k h (record { below = (h cur).below; at_top = (h cur).at_top })

pub yield-IsTidy : (cur : ℕ) (k : Kernel) → IsTidy k → IsTidy (yield cur k)
unfolding yield
yield-IsTidy cur k h =
    put-IsTidy cur _ k h (record { below = (h cur).below; at_top = λ e. absurd (cc) })

abbrev pub WaitTidy : Waited → Type 0
WaitTidy (reaped pid k) = IsTidy k
WaitTidy (no_child k) = IsTidy k
WaitTidy (asleep k) = IsTidy k

wait_from-IsTidy :
    (cur : ℕ) (k : Kernel) (r : Option ℕ × Bool) → IsTidy k → WaitTidy (wait_from cur k r)
wait_from-IsTidy cur k (some i, kids) h =
    put-IsTidy i _ k h (record { below = omega (arith, (h i).below); at_top = λ e. absurd (cc) })
wait_from-IsTidy cur k (none, kids) h = elim (Bool-cases (not kids || (k.procs cur).killed)) [
  | inl give_up ↦ rw give_up h
  | inr stay ↦ rw stay (sleep-IsTidy (slot cur) cur k h)
]

pub wait-IsTidy : (cur : ℕ) (k : Kernel) → IsTidy k → WaitTidy (wait cur k)
unfolding wait
wait-IsTidy cur k h = wait_from-IsTidy cur k (wait_scan cur nproc k) h

kill_slot-IsTidy : (i : ℕ) (k : Kernel) → IsTidy k → IsTidy (kill_slot i k)
unfolding kill_slot
kill_slot-IsTidy i k h =
    let w =
      put-IsTidy i (record (k.procs i) { killed = true }) k h
        (record { below = (h i).below; at_top = (h i).at_top }) in
    elim (Bool-cases (is_sleeping (k.procs i).state)) [
      | inl sleeps ↦ rw sleeps (
          put-IsTidy i _ (put i (record (k.procs i) { killed = true }) k) w
            (record { below = (h i).below; at_top = λ e. absurd (cc) }))
      | inr awake ↦ rw awake w
    ]

pub kill-IsTidy : (pid : ℕ) (k : Kernel) → IsTidy k → IsTidy (kill pid k).1
unfolding kill
kill-IsTidy pid k h = elim (Option-cases (first_below nproc (λ i. (k.procs i).pid == pid))) [
  | inl e ↦ rw (e, kill) h
  | inr (i, e) ↦ rw (e, kill) (kill_slot-IsTidy i k h)
]

pub dispatch-IsTidy : (i : ℕ) (k : Kernel) → IsTidy k → IsTidy (dispatch i k)
unfolding dispatch
dispatch-IsTidy i k h =
    let w =
      put-IsTidy i (ticked (k.procs i)) k h
        (record { below = (h i).below; at_top = λ e. absurd (cc) }) in
    elim (Bool-cases (used_up (k.procs i) && not ((k.procs i).level == 3))) [
      | inl lowered ↦ rw lowered (
          put-IsTidy i _ (put i (ticked (k.procs i)) k) w
            (record { below = (h i).below; at_top = λ e. absurd (cc) }))
      | inr stays ↦ rw stays w
    ]

boost_slot-IsTidy : (i : ℕ) (k : Kernel) → IsTidy k → IsTidy (boost_slot i k)
unfolding boost_slot
boost_slot-IsTidy i k h = elim (Bool-cases (is_runnable (k.procs i).state)) [
  | inl ready ↦ elim (Bool-cases (is_starved i k)) [
    | inl starved ↦
        rw (ready, starved)
          (put-IsTidy i _ k h
            (record { below = (h i).below; at_top = λ e. omega (arith, (h i).at_top e) }))
    | inr fed ↦ rw (ready, fed) h
  ]
  | inr other ↦ rw other h
]

pub check_starve_and_boost-IsTidy : (k : Kernel) → IsTidy k → IsTidy (check_starve_and_boost k)
unfolding check_starve_and_boost
check_starve_and_boost-IsTidy k h =
    for_below_inv IsTidy nproc boost_slot (λ i s _ t. boost_slot-IsTidy i s t) k h
