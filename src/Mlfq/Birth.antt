-- ===== src/Mlfq/Birth.antt =====
-- `allocproc`, `userinit` and `fork` of projects/p2/p2b/xv6/xv6/kernel/proc.c: what they do to the
-- census, and the slot and the pid that a new process gets.
use cs537_fall.Prelude.{
  ℕ, suc, ◌+◌, ◌<◌, ◌≡◌, ◌≢◌, refl, ◌==◌, Bool-cases, Option-cases, Option, none, some, inl, inr,
  arith, List,
}
use cs537_fall.Prelude.Loops.{first_below, IsFirst, first_below-IsFirst}
use cs537_fall.Mlfq.State.{nproc, unused, embryo, Kernel, Outcome, done, panic, is_unused, put}
use cs537_fall.Mlfq.Census.{IsBalanced, put-IsBalanced, enter-IsBalanced, show-IsBalanced}
use cs537_fall.Mlfq.Calls.{
  fresh_proc, allocproc, userinit, userinit_from, show_child, fork, fork_from,
}

-- The table after `allocproc` has filled slot `i`.
abbrev allocated : ℕ → ℕ → Kernel → Kernel
allocated kstack i k =
    put i (record (fresh_proc (k.procs i) k.nextpid) { kstack = kstack })
      (record (put i (fresh_proc (k.procs i) k.nextpid) k) { nextpid = k.nextpid + 1 })

pub allocproc_cases {ℓ} :
    (P : Option ℕ × Kernel → Type ℓ) (kstack : ℕ) (k : Kernel)
    → P (none, k)
    → ((i : ℕ)
        → IsFirst nproc (λ j. is_unused (k.procs j).state) i
        → P (
          none,
          put i
              (record (fresh_proc (k.procs i) k.nextpid) { kstack = 0; state = unused })
              (record (put i (fresh_proc (k.procs i) k.nextpid) k) { nextpid = k.nextpid + 1 }),
        ))
    → ((i : ℕ)
        → IsFirst nproc (λ j. is_unused (k.procs j).state) i
        → P (some i, allocated kstack i k))
    → P (allocproc kstack k)
unfolding allocproc
allocproc_cases P kstack k full failed got =
    elim (Option-cases (first_below nproc (λ i. is_unused (k.procs i).state))) [
      | inl e ↦ rw (e, allocproc) full
      | inr (i, e) ↦ elim (Bool-cases (kstack == 0)) [
        | inl null ↦ rw (e, null, allocproc) (failed i (first_below-IsFirst nproc _ e))
        | inr stack ↦ rw (e, stack, allocproc) (got i (first_below-IsFirst nproc _ e))
      ]
    ]

pub allocproc-IsBalanced :
    {owed : ℕ}
    → (kstack : ℕ) (k : Kernel) → IsBalanced owed k
    → IsBalanced owed (allocproc kstack k).1
allocproc-IsBalanced {owed} kstack k v =
    allocproc_cases (λ r. IsBalanced owed r.1) kstack k v
      (λ i first.
        put-IsBalanced i _ _ first.in_range (omega arith) (λ l hl. ground arith)
          (embryo-IsBalanced i first))
      (λ i first.
        put-IsBalanced i _ _ first.in_range (omega arith) (λ l hl. ground arith)
          (embryo-IsBalanced i first))
  where
    embryo-IsBalanced :
        (i : ℕ)
        → IsFirst nproc (λ j. is_unused (k.procs j).state) i
        → IsBalanced owed
            (record (put i (fresh_proc (k.procs i) k.nextpid) k) { nextpid = k.nextpid + 1 })
    embryo-IsBalanced i first =
        let w =
          put-IsBalanced i (fresh_proc (k.procs i) k.nextpid) k first.in_range (omega arith)
            (λ l hl. ground (arith, first.passes)) v in
        record { levels = w.levels; fits = w.fits; counts = w.counts }

-- The slot that `allocproc` hands out, and how it looks.
pub record IsBorn (k : Kernel) (i : ℕ) (k' : Kernel) : Type 0 where
  pub in_range : i < nproc
  pub was_free : (k.procs i).state ≡ unused
  pub is_embryo : (k'.procs i).state ≡ embryo
  pub at_top : (k'.procs i).level ≡ 0
  pub new_pid : (k'.procs i).pid ≡ k.nextpid
  pub next : k'.nextpid ≡ k.nextpid + 1
  pub others : (j : ℕ) → j ≢ i → k'.procs j ≡ k.procs j

-- No slot has a pid that is still to be given.
abbrev pub PidsBelow : Kernel → Type 0
PidsBelow k = (j : ℕ) → (k.procs j).pid < k.nextpid

allocproc-PidsBelow : (kstack : ℕ) (k : Kernel) → PidsBelow k → PidsBelow (allocproc kstack k).1
allocproc-PidsBelow kstack k h =
    allocproc_cases (λ r. PidsBelow r.1) kstack k h (λ i first j. ground (arith, h j))
      (λ i first j. ground (arith, h j))

fork_from-PidsBelow :
    (pgdir cur : ℕ) (r : Option ℕ × Kernel) → PidsBelow r.1 → PidsBelow (fork_from pgdir cur r).1
fork_from-PidsBelow pgdir cur (none, k) h = h
fork_from-PidsBelow pgdir cur (some i, k) h = elim (Bool-cases (pgdir == 0)) [
  | inl null ↦ rw null (λ j. ground (arith, h j, h i))
  | inr mapped ↦ rw mapped (λ j. ground (arith, h j, h i))
]

pub fork-PidsBelow :
    (kstack pgdir cur : ℕ) (k : Kernel) → PidsBelow k → PidsBelow (fork kstack pgdir cur k).1
unfolding fork
fork-PidsBelow kstack pgdir cur k h =
    fork_from-PidsBelow pgdir cur (allocproc kstack k) (allocproc-PidsBelow kstack k h)

-- The result -1: every slot is in the state it was in.
pub record IsRefused (k k' : Kernel) : Type 0 where
  pub same_state : (j : ℕ) → (k'.procs j).state ≡ (k.procs j).state

-- What `allocproc` returns: a slot for a new process, or none.
abbrev pub Allocated : Kernel → Option ℕ × Kernel → Type 0
Allocated k (none, k') = IsRefused k k'
Allocated k (some i, k') = IsBorn k i k'

pub allocproc-Allocated : (kstack : ℕ) (k : Kernel) → Allocated k (allocproc kstack k)
allocproc-Allocated kstack k =
    allocproc_cases (Allocated k) kstack k (record { same_state = λ j. refl })
      (λ i first. record { same_state = λ j. ground (arith, first.passes) })
      (λ i first. record {
        in_range = first.in_range;
        was_free = ground (arith, first.passes);
        is_embryo = ground arith;
        at_top = ground arith;
        new_pid = ground arith;
        next = ground arith;
        others = λ j h. ground arith;
      })

-- What `fork` leaves when its child is RUNNABLE and not counted: one more process is owed, if there is a
-- child.
abbrev pub Shown : ℕ → Option ℕ × Kernel → Type 0
Shown owed (none, k) = IsBalanced owed k
Shown owed (some pid, k) = IsBalanced (suc owed) k

-- `fork` from the return of `allocproc` to the line in which the child becomes RUNNABLE.
pub show_child-Shown :
    {owed : ℕ} (pgdir cur i : ℕ) (k : Kernel)
    → i < nproc
    → (k.procs i).state ≡ embryo
    → (k.procs i).level ≡ 0
    → IsBalanced owed k
    → Shown owed (show_child pgdir cur (some i, k))
show_child-Shown pgdir cur i k h filled top v = elim (Bool-cases (pgdir == 0)) [
  | inl null ↦ rw null (put-IsBalanced i _ k h (v.levels i) (λ l hl. ground (arith, filled)) v)
  | inr mapped ↦ rw mapped (show-IsBalanced i _ k h top (ground (arith, filled)) refl v)
]

-- The result of a call that may panic.
abbrev pub Keeps : ℕ → Outcome Kernel → Type 0
Keeps owed (done k) = IsBalanced owed k
Keeps owed panic = Unit

userinit_from-Keeps :
    {owed : ℕ}
    → (pgdir cwd : ℕ) (name : List ℕ) (k : Kernel) (r : Option ℕ × Kernel) → Allocated k r
    → IsBalanced owed r.1
    → Keeps owed (userinit_from pgdir cwd name r)
userinit_from-Keeps pgdir cwd name k (none, k') b v = tt
userinit_from-Keeps pgdir cwd name k (some i, k') b v = elim (Bool-cases (pgdir == 0)) [
  | inl null ↦ rw null tt
  | inr mapped ↦ rw mapped (
      enter-IsBalanced i _ _ (record k' { initproc = some i }) b.in_range refl (v.levels i)
        (ground (arith, b.is_embryo)) refl
        (record { levels = v.levels; fits = v.fits; counts = v.counts }))
]

pub userinit-Keeps :
    {owed : ℕ}
    → (kstack pgdir cwd : ℕ) (name : List ℕ) (k : Kernel) → IsBalanced owed k
    → Keeps owed (userinit kstack pgdir cwd name k)
unfolding userinit
userinit-Keeps kstack pgdir cwd name k v =
    userinit_from-Keeps pgdir cwd name k (allocproc kstack k) (allocproc-Allocated kstack k)
      (allocproc-IsBalanced kstack k v)
