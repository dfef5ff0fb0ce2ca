-- ===== src/Shm/Children.antt =====
-- fork and userinit of projects/p3/p3b/xv6/kernel/proc.c: the slot that they fill.
use cs537_fall.Prelude.{
  ℕ, ◌<◌, ◌≡◌, ◌≢◌, ◌⊎◌, refl, ◌==◌, true, Bool-cases, Option-cases, inl, inr, Option, none, some,
  arith,
}
use cs537_fall.Prelude.Arrays.{update}
use cs537_fall.Prelude.Loops.{for_below, for_below_inv, first_below, first_below-IsFirst}
use cs537_fall.Mlfq.State.{unused, is_unused, Outcome, done, panic}
use cs537_fall.Shm.State.{regions, nproc, usertop, pgsize, Proc, Shm, put}
use cs537_fall.Shm.Calls.{share_region, allocproc, fork_from, fork, userinit_from, userinit}
use cs537_fall.Shm.Refs.{IsCounted, InUse, increase-IsStep}
use cs537_fall.Shm.Fork.{Allocated, allocproc-Allocated, shared_all}

-- Only slot `i` has changed, and no number of pages has.
pub record IsOnly (i : ℕ) (m s : Shm) : Type 0 where
  pub others : (k : ℕ) → k ≢ i → s.procs k ≡ m.procs k
  pub pages : s.pages ≡ m.pages

-- Without a slot, nothing has changed that is in use; with one, it is bare.
abbrev pub Filled : Shm → Option ℕ × Shm → Type 0
Filled m (none, s) =
    (i : ℕ) × IsOnly i m s × (((s.procs i).state ≡ unused) ⊎ (s.procs i ≡ m.procs i))
Filled m (some i, s) =
    (i < nproc)
    × IsOnly i m s
    × ((s.procs i).shmtop ≡ usertop)
    × ((j : ℕ) → (s.procs i).vaddr j ≡ 0)
    × (is_unused (m.procs i).state ≡ true)
    × (s.count ≡ m.count)

pub allocproc-Filled : (kstack : ℕ) (m : Shm) → Filled m (allocproc kstack m)
unfolding allocproc
allocproc-Filled kstack m =
    elim (Option-cases (first_below nproc (λ i. is_unused (m.procs i).state))) [
      | inl e ↦ rw (e, allocproc) (0, record { others = λ k ne. refl; pages = refl }, inr refl)
      | inr (i, e) ↦
          let first = first_below-IsFirst nproc _ e in
          elim (Bool-cases (kstack == 0)) [
            | inl null ↦
                rw (e, null, allocproc)
                  (
                    i,
                    record { others = λ k ne. ground (arith, ne); pages = refl },
                    inl (ground arith),
                  )
            | inr stack ↦
                rw (e, stack, allocproc)
                  (
                    first.in_range,
                    record { others = λ k ne. ground (arith, ne); pages = refl },
                    ground arith,
                    (λ j. ground arith),
                    first.passes,
                    refl,
                  )
          ]
    ]

share_region-IsOnly :
    (cur i : ℕ) (m : Shm) (n : ℕ) (s : Shm)
    → n < regions
    → IsOnly i m s
    → IsOnly i m (share_region cur i n s)
unfolding share_region
share_region-IsOnly cur i m n s h r = elim (Bool-cases ((s.procs cur).vaddr n == 0)) [
  | inl free ↦
      rw free (record { others = λ k ne. ground (arith, r.others k ne, ne); pages = r.pages })
  | inr held ↦
      let child = record (s.procs i) {
        vaddr = update (s.procs i).vaddr n ((s.procs cur).vaddr n);
      } in
      let d = increase-IsStep n (put i child s) h in
      rw held (record {
        others = λ k ne. ground (arith, r.others k ne, ne, d.same.procs);
        pages = ground (arith, r.pages, d.same.pages);
      })
]

-- The size and the regions of `p` are those of `q`.
pub record SameSpace (p q : Proc) : Type 0 where
  pub size : p.sz ≡ q.sz
  pub top : p.shmtop ≡ q.shmtop
  pub vaddr : (j : ℕ) → j < regions → p.vaddr j ≡ q.vaddr j

-- At most one slot is filled, with the space of the caller.
abbrev pub Forked : ℕ → Shm → Shm → Type 0
Forked cur m s =
    (i : ℕ) × IsOnly i m s
    × (((s.procs i).state ≡ unused)
        ⊎ ((s.procs i ≡ m.procs i) ⊎ SameSpace (s.procs i) (m.procs cur)))

unfilled : (cur : ℕ) (m s : Shm) → Filled m (none, s) → Forked cur m s
unfilled cur m s (i, o, inl gone) = (i, o, inl gone)
unfilled cur m s (i, o, inr same) = (i, o, inr (inl same))

fork_from-Forked :
    (pgdir cur : ℕ) (m : Shm) (r : Option ℕ × Shm)
    → pgdir ≢ 0
    → Allocated cur m r
    → Filled m r
    → Forked cur m (fork_from pgdir cur r).1
unfolding fork_from
fork_from-Forked pgdir cur m (none, s) mapped b f = unfilled cur m s f
fork_from-Forked pgdir cur m (some i, s) mapped b (h, o, top, bare, spare, same) =
    elim (Bool-cases (pgdir == 0)) [
      | inl null ↦ absurd (mapped (ground arith))
      | inr other ↦
          let t = for_below regions (share_region cur i) s in
          let r = shared_all cur i m s b in
          let o' : IsOnly i m t =
            for_below_inv (IsOnly i m) regions (share_region cur i)
              (λ n u hn p. share_region-IsOnly cur i m n u hn p) s o in
          rw other (
            i,
            record { others = λ k ne. ground (arith, o'.others k ne, ne); pages = o'.pages },
            inr (
                inr (record {
                  size = ground (arith, r.caller, b.caller);
                  top = ground (arith, r.caller, b.caller);
                  vaddr = λ j hj. ground (arith, r.shared j, r.caller, b.caller);
                })),
          )
    ]

pub fork-Forked :
    (kstack pgdir cur : ℕ) (m : Shm)
    → pgdir ≢ 0
    → InUse cur m
    → IsCounted m
    → Forked cur m (fork kstack pgdir cur m).1
unfolding fork
fork-Forked kstack pgdir cur m mapped used c =
    fork_from-Forked pgdir cur m (allocproc kstack m) mapped
      (allocproc-Allocated kstack cur m used c) (allocproc-Filled kstack m)

-- The slot of the first process.
pub record IsFirstProc (m s : Shm) (i : ℕ) : Type 0 where
  pub in_range : i < nproc
  pub only : IsOnly i m s
  pub size : (s.procs i).sz ≡ pgsize
  pub top : (s.procs i).shmtop ≡ usertop
  pub bare : (j : ℕ) → (s.procs i).vaddr j ≡ 0
  pub spare : is_unused (m.procs i).state ≡ true
  pub count : s.count ≡ m.count

abbrev pub Started : Shm → Outcome Shm → Type 0
Started m panic = Unit
Started m (done s) = (i : ℕ) × IsFirstProc m s i

userinit_from-Started :
    (pgdir : ℕ) (m : Shm) (r : Option ℕ × Shm) → Filled m r → Started m (userinit_from pgdir r)
userinit_from-Started pgdir m (none, s) f = tt
userinit_from-Started pgdir m (some i, s) (h, o, top, bare, spare, same) =
    elim (Bool-cases (pgdir == 0)) [
      | inl null ↦ rw null tt
      | inr other ↦ rw other (
        i,
        record {
          in_range = h;
          only = record { others = λ k ne. ground (arith, o.others k ne, ne); pages = o.pages };
          size = ground arith;
          top = ground (arith, top);
          bare = λ j. ground (arith, bare j);
          spare = spare;
          count = same;
        },
      )
    ]

pub userinit-Started : (kstack pgdir : ℕ) (m : Shm) → Started m (userinit kstack pgdir m)
unfolding userinit
userinit-Started kstack pgdir m =
    userinit_from-Started pgdir m (allocproc kstack m) (allocproc-Filled kstack m)
