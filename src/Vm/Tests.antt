-- ===== src/Vm/Tests.antt =====
-- Tests of the pages and page tables, and the theorems at a small address space.
use cs537_fall.Prelude.{
  ℕ, zero, suc, ◌+◌, ◌-◌, ◌*◌, ◌≤◌, ◌<◌, ◌≡◌, refl, ◌∙◌, ◌==◌, Bool-cases, true, false, inl, inr,
  Option, none, some, List, [], ◌∷◌, All, arith,
}
use native.Mathlib.Nat.{le_refl}
use cs537_fall.Prelude.Arrays.{update}
use cs537_fall.Mlfq.State.{Outcome, done, panic, running}
use cs537_fall.Shm.State.{pgsize, Proc}
use cs537_fall.Vm.Frames.{is_frame, kalloc, kfree}
use cs537_fall.Vm.Regions.{Sharing, attach_rounds}
use cs537_fall.Vm.Shared.{HasRoom, OneFrame, OnlyRegion, attach_rounds-OneFrame}
use cs537_fall.Vm.Tables.{
  Pgtab, Pgdir, pte, set_pte, walkpgdir, map_page, map_rounds, mappages, setupkvm,
}
use cs537_fall.Vm.Spaces.{
  Space, alloc_page, alloc_pages, dealloc_page, dealloc_pages, allocuvm, deallocuvm,
}
use cs537_fall.Vm.Copies.{freevm, copyuvm}
use cs537_fall.Vm.View.{page_of, page_of-table}
use cs537_fall.Vm.Balance.{IsSane, IsBacked, occurrences}
use cs537_fall.Vm.Private.{IsDirectory}
use cs537_fall.Vm.Copied.{InUse}
use cs537_fall.Vm.Release.{Shrunk, deallocuvm-Shrunk}
use cs537_fall.Vm.Fill.{IsAbsent}
use cs537_fall.Vm.Grow.{Grown, allocuvm-Grown}
use cs537_fall.Vm.Identity.{MapsKernel, setupkvm-MapsKernel}
use cs537_fall.Vm.Discard.{Gives, given_back, freevm-Gives}
use cs537_fall.Vm.Forked.{Forked, copyuvm-Forked}

abbrev kernel_end : ℕ
kernel_end = 0x110000

-- `n` free pages from address 0x200000 on.
abbrev free_from : ℕ → List ℕ
free_from zero = []
free_from (suc n) = (0x200000 + n * pgsize) ∷ free_from n

-- A process of one page, with one shared page under USERTOP.
abbrev page_table : Pgtab
page_table = record {
  addr = 0x301000;
  ptes =
      update (update (λ _. none) 0 (some (record { frame = 0x302000; perm = 6 }))) 159
        (some (record { frame = 0x303000; perm = 6 }));
}

abbrev small : Space
small = record {
  dir = record { addr = 0x300000; tables = update (λ _. none) 0 (some page_table) };
  mem = record { free = free_from 20; bytes = update (λ _ _. 0) 0x302000 (λ _. 7) };
}

page_of-small : (j : ℕ) → j < 1024 → page_of small.dir j ≡ page_table.ptes j
page_of-small j h = page_of-table small.dir j h refl

free_from-valid : (n : ℕ) → n ≤ 100 → All (λ v. is_frame kernel_end v ≡ true) (free_from n)
free_from-valid zero h = tt
free_from-valid (suc n) h = (ground arith, free_from-valid n (omega arith))

free_from-later : (n a : ℕ) → 0x200000 + n * pgsize ≤ a → occurrences a (free_from n) ≡ 0
unfolding occurrences
free_from-later zero a h = refl
free_from-later (suc n) a h =
    let other : (0x200000 + n * pgsize == a) ≡ false = ground arith in
    rw (other, free_from-later n a (omega arith)) refl

free_from-distinct : (n a : ℕ) → occurrences a (free_from n) ≤ 1
unfolding occurrences
free_from-distinct zero a = omega arith
free_from-distinct (suc n) a = elim (Bool-cases (0x200000 + n * pgsize == a)) [
  | inl same ↦ rw (same, free_from-later n a (ground arith)) (le_refl _)
  | inr other ↦ rw other (omega (arith, free_from-distinct n a))
]

small-IsBacked : (j : ℕ) → j < 1024 → IsBacked kernel_end (page_of small.dir j)
small-IsBacked j h = rw (page_of-small j h) (elim (Bool-cases (159 == j)) [
  | inl same ↦ rw same refl
  | inr other ↦ elim (Bool-cases (0 == j)) [
    | inl first ↦ rw (other, first) refl
    | inr later ↦ rw (other, later) tt
  ]
])

small-IsSane : (top : ℕ) → top ≤ 1024 → IsSane kernel_end top small
small-IsSane top h = record {
  table = (page_table, refl);
  free_ok = free_from-valid 20 (omega arith);
  pages_ok = λ j lt. small-IsBacked j (omega arith);
}

small-IsAbsent : IsAbsent 1 159 small
small-IsAbsent j lo hi = page_of-small j (omega arith) ∙ ground arith

small-IsDirectory : IsDirectory kernel_end small.dir
small-IsDirectory = record {
  tables_ok = λ i. elim (Bool-cases (0 == i)) [ inl same ↦ rw same refl | inr other ↦ rw other tt ];
  addr_ok = refl;
}

one_page_used : (j : ℕ) → j < 1 → InUse kernel_end small.mem (page_of small.dir j)
unfolding occurrences
one_page_used j h =
    let first : j ≡ 0 = omega arith in rw (page_of-small j (omega arith), first) (refl, refl)

one_shared_used : (j : ℕ) → 159 ≤ j → j < 160 → InUse kernel_end small.mem (page_of small.dir j)
unfolding occurrences
one_shared_used j lo hi =
    let last : j ≡ 159 = omega arith in rw (page_of-small j (omega arith), last) (refl, refl)

deallocuvm-Shrunk_example :
    Shrunk kernel_end 159
      (omega arith)
      (omega arith)
      4096
      0
      small
      (deallocuvm kernel_end 4096 0 small)
deallocuvm-Shrunk_example =
    deallocuvm-Shrunk kernel_end 159 (omega arith) (omega arith) 4096 0 small (omega arith)
      (small-IsSane 159 (omega arith))

allocuvm-Grown_example :
    Grown kernel_end 159
      (omega arith)
      (omega arith)
      4096
      9000
      small
      (allocuvm kernel_end (159 * pgsize) 4096 9000 small)
allocuvm-Grown_example =
    allocuvm-Grown kernel_end 159 (omega arith) (omega arith) (159 * pgsize) 4096 9000 small refl
      (omega arith) small-IsAbsent (small-IsSane 159 (omega arith))

abbrev one_page : Proc
one_page = record { state = running; pid = 1; sz = 4096; shmtop = 159 * pgsize; vaddr = λ _. 0 }

setupkvm-MapsKernel_example : MapsKernel 0x108000 small.mem (setupkvm 0x108000 small.mem)
setupkvm-MapsKernel_example =
    setupkvm-MapsKernel 0x108000 0x108 refl (omega arith) (omega arith) small.mem

freevm-Gives_example :
    Gives kernel_end (given_back kernel_end 1 small) small.mem (freevm kernel_end 4096 small)
freevm-Gives_example =
    freevm-Gives kernel_end (omega arith) 4096 small (omega arith) (small-IsSane 1 (omega arith))
      small-IsDirectory

copyuvm-Forked_example :
    Forked kernel_end 1 159 small (copyuvm kernel_end 0x108000 4096 (159 * pgsize) small)
copyuvm-Forked_example =
    copyuvm-Forked kernel_end 1 159 4096 (159 * pgsize) (omega arith) small (omega arith)
      (omega arith) refl refl one_page_used one_shared_used (free_from-distinct 20) 0x108000 0x108
      refl (omega arith) (omega arith) (free_from-valid 20 (omega arith))

-- The page of the process goes back to the free list.
abbrev freed_first : Outcome (ℕ × Space) → Option ℕ
freed_first panic = none
freed_first (done (sz, s)) = (kalloc s.mem).0

page_comes_back : freed_first (deallocuvm kernel_end 4096 0 small) ≡ some 0x302000
unfolding deallocuvm dealloc_pages dealloc_page pte set_pte kfree kalloc
page_comes_back = refl

abbrev new_size : Outcome (ℕ × Space) → Option ℕ
new_size panic = none
new_size (done (sz, s)) = some sz

abbrev with_free : ℕ → Space
with_free n = record small { mem = record small.mem { free = free_from n } }

-- Two more pages need two free pages.
two_pages_fit : new_size (allocuvm kernel_end (159 * pgsize) 4096 9000 (with_free 2)) ≡ some 9000
unfolding allocuvm alloc_pages alloc_page mappages map_rounds map_page walkpgdir pte set_pte kalloc
two_pages_fit = refl

two_pages_fail : new_size (allocuvm kernel_end (159 * pgsize) 4096 9000 (with_free 1)) ≡ some 0
unfolding allocuvm alloc_pages alloc_page mappages map_rounds map_page walkpgdir deallocuvm
    dealloc_pages dealloc_page pte set_pte kfree kalloc
two_pages_fail = refl

-- The same page 0 and nothing else.
abbrev other_table : Pgtab
other_table = record {
  addr = 0x305000;
  ptes = update (λ _. none) 0 (some (record { frame = 0x306000; perm = 6 }));
}

abbrev other_dir : Pgdir
other_dir = record { addr = 0x304000; tables = update (λ _. none) 0 (some other_table) }

small-HasRoom : HasRoom 159 2 small.dir
small-HasRoom = record {
  table = (page_table, refl);
  user = omega arith;
  fits = omega arith;
  absent = λ j lo hi. page_of-small j (omega arith) ∙ ground arith;
}

other-HasRoom : HasRoom 160 2 other_dir
other-HasRoom = record {
  table = (other_table, refl);
  user = omega arith;
  fits = omega arith;
  absent = λ j lo hi. page_of-table other_dir j (omega arith) refl ∙ ground arith;
}

-- The first process attaches below page 159, the second one below page 160.
attach_rounds-OneFrame_example :
    (s : Sharing) × (s' : Sharing) × (attach_rounds true
        (159 * pgsize)
        2
        (record { dir = small.dir; mem = small.mem; paddr = λ _. 0 })
      ≡ done s)
    × (attach_rounds false (160 * pgsize) 2 (record s { dir = other_dir }) ≡ done s')
    × ((i : ℕ) → i < 2 → OneFrame (159 - 2 + i) (160 - 2 + i) s s')
    × OnlyRegion 159 2 small.dir s.dir
    × OnlyRegion 160 2 other_dir s'.dir
attach_rounds-OneFrame_example =
    attach_rounds-OneFrame 159 160 2 small.dir other_dir small.mem (λ _. 0) small-HasRoom
      other-HasRoom (omega arith)
