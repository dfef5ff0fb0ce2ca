-- ===== src/Vm/Tables.antt =====
-- The page tables of projects/p3/p3b/xv6/kernel/vm.c: a directory of 1024 tables of 1024 entries. The
-- tables of two directories are different pages, so that a directory holds its tables as values.
use cs537_fall.Prelude.{
  ℕ, zero, suc, ◌+◌, ◌-◌, ◌*◌, ◌/◌, ◌%◌, ◌^◌, if◌then◌else◌, Bool, true, Option, none, some, List,
  [], ◌∷◌,
}
use cs537_fall.Prelude.Arrays.{update}
use cs537_fall.Mlfq.State.{Outcome, done, panic}
use cs537_fall.Shm.State.{pgsize, usertop}
use cs537_fall.Vm.Frames.{Mem, phystop, fill_page, kalloc}

-- An entry with PTE_P: the page that it maps, and PTE_W and PTE_U.
pub record Entry : Type 0 where
  pub frame : ℕ
  pub perm : ℕ

-- PTE_W and PTE_W|PTE_U
abbrev pub pte_w : ℕ
pte_w = 2

abbrev pub pte_wu : ℕ
pte_wu = 6

pub record Pgtab : Type 0 where
  pub addr : ℕ
  pub ptes : ℕ → Option Entry

pub record Pgdir : Type 0 where
  pub addr : ℕ
  pub tables : ℕ → Option Pgtab

-- PDX and PTX of kernel/mmu.h
abbrev pub pdx : ℕ → ℕ
pdx va = va / 2 ^ 22

abbrev pub ptx : ℕ → ℕ
ptx va = va / 2 ^ 12 % 1024

-- A new table for `va`, in the page that kalloc returned.
abbrev pub add_table : ℕ → Pgdir → Option ℕ × Mem → Option (Pgdir × Mem)
add_table va d (none, m) = none
add_table va d (some r, m) = some (
  record d { tables = update d.tables (pdx va) (some (record { addr = r; ptes = λ _. none })) },
  fill_page r 0 m,
)

-- The table in which `walkpgdir` finds the entry of `va`, which it makes if `create`: the directory and
-- the pages that are left. `none` is the null pointer.
unfoldable pub walkpgdir : Bool → Pgdir → ℕ → Mem → Option (Pgdir × Mem)
walkpgdir create d va m = elim (d.tables (pdx va)) [
  | some t ↦ some (d, m)
  | none ↦ if create then add_table va d (kalloc m) else none
]

abbrev pub pte_in : Option Pgtab → ℕ → Option Entry
pte_in none va = none
pte_in (some t) va = t.ptes (ptx va)

-- `*pte`; an entry without PTE_P, or without a table, is `none`.
unfoldable pub pte : Pgdir → ℕ → Option Entry
pte d va = pte_in (d.tables (pdx va)) va

abbrev pub set_in : Option Pgtab → ℕ → Option Entry → Option Pgtab
set_in none va e = none
set_in (some t) va e = some (record t { ptes = update t.ptes (ptx va) e })

-- `*pte = e`
unfoldable pub set_pte : ℕ → Option Entry → Pgdir → Pgdir
set_pte va e d = record d { tables = update d.tables (pdx va) (set_in (d.tables (pdx va)) va e) }

-- The results of `mappages`: 0, -1 and the panic "remap".
pub data Mapped : Type 0 where
  mapped : Pgdir → Mem → Mapped
  unmapped : Pgdir → Mem → Mapped
  remap : Mapped

-- The entry is written unless it is there.
abbrev pub write_pte : ℕ → Entry → Pgdir → Mem → Option Entry → Mapped
write_pte va e d m none = mapped (set_pte va (some e) d) m
write_pte va e d m (some old) = remap

abbrev pub map_walked : ℕ → Entry → Pgdir → Mem → Option (Pgdir × Mem) → Mapped
map_walked va e d m none = unmapped d m
map_walked va e d m (some (d', m')) = write_pte va e d' m' (pte d' va)

-- One round of the loop of `mappages`.
unfoldable pub map_page : ℕ → Entry → Pgdir → Mem → Mapped
map_page va e d m = map_walked va e d m (walkpgdir true d va m)

abbrev pub map_next : ℕ → Entry → Mapped → Mapped
map_next va e (mapped d m) = map_page va e d m
map_next va e r = r

-- The first `n + 1` rounds from address `va` on.
unfoldable pub map_rounds : ℕ → ℕ → ℕ → ℕ → Pgdir → Mem → Mapped
map_rounds zero va pa perm d m = map_page va (record { frame = pa; perm = perm }) d m
map_rounds (suc n) va pa perm d m =
    map_next (va + suc n * pgsize) (record { frame = pa + suc n * pgsize; perm = perm })
      (map_rounds n va pa perm d m)

-- From the page of `la` to the page of `la + size - 1`.
unfoldable pub mappages : Pgdir → ℕ → ℕ → ℕ → ℕ → Mem → Mapped
mappages d la size pa perm m =
    map_rounds ((la + size - 1) % 2 ^ 32 / pgsize - la / pgsize) (la / pgsize * pgsize) pa perm d m

-- `kmap`: where a range starts, where it ends and its permissions. `kdata` is where the kernel's data
-- start, an address that the linker sets; the last range ends at 2^32, which is 0.
pub record Kmap : Type 0 where
  pub from : ℕ
  pub size : ℕ
  pub perm : ℕ

abbrev pub kmap : ℕ → List Kmap
kmap kdata =
    record { from = usertop; size = 0x100000 - usertop; perm = pte_w }
    ∷ record { from = 0x100000; size = kdata - 0x100000; perm = 0 }
    ∷ record { from = kdata; size = phystop - kdata; perm = pte_w }
    ∷ record { from = 0xFE000000; size = 0x2000000; perm = pte_w }
    ∷ []

-- The loop of `setupkvm`.
abbrev pub map_kernel : List Kmap → Mapped → Mapped
map_kernel [] r = r
map_kernel (k ∷ ks) (mapped d m) = map_kernel ks (mappages d k.from k.size k.from k.perm m)
map_kernel (k ∷ ks) (unmapped d m) = unmapped d m
map_kernel (k ∷ ks) remap = remap

-- `none` is the null pointer; the directory that is given up then stays allocated.
abbrev pub set_up : Mapped → Outcome (Option Pgdir × Mem)
set_up (mapped d m) = done (some d, m)
set_up (unmapped d m) = done (none, m)
set_up remap = panic

abbrev pub map_in : ℕ → Option ℕ × Mem → Outcome (Option Pgdir × Mem)
map_in kdata (none, m) = done (none, m)
map_in kdata (some r, m) =
    set_up
      (map_kernel (kmap kdata) (mapped (record { addr = r; tables = λ _. none }) (fill_page r 0 m)))

unfoldable pub setupkvm : ℕ → Mem → Outcome (Option Pgdir × Mem)
setupkvm kdata m = map_in kdata (kalloc m)
