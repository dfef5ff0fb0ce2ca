-- ===== src/Vm/Frames.antt =====
-- The physical pages of projects/p3/p3b/xv6/kernel/kalloc.c. A page is named by its address.
use cs537_fall.Prelude.{
  ℕ, zero, suc, ◌+◌, ◌-◌, ◌*◌, ◌/◌, ◌%◌, ◌==◌, ltb, if◌then◌else◌, Bool, ◌&&◌, not, Option, none,
  some, List, [], ◌∷◌,
}
use cs537_fall.Prelude.Arrays.{update}
use cs537_fall.Mlfq.State.{Outcome, done, panic}
use cs537_fall.Shm.State.{pgsize}

-- PHYSTOP of include/param.h and kernel/mmu.h.
abbrev pub phystop : ℕ
phystop = 0x1000000

-- `kmem.freelist`, and the bytes of each page: by the page's address and the offset in it.
pub record Mem : Type 0 where
  pub free : List ℕ
  pub bytes : ℕ → ℕ → ℕ

-- `memset(page, c, PGSIZE)` and `memmove(to, from, PGSIZE)`.
abbrev pub fill_page : ℕ → ℕ → Mem → Mem
fill_page page c m = record m { bytes = update m.bytes page (λ _. c) }

abbrev pub copy_page : ℕ → ℕ → Mem → Mem
copy_page to from m = record m { bytes = update m.bytes to (m.bytes from) }

abbrev pub pop_page : Mem → List ℕ → Option ℕ × Mem
pop_page m [] = (none, m)
pop_page m (r ∷ next) = (some r, record m { free = next })

-- `none` is the null pointer.
unfoldable pub kalloc : Mem → Option ℕ × Mem
kalloc m = pop_page m m.free

-- What `kfree` accepts; `end` is where the kernel ends, an address that the linker sets.
abbrev pub is_frame : ℕ → ℕ → Bool
is_frame end v = v % pgsize == 0 && not (ltb v end) && ltb v phystop

unfoldable pub kfree : ℕ → ℕ → Mem → Outcome Mem
kfree end v m =
    if is_frame end v then done (record (fill_page v 1 m) { free = v ∷ m.free }) else panic

-- `PGROUNDUP(a) / PGSIZE`: the pages that `a` bytes take.
abbrev pub pages_of : ℕ → ℕ
pages_of a = (a + 4095) / 4096

-- The loop of `kinit` over the pages from `page` on.
unfoldable pub free_range : ℕ → ℕ → ℕ → Mem → Outcome Mem
free_range end zero page m = done m
free_range end (suc n) page m = elim (kfree end page m) [
  | panic ↦ panic
  | done m' ↦ free_range end n (page + pgsize) m'
]

unfoldable pub kinit : ℕ → Mem → Outcome Mem
kinit end m =
    free_range end (phystop / pgsize - pages_of end) (pages_of end * pgsize)
      (record m { free = [] })
