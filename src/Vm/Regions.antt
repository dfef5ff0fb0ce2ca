-- ===== src/Vm/Regions.antt =====
-- The loop of shmgetat of projects/p3/p3b/xv6/kernel/vm.c: the frames of a region and their entries in the
-- page table of the caller.
use cs537_fall.Prelude.{
  ℕ, zero, suc, ◌+◌, ◌-◌, ◌*◌, ◌%◌, ◌^◌, if◌then◌else◌, Bool, Option, none, some,
}
use cs537_fall.Prelude.Arrays.{update}
use cs537_fall.Mlfq.State.{Outcome, done, panic}
use cs537_fall.Shm.State.{pgsize}
use cs537_fall.Vm.Frames.{Mem, fill_page, kalloc}
use cs537_fall.Vm.Tables.{pte_wu, Pgdir, Mapped, mapped, unmapped, remap, mappages}

-- What the loop changes: the page table of the caller, the memory, and `shmem_paddr` of the region.
pub record Sharing : Type 0 where
  pub dir : Pgdir
  pub mem : Mem
  pub paddr : ℕ → ℕ

-- The page that kalloc returned becomes page `i` of the region.
abbrev pub fresh_frame : ℕ → Sharing → Option ℕ × Mem → Outcome Sharing
fresh_frame i s (none, m) = panic
fresh_frame i s (some r, m) = done (record s { mem = fill_page r 0 m; paddr = update s.paddr i r })

-- What mappages returns is not looked at.
abbrev pub take_mapped : Sharing → Mapped → Outcome Sharing
take_mapped s (mapped d m) = done (record s { dir = d; mem = m })
take_mapped s (unmapped d m) = done (record s { dir = d; mem = m })
take_mapped s remap = panic

abbrev pub map_frame : ℕ → ℕ → Outcome Sharing → Outcome Sharing
map_frame va i panic = panic
map_frame va i (done s) = take_mapped s (mappages s.dir va pgsize (s.paddr i) pte_wu s.mem)

-- One round; `fresh` is `new_allocate`.
abbrev pub attach_page : Bool → ℕ → ℕ → Sharing → Outcome Sharing
attach_page fresh va i s = map_frame va i (if fresh then fresh_frame i s (kalloc s.mem) else done s)

abbrev pub attach_next : Bool → ℕ → ℕ → Outcome Sharing → Outcome Sharing
attach_next fresh va i panic = panic
attach_next fresh va i (done s) = attach_page fresh va i s

-- The first `n` rounds, from the address `top` down.
unfoldable pub attach_rounds : Bool → ℕ → ℕ → Sharing → Outcome Sharing
attach_rounds fresh top zero s = done s
attach_rounds fresh top (suc n) s =
    attach_next fresh ((top + 2 ^ 32 - suc n * pgsize) % 2 ^ 32) n (attach_rounds fresh top n s)
