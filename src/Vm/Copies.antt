-- ===== src/Vm/Copies.antt =====
-- freevm and copyuvm of projects/p3/p3b/xv6/kernel/vm.c. `end` is where the kernel ends and `kdata` where
-- its data start.
use cs537_fall.Prelude.{ℕ, zero, suc, ◌+◌, ◌-◌, ◌*◌, Bool, true, false, Option, none, some}
use cs537_fall.Mlfq.State.{Outcome, done, panic}
use cs537_fall.Shm.State.{pgsize, usertop}
use cs537_fall.Vm.Frames.{Mem, copy_page, kalloc, kfree, pages_of}
use cs537_fall.Vm.Tables.{
  Entry, pte_wu, Pgtab, Pgdir, pte, Mapped, mapped, unmapped, remap, mappages, setupkvm,
}
use cs537_fall.Vm.Spaces.{Space, and_then, unless_full, deallocuvm}

abbrev pub free_table : ℕ → Option Pgtab → Mem → Outcome Mem
free_table end none m = done m
free_table end (some t) m = kfree end t.addr m

-- The loop of `freevm` over `rounds` tables from number `i` on.
unfoldable pub free_tables : ℕ → ℕ → ℕ → Pgdir → Mem → Outcome Mem
free_tables end zero i d m = done m
free_tables end (suc rounds) i d m =
    and_then (free_table end (d.tables i) m) (free_tables end rounds (suc i) d)

-- `sz` is the size of the running process, whoever's directory this is.
unfoldable pub freevm : ℕ → ℕ → Space → Outcome Mem
freevm end sz s =
    and_then (deallocuvm end sz 0 s) (λ (r : ℕ × Space).
      and_then (free_tables end 1024 0 r.1.dir r.1.mem) (kfree end r.1.dir.addr))

-- The result of `mappages`: `false` is the jump to `bad`.
abbrev pub or_bad : Mapped → Outcome (Bool × Space)
or_bad (mapped d m) = done (true, record { dir = d; mem = m })
or_bad (unmapped d m) = done (false, record { dir = d; mem = m })
or_bad remap = panic

-- The page that kalloc returned gets the bytes of page `from`.
abbrev pub copy_in : ℕ → ℕ → Pgdir → Option ℕ × Mem → Outcome (Bool × Space)
copy_in va from d (none, m) = done (false, record { dir = d; mem = m })
copy_in va from d (some r, m) = or_bad (mappages d va pgsize r pte_wu (copy_page r from m))

-- One round of the first loop of `copyuvm`, for the entry of the parent; the panics are "pte should
-- exist" and "page not present".
abbrev pub copy_entry : ℕ → Option Entry → Space → Outcome (Bool × Space)
copy_entry va none c = panic
copy_entry va (some e) c = copy_in va e.frame c.dir (kalloc c.mem)

-- `rounds` rounds from page number `n` on; `d` is the directory of the parent.
unfoldable pub copy_pages : ℕ → ℕ → Pgdir → Space → Outcome (Bool × Space)
copy_pages zero n d c = done (true, c)
copy_pages (suc rounds) n d c =
    and_then (copy_entry (n * pgsize) (pte d (n * pgsize)) c)
      (unless_full (copy_pages rounds (suc n) d))

-- One round of the second loop: the child maps the page of the parent.
abbrev pub share_entry : ℕ → Option Entry → Space → Outcome (Bool × Space)
share_entry va none c = panic
share_entry va (some e) c = or_bad (mappages c.dir va pgsize e.frame pte_wu c.mem)

unfoldable pub share_pages : ℕ → ℕ → Pgdir → Space → Outcome (Bool × Space)
share_pages zero va d c = done (true, c)
share_pages (suc rounds) va d c =
    and_then (share_entry va (pte d va) c) (unless_full (share_pages rounds (va + pgsize) d))

-- The end of `copyuvm`; `none` is the null pointer.
abbrev pub finish_copy : ℕ → ℕ → Bool × Space → Outcome (Option Pgdir × Mem)
finish_copy end sz (true, c) = done (some c.dir, c.mem)
finish_copy end sz (false, c) = and_then (freevm end sz c) (λ m. done (none, m))

-- Both loops, into the directory that setupkvm returned.
abbrev pub copy_into : ℕ → ℕ → ℕ → Pgdir → Option Pgdir × Mem → Outcome (Option Pgdir × Mem)
copy_into end sz shmtop d (none, m) = done (none, m)
copy_into end sz shmtop d (some c, m) =
    and_then
      (and_then (copy_pages (pages_of sz) 0 d (record { dir = c; mem = m }))
        (unless_full (share_pages (pages_of (usertop - shmtop)) shmtop d)))
      (finish_copy end sz)

-- `sz` and `shmtop` are those of the running process.
unfoldable pub copyuvm : ℕ → ℕ → ℕ → ℕ → Space → Outcome (Option Pgdir × Mem)
copyuvm end kdata sz shmtop s = and_then (setupkvm kdata s.mem) (copy_into end sz shmtop s.dir)
