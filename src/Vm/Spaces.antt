-- ===== src/Vm/Spaces.antt =====
-- The user part of an address space: allocuvm, deallocuvm, freevm and copyuvm of
-- projects/p3/p3b/xv6/kernel/vm.c. `end` is where the kernel ends.
use cs537_fall.Prelude.{
  ℕ, zero, suc, ◌-◌, ◌*◌, ◌==◌, ltb, leb, if◌then◌else◌, Bool, true, false, Option, none, some,
}
use cs537_fall.Mlfq.State.{Outcome, done, panic}
use cs537_fall.Shm.State.{pgsize}
use cs537_fall.Vm.Frames.{Mem, fill_page, kalloc, kfree, pages_of}
use cs537_fall.Vm.Tables.{
  Entry, pte_wu, Pgdir, pte, set_pte, Mapped, mapped, unmapped, remap, mappages,
}

-- A directory with the pages that are left, beside the result of a call.
pub record Space : Type 0 where
  pub dir : Pgdir
  pub mem : Mem

abbrev pub and_then {ℓ κ} : {A : Type ℓ} {B : Type κ} → Outcome A → (A → Outcome B) → Outcome B
and_then panic f = panic
and_then (done a) f = f a

-- `kfree(pa); *pte = 0` for an entry.
abbrev pub free_entry : ℕ → ℕ → Option Entry → Space → Outcome Space
free_entry end va none s = done s
free_entry end va (some e) s =
    if e.frame == 0
    then panic
    else and_then (kfree end e.frame s.mem)
        (λ m. done (record { dir = set_pte va none s.dir; mem = m }))

-- One round of the loop of `deallocuvm`, at page number `n`.
unfoldable pub dealloc_page : ℕ → ℕ → Space → Outcome Space
dealloc_page end n s = free_entry end (n * pgsize) (pte s.dir (n * pgsize)) s

-- `rounds` rounds from page number `n` on.
unfoldable pub dealloc_pages : ℕ → ℕ → ℕ → Space → Outcome Space
dealloc_pages end zero n s = done s
dealloc_pages end (suc rounds) n s =
    and_then (dealloc_page end n s) (dealloc_pages end rounds (suc n))

-- `a` runs from PGROUNDUP(newsz) while it is below `oldsz`.
unfoldable pub deallocuvm : ℕ → ℕ → ℕ → Space → Outcome (ℕ × Space)
deallocuvm end oldsz newsz s =
    if leb oldsz newsz
    then done (oldsz, s)
    else and_then (dealloc_pages end (pages_of oldsz - pages_of newsz) (pages_of newsz) s)
        (λ s'. done (newsz, s'))

-- What the loop of `allocuvm` does with the result of `mappages`: it goes on after 0 and after -1.
abbrev pub went_on : Mapped → Outcome Space
went_on (mapped d m) = done (record { dir = d; mem = m })
went_on (unmapped d m) = done (record { dir = d; mem = m })
went_on remap = panic

abbrev pub alloc_in : ℕ → Space → Option ℕ × Mem → Outcome (Bool × Space)
alloc_in n s (none, m) = done (false, record s { mem = m })
alloc_in n s (some r, m) =
    and_then (went_on (mappages s.dir (n * pgsize) pgsize r pte_wu (fill_page r 0 m)))
      (λ s'. done (true, s'))

-- One round of the loop of `allocuvm`, at page number `n`: `false` if no page is left.
unfoldable pub alloc_page : ℕ → Space → Outcome (Bool × Space)
alloc_page n s = alloc_in n s (kalloc s.mem)

abbrev pub unless_full : (Space → Outcome (Bool × Space)) → Bool × Space → Outcome (Bool × Space)
unless_full next (false, s) = done (false, s)
unless_full next (true, s) = next s

unfoldable pub alloc_pages : ℕ → ℕ → Space → Outcome (Bool × Space)
alloc_pages zero n s = done (true, s)
alloc_pages (suc rounds) n s = and_then (alloc_page n s) (unless_full (alloc_pages rounds (suc n)))

-- The end of `allocuvm`: without a page, it takes back those that it has mapped.
abbrev pub finish_alloc : ℕ → ℕ → ℕ → Bool × Space → Outcome (ℕ × Space)
finish_alloc end oldsz newsz (true, s) = done (newsz, s)
finish_alloc end oldsz newsz (false, s) =
    and_then (deallocuvm end newsz oldsz s) (λ (r : ℕ × Space). done (0, r.1))

-- `shmtop` is that of the running process.
unfoldable pub allocuvm : ℕ → ℕ → ℕ → ℕ → Space → Outcome (ℕ × Space)
allocuvm end shmtop oldsz newsz s =
    if ltb shmtop newsz
    then done (0, s)
    else if ltb newsz oldsz
    then done (oldsz, s)
    else and_then (alloc_pages (pages_of newsz - pages_of oldsz) (pages_of oldsz) s)
        (finish_alloc end oldsz newsz)
