-- ===== src/Shm/Calls.antt =====
-- The shared memory calls of projects/p3/p3b/xv6/kernel/vm.c, and what fork, exec, wait and sbrk do to
-- the regions (kernel/proc.c and exec.c). `cur` is the slot of the running process.
use cs537_fall.Prelude.{
  ℕ, zero, suc, ◌+◌, ◌-◌, ◌*◌, ◌%◌, ◌^◌, ◌==◌, ltb, leb, if◌then◌else◌, Bool, true, false, ◌&&◌,
  not, Option, none, some, List, [], ◌∷◌,
}
use cs537_fall.Prelude.Arrays.{update}
use cs537_fall.Prelude.Loops.{for_below, first_below}
use cs537_fall.Mlfq.State.{unused, embryo, runnable, is_unused, Outcome, done, panic}
use cs537_fall.Shm.State.{regions, max_pages, nproc, usertop, pgsize, Proc, Shm, incr, decr, put}

-- The counters that `shmeminit` clears.
unfoldable pub shmeminit : Shm → Shm
shmeminit m =
    for_below regions
      (λ i (s : Shm). record s { count = update s.count i 0; pages = update s.pages i 0 }) m

-- `none` is the result -1.
unfoldable pub shm_refcount : ℕ → Shm → Option ℕ
shm_refcount key m = if leb regions key then none else some (m.count key)

-- `kfree` the first `n` pages of a region.
unfoldable pub free_pages : ℕ → ℕ → Shm → Shm
free_pages key n m =
    for_below n
      (λ i (s : Shm). record s {
        free = s.paddr key i ∷ s.free;
        paddr = update s.paddr key (update (s.paddr key) i 0);
      })
      m

-- The last process to leave frees the pages.
unfoldable pub shm_decrease_count : ℕ → Shm → Shm
shm_decrease_count key m =
    if leb regions key
    then m
    else (let m' = record m { count = update m.count key (decr (m.count key)) } in
        if m'.count key == 0 then free_pages key (m'.pages key) m' else m')

unfoldable pub shm_increase_count : ℕ → Shm → Shm
shm_increase_count key m =
    if leb regions key then m else record m { count = update m.count key (incr (m.count key)) }

-- `kalloc` for page `n` of a region, from the free list; running out of memory is a panic.
abbrev pub take_page : ℕ → ℕ → Shm → List ℕ → Outcome Shm
take_page key n m [] = panic
take_page key n m (page ∷ rest) =
    done (record m { free = rest; paddr = update m.paddr key (update (m.paddr key) n page) })

abbrev pub alloc_page : ℕ → ℕ → Outcome Shm → Outcome Shm
alloc_page key n panic = panic
alloc_page key n (done m) = take_page key n m m.free

-- The first `n` pages of a region.
unfoldable pub alloc_pages : ℕ → ℕ → Shm → Outcome Shm
alloc_pages key zero m = done m
alloc_pages key (suc n) m = alloc_page key n (alloc_pages key n m)

-- Where `shmgetat` puts `n` pages: below `shmtop`.
abbrev pub attach_addr : ℕ → Proc → ℕ
attach_addr n p = (p.shmtop + 2 ^ 32 - n * pgsize) % 2 ^ 32

-- The end of `shmgetat`: the count, the number of pages, the address and the new `shmtop`.
abbrev pub attach : ℕ → ℕ → ℕ → Shm → Shm
attach key n cur m =
    let p = m.procs cur in
    put cur (record p { vaddr = update p.vaddr key (attach_addr n p); shmtop = attach_addr n p })
      (record m { count = update m.count key (incr (m.count key)); pages = update m.pages key n })

-- `shmgetat` once the number of pages `n` is known; `fresh` tells that the region is new.
abbrev pub attach_pages : ℕ → ℕ → ℕ → Outcome Shm → Outcome (Option ℕ × Shm)
attach_pages key n cur panic = panic
attach_pages key n cur (done m) = done (some (attach_addr n (m.procs cur)), attach key n cur m)

abbrev pub place : ℕ → Bool → ℕ → ℕ → Shm → Outcome (Option ℕ × Shm)
place key fresh n cur m =
    if ltb (attach_addr n (m.procs cur)) (m.procs cur).sz
    then done (none, m)
    else attach_pages key n cur (if fresh then alloc_pages key n m else done m)

-- `none` beside the table is the result -1.
unfoldable pub shmgetat : ℕ → ℕ → ℕ → Shm → Outcome (Option ℕ × Shm)
shmgetat key num_pages cur m =
    if leb regions key
    then done (none, m)
    else if not ((m.procs cur).vaddr key == 0)
    then done (some ((m.procs cur).vaddr key), m)
    else if m.count key == 0
    then (if ltb 0 num_pages && leb num_pages max_pages
        then place key true num_pages cur m
        else done (none, m))
    else place key false (m.pages key) cur m

-- `allocproc`: `kstack` is what kalloc returns.
unfoldable pub allocproc : ℕ → Shm → Option ℕ × Shm
allocproc kstack m = elim (first_below nproc (λ i. is_unused (m.procs i).state)) [
  | none ↦ (none, m)
  | some i ↦
      let p = record (m.procs i) { state = embryo; pid = m.nextpid } in
      let m' = record m { nextpid = m.nextpid + 1 } in
      if kstack == 0
      then (none, put i (record p { state = unused }) m')
      else (some i, put i (record p { vaddr = λ _. 0; shmtop = usertop }) m')
]

-- `userinit` after its call of `allocproc`.
abbrev pub userinit_from : ℕ → Option ℕ × Shm → Outcome Shm
userinit_from pgdir (none, m) = panic
userinit_from pgdir (some i, m) =
    if pgdir == 0
    then panic
    else done (put i (record (m.procs i) { sz = pgsize; state = runnable }) m)

-- The first process; `pgdir` is what setupkvm returns. Without a slot the kernel writes to address 0, which is a panic here.
unfoldable pub userinit : ℕ → ℕ → Shm → Outcome Shm
userinit kstack pgdir m = userinit_from pgdir (allocproc kstack m)

-- The body of the loop of `fork` that copies the regions of `cur` to the child `i`.
unfoldable pub share_region : ℕ → ℕ → ℕ → Shm → Shm
share_region cur i key m =
    let c = m.procs i in
    let m' = put i (record c { vaddr = update c.vaddr key ((m.procs cur).vaddr key) }) m in
    if (m.procs cur).vaddr key == 0 then m' else shm_increase_count key m'

-- `fork` after `allocproc`; `pgdir` is what copyuvm returns.
unfoldable pub fork_from : ℕ → ℕ → Option ℕ × Shm → Option ℕ × Shm
fork_from pgdir cur (none, m) = (none, m)
fork_from pgdir cur (some i, m) =
    let s = for_below regions (share_region cur i) m in
    let p = record (s.procs i) { shmtop = (s.procs cur).shmtop } in
    if pgdir == 0
    then (none, put i (record p { state = unused }) s)
    else (some p.pid, put i (record p { sz = (s.procs cur).sz; state = runnable }) s)

unfoldable pub fork : ℕ → ℕ → ℕ → Shm → Option ℕ × Shm
fork kstack pgdir cur m = fork_from pgdir cur (allocproc kstack m)

-- The body of the loop of `exec` over the regions of `cur`.
unfoldable pub drop_region : ℕ → ℕ → Shm → Shm
drop_region cur key m =
    let p = m.procs cur in
    let s = if p.vaddr key == 0 then m else shm_decrease_count key m in
    put cur (record (s.procs cur) { vaddr = update (s.procs cur).vaddr key 0 }) s

-- What a successful `exec` does: it leaves all regions and takes the new size.
unfoldable pub exec_commit : ℕ → ℕ → Shm → Shm
exec_commit sz cur m =
    let s =
      for_below regions (drop_region cur) (put cur (record (m.procs cur) { shmtop = usertop }) m) in
    put cur (record (s.procs cur) { sz = sz }) s

-- The body of the loop of `wait` over the regions of the child `i`.
unfoldable pub release_region : ℕ → ℕ → Shm → Shm
release_region i key m = if (m.procs i).vaddr key == 0 then m else shm_decrease_count key m

-- What `wait` does with a zombie child.
unfoldable pub reap : ℕ → Shm → Shm
reap i m =
    for_below regions (release_region i) (put i (record (m.procs i) { state = unused; pid = 0 }) m)

-- `allocuvm` and `deallocuvm` with `oldsz` the size of the process: the new size, or 0 for a failure.
-- `enough` tells whether kalloc gets all pages; if it does not, those that it got are given back.
unfoldable pub allocuvm : Bool → Proc → ℕ → ℕ
allocuvm enough p newsz =
    if ltb p.shmtop newsz then 0 else if ltb newsz p.sz then p.sz else if enough then newsz else 0

unfoldable pub deallocuvm : Proc → ℕ → ℕ
deallocuvm p newsz = if leb p.sz newsz then p.sz else newsz

-- The end of `growproc`; `false` is the result -1.
abbrev pub take_size : ℕ → ℕ → Shm → Bool × Shm
take_size sz cur m =
    if sz == 0 then (false, m) else (true, put cur (record (m.procs cur) { sz = sz }) m)

-- `growproc` with n > 0, and with n < 0 (`n` is then the amount).
unfoldable pub grow : Bool → ℕ → ℕ → Shm → Bool × Shm
grow enough n cur m =
    take_size (allocuvm enough (m.procs cur) (((m.procs cur).sz + n) % 2 ^ 32)) cur m

unfoldable pub shrink : ℕ → ℕ → Shm → Bool × Shm
shrink n cur m =
    take_size (deallocuvm (m.procs cur) (((m.procs cur).sz + 2 ^ 32 - n) % 2 ^ 32)) cur m
