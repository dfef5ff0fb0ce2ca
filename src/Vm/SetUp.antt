-- ===== src/Vm/SetUp.antt =====
-- setupkvm of projects/p3/p3b/xv6/kernel/vm.c: a directory with the table of the user part, none of whose
-- user pages is mapped.
use cs537_fall.Prelude.{
  ==_iff, ℕ, zero, suc, ◌+◌, ◌*◌, ◌/◌, ◌≤◌, ◌≡◌, refl, sym, ap, ◌∙◌, ◌==◌, Bool-cases, Option-cases,
  true, inl, inr, ◌⊎◌, Option, none, some, List, [], ◌∷◌, All, subst, arith,
}
use cs537_fall.Mlfq.State.{Outcome, done, panic}
use cs537_fall.Shm.State.{pgsize}
use cs537_fall.Vm.Frames.{Mem, fill_page, kalloc, pop_page, is_frame}
use cs537_fall.Vm.Tables.{
  Entry, Pgdir, pdx, pte, set_pte, add_table, walkpgdir, Mapped, mapped, unmapped, remap, write_pte,
  map_walked, map_page, map_next, map_rounds, mappages, Kmap, kmap, map_kernel, set_up, map_in,
  setupkvm,
}
use cs537_fall.Vm.View.{HasTable}
use cs537_fall.Vm.Kernel.{IsKernelDir, KernelMapped, popped, map_kernel-KernelMapped}

-- The table of the user part is there after a mapping below 4 MB, and stays.
abbrev pub Tabled : Mapped → Type 0
Tabled (mapped d m) = HasTable d
Tabled r = Unit

set_pte-HasTable : (va : ℕ) (e : Option Entry) (d : Pgdir) → HasTable d → HasTable (set_pte va e d)
unfolding set_pte
set_pte-HasTable va e d (t, there) = elim (Bool-cases (pdx va == 0)) [
  | inl same ↦ rw (same, (==_iff _ _).0 same, there) (_, refl)
  | inr other ↦ rw other (t, there)
]

abbrev WalkTabled : Option (Pgdir × Mem) → Type 0
WalkTabled none = Unit
WalkTabled (some (d, m)) = HasTable d

add_table-WalkTabled :
    (va : ℕ) (d : Pgdir) (r : Option ℕ × Mem)
    → (pdx va ≡ 0) ⊎ HasTable d
    → WalkTabled (add_table va d r)
add_table-WalkTabled va d (none, m) h = tt
add_table-WalkTabled va d (some r, m) h = elim (Bool-cases (pdx va == 0)) [
  | inl same ↦ rw same (_, refl)
  | inr other ↦ rw other (elim h [ inl low ↦ absurd (ground arith) | inr t ↦ t ])
]

walkpgdir-WalkTabled :
    (va : ℕ) (d : Pgdir) (m : Mem) → (pdx va ≡ 0) ⊎ HasTable d → WalkTabled (walkpgdir true d va m)
unfolding walkpgdir
walkpgdir-WalkTabled va d m h = elim (Option-cases (d.tables (pdx va))) [
  | inl gone ↦ rw (gone, walkpgdir) (add_table-WalkTabled va d (kalloc m) h)
  | inr (t, there) ↦
      rw (there, walkpgdir)
        (elim h [ inl low ↦ (t, ap d.tables (sym low) ∙ there) | inr table ↦ table ])
]

write_pte-Tabled :
    (va : ℕ) (e : Entry) (d : Pgdir) (m : Mem) (p : Option Entry)
    → HasTable d
    → Tabled (write_pte va e d m p)
write_pte-Tabled va e d m none t = set_pte-HasTable va (some e) d t
write_pte-Tabled va e d m (some old) t = tt

map_walked-Tabled :
    (va : ℕ) (e : Entry) (d : Pgdir) (m : Mem) (o : Option (Pgdir × Mem))
    → WalkTabled o
    → Tabled (map_walked va e d m o)
map_walked-Tabled va e d m none t = tt
map_walked-Tabled va e d m (some (d', m')) t = write_pte-Tabled va e d' m' (pte d' va) t

map_page-Tabled :
    (va : ℕ) (e : Entry) (d : Pgdir) (m : Mem)
    → (pdx va ≡ 0) ⊎ HasTable d
    → Tabled (map_page va e d m)
unfolding map_page
map_page-Tabled va e d m h =
    map_walked-Tabled va e d m (walkpgdir true d va m) (walkpgdir-WalkTabled va d m h)

map_next-Tabled : (va : ℕ) (e : Entry) (r : Mapped) → Tabled r → Tabled (map_next va e r)
map_next-Tabled va e (mapped d m) t = map_page-Tabled va e d m (inr t)
map_next-Tabled va e (unmapped d m) t = tt
map_next-Tabled va e remap t = tt

map_rounds-Tabled :
    (n va pa perm : ℕ) (d : Pgdir) (m : Mem)
    → (pdx va ≡ 0) ⊎ HasTable d
    → Tabled (map_rounds n va pa perm d m)
unfolding map_rounds
map_rounds-Tabled zero va pa perm d m h = map_page-Tabled va _ d m h
map_rounds-Tabled (suc n) va pa perm d m h =
    map_next-Tabled (va + suc n * pgsize) _ _ (map_rounds-Tabled n va pa perm d m h)

map_kernel-Tabled : (ks : List Kmap) (r : Mapped) → Tabled r → Tabled (map_kernel ks r)
unfolding mappages
map_kernel-Tabled [] r t = t
map_kernel-Tabled (k ∷ ks) (mapped d m) t =
    map_kernel-Tabled ks _
      (map_rounds-Tabled _ (k.from / pgsize * pgsize) k.from k.perm d m (inr t))
map_kernel-Tabled (k ∷ ks) (unmapped d m) t = tt
map_kernel-Tabled (k ∷ ks) remap t = tt

-- The first range starts below 4 MB.
abbrev StartsLow : List Kmap → Type 0
StartsLow [] = ⊥
StartsLow (k ∷ ks) = pdx (k.from / pgsize * pgsize) ≡ 0

map_kernel-first :
    (ks : List Kmap) (d : Pgdir) (m : Mem) → StartsLow ks → Tabled (map_kernel ks (mapped d m))
unfolding mappages
map_kernel-first [] d m h = elim h [ ]
map_kernel-first (k ∷ ks) d m h =
    map_kernel-Tabled ks _
      (map_rounds-Tabled _ (k.from / pgsize * pgsize) k.from k.perm d m (inl h))

-- What setupkvm returns: a directory with the table of the user part.
abbrev pub SetUp : ℕ → Mem → Outcome (Option Pgdir × Mem) → Type 0
SetUp end m₀ panic = Unit
SetUp end m₀ (done (none, m)) = Unit
SetUp end m₀ (done (some d, m)) = IsKernelDir end m₀ d m × HasTable d

set_up-SetUp :
    (end : ℕ) (m₀ : Mem) (r : Mapped) → KernelMapped end m₀ r → Tabled r → SetUp end m₀ (set_up r)
set_up-SetUp end m₀ (mapped d m) k t = (k, t)
set_up-SetUp end m₀ (unmapped d m) k t = tt
set_up-SetUp end m₀ remap k t = tt

map_in-SetUp :
    (end kdata : ℕ) (m : Mem) (free : List ℕ)
    → 0x100000 ≤ kdata
    → m.free ≡ free
    → All (λ v. is_frame end v ≡ true) m.free
    → SetUp end m (map_in kdata (pop_page m free))
unfolding pte
map_in-SetUp end kdata m [] h e ok = tt
map_in-SetUp end kdata m (r ∷ rest) h e ok =
    let okr = subst (All (λ v. is_frame end v ≡ true)) e ok in
    let d : Pgdir = record { addr = r; tables = λ _. none } in
    let m' : Mem = fill_page r 0 (record m { free = rest }) in
    set_up-SetUp end m _
      (map_kernel-KernelMapped end m (kmap kdata) (mapped d m')
        (omega arith, (omega arith, (omega arith, (omega arith, tt))))
        (record {
          directory = record { tables_ok = λ i. tt; addr_ok = okr.0 };
          free_ok = okr.1;
          absent = λ j hj. refl;
          fewer = λ a. ground (arith, popped r a m rest e);
          kept = λ a z. elim (Bool-cases (r == a)) [
            | inl same ↦ absurd (ground (arith, popped r a m rest e))
            | inr other ↦ rw other refl
          ];
        }))
      (map_kernel-first (kmap kdata) d m' refl)

-- What setupkvm gives, if it gives a directory: the table of the user part is there and no user page is
-- mapped; the pages of the directory were free, and pages that were not free are as they were.
pub setupkvm-SetUp :
    (end kdata : ℕ) (m : Mem)
    → 0x100000 ≤ kdata
    → All (λ v. is_frame end v ≡ true) m.free
    → SetUp end m (setupkvm kdata m)
unfolding setupkvm kalloc
setupkvm-SetUp end kdata m h ok = map_in-SetUp end kdata m m.free h refl ok
