-- ===== src/Vm/Kernel.antt =====
-- The loops of setupkvm in projects/p3/p3b/xv6/kernel/vm.c map no user page.
use cs537_fall.Prelude.{
  ==_iff, ℕ, zero, suc, ◌+◌, ◌*◌, ◌/◌, ◌≤◌, ◌<◌, ◌≡◌, ◌≢◌, refl, ap, ◌∙◌, ◌==◌, if◌then◌else◌,
  Bool-cases, Option-cases, true, inl, inr, Option, none, some, List, [], ◌∷◌, All, subst, arith,
}
use cs537_fall.Prelude.Arrays.{update, update_ne}
use cs537_fall.Shm.State.{pgsize}
use cs537_fall.Vm.Frames.{Mem, kalloc, pop_page, is_frame}
use cs537_fall.Vm.Tables.{
  Entry, Pgtab, Pgdir, pdx, ptx, pte, set_pte, set_in, pte_in, add_table, walkpgdir, Mapped, mapped,
  unmapped, remap, write_pte, map_walked, map_page, map_next, map_rounds, mappages, Kmap,
  map_kernel,
}
use cs537_fall.Vm.View.{page_of}
use cs537_fall.Vm.Balance.{occurrences}
use cs537_fall.Vm.Private.{user_pages, IsDirectory, set_pte-IsDirectory}

-- A write at or above USERTOP leaves the user pages alone.
page_of-kernel_write :
    (va j : ℕ) (e : Option Entry) (d : Pgdir)
    → user_pages ≤ va / pgsize
    → j < user_pages
    → page_of (set_pte va e d) j ≡ page_of d j
unfolding pte set_pte
page_of-kernel_write va j e d h hj = elim (Bool-cases (pdx va == pdx (j * pgsize))) [
  | inr other ↦ rw other refl
  | inl same ↦ rw same (
      in_table ((==_iff _ _).0 same) (d.tables (pdx va)) (d.tables (pdx (j * pgsize)))
        (ap d.tables ((==_iff _ _).0 same)))
]
  where
    in_table :
        pdx va ≡ pdx (j * pgsize)
        → (t t' : Option Pgtab) → t ≡ t'
        → pte_in (set_in t va e) (j * pgsize) ≡ pte_in t' (j * pgsize)
    in_table same none t' eq = rw (← eq) refl
    in_table same (some t) t' eq =
        let differ : ptx va ≢ ptx (j * pgsize) = λ e. omega arith in
        rw (← eq) (update_ne t.ptes e differ)

-- A new table is empty.
page_of-new_table :
    (va j : ℕ) (d : Pgdir) (r : ℕ)
    → page_of d j ≡ none
    → page_of
        (record d {
          tables = update d.tables (pdx va) (some (record { addr = r; ptes = λ _. none }));
        })
        j
      ≡ none
unfolding pte
page_of-new_table va j d r e = elim (Bool-cases (pdx va == pdx (j * pgsize))) [
  | inl same ↦ rw same refl
  | inr other ↦ rw other e
]

pub popped :
    (r a : ℕ) (m : Mem) (rest : List ℕ)
    → m.free ≡ r ∷ rest
    → occurrences a m.free ≡ (if r == a then 1 else 0) + occurrences a rest
unfolding occurrences
popped r a m rest e = rw e refl

module _ (end : ℕ) (m₀ : Mem) where
  -- A directory that setupkvm is filling, and what it has done to the memory.
  pub record IsKernelDir (d : Pgdir) (m : Mem) : Type 0 where
    pub directory : IsDirectory end d
    pub free_ok : All (λ v. is_frame end v ≡ true) m.free
    pub absent : (j : ℕ) → j < user_pages → page_of d j ≡ none
    pub fewer : (a : ℕ) → occurrences a m.free ≤ occurrences a m₀.free
    pub kept : (a : ℕ) → occurrences a m₀.free ≡ 0 → m.bytes a ≡ m₀.bytes a

  abbrev pub KernelMapped : Mapped → Type 0
  KernelMapped (mapped d m) = IsKernelDir d m
  KernelMapped (unmapped d m) = IsKernelDir d m
  KernelMapped remap = Unit

  abbrev Walked : Option (Pgdir × Mem) → Type 0
  Walked none = Unit
  Walked (some (d, m)) = IsKernelDir d m

  add_table-Walked :
      (va : ℕ) (d : Pgdir) (m : Mem) (free : List ℕ)
      → m.free ≡ free
      → IsKernelDir d m
      → Walked (add_table va d (pop_page m free))
  add_table-Walked va d m [] e v = tt
  add_table-Walked va d m (r ∷ rest) e v =
      let ok = subst (All (λ v. is_frame end v ≡ true)) e v.free_ok in
      record {
        directory = record {
          tables_ok = λ i. elim (Bool-cases (pdx va == i)) [
            | inl same ↦ rw same ok.0
            | inr other ↦ rw other (v.directory.tables_ok i)
          ];
          addr_ok = v.directory.addr_ok;
        };
        free_ok = ok.1;
        absent = λ j hj. page_of-new_table va j d r (v.absent j hj);
        fewer = λ a. ground (arith, popped r a m rest e, v.fewer a);
        kept = λ a z. elim (Bool-cases (r == a)) [
          | inl same ↦ absurd (ground (arith, popped r a m rest e, v.fewer a))
          | inr other ↦ rw other (v.kept a z)
        ];
      }

  walkpgdir-Walked :
      (va : ℕ) (d : Pgdir) (m : Mem) → IsKernelDir d m → Walked (walkpgdir true d va m)
  unfolding walkpgdir kalloc
  walkpgdir-Walked va d m v = elim (Option-cases (d.tables (pdx va))) [
    | inl gone ↦ rw (gone, walkpgdir) (add_table-Walked va d m m.free refl v)
    | inr (t, there) ↦ rw (there, walkpgdir) v
  ]

  write_pte-KernelMapped :
      (va : ℕ) (e : Entry) (d : Pgdir) (m : Mem) (p : Option Entry)
      → user_pages ≤ va / pgsize
      → IsKernelDir d m
      → KernelMapped (write_pte va e d m p)
  write_pte-KernelMapped va e d m (some old) h v = tt
  write_pte-KernelMapped va e d m none h v = record {
    directory = set_pte-IsDirectory end d va (some e) v.directory;
    free_ok = v.free_ok;
    absent = λ j hj. page_of-kernel_write va j (some e) d h hj ∙ v.absent j hj;
    fewer = v.fewer;
    kept = v.kept;
  }

  map_walked-KernelMapped :
      (va : ℕ) (e : Entry) (d : Pgdir) (m : Mem) (o : Option (Pgdir × Mem))
      → user_pages ≤ va / pgsize
      → IsKernelDir d m
      → Walked o
      → KernelMapped (map_walked va e d m o)
  map_walked-KernelMapped va e d m none h v w = v
  map_walked-KernelMapped va e d m (some (d', m')) h v w =
      write_pte-KernelMapped va e d' m' (pte d' va) h w

  map_page-KernelMapped :
      (va : ℕ) (e : Entry) (d : Pgdir) (m : Mem)
      → user_pages ≤ va / pgsize
      → IsKernelDir d m
      → KernelMapped (map_page va e d m)
  unfolding map_page
  map_page-KernelMapped va e d m h v =
      map_walked-KernelMapped va e d m (walkpgdir true d va m) h v (walkpgdir-Walked va d m v)

  map_next-KernelMapped :
      (va : ℕ) (e : Entry) (r : Mapped)
      → user_pages ≤ va / pgsize
      → KernelMapped r
      → KernelMapped (map_next va e r)
  map_next-KernelMapped va e (mapped d m) h v = map_page-KernelMapped va e d m h v
  map_next-KernelMapped va e (unmapped d m) h v = v
  map_next-KernelMapped va e remap h v = v

  map_rounds-KernelMapped :
      (n va pa perm : ℕ) (d : Pgdir) (m : Mem)
      → user_pages ≤ va / pgsize
      → IsKernelDir d m
      → KernelMapped (map_rounds n va pa perm d m)
  unfolding map_rounds
  map_rounds-KernelMapped zero va pa perm d m h v = map_page-KernelMapped va _ d m h v
  map_rounds-KernelMapped (suc n) va pa perm d m h v =
      map_next-KernelMapped (va + suc n * pgsize) _ _ (omega arith)
        (map_rounds-KernelMapped n va pa perm d m h v)

  -- Every range of the kernel starts at or above USERTOP.
  abbrev pub IsAbove : Kmap → Type 0
  IsAbove k = user_pages ≤ k.from / pgsize

  pub map_kernel-KernelMapped :
      (ks : List Kmap) (r : Mapped)
      → All IsAbove ks
      → KernelMapped r
      → KernelMapped (map_kernel ks r)
  unfolding mappages
  map_kernel-KernelMapped [] r h v = v
  map_kernel-KernelMapped (k ∷ ks) (mapped d m) h v = map_kernel-KernelMapped ks _ h.1 (
      map_rounds-KernelMapped _ (k.from / pgsize * pgsize) k.from k.perm d m (omega (arith, h.0)) v)
  map_kernel-KernelMapped (k ∷ ks) (unmapped d m) h v = v
  map_kernel-KernelMapped (k ∷ ks) remap h v = v
