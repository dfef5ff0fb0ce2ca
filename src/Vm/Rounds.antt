-- ===== src/Vm/Rounds.antt =====
-- mappages of projects/p3/p3b/xv6/kernel/vm.c in a directory that is filled from low to high addresses.
use cs537_fall.Prelude.{
  ==_iff, ℕ, zero, suc, ◌+◌, ◌-◌, ◌*◌, ◌/◌, ◌%◌, ◌^◌, ◌≤◌, ◌<◌, ◌≡◌, refl, sym, ◌∙◌, ◌==◌, ltb,
  if◌then◌else◌, Bool-cases, Option-cases, true, false, inl, inr, ◌⊎◌, ◌≢◌, length, Option, none,
  some, List, [], ◌∷◌, subst, arith,
}
use native.Mathlib.Nat.{le_refl, add-zero}
use cs537_fall.Prelude.Arrays.{update_self}
use cs537_fall.Shm.State.{pgsize}
use cs537_fall.Vm.Frames.{Mem, kalloc, pop_page}
use cs537_fall.Vm.Tables.{
  Entry, Pgtab, Pgdir, pdx, ptx, pte, set_pte, add_table, walkpgdir, Mapped, mapped, unmapped,
  remap, map_walked, map_page, map_next, map_rounds, mappages, Kmap, map_kernel,
}
use cs537_fall.Vm.View.{page_of}

-- The entry of a page that maps to itself.
abbrev pub itself : ℕ → ℕ → Option Entry
itself perm p = some (record { frame = p * pgsize; perm = perm })

abbrev TableAt : Pgdir → ℕ → Type 0
TableAt d i = (t : Pgtab) × (d.tables i ≡ some t)

page_of-write :
    (p q : ℕ) (e : Option Entry) (d : Pgdir)
    → TableAt d (pdx (p * pgsize))
    → page_of (set_pte (p * pgsize) e d) q ≡ (if p == q then e else page_of d q)
unfolding pte set_pte
page_of-write p q e d (t, there) = elim (Bool-cases (pdx (p * pgsize) == pdx (q * pgsize))) [
  | inr other ↦ let differ : (p == q) ≡ false = ground arith in rw (other, differ) refl
  | inl same ↦
      let equal = (==_iff _ _).0 same in
      rw (same, there, ← equal, there)
        (elim (Bool-cases (ptx (p * pgsize) == ptx (q * pgsize))) [
          | inl index ↦ let as_one : (p == q) ≡ true = ground arith in rw (index, as_one) refl
          | inr index ↦ let differ : (p == q) ≡ false = ground arith in rw (index, differ) refl
        ])
]

-- What walkpgdir returns: the same entries, a table for the address, and the free pages that are left; or
-- nothing, if the table is not there and no page is free.
abbrev Found : Pgdir → ℕ → Mem → Option (Pgdir × Mem) → Type 0
Found d va m none = (d.tables (pdx va) ≡ none) × (length m.free ≡ 0)
Found d va m (some (d', m')) =
    TableAt d' (pdx va)
    × ((q : ℕ) → page_of d' q ≡ page_of d q)
    × ((length m'.free ≡ length m.free)
        ⊎ ((d.tables (pdx va) ≡ none) × (length m.free ≡ suc (length m'.free))))

add_table-Found :
    (va : ℕ) (d : Pgdir) (m : Mem) (free : List ℕ)
    → m.free ≡ free
    → d.tables (pdx va) ≡ none
    → Found d va m (add_table va d (pop_page m free))
unfolding pte
add_table-Found va d m [] e gone = (gone, rw e refl)
add_table-Found va d m (r ∷ rest) e gone = (
  (_, update_self d.tables (pdx va) _),
  λ q. elim (Bool-cases (pdx va == pdx (q * pgsize))) [
    | inr other ↦ rw other refl
    | inl same ↦ rw (same, ← (==_iff _ _).0 same, gone) refl
  ],
  inr (gone, rw e refl),
)

walkpgdir-Found : (va : ℕ) (d : Pgdir) (m : Mem) → Found d va m (walkpgdir true d va m)
unfolding walkpgdir kalloc
walkpgdir-Found va d m = elim (Option-cases (d.tables (pdx va))) [
  | inl gone ↦ rw (gone, walkpgdir) (add_table-Found va d m m.free refl gone)
  | inr (t, there) ↦ rw (there, walkpgdir) ((t, there), (λ q. refl), inl refl)
]

-- A page that is mapped lies in a table that is there.
mapped_table :
    (d : Pgdir) (q va : ℕ) (e : Entry)
    → page_of d q ≡ some e
    → pdx (q * pgsize) ≡ pdx va
    → d.tables (pdx va) ≢ none
unfolding pte
mapped_table d q va e h same gone = let empty : page_of d q ≡ none = rw (same, gone) refl in cc

-- How many tables the pages of `page` below a page number take: one more at each page that does not lie
-- in the table of the page before.
pub record IsTableCount (page : ℕ → Option Entry) (t : ℕ → ℕ) : Type 0 where
  pub rises : (p : ℕ) → t p ≤ t (suc p)
  pub shares :
      (p : ℕ) (e : Entry)
      → page p ≡ some e
      → (t (suc p) ≡ suc (t p))
        ⊎ ((q : ℕ) × (e' : Entry) × (suc q ≡ p)
            × (page q ≡ some e')
            × (pdx (q * pgsize) ≡ pdx (p * pgsize)))

module _ (page : ℕ → Option Entry) where
  -- Ranges of the kernel that follow each other from page number `b` on, as `page` says.
  pub record IsRange (b : ℕ) (k : Kmap) (p n : ℕ) : Type 0 where
    pub start : k.from ≡ p * pgsize
    pub rounds : (k.from + k.size - 1) % 2 ^ 32 / pgsize - k.from / pgsize ≡ n
    pub order : b ≤ p
    pub gap : (q : ℕ) → b ≤ q → q < p → page q ≡ none
    pub maps : (q : ℕ) → p ≤ q → q ≤ p + n → page q ≡ itself k.perm q

module _ (page : ℕ → Option Entry) (t : ℕ → ℕ) (count : IsTableCount page t) (free : ℕ) where
  -- The pages below page number `b` are mapped as `page` says, and no others.
  abbrev pub Upto : ℕ → Pgdir → Type 0
  Upto b d = (q : ℕ) → page_of d q ≡ (if ltb q b then page q else none)

  -- Of `free` pages at the start, the tables are taken; memory runs out only if they do not suffice.
  abbrev pub MapsUpto : ℕ → Mapped → Type 0
  MapsUpto b (mapped d m) = Upto b d × (free ≤ length m.free + t b)
  MapsUpto b (unmapped d m) = free < t b
  MapsUpto b remap = ⊥

  Upto-skip :
      (b c : ℕ) (d : Pgdir)
      → b ≤ c
      → ((q : ℕ) → b ≤ q → q < c → page q ≡ none)
      → Upto b d
      → Upto c d
  Upto-skip b c d le gap v q = v q ∙ elim (Bool-cases (ltb q b)) [
    | inl low ↦ let still : ltb q c ≡ true = ground arith in rw (low, still) refl
    | inr high ↦ elim (Bool-cases (ltb q c)) [
      | inl inside ↦ rw (high, inside) (sym (gap q (ground arith) (ground arith)))
      | inr over ↦ rw (high, over) refl
    ]
  ]

  more_tables : (b n : ℕ) → t b ≤ t (b + n)
  more_tables b zero = rw (add-zero b) (le_refl _)
  more_tables b (suc n) =
      let next : b + suc n ≡ suc (b + n) = omega arith in
      rw next (omega (arith, more_tables b n, count.rises (b + n)))

  more_tables_at : (b c : ℕ) → b ≤ c → t b ≤ t c
  more_tables_at b c h = subst (λ x. t b ≤ t x) (omega arith) (more_tables b (c - b))

  -- A new table is counted, since the page before does not lie in it.
  new_table-counted :
      (p : ℕ) (e : Entry) (d : Pgdir)
      → page p ≡ some e
      → Upto p d
      → d.tables (pdx (p * pgsize)) ≡ none
      → t (suc p) ≡ suc (t p)
  new_table-counted p e d here v gone = elim (count.shares p e here) [
    | inl more ↦ more
    | inr (q, e', before, there, same) ↦
        let low : ltb q p ≡ true = ground arith in
        absurd (mapped_table d q (p * pgsize) e' (v q ∙ rw low there) same gone)
  ]

  map_walked-MapsUpto :
      (p : ℕ) (e : Entry) (d : Pgdir) (m : Mem) (o : Option (Pgdir × Mem))
      → page p ≡ some e
      → Upto p d
      → free ≤ length m.free + t p
      → Found d (p * pgsize) m o
      → MapsUpto (suc p) (map_walked (p * pgsize) e d m o)
  map_walked-MapsUpto p e d m none here v room (gone, empty) =
      omega (arith, new_table-counted p e d here v gone)
  map_walked-MapsUpto p e d m (some (d', m')) here v room (table, same, used) =
      let absent : page_of d' p ≡ none = same p ∙ v p ∙ ground arith in
      rw absent (
        (λ q. page_of-write p q (some e) d' table ∙ elim (Bool-cases (p == q)) [
          | inl equal ↦
              let low : ltb q (suc p) ≡ true = ground arith in
              rw (equal, low, ← (==_iff _ _).0 equal, here) refl
          | inr other ↦
              let alike : ltb q (suc p) ≡ ltb q p = ground arith in rw (other, alike) (same q ∙ v q)
        ]),
        elim used [
          | inl as_before ↦ omega (arith, count.rises p)
          | inr (gone, one_less) ↦ omega (arith, new_table-counted p e d here v gone)
        ],
      )

  map_page-MapsUpto :
      (p : ℕ) (e : Entry) (d : Pgdir) (m : Mem)
      → page p ≡ some e
      → MapsUpto p (mapped d m)
      → MapsUpto (suc p) (map_page (p * pgsize) e d m)
  unfolding map_page
  map_page-MapsUpto p e d m here (v, room) =
      map_walked-MapsUpto p e d m (walkpgdir true d (p * pgsize) m) here v room
        (walkpgdir-Found (p * pgsize) d m)

  map_next-MapsUpto :
      (p : ℕ) (e : Entry) (r : Mapped)
      → page p ≡ some e
      → MapsUpto p r
      → MapsUpto (suc p) (map_next (p * pgsize) e r)
  map_next-MapsUpto p e (mapped d m) here v = map_page-MapsUpto p e d m here v
  map_next-MapsUpto p e (unmapped d m) here v = omega (arith, count.rises p)
  map_next-MapsUpto p e remap here v = v

  map_rounds-MapsUpto :
      (n p perm : ℕ) (d : Pgdir) (m : Mem)
      → ((q : ℕ) → p ≤ q → q ≤ p + n → page q ≡ itself perm q)
      → MapsUpto p (mapped d m)
      → MapsUpto (suc (p + n)) (map_rounds n (p * pgsize) (p * pgsize) perm d m)
  unfolding map_rounds
  map_rounds-MapsUpto zero p perm d m here v =
      let same : p ≡ p + 0 = omega arith in
      subst
        (λ b.
          MapsUpto (suc b) (map_page (p * pgsize) (record { frame = p * pgsize; perm = perm }) d m))
        same (map_page-MapsUpto p _ d m (here p (omega arith) (omega arith)) v)
  map_rounds-MapsUpto (suc n) p perm d m here v =
      let at : p * pgsize + suc n * pgsize ≡ (p + suc n) * pgsize = omega arith in
      let next : suc (p + n) ≡ p + suc n = omega arith in
      rw at (
        map_next-MapsUpto (p + suc n) _ _ (here (p + suc n) (omega arith) (omega arith)) (
          subst (λ b. MapsUpto b (map_rounds n (p * pgsize) (p * pgsize) perm d m)) next
            (map_rounds-MapsUpto n p perm d m (λ q lo hi. here q lo (omega arith)) v)))

  mappages-MapsUpto :
      (b p n : ℕ) (k : Kmap) (d : Pgdir) (m : Mem)
      → IsRange page b k p n
      → MapsUpto b (mapped d m)
      → MapsUpto (suc (p + n)) (mappages d k.from k.size k.from k.perm m)
  unfolding mappages
  mappages-MapsUpto b p n k d m r (v, room) =
      let aligned : k.from / pgsize * pgsize ≡ p * pgsize = omega (arith, r.start) in
      rw (r.rounds, aligned, r.start)
        (map_rounds-MapsUpto n p k.perm d m r.maps
          (Upto-skip b p d r.order r.gap v, omega (arith, more_tables_at b p r.order)))

  map_kernel-unmapped :
      (ks : List Kmap) (d : Pgdir) (m : Mem) → map_kernel ks (unmapped d m) ≡ unmapped d m
  map_kernel-unmapped [] d m = refl
  map_kernel-unmapped (k ∷ ks) d m = refl

  pub map_kernel-step :
      (b p n : ℕ) (k : Kmap) (ks : List Kmap) (c : ℕ) (r : Mapped)
      → IsRange page b k p n
      → ((r' : Mapped) → MapsUpto (suc (p + n)) r' → MapsUpto c (map_kernel ks r'))
      → MapsUpto b r
      → MapsUpto c (map_kernel (k ∷ ks) r)
  map_kernel-step b p n k ks c (mapped d m) i next v = next _ (mappages-MapsUpto b p n k d m i v)
  map_kernel-step b p n k ks c (unmapped d m) i next v =
      subst (MapsUpto c) (map_kernel-unmapped ks d m) (
        next (unmapped d m)
          (omega (arith, more_tables_at b (suc (p + n)) (omega (arith, i.order)))))
  map_kernel-step b p n k ks c remap i next v = v
