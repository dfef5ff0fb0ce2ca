-- ===== src/Vm/Copied.antt =====
-- The two loops of copyuvm in projects/p3/p3b/xv6/kernel/vm.c keep what they have built.
use cs537_fall.Prelude.{
  length, ap, ==_iff, ℕ, zero, suc, ◌+◌, ◌*◌, ◌≤◌, ◌<◌, ◌≡◌, refl, ◌∙◌, ◌==◌, if◌then◌else◌, Bool,
  Bool-cases, true, false, inl, inr, ◌⊎◌, Option, none, some, List, [], ◌∷◌, All, subst, arith,
}
use native.Mathlib.Nat.{le_refl}
use cs537_fall.Prelude.Arrays.{update, update_self}
use cs537_fall.Mlfq.State.{Outcome, done, panic}
use cs537_fall.Shm.State.{pgsize}
use cs537_fall.Vm.Frames.{Mem, copy_page, kalloc, pop_page, is_frame}
use cs537_fall.Vm.Tables.{Entry, Pgdir, pte, set_pte, pte_wu}
use cs537_fall.Vm.Spaces.{Space, and_then, unless_full}
use cs537_fall.Vm.Copies.{copy_in, copy_entry, copy_pages, share_entry, share_pages}
use cs537_fall.Vm.View.{page_of, HasTable, page_of-set_pte, mappages-user}
use cs537_fall.Vm.Balance.{occurrences}
use cs537_fall.Vm.Private.{user_pages, write-IsChild, CopyOf-later, IsBuilt, Built}

-- A page of the parent: it is mapped, it can be freed, and it is not free.
abbrev pub InUse : ℕ → Mem → Option Entry → Type 0
InUse end m none = ⊥
InUse end m (some e) = (is_frame end e.frame ≡ true) × (occurrences e.frame m.free ≡ 0)

module _ (end : ℕ) (m : Mem) (d : Pgdir) (top : ℕ) (below : top ≤ user_pages)
    (distinct : (a : ℕ) → occurrences a m.free ≤ 1) where
  popped :
      (r a : ℕ) (c : Space) (rest : List ℕ)
      → c.mem.free ≡ r ∷ rest
      → occurrences a c.mem.free ≡ (if r == a then 1 else 0) + occurrences a rest
  unfolding occurrences
  popped r a c rest e = rw e refl

  -- Writing the page that was popped changes no page that is not free.
  copied_bytes :
      (r from a : ℕ) (c : Space) (rest : List ℕ)
      → c.mem.free ≡ r ∷ rest
      → occurrences a c.mem.free ≡ 0
      → update c.mem.bytes r (c.mem.bytes from) a ≡ c.mem.bytes a
  copied_bytes r from a c rest e z = elim (Bool-cases (r == a)) [
    | inl same ↦ absurd (ground (arith, popped r a c rest e))
    | inr other ↦ rw other refl
  ]

  -- The entry of page `n` after the write, and those of other pages.
  written :
      (n j : ℕ) (e : Option Entry) (c : Space)
      → n < user_pages
      → j < user_pages
      → HasTable c.dir
      → page_of (set_pte (n * pgsize) e c.dir) j ≡ (if n == j then e else page_of c.dir j)
  written n j e c hn hj t = page_of-set_pte c.dir n j e (omega arith) (omega arith) t

  copy_in-Built :
      (n : ℕ) (e : Entry) (c : Space) (free : List ℕ)
      → n < top
      → page_of d n ≡ some e
      → occurrences e.frame m.free ≡ 0
      → c.mem.free ≡ free
      → IsBuilt end m d top below n top c
      → Built end m d top below
          (suc n)
          top
          (copy_in (n * pgsize) e.frame c.dir (pop_page c.mem free))
  copy_in-Built n e c [] h there used same b = (b.child, omega (arith, b.room, ap length same))
  copy_in-Built n e c (r ∷ rest) h there used same b =
      let m' = copy_page r e.frame (record c.mem { free = rest }) in
      let table = b.child.sane.table in
      let ok = subst (All (λ v. is_frame end v ≡ true)) same b.child.sane.free_ok in
      rw
        (
          mappages-user c.dir n r pte_wu m' (omega arith) table,
          b.absent n (omega arith) (omega arith) (inl h),
        )
        (record {
          child =
              write-IsChild end m n (record { frame = r; perm = pte_wu }) c m' (omega arith) ok.0
                ok.1 (λ a. ground (arith, popped r a c rest same, b.child.fewer a))
                (λ a z.
                  copied_bytes r e.frame a c rest same (omega (arith, b.child.fewer a))
                  ∙ b.child.kept a z)
                b.child;
          copied = λ j hj. elim (Bool-cases (n == j)) [
            | inl here ↦
                rw
                  (
                    written n j _ c (omega arith) (omega arith) table,
                    here,
                    ← ((==_iff n j).0 here),
                    there,
                  )
                  (
                    refl,
                    update_self c.mem.bytes r (c.mem.bytes e.frame) ∙ b.child.kept e.frame used,
                    ground (arith, popped r r c rest same, b.child.fewer r),
                    ground (arith, popped r r c rest same, b.child.fewer r, distinct r),
                  )
            | inr other ↦
                rw (written n j _ c (omega arith) (omega arith) table, other)
                  (CopyOf-later end m c.mem m' (page_of d j) (page_of c.dir j)
                    (λ a z. copied_bytes r e.frame a c rest same z)
                    (λ a. ground (arith, popped r a c rest same)) (b.copied j (ground arith)))
          ];
          shared = λ j lo hi. absurd (omega arith);
          absent = λ j lo hj o.
              written n j _ c (omega arith) hj table
              ∙ ground (arith, b.absent j (omega arith) hj o);
          room = omega (arith, b.room, ap length same);
        })

  copy_entry-Built :
      (n : ℕ) (p : Option Entry) (c : Space)
      → n < top
      → page_of d n ≡ p
      → InUse end m p
      → IsBuilt end m d top below n top c
      → Built end m d top below (suc n) top (copy_entry (n * pgsize) p c)
  unfolding kalloc
  copy_entry-Built n none c h there used b = absurd used
  copy_entry-Built n (some e) c h there (valid, used) b =
      copy_in-Built n e c c.mem.free h there used refl b

  then-Built :
      (lo hi lo' hi' : ℕ) (o : Outcome (Bool × Space)) (next : Space → Outcome (Bool × Space))
      → lo ≤ lo'
      → Built end m d top below lo hi o
      → ((c : Space) → IsBuilt end m d top below lo hi c → Built end m d top below lo' hi' (next c))
      → Built end m d top below lo' hi' (and_then o (unless_full next))
  then-Built lo hi lo' hi' panic next le b f = b
  then-Built lo hi lo' hi' (done (false, c)) next le (v, short) f = (v, omega arith)
  then-Built lo hi lo' hi' (done (true, c)) next le b f = f c b

  pub copy_pages-Built :
      (rounds n lo : ℕ) (c : Space)
      → n + rounds ≡ lo
      → lo ≤ top
      → ((j : ℕ) → j < lo → InUse end m (page_of d j))
      → IsBuilt end m d top below n top c
      → Built end m d top below lo top (copy_pages rounds n d c)
  unfolding copy_pages
  copy_pages-Built zero n lo c e h used b =
      subst (λ k. IsBuilt end m d top below k top c) (omega arith) b
  copy_pages-Built (suc rounds) n lo c e h used b =
      then-Built (suc n) top lo top (copy_entry (n * pgsize) (page_of d n) c)
        (copy_pages rounds (suc n) d) (omega arith)
        (copy_entry-Built n (page_of d n) c (omega arith) refl (used n (omega arith)) b)
        (λ c' b'. copy_pages-Built rounds (suc n) lo c' (omega arith) h used b')

  share_entry-Built :
      (lo n : ℕ) (p : Option Entry) (c : Space)
      → lo ≤ top
      → top ≤ n
      → n < user_pages
      → page_of d n ≡ p
      → InUse end m p
      → IsBuilt end m d top below lo n c
      → Built end m d top below lo (suc n) (share_entry (n * pgsize) p c)
  share_entry-Built lo n none c hlo hn h there used b = absurd used
  share_entry-Built lo n (some e) c hlo hn h there (valid, used) b =
      let table = b.child.sane.table in
      rw
        (
          mappages-user c.dir n e.frame pte_wu c.mem (omega arith) table,
          b.absent n (omega arith) h (inr (omega arith)),
        )
        (record {
          child =
              write-IsChild end m n (record { frame = e.frame; perm = pte_wu }) c c.mem h valid
                b.child.sane.free_ok b.child.fewer b.child.kept b.child;
          copied = λ j hj.
              rw (written n j _ c h (omega arith) table, differ n j (omega arith)) (b.copied j hj);
          shared = λ j lo' hi'. elim (Bool-cases (n == j)) [
            | inl here ↦
                rw (written n j _ c h (omega arith) table, here, ← ((==_iff n j).0 here), there)
                  (refl, refl)
            | inr other ↦
                rw (written n j _ c h (omega arith) table, other) (b.shared j lo' (ground arith))
          ];
          absent = λ j lo' hj o. absent_after j lo' hj o;
          room = b.room;
        })
    where
      differ : (n j : ℕ) → j < n → (n == j) ≡ false
      differ n j h = ground arith

      absent_after :
          (j : ℕ)
          → lo ≤ j
          → j < user_pages
          → (j < top) ⊎ (suc n ≤ j)
          → page_of
              (set_pte (n * pgsize) (some (record { frame = e.frame; perm = pte_wu })) c.dir)
              j
            ≡ none
      absent_after j lo' hj o =
          written n j _ c h hj b.child.sane.table ∙ ground (arith, b.absent j lo' hj)

  pub share_pages-Built :
      (rounds n lo va : ℕ) (c : Space)
      → n + rounds ≡ user_pages
      → va ≡ n * pgsize
      → lo ≤ top
      → top ≤ n
      → ((j : ℕ) → top ≤ j → j < user_pages → InUse end m (page_of d j))
      → IsBuilt end m d top below lo n c
      → Built end m d top below lo user_pages (share_pages rounds va d c)
  unfolding share_pages
  share_pages-Built zero n lo va c e at hlo hn used b =
      subst (λ k. IsBuilt end m d top below lo k c) (omega arith) b
  share_pages-Built (suc rounds) n lo va c e at hlo hn used b =
      then-Built lo (suc n) lo user_pages (share_entry va (pte d va) c)
        (share_pages rounds (va + pgsize) d) (le_refl lo)
        (rw at (
          share_entry-Built lo n (page_of d n) c hlo hn (omega arith) refl (used n hn (omega arith))
            b))
        (λ c' b'.
          share_pages-Built rounds (suc n) lo (va + pgsize) c' (omega arith) (omega arith) hlo
            (omega arith) used b')
