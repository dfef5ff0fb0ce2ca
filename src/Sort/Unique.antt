-- ===== src/Sort/Unique.antt =====
-- The three programs of projects/p1/p1a that sort write the same file where no two different records share a key.
use cs537_fall.Prelude.{ℕ, ◌≤◌, ◌<◌, ◌^◌, ◌≡◌, sym, ap, ◌∙◌, List, [], ◌∷◌, length, All, arith}
use mathlib.Core.Logic.Or
use mathlib.Core.Path.{ap₂}
use mathlib.Core.List.{
  Perm, Mem, mem-cons_self, mem-cons_of_mem, not-mem-nil, eq-or-mem_of_mem-cons,
}
use mathlib.Core.List.Perm
use native.Mathlib.Bridge.{le_prop}
use cs537_fall.Sort.Records.{Exit, returned, Qsort, varsort, varsort_onemalloc}
use cs537_fall.Sort.Reads.{Rec, IsRec}
use cs537_fall.Sort.Blocks.{varsort_2darray}
use cs537_fall.Sort.Separate.{varsort_2darray-Sorts}
use cs537_fall.Sort.Ordered.{
  IsQsort, AscendingKeys, file, Sorts, varsort-Sorts, varsort_onemalloc-Sorts,
}

-- Records with the same key are the same.
abbrev pub IsKeyed : List Rec → Type 0
IsKeyed rs = (a b : Rec) → Mem a rs → Mem b rs → a.key ≡ b.key → a ≡ b

key_below :
    (k : ℕ) (rs : List Rec) (a : Rec) → All (λ (q : Rec). k ≤ q.key) rs → Mem a rs → k ≤ a.key
key_below k [] a h m = absurd (not-mem-nil m)
key_below k (r ∷ rs) a (h, hs) m =
    Or.elim le_prop (eq-or-mem_of_mem-cons m) (λ e. rw e h) (λ m'. key_below k rs a hs m')

-- The first key is below all keys.
head_below :
    (r : Rec) (rs : List Rec) (a : Rec) → AscendingKeys (r ∷ rs) → Mem a (r ∷ rs) → r.key ≤ a.key
head_below r rs a (h, _) m = key_below r.key (r ∷ rs) a (omega arith, h) m

AscendingKeys-unique :
    (xs ys : List Rec) → AscendingKeys xs → AscendingKeys ys → IsKeyed xs → Perm xs ys → xs ≡ ys
AscendingKeys-unique [] ys hx hy keyed p = sym (Perm.eq-nil (Perm.symm p))
AscendingKeys-unique (x ∷ xs) [] hx hy keyed p = Perm.eq-nil p
AscendingKeys-unique (x ∷ xs) (y ∷ ys) hx hy keyed p =
    let y_in : Mem y (x ∷ xs) = (Perm.mem_iff (Perm.symm p)).0 mem-cons_self in
    let x_in : Mem x (y ∷ ys) = (Perm.mem_iff p).0 mem-cons_self in
    let low : x.key ≤ y.key = head_below x xs y hx y_in in
    let high : y.key ≤ x.key = head_below y ys x hy x_in in
    let heads : x ≡ y = keyed x y mem-cons_self y_in (omega arith) in
    let tails = Perm.cons_inv (Perm.trans p (Perm.symm (Perm.cons' heads Perm.rfl))) in
    ap₂ ◌∷◌ heads (
      AscendingKeys-unique xs ys hx.1 hy.1
        (λ a b ma mb e. keyed a b (mem-cons_of_mem x ma) (mem-cons_of_mem x mb) e) tails)

Sorts-unique : (rs : List Rec) (e e' : Exit) → IsKeyed rs → Sorts rs e → Sorts rs e' → e ≡ e'
Sorts-unique rs e e' keyed (out, at, (p, up)) (out', at', (p', up')) =
    let keyed' : IsKeyed out = λ a b ma mb.
      keyed a b ((Perm.mem_iff (Perm.symm p)).0 ma) ((Perm.mem_iff (Perm.symm p)).0 mb) in
    at
    ∙ ap (λ l. returned (file l))
        (AscendingKeys-unique out out' up up' keyed' (Perm.trans (Perm.symm p) p'))
    ∙ sym at'

varsort-varsort_onemalloc :
    (qsort qsort' : Qsort) (room : ℕ) (rs : List Rec)
    → IsQsort qsort
    → IsQsort qsort'
    → All IsRec rs
    → IsKeyed rs
    → length (file rs) < 2 ^ 29
    → length (file rs) ≤ room
    → varsort qsort room (file rs) ≡ varsort_onemalloc qsort' room (file rs)
varsort-varsort_onemalloc qsort qsort' room rs ok ok' v keyed short fits =
    Sorts-unique rs _ _ keyed (varsort-Sorts qsort ok room rs v short fits)
      (varsort_onemalloc-Sorts qsort' ok' room rs v short fits)

-- For three `qsort`s as their manual says, and a file below 2^29 bytes of records whose keys are below 2^31
-- and whose data are whole ints, where records with equal keys are equal and the output has room: `varsort`,
-- `varsort_onemalloc` and `varsort_2darray`, which place the data in memory differently, write the same file.
pub varsort-varsort_2darray :
    (qsort qsort' qsort'' : Qsort) (room : ℕ) (rs : List Rec)
    → IsQsort qsort
    → IsQsort qsort'
    → IsQsort qsort''
    → All IsRec rs
    → IsKeyed rs
    → length (file rs) < 2 ^ 29
    → length (file rs) ≤ room
    → (varsort qsort room (file rs) ≡ varsort_onemalloc qsort' room (file rs))
      × (varsort qsort room (file rs) ≡ varsort_2darray qsort'' room (file rs))
varsort-varsort_2darray qsort qsort' qsort'' room rs ok ok' ok'' v keyed short fits = (
  varsort-varsort_onemalloc qsort qsort' room rs ok ok' v keyed short fits,
  Sorts-unique rs _ _ keyed (varsort-Sorts qsort ok room rs v short fits)
      (varsort_2darray-Sorts qsort'' ok'' room rs v (omega arith) fits),
)
