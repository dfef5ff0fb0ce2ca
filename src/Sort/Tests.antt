-- ===== src/Sort/Tests.antt =====
-- Tests of the sorting programs, and the theorems at a small file with an insertion sort for `qsort`.
use cs537_fall.Prelude.{
  ℕ, ltb, ◌++◌, ◌*◌, ◌^◌, ◌≡◌, refl, sym, ap, ◌∙◌, if◌then◌else◌, Bool-cases, false, inl, inr, ◌⊎◌,
  List, [], ◌∷◌, All, arith,
}
use mathlib.Core.Logic.Or
use mathlib.Core.List.{Perm, Mem, not-mem-nil, eq-or-mem_of_mem-cons}
use mathlib.Core.List.Perm
use native.Mathlib.Decide.{ℕ_discrete}
use cs537_fall.Sort.Files.{int_bytes, read, store, load}
use cs537_fall.Sort.Records.{
  Dataptr, returned, exited, corrupted, Qsort, read_records, write_records, sort_file, varsort,
  varsort_onemalloc,
}
use cs537_fall.Sort.Reads.{Rec, IsRec, encode}
use cs537_fall.Sort.Ordered.{is_positive, IsOrder, Ascending, IsQsort, file, Sorts, varsort-Sorts}
use cs537_fall.Sort.Cut.{varsort-cut}
use cs537_fall.Sort.Blocks.{varsort_2darray}
use cs537_fall.Sort.Unique.{IsKeyed, varsort-varsort_2darray}

abbrev insert : (Dataptr → Dataptr → ℕ) → Dataptr → List Dataptr → List Dataptr
insert compare x [] = x ∷ []
insert compare x (y ∷ ys) =
    if is_positive (compare x y) then y ∷ insert compare x ys else x ∷ y ∷ ys

abbrev insertion_sort : Qsort
insertion_sort compare [] = []
insertion_sort compare (x ∷ xs) = insert compare x (insertion_sort compare xs)

module _ (compare : Dataptr → Dataptr → ℕ) where
  insert-perm : (x : Dataptr) (ys : List Dataptr) → Perm (x ∷ ys) (insert compare x ys)
  insert-perm x [] = Perm.rfl
  insert-perm x (y ∷ ys) = elim (Bool-cases (is_positive (compare x y))) [
    | inl after ↦ rw after (Perm.trans (Perm.swap y x ys) (Perm.cons y (insert-perm x ys)))
    | inr before ↦ rw before Perm.rfl
  ]

  insertion_sort-perm : (xs : List Dataptr) → Perm xs (insertion_sort compare xs)
  insertion_sort-perm [] = Perm.rfl
  insertion_sort-perm (x ∷ xs) =
      Perm.trans (Perm.cons x (insertion_sort-perm xs)) (insert-perm x (insertion_sort compare xs))

  module _ (P : Dataptr → Type 0) (ord : IsOrder compare P) where
    insert-All :
        (Q : Dataptr → Type 0) (x : Dataptr) (ys : List Dataptr)
        → Q x
        → All Q ys
        → All Q (insert compare x ys)
    insert-All Q x [] h hs = (h, tt)
    insert-All Q x (y ∷ ys) h (hy, hs) = elim (Bool-cases (is_positive (compare x y))) [
      | inl after ↦ rw after (hy, insert-All Q x ys h hs)
      | inr before ↦ rw before (h, (hy, hs))
    ]

    insertion_sort-All : (xs : List Dataptr) → All P xs → All P (insertion_sort compare xs)
    insertion_sort-All [] h = tt
    insertion_sort-All (x ∷ xs) (h, hs) = insert-All P x _ h (insertion_sort-All xs hs)

    through :
        (x y : Dataptr) (ys : List Dataptr)
        → P x
        → P y
        → All P ys
        → is_positive (compare x y) ≡ false
        → All (λ z. is_positive (compare y z) ≡ false) ys
        → All (λ z. is_positive (compare x z) ≡ false) ys
    through x y [] px py ps h hs = tt
    through x y (z ∷ zs) px py (pz, ps) h (hz, hs) =
        (ord.trans x y z px py pz h hz, through x y zs px py ps h hs)

    insert-Ascending :
        (x : Dataptr) (ys : List Dataptr)
        → P x
        → All P ys
        → Ascending compare ys
        → Ascending compare (insert compare x ys)
    insert-Ascending x [] px ps h = (tt, tt)
    insert-Ascending x (y ∷ ys) px (py, ps) (below, h) =
        elim (Bool-cases (is_positive (compare x y))) [
          | inl after ↦
              let ordered : is_positive (compare y x) ≡ false =
                ground (arith, ord.flips x y px py, ord.flips y x py px) in
              rw after (
                insert-All (λ z. is_positive (compare y z) ≡ false) x ys ordered below,
                insert-Ascending x ys px ps h,
              )
          | inr before ↦ rw before ((before, through x y ys px py ps before below), (below, h))
        ]

    insertion_sort-Ascending :
        (xs : List Dataptr) → All P xs → Ascending compare (insertion_sort compare xs)
    insertion_sort-Ascending [] h = tt
    insertion_sort-Ascending (x ∷ xs) (h, hs) =
        insert-Ascending x _ h (insertion_sort-All xs hs) (insertion_sort-Ascending xs hs)

insertion_sort-IsQsort : IsQsort insertion_sort
insertion_sort-IsQsort = record {
  perm = insertion_sort-perm;
  sorted = λ compare P xs ord h. insertion_sort-Ascending compare P ord xs h;
}

abbrev last_first : List Rec
last_first = record { key = 500; bytes = 1 ∷ 2 ∷ 3 ∷ 4 ∷ [] } ∷ record { key = 7; bytes = [] } ∷ []

last_first-IsRec : All IsRec last_first
last_first-IsRec = (
  record { key_fits = omega arith; whole = refl; data_fits = omega arith },
  (record { key_fits = omega arith; whole = refl; data_fits = omega arith }, tt),
)

varsort-Sorts_example : Sorts last_first (varsort insertion_sort 100 (file last_first))
unfolding encode
varsort-Sorts_example =
    varsort-Sorts insertion_sort insertion_sort-IsQsort 100 last_first last_first-IsRec
      (omega arith) (omega arith)

Rec-set : IsSet Rec
Rec-set = hlevel ℕ_discrete

is_head : (r a : Rec) → Mem a (r ∷ []) → a ≡ r
is_head r a m =
    Or.elim (Rec-set a r) (eq-or-mem_of_mem-cons m) (λ e. e) (λ m'. absurd (not-mem-nil m'))

either : (r q a : Rec) (P : Type 0) → IsProp P → Mem a (r ∷ q ∷ []) → (a ≡ r → P) → (a ≡ q → P) → P
either r q a P prop m f g = Or.elim prop (eq-or-mem_of_mem-cons m) f (λ m'. g (is_head q a m'))

last_first-IsKeyed : IsKeyed last_first
last_first-IsKeyed a b ma mb e =
    either _ _ a (a ≡ b) (Rec-set a b) ma
      (λ ea.
        either _ _ b (a ≡ b) (Rec-set a b) mb (λ eb. ea ∙ sym eb)
          (λ eb. absurd (omega (arith, e, ap (λ (r : Rec). r.key) ea, ap (λ (r : Rec). r.key) eb))))
      (λ ea.
        either _ _ b (a ≡ b) (Rec-set a b) mb
          (λ eb. absurd (omega (arith, e, ap (λ (r : Rec). r.key) ea, ap (λ (r : Rec). r.key) eb)))
          (λ eb. ea ∙ sym eb))

varsort-varsort_2darray_example :
    (varsort insertion_sort 100 (file last_first)
      ≡ varsort_onemalloc insertion_sort 100 (file last_first))
    × (varsort insertion_sort 100 (file last_first)
        ≡ varsort_2darray insertion_sort 100 (file last_first))
unfolding encode
varsort-varsort_2darray_example =
    varsort-varsort_2darray insertion_sort insertion_sort insertion_sort 100 last_first
      insertion_sort-IsQsort insertion_sort-IsQsort insertion_sort-IsQsort last_first-IsRec
      last_first-IsKeyed (omega arith) (omega arith)

first_last :
    varsort insertion_sort 100 (file last_first)
    ≡ returned (
        file
          (record { key = 7; bytes = [] } ∷ record { key = 500; bytes = 1 ∷ 2 ∷ 3 ∷ 4 ∷ [] } ∷ []))
unfolding varsort sort_file read_records write_records read store load encode
first_last = refl

-- Keys that differ by more than 2^31 come out in the wrong order.
abbrev far_apart : List Rec
far_apart = record { key = 0; bytes = [] } ∷ record { key = 3 * 2 ^ 30; bytes = [] } ∷ []

far_apart_unsorted :
    varsort insertion_sort 100 (file far_apart)
    ≡ returned
        (file (record { key = 3 * 2 ^ 30; bytes = [] } ∷ record { key = 0; bytes = [] } ∷ []))
unfolding varsort sort_file read_records write_records read store load encode
far_apart_unsorted = refl

-- A file that is cut off.
no_data :
    varsort insertion_sort 100 (1 ∷ 0 ∷ 0 ∷ 0 ∷ 5 ∷ 0 ∷ 0 ∷ 0 ∷ 1 ∷ 0 ∷ 0 ∷ 0 ∷ 9 ∷ []) ≡ exited
unfolding varsort sort_file read_records read
no_data = refl

-- A first record with more data than the block that the size of the file and the number of records give.
too_much_data :
    varsort insertion_sort 100 (
      3 ∷ 0 ∷ 0 ∷ 0 ∷ 9 ∷ 0 ∷ 0 ∷ 0 ∷ 5 ∷ 0 ∷ 0 ∷ 0 ∷ int_bytes 1
      ++ (int_bytes 2 ++ (int_bytes 3 ++ (int_bytes 4 ++ int_bytes 5))))
    ≡ corrupted
unfolding varsort sort_file read_records read
too_much_data = refl

varsort-cut_example :
    ((varsort insertion_sort 100 (2 ∷ 0 ∷ 0 ∷ 0 ∷ 244 ∷ []) ≡ exited)
      ⊎ (varsort insertion_sort 100 (2 ∷ 0 ∷ 0 ∷ 0 ∷ 244 ∷ []) ≡ corrupted))
    × ((varsort_onemalloc insertion_sort 100 (2 ∷ 0 ∷ 0 ∷ 0 ∷ 244 ∷ []) ≡ exited)
        ⊎ (varsort_onemalloc insertion_sort 100 (2 ∷ 0 ∷ 0 ∷ 0 ∷ 244 ∷ []) ≡ corrupted))
unfolding encode
varsort-cut_example =
    varsort-cut insertion_sort 100 last_first (2 ∷ 0 ∷ 0 ∷ 0 ∷ 244 ∷ []) 1
      (0 ∷ 0 ∷ 1 ∷ 0 ∷ 0 ∷ 0 ∷ 1 ∷ 2 ∷ 3 ∷ 4 ∷ 7 ∷ 0 ∷ 0 ∷ 0 ∷ 0 ∷ 0 ∷ 0 ∷ 0 ∷ []) last_first-IsRec
      (omega arith) refl

-- Two records of one int each, with a generator that counts.
abbrev counter : ℕ → ℕ
counter i = if ltb i 7 then i else 0
