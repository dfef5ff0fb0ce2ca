-- ===== src/Sort/Ordered.antt =====
-- The programs of projects/p1/p1a/varsort.c and varsort_onemalloc.c sort the records of a file.
use cs537_fall.Prelude.{
  ℕ, ◌+◌, ◌/◌, ◌^◌, ◌≤◌, ◌<◌, ◌≡◌, refl, sym, ap, ◌∙◌, subst, ltb, leb, ◌==◌, not, ◌&&◌, Bool,
  false, List, [], ◌∷◌, ◌++◌, map, length, All, arith,
}
use mathlib.Core.Logic.{∥∥₁_elim}
use mathlib.Core.List.{Perm, Permᴰ}
use mathlib.Core.List.Perm
use native.Mathlib.Bridge.{le_prop}
use native.Mathlib.Nat.{le_refl}
use cs537_fall.Sort.Files.{int_bytes, int_of-int_bytes}
use cs537_fall.Sort.Records.{
  Dataptr, Loading, loaded, failed, overran, records_bytes, data_bytes, allocate, compare_dataptr,
  Exit, returned, Qsort, write_sorted, sort_file, varsort, varsort_onemalloc,
}
use cs537_fall.Sort.Reads.{
  Rec, IsRec, encode, rec_of, IsFine, Reads, HasRoom, length-records, read_records-Reads,
}
use cs537_fall.Sort.Permuted.{same_length, length-perm}
use cs537_fall.Sort.Writes.{write-fits, write_records-returned}

-- The sign of an int.
abbrev pub is_negative : ℕ → Bool
is_negative x = leb (2 ^ 31) x

abbrev pub is_positive : ℕ → Bool
is_positive x = not (x == 0) && ltb x (2 ^ 31)

-- A comparison that is an order on the elements with `P`, as `qsort` asks.
pub record IsOrder (compare : Dataptr → Dataptr → ℕ) (P : Dataptr → Type 0) : Type 0 where
  pub flips : (a b : Dataptr) → P a → P b → is_positive (compare a b) ≡ is_negative (compare b a)
  pub trans :
      (a b c : Dataptr)
      → P a
      → P b
      → P c
      → is_positive (compare a b) ≡ false
      → is_positive (compare b c) ≡ false
      → is_positive (compare a c) ≡ false

-- No element compares greater than a later one.
abbrev pub Ascending : (Dataptr → Dataptr → ℕ) → List Dataptr → Type 0
Ascending compare [] = Unit
Ascending compare (x ∷ xs) = All (λ y. is_positive (compare x y) ≡ false) xs × Ascending compare xs

-- What the manual says of `qsort`: it permutes, and the result is ascending if the comparison is an order
-- on the elements.
pub record IsQsort (qsort : Qsort) : Type 1 where
  pub perm : (compare : Dataptr → Dataptr → ℕ) (xs : List Dataptr) → Perm xs (qsort compare xs)
  pub sorted :
      (compare : Dataptr → Dataptr → ℕ) (P : Dataptr → Type 0) (xs : List Dataptr)
      → IsOrder compare P
      → All P xs
      → Ascending compare (qsort compare xs)

-- For keys below 2^31 the comparison by subtraction is an order.
pub compare_dataptr-IsOrder : IsOrder compare_dataptr IsFine
compare_dataptr-IsOrder = record {
  flips = λ a b fa fb. ground (arith, fa.0, fb.0);
  trans = λ a b c fa fb fc p q. ground (arith, fa.0, fb.0, fc.0);
}

-- Keys in ascending order.
abbrev pub AscendingKeys : List Rec → Type 0
AscendingKeys [] = Unit
AscendingKeys (r ∷ rs) = All (λ (q : Rec). r.key ≤ q.key) rs × AscendingKeys rs

pub permuted : (P : Dataptr → Type 0) {xs ys : List Dataptr} → Permᴰ xs ys → All P xs → All P ys
permuted P Permᴰ.nil h = h
permuted P (Permᴰ.cons e d) (h, hs) = (subst P e h, permuted P d hs)
permuted P (Permᴰ.swap e₁ e₂) (h₁, (h₂, hs)) = (subst P e₂ h₂, (subst P e₁ h₁, hs))
permuted P (Permᴰ.trans d₁ d₂) h = permuted P d₂ (permuted P d₁ h)

IsFine-prop : (xs : List Dataptr) → IsProp (All IsFine xs)
IsFine-prop [] = hlevel
IsFine-prop (x ∷ xs) = hlevel (IsFine-prop xs, le_prop)

pub IsFine-permuted : {xs ys : List Dataptr} → Perm xs ys → All IsFine xs → All IsFine ys
IsFine-permuted {ys = ys} p h = ∥∥₁_elim p (IsFine-prop ys) (λ d. permuted IsFine d h)

above-keys :
    (rec : Dataptr → Rec) (x : Dataptr) (ps : List Dataptr)
    → ((p : Dataptr) → (rec p).key ≡ p.key)
    → IsFine x
    → All IsFine ps
    → All (λ y. is_positive (compare_dataptr x y) ≡ false) ps
    → All (λ (q : Rec). x.key ≤ q.key) (map rec ps)
above-keys rec x [] keys fx fs h = tt
above-keys rec x (p ∷ ps) keys fx (fp, fs) (h, hs) =
    (ground (arith, fx.0, fp.0, h, keys p), above-keys rec x ps keys fx fs hs)

pub Ascending-keys :
    (rec : Dataptr → Rec) (ps : List Dataptr)
    → ((p : Dataptr) → (rec p).key ≡ p.key)
    → All IsFine ps
    → Ascending compare_dataptr ps
    → AscendingKeys (map rec ps)
Ascending-keys rec [] keys v h = tt
Ascending-keys rec (p ∷ ps) keys (v, vs) (h, hs) =
    (head_ascending (above-keys rec p ps keys v vs h), Ascending-keys rec ps keys vs hs)
  where
    head_ascending :
        All (λ (q : Rec). p.key ≤ q.key) (map rec ps)
        → All (λ (q : Rec). (rec p).key ≤ q.key) (map rec ps)
    head_ascending = subst (λ k. All (λ (q : Rec). k ≤ q.key) (map rec ps)) (sym (keys p))

-- A file of records: their number, and then the records.
abbrev pub file : List Rec → List ℕ
file rs = int_bytes (length rs) ++ encode rs

-- In a file below 2^29 bytes the sizes of the blocks do not overflow, and the blocks are large enough.
allocate-HasRoom :
    (rs : List Rec)
    → length (file rs) < 2 ^ 29
    → HasRoom (allocate (length (file rs)) (length rs)) 0 0 rs
allocate-HasRoom rs short =
    let few = length-records rs in
    let entries : leb (2 ^ 31) (records_bytes (length rs)) ≡ false = ground arith in
    let area : leb (2 ^ 31) (data_bytes (length (file rs)) (length rs)) ≡ false = ground arith in
    record {
      records_size = records_bytes (length rs);
      data_size = data_bytes (length (file rs)) (length rs);
      is_records = rw entries refl;
      is_data = rw area refl;
      records_fit = omega arith;
      data_fit = omega arith;
    }

-- The program returns and writes the file of the same records, sorted by key.
abbrev pub Sorts : List Rec → Exit → Type 0
Sorts rs e = (out : List Rec) × (e ≡ returned (file out)) × (Perm rs out × AscendingKeys out)

module _ (qsort : Qsort) (ok : IsQsort qsort) (room : ℕ) where
  write_sorted-Sorts :
      (rs : List Rec) (o : Loading)
      → 4 + length (encode rs) ≤ room
      → Reads 0 rs (λ _. 0) o
      → Sorts rs (write_sorted qsort room (length rs) o)
  write_sorted-Sorts rs failed fits h = absurd h
  write_sorted-Sorts rs overran fits h = absurd h
  write_sorted-Sorts rs (loaded ps m) fits (same, fine, count, kept) = (
    map (rec_of m) qs,
    written,
    (
      perm,
      Ascending-keys (rec_of m) qs (λ p. refl) fine'
          (ok.sorted compare_dataptr IsFine ps compare_dataptr-IsOrder fine),
    ),
  )
    where
      qs : List Dataptr
      qs = qsort compare_dataptr ps

      perm : Perm rs (map (rec_of m) qs)
      perm =
          subst (λ l. Perm l (map (rec_of m) qs)) same
            (Perm.map (rec_of m) (ok.perm compare_dataptr ps))

      fine' : All IsFine qs
      fine' = IsFine-permuted (ok.perm compare_dataptr ps) fine

      written :
          write_sorted qsort room (length rs) (loaded ps m) ≡ returned (file (map (rec_of m) qs))
      written = rw (write-fits room (int_bytes (length rs)) [] (omega arith)) (
          write_records-returned room m qs (int_bytes (length rs)) fine'
            (omega (arith, same_length perm))
          ∙ ap (λ n. returned (int_bytes n ++ encode (map (rec_of m) qs))) (length-perm perm))

  sort_file-Sorts :
      (step : ℕ → ℕ)
      → ((size : ℕ) → size / 4 ≤ step size)
      → ((size : ℕ) → step size ≤ size)
      → (rs : List Rec) → All IsRec rs
      → length (file rs) < 2 ^ 29
      → length (file rs) ≤ room
      → Sorts rs (sort_file step qsort room (file rs))
  unfolding sort_file
  sort_file-Sorts step enough most rs v short fits =
      let few = length-records rs in
      let number = int_of-int_bytes (length rs) (omega arith) in
      rw number (
        write_sorted-Sorts rs _ (omega arith) (
          read_records-Reads step enough most (allocate (length (file rs)) (length rs)) rs 0 0
            (λ _. 0) v (allocate-HasRoom rs short) (omega arith)))

  -- For a `qsort` as its manual says, and a file below 2^29 bytes of records whose keys are below 2^31 and
  -- whose data are whole ints, where the output has room: `varsort` returns, and has written the file of
  -- a permutation of the records whose keys are in ascending order, each with its data.
  pub varsort-Sorts :
      (rs : List Rec)
      → All IsRec rs
      → length (file rs) < 2 ^ 29
      → length (file rs) ≤ room
      → Sorts rs (varsort qsort room (file rs))
  unfolding varsort
  varsort-Sorts = sort_file-Sorts (λ size. size / 4) (λ size. le_refl _) (λ size. omega arith)

  pub varsort_onemalloc-Sorts :
      (rs : List Rec)
      → All IsRec rs
      → length (file rs) < 2 ^ 29
      → length (file rs) ≤ room
      → Sorts rs (varsort_onemalloc qsort room (file rs))
  unfolding varsort_onemalloc
  varsort_onemalloc-Sorts = sort_file-Sorts (λ size. size) (λ size. omega arith) (λ size. le_refl _)
