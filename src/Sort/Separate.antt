-- ===== src/Sort/Separate.antt =====
-- projects/p1/p1a/varsort_2darray.c sorts, as varsort.c does.
use cs537_fall.Prelude.{
  ℕ, ◌+◌, ◌/◌, ◌^◌, ◌≤◌, ◌<◌, ◌≡◌, refl, sym, ap, ◌∙◌, subst, leb, false, Option, none, some, List,
  [], ◌∷◌, ◌++◌, map, length, length-append, All, arith,
}
use mathlib.Core.Logic.{∥∥₁_elim}
use mathlib.Core.List.{Perm, append-nil, append_assoc}
use mathlib.Core.List.Perm
use native.Mathlib.Nat.{ℕ_set}
use cs537_fall.Prelude.Arrays.{update, update_self, update_ne}
use cs537_fall.Sort.Files.{int_bytes, int_of-int_bytes, read-append}
use cs537_fall.Sort.Records.{Dataptr, compare_dataptr, size_of, returned, Qsort}
use cs537_fall.Sort.Reads.{Rec, ints_of, IsRec, encode, IsFine, length-records}
use cs537_fall.Sort.Writes.{write-fits}
use cs537_fall.Sort.Permuted.{same_length, length-perm}
use cs537_fall.Sort.Ordered.{
  IsQsort, compare_dataptr-IsOrder, permuted, IsFine-permuted, Ascending-keys, file, Sorts,
}
use cs537_fall.Sort.Blocks.{
  Loaded, add_entry, read_blocks, write_blocks, write_loaded, varsort_2darray,
}

-- The record that an entry stands for.
abbrev block_rec : (ℕ → List ℕ) → Dataptr → Rec
block_rec blocks p = record { key = p.key; bytes = blocks p.data_ptr }

-- The entry states the size of its block.
abbrev IsSized : (ℕ → List ℕ) → Dataptr → Type 0
IsSized blocks p = length (blocks p.data_ptr) / 4 ≡ p.data_ints

-- What the loop returns: entries that stand for the records, with the blocks below `count` as they were.
abbrev LoadsRecords : ℕ → List Rec → (ℕ → List ℕ) → Option Loaded → Type 0
LoadsRecords count rs blocks none = ⊥
LoadsRecords count rs blocks (some (ps, blocks')) =
    (map (block_rec blocks') ps ≡ rs)
    × All IsFine ps
    × All (IsSized blocks') ps
    × ((j : ℕ) → j < count → blocks' j ≡ blocks j)

add_entry-LoadsRecords :
    (count : ℕ) (r : Rec) (rs : List Rec) (blocks : ℕ → List ℕ) (o : Option Loaded)
    → IsRec r
    → LoadsRecords (count + 1) rs (update blocks count r.bytes) o
    → LoadsRecords count
        (r ∷ rs)
        blocks
        (add_entry (record { key = r.key; data_ints = ints_of r; data_ptr = count }) o)
add_entry-LoadsRecords count r rs blocks none v h = h
add_entry-LoadsRecords count r rs blocks (some (ps, blocks')) v (same, fine, sized, kept) =
    let own : blocks' count ≡ r.bytes =
      kept count (omega arith) ∙ update_self blocks count r.bytes in
    (
      rw (own, same) refl,
      ((v.key_fits, omega (arith, v.data_fits)), fine),
      (ap (λ (b : List ℕ). length b / 4) own, sized),
      λ j lt. kept j (omega arith) ∙ update_ne blocks r.bytes (λ e. omega arith),
    )

read_blocks-LoadsRecords :
    (rs : List Rec) (count : ℕ) (blocks : ℕ → List ℕ)
    → All IsRec rs
    → LoadsRecords count rs blocks (read_blocks (length rs) count (encode rs) blocks)
unfolding read_blocks encode
read_blocks-LoadsRecords [] count blocks v = (refl, tt, tt, λ j lt. refl)
read_blocks-LoadsRecords (r ∷ rs) count blocks (v, vs) =
    let size : size_of (ints_of r) ≡ length r.bytes = omega (arith, v.whole, v.data_fits) in
    let small : leb (2 ^ 31) (length r.bytes) ≡ false = ground (arith, v.data_fits) in
    rw
      (
        int_of-int_bytes r.key (omega (arith, v.key_fits)),
        int_of-int_bytes (ints_of r) (omega (arith, v.data_fits)),
        size,
        small,
        read-append r.bytes (encode rs),
      )
      (add_entry-LoadsRecords count r rs blocks _ v
        (read_blocks-LoadsRecords rs (count + 1) (update blocks count r.bytes) vs))

IsSized-prop : (blocks : ℕ → List ℕ) (ps : List Dataptr) → IsProp (All (IsSized blocks) ps)
IsSized-prop blocks [] = hlevel
IsSized-prop blocks (p ∷ ps) = hlevel (IsSized-prop blocks ps, ℕ_set)

encode-block_rec :
    (blocks : ℕ → List ℕ) (p : Dataptr) (rs : List Rec)
    → IsSized blocks p
    → encode (block_rec blocks p ∷ rs)
      ≡ (int_bytes p.key ++ int_bytes p.data_ints) ++ (blocks p.data_ptr ++ encode rs)
unfolding encode
encode-block_rec blocks p rs sized = rw sized refl

write_blocks-returned :
    (room : ℕ) (blocks : ℕ → List ℕ) (ps : List Dataptr) (out : List ℕ)
    → All (IsSized blocks) ps
    → length out + length (encode (map (block_rec blocks) ps)) ≤ room
    → write_blocks room blocks ps out ≡ returned (out ++ encode (map (block_rec blocks) ps))
unfolding write_blocks encode
write_blocks-returned room blocks [] out v h = ap returned (sym (append-nil out))
write_blocks-returned room blocks (p ∷ ps) out (v, vs) h =
    let fixed = int_bytes p.key ++ int_bytes p.data_ints in
    let bytes = blocks p.data_ptr in
    let rest = encode (map (block_rec blocks) ps) in
    let whole = encode-block_rec blocks p (map (block_rec blocks) ps) v in
    let all : length (encode (map (block_rec blocks) (p ∷ ps))) ≡ 8 + (length bytes + length rest) =
      ap length whole ∙ omega (arith, length-append bytes rest) in
    let out_fixed : length (out ++ fixed) ≡ length out + 8 = length-append out fixed in
    let out_bytes : length ((out ++ fixed) ++ bytes) ≡ length (out ++ fixed) + length bytes =
      length-append (out ++ fixed) bytes in
    let order : ((out ++ fixed) ++ bytes) ++ rest
        ≡ out ++ encode (map (block_rec blocks) (p ∷ ps)) =
      append_assoc (out ++ fixed) bytes rest
      ∙ append_assoc out fixed (bytes ++ rest)
      ∙ ap (λ (e : List ℕ). out ++ e) (sym whole) in
    rw (write-fits room fixed out (omega arith), write-fits room bytes (out ++ fixed) (omega arith))
      (write_blocks-returned room blocks ps ((out ++ fixed) ++ bytes) vs (omega arith)
        ∙ ap returned order)

module _ (qsort : Qsort) (ok : IsQsort qsort) (room : ℕ) where
  write_loaded-Sorts :
      (rs : List Rec) (o : Option Loaded)
      → 4 + length (encode rs) ≤ room
      → LoadsRecords 0 rs (λ _. []) o
      → Sorts rs (write_loaded qsort room (int_bytes (length rs)) o)
  write_loaded-Sorts rs none fits h = absurd h
  write_loaded-Sorts rs (some (ps, blocks)) fits (same, fine, sized, kept) = (
    map (block_rec blocks) qs,
    written,
    (
      perm,
      Ascending-keys (block_rec blocks) qs (λ p. refl) (IsFine-permuted moved fine)
          (ok.sorted compare_dataptr IsFine ps compare_dataptr-IsOrder fine),
    ),
  )
    where
      qs : List Dataptr
      qs = qsort compare_dataptr ps

      moved : Perm ps qs
      moved = ok.perm compare_dataptr ps

      perm : Perm rs (map (block_rec blocks) qs)
      perm =
          subst (λ l. Perm l (map (block_rec blocks) qs)) same (Perm.map (block_rec blocks) moved)

      sized' : All (IsSized blocks) qs
      sized' = ∥∥₁_elim moved (IsSized-prop blocks qs) (λ d. permuted (IsSized blocks) d sized)

      written :
          write_loaded qsort room (int_bytes (length rs)) (some (ps, blocks))
          ≡ returned (file (map (block_rec blocks) qs))
      written =
          write_blocks-returned room blocks qs (int_bytes (length rs)) sized'
            (omega (arith, same_length perm))
          ∙ ap (λ n. returned (int_bytes n ++ encode (map (block_rec blocks) qs)))
              (length-perm perm)

  pub varsort_2darray-Sorts :
      (rs : List Rec)
      → All IsRec rs
      → length (file rs) < 2 ^ 31
      → length (file rs) ≤ room
      → Sorts rs (varsort_2darray qsort room (file rs))
  unfolding varsort_2darray
  varsort_2darray-Sorts rs v short fits =
      let number = int_of-int_bytes (length rs) (omega (arith, length-records rs)) in
      rw (number, write-fits room (int_bytes (length rs)) [] (omega arith))
        (write_loaded-Sorts rs _ (omega arith) (read_blocks-LoadsRecords rs 0 (λ _. []) v))
