-- ===== src/Sort/Cut.antt =====
-- The programs of projects/p1/p1a/varsort.c and varsort_onemalloc.c write no sorted file if the file is cut off.
use cs537_fall.Prelude.{
  ℕ, ◌+◌, ◌*◌, ◌/◌, ◌%◌, ◌<◌, ◌^◌, ◌≡◌, refl, leb, ◌==◌, ◌||◌, Bool-cases, Option, false, inl, inr,
  ◌⊎◌, none, some, List, [], ◌∷◌, ◌++◌, length, All, arith,
}
use cs537_fall.Sort.Files.{int_bytes, int_of-int_bytes, read, store}
use cs537_fall.Sort.Records.{
  size_of, Dataptr, Heap, Loading, loaded, failed, overran, into, with_data, with_fixed,
  write_sorted, exited, corrupted, Qsort, read_fixed, add_record, read_records, sort_file, varsort,
  varsort_onemalloc,
}
use cs537_fall.Sort.Reads.{Rec, IsRec, ints_of, encode, length-records}
use cs537_fall.Sort.Ordered.{file}

-- The reading loop did not get to its end.
abbrev IsLost : Loading → Type 0
IsLost (loaded ps m) = ⊥
IsLost failed = Unit
IsLost overran = Unit

into-IsLost :
    (block : Option ℕ) (a n : ℕ) (rest : Loading) → IsLost rest → IsLost (into block a n rest)
into-IsLost none a n rest h = elim (Bool-cases (n == 0)) [
  | inl nothing ↦ rw nothing h
  | inr some_bytes ↦ rw some_bytes tt
]
into-IsLost (some size) a n rest h = elim (Bool-cases (n == 0 || leb (a + n) size)) [
  | inl fits ↦ rw fits h
  | inr beyond ↦ rw beyond tt
]

add_record-IsLost : (p : Dataptr) (rest : Loading) → IsLost rest → IsLost (add_record p rest)
add_record-IsLost p (loaded ps m) h = h
add_record-IsLost p failed h = tt
add_record-IsLost p overran h = tt

write_sorted-lost :
    (qsort : Qsort) (room num_records : ℕ) (rest : Loading)
    → IsLost rest
    → (write_sorted qsort room num_records rest ≡ exited)
      ⊎ (write_sorted qsort room num_records rest ≡ corrupted)
write_sorted-lost qsort room num_records (loaded ps m) h = absurd h
write_sorted-lost qsort room num_records failed h = inl refl
write_sorted-lost qsort room num_records overran h = inr refl

-- Where a file that starts with `bs` is cut off: before their end, or after it.
read-cut :
    (bs cut t e : List ℕ)
    → cut ++ t ≡ bs ++ e
    → (read (length bs) cut ≡ none)
      ⊎ ((later : List ℕ) × (read (length bs) cut ≡ some (bs, later)) × (later ++ t ≡ e))
unfolding read
read-cut [] cut t e h = inr (cut, refl, h)
read-cut (b ∷ bs) [] t e h = inl refl
read-cut (b ∷ bs) (c ∷ cut) t e h =
    let heads : c ≡ b = cc in
    let tails : cut ++ t ≡ bs ++ e = cc in
    elim (read-cut bs cut t e tails) [
      | inl short ↦ inl (rw short refl)
      | inr (later, found, rest) ↦ inr (later, rw (found, heads) refl, rest)
    ]

-- The fixed part is cut off, or there is more.
fixed-cut :
    (key ints : ℕ) (cut t e : List ℕ)
    → key < 2 ^ 32
    → ints < 2 ^ 32
    → cut ++ t ≡ int_bytes key ++ (int_bytes ints ++ e)
    → (read_fixed cut ≡ none)
      ⊎ ((later : List ℕ) × (read_fixed cut ≡ some (key, ints, later)) × (later ++ t ≡ e))
fixed-cut key ints [] t e hk hi h = inl refl
fixed-cut key ints (a ∷ []) t e hk hi h = inl refl
fixed-cut key ints (a ∷ b ∷ []) t e hk hi h = inl refl
fixed-cut key ints (a ∷ b ∷ c ∷ []) t e hk hi h = inl refl
fixed-cut key ints (a ∷ b ∷ c ∷ d ∷ []) t e hk hi h = inl refl
fixed-cut key ints (a ∷ b ∷ c ∷ d ∷ a' ∷ []) t e hk hi h = inl refl
fixed-cut key ints (a ∷ b ∷ c ∷ d ∷ a' ∷ b' ∷ []) t e hk hi h = inl refl
fixed-cut key ints (a ∷ b ∷ c ∷ d ∷ a' ∷ b' ∷ c' ∷ []) t e hk hi h = inl refl
fixed-cut key ints (a ∷ b ∷ c ∷ d ∷ a' ∷ b' ∷ c' ∷ d' ∷ cut) t e hk hi h =
    let at_a : a ≡ key % 256 = cc in
    let at_b : b ≡ key / 256 % 256 = cc in
    let at_c : c ≡ key / 65536 % 256 = cc in
    let at_d : d ≡ key / 16777216 % 256 = cc in
    let at_a' : a' ≡ ints % 256 = cc in
    let at_b' : b' ≡ ints / 256 % 256 = cc in
    let at_c' : c' ≡ ints / 65536 % 256 = cc in
    let at_d' : d' ≡ ints / 16777216 % 256 = cc in
    let rest : cut ++ t ≡ e = cc in
    inr (
      cut,
      rw
          (
            at_a,
            at_b,
            at_c,
            at_d,
            at_a',
            at_b',
            at_c',
            at_d',
            int_of-int_bytes key hk,
            int_of-int_bytes ints hi,
          )
          refl,
      rest,
    )

module _ (step : ℕ → ℕ) where
  -- A file that is cut off in its records.
  read_records-cut :
      (heap : Heap) (rs : List Rec) (count pos : ℕ) (m : ℕ → ℕ) (cut : List ℕ) (b : ℕ) (t : List ℕ)
      → All IsRec rs
      → cut ++ (b ∷ t) ≡ encode rs
      → IsLost (read_records step heap (length rs) count pos cut m)
  unfolding read_records encode
  read_records-cut heap [] count pos m [] b t v h = cc
  read_records-cut heap [] count pos m (c ∷ cut) b t v h = cc
  read_records-cut heap (r ∷ rs) count pos m cut b t (v, vs) h =
      into-IsLost heap.full_records (16 * count) _ _
        (fixed (λ cut' pos' m' e. read_records-cut heap rs (count + 1) pos' m' cut' b t vs e))
    where
      size : size_of (ints_of r) ≡ length r.bytes
      size = omega (arith, v.whole, v.data_fits)

      small : leb (2 ^ 31) (length r.bytes) ≡ false
      small = ground (arith, v.data_fits)

      bytes_lost :
          ((cut' : List ℕ) (pos' : ℕ) (m' : ℕ → ℕ)
            → cut' ++ (b ∷ t) ≡ encode rs
            → IsLost (read_records step heap (length rs) (count + 1) pos' cut' m'))
          → (later : List ℕ) → later ++ (b ∷ t) ≡ r.bytes ++ encode rs
          → IsLost (
              with_data step r.key
                (ints_of r)
                count
                pos
                m
                (read_records step heap (length rs))
                (read (length r.bytes) later))
      bytes_lost others later rest = elim (read-cut r.bytes later (b ∷ t) (encode rs) rest) [
        | inl short ↦ rw short tt
        | inr (last, bytes, more) ↦
            rw bytes (add_record-IsLost _ _ (others last _ (store (4 * pos) r.bytes m) more))
      ]

      fixed :
          ((cut' : List ℕ) (pos' : ℕ) (m' : ℕ → ℕ)
            → cut' ++ (b ∷ t) ≡ encode rs
            → IsLost (read_records step heap (length rs) (count + 1) pos' cut' m'))
          → IsLost (
              with_fixed step heap count pos m
                (read_records step heap (length rs))
                (read_fixed cut))
      fixed others =
          elim (fixed-cut r.key (ints_of r) cut (b ∷ t) (r.bytes ++ encode rs)
            (omega (arith, v.key_fits)) (omega (arith, v.data_fits)) h) [
              | inl short ↦ rw short tt
              | inr (later, found, rest) ↦
                  rw (found, size, small)
                    (into-IsLost heap.data_block (4 * pos) _ _ (bytes_lost others later rest))
            ]

  sort_file-cut :
      (qsort : Qsort) (room : ℕ) (rs : List Rec) (cut : List ℕ) (b : ℕ) (t : List ℕ)
      → All IsRec rs
      → length (file rs) < 2 ^ 31
      → cut ++ (b ∷ t) ≡ file rs
      → (sort_file step qsort room cut ≡ exited) ⊎ (sort_file step qsort room cut ≡ corrupted)
  unfolding sort_file
  sort_file-cut qsort room rs [] b t v short h = inl refl
  sort_file-cut qsort room rs (x ∷ []) b t v short h = inl refl
  sort_file-cut qsort room rs (x ∷ y ∷ []) b t v short h = inl refl
  sort_file-cut qsort room rs (x ∷ y ∷ z ∷ []) b t v short h = inl refl
  sort_file-cut qsort room rs (x ∷ y ∷ z ∷ w ∷ cut) b t v short h =
      let at_x : x ≡ length rs % 256 = cc in
      let at_y : y ≡ length rs / 256 % 256 = cc in
      let at_z : z ≡ length rs / 65536 % 256 = cc in
      let at_w : w ≡ length rs / 16777216 % 256 = cc in
      let rest : cut ++ (b ∷ t) ≡ encode rs = cc in
      let few = length-records rs in
      let number = int_of-int_bytes (length rs) (omega arith) in
      rw (at_x, at_y, at_z, at_w, number)
        (write_sorted-lost qsort room (length rs) _
          (read_records-cut _ rs 0 0 (λ _. 0) cut b t v rest))

-- Where a file below 2^31 bytes of records, whose keys are below 2^31 and whose data are whole ints, is cut
-- off anywhere, neither program gets to its output: each ends with exit(1), or has a `read` that writes
-- beyond the block that was allocated by the size of the cut file.
pub varsort-cut :
    (qsort : Qsort) (room : ℕ) (rs : List Rec) (cut : List ℕ) (b : ℕ) (t : List ℕ)
    → All IsRec rs
    → length (file rs) < 2 ^ 31
    → cut ++ (b ∷ t) ≡ file rs
    → ((varsort qsort room cut ≡ exited) ⊎ (varsort qsort room cut ≡ corrupted))
      × ((varsort_onemalloc qsort room cut ≡ exited)
          ⊎ (varsort_onemalloc qsort room cut ≡ corrupted))
unfolding varsort varsort_onemalloc
varsort-cut qsort room rs cut b t v short h = (
  sort_file-cut (λ size. size / 4) qsort room rs cut b t v short h,
  sort_file-cut (λ size. size) qsort room rs cut b t v short h,
)
