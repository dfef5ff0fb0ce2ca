-- ===== src/Sort/Reads.antt =====
-- Reading the records of projects/p1/p1a/varsort.c: the file is the encoding of what memory then holds.
use cs537_fall.Prelude.{
  ℕ, ◌+◌, ◌*◌, ◌/◌, ◌%◌, ◌^◌, ◌≤◌, ◌<◌, ◌≡◌, refl, sym, ◌∙◌, subst, leb, ◌==◌, ◌||◌, true, false,
  Option, some, List, [], ◌∷◌, ◌++◌, map, length, length-append, All, arith,
}
use cs537_fall.Sort.Files.{
  int_bytes, int_of, int_of-int_bytes, read-append, store, load, store-before, load-same,
  load-store,
}
use cs537_fall.Sort.Records.{
  Dataptr, Heap, Loading, into, got, loaded, failed, overran, size_of, add_record, read_records,
}

-- A record of the file: its key and the bytes of its data.
pub record Rec : Type 0 where
  pub key : ℕ
  pub bytes : List ℕ

abbrev pub ints_of : Rec → ℕ
ints_of r = length r.bytes / 4

-- A key that is not negative as an int, and whole ints of data that `read` can read at once.
pub record IsRec (r : Rec) : Type 0 where
  pub key_fits : r.key < 2 ^ 31
  pub whole : ints_of r * 4 ≡ length r.bytes
  pub data_fits : length r.bytes < 2 ^ 31

unfoldable pub encode : List Rec → List ℕ
encode [] = []
encode (r ∷ rs) = int_bytes r.key ++ (int_bytes (ints_of r) ++ (r.bytes ++ encode rs))

-- The record that an entry of `fullRecords` stands for.
abbrev pub rec_of : (ℕ → ℕ) → Dataptr → Rec
rec_of m p = record { key = p.key; bytes = load (size_of p.data_ints) (4 * p.data_ptr) m }

-- A key that is not negative, and a size that does not wrap.
abbrev pub IsFine : Dataptr → Type 0
IsFine p = (p.key < 2 ^ 31) × (p.data_ints < 2 ^ 29)

-- A `read` that stays in its block.
into-fits {ℓ} :
    (P : Loading → Type ℓ) (block : Option ℕ) (a n size : ℕ) (rest : Loading)
    → block ≡ some size
    → a + n ≤ size
    → P rest
    → P (into block a n rest)
into-fits P block a n size rest e fits h =
    let fine : (n == 0 || leb (a + n) size) ≡ true = ground arith in rw (e, fine) h

got-le : (n : ℕ) (f : List ℕ) → got n f ≤ n
got-le n f = ground arith

-- A record has eight bytes besides its data.
pub length-records : (rs : List Rec) → 8 * length rs ≤ length (encode rs)
unfolding encode
length-records [] = omega arith
length-records (r ∷ rs) = omega (arith, length-records rs, length-append r.bytes (encode rs))

-- Blocks with room for `rs`, after `count` records and `pos` ints of data.
pub record HasRoom (heap : Heap) (count pos : ℕ) (rs : List Rec) : Type 0 where
  pub records_size : ℕ
  pub data_size : ℕ
  pub is_records : heap.full_records ≡ some records_size
  pub is_data : heap.data_block ≡ some data_size
  pub records_fit : 16 * count + 16 * length rs ≤ records_size
  pub data_fit : 4 * pos + 4 * length (encode rs) ≤ data_size + 32 * length rs

-- What the loop returns: entries that stand for the records, with memory below `pos` as it was.
abbrev pub Reads : ℕ → List Rec → (ℕ → ℕ) → Loading → Type 0
Reads pos rs m failed = ⊥
Reads pos rs m overran = ⊥
Reads pos rs m (loaded ps m') =
    (map (rec_of m') ps ≡ rs)
    × All IsFine ps
    × (length ps ≡ length rs)
    × ((x : ℕ) → x < 4 * pos → m' x ≡ m x)

module _ (step : ℕ → ℕ) (enough : (size : ℕ) → size / 4 ≤ step size)
    (most : (size : ℕ) → step size ≤ size) where
  add_record-Reads :
      (pos : ℕ) (r : Rec) (rs : List Rec) (m : ℕ → ℕ) (o : Loading)
      → IsRec r
      → Reads (pos + step (length r.bytes)) rs (store (4 * pos) r.bytes m) o
      → Reads pos
          (r ∷ rs)
          m
          (add_record (record { key = r.key; data_ints = ints_of r; data_ptr = pos }) o)
  add_record-Reads pos r rs m failed v h = h
  add_record-Reads pos r rs m overran v h = h
  add_record-Reads pos r rs m (loaded ps m') v (same, fine, count, kept) = (
    rw (size, loaded, same) refl,
    ((v.key_fits, omega (arith, v.data_fits)), fine),
    omega arith,
    λ x lt. kept x (omega arith) ∙ store-before (4 * pos) r.bytes m x lt,
  )
    where
      size : size_of (ints_of r) ≡ length r.bytes
      size = omega (arith, v.whole, v.data_fits)

      loaded : load (length r.bytes) (4 * pos) m' ≡ r.bytes
      loaded =
          load-same (length r.bytes) (4 * pos) m' (store (4 * pos) r.bytes m)
            (λ x lo hi. kept x (omega (arith, enough (length r.bytes), v.whole)))
          ∙ load-store r.bytes (4 * pos) m

  pub read_records-Reads :
      (heap : Heap) (rs : List Rec) (count pos : ℕ) (m : ℕ → ℕ)
      → All IsRec rs
      → HasRoom heap count pos rs
      → pos + length (encode rs) < 2 ^ 32
      → Reads pos rs m (read_records step heap (length rs) count pos (encode rs) m)
  unfolding read_records encode
  read_records-Reads heap [] count pos m v room h = (refl, tt, refl, λ x lt. refl)
  read_records-Reads heap (r ∷ rs) count pos m (v, vs) room h =
      let key : int_of (r.key % 256) (r.key / 256 % 256) (r.key / 65536 % 256)
            (r.key / 16777216 % 256)
          ≡ r.key =
        int_of-int_bytes r.key (omega (arith, v.key_fits)) in
      let ints : int_of (ints_of r % 256) (ints_of r / 256 % 256) (ints_of r / 65536 % 256)
            (ints_of r / 16777216 % 256)
          ≡ ints_of r =
        int_of-int_bytes (ints_of r) (omega (arith, v.data_fits)) in
      let size : size_of (ints_of r) ≡ length r.bytes = omega (arith, v.whole, v.data_fits) in
      let small : leb (2 ^ 31) (length r.bytes) ≡ false = ground (arith, v.data_fits) in
      let total : length (r.bytes ++ encode rs) ≡ length r.bytes + length (encode rs) =
        length-append r.bytes (encode rs) in
      let next_pos : (pos + step (size_of (ints_of r))) % 2 ^ 32 ≡ pos + step (length r.bytes) =
        rw size (omega (arith, most (length r.bytes))) in
      let few = length-records rs in
      into-fits (Reads pos (r ∷ rs) m) _ (16 * count) _ room.records_size _ room.is_records
        (omega (arith, room.records_fit, got-le 8 (encode (r ∷ rs))))
        (rw (key, ints, size, small)
          (into-fits (Reads pos (r ∷ rs) m) _ (4 * pos) _ room.data_size _ room.is_data
            (omega (arith, room.data_fit, got-le (length r.bytes) (r.bytes ++ encode rs)))
            (rw (read-append r.bytes (encode rs)) (
              add_record-Reads pos r rs m _ v (
                subst
                  (λ p. Reads (pos + step (length r.bytes)) rs (store (4 * pos) r.bytes m) (
                    read_records step heap (length rs) (count + 1) p (encode rs)
                      (store (4 * pos) r.bytes m)))
                  (sym next_pos)
                  (read_records-Reads heap rs (count + 1) (pos + step (length r.bytes))
                    (store (4 * pos) r.bytes m) vs
                    (record {
                      records_size = room.records_size;
                      data_size = room.data_size;
                      is_records = room.is_records;
                      is_data = room.is_data;
                      records_fit = omega (arith, room.records_fit);
                      data_fit = omega (arith, room.data_fit, most (length r.bytes));
                    })
                    (omega (arith, most (length r.bytes)))))))))
