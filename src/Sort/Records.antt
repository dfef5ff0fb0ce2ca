-- ===== src/Sort/Records.antt =====
-- projects/p1/p1a/varsort.c and varsort_onemalloc.c. The options and the opening of the files come
-- before; what is left is reading, `qsort`, which is an argument, and writing.
use cs537_fall.Prelude.{
  ℕ, zero, suc, ◌+◌, ◌-◌, ◌*◌, ◌/◌, ◌%◌, ◌^◌, leb, ◌==◌, ◌||◌, if◌then◌else◌, Option, none, some,
  List, [], ◌∷◌, ◌++◌, length,
}
use cs537_fall.Sort.Files.{int_bytes, int_of, read, store, load}

-- `rec_dataptr_t`; the pointer is a number of ints from the start of the data.
pub record Dataptr : Type 0 where
  pub key : ℕ
  pub data_ints : ℕ
  pub data_ptr : ℕ

-- The bit pattern of the int that `CompareDataptr` returns.
abbrev pub compare_dataptr : Dataptr → Dataptr → ℕ
compare_dataptr r1 r2 = (r1.key + 2 ^ 32 - r2.key) % 2 ^ 32

-- The header of the file, and the fixed part of a record.
abbrev pub read_header : List ℕ → Option (ℕ × List ℕ)
read_header (a ∷ b ∷ c ∷ d ∷ f) = some (int_of a b c d, f)
read_header f = none

abbrev pub read_fixed : List ℕ → Option (ℕ × ℕ × List ℕ)
read_fixed (a ∷ b ∷ c ∷ d ∷ a' ∷ b' ∷ c' ∷ d' ∷ f) = some (int_of a b c d, int_of a' b' c' d', f)
read_fixed f = none

-- `data_ints * intSize` as an int; `read` never returns a negative number of bytes.
abbrev pub size_of : ℕ → ℕ
size_of ints = ints * 4 % 2 ^ 32

abbrev pub read_data : ℕ → List ℕ → Option (List ℕ × List ℕ)
read_data size f = if leb (2 ^ 31) size then none else read size f

-- What `malloc` returns for a size that is an int: a block of that size, or NULL for a negative size, which
-- is above 2^63 as a size_t.
abbrev pub malloc_int : ℕ → Option ℕ
malloc_int size = if leb (2 ^ 31) size then none else some size

-- `dataSize * intSize` as an int, from the size of the file and `numRecords`.
abbrev pub data_bytes : ℕ → ℕ → ℕ
data_bytes file_size num_records =
    let data_size = (file_size % 2 ^ 32 + 2 ^ 33 - 4 - num_records * 8 % 2 ^ 32) % 2 ^ 32 in
    data_size * 4 % 2 ^ 32

-- `numRecords * rec_dataptr_t_size` as an int.
abbrev pub records_bytes : ℕ → ℕ
records_bytes num_records = num_records * 16 % 2 ^ 32

-- The blocks of the records and of the data.
pub record Heap : Type 0 where
  pub full_records : Option ℕ
  pub data_block : Option ℕ

-- How the loop that reads ends: with the records and the memory of the data, with exit(1), or with a
-- `read` that writes beyond its block.
pub data Loading : Type 0 where
  loaded : List Dataptr → (ℕ → ℕ) → Loading
  failed : Loading
  overran : Loading

-- A `read` that gets `n` bytes and puts them at offset `a` of a block: at NULL it is an error.
abbrev pub into : Option ℕ → ℕ → ℕ → Loading → Loading
into none a n rest = if n == 0 then rest else failed
into (some size) a n rest = if n == 0 || leb (a + n) size then rest else overran

-- The number of bytes that `read` of `n` bytes gets.
abbrev pub got : ℕ → List ℕ → ℕ
got n f = if leb n (length f) then n else length f

abbrev pub add_record : Dataptr → Loading → Loading
add_record p (loaded ps m) = loaded (p ∷ ps) m
add_record p failed = failed
add_record p overran = overran

abbrev pub Next : Type 0
Next = ℕ → ℕ → List ℕ → (ℕ → ℕ) → Loading

abbrev pub with_data : (ℕ → ℕ) → ℕ → ℕ → ℕ → ℕ → (ℕ → ℕ) → Next → Option (List ℕ × List ℕ) → Loading
with_data step key ints count pos m next none = failed
with_data step key ints count pos m next (some (bytes, f)) =
    add_record (record { key = key; data_ints = ints; data_ptr = pos })
      (next (count + 1) ((pos + step (size_of ints)) % 2 ^ 32) f (store (4 * pos) bytes m))

-- The number of bytes of data that `read` gets; none for a negative size.
abbrev pub data_got : ℕ → List ℕ → ℕ
data_got size f = if leb (2 ^ 31) size then 0 else got size f

abbrev pub with_fixed : (ℕ → ℕ) → Heap → ℕ → ℕ → (ℕ → ℕ) → Next → Option (ℕ × ℕ × List ℕ) → Loading
with_fixed step heap count pos m next none = failed
with_fixed step heap count pos m next (some (key, ints, f)) =
    into heap.data_block (4 * pos) (data_got (size_of ints) f)
      (with_data step key ints count pos m next (read_data (size_of ints) f))

-- The loop that reads: `count` records have been read, `pos` is where the data of the next record go, and
-- `step` what is added to it for a record of a given size.
unfoldable pub read_records : (ℕ → ℕ) → Heap → ℕ → Next
read_records step heap zero count pos f m = loaded [] m
read_records step heap (suc records_left) count pos f m =
    into heap.full_records (16 * count) (got 8 f)
      (with_fixed step heap count pos m (read_records step heap records_left) (read_fixed f))

-- How the program ends: with the output file, with exit(1), or, as the behaviour is then undefined, at a
-- `read` that writes beyond its block.
pub data Exit : Type 0 where
  returned : List ℕ → Exit
  exited : Exit
  corrupted : Exit

-- `write` to a file that holds `out`; `room` bytes fit into it.
abbrev pub write : ℕ → List ℕ → List ℕ → Exit
write room bytes out =
    if leb (length out + length bytes) room then returned (out ++ bytes) else exited

abbrev pub and_write : (List ℕ → Exit) → Exit → Exit
and_write next exited = exited
and_write next corrupted = corrupted
and_write next (returned out) = next out

-- The loop that writes.
unfoldable pub write_records : ℕ → (ℕ → ℕ) → List Dataptr → List ℕ → Exit
write_records room m [] out = returned out
write_records room m (p ∷ ps) out =
    and_write
      (λ out'.
        and_write (write_records room m ps)
          (write room (load (size_of p.data_ints) (4 * p.data_ptr) m) out'))
      (write room (int_bytes p.key ++ int_bytes p.data_ints) out)

abbrev pub Qsort : Type 0
Qsort = (Dataptr → Dataptr → ℕ) → List Dataptr → List Dataptr

abbrev pub write_sorted : Qsort → ℕ → ℕ → Loading → Exit
write_sorted qsort room num_records failed = exited
write_sorted qsort room num_records overran = corrupted
write_sorted qsort room num_records (loaded ps m) =
    and_write (write_records room m (qsort compare_dataptr ps))
      (write room (int_bytes num_records) [])

-- The two blocks for `num_records` records in a file of `file_size` bytes.
abbrev pub allocate : ℕ → ℕ → Heap
allocate file_size num_records = record {
  full_records = malloc_int (records_bytes num_records);
  data_block = malloc_int (data_bytes file_size num_records);
}

abbrev pub sort_rest : (ℕ → ℕ) → Qsort → ℕ → ℕ → Option (ℕ × List ℕ) → Exit
sort_rest step qsort room file_size none = exited
sort_rest step qsort room file_size (some (num_records, f)) =
    write_sorted qsort room num_records
      (read_records step (allocate file_size num_records) num_records 0 0 f (λ _. 0))

-- `main` of both programs, from the size of the file to the last `write`.
unfoldable pub sort_file : (ℕ → ℕ) → Qsort → ℕ → List ℕ → Exit
sort_file step qsort room f = sort_rest step qsort room (length f) (read_header f)

unfoldable pub varsort : Qsort → ℕ → List ℕ → Exit
varsort = sort_file (λ size. size / 4)

-- Here `pos` counts ints but is advanced by bytes.
unfoldable pub varsort_onemalloc : Qsort → ℕ → List ℕ → Exit
varsort_onemalloc = sort_file (λ size. size)
