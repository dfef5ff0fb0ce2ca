-- ===== src/Sort/Blocks.antt =====
-- projects/p1/p1a/varsort_2darray.c: each record has a block of its own for its data, and the header is
-- written before the records are read. The options and the opening of the files come before.
use cs537_fall.Prelude.{ℕ, zero, suc, ◌+◌, Option, none, some, List, [], ◌∷◌, ◌++◌}
use cs537_fall.Prelude.Arrays.{update}
use cs537_fall.Sort.Files.{int_bytes}
use cs537_fall.Sort.Records.{
  Dataptr, compare_dataptr, read_header, read_fixed, size_of, read_data, Exit, returned, exited,
  write, and_write, Qsort,
}

-- The records and the blocks; a `data_ptr` is the number of a block.
abbrev pub Loaded : Type 0
Loaded = List Dataptr × (ℕ → List ℕ)

abbrev pub add_entry : Dataptr → Option Loaded → Option Loaded
add_entry p none = none
add_entry p (some (ps, blocks)) = some (p ∷ ps, blocks)

abbrev pub NextBlock : Type 0
NextBlock = List ℕ → (ℕ → List ℕ) → Option Loaded

abbrev pub block_data :
    ℕ → ℕ → ℕ → (ℕ → List ℕ) → NextBlock → Option (List ℕ × List ℕ) → Option Loaded
block_data key ints count blocks next none = none
block_data key ints count blocks next (some (bytes, f)) =
    add_entry (record { key = key; data_ints = ints; data_ptr = count })
      (next f (update blocks count bytes))

abbrev pub block_fixed : ℕ → (ℕ → List ℕ) → NextBlock → Option (ℕ × ℕ × List ℕ) → Option Loaded
block_fixed count blocks next none = none
block_fixed count blocks next (some (key, ints, f)) =
    block_data key ints count blocks next (read_data (size_of ints) f)

-- The loop that reads; `count` records have been read.
unfoldable pub read_blocks : ℕ → ℕ → NextBlock
read_blocks zero count f blocks = some ([], blocks)
read_blocks (suc records_left) count f blocks =
    block_fixed count blocks (read_blocks records_left (count + 1)) (read_fixed f)

-- The loop that writes; a block holds the data of its record and nothing else.
unfoldable pub write_blocks : ℕ → (ℕ → List ℕ) → List Dataptr → List ℕ → Exit
write_blocks room blocks [] out = returned out
write_blocks room blocks (p ∷ ps) out =
    and_write
      (λ out'. and_write (write_blocks room blocks ps) (write room (blocks p.data_ptr) out'))
      (write room (int_bytes p.key ++ int_bytes p.data_ints) out)

abbrev pub write_loaded : Qsort → ℕ → List ℕ → Option Loaded → Exit
write_loaded qsort room out none = exited
write_loaded qsort room out (some (ps, blocks)) =
    write_blocks room blocks (qsort compare_dataptr ps) out

abbrev pub blocks_rest : Qsort → ℕ → Option (ℕ × List ℕ) → Exit
blocks_rest qsort room none = exited
blocks_rest qsort room (some (num_records, f)) =
    and_write (λ out. write_loaded qsort room out (read_blocks num_records 0 f (λ _. [])))
      (write room (int_bytes num_records) [])

-- `main` from the first `read` to the last `write`.
unfoldable pub varsort_2darray : Qsort → ℕ → List ℕ → Exit
varsort_2darray qsort room f = blocks_rest qsort room (read_header f)
