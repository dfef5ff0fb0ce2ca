-- ===== src/Sort/Generate.antt =====
-- projects/p1/p1a/genvar.c: a program that writes a file of random records. The options and the opening of
-- the file come before.
use cs537_fall.Prelude.{
  ℕ, zero, suc, ◌+◌, ◌%◌, ◌^◌, ltb, if◌then◌else◌, List, [], ◌∷◌, ◌++◌, length,
}
use cs537_fall.Sort.Files.{int_bytes}
use cs537_fall.Sort.Records.{Exit, returned, write, and_write}

-- MAX_DATA_INTS of sort.h
abbrev pub max_data_ints : ℕ
max_data_ints = 65535

-- `rec_data_t`; `data_ints` is the length of the data.
pub record RecData : Type 0 where
  pub key : ℕ
  pub ints : List ℕ

-- The loop over the data: `rand n` is what the call of rand after `n` others returns.
unfoldable pub random_ints : (ℕ → ℕ) → ℕ → ℕ → List ℕ
random_ints rand zero n = []
random_ints rand (suc left) n = rand n ∷ random_ints rand left (n + 1)

unfoldable pub random_record : (ℕ → ℕ) → ℕ → ℕ → RecData
random_record rand max_ints n = record {
  key = rand n % 0xFFFFFFFF;
  ints = random_ints rand (rand (n + 1) % max_ints + 1) (n + 2);
}

abbrev pub ints_bytes : List ℕ → List ℕ
ints_bytes [] = []
ints_bytes (x ∷ xs) = int_bytes x ++ ints_bytes xs

-- The first `data_size` bytes of the record.
abbrev pub record_bytes : RecData → List ℕ
record_bytes r = int_bytes r.key ++ (int_bytes (length r.ints) ++ ints_bytes r.ints)

-- The loop over the records, after `n` calls of rand, with a file that holds `out`.
unfoldable pub random_records : (ℕ → ℕ) → ℕ → ℕ → ℕ → ℕ → List ℕ → Exit
random_records rand max_ints room zero n out = returned out
random_records rand max_ints room (suc left) n out =
    let r = random_record rand max_ints n in
    and_write (random_records rand max_ints room left (n + 2 + length r.ints))
      (write room (record_bytes r) out)

-- `main` from the first `write` to the last; a negative number of records is written, and none follows.
unfoldable pub genvar : (ℕ → ℕ) → ℕ → ℕ → ℕ → Exit
genvar rand max_ints room records =
    and_write (random_records rand max_ints room (if ltb records (2 ^ 31) then records else 0) 0)
      (write room (int_bytes records) [])
