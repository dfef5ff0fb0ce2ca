-- ===== src/Sort/Dump.antt =====
-- projects/p1/p1a/dumpvar.c: a program that prints the records of a file. The options and the opening of
-- the file come before.
use cs537_fall.Prelude.{
  ℕ, zero, suc, ◌+◌, ◌*◌, leb, if◌then◌else◌, Option, none, some, List, [], ◌∷◌, ◌++◌,
}
use cs537_fall.Http.Bytes.{joined, codes, newline}
use cs537_fall.Http.Numbers.{print_nat, print_int}
use cs537_fall.Sort.Files.{int_of, read}
use cs537_fall.Sort.Records.{read_header, read_fixed}
use cs537_fall.Sort.Generate.{max_data_ints}

-- How the program ends: it returns, it calls exit(1), or an assertion fails.
pub data End : Type 0 where
  returns : End
  exits : End
  aborts : End

-- What it has printed, and how it ends.
pub record Dumped : Type 0 where
  pub text : List ℕ
  pub ending : End

abbrev stop : End → Dumped
stop e = record { text = []; ending = e }

abbrev pub say : List ℕ → Dumped → Dumped
say s d = record d { text = s ++ d.text }

-- The ints that the bytes in `data` are.
abbrev pub ints_at : List ℕ → List ℕ
ints_at (a ∷ b ∷ c ∷ d ∷ bytes) = int_of a b c d ∷ ints_at bytes
ints_at bytes = []

-- "%u " for each
abbrev pub print_ints : List ℕ → List ℕ
print_ints [] = []
print_ints (x ∷ xs) = print_nat x ++ (32 ∷ print_ints xs)

abbrev pub print_record : ℕ → ℕ → ℕ → List ℕ → List ℕ
print_record count key ints values = joined (
    codes "key "
    ∷ print_int count
    ∷ codes ": "
    ∷ print_nat key
    ∷ codes " data_ints: "
    ∷ print_nat ints
    ∷ codes " rec: "
    ∷ print_ints values
    ∷ (newline ∷ [])
    ∷ [])

abbrev pub dump_data : ℕ → ℕ → ℕ → (List ℕ → Dumped) → Option (List ℕ × List ℕ) → Dumped
dump_data count key ints next none = stop exits
dump_data count key ints next (some (bytes, f)) =
    say (print_record count key ints (ints_at bytes)) (next f)

abbrev pub dump_fixed : ℕ → (List ℕ → Dumped) → Option (ℕ × ℕ × List ℕ) → Dumped
dump_fixed count next none = stop exits
dump_fixed count next (some (key, ints, f)) =
    if leb ints max_data_ints
    then dump_data count key ints next (read (ints * 4) f)
    else stop aborts

-- The loop. A negative number of records stands for as many rounds as its bit pattern.
unfoldable pub dump_records : ℕ → ℕ → List ℕ → Dumped
dump_records zero count f = stop returns
dump_records (suc records_left) count f =
    dump_fixed count (dump_records records_left (count + 1)) (read_fixed f)

abbrev pub dump_rest : Option (ℕ × List ℕ) → Dumped
dump_rest none = stop exits
dump_rest (some (records_left, f)) =
    say (codes "Number of records: " ++ (print_int records_left ++ (newline ∷ [])))
      (dump_records records_left 0 f)

-- `main` from the first `read` on.
unfoldable pub dumpvar : List ℕ → Dumped
dumpvar f = dump_rest (read_header f)
