-- ===== src/Sort/Chain.antt =====
-- The programs of projects/p1/p1a one after another: genvar writes a file, dumpvar prints it and varsort
-- sorts it.
use cs537_fall.Prelude.{ℕ, List, map}
use cs537_fall.Sort.Ordered.{file}
use cs537_fall.Sort.Listed.{to_rec, generated}

-- The file of `records` random records.
abbrev pub random_file : (ℕ → ℕ) → ℕ → ℕ → List ℕ
random_file rand max_ints records = file (map to_rec (generated rand max_ints records 0))
