-- ===== src/Sort/Listed.antt =====
-- What dumpvar of projects/p1/p1a prints for the file that genvar writes.
use mathlib.Core.List.{append-nil, append_assoc}
use cs537_fall.Prelude.{
  ℕ, zero, suc, ◌+◌, ◌*◌, ◌/◌, ◌^◌, ◌≤◌, ◌<◌, ◌≡◌, refl, sym, ap, ◌∙◌, leb, true, some, List, [],
  ◌∷◌, ◌++◌, map, length, length-append, length-map, All, arith,
}
use cs537_fall.Http.Bytes.{codes, newline}
use cs537_fall.Http.Numbers.{print_int}
use cs537_fall.Sort.Files.{int_bytes, int_of-int_bytes, read, read-append}
use cs537_fall.Sort.Records.{returned}
use cs537_fall.Sort.Reads.{Rec, encode}
use cs537_fall.Sort.Writes.{write-fits}
use cs537_fall.Sort.Ordered.{file}
use cs537_fall.Sort.Generate.{
  max_data_ints, RecData, random_record, ints_bytes, record_bytes, random_records,
}
use cs537_fall.Sort.Dump.{returns, ints_at, print_record, dump_records, dumpvar}

-- A record as varsort reads it.
abbrev pub to_rec : RecData → Rec
to_rec r = record { key = r.key; bytes = ints_bytes r.ints }

-- Unsigned ints, and no more of them than MAX_DATA_INTS.
pub record IsRecData (r : RecData) : Type 0 where
  pub key_fits : r.key < 2 ^ 32
  pub ints_fit : All (λ x. x < 2 ^ 32) r.ints
  pub few : length r.ints ≤ max_data_ints

-- The lines for the records, from the number `count` on.
abbrev pub listing : ℕ → List RecData → List ℕ
listing count [] = []
listing count (r ∷ rs) = print_record count r.key (length r.ints) r.ints ++ listing (count + 1) rs

pub length-ints_bytes : (xs : List ℕ) → length (ints_bytes xs) ≡ length xs * 4
length-ints_bytes [] = refl
length-ints_bytes (x ∷ xs) = omega (arith, length-ints_bytes xs)

ints_at-ints_bytes : (xs : List ℕ) → All (λ x. x < 2 ^ 32) xs → ints_at (ints_bytes xs) ≡ xs
ints_at-ints_bytes [] h = refl
ints_at-ints_bytes (x ∷ xs) (h, hs) = rw (int_of-int_bytes x h, ints_at-ints_bytes xs hs) refl

ints_of-to_rec : (r : RecData) → length (ints_bytes r.ints) / 4 ≡ length r.ints
ints_of-to_rec r = omega (arith, length-ints_bytes r.ints)

encode-to_rec :
    (r : RecData) (rs : List RecData)
    → encode (map to_rec (r ∷ rs)) ≡ record_bytes r ++ encode (map to_rec rs)
unfolding encode
encode-to_rec r rs =
    rw
      (
        ints_of-to_rec r,
        append_assoc (int_bytes r.key) (int_bytes (length r.ints) ++ ints_bytes r.ints)
            (encode (map to_rec rs)),
      )
      refl

read-ints_bytes :
    (xs f : List ℕ) → read (length xs * 4) (ints_bytes xs ++ f) ≡ some (ints_bytes xs, f)
read-ints_bytes xs f =
    ap (λ n. read n (ints_bytes xs ++ f)) (sym (length-ints_bytes xs))
    ∙ read-append (ints_bytes xs) f

dump_records-listing :
    (rs : List RecData) (count : ℕ)
    → All IsRecData rs
    → dump_records (length rs) count (encode (map to_rec rs))
      ≡ record { text = listing count rs; ending = returns }
unfolding dump_records encode
dump_records-listing [] count h = refl
dump_records-listing (r ∷ rs) count (h, hs) =
    let few : leb (length r.ints) max_data_ints ≡ true = ground (arith, h.few) in
    rw
      (
        ints_of-to_rec r,
        int_of-int_bytes (length r.ints) (omega (arith, h.few)),
        int_of-int_bytes r.key h.key_fits,
        few,
        read-ints_bytes r.ints (encode (map to_rec rs)),
        ints_at-ints_bytes r.ints h.ints_fit,
        dump_records-listing rs (count + 1) hs,
      )
      refl

-- dumpvar returns, and has printed the number of records and a line for each.
pub dumpvar-listing :
    (rs : List RecData)
    → All IsRecData rs
    → length rs < 2 ^ 32
    → dumpvar (file (map to_rec rs)) ≡ record {
      text =
          codes "Number of records: "
          ++ ((print_int (length rs) ++ (newline ∷ [])) ++ listing 0 rs);
      ending = returns;
    }
unfolding dumpvar
dumpvar-listing rs h short =
    rw (length-map rs to_rec, int_of-int_bytes (length rs) short, dump_records-listing rs 0 h) refl

-- The records that genvar writes.
unfoldable pub generated : (ℕ → ℕ) → ℕ → ℕ → ℕ → List RecData
generated rand max_ints zero n = []
generated rand max_ints (suc left) n =
    random_record rand max_ints n
    ∷ generated rand max_ints left (n + 2 + length (random_record rand max_ints n).ints)

no_records :
    (rand : ℕ → ℕ) (max_ints room n : ℕ) (out : List ℕ)
    → random_records rand max_ints room 0 n out ≡ returned (out ++ encode [])
unfolding random_records encode
no_records rand max_ints room n out = ap returned (sym (append-nil out))

random_records-next :
    (rand : ℕ → ℕ) (max_ints room left n : ℕ) (out : List ℕ)
    → length out + length (record_bytes (random_record rand max_ints n)) ≤ room
    → random_records rand max_ints room (suc left) n out
      ≡ random_records rand max_ints room left
          (n + 2 + length (random_record rand max_ints n).ints)
          (out ++ record_bytes (random_record rand max_ints n))
unfolding random_records
random_records-next rand max_ints room left n out fits =
    rw (write-fits room (record_bytes (random_record rand max_ints n)) out fits) refl

pub random_records-generated :
    (rand : ℕ → ℕ) (max_ints room left n : ℕ) (out : List ℕ)
    → length out + length (encode (map to_rec (generated rand max_ints left n))) ≤ room
    → random_records rand max_ints room left n out
      ≡ returned (out ++ encode (map to_rec (generated rand max_ints left n)))
unfolding generated
random_records-generated rand max_ints room zero n out fits = no_records rand max_ints room n out
random_records-generated rand max_ints room (suc left) n out fits =
    let r = random_record rand max_ints n in
    let next = n + 2 + length r.ints in
    let rs = generated rand max_ints left next in
    let more = encode (map to_rec rs) in
    let whole : length (encode (map to_rec (r ∷ rs))) ≡ length (record_bytes r) + length more =
      ap length (encode-to_rec r rs) ∙ length-append (record_bytes r) more in
    let longer : length (out ++ record_bytes r) ≡ length out + length (record_bytes r) =
      length-append out (record_bytes r) in
    random_records-next rand max_ints room left n out (omega (arith, whole, fits))
    ∙ random_records-generated rand max_ints room left next (out ++ record_bytes r)
        (omega (arith, whole, longer, fits))
    ∙ ap returned (
        append_assoc out (record_bytes r) more
        ∙ ap (λ (e : List ℕ). out ++ e) (sym (encode-to_rec r rs)))
