-- ===== src/Sort/Writes.antt =====
-- Writing the records of projects/p1/p1a/varsort.c: the output is the encoding of what memory holds.
use cs537_fall.Prelude.{
  ℕ, ◌+◌, ◌*◌, ◌/◌, ◌≤◌, ◌≡◌, refl, sym, ap, ◌∙◌, leb, true, List, [], ◌∷◌, ◌++◌, map, length,
  length-append, All, arith,
}
use mathlib.Core.List.{append-nil, append_assoc}
use cs537_fall.Sort.Files.{int_bytes, load, length-load}
use cs537_fall.Sort.Records.{Dataptr, size_of, returned, write, write_records}
use cs537_fall.Sort.Reads.{Rec, encode, rec_of, IsFine}

pub write-fits :
    (room : ℕ) (bytes out : List ℕ)
    → length out + length bytes ≤ room
    → write room bytes out ≡ returned (out ++ bytes)
write-fits room bytes out h =
    let fits : leb (length out + length bytes) room ≡ true = ground arith in rw fits refl

-- A record takes the place of its fixed part and its data.
encode-rec_of :
    (m : ℕ → ℕ) (p : Dataptr) (rs : List Rec)
    → IsFine p
    → encode (rec_of m p ∷ rs)
      ≡ int_bytes p.key
        ++ (int_bytes p.data_ints ++ (load (size_of p.data_ints) (4 * p.data_ptr) m ++ encode rs))
unfolding encode
encode-rec_of m p rs (key, ints) =
    let whole : length (load (size_of p.data_ints) (4 * p.data_ptr) m) / 4 ≡ p.data_ints =
      omega (arith, length-load (size_of p.data_ints) (4 * p.data_ptr) m) in
    rw whole refl

pub write_records-returned :
    (room : ℕ) (m : ℕ → ℕ) (ps : List Dataptr) (out : List ℕ)
    → All IsFine ps
    → length out + length (encode (map (rec_of m) ps)) ≤ room
    → write_records room m ps out ≡ returned (out ++ encode (map (rec_of m) ps))
unfolding write_records encode
write_records-returned room m [] out v h = ap returned (sym (append-nil out))
write_records-returned room m (p ∷ ps) out (v, vs) h =
    let fixed = int_bytes p.key ++ int_bytes p.data_ints in
    let bytes = load (size_of p.data_ints) (4 * p.data_ptr) m in
    let rest = encode (map (rec_of m) ps) in
    let all : length (encode (rec_of m p ∷ map (rec_of m) ps)) ≡ 8 + (length bytes + length rest) =
      ap length (encode-rec_of m p (map (rec_of m) ps) v)
      ∙ omega (arith, length-append bytes rest) in
    let out_fixed : length (out ++ fixed) ≡ length out + 8 = length-append out fixed in
    let out_bytes : length ((out ++ fixed) ++ bytes) ≡ length (out ++ fixed) + length bytes =
      length-append (out ++ fixed) bytes in
    let order : ((out ++ fixed) ++ bytes) ++ rest ≡ out ++ encode (rec_of m p ∷ map (rec_of m) ps) =
      append_assoc (out ++ fixed) bytes rest
      ∙ append_assoc out fixed (bytes ++ rest)
      ∙ ap (λ e. out ++ e) (sym (encode-rec_of m p (map (rec_of m) ps) v)) in
    rw (write-fits room fixed out (omega arith), write-fits room bytes (out ++ fixed) (omega arith))
      (write_records-returned room m ps ((out ++ fixed) ++ bytes) vs (omega arith)
        ∙ ap returned order)
