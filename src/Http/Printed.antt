-- ===== src/Http/Printed.antt =====
-- clientPrint of projects/p4/p4a/client.c: it ends, and it prints the whole body.
use cs537_fall.Prelude.{
  ℕ, zero, suc, ◌+◌, ◌≤◌, ◌<◌, ◌≡◌, refl, ap, sym, ◌∙◌, subst, ltb, if◌then◌else◌, Bool-cases, true,
  inl, inr, not, ◌&&◌, Option, some, List, [], ◌∷◌, ◌++◌, length, arith,
}
use cs537_fall.Server.Uri.{String}
use cs537_fall.Http.Bytes.{codes, crlf, maxbuf, c_string, same_string, Line, rio_readlineb}
use cs537_fall.Http.Client.{length_line, print_header, print_body, client_print}
use cs537_fall.Http.Lines.{
  Lacks, Lacks-left, Lacks-right, IsRead, rio_readlineb-IsRead, c_string_self,
}

print_body_line :
    (fuel : ℕ) (l : Line)
    → ltb 0 l.n ≡ true
    → Lacks 0 l.buf
    → print_body fuel (rio_readlineb l.buf maxbuf l.rest) ≡ some l.rest
    → print_body (suc fuel) l ≡ some (l.buf ++ l.rest)
unfolding print_body
print_body_line fuel l more h e = rw (more, e, c_string_self l.buf h) refl

print_body_end :
    (fuel : ℕ) (buf : List ℕ) → print_body (suc fuel) (rio_readlineb buf maxbuf []) ≡ some []
unfolding print_body rio_readlineb
print_body_end fuel buf = refl

-- A body without NUL is printed as it is.
pub print_body_all :
    (fuel : ℕ) (buf s : List ℕ)
    → Lacks 0 s
    → length s < fuel
    → print_body fuel (rio_readlineb buf maxbuf s) ≡ some s
print_body_all zero buf s h enough = absurd (omega arith)
print_body_all (suc fuel) buf [] h enough = print_body_end fuel buf
print_body_all (suc fuel) buf (c ∷ s) h enough =
    let l = rio_readlineb buf maxbuf (c ∷ s) in
    let r : IsRead c s l = rio_readlineb-IsRead buf 8190 c s in
    let visible : Lacks 0 (l.buf ++ l.rest) = subst (Lacks 0) (sym r.all) h in
    print_body_line fuel l r.positive (Lacks-left 0 l.buf l.rest visible) (
      print_body_all fuel l.buf l.rest (Lacks-right 0 l.buf l.rest visible)
        (omega (arith, r.shorter)))
    ∙ ap some r.all

-- A bound on the rounds that are left with the line `l`.
abbrev left : Line → ℕ
left l = length l.rest + (if ltb 0 l.n then 1 else 0)

left_end : (buf : List ℕ) → left (rio_readlineb buf maxbuf []) ≤ 0
unfolding rio_readlineb
left_end buf = omega arith

left-rio_readlineb : (buf s : List ℕ) → left (rio_readlineb buf maxbuf s) ≤ length s
left-rio_readlineb buf [] = left_end buf
left-rio_readlineb buf (c ∷ s) =
    let l = rio_readlineb buf maxbuf (c ∷ s) in
    let r : IsRead c s l = rio_readlineb-IsRead buf 8190 c s in
    rw (r.positive) (omega (arith, r.shorter))

left_positive : (l : Line) → ltb 0 l.n ≡ true → left l ≡ length l.rest + 1
left_positive l h = rw h refl

-- The header loop ends, with no more bytes left than before.
abbrev IsEnding : List ℕ → Option (String × Line) → Type 0
IsEnding s o = (out : String) × ((l : Line) × (o ≡ some (out, l)) × (length l.rest ≤ length s))

print_header-IsEnding :
    (fuel : ℕ) (l : Line) → left l < fuel → IsEnding l.rest (print_header fuel l)
unfolding print_header
print_header-IsEnding zero l enough = absurd (omega arith)
print_header-IsEnding (suc fuel) l enough =
    let next = rio_readlineb l.buf maxbuf l.rest in
    elim (Bool-cases (not (same_string (c_string l.buf) crlf) && ltb 0 l.n)) [
      | inl more ↦
          let positive : ltb 0 l.n ≡ true = ground arith in
          let fewer : left next ≤ length l.rest = left-rio_readlineb l.buf l.rest in
          let (out, (last, e, h)) =
            print_header-IsEnding fuel next (omega (arith, fewer, left_positive l positive)) in
          (
            (codes "Header: " ++ (c_string l.buf ++ length_line (c_string next.buf))) ++ out,
            (last, rw (more, e) refl, omega (arith, h, fewer)),
          )
      | inr done ↦ ([], (l, rw done refl, omega arith))
    ]

print_body_ends :
    (fuel : ℕ) (l : Line) → left l < fuel → (out : String) × (print_body fuel l ≡ some out)
unfolding print_body
print_body_ends zero l enough = absurd (omega arith)
print_body_ends (suc fuel) l enough = elim (Bool-cases (ltb 0 l.n)) [
  | inl more ↦
      let (out, e) =
        print_body_ends fuel (rio_readlineb l.buf maxbuf l.rest)
          (omega (arith, left-rio_readlineb l.buf l.rest, left_positive l more)) in
      (c_string l.buf ++ out, rw (more, e) refl)
  | inr done ↦ ([], rw done refl)
]

-- clientPrint ends on every response, within one more test in each loop than there are bytes.
pub client_print_ends :
    (fuel : ℕ) (buf s : List ℕ)
    → length s < fuel
    → (out : String) × (client_print fuel buf s ≡ some out)
unfolding client_print
client_print_ends fuel buf s enough =
    let first = rio_readlineb buf maxbuf s in
    let fewer : left first ≤ length s = left-rio_readlineb buf s in
    let (head, (l, e, h)) = print_header-IsEnding fuel first (omega (arith, fewer)) in
    let (body, f) =
      print_body_ends fuel (rio_readlineb l.buf maxbuf l.rest)
        (omega (arith, fewer, h, left-rio_readlineb l.buf l.rest)) in
    (head ++ body, rw (e, f) refl)
