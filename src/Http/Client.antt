-- ===== src/Http/Client.antt =====
-- clientSend and clientPrint of projects/p4/p4a/client.c.
use cs537_fall.Prelude.{
  ℕ, zero, suc, ◌==◌, ltb, if◌then◌else◌, ◌&&◌, not, Option, none, some, List, [], ◌∷◌, ◌++◌,
}
use cs537_fall.Server.Uri.{String}
use cs537_fall.Http.Bytes.{
  joined, codes, newline, crlf, maxbuf, c_string, same_string, Line, rio_readlineb,
}
use cs537_fall.Http.Numbers.{print_int, scan_int}

-- The host name and the file name are short enough for the buffer.
unfoldable pub client_send : String → String → List ℕ
client_send hostname filename = joined (
    codes "GET "
    ∷ filename
    ∷ codes " HTTP/1.1"
    ∷ (newline ∷ [])
    ∷ codes "host: "
    ∷ hostname
    ∷ (newline ∷ [])
    ∷ crlf
    ∷ [])

-- What is behind `p` at the front of `s`.
unfoldable pub behind : String → String → Option String
behind [] s = some s
behind (c ∷ p) [] = none
behind (c ∷ p) (d ∷ s) = let rest = behind p s in if c == d then rest else none

abbrev pub print_length : Option ℕ → String
print_length none = []
print_length (some length) = codes "Length = " ++ (print_int length ++ (newline ∷ []))

abbrev pub scan_length : Option String → Option ℕ
scan_length none = none
scan_length (some s) = scan_int s

-- The test of a line for "Content-Length: %d " and what is printed for it.
unfoldable pub length_line : String → String
length_line s = print_length (scan_length (behind (codes "Content-Length:") s))

abbrev pub shows : String → Option (String × Line) → Option (String × Line)
shows s none = none
shows s (some (out, l)) = some (s ++ out, l)

-- The loop over the header: what it prints, and the line at its end.
unfoldable pub print_header : ℕ → Line → Option (String × Line)
print_header zero l = none
print_header (suc fuel) l =
    let next = rio_readlineb l.buf maxbuf l.rest in
    let more = print_header fuel next in
    if not (same_string (c_string l.buf) crlf) && ltb 0 l.n
    then shows (codes "Header: " ++ (c_string l.buf ++ length_line (c_string next.buf))) more
    else some ([], l)

abbrev pub prepend : String → Option String → Option String
prepend s none = none
prepend s (some out) = some (s ++ out)

-- The loop over the body.
unfoldable pub print_body : ℕ → Line → Option String
print_body zero l = none
print_body (suc fuel) l =
    let more = print_body fuel (rio_readlineb l.buf maxbuf l.rest) in
    if ltb 0 l.n then prepend (c_string l.buf) more else some []

abbrev pub print_rest : ℕ → Option (String × Line) → Option String
print_rest fuel none = none
print_rest fuel (some (out, l)) = prepend out (print_body fuel (rio_readlineb l.buf maxbuf l.rest))

-- What the client prints for the response `s`, with `fuel` for the tests of each loop; `buf` is what the buffer
-- holds before.
unfoldable pub client_print : ℕ → List ℕ → List ℕ → Option String
client_print fuel buf s = print_rest fuel (print_header fuel (rio_readlineb buf maxbuf s))
