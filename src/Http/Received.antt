-- ===== src/Http/Received.antt =====
-- requestHandle of projects/p4/p4a/request.c on what clientSend of client.c sends.
use mathlib.Core.List.{append_assoc}
use cs537_fall.Prelude.{
  ℕ, ◌+◌, ◌≤◌, ◌<◌, ◌≡◌, ◌≢◌, refl, true, false, some, [], ◌∷◌, ◌++◌, length, length-append, All,
  arith,
}
use cs537_fall.Server.Uri.{String, request_parse_uri}
use cs537_fall.Server.Request.{serve, request_handle}
use cs537_fall.Http.Bytes.{codes, newline, crlf, maxline, c_string, same_string}
use cs537_fall.Http.Numbers.{is_space, skip_spaces}
use cs537_fall.Http.Replies.{deliver}
use cs537_fall.Http.Requests.{word, after_word, Words, scan_words, is_get, Stack, Files, handle}
use cs537_fall.Http.Client.{client_send}
use cs537_fall.Http.Lines.{
  Lacks, Lacks-append, is_without, is_without-Lacks, rio_readlineb_line, c_string_self,
}
use cs537_fall.Http.Readhdrs.{IsHeader, lines_before, request_readhdrs_ends}

-- A file name that stays one word of the request line: not empty, and no white space or NUL in it.
abbrev pub IsName : String → Type 0
IsName [] = ⊥
IsName (c ∷ s) = All (λ d. (is_space d ≡ false) × (d ≢ 0)) (c ∷ s)

abbrev Visible : ℕ → Type 0
Visible d = (is_space d ≡ false) × (d ≢ 0)

word_space : (s t : String) → All Visible s → word (s ++ (32 ∷ t)) ≡ s
unfolding word
word_space [] t h = refl
word_space (c ∷ s) t ((v, _), h) = rw (v, word_space s t h) refl

after_word_space : (s t : String) → All Visible s → after_word (s ++ (32 ∷ t)) ≡ 32 ∷ t
unfolding after_word
after_word_space [] t h = refl
after_word_space (c ∷ s) t ((v, _), h) = rw (v, after_word_space s t h) refl

Visible-Lacks : (s : String) → All Visible s → Lacks newline s × Lacks 0 s
Visible-Lacks [] h = (tt, tt)
Visible-Lacks (c ∷ s) ((v, n), h) =
    let (lines, nuls) = Visible-Lacks s h in ((λ e. absurd (ground arith), lines), (n, nuls))

-- The request line without its newline.
abbrev request_line : String → String
request_line name = codes "GET " ++ (name ++ codes " HTTP/1.1")

scan_words_line :
    (old : Words) (c : ℕ) (s : String)
    → IsName (c ∷ s)
    → scan_words old (request_line (c ∷ s) ++ (newline ∷ []))
      ≡ record { method = codes "GET"; uri = c ∷ s; version = codes "HTTP/1.1" }
unfolding scan_words word after_word skip_spaces
scan_words_line old c s ((v, _), h) =
    let version = codes "HTTP/1.1" ++ (newline ∷ []) in
    rw
      (
        append_assoc s (codes " HTTP/1.1") (newline ∷ []),
        v,
        v,
        word_space s version h,
        after_word_space s version h,
      )
      refl

abbrev host_line : String → String
host_line hostname = codes "host: " ++ hostname

client_send_lines :
    (hostname name : String)
    → client_send hostname name
      ≡ request_line name ++ (newline ∷ lines_before (host_line hostname ∷ []) (crlf ++ []))
unfolding client_send
client_send_lines hostname name =
    rw
      (append_assoc name (codes " HTTP/1.1")
        (newline ∷ lines_before (host_line hostname ∷ []) (crlf ++ [])))
      refl

host_line-IsHeader :
    (hostname : String)
    → Lacks newline hostname
    → length hostname + 8 ≤ maxline
    → IsHeader (host_line hostname)
unfolding is_without
host_line-IsHeader hostname h short = record {
  one_line =
      Lacks-append newline (codes "host: ") hostname
        (is_without-Lacks newline (codes "host: ") refl) h;
  fits = omega arith;
  not_blank = λ e. absurd (cc);
}

request_line-Lacks :
    (d : ℕ) (name : String)
    → Lacks d name
    → is_without d (codes "GET ") ≡ true
    → is_without d (codes " HTTP/1.1") ≡ true
    → Lacks d (request_line name)
request_line-Lacks d name h before behind =
    Lacks-append d (codes "GET ") (name ++ codes " HTTP/1.1")
      (is_without-Lacks d (codes "GET ") before)
      (Lacks-append d name (codes " HTTP/1.1") h (is_without-Lacks d (codes " HTTP/1.1") behind))

abbrev pub file_name : String → String
file_name name = (request_parse_uri name).filename

-- The request that clientSend sends for a name is read as a GET for this name, its headers are read to
-- their end, and the answer is the one for the file that the name parses to.
pub handle-client_send :
    (files : Files) (old : Stack) (fuel : ℕ) (hostname name : String)
    → IsName name
    → length name + 15 ≤ maxline
    → Lacks newline hostname
    → length hostname + 8 ≤ maxline
    → 1 < fuel
    → handle files old fuel (client_send hostname name)
      ≡ some (
          deliver files.mmap files.run
            (serve (request_parse_uri name) (files.stat (file_name name))))
unfolding handle is_get same_string request_handle is_without
handle-client_send files old fuel hostname [] h short hh hshort enough = elim h [ ]
handle-client_send files old fuel hostname (c ∷ s) h short hh hshort enough =
    let (lines, nuls) = Visible-Lacks (c ∷ s) h in
    let line = request_line (c ∷ s) in
    let fits : length line + 1 < maxline = omega (arith, length-append s (codes " HTTP/1.1")) in
    let visible : c_string (line ++ (newline ∷ [])) ≡ line ++ (newline ∷ []) =
      c_string_self (line ++ (newline ∷ [])) (
        Lacks-append 0 line (newline ∷ []) (request_line-Lacks 0 (c ∷ s) nuls refl refl)
          ((λ e. absurd (omega arith)), tt)) in
    rw
      (
        client_send_lines hostname (c ∷ s),
        rio_readlineb_line old.buf maxline line
            (lines_before (host_line hostname ∷ []) (crlf ++ []))
            (request_line-Lacks newline (c ∷ s) lines refl refl) fits,
        visible,
        scan_words_line old.words c s h,
        request_readhdrs_ends fuel old.headers (host_line hostname ∷ []) []
            (host_line-IsHeader hostname hh hshort, tt) (omega arith),
      )
      refl
