-- ===== src/Http/Requests.antt =====
-- requestReadhdrs and requestHandle of projects/p4/p4a/request.c on the bytes of a connection.
use cs537_fall.Prelude.{
  ℕ, zero, suc, ◌+◌, leb, if◌then◌else◌, Bool, ◌&&◌, not, Option, none, some, List, [], ◌∷◌, map,
}
use cs537_fall.Server.Uri.{String}
use cs537_fall.Server.Request.{Stat, request_handle}
use cs537_fall.Http.Bytes.{codes, crlf, maxline, c_string, same_string, rio_readlineb}
use cs537_fall.Http.Numbers.{is_space, skip_spaces}
use cs537_fall.Http.Replies.{Answer, deliver}

-- The bytes before the first white space.
unfoldable pub word : String → String
word [] = []
word (c ∷ s) = let rest = word s in if is_space c then [] else c ∷ rest

unfoldable pub after_word : String → String
after_word [] = []
after_word (c ∷ s) = let rest = after_word s in if is_space c then c ∷ s else rest

pub record Words : Type 0 where
  pub method : String
  pub uri : String
  pub version : String

-- "%s" into a buffer that holds `old`: it keeps this where no word is left.
abbrev pub scan_string : String → String → String
scan_string old [] = old
scan_string old (c ∷ s) = word (c ∷ s)

-- `sscanf(buf, "%s %s %s", method, uri, version)`
unfoldable pub scan_words : Words → String → Words
scan_words old s =
    let s0 = skip_spaces s in
    let s1 = skip_spaces (after_word s0) in
    let s2 = skip_spaces (after_word s1) in
    record {
      method = scan_string old.method s0;
      uri = scan_string old.uri s1;
      version = scan_string old.version s2;
    }

abbrev pub tolower : ℕ → ℕ
tolower c = if leb b'A' c && leb c b'Z' then c + 32 else c

-- `!strcasecmp(method, "GET")`
unfoldable pub is_get : String → Bool
is_get method = same_string (map tolower method) (codes "get")

-- The loop of `requestReadhdrs` with the line in `buf`; `none` is a loop that still runs after so many
-- tests.
unfoldable pub skip_headers : ℕ → List ℕ → List ℕ → Option (List ℕ)
skip_headers zero buf s = none
skip_headers (suc fuel) buf s =
    let l = rio_readlineb buf maxline s in
    let more = skip_headers fuel l.buf l.rest in
    if same_string (c_string buf) crlf then some s else more

-- The bytes behind the headers; `buf` is what the buffer holds before.
unfoldable pub request_readhdrs : ℕ → List ℕ → List ℕ → Option (List ℕ)
request_readhdrs fuel buf s = let l = rio_readlineb buf maxline s in skip_headers fuel l.buf l.rest

-- What the buffers on the stack hold before the request is read.
pub record Stack : Type 0 where
  pub buf : List ℕ
  pub words : Words
  pub headers : List ℕ

-- The files: `stat`, what opening and mapping a file gives, and what a program writes.
pub record Files : Type 0 where
  pub stat : String → Option Stat
  pub mmap : String → ℕ → Option (List ℕ)
  pub run : String → String → List ℕ

abbrev pub and_then : Answer → Option (List ℕ) → Option Answer
and_then a none = none
and_then a (some s) = some a

-- `requestHandle` on what the client sends; a request that is no GET is answered before its headers
-- are read.
unfoldable pub handle : Files → Stack → ℕ → List ℕ → Option Answer
handle files old fuel s =
    let l = rio_readlineb old.buf maxline s in
    let w = scan_words old.words (c_string l.buf) in
    let reply = request_handle files.stat (is_get w.method) w.method w.uri in
    let answer = deliver files.mmap files.run reply in
    if not (is_get w.method)
    then some answer
    else and_then answer (request_readhdrs fuel old.headers l.rest)
