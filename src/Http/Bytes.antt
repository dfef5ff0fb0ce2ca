-- ===== src/Http/Bytes.antt =====
-- Texts as bytes, and rio_readlineb of projects/p4/p4a/cs537.c.
use Prim.Native.Char.{code}
use Prim.Native.String
use cs537_fall.Prelude.{
  ℕ, zero, suc, ◌+◌, ◌-◌, ◌==◌, leb, if◌then◌else◌, Bool, true, false, ◌&&◌, List, [], ◌∷◌, ◌++◌,
}
use cs537_fall.Server.Uri.{String}

-- The bytes of an ASCII literal.
abbrev pub codes : String.String → String
codes String.[] = []
codes (String.◌∷◌ c s) = code c ∷ codes s

abbrev pub newline : ℕ
newline = 10

abbrev pub crlf : String
crlf = 13 ∷ 10 ∷ []

-- MAXLINE and MAXBUF of cs537.h
abbrev pub maxline : ℕ
maxline = 8192

abbrev pub maxbuf : ℕ
maxbuf = 8192

-- The texts one after another.
abbrev pub joined : List String → String
joined [] = []
joined (s ∷ []) = s
joined (s ∷ t ∷ ts) = s ++ joined (t ∷ ts)

-- The C string in a buffer: the bytes before the first NUL.
unfoldable pub c_string : List ℕ → String
c_string [] = []
c_string (c ∷ s) = let rest = c_string s in if c == 0 then [] else c ∷ rest

-- `!strcmp(s, t)`
unfoldable pub same_string : String → String → Bool
same_string [] [] = true
same_string [] (d ∷ t) = false
same_string (c ∷ s) [] = false
same_string (c ∷ s) (d ∷ t) = (c == d) && same_string s t

-- What a call returns, what the buffer then holds before its NUL, and the bytes that are still to come.
pub record Line : Type 0 where
  pub n : ℕ
  pub buf : List ℕ
  pub rest : List ℕ

abbrev pub take_byte : ℕ → Line → Line
take_byte c l = record l { buf = c ∷ l.buf }

-- The loop of `rio_readlineb`, for `rounds` further values of `n`; no byte is left at the end of the input.
unfoldable pub read_bytes : ℕ → ℕ → List ℕ → Line
read_bytes zero n s = record { n = n; buf = []; rest = s }
read_bytes (suc rounds) n [] = record { n = n; buf = []; rest = [] }
read_bytes (suc rounds) n (c ∷ s) =
    let more = read_bytes rounds (n + 1) s in
    if c == newline then record { n = n; buf = c ∷ []; rest = s } else take_byte c more

-- At the end of the input the buffer is left as it is.
unfoldable pub rio_readlineb : List ℕ → ℕ → List ℕ → Line
rio_readlineb buf maxlen [] =
    if leb maxlen 1
    then record { n = 1; buf = []; rest = [] }
    else record { n = 0; buf = buf; rest = [] }
rio_readlineb buf maxlen (c ∷ s) = read_bytes (maxlen - 1) 1 (c ∷ s)
