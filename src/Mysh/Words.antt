-- ===== src/Mysh/Words.antt =====
-- parse of projects/p2/p2a/mysh.c: the words of a command line, and its background mark. A C string
-- is the list of its bytes before the NUL.
use cs537_fall.Prelude.{
  ℕ, ◌==◌, if◌then◌else◌, Bool, true, false, ◌||◌, not, Option, none, some, List, [], ◌∷◌,
}

abbrev pub String : Type 0
String = List ℕ

abbrev pub ampersand : ℕ
ampersand = 38

-- `delim`: blank, tab and newline
abbrev pub is_delim : ℕ → Bool
is_delim c = c == 32 || c == 9 || c == 10

-- A word starts here.
abbrev pub starts_word : String → Bool
starts_word [] = false
starts_word (c ∷ s) = not (is_delim c)

-- `c` begins a word before `s`, whose words are given.
abbrev pub begin_word : ℕ → String → List String → List String
begin_word c s [] = (c ∷ []) ∷ []
begin_word c s (w ∷ ws) = if starts_word s then (c ∷ w) ∷ ws else (c ∷ []) ∷ w ∷ ws

-- The words that the calls of `strtok` give.
unfoldable pub tokens : String → List String
tokens [] = []
tokens (c ∷ s) = let rest = tokens s in if is_delim c then rest else begin_word c s rest

abbrev pub is_ampersand : String → Bool
is_ampersand [] = false
is_ampersand (c ∷ []) = c == ampersand
is_ampersand (c ∷ d ∷ s) = false

-- `argv[i-1][strlen(argv[i-1])-1] == '&'`
unfoldable pub ends_in_ampersand : String → Bool
ends_in_ampersand [] = false
ends_in_ampersand (c ∷ []) = c == ampersand
ends_in_ampersand (c ∷ d ∷ s) = ends_in_ampersand (d ∷ s)

unfoldable pub drop_last : String → String
drop_last [] = []
drop_last (c ∷ []) = []
drop_last (c ∷ d ∷ s) = c ∷ drop_last (d ∷ s)

-- What becomes of the last word, and `*background`.
abbrev pub mark_last : String → List String × Bool
mark_last w =
    if is_ampersand w
    then ([], true)
    else if ends_in_ampersand w
    then (drop_last w ∷ [], true)
    else (w ∷ [], false)

unfoldable pub mark : List String → List String × Bool
mark [] = ([], false)
mark (w ∷ []) = mark_last w
mark (w ∷ v ∷ ws) = let rest = mark (v ∷ ws) in (w ∷ rest.0, rest.1)

abbrev pub parse_words : List String → Option (List String × Bool)
parse_words [] = none
parse_words (w ∷ ws) = some (mark (w ∷ ws))

-- `argv` up to its NULL, and `background`; `none` is the result -1.
unfoldable pub parse : String → Option (List String × Bool)
parse commands = parse_words (tokens commands)
