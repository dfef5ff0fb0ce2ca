-- ===== src/Mysh/Tests.antt =====
-- Tests of the shell model, and the theorems at concrete inputs.
use cs537_fall.Prelude.{
  ℕ, ◌≤◌, ◌≡◌, refl, true, false, Bool, some, none, [], ◌∷◌, ◌++◌, length, arith,
}
use cs537_fall.Mysh.Words.{String, tokens, mark, ends_in_ampersand, drop_last, parse}
use cs537_fall.Mysh.Roundtrip.{length-tokens}
use cs537_fall.Mysh.Commands.{
  Shell, first_shell, run_line, run_words, execute, push, remove_stopped_jobs, jid2pid, lists,
}
use cs537_fall.Mysh.Jobs.{
  IsNumbered, Session, opens, reads, Session-IsNumbered, Looked, jid2pid-Looked,
}

-- "ls" and "-l"
abbrev ls : String
ls = 108 ∷ 115 ∷ []

abbrev flag : String
flag = 45 ∷ 108 ∷ []

-- "ls -l&": the mark is stripped from the last word.
strips_mark : parse (108 ∷ 115 ∷ 32 ∷ 45 ∷ 108 ∷ 38 ∷ 10 ∷ []) ≡ some (ls ∷ flag ∷ [], true)
unfolding parse tokens mark ends_in_ampersand drop_last
strips_mark = refl

-- Blanks only.
no_words : parse (32 ∷ 9 ∷ 10 ∷ []) ≡ none
unfolding parse tokens
no_words = refl

length-tokens_example : length (tokens ((ls ++ (32 ∷ flag)) ++ (10 ∷ []))) ≤ 256
length-tokens_example = length-tokens (ls ++ (32 ∷ flag)) (omega arith)

abbrev all_run : ℕ → Bool
all_run pid = true

abbrev no_number : String → ℕ × Bool
no_number s = (0, false)

abbrev after_ls : Shell
after_ls = (run_line no_number all_run (some 77) ls first_shell).1

one_line : Session 1 after_ls
one_line = reads no_number all_run (some 77) ls opens

lists_job :
    (run_line no_number all_run none (106 ∷ []) after_ls).0
    ≡ lists (record { jid = 1; pid = 77; argv = ls ∷ [] } ∷ [])
unfolding run_line parse tokens mark ends_in_ampersand run_words execute push remove_stopped_jobs
lists_job = refl

Session-IsNumbered_example : IsNumbered 1 after_ls
Session-IsNumbered_example = Session-IsNumbered (omega arith) one_line

jid2pid-Looked_example : Looked all_run 1 after_ls (jid2pid all_run 1 after_ls).0
jid2pid-Looked_example = jid2pid-Looked all_run 1 (omega arith) one_line
