-- ===== src/Server/Tests.antt =====
-- Tests of the web server model, and the theorems at concrete inputs.
use cs537_fall.Prelude.{
  ℕ, ◌-◌, ◌^◌, ◌≡◌, refl, true, false, inl, Option, some, none, [], ◌∷◌, arith,
}
use cs537_fall.Prelude.Arrays.{update}
use cs537_fall.Server.State.{
  idle, blocked, serving, accepting, Server, Scanned, Args, getargs, start,
}
use cs537_fall.Server.Threads.{
  worker_turn, master_turn, accepts, produces, consumes, wake, Run, starts, next,
}
use cs537_fall.Server.Ring.{IsAccepted, IsQueue, Run-IsQueue}
use cs537_fall.Server.Progress.{IsMoving, Run-IsMoving}
use cs537_fall.Server.Uri.{
  String, dot, home_page, contains, ends_in, request_parse_uri, request_get_filetype, text_html,
  request_parse_uri-dynamic, request_get_filetype-home,
}
use cs537_fall.Server.Request.{Stat}

abbrev scanned : ℕ → Scanned
scanned n = record { fields = 1; value = n }

-- Two threads and one buffer.
abbrev small : Args
small = record { port = 8080; numthread = 2; numbuff = 1 }

small-IsAccepted : IsAccepted 4 (scanned 8080) (scanned 2) (scanned 1) small
unfolding getargs
small-IsAccepted = refl

negative_threads : getargs 4 (scanned 8080) (scanned (2 ^ 32 - 1)) (scanned 1) ≡ none
unfolding getargs
negative_threads = refl

abbrev served : Server
served = record {
  numthread = 2;
  numbuff = 1;
  buff = update (λ _. 0) 0 7;
  count = 0;
  write_buffer_no = 0;
  read_buffer_no = 0;
  workers = update (wake (λ _. true) (update (λ _. idle) 0 blocked)) 1 (serving 7);
  master = accepting;
}

-- Worker 0 waits, connection 7 goes into the buffer, and worker 1 takes it.
run : Run (start (λ _. 0) small) served (7 ∷ []) (7 ∷ [])
unfolding start worker_turn master_turn
run =
    next
      (next (next (next starts (consumes 0 (omega arith) refl)) (accepts 7 refl))
        (produces (λ _. true) 7 (inl refl) (λ i h b. (i, h, b, refl))))
      (consumes 1 (omega arith) refl)

Run-IsQueue_example : IsQueue served (7 ∷ []) (7 ∷ [])
Run-IsQueue_example =
    Run-IsQueue 4 (scanned 8080) (scanned 2) (scanned 1) small (λ _. 0) small-IsAccepted run

Run-IsMoving_example : IsMoving served
Run-IsMoving_example =
    Run-IsMoving 4 (scanned 8080) (scanned 2) (scanned 1) small (λ _. 0) small-IsAccepted run

-- "/a.cgi?x" asks for the program "./a.cgi" with the argument "x".
program_uri : request_parse_uri (47 ∷ 97 ∷ 46 ∷ 99 ∷ 103 ∷ 105 ∷ 63 ∷ 120 ∷ []) ≡ record {
  is_static = false;
  filename = 46 ∷ 47 ∷ 97 ∷ 46 ∷ 99 ∷ 103 ∷ 105 ∷ [];
  cgiargs = 120 ∷ [];
}
unfolding contains
program_uri =
    request_parse_uri-dynamic (47 ∷ 97 ∷ 46 ∷ 99 ∷ 103 ∷ 105 ∷ []) (120 ∷ [])
      (
        ground arith,
        (ground arith, (ground arith, (ground arith, (ground arith, (ground arith, tt))))),
      )
      refl

-- "/d/" is answered with "./d/home.html".
directory_uri :
    ((request_parse_uri (47 ∷ 100 ∷ 47 ∷ [])).filename ≡ dot ∷ 47 ∷ 100 ∷ 47 ∷ home_page)
    × (request_get_filetype (request_parse_uri (47 ∷ 100 ∷ 47 ∷ [])).filename ≡ text_html)
unfolding contains ends_in
directory_uri = request_get_filetype-home (47 ∷ 100 ∷ 47 ∷ []) refl refl

abbrev one_page : String → Option Stat
one_page f =
    some (record { is_regular = true; is_readable = true; is_executable = false; size = 12 })
