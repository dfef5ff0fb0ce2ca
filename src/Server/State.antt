-- ===== src/Server/State.antt =====
-- The globals of projects/p4/p4a/server.c, the phases of its threads, and the command line.
use cs537_fall.Prelude.{ℕ, ◌^◌, ◌==◌, leb, if◌then◌else◌, Bool, ◌&&◌, ◌||◌, not, Option, none, some}
use cs537_fall.Prelude.Arrays.{update}

-- A worker: outside the lock, in Pthread_cond_wait, woken and waiting for the lock, or handling the
-- connection that it took.
pub data Worker : Type 0 where
  idle : Worker
  blocked : Worker
  woken : Worker
  serving : ℕ → Worker

-- The master: in Accept, or with an accepted connection outside the lock, in Pthread_cond_wait, or
-- woken.
pub data Master : Type 0 where
  accepting : Master
  holding : ℕ → Master
  stalled : ℕ → Master
  roused : ℕ → Master

-- `count`, `buff` with its two positions, and the threads. The `int`s are below `numbuff`, an `int`.
pub record Server : Type 0 where
  pub numthread : ℕ
  pub numbuff : ℕ
  pub buff : ℕ → ℕ
  pub count : ℕ
  pub write_buffer_no : ℕ
  pub read_buffer_no : ℕ
  pub workers : ℕ → Worker
  pub master : Master

-- What `sscanf(arg, "%d%c", …)` gives: how many fields it filled, and the `int` as a bit pattern.
pub record Scanned : Type 0 where
  pub fields : ℕ
  pub value : ℕ

pub record Args : Type 0 where
  pub port : ℕ
  pub numthread : ℕ
  pub numbuff : ℕ

-- `value < 1` for an `int`
abbrev pub below_one : ℕ → Bool
below_one x = x == 0 || leb (2 ^ 31) x

abbrev pub accepts_arg : Scanned → Bool
accepts_arg a = a.fields == 1 && not (below_one a.value)

-- `none` is a call of exit, by `usage` or `parseerror`.
unfoldable pub getargs : ℕ → Scanned → Scanned → Scanned → Option Args
getargs argc port threads buffers =
    if argc == 4 && accepts_arg port && accepts_arg threads && accepts_arg buffers
    then some (record { port = port.value; numthread = threads.value; numbuff = buffers.value })
    else none

-- `main` up to its loop. The bytes that malloc returns are an argument.
unfoldable pub start : (ℕ → ℕ) → Args → Server
start garbage a = record {
  numthread = a.numthread;
  numbuff = a.numbuff;
  buff = garbage;
  count = 0;
  write_buffer_no = 0;
  read_buffer_no = 0;
  workers = λ _. idle;
  master = accepting;
}

abbrev pub set_worker : ℕ → Worker → Server → Server
set_worker i w s = record s { workers = update s.workers i w }
