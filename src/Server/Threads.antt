-- ===== src/Server/Threads.antt =====
-- The critical sections of projects/p4/p4a/server.c, from Pthread_mutex_lock or the return of
-- Pthread_cond_wait to the next wait or Pthread_mutex_unlock, and their interleavings.
use cs537_fall.Prelude.{
  ℕ, ◌+◌, ◌-◌, ◌%◌, ◌<◌, ◌≡◌, ◌⊎◌, ◌==◌, if◌then◌else◌, Bool, true, false, ◌&&◌, List, [], ◌++◌,
  ◌∷◌,
}
use cs537_fall.Prelude.Arrays.{update}
use cs537_fall.Server.State.{
  Worker, idle, blocked, woken, serving, Master, accepting, holding, stalled, roused, Server,
  set_worker,
}

abbrev pub is_blocked : Worker → Bool
is_blocked blocked = true
is_blocked w = false

abbrev pub is_stalled : Master → Bool
is_stalled (stalled c) = true
is_stalled w = false

-- `Pthread_cond_signal(&empty)`: only the master waits for it.
abbrev pub rouse : Master → Master
rouse (stalled c) = roused c
rouse w = w

-- `Pthread_cond_signal(&fill)` unblocks those of the waiting workers that `wakes` chooses.
abbrev pub wake : (ℕ → Bool) → (ℕ → Worker) → ℕ → Worker
wake wakes ws i = if wakes i && is_blocked (ws i) then woken else ws i

-- What POSIX says of the choice: at least one thread, if any is blocked.
abbrev pub IsSignal : (ℕ → Bool) → Server → Type 0
IsSignal wakes s =
    (i : ℕ)
    → i < s.numthread
    → is_blocked (s.workers i) ≡ true
    → (j : ℕ) × (j < s.numthread) × (is_blocked (s.workers j) ≡ true) × (wakes j ≡ true)

-- The worker `i` with the lock: `while (count == 0)` it waits, and otherwise it takes a request.
unfoldable pub worker_turn : ℕ → Server → Server
worker_turn i s = if s.count == 0 then set_worker i blocked s else record s {
  workers = update s.workers i (serving (s.buff s.read_buffer_no));
  read_buffer_no = (s.read_buffer_no + 1) % s.numbuff;
  master = rouse s.master;
  count = s.count - 1;
}

-- The master with the lock and connection `c`.
unfoldable pub master_turn : (ℕ → Bool) → ℕ → Server → Server
master_turn wakes c s = if s.count == s.numbuff then record s { master = stalled c } else record s {
  buff = update s.buff s.write_buffer_no c;
  write_buffer_no = (s.write_buffer_no + 1) % s.numbuff;
  count = s.count + 1;
  workers = wake wakes s.workers;
  master = accepting;
}

-- A thread that is about to get the lock.
abbrev pub wants_work : Worker → Bool
wants_work idle = true
wants_work woken = true
wants_work w = false

abbrev pub HasRequest : ℕ → Master → Type 0
HasRequest c m = (m ≡ holding c) ⊎ (m ≡ roused c)

-- The queue as the requests that went in and came out show it.
pub data Event : Type 0 where
  nothing : Event
  puts : ℕ → Event
  takes : ℕ → Event

abbrev pub put_event : ℕ → Server → Event
put_event c s = if s.count == s.numbuff then nothing else puts c

abbrev pub take_event : Server → Event
take_event s = if s.count == 0 then nothing else takes (s.buff s.read_buffer_no)

-- One step of one thread. A wait may return without a signal.
pub data Step : Server → Event → Server → Type 0 where
  accepts :
      {s : Server} (c : ℕ) → s.master ≡ accepting → Step s nothing (record s { master = holding c })
  produces :
      {s : Server} (wakes : ℕ → Bool) (c : ℕ)
      → HasRequest c s.master
      → IsSignal wakes s
      → Step s (put_event c s) (master_turn wakes c s)
  consumes :
      {s : Server} (i : ℕ)
      → i < s.numthread
      → wants_work (s.workers i) ≡ true
      → Step s (take_event s) (worker_turn i s)
  closes : {s : Server} (i c : ℕ) → s.workers i ≡ serving c → Step s nothing (set_worker i idle s)
  wakes_worker :
      {s : Server} (i : ℕ) → is_blocked (s.workers i) ≡ true → Step s nothing (set_worker i woken s)
  wakes_master : {s : Server} → Step s nothing (record s { master = rouse s.master })

abbrev pub put_in : Event → List ℕ → List ℕ
put_in (puts c) cs = cs ++ (c ∷ [])
put_in e cs = cs

abbrev pub taken_out : Event → List ℕ → List ℕ
taken_out (takes c) cs = cs ++ (c ∷ [])
taken_out e cs = cs

-- A run of the server, with the requests that it put into the buffer and took out of it, in order.
pub data Run (s₀ : Server) : Server → List ℕ → List ℕ → Type 0 where
  starts : Run s₀ s₀ [] []
  next :
      {s s' : Server} {ins outs : List ℕ} {e : Event}
      → Run s₀ s ins outs
      → Step s e s'
      → Run s₀ s' (put_in e ins) (taken_out e outs)
