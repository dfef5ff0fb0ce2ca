-- ===== src/Server/Progress.antt =====
-- The waits of projects/p4/p4a/server.c lose no signal: master and workers never all wait at once.
use cs537_fall.Prelude.{
  ℕ, ◌<◌, ◌≡◌, refl, ◌==◌, Bool, true, false, Bool-cases, inl, inr, ◌⊎◌, List, arith,
}
use cs537_fall.Prelude.Arrays.{update}
use cs537_fall.Server.State.{
  Worker, idle, woken, Master, accepting, holding, stalled, roused, Server, Scanned, Args, start,
  set_worker,
}
use cs537_fall.Server.Threads.{
  is_blocked, is_stalled, rouse, wake, IsSignal, worker_turn, master_turn, Event, Step, accepts,
  produces, consumes, closes, wakes_worker, wakes_master, Run, starts, next,
}
use cs537_fall.Server.Ring.{IsAccepted, getargs-positive}

-- Some worker does not wait for a request.
abbrev pub SomeAwake : Server → Type 0
SomeAwake s = (j : ℕ) × (j < s.numthread) × (is_blocked (s.workers j) ≡ false)

-- The master waits only while the buffer is full, and all workers wait only while it is empty.
pub record IsAlert (s : Server) : Type 0 where
  pub has_workers : 0 < s.numthread
  pub has_slots : 0 < s.numbuff
  pub full : is_stalled s.master ≡ true → s.count ≡ s.numbuff
  pub empty : (s.count ≡ 0) ⊎ SomeAwake s

-- Whether some worker is awake can be decided.
any_blocked : (s : Server) → 0 < s.numthread → SomeAwake s ⊎ (is_blocked (s.workers 0) ≡ true)
any_blocked s h = elim (Bool-cases (is_blocked (s.workers 0))) [
  | inl waits ↦ inr waits
  | inr awake ↦ inl (0, h, awake)
]

-- Waking workers, or changing the phase of one to a phase that does not wait, keeps one awake.
set_awake :
    (s : Server) (i : ℕ) (w : Worker)
    → is_blocked w ≡ false
    → SomeAwake s
    → (j : ℕ) × (j < s.numthread) × (is_blocked (update s.workers i w j) ≡ false)
set_awake s i w e (j, h, awake) = (j, h, ground (arith, e, awake))

wake_awake :
    (wakes : ℕ → Bool) (s : Server)
    → IsSignal wakes s
    → 0 < s.numthread
    → (j : ℕ) × (j < s.numthread) × (is_blocked (wake wakes s.workers j) ≡ false)
wake_awake wakes s sig h = elim (any_blocked s h) [
  | inl (j, hj, awake) ↦ (j, hj, ground (arith, awake))
  | inr waits ↦ let (j, hj, was, chosen) = sig 0 h waits in (j, hj, ground (arith, was, chosen))
]

rouse-moves : (m : Master) → is_stalled (rouse m) ≡ false
rouse-moves accepting = refl
rouse-moves (holding c) = refl
rouse-moves (stalled c) = refl
rouse-moves (roused c) = refl

put-IsAlert :
    (wakes : ℕ → Bool) (c : ℕ) (s : Server)
    → IsSignal wakes s
    → IsAlert s
    → IsAlert (master_turn wakes c s)
unfolding master_turn
put-IsAlert wakes c s sig a = elim (Bool-cases (s.count == s.numbuff)) [
  | inl full ↦ rw full (record {
    has_workers = a.has_workers;
    has_slots = a.has_slots;
    full = λ e. ground arith;
    empty = a.empty;
  })
  | inr room ↦ rw room (record {
    has_workers = a.has_workers;
    has_slots = a.has_slots;
    full = λ e. absurd (cc);
    empty = inr (wake_awake wakes s sig a.has_workers);
  })
]

take-IsAlert : (i : ℕ) (s : Server) → i < s.numthread → IsAlert s → IsAlert (worker_turn i s)
unfolding worker_turn
take-IsAlert i s h a = elim (Bool-cases (s.count == 0)) [
  | inl empty ↦ rw empty (record {
    has_workers = a.has_workers;
    has_slots = a.has_slots;
    full = a.full;
    empty = inl (ground arith);
  })
  | inr queued ↦ rw queued (record {
    has_workers = a.has_workers;
    has_slots = a.has_slots;
    full = λ e. absurd (ground (arith, e, rouse-moves s.master));
    empty = inr (i, h, ground arith);
  })
]

-- A worker that closes its connection, or that wakes, is awake.
worker-IsAlert :
    (s : Server) (i : ℕ) (w : Worker)
    → is_blocked w ≡ false
    → IsAlert s
    → IsAlert (set_worker i w s)
worker-IsAlert s i w e a = record {
  has_workers = a.has_workers;
  has_slots = a.has_slots;
  full = a.full;
  empty = elim a.empty [
    | inl none_queued ↦ inl none_queued
    | inr awake ↦ inr (set_awake s i w e awake)
  ];
}

master-IsAlert :
    (s : Server) (m : Master) → is_stalled m ≡ false → IsAlert s → IsAlert (record s { master = m })
master-IsAlert s m e a = record {
  has_workers = a.has_workers;
  has_slots = a.has_slots;
  full = λ waits. absurd (cc (waits, e));
  empty = a.empty;
}

Step-IsAlert : {s s' : Server} {e : Event} → Step s e s' → IsAlert s → IsAlert s'
Step-IsAlert (accepts {s = s} c h) a = master-IsAlert s (holding c) refl a
Step-IsAlert (produces {s = s} wakes c h sig) a = put-IsAlert wakes c s sig a
Step-IsAlert (consumes {s = s} i h w) a = take-IsAlert i s h a
Step-IsAlert (closes {s = s} i c h) a = worker-IsAlert s i idle refl a
Step-IsAlert (wakes_worker {s = s} i h) a = worker-IsAlert s i woken refl a
Step-IsAlert (wakes_master {s = s}) a = master-IsAlert s (rouse s.master) (rouse-moves s.master) a

start-IsAlert :
    (garbage : ℕ → ℕ) (a : Args) → 0 < a.numthread → 0 < a.numbuff → IsAlert (start garbage a)
unfolding start
start-IsAlert garbage a threads slots = record {
  has_workers = threads;
  has_slots = slots;
  full = λ e. absurd (cc);
  empty = inl refl;
}

Run-IsAlert :
    (garbage : ℕ → ℕ) (a : Args) {s : Server} {ins outs : List ℕ}
    → 0 < a.numthread
    → 0 < a.numbuff
    → Run (start garbage a) s ins outs
    → IsAlert s
Run-IsAlert garbage a threads slots starts = start-IsAlert garbage a threads slots
Run-IsAlert garbage a threads slots (next r st) =
    Step-IsAlert st (Run-IsAlert garbage a threads slots r)

-- Some thread does not wait for a signal.
abbrev pub IsMoving : Server → Type 0
IsMoving s = (is_stalled s.master ≡ false) ⊎ SomeAwake s

-- Once the command line is accepted, no run of the threads comes to a state in which the master and
-- all workers wait for a signal, where Pthread_cond_signal wakes at least one thread that waits.
pub Run-IsMoving :
    (argc : ℕ) (port threads buffers : Scanned) (a : Args) (garbage : ℕ → ℕ) {s : Server}
    {ins outs : List ℕ}
    → IsAccepted argc port threads buffers a
    → Run (start garbage a) s ins outs
    → IsMoving s
Run-IsMoving argc port threads buffers a garbage {s} acc r =
    let (p, t, b) = getargs-positive argc port threads buffers acc in
    let alert = Run-IsAlert garbage a t b r in
    elim (Bool-cases (is_stalled s.master)) [
      | inr moves ↦ inl moves
      | inl waits ↦ elim alert.empty [
        | inr awake ↦ inr awake
        | inl none_queued ↦ absurd (omega (arith, alert.full waits, alert.has_slots))
      ]
    ]
