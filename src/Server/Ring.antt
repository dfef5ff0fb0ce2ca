-- ===== src/Server/Ring.antt =====
-- The circular buffer of projects/p4/p4a/server.c is a first-in first-out queue.
use cs537_fall.Prelude.{
  ℕ, zero, suc, ◌+◌, ◌-◌, ◌%◌, ◌≤◌, ◌<◌, ◌≡◌, ◌≢◌, refl, sym, ap, ◌∙◌, subst, ◌==◌, Bool,
  Bool-cases, inl, inr, some, List, [], ◌++◌, ◌∷◌, arith,
}
use mathlib.Core.List.{append_assoc}
use native.Mathlib.Nat.{mod-add-mod, mod-eq_of_lt, mod-eq-sub-mod, mod-lt, add-zero}
use native.Mathlib.Decide.{dec_lt}
use cs537_fall.Prelude.Arrays.{update, update_self, update_ne}
use cs537_fall.Server.State.{
  Server, Worker, Master, blocked, stalled, Scanned, Args, getargs, start,
}
use cs537_fall.Server.Threads.{
  master_turn, worker_turn, Event, put_event, take_event, Step, accepts, produces, consumes, closes,
  wakes_worker, wakes_master, put_in, taken_out, Run, starts, next,
}

-- The `n` slots from position `r` on, round the end of the array.
abbrev pub slots : (ℕ → ℕ) → ℕ → ℕ → ℕ → List ℕ
slots buff nb r zero = []
slots buff nb r (suc n) = slots buff nb r n ++ (buff ((r + n) % nb) ∷ [])

abbrev pub queued : Server → List ℕ
queued s = slots s.buff s.numbuff s.read_buffer_no s.count

-- Two positions less than one round apart differ.
add-mod-ne : {nb r i j : ℕ} → r < nb → i < j → j < nb → (r + i) % nb ≢ (r + j) % nb
add-mod-ne {nb} {r} {i} {j} hr hij hj = elim (dec_lt (r + j) nb) [
  | yes inside ↦ omega (
    arith,
    mod-eq_of_lt {n = r + j} {m = nb} inside,
    mod-eq_of_lt {n = r + i} {m = nb} (omega arith),
  )
  | no round ↦ elim (dec_lt (r + i) nb) [
    | yes before ↦ omega (
      arith,
      mod-eq_of_lt {n = r + i} {m = nb} before,
      mod-eq-sub-mod {n = r + j} {m = nb} (omega arith),
      mod-eq_of_lt {n = r + j - nb} {m = nb} (omega arith),
    )
    | no after ↦ omega (
      arith,
      mod-eq-sub-mod {n = r + i} {m = nb} (omega arith),
      mod-eq_of_lt {n = r + i - nb} {m = nb} (omega arith),
      mod-eq-sub-mod {n = r + j} {m = nb} (omega arith),
      mod-eq_of_lt {n = r + j - nb} {m = nb} (omega arith),
    )
  ]
]

-- A write behind the last slot in use leaves those before it alone.
slots-update :
    (buff : ℕ → ℕ) (nb r n m c : ℕ)
    → r < nb
    → n ≤ m
    → m < nb
    → slots (update buff ((r + m) % nb) c) nb r n ≡ slots buff nb r n
slots-update buff nb r zero m c hr hn hm = refl
slots-update buff nb r (suc n) m c hr hn hm =
    rw (slots-update buff nb r n m c hr (omega arith) hm) (
      ap (λ (v : ℕ). slots buff nb r n ++ (v ∷ []))
        (update_ne buff c (λ e. add-mod-ne hr hn hm (sym e))))

-- The first slot comes off at the front.
slots-suc :
    (buff : ℕ → ℕ) (nb r n : ℕ)
    → r < nb
    → slots buff nb r (suc n) ≡ buff r ∷ slots buff nb ((r + 1) % nb) n
slots-suc buff nb r zero h = rw (mod-eq_of_lt {n = r + 0} {m = nb} (omega arith), add-zero) refl
slots-suc buff nb r (suc n) h =
    let same : (r + suc n) % nb ≡ ((r + 1) % nb + n) % nb =
      rw (mod-add-mod (r + 1) nb n) (ap (λ (v : ℕ). v % nb) (omega arith)) in
    ap (λ (v : List ℕ). v ++ (buff ((r + suc n) % nb) ∷ [])) (slots-suc buff nb r n h)
    ∙ ap (λ (v : ℕ). buff r ∷ (slots buff nb ((r + 1) % nb) n ++ (buff v ∷ []))) same

-- The position that is written next is the one behind the queue.
pub record IsRing (s : Server) : Type 0 where
  pub capacity : 0 < s.numbuff
  pub fits : s.count ≤ s.numbuff
  pub read_in : s.read_buffer_no < s.numbuff
  pub written : s.write_buffer_no ≡ (s.read_buffer_no + s.count) % s.numbuff

-- What has come out, and then what is queued, is what has gone in.
pub record IsQueue (s : Server) (ins outs : List ℕ) : Type 0 where
  pub ring : IsRing s
  pub order : ins ≡ outs ++ queued s

other_threads :
    (s : Server) (ws : ℕ → Worker) (m : Master) {ins outs : List ℕ}
    → IsQueue s ins outs
    → IsQueue (record s { workers = ws; master = m }) ins outs
other_threads s ws m q = record {
  ring = record {
    capacity = q.ring.capacity;
    fits = q.ring.fits;
    read_in = q.ring.read_in;
    written = q.ring.written;
  };
  order = q.order;
}

-- A write at the position behind the queue, and the count one up, queue the value.
put-slots :
    (buff : ℕ → ℕ) (nb r n c : ℕ) {w : ℕ}
    → r < nb
    → n < nb
    → w ≡ (r + n) % nb
    → slots (update buff w c) nb r (n + 1) ≡ slots buff nb r n ++ (c ∷ [])
put-slots buff nb r n c {w} hr hn e =
    ap (slots (update buff w c) nb r) {x = n + 1} {y = suc n} (omega arith)
    ∙ subst (λ (v : ℕ). slots (update buff v c) nb r (suc n) ≡ slots buff nb r n ++ (c ∷ []))
        (sym e)
        (ap (λ (v : ℕ). slots (update buff ((r + n) % nb) c) nb r n ++ (v ∷ []))
            (update_self buff ((r + n) % nb) c)
          ∙ ap (λ (xs : List ℕ). xs ++ (c ∷ [])) (slots-update buff nb r n n c hr (omega arith) hn))

next_pos : (r n nb : ℕ) {w : ℕ} → w ≡ (r + n) % nb → (w + 1) % nb ≡ (r + (n + 1)) % nb
next_pos r n nb e = rw (e, mod-add-mod (r + n) nb 1) (ap (λ (v : ℕ). v % nb) (omega arith))

put-IsQueue :
    (wakes : ℕ → Bool) (c : ℕ) (s : Server) (ins outs : List ℕ)
    → IsQueue s ins outs
    → IsQueue (master_turn wakes c s) (put_in (put_event c s) ins) (taken_out (put_event c s) outs)
unfolding master_turn
put-IsQueue wakes c s ins outs q = elim (Bool-cases (s.count == s.numbuff)) [
  | inl full ↦ rw full (other_threads s s.workers (stalled c) q)
  | inr room ↦ rw room (record {
    ring = record {
      capacity = q.ring.capacity;
      fits = ground (arith, q.ring.fits);
      read_in = q.ring.read_in;
      written = next_pos s.read_buffer_no s.count s.numbuff q.ring.written;
    };
    order = appended (ground (arith, q.ring.fits));
  })
]
  where
    appended :
        s.count < s.numbuff
        → ins ++ (c ∷ [])
          ≡ outs
            ++ slots (update s.buff s.write_buffer_no c) s.numbuff s.read_buffer_no (s.count + 1)
    appended below =
        ap (λ (xs : List ℕ). xs ++ (c ∷ [])) q.order
        ∙ append_assoc outs (queued s) (c ∷ [])
        ∙ ap (λ (xs : List ℕ). outs ++ xs)
            (sym (
              put-slots s.buff s.numbuff s.read_buffer_no s.count c q.ring.read_in below
                q.ring.written))

take-IsQueue :
    (i : ℕ) (s : Server) (ins outs : List ℕ)
    → IsQueue s ins outs
    → IsQueue (worker_turn i s) (put_in (take_event s) ins) (taken_out (take_event s) outs)
unfolding worker_turn
take-IsQueue i s ins outs q = elim (Bool-cases (s.count == 0)) [
  | inl empty ↦ rw empty (other_threads s (update s.workers i blocked) s.master q)
  | inr some_queued ↦ rw some_queued (record {
    ring = record {
      capacity = q.ring.capacity;
      fits = ground (arith, q.ring.fits);
      read_in = mod-lt (s.read_buffer_no + 1) q.ring.capacity;
      written =
          rw (mod-add-mod (s.read_buffer_no + 1) s.numbuff (s.count - 1))
            (q.ring.written ∙ ap (λ (v : ℕ). v % s.numbuff) (ground arith));
    };
    order = ap (λ (v : List ℕ). v) q.order ∙ front s.count (ground arith);
  })
]
  where
    front :
        (n : ℕ)
        → n ≢ 0
        → outs ++ slots s.buff s.numbuff s.read_buffer_no n
          ≡ (outs ++ (s.buff s.read_buffer_no ∷ []))
            ++ slots s.buff s.numbuff ((s.read_buffer_no + 1) % s.numbuff) (n - 1)
    front zero h = absurd (h refl)
    front (suc n) h =
        let before : suc n - 1 ≡ n = omega arith in
        rw (before, slots-suc s.buff s.numbuff s.read_buffer_no n q.ring.read_in)
          (sym (append_assoc outs (s.buff s.read_buffer_no ∷ []) _))

Step-IsQueue :
    {s s' : Server} {e : Event} {ins outs : List ℕ}
    → Step s e s'
    → IsQueue s ins outs
    → IsQueue s' (put_in e ins) (taken_out e outs)
Step-IsQueue (accepts {s = s} c h) q = other_threads s s.workers _ q
Step-IsQueue (produces {s = s} wakes c h sig) q = put-IsQueue wakes c s _ _ q
Step-IsQueue (consumes {s = s} i h w) q = take-IsQueue i s _ _ q
Step-IsQueue (closes {s = s} i c h) q = other_threads s _ s.master q
Step-IsQueue (wakes_worker {s = s} i h) q = other_threads s _ s.master q
Step-IsQueue (wakes_master {s = s}) q = other_threads s s.workers _ q

-- The command line is accepted.
abbrev pub IsAccepted : ℕ → Scanned → Scanned → Scanned → Args → Type 0
IsAccepted argc port threads buffers a = getargs argc port threads buffers ≡ some a

pub getargs-positive :
    (argc : ℕ) (port threads buffers : Scanned) {a : Args}
    → IsAccepted argc port threads buffers a
    → (0 < a.port) × (0 < a.numthread) × (0 < a.numbuff)
unfolding getargs
getargs-positive argc port threads buffers {a} e = ground (arith, e)

start-IsQueue : (garbage : ℕ → ℕ) (a : Args) → 0 < a.numbuff → IsQueue (start garbage a) [] []
unfolding start
start-IsQueue garbage a h = record {
  ring = record {
    capacity = h;
    fits = omega arith;
    read_in = h;
    written = sym (mod-eq_of_lt {n = 0} {m = a.numbuff} h);
  };
  order = refl;
}

-- Once the command line is accepted, in every run of the threads, however they interleave, the
-- requests that came out of the buffer, followed by those that are in it, are those that went in, in
-- the order in which they went in; the buffer holds at most `numbuff`, and both positions lie in it.
pub Run-IsQueue :
    (argc : ℕ) (port threads buffers : Scanned) (a : Args) (garbage : ℕ → ℕ) {s : Server}
    {ins outs : List ℕ}
    → IsAccepted argc port threads buffers a
    → Run (start garbage a) s ins outs
    → IsQueue s ins outs
Run-IsQueue argc port threads buffers a garbage acc starts =
    start-IsQueue garbage a (getargs-positive argc port threads buffers acc).2
Run-IsQueue argc port threads buffers a garbage acc (next r st) =
    Step-IsQueue st (Run-IsQueue argc port threads buffers a garbage acc r)
