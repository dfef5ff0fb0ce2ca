-- ===== src/Stats/Page.antt =====
-- The shared page of projects/p3/p3a/stats.c and stats_server.c. The semaphore makes each critical
-- section of a client one step. The server reads the page without the semaphore and writes nothing to it.
use cs537_fall.Prelude.{ℕ, ◌+◌, ◌≡◌, ◌==◌, if◌then◌else◌, Bool, true, false, List, []}
use cs537_fall.Prelude.Arrays.{update}

-- NUMBER_OF_BUFFERS
abbrev pub number_of_buffers : ℕ
number_of_buffers = 16

-- `stats_t`. The bytes of the name are a list, and `cpu_secs` its 64 bits.
pub record StatsT : Type 0 where
  pub pid : ℕ
  pub procname : List ℕ
  pub counter : ℕ
  pub priority : ℕ
  pub cpu_secs : ℕ

-- What memset leaves.
abbrev pub zero_stats : StatsT
zero_stats = record { pid = 0; procname = []; counter = 0; priority = 0; cpu_secs = 0 }

-- A client: in the loop of `stats_init` before buffer `b`, behind the loop with a buffer that it has
-- not cleared, with a buffer that is its own, without a buffer, or after `stats_unlink`.
pub data Client : Type 0 where
  searching : ℕ → Client
  claimed : ℕ → Client
  owner : ℕ → Client
  refused : Client
  left : Client

-- The valid bits and the data of the buffers, and the clients that use the page.
pub record Page : Type 0 where
  pub valid : ℕ → Bool
  pub stats : ℕ → StatsT
  pub clients : ℕ → Client

abbrev pub set_client : ℕ → Client → Page → Page
set_client i c p = record p { clients = update p.clients i c }

-- One round of the loop of `stats_init` for client `i`, or its end.
unfoldable pub search_buffer : ℕ → ℕ → Page → Page
search_buffer i b p =
    if b == number_of_buffers
    then set_client i refused p
    else if p.valid b
    then set_client i (searching (b + 1)) p
    else set_client i (claimed b) (record p { valid = update p.valid b true })

-- The memset of `stats_init`.
unfoldable pub clear_buffer : ℕ → ℕ → Page → Page
clear_buffer i b p = set_client i (owner b) (record p { stats = update p.stats b zero_stats })

-- `validbitaddr` is that of buffer `b`; `false` is the result -1.
unfoldable pub stats_unlink : ℕ → Page → Bool × Page
stats_unlink b p =
    if p.valid b then (true, record p { valid = update p.valid b false }) else (false, p)

-- What the clients and the server start with: a cleared page.
abbrev pub fresh_page : Page
fresh_page = record { valid = λ _. false; stats = λ _. zero_stats; clients = λ _. searching 0 }

-- One step of one client; a client writes to its own buffer, and gives it back once.
pub data Step : Page → Page → Type 0 where
  searches : {p : Page} (i b : ℕ) → p.clients i ≡ searching b → Step p (search_buffer i b p)
  clears : {p : Page} (i b : ℕ) → p.clients i ≡ claimed b → Step p (clear_buffer i b p)
  writes :
      {p : Page} (i b : ℕ) (s : StatsT)
      → p.clients i ≡ owner b
      → Step p (record p { stats = update p.stats b s })
  unlinks :
      {p : Page} (i b : ℕ) → p.clients i ≡ owner b → Step p (set_client i left (stats_unlink b p).1)

pub data Reach : Page → Type 0 where
  maps : Reach fresh_page
  next : {p p' : Page} → Reach p → Step p p' → Reach p'
