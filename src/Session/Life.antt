-- ===== src/Session/Life.antt =====
-- The life of a server, from a new log on: its commands, its periodic tasks with their rewrites of the log,
-- and the children of those rewrites.
pub mod Storable
pub mod Alive
pub mod Reloads
pub mod Sleeps
use bytekv.Prelude.{ℕ, ◌≡◌, Bool, true, false, ◌&&◌, Option, none, some, if◌then◌else◌, All}
use bytekv.Prelude.Bytes.{Bytes}
use bytekv.Prelude.Int.{ℤ, ◌≤ℤ◌}
use bytekv.Db.{Db}
use bytekv.Db.Model.{IsValid, view}
use bytekv.Aof.{IsLoggable, file_header}
use bytekv.Aof.Writer.{Config, RewriteState, idle, active, aborting, aof_cron}
use bytekv.Aof.Writer.Rewrite.{exited, aof_rewrite_cron}
use bytekv.Aof.Writer.Child.{aof_rewrite_child}
use bytekv.Aof.Writer.Snapshot.{snapshot}
use bytekv.Aof.Writer.Compaction.{entries}
use bytekv.Command.Handlers.{State}
use bytekv.Session.{Request, serve_request}
use bytekv.Session.Tracks.{NoneStale}
use bytekv.Session.Restart.{IsServable}
use bytekv.Server.Loop.{SleepIo, set_clocks}

-- `before_sleep`, as far as the log goes: both clocks, `aof_cron` and `aof_rewrite_cron`
unfoldable pub tick : Config → SleepIo → State → State
unfolding set_clocks
tick cfg io st =
    let st' = set_clocks io st in
    record st' { aof = aof_rewrite_cron cfg io.cron (aof_cron cfg io.flushed st'.aof) }

-- What the child of a rewrite has of its own: the store at its fork, and whether it has written its file
-- and exits with 0.
pub record Child : Type 0 where
  pub fork : Db
  pub done : Bool

abbrev pub is_idle : RewriteState → Bool
is_idle idle = true
is_idle active = false
is_idle aborting = false

abbrev pub is_active : RewriteState → Bool
is_active active = true
is_active idle = false
is_active aborting = false

-- a step in which a rewrite begins forks a new child
abbrev pub forked : State → State → Child → Child
forked st st' child =
    if is_idle st.aof.rewrite_state && is_active st'.aof.rewrite_state
    then record { fork = st'.db; done = false }
    else child

-- a file of the child's, whole or not
abbrev pub with_temp : Option Bytes → State → State
with_temp file st = record st { aof = record st.aof { temp_file = file } }

-- The states that a server and the child of its rewrite can come to, from an empty store and a new log on.
-- The commands are servable; no key is past its expiry at the time `later`, which no command and no reading
-- of a child's clock is behind; a child whose file is not whole does not exit with 0.
pub data Life (cfg : Config) (created_ms later : ℤ) : State → Child → Type 0 where
  born :
      (st : State)
      → IsValid st.db
      → ((q : Bytes) → view st.db q ≡ none)
      → st.aof.aof_file ≡ file_header created_ms
      → st.aof.rewrite_state ≡ idle
      → Life cfg created_ms later st (record { fork = st.db; done = false })
  served :
      (r : Request) (st : State) (child : Child)
      → IsServable r
      → r.now ≤ℤ later
      → NoneStale later (serve_request cfg r st).db
      → Life cfg created_ms later st child
      → Life cfg created_ms later
          (serve_request cfg r st)
          (forked st (serve_request cfg r st) child)
  ticked :
      (io : SleepIo) (st : State) (child : Child)
      → (io.cron.waited ≡ exited 0 → child.done ≡ true)
      → Life cfg created_ms later st child
      → Life cfg created_ms later (tick cfg io st) (forked st (tick cfg io st) child)
  child_writes :
      (file : Option Bytes) (st : State) (child : Child)
      → child.done ≡ false
      → Life cfg created_ms later st child
      → Life cfg created_ms later (with_temp file st) child
  child_exits :
      (child_created_ms : ℤ) (clock : ℕ → ℤ) (file : Bytes) (st : State) (child : Child)
      → ((n : ℕ) → clock n ≤ℤ later)
      → aof_rewrite_child child_created_ms clock true child.fork ≡ some file
      → Life cfg created_ms later st child
      → Life cfg created_ms later (with_temp (some file) st) (record child { done = true })
