-- ===== src/Session.antt =====
-- The server from one start to the next: the commands of src/command.c on the store of src/db.c, the
-- log that src/aof.c writes meanwhile, and `aof_load` on that log.
pub mod Same
pub mod Tracks
pub mod Restart
pub mod Life
use bytekv.Prelude.{ℕ, List, [], ◌∷◌}
use bytekv.Prelude.Bytes.{Bytes}
use bytekv.Prelude.Int.{ℤ}
use bytekv.Aof.{msg_max}
use bytekv.Aof.Writer.{Config}
use bytekv.Command.Handlers.{State, Io}
use bytekv.Command.Execute.{command_execute}

-- a command as it reaches the server: its text, the wall clock, and what the system does meanwhile
pub record Request : Type 0 where
  pub payload : Bytes
  pub now : ℤ
  pub io : Io

-- `before_sleep` sets the clock, and `process_buffer` runs the command
unfoldable pub serve_request : Config → Request → State → State
serve_request cfg r st =
    (command_execute cfg r.io r.payload msg_max (record st { now_realtime_ms = r.now })).0

-- the server after some commands
unfoldable pub run_requests : Config → List Request → State → State
unfolding serve_request
run_requests cfg [] st = st
run_requests cfg (r ∷ rs) st = run_requests cfg rs (serve_request cfg r st)
