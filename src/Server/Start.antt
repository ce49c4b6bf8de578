-- ===== src/Server/Start.antt =====
-- `init_server`, `server_main` and `shutdown_server` of src/server.c, and `create_listener` of
-- src/networking.c.
use bytekv.Prelude.{
  ℕ, zero, suc, ◌*◌, ◌==◌, Bool, false, not, Option, none, some, List, [], ◌∷◌, ◌++◌, if◌then◌else◌,
  length, take, replicate,
}
use bytekv.Prelude.Bytes.{Bytes}
use bytekv.Prelude.Int.{ℤ, pos, negsuc}
use bytekv.Db.{Db, db_create}
use bytekv.Aof.{record_max, file_header}
use bytekv.Aof.Recovery.{Env, aof_load, Loaded, rejected, loaded, faulted, unfinished}
use bytekv.Aof.Writer.{
  Config, Server, Policy, no_fsync, per_tick, always, idle, Written, all_written, cut_after,
}
use bytekv.Command.Handlers.{State}
use bytekv.Networking.Clients.{max_fds, blank}
use bytekv.EventLoop.{EventLoop, el_init, el_add}
use bytekv.Config.{ServerConfig}
use bytekv.Server.Loop.{Settings, System, HandlerFn, calls_shutdown, calls_accept}

-- `size_t` of an `int` that is not negative; the legal settings are not
abbrev pub to_size : ℤ → ℕ
to_size (pos n) = n
to_size (negsuc n) = 0

abbrev pub policy_of : ℕ → Policy
policy_of zero = no_fsync
policy_of (suc zero) = per_tick
policy_of _ = always

-- `server.config`, as the other parts read it
unfoldable pub settings_of : ServerConfig → Settings
settings_of c = record {
  aof = record {
    aof_enabled = c.aof_enabled;
    aof_policy = policy_of c.aof_policy;
    hz = to_size c.hz;
    aof_check_hz = to_size c.aof_check_hz;
    rewrite_min_size = to_size c.aof_rewrite_min_size;
    rewrite_growth = to_size c.aof_rewrite_growth;
    rewrite_buf_max_size = to_size c.aof_rewrite_buf_max_size;
    backoff_base_ms = to_size c.aof_rewrite_backoff_base_ms;
    backoff_max_ms = to_size c.aof_rewrite_backoff_max_ms;
  };
  expire = record {
    enabled = c.active_expire_enabled;
    percent = to_size c.active_expire_percent;
    keys_per_round = to_size c.active_expire_keys_per_round;
    hz = to_size c.hz;
  };
  timeout_s = to_size c.client_timeout_s;
  timeout_check_hz = to_size c.client_timeout_check_hz;
}

-- what a failing start leaves open, and the process then closes
pub data Descriptor : Type 0 where
  listener log_file kqueue pipe_read pipe_write : Descriptor

-- The outcomes of the system calls of `create_listener`, in their order.
pub record ListenIo : Type 0 where
  pub socket : Option ℕ
  pub reuse : Bool
  pub bound : Bool
  pub listening : Bool
  pub non_blocking : Bool

-- The return value, and the descriptors that are open behind it.
unfoldable pub create_listener : ListenIo → Option ℕ × List Descriptor
create_listener io = elim io.socket [
  | none ↦ (none, [])
  | some fd ↦
      if not io.reuse
      then (none, [])
      else if not io.bound
      then (none, [])
      else if not io.listening
      then (none, [])
      else if not io.non_blocking
      then (none, [])
      else (some fd, listener ∷ [])
]

-- What a start meets, in the order of the code: the clocks, `strdup`, `aof_load` with the array `record`,
-- the listener, the log, its size twice, the header, and the event loop. `pipe` gives two descriptors.
pub record StartIo : Type 0 where
  pub now_ms : ℕ
  pub now_realtime_ms : ℤ
  pub copied : Bool
  pub env : Env
  pub record_buf : Bytes
  pub listen : ListenIo
  pub opened : Bool
  pub stat_first : Bool
  pub created_ms : ℤ
  pub header_written : Written
  pub stat_second : Bool
  pub kqueue_ok : Bool
  pub pipe : Option ℕ
  pub non_blocking : Bool
  pub added_pipe : Bool
  pub added_listener : Bool

-- the fields that `init_server` sets and those that are zero from the beginning
unfoldable pub fresh_log : ℕ → Bytes → Server
fresh_log now_ms file = record {
  now_ms = now_ms;
  aof_file = file;
  temp_file = none;
  aof_buf_dirty = false;
  rewrite_state = idle;
  rewrite_buf = none;
  rewrite_cap = record_max * 64;
  rewrite_last_size = 0;
  total_writes = 0;
  total_fsyncs = 0;
  rewrites_completed = 0;
  rewrites_failed = 0;
  last_rewrite_start_ms = 0;
  last_rewrite_duration_ms = 0;
  failed_streak = 0;
  next_attempt_ms = 0;
  last_fsync_ms = 0;
  last_check_ms = 0;
}

unfoldable pub fresh_state : StartIo → Bytes → Db → State
unfolding fresh_log
fresh_state io file db = record {
  db = db;
  aof = fresh_log io.now_ms file;
  now_realtime_ms = io.now_realtime_ms;
}

-- How a start ends: with the server and its handlers; with EXIT_FAILURE, the log as it is left, and the
-- descriptors that are still open; or as `aof_load` ends where it has no return value.
pub data Started : Type 0 where
  started : System → EventLoop HandlerFn → Started
  exit_failure : Bytes → List Descriptor → Started
  load_faulted load_unfinished : Started

-- the descriptor of the log, where it was opened
abbrev pub log_open : Config → List Descriptor
log_open cfg = if cfg.aof_enabled then log_file ∷ [] else []

-- the last part: `el_add` of the pipe and of the listener
unfoldable pub add_handlers : Settings → StartIo → ℕ → ℕ → State → Started
add_handlers cfg io server_fd pipe_fd st =
    let (pipe_added, el) = el_add io.added_pipe (pos pipe_fd) calls_shutdown (el_init cfg.aof.hz) in
    let (listener_added, el') = el_add io.added_listener (pos server_fd) calls_accept el in
    let left = log_open cfg.aof ++ (pipe_read ∷ pipe_write ∷ []) in
    let server : System = record {
      st = st;
      clients = record { table = replicate max_fds blank; count = 0 };
      last_timeouts_ms = 0;
      cronloops = 0;
      stop = false;
      pipe_fd = pipe_fd;
      server_fd = server_fd;
    } in
    if not pipe_added
    then exit_failure st.aof.aof_file left
    else if not listener_added
    then exit_failure st.aof.aof_file left
    else started server el'

-- `shutdown_pipe_setup`, and what follows it
unfoldable pub pipe_setup : Settings → StartIo → ℕ → State → Started
unfolding add_handlers
pipe_setup cfg io server_fd st = elim io.pipe [
  | none ↦ exit_failure st.aof.aof_file (log_open cfg.aof ++ (kqueue ∷ []))
  | some pipe_fd ↦
      if not io.non_blocking
      then exit_failure st.aof.aof_file (log_open cfg.aof ++ (kqueue ∷ []))
      else add_handlers cfg io server_fd pipe_fd st
]

-- `el_init`, and what follows it
unfoldable pub make_loop : Settings → StartIo → ℕ → State → Started
unfolding pipe_setup
make_loop cfg io server_fd st =
    if not io.kqueue_ok
    then exit_failure st.aof.aof_file (log_open cfg.aof)
    else pipe_setup cfg io server_fd st

-- the second `stat`
unfoldable pub note_size : Settings → StartIo → ℕ → State → Started
unfolding make_loop
note_size cfg io server_fd st = make_loop cfg io server_fd (
    if io.stat_second
    then record st { aof = record st.aof { rewrite_last_size = length st.aof.aof_file } }
    else st)

-- `aof_write_file_header` on an empty log
unfoldable pub write_header : Written → Settings → StartIo → ℕ → State → Started
unfolding note_size
write_header all_written cfg io server_fd st =
    note_size cfg io server_fd
      (record st { aof = record st.aof { aof_file = file_header io.created_ms } })
write_header (cut_after n) cfg io server_fd st =
    exit_failure (take n (file_header io.created_ms)) []

-- `open_aof`, and what follows it
unfoldable pub open_log : Settings → StartIo → ℕ → State → Started
unfolding make_loop write_header note_size
open_log cfg io server_fd st =
    if not cfg.aof.aof_enabled
    then make_loop cfg io server_fd st
    else if not io.opened
    then exit_failure st.aof.aof_file []
    else if not io.stat_first
    then make_loop cfg io server_fd st
    else if length st.aof.aof_file == 0
    then write_header io.header_written cfg io server_fd st
    else note_size cfg io server_fd st

-- the start behind `create_listener`
unfoldable pub with_listener : Option ℕ → Settings → StartIo → State → Started
unfolding open_log
with_listener none cfg io st = exit_failure st.aof.aof_file []
with_listener (some server_fd) cfg io st = open_log cfg io server_fd st

unfoldable pub listen_on : Settings → StartIo → State → Started
unfolding create_listener with_listener
listen_on cfg io st = with_listener (create_listener io.listen).0 cfg io st

-- the start behind `aof_load`
unfoldable pub after_load : Settings → StartIo → Bytes → Loaded → Started
unfolding listen_on fresh_state
after_load cfg io file rejected = exit_failure file []
after_load cfg io file (loaded db kept) = listen_on cfg io (fresh_state io kept db)
after_load cfg io file faulted = load_faulted
after_load cfg io file unfinished = load_unfinished

-- `file` is the log; where there is none, the empty one
unfoldable pub init_server : Settings → StartIo → Bytes → Started
unfolding after_load
init_server cfg io file =
    let db = db_create (pos io.now_ms) in
    if not io.copied
    then exit_failure file []
    else if cfg.aof.aof_enabled
    then after_load cfg io file (aof_load io.env file io.record_buf db)
    else listen_on cfg io (fresh_state io file db)
