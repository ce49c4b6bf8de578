-- ===== src/Tests/Starts.antt =====
-- src/server.c on concrete starts and runs.
use bytekv.Prelude.{◌≡◌, refl, true, false, none, some, [], ◌∷◌, arith, take, replicate, Option}
use bytekv.Prelude.Bytes.{Bytes}
use bytekv.Prelude.Int.{pos}
use bytekv.Aof.{file_header}
use bytekv.Aof.Recovery.{aof_load}
use bytekv.Aof.Recovery.Any.{Recovered, aof_load-Recovered}
use bytekv.Aof.Writer.{all_written, cut_after}
use bytekv.Aof.Writer.Snapshot.{env_at}
use bytekv.Config.{init_server_config}
use bytekv.EventLoop.{evfilt_read}
use bytekv.Networking.{received, again}
use bytekv.Networking.Clients.{blank}
use bytekv.Server.{active_expire_cron, expire_loop}
use bytekv.Ht
use bytekv.Db.{db_create}
use bytekv.Db.Sweep.{db_active_sweep}
use bytekv.Server.Loop.{
  Settings, System, Ready, Turn, polled, before_sleep, housekeeping, set_clocks, handle_events,
  el_run, returned, max_events,
}
use bytekv.Server.Turns.{el_run-IsSignal, NewThroughout, NewIn, AllNew}
use bytekv.Server.Start.{
  StartIo, Started, started, exit_failure, load_faulted, load_unfinished, settings_of, init_server,
  create_listener,
}
use bytekv.Server.Boot.{Boots, looks, init_server-Boots}
use bytekv.Server.Main.{server_main}
use bytekv.Server.Whole.{ExitSafe, NewAfter, server_main-ExitSafe, torn_header-refused}
use bytekv.Tests.{no_keys, no_keys-IsValid}
use bytekv.Tests.Net.{open_socket}
use bytekv.Tests.Sessions.{sleep_io, fresh}

-- every system call of the start succeeds
abbrev good_start : StartIo
good_start = record {
  now_ms = 5;
  now_realtime_ms = pos 1000;
  copied = true;
  env = env_at (pos 1000);
  record_buf = [];
  listen = record {
    socket = some 3;
    reuse = true;
    bound = true;
    listening = true;
    non_blocking = true;
  };
  opened = true;
  stat_first = true;
  created_ms = pos 1000;
  header_written = all_written;
  stat_second = true;
  kqueue_ok = true;
  pipe = some 6;
  non_blocking = true;
  added_pipe = true;
  added_listener = true;
}

-- the disk is full behind ten bytes
abbrev full_disk : StartIo
full_disk = record good_start { header_written = cut_after 10 }

abbrev defaults : Settings
defaults = settings_of init_server_config

abbrev junk : Bytes
junk = 1 ∷ 2 ∷ 3 ∷ []

aof_load-Recovered_example : Recovered true junk (aof_load (env_at (pos 0)) junk [] no_keys)
aof_load-Recovered_example = aof_load-Recovered (env_at (pos 0)) junk [] no_keys-IsValid

init_server-Boots_example : Boots (looks defaults good_start) (init_server defaults good_start [])
init_server-Boots_example = init_server-Boots defaults good_start []

torn_header-refused_example :
    let file = take 10 (file_header (pos 1000)) in
    (init_server defaults full_disk [] ≡ exit_failure file [])
    × (init_server defaults good_start file ≡ exit_failure file [])
unfolding create_listener settings_of init_server_config
torn_header-refused_example =
    torn_header-refused defaults full_disk 3 10 refl good_start refl refl refl refl refl
      (omega arith) (omega arith)

-- a signal has written to the pipe
abbrev signal : Ready
signal = record {
  fd = 6;
  filter = evfilt_read;
  received = received [];
  wrote = again;
  rounds = open_socket;
  accept = record { fd = none; non_blocking = true; added = true };
}

abbrev signal_turn : Turn
signal_turn = record { sleep = sleep_io; poll = polled (signal ∷ []) }

-- nothing is accepted in that turn
no_accept :
    (o : Option System) → NewIn (NewThroughout defaults []) defaults (polled (signal ∷ [])) o
unfolding NewIn AllNew NewThroughout
no_accept none = tt
no_accept (some s) = ((λ h. tt, tt), tt)

signal_new : (r : Started) → NewAfter defaults (signal_turn ∷ []) r
unfolding NewThroughout
signal_new (started s el) = no_accept (before_sleep defaults sleep_io s)
signal_new (exit_failure file left) = tt
signal_new load_faulted = tt
signal_new load_unfinished = tt

server_main-ExitSafe_example :
    ExitSafe (server_main (λ i. true) none good_start (signal_turn ∷ []) [])
server_main-ExitSafe_example =
    server_main-ExitSafe (λ i. true) none good_start (signal_turn ∷ []) []
      (signal_new (init_server defaults good_start []))

abbrev quiet_server : System
quiet_server = record {
  st = fresh;
  clients = record { table = replicate 8 blank; count = 0 };
  last_timeouts_ms = 0;
  cronloops = 0;
  stop = false;
  pipe_fd = 6;
  server_fd = 3;
}

abbrev woken_server : System
woken_server =
    housekeeping defaults sleep_io
      (record quiet_server { st = set_clocks sleep_io fresh; cronloops = 1 }) no_keys

quiet_sleep : before_sleep defaults sleep_io quiet_server ≡ some woken_server
unfolding before_sleep set_clocks active_expire_cron expire_loop db_active_sweep db_create Ht.create
    settings_of init_server_config
quiet_sleep = refl

el_run-IsSignal_example :
    el_run defaults (signal_turn ∷ signal_turn ∷ []) quiet_server
    ≡ returned (handle_events defaults (take max_events (signal ∷ [])) woken_server)
unfolding housekeeping
el_run-IsSignal_example =
    el_run-IsSignal defaults signal_turn (signal_turn ∷ []) quiet_server woken_server (signal ∷ [])
      0 signal refl quiet_sleep refl refl (refl, refl)
