-- ===== src/Server/Main.antt =====
-- `server_main` and `shutdown_server` of src/server.c.
use bytekv.Prelude.{ℕ, suc, Bool, true, not, Option, none, some, List, [], ◌∷◌, if◌then◌else◌}
use bytekv.Prelude.Bytes.{Bytes}
use bytekv.Networking.{Conn}
use bytekv.Config.{ServerConfig, init_server_config}
use bytekv.Config.Lines.{load_config}
use bytekv.Server.Loop.{Settings, System, Turn, Ran, returned, failed, going, lost, el_run}
use bytekv.Server.Start.{
  StartIo, Started, started, exit_failure, load_faulted, load_unfinished, settings_of, init_server,
}

-- the descriptors of the connections that `shutdown_server` shuts down and closes, from a slot on
unfoldable pub closed_clients : ℕ → List Conn → List ℕ
closed_clients fd [] = []
closed_clients fd (c ∷ cs) =
    let rest = closed_clients (suc fd) cs in if c.active then fd ∷ rest else rest

-- How `server_main` ends: with EXIT_SUCCESS, the server as it was at its end, and the connections that are
-- closed; with EXIT_FAILURE; or, in the model alone, the given turns are over; or the store is lost, or
-- cannot be loaded.
pub data Exit : Type 0 where
  exit_success : System → List ℕ → Exit
  exit_failed : Exit
  still_going : System → Exit
  crashed : Exit

-- `el_run`, whose return value is not looked at, and `shutdown_server`
unfoldable pub finish : Ran → Exit
unfolding closed_clients
finish (returned s) = exit_success s (closed_clients 0 s.clients.table)
finish (failed s) = exit_success s (closed_clients 0 s.clients.table)
finish (going s) = still_going s
finish lost = crashed

unfoldable pub run_started : Settings → List Turn → Started → Exit
unfolding el_run finish
run_started cfg ts (started s el) = finish (el_run cfg ts s)
run_started cfg ts (exit_failure file left) = exit_failed
run_started cfg ts load_faulted = crashed
run_started cfg ts load_unfinished = crashed

-- `init_server_config`, and `load_config` where there is a path; `configfile` is what `fopen` then finds
abbrev pub configure : (ℕ → Bool) → Option (Option Bytes) → Bool × ServerConfig
configure copied none = (true, init_server_config)
configure copied (some configfile) = load_config copied configfile init_server_config

unfoldable pub server_main : (ℕ → Bool) → Option (Option Bytes) → StartIo → List Turn → Bytes → Exit
unfolding init_server run_started init_server_config settings_of
server_main copied configfile io ts file =
    let (ok, c) = configure copied configfile in
    let cfg = settings_of c in
    if not ok then exit_failed else run_started cfg ts (init_server cfg io file)

-- src/main.c: `argv` is what the process is started with, and `fopen` what a file holds, if it can be
-- opened.
abbrev pub configfile_of : (Bytes → Option Bytes) → List Bytes → Option (Option Bytes)
configfile_of fopen (name ∷ (configfile ∷ more)) = some (fopen configfile)
configfile_of fopen _ = none

unfoldable pub main :
    (ℕ → Bool) → (Bytes → Option Bytes) → List Bytes → StartIo → List Turn → Bytes → Exit
unfolding server_main
main copied fopen argv io ts file = server_main copied (configfile_of fopen argv) io ts file
