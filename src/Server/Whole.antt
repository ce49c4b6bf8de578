-- ===== src/Server/Whole.antt =====
-- src/server.c from the start to the end of the process, and a start that is cut off.
use bytekv.Prelude.{
  ℕ, suc, ◌<◌, ◌==◌, ◌≡◌, refl, sym, ◌∙◌, inl, inr, Bool, true, false, not, Bool-cases, if-both,
  Option, some, List, [], ◌∷◌, length, take, length-take, arith, ltb,
}
use bytekv.Prelude.Bytes.{Bytes}
use bytekv.Aof.{file_header, file_header_size, read_file_header}
use bytekv.Aof.Recovery.{aof_load}
use bytekv.Aof.Recovery.Load.{length-file_header}
use bytekv.Aof.Writer.{cut_after}
use bytekv.Networking.{Conn}
use bytekv.Networking.Clients.{actives}
use bytekv.Server.Loop.{Settings, System, Turn, Ran, returned, failed, going, lost, el_run}
use bytekv.Server.Safe.{IsSafe}
use bytekv.Server.Turns.{
  NewThroughout, EndsSafe, ends_stopped, ends_failed, goes_on, ends_lost, el_run-EndsSafe,
}
use bytekv.Server.Start
use bytekv.Server.Boot.{Boots, boots, fails, load_faults, init_server-Boots, looks}
use bytekv.Server.Main.{
  closed_clients, Exit, exit_success, exit_failed, still_going, crashed, finish, run_started,
  configure, server_main,
}

length-closed_clients : (fd : ℕ) (cs : List Conn) → length (closed_clients fd cs) ≡ actives cs
unfolding closed_clients
length-closed_clients fd [] = refl
length-closed_clients fd (c ∷ cs) = elim (Bool-cases c.active) [
  | inl on ↦ rw on (omega (arith, length-closed_clients (suc fd) cs))
  | inr off ↦ rw off (omega (arith, length-closed_clients (suc fd) cs))
]

-- How `server_main` ends: with a safe server, of which as many connections are closed as it counts; with
-- EXIT_FAILURE; or not, with a safe server; or the store is lost, or cannot be loaded.
pub data ExitSafe : Exit → Type 0 where
  exits :
      {s : System} {closed : List ℕ}
      → IsSafe s
      → length closed ≡ s.clients.count
      → ExitSafe (exit_success s closed)
  refuses : ExitSafe exit_failed
  runs : {s : System} → IsSafe s → s.stop ≡ false → ExitSafe (still_going s)
  crashes : ExitSafe crashed

all_closed : (s : System) → IsSafe s → length (closed_clients 0 s.clients.table) ≡ s.clients.count
all_closed s safe = length-closed_clients 0 s.clients.table ∙ sym safe.clients.counted.0

finish-ExitSafe : (r : Ran) → EndsSafe r → ExitSafe (finish r)
unfolding finish
finish-ExitSafe (returned s) (ends_stopped safe stop) = exits safe (all_closed s safe)
finish-ExitSafe (failed s) (ends_failed safe) = exits safe (all_closed s safe)
finish-ExitSafe (going s) (goes_on safe go) = runs safe go
finish-ExitSafe lost ends_lost = crashes

-- the descriptors that are accepted are new in the run of a server that has started
abbrev pub NewAfter : Settings → List Turn → Start.Started → Type 0
NewAfter cfg ts (Start.started s el) = NewThroughout cfg ts s
NewAfter cfg ts (Start.exit_failure file left) = Unit {0}
NewAfter cfg ts Start.load_faulted = Unit {0}
NewAfter cfg ts Start.load_unfinished = Unit {0}

run_started-ExitSafe :
    (cfg : Settings) (ts : List Turn) (written : Bool) (r : Start.Started)
    → Boots written r
    → NewAfter cfg ts r
    → ExitSafe (run_started cfg ts r)
unfolding run_started
run_started-ExitSafe cfg ts written (Start.started s el) (boots safe go header) new =
    finish-ExitSafe (el_run cfg ts s) (el_run-EndsSafe cfg ts s safe new)
run_started-ExitSafe cfg ts written (Start.exit_failure file left) fails new = refuses
run_started-ExitSafe cfg ts written Start.load_faulted load_faults new = crashes
run_started-ExitSafe cfg ts written Start.load_unfinished b new = elim b [ ]

-- Take every configuration file, every log, and every sequence of times, events, commands and
-- outcomes of system calls in which `accept` gives descriptors that are not in use. Where
-- `server_main` returns EXIT_SUCCESS, the server is safe at its end and as many connections are
-- closed as it counts; before that, after any number of turns, it is safe; otherwise `server_main`
-- returns EXIT_FAILURE, or `aof_load` reaches outside its buffer, or the sweep of expired keys
-- leaves no store. Safe means: the store satisfies its invariant, the diff buffer is there exactly
-- while a rewrite is active and within its capacity, `clients_count` is the number of connections
-- in use, all buffers are within their sizes, and only connections in use have handlers.
pub server_main-ExitSafe :
    (copied : ℕ → Bool) (configfile : Option (Option Bytes)) (io : Start.StartIo) (ts : List Turn)
    (file : Bytes)
    → (let cfg = Start.settings_of (configure copied configfile).1 in
        NewAfter cfg ts (Start.init_server cfg io file))
    → ExitSafe (server_main copied configfile io ts file)
unfolding server_main
server_main-ExitSafe copied configfile io ts file new =
    let (ok, c) = configure copied configfile in
    let cfg = Start.settings_of c in
    if-both ExitSafe (not ok) refuses (
      run_started-ExitSafe cfg ts (looks cfg io) (Start.init_server cfg io file)
        (init_server-Boots cfg io file) new)

-- a file that is not empty and shorter than a file header is refused
short_file :
    (cfg : Settings) (io : Start.StartIo) (file : Bytes)
    → cfg.aof.aof_enabled ≡ true
    → 0 < length file
    → length file < file_header_size
    → Start.init_server cfg io file ≡ Start.exit_failure file []
unfolding Start.init_server aof_load read_file_header Start.after_load
short_file cfg io file on some_bytes short =
    let empty : (length file == 0) ≡ false = ground (arith, some_bytes) in
    let small : ltb (length file) file_header_size ≡ true = ground (arith, short) in
    elim (Bool-cases io.copied) [
      | inr bad ↦ rw bad refl
      | inl good ↦ elim (Bool-cases io.env.opened) [
        | inr closed ↦ simp (good, on, empty, closed) refl
        | inl can_open ↦ simp (good, on, empty, can_open, small) refl
      ]
    ]

module _ (cfg : Settings) (io : Start.StartIo) (fd n : ℕ) (on : cfg.aof.aof_enabled ≡ true) where
  cut_header :
      (io.copied ≡ true)
      → (Start.create_listener io.listen).0 ≡ some fd
      → io.opened ≡ true
      → io.stat_first ≡ true
      → io.header_written ≡ cut_after n
      → Start.init_server cfg io [] ≡ Start.exit_failure (take n (file_header io.created_ms)) []
  unfolding Start.init_server aof_load Start.after_load Start.listen_on Start.with_listener
      Start.open_log Start.write_header Start.fresh_state Start.fresh_log
  cut_header copied given opened size cut = simp (copied, on, given, opened, size, cut) refl

  -- Let the log be enabled and there be no log yet, and let the first start come to write the file
  -- header, of which `n` bytes are written before the write fails, more than none and not all 32.
  -- Then that start fails, with these bytes as the log, and so does every later start, which leaves
  -- them.
  pub torn_header-refused :
      (later : Start.StartIo)
      → io.copied ≡ true
      → (Start.create_listener io.listen).0 ≡ some fd
      → io.opened ≡ true
      → io.stat_first ≡ true
      → io.header_written ≡ cut_after n
      → 0 < n
      → n < file_header_size
      → let file = take n (file_header io.created_ms) in
        (Start.init_server cfg io [] ≡ Start.exit_failure file [])
        × (Start.init_server cfg later file ≡ Start.exit_failure file [])
  torn_header-refused later copied given opened size cut some_bytes short =
      let file = take n (file_header io.created_ms) in
      let len : length file ≡ n =
        omega
          (arith, length-take n (file_header io.created_ms), length-file_header io.created_ms) in
      (
        cut_header copied given opened size cut,
        short_file cfg later file on (omega (arith, len)) (omega (arith, len)),
      )
