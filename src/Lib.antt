-- ===== src/Lib.antt =====
-- bytekv is a key-value server in C with expiring keys, an append-only log and a background
-- rewrite of the log. This library models its data structures, its log, its commands, its
-- connections and its settings, and proves what makes them correct.
--
-- The program's parts. src/networking.c and src/event_loop.c receive requests; src/command.c
-- splits them into words and calls src/db.c, which keeps the keyspace and the expiry table in two
-- hash tables of src/ht.c. Every command that changes the store is handed to `aof_append` of
-- src/aof.c, which writes a record with a checksum of src/crc64.c to the log. `aof_load` replays
-- the log at the start. `aof_rewrite_cron` forks a child that writes the store as a new log, while
-- the parent collects the records that are logged meanwhile in a diff buffer, and puts the two
-- together at the end.
--
-- The files:
-- + Prelude and its children: tests, lists, integers, bits, byte strings and texts that the others
--   share.
-- + Ht: src/ht.h and src/ht.c. A table is a list of chains, a chain a list of entries. `find` is
--   `ht_find`, `set_val` is `ht_set_str` and `ht_set_i64`, `del` is `ht_del`, `resize` is
--   `ht_resize`; Ht/Iter has the iterator, Ht/Free `ht_free`. Ht/Chain, Ht/Index, Ht/Buckets,
--   Ht/Resize, Ht/Valid, Ht/Store and Ht/Delete have the lemmas and the invariant.
-- + Db: src/db.h and src/db.c, each function under its name. Db/Model says what map from keys to
--   values with an optional expiry a store stands for; Db/Writes and Db/Reads refine the
--   operations to it; Db/Replies follows a client across two commands; Db/Keeps has the invariant
--   where `malloc` fails; Db/Free is `db_free`; Db/Sweep is `db_active_sweep` with the ownership
--   of key strings.
-- + Crc64: src/crc64.c, with the table in Crc64/Table and a bit-by-bit reference in
--   Crc64/Reference.
-- + Aof: src/aof.h and the serialization of src/aof.c; Aof/Layout has sizes and contents.
-- + Aof/Recovery: `aof_replay_record` and `aof_load`. Round replays one record, Torn a sequence
--   with a torn end, Load a whole file, Stale a log with times that are past, Any a file of any
--   bytes; Quarantine is `aof_quarantine_tail`.
-- + Aof/Writer: `aof_append`, the diff buffer and the periodic flush; Aof/Writer/Rewrite: the
--   rewrite in the parent; Aof/Writer/Child: `aof_rewrite_child`. Diff, Append, Backoff, Finish,
--   Lossless, Snapshot, Compaction, Rewritten, Sound and Moves prove what they do.
-- + Command: src/command.c. Tokens is `tokenize_command` against a reference, Reply the reply
--   buffer and `parse_seconds`, Handlers the `cmd_` functions, Execute the table and
--   `command_execute`. Logged and its children compare the store after a command with the log
--   after it; Bounds has the size of replies; Keeps is a proof rule for all commands.
-- + Networking: src/networking.c for one connection, under the names of the source. Frames says
--   what a read buffer holds, Stream what the client is sent, Served what `process_buffer` does
--   against a reference, Live that every whole frame is answered, Bounds that no buffer is
--   overrun. Clients has the table of connections: `on_accept` and the timeouts; Reachable the
--   tables that the server can come to, Moved what a handler leaves of the rest of the server.
-- + Config: src/config.h and src/config.c: the table, the defaults and `apply_config`; Lines is
--   `load_config`, Legal the ranges of the settings.
-- + Session: commands in order, and the next start of the server; Same compares the operations of
--   the store on two stores that stand for the same map, Tracks the replays of what commands log,
--   Restart a session of commands. Life is the relation of the states that a server and the
--   children of its rewrites can come to, with the proofs in its children.
-- + Util: `write_all` and `read_exact` of src/util.c; Util/Clock the clocks, Util/Flags
--   `set_non_blocking` and `open_aof`. EventLoop: the handler tables of src/event_loop.c.
-- + Server: src/server.c, and `el_run` of src/event_loop.c. Server itself has
--   `active_expire_cron`, Signals the signal handler and the pipe, Loop the whole server turn by
--   turn: `before_sleep`, the handlers of each descriptor and `el_run`. Start is `init_server`
--   with `create_listener`, Main `server_main`, `shutdown_server`, and `main` of src/main.c. Safe,
--   Conns, Run, Turns, Boot and Whole prove what stays true of the whole server and how it ends.
-- + Tests: runs and concrete instances.
--
-- How the code is modelled. Strings are lists of bytes without their terminator. A status is
-- `success` or `failure`. State is passed and returned. The random draws, the clock and the
-- outcome of each system call are arguments, so that the theorems hold for every outcome. Where C
-- would access memory outside a buffer or after a free, the model has a value of its own for that:
-- `none` of `aof_replay_record`, `overrun` and `faulted` of `aof_load`, `freed_read` of the sweep.
--
-- Bounds and fuel. The hash is computed modulo 2 ^ 64, with `char` signed, and the fields of a
-- record are cast to their widths. `used`, `size`, counters and times of the writer are not
-- wrapped, since they stay far below their bounds. The loop of `aof_load` has one unit of fuel for
-- each byte of the file and one more, and each round but the last takes twelve bytes or more.
-- `ht_iter_next` has a unit for each bucket and two more; a walk has one for each entry and one
-- more. `backoff_loop` and the searches recurse on their data. The loop of `tokenize_command` has
-- a unit for each byte and one more, and each round but the last takes a blank; the loop of
-- `process_buffer` has a unit for each byte of the read buffer and one more, and each round but
-- the last takes four bytes or more; the loop of `load_config` has a unit for each byte of the
-- file, and each round takes a byte or more. `active_expire_cron` takes its fuel as an argument,
-- and one unit is enough; `write_all` and `read_exact` recurse on the outcomes of the calls. The
-- time of SETEX and EXPIRE is computed modulo 2 ^ 64, where C leaves an overflow undefined.
--
-- A handler table is kept with the connections: the flags `reads` and `writes` of a connection are
-- its slots, and `handler_at` adds those of the pipe and of the listener. `el_run` has a turn for
-- each one it is given, and gives back the server where no more are given. The loop that reads the
-- pipe has a unit of fuel for each byte and one more; `aof_quarantine_tail` has a round for each
-- one it is given, and as many as there are bytes are enough.
--
-- What is not modelled: `strdup` and `calloc` that fail where the code does not test them, reads
-- of log files that fail but for those of the quarantine, a `stat` before the load that fails on a
-- log that is there, a sweep of a store that is not valid, messages to the terminal but for those
-- of `on_shutdown`, the timeout of `kevent`, and `setup_signal_handlers`, which only calls the
-- operating system. A child that outlives the server, and two processes on one log, are not
-- modelled either.
mod Prelude
pub mod Ht
pub mod Db
pub mod Crc64
pub mod Aof
pub mod Command
pub mod Networking
pub mod Config
pub mod Session
pub mod Util
pub mod EventLoop
pub mod Server
mod Tests
