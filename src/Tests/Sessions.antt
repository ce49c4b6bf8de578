-- ===== src/Tests/Sessions.antt =====
-- A session of one command, and the next start.
use bytekv.Prelude.{◌≡◌, refl, ◌∙◌, ap, true, false, some, List, inl, ◌++◌, [], ◌∷◌, arith}
use bytekv.Prelude.Bytes.{Bytes, c_str, str_eq, be}
use bytekv.Prelude.Int.{pos}
use bytekv.Prelude.Text.{codes, str_case_eq}
use bytekv.Db.{Db, db_set, db_create}
use bytekv.Db.Model.{IsValid, view, db_create-Models}
use bytekv.Db.Writes.{db_set-Models}
use bytekv.Aof.{file_header, LogRecord, aof_serialize}
use bytekv.Ht
use bytekv.Ht.{Status, success, failure}
use bytekv.Command.Reply.{RespBuf}
use bytekv.Db.Reads.{stale}
use bytekv.Aof.Recovery.{aof_load, loaded}
use bytekv.Aof.Writer.{Server}
use bytekv.Aof.Writer.Snapshot.{env_at, snapshot}
use bytekv.Command.Tokens.{tokenize_command, tokens_loop, strsep}
use bytekv.Command.Handlers.{State, Io, cmd_set, finish_write, log_command}
use bytekv.Command.Execute.{command_execute, execute_words, lookup_command, dispatch, command_table}
use bytekv.Session.{Request, serve_request}
use bytekv.Session.Same.{Same}
use bytekv.Session.Restart.{IsServable}
use bytekv.Session.Tracks.{NoneStale}
use bytekv.Session.Life.{
  tick, Child, forked, with_temp, Life, born, served, ticked, child_writes, child_exits,
}
use bytekv.Session.Life.Reloads.{forked_active, Life-aof_load}
use bytekv.Session.Life.Storable.{none-IsStorable, snapshot-IsLoggable}
use bytekv.Aof.Recovery.Load.{log_file}
use bytekv.Aof.Writer.Child.{aof_rewrite_child}
use bytekv.Aof.Writer.Compaction.{entries, aof_rewrite_child-entries}
use bytekv.Server.Loop.{SleepIo, set_clocks}
use bytekv.Aof.Writer.{active, all_written, aof_cron, run_every_ms, durable_flush, aof_append}
use bytekv.Aof.Writer.Rewrite.{
  still_running, exited, aof_rewrite_cron, start_or_check, maybe_start, aof_rewrite_start,
  check_child, reap, aof_rewrite_finalize, finalize_from, complete, aof_rewrite_cleanup,
}
use bytekv.Tests.{no_keys, no_keys-IsValid}
use bytekv.Tests.Rewrite.{cfg, server, start_io}
use bytekv.Tests.Commands.{io}

-- a server that has just written the header of a new log
abbrev fresh_log : Server
fresh_log = record server { aof_file = file_header (pos 7) }

abbrev pub fresh : State
fresh = record { db = no_keys; aof = fresh_log; now_realtime_ms = pos 1000 }

abbrev set_a : Request
set_a = record { payload = codes "SET a 1"; now = pos 2000; io = io }

set_a-IsServable : IsServable set_a
set_a-IsServable = record {
  bytes = (
    omega arith,
    (omega arith, (omega arith, (omega arith, (omega arith, (omega arith, (omega arith, tt)))))),
  );
  room = omega arith;
  written = refl;
  mem_key = refl;
  mem_ttl = refl;
}

finish_write_store :
    (o : Io) (r : LogRecord) (error : Bytes) (res : Status × Db) (st : State) (resp : RespBuf)
    → (finish_write cfg o r error res st resp).0.db ≡ res.1
unfolding finish_write log_command
finish_write_store o r error (success, db) st resp = refl
finish_write_store o r error (failure, db) st resp = refl

set_a_run :
    (s : State) → (serve_request cfg set_a s).db ≡ (db_set true s.db (codes "a") (codes "1")).1
unfolding serve_request command_execute execute_words lookup_command dispatch command_table
    tokenize_command tokens_loop strsep c_str str_case_eq str_eq cmd_set finish_write log_command
set_a_run s =
    finish_write_store io _ (codes "-ERR SET COMMAND\n") (db_set true s.db (codes "a") (codes "1"))
      _ _

set_a-NoneStale : (s : State) → s.db ≡ no_keys → NoneStale (pos 5000) (serve_request cfg set_a s).db
set_a-NoneStale s empty q =
    let (m, done) = db_set-Models no_keys-IsValid (codes "a") true (codes "1") (λ _. refl) in
    let stored : stale (pos 5000) (view (db_set true no_keys (codes "a") (codes "1")).1 q) ≡ false =
      ground
        (arith, m.1 q, (db_create-Models (pos 0)).1 q, (db_create-Models (pos 0)).1 (codes "a")) in
    ap (λ x. stale (pos 5000) (view x q))
      (set_a_run s ∙ ap (λ db. (db_set true db (codes "a") (codes "1")).1) empty)
    ∙ stored

-- a turn of the event loop in which the log is large enough for a rewrite, and it is started
abbrev pub sleep_io : SleepIo
sleep_io = record {
  now_ms = 2000;
  now_realtime_ms = pos 3000;
  fuel = 1;
  clock = λ i. 2000;
  draws = λ i. [];
  flushed = true;
  cron = record {
    stat_size = some 5000;
    start = start_io;
    waited = still_running;
    finalize = record {
      opened = true;
      written = all_written;
      flushed = true;
      reopened = true;
      renamed = true;
      stat_ok = true;
      unlinked = true;
    };
    unlinked = true;
  };
}

rewrite_begins : (tick cfg sleep_io fresh).aof.rewrite_state ≡ active
unfolding tick set_clocks aof_cron aof_rewrite_cron run_every_ms start_or_check maybe_start
    aof_rewrite_start
rewrite_begins = refl

-- a rewrite is started; then `SET a 1` is run, and the child has written a part of its file
abbrev ticked_state : State
ticked_state = tick cfg sleep_io fresh

abbrev served_state : State
served_state = serve_request cfg set_a ticked_state

abbrev first_child : Child
first_child = record { fork = no_keys; done = false }

abbrev ticked_child : Child
ticked_child = forked fresh ticked_state first_child

ticked_empty : ticked_state.db ≡ no_keys
unfolding tick set_clocks
ticked_empty = refl

forked_done : (s s' : State) (child : Child) → child.done ≡ false → (forked s s' child).done ≡ false
forked_done s s' child part = ground arith

partly_written :
    Life cfg
      (pos 7)
      (pos 5000)
      (with_temp (some (1 ∷ [])) served_state)
      (forked ticked_state served_state ticked_child)
partly_written =
    child_writes (some (1 ∷ [])) served_state (forked ticked_state served_state ticked_child)
      (forked_done ticked_state served_state ticked_child
        (forked_done fresh ticked_state first_child refl))
      (served set_a ticked_state ticked_child set_a-IsServable (omega arith)
        (set_a-NoneStale ticked_state ticked_empty)
        (ticked sleep_io fresh first_child (λ h. ground (arith, h))
          (born fresh no_keys-IsValid (λ q. (db_create-Models (pos 0)).1 q) refl refl)))

-- The child's file is whole: the header alone, as the store at its fork has no key.
abbrev child_records : List LogRecord
child_records = snapshot (λ _. pos 4000) 0 no_keys (entries no_keys)

abbrev child_file : Bytes
child_file = log_file (pos 9) child_records

ticked_child_lem : ticked_child ≡ first_child
unfolding tick set_clocks aof_cron aof_rewrite_cron run_every_ms start_or_check maybe_start
    aof_rewrite_start
ticked_child_lem = refl

child_writes_file :
    aof_rewrite_child
      (pos 9)
      (λ _. pos 4000)
      true
      (forked ticked_state served_state ticked_child).fork
    ≡ some child_file
child_writes_file =
    ap (λ (c : Child). aof_rewrite_child (pos 9) (λ _. pos 4000) true c.fork)
      (forked_active ticked_state served_state ticked_child rewrite_begins ∙ ticked_child_lem)
    ∙ aof_rewrite_child-entries (pos 9) (λ _. pos 4000) no_keys no_keys-IsValid
        (snapshot-IsLoggable (λ _. pos 4000) no_keys no_keys-IsValid
          (none-IsStorable no_keys (db_create-Models (pos 0)).1))

abbrev whole_state : State
whole_state = with_temp (some child_file) (with_temp (some (1 ∷ [])) served_state)

abbrev whole_child : Child
whole_child = record (forked ticked_state served_state ticked_child) { done = true }

-- the turn of the event loop in which the parent finds that the child has ended
abbrev reap_io : SleepIo
reap_io = record sleep_io {
  now_ms = 4000;
  now_realtime_ms = pos 4500;
  cron = record sleep_io.cron { waited = exited 0 };
}

reaped :
    Life cfg
      (pos 7)
      (pos 5000)
      (tick cfg reap_io whole_state)
      (forked whole_state (tick cfg reap_io whole_state) whole_child)
reaped =
    ticked reap_io whole_state whole_child (λ _. refl)
      (child_exits (pos 9) (λ _. pos 4000) child_file (with_temp (some (1 ∷ [])) served_state)
        (forked ticked_state served_state ticked_child) (λ n. omega arith) child_writes_file
        partly_written)

Life-aof_load_example :
    let st' = tick cfg reap_io whole_state in
    (d : Db) × (aof_load (env_at (pos 5000)) (st'.aof.aof_file ++ []) [] (db_create (pos 0))
      ≡ loaded d st'.aof.aof_file)
    × IsValid d
    × Same d st'.db
Life-aof_load_example =
    Life-aof_load (pos 5000) (pos 0) cfg refl (pos 7) (tick cfg reap_io whole_state)
      (forked whole_state (tick cfg reap_io whole_state) whole_child) [] [] reaped (inl refl)

-- In the witness the rewrite is completed, with the record of the SET in the diff buffer.
reaped_completes : (tick cfg reap_io whole_state).aof.rewrites_completed ≡ 1
unfolding tick set_clocks aof_cron aof_rewrite_cron run_every_ms start_or_check maybe_start
    aof_rewrite_start serve_request command_execute execute_words lookup_command dispatch
    command_table tokenize_command tokens_loop strsep c_str str_case_eq str_eq cmd_set finish_write
    log_command check_child reap aof_rewrite_finalize finalize_from complete durable_flush
    aof_rewrite_cleanup aof_append db_set Ht.set_val Ht.chain_find db_create Ht.create Ht.index
    Ht.hash aof_serialize be
reaped_completes = refl
