-- ===== src/Command/Keeps.antt =====
-- A proof rule for src/command.c: what the operations on the store and on the log keep, every command
-- keeps.
use bytekv.Prelude.{
  ◌≡◌, refl, Bool, Bool-cases, inl, inr, Option, none, some, List, [], ◌∷◌, ℕ, All, length,
}
use bytekv.Prelude.Bytes.{Bytes, c_str}
use bytekv.Prelude.Int.{ℤ}
use bytekv.Ht.{Status, success, failure}
use bytekv.Db.{Db, db_get, db_get_ttl, db_set, db_setex, db_key_expire, db_persist, db_del}
use bytekv.Aof.{LogRecord}
use bytekv.Aof.Writer.{Config, Server, Written, RewriteState, idle, active, aborting, aof_append}
use bytekv.Aof.Writer.Rewrite.{StartIo, aof_rewrite_start}
use bytekv.Command.Tokens.{tokenize_command, max_tokens}
use bytekv.Command.Reply.{RespBuf, parse_seconds}
use bytekv.Command.Handlers.{
  State, Io, Handler, arg, finish_write, expire_time, setex_for, expire_for, rewrite_in, cmd_get,
  cmd_ttl, cmd_set, cmd_setex, cmd_expire, cmd_persist, cmd_del, cmd_keys, cmd_info,
  cmd_bgrewriteaof,
}
use bytekv.Command.Execute.{
  CommandEntry, Whenever, lookup_command, lookup_command-Whenever, command_table, wrong_arity,
  dispatch, execute_words, command_execute,
}

-- The operations that commands call keep a property of the store and one of the log.
pub record Keeps (cfg : Config) (P : Db → Type 0) (Q : Server → Type 0) : Type 0 where
  pub get : (db : Db) (key : Bytes) (now : ℤ) → P db → P (db_get db key now).1
  pub get_ttl : (db : Db) (key : Bytes) (now : ℤ) → P db → P (db_get_ttl db key now).1
  pub set : (mem : Bool) (db : Db) (key value : Bytes) → P db → P (db_set mem db key value).1
  pub setex :
      (mem_key mem_ttl : Bool) (db : Db) (key value : Bytes) (expire_at : ℤ)
      → P db
      → P (db_setex mem_key mem_ttl db key value expire_at).1
  pub key_expire :
      (mem : Bool) (db : Db) (key : Bytes) (expire_at : ℤ)
      → P db
      → P (db_key_expire mem db key expire_at).1
  pub persist : (db : Db) (key : Bytes) → P db → P (db_persist db key).1
  pub del : (db : Db) (key : Bytes) → P db → P (db_del db key).1
  pub append :
      (written : Written) (realloc_ok flushed : Bool) (r : LogRecord) (s : Server)
      → Q s
      → Q (aof_append cfg written realloc_ok flushed r s).1
  pub start :
      (io : StartIo) (s : Server) → s.rewrite_state ≡ idle → Q s → Q (aof_rewrite_start cfg io s).1

module _ {cfg : Config} {P : Db → Type 0} {Q : Server → Type 0} (keeps : Keeps cfg P Q) where
  abbrev Holds : State → Type 0
  Holds st = P st.db × Q st.aof

  abbrev KeptBy : Handler → Type 0
  KeptBy h =
      (io : Io) (argv : List Bytes) (st : State) (resp : RespBuf)
      → Holds st
      → Holds (h cfg io argv st resp).0

  finish_write-Holds :
      (io : Io) (r : LogRecord) (error : Bytes) (result : Status × Db) (st : State) (resp : RespBuf)
      → P result.1
      → Q st.aof
      → Holds (finish_write cfg io r error result st resp).0
  unfolding finish_write
  finish_write-Holds io r error (failure, db) st resp p q = (p, q)
  finish_write-Holds io r error (success, db) st resp p q =
      (p, keeps.append io.written io.realloc_ok io.flushed r st.aof q)

  setex_for-Holds : (t : Option ℤ) → KeptBy (setex_for t)
  unfolding setex_for
  setex_for-Holds none io argv st resp h = h
  setex_for-Holds (some t) io argv st resp (p, q) =
      finish_write-Holds io _ _ _ st resp
        (keeps.setex io.mem_key io.mem_ttl st.db (arg 1 argv) (arg 3 argv)
          (expire_time st.now_realtime_ms t) p)
        q

  expire_for-Holds : (t : Option ℤ) → KeptBy (expire_for t)
  unfolding expire_for
  expire_for-Holds none io argv st resp h = h
  expire_for-Holds (some t) io argv st resp (p, q) =
      finish_write-Holds io _ _ _ st resp
        (keeps.key_expire io.mem_ttl st.db (arg 1 argv) (expire_time st.now_realtime_ms t) p) q

  rewrite_in-Holds :
      (state : RewriteState) (io : Io) (argv : List Bytes) (st : State) (resp : RespBuf)
      → st.aof.rewrite_state ≡ state
      → Holds st
      → Holds (rewrite_in state cfg io argv st resp).0
  unfolding rewrite_in
  rewrite_in-Holds idle io argv st resp e (p, q) = (p, keeps.start io.start st.aof e q)
  rewrite_in-Holds active io argv st resp e h = h
  rewrite_in-Holds aborting io argv st resp e h = h

  command_table-KeptBy : All (λ (e : CommandEntry). KeptBy e.proc) command_table
  unfolding command_table cmd_get cmd_ttl cmd_set cmd_setex cmd_expire cmd_persist cmd_del cmd_keys
      cmd_info cmd_bgrewriteaof
  command_table-KeptBy = (
    λ io argv st resp (p, q). (keeps.get st.db (arg 1 argv) st.now_realtime_ms p, q),
    (
      λ io argv st resp (p, q). (keeps.get_ttl st.db (arg 1 argv) st.now_realtime_ms p, q),
      (
        λ io argv st resp (p, q).
            finish_write-Holds io _ _ _ st resp
              (keeps.set io.mem_key st.db (arg 1 argv) (arg 2 argv) p) q,
        (
          λ io argv. setex_for-Holds (parse_seconds (arg 2 argv)) io argv,
          (
            λ io argv. expire_for-Holds (parse_seconds (arg 2 argv)) io argv,
            (
              λ io argv st resp (p, q).
                  finish_write-Holds io _ _ _ st resp (keeps.persist st.db (arg 1 argv) p) q,
              (
                λ io argv st resp (p, q).
                    finish_write-Holds io _ _ _ st resp (keeps.del st.db (arg 1 argv) p) q,
                (
                  λ io argv st resp h. h,
                  (
                    λ io argv st resp h. h,
                    (
                      λ io argv st resp h.
                          rewrite_in-Holds st.aof.rewrite_state io argv st resp refl h,
                      tt,
                    ),
                  ),
                ),
              ),
            ),
          ),
        ),
      ),
    ),
  )

  dispatch-Holds :
      (row : Option CommandEntry) → Whenever (λ e. KeptBy e.proc) row → KeptBy (dispatch row)
  unfolding dispatch Whenever
  dispatch-Holds none k io argv st resp h = h
  dispatch-Holds (some e) k io argv st resp h =
      elim (Bool-cases (wrong_arity e.arity (length argv))) [
        | inl wrong ↦ rw wrong h
        | inr right ↦ rw right (k io argv st resp h)
      ]

  execute_words-Holds : KeptBy execute_words
  unfolding execute_words
  execute_words-Holds io [] st resp h = h
  execute_words-Holds io (name ∷ words) st resp h =
      dispatch-Holds (lookup_command name command_table)
        (lookup_command-Whenever (λ e. KeptBy e.proc) name command_table command_table-KeptBy) io
        (name ∷ words) st resp h

  -- Whatever a command is and whatever fails in it, it keeps what the operations keep.
  pub command_execute-Keeps :
      (io : Io) (payload : Bytes) (out_cap : ℕ) (st : State)
      → P st.db
      → Q st.aof
      → P (command_execute cfg io payload out_cap st).0.db
        × Q (command_execute cfg io payload out_cap st).0.aof
  unfolding command_execute
  command_execute-Keeps io payload out_cap st p q =
      execute_words-Holds io (tokenize_command (c_str payload) max_tokens) st
        (record { cap = out_cap; out = [] }) (p, q)
