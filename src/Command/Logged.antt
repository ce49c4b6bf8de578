-- ===== src/Command/Logged.antt =====
-- src/command.c: the store after a command against the log after it.
pub mod Writes
pub mod Execute
use bytekv.Prelude.{
  ℕ, zero, suc, ◌+◌, ◌*◌, ◌^◌, ◌≤◌, ◌<◌, ◌≡◌, refl, ◌∙◌, sym, ap, ◌⊎◌, inl, inr, Bool, true, false,
  Bool-cases, Option-cases, Option, none, some, List, [], ◌∷◌, ◌++◌, arith, if◌then◌else◌, length,
  All, get_or, not, ◌||◌, subst,
}
use bytekv.Prelude.Bytes.{Bytes, IsText, str_eq, str_eq_iff}
use bytekv.Prelude.Int.{
  ℤ, pos, negsuc, ◌+ℤ◌, ◌-ℤ◌, ltb_ℤ, ◌<ℤ◌, ◌≤ℤ◌, IsI64, from_u64, to_u64, to_u64-lt,
}
use bytekv.Prelude.Text.{codes}
use bytekv.Ht
use bytekv.Ht.{Status, success, failure}
use bytekv.Db.{Db, db_get, db_get_ttl, db_set, db_setex, db_del, db_persist, db_key_expire}
use bytekv.Db.Model.{Item, Keys, IsValid, view, Models, put, expiry}
use bytekv.Db.Writes.{
  db_del-Models, db_set-Models, db_setex-Models, db_setex_not_positive, db_persist-Models,
  db_key_expire-Models, db_key_expire_refused,
}
use bytekv.Db.Reads.{stale, without_stale, db_get-Models, db_get_ttl-Models}
use bytekv.Aof.{
  set, del, setex, expire, persist, LogRecord, IsLoggable, encode, opcode_byte, record_max,
  header_size, body_fixed,
}
use bytekv.Aof.Recovery.{replay_op}
use bytekv.Aof.Writer.{
  Config, Server, RewriteState, idle, active, aborting, all_written, aof_append,
}
use bytekv.Aof.Writer.Append.{aof_append_log}
use bytekv.Aof.Writer.Rewrite.{aof_rewrite_start, aof_rewrite_record_failure}
use bytekv.Command.Tokens.{IsWord}
use bytekv.Command.Reply.{RespBuf}
use bytekv.Command.Handlers.{
  State, Io, Handler, arg, log_command, finish_write, expire_time, cmd_get, cmd_ttl, cmd_set,
  setex_for, cmd_setex, expire_for, cmd_expire, cmd_persist, cmd_del, cmd_keys, cmd_info,
  rewrite_in, cmd_bgrewriteaof,
}

-- all the words together
abbrev pub total : List Bytes → ℕ
total [] = 0
total (w ∷ ws) = length w + total ws

-- what a command needs to be logged whatever it is: a valid store, an enabled log that takes what is
-- written, memory, and words that fit a record
pub record Ready (cfg : Config) (io : Io) (argv : List Bytes) (st : State) : Type 0 where
  pub valid : IsValid st.db
  pub enabled : cfg.aof_enabled ≡ true
  pub written : io.written ≡ all_written
  pub mem_key : io.mem_key ≡ true
  pub mem_ttl : io.mem_ttl ≡ true
  pub words : All IsWord argv
  pub room : header_size + body_fixed + total argv ≤ record_max

-- The log is as it was, or a rewrite is started, or fails to start, on the store as it is.
abbrev pub IsQuiet : Config → Io → State → State → Type 0
IsQuiet cfg io st st' =
    (st'.aof ≡ st.aof)
    ⊎ ((st.aof.rewrite_state ≡ idle)
        × (st'.aof ≡ (aof_rewrite_start cfg io.start st.aof).1)
        × (st'.db ≡ st.db))

-- The log has the same records, and every key is as it was, but for one that was past its expiry and is
-- dropped.
pub record Unlogged (cfg : Config) (io : Io) (st st' : State) : Type 0 where
  pub file : st'.aof.aof_file ≡ st.aof.aof_file
  pub quiet : IsQuiet cfg io st st'
  pub keys :
      (q : Bytes)
      → (view st'.db q ≡ view st.db q)
        ⊎ ((stale st.now_realtime_ms (view st.db q) ≡ true) × (view st'.db q ≡ none))

-- The time of a record, where it is positive, is the expiry that the key has.
abbrev pub IsTimed : LogRecord → Db → Type 0
IsTimed r db = (r.expire_at ≤ℤ pos 0) ⊎ (expiry (view db r.key) ≡ some r.expire_at)

-- The log has one more record, and the operation of that record takes the old store to the new one.
pub record Logged (cfg : Config) (io : Io) (st st' : State) : Type 0 where
  pub entry : LogRecord
  pub loggable : IsLoggable entry
  pub file : st'.aof.aof_file ≡ st.aof.aof_file ++ encode entry
  pub replays :
      replay_op io.mem_key io.mem_ttl
        (opcode_byte entry.op)
        entry.key
        entry.value
        entry.expire_at
        st.db
      ≡ (success, st'.db)
  pub timed : IsTimed entry st'.db
  pub appended : st'.aof ≡ (aof_append cfg all_written io.realloc_ok io.flushed entry st.aof).1

unfoldable pub Outcome : Config → Io → State → State → Type 0
Outcome cfg io st st' = IsValid st'.db × (Unlogged cfg io st st' ⊎ Logged cfg io st st')

-- what holds of every handler
pub IsDurable : Handler → Type 0
IsDurable h =
    (cfg : Config) (io : Io) (argv : List Bytes) (st : State) (resp : RespBuf)
    → Ready cfg io argv st
    → Outcome cfg io st (h cfg io argv st resp).0

pub arg-IsText : (i : ℕ) (argv : List Bytes) → All IsWord argv → IsText (arg i argv)
unfolding IsWord
arg-IsText i [] h = tt
arg-IsText zero (w ∷ ws) ((some_bytes, plain, text), h) = text
arg-IsText (suc i) (w ∷ ws) (p, h) = arg-IsText i ws h

pub arg-total : (i : ℕ) (argv : List Bytes) → length (arg i argv) ≤ total argv
arg-total i [] = omega arith
arg-total zero (w ∷ ws) = omega arith
arg-total (suc i) (w ∷ ws) = omega (arith, arg-total i ws)

pub two_args-total :
    (j : ℕ) (argv : List Bytes) → length (arg 1 argv) + length (arg (suc (suc j)) argv) ≤ total argv
two_args-total j [] = omega arith
two_args-total j (name ∷ []) = omega arith
two_args-total j (name ∷ key ∷ ws) = omega (arith, arg-total j ws)

pub finish_write-Outcome :
    (cfg : Config) (io : Io) (argv : List Bytes) (r : LogRecord) (error : Bytes) (res : Status × Db)
    (st : State) (resp : RespBuf)
    → Ready cfg io argv st
    → IsLoggable r
    → replay_op io.mem_key io.mem_ttl (opcode_byte r.op) r.key r.value r.expire_at st.db ≡ res
    → IsValid res.1
    → (res.0 ≡ failure → (q : Bytes) → view res.1 q ≡ view st.db q)
    → (res.0 ≡ success → IsTimed r res.1)
    → Outcome cfg io st (finish_write cfg io r error res st resp).0
unfolding finish_write log_command Outcome
finish_write-Outcome cfg io argv r error (failure, db) st resp ready loggable replays valid same
      timed =
    (valid, inl (record { file = refl; quiet = inl refl; keys = λ q. inl (same refl q) }))
finish_write-Outcome cfg io argv r error (success, db) st resp ready loggable replays valid same
      timed =
    let (file, status, dirty) =
      aof_append_log cfg io.realloc_ok io.flushed r st.aof loggable ready.enabled in
    let file' : (aof_append cfg io.written io.realloc_ok io.flushed r st.aof).1.aof_file
        ≡ st.aof.aof_file ++ encode r =
      ap (λ w. (aof_append cfg w io.realloc_ok io.flushed r st.aof).1.aof_file) ready.written
      ∙ file in
    (
      valid,
      inr (record {
        entry = r;
        loggable = loggable;
        file = file';
        replays = replays;
        timed = timed refl;
        appended = ap (λ w. (aof_append cfg w io.realloc_ok io.flushed r st.aof).1) ready.written;
      }),
    )

from_u64-IsI64 : (w : ℕ) → w < 2 ^ 64 → IsI64 (from_u64 w)
unfolding from_u64
from_u64-IsI64 w h = ground arith

pub expire_time-IsI64 : (now seconds : ℤ) → IsI64 (expire_time now seconds)
unfolding expire_time
expire_time-IsI64 now (pos n) =
    from_u64-IsI64 (to_u64 (now +ℤ pos (n * 1000))) (to_u64-lt (now +ℤ pos (n * 1000)))
expire_time-IsI64 now (negsuc n) =
    from_u64-IsI64 (to_u64 (now -ℤ pos (suc n * 1000))) (to_u64-lt (now -ℤ pos (suc n * 1000)))

without_stale-keys :
    (now : ℤ) (m : Keys) (k q : Bytes) (item : Option Item)
    → item ≡ without_stale now m k q
    → (item ≡ m q) ⊎ ((stale now (m q) ≡ true) × (item ≡ none))
without_stale-keys now m k q item e = ground (arith, str_eq_iff k q, e)

pub cmd_get-IsDurable : IsDurable cmd_get
unfolding cmd_get Outcome IsDurable
cmd_get-IsDurable cfg io argv st resp ready =
    let (m, e) = db_get-Models ready.valid (arg 1 argv) st.now_realtime_ms in
    (
      m.0,
      inl (record {
        file = refl;
        quiet = inl refl;
        keys = λ q. without_stale-keys st.now_realtime_ms (view st.db) (arg 1 argv) q _ (m.1 q);
      }),
    )

pub cmd_ttl-IsDurable : IsDurable cmd_ttl
unfolding cmd_ttl Outcome IsDurable
cmd_ttl-IsDurable cfg io argv st resp ready =
    let (m, e) = db_get_ttl-Models ready.valid (arg 1 argv) st.now_realtime_ms in
    (
      m.0,
      inl (record {
        file = refl;
        quiet = inl refl;
        keys = λ q. without_stale-keys st.now_realtime_ms (view st.db) (arg 1 argv) q _ (m.1 q);
      }),
    )
