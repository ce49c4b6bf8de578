-- ===== src/Command/Handlers.antt =====
-- The handlers of src/command.c, with their calls of src/db.c and src/aof.c.
use bytekv.Prelude.{
  ℕ, zero, suc, ◌+◌, ◌*◌, Bool, true, false, Option, none, some, List, [], ◌∷◌, ◌++◌, length,
  get_or, flatten,
}
use bytekv.Prelude.Bytes.{Bytes}
use bytekv.Prelude.Int.{ℤ, pos, negsuc, ◌+ℤ◌, ◌-ℤ◌, quot_ℤ, to_u64, from_u64}
use bytekv.Prelude.Text.{codes, decimal, decimal_ℤ}
use bytekv.Ht.{Entry, Status, success, failure}
use bytekv.Ht.Iter.{iter_all, iter_create}
use bytekv.Db.{Db, db_get, db_get_ttl, db_set, db_setex, db_key_expire, db_persist, db_del}
use bytekv.Aof.{set, del, setex, expire, persist, LogRecord}
use bytekv.Aof.Writer.{Config, Server, RewriteState, idle, active, aborting, Written, aof_append}
use bytekv.Aof.Writer.Rewrite.{StartIo, aof_rewrite_start}
use bytekv.Command.Reply.{RespBuf, resp_add, resp_addf, parse_seconds}

-- the part of `server` that commands read and write
pub record State : Type 0 where
  pub db : Db
  pub aof : Server
  pub now_realtime_ms : ℤ

-- the outcomes of the system calls that a command makes
pub record Io : Type 0 where
  pub mem_key : Bool
  pub mem_ttl : Bool
  pub written : Written
  pub realloc_ok : Bool
  pub flushed : Bool
  pub start : StartIo

-- `ctx->argv[i]`
abbrev pub arg : ℕ → List Bytes → Bytes
arg i argv = get_or argv i []

-- `aof_append(op, key, ...)`, whose status the handlers do not look at
unfoldable pub log_command : Config → Io → LogRecord → State → State
log_command cfg io r st = record st {
  aof = (aof_append cfg io.written io.realloc_ok io.flushed r st.aof).1;
}

-- the reply of a command that changes the store, and its log record
unfoldable pub finish_write :
    Config → Io → LogRecord → Bytes → Status × Db → State → RespBuf → State × RespBuf
unfolding log_command
finish_write cfg io r error (failure, db) st resp = (record st { db = db }, resp_add resp error)
finish_write cfg io r error (success, db) st resp =
    (log_command cfg io r (record st { db = db }), resp_add resp (codes "+OK\n"))

-- `server.now_realtime_ms + (seconds * 1000)`, in 64 bits
unfoldable pub expire_time : ℤ → ℤ → ℤ
expire_time now (pos seconds) = from_u64 (to_u64 (now +ℤ pos (seconds * 1000)))
expire_time now (negsuc n) = from_u64 (to_u64 (now -ℤ pos (suc n * 1000)))

-- what a handler is: the arguments, the server and the reply so far to the new server and reply
abbrev pub Handler : Type 0
Handler = Config → Io → List Bytes → State → RespBuf → State × RespBuf

abbrev pub reply_value : Option Bytes → RespBuf → RespBuf
reply_value none resp = resp_add resp (codes "-ERR key not found\n")
reply_value (some val) resp = resp_addf resp (codes "+" ++ (val ++ codes "\n"))

unfoldable pub cmd_get : Handler
cmd_get cfg io argv st resp =
    let (val, db) = db_get st.db (arg 1 argv) st.now_realtime_ms in
    (record st { db = db }, reply_value val resp)

abbrev pub reply_ttl : Bytes → ℤ → RespBuf → RespBuf
reply_ttl key (negsuc (suc zero)) resp = resp_add resp (codes "-ERR key not found\n")
reply_ttl key (negsuc zero) resp = resp_add resp (codes "-ERR key does not have TTL\n")
reply_ttl key ttl resp =
    resp_addf resp
      (codes "+ Key - " ++ (key ++ (codes "\nTTL = " ++ (decimal_ℤ ttl ++ codes "\n"))))

unfoldable pub cmd_ttl : Handler
cmd_ttl cfg io argv st resp =
    let (ttl, db) = db_get_ttl st.db (arg 1 argv) st.now_realtime_ms in
    (record st { db = db }, reply_ttl (arg 1 argv) ttl resp)

unfoldable pub cmd_set : Handler
unfolding finish_write
cmd_set cfg io argv st resp =
    let key = arg 1 argv in
    let value = arg 2 argv in
    finish_write cfg io (record { op = set; key = key; value = value; expire_at = pos 0 })
      (codes "-ERR SET COMMAND\n") (db_set io.mem_key st.db key value) st resp

-- `t` is what `parse_seconds` gives
unfoldable pub setex_for : Option ℤ → Handler
unfolding finish_write expire_time
setex_for none cfg io argv st resp = (st, resp_add resp (codes "-ERR invalid expire time\n"))
setex_for (some seconds) cfg io argv st resp =
    let key = arg 1 argv in
    let value = arg 3 argv in
    let expire_at = expire_time st.now_realtime_ms seconds in
    finish_write cfg io (record { op = setex; key = key; value = value; expire_at = expire_at })
      (codes "-ERR SETEX COMMAND\n") (db_setex io.mem_key io.mem_ttl st.db key value expire_at) st
      resp

unfoldable pub cmd_setex : Handler
unfolding setex_for
cmd_setex cfg io argv = setex_for (parse_seconds (arg 2 argv)) cfg io argv

unfoldable pub expire_for : Option ℤ → Handler
unfolding finish_write expire_time
expire_for none cfg io argv st resp = (st, resp_add resp (codes "-ERR invalid expire time\n"))
expire_for (some seconds) cfg io argv st resp =
    let key = arg 1 argv in
    let expire_at = expire_time st.now_realtime_ms seconds in
    finish_write cfg io (record { op = expire; key = key; value = []; expire_at = expire_at })
      (codes "-ERR EXPIRE COMMAND\n") (db_key_expire io.mem_ttl st.db key expire_at) st resp

unfoldable pub cmd_expire : Handler
unfolding expire_for
cmd_expire cfg io argv = expire_for (parse_seconds (arg 2 argv)) cfg io argv

unfoldable pub cmd_persist : Handler
unfolding finish_write
cmd_persist cfg io argv st resp =
    let key = arg 1 argv in
    finish_write cfg io (record { op = persist; key = key; value = []; expire_at = pos 0 })
      (codes "-ERR PERSIST COMMAND\n") (db_persist st.db key) st resp

unfoldable pub cmd_del : Handler
unfolding finish_write
cmd_del cfg io argv st resp =
    let key = arg 1 argv in
    finish_write cfg io (record { op = del; key = key; value = []; expire_at = pos 0 })
      (codes "-ERR DEL COMMAND\n") (db_del st.db key) st resp

-- the `while` loop of `cmd_keys`
unfoldable pub keys_loop : ℕ → List (Entry Bytes) → RespBuf → RespBuf
keys_loop count [] resp = resp
keys_loop count (e ∷ es) resp =
    keys_loop (count + 1) es
      (resp_addf resp (decimal (count + 1) ++ (codes ") " ++ (e.key ++ codes "\n"))))

abbrev pub list_keys : Option (List (Entry Bytes)) → RespBuf → RespBuf
list_keys none resp = resp
list_keys (some es) resp = keys_loop 0 es resp

unfoldable pub cmd_keys : Handler
unfolding keys_loop
cmd_keys cfg io argv st resp =
    let entries =
      iter_all (length (flatten st.db.keyspace.table) + 1) (iter_create st.db.keyspace) in
    (st, list_keys entries resp)

abbrev pub state_name : RewriteState → Bytes
state_name idle = codes "idle"
state_name active = codes "active"
state_name aborting = codes "aborting"

abbrev pub info_text : State → Bytes
info_text st =
    let uptime_s = quot_ℤ (pos st.aof.now_ms -ℤ st.db.start_ms) 1000 in
    codes "Uptime: "
    ++ (decimal_ℤ uptime_s
        ++ (codes " seconds\nDB Size: "
            ++ (decimal st.db.keyspace.size
                ++ (codes "\nDB Keys Used: "
                    ++ (decimal st.db.keyspace.used
                        ++ (codes "\nAOF Writes: "
                            ++ (decimal st.aof.total_writes
                                ++ (codes "\nAOF Fsyncs: "
                                    ++ (decimal st.aof.total_fsyncs
                                        ++ (codes "\nAOF Rewrite State: "
                                            ++ (state_name st.aof.rewrite_state
                                                ++ (codes "\nAOF Rewrites Completed: "
                                                    ++ (decimal st.aof.rewrites_completed
                                                        ++ (codes "\nAOF Rewrites Failed: "
                                                            ++ (decimal st.aof.rewrites_failed
                                                            ++ (codes
                                                            "\nAOF Last Rewrite Duration: "
                                                            ++ (decimal
                                                            st.aof.last_rewrite_duration_ms
                                                            ++ codes " ms\n")))))))))))))))))

unfoldable pub cmd_info : Handler
cmd_info cfg io argv st resp = (st, resp_addf resp (info_text st))

abbrev pub reply_started : Bool → RespBuf → RespBuf
reply_started true resp = resp_add resp (codes "+OK background rewrite started\n")
reply_started false resp = resp_add resp (codes "-ERR failed to start rewrite\n")

unfoldable pub rewrite_in : RewriteState → Handler
rewrite_in idle cfg io argv st resp =
    let (started, aof) = aof_rewrite_start cfg io.start st.aof in
    (record st { aof = aof }, reply_started started resp)
rewrite_in _ cfg io argv st resp = (st, resp_add resp (codes "-ERR rewrite already in progress\n"))

unfoldable pub cmd_bgrewriteaof : Handler
unfolding rewrite_in
cmd_bgrewriteaof cfg io argv st = rewrite_in st.aof.rewrite_state cfg io argv st
