-- ===== src/Command/Bounds.antt =====
-- src/command.c: no reply is longer than the buffer it is written to.
use bytekv.Prelude.{
  ℕ, zero, suc, ◌+◌, ◌≤◌, refl, inl, inr, Bool, true, false, Bool-cases, Option, none, some, List,
  [], ◌∷◌, arith, length, All, flatten,
}
use bytekv.Prelude.Bytes.{Bytes, c_str}
use bytekv.Prelude.Int.{ℤ, pos, negsuc}
use bytekv.Ht.Iter.{iter_all, iter_create}
use bytekv.Ht.{Entry, Status, success, failure}
use bytekv.Db.{Db}
use bytekv.Aof.{LogRecord}
use bytekv.Aof.Writer.{Config, RewriteState, idle, active, aborting}
use bytekv.Command.Tokens.{tokenize_command, max_tokens}
use bytekv.Command.Reply.{RespBuf, InCap, resp_add-InCap, resp_addf-InCap, parse_seconds}
use bytekv.Command.Handlers.{
  State, Io, Handler, arg, finish_write, cmd_get, cmd_ttl, cmd_set, setex_for, cmd_setex,
  expire_for, cmd_expire, cmd_persist, cmd_del, keys_loop, list_keys, cmd_keys, cmd_info, info_text,
  rewrite_in, cmd_bgrewriteaof, reply_value, reply_ttl, reply_started,
}
use bytekv.Command.Execute.{
  CommandEntry, command_table, lookup_command, Whenever, lookup_command-Whenever, wrong_arity,
  dispatch, execute_words, command_execute,
}

-- what holds of every handler
IsBounded : Handler → Type 0
IsBounded h =
    (cap : ℕ) (cfg : Config) (io : Io) (argv : List Bytes) (st : State) (resp : RespBuf)
    → InCap cap resp
    → InCap cap (h cfg io argv st resp).1

reply_value-InCap :
    (cap : ℕ) (val : Option Bytes) (resp : RespBuf)
    → InCap cap resp
    → InCap cap (reply_value val resp)
reply_value-InCap cap none resp h = resp_add-InCap cap resp _ h
reply_value-InCap cap (some val) resp h = resp_addf-InCap cap resp _ h

cmd_get-IsBounded : IsBounded cmd_get
unfolding cmd_get IsBounded
cmd_get-IsBounded cap cfg io argv st resp h = reply_value-InCap cap _ resp h

reply_ttl-InCap :
    (cap : ℕ) (key : Bytes) (ttl : ℤ) (resp : RespBuf)
    → InCap cap resp
    → InCap cap (reply_ttl key ttl resp)
reply_ttl-InCap cap key (pos n) resp h = resp_addf-InCap cap resp _ h
reply_ttl-InCap cap key (negsuc zero) resp h = resp_add-InCap cap resp _ h
reply_ttl-InCap cap key (negsuc (suc zero)) resp h = resp_add-InCap cap resp _ h
reply_ttl-InCap cap key (negsuc (suc (suc n))) resp h = resp_addf-InCap cap resp _ h

cmd_ttl-IsBounded : IsBounded cmd_ttl
unfolding cmd_ttl IsBounded
cmd_ttl-IsBounded cap cfg io argv st resp h = reply_ttl-InCap cap _ _ resp h

finish_write-InCap :
    (cap : ℕ) (cfg : Config) (io : Io) (r : LogRecord) (error : Bytes) (res : Status × Db)
    (st : State) (resp : RespBuf)
    → InCap cap resp
    → InCap cap (finish_write cfg io r error res st resp).1
unfolding finish_write
finish_write-InCap cap cfg io r error (failure, db) st resp h = resp_add-InCap cap resp error h
finish_write-InCap cap cfg io r error (success, db) st resp h = resp_add-InCap cap resp _ h

cmd_set-IsBounded : IsBounded cmd_set
unfolding cmd_set IsBounded
cmd_set-IsBounded cap cfg io argv st resp h = finish_write-InCap cap cfg io _ _ _ st resp h

setex_for-IsBounded : (seconds : Option ℤ) → IsBounded (setex_for seconds)
unfolding setex_for IsBounded
setex_for-IsBounded none cap cfg io argv st resp h = resp_add-InCap cap resp _ h
setex_for-IsBounded (some t) cap cfg io argv st resp h =
    finish_write-InCap cap cfg io _ _ _ st resp h

cmd_setex-IsBounded : IsBounded cmd_setex
unfolding cmd_setex IsBounded
cmd_setex-IsBounded cap cfg io argv =
    setex_for-IsBounded (parse_seconds (arg 2 argv)) cap cfg io argv

expire_for-IsBounded : (seconds : Option ℤ) → IsBounded (expire_for seconds)
unfolding expire_for IsBounded
expire_for-IsBounded none cap cfg io argv st resp h = resp_add-InCap cap resp _ h
expire_for-IsBounded (some t) cap cfg io argv st resp h =
    finish_write-InCap cap cfg io _ _ _ st resp h

cmd_expire-IsBounded : IsBounded cmd_expire
unfolding cmd_expire IsBounded
cmd_expire-IsBounded cap cfg io argv =
    expire_for-IsBounded (parse_seconds (arg 2 argv)) cap cfg io argv

cmd_persist-IsBounded : IsBounded cmd_persist
unfolding cmd_persist IsBounded
cmd_persist-IsBounded cap cfg io argv st resp h = finish_write-InCap cap cfg io _ _ _ st resp h

cmd_del-IsBounded : IsBounded cmd_del
unfolding cmd_del IsBounded
cmd_del-IsBounded cap cfg io argv st resp h = finish_write-InCap cap cfg io _ _ _ st resp h

keys_loop-InCap :
    (cap count : ℕ) (es : List (Entry Bytes)) (resp : RespBuf)
    → InCap cap resp
    → InCap cap (keys_loop count es resp)
unfolding keys_loop
keys_loop-InCap cap count [] resp h = h
keys_loop-InCap cap count (e ∷ es) resp h =
    keys_loop-InCap cap (count + 1) es _ (resp_addf-InCap cap resp _ h)

list_keys-InCap :
    (cap : ℕ) (o : Option (List (Entry Bytes))) (resp : RespBuf)
    → InCap cap resp
    → InCap cap (list_keys o resp)
list_keys-InCap cap none resp h = h
list_keys-InCap cap (some es) resp h = keys_loop-InCap cap 0 es resp h

cmd_keys-IsBounded : IsBounded cmd_keys
unfolding cmd_keys IsBounded
cmd_keys-IsBounded cap cfg io argv st resp h =
    list_keys-InCap cap
      (iter_all (length (flatten st.db.keyspace.table) + 1) (iter_create st.db.keyspace)) resp h

cmd_info-IsBounded : IsBounded cmd_info
unfolding cmd_info IsBounded
cmd_info-IsBounded cap cfg io argv st resp h = resp_addf-InCap cap resp (info_text st) h

reply_started-InCap :
    (cap : ℕ) (b : Bool) (resp : RespBuf) → InCap cap resp → InCap cap (reply_started b resp)
reply_started-InCap cap true resp h = resp_add-InCap cap resp _ h
reply_started-InCap cap false resp h = resp_add-InCap cap resp _ h

rewrite_in-IsBounded : (w : RewriteState) → IsBounded (rewrite_in w)
unfolding rewrite_in IsBounded
rewrite_in-IsBounded idle cap cfg io argv st resp h = reply_started-InCap cap _ resp h
rewrite_in-IsBounded active cap cfg io argv st resp h = resp_add-InCap cap resp _ h
rewrite_in-IsBounded aborting cap cfg io argv st resp h = resp_add-InCap cap resp _ h

cmd_bgrewriteaof-IsBounded : IsBounded cmd_bgrewriteaof
unfolding cmd_bgrewriteaof IsBounded
cmd_bgrewriteaof-IsBounded cap cfg io argv st =
    rewrite_in-IsBounded st.aof.rewrite_state cap cfg io argv st

BoundedEntry : CommandEntry → Type 0
BoundedEntry e = IsBounded e.proc

table-All : All BoundedEntry command_table
unfolding command_table BoundedEntry
table-All = (
  cmd_get-IsBounded,
  (
    cmd_ttl-IsBounded,
    (
      cmd_set-IsBounded,
      (
        cmd_setex-IsBounded,
        (
          cmd_expire-IsBounded,
          (
            cmd_persist-IsBounded,
            (
              cmd_del-IsBounded,
              (cmd_keys-IsBounded, (cmd_info-IsBounded, (cmd_bgrewriteaof-IsBounded, tt))),
            ),
          ),
        ),
      ),
    ),
  ),
)

dispatch-IsBounded : (o : Option CommandEntry) → Whenever BoundedEntry o → IsBounded (dispatch o)
unfolding dispatch IsBounded Whenever BoundedEntry
dispatch-IsBounded none h cap cfg io argv st resp fits = resp_add-InCap cap resp _ fits
dispatch-IsBounded (some e) h cap cfg io argv st resp fits =
    elim (Bool-cases (wrong_arity e.arity (length argv))) [
      | inl wrong ↦ rw wrong (resp_add-InCap cap resp _ fits)
      | inr right ↦ rw right (h cap cfg io argv st resp fits)
    ]

execute_words-IsBounded : IsBounded execute_words
unfolding execute_words IsBounded
execute_words-IsBounded cap cfg io [] st resp h = resp_add-InCap cap resp _ h
execute_words-IsBounded cap cfg io (name ∷ ws) st resp h =
    dispatch-IsBounded (lookup_command name command_table)
      (lookup_command-Whenever BoundedEntry name command_table table-All) cap cfg io (name ∷ ws) st
      resp h

pub command_execute-bound :
    (cfg : Config) (io : Io) (payload : Bytes) (out_cap : ℕ) (st : State)
    → length (command_execute cfg io payload out_cap st).1.out ≤ out_cap
unfolding command_execute IsBounded
command_execute-bound cfg io payload out_cap st =
    (execute_words-IsBounded out_cap cfg io (tokenize_command (c_str payload) max_tokens) st
      (record { cap = out_cap; out = [] }) (refl, omega arith)).1
