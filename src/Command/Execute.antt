-- ===== src/Command/Execute.antt =====
-- The table of commands of src/command.c, and `command_execute`.
use bytekv.Prelude.{
  ℕ, suc, Bool, not, ◌&&◌, Option, none, some, List, [], ◌∷◌, ltb, ◌==◌, if◌then◌else◌, length, All,
  Bool-cases, inl, inr,
}
use bytekv.Prelude.Bytes.{Bytes, c_str}
use bytekv.Prelude.Int.{ℤ, pos, negsuc}
use bytekv.Prelude.Text.{codes, str_case_eq}
use bytekv.Aof.Writer.{Config}
use bytekv.Command.Tokens.{tokenize_command, max_tokens}
use bytekv.Command.Reply.{RespBuf, resp_add}
use bytekv.Command.Handlers.{
  State, Io, Handler, cmd_get, cmd_ttl, cmd_set, cmd_setex, cmd_expire, cmd_persist, cmd_del,
  cmd_keys, cmd_info, cmd_bgrewriteaof,
}

-- `command_entry_t`; nothing reads its `aof_op`
pub record CommandEntry : Type 0 where
  pub name : Bytes
  pub proc : Handler
  pub arity : ℤ

abbrev pub entry : Bytes → Handler → ℤ → CommandEntry
entry name proc arity = record { name = name; proc = proc; arity = arity }

unfoldable pub command_table : List CommandEntry
command_table =
    entry (codes "GET") cmd_get (pos 2)
    ∷ entry (codes "TTL") cmd_ttl (pos 2)
    ∷ entry (codes "SET") cmd_set (negsuc 2)
    ∷ entry (codes "SETEX") cmd_setex (pos 4)
    ∷ entry (codes "EXPIRE") cmd_expire (pos 3)
    ∷ entry (codes "PERSIST") cmd_persist (pos 2)
    ∷ entry (codes "DEL") cmd_del (pos 2)
    ∷ entry (codes "KEYS") cmd_keys (pos 1)
    ∷ entry (codes "INFO") cmd_info (pos 1)
    ∷ entry (codes "BGREWRITEAOF") cmd_bgrewriteaof (pos 1)
    ∷ []

unfoldable pub lookup_command : Bytes → List CommandEntry → Option CommandEntry
lookup_command name [] = none
lookup_command name (e ∷ table) =
    let rest = lookup_command name table in if str_case_eq name e.name then some e else rest

-- what holds of every row holds of the row that a lookup finds
unfoldable pub Whenever : (CommandEntry → Type 0) → Option CommandEntry → Type 0
Whenever P none = Unit {0}
Whenever P (some e) = P e

pub lookup_command-Whenever :
    (P : CommandEntry → Type 0) (name : Bytes) (table : List CommandEntry)
    → All P table
    → Whenever P (lookup_command name table)
unfolding lookup_command Whenever
lookup_command-Whenever P name [] h = tt
lookup_command-Whenever P name (x ∷ table) (p, h) = elim (Bool-cases (str_case_eq name x.name)) [
  | inl same ↦ rw same p
  | inr other ↦ rw other (lookup_command-Whenever P name table h)
]

-- an arity below zero is a least number of arguments
abbrev pub wrong_arity : ℤ → ℕ → Bool
wrong_arity (pos n) argc = ltb 0 n && not (argc == n)
wrong_arity (negsuc n) argc = ltb argc (suc n)

-- `proc(&ctx)`, unless there is no such command or the number of arguments is wrong
unfoldable pub dispatch : Option CommandEntry → Handler
dispatch none cfg io argv st resp = (st, resp_add resp (codes "-ERR unknown command\n"))
dispatch (some e) cfg io argv st resp =
    if wrong_arity e.arity (length argv)
    then (st, resp_add resp (codes "-ERR wrong number of arguments\n"))
    else e.proc cfg io argv st resp

unfoldable pub execute_words : Handler
unfolding lookup_command dispatch command_table
execute_words cfg io [] st resp = (st, resp_add resp (codes "-ERR empty command\n"))
execute_words cfg io (name ∷ words) st resp =
    dispatch (lookup_command name command_table) cfg io (name ∷ words) st resp

-- The server and the reply, of at most `out_cap` bytes. The payload has at most `MSG_MAX` bytes.
unfoldable pub command_execute : Config → Io → Bytes → ℕ → State → State × RespBuf
unfolding execute_words
command_execute cfg io payload out_cap st =
    execute_words cfg io (tokenize_command (c_str payload) max_tokens) st
      (record { cap = out_cap; out = [] })
