-- ===== src/Server/Safe.antt =====
-- What stays true of the whole server while `el_run` goes on.
use bytekv.Prelude.{ℕ, ◌≡◌, false, get_or}
use bytekv.Prelude.Bytes.{Bytes}
use bytekv.Db.Model.{IsValid}
use bytekv.Db.Reads.{db_get-Models, db_get_ttl-Models}
use bytekv.Db.Writes.{db_del-Models, db_persist-Models}
use bytekv.Db.Keeps.{db_set-IsValid, db_setex-IsValid, db_key_expire-IsValid}
use bytekv.Aof.{msg_max}
use bytekv.Aof.Writer.{Config}
use bytekv.Aof.Writer.Diff.{IsSound}
use bytekv.Aof.Writer.Append.{aof_append-IsSound}
use bytekv.Aof.Writer.Sound.{aof_rewrite_start-IsSound}
use bytekv.Command.Handlers.{State, Io}
use bytekv.Command.Execute.{command_execute}
use bytekv.Command.Keeps.{Keeps, command_execute-Keeps}
use bytekv.Networking.{Conn}
use bytekv.Networking.Bounds.{IsWithin}
use bytekv.Networking.Clients.{Clients, blank}
use bytekv.Networking.Reachable.{IsCounted}
use bytekv.Server.Loop.{System}

-- A connection's buffers are within their sizes, and only one that is in use has handlers.
abbrev pub IsProper : Conn → Type 0
IsProper c = IsWithin c × (c.active ≡ false → (c.reads ≡ false) × (c.writes ≡ false))

-- the connections of a server
pub record AreSafe (s : Clients) : Type 0 where
  pub counted : IsCounted s
  pub proper : (i : ℕ) → IsProper (get_or s.table i blank)

-- The store satisfies its invariant, the diff buffer is there exactly while a rewrite is active and
-- within its capacity, `clients_count` is the number of connections in use, and each connection is
-- proper.
pub record IsSafe (s : System) : Type 0 where
  pub db : IsValid s.st.db
  pub log : IsSound s.st.aof
  pub clients : AreSafe s.clients

-- the store and the log, under every command
pub db-Keeps : (cfg : Config) → Keeps cfg IsValid IsSound
db-Keeps cfg = record {
  get = λ db key now valid. (db_get-Models valid key now).0.0;
  get_ttl = λ db key now valid. (db_get_ttl-Models valid key now).0.0;
  set = λ mem db key value valid. db_set-IsValid valid key mem value;
  setex =
      λ mem_key mem_ttl db key value t valid. db_setex-IsValid valid key mem_key mem_ttl value t;
  key_expire = λ mem db key t valid. db_key_expire-IsValid valid key mem t;
  persist = λ db key valid. (db_persist-Models valid key).0.0;
  del = λ db key valid. (db_del-Models valid key).0.0;
  append = λ written ok flushed r s sound. aof_append-IsSound cfg written ok flushed r s sound;
  start = λ io s at_rest sound. aof_rewrite_start-IsSound cfg io s sound;
}

abbrev pub StSafe : State → Type 0
StSafe st = IsValid st.db × IsSound st.aof

pub command_execute-StSafe :
    (cfg : Config) (io : Io) (payload : Bytes) (st : State)
    → StSafe st
    → StSafe (command_execute cfg io payload msg_max st).0
command_execute-StSafe cfg io payload st (valid, sound) =
    command_execute-Keeps (db-Keeps cfg) io payload msg_max st valid sound
