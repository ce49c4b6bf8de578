-- ===== src/Aof/Writer/Child.antt =====
-- `aof_rewrite_child` of src/aof.c: the store as a new log.
use bytekv.Prelude.{
  ℕ, ◌+◌, Bool, true, false, Option, none, some, List, [], ◌∷◌, ◌++◌, if◌then◌else◌, length,
  flatten,
}
use bytekv.Prelude.Bytes.{Bytes}
use bytekv.Prelude.Int.{ℤ, pos, ltb_ℤ}
use bytekv.Ht
use bytekv.Ht.{Entry}
use bytekv.Ht.Iter.{iter_all, iter_create}
use bytekv.Db.{Db}
use bytekv.Aof.{LogRecord, set, setex, aof_serialize, record_max, file_header}

-- the record of an entry with the expiry, or nothing where its time is past
unfoldable pub record_at : ℤ → Entry Bytes → Option ℤ → Option LogRecord
record_at now e none = some (record { op = set; key = e.key; value = e.val; expire_at = pos 0 })
record_at now e (some t) =
    if ltb_ℤ t now
    then none
    else some (record { op = setex; key = e.key; value = e.val; expire_at = t })

-- the end of a round: the record's bytes, if it fits the buffer, and those of the later rounds
abbrev pub write_bytes : Option Bytes → Option Bytes → Option Bytes
write_bytes none rest = none
write_bytes (some bytes) none = none
write_bytes (some bytes) (some more) = some (bytes ++ more)

abbrev pub write_record : Option LogRecord → Option Bytes → Option Bytes
write_record none rest = rest
write_record (some r) rest =
    write_bytes (aof_serialize record_max r.op r.key r.value r.expire_at) rest

-- The `while` loop over the entries; `clock` is the time that the rounds read. The result is what they
-- write, or nothing where the child exits with 1.
unfoldable pub child_loop : (ℕ → ℤ) → ℕ → Db → List (Entry Bytes) → Option Bytes
unfolding record_at
child_loop clock n db [] = some []
child_loop clock n db (e ∷ es) =
    write_record (record_at (clock n) e (Ht.find db.expires e.key)) (child_loop clock (n + 1) db es)

-- the loop on what the iterator gives, and the end of the child
abbrev pub write_entries : (ℕ → ℤ) → Db → Option (List (Entry Bytes)) → Option Bytes
write_entries clock db none = none
write_entries clock db (some es) = child_loop clock 0 db es

abbrev pub finish_child : ℤ → Bool → Option Bytes → Option Bytes
finish_child created_ms io_ok none = none
finish_child created_ms false (some bytes) = none
finish_child created_ms true (some bytes) = some (file_header created_ms ++ bytes)

-- the file that a child leaves that exits with 0; `io_ok` is whether all its system calls succeed
unfoldable pub aof_rewrite_child : ℤ → (ℕ → ℤ) → Bool → Db → Option Bytes
aof_rewrite_child created_ms clock io_ok db = finish_child created_ms io_ok (
    write_entries clock db
      (iter_all (length (flatten db.keyspace.table) + 1) (iter_create db.keyspace)))
