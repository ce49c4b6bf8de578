-- ===== src/Aof/Recovery.antt =====
-- The recovery half of src/aof.c: `aof_replay_record` and `aof_load`.
pub mod Round
pub mod Torn
pub mod Load
pub mod Stale
pub mod Any
pub mod Quarantine
use bytekv.Prelude.{
  ℕ, zero, suc, ◌+◌, ◌*◌, ◌%◌, ◌^◌, ◌≡◌, refl, Bool, true, false, not, ◌&&◌, ◌||◌, Option, none,
  some, List, [], ◌∷◌, ◌++◌, ltb, ◌==◌, if◌then◌else◌, length, take, drop, get_or, min,
}
use bytekv.Prelude.Bytes.{Bytes, be_value, slice, overlay, c_str}
use bytekv.Prelude.Int.{ℤ, pos, from_u64, ltb_ℤ}
use bytekv.Ht.{Status, success, failure}
use bytekv.Db.{Db, db_set, db_del, db_setex, db_key_expire, db_persist, is_failure}
use bytekv.Crc64.{crc64}
use bytekv.Aof.{msg_max, record_max, header_size, body_fixed, file_header_size, read_file_header}

-- The `switch` on the opcode byte. `mem_key` and `mem_ttl` are the outcomes of `malloc`.
unfoldable pub replay_op : Bool → Bool → ℕ → Bytes → Bytes → ℤ → Db → Status × Db
replay_op mem_key mem_ttl opcode key val expire_at db =
    if opcode == 1
    then db_set mem_key db key val
    else if opcode == 2
    then db_del db key
    else if opcode == 3
    then db_setex mem_key mem_ttl db key val expire_at
    else if opcode == 4
    then db_key_expire mem_ttl db key expire_at
    else if opcode == 5
    then db_persist db key
    else (failure, db)

-- `none` is an access outside a buffer. The two sums of lengths are of type `uint32_t`.
unfoldable pub aof_replay_record : Bool → Bool → ℤ → Bytes → ℕ → Db → Option (Status × Db)
unfolding replay_op
aof_replay_record mem_key mem_ttl now buf body_len db =
    let opcode = get_or buf 0 0 in
    let key_len = be_value (slice 1 2 buf) in
    let val_len = be_value (slice 3 4 buf) in
    let expire_at = from_u64 (be_value (slice 7 8 buf)) in
    let key = slice body_fixed key_len buf in
    let val = slice (body_fixed + key_len) val_len buf in
    if ltb_ℤ (pos 0) expire_at && ltb_ℤ expire_at now
    then some (success, db)
    else if ltb msg_max ((key_len + val_len) % 2 ^ 32)
        || not ((body_fixed + key_len + val_len) % 2 ^ 32 == body_len)
    then some (failure, db)
    else if ltb msg_max key_len
        || (ltb msg_max val_len || ltb (length buf) (body_fixed + key_len + val_len))
    then none
    else some (replay_op mem_key mem_ttl opcode (c_str key) (c_str val) expire_at db)

-- How the loop of `aof_load` ends: the store and the offset `valid_end`; or an access outside the
-- buffer; or, in the model alone, the end of the fuel.
pub data Ended : Type 0 where
  stopped : Db → ℕ → Ended
  overrun : Ended
  out_of_fuel : Ended

-- What the environment gives: whether `open` and `ftruncate` succeed; and the readings of the clock and the
-- outcomes of `malloc`, record by record.
pub record Env : Type 0 where
  pub realtime_ms : ℕ → ℤ
  pub mem_key : ℕ → Bool
  pub mem_ttl : ℕ → Bool
  pub opened : Bool
  pub truncated : Bool

-- The end of a round, after the replay: `go` is the rest of the loop.
unfoldable pub resume :
    (Bytes → Bytes → ℕ → Db → Ended) → Bytes → Bytes → ℕ → ℕ → Option (Status × Db) → Ended
resume go rest buf valid_end size none = overrun
resume go rest buf valid_end size (some (failure, db)) = stopped db valid_end
resume go rest buf valid_end size (some (success, db)) = go rest buf (valid_end + size) db

-- The loop of `aof_load`: `records` replayed so far, `rest` of the file not read yet, the buffer
-- `record` (here `buf`), and `valid_end`.
unfoldable pub load_loop : ℕ → Env → ℕ → Bytes → Bytes → ℕ → Db → Ended
load_loop zero env records rest buf valid_end db = out_of_fuel
load_loop (suc fuel) env records rest buf₀ valid_end db =
    let buf₁ = overlay 0 (take header_size rest) buf₀ in
    let body_len = be_value (slice 8 4 buf₁) in
    let body = take body_len (drop header_size rest) in
    let buf₂ = overlay header_size body buf₁ in
    let crc_stored = be_value (slice 0 8 buf₂) in
    let crc_computed = crc64 0 (slice 8 (body_len + 4) buf₂) in
    let replayed =
      aof_replay_record (env.mem_key records) (env.mem_ttl records) (env.realtime_ms records)
        (drop header_size buf₂) body_len db in
    if ltb (length rest) header_size
    then stopped db valid_end
    else if ltb record_max (header_size + length body)
    then overrun
    else if ltb (length body) body_len
    then stopped db valid_end
    else if not (crc_stored == crc_computed)
    then stopped db valid_end
    else resume (load_loop fuel env (records + 1)) (drop (header_size + body_len) rest) buf₂
        valid_end (header_size + body_len) replayed

-- `aof_load` on the contents of the file, where no read fails: the return value -1; or the store and
-- the file afterwards; or a fault; or the end of the fuel, which cannot be.
pub data Loaded : Type 0 where
  rejected : Loaded
  loaded : Db → Bytes → Loaded
  faulted : Loaded
  unfinished : Loaded

-- `ftruncate`, after the loop; where it fails, the file is as it was, and the return value is 0 all the
-- same
unfoldable pub close_file : Bool → Bytes → Ended → Loaded
close_file truncated file (stopped db valid_end) =
    loaded db (if truncated then take valid_end file else file)
close_file truncated file overrun = faulted
close_file truncated file out_of_fuel = unfinished

unfoldable pub aof_load : Env → Bytes → Bytes → Db → Loaded
unfolding close_file
aof_load env file buf db =
    if length file == 0
    then loaded db file
    else if not env.opened
    then rejected
    else if not (read_file_header file)
    then rejected
    else close_file env.truncated file
        (load_loop (suc (length file)) env 0 (drop file_header_size file) buf file_header_size db)
