-- ===== src/Db.antt =====
-- src/db.h and src/db.c: the keyspace and the expiry table, and the operations on both.
pub mod Free
pub mod Model
pub mod Writes
pub mod Keeps
pub mod Reads
pub mod Replies
pub mod Sweep
use bytekv.Prelude.{Bool, true, false, not, ◌||◌, Option, none, some, if◌then◌else◌}
use bytekv.Prelude.Bytes.{Bytes}
use bytekv.Prelude.Int.{ℤ, pos, negsuc, ltb_ℤ, ◌-ℤ◌, quot_ℤ}
use bytekv.Ht
use bytekv.Ht.{Ht, Status, success, failure}

pub record Db : Type 0 where
  pub keyspace : Ht Bytes
  pub expires : Ht ℤ
  pub start_ms : ℤ

unfoldable pub db_create : ℤ → Db
db_create now_ms = record { keyspace = Ht.create; expires = Ht.create; start_ms = now_ms }

abbrev pub is_failure : Status → Bool
is_failure success = false
is_failure failure = true

-- Both tables are told; the status is that of the keyspace.
unfoldable pub db_del : Db → Bytes → Status × Db
db_del db key =
    let (_, expires) = Ht.del db.expires key in
    let (status, keyspace) = Ht.del db.keyspace key in
    (status, record db { keyspace = keyspace; expires = expires })

-- `expire_at && now_ms > *expire_at`
unfoldable pub is_expired : Db → Bytes → ℤ → Bool
is_expired db key now_ms = elim (Ht.find db.expires key) [
  | none ↦ false
  | some expire_at ↦ ltb_ℤ expire_at now_ms
]

-- whether the key was removed, and the store after it
unfoldable pub db_expire_clean : Db → Bytes → ℤ → Bool × Db
unfolding is_expired
db_expire_clean db key now_ms =
    if is_expired db key now_ms then (true, (db_del db key).1) else (false, db)

unfoldable pub db_get : Db → Bytes → ℤ → Option Bytes × Db
db_get db key now_ms =
    let (cleaned, db') = db_expire_clean db key now_ms in
    if cleaned then (none, db') else (Ht.find db'.keyspace key, db')

-- `mem` is whether `malloc` finds memory for a new entry.
unfoldable pub db_set : Bool → Db → Bytes → Bytes → Status × Db
db_set mem db key value =
    let (status, keyspace) = Ht.set_val mem db.keyspace key value in
    (status, record db { keyspace = keyspace })

-- `mem_key` and `mem_ttl` are the outcomes of `malloc` in the keyspace and in the expiry table.
unfoldable pub db_setex : Bool → Bool → Db → Bytes → Bytes → ℤ → Status × Db
db_setex mem_key mem_ttl db key value expire_at =
    let (stored, keyspace) = Ht.set_val mem_key db.keyspace key value in
    let (timed, expires) = Ht.set_val mem_ttl db.expires key expire_at in
    if is_failure stored
    then (failure, record db { keyspace = keyspace })
    else if ltb_ℤ (pos 0) expire_at
    then (if is_failure timed
        then (failure, record db { keyspace = (Ht.del keyspace key).1; expires = expires })
        else (success, record db { keyspace = keyspace; expires = expires }))
    else (success, record db { keyspace = keyspace })

unfoldable pub db_persist : Db → Bytes → Status × Db
db_persist db key =
    let (status, expires) = Ht.del db.expires key in (status, record db { expires = expires })

unfoldable pub db_key_expire : Bool → Db → Bytes → ℤ → Status × Db
db_key_expire mem db key expire_at =
    if not (ltb_ℤ (pos 0) expire_at) || not (Ht.exists db.keyspace key)
    then (failure, db)
    else let (status, expires) = Ht.set_val mem db.expires key expire_at in
      (status, record db { expires = expires })

-- -2 and -1 stand for a missing key and for a key without an expiry.
unfoldable pub db_get_ttl : Db → Bytes → ℤ → ℤ × Db
db_get_ttl db key now_ms =
    let (_, db') = db_expire_clean db key now_ms in
    if not (Ht.exists db'.keyspace key) then (negsuc 1, db') else elim (Ht.find db'.expires key) [
      | none ↦ (negsuc 0, db')
      | some expire_at ↦ (quot_ℤ (expire_at -ℤ now_ms) 1000, db')
    ]
