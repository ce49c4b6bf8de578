-- ===== src/Aof/Recovery/Stale.antt =====
-- `aof_load` of src/aof.c on logs with records whose time is past.
use mathlib.Core.List.{append-nil}
use bytekv.Prelude.{
  ◌≡◌, refl, sym, ap, inl, ◌∙◌, Bool, true, false, ◌&&◌, none, some, [], ◌∷◌, ◌++◌, arith,
  if◌then◌else◌, if-both,
}
use bytekv.Prelude.Bytes.{Bytes}
use bytekv.Prelude.Int.{ℤ, pos, ltb_ℤ, ◌<ℤ◌}
use bytekv.Ht.{success, failure}
use bytekv.Ht
use bytekv.Db.{Db, db_get, db_set, db_del}
use bytekv.Db.Model.{IsValid, view}
use bytekv.Db.Writes.{db_del-Models, db_set-Models}
use bytekv.Db.Replies.{get-set}
use bytekv.Aof.{LogRecord, IsLoggable, encode, set, setex, expire, del}
use bytekv.Aof.Recovery.{Env, aof_load, loaded, replay_op}
use bytekv.Aof.Recovery.Round.{replay}
use bytekv.Aof.Recovery.Torn.{replay_at, replay_all, replay_all_step}
use bytekv.Aof.Recovery.Load.{log_file, aof_load-torn, aof_load_failed_record}

-- the records of SETEX, DEL, SET and EXPIRE
abbrev pub setex_record : Bytes → Bytes → ℤ → LogRecord
setex_record k v t = record { op = setex; key = k; value = v; expire_at = t }

abbrev pub del_record : Bytes → LogRecord
del_record k = record { op = del; key = k; value = []; expire_at = pos 0 }

abbrev pub set_record : Bytes → Bytes → LogRecord
set_record k v = record { op = set; key = k; value = v; expire_at = pos 0 }

abbrev pub expire_record : Bytes → ℤ → LogRecord
expire_record k t = record { op = expire; key = k; value = []; expire_at = t }

-- a key that is not in the store is not in the keyspace
absent_key : (db : Db) (k : Bytes) → view db k ≡ none → Ht.exists db.keyspace k ≡ false
unfolding view Ht.exists
absent_key db k missing = ground arith

-- DEL of a key that is not there fails.
pub db_del_missing :
    {db : Db} (valid : IsValid db) (k : Bytes) → view db k ≡ none → (db_del db k).0 ≡ failure
unfolding view
db_del_missing {db} valid k missing =
    let absent : Ht.exists db.keyspace k ≡ false = absent_key db k missing in
    (db_del-Models valid k).1 ∙ rw absent refl

pub replay_stale :
    (mem_key mem_ttl : Bool) (now : ℤ) (r : LogRecord) (db : Db)
    → pos 0 <ℤ r.expire_at
    → r.expire_at <ℤ now
    → replay mem_key mem_ttl now r db ≡ (success, db)
unfolding replay
replay_stale mem_key mem_ttl now r db positive past =
    let e : (ltb_ℤ (pos 0) r.expire_at && ltb_ℤ r.expire_at now) ≡ true = ground arith in rw e

pub replay_del :
    (mem_key mem_ttl : Bool) (now : ℤ) (k : Bytes) (db : Db)
    → replay mem_key mem_ttl now (del_record k) db ≡ db_del db k
unfolding replay replay_op
replay_del mem_key mem_ttl now k db = refl

pub replay_set :
    (mem_key mem_ttl : Bool) (now : ℤ) (k v : Bytes) (db : Db)
    → replay mem_key mem_ttl now (set_record k v) db ≡ db_set mem_key db k v
unfolding replay replay_op
replay_set mem_key mem_ttl now k v db = refl

-- Let a log hold a SETEX, the DEL of its key, and any bytes, and be opened and loaded into a valid
-- store without the key, when the time of the SETEX, which is positive, is past. Then the DEL
-- fails, nothing behind it is replayed, and both are cut off the file, where `ftruncate` succeeds.
pub stale_setex_drops_rest :
    (env : Env) (created_ms t : ℤ) (k v more buf : Bytes) {db : Db}
    → env.opened ≡ true
    → IsValid db
    → view db k ≡ none
    → IsLoggable (setex_record k v t)
    → IsLoggable (del_record k)
    → pos 0 <ℤ t
    → t <ℤ env.realtime_ms 0
    → let kept = log_file created_ms (setex_record k v t ∷ []) in
      let file = kept ++ (encode (del_record k) ++ more) in
      aof_load env file buf db ≡ loaded (db_del db k).1 (if env.truncated then kept else file)
stale_setex_drops_rest env created_ms t k v more buf {db} can_open valid missing loggable
      loggable_del positive past =
    let r = setex_record k v t in
    let skipped =
      replay_stale (env.mem_key 0) (env.mem_ttl 0) (env.realtime_ms 0) r db positive past in
    aof_load_failed_record env created_ms (r ∷ []) buf db db can_open (loggable, tt)
      (replay_all_step env 0 r [] db db skipped ∙ unfold replay_all in refl) (del_record k) more
      (db_del db k).1 loggable_del
      (replay_del (env.mem_key 1) (env.mem_ttl 1) (env.realtime_ms 1) k db
        ∙ ap (λ st. (st, (db_del db k).1)) (db_del_missing valid k missing))

-- Let a log hold a SET and an EXPIRE of its key, and be opened and loaded into a valid store
-- without the key, with memory for it, when the time of the EXPIRE, which is positive, is past.
-- Then GET returns the value at every time, as if the EXPIRE had not been given.
pub stale_expire_revives :
    (env : Env) (created_ms t now : ℤ) (k v buf : Bytes) {db : Db}
    → env.opened ≡ true
    → IsValid db
    → view db k ≡ none
    → IsLoggable (set_record k v)
    → IsLoggable (expire_record k t)
    → pos 0 <ℤ t
    → t <ℤ env.realtime_ms 1
    → env.mem_key 0 ≡ true
    → let file = log_file created_ms (set_record k v ∷ expire_record k t ∷ []) in
      (db' : Db) × (aof_load env file buf db ≡ loaded db' file) × ((db_get db' k now).0 ≡ some v)
stale_expire_revives env created_ms t now k v buf {db} can_open valid missing loggable
      loggable_expire positive past mem =
    let r = expire_record k t in
    let d = (db_set true db k v).1 in
    let (m, stored) = db_set-Models valid k true v (λ _. refl) in
    let first : replay_at env 0 (set_record k v) db ≡ (success, d) =
      rw (replay_set (env.mem_key 0) (env.mem_ttl 0) (env.realtime_ms 0) k v db, mem)
        (ap (λ st. (st, d)) stored) in
    let second =
      replay_stale (env.mem_key 1) (env.mem_ttl 1) (env.realtime_ms 1) r d positive past in
    let run : replay_all env 0 (set_record k v ∷ r ∷ []) db ≡ (success, d) =
      replay_all_step env 0 (set_record k v) (r ∷ []) db d first
      ∙ replay_all_step env 1 r [] d d second
      ∙ unfold replay_all in refl in
    let file = log_file created_ms (set_record k v ∷ r ∷ []) in
    (
      d,
      ap (λ f. aof_load env f buf db) (sym (append-nil file))
          ∙ aof_load-torn env created_ms (set_record k v ∷ r ∷ []) buf db d can_open
              (loggable, (loggable_expire, tt)) run [] (inl refl)
          ∙ if-both (λ f. loaded d f ≡ loaded d file) env.truncated refl
              (ap (λ f. loaded d f) (append-nil file)),
      get-set valid k v now ∙ rw missing refl,
    )
