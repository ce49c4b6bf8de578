-- ===== src/Tests/Log.antt =====
-- src/aof.c, reading: a log of two records, whole, torn, and with a record that fails.
use bytekv.Prelude.{
  length, ℕ, flatten, All, ◌≡◌, refl, sym, ap, ◌∙◌, true, some, none, inr, List, [], ◌∷◌, ◌++◌,
  arith, take, drop, length-drop, take-append-drop,
}
use bytekv.Prelude.Bytes.{Bytes, str_eq}
use bytekv.Prelude.Int.{◌≤ℤ◌, ℤ, pos}
use bytekv.Ht
use bytekv.Aof.Writer.Child.{record_at, aof_rewrite_child}
use bytekv.Aof.Writer.Snapshot.{snapshot, unless_stale, env_at}
use bytekv.Aof.Writer.Rewritten.{reloaded, rewritten_log-aof_load}
use bytekv.Aof.Writer.Compaction.{entries}
use bytekv.Ht.{success}
use bytekv.Db.{db_set, db_setex, db_create, Db, db_get, db_del}
use bytekv.Db.Model.{Models, IsValid, db_create-Models, view}
use bytekv.Db.Writes.{db_set-Models}
use bytekv.Aof.{LogRecord, IsLoggable, encode}
use bytekv.Aof.Layout.{length-encode}
use bytekv.Aof.Recovery.{Env, aof_load, loaded, aof_replay_record}
use bytekv.Aof.Recovery.Round.{body, body_len, replay, aof_replay_record-body}
use bytekv.Aof.Recovery.Torn.{encode_all, replay_all, replay_all_step, IsTorn}
use bytekv.Aof.Recovery.Load.{log_file, aof_load-torn, aof_load_failed_record}
use bytekv.Aof.Recovery.Quarantine.{
  Chunk, IsGood, aof_quarantine_tail, aof_quarantine_tail_lossless,
}
use bytekv.Aof.Writer.{all_written}
use bytekv.Aof.Recovery.Stale.{
  setex_record, del_record, set_record, expire_record, replay_del, replay_set, db_del_missing,
  stale_setex_drops_rest, stale_expire_revives,
}
use bytekv.Tests.{
  key_a, key_b, old_value, new_value, no_keys, no_keys-IsValid, lasting, lasting-IsValid, timed,
  timed-IsValid,
}

-- a clock that stands at 1000, and memory for everything
abbrev env : Env
env = record {
  realtime_ms = λ n. pos 1000;
  mem_key = λ n. true;
  mem_ttl = λ n. true;
  opened = true;
  truncated = true;
}

set_a-IsLoggable : IsLoggable (set_record key_a old_value)
set_a-IsLoggable = record {
  key = omega arith;
  value = omega arith;
  fits = omega arith;
  time = omega arith;
}

del_b-IsLoggable : IsLoggable (del_record key_b)
del_b-IsLoggable = record {
  key = omega arith;
  value = omega arith;
  fits = omega arith;
  time = omega arith;
}

abbrev one_record : List LogRecord
one_record = set_record key_a old_value ∷ []

one_record-run : replay_all env 0 one_record no_keys ≡ (success, lasting)
unfolding replay_all
one_record-run = replay_all_step env 0 (set_record key_a old_value) [] no_keys lasting (
    replay_set true true (pos 1000) key_a old_value no_keys
    ∙ ap (λ st. (st, lasting)) (db_set-Models no_keys-IsValid key_a true old_value (λ _. refl)).1)

-- the first five bytes of a record
abbrev torn : Bytes
torn = take 5 (encode (del_record key_b))

torn-IsTorn : IsTorn torn
torn-IsTorn = record {
  whole = del_record key_b;
  loggable = del_b-IsLoggable;
  missing = drop 5 (encode (del_record key_b));
  cut = sym (take-append-drop 5 (encode (del_record key_b)));
  some_missing =
      omega (arith, length-drop 5 (encode (del_record key_b)), length-encode (del_record key_b));
}

aof_load-torn_example :
    aof_load env (log_file (pos 5) one_record ++ torn) [] no_keys
    ≡ loaded lasting (log_file (pos 5) one_record)
aof_load-torn_example =
    aof_load-torn env (pos 5) one_record [] no_keys lasting refl (set_a-IsLoggable, tt)
      one_record-run torn (inr torn-IsTorn)

no_b : view lasting key_b ≡ none
unfolding str_eq
no_b =
    (db_set-Models no_keys-IsValid key_a true old_value (λ _. refl)).0.1 key_b
    ∙ (db_create-Models (pos 0)).1 key_b

aof_load_failed_record_example :
    aof_load env
      (log_file (pos 5) one_record
        ++ (encode (del_record key_b) ++ encode (set_record key_a new_value)))
      []
      no_keys
    ≡ loaded (db_del lasting key_b).1 (log_file (pos 5) one_record)
aof_load_failed_record_example =
    aof_load_failed_record env (pos 5) one_record [] no_keys lasting refl (set_a-IsLoggable, tt)
      one_record-run (del_record key_b) (encode (set_record key_a new_value))
      (db_del lasting key_b).1 del_b-IsLoggable
      (replay_del true true (pos 1000) key_b lasting
        ∙ ap (λ st. (st, (db_del lasting key_b).1)) (db_del_missing lasting-IsValid key_b no_b))

aof_replay_record-body_example :
    aof_replay_record true true
      (pos 1000)
      (body (set_record key_a old_value) ++ (7 ∷ []))
      (body_len (set_record key_a old_value))
      no_keys
    ≡ some (replay true true (pos 1000) (set_record key_a old_value) no_keys)
aof_replay_record-body_example =
    aof_replay_record-body true true (pos 1000) (set_record key_a old_value) (7 ∷ []) no_keys
      set_a-IsLoggable

setex_a-IsLoggable : IsLoggable (setex_record key_a old_value (pos 100))
setex_a-IsLoggable = record {
  key = omega arith;
  value = omega arith;
  fits = omega arith;
  time = omega arith;
}

del_a-IsLoggable : IsLoggable (del_record key_a)
del_a-IsLoggable = record {
  key = omega arith;
  value = omega arith;
  fits = omega arith;
  time = omega arith;
}

expire_a-IsLoggable : IsLoggable (expire_record key_a (pos 100))
expire_a-IsLoggable = record {
  key = omega arith;
  value = omega arith;
  fits = omega arith;
  time = omega arith;
}

stale_setex_drops_rest_example :
    aof_load env
      (log_file (pos 5) (setex_record key_a old_value (pos 100) ∷ [])
        ++ (encode (del_record key_a) ++ encode (set_record key_b new_value)))
      []
      no_keys
    ≡ loaded
        (db_del no_keys key_a).1
        (log_file (pos 5) (setex_record key_a old_value (pos 100) ∷ []))
stale_setex_drops_rest_example =
    stale_setex_drops_rest env (pos 5) (pos 100) key_a old_value
      (encode (set_record key_b new_value)) [] refl no_keys-IsValid
      ((db_create-Models (pos 0)).1 key_a) setex_a-IsLoggable del_a-IsLoggable (omega arith)
      (omega arith)

stale_expire_revives_example :
    (db' : Db) × (aof_load env
        (log_file (pos 5) (set_record key_a old_value ∷ expire_record key_a (pos 100) ∷ []))
        []
        no_keys
      ≡ loaded db'
          (log_file (pos 5) (set_record key_a old_value ∷ expire_record key_a (pos 100) ∷ [])))
    × ((db_get db' key_a (pos 2000)).0 ≡ some old_value)
stale_expire_revives_example =
    stale_expire_revives env (pos 5) (pos 100) (pos 2000) key_a old_value [] refl no_keys-IsValid
      ((db_create-Models (pos 0)).1 key_a) set_a-IsLoggable expire_a-IsLoggable (omega arith)
      (omega arith) refl

-- the time of every reading of the child's clock
abbrev child_clock : ℕ → ℤ
child_clock n = pos 50

timed_records-IsLoggable : All IsLoggable (snapshot child_clock 0 timed (entries timed))
unfolding snapshot record_at Ht.find Ht.set_val Ht.create Ht.index Ht.hash Ht.chain_find
    Ht.push_front db_setex db_create str_eq flatten
timed_records-IsLoggable = (setex_a-IsLoggable, tt)

within : pos 50 ≤ℤ pos 60
within = omega arith

-- a SET of `b` is logged while the child runs
set_b-IsLoggable : IsLoggable (set_record key_b new_value)
set_b-IsLoggable = record {
  key = omega arith;
  value = omega arith;
  fits = omega arith;
  time = omega arith;
}

abbrev reloaded_timed : Db
reloaded_timed = reloaded (pos 60) (pos 7) child_clock timed

reloaded_timed-IsValid : IsValid reloaded_timed
unfolding replay_all
reloaded_timed-IsValid =
    (rewritten_log-aof_load (pos 5) (pos 60) (pos 7) child_clock [] timed reloaded_timed []
      timed-IsValid (λ n. within) timed_records-IsLoggable tt refl).0.0

set_b-run :
    replay_all
      (env_at (pos 60))
      (length (snapshot child_clock 0 timed (entries timed)))
      (set_record key_b new_value ∷ [])
      reloaded_timed
    ≡ (success, (db_set true reloaded_timed key_b new_value).1)
unfolding replay_all
set_b-run =
    replay_all_step (env_at (pos 60)) (length (snapshot child_clock 0 timed (entries timed)))
      (set_record key_b new_value) [] reloaded_timed (db_set true reloaded_timed key_b new_value).1
      (replay_set true true (pos 60) key_b new_value reloaded_timed
        ∙ ap (λ st. (st, (db_set true reloaded_timed key_b new_value).1))
            (db_set-Models reloaded_timed-IsValid key_b true new_value (λ _. refl)).1)

rewritten_log-aof_load_example :
    Models (λ q. unless_stale (pos 60) (view timed q)) reloaded_timed
    × ((file : Bytes) × (aof_rewrite_child (pos 5) child_clock true timed ≡ some file)
        × (aof_load
              (env_at (pos 60))
              (file ++ encode_all (set_record key_b new_value ∷ []))
              []
              (db_create (pos 7))
            ≡ loaded
                (db_set true reloaded_timed key_b new_value).1
                (file ++ encode_all (set_record key_b new_value ∷ []))))
rewritten_log-aof_load_example =
    rewritten_log-aof_load (pos 5) (pos 60) (pos 7) child_clock [] timed
      (db_set true reloaded_timed key_b new_value).1 (set_record key_b new_value ∷ []) timed-IsValid
      (λ n. within) timed_records-IsLoggable (set_b-IsLoggable, tt) set_b-run

-- three bytes behind the first two, in rounds of two bytes
abbrev two_bytes : Chunk
two_bytes = record { given = some 2; written = all_written }

two_bytes-IsGood : IsGood two_bytes
unfolding IsGood
two_bytes-IsGood = ((2, omega arith, refl), refl)

aof_quarantine_tail_lossless_example :
    (q : Bytes) × (aof_quarantine_tail true true
        (two_bytes ∷ two_bytes ∷ two_bytes ∷ [])
        (1 ∷ 2 ∷ 3 ∷ 4 ∷ 5 ∷ [])
        2
        3
      ≡ some q)
    × (take 2 (1 ∷ 2 ∷ 3 ∷ 4 ∷ 5 ∷ []) ++ q ≡ 1 ∷ 2 ∷ 3 ∷ 4 ∷ 5 ∷ [])
aof_quarantine_tail_lossless_example =
    aof_quarantine_tail_lossless (two_bytes ∷ two_bytes ∷ two_bytes ∷ []) (1 ∷ 2 ∷ 3 ∷ 4 ∷ 5 ∷ []) 2
      (two_bytes-IsGood, (two_bytes-IsGood, (two_bytes-IsGood, tt))) (omega arith)
