-- ===== src/Tests/Replies.antt =====
-- src/db.c on concrete stores.
use bytekv.Prelude.{
  ℕ, ◌+◌, ◌*◌, ◌<◌, List, ◌≡◌, refl, ap, true, false, some, none, [], ◌∷◌, arith, if◌then◌else◌,
  min,
}
use bytekv.Prelude.Bytes.{str_eq}
use bytekv.Prelude.Int.{pos, ◌+ℤ◌, ◌≤ℤ◌, ◌<ℤ◌}
use bytekv.Ht
use bytekv.Ht.{success, failure}
use bytekv.Ht.Buckets.{update}
use bytekv.Db.{
  is_expired, db_create, db_get, db_get_ttl, db_set, db_setex, db_del, db_persist, db_key_expire,
}
use bytekv.Db.Model.{Models, put, set_expiry, view, expiry}
use bytekv.Db.Writes.{
  db_del-Models, db_set-Models, db_persist-Models, db_key_expire-Models, db_setex-Models,
  db_setex_rolled_back,
}
use bytekv.Db.Reads.{live, stale, ttl, without_stale, db_get-Models, db_get_ttl-Models}
use bytekv.Db.Replies.{get-setex, get-set, set-stale_lost, get-persist, ttl_bounds}
use bytekv.Db.Sweep.{
  db_active_sweep, db_active_sweep_outcome, pick, expired_among, drawing, freed_read, swept,
}
use bytekv.Tests.{
  key_a, old_value, new_value, no_keys-IsValid, timed, timed-IsValid, lasting, lasting-IsValid,
}

db_del-Models_example :
    Models (update (view timed) key_a none) (db_del timed key_a).1
    × ((db_del timed key_a).0 ≡ (if Ht.exists timed.keyspace key_a then success else failure))
db_del-Models_example = db_del-Models timed-IsValid key_a

db_set-Models_example :
    Models
      (put (view timed) key_a new_value (expiry (view timed key_a)))
      (db_set true timed key_a new_value).1
    × ((db_set true timed key_a new_value).0 ≡ success)
db_set-Models_example = db_set-Models timed-IsValid key_a true new_value (λ _. refl)

db_persist-Models_example :
    Models (set_expiry (view timed) key_a none) (db_persist timed key_a).1
    × ((db_persist timed key_a).0 ≡ (if Ht.exists timed.expires key_a then success else failure))
db_persist-Models_example = db_persist-Models timed-IsValid key_a

-- what the two stores hold
timed_item : view timed key_a ≡ some (record { value = old_value; expire_at = some (pos 100) })
unfolding str_eq
timed_item =
    (db_setex-Models no_keys-IsValid key_a true true old_value (pos 100) (omega arith) (λ _. refl)
        (λ _. refl)).0.1
      key_a

db_key_expire-Models_example :
    Models
      (set_expiry (view timed) key_a (some (pos 200)))
      (db_key_expire true timed key_a (pos 200)).1
    × ((db_key_expire true timed key_a (pos 200)).0 ≡ success)
db_key_expire-Models_example =
    db_key_expire-Models timed-IsValid key_a true (pos 200)
      (record { value = old_value; expire_at = some (pos 100) }) timed_item (omega arith)
      (λ _. refl)

db_setex-Models_example :
    Models
      (put (view lasting) key_a new_value (some (pos 50)))
      (db_setex true true lasting key_a new_value (pos 50)).1
    × ((db_setex true true lasting key_a new_value (pos 50)).0 ≡ success)
db_setex-Models_example =
    db_setex-Models lasting-IsValid key_a true true new_value (pos 50) (omega arith) (λ _. refl)
      (λ _. refl)

lasting_item : view lasting key_a ≡ some (record { value = old_value; expire_at = none })
unfolding str_eq view Ht.find Ht.chain_find db_create Ht.create Ht.index Ht.hash
lasting_item = (db_set-Models no_keys-IsValid key_a true old_value (λ _. refl)).0.1 key_a

db_setex_rolled_back_example :
    Models
      (update (view lasting) key_a none)
      (db_setex true false lasting key_a new_value (pos 50)).1
    × ((db_setex true false lasting key_a new_value (pos 50)).0 ≡ failure)
db_setex_rolled_back_example =
    db_setex_rolled_back lasting-IsValid key_a true new_value (pos 50) (omega arith) (λ _. refl)
      (ap expiry lasting_item)

db_get-Models_example :
    Models (without_stale (pos 101) (view timed) key_a) (db_get timed key_a (pos 101)).1
    × ((db_get timed key_a (pos 101)).0 ≡ live (pos 101) (view timed key_a))
db_get-Models_example = db_get-Models timed-IsValid key_a (pos 101)

db_get_ttl-Models_example :
    Models (without_stale (pos 7) (view timed) key_a) (db_get_ttl timed key_a (pos 7)).1
    × ((db_get_ttl timed key_a (pos 7)).0 ≡ ttl (pos 7) (view timed key_a))
db_get_ttl-Models_example = db_get_ttl-Models timed-IsValid key_a (pos 7)

get-setex_example :
    (db_get (db_setex true true timed key_a new_value (pos 300)).1 key_a (pos 300)).0
    ≡ some new_value
get-setex_example = get-setex timed-IsValid key_a new_value (pos 300) (pos 300) (omega arith)

get-set_example :
    (db_get (db_set true timed key_a new_value).1 key_a (pos 5)).0
    ≡ (if stale (pos 5) (view timed key_a) then none else some new_value)
get-set_example = get-set timed-IsValid key_a new_value (pos 5)

set-stale_lost_example : (db_get (db_set true timed key_a new_value).1 key_a (pos 102)).0 ≡ none
set-stale_lost_example =
    set-stale_lost timed-IsValid key_a new_value (pos 101) (pos 102)
      (ap (stale (pos 101)) timed_item) (omega arith)

get-persist_example :
    (db_get (db_persist timed key_a).1 key_a (pos 500)).0
    ≡ elim (view timed key_a) [ none ↦ none | some item ↦ some item.value ]
get-persist_example = get-persist timed-IsValid key_a (pos 500)

ttl_bounds_example :
    (n : ℕ) × ((db_get_ttl timed key_a (pos 7)).0 ≡ pos n)
    × (pos 7 +ℤ pos (1000 * n) ≤ℤ pos 100)
    × (pos 100 <ℤ pos 7 +ℤ pos (1000 * (n + 1)))
ttl_bounds_example =
    ttl_bounds timed-IsValid key_a (pos 7) (pos 100) old_value timed_item (omega arith)

one_expiry : 0 < timed.expires.used
unfolding Ht.find Ht.set_val Ht.create Ht.index Ht.hash Ht.chain_find Ht.push_front db_setex
    db_create str_eq
one_expiry = omega arith

-- the four buckets of the expiry table
abbrev draws : List ℕ
draws = 0 ∷ 1 ∷ 2 ∷ 3 ∷ []

db_active_sweep_outcome_example :
    db_active_sweep timed 20 (pos 101) draws
    ≡ elim (pick timed.expires (min 20 timed.expires.used) draws) [
      | none ↦ drawing
      | some picks ↦ if expired_among timed (pos 101) picks then freed_read else swept 0 timed
    ]
db_active_sweep_outcome_example = db_active_sweep_outcome timed (pos 101) 20 draws one_expiry

sweep_reads_freed : db_active_sweep timed 20 (pos 101) draws ≡ freed_read
unfolding Ht.find Ht.set_val Ht.create Ht.index Ht.hash Ht.chain_find Ht.push_front db_setex
    db_create str_eq db_active_sweep pick is_expired
sweep_reads_freed = db_active_sweep_outcome_example
