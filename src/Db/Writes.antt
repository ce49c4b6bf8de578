-- ===== src/Db/Writes.antt =====
-- src/db.c: the operations that change the store.
use bytekv.Prelude.{◌≡◌, refl, ◌⊎◌, Bool, true, false, not, ◌||◌, none, some, arith, if◌then◌else◌}
use bytekv.Prelude.Bytes.{Bytes, str_eq_iff}
use bytekv.Prelude.Int.{ℤ, pos, ltb_ℤ, ◌<ℤ◌, ◌≤ℤ◌}
use bytekv.Ht
use bytekv.Ht.{Ht, Status, success, failure}
use bytekv.Ht.Store
use bytekv.Ht.Delete
use bytekv.Ht.Buckets.{update}
use bytekv.Db.{Db, db_set, db_setex, db_del, db_persist, db_key_expire}
use bytekv.Db.Model.{Item, view, expiry, IsValid, Models, tables-Models, put, set_expiry}

-- SETEX with a time that is not positive, as a log record may have it, is SET.
pub db_setex_not_positive :
    (mem_key mem_ttl : Bool) (db : Db) (k value : Bytes) (expire_at : ℤ)
    → expire_at ≤ℤ pos 0
    → db_setex mem_key mem_ttl db k value expire_at ≡ db_set mem_key db k value
unfolding db_setex db_set
db_setex_not_positive mem_key mem_ttl db k value t h = ground arith

module _ {db : Db} (valid : IsValid db) (k : Bytes) where
  -- the map itself, for the branches that change nothing
  same : Models (view db) db
  same = (valid, λ q. refl)

  -- In a valid store, DEL succeeds exactly where the key is in the keyspace; the store afterwards
  -- is valid and stands for the map without the key.
  pub db_del-Models :
      (Models (update (view db) k none) (db_del db k).1)
      × ((db_del db k).0 ≡ (if Ht.exists db.keyspace k then success else failure))
  unfolding db_del view
  db_del-Models =
      let d = Delete.del-Deleted valid.keyspace k in
      let e = Delete.del-Deleted valid.expires k in
      (
        tables-Models _ _ d.models e.models (λ q h. ground (arith, valid.owned q))
            (λ q t h. ground (arith, valid.positive q t)) (λ q. ground arith),
        d.status,
      )

  -- In a valid store, SET of a key that is there, or for which there is memory, succeeds; the store
  -- afterwards is valid and stands for the map with the value under the key, which keeps the expiry
  -- that it had.
  pub db_set-Models :
      (mem : Bool) (value : Bytes)
      → (view db k ≡ none → mem ≡ true)
      → (Models (put (view db) k value (expiry (view db k))) (db_set mem db k value).1)
        × ((db_set mem db k value).0 ≡ success)
  unfolding db_set view
  db_set-Models mem value room =
      let s = Store.set_val-Stored valid.keyspace k mem value (λ h. room (ground arith)) in
      (
        tables-Models _ _ s.models (valid.expires, λ q. refl) (λ q h. ground (arith, valid.owned q))
            valid.positive (λ q. ground (arith, valid.owned k, str_eq_iff k q)),
        s.status,
      )

  -- SET of a new key without memory fails and changes nothing.
  pub db_set_no_memory :
      (value : Bytes) → view db k ≡ none → db_set false db k value ≡ (failure, db)
  unfolding db_set view
  db_set_no_memory value absent = rw (Store.set_val_no_memory valid.keyspace k value (ground arith))

  -- In a valid store, PERSIST succeeds exactly where the key is in the expiry table; the store
  -- afterwards is valid and stands for the map with the value and no expiry under the key.
  pub db_persist-Models :
      (Models (set_expiry (view db) k none) (db_persist db k).1)
      × ((db_persist db k).0 ≡ (if Ht.exists db.expires k then success else failure))
  unfolding db_persist view
  db_persist-Models =
      let e = Delete.del-Deleted valid.expires k in
      (
        tables-Models _ _ (valid.keyspace, λ q. refl) e.models
            (λ q h. ground (arith, valid.owned q)) (λ q t h. ground (arith, valid.positive q t))
            (λ q. ground (arith, str_eq_iff k q)),
        e.status,
      )

  -- In a valid store, EXPIRE with a positive time on a key that is there, and that has an expiry or
  -- memory for one, succeeds; the store afterwards is valid and stands for the map with the new
  -- expiry and the old value under the key.
  pub db_key_expire-Models :
      (mem : Bool) (expire_at : ℤ) (item : Item)
      → view db k ≡ some item
      → pos 0 <ℤ expire_at
      → (item.expire_at ≡ none → mem ≡ true)
      → (Models (set_expiry (view db) k (some expire_at)) (db_key_expire mem db k expire_at).1)
        × ((db_key_expire mem db k expire_at).0 ≡ success)
  unfolding db_key_expire view Ht.exists
  db_key_expire-Models mem t item here positive room =
      let s = Store.set_val-Stored valid.expires k mem t (λ h. room (ground arith)) in
      let passes : (not (ltb_ℤ (pos 0) t) || not (Ht.exists db.keyspace k)) ≡ false =
        ground arith in
      rw passes (
        tables-Models _ _ (valid.keyspace, λ q. refl) s.models
            (λ q h. ground (arith, valid.owned q, str_eq_iff k q))
            (λ q u h. ground (arith, valid.positive q u)) (λ q. ground (arith, str_eq_iff k q)),
        s.status,
      )

  -- In a valid store, EXPIRE with a time that is not positive, or on a key that is not there, fails
  -- and changes nothing.
  pub db_key_expire_refused :
      (mem : Bool) (expire_at : ℤ)
      → ((expire_at ≤ℤ pos 0) ⊎ (view db k ≡ none))
      → db_key_expire mem db k expire_at ≡ (failure, db)
  unfolding db_key_expire view Ht.exists
  db_key_expire_refused mem t h = ground arith

  -- In a valid store, SETEX with a positive time, where each table has the key or memory for it,
  -- succeeds; the store afterwards is valid and stands for the map with the value and the expiry
  -- under the key.
  pub db_setex-Models :
      (mem_key mem_ttl : Bool) (value : Bytes) (expire_at : ℤ)
      → pos 0 <ℤ expire_at
      → (view db k ≡ none → mem_key ≡ true)
      → (expiry (view db k) ≡ none → mem_ttl ≡ true)
      → (Models
          (put (view db) k value (some expire_at))
          (db_setex mem_key mem_ttl db k value expire_at).1)
        × ((db_setex mem_key mem_ttl db k value expire_at).0 ≡ success)
  unfolding db_setex view
  db_setex-Models mem_key mem_ttl value t positive room_key room_ttl =
      let s = Store.set_val-Stored valid.keyspace k mem_key value (λ h. room_key (ground arith)) in
      let e = Store.set_val-Stored valid.expires k mem_ttl t (λ h. room_ttl (ground arith)) in
      let test : ltb_ℤ (pos 0) t ≡ true = ground arith in
      rw (s.status, e.status, test)
        (
          tables-Models _ _ s.models e.models (λ q h. ground (arith, valid.owned q))
              (λ q u h. ground (arith, valid.positive q u)) (λ q. ground arith),
          refl,
        )

  -- In a valid store where the key has no expiry, a SETEX with a positive time that has memory for
  -- the value but none for the expiry fails, and the store afterwards is valid and stands for the
  -- map without the key, whether or not the key was there before.
  pub db_setex_rolled_back :
      (mem_key : Bool) (value : Bytes) (expire_at : ℤ)
      → pos 0 <ℤ expire_at
      → (view db k ≡ none → mem_key ≡ true)
      → expiry (view db k) ≡ none
      → (Models (update (view db) k none) (db_setex mem_key false db k value expire_at).1)
        × ((db_setex mem_key false db k value expire_at).0 ≡ failure)
  unfolding db_setex view
  db_setex_rolled_back mem_key value t positive room_key no_ttl =
      let s = Store.set_val-Stored valid.keyspace k mem_key value (λ h. room_key (ground arith)) in
      let d = Delete.del-Deleted s.models.0 k in
      let gone : Ht.find db.expires k ≡ none = ground (arith, valid.owned k) in
      let e = Store.set_val_no_memory valid.expires k t gone in
      let test : ltb_ℤ (pos 0) t ≡ true = ground arith in
      rw (s.status, e, test)
        (
          tables-Models _ _ d.models (valid.expires, λ q. refl)
              (λ q h. ground (arith, valid.owned q, s.models.1 q, str_eq_iff k q)) valid.positive
              (λ q. ground (arith, s.models.1 q, str_eq_iff k q)),
          refl,
        )
