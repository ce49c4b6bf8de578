-- ===== src/Db/Keeps.antt =====
-- src/db.c: the invariant of the store, whether or not `malloc` finds memory.
use bytekv.Prelude.{
  ◌≡◌, refl, ◌⊎◌, inl, inr, Bool, true, false, Option, none, some, arith, Bool-cases, Option-cases,
}
use bytekv.Prelude.Bytes.{Bytes}
use bytekv.Prelude.Int.{ℤ, pos, ltb_ℤ}
use bytekv.Ht
use bytekv.Ht.{Status, success, failure}
use bytekv.Ht.Store
use bytekv.Db.{Db, db_set, db_setex, db_key_expire}
use bytekv.Db.Model.{Item, IsValid, view, expiry}
use bytekv.Db.Writes.{
  db_set-Models, db_set_no_memory, db_setex-Models, db_setex_not_positive, db_setex_rolled_back,
  db_key_expire-Models, db_key_expire_refused,
}

-- Where something is there, or there is memory for it.
room_cases {ℓ} :
    {A : Type ℓ} (o : Option A) (mem : Bool)
    → ((o ≡ none) × (mem ≡ false)) ⊎ (o ≡ none → mem ≡ true)
room_cases o true = inr (λ _. refl)
room_cases none false = inl (refl, refl)
room_cases (some a) false = inr (λ h. ground arith)

module _ {db : Db} (valid : IsValid db) (k : Bytes) where
  pub db_set-IsValid : (mem : Bool) (value : Bytes) → IsValid (db_set mem db k value).1
  db_set-IsValid mem value = elim (room_cases (view db k) mem) [
    | inl (absent, dry) ↦ rw (dry, db_set_no_memory valid k value absent) valid
    | inr room ↦ (db_set-Models valid k mem value room).0.0
  ]

  db_setex_no_memory :
      (mem_ttl : Bool) (value : Bytes) (expire_at : ℤ)
      → view db k ≡ none
      → (db_setex false mem_ttl db k value expire_at).1 ≡ db
  unfolding db_setex view
  db_setex_no_memory mem_ttl value t absent =
      rw (Store.set_val_no_memory valid.keyspace k value (ground arith)) refl

  pub db_setex-IsValid :
      (mem_key mem_ttl : Bool) (value : Bytes) (expire_at : ℤ)
      → IsValid (db_setex mem_key mem_ttl db k value expire_at).1
  db_setex-IsValid mem_key mem_ttl value t = elim (Bool-cases (ltb_ℤ (pos 0) t)) [
    | inr other ↦
        rw (db_setex_not_positive mem_key mem_ttl db k value t (ground arith))
          (db_set-IsValid mem_key value)
    | inl positive ↦ elim (room_cases (view db k) mem_key) [
      | inl (absent, dry) ↦ rw (dry, db_setex_no_memory mem_ttl value t absent) valid
      | inr room ↦ elim (room_cases (expiry (view db k)) mem_ttl) [
        | inl (untimed, dry) ↦
            rw dry (db_setex_rolled_back valid k mem_key value t (ground arith) room untimed).0.0
        | inr room_ttl ↦
            (db_setex-Models valid k mem_key mem_ttl value t (ground arith) room room_ttl).0.0
      ]
    ]
  ]

  db_key_expire_no_memory :
      (expire_at : ℤ) (item : Item)
      → view db k ≡ some item
      → item.expire_at ≡ none
      → (db_key_expire false db k expire_at).1 ≡ db
  unfolding db_key_expire view Ht.exists
  db_key_expire_no_memory t item here untimed =
      let gone : Ht.find db.expires k ≡ none = ground arith in
      rw (Store.set_val_no_memory valid.expires k t gone) (ground arith)

  pub db_key_expire-IsValid :
      (mem : Bool) (expire_at : ℤ) → IsValid (db_key_expire mem db k expire_at).1
  db_key_expire-IsValid mem t = elim (Bool-cases (ltb_ℤ (pos 0) t)) [
    | inr other ↦ rw (db_key_expire_refused valid k mem t (inl (ground arith))) valid
    | inl positive ↦ elim (Option-cases (view db k)) [
      | inl absent ↦ rw (db_key_expire_refused valid k mem t (inr absent)) valid
      | inr (item, here) ↦ elim (room_cases item.expire_at mem) [
        | inl (untimed, dry) ↦ rw (dry, db_key_expire_no_memory t item here untimed) valid
        | inr room ↦ (db_key_expire-Models valid k mem t item here (ground arith) room).0.0
      ]
    ]
  ]
