-- ===== src/Db/Reads.antt =====
-- `db_get` and `db_get_ttl` of src/db.c, with their lazy expiry.
use bytekv.Prelude.{
  ◌≡◌, inl, inr, Bool, false, ◌&&◌, Option, none, some, arith, if◌then◌else◌, Bool-cases,
}
use bytekv.Prelude.Bytes.{Bytes, str_eq, str_eq_refl}
use bytekv.Prelude.Int.{ℤ, negsuc, ltb_ℤ, ◌-ℤ◌, quot_ℤ}
use bytekv.Ht
use bytekv.Ht.{Ht, Status, success, failure}
use bytekv.Db.{Db, db_get, db_get_ttl, is_expired, db_expire_clean}
use bytekv.Db.Model.{Item, Keys, view, IsValid, Models}
use bytekv.Db.Writes.{db_del-Models}

-- whether a key's item is past its expiry
abbrev pub stale : ℤ → Option Item → Bool
stale now none = false
stale now (some item) = elim item.expire_at [ none ↦ false | some t ↦ ltb_ℤ t now ]

-- the value that a client sees at a time
abbrev pub live : ℤ → Option Item → Option Bytes
live now none = none
live now (some item) = if stale now (some item) then none else some item.value

-- the map without a key that is stale
abbrev pub without_stale : ℤ → Keys → Bytes → Keys
without_stale now m k q = if str_eq k q && stale now (m k) then none else m q

-- the reply to TTL
abbrev pub ttl : ℤ → Option Item → ℤ
ttl now none = negsuc 1
ttl now (some item) = elim item.expire_at [
  | none ↦ negsuc 0
  | some t ↦ if ltb_ℤ t now then negsuc 1 else quot_ℤ (t -ℤ now) 1000
]

module _ {db : Db} (valid : IsValid db) (k : Bytes) (now : ℤ) where
  is_expired-stale : is_expired db k now ≡ stale now (view db k)
  unfolding is_expired view
  is_expired-stale = ground (arith, valid.owned k)

  -- The lazy expiry removes the key if it is stale, and says so.
  pub db_expire_clean-Models :
      (Models (without_stale now (view db) k) (db_expire_clean db k now).1)
      × ((db_expire_clean db k now).0 ≡ stale now (view db k))
  unfolding db_expire_clean
  db_expire_clean-Models =
      let d = db_del-Models valid k in
      elim (Bool-cases (is_expired db k now)) [
        | inl e ↦ rw e (
          (d.0.0, λ q. ground (arith, d.0.1 q, is_expired-stale)),
          ground (arith, is_expired-stale),
        )
        | inr e ↦
            rw e ((valid, λ q. ground (arith, is_expired-stale)), ground (arith, is_expired-stale))
      ]

  -- In a valid store, GET at a time returns the value of the key if it has one that is not past its
  -- expiry, and nothing otherwise; the store afterwards is valid and stands for the same map,
  -- without the key if it was past its expiry.
  pub db_get-Models :
      (Models (without_stale now (view db) k) (db_get db k now).1)
      × ((db_get db k now).0 ≡ live now (view db k))
  unfolding db_get view
  db_get-Models =
      let (m, e) = db_expire_clean-Models in
      (ground (arith, m), ground (arith, e, m.1 k, str_eq_refl k))

  -- In a valid store, TTL at a time returns -2 for a key that is missing or past its expiry, -1 for
  -- one without an expiry, and otherwise the difference to the expiry divided by 1000; the store
  -- afterwards is valid and stands for the same map, without the key if it was past its expiry.
  pub db_get_ttl-Models :
      (Models (without_stale now (view db) k) (db_get_ttl db k now).1)
      × ((db_get_ttl db k now).0 ≡ ttl now (view db k))
  unfolding db_get_ttl view Ht.exists
  db_get_ttl-Models =
      let (m, e) = db_expire_clean-Models in
      (ground (arith, m), ground (arith, e, m.1 k, str_eq_refl k))
