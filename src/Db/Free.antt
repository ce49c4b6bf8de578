-- ===== src/Db/Free.antt =====
-- `db_free` of src/db.c: what it gives to `free`, in order.
use bytekv.Prelude.{
  ◌+◌, ◌*◌, ◌≡◌, List, [], ◌∷◌, ◌++◌, map, length, length-append, length-map, arith, true, false,
}
use bytekv.Prelude.Bytes.{Bytes}
use bytekv.Prelude.Int.{ℤ}
use bytekv.Ht.Free.{Freed, ht_free, ht_free_lem}
use bytekv.Db.{Db}
use bytekv.Db.Model.{IsValid}

-- what is freed: of either table, and the store itself
pub data FreedDb : Type 0 where
  of_keyspace : Freed Bytes → FreedDb
  of_expires : Freed ℤ → FreedDb
  db_itself : FreedDb

unfoldable pub db_free : Db → List FreedDb
db_free db =
    map of_keyspace (ht_free true db.keyspace)
    ++ (map of_expires (ht_free false db.expires) ++ (db_itself ∷ []))

-- For a valid store, three are freed for each key of the keyspace, two for each of the expiry table, two
-- for each table, and the store.
pub length-db_free :
    (db : Db)
    → IsValid db
    → length (db_free db) ≡ (3 * db.keyspace.used + 2) + (2 * db.expires.used + 2) + 1
unfolding db_free
length-db_free db valid =
    let ks = ht_free true db.keyspace in
    let es = ht_free false db.expires in
    let (_, _, _, freed_k) = ht_free_lem true db.keyspace valid.keyspace in
    let (_, _, _, freed_e) = ht_free_lem false db.expires valid.expires in
    omega (
      arith,
      length-append (map of_keyspace ks) (map of_expires es ++ (db_itself ∷ [])),
      length-append (map of_expires es) (db_itself ∷ []),
      length-map ks of_keyspace,
      length-map es of_expires,
      freed_k,
      freed_e,
    )
