-- ===== src/Db/Model.antt =====
-- src/db.c: the store as one map from keys to a value with an optional expiry.
use bytekv.Prelude.{◌≡◌, Option, none, some, arith}
use bytekv.Prelude.Bytes.{Bytes}
use bytekv.Prelude.Int.{ℤ, pos, ◌<ℤ◌}
use bytekv.Ht
use bytekv.Ht.{Ht}
use bytekv.Ht.Valid
use bytekv.Ht.Buckets.{update}
use bytekv.Db.{Db, db_create}

-- a stored value and its expiry
pub record Item : Type 0 where
  pub value : Bytes
  pub expire_at : Option ℤ

abbrev pub Keys : Type 0
Keys = Bytes → Option Item

abbrev pub join : Option Bytes → Option ℤ → Option Item
join none t = none
join (some v) t = some (record { value = v; expire_at = t })

-- what the two tables say of a key
unfoldable pub view : Db → Keys
view db key = join (Ht.find db.keyspace key) (Ht.find db.expires key)

-- the expiry that a map has for a key
abbrev pub expiry : Option Item → Option ℤ
expiry none = none
expiry (some item) = item.expire_at

-- Both tables satisfy their invariant, no expiry stands without its key, and every expiry is positive.
pub record IsValid (db : Db) : Type 0 where
  pub keyspace : Valid.IsValid db.keyspace
  pub expires : Valid.IsValid db.expires
  pub owned : (q : Bytes) → Ht.find db.keyspace q ≡ none → Ht.find db.expires q ≡ none
  pub positive : (q : Bytes) (t : ℤ) → Ht.find db.expires q ≡ some t → pos 0 <ℤ t

-- A valid store that stands for `m`.
abbrev pub Models : Keys → Db → Type 0
Models m db = IsValid db × ((q : Bytes) → view db q ≡ m q)

-- A new store is valid and has no key.
pub db_create-Models : (now_ms : ℤ) → Models (λ _. none) (db_create now_ms)
unfolding db_create view
db_create-Models now_ms =
    let (k, ks) = Valid.create-Models {V = Bytes} in
    let (e, es) = Valid.create-Models {V = ℤ} in
    (
      record {
        keyspace = k;
        expires = e;
        owned = λ q h. es q;
        positive = λ q t h. ground (arith, es q);
      },
      λ q. ground (arith, ks q),
    )

-- the map after each operation
abbrev pub put : Keys → Bytes → Bytes → Option ℤ → Keys
put m k v t = update m k (some (record { value = v; expire_at = t }))

-- A store whose tables stand for `f` and `g` stands for their join.
module _ {f : Bytes → Option Bytes} {g : Bytes → Option ℤ} (m : Keys) (db : Db) where
  pub tables-Models :
      Valid.Models f db.keyspace
      → Valid.Models g db.expires
      → ((q : Bytes) → f q ≡ none → g q ≡ none)
      → ((q : Bytes) (t : ℤ) → g q ≡ some t → pos 0 <ℤ t)
      → ((q : Bytes) → join (f q) (g q) ≡ m q)
      → Models m db
  unfolding view
  tables-Models (ks, reads_f) (es, reads_g) owned positive joined = (
    record {
      keyspace = ks;
      expires = es;
      owned = λ q h. ground (arith, owned q, reads_f q, reads_g q);
      positive = λ q t h. ground (arith, positive q t, reads_g q);
    },
    λ q. rw (reads_f q, reads_g q) (joined q),
  )

-- a new expiry, or none, for a key that is there
abbrev pub with_expiry : Option Item → Option ℤ → Option Item
with_expiry none t = none
with_expiry (some item) t = some (record item { expire_at = t })

abbrev pub set_expiry : Keys → Bytes → Option ℤ → Keys
set_expiry m k t = update m k (with_expiry (m k) t)
