-- ===== src/Session/Life/Storable.antt =====
-- Every entry that a session stores fits the record that a rewrite writes for it.
use mathlib.Core.Option.{some-injective}
use bytekv.Prelude.{
  ℕ, ◌+◌, ◌≤◌, ◌≡◌, refl, sym, ◌∙◌, inl, inr, true, Bool-cases, Option, none, some, Option-cases,
  List, [], ◌∷◌, arith, length, All, subst,
}
use bytekv.Prelude.Bytes.{Bytes, IsText, str_eq, str_eq_iff, str_eq_refl}
use bytekv.Prelude.Int.{ℤ, pos, ltb_ℤ, IsI64}
use bytekv.Ht
use bytekv.Ht.{Entry, Chain, chain_find}
use bytekv.Ht.Chain.{occurs, occurs_present}
use bytekv.Ht.Buckets.{update}
use bytekv.Ht.Resize.{flatten-Reads}
use bytekv.Db.{Db, db_set, db_setex, db_key_expire, db_del, db_persist}
use bytekv.Db.Model.{Item, IsValid, view, expiry, with_expiry}
use bytekv.Db.Writes.{
  db_del-Models, db_set-Models, db_setex-Models, db_setex_not_positive, db_persist-Models,
  db_key_expire-Models, db_key_expire_refused,
}
use bytekv.Aof.{
  LogRecord, IsLoggable, Opcode, set, del, setex, expire, persist, opcode_byte, header_size,
  body_fixed, record_max,
}
use bytekv.Aof.Recovery.{replay_op}
use bytekv.Aof.Writer.Child.{record_at}
use bytekv.Aof.Writer.Snapshot.{snapshot, prepend}
use bytekv.Aof.Writer.Compaction.{entries}

-- the record of the item fits
pub record Fits (k : Bytes) (item : Item) : Type 0 where
  pub key : IsText k
  pub value : IsText item.value
  pub room : header_size + body_fixed + length k + length item.value ≤ record_max
  pub time : (t : ℤ) → item.expire_at ≡ some t → IsI64 t

unfoldable pub IsStorable : Db → Type 0
IsStorable db = (q : Bytes) (item : Item) → view db q ≡ some item → Fits q item

update-IsStorable :
    (db d : Db) (k : Bytes) (o : Option Item)
    → IsStorable db
    → ((item : Item) → o ≡ some item → Fits k item)
    → ((q : Bytes) → view d q ≡ update (view db) k o q)
    → IsStorable d
unfolding IsStorable
update-IsStorable db d k o storable fits reads q item there = elim (Bool-cases (str_eq k q)) [
  | inl this ↦
      subst (λ p. Fits p item) (ground (arith, str_eq_iff k q, this))
        (fits item (ground (arith, reads q, there, this)))
  | inr other ↦ storable q item (ground (arith, reads q, there, other))
]

-- no key at all
pub none-IsStorable : (db : Db) → ((q : Bytes) → view db q ≡ none) → IsStorable db
unfolding IsStorable
none-IsStorable db empty q item there = ground (arith, empty q, there)

-- the map is the same
pub same-IsStorable :
    (db d : Db) → IsStorable db → ((q : Bytes) → view d q ≡ view db q) → IsStorable d
unfolding IsStorable
same-IsStorable db d storable same q item there = storable q item (sym (same q) ∙ there)

-- a new expiry, or none, for an item that fits
refit :
    (k : Bytes) (o : Option Item) (time : Option ℤ)
    → ((item : Item) → o ≡ some item → Fits k item)
    → ((u : ℤ) → time ≡ some u → IsI64 u)
    → (item : Item) → with_expiry o time ≡ some item
    → Fits k item
refit k none time fits is_i64 item h = ground (arith, h)
refit k (some old) time fits is_i64 item h =
    let f = fits old refl in
    let fitted : Fits k (record old { expire_at = time }) = record {
      key = f.key;
      value = f.value;
      room = f.room;
      time = is_i64;
    } in
    subst (Fits k) (some-injective _ _ h) fitted

module _ {db : Db} (valid : IsValid db) (storable : IsStorable db) (k : Bytes) where
  set-IsStorable :
      (value : Bytes)
      → IsText k
      → IsText value
      → header_size + body_fixed + length k + length value ≤ record_max
      → IsStorable (db_set true db k value).1
  unfolding IsStorable
  set-IsStorable value key_ok value_ok room =
      let (m, _) = db_set-Models valid k true value (λ _. refl) in
      update-IsStorable db (db_set true db k value).1 k
        (some (record { value = value; expire_at = expiry (view db k) })) storable
        (λ item e. subst (Fits k) (some-injective _ _ e) (record {
          key = key_ok;
          value = value_ok;
          room = room;
          time = λ t h. old_time (view db k) (storable k) t h;
        }))
        m.1
    where
      old_time :
          (o : Option Item)
          → ((item : Item) → o ≡ some item → Fits k item)
          → (t : ℤ) → expiry o ≡ some t
          → IsI64 t
      old_time none fits t h = ground (arith, h)
      old_time (some item) fits t h = (fits item refl).time t h

  del-IsStorable : IsStorable (db_del db k).1
  del-IsStorable =
      let (m, _) = db_del-Models valid k in
      update-IsStorable db (db_del db k).1 k none storable (λ item e. ground (arith, e)) m.1

  persist-IsStorable : IsStorable (db_persist db k).1
  unfolding IsStorable
  persist-IsStorable =
      let (m, _) = db_persist-Models valid k in
      update-IsStorable db (db_persist db k).1 k (with_expiry (view db k) none) storable
        (refit k (view db k) none (storable k) (λ u h. ground (arith, h))) m.1

  expire-IsStorable : (t : ℤ) → IsI64 t → IsStorable (db_key_expire true db k t).1
  unfolding IsStorable
  expire-IsStorable t is_i64 = elim (Bool-cases (ltb_ℤ (pos 0) t)) [
    | inr other ↦ rw (db_key_expire_refused valid k true t (inl (ground arith))) storable
    | inl positive ↦ elim (Option-cases (view db k)) [
      | inl absent ↦ rw (db_key_expire_refused valid k true t (inr absent)) storable
      | inr (item, here) ↦
          let (m, _) = db_key_expire-Models valid k true t item here (ground arith) (λ _. refl) in
          update-IsStorable db (db_key_expire true db k t).1 k (with_expiry (view db k) (some t))
            storable
            (refit k (view db k) (some t) (storable k)
              (λ u h. subst IsI64 (some-injective _ _ h) is_i64))
            m.1
    ]
  ]

  setex-IsStorable :
      (value : Bytes) (t : ℤ)
      → IsText k
      → IsText value
      → header_size + body_fixed + length k + length value ≤ record_max
      → IsI64 t
      → IsStorable (db_setex true true db k value t).1
  setex-IsStorable value t key_ok value_ok room is_i64 = elim (Bool-cases (ltb_ℤ (pos 0) t)) [
    | inr other ↦
        rw (db_setex_not_positive true true db k value t (ground arith))
          (set-IsStorable value key_ok value_ok room)
    | inl positive ↦
        let (m, _) =
          db_setex-Models valid k true true value t (ground arith) (λ _. refl) (λ _. refl) in
        update-IsStorable db (db_setex true true db k value t).1 k
          (some (record { value = value; expire_at = some t })) storable
          (λ item e. subst (Fits k) (some-injective _ _ e) (record {
            key = key_ok;
            value = value_ok;
            room = room;
            time = λ u h. subst IsI64 (some-injective _ _ h) is_i64;
          }))
          m.1
  ]

-- the replay of a record that fits
pub replay_op-IsStorable :
    (db : Db) (r : LogRecord)
    → IsValid db
    → IsStorable db
    → IsLoggable r
    → IsStorable (replay_op true true (opcode_byte r.op) r.key r.value r.expire_at db).1
unfolding replay_op
replay_op-IsStorable db r valid storable ok =
    by_op r.op r.key r.value r.expire_at ok.key ok.value ok.fits ok.time
  where
    by_op :
        (op : Opcode) (k value : Bytes) (t : ℤ)
        → IsText k
        → IsText value
        → header_size + body_fixed + length k + length value ≤ record_max
        → IsI64 t
        → IsStorable (replay_op true true (opcode_byte op) k value t db).1
    by_op set k value t key_ok value_ok room time =
        set-IsStorable valid storable k value key_ok value_ok room
    by_op del k value t key_ok value_ok room time = del-IsStorable valid storable k
    by_op setex k value t key_ok value_ok room time =
        setex-IsStorable valid storable k value t key_ok value_ok room time
    by_op expire k value t key_ok value_ok room time = expire-IsStorable valid storable k t time
    by_op persist k value t key_ok value_ok room time = persist-IsStorable valid storable k

-- What holds of every entry that the walk of a chain finds holds of all its entries, where no key is twice.
found-All :
    (P : Entry Bytes → Type 0) (c : Chain Bytes)
    → ((q : Bytes) → occurs q c ≤ 1)
    → ((e : Entry Bytes) → chain_find e.key c ≡ some e.val → P e)
    → All P c
unfolding occurs chain_find
found-All P [] once found = tt
found-All P (e ∷ c) once found = (
  found e (ground (arith, str_eq_refl e.key)),
  found-All P c (λ q. ground (arith, once q))
      (λ e' h. found e' (ground (arith, once e'.key, occurs_present e'.key c e'.val h, h))),
)

-- the record of an entry that fits
record_at-All :
    (now : ℤ) (e : Entry Bytes) (t : Option ℤ) (rs : List LogRecord)
    → Fits e.key (record { value = e.val; expire_at = t })
    → All IsLoggable rs
    → All IsLoggable (prepend (record_at now e t) rs)
unfolding record_at
record_at-All now e none rs f h =
    (record { key = f.key; value = f.value; fits = f.room; time = ground arith }, h)
record_at-All now e (some t) rs f h = elim (Bool-cases (ltb_ℤ t now)) [
  | inl past ↦ rw past h
  | inr ahead ↦
      rw ahead (record { key = f.key; value = f.value; fits = f.room; time = f.time t refl }, h)
]

snapshot-All :
    (clock : ℕ → ℤ) (db : Db) (es : List (Entry Bytes)) (n : ℕ)
    → All (λ e. Fits e.key (record { value = e.val; expire_at = Ht.find db.expires e.key })) es
    → All IsLoggable (snapshot clock n db es)
unfolding snapshot
snapshot-All clock db [] n h = tt
snapshot-All clock db (e ∷ es) n (f, h) =
    record_at-All (clock n) e (Ht.find db.expires e.key) (snapshot clock (n + 1) db es) f
      (snapshot-All clock db es (n + 1) h)

-- Every record that a rewrite writes for the store fits.
pub snapshot-IsLoggable :
    (clock : ℕ → ℤ) (db : Db)
    → IsValid db
    → IsStorable db
    → All IsLoggable (snapshot clock 0 db (entries db))
unfolding IsStorable view
snapshot-IsLoggable clock db valid storable =
    let reads = flatten-Reads db.keyspace.table valid.keyspace.reads in
    snapshot-All clock db (entries db) 0 (
      found-All _ (entries db) (λ q. (reads q).0)
        (λ e h. storable e.key _ (ground (arith, (reads e.key).1, h))))
