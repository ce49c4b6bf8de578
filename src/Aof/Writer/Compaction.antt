-- ===== src/Aof/Writer/Compaction.antt =====
-- `aof_rewrite_child` of src/aof.c: the file that it leaves, and what its records replay to.
use bytekv.Prelude.{
  ℕ, ◌+◌, ◌≤◌, ◌≡◌, refl, sym, ◌∙◌, ap, true, Option, none, some, List, [], ◌∷◌, arith, flatten,
  All, Option-cases, Bool-cases, inl, inr,
}
use bytekv.Prelude.Bytes.{Bytes, str_eq, str_eq_iff, str_eq_refl}
use bytekv.Prelude.Int.{ℤ, pos, ◌<ℤ◌, ◌≤ℤ◌}
use bytekv.Ht
use bytekv.Ht.{Status, Entry, Status, success}
use bytekv.Ht.Chain.{occurs, occurs_present}
use bytekv.Ht.Buckets.{update}
use bytekv.Ht.Resize.{flatten-Reads}
use bytekv.Ht.Iter.{iter_all-flatten}
use bytekv.Db.{Db}
use bytekv.Db.Model.{Item, Keys, Models, IsValid, view, join}
use bytekv.Aof.{IsLoggable}
use bytekv.Aof.Recovery.Torn.{replay_all}
use bytekv.Aof.Recovery.Load.{log_file}
use bytekv.Aof.Writer.Child.{aof_rewrite_child, finish_child, write_entries}
use bytekv.Aof.Writer.Snapshot.{
  snapshot, child_loop-snapshot, unless_stale, env_at, replay_entry, Replayed,
}

-- the item that a list of entries gives a key, or the one that was there
abbrev pub item_or : ℤ → Option ℤ → Option Item → Option Bytes → Option Item
item_or later t old none = old
item_or later t old (some v) = unless_stale later (some (record { value = v; expire_at = t }))

abbrev pub merged : ℤ → Db → Keys → List (Entry Bytes) → Keys
merged later db m es q = item_or later (Ht.find db.expires q) (m q) (Ht.chain_find q es)

module _ (clock : ℕ → ℤ) (later : ℤ) (db : Db) (order : (n : ℕ) → clock n ≤ℤ later)
    (positive : (q : Bytes) (t : ℤ) → Ht.find db.expires q ≡ some t → pos 0 <ℤ t) where
  after_entry : Keys → Entry Bytes → Keys
  after_entry m e =
      update m e.key
        (unless_stale later (some (record { value = e.val; expire_at = Ht.find db.expires e.key })))

  only_once :
      (m : Keys) (e : Entry Bytes) (es : List (Entry Bytes)) (q : Bytes)
      → str_eq e.key q ≡ true
      → occurs q (e ∷ es) ≤ 1
      → Ht.chain_find q es ≡ none
  unfolding occurs
  only_once m e es q same once = elim (Option-cases (Ht.chain_find q es)) [
    | inl gone ↦ gone
    | inr (v, there) ↦ absurd (ground (arith, occurs_present q es v there))
  ]

  absent_after :
      (m : Keys) (e : Entry Bytes) (es : List (Entry Bytes))
      → ((q : Bytes) → occurs q (e ∷ es) ≤ 1)
      → ((q v : Bytes) → Ht.chain_find q (e ∷ es) ≡ some v → m q ≡ none)
      → (q v : Bytes) → Ht.chain_find q es ≡ some v
      → after_entry m e q ≡ none
  unfolding after_entry Ht.chain_find
  absent_after m e es once absent q v there = elim (Bool-cases (str_eq e.key q)) [
    | inl same ↦ ground (arith, only_once m e es q same (once q), there)
    | inr other ↦ rw other (absent q v (rw other there))
  ]

  merged-after_entry :
      (m : Keys) (e : Entry Bytes) (es : List (Entry Bytes)) (q : Bytes)
      → occurs q (e ∷ es) ≤ 1
      → merged later db (after_entry m e) es q ≡ merged later db m (e ∷ es) q
  unfolding after_entry occurs Ht.chain_find
  merged-after_entry m e es q once = elim (Bool-cases (str_eq e.key q)) [
    | inl same ↦
        let gone : Ht.chain_find q es ≡ none = only_once m e es q same once in
        let is_key : e.key ≡ q = ground (arith, str_eq_iff e.key q) in
        rw (same, gone)
          (ap
            (λ u.
              unless_stale later
                (some (record { value = e.val; expire_at = Ht.find db.expires u })))
            is_key)
    | inr other ↦ rw other refl
  ]

  pub snapshot_replays :
      (es : List (Entry Bytes)) (n k : ℕ) (m : Keys) (d : Db)
      → ((q : Bytes) → occurs q es ≤ 1)
      → ((q v : Bytes) → Ht.chain_find q es ≡ some v → m q ≡ none)
      → Models m d
      → (d' : Db) × (replay_all (env_at later) k (snapshot clock n db es) d ≡ (success, d'))
        × Models (merged later db m es) d'
  unfolding replay_all snapshot Ht.chain_find occurs Replayed after_entry
  snapshot_replays [] n k m d once absent models = (d, refl, models)
  snapshot_replays (e ∷ es) n k m d once absent models =
      let t = Ht.find db.expires e.key in
      let fresh : m e.key ≡ none = absent e.key e.val (rw str_eq_refl refl) in
      let (d₁, k₁, step, models₁) =
        replay_entry (clock n) later e t k m d (order n) (λ u h. positive e.key u h) models fresh in
      let (d', run, (valid, reads)) =
        snapshot_replays es (n + 1) k₁ (after_entry m e) d₁ (λ q. ground (arith, once q))
          (absent_after m e es once absent) models₁ in
      (
        d',
        step (snapshot clock (n + 1) db es) ∙ run,
        (valid, λ q. reads q ∙ merged-after_entry m e es q (once q)),
      )

-- the entries of the keyspace, as the child finds them
abbrev pub entries : Db → List (Entry Bytes)
entries db = flatten db.keyspace.table

pub aof_rewrite_child-entries :
    (created_ms : ℤ) (clock : ℕ → ℤ) (db : Db)
    → IsValid db
    → All IsLoggable (snapshot clock 0 db (entries db))
    → aof_rewrite_child created_ms clock true db
      ≡ some (log_file created_ms (snapshot clock 0 db (entries db)))
unfolding aof_rewrite_child
aof_rewrite_child-entries created_ms clock db valid loggable =
    let ks = valid.keyspace in
    ap (λ es. finish_child created_ms true (write_entries clock db es))
      (iter_all-flatten db.keyspace (ks.reads.width ∙ sym ks.masked))
    ∙ ap (finish_child created_ms true) (child_loop-snapshot clock 0 db (entries db) loggable)

item_or-join :
    (later : ℤ) (t : Option ℤ) (v : Option Bytes)
    → item_or later t none v ≡ unless_stale later (join v t)
item_or-join later t none = refl
item_or-join later t (some v) = refl

pub merged-view :
    (later : ℤ) (db : Db)
    → IsValid db
    → (q : Bytes) → merged later db (λ _. none) (entries db) q ≡ unless_stale later (view db q)
unfolding view
merged-view later db valid q =
    ap (item_or later (Ht.find db.expires q) none)
      (flatten-Reads db.keyspace.table valid.keyspace.reads q).1
    ∙ item_or-join later (Ht.find db.expires q) (Ht.find db.keyspace q)
