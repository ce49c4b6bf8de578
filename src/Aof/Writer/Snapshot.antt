-- ===== src/Aof/Writer/Snapshot.antt =====
-- The loop of `aof_rewrite_child` of src/aof.c, and the replay of what it writes.
use bytekv.Prelude.{
  ℕ, ◌+◌, ◌≡◌, refl, ◌∙◌, ap, Bool, true, false, Option, none, some, List, [], ◌∷◌, arith,
  if◌then◌else◌, length, All, Bool-cases, inl, inr, ltb,
}
use bytekv.Prelude.Bytes.{Bytes, str_eq_iff}
use bytekv.Prelude.Int.{ℤ, pos, ltb_ℤ, ◌<ℤ◌, ◌≤ℤ◌}
use bytekv.Ht
use bytekv.Ht.{Entry, Status, success}
use bytekv.Ht.Buckets.{update}
use bytekv.Db.{Db, db_set, db_setex}
use bytekv.Db.Model.{Item, Keys, Models}
use bytekv.Db.Writes.{db_set-Models, db_setex-Models}
use bytekv.Db.Reads.{stale}
use bytekv.Aof.{LogRecord, IsLoggable, record_max, header_size, body_fixed}
use bytekv.Aof.Layout.{aof_serialize_lem}
use bytekv.Aof.Recovery.{Env, replay_op}
use bytekv.Aof.Recovery.Round.{replay}
use bytekv.Aof.Recovery.Stale.{set_record, setex_record, replay_set, replay_stale}
use bytekv.Aof.Recovery.Torn.{encode_all, replay_all, replay_all_step}
use bytekv.Aof.Writer.Child.{record_at, child_loop, write_record}

abbrev pub prepend : Option LogRecord → List LogRecord → List LogRecord
prepend none rs = rs
prepend (some r) rs = r ∷ rs

-- the records that the child writes
unfoldable pub snapshot : (ℕ → ℤ) → ℕ → Db → List (Entry Bytes) → List LogRecord
snapshot clock n db [] = []
snapshot clock n db (e ∷ es) =
    prepend (record_at (clock n) e (Ht.find db.expires e.key)) (snapshot clock (n + 1) db es)

write_record-prepend :
    (ro : Option LogRecord) (rs : List LogRecord)
    → All IsLoggable (prepend ro rs)
    → write_record ro (some (encode_all rs)) ≡ some (encode_all (prepend ro rs))
write_record-prepend none rs h = refl
write_record-prepend (some r) rs (fits, h) =
    let room : ltb record_max (header_size + body_fixed + length r.key + length r.value) ≡ false =
      ground (arith, fits.fits) in
    rw (aof_serialize_lem record_max r, room) refl

All-tail :
    (ro : Option LogRecord) (rs : List LogRecord)
    → All IsLoggable (prepend ro rs)
    → All IsLoggable rs
All-tail none rs h = h
All-tail (some r) rs (fits, h) = h

-- If every record of the snapshot fits, the loop writes them all.
pub child_loop-snapshot :
    (clock : ℕ → ℤ) (n : ℕ) (db : Db) (es : List (Entry Bytes))
    → All IsLoggable (snapshot clock n db es)
    → child_loop clock n db es ≡ some (encode_all (snapshot clock n db es))
unfolding child_loop snapshot
child_loop-snapshot clock n db [] h = refl
child_loop-snapshot clock n db (e ∷ es) h =
    let ro = record_at (clock n) e (Ht.find db.expires e.key) in
    let rs = snapshot clock (n + 1) db es in
    ap (write_record ro) (child_loop-snapshot clock (n + 1) db es (All-tail ro rs h))
    ∙ write_record-prepend ro rs h

-- an item, unless its time is past
abbrev pub unless_stale : ℤ → Option Item → Option Item
unless_stale later i = if stale later i then none else i

replay_setex :
    (mem_key mem_ttl : Bool) (now : ℤ) (k v : Bytes) (t : ℤ) (db : Db)
    → ltb_ℤ t now ≡ false
    → replay mem_key mem_ttl now (setex_record k v t) db ≡ db_setex mem_key mem_ttl db k v t
unfolding replay replay_op
replay_setex mem_key mem_ttl now k v t db h = ground (arith, h)

-- the clock of the recovery, with memory for everything, and a file that can be opened and cut
abbrev pub env_at : ℤ → Env
env_at later = record {
  realtime_ms = λ n. later;
  mem_key = λ n. true;
  mem_ttl = λ n. true;
  opened = true;
  truncated = true;
}

-- The replay of one entry's record, or of none, puts its item into the map unless its time is past.
unfoldable pub Replayed : ℤ → Option LogRecord → ℕ → Keys → Db → Type 0
Replayed later ro k m d =
    (d' : Db) × (k' : ℕ) × ((rs : List LogRecord)
      → replay_all (env_at later) k (prepend ro rs) d ≡ replay_all (env_at later) k' rs d')
    × Models m d'

pub replay_entry :
    (now later : ℤ) (e : Entry Bytes) (t : Option ℤ) (k : ℕ) (m : Keys) (d : Db)
    → now ≤ℤ later
    → ((u : ℤ) → t ≡ some u → pos 0 <ℤ u)
    → Models m d
    → m e.key ≡ none
    → Replayed later
        (record_at now e t)
        k
        (update m e.key (unless_stale later (some (record { value = e.val; expire_at = t }))))
        d
unfolding record_at Replayed
replay_entry now later e none k m d order positive (valid, reads) fresh =
    let d' = (db_set true d e.key e.val).1 in
    let (stored, status) = db_set-Models valid e.key true e.val (λ _. refl) in
    (
      d',
      k + 1,
      λ rs.
          replay_all_step (env_at later) k (set_record e.key e.val) rs d d'
            (replay_set true true later e.key e.val d ∙ ap (λ st. (st, d')) status),
      (stored.0, λ q. ground (arith, stored.1 q, reads q, reads e.key, fresh)),
    )
replay_entry now later e (some t) k m d order positive (valid, reads) fresh =
    elim (Bool-cases (ltb_ℤ t now)) [
      | inl old ↦ rw old (
        d,
        k,
        λ rs. refl,
        (valid, λ q. ground (arith, reads q, str_eq_iff e.key q, fresh, order)),
      )
      | inr kept ↦ rw kept (elim (Bool-cases (ltb_ℤ t later)) [
        | inl past ↦ (
          d,
          k + 1,
          λ rs. replay_all_step (env_at later) k (setex_record e.key e.val t) rs d d (
              replay_stale true true later (setex_record e.key e.val t) d (positive t refl)
                (ground arith)),
          (valid, λ q. ground (arith, reads q, str_eq_iff e.key q, fresh, past)),
        )
        | inr alive ↦
            let d' = (db_setex true true d e.key e.val t).1 in
            let (stored, status) =
              db_setex-Models valid e.key true true e.val t (positive t refl) (λ _. refl)
                (λ _. refl) in
            (
              d',
              k + 1,
              λ rs.
                  replay_all_step (env_at later) k (setex_record e.key e.val t) rs d d' (
                    replay_setex true true later e.key e.val t d alive
                    ∙ ap (λ st. (st, d')) status),
              (stored.0, λ q. ground (arith, stored.1 q, reads q, alive)),
            )
      ])
    ]
