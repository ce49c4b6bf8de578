-- ===== src/Db/Sweep.antt =====
-- `db_active_sweep`, with the ownership of the key strings: the sweep hands `db_expire_clean` the key
-- of the very entry of `expires` that is then freed.
use bytekv.Prelude.{
  ℕ, zero, suc, ◌+◌, ◌<◌, ◌≡◌, refl, inl, inr, Bool, false, ◌||◌, Option, none, some, List, [], ◌∷◌,
  arith, ltb, ◌==◌, if◌then◌else◌, Bool-cases, Option-cases, get_or, min,
}
use bytekv.Prelude.Bytes.{Bytes}
use bytekv.Prelude.Int.{ℤ}
use bytekv.Ht
use bytekv.Ht.{Ht, Entry, Chain, Status, success, failure}
use bytekv.Db.{Db, is_expired}

-- `freed_read`: freed memory is read. `drawing`: the given random draws do not fill the sample.
pub data Swept : Type 0 where
  swept : ℕ → Db → Swept
  freed_read : Swept
  drawing : Swept

-- `db_del(db, e->key)` for an entry `e` of `expires`. Where the first `ht_del` finds the entry it
-- frees the string, and the second one hashes it: that is `none`. This is so in a valid store, where no key
-- has two entries and every entry is in its home bucket, so that the entry found is `e` itself.
unfoldable pub del_entry : Db → Bytes → Option Db
del_entry db key =
    let (status, expires) = Ht.del db.expires key in
    elim status [
      | success ↦ none
      | failure ↦ some (record db { keyspace = (Ht.del db.keyspace key).1; expires = expires })
    ]

-- `db_expire_clean(db, e->key, now_ms)`
unfoldable pub expire_clean_entry : Db → Bytes → ℤ → Option (ℕ × Db)
unfolding del_entry
expire_clean_entry db key now_ms =
    if is_expired db key now_ms
    then elim (del_entry db key) [ none ↦ none | some db' ↦ some (1, db') ]
    else some (0, db)

-- the inner loop, over one chain
unfoldable pub sweep_chain : Db → ℕ → ℤ → Chain ℤ → Option (ℕ × Db)
unfolding expire_clean_entry
sweep_chain db cleaned now_ms [] = some (cleaned, db)
sweep_chain db cleaned now_ms (e ∷ chain) = elim (expire_clean_entry db e.key now_ms) [
  | none ↦ none
  | some (n, db') ↦ sweep_chain db' (cleaned + n) now_ms chain
]

-- the outer loop, over the picked buckets
unfoldable pub sweep_picks : Db → ℕ → ℤ → List ℕ → Option (ℕ × Db)
unfolding sweep_chain
sweep_picks db cleaned now_ms [] = some (cleaned, db)
sweep_picks db cleaned now_ms (i ∷ picks) =
    elim (sweep_chain db cleaned now_ms (get_or db.expires.table i [])) [
      | none ↦ none
      | some (cleaned', db') ↦ sweep_picks db' cleaned' now_ms picks
    ]

-- the loop that draws buckets at random until `wanted` of them are not empty
unfoldable pub pick : Ht ℤ → ℕ → List ℕ → Option (List ℕ)
pick expires zero draws = some []
pick expires (suc wanted) [] = none
pick expires (suc wanted) (i ∷ draws) = elim (get_or expires.table i []) [
  | [] ↦ pick expires (suc wanted) draws
  | e ∷ chain ↦ elim (pick expires wanted draws) [ none ↦ none | some picks ↦ some (i ∷ picks) ]
]

-- `draws` are the results of `arc4random_uniform`.
unfoldable pub db_active_sweep : Db → ℕ → ℤ → List ℕ → Swept
unfolding sweep_picks pick
db_active_sweep db sample_size now_ms draws =
    if db.expires.used == 0
    then swept 0 db
    else let size = if ltb db.expires.used sample_size then db.expires.used else sample_size in
      elim (pick db.expires size draws) [
        | none ↦ drawing
        | some picks ↦ elim (sweep_picks db 0 now_ms picks) [
          | none ↦ freed_read
          | some (cleaned, db') ↦ swept cleaned db'
        ]
      ]

-- whether a chain, or one of the picked buckets, has a key that is past its expiry
abbrev pub expired_in : Db → ℤ → Chain ℤ → Bool
expired_in db now [] = false
expired_in db now (e ∷ chain) = is_expired db e.key now || expired_in db now chain

abbrev pub expired_among : Db → ℤ → List ℕ → Bool
expired_among db now [] = false
expired_among db now (i ∷ picks) =
    expired_in db now (get_or db.expires.table i []) || expired_among db now picks

module _ (db : Db) (now : ℤ) where
  expire_clean_entry_lem :
      (key : Bytes)
      → expire_clean_entry db key now ≡ (if is_expired db key now then none else some (0, db))
  unfolding expire_clean_entry is_expired Ht.del Ht.find
  expire_clean_entry_lem key = ground arith

  sweep_chain_lem :
      (n : ℕ) (chain : Chain ℤ)
      → sweep_chain db n now chain ≡ (if expired_in db now chain then none else some (n, db))
  unfolding sweep_chain
  sweep_chain_lem n [] = refl
  sweep_chain_lem n (e ∷ chain) =
      let z : n + 0 ≡ n = omega arith in
      elim (Bool-cases (is_expired db e.key now)) [
        | inl old ↦ rw (sweep_chain, expire_clean_entry_lem e.key, old)
        | inr fresh ↦
            rw (sweep_chain, expire_clean_entry_lem e.key, fresh, z) (sweep_chain_lem n chain)
      ]

  sweep_picks_lem :
      (n : ℕ) (picks : List ℕ)
      → sweep_picks db n now picks ≡ (if expired_among db now picks then none else some (n, db))
  unfolding sweep_picks
  sweep_picks_lem n [] = refl
  sweep_picks_lem n (i ∷ picks) =
      rw (sweep_picks, sweep_chain_lem n (get_or db.expires.table i []))
        (ground (arith, sweep_picks_lem n picks))

  -- A sweep of a store with at least one expiry takes the buckets that the random draws give until
  -- the sample is full. If one of the picked buckets has a key that is past its expiry, the sweep
  -- reads freed memory; otherwise it removes nothing and returns 0.
  pub db_active_sweep_outcome :
      (sample_size : ℕ) (draws : List ℕ)
      → 0 < db.expires.used
      → db_active_sweep db sample_size now draws
        ≡ elim (pick db.expires (min sample_size db.expires.used) draws) [
          | none ↦ drawing
          | some picks ↦ if expired_among db now picks then freed_read else swept 0 db
        ]
  unfolding db_active_sweep
  db_active_sweep_outcome sample_size draws used =
      let size : (if ltb db.expires.used sample_size then db.expires.used else sample_size)
          ≡ min sample_size db.expires.used =
        ground arith in
      let test : (db.expires.used == 0) ≡ false = ground arith in
      elim (Option-cases (pick db.expires (min sample_size db.expires.used) draws)) [
        | inl no_picks ↦ rw (test, size, db_active_sweep, no_picks)
        | inr (picks, drawn) ↦
            rw (test, size, db_active_sweep, drawn, sweep_picks_lem 0 picks) (ground arith)
      ]
