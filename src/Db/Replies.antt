-- ===== src/Db/Replies.antt =====
-- src/db.c: what a client sees across two operations.
use bytekv.Prelude.{ℕ, ◌≡◌, ◌≢◌, refl, true, false, none, some, arith, if◌then◌else◌, ◌+◌, ◌/◌, ◌*◌}
use bytekv.Prelude.Bytes.{Bytes, str_eq_iff, str_eq_refl}
use bytekv.Prelude.Int.{
  ℤ, pos, negsuc, pos_part, neg_part, ltb_ℤ, ◌<ℤ◌, ◌≤ℤ◌, ◌+ℤ◌, ◌-ℤ◌, quot_ℤ, +ℤ_parts, -ℤ_parts,
}
use bytekv.Db.{Db, db_get, db_get_ttl, db_set, db_setex, db_persist}
use bytekv.Db.Model.{view, IsValid}
use bytekv.Db.Writes.{db_set-Models, db_setex-Models, db_persist-Models}
use bytekv.Db.Reads.{stale, db_get-Models, db_get_ttl-Models}

neg_part_of_nonneg : (d : ℤ) → pos 0 ≤ℤ d → neg_part d ≡ 0
neg_part_of_nonneg (pos n) h = refl
neg_part_of_nonneg (negsuc n) h = absurd (omega arith)

quot_of_nonneg : (d : ℤ) → pos 0 ≤ℤ d → quot_ℤ d 1000 ≡ pos (pos_part d / 1000)
quot_of_nonneg (pos n) h = ground arith
quot_of_nonneg (negsuc n) h = absurd (omega arith)

module _ {db : Db} (valid : IsValid db) (k : Bytes) where
  -- In a valid store, a GET, which may drop its key, does not change what a GET of any key returns
  -- at the same time or later.
  pub get-get :
      (q : Bytes) (now later : ℤ)
      → now ≤ℤ later
      → (db_get (db_get db k now).1 q later).0 ≡ (db_get db q later).0
  get-get q now later h =
      let (m, e) = db_get-Models valid k now in
      ground (
        arith,
        (db_get-Models m.0 q later).1,
        (db_get-Models valid q later).1,
        m.1 q,
        str_eq_iff k q,
      )

  -- In a valid store, after a SETEX for which there is memory and whose time is positive, a GET of
  -- the key returns the value up to and including that time, and nothing later.
  pub get-setex :
      (value : Bytes) (t now : ℤ)
      → pos 0 <ℤ t
      → (db_get (db_setex true true db k value t).1 k now).0
        ≡ (if ltb_ℤ t now then none else some value)
  get-setex value t now positive =
      let (m, e) = db_setex-Models valid k true true value t positive (λ _. refl) (λ _. refl) in
      ground (arith, (db_get-Models m.0 k now).1, m.1 k, str_eq_refl k)

  -- In a valid store, a SETEX of one key, for which there is memory and whose time is positive,
  -- does not change what GET returns for another key.
  pub get-setex_ne :
      (q value : Bytes) (t now : ℤ)
      → pos 0 <ℤ t
      → k ≢ q
      → (db_get (db_setex true true db k value t).1 q now).0 ≡ (db_get db q now).0
  get-setex_ne q value t now positive ne =
      let (m, e) = db_setex-Models valid k true true value t positive (λ _. refl) (λ _. refl) in
      ground (
        arith,
        (db_get-Models m.0 q now).1,
        (db_get-Models valid q now).1,
        m.1 q,
        str_eq_iff k q,
        ne,
      )

  -- A SET keeps the expiry of its key: the new value is returned as long as the old one would be.
  pub get-set :
      (value : Bytes) (now : ℤ)
      → (db_get (db_set true db k value).1 k now).0
        ≡ (if stale now (view db k) then none else some value)
  get-set value now =
      let (m, e) = db_set-Models valid k true value (λ _. refl) in
      ground (arith, (db_get-Models m.0 k now).1, m.1 k, str_eq_refl k)

  -- In a valid store, let the key have an expiry that is past and not be dropped yet. The value
  -- that a SET of it stores is returned by no GET at that time or later.
  pub set-stale_lost :
      (value : Bytes) (now later : ℤ)
      → stale now (view db k) ≡ true
      → now ≤ℤ later
      → (db_get (db_set true db k value).1 k later).0 ≡ none
  set-stale_lost value now later old h = ground (arith, get-set value later)

  -- After PERSIST the value that was there is returned at every time.
  pub get-persist :
      (now : ℤ)
      → (db_get (db_persist db k).1 k now).0
        ≡ elim (view db k) [ none ↦ none | some item ↦ some item.value ]
  get-persist now =
      let (m, e) = db_persist-Models valid k in
      ground (arith, (db_get-Models m.0 k now).1, m.1 k, str_eq_refl k)

  -- In a valid store, the TTL of a key whose expiry is not before the time is a number that is not
  -- negative, so neither of the two error codes, and it is the number of whole seconds left.
  pub ttl_bounds :
      (now t : ℤ) (value : Bytes)
      → view db k ≡ some (record { value = value; expire_at = some t })
      → now ≤ℤ t
      → (n : ℕ) × ((db_get_ttl db k now).0 ≡ pos n)
        × (now +ℤ pos (1000 * n) ≤ℤ t)
        × (t <ℤ now +ℤ pos (1000 * (n + 1)))
  ttl_bounds now t value here h =
      let fresh : ltb_ℤ t now ≡ false = ground arith in
      let left : neg_part (t -ℤ now) ≡ 0 =
        neg_part_of_nonneg (t -ℤ now) (omega (arith, -ℤ_parts t now)) in
      (
        pos_part (t -ℤ now) / 1000,
        ground (
          arith,
          (db_get_ttl-Models valid k now).1,
          quot_of_nonneg (t -ℤ now) (omega (arith, -ℤ_parts t now)),
        ),
        omega (arith, -ℤ_parts t now, +ℤ_parts now (pos (1000 * (pos_part (t -ℤ now) / 1000)))),
        omega (arith, -ℤ_parts t now, +ℤ_parts now (pos (1000 * (pos_part (t -ℤ now) / 1000 + 1)))),
      )
