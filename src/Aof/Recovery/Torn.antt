-- ===== src/Aof/Recovery/Torn.antt =====
-- The loop of `aof_load` of src/aof.c on a sequence of records and a torn end.
use mathlib.Core.List.{append_assoc, append-nil}
use bytekv.Prelude.{
  ℕ, zero, suc, ◌+◌, ◌-◌, ◌%◌, ◌^◌, ◌≤◌, ◌<◌, ◌≡◌, refl, sym, ◌∙◌, ap, ◌⊎◌, inl, inr, true, false,
  Bool-cases, some, List, [], ◌∷◌, ◌++◌, arith, ltb, length, length-append, take, drop,
  take-append_left, length-take, length-drop, All,
}
use bytekv.Prelude.Bytes.{Bytes, be, be_value, be_value-be}
use bytekv.Ht.{Status, success, failure}
use bytekv.Db.{Db}
use bytekv.Crc64.{crc64}
use bytekv.Aof.{record_max, header_size, LogRecord, IsLoggable, checked, encode}
use bytekv.Aof.Layout.{length-encode, checksum-lt}
use bytekv.Aof.Recovery.{Env, stopped, resume, load_loop}
use bytekv.Aof.Recovery.Round.{
  framed, framed_slices, body, body_len, replay, aof_replay_record-body, round_framed,
}

encode-framed :
    (r : LogRecord) → IsLoggable r → encode r ≡ framed (crc64 0 (checked r)) (body_len r) (body r)
unfolding encode
encode-framed r h =
    let e : body_len r % 2 ^ 32 ≡ body_len r = omega (arith, h.fits) in
    ap (λ n. be 8 (crc64 0 (checked r)) ++ (be 4 n ++ body r)) e

checked_sum :
    (r : LogRecord) → IsLoggable r → crc64 0 (be 4 (body_len r) ++ body r) ≡ crc64 0 (checked r)
checked_sum r h =
    let e : body_len r ≡ body_len r % 2 ^ 32 = omega (arith, h.fits) in
    ap (λ n. crc64 0 (be 4 n ++ body r)) e

length-body : (r : LogRecord) → length (body r) ≡ body_len r
unfolding be
length-body r = omega (arith, length-append r.key r.value)

-- the replay of the record with the number `n`
abbrev pub replay_at : Env → ℕ → LogRecord → Db → Status × Db
replay_at env n r db = replay (env.mem_key n) (env.mem_ttl n) (env.realtime_ms n) r db

-- A round on a whole record replays it, goes on behind it, and moves `valid_end` past it.
pub round_record :
    (fuel : ℕ) (env : Env) (n : ℕ) (r : LogRecord) (more buf : Bytes) (valid_end : ℕ) (db : Db)
    → IsLoggable r
    → (buf' : Bytes) × (load_loop (suc fuel) env n (encode r ++ more) buf valid_end db
        ≡ resume
            (load_loop fuel env (n + 1))
            more
            buf'
            valid_end
            (length (encode r))
            (some (replay_at env n r db)))
round_record fuel env n r more buf valid_end db h =
    let (junk, buf', e) =
      round_framed fuel env n (crc64 0 (checked r)) (body_len r) (body r) more buf valid_end db
        (checksum-lt r h) (length-body r) (omega (arith, h.fits)) (checked_sum r h) in
    let size : length (encode r) ≡ header_size + body_len r = omega (arith, length-encode r) in
    (
      buf',
      rw (
        size,
        encode-framed r h,
        e,
        aof_replay_record-body (env.mem_key n) (env.mem_ttl n) (env.realtime_ms n) r junk db h,
      ),
    )

-- Bytes that begin a record and do not end it.
pub record IsTorn (tail : Bytes) : Type 0 where
  pub whole : LogRecord
  pub loggable : IsLoggable whole
  pub missing : Bytes
  pub cut : encode whole ≡ tail ++ missing
  pub some_missing : 0 < length missing

-- The loop stops at a torn record and leaves the store and `valid_end` as they are.
round_torn :
    (fuel : ℕ) (env : Env) (n : ℕ) (tail buf : Bytes) (valid_end : ℕ) (db : Db)
    → IsTorn tail
    → load_loop (suc fuel) env n tail buf valid_end db ≡ stopped db valid_end
unfolding load_loop
round_torn fuel env n tail buf valid_end db t =
    let r = t.whole in
    let h = t.loggable in
    let c = crc64 0 (checked r) in
    let m = body_len r in
    let whole : tail ++ t.missing ≡ framed c m (body r) = sym t.cut ∙ encode-framed r h in
    let total : length tail + length t.missing ≡ header_size + m =
      omega (arith, length-encode r, ap length t.cut, length-append tail t.missing) in
    elim (Bool-cases (ltb (length tail) header_size)) [
      | inl short ↦ rw short
      | inr long ↦
          let (head, rest, size, n_field, c_field, junk) = framed_slices c m (body r) [] buf in
          let n_read = ap be_value n_field ∙ be_value-be 4 m (omega (arith, h.fits)) in
          let head_is : take header_size tail ≡ be 8 c ++ be 4 m =
            sym (take-append_left header_size tail t.missing (ground arith))
            ∙ ap (take header_size) (whole ∙ sym (append-nil (framed c m (body r))))
            ∙ head in
          let cut : length (take m (drop header_size tail)) ≡ length tail - header_size = omega (
            arith,
            length-take m (drop header_size tail),
            length-drop header_size tail,
            t.some_missing,
          ) in
          let fits : ltb record_max (header_size + (length tail - header_size)) ≡ false =
            ground (arith, h.fits, t.some_missing) in
          let less : ltb (length tail - header_size) m ≡ true = ground (arith, t.some_missing) in
          rw (long, head_is, n_read, cut, fits, less)
    ]

abbrev pub encode_all : List LogRecord → Bytes
encode_all [] = []
encode_all (r ∷ rs) = encode r ++ encode_all rs

-- The replay of records in order, up to the first one that fails.
unfoldable pub replay_all : Env → ℕ → List LogRecord → Db → Status × Db
replay_all env n [] db = (success, db)
replay_all env n (r ∷ rs) db =
    let (status, db') = replay_at env n r db in
    let rest = replay_all env (n + 1) rs db' in
    elim status [ success ↦ rest | failure ↦ (failure, db') ]

Status-cases : (s : Status) → (s ≡ success) ⊎ (s ≡ failure)
Status-cases success = inl refl
Status-cases failure = inr refl

pub replay_all_head :
    (env : Env) (n : ℕ) (r : LogRecord) (rs : List LogRecord) (db db' : Db)
    → replay_all env n (r ∷ rs) db ≡ (success, db')
    → (d : Db) × (replay_at env n r db ≡ (success, d))
      × (replay_all env (n + 1) rs d ≡ (success, db'))
unfolding replay_all
replay_all_head env n r rs db db' h = elim (Status-cases (replay_at env n r db).0) [
  | inl e ↦ ((replay_at env n r db).1, ground arith, ground arith)
  | inr e ↦ ground arith
]

pub replay_all_step :
    (env : Env) (n : ℕ) (r : LogRecord) (rs : List LogRecord) (db d : Db)
    → replay_at env n r db ≡ (success, d)
    → replay_all env n (r ∷ rs) db ≡ replay_all env (n + 1) rs d
unfolding replay_all
replay_all_step env n r rs db d h = ground arith

-- The loop goes through records whose replays succeed, whatever stands behind them.
pub run_records :
    (rs : List LogRecord) (fuel k : ℕ) (env : Env) (n : ℕ) (more buf : Bytes) (valid_end : ℕ)
    (db db' : Db)
    → All IsLoggable rs
    → replay_all env n rs db ≡ (success, db')
    → fuel ≡ length rs + k
    → (buf' : Bytes) × (load_loop fuel env n (encode_all rs ++ more) buf valid_end db
        ≡ load_loop k env (n + length rs) more buf' (valid_end + length (encode_all rs)) db')
unfolding replay_all resume
run_records [] fuel k env n more buf valid_end db db' hs run enough =
    let e₁ : fuel ≡ k = omega arith in
    let e₂ : n + 0 ≡ n = omega arith in
    let e₃ : valid_end + 0 ≡ valid_end = omega arith in
    (
      buf,
      rw (e₁, e₂, e₃)
          (ap (load_loop k env n more buf valid_end) (ap (λ (x : Status × Db). x.1) run)),
    )
run_records (r ∷ rs) zero k env n more buf valid_end db db' hs run enough = absurd (omega arith)
run_records (r ∷ rs) (suc fuel) k env n more buf valid_end db db' (h, hs) run enough =
    let (d, step, later) = replay_all_head env n r rs db db' run in
    let (buf₁, e) = round_record fuel env n r (encode_all rs ++ more) buf valid_end db h in
    let (buf₂, ih) =
      run_records rs fuel k env (n + 1) more buf₁ (valid_end + length (encode r)) d db' hs later
        (omega arith) in
    let n_is : n + suc (length rs) ≡ n + 1 + length rs = omega arith in
    let end_is : valid_end + length (encode r ++ encode_all rs)
        ≡ valid_end + length (encode r) + length (encode_all rs) =
      omega (arith, length-append (encode r) (encode_all rs)) in
    (buf₂, rw (append_assoc (encode r) (encode_all rs) more, e, step, n_is, end_is) ih)

abbrev pub CleanEnd : Bytes → Type 0
CleanEnd tail = (tail ≡ []) ⊎ IsTorn tail

pub end_stops :
    (fuel : ℕ) (env : Env) (n : ℕ) (tail buf : Bytes) (valid_end : ℕ) (db : Db)
    → CleanEnd tail
    → load_loop (suc fuel) env n tail buf valid_end db ≡ stopped db valid_end
end_stops fuel env n tail buf valid_end db (inl e) = rw e (unfold load_loop in refl)
end_stops fuel env n tail buf valid_end db (inr torn) =
    round_torn fuel env n tail buf valid_end db torn

-- every record takes room
pub length-encode_all : (rs : List LogRecord) → length rs ≤ length (encode_all rs)
length-encode_all [] = omega arith
length-encode_all (r ∷ rs) =
    omega (arith, length-append (encode r) (encode_all rs), length-encode r, length-encode_all rs)
