-- ===== src/Aof/Recovery/Round.antt =====
-- One round of `aof_load` and `aof_replay_record` of src/aof.c, on one record.
use mathlib.Core.List.{append_assoc}
use bytekv.Prelude.{
  ℕ, suc, ◌+◌, ◌%◌, ◌^◌, ◌≤◌, ◌<◌, ◌≡◌, refl, ◌∙◌, ap, Bool, true, false, Bool-cases, inl, inr,
  ◌&&◌, some, ◌∷◌, ◌++◌, arith, ltb, ◌==◌, if◌then◌else◌, length, length-append, take, drop, get_or,
  take-append, drop-append, drop-add,
}
use bytekv.Prelude.Bytes.{Bytes, be, be_value, slice, overlay, be_value-be, length-be, c_str-IsText}
use bytekv.Prelude.Int.{ℤ, pos, to_u64, from_u64, to_u64-lt, from_u64-to_u64, ltb_ℤ}
use bytekv.Ht.{Status, success}
use bytekv.Db.{Db}
use bytekv.Aof.{
  opcode_byte, msg_max, record_max, header_size, body_fixed, fixed_fields, LogRecord, IsLoggable,
}
use bytekv.Crc64.{crc64}
use bytekv.Aof.Recovery.{replay_op, aof_replay_record, Env, resume, load_loop}

-- the body of a record, over the values of its fields
abbrev body_of : ℕ → ℕ → ℕ → ℕ → Bytes → Bytes
body_of op kl vl w rest = op ∷ ((be 2 kl ++ (be 4 vl ++ be 8 w)) ++ rest)

body_slices :
    (op kl vl w : ℕ) (rest : Bytes)
    → let buf = body_of op kl vl w rest in
      (get_or buf 0 0 ≡ op)
      × (slice 1 2 buf ≡ be 2 kl)
      × (slice 3 4 buf ≡ be 4 vl)
      × (slice 7 8 buf ≡ be 8 w)
      × (drop body_fixed buf ≡ rest)
      × (length buf ≡ body_fixed + length rest)
unfolding be
body_slices op kl vl w rest = (refl, refl, refl, refl, refl, omega arith)

text_slices :
    (key value junk : Bytes) (n : ℕ) (buf : Bytes)
    → drop n buf ≡ (key ++ value) ++ junk
    → (slice n (length key) buf ≡ key) × (slice (n + length key) (length value) buf ≡ value)
text_slices key value junk n buf e =
    let e' : drop n buf ≡ key ++ (value ++ junk) = e ∙ append_assoc key value junk in
    (
      rw e' (take-append (length key) key (value ++ junk) refl),
      rw (drop-add n (length key) buf, e', drop-append (length key) key (value ++ junk) refl)
          (take-append (length value) value junk refl),
    )

-- the body of a record, as it stands in the buffer before some other bytes
abbrev pub body : LogRecord → Bytes
body r = fixed_fields r.op (length r.key) (length r.value) r.expire_at ++ (r.key ++ r.value)

abbrev pub body_len : LogRecord → ℕ
body_len r = body_fixed + length r.key + length r.value

-- What a replay at the time `now` does with a record: it leaves out one whose time is past.
unfoldable pub replay : Bool → Bool → ℤ → LogRecord → Db → Status × Db
replay mem_key mem_ttl now r db =
    if ltb_ℤ (pos 0) r.expire_at && ltb_ℤ r.expire_at now
    then (success, db)
    else replay_op mem_key mem_ttl (opcode_byte r.op) r.key r.value r.expire_at db

-- a replay of a buffer whose fields are known
replay_fields :
    (mem_key mem_ttl : Bool) (now : ℤ) (r : LogRecord) (buf : Bytes) (db : Db)
    → IsLoggable r
    → get_or buf 0 0 ≡ opcode_byte r.op
    → be_value (slice 1 2 buf) ≡ length r.key
    → be_value (slice 3 4 buf) ≡ length r.value
    → from_u64 (be_value (slice 7 8 buf)) ≡ r.expire_at
    → slice body_fixed (length r.key) buf ≡ r.key
    → slice (body_fixed + length r.key) (length r.value) buf ≡ r.value
    → body_len r ≤ length buf
    → aof_replay_record mem_key mem_ttl now buf (body_len r) db
      ≡ some (replay mem_key mem_ttl now r db)
unfolding aof_replay_record replay
replay_fields mem_key mem_ttl now r buf db h op_is kl vl time key value room =
    let sum : ltb msg_max ((length r.key + length r.value) % 2 ^ 32) ≡ false =
      ground (arith, h.fits) in
    let whole : (body_len r % 2 ^ 32 == body_len r) ≡ true = ground (arith, h.fits) in
    let small_key : ltb msg_max (length r.key) ≡ false = ground (arith, h.fits) in
    let small_value : ltb msg_max (length r.value) ≡ false = ground (arith, h.fits) in
    let inside : ltb (length buf) (body_len r) ≡ false = ground arith in
    elim (Bool-cases (ltb_ℤ (pos 0) r.expire_at && ltb_ℤ r.expire_at now)) [
      | inl past ↦ rw (time, past)
      | inr kept ↦ rw (
        op_is,
        kl,
        vl,
        time,
        key,
        value,
        kept,
        sum,
        whole,
        small_key,
        small_value,
        inside,
        c_str-IsText r.key h.key,
        c_str-IsText r.value h.value,
      )
    ]

-- The replay of the body of a record that `aof_append` could have written, whatever bytes stand
-- behind it in the buffer, is the operation that was logged, on the logged key, value and time; or
-- nothing, where the time is positive and past.
pub aof_replay_record-body :
    (mem_key mem_ttl : Bool) (now : ℤ) (r : LogRecord) (junk : Bytes) (db : Db)
    → IsLoggable r
    → aof_replay_record mem_key mem_ttl now (body r ++ junk) (body_len r) db
      ≡ some (replay mem_key mem_ttl now r db)
aof_replay_record-body mem_key mem_ttl now r junk db h =
    let (op, kl, vl, w, rest, len) =
      body_slices (opcode_byte r.op) (length r.key % 2 ^ 16) (length r.value % 2 ^ 32)
        (to_u64 r.expire_at) ((r.key ++ r.value) ++ junk) in
    let (key, value) =
      text_slices r.key r.value junk body_fixed (body_of _ _ _ _ ((r.key ++ r.value) ++ junk))
        rest in
    let joined =
      append_assoc (fixed_fields r.op (length r.key) (length r.value) r.expire_at)
        (r.key ++ r.value) junk in
    rw joined (
      replay_fields mem_key mem_ttl now r _ db h op
        (ap be_value kl
          ∙ be_value-be 2 (length r.key % 2 ^ 16) (omega arith)
          ∙ ground (arith, h.fits))
        (ap be_value vl
          ∙ be_value-be 4 (length r.value % 2 ^ 32) (omega arith)
          ∙ ground (arith, h.fits))
        (ap (λ t. from_u64 (be_value t)) w
          ∙ ap from_u64 (be_value-be 8 (to_u64 r.expire_at) (to_u64-lt r.expire_at))
          ∙ from_u64-to_u64 r.expire_at h.time)
        key value
        (omega (arith, len, length-append (r.key ++ r.value) junk, length-append r.key r.value)))

-- the bytes of a record, over its checksum, its length field and its body
abbrev pub framed : ℕ → ℕ → Bytes → Bytes
framed c n bd = be 8 c ++ (be 4 n ++ bd)

-- the buffer after both reads of a round
abbrev pub filled : ℕ → ℕ → Bytes → Bytes → Bytes
filled c n bd buf = overlay header_size bd (overlay 0 (be 8 c ++ be 4 n) buf)

pub framed_slices :
    (c n : ℕ) (bd more buf : Bytes)
    → let rest = framed c n bd ++ more in
      (take header_size rest ≡ be 8 c ++ be 4 n)
      × (drop header_size rest ≡ bd ++ more)
      × (length rest ≡ header_size + (length bd + length more))
      × (slice 8 4 (overlay 0 (be 8 c ++ be 4 n) buf) ≡ be 4 n)
      × (slice 0 8 (filled c n bd buf) ≡ be 8 c)
      × ((junk : Bytes) × (drop 8 (filled c n bd buf) ≡ (be 4 n ++ bd) ++ junk)
          × (drop header_size (filled c n bd buf) ≡ bd ++ junk))
unfolding be
framed_slices c n bd more buf =
    (refl, refl, omega (arith, length-append bd more), refl, refl, (_, refl, refl))

pub round_framed :
    (fuel : ℕ) (env : Env) (records : ℕ) (c n : ℕ) (bd more buf : Bytes) (valid_end : ℕ) (db : Db)
    → c < 2 ^ 64
    → length bd ≡ n
    → header_size + n ≤ record_max
    → crc64 0 (be 4 n ++ bd) ≡ c
    → (junk buf' : Bytes) × (load_loop
          (suc fuel)
          env
          records
          (framed c n bd ++ more)
          buf
          valid_end
          db
        ≡ resume (load_loop fuel env (records + 1)) more buf' valid_end (header_size + n) (
            aof_replay_record
              (env.mem_key records)
              (env.mem_ttl records)
              (env.realtime_ms records)
              (bd ++ junk)
              n
              db))
unfolding load_loop
round_framed fuel env records c n bd more buf valid_end db small len room sum =
    let (head, tail, size, n_field, c_field, (junk, covered, body_at)) =
      framed_slices c n bd more buf in
    let n_read = ap be_value n_field ∙ be_value-be 4 n (omega arith) in
    let c_read = ap be_value c_field ∙ be_value-be 8 c small in
    let long : ltb (length (framed c n bd ++ more)) header_size ≡ false = ground (arith, size) in
    let fits : ltb record_max (header_size + n) ≡ false = ground arith in
    let whole : ltb n n ≡ false = ground arith in
    let same : (c == c) ≡ true = ground arith in
    let covered_is : slice 8 (n + 4) (filled c n bd buf) ≡ be 4 n ++ bd = rw covered (
      take-append (n + 4) (be 4 n ++ bd) junk
        (omega (arith, length-append (be 4 n) bd, length-be 4 n))) in
    let rest_is : drop (header_size + n) (framed c n bd ++ more) ≡ more =
      rw (drop-add header_size n (framed c n bd ++ more), tail) (drop-append n bd more len) in
    (
      junk,
      filled c n bd buf,
      rw (
        head,
        tail,
        n_read,
        take-append n bd more len,
        c_read,
        long,
        covered_is,
        sum,
        body_at,
        rest_is,
        len,
        fits,
        whole,
        same,
      ),
    )
