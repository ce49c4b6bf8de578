-- ===== src/Aof/Recovery/Any.antt =====
-- `aof_load` of src/aof.c on any file at all.
use bytekv.Prelude.{
  ℕ, zero, suc, ◌+◌, ◌-◌, ◌⊎◌, ◌%◌, ◌^◌, ◌≤◌, ◌<◌, ◌≡◌, refl, sym, ◌∙◌, ap, inl, inr, Bool, true,
  false, not, subst, ◌&&◌, ◌||◌, Option, none, some, [], ◌∷◌, ltb, ◌==◌, length, take, drop, get_or,
  arith, Bool-cases, if-cases, if-both, length-take, length-drop,
}
use bytekv.Prelude.Bytes.{Bytes, be_value, slice, overlay, c_str}
use bytekv.Prelude.Int.{ℤ, pos, from_u64, ltb_ℤ}
use bytekv.Ht.{Status, success, failure}
use bytekv.Db.{Db}
use bytekv.Db.Model.{IsValid}
use bytekv.Db.Writes.{db_del-Models, db_persist-Models}
use bytekv.Db.Keeps.{db_set-IsValid, db_setex-IsValid, db_key_expire-IsValid}
use bytekv.Crc64.{crc64}
use bytekv.Aof.{msg_max, record_max, body_fixed, header_size, file_header_size, read_file_header}
use bytekv.Aof.Recovery.{
  replay_op, aof_replay_record, Ended, stopped, overrun, out_of_fuel, Env, resume, load_loop,
  Loaded, rejected, loaded, faulted, close_file, aof_load,
}

pub replay_op-IsValid :
    (mem_key mem_ttl : Bool) (opcode : ℕ) (key val : Bytes) (expire_at : ℤ) {db : Db}
    → IsValid db
    → IsValid (replay_op mem_key mem_ttl opcode key val expire_at db).1
unfolding replay_op
replay_op-IsValid mem_key mem_ttl opcode key val t valid = elim (Bool-cases (opcode == 1)) [
  | inl e ↦ rw e (db_set-IsValid valid key mem_key val)
  | inr e₁ ↦ elim (Bool-cases (opcode == 2)) [
    | inl e ↦ rw (e₁, e) (db_del-Models valid key).0.0
    | inr e₂ ↦ elim (Bool-cases (opcode == 3)) [
      | inl e ↦ rw (e₁, e₂, e) (db_setex-IsValid valid key mem_key mem_ttl val t)
      | inr e₃ ↦ elim (Bool-cases (opcode == 4)) [
        | inl e ↦ rw (e₁, e₂, e₃, e) (db_key_expire-IsValid valid key mem_ttl t)
        | inr e₄ ↦ elim (Bool-cases (opcode == 5)) [
          | inl e ↦ rw (e₁, e₂, e₃, e₄, e) (db_persist-Models valid key).0.0
          | inr e₅ ↦ rw (e₁, e₂, e₃, e₄, e₅) valid
        ]
      ]
    ]
  ]
]

-- A replay reaches outside the buffer, or leaves a valid store.
data Keeps : Option (Status × Db) → Type 0 where
  outside : Keeps none
  kept : {status : Status} {db : Db} → IsValid db → Keeps (some (status, db))

aof_replay_record-Keeps :
    (mem_key mem_ttl : Bool) (now : ℤ) (buf : Bytes) (body_len : ℕ) {db : Db}
    → IsValid db
    → Keeps (aof_replay_record mem_key mem_ttl now buf body_len db)
unfolding aof_replay_record
aof_replay_record-Keeps mem_key mem_ttl now buf body_len valid =
    let key_len = be_value (slice 1 2 buf) in
    let val_len = be_value (slice 3 4 buf) in
    let expire_at = from_u64 (be_value (slice 7 8 buf)) in
    if-both Keeps (ltb_ℤ (pos 0) expire_at && ltb_ℤ expire_at now) (kept {status = success} valid) (
      if-both Keeps
        (ltb msg_max ((key_len + val_len) % 2 ^ 32)
          || not ((body_fixed + key_len + val_len) % 2 ^ 32 == body_len))
        (kept {status = failure} valid)
        (if-both Keeps
          (ltb msg_max key_len
            || (ltb msg_max val_len || ltb (length buf) (body_fixed + key_len + val_len)))
          {x = none} outside
          (kept (
            replay_op-IsValid mem_key mem_ttl (get_or buf 0 0)
              (c_str (slice body_fixed key_len buf))
              (c_str (slice (body_fixed + key_len) val_len buf)) expire_at valid))))

-- The loop ends outside the buffer, or with a valid store and an offset between two bounds.
data Ends : ℕ → ℕ → Ended → Type 0 where
  outside : {least bound : ℕ} → Ends least bound overrun
  valid_to :
      {least bound : ℕ} {db : Db} {valid_end : ℕ}
      → IsValid db
      → least ≤ valid_end
      → valid_end ≤ bound
      → Ends least bound (stopped db valid_end)

resume-Ends :
    (go : Bytes → Bytes → ℕ → Db → Ended) (rest buf : Bytes) (valid_end size least bound : ℕ)
    (replayed : Option (Status × Db))
    → Keeps replayed
    → least ≤ valid_end
    → valid_end ≤ bound
    → ((db : Db) → IsValid db → Ends least bound (go rest buf (valid_end + size) db))
    → Ends least bound (resume go rest buf valid_end size replayed)
unfolding resume
resume-Ends go rest buf valid_end size least bound none k above inside next = outside
resume-Ends go rest buf valid_end size least bound (some (failure, db)) (kept v) above inside next =
    valid_to v above inside
resume-Ends go rest buf valid_end size least bound (some (success, db)) (kept v) above inside next =
    next db v

load_loop-Ends :
    (fuel : ℕ) (env : Env) (records : ℕ) (rest buf : Bytes) (valid_end least bound : ℕ) {db : Db}
    → IsValid db
    → length rest < fuel
    → least ≤ valid_end
    → valid_end + length rest ≤ bound
    → Ends least bound (load_loop fuel env records rest buf valid_end db)
unfolding load_loop
load_loop-Ends zero env records rest buf valid_end least bound valid enough above inside =
    absurd (omega arith)
load_loop-Ends (suc fuel) env records rest buf valid_end least bound {db} valid enough above
      inside =
    let here : Ends least bound (stopped db valid_end) = valid_to valid above (omega arith) in
    let buf₁ = overlay 0 (take header_size rest) buf in
    let body_len = be_value (slice 8 4 buf₁) in
    let body = take body_len (drop header_size rest) in
    let buf₂ = overlay header_size body buf₁ in
    let sums = be_value (slice 0 8 buf₂) == crc64 0 (slice 8 (body_len + 4) buf₂) in
    let next = load_loop fuel env (records + 1) in
    let size = length-drop (header_size + body_len) rest in
    let inner = length-take body_len (drop header_size rest) in
    let outer = length-drop header_size rest in
    let replayed =
      aof_replay_record-Keeps (env.mem_key records) (env.mem_ttl records) (env.realtime_ms records)
        (drop header_size buf₂) body_len valid in
    if-cases (Ends least bound) (ltb (length rest) header_size) (λ short. here)
      (λ long.
        if-both (Ends least bound) (ltb record_max (header_size + length body)) {x = overrun}
          outside
          (if-cases (Ends least bound) (ltb (length body) body_len) (λ cut. here)
            (λ whole. if-both (Ends least bound) (not sums) here (
              resume-Ends next (drop (header_size + body_len) rest) buf₂ valid_end
                (header_size + body_len) least bound _ replayed above (omega arith)
                (λ d v.
                  load_loop-Ends fuel env (records + 1) (drop (header_size + body_len) rest) buf₂
                    (valid_end + (header_size + body_len)) least bound v (ground (arith, size))
                    (omega arith) (ground (arith, size, inner, outer)))))))

-- nothing, or bytes that begin with an accepted file header
abbrev pub IsLog : Bytes → Type 0
IsLog file = (length file ≡ 0) ⊎ (read_file_header file ≡ true)

-- How `aof_load` ends on a file: it returns -1; it reads or writes outside its buffer; or it returns a
-- valid store, and the file is a prefix of itself that is a log; it is cut only where `ftruncate` succeeds.
pub data Recovered (truncated : Bool) (file : Bytes) : Loaded → Type 0 where
  rejects : Recovered truncated file rejected
  faults : Recovered truncated file faulted
  recovers :
      {db : Db} (kept : ℕ)
      → IsValid db
      → (truncated ≡ false → length file ≤ kept)
      → IsLog (take kept file)
      → Recovered truncated file (loaded db (take kept file))

take-take : (n m : ℕ) → n ≤ m → (xs : Bytes) → take n (take m xs) ≡ take n xs
take-take zero m h xs = refl
take-take (suc n) zero h xs = absurd (omega arith)
take-take (suc n) (suc m) h [] = refl
take-take (suc n) (suc m) h (x ∷ xs) = ap (λ t. x ∷ t) (take-take n m (omega arith) xs)

take_nil : (n : ℕ) → ◌≡◌ {A = Bytes} [] (take n [])
take_nil zero = refl
take_nil (suc n) = refl

drop-take : (n m : ℕ) (xs : Bytes) → drop n (take m xs) ≡ take (m - n) (drop n xs)
drop-take zero m xs = ap (λ k. take k xs) (omega arith)
drop-take (suc n) zero xs =
    let none_left : 0 ≡ 0 - suc n = omega arith in ap (λ k. take k (drop (suc n) xs)) none_left
drop-take (suc n) (suc m) [] = take_nil (suc m - suc n)
drop-take (suc n) (suc m) (x ∷ xs) =
    let same : m - n ≡ suc m - suc n = omega arith in
    drop-take n m xs ∙ ap (λ k. take k (drop n xs)) same

slice-take :
    (from size m : ℕ) (xs : Bytes)
    → from + size ≤ m
    → slice from size (take m xs) ≡ slice from size xs
slice-take from size m xs h =
    ap (take size) (drop-take from m xs) ∙ take-take size (m - from) (omega arith) (drop from xs)

header_fits : (file : Bytes) → read_file_header file ≡ true → file_header_size ≤ length file
unfolding read_file_header
header_fits file good = ground (arith, good)

-- The header of a file is that of every prefix that holds it.
pub read_file_header-take :
    (m : ℕ) (file : Bytes)
    → file_header_size ≤ m
    → read_file_header file ≡ true
    → read_file_header (take m file) ≡ true
unfolding read_file_header
read_file_header-take m file h good =
    rw
      (
        slice-take 0 8 m file (omega arith),
        slice-take 8 4 m file (omega arith),
        slice-take 24 8 m file (omega arith),
        slice-take 0 24 m file (omega arith),
        length-take m file,
      )
      (ground (arith, good))

take_all : (xs : Bytes) → take (length xs) xs ≡ xs
take_all [] = refl
take_all (x ∷ xs) = ap (λ t. x ∷ t) (take_all xs)

-- a file that is not cut
whole_Recovered :
    (truncated : Bool) (file : Bytes) {db : Db}
    → IsLog file
    → IsValid db
    → Recovered truncated file (loaded db file)
whole_Recovered truncated file {db} is_log valid =
    let all : take (length file) file ≡ file = take_all file in
    subst (λ f. Recovered truncated file (loaded db f)) all
      (recovers (length file) valid (λ _. omega arith) (subst IsLog (sym all) is_log))

close_file-Recovered :
    (truncated : Bool) (file : Bytes) (e : Ended)
    → read_file_header file ≡ true
    → Ends file_header_size (length file) e
    → Recovered truncated file (close_file truncated file e)
unfolding close_file
close_file-Recovered true file (stopped db valid_end) good (valid_to v above inside) =
    recovers valid_end v (λ h. ground (arith, h))
      (inr (read_file_header-take valid_end file above good))
close_file-Recovered false file (stopped db valid_end) good (valid_to v above inside) =
    whole_Recovered false file (inr good) v
close_file-Recovered truncated file overrun good h = faults
close_file-Recovered truncated file out_of_fuel good h = elim h [ ]

-- On any bytes, and whatever `open`, `malloc` and `ftruncate` give, `aof_load` into a valid store
-- ends: with -1; with a read or a write outside its buffer; or with a valid store and the file cut
-- to a prefix of itself, the whole of it where `ftruncate` fails, which is empty or begins with an
-- accepted file header.
pub aof_load-Recovered :
    (env : Env) (file buf : Bytes) {db : Db}
    → IsValid db
    → Recovered env.truncated file (aof_load env file buf db)
unfolding aof_load
aof_load-Recovered env file buf {db} valid = elim (Bool-cases (length file == 0)) [
  | inl e ↦ rw e (whole_Recovered env.truncated file (inl (ground (arith, e))) valid)
  | inr e ↦ rw e (
      if-both (Recovered env.truncated file) (not env.opened) rejects (
        if-cases (Recovered env.truncated file) (not (read_file_header file)) (λ bad. rejects)
          (λ ok.
            let good : read_file_header file ≡ true = ground (arith, ok) in
            close_file-Recovered env.truncated file _ good (
              load_loop-Ends (suc (length file)) env 0 (drop file_header_size file) buf
                file_header_size file_header_size (length file) valid
                (omega (arith, length-drop file_header_size file)) (omega arith)
                (omega (arith, length-drop file_header_size file, header_fits file good))))))
]
