-- ===== src/Aof/Recovery/Load.antt =====
-- `aof_load` of src/aof.c on whole log files.
use mathlib.Core.List.{append_assoc}
use bytekv.Prelude.{
  ℕ, suc, ◌+◌, ◌-◌, ◌≡◌, refl, sym, ◌∙◌, ap, true, false, if◌then◌else◌, List, ◌++◌, arith, ◌==◌,
  length, length-append, take, take-append, drop-append, All,
}
use bytekv.Prelude.Bytes.{Bytes, be}
use bytekv.Prelude.Int.{ℤ}
use bytekv.Ht.{success, failure}
use bytekv.Db.{Db}
use bytekv.Aof.{file_header, file_header_size, LogRecord, IsLoggable, encode}
use bytekv.Aof.Layout.{read_file_header-file_header}
use bytekv.Aof.Recovery.{Env, stopped, resume, load_loop, loaded, close_file, aof_load}
use bytekv.Aof.Recovery.Torn.{
  replay_at, replay_all, encode_all, CleanEnd, round_record, run_records, end_stops,
  length-encode_all,
}

-- a whole log file
abbrev pub log_file : ℤ → List LogRecord → Bytes
log_file created_ms rs = file_header created_ms ++ encode_all rs

pub length-file_header : (created_ms : ℤ) → length (file_header created_ms) ≡ file_header_size
unfolding file_header be
length-file_header created_ms = refl

aof_load-loop :
    (env : Env) (created_ms : ℤ) (bytes buf : Bytes) (db : Db)
    → env.opened ≡ true
    → let file = file_header created_ms ++ bytes in
      aof_load env file buf db
      ≡ close_file env.truncated file
          (load_loop (suc (length file)) env 0 bytes buf file_header_size db)
unfolding aof_load
aof_load-loop env created_ms bytes buf db can_open =
    let file = file_header created_ms ++ bytes in
    let some_bytes : (length file == 0) ≡ false =
      ground (arith, length-append (file_header created_ms) bytes, length-file_header created_ms) in
    let after_header =
      drop-append file_header_size (file_header created_ms) bytes (length-file_header created_ms) in
    rw (some_bytes, can_open, read_file_header-file_header created_ms bytes, after_header)

module _ (env : Env) (created_ms : ℤ) (rs : List LogRecord) (buf : Bytes) (db db' : Db)
    (can_open : env.opened ≡ true) (loggable : All IsLoggable rs)
    (run : replay_all env 0 rs db ≡ (success, db')) where
  -- If the loop stops behind the records, whatever bytes follow, the file is cut there, where `ftruncate`
  -- succeeds.
  load_prefix :
      (more : Bytes) (d : Db)
      → ((fuel : ℕ) (buf' : Bytes) (valid_end : ℕ)
          → load_loop (suc fuel) env (length rs) more buf' valid_end db' ≡ stopped d valid_end)
      → let kept = log_file created_ms rs in
        aof_load env (kept ++ more) buf db ≡ loaded d (if env.truncated then kept else kept ++ more)
  unfolding close_file
  load_prefix more d stops =
      let bytes = encode_all rs ++ more in
      let file = file_header created_ms ++ bytes in
      let fuel = length file - length rs in
      let enough : suc (length file) ≡ length rs + suc fuel = omega (
        arith,
        length-append (file_header created_ms) bytes,
        length-append (encode_all rs) more,
        length-encode_all rs,
      ) in
      let (buf', e) =
        run_records rs (suc (length file)) (suc fuel) env 0 more buf file_header_size db db'
          loggable run enough in
      let number : 0 + length rs ≡ length rs = omega arith in
      let cut : take (file_header_size + length (encode_all rs)) file ≡ log_file created_ms rs =
        ap (take (file_header_size + length (encode_all rs)))
          (sym (append_assoc (file_header created_ms) (encode_all rs) more))
        ∙ take-append (file_header_size + length (encode_all rs)) (log_file created_ms rs) more (
            omega (
              arith,
              length-append (file_header created_ms) (encode_all rs),
              length-file_header created_ms,
            )) in
      rw (
        append_assoc (file_header created_ms) (encode_all rs) more,
        aof_load-loop env created_ms bytes buf db can_open,
        e,
        number,
        stops fuel buf' (file_header_size + length (encode_all rs)),
        cut,
      )

  -- Let a log file be a file header, records that `aof_append` could have written and whose replays
  -- in order succeed, and after them either nothing or the beginning of one more such record. Then
  -- `aof_load`, where it can open the file, ends without an access outside its buffer, returns the
  -- store that those replays give, and cuts the file behind the last whole record; or leaves it as
  -- it is, where `ftruncate` fails.
  pub aof_load-torn :
      (tail : Bytes)
      → CleanEnd tail
      → let kept = log_file created_ms rs in
        aof_load env (kept ++ tail) buf db
        ≡ loaded db' (if env.truncated then kept else kept ++ tail)
  aof_load-torn tail clean =
      load_prefix tail db'
        (λ fuel buf' valid_end. end_stops fuel env (length rs) tail buf' valid_end db' clean)

  -- Let a log file be a file header, records that `aof_append` could have written and whose replays
  -- in order succeed, one more such record whose replay fails, and any bytes. Then `aof_load`,
  -- where it can open the file, returns the store that the replays give, the failed one included,
  -- and cuts off the failed record and everything behind it; or leaves the file as it is, where
  -- `ftruncate` fails.
  pub aof_load_failed_record :
      (r : LogRecord) (more : Bytes) (d : Db)
      → IsLoggable r
      → replay_at env (length rs) r db' ≡ (failure, d)
      → let kept = log_file created_ms rs in
        aof_load env (kept ++ (encode r ++ more)) buf db
        ≡ loaded d (if env.truncated then kept else kept ++ (encode r ++ more))
  unfolding resume
  aof_load_failed_record r more d h fails = load_prefix (encode r ++ more) d (λ fuel buf' valid_end.
      let (b, e) = round_record fuel env (length rs) r more buf' valid_end db' h in rw (e, fails))
