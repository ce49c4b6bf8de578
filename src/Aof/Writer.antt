-- ===== src/Aof/Writer.antt =====
-- The writing half of src/aof.c: `aof_append`, the diff buffer of a rewrite, and its life cycle.
pub mod Diff
pub mod Append
pub mod Rewrite
pub mod Backoff
pub mod Finish
pub mod Lossless
pub mod Child
pub mod Snapshot
pub mod Compaction
pub mod Rewritten
pub mod Sound
pub mod Moves
use bytekv.Prelude.{
  ℕ, zero, suc, ◌+◌, ◌-◌, ◌*◌, ◌/◌, ◌%◌, ◌≤◌, Bool, true, false, not, ◌&&◌, ◌||◌, Option, none,
  some, List, [], ◌∷◌, ◌++◌, ltb, leb, ◌==◌, if◌then◌else◌, length, take,
}
use bytekv.Prelude.Bytes.{Bytes}
use bytekv.Ht.{Status, success, failure}
use bytekv.Aof.{LogRecord, record_max, aof_serialize}

-- `aof_policy_t`
pub data Policy : Type 0 where
  no_fsync per_tick always : Policy

-- `aof_rewrite_state_t`
pub data RewriteState : Type 0 where
  idle active aborting : RewriteState

-- the fields of `server_config_t` that the log reads
pub record Config : Type 0 where
  pub aof_enabled : Bool
  pub aof_policy : Policy
  pub hz : ℕ
  pub aof_check_hz : ℕ
  pub rewrite_min_size : ℕ
  pub rewrite_growth : ℕ
  pub rewrite_buf_max_size : ℕ
  pub backoff_base_ms : ℕ
  pub backoff_max_ms : ℕ

-- The fields of `server_t` that the log reads and writes, the two `static` variables of the periodic
-- tasks, and the contents of the two files. `rewrite_buf` is nothing where the pointer is NULL.
pub record Server : Type 0 where
  pub now_ms : ℕ
  pub aof_file : Bytes
  pub temp_file : Option Bytes
  pub aof_buf_dirty : Bool
  pub rewrite_state : RewriteState
  pub rewrite_buf : Option Bytes
  pub rewrite_cap : ℕ
  pub rewrite_last_size : ℕ
  pub total_writes : ℕ
  pub total_fsyncs : ℕ
  pub rewrites_completed : ℕ
  pub rewrites_failed : ℕ
  pub last_rewrite_start_ms : ℕ
  pub last_rewrite_duration_ms : ℕ
  pub failed_streak : ℕ
  pub next_attempt_ms : ℕ
  pub last_fsync_ms : ℕ
  pub last_check_ms : ℕ

-- `write_all`: everything was written, or an error came after some bytes
pub data Written : Type 0 where
  all_written : Written
  cut_after : ℕ → Written

-- `durable_flush(fd)`, where `flushed` is whether the system call succeeds
unfoldable pub durable_flush : Bool → Server → Bool × Server
durable_flush flushed s =
    if flushed then (true, record s { total_fsyncs = s.total_fsyncs + 1 }) else (false, s)

unfoldable pub aof_emit_live : Written → Bytes → Server → Bool × Server
aof_emit_live all_written buf s =
    (true, record s { aof_file = s.aof_file ++ buf; total_writes = s.total_writes + 1 })
aof_emit_live (cut_after n) buf s = (false, record s { aof_file = s.aof_file ++ take n buf })

abbrev pub buf_len : Option Bytes → ℕ
buf_len none = 0
buf_len (some b) = length b

-- `memcpy(server.aof_rewrite_buf + server.aof_rewrite_len, buf, n)`
abbrev pub buf_append : Option Bytes → Bytes → Option Bytes
buf_append none buf = none
buf_append (some b) buf = some (b ++ buf)

unfoldable pub aof_abort_rewrite : Server → Server
aof_abort_rewrite s = record s { rewrite_buf = none; rewrite_state = aborting }

-- the capacity to grow to
abbrev pub grown_cap : ℕ → ℕ → ℕ → ℕ
grown_cap cap needed max_cap =
    let doubled = if ltb (cap * 2) needed then needed else cap * 2 in
    if ltb max_cap doubled then max_cap else doubled

-- `realloc_ok` is whether `realloc` succeeds.
unfoldable pub aof_emit_diff : Config → Bool → Bytes → Server → Server
unfolding aof_abort_rewrite
aof_emit_diff cfg realloc_ok buf s =
    let needed = buf_len s.rewrite_buf + length buf in
    if ltb s.rewrite_cap needed
    then if ltb cfg.rewrite_buf_max_size needed
      then aof_abort_rewrite s
      else if not realloc_ok
      then aof_abort_rewrite s
      else record s {
        rewrite_cap = grown_cap s.rewrite_cap needed cfg.rewrite_buf_max_size;
        rewrite_buf = buf_append s.rewrite_buf buf;
      }
    else record s { rewrite_buf = buf_append s.rewrite_buf buf }

abbrev pub fsync_under : Policy → Bool → Server → Bool × Server
fsync_under always true s =
    (true, record s { total_fsyncs = s.total_fsyncs + 1; aof_buf_dirty = false })
fsync_under always false s = (false, s)
fsync_under _ flushed s = (true, s)

unfoldable pub aof_maybe_fsync_always : Config → Bool → Server → Bool × Server
aof_maybe_fsync_always cfg flushed s = fsync_under cfg.aof_policy flushed s

abbrev pub is_per_tick : Policy → Bool
is_per_tick per_tick = true
is_per_tick _ = false

abbrev pub status_of : Bool → Status
status_of true = success
status_of false = failure

-- what `aof_append` does with the record while a rewrite is in the state
unfoldable pub mirror : RewriteState → Config → Bool → Bytes → Server → Server
unfolding aof_emit_diff
mirror active cfg realloc_ok buf s = aof_emit_diff cfg realloc_ok buf s
mirror _ cfg realloc_ok buf s = s

-- the tail of `aof_append`, after the write to the live log
unfoldable pub after_live : Config → Bool → Bool → Bytes → Server → Status × Server
unfolding mirror aof_maybe_fsync_always
after_live cfg realloc_ok flushed bytes s =
    let s₁ = mirror s.rewrite_state cfg realloc_ok bytes s in
    let (done, s₂) = aof_maybe_fsync_always cfg flushed (record s₁ { aof_buf_dirty = true }) in
    (status_of done, s₂)

unfoldable pub aof_append : Config → Written → Bool → Bool → LogRecord → Server → Status × Server
unfolding aof_emit_live after_live
aof_append cfg written realloc_ok flushed r s =
    if not cfg.aof_enabled
    then (success, s)
    else elim (aof_serialize record_max r.op r.key r.value r.expire_at) [
      | none ↦ (failure, s)
      | some bytes ↦
          let (done, s') = aof_emit_live written bytes s in
          if done then after_live cfg realloc_ok flushed bytes s' else (failure, s')
    ]

-- `run_every_ms`: whether it fires, and the new `*last_ms`; `now - last < interval` without wrapping
unfoldable pub run_every_ms : ℕ → ℕ → ℕ → Bool × ℕ
run_every_ms last_ms now_ms interval_ms =
    if ltb now_ms (last_ms + interval_ms) then (false, last_ms) else (true, now_ms)

unfoldable pub aof_cron : Config → Bool → Server → Server
unfolding durable_flush
aof_cron cfg flushed s =
    let (fires, last) = run_every_ms s.last_fsync_ms s.now_ms (cfg.aof_check_hz * 1000 / cfg.hz) in
    let (done, s') = durable_flush flushed (record s { last_fsync_ms = last }) in
    if not cfg.aof_enabled || not (is_per_tick cfg.aof_policy) || not s.aof_buf_dirty
    then s
    else if not fires
    then s
    else if not done
    then s'
    else record s' { aof_buf_dirty = false }
