-- ===== src/Aof/Writer/Rewrite.antt =====
-- src/aof.c: a rewrite in the parent: start, failure, backoff, finalize, cron.
use bytekv.Prelude.{
  ℕ, zero, suc, ◌+◌, ◌-◌, ◌*◌, ◌/◌, Bool, true, false, not, ◌&&◌, ◌||◌, Option, none, some, [],
  ◌++◌, take, ltb, leb, ◌==◌, if◌then◌else◌, length,
}
use bytekv.Prelude.Bytes.{Bytes}
use bytekv.Aof.Writer.{
  Config, Server, RewriteState, idle, active, aborting, Written, all_written, cut_after,
  durable_flush, run_every_ms,
}

-- the `for` loop over the failed streak, with the rounds that are left
unfoldable pub backoff_loop : ℕ → ℕ → ℕ → ℕ
backoff_loop zero max_ms delay = delay
backoff_loop (suc rounds) max_ms delay =
    let rest = backoff_loop rounds max_ms (delay * 2) in
    if leb max_ms (delay * 2) then max_ms else rest

unfoldable pub aof_rewrite_record_failure : Config → Server → Server
unfolding backoff_loop
aof_rewrite_record_failure cfg s = record s {
  rewrites_failed = s.rewrites_failed + 1;
  failed_streak = s.failed_streak + 1;
  next_attempt_ms = s.now_ms + backoff_loop s.failed_streak cfg.backoff_max_ms cfg.backoff_base_ms;
}

unfoldable pub aof_rewrite_cleanup : Server → Server
aof_rewrite_cleanup s = record s { rewrite_buf = none; rewrite_state = idle }

-- whether `malloc` and `fork` succeed
pub record StartIo : Type 0 where
  pub malloc_ok : Bool
  pub fork_ok : Bool

-- In the parent. The result is whether the return value is 0.
unfoldable pub aof_rewrite_start : Config → StartIo → Server → Bool × Server
unfolding aof_rewrite_record_failure
aof_rewrite_start cfg io s =
    if not io.malloc_ok || not io.fork_ok then (false, aof_rewrite_record_failure cfg s) else (
      true,
      record s { rewrite_state = active; rewrite_buf = some []; last_rewrite_start_ms = s.now_ms },
    )

-- `fail:` of `aof_rewrite_finalize`, and the other ends of a rewrite that is given up; `unlinked` is whether
-- `unlink` succeeds
unfoldable pub give_up : Bool → Config → Server → Server
unfolding aof_rewrite_record_failure aof_rewrite_cleanup
give_up unlinked cfg s =
    let s' = record s { temp_file = (if unlinked then none else s.temp_file) } in
    aof_rewrite_cleanup (aof_rewrite_record_failure cfg s')

-- the outcomes of the system calls of `aof_rewrite_finalize`, in their order
pub record FinalizeIo : Type 0 where
  pub opened : Bool
  pub written : Written
  pub flushed : Bool
  pub reopened : Bool
  pub renamed : Bool
  pub stat_ok : Bool
  pub unlinked : Bool

abbrev pub written_ok : Written → Bool
written_ok all_written = true
written_ok (cut_after n) = false

-- the diff buffer's bytes; a rewrite that is finalized has one
abbrev pub diff_bytes : Option Bytes → Bytes
diff_bytes none = []
diff_bytes (some b) = b

-- the part behind `rename`: `file` is the new log
unfoldable pub complete : Bool → Bytes → Server → Server
unfolding aof_rewrite_cleanup
complete stat_ok file s = aof_rewrite_cleanup (record s {
  aof_file = file;
  temp_file = none;
  rewrite_last_size = (if stat_ok then length file else s.rewrite_last_size);
  rewrites_completed = s.rewrites_completed + 1;
  failed_streak = 0;
  next_attempt_ms = 0;
  last_rewrite_duration_ms = s.now_ms - s.last_rewrite_start_ms;
})

-- what `write_all` writes of a buffer
abbrev pub emitted : Written → Bytes → Bytes
emitted all_written buf = buf
emitted (cut_after n) buf = take n buf

-- the system calls of `aof_rewrite_finalize`, on the file that the child left, if it left one
unfoldable pub finalize_from : Option Bytes → FinalizeIo → Config → Server → Server
unfolding give_up durable_flush complete
finalize_from none io cfg s = give_up io.unlinked cfg s
finalize_from (some temp) io cfg s =
    let file = temp ++ emitted io.written (diff_bytes s.rewrite_buf) in
    let s₁ = record s { temp_file = some file } in
    let (done, s₂) = durable_flush io.flushed s₁ in
    if not io.opened
    then give_up io.unlinked cfg s
    else if not (written_ok io.written)
    then give_up io.unlinked cfg s₁
    else if not done
    then give_up io.unlinked cfg s₂
    else if not io.reopened
    then give_up io.unlinked cfg s₂
    else if not io.renamed
    then give_up io.unlinked cfg s₂
    else complete io.stat_ok file s₂

unfoldable pub aof_rewrite_finalize : Config → FinalizeIo → Server → Server
unfolding finalize_from
aof_rewrite_finalize cfg io s = finalize_from s.temp_file io cfg s

-- `waitpid(..., WNOHANG)`
pub data Waited : Type 0 where
  still_running : Waited
  wait_error : Waited
  exited : ℕ → Waited
  killed : Waited

-- what a call of `aof_rewrite_cron` meets: the size of the log, if `stat` succeeds, and the rest
pub record CronIo : Type 0 where
  pub stat_size : Option ℕ
  pub start : StartIo
  pub waited : Waited
  pub finalize : FinalizeIo
  pub unlinked : Bool

-- no child: start one where the backoff is over and both thresholds are met
unfoldable pub maybe_start : Config → CronIo → Server → Server
unfolding aof_rewrite_start
maybe_start cfg io s = elim io.stat_size [
  | none ↦ s
  | some size ↦
      if ltb 0 s.next_attempt_ms && ltb s.now_ms s.next_attempt_ms
      then s
      else if ltb size cfg.rewrite_min_size
      then s
      else if ltb size (s.rewrite_last_size + s.rewrite_last_size * cfg.rewrite_growth / 100)
      then s
      else (aof_rewrite_start cfg io.start s).1
]

-- a child that has ended with status 0, or otherwise
unfoldable pub reap : Config → CronIo → RewriteState → Bool → Server → Server
unfolding aof_rewrite_finalize give_up
reap cfg io aborting ok s = give_up io.unlinked cfg s
reap cfg io _ true s = aof_rewrite_finalize cfg io.finalize s
reap cfg io _ false s = give_up io.unlinked cfg s

unfoldable pub check_child : Waited → Config → CronIo → Server → Server
unfolding aof_rewrite_record_failure aof_rewrite_cleanup reap
check_child still_running cfg io s = s
check_child wait_error cfg io s = aof_rewrite_cleanup (aof_rewrite_record_failure cfg s)
check_child (exited status) cfg io s = reap cfg io s.rewrite_state (status == 0) s
check_child killed cfg io s = reap cfg io s.rewrite_state false s

-- the part of `aof_rewrite_cron` behind the rate limit
unfoldable pub start_or_check : RewriteState → Config → CronIo → Server → Server
unfolding maybe_start check_child
start_or_check idle cfg io s = maybe_start cfg io s
start_or_check _ cfg io s = check_child io.waited cfg io s

unfoldable pub aof_rewrite_cron : Config → CronIo → Server → Server
unfolding start_or_check run_every_ms
aof_rewrite_cron cfg io s =
    let (fires, last) = run_every_ms s.last_check_ms s.now_ms 1000 in
    let s' = record s { last_check_ms = last } in
    if not cfg.aof_enabled
    then s
    else if not fires
    then s
    else start_or_check s.rewrite_state cfg io s'
