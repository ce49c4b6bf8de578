-- ===== src/Aof/Writer/Sound.antt =====
-- The periodic tasks of src/aof.c keep the invariant of the diff buffer.
use bytekv.Prelude.{
  ◌≡◌, refl, ◌||◌, not, Bool, true, false, Bool-cases, if-both, inl, inr, none, arith, Option-cases,
  ltb, ◌==◌, ◌&&◌, ◌+◌, ◌*◌, ◌/◌,
}
use bytekv.Aof.Writer.{Config, Server, RewriteState, idle, active, aborting, aof_cron, run_every_ms}
use bytekv.Aof.Writer.Diff.{Diff, IsSound}
use bytekv.Aof.Writer.Append.{IsSound-Same}
use bytekv.Aof.Writer.Finish.{Over, aof_rewrite_finalize-Finalized}
use bytekv.Aof.Writer.Lossless.{aof_cron-Same}
use bytekv.Aof.Writer.Rewrite.{
  StartIo, FinalizeIo, CronIo, Waited, still_running, wait_error, exited, killed, aof_rewrite_start,
  aof_rewrite_finalize, give_up, aof_rewrite_record_failure, aof_rewrite_cleanup, aof_rewrite_cron,
  maybe_start, reap, start_or_check, check_child,
}

pub aof_cron-IsSound :
    (cfg : Config) (flushed : Bool) (s : Server) → IsSound s → IsSound (aof_cron cfg flushed s)
aof_cron-IsSound cfg flushed s sound =
    IsSound-Same s (aof_cron cfg flushed s) sound (aof_cron-Same cfg flushed s)

-- A rewrite that is started has an empty diff buffer; where it cannot be started nothing of it is left.
pub aof_rewrite_start-IsSound :
    (cfg : Config) (io : StartIo) (s : Server) → IsSound s → IsSound (aof_rewrite_start cfg io s).1
unfolding aof_rewrite_start IsSound Diff aof_rewrite_record_failure
aof_rewrite_start-IsSound cfg io s sound = elim (Bool-cases (not io.malloc_ok || not io.fork_ok)) [
  | inl fails ↦ rw fails sound
  | inr works ↦ rw works (omega arith)
]

-- A rewrite that is over has no diff buffer.
over-IsSound : (s : Server) → s.rewrite_state ≡ idle → s.rewrite_buf ≡ none → IsSound s
unfolding IsSound Diff
over-IsSound s state buffer = rw (state, buffer) refl

give_up-IsSound : (unlinked : Bool) (cfg : Config) (s : Server) → IsSound (give_up unlinked cfg s)
unfolding give_up aof_rewrite_cleanup
give_up-IsSound unlinked cfg s = over-IsSound (give_up unlinked cfg s) refl refl

finalize-IsSound :
    (cfg : Config) (io : FinalizeIo) (s : Server) → IsSound (aof_rewrite_finalize cfg io s)
unfolding Over
finalize-IsSound cfg io s =
    let (state, buffer) = (aof_rewrite_finalize-Finalized cfg io s).0 in
    over-IsSound (aof_rewrite_finalize cfg io s) state buffer

reap-IsSound :
    (cfg : Config) (io : CronIo) (state : RewriteState) (ok : Bool) (s : Server)
    → IsSound (reap cfg io state ok s)
unfolding reap
reap-IsSound cfg io aborting ok s = give_up-IsSound io.unlinked cfg s
reap-IsSound cfg io idle true s = finalize-IsSound cfg io.finalize s
reap-IsSound cfg io active true s = finalize-IsSound cfg io.finalize s
reap-IsSound cfg io idle false s = give_up-IsSound io.unlinked cfg s
reap-IsSound cfg io active false s = give_up-IsSound io.unlinked cfg s

check_child-IsSound :
    (w : Waited) (cfg : Config) (io : CronIo) (s : Server)
    → IsSound s
    → IsSound (check_child w cfg io s)
unfolding check_child aof_rewrite_cleanup
check_child-IsSound still_running cfg io s sound = sound
check_child-IsSound wait_error cfg io s sound =
    over-IsSound (check_child wait_error cfg io s) refl refl
check_child-IsSound (exited status) cfg io s sound =
    reap-IsSound cfg io s.rewrite_state (status == 0) s
check_child-IsSound killed cfg io s sound = reap-IsSound cfg io s.rewrite_state false s

maybe_start-IsSound :
    (cfg : Config) (io : CronIo) (s : Server) → IsSound s → IsSound (maybe_start cfg io s)
unfolding maybe_start
maybe_start-IsSound cfg io s sound = elim (Option-cases io.stat_size) [
  | inl e ↦ rw e sound
  | inr (size, e) ↦ rw e (
      if-both IsSound (ltb 0 s.next_attempt_ms && ltb s.now_ms s.next_attempt_ms) sound (
        if-both IsSound (ltb size cfg.rewrite_min_size) sound (
          if-both IsSound
            (ltb size (s.rewrite_last_size + s.rewrite_last_size * cfg.rewrite_growth / 100)) sound
            (aof_rewrite_start-IsSound cfg io.start s sound))))
]

start_or_check-IsSound :
    (state : RewriteState) (cfg : Config) (io : CronIo) (s : Server)
    → IsSound s
    → IsSound (start_or_check state cfg io s)
unfolding start_or_check
start_or_check-IsSound idle cfg io s sound = maybe_start-IsSound cfg io s sound
start_or_check-IsSound active cfg io s sound = check_child-IsSound io.waited cfg io s sound
start_or_check-IsSound aborting cfg io s sound = check_child-IsSound io.waited cfg io s sound

pub aof_rewrite_cron-IsSound :
    (cfg : Config) (io : CronIo) (s : Server) → IsSound s → IsSound (aof_rewrite_cron cfg io s)
unfolding aof_rewrite_cron
aof_rewrite_cron-IsSound cfg io s sound =
    let (fires, last) = run_every_ms s.last_check_ms s.now_ms 1000 in
    let held : IsSound (record s { last_check_ms = last }) = unfold IsSound in sound in
    if-both IsSound (not cfg.aof_enabled) sound (
      if-both IsSound (not fires) sound
        (start_or_check-IsSound s.rewrite_state cfg io (record s { last_check_ms = last }) held))
