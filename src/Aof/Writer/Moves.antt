-- ===== src/Aof/Writer/Moves.antt =====
-- src/aof.c: what one run of the periodic tasks, or of BGREWRITEAOF, does to the log and to a rewrite.
use bytekv.Prelude.{
  ◌≡◌, ◌≢◌, refl, ◌∙◌, sym, ap, ◌||◌, not, ◌&&◌, ◌+◌, ◌*◌, ◌/◌, ◌++◌, Bool, true, false, Bool-cases,
  if-both, inl, inr, some, arith, Option-cases, [], ltb, ◌==◌,
}
use bytekv.Prelude.Bytes.{Bytes}
use bytekv.Aof.{LogRecord, aof_serialize, record_max}
use bytekv.Aof.Writer.{
  Config, Server, Policy, no_fsync, per_tick, always, RewriteState, idle, active, aborting,
  all_written, aof_cron, run_every_ms, durable_flush, aof_append, after_live, mirror, aof_emit_diff,
  aof_abort_rewrite, aof_emit_live, aof_maybe_fsync_always, fsync_under,
}
use bytekv.Aof.Writer.Append.{Same}
use bytekv.Aof.Writer.Lossless.{aof_cron-Same}
use bytekv.Aof.Writer.Finish.{Over, Completed, Failed, aof_rewrite_finalize-Finalized}
use bytekv.Aof.Writer.Rewrite.{
  StartIo, FinalizeIo, CronIo, Waited, still_running, wait_error, exited, killed, diff_bytes,
  aof_rewrite_start, aof_rewrite_finalize, give_up, aof_rewrite_record_failure, aof_rewrite_cleanup,
  aof_rewrite_cron, maybe_start, reap, start_or_check, check_child,
}

-- From `s` on, where the child is found as `w` says: nothing happens to the log and the rewrite; or a
-- rewrite begins; or it is given up; or it is completed, which only a child that has exited with 0 lets
-- happen, and the log is then the child's file and the diff buffer.
pub data Moves (s : Server) (w : Waited) (s' : Server) : Type 0 where
  rests :
      s'.aof_file ≡ s.aof_file
      → s'.rewrite_state ≡ s.rewrite_state
      → s'.rewrite_buf ≡ s.rewrite_buf
      → s'.temp_file ≡ s.temp_file
      → Moves s w s'
  begins :
      s'.aof_file ≡ s.aof_file
      → s.rewrite_state ≡ idle
      → s'.rewrite_state ≡ active
      → s'.rewrite_buf ≡ some []
      → Moves s w s'
  given_up : s'.aof_file ≡ s.aof_file → s'.rewrite_state ≡ idle → Moves s w s'
  completes :
      (temp : Bytes)
      → s.rewrite_state ≡ active
      → w ≡ exited 0
      → s.temp_file ≡ some temp
      → s'.aof_file ≡ temp ++ diff_bytes s.rewrite_buf
      → s'.rewrite_state ≡ idle
      → Moves s w s'

same_Moves : (s : Server) (w : Waited) → Moves s w s
same_Moves s w = rests refl refl refl refl

pub aof_rewrite_start-Moves :
    (cfg : Config) (io : StartIo) (s : Server) (w : Waited)
    → s.rewrite_state ≡ idle
    → Moves s w (aof_rewrite_start cfg io s).1
unfolding aof_rewrite_start aof_rewrite_record_failure
aof_rewrite_start-Moves cfg io s w at_rest =
    elim (Bool-cases (not io.malloc_ok || not io.fork_ok)) [
      | inl fails ↦ rw fails (rests refl refl refl refl)
      | inr works ↦ rw works (begins refl at_rest refl refl)
    ]

give_up-Moves :
    (unlinked : Bool) (cfg : Config) (s : Server) (w : Waited) → Moves s w (give_up unlinked cfg s)
unfolding give_up aof_rewrite_cleanup aof_rewrite_record_failure
give_up-Moves unlinked cfg s w = given_up refl refl

finalize-Moves :
    (cfg : Config) (io : FinalizeIo) (s : Server) (w : Waited)
    → s.rewrite_state ≡ active
    → w ≡ exited 0
    → Moves s w (aof_rewrite_finalize cfg io s)
unfolding Over Completed Failed
finalize-Moves cfg io s w is_active ended =
    let ((state, _), outcome) = aof_rewrite_finalize-Finalized cfg io s in
    elim outcome [
      | inl (temp, left, ok, (file, _, _, _)) ↦ completes temp is_active ended left file state
      | inr (_, (file, _, _, _)) ↦ given_up file state
    ]

reap-Moves :
    (cfg : Config) (io : CronIo) (state : RewriteState) (ok : Bool) (s : Server) (w : Waited)
    → s.rewrite_state ≡ state
    → state ≢ idle
    → (ok ≡ true → w ≡ exited 0)
    → Moves s w (reap cfg io state ok s)
unfolding reap
reap-Moves cfg io aborting ok s w e running ended = give_up-Moves io.unlinked cfg s w
reap-Moves cfg io idle ok s w e running ended = elim (running refl) [ ]
reap-Moves cfg io active true s w e running ended =
    finalize-Moves cfg io.finalize s w e (ended refl)
reap-Moves cfg io active false s w e running ended = give_up-Moves io.unlinked cfg s w

check_child-Moves :
    (w : Waited) (cfg : Config) (io : CronIo) (s : Server)
    → s.rewrite_state ≢ idle
    → Moves s w (check_child w cfg io s)
unfolding check_child aof_rewrite_cleanup aof_rewrite_record_failure
check_child-Moves still_running cfg io s running = same_Moves s still_running
check_child-Moves wait_error cfg io s running = given_up refl refl
check_child-Moves killed cfg io s running =
    reap-Moves cfg io s.rewrite_state false s killed refl running (λ h. ground (arith, h))
check_child-Moves (exited status) cfg io s running =
    reap-Moves cfg io s.rewrite_state (status == 0) s (exited status) refl running
      (λ h. ap (λ n. exited n) (ground (arith, h)))

maybe_start-Moves :
    (cfg : Config) (io : CronIo) (s : Server) (w : Waited)
    → s.rewrite_state ≡ idle
    → Moves s w (maybe_start cfg io s)
unfolding maybe_start
maybe_start-Moves cfg io s w at_rest =
    let same = same_Moves s w in
    elim (Option-cases io.stat_size) [
      | inl e ↦ rw e same
      | inr (size, e) ↦ rw e (
          if-both (Moves s w) (ltb 0 s.next_attempt_ms && ltb s.now_ms s.next_attempt_ms) same (
            if-both (Moves s w) (ltb size cfg.rewrite_min_size) same (
              if-both (Moves s w)
                (ltb size (s.rewrite_last_size + s.rewrite_last_size * cfg.rewrite_growth / 100))
                same (aof_rewrite_start-Moves cfg io.start s w at_rest))))
    ]

start_or_check-Moves :
    (state : RewriteState) (cfg : Config) (io : CronIo) (s : Server)
    → s.rewrite_state ≡ state
    → Moves s io.waited (start_or_check state cfg io s)
unfolding start_or_check
start_or_check-Moves idle cfg io s e = maybe_start-Moves cfg io s io.waited e
start_or_check-Moves active cfg io s e =
    check_child-Moves io.waited cfg io s (λ h. ground (arith, sym e ∙ h))
start_or_check-Moves aborting cfg io s e =
    check_child-Moves io.waited cfg io s (λ h. ground (arith, sym e ∙ h))

-- The move is the same from a server that differs in other fields.
pub Moves-from :
    (s₀ s : Server) (w : Waited) (s' : Server)
    → s.aof_file ≡ s₀.aof_file
    → s.rewrite_state ≡ s₀.rewrite_state
    → s.rewrite_buf ≡ s₀.rewrite_buf
    → s.temp_file ≡ s₀.temp_file
    → Moves s w s'
    → Moves s₀ w s'
Moves-from s₀ s w s' file state buf temp (rests f t b p) =
    rests (f ∙ file) (t ∙ state) (b ∙ buf) (p ∙ temp)
Moves-from s₀ s w s' file state buf temp (begins f i a b) = begins (f ∙ file) (sym state ∙ i) a b
Moves-from s₀ s w s' file state buf temp (given_up f i) = given_up (f ∙ file) i
Moves-from s₀ s w s' file state buf temp (completes t a e p f i) =
    completes t (sym state ∙ a) e (sym temp ∙ p) (f ∙ ap (λ b. t ++ diff_bytes b) buf) i

aof_rewrite_cron-Moves :
    (cfg : Config) (io : CronIo) (s : Server) → Moves s io.waited (aof_rewrite_cron cfg io s)
unfolding aof_rewrite_cron
aof_rewrite_cron-Moves cfg io s =
    let (fires, last) = run_every_ms s.last_check_ms s.now_ms 1000 in
    let s' : Server = record s { last_check_ms = last } in
    if-both (Moves s io.waited) (not cfg.aof_enabled) (same_Moves s io.waited) (
      if-both (Moves s io.waited) (not fires) (same_Moves s io.waited) (
        Moves-from s s' io.waited (start_or_check s.rewrite_state cfg io s') refl refl refl refl
          (start_or_check-Moves s.rewrite_state cfg io s' refl)))

aof_cron_temp :
    (cfg : Config) (flushed : Bool) (s : Server) → (aof_cron cfg flushed s).temp_file ≡ s.temp_file
unfolding aof_cron durable_flush
aof_cron_temp cfg true s = ground arith
aof_cron_temp cfg false s = ground arith

-- Both periodic tasks of the log, one behind the other.
pub crons-Moves :
    (cfg : Config) (flushed : Bool) (io : CronIo) (s : Server)
    → Moves s io.waited (aof_rewrite_cron cfg io (aof_cron cfg flushed s))
unfolding Same
crons-Moves cfg flushed io s =
    let (file, state, buf, cap) = aof_cron-Same cfg flushed s in
    let s' = aof_cron cfg flushed s in
    Moves-from s s' io.waited (aof_rewrite_cron cfg io s') file state buf
      (aof_cron_temp cfg flushed s) (aof_rewrite_cron-Moves cfg io s')

fsync_temp :
    (policy : Policy) (flushed : Bool) (s : Server)
    → (fsync_under policy flushed s).1.temp_file ≡ s.temp_file
fsync_temp always true s = refl
fsync_temp always false s = refl
fsync_temp per_tick flushed s = refl
fsync_temp no_fsync flushed s = refl

mirror_temp :
    (state : RewriteState) (cfg : Config) (ok : Bool) (buf : Bytes) (s : Server)
    → (mirror state cfg ok buf s).temp_file ≡ s.temp_file
unfolding mirror aof_emit_diff aof_abort_rewrite
mirror_temp active cfg ok buf s = ground arith
mirror_temp idle cfg ok buf s = refl
mirror_temp aborting cfg ok buf s = refl

-- A command that is logged leaves the child's file alone.
pub aof_append_temp :
    (cfg : Config) (ok flushed : Bool) (r : LogRecord) (s : Server)
    → (aof_append cfg all_written ok flushed r s).1.temp_file ≡ s.temp_file
unfolding aof_append aof_emit_live after_live aof_maybe_fsync_always
aof_append_temp cfg ok flushed r s = elim (Bool-cases cfg.aof_enabled) [
  | inr off ↦ rw off refl
  | inl on ↦ elim (Option-cases (aof_serialize record_max r.op r.key r.value r.expire_at)) [
    | inl large ↦ rw (on, large) refl
    | inr (bytes, e) ↦
        rw (on, e)
          (fsync_temp cfg.aof_policy flushed _ ∙ mirror_temp s.rewrite_state cfg ok bytes _)
  ]
]
