-- ===== src/Aof/Writer/Lossless.antt =====
-- src/aof.c: a rewrite in the parent, from the fork to the new log.
use mathlib.Core.List.{append_assoc, append-nil}
use bytekv.Prelude.{
  ℕ, ◌*◌, ◌/◌, ◌||◌, ◌≡◌, ◌≢◌, refl, ◌∙◌, sym, ap, ◌⊎◌, inl, inr, Bool, true, false, not, if-both,
  Option, none, some, arith, if◌then◌else◌, subst, List, [], ◌∷◌, ◌++◌,
}
use bytekv.Prelude.Bytes.{Bytes}
use bytekv.Aof.{LogRecord, IsLoggable, encode}
use bytekv.Aof.Recovery.Torn.{encode_all}
use bytekv.Aof.Writer.{
  Config, Server, is_per_tick, RewriteState, idle, active, aborting, all_written, aof_append,
  buf_append, aof_cron, durable_flush, run_every_ms,
}
use bytekv.Aof.Writer.Diff.{Grown, Unmoved}
use bytekv.Aof.Writer.Append.{Same, aof_append-all_written}
use bytekv.Aof.Writer.Finish.{all_ok, finalized}
use bytekv.Aof.Writer.Rewrite.{
  StartIo, FinalizeIo, CronIo, still_running, aof_rewrite_start, aof_rewrite_finalize,
  aof_rewrite_record_failure, aof_rewrite_cron, start_or_check, check_child,
}

-- What happens while the child of a rewrite runs: commands are logged (the list is theirs), the log is
-- flushed, the clock goes on, the child writes its file, and the periodic task finds the child running.
pub data During (cfg : Config) (s₀ : Server) : List LogRecord → Server → Type 0 where
  start : During cfg s₀ [] s₀
  logged :
      {rs : List LogRecord} {s : Server} (ok flushed : Bool) (r : LogRecord)
      → IsLoggable r
      → During cfg s₀ rs s
      → During cfg s₀ (rs ++ r ∷ []) (aof_append cfg all_written ok flushed r s).1
  flush :
      {rs : List LogRecord} {s : Server} (flushed : Bool)
      → During cfg s₀ rs s
      → During cfg s₀ rs (aof_cron cfg flushed s)
  clock :
      {rs : List LogRecord} {s : Server} (now : ℕ)
      → During cfg s₀ rs s
      → During cfg s₀ rs (record s { now_ms = now })
  child :
      {rs : List LogRecord} {s : Server} (file : Option Bytes)
      → During cfg s₀ rs s
      → During cfg s₀ rs (record s { temp_file = file })
  check :
      {rs : List LogRecord} {s : Server} (io : CronIo)
      → io.waited ≡ still_running
      → During cfg s₀ rs s
      → During cfg s₀ rs (aof_rewrite_cron cfg io s)

-- the log is the one at the start and what the diff buffer holds, or the rewrite was aborted
Tracked : Bytes → Bytes → Server → Type 0
Tracked base buf s =
    ((s.rewrite_state ≡ active) × (s.rewrite_buf ≡ some buf) × (s.aof_file ≡ base ++ buf))
    ⊎ ((s.rewrite_state ≡ aborting) × (s.rewrite_buf ≡ none))

Tracked-Same :
    (base buf : Bytes) (s s' : Server) → Same s s' → Tracked base buf s → Tracked base buf s'
unfolding Tracked Same
Tracked-Same base buf s s' (file, state, buffer, room) (inl (st, b, log)) =
    inl (state ∙ st, buffer ∙ b, file ∙ log)
Tracked-Same base buf s s' (file, state, buffer, room) (inr (st, b)) = inr (state ∙ st, buffer ∙ b)

pub aof_cron-Same : (cfg : Config) (flushed : Bool) (s : Server) → Same s (aof_cron cfg flushed s)
unfolding aof_cron durable_flush Same
aof_cron-Same cfg true s =
    if-both (Same s)
      (not cfg.aof_enabled || not (is_per_tick cfg.aof_policy) || not s.aof_buf_dirty)
      (refl, refl, refl, refl)
      (if-both (Same s)
        (not (run_every_ms s.last_fsync_ms s.now_ms (cfg.aof_check_hz * 1000 / cfg.hz)).0)
        (refl, refl, refl, refl) (refl, refl, refl, refl))
aof_cron-Same cfg false s =
    if-both (Same s)
      (not cfg.aof_enabled || not (is_per_tick cfg.aof_policy) || not s.aof_buf_dirty)
      (refl, refl, refl, refl)
      (if-both (Same s)
        (not (run_every_ms s.last_fsync_ms s.now_ms (cfg.aof_check_hz * 1000 / cfg.hz)).0)
        (refl, refl, refl, refl) (refl, refl, refl, refl))

Running : RewriteState → Type 0
Running state = (state ≡ active) ⊎ (state ≡ aborting)

start_or_check_waits :
    (state : RewriteState) (cfg : Config) (io : CronIo) (s : Server)
    → Running state
    → io.waited ≡ still_running
    → start_or_check state cfg io s ≡ s
unfolding start_or_check check_child Running
start_or_check_waits idle cfg io s running waiting = ground arith
start_or_check_waits active cfg io s running waiting = rw waiting refl
start_or_check_waits aborting cfg io s running waiting = rw waiting refl

Tracked-Running : (base buf : Bytes) (s : Server) → Tracked base buf s → Running s.rewrite_state
unfolding Tracked Running
Tracked-Running base buf s (inl (st, b, log)) = inl st
Tracked-Running base buf s (inr (st, b)) = inr st

aof_rewrite_cron-Same :
    (cfg : Config) (io : CronIo) (base buf : Bytes) (s : Server)
    → io.waited ≡ still_running
    → Tracked base buf s
    → Same s (aof_rewrite_cron cfg io s)
unfolding aof_rewrite_cron Same
aof_rewrite_cron-Same cfg io base buf s waiting tracked =
    let (fires, last) = run_every_ms s.last_check_ms s.now_ms 1000 in
    let same =
      start_or_check_waits s.rewrite_state cfg io (record s { last_check_ms = last })
        (Tracked-Running base buf s tracked) waiting in
    if-both (Same s) (not cfg.aof_enabled) (refl, refl, refl, refl)
      (if-both (Same s) (not fires) (refl, refl, refl, refl) (rw same (refl, refl, refl, refl)))

Tracked-Grown :
    (base old buf : Bytes) (s s' : Server)
    → (s.rewrite_state ≡ active → Grown buf s s')
    → (s.rewrite_state ≢ active → Unmoved s s')
    → (s'.aof_file ≡ s.aof_file ++ buf)
    → Tracked base old s
    → Tracked base (old ++ buf) s'
unfolding Tracked Grown Unmoved
Tracked-Grown base old buf s s' grown kept log' (inl (st, b, log)) = elim (grown st) [
  | inl (st', b') ↦ inl (
    st',
    b' ∙ ap (λ t. buf_append t buf) b,
    log' ∙ ap (λ t. t ++ buf) log ∙ append_assoc base old buf,
  )
  | inr (st', b') ↦ inr (st', b')
]
Tracked-Grown base old buf s s' grown kept log' (inr (st, b)) =
    let (st', b') = kept (λ e. ground (arith, sym st ∙ e)) in inr (st' ∙ st, b' ∙ b)

encode_all-append :
    (rs : List LogRecord) (r : LogRecord) → encode_all (rs ++ r ∷ []) ≡ encode_all rs ++ encode r
encode_all-append [] r = append-nil (encode r)
encode_all-append (x ∷ rs) r =
    ap (λ t. encode x ++ t) (encode_all-append rs r)
    ∙ sym (append_assoc (encode x) (encode_all rs) (encode r))

module _ (cfg : Config) (s₀ : Server) (base : Bytes) (enabled : cfg.aof_enabled ≡ true) where
  During-Tracked :
      {rs : List LogRecord} {s : Server}
      → Tracked base [] s₀
      → During cfg s₀ rs s
      → Tracked base (encode_all rs) s
  unfolding Tracked
  During-Tracked t start = t
  During-Tracked t (logged {rs} {s} ok flushed r loggable d) =
      let s' = (aof_append cfg all_written ok flushed r s).1 in
      let (file, _, _, grown, _, kept) =
        aof_append-all_written cfg ok flushed r s loggable enabled in
      let after =
        Tracked-Grown base (encode_all rs) (encode r) s s' grown kept file (During-Tracked t d) in
      subst (λ b. Tracked base b s') (sym (encode_all-append rs r)) after
  During-Tracked t (flush {rs} {s} flushed d) =
      Tracked-Same base (encode_all rs) s (aof_cron cfg flushed s) (aof_cron-Same cfg flushed s)
        (During-Tracked t d)
  During-Tracked t (clock now d) = During-Tracked t d
  During-Tracked t (child file d) = During-Tracked t d
  During-Tracked t (check {rs} {s} io waiting d) =
      let before = During-Tracked t d in
      Tracked-Same base (encode_all rs) s (aof_rewrite_cron cfg io s)
        (aof_rewrite_cron-Same cfg io base (encode_all rs) s waiting before) before

not_failed :
    (b : Bool) (x y : Server)
    → (if◌then◌else◌ {A = Bool × Server} b (false, x) (true, y)).0 ≡ true
    → b ≡ false
not_failed true x y h = ground (arith, h)
not_failed false x y h = refl

aof_rewrite_start-Tracked :
    (cfg : Config) (io : StartIo) (s : Server)
    → (aof_rewrite_start cfg io s).0 ≡ true
    → Tracked s.aof_file [] (aof_rewrite_start cfg io s).1
unfolding aof_rewrite_start Tracked
aof_rewrite_start-Tracked cfg io s started =
    rw
      (not_failed (not io.malloc_ok || not io.fork_ok) (aof_rewrite_record_failure cfg s) _ started)
      (inl (refl, refl, sym (append-nil s.aof_file)))

-- Where the log is enabled and a rewrite has been started, let any sequence of logged commands,
-- flushes, clock readings and checks of the running child follow, each logged record being one that
-- fits and is written whole. If the state is still `active` at its end, the child has left a file
-- and every system call of the finalization succeeds, then the log that is replaced is the log at
-- the fork followed by the records logged since, and the new log is the child's file followed by
-- the same records.
pub aof_rewrite_lossless :
    (cfg : Config) (start_io : StartIo) (io : FinalizeIo) (s₀ s : Server) (rs : List LogRecord)
    (temp : Bytes)
    → cfg.aof_enabled ≡ true
    → (aof_rewrite_start cfg start_io s₀).0 ≡ true
    → During cfg (aof_rewrite_start cfg start_io s₀).1 rs s
    → s.rewrite_state ≡ active
    → s.temp_file ≡ some temp
    → all_ok io ≡ true
    → (s.aof_file ≡ s₀.aof_file ++ encode_all rs)
      × ((aof_rewrite_finalize cfg io s).aof_file ≡ temp ++ encode_all rs)
unfolding Tracked
aof_rewrite_lossless cfg start_io io s₀ s rs temp enabled started during is_active left ok =
    let s₁ = (aof_rewrite_start cfg start_io s₀).1 in
    elim (During-Tracked cfg s₁ s₀.aof_file enabled
      (aof_rewrite_start-Tracked cfg start_io s₀ started) during) [
        | inl (st, b, log) ↦ (log, finalized cfg io s temp (encode_all rs) left ok b)
        | inr (st, b) ↦ ground (arith, sym is_active ∙ st)
      ]
