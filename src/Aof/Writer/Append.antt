-- ===== src/Aof/Writer/Append.antt =====
-- `aof_append` of src/aof.c: the log, the flush and the diff buffer.
use bytekv.Prelude.{
  ◌+◌, ◌≡◌, ◌≢◌, refl, ◌∙◌, sym, ap, inl, inr, Bool, true, false, Bool-cases, arith, ltb,
  if◌then◌else◌, ◌++◌, length, not, ◌||◌, ◌&&◌, Option-cases,
}
use bytekv.Prelude.Bytes.{Bytes}
use bytekv.Ht.{Status, failure}
use bytekv.Aof.{LogRecord, IsLoggable, encode, aof_serialize, record_max, header_size, body_fixed}
use bytekv.Aof.Layout.{aof_serialize_lem}
use bytekv.Aof.Writer.Diff.{Grown, Unmoved, IsSound, aof_emit_diff-Grown, aof_emit_diff-IsSound}
use bytekv.Aof.Writer.{
  Config, Server, RewriteState, Policy, no_fsync, per_tick, always, idle, active, aborting, Written,
  all_written, cut_after, aof_append, after_live, status_of, aof_emit_live, aof_maybe_fsync_always,
  fsync_under, mirror,
}

abbrev pub is_always : Policy → Bool
is_always always = true
is_always _ = false

-- what the flush leaves alone
unfoldable pub Same : Server → Server → Type 0
Same s s' =
    (s'.aof_file ≡ s.aof_file)
    × (s'.rewrite_state ≡ s.rewrite_state)
    × (s'.rewrite_buf ≡ s.rewrite_buf)
    × (s'.rewrite_cap ≡ s.rewrite_cap)

-- The flush succeeds, and leaves nothing to flush, or it fails under the policy that asks for it.
fsync_under_lem :
    (policy : Policy) (flushed : Bool) (s : Server)
    → let (done, s') = fsync_under policy flushed s in
      s.aof_buf_dirty ≡ true
      → Same s s'
        × (done ≡ (not (is_always policy) || flushed))
        × (s'.aof_buf_dirty ≡ not (is_always policy && flushed))
unfolding Same
fsync_under_lem always true s dirty = ((refl, refl, refl, refl), refl, refl)
fsync_under_lem always false s dirty = ((refl, refl, refl, refl), refl, dirty)
fsync_under_lem per_tick flushed s dirty = ((refl, refl, refl, refl), refl, dirty)
fsync_under_lem no_fsync flushed s dirty = ((refl, refl, refl, refl), refl, dirty)

mirror_lem :
    (state : RewriteState) (cfg : Config) (ok : Bool) (buf : Bytes) (s : Server)
    → s.rewrite_state ≡ state
    → let s' = mirror state cfg ok buf s in
      (s'.aof_file ≡ s.aof_file)
      × (s.rewrite_state ≡ active → Grown buf s s')
      × (IsSound s → IsSound s')
      × (s.rewrite_state ≢ active → Unmoved s s')
unfolding mirror Unmoved
mirror_lem active cfg ok buf s e =
    let (grown, file) = aof_emit_diff-Grown cfg ok buf s e in
    (file, λ _. grown, aof_emit_diff-IsSound cfg ok buf s e, λ other. elim (other e) [ ])
mirror_lem idle cfg ok buf s e =
    (refl, λ h. ground (arith, sym e ∙ h), λ sound. sound, λ _. (refl, refl))
mirror_lem aborting cfg ok buf s e =
    (refl, λ h. ground (arith, sym e ∙ h), λ sound. sound, λ _. (refl, refl))

Grown-Same :
    (buf : Bytes) (s : Server) (s₁ s₂ : Server) → Grown buf s s₁ → Same s₁ s₂ → Grown buf s s₂
unfolding Grown Same
Grown-Same buf s s₁ s₂ (inl (st, b)) (f, same, buffer, room) = inl (same ∙ st, buffer ∙ b)
Grown-Same buf s s₁ s₂ (inr (st, b)) (f, same, buffer, room) = inr (same ∙ st, buffer ∙ b)

Unmoved-Same : (s s₁ s₂ : Server) → Unmoved s s₁ → Same s₁ s₂ → Unmoved s s₂
unfolding Unmoved Same
Unmoved-Same s s₁ s₂ (st, b) (f, state, buffer, room) = (state ∙ st, buffer ∙ b)

pub IsSound-Same : (s₁ s₂ : Server) → IsSound s₁ → Same s₁ s₂ → IsSound s₂
unfolding IsSound Same
IsSound-Same s₁ s₂ sound (f, state, buffer, room) = rw (state, buffer, room) sound

after_live_lem :
    (cfg : Config) (ok flushed : Bool) (buf : Bytes) (s : Server)
    → let (status, s') = after_live cfg ok flushed buf s in
      (s'.aof_file ≡ s.aof_file)
      × (status ≡ status_of (not (is_always cfg.aof_policy) || flushed))
      × (s'.aof_buf_dirty ≡ not (is_always cfg.aof_policy && flushed))
      × (s.rewrite_state ≡ active → Grown buf s s')
      × (IsSound s → IsSound s')
      × (s.rewrite_state ≢ active → Unmoved s s')
unfolding after_live aof_maybe_fsync_always Unmoved Same Grown IsSound
after_live_lem cfg ok flushed buf s =
    let s₁ = mirror s.rewrite_state cfg ok buf s in
    let (file, grown, sound, kept) = mirror_lem s.rewrite_state cfg ok buf s refl in
    let dirty : Server = record s₁ { aof_buf_dirty = true } in
    let (same, done, clean) = fsync_under_lem cfg.aof_policy flushed dirty refl in
    let s₂ = (fsync_under cfg.aof_policy flushed dirty).1 in
    (
      same.0 ∙ file,
      ap status_of done,
      clean,
      λ e. Grown-Same buf s s₁ s₂ (grown e) same,
      λ h. IsSound-Same s₁ s₂ (sound h) same,
      λ other. Unmoved-Same s s₁ s₂ (kept other) same,
    )

-- all of that for a whole call in which the record fits and is written
pub aof_append-all_written :
    (cfg : Config) (ok flushed : Bool) (r : LogRecord) (s : Server)
    → IsLoggable r
    → cfg.aof_enabled ≡ true
    → let (status, s') = aof_append cfg all_written ok flushed r s in
      (s'.aof_file ≡ s.aof_file ++ encode r)
      × (status ≡ status_of (not (is_always cfg.aof_policy) || flushed))
      × (s'.aof_buf_dirty ≡ not (is_always cfg.aof_policy && flushed))
      × (s.rewrite_state ≡ active → Grown (encode r) s s')
      × (IsSound s → IsSound s')
      × (s.rewrite_state ≢ active → Unmoved s s')
unfolding aof_append aof_emit_live Unmoved Grown IsSound
aof_append-all_written cfg ok flushed r s loggable enabled =
    let fits : ltb record_max (header_size + body_fixed + length r.key + length r.value) ≡ false =
      ground (arith, loggable.fits) in
    rw (enabled, aof_serialize_lem record_max r, fits)
      (after_live_lem cfg ok flushed (encode r)
        (record s { aof_file = s.aof_file ++ encode r; total_writes = s.total_writes + 1 }))

-- Where the log is enabled, the record fits and all of it is written, the log's file is extended by
-- exactly the record; the call succeeds, but for a failed flush under `always`; and afterwards the
-- log counts as clean exactly where it was flushed under `always`.
pub aof_append_log :
    (cfg : Config) (ok flushed : Bool) (r : LogRecord) (s : Server)
    → IsLoggable r
    → cfg.aof_enabled ≡ true
    → let (status, s') = aof_append cfg all_written ok flushed r s in
      (s'.aof_file ≡ s.aof_file ++ encode r)
      × (status ≡ status_of (not (is_always cfg.aof_policy) || flushed))
      × (s'.aof_buf_dirty ≡ not (is_always cfg.aof_policy && flushed))
aof_append_log cfg ok flushed r s loggable enabled =
    let (file, status, dirty, _, _, _) =
      aof_append-all_written cfg ok flushed r s loggable enabled in
    (file, status, dirty)

emit_live-IsSound :
    (cfg : Config) (written : Written) (ok flushed : Bool) (buf : Bytes) (s : Server)
    → IsSound s
    → let (done, s') = aof_emit_live written buf s in
      IsSound
        (if◌then◌else◌ {A = Status × Server} done
          (after_live cfg ok flushed buf s')
          (failure, s')).1
unfolding aof_emit_live IsSound
emit_live-IsSound cfg all_written ok flushed buf s sound =
    let written = record s { aof_file = s.aof_file ++ buf; total_writes = s.total_writes + 1 } in
    let (_, _, _, _, keeps, _) = after_live_lem cfg ok flushed buf written in keeps sound
emit_live-IsSound cfg (cut_after n) ok flushed buf s sound = sound

-- Let the diff buffer be there exactly in the state `active`, and within its capacity. Then it is
-- so after every call of `aof_append`, whatever fails in it.
pub aof_append-IsSound :
    (cfg : Config) (written : Written) (ok flushed : Bool) (r : LogRecord) (s : Server)
    → IsSound s
    → IsSound (aof_append cfg written ok flushed r s).1
unfolding aof_append
aof_append-IsSound cfg written ok flushed r s sound = elim (Bool-cases cfg.aof_enabled) [
  | inr off ↦ rw off sound
  | inl on ↦ elim (Option-cases (aof_serialize record_max r.op r.key r.value r.expire_at)) [
    | inl large ↦ rw (on, large) sound
    | inr (bytes, e) ↦ rw (on, e) (emit_live-IsSound cfg written ok flushed bytes s sound)
  ]
]
