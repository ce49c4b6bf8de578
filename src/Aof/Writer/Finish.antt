-- ===== src/Aof/Writer/Finish.antt =====
-- `aof_rewrite_finalize` of src/aof.c.
use bytekv.Prelude.{
  suc, ◌≡◌, refl, ◌∙◌, sym, ap, ◌⊎◌, inl, inr, Bool, true, false, Option, none, some, arith, ◌++◌,
  ◌&&◌, if◌then◌else◌, if-both,
}
use bytekv.Prelude.Bytes.{Bytes}
use bytekv.Aof.Writer.{Config, Server, Written, all_written, cut_after, idle, durable_flush}
use bytekv.Aof.Writer.Rewrite.{
  FinalizeIo, written_ok, emitted, diff_bytes, aof_rewrite_finalize, finalize_from, give_up,
  complete, aof_rewrite_cleanup, aof_rewrite_record_failure,
}

-- a rewrite that is over: none is active, and there is no diff buffer
unfoldable pub Over : Server → Type 0
Over s = (s.rewrite_state ≡ idle) × (s.rewrite_buf ≡ none)

-- The temporary file before `unlink`, where a finalization fails: the child's file, and behind it what was
-- written of the diff buffer.
abbrev pub appended : Bool → Written → Bytes → Bytes → Bytes
appended opened written diff temp = if opened then temp ++ emitted written diff else temp

-- the temporary file that a finalization that fails leaves
abbrev pub leftover : FinalizeIo → Option Bytes → Bytes → Option Bytes
leftover io none diff = none
leftover io (some temp) diff =
    if io.unlinked then none else some (appended io.opened io.written diff temp)

-- the log is as it was, the failure is counted, and `left` is the temporary file
unfoldable pub Failed : Option Bytes → Server → Server → Type 0
Failed left s s' =
    (s'.aof_file ≡ s.aof_file)
    × (s'.failed_streak ≡ suc s.failed_streak)
    × (s'.rewrites_completed ≡ s.rewrites_completed)
    × (s'.temp_file ≡ left)

-- the child's file and the diff buffer are the log, and the file is no temporary one any more
unfoldable pub Completed : Bytes → Server → Server → Type 0
Completed temp s s' =
    (s'.aof_file ≡ temp ++ diff_bytes s.rewrite_buf)
    × (s'.failed_streak ≡ 0)
    × (s'.rewrites_completed ≡ suc s.rewrites_completed)
    × (s'.temp_file ≡ none)

unfoldable pub all_ok : FinalizeIo → Bool
all_ok io = io.opened && (written_ok io.written && (io.flushed && (io.reopened && io.renamed)))

-- completed, or failed
abbrev pub Finalized : FinalizeIo → Option Bytes → Server → Server → Type 0
Finalized io file s s' =
    Over s'
    × (((temp : Bytes) × (file ≡ some temp) × (all_ok io ≡ true) × Completed temp s s')
        ⊎ (((file ≡ none) ⊎ (all_ok io ≡ false))
            × Failed (leftover io file (diff_bytes s.rewrite_buf)) s s'))

finalize_from-Finalized :
    (file : Option Bytes) (opened : Bool) (written : Written)
    (flushed reopened renamed stat_ok unlinked : Bool) (cfg : Config) (s : Server)
    → file ≡ s.temp_file
    → let io : FinalizeIo = record {
      opened = opened;
      written = written;
      flushed = flushed;
      reopened = reopened;
      renamed = renamed;
      stat_ok = stat_ok;
      unlinked = unlinked;
    } in
      Finalized io file s (finalize_from file io cfg s)
unfolding finalize_from give_up complete aof_rewrite_cleanup aof_rewrite_record_failure Over Failed
    Completed durable_flush all_ok
finalize_from-Finalized none opened written flushed reopened renamed stat_ok unlinked cfg s is = (
  (refl, refl),
  inr (inl refl, (refl, omega arith, refl, if-both (λ f. f ≡ none) unlinked refl (sym is))),
)
finalize_from-Finalized (some temp) false written flushed reopened renamed stat_ok unlinked cfg s
      is =
    (
      (refl, refl),
      inr (inr refl, (refl, omega arith, refl, ap (λ f. if unlinked then none else f) (sym is))),
    )
finalize_from-Finalized (some temp) true (cut_after n) flushed reopened renamed stat_ok unlinked cfg
      s is =
    ((refl, refl), inr (inr refl, (refl, omega arith, refl, refl)))
finalize_from-Finalized (some temp) true all_written false reopened renamed stat_ok unlinked cfg s
      is =
    ((refl, refl), inr (inr refl, (refl, omega arith, refl, refl)))
finalize_from-Finalized (some temp) true all_written true false renamed stat_ok unlinked cfg s is =
    ((refl, refl), inr (inr refl, (refl, omega arith, refl, refl)))
finalize_from-Finalized (some temp) true all_written true true false stat_ok unlinked cfg s is =
    ((refl, refl), inr (inr refl, (refl, omega arith, refl, refl)))
finalize_from-Finalized (some temp) true all_written true true true stat_ok unlinked cfg s is =
    ((refl, refl), inl (temp, refl, refl, (refl, refl, omega arith, refl)))

-- Where the child left its file and every system call up to the `rename` succeeds, the new log is
-- that file with the diff buffer behind it, the completion is counted and the failed streak is
-- reset; otherwise the log is as it was, no completion is counted and the streak is one longer.
-- Both ways no rewrite is active and no diff buffer is left. No temporary file is left after a
-- completion, nor after a failure in which `unlink` succeeds; where that fails, the child's file is
-- left, with what was written of the diff buffer behind it.
pub aof_rewrite_finalize-Finalized :
    (cfg : Config) (io : FinalizeIo) (s : Server)
    → Finalized io s.temp_file s (aof_rewrite_finalize cfg io s)
unfolding aof_rewrite_finalize
aof_rewrite_finalize-Finalized cfg io s =
    finalize_from-Finalized s.temp_file io.opened io.written io.flushed io.reopened io.renamed
      io.stat_ok io.unlinked cfg s refl

pub finalized :
    (cfg : Config) (io : FinalizeIo) (s : Server) (temp buf : Bytes)
    → s.temp_file ≡ some temp
    → all_ok io ≡ true
    → s.rewrite_buf ≡ some buf
    → (aof_rewrite_finalize cfg io s).aof_file ≡ temp ++ buf
unfolding Completed
finalized cfg io s temp buf left ok held =
    let (over, outcome) = aof_rewrite_finalize-Finalized cfg io s in
    elim outcome [
      | inl (temp', left', ok', (file, _, _, _)) ↦
          file
          ∙ ap (λ t. t ++ diff_bytes s.rewrite_buf) (ground (arith, sym left' ∙ left))
          ∙ ap (λ t. temp ++ diff_bytes t) held
      | inr (inl absent, failed) ↦ ground (arith, sym absent ∙ left)
      | inr (inr wrong, failed) ↦ ground (arith, sym wrong ∙ ok)
    ]
