-- ===== src/Tests/Rewrite.antt =====
-- src/aof.c, writing: a rewrite with one command logged while the child runs.
use bytekv.Prelude.{suc, ◌+◌, ◌≡◌, refl, true, false, some, none, [], ◌∷◌, ◌++◌, arith}
use bytekv.Prelude.Bytes.{be}
use bytekv.Aof.{IsLoggable, aof_serialize}
use bytekv.Aof.Recovery.Stale.{set_record}
use bytekv.Aof.Recovery.Torn.{encode_all}
use bytekv.Aof.Writer.{
  Config, Server, always, idle, active, all_written, aof_append, after_live, mirror, aof_emit_diff,
  aof_emit_live, aof_maybe_fsync_always,
}
use bytekv.Aof.Writer.Diff.{IsSound, Diff}
use bytekv.Aof.Writer.Backoff.{delay_after, aof_rewrite_record_failure-delay}
use bytekv.Aof.Writer.Rewrite.{
  StartIo, FinalizeIo, aof_rewrite_start, aof_rewrite_finalize, aof_rewrite_record_failure,
}
use bytekv.Aof.Writer.Finish.{Finalized, all_ok, aof_rewrite_finalize-Finalized}
use bytekv.Aof.Writer.Lossless.{During, start, logged, child, aof_rewrite_lossless}
use bytekv.Tests.{key_a, old_value}

abbrev pub cfg : Config
cfg = record {
  aof_enabled = true;
  aof_policy = always;
  hz = 10;
  aof_check_hz = 10;
  rewrite_min_size = 100;
  rewrite_growth = 100;
  rewrite_buf_max_size = 4096;
  backoff_base_ms = 1000;
  backoff_max_ms = 5000;
}

-- no rewrite runs, after three failures in a row
abbrev pub server : Server
server = record {
  now_ms = 9;
  aof_file = 1 ∷ 2 ∷ [];
  temp_file = none;
  aof_buf_dirty = false;
  rewrite_state = idle;
  rewrite_buf = none;
  rewrite_cap = 64;
  rewrite_last_size = 0;
  total_writes = 0;
  total_fsyncs = 0;
  rewrites_completed = 0;
  rewrites_failed = 3;
  last_rewrite_start_ms = 0;
  last_rewrite_duration_ms = 0;
  failed_streak = 3;
  next_attempt_ms = 0;
  last_fsync_ms = 0;
  last_check_ms = 0;
}

set_a-IsLoggable : IsLoggable (set_record key_a old_value)
set_a-IsLoggable = record {
  key = omega arith;
  value = omega arith;
  fits = omega arith;
  time = omega arith;
}

server-IsSound : IsSound server
unfolding IsSound Diff
server-IsSound = refl

aof_rewrite_record_failure-delay_example :
    let s' = aof_rewrite_record_failure cfg server in
    (s'.next_attempt_ms ≡ 9 + delay_after 3 5000 1000)
    × (s'.failed_streak ≡ suc 3)
    × (s'.rewrites_failed ≡ suc 3)
aof_rewrite_record_failure-delay_example = aof_rewrite_record_failure-delay cfg server

-- every system call succeeds
abbrev pub start_io : StartIo
start_io = record { malloc_ok = true; fork_ok = true }

abbrev io : FinalizeIo
io = record {
  opened = true;
  written = all_written;
  flushed = true;
  reopened = true;
  renamed = true;
  stat_ok = true;
  unlinked = true;
}

abbrev started : Server
started = (aof_rewrite_start cfg start_io server).1

-- a command is logged, and then the child is done
abbrev after_command : Server
after_command = (aof_append cfg all_written true true (set_record key_a old_value) started).1

abbrev ended : Server
ended = record after_command { temp_file = some (3 ∷ []) }

-- the system calls succeed, and so the rewrite does
aof_rewrite_finalize-Finalized_example :
    Finalized io (some (3 ∷ [])) ended (aof_rewrite_finalize cfg io ended)
aof_rewrite_finalize-Finalized_example = aof_rewrite_finalize-Finalized cfg io ended

while_running : During cfg started (set_record key_a old_value ∷ []) ended
while_running =
    child (some (3 ∷ [])) (logged true true (set_record key_a old_value) set_a-IsLoggable start)

has_started : (aof_rewrite_start cfg start_io server).0 ≡ true
unfolding aof_rewrite_start
has_started = refl

still_active : ended.rewrite_state ≡ active
unfolding aof_append after_live mirror aof_emit_diff aof_emit_live aof_maybe_fsync_always
    aof_serialize aof_rewrite_start be
still_active = refl

is_ok : all_ok io ≡ true
unfolding all_ok
is_ok = refl

aof_rewrite_lossless_example :
    (ended.aof_file ≡ server.aof_file ++ encode_all (set_record key_a old_value ∷ []))
    × ((aof_rewrite_finalize cfg io ended).aof_file
        ≡ (3 ∷ []) ++ encode_all (set_record key_a old_value ∷ []))
aof_rewrite_lossless_example =
    aof_rewrite_lossless cfg start_io io server ended (set_record key_a old_value ∷ []) (3 ∷ [])
      refl has_started while_running still_active refl is_ok
