-- ===== src/Command/Logged/Execute.antt =====
-- `command_execute` of src/command.c: the store against the log.
use bytekv.Prelude.{
  ℕ, zero, suc, ◌+◌, ◌≤◌, ◌≡◌, refl, inl, inr, true, Bool-cases, Option, none, some, List, [], ◌∷◌,
  ◌++◌, arith, length, All, take, length-append, ◌==◌,
}
use bytekv.Prelude.Bytes.{Bytes, IsText, IsBytes, c_str}
use bytekv.Db.Model.{IsValid}
use bytekv.Aof.{record_max, header_size, body_fixed}
use bytekv.Aof.Writer.{Config, Server, RewriteState, idle, active, aborting, all_written}
use bytekv.Aof.Writer.Rewrite.{StartIo, aof_rewrite_start, aof_rewrite_record_failure}
use bytekv.Command.Tokens.{
  is_blank, flush, words_from, words, tokenize_command, tokenize_command-words,
  tokenize_command-IsWord, max_tokens,
}
use bytekv.Command.Reply.{RespBuf}
use bytekv.Command.Handlers.{State, Io, cmd_keys, cmd_info, rewrite_in, cmd_bgrewriteaof}
use bytekv.Command.Execute.{
  Whenever, lookup_command-Whenever, CommandEntry, command_table, lookup_command, wrong_arity,
  dispatch, execute_words, command_execute,
}
use bytekv.Command.Logged.{total, Ready, Outcome, IsDurable, cmd_get-IsDurable, cmd_ttl-IsDurable}
use bytekv.Command.Logged.Writes.{
  cmd_set-IsDurable, cmd_setex-IsDurable, cmd_expire-IsDurable, cmd_persist-IsDurable,
  cmd_del-IsDurable,
}

unchanged-Outcome : (cfg : Config) (io : Io) (st : State) → IsValid st.db → Outcome cfg io st st
unfolding Outcome
unchanged-Outcome cfg io st valid =
    (valid, inl (record { file = refl; quiet = inl refl; keys = λ q. inl refl }))

cmd_keys-IsDurable : IsDurable cmd_keys
unfolding cmd_keys IsDurable
cmd_keys-IsDurable cfg io argv st resp ready = unchanged-Outcome cfg io st ready.valid

cmd_info-IsDurable : IsDurable cmd_info
unfolding cmd_info IsDurable
cmd_info-IsDurable cfg io argv st resp ready = unchanged-Outcome cfg io st ready.valid

start_file :
    (cfg : Config) (io : StartIo) (s : Server)
    → (aof_rewrite_start cfg io s).1.aof_file ≡ s.aof_file
unfolding aof_rewrite_start aof_rewrite_record_failure
start_file cfg io s = ground arith

rewrite_in-Outcome :
    (w : RewriteState) (cfg : Config) (io : Io) (argv : List Bytes) (st : State) (resp : RespBuf)
    → st.aof.rewrite_state ≡ w
    → Ready cfg io argv st
    → Outcome cfg io st (rewrite_in w cfg io argv st resp).0
unfolding rewrite_in Outcome
rewrite_in-Outcome idle cfg io argv st resp at_rest ready = (
  ready.valid,
  inl (record {
    file = start_file cfg io.start st.aof;
    quiet = inr (at_rest, refl, refl);
    keys = λ q. inl refl;
  }),
)
rewrite_in-Outcome active cfg io argv st resp e ready = unchanged-Outcome cfg io st ready.valid
rewrite_in-Outcome aborting cfg io argv st resp e ready = unchanged-Outcome cfg io st ready.valid

cmd_bgrewriteaof-IsDurable : IsDurable cmd_bgrewriteaof
unfolding cmd_bgrewriteaof IsDurable
cmd_bgrewriteaof-IsDurable cfg io argv st resp ready =
    rewrite_in-Outcome st.aof.rewrite_state cfg io argv st resp refl ready

DurableEntry : CommandEntry → Type 0
DurableEntry e = IsDurable e.proc

table-All : All DurableEntry command_table
unfolding command_table DurableEntry
table-All = (
  cmd_get-IsDurable,
  (
    cmd_ttl-IsDurable,
    (
      cmd_set-IsDurable,
      (
        cmd_setex-IsDurable,
        (
          cmd_expire-IsDurable,
          (
            cmd_persist-IsDurable,
            (
              cmd_del-IsDurable,
              (cmd_keys-IsDurable, (cmd_info-IsDurable, (cmd_bgrewriteaof-IsDurable, tt))),
            ),
          ),
        ),
      ),
    ),
  ),
)

dispatch-IsDurable : (o : Option CommandEntry) → Whenever DurableEntry o → IsDurable (dispatch o)
unfolding dispatch IsDurable Whenever DurableEntry
dispatch-IsDurable none h cfg io argv st resp ready = unchanged-Outcome cfg io st ready.valid
dispatch-IsDurable (some e) h cfg io argv st resp ready =
    elim (Bool-cases (wrong_arity e.arity (length argv))) [
      | inl wrong ↦ rw wrong (unchanged-Outcome cfg io st ready.valid)
      | inr right ↦ rw right (h cfg io argv st resp ready)
    ]

execute_words-IsDurable : IsDurable execute_words
unfolding execute_words IsDurable
execute_words-IsDurable cfg io [] st resp ready = unchanged-Outcome cfg io st ready.valid
execute_words-IsDurable cfg io (name ∷ ws) st resp ready =
    dispatch-IsDurable (lookup_command name command_table)
      (lookup_command-Whenever DurableEntry name command_table table-All) cfg io (name ∷ ws) st resp
      ready

total-take : (n : ℕ) (ws : List Bytes) → total (take n ws) ≤ total ws
total-take zero ws = omega arith
total-take (suc n) [] = omega arith
total-take (suc n) (w ∷ ws) = omega (arith, total-take n ws)

total-flush : (w : Bytes) (ws : List Bytes) → total (flush w ws) ≡ length w + total ws
total-flush [] ws = omega arith
total-flush (c ∷ w) ws = refl

total-words_from : (word s : Bytes) → total (words_from word s) ≤ length word + length s
unfolding words_from
total-words_from word [] = omega (arith, total-flush word [])
total-words_from word (c ∷ s) = elim (Bool-cases (is_blank c)) [
  | inl blank ↦ rw blank (omega (arith, total-flush word (words s), total-words_from [] s))
  | inr other ↦
      rw other (omega (arith, total-words_from (word ++ (c ∷ [])) s, length-append word (c ∷ [])))
]

c_str-IsText_bytes : (s : Bytes) → IsBytes s → IsText (c_str s) × (length (c_str s) ≤ length s)
unfolding c_str
c_str-IsText_bytes [] h = (tt, omega arith)
c_str-IsText_bytes (b ∷ s) (small, h) = elim (Bool-cases (b == 0)) [
  | inl nul ↦ rw nul (tt, omega arith)
  | inr other ↦
      let (text, short) = c_str-IsText_bytes s h in rw other ((ground arith, text), omega arith)
]

-- On a valid store, with a log that is on and takes every byte, and with memory for new entries,
-- let a payload of bytes leave room for the 27 bytes of a record's fixed part. Then the store is
-- valid after the command. Either nothing is logged, so that the log is as it was, but for a
-- rewrite that may be started on the store as it is, and so is every key, but for one that was past
-- its expiry and is gone; or the log is what `aof_append` makes of one more record, all of which is
-- written, and replaying that record's operation on the old store succeeds with the new store.
pub command_execute-logged :
    (cfg : Config) (io : Io) (payload : Bytes) (out_cap : ℕ) (st : State)
    → IsValid st.db
    → cfg.aof_enabled ≡ true
    → io.written ≡ all_written
    → io.mem_key ≡ true
    → io.mem_ttl ≡ true
    → IsBytes payload
    → header_size + body_fixed + length payload ≤ record_max
    → Outcome cfg io st (command_execute cfg io payload out_cap st).0
unfolding command_execute IsDurable
command_execute-logged cfg io payload out_cap st valid enabled written mem_key mem_ttl bytes room =
    let (text, short) = c_str-IsText_bytes payload bytes in
    let argv = tokenize_command (c_str payload) max_tokens in
    let size : total argv ≤ length (c_str payload) =
      rw (tokenize_command-words (c_str payload) max_tokens) (
        omega (
          arith,
          total-take max_tokens (words (c_str payload)),
          total-words_from [] (c_str payload),
        )) in
    execute_words-IsDurable cfg io argv st (record { cap = out_cap; out = [] })
      (record {
        valid = valid;
        enabled = enabled;
        written = written;
        mem_key = mem_key;
        mem_ttl = mem_ttl;
        words = tokenize_command-IsWord (c_str payload) max_tokens text;
        room = omega (arith, room, short, size);
      })
