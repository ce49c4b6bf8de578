-- ===== src/Tests/Commands.antt =====
-- src/command.c on concrete commands.
use bytekv.Prelude.{◌≡◌, refl, true, none, some, [], ◌∷◌, arith, take}
use bytekv.Prelude.Bytes.{Bytes, str_eq, c_str}
use bytekv.Prelude.Int.{pos}
use bytekv.Prelude.Text.{codes, strtoll, scan, skip_space, str_case_eq}
use bytekv.Aof.Writer.{all_written}
use bytekv.Command.Tokens.{tokenize_command, tokens_loop, strsep, words, tokenize_command-words}
use bytekv.Command.Reply.{resp_add, resp_addf, parse_seconds}
use bytekv.Command.Handlers.{State, Io}
use bytekv.Command.Execute.{command_execute, execute_words, lookup_command, dispatch, command_table}
use bytekv.Command.Logged.{Outcome}
use bytekv.Command.Logged.Execute.{command_execute-logged}
use bytekv.Tests.{no_keys, no_keys-IsValid}
use bytekv.Tests.Rewrite.{cfg, server, start_io}

-- memory for everything, and system calls that succeed
abbrev pub io : Io
io = record {
  mem_key = true;
  mem_ttl = true;
  written = all_written;
  realloc_ok = true;
  flushed = true;
  start = start_io;
}

abbrev pub st : State
st = record { db = no_keys; aof = server; now_realtime_ms = pos 1000 }

abbrev set_command : Bytes
set_command = codes "SET a 1"

-- blanks at both ends and in a row give no empty words, and a third word is left where two are asked for
two_words_run : tokenize_command (codes " SET  a b ") 2 ≡ codes "SET" ∷ codes "a" ∷ []
unfolding tokenize_command tokens_loop strsep
two_words_run = refl

tokenize_command-words_example :
    tokenize_command (codes " SET  a b ") 2 ≡ take 2 (words (codes " SET  a b "))
tokenize_command-words_example = tokenize_command-words (codes " SET  a b ") 2

seconds_run : parse_seconds (codes "15") ≡ some (pos 15)
unfolding parse_seconds strtoll scan skip_space
seconds_run = refl

no_seconds_run : parse_seconds (codes "15s") ≡ none
unfolding parse_seconds strtoll scan skip_space
no_seconds_run = refl

zero_seconds_run : parse_seconds (codes "0") ≡ none
unfolding parse_seconds strtoll scan skip_space
zero_seconds_run = refl

-- a reply that does not fit is cut, and the formatted one loses a byte more
cut_run : (resp_add (record { cap = 3; out = [] }) (codes "+OK\n")).out ≡ codes "+OK"
unfolding resp_add
cut_run = refl

cut_format_run : (resp_addf (record { cap = 3; out = [] }) (codes "+OK\n")).out ≡ codes "+O"
unfolding resp_addf
cut_format_run = refl

unknown_run :
    (command_execute cfg io (codes "FLY a") 4096 st).1.out ≡ codes "-ERR unknown command\n"
unfolding command_execute execute_words lookup_command dispatch command_table tokenize_command
    tokens_loop strsep c_str str_case_eq str_eq resp_add
unknown_run = refl

arity_run :
    (command_execute cfg io (codes "get") 4096 st).1.out ≡ codes "-ERR wrong number of arguments\n"
unfolding command_execute execute_words lookup_command dispatch command_table tokenize_command
    tokens_loop strsep c_str str_case_eq str_eq resp_add
arity_run = refl

command_execute-logged_example : Outcome cfg io st (command_execute cfg io set_command 4096 st).0
command_execute-logged_example =
    command_execute-logged cfg io set_command 4096 st no_keys-IsValid refl refl refl refl
      (
        omega arith,
        (
          omega arith,
          (omega arith, (omega arith, (omega arith, (omega arith, (omega arith, tt))))),
        ),
      )
      (omega arith)
