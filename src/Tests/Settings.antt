-- ===== src/Tests/Settings.antt =====
-- src/config.c on concrete files.
use bytekv.Prelude.{ℕ, Bool, ◌≡◌, refl, true, false, some}
use bytekv.Prelude.Bytes.{Bytes, str_eq, c_str}
use bytekv.Prelude.Int.{pos}
use bytekv.Prelude.Text.{codes, strtoll, scan, skip_space}
use bytekv.Config.{init_server_config, find_config, config_table, apply_config}
use bytekv.Config.Lines.{fgets, scan_word, two_words, load_line, load_loop, load_config}
use bytekv.Config.Legal.{IsLegal, init_server_config-IsLegal, load_config-IsLegal}

abbrev always_copied : ℕ → Bool
always_copied i = true

-- a comment, a setting, one that is out of its range, and one without a value
abbrev file : Bytes
file = codes "# x\nhz 20\nhz 501\nport\n"

-- The first setting stays, and the load fails.
load_run :
    let (ok, c) = load_config always_copied (some file) init_server_config in
    (ok ≡ false) × (c.hz ≡ pos 20)
unfolding load_config load_loop load_line two_words scan_word fgets c_str skip_space find_config
    config_table apply_config strtoll scan str_eq init_server_config
load_run = (refl, refl)

load_config-IsLegal_example : IsLegal (load_config always_copied (some file) init_server_config).1
load_config-IsLegal_example =
    load_config-IsLegal always_copied (some file) init_server_config init_server_config-IsLegal
