-- ===== src/Config.antt =====
-- src/config.h and src/config.c: the settings, their table, and the file they are read from.
pub mod Lines
pub mod Legal
use bytekv.Prelude.{
  ℕ, zero, suc, ◌+◌, Bool, true, false, ◌||◌, Option, none, some, List, [], ◌∷◌, if◌then◌else◌,
}
use bytekv.Prelude.Bytes.{Bytes, str_eq}
use bytekv.Prelude.Int.{ℤ, pos, negsuc, ltb_ℤ}
use bytekv.Prelude.Text.{codes, strtoll}

-- `server_config_t`; an enumeration is the number that the source stores
pub record ServerConfig : Type 0 where
  pub port : ℤ
  pub tcp_backlog : ℤ
  pub hz : ℤ
  pub active_expire_enabled : Bool
  pub active_expire_percent : ℤ
  pub active_expire_keys_per_round : ℤ
  pub client_timeout_s : ℤ
  pub client_timeout_check_hz : ℤ
  pub aof_check_hz : ℤ
  pub aof_filename : Bytes
  pub aof_enabled : Bool
  pub aof_policy : ℕ
  pub aof_fsync_mode : ℕ
  pub aof_rewrite_min_size : ℤ
  pub aof_rewrite_growth : ℤ
  pub aof_rewrite_buf_max_size : ℤ
  pub aof_rewrite_backoff_base_ms : ℤ
  pub aof_rewrite_backoff_max_ms : ℤ

-- the offsets of the fields of type `int` that a number is stored at
pub data IntField : Type 0 where
  f_port f_tcp_backlog f_hz f_expire_percent f_expire_keys f_timeout f_timeout_check_hz : IntField
  f_check_hz f_min_size f_growth f_buf_max_size f_backoff_base f_backoff_max : IntField

pub data BoolField : Type 0 where
  f_expire_enabled f_aof_enabled : BoolField

pub data EnumField : Type 0 where
  f_policy f_fsync_mode : EnumField

-- `*(int *)target = v`
abbrev pub set_int : IntField → ℤ → ServerConfig → ServerConfig
set_int f_port v c = record c { port = v }
set_int f_tcp_backlog v c = record c { tcp_backlog = v }
set_int f_hz v c = record c { hz = v }
set_int f_expire_percent v c = record c { active_expire_percent = v }
set_int f_expire_keys v c = record c { active_expire_keys_per_round = v }
set_int f_timeout v c = record c { client_timeout_s = v }
set_int f_timeout_check_hz v c = record c { client_timeout_check_hz = v }
set_int f_check_hz v c = record c { aof_check_hz = v }
set_int f_min_size v c = record c { aof_rewrite_min_size = v }
set_int f_growth v c = record c { aof_rewrite_growth = v }
set_int f_buf_max_size v c = record c { aof_rewrite_buf_max_size = v }
set_int f_backoff_base v c = record c { aof_rewrite_backoff_base_ms = v }
set_int f_backoff_max v c = record c { aof_rewrite_backoff_max_ms = v }

-- `*(bool *)target = v`
abbrev pub set_bool : BoolField → Bool → ServerConfig → ServerConfig
set_bool f_expire_enabled v c = record c { active_expire_enabled = v }
set_bool f_aof_enabled v c = record c { aof_enabled = v }

-- `*(int *)target = i`
abbrev pub set_enum : EnumField → ℕ → ServerConfig → ServerConfig
set_enum f_policy v c = record c { aof_policy = v }
set_enum f_fsync_mode v c = record c { aof_fsync_mode = v }

-- `type`, with what the branch of that type reads: `offset`, and `min` and `max`, or `enum_values`
pub data ConfigType : Type 0 where
  config_int : IntField → ℤ → ℤ → ConfigType
  config_bool : BoolField → ConfigType
  config_string : ConfigType
  config_enum : EnumField → List Bytes → ConfigType

-- `config_entry_t`
pub record ConfigEntry : Type 0 where
  pub name : Bytes
  pub type : ConfigType

abbrev pub setting : Bytes → ConfigType → ConfigEntry
setting name type = record { name = name; type = type }

abbrev pub aof_policy_values : List Bytes
aof_policy_values = codes "no" ∷ codes "pertick" ∷ codes "always" ∷ []

abbrev pub aof_fsync_mode_values : List Bytes
aof_fsync_mode_values = codes "data" ∷ codes "meta" ∷ codes "full" ∷ []

unfoldable pub config_table : List ConfigEntry
config_table =
    setting (codes "port") (config_int f_port (pos 1) (pos 65535))
    ∷ setting (codes "tcp-backlog") (config_int f_tcp_backlog (pos 1) (pos 65535))
    ∷ setting (codes "hz") (config_int f_hz (pos 1) (pos 500))
    ∷ setting (codes "active-expire-enabled") (config_bool f_expire_enabled)
    ∷ setting (codes "active-expire-percent") (config_int f_expire_percent (pos 1) (pos 100))
    ∷ setting (codes "active-expire-keys-per-round") (config_int f_expire_keys (pos 1) (pos 1000))
    ∷ setting (codes "client-timeout") (config_int f_timeout (pos 0) (pos 86400))
    ∷ setting (codes "client-timeout-check-hz") (config_int f_timeout_check_hz (pos 1) (pos 100))
    ∷ setting (codes "aof-enabled") (config_bool f_aof_enabled)
    ∷ setting (codes "aof-check-hz") (config_int f_check_hz (pos 1) (pos 100))
    ∷ setting (codes "aof-filename") config_string
    ∷ setting (codes "aof-rewrite-min-size") (config_int f_min_size (pos 0) (pos 2000000000))
    ∷ setting (codes "aof-rewrite-growth") (config_int f_growth (pos 10) (pos 1000))
    ∷ setting (codes "aof-rewrite-buf-max-size")
        (config_int f_buf_max_size (pos 1048576) (pos 2000000000))
    ∷ setting (codes "aof-rewrite-backoff-base-ms")
        (config_int f_backoff_base (pos 100) (pos 600000))
    ∷ setting (codes "aof-rewrite-backoff-max-ms")
        (config_int f_backoff_max (pos 1000) (pos 3600000))
    ∷ setting (codes "appendfsync") (config_enum f_policy aof_policy_values)
    ∷ setting (codes "aof-fsync-mode") (config_enum f_fsync_mode aof_fsync_mode_values)
    ∷ []

-- the values that `init_server_config` stores, where `strdup` succeeds
unfoldable pub init_server_config : ServerConfig
init_server_config = record {
  port = pos 9999;
  tcp_backlog = pos 511;
  hz = pos 10;
  active_expire_enabled = true;
  active_expire_percent = pos 25;
  active_expire_keys_per_round = pos 20;
  client_timeout_s = pos 300;
  client_timeout_check_hz = pos 10;
  aof_check_hz = pos 10;
  aof_filename = codes "bytekv.aof";
  aof_enabled = true;
  aof_policy = 2;
  aof_fsync_mode = 2;
  aof_rewrite_min_size = pos 1048576;
  aof_rewrite_growth = pos 100;
  aof_rewrite_buf_max_size = pos 134217728;
  aof_rewrite_backoff_base_ms = pos 10000;
  aof_rewrite_backoff_max_ms = pos 600000;
}

unfoldable pub find_config : Bytes → List ConfigEntry → Option ConfigEntry
find_config name [] = none
find_config name (e ∷ table) =
    let rest = find_config name table in if str_eq e.name name then some e else rest

-- The number that `strtol` gives where `*end` is NUL. On a text without digits `end` is its start.
abbrev pub whole_number : Bytes → Option (ℤ × Bytes) → Option ℤ
whole_number [] none = some (pos 0)
whole_number (c ∷ s) none = none
whole_number value (some (v, [])) = some v
whole_number value (some (v, c ∷ s)) = none

-- the branch `CONFIG_TYPE_INT`; the result is whether the return value is 0
abbrev pub apply_int : IntField → ℤ → ℤ → Option ℤ → ServerConfig → Bool × ServerConfig
apply_int f min max none c = (false, c)
apply_int f min max (some v) c =
    if ltb_ℤ v min || ltb_ℤ max v then (false, c) else (true, set_int f v c)

-- the `for` loop of the branch `CONFIG_TYPE_ENUM`, from index `i` on
unfoldable pub enum_loop : EnumField → ℕ → List Bytes → Bytes → ServerConfig → Bool × ServerConfig
enum_loop f i [] value c = (false, c)
enum_loop f i (v ∷ vs) value c =
    let rest = enum_loop f (i + 1) vs value c in
    if str_eq v value then (true, set_enum f i c) else rest

-- `copied` is whether `strdup` succeeds.
unfoldable pub apply_config : Bool → ConfigType → Bytes → ServerConfig → Bool × ServerConfig
unfolding enum_loop
apply_config copied (config_int f min max) value c =
    apply_int f min max (whole_number value (strtoll value)) c
apply_config copied (config_bool f) value c =
    if str_eq value (codes "yes")
    then (true, set_bool f true c)
    else if str_eq value (codes "no")
    then (true, set_bool f false c)
    else (false, c)
apply_config copied config_string value c =
    if copied then (true, record c { aof_filename = value }) else (false, c)
apply_config copied (config_enum f values) value c = enum_loop f 0 values value c
