-- ===== src/Config/Legal.antt =====
-- src/config.c: the settings stay within their bounds, whatever file is read.
use bytekv.Prelude.{
  ℕ, zero, suc, ◌+◌, ◌≤◌, ◌<◌, ◌≡◌, refl, inl, inr, Bool, true, false, Bool-cases, ◌||◌, Option,
  none, some, List, [], ◌∷◌, arith, if◌then◌else◌, length, All,
}
use bytekv.Prelude.Bytes.{Bytes, str_eq, c_str}
use bytekv.Prelude.Int.{ℤ, pos, ltb_ℤ, ◌≤ℤ◌}
use bytekv.Prelude.Text.{codes, strtoll}
use bytekv.Config.{
  ServerConfig, IntField, BoolField, EnumField, set_int, set_bool, set_enum, ConfigType, config_int,
  config_bool, config_string, config_enum, ConfigEntry, config_table, init_server_config,
  find_config, whole_number, apply_int, enum_loop, apply_config, f_port, f_tcp_backlog, f_hz,
  f_expire_percent, f_expire_keys, f_timeout, f_timeout_check_hz, f_check_hz, f_min_size, f_growth,
  f_buf_max_size, f_backoff_base, f_backoff_max, f_expire_enabled, f_aof_enabled, f_policy,
  f_fsync_mode,
}
use bytekv.Config.Lines.{
  fgets, strip_newline, two_words, apply_found, apply_pair, is_comment, load_line, load_loop,
  load_config,
}

abbrev pub Between : ℤ → ℤ → ℤ → Type 0
Between min max v = (min ≤ℤ v) × (v ≤ℤ max)

-- the documented range of each setting that is a number
abbrev pub range : IntField → ℤ × ℤ
range f_port = (pos 1, pos 65535)
range f_tcp_backlog = (pos 1, pos 65535)
range f_hz = (pos 1, pos 500)
range f_expire_percent = (pos 1, pos 100)
range f_expire_keys = (pos 1, pos 1000)
range f_timeout = (pos 0, pos 86400)
range f_timeout_check_hz = (pos 1, pos 100)
range f_check_hz = (pos 1, pos 100)
range f_min_size = (pos 0, pos 2000000000)
range f_growth = (pos 10, pos 1000)
range f_buf_max_size = (pos 1048576, pos 2000000000)
range f_backoff_base = (pos 100, pos 600000)
range f_backoff_max = (pos 1000, pos 3600000)

abbrev pub InRange : IntField → ℤ → Type 0
InRange f v = Between (range f).0 (range f).1 v

-- Every number is in its range, and every enumeration is one of its constants.
abbrev pub IsLegal : ServerConfig → Type 0
IsLegal c =
    InRange f_port c.port
    × InRange f_tcp_backlog c.tcp_backlog
    × InRange f_hz c.hz
    × InRange f_expire_percent c.active_expire_percent
    × InRange f_expire_keys c.active_expire_keys_per_round
    × InRange f_timeout c.client_timeout_s
    × InRange f_timeout_check_hz c.client_timeout_check_hz
    × InRange f_check_hz c.aof_check_hz
    × InRange f_min_size c.aof_rewrite_min_size
    × InRange f_growth c.aof_rewrite_growth
    × InRange f_buf_max_size c.aof_rewrite_buf_max_size
    × InRange f_backoff_base c.aof_rewrite_backoff_base_ms
    × InRange f_backoff_max c.aof_rewrite_backoff_max_ms
    × (c.aof_policy < 3)
    × (c.aof_fsync_mode < 3)

set_int-IsLegal :
    (f : IntField) (v : ℤ) (c : ServerConfig) → IsLegal c → InRange f v → IsLegal (set_int f v c)
set_int-IsLegal f_port v c (h0, h1, h2, h3, h4, h5, h6, h7, h8, h9, h10, h11, h12, h13, h14) h =
    (h, h1, h2, h3, h4, h5, h6, h7, h8, h9, h10, h11, h12, h13, h14)
set_int-IsLegal f_tcp_backlog v c (h0, h1, h2, h3, h4, h5, h6, h7, h8, h9, h10, h11, h12, h13, h14)
      h =
    (h0, h, h2, h3, h4, h5, h6, h7, h8, h9, h10, h11, h12, h13, h14)
set_int-IsLegal f_hz v c (h0, h1, h2, h3, h4, h5, h6, h7, h8, h9, h10, h11, h12, h13, h14) h =
    (h0, h1, h, h3, h4, h5, h6, h7, h8, h9, h10, h11, h12, h13, h14)
set_int-IsLegal f_expire_percent v c
      (h0, h1, h2, h3, h4, h5, h6, h7, h8, h9, h10, h11, h12, h13, h14) h =
    (h0, h1, h2, h, h4, h5, h6, h7, h8, h9, h10, h11, h12, h13, h14)
set_int-IsLegal f_expire_keys v c (h0, h1, h2, h3, h4, h5, h6, h7, h8, h9, h10, h11, h12, h13, h14)
      h =
    (h0, h1, h2, h3, h, h5, h6, h7, h8, h9, h10, h11, h12, h13, h14)
set_int-IsLegal f_timeout v c (h0, h1, h2, h3, h4, h5, h6, h7, h8, h9, h10, h11, h12, h13, h14) h =
    (h0, h1, h2, h3, h4, h, h6, h7, h8, h9, h10, h11, h12, h13, h14)
set_int-IsLegal f_timeout_check_hz v c
      (h0, h1, h2, h3, h4, h5, h6, h7, h8, h9, h10, h11, h12, h13, h14) h =
    (h0, h1, h2, h3, h4, h5, h, h7, h8, h9, h10, h11, h12, h13, h14)
set_int-IsLegal f_check_hz v c (h0, h1, h2, h3, h4, h5, h6, h7, h8, h9, h10, h11, h12, h13, h14) h =
    (h0, h1, h2, h3, h4, h5, h6, h, h8, h9, h10, h11, h12, h13, h14)
set_int-IsLegal f_min_size v c (h0, h1, h2, h3, h4, h5, h6, h7, h8, h9, h10, h11, h12, h13, h14) h =
    (h0, h1, h2, h3, h4, h5, h6, h7, h, h9, h10, h11, h12, h13, h14)
set_int-IsLegal f_growth v c (h0, h1, h2, h3, h4, h5, h6, h7, h8, h9, h10, h11, h12, h13, h14) h =
    (h0, h1, h2, h3, h4, h5, h6, h7, h8, h, h10, h11, h12, h13, h14)
set_int-IsLegal f_buf_max_size v c (h0, h1, h2, h3, h4, h5, h6, h7, h8, h9, h10, h11, h12, h13, h14)
      h =
    (h0, h1, h2, h3, h4, h5, h6, h7, h8, h9, h, h11, h12, h13, h14)
set_int-IsLegal f_backoff_base v c (h0, h1, h2, h3, h4, h5, h6, h7, h8, h9, h10, h11, h12, h13, h14)
      h =
    (h0, h1, h2, h3, h4, h5, h6, h7, h8, h9, h10, h, h12, h13, h14)
set_int-IsLegal f_backoff_max v c (h0, h1, h2, h3, h4, h5, h6, h7, h8, h9, h10, h11, h12, h13, h14)
      h =
    (h0, h1, h2, h3, h4, h5, h6, h7, h8, h9, h10, h11, h, h13, h14)

pub init_server_config-IsLegal : IsLegal init_server_config
unfolding init_server_config
init_server_config-IsLegal = (
  (omega arith, omega arith),
  (omega arith, omega arith),
  (omega arith, omega arith),
  (omega arith, omega arith),
  (omega arith, omega arith),
  (omega arith, omega arith),
  (omega arith, omega arith),
  (omega arith, omega arith),
  (omega arith, omega arith),
  (omega arith, omega arith),
  (omega arith, omega arith),
  (omega arith, omega arith),
  (omega arith, omega arith),
  omega arith,
  omega arith,
)

set_enum-IsLegal :
    (f : EnumField) (i : ℕ) (c : ServerConfig) → IsLegal c → i < 3 → IsLegal (set_enum f i c)
set_enum-IsLegal f_policy i c (h0, h1, h2, h3, h4, h5, h6, h7, h8, h9, h10, h11, h12, h13, h14) h =
    (h0, h1, h2, h3, h4, h5, h6, h7, h8, h9, h10, h11, h12, h, h14)
set_enum-IsLegal f_fsync_mode i c (h0, h1, h2, h3, h4, h5, h6, h7, h8, h9, h10, h11, h12, h13, h14)
      h =
    (h0, h1, h2, h3, h4, h5, h6, h7, h8, h9, h10, h11, h12, h13, h)

set_bool-IsLegal :
    (f : BoolField) (v : Bool) (c : ServerConfig) → IsLegal c → IsLegal (set_bool f v c)
set_bool-IsLegal f_expire_enabled v c h = h
set_bool-IsLegal f_aof_enabled v c h = h

-- what the table says of a type: the bounds of a number are those of its field
IsTyped : ConfigType → Type 0
IsTyped (config_int f min max) = (min ≡ (range f).0) × (max ≡ (range f).1)
IsTyped (config_bool f) = Unit {0}
IsTyped config_string = Unit {0}
IsTyped (config_enum f values) = length values ≡ 3

apply_int-IsLegal :
    (f : IntField) (v : Option ℤ) (c : ServerConfig)
    → IsLegal c
    → IsLegal (apply_int f (range f).0 (range f).1 v c).1
apply_int-IsLegal f none c h = h
apply_int-IsLegal f (some v) c h = elim (Bool-cases (ltb_ℤ v (range f).0 || ltb_ℤ (range f).1 v)) [
  | inl outside ↦ rw outside h
  | inr inside ↦
      rw inside (set_int-IsLegal f v c h (ground (arith, inside), ground (arith, inside)))
]

enum_loop-IsLegal :
    (f : EnumField) (i : ℕ) (values : List Bytes) (value : Bytes) (c : ServerConfig)
    → IsLegal c
    → i + length values ≤ 3
    → IsLegal (enum_loop f i values value c).1
unfolding enum_loop
enum_loop-IsLegal f i [] value c h le = h
enum_loop-IsLegal f i (v ∷ vs) value c h le = elim (Bool-cases (str_eq v value)) [
  | inl same ↦ rw same (set_enum-IsLegal f i c h (omega (arith, le)))
  | inr other ↦ rw other (enum_loop-IsLegal f (i + 1) vs value c h (omega (arith, le)))
]

apply_config-IsLegal :
    (copied : Bool) (t : ConfigType) (value : Bytes) (c : ServerConfig)
    → IsTyped t
    → IsLegal c
    → IsLegal (apply_config copied t value c).1
unfolding apply_config IsTyped
apply_config-IsLegal copied (config_int f min max) value c (lo, hi) h =
    rw (lo, hi) (apply_int-IsLegal f (whole_number value (strtoll value)) c h)
apply_config-IsLegal copied (config_bool f) value c typed h =
    elim (Bool-cases (str_eq value (codes "yes"))) [
      | inl on ↦ rw on (set_bool-IsLegal f true c h)
      | inr other ↦ elim (Bool-cases (str_eq value (codes "no"))) [
        | inl off ↦ rw (other, off) (set_bool-IsLegal f false c h)
        | inr neither ↦ rw (other, neither) h
      ]
    ]
apply_config-IsLegal true config_string value c typed h = h
apply_config-IsLegal false config_string value c typed h = h
apply_config-IsLegal copied (config_enum f values) value c typed h =
    enum_loop-IsLegal f 0 values value c h (omega (arith, typed))

TypedEntry : ConfigEntry → Type 0
TypedEntry e = IsTyped e.type

table-All : All TypedEntry config_table
unfolding config_table TypedEntry IsTyped
table-All = (
  (refl, refl),
  (
    (refl, refl),
    (
      (refl, refl),
      (
        tt,
        (
          (refl, refl),
          (
            (refl, refl),
            (
              (refl, refl),
              (
                (refl, refl),
                (
                  tt,
                  (
                    (refl, refl),
                    (
                      tt,
                      (
                        (refl, refl),
                        (
                          (refl, refl),
                          ((refl, refl), ((refl, refl), ((refl, refl), (refl, (refl, tt))))),
                        ),
                      ),
                    ),
                  ),
                ),
              ),
            ),
          ),
        ),
      ),
    ),
  ),
)

apply_found-IsLegal :
    (copied : Bool) (key value : Bytes) (c : ServerConfig) (table : List ConfigEntry)
    → All TypedEntry table
    → IsLegal c
    → IsLegal (apply_found copied (find_config key table) value c).1
unfolding find_config TypedEntry
apply_found-IsLegal copied key value c [] typed h = h
apply_found-IsLegal copied key value c (e ∷ table) (t, typed) h =
    elim (Bool-cases (str_eq e.name key)) [
      | inl same ↦ rw same (apply_config-IsLegal copied e.type value c t h)
      | inr other ↦ rw other (apply_found-IsLegal copied key value c table typed h)
    ]

apply_pair-IsLegal :
    (copied : Bool) (words : Option (Bytes × Bytes)) (c : ServerConfig)
    → IsLegal c
    → IsLegal (apply_pair copied words c).1
apply_pair-IsLegal copied none c h = h
apply_pair-IsLegal copied (some (key, value)) c h =
    apply_found-IsLegal copied key value c config_table table-All h

load_line-IsLegal :
    (copied : Bool) (read : Bytes) (c : ServerConfig)
    → IsLegal c
    → IsLegal (load_line copied read c).1
unfolding load_line
load_line-IsLegal copied read c h =
    let line = strip_newline (c_str read) in
    elim (Bool-cases (is_comment line)) [
      | inl skipped ↦ rw skipped h
      | inr setting ↦ rw setting (apply_pair-IsLegal copied (two_words line) c h)
    ]

load_loop-IsLegal :
    (fuel : ℕ) (copied : ℕ → Bool) (errors : ℕ) (file : Bytes) (c : ServerConfig)
    → IsLegal c
    → IsLegal (load_loop fuel copied errors file c).1
unfolding load_loop
load_loop-IsLegal zero copied errors file c h = h
load_loop-IsLegal (suc fuel) copied errors [] c h = h
load_loop-IsLegal (suc fuel) copied errors (b ∷ file) c h =
    let (read, rest) = fgets 1023 (b ∷ file) in
    let (ok, c') = load_line (copied 0) read c in
    load_loop-IsLegal fuel (λ i. copied (suc i)) (if ok then errors else errors + 1) rest c'
      (load_line-IsLegal (copied 0) read c h)

-- Let every number of the settings be within the range of its setting, and every enumeration be one
-- of its constants. Then it is so after a configuration file is read, whatever its bytes are, also
-- where the load fails.
pub load_config-IsLegal :
    (copied : ℕ → Bool) (file : Option Bytes) (c : ServerConfig)
    → IsLegal c
    → IsLegal (load_config copied file c).1
unfolding load_config
load_config-IsLegal copied none c h = h
load_config-IsLegal copied (some file) c h = load_loop-IsLegal (length file) copied 0 file c h
