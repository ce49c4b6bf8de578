-- ===== src/Config/Lines.antt =====
-- `load_config` of src/config.c, with the calls of `fgets` and `sscanf` in it.
use bytekv.Prelude.{
  ℕ, zero, suc, ◌+◌, Bool, true, false, Option, none, some, [], ◌∷◌, ◌==◌, if◌then◌else◌, length,
  ◌≤◌, ◌≡◌, refl, arith, Bool-cases, inl, inr,
}
use bytekv.Prelude.Bytes.{Bytes, c_str}
use bytekv.Prelude.Text.{is_space, skip_space}
use bytekv.Config.{ServerConfig, ConfigEntry, config_table, find_config, apply_config}

-- `fgets(line, n + 1, fp)`: the bytes up to a newline, that with them, at most `n`; and the others
unfoldable pub fgets : ℕ → Bytes → Bytes × Bytes
fgets zero file = ([], file)
fgets (suc n) [] = ([], [])
fgets (suc n) (c ∷ file) =
    let (line, rest) = fgets n file in if c == 10 then (c ∷ [], file) else (c ∷ line, rest)

-- the newline at the end, if there is one, replaced by NUL
abbrev pub strip_newline : Bytes → Bytes
strip_newline [] = []
strip_newline (c ∷ []) = if c == 10 then [] else c ∷ []
strip_newline (c ∷ d ∷ s) = c ∷ strip_newline (d ∷ s)

-- the text of `%<n>s` behind white space, and what is left
unfoldable pub scan_word : ℕ → Bytes → Bytes × Bytes
scan_word zero s = ([], s)
scan_word (suc n) [] = ([], [])
scan_word (suc n) (c ∷ s) =
    let (word, rest) = scan_word n s in if is_space c then ([], c ∷ s) else (c ∷ word, rest)

-- both words, where there are two
abbrev pub pair_of : Bytes → Bytes → Option (Bytes × Bytes)
pair_of [] value = none
pair_of (k ∷ key) [] = none
pair_of (k ∷ key) (v ∷ value) = some (k ∷ key, v ∷ value)

-- `sscanf(line, "%255s %255s", key, value)`, where it gives 2
unfoldable pub two_words : Bytes → Option (Bytes × Bytes)
unfolding scan_word
two_words line =
    let (key, rest) = scan_word 255 (skip_space line) in
    let (value, _) = scan_word 255 (skip_space rest) in pair_of key value

-- whether the setting on a line is taken
abbrev pub apply_found : Bool → Option ConfigEntry → Bytes → ServerConfig → Bool × ServerConfig
apply_found copied none value c = (false, c)
apply_found copied (some e) value c = apply_config copied e.type value c

abbrev pub apply_pair : Bool → Option (Bytes × Bytes) → ServerConfig → Bool × ServerConfig
apply_pair copied none c = (false, c)
apply_pair copied (some (key, value)) c = apply_found copied (find_config key config_table) value c

abbrev pub is_comment : Bytes → Bool
is_comment [] = true
is_comment (c ∷ s) = c == b'#'

-- the body of the `while` loop, on what `fgets` has read; empty lines and comments are skipped
unfoldable pub load_line : Bool → Bytes → ServerConfig → Bool × ServerConfig
unfolding two_words
load_line copied read c =
    let line = strip_newline (c_str read) in
    if is_comment line then (true, c) else apply_pair copied (two_words line) c

-- The `while` loop, a round for each unit of fuel: the number of errors. `fgets` gives NULL at the end.
unfoldable pub load_loop : ℕ → (ℕ → Bool) → ℕ → Bytes → ServerConfig → ℕ × ServerConfig
unfolding fgets load_line
load_loop zero copied errors file c = (errors, c)
load_loop (suc fuel) copied errors [] c = (errors, c)
load_loop (suc fuel) copied errors (b ∷ file) c =
    let (read, rest) = fgets 1023 (b ∷ file) in
    let (ok, c') = load_line (copied 0) read c in
    load_loop fuel (λ i. copied (suc i)) (if ok then errors else errors + 1) rest c'

-- The file, or nothing where `fopen` fails. The result is whether the return value is 0.
unfoldable pub load_config : (ℕ → Bool) → Option Bytes → ServerConfig → Bool × ServerConfig
unfolding load_loop
load_config copied none c = (false, c)
load_config copied (some file) c =
    let (errors, c') = load_loop (length file) copied 0 file c in (errors == 0, c')

length-fgets : (n : ℕ) (file : Bytes) → length (fgets n file).1 ≤ length file
unfolding fgets
length-fgets zero file = omega arith
length-fgets (suc n) [] = omega arith
length-fgets (suc n) (c ∷ file) = elim (Bool-cases (c == 10)) [
  | inl newline ↦ rw newline (omega arith)
  | inr other ↦ rw other (omega (arith, length-fgets n file))
]

fgets_shorter : (n : ℕ) (c : ℕ) (file : Bytes) → length (fgets (suc n) (c ∷ file)).1 ≤ length file
unfolding fgets
fgets_shorter n c file = elim (Bool-cases (c == 10)) [
  | inl newline ↦ rw newline (omega arith)
  | inr other ↦ rw other (length-fgets n file)
]

fgets_enough :
    (n fuel c : ℕ) (file : Bytes)
    → length (c ∷ file) ≤ suc fuel
    → length (fgets (suc n) (c ∷ file)).1 ≤ fuel
fgets_enough n fuel c file le = omega (arith, le, fgets_shorter n c file)

suc_add : (a b : ℕ) → suc a + b ≡ suc (a + b)
suc_add a b = omega arith

load_loop_empty :
    (fuel : ℕ) (copied : ℕ → Bool) (errors : ℕ) (c : ServerConfig)
    → load_loop fuel copied errors [] c ≡ (errors, c)
unfolding load_loop
load_loop_empty zero copied errors c = refl
load_loop_empty (suc fuel) copied errors c = refl

-- Each round takes a byte or more of the file, so that its length is fuel enough.
load_loop_fuel :
    (fuel extra : ℕ) (copied : ℕ → Bool) (errors : ℕ) (file : Bytes) (c : ServerConfig)
    → length file ≤ fuel
    → load_loop (fuel + extra) copied errors file c ≡ load_loop fuel copied errors file c
unfolding load_loop
load_loop_fuel fuel extra copied errors [] c le =
    rw (load_loop_empty (fuel + extra) copied errors c, load_loop_empty fuel copied errors c)
load_loop_fuel zero extra copied errors (b ∷ file) c le = absurd (omega arith)
load_loop_fuel (suc fuel) extra copied errors (b ∷ file) c le =
    let (read, rest) = fgets 1023 (b ∷ file) in
    let (ok, c') = load_line (copied 0) read c in
    rw (suc_add fuel extra) (
      load_loop_fuel fuel extra (λ i. copied (suc i)) (if ok then errors else errors + 1) rest c'
        (fgets_enough 1022 fuel b file le))
