-- ===== src/Aof.antt =====
-- src/aof.h and the serialization half of src/aof.c: log records and the file header, as bytes.
pub mod Layout
pub mod Recovery
pub mod Writer
use bytekv.Prelude.{
  ℕ, ◌+◌, ◌%◌, ◌^◌, ◌≤◌, Bool, true, false, ◌&&◌, Option, none, some, List, [], ◌∷◌, ◌++◌, ltb,
  ◌==◌, if◌then◌else◌, length,
}
use bytekv.Prelude.Bytes.{Bytes, IsText, str_eq, be, be_value, slice}
use bytekv.Prelude.Int.{ℤ, IsI64, to_u64}
use bytekv.Crc64.{crc64}

-- `aof_opcode_t`
pub data Opcode : Type 0 where
  set del setex expire persist : Opcode

abbrev pub opcode_byte : Opcode → ℕ
opcode_byte set = 1
opcode_byte del = 2
opcode_byte setex = 3
opcode_byte expire = 4
opcode_byte persist = 5

abbrev pub msg_max : ℕ
msg_max = 4096

abbrev pub record_max : ℕ
record_max = msg_max

abbrev pub header_size : ℕ
header_size = 12

abbrev pub body_fixed : ℕ
body_fixed = 15

-- `op`, `klen`, `vlen` and `expire`, cast to their widths
abbrev pub fixed_fields : Opcode → ℕ → ℕ → ℤ → Bytes
fixed_fields op klen vlen expire_at =
    opcode_byte op ∷ (be 2 (klen % 2 ^ 16) ++ (be 4 (vlen % 2 ^ 32) ++ be 8 (to_u64 expire_at)))

-- what the checksum covers: the body's length and the body
abbrev pub checked_part : Opcode → Bytes → Bytes → ℤ → Bytes
checked_part op key value expire_at =
    be 4 ((body_fixed + length key + length value) % 2 ^ 32)
    ++ (fixed_fields op (length key) (length value) expire_at ++ (key ++ value))

-- The record in a buffer of `buf_sz` bytes, or -1 where it does not fit.
unfoldable pub aof_serialize : ℕ → Opcode → Bytes → Bytes → ℤ → Option Bytes
aof_serialize buf_sz op key value expire_at =
    let checked = checked_part op key value expire_at in
    if ltb buf_sz (header_size + body_fixed + length key + length value)
    then none
    else some (be 8 (crc64 0 checked) ++ checked)

-- "BYTEKVAF"
abbrev pub file_magic : Bytes
file_magic = b'B' ∷ b'Y' ∷ b'T' ∷ b'E' ∷ b'K' ∷ b'V' ∷ b'A' ∷ b'F' ∷ []

abbrev pub file_version : ℕ
file_version = 1

abbrev pub file_header_size : ℕ
file_header_size = 32

-- bytes 0 to 23 of the file header
abbrev pub file_fields : ℤ → Bytes
file_fields created_ms = file_magic ++ (be 4 file_version ++ (be 4 0 ++ be 8 (to_u64 created_ms)))

-- the bytes that `aof_write_file_header` writes
unfoldable pub file_header : ℤ → Bytes
file_header created_ms = file_fields created_ms ++ be 8 (crc64 0 (file_fields created_ms))

-- `aof_read_file_header` on the contents of the file: whether it returns 0
unfoldable pub read_file_header : Bytes → Bool
read_file_header file =
    if ltb (length file) file_header_size
    then false
    else str_eq (slice 0 8 file) file_magic
      && (be_value (slice 8 4 file) == file_version
          && be_value (slice 24 8 file) == crc64 0 (slice 0 24 file))

-- the arguments of `aof_append`
pub record LogRecord : Type 0 where
  pub op : Opcode
  pub key : Bytes
  pub value : Bytes
  pub expire_at : ℤ

-- The key and the value are C strings, the record fits its buffer, and the time is an `int64_t`.
pub record IsLoggable (r : LogRecord) : Type 0 where
  pub key : IsText r.key
  pub value : IsText r.value
  pub fits : header_size + body_fixed + length r.key + length r.value ≤ record_max
  pub time : IsI64 r.expire_at

abbrev pub checked : LogRecord → Bytes
checked r = checked_part r.op r.key r.value r.expire_at

-- the bytes of a record that fits
unfoldable pub encode : LogRecord → Bytes
encode r = be 8 (crc64 0 (checked r)) ++ checked r
