-- ===== src/Aof/Layout.antt =====
-- src/aof.c: sizes and contents of serialized records and of the file header.
use bytekv.Prelude.{
  ℕ, ◌+◌, ◌%◌, ◌^◌, ◌<◌, ◌≡◌, refl, true, false, none, some, ◌++◌, arith, ltb, if◌then◌else◌,
  length, length-append,
}
use bytekv.Prelude.Bytes.{
  Bytes, IsBytes, IsText, be, slice, be_value-be, append-IsBytes, be-IsBytes, IsText-IsBytes,
  str_eq_refl,
}
use bytekv.Prelude.Int.{ℤ, to_u64}
use bytekv.Crc64.{crc64}
use bytekv.Crc64.Reference.{crc64-lt}
use bytekv.Aof.{
  Opcode, set, del, setex, expire, persist, opcode_byte, header_size, body_fixed, fixed_fields,
  aof_serialize, file_magic, file_version, file_fields, file_header, read_file_header, LogRecord,
  IsLoggable, checked, encode, file_header_size,
}

-- A record is written exactly where it fits the buffer, and then it is 27 bytes and the two strings.
pub aof_serialize_lem :
    (buf_sz : ℕ) (r : LogRecord)
    → aof_serialize buf_sz r.op r.key r.value r.expire_at ≡ (
        if ltb buf_sz (header_size + body_fixed + length r.key + length r.value)
        then none
        else some (encode r))
unfolding aof_serialize encode
aof_serialize_lem buf_sz r = refl

pub length-encode :
    (r : LogRecord) → length (encode r) ≡ header_size + body_fixed + length r.key + length r.value
unfolding encode be
length-encode r = omega (arith, length-append r.key r.value)

opcode-lt : (op : Opcode) → opcode_byte op < 256
opcode-lt set = omega arith
opcode-lt del = omega arith
opcode-lt setex = omega arith
opcode-lt expire = omega arith
opcode-lt persist = omega arith

fixed_fields-IsBytes :
    (op : Opcode) (klen vlen : ℕ) (expire_at : ℤ) → IsBytes (fixed_fields op klen vlen expire_at)
fixed_fields-IsBytes op klen vlen expire_at = (
  opcode-lt op,
  append-IsBytes (be 2 (klen % 2 ^ 16)) (be 4 (vlen % 2 ^ 32) ++ be 8 (to_u64 expire_at))
      (be-IsBytes 2 (klen % 2 ^ 16))
      (append-IsBytes (be 4 (vlen % 2 ^ 32)) (be 8 (to_u64 expire_at))
        (be-IsBytes 4 (vlen % 2 ^ 32)) (be-IsBytes 8 (to_u64 expire_at))),
)

checked-IsBytes : (r : LogRecord) → IsText r.key → IsText r.value → IsBytes (checked r)
checked-IsBytes r key value =
    let fields = fixed_fields r.op (length r.key) (length r.value) r.expire_at in
    let size = (body_fixed + length r.key + length r.value) % 2 ^ 32 in
    append-IsBytes (be 4 size) (fields ++ (r.key ++ r.value)) (be-IsBytes 4 size) (
      append-IsBytes fields (r.key ++ r.value)
        (fixed_fields-IsBytes r.op (length r.key) (length r.value) r.expire_at)
        (append-IsBytes r.key r.value (IsText-IsBytes r.key key) (IsText-IsBytes r.value value)))

-- The checksum of a record is a 64-bit word.
pub checksum-lt : (r : LogRecord) → IsLoggable r → crc64 0 (checked r) < 2 ^ 64
checksum-lt r h = crc64-lt (checked r) 0 (checked-IsBytes r h.key h.value) (omega arith)

file_fields-IsBytes : (w : ℕ) → IsBytes (file_magic ++ (be 4 file_version ++ (be 4 0 ++ be 8 w)))
unfolding be
file_fields-IsBytes w = omega arith

-- the fields of a file header, over any creation time and checksum
header_slices :
    (w c : ℕ) (rest : Bytes)
    → let fields = file_magic ++ (be 4 file_version ++ (be 4 0 ++ be 8 w)) in
      let file = (fields ++ be 8 c) ++ rest in
      (slice 0 8 file ≡ file_magic)
      × (slice 8 4 file ≡ be 4 file_version)
      × (slice 24 8 file ≡ be 8 c)
      × (slice 0 24 file ≡ fields)
      × (ltb (length file) file_header_size ≡ false)
unfolding be
header_slices w c rest = (refl, refl, refl, refl, ground arith)

-- The file header that is written at any creation time is accepted when it is read back, whatever
-- bytes follow it.
pub read_file_header-file_header :
    (created_ms : ℤ) (rest : Bytes) → read_file_header (file_header created_ms ++ rest) ≡ true
unfolding read_file_header file_header
read_file_header-file_header created_ms rest =
    let crc = crc64 0 (file_fields created_ms) in
    let (magic, version, checksum, fields, long) = header_slices (to_u64 created_ms) crc rest in
    let small : crc < 2 ^ 64 =
      crc64-lt (file_fields created_ms) 0 (file_fields-IsBytes (to_u64 created_ms)) (omega arith) in
    rw
      (
        long,
        magic,
        version,
        checksum,
        fields,
        be_value-be 4 file_version (omega arith),
        be_value-be 8 crc small,
      )
      (ground (arith, str_eq_refl file_magic))
