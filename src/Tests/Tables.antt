-- ===== src/Tests/Tables.antt =====
-- src/ht.c and src/crc64.c on concrete inputs.
use bytekv.Prelude.{◌≡◌, refl, some, [], ◌∷◌, arith, ◌∙◌, true, false, sym, length, ◌+◌, flatten}
use bytekv.Prelude.Bytes.{Bytes, str_eq}
use bytekv.Crc64.{crc64, crc64_round, crc64_tab}
use bytekv.Crc64.Reference.{crc_bitwise, crc64-crc_bitwise}
use bytekv.Ht
use bytekv.Ht.{success, failure}
use bytekv.Ht.Valid
use bytekv.Ht.Store.{Stored, set_val-Stored, set_val_no_memory}
use bytekv.Ht.Delete.{Deleted, del-Deleted}
use bytekv.Ht.Iter.{iter_all, iter_create, iter_all-flatten}
use bytekv.Tests.{key_a, key_b, old_value, new_value, one_entry, create-IsValid, one_entry-IsValid}

abbrev digits : Bytes
digits = b'1' ∷ b'2' ∷ b'3' ∷ b'4' ∷ b'5' ∷ b'6' ∷ b'7' ∷ b'8' ∷ b'9' ∷ []

-- the check value that src/crc64.c names
crc64_check : crc64 0 digits ≡ 16845390139448941002
unfolding crc64 crc64_round crc64_tab
crc64_check = refl

crc64-crc_bitwise_example : crc64 0 digits ≡ crc_bitwise 0 digits
crc64-crc_bitwise_example = crc64-crc_bitwise digits 0 (omega arith)

find_one : Ht.find one_entry key_a ≡ some old_value
unfolding Ht.find Ht.set_val Ht.create Ht.index Ht.hash Ht.chain_find Ht.push_front str_eq
find_one = refl

set_val-Stored_example :
    Stored one_entry key_b new_value (Ht.set_val true one_entry key_b new_value)
set_val-Stored_example = set_val-Stored one_entry-IsValid key_b true new_value (λ _. refl)

set_val_no_memory_example : Ht.set_val false Ht.create key_b new_value ≡ (failure, Ht.create)
set_val_no_memory_example =
    set_val_no_memory create-IsValid key_b new_value (Valid.create-Models.1 key_b)

del-Deleted_example : Deleted one_entry key_a (Ht.del one_entry key_a)
del-Deleted_example = del-Deleted one_entry-IsValid key_a

one_entry_sized : length one_entry.table ≡ one_entry.size
one_entry_sized = one_entry-IsValid.reads.width ∙ sym one_entry-IsValid.masked

iter_all-flatten_example :
    iter_all (length (flatten one_entry.table) + 1) (iter_create one_entry)
    ≡ some (flatten one_entry.table)
iter_all-flatten_example = iter_all-flatten one_entry one_entry_sized
