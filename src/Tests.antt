-- ===== src/Tests.antt =====
-- Runs of the models on concrete inputs, and concrete instances of the theorems.
mod Tables
mod Replies
mod Log
mod Rewrite
mod Commands
mod Net
mod Settings
mod Sessions
mod Loops
mod Starts
use bytekv.Prelude.{ℕ, some, none, [], ◌∷◌, refl, true, arith}
use bytekv.Prelude.Bytes.{Bytes}
use bytekv.Prelude.Int.{ℤ, pos}
use bytekv.Ht
use bytekv.Ht.{Ht}
use bytekv.Ht.Valid
use bytekv.Ht.Store
use bytekv.Db.{Db, db_create, db_setex, db_set}
use bytekv.Db.Model.{IsValid, db_create-Models}
use bytekv.Db.Writes.{db_setex-Models, db_set-Models}

-- keys and values
abbrev pub key_a : Bytes
key_a = b'a' ∷ []

abbrev pub key_b : Bytes
key_b = b'b' ∷ []

abbrev pub old_value : Bytes
old_value = b'o' ∷ b'l' ∷ b'd' ∷ []

abbrev pub new_value : Bytes
new_value = b'n' ∷ b'e' ∷ b'w' ∷ []

-- a table with one entry
abbrev pub one_entry : Ht Bytes
one_entry = (Ht.set_val true Ht.create key_a old_value).1

pub create-IsValid : Valid.IsValid (Ht.create {V = Bytes})
create-IsValid = Valid.create-Models.0

pub one_entry-IsValid : Valid.IsValid one_entry
one_entry-IsValid = (Store.set_val-Stored create-IsValid key_a true old_value (λ _. refl)).models.0

-- a store with no key
abbrev pub no_keys : Db
no_keys = db_create (pos 0)

pub no_keys-IsValid : IsValid no_keys
no_keys-IsValid = (db_create-Models (pos 0)).0

-- a store where `a` expires after the time 100
abbrev pub timed : Db
timed = (db_setex true true no_keys key_a old_value (pos 100)).1

pub timed-IsValid : IsValid timed
timed-IsValid =
    (db_setex-Models no_keys-IsValid key_a true true old_value (pos 100) (omega arith) (λ _. refl)
      (λ _. refl)).0.0

-- a store where `a` has no expiry
abbrev pub lasting : Db
lasting = (db_set true no_keys key_a old_value).1

pub lasting-IsValid : IsValid lasting
lasting-IsValid = (db_set-Models no_keys-IsValid key_a true old_value (λ _. refl)).0.0
