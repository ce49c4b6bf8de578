-- ===== src/Ht.antt =====
-- src/ht.h and src/ht.c: the chained hash table, generic in the type of the stored values.
pub mod Free
pub mod Chain
pub mod Index
pub mod Buckets
pub mod Resize
pub mod Valid
pub mod Store
pub mod Delete
pub mod Iter
use bytekv.Prelude.{
  ℕ, zero, suc, ◌+◌, ◌-◌, ◌*◌, ◌%◌, ◌^◌, Bool, true, false, not, ◌&&◌, Option, none, some, List, [],
  ◌∷◌, bit_and, ltb, if◌then◌else◌, get_or, set, replicate,
}
use bytekv.Prelude.Bytes.{Bytes, str_eq}

-- `int` status of the operations
pub data Status : Type 0 where
  success failure : Status

-- one entry; `next` is the rest of the list that the entry stands in
pub record Entry {ℓ} (V : Type ℓ) : Type ℓ where
  pub key : Bytes
  pub val : V

-- a chain, by its `next` links
abbrev pub Chain {ℓ} : Type ℓ → Type ℓ
Chain V = List (Entry V)

-- `val_type` is the parameter `V`. `used` and `size` count objects in memory and stay far below
-- 2 ^ 64, so they are not wrapped.
pub record Ht {ℓ} (V : Type ℓ) : Type ℓ where
  pub table : List (Chain V)
  pub size : ℕ
  pub sizemask : ℕ
  pub used : ℕ

abbrev pub initial_size : ℕ
initial_size = 4

unfoldable pub create {ℓ} : {V : Type ℓ} → Ht V
create = record {
  table = replicate initial_size [];
  size = initial_size;
  sizemask = initial_size - 1;
  used = 0;
}

-- `c = *key++` reads a signed `char`; adding it to a `size_t` sign-extends it
abbrev char_word : ℕ → ℕ
char_word c = if ltb c 128 then c else 2 ^ 64 - 256 + c

hash_loop : ℕ → Bytes → ℕ
hash_loop h [] = h
hash_loop h (c ∷ key) = hash_loop ((h * 2 ^ 5 % 2 ^ 64 + h + char_word c) % 2 ^ 64) key

unfoldable pub hash : Bytes → ℕ
unfolding hash_loop
hash key = hash_loop 5381 key

-- `ht_hash(key) & sizemask`
unfoldable pub index : ℕ → Bytes → ℕ
index sizemask key = bit_and (hash key) sizemask

module _ {ℓ} {V : Type ℓ} where
  -- the entry with the key, in one chain
  unfoldable pub chain_find : Bytes → Chain V → Option V
  chain_find key [] = none
  chain_find key (e ∷ c) = if str_eq e.key key then some e.val else chain_find key c

  -- the store through the pointer that the walk of a chain has found
  unfoldable pub chain_assign : Bytes → V → Chain V → Chain V
  chain_assign key v [] = []
  chain_assign key v (e ∷ c) =
      if str_eq e.key key then record e { val = v } ∷ c else e ∷ chain_assign key v c

  -- `prev->next = entry->next`
  unfoldable pub chain_unlink : Bytes → Chain V → Chain V
  chain_unlink key [] = []
  chain_unlink key (e ∷ c) = if str_eq e.key key then c else e ∷ chain_unlink key c

  -- `ht_find`; the pointer is read at once by all its callers
  unfoldable pub find : Ht V → Bytes → Option V
  find ht key = chain_find key (get_or ht.table (index ht.sizemask key) [])

  unfoldable pub exists : Ht V → Bytes → Bool
  exists ht key = elim (find ht key) [ none ↦ false | some v ↦ true ]

  -- `new_entry->next = table[i]; table[i] = new_entry`
  unfoldable pub push_front : ℕ → Entry V → List (Chain V) → List (Chain V)
  push_front sizemask e table = let i = index sizemask e.key in set table i (e ∷ get_or table i [])

  -- `ht_upsert`, with the store of `v` that both callers make through the returned pointer. The
  -- result is `*found` and the table, or nothing where `malloc` failed. `mem` is whether it succeeds.
  unfoldable pub upsert : Bool → Ht V → Bytes → V → Option (Bool × Ht V)
  upsert mem ht key v =
      let i = index ht.sizemask key in
      let chain = get_or ht.table i [] in
      elim (chain_find key chain) [
        | some old ↦ some (true, record ht { table = set ht.table i (chain_assign key v chain) })
        | none ↦
            if mem
            then some (
              false,
              record ht {
                table = push_front ht.sizemask (record { key = key; val = v }) ht.table;
                used = ht.used + 1;
              },
            )
            else none
      ]

  -- the inner loop of `ht_resize`: each entry of a chain goes to the front of its new bucket
  unfoldable pub move_chain : ℕ → Chain V → List (Chain V) → List (Chain V)
  move_chain new_mask [] new_table = new_table
  move_chain new_mask (e ∷ c) new_table = move_chain new_mask c (push_front new_mask e new_table)

  -- the outer loop, over the buckets of the old table
  unfoldable pub move_all : ℕ → List (Chain V) → List (Chain V) → List (Chain V)
  unfolding move_chain
  move_all new_mask [] new_table = new_table
  move_all new_mask (c ∷ old) new_table = move_all new_mask old (move_chain new_mask c new_table)

  unfoldable pub resize : Ht V → ℕ → Ht V
  unfolding move_all
  resize ht new_size =
      let new_mask = new_size - 1 in
      record ht {
        table = move_all new_mask ht.table (replicate new_size []);
        size = new_size;
        sizemask = new_mask;
      }

  -- `(double)used / size > LOAD_FACTOR`, that is `used / size > 3 / 4`
  unfoldable pub overloaded : Ht V → Bool
  overloaded ht = ltb (3 * ht.size) (4 * ht.used)

  -- `ht_set_str` and `ht_set_i64`, which differ in the type of the value only
  unfoldable pub set_val : Bool → Ht V → Bytes → V → Status × Ht V
  unfolding upsert overloaded
  set_val mem ht key v = elim (upsert mem ht key v) [
    | none ↦ (failure, ht)
    | some (found, ht') ↦
        (success, if not found && overloaded ht' then resize ht' (ht'.size * 2) else ht')
  ]

  unfoldable pub del : Ht V → Bytes → Status × Ht V
  del ht key =
      let i = index ht.sizemask key in
      let chain = get_or ht.table i [] in
      elim (chain_find key chain) [
        | some old ↦ (
          success,
          record ht { table = set ht.table i (chain_unlink key chain); used = ht.used - 1 },
        )
        | none ↦ (failure, ht)
      ]
