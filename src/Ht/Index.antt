-- ===== src/Ht/Index.antt =====
-- src/ht.c: the bucket index.
use bytekv.Prelude.{ℕ, ◌-◌, ◌%◌, ◌^◌, ◌≤◌, ◌≡◌}
use bytekv.Prelude.Bits.{and_le, and_mask}
use bytekv.Prelude.Bytes.{Bytes}
use bytekv.Ht.{hash, index}

pub index-le : (sizemask : ℕ) (key : Bytes) → index sizemask key ≤ sizemask
unfolding index
index-le sizemask key = and_le (hash key) sizemask

-- With a mask of 2 ^ k - 1, the bucket index `hash & sizemask` is the remainder of the hash divided
-- by 2 ^ k.
pub index-mod : (k : ℕ) (key : Bytes) → index (2 ^ k - 1) key ≡ hash key % 2 ^ k
unfolding index
index-mod k key = and_mask k (hash key)
