-- ===== src/Ht/Delete.antt =====
-- `ht_del` of src/ht.c.
use bytekv.Prelude.{
  ◌+◌, ◌-◌, ◌<◌, ◌≡◌, inl, inr, none, some, [], arith, if◌then◌else◌, Option-cases, length, set,
  length-flatten-set,
}
use bytekv.Prelude.Bytes.{Bytes, str_eq_iff}
use bytekv.Ht.Index.{index-le}
use bytekv.Ht.{Status, success, failure, Ht, index, chain_unlink, find, exists, del}
use bytekv.Ht.Chain.{find-unlink, occurs-unlink, length-unlink}
use bytekv.Ht.Buckets.{Reads, update, home_chain, write-Reads}
use bytekv.Ht.Valid.{IsValid, Models, one_if_none, own-Reads}

module _ {ℓ} {V : Type ℓ} where
  -- What a deletion of `k` from `ht` returns.
  pub record Deleted (ht : Ht V) (k : Bytes) (r : Status × Ht V) : Type ℓ where
    pub status : r.0 ≡ (if exists ht k then success else failure)
    pub models : Models (update (find ht) k none) r.1
    pub count : r.1.used + 1 ≡ ht.used + one_if_none (find ht k)

  module _ {ht : Ht V} (valid : IsValid ht) (k : Bytes) where
    unlinked_Reads :
        (old : V)
        → find ht k ≡ some old
        → Reads ht.sizemask (ht.used - 1) (update (find ht) k none) (
            set ht.table (index ht.sizemask k) (chain_unlink k (home_chain ht.sizemask ht.table k)))
          × (0 < ht.used)
    unfolding find
    unlinked_Reads old e =
        let c = home_chain ht.sizemask ht.table k in
        let shorter = length-unlink k old c e in
        let i = index ht.sizemask k in
        let inside : i < length ht.table =
          omega (arith, valid.reads.width, index-le ht.sizemask k) in
        let filled : 0 < ht.used =
          omega (arith, length-flatten-set ht.table i [] inside, valid.reads.entries) in
        (
          write-Reads ht.sizemask ht.table valid.reads k none (chain_unlink k c) (ht.used - 1)
              (omega arith)
              (λ q. ground (arith, occurs-unlink k q c, valid.reads.home k i, str_eq_iff k q))
              (λ q. find-unlink k q c (ground (arith, valid.reads.home q i))),
          filled,
        )

    del_absent : find ht k ≡ none → del ht k ≡ (failure, ht)
    unfolding del find
    del_absent e = rw (del, e)

    del_present :
        (old : V)
        → find ht k ≡ some old
        → del ht k ≡ (
          success,
          record ht {
            table =
                set ht.table
                  (index ht.sizemask k)
                  (chain_unlink k (home_chain ht.sizemask ht.table k));
            used = ht.used - 1;
          },
        )
    unfolding del find
    del_present old e = rw (del, e)

    -- In a table that satisfies the invariant, a deletion succeeds exactly where the key is there;
    -- afterwards the key is gone, every other lookup is as before, the invariant holds, and `used`
    -- counts one entry less exactly where the key was there.
    pub del-Deleted : Deleted ht k (del ht k)
    unfolding exists
    del-Deleted = elim (Option-cases (find ht k)) [
      | inl e ↦ rw (del_absent e) (record {
        status = rw (exists, e);
        models = (valid, λ q. ground (arith, str_eq_iff k q));
        count = rw e;
      })
      | inr (old, e) ↦
          let (r, filled) = unlinked_Reads old e in
          rw (del_present old e) (record {
            status = rw (exists, e);
            models = (
              record {
                reads = own-Reads _ r;
                masked = valid.masked;
                power = valid.power;
                load = omega (arith, valid.load);
              },
              unfold find in r.reads,
            );
            count = rw e (omega arith);
          })
    ]
