-- ===== src/Ht/Store.antt =====
-- `ht_set_str` and `ht_set_i64` of src/ht.c.
use native.Mathlib.Nat.{pow-suc}
use bytekv.Prelude.{
  suc, ◌+◌, ◌*◌, ◌^◌, ◌≡◌, refl, inl, inr, Bool, true, false, Option, none, some, arith,
  if◌then◌else◌, Option-cases, Bool-cases, set,
}
use bytekv.Prelude.Bytes.{Bytes, str_eq_iff}
use bytekv.Ht.{
  Status, success, failure, Ht, index, chain_assign, find, push_front, upsert, resize, overloaded,
  set_val,
}
use bytekv.Ht.Chain.{find-assign, occurs-assign, length-assign}
use bytekv.Ht.Buckets.{Reads, update, home_chain, write-Reads, push_front-Reads}
use bytekv.Ht.Valid.{IsValid, Models, one_if_none, own-Reads, resize-Models}

module _ {ℓ} {V : Type ℓ} where
  pub record Stored (ht : Ht V) (k : Bytes) (v : V) (r : Status × Ht V) : Type ℓ where
    pub status : r.0 ≡ success
    pub models : Models (update (find ht) k (some v)) r.1
    pub count : r.1.used ≡ ht.used + one_if_none (find ht k)

  module _ {ht : Ht V} (valid : IsValid ht) (k : Bytes) where
    assigned_Reads :
        (v old : V)
        → find ht k ≡ some old
        → Reads ht.sizemask ht.used (update (find ht) k (some v)) (
            set ht.table
              (index ht.sizemask k)
              (chain_assign k v (home_chain ht.sizemask ht.table k)))
    unfolding find
    assigned_Reads v old e =
        let c = home_chain ht.sizemask ht.table k in
        write-Reads ht.sizemask ht.table valid.reads k (some v) (chain_assign k v c) ht.used
          (omega (arith, length-assign k v c))
          (λ q. ground (
            arith,
            occurs-assign k q v c,
            valid.reads.home k (index ht.sizemask k),
            str_eq_iff k q,
          ))
          (λ q. find-assign k q v old c e)

    -- the load test at the end of `ht_set_*`, after a new entry
    grow_Models :
        {f : Bytes → Option V} (h : Ht V)
        → Reads h.sizemask h.used f h.table
        → h.size ≡ ht.size
        → h.sizemask ≡ ht.sizemask
        → h.used ≡ ht.used + 1
        → Models f (if overloaded h then resize h (h.size * 2) else h)
          × ((if overloaded h then resize h (h.size * 2) else h).used ≡ h.used)
    unfolding overloaded
    grow_Models h r size mask used =
        let (j, two, power) = valid.power in
        let big : 2 ^ suc j ≡ h.size * 2 = omega (arith, pow-suc 2 j) in
        elim (Bool-cases (overloaded h)) [
          | inl e ↦
              let m =
                resize-Models h (suc j) r (omega arith) (omega (arith, valid.masked))
                  (omega (arith, valid.load, valid.masked)) in
              rw e (rw big at m)
          | inr e ↦ rw e (
            (
              record {
                reads = own-Reads h r;
                masked = omega (arith, valid.masked);
                power = (j, two, omega arith);
                load = ground arith;
              },
              unfold find in r.reads,
            ),
            refl,
          )
        ]

    set_val_new :
        (mem : Bool) (v : V)
        → find ht k ≡ none
        → mem ≡ true
        → let h : Ht V = record ht {
          table = push_front ht.sizemask (record { key = k; val = v }) ht.table;
          used = ht.used + 1;
        } in
          set_val mem ht k v ≡ (success, if overloaded h then resize h (h.size * 2) else h)
    unfolding set_val find
    set_val_new mem v e m = rw (set_val, upsert, e, m)

    set_val_old :
        (mem : Bool) (v old : V)
        → find ht k ≡ some old
        → set_val mem ht k v ≡ (
          success,
          record ht {
            table =
                set ht.table
                  (index ht.sizemask k)
                  (chain_assign k v (home_chain ht.sizemask ht.table k));
          },
        )
    unfolding set_val find
    set_val_old mem v old e = rw (set_val, upsert, e)

    -- In a table that satisfies the invariant, storing a value for a key that is there, or for a
    -- new key for which there is memory, succeeds; afterwards a lookup of the key returns the value
    -- and every other lookup is as before, the invariant holds, also across a resize, and `used`
    -- counts one entry more exactly where the key is new.
    pub set_val-Stored :
        (mem : Bool) (v : V) → (find ht k ≡ none → mem ≡ true) → Stored ht k v (set_val mem ht k v)
    set_val-Stored mem v room = elim (Option-cases (find ht k)) [
      | inl e ↦
          let h : Ht V = record ht {
            table = push_front ht.sizemask (record { key = k; val = v }) ht.table;
            used = ht.used + 1;
          } in
          let added = push_front-Reads ht.sizemask ht.table valid.reads k v e in
          let (models, count) = grow_Models h added refl refl refl in
          rw (set_val_new mem v e (room e))
            (record { status = refl; models = models; count = rw (count, e) })
      | inr (old, e) ↦
          let r = assigned_Reads v old e in
          rw (set_val_old mem v old e) (record {
            status = refl;
            models = (
              record {
                reads = own-Reads _ r;
                masked = valid.masked;
                power = valid.power;
                load = valid.load;
              },
              unfold find in r.reads,
            );
            count = rw e (omega arith);
          })
    ]

    -- Without memory for a new entry nothing changes.
    pub set_val_no_memory : (v : V) → find ht k ≡ none → set_val false ht k v ≡ (failure, ht)
    unfolding set_val find
    set_val_no_memory v e = rw (set_val, upsert, e)
