-- ===== src/Ht/Buckets.antt =====
-- src/ht.c: the map that a bucket array stands for, and the writing of one bucket.
use bytekv.Prelude.{
  ℕ, suc, ◌+◌, ◌≤◌, ◌<◌, ◌≡◌, Option, none, some, List, [], ◌∷◌, arith, ◌==◌, if◌then◌else◌, length,
  get_or, set, replicate, flatten, length-set, get_or-set, get_or-replicate, length-flatten-set,
  length-replicate, flatten-replicate,
}
use bytekv.Prelude.Bytes.{Bytes, str_eq, str_eq_iff}
use bytekv.Ht.{Chain, index, chain_find, push_front}
use bytekv.Ht.Index.{index-le}
use bytekv.Ht.Chain.{occurs, occurs_absent}

abbrev pub update {ℓ} : {V : Type ℓ} → (Bytes → Option V) → Bytes → Option V → Bytes → Option V
update f k v q = if str_eq k q then v else f q

module _ {ℓ} {V : Type ℓ} where
  abbrev pub home_chain : ℕ → List (Chain V) → Bytes → Chain V
  home_chain sizemask table q = get_or table (index sizemask q) []

  -- `table` has `sizemask + 1` buckets and `total` entries; a key occurs in its home bucket only, at
  -- most once; and a walk of the home bucket reads the map `f`.
  pub record Reads (sizemask total : ℕ) (f : Bytes → Option V) (table : List (Chain V))
      : Type ℓ where
    pub width : length table ≡ sizemask + 1
    pub entries : length (flatten table) ≡ total
    pub home :
        (q : Bytes) (i : ℕ)
        → occurs q (get_or table i []) ≤ (if index sizemask q == i then 1 else 0)
    pub reads : (q : Bytes) → chain_find q (home_chain sizemask table q) ≡ f q

  pub empty-Reads : (sizemask : ℕ) → Reads sizemask 0 (λ _. none) (replicate (suc sizemask) [])
  unfolding occurs chain_find
  empty-Reads sizemask = record {
    width = rw length-replicate (omega arith);
    entries = rw flatten-replicate;
    home = λ q i. rw get_or-replicate (omega arith);
    reads = λ q. rw get_or-replicate;
  }

  module _ (sizemask : ℕ) {total : ℕ} {f : Bytes → Option V} (table : List (Chain V))
      (r : Reads sizemask total f table) (k : Bytes) where
    -- Every write replaces the home chain of one key.
    pub write-Reads :
        (v : Option V) (c : Chain V) (total' : ℕ)
        → total' + length (home_chain sizemask table k) ≡ total + length c
        → ((q : Bytes)
            → occurs q c ≤ (if str_eq k q then 1 else occurs q (home_chain sizemask table k)))
        → ((q : Bytes)
            → chain_find q c
              ≡ (if str_eq k q then v else chain_find q (home_chain sizemask table k)))
        → Reads sizemask total' (update f k v) (set table (index sizemask k) c)
    write-Reads v c total' size few finds =
        let i = index sizemask k in
        let inside : i < length table = omega (arith, r.width, index-le sizemask k) in
        record {
          width = rw length-set r.width;
          entries = omega (arith, length-flatten-set table i c inside, r.entries);
          home = λ q j.
              rw (get_or-set table i j c [] inside)
                (ground (arith, r.home q j, few q, r.home q i, str_eq_iff k q));
          reads = λ q.
              rw (get_or-set table i (index sizemask q) c [] inside)
                (ground (arith, r.reads q, finds q, str_eq_iff k q));
        }

    -- A new entry goes to the front of its home chain.
    pub push_front-Reads :
        (v : V)
        → f k ≡ none
        → Reads sizemask
            (total + 1)
            (update f k (some v))
            (push_front sizemask (record { key = k; val = v }) table)
    unfolding push_front occurs chain_find
    push_front-Reads v absent =
        let old = home_chain sizemask table k in
        write-Reads (some v) (record { key = k; val = v } ∷ old) (total + 1) (omega arith)
          (λ q. ground (arith, occurs_absent k old, r.reads k, str_eq_iff k q)) (λ q. ground arith)
