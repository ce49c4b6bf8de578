-- ===== src/Ht/Chain.antt =====
-- src/ht.c: the walk of one chain, and its three writes.
use bytekv.Prelude.{
  ℕ, ◌+◌, ◌≤◌, ◌<◌, ◌≡◌, refl, none, some, [], ◌∷◌, ◌++◌, arith, if◌then◌else◌, length,
}
use bytekv.Prelude.Bytes.{Bytes, str_eq, str_eq_iff}
use bytekv.Ht.{Chain, chain_find, chain_assign, chain_unlink}

module _ {ℓ} {V : Type ℓ} where
  -- how often a key occurs
  unfoldable pub occurs : Bytes → Chain V → ℕ
  occurs q [] = 0
  occurs q (e ∷ c) = (if str_eq e.key q then 1 else 0) + occurs q c

  pub find_absent : (q : Bytes) (c : Chain V) → occurs q c ≡ 0 → chain_find q c ≡ none
  unfolding occurs chain_find
  find_absent q [] h = refl
  find_absent q (e ∷ c) h = ground (arith, find_absent q c)

  pub occurs_absent : (q : Bytes) (c : Chain V) → chain_find q c ≡ none → occurs q c ≡ 0
  unfolding occurs chain_find
  occurs_absent q [] h = refl
  occurs_absent q (e ∷ c) h = ground (arith, occurs_absent q c)

  pub occurs_present : (q : Bytes) (c : Chain V) (v : V) → chain_find q c ≡ some v → 0 < occurs q c
  unfolding occurs chain_find
  occurs_present q [] v h = ground arith
  occurs_present q (e ∷ c) v h = ground (arith, occurs_present q c v)

  pub occurs-append : (q : Bytes) (c d : Chain V) → occurs q (c ++ d) ≡ occurs q c + occurs q d
  unfolding occurs
  occurs-append q [] d = omega arith
  occurs-append q (e ∷ c) d = omega (arith, occurs-append q c d)

  pub find-append :
      (q : Bytes) (c d : Chain V)
      → chain_find q (c ++ d) ≡ elim (chain_find q c) [ none ↦ chain_find q d | some v ↦ some v ]
  unfolding chain_find
  find-append q [] d = refl
  find-append q (e ∷ c) d = ground (arith, find-append q c d)

  module _ (k q : Bytes) where
    pub find-assign :
        (v old : V) (c : Chain V)
        → chain_find k c ≡ some old
        → chain_find q (chain_assign k v c) ≡ (if str_eq k q then some v else chain_find q c)
    unfolding chain_find chain_assign
    find-assign v old [] h = ground arith
    find-assign v old (e ∷ c) h =
        ground (arith, find-assign v old c, str_eq_iff e.key k, str_eq_iff k q, str_eq_iff e.key q)

    pub occurs-assign : (v : V) (c : Chain V) → occurs q (chain_assign k v c) ≡ occurs q c
    unfolding occurs chain_assign
    occurs-assign v [] = refl
    occurs-assign v (e ∷ c) = ground (arith, occurs-assign v c)

    pub find-unlink :
        (c : Chain V)
        → occurs q c ≤ 1
        → chain_find q (chain_unlink k c) ≡ (if str_eq k q then none else chain_find q c)
    unfolding chain_find chain_unlink occurs
    find-unlink [] h = ground arith
    find-unlink (e ∷ c) h = ground (
      arith,
      find-unlink c,
      find_absent q c,
      str_eq_iff e.key k,
      str_eq_iff k q,
      str_eq_iff e.key q,
    )

    pub occurs-unlink : (c : Chain V) → occurs q (chain_unlink k c) ≤ occurs q c
    unfolding occurs chain_unlink
    occurs-unlink [] = omega arith
    occurs-unlink (e ∷ c) = ground (arith, occurs-unlink c)

  pub length-assign : (k : Bytes) (v : V) (c : Chain V) → length (chain_assign k v c) ≡ length c
  unfolding chain_assign
  length-assign k v [] = refl
  length-assign k v (e ∷ c) = ground (arith, length-assign k v c)

  pub length-unlink :
      (k : Bytes) (old : V) (c : Chain V)
      → chain_find k c ≡ some old
      → length (chain_unlink k c) + 1 ≡ length c
  unfolding chain_find chain_unlink
  length-unlink k old [] h = ground arith
  length-unlink k old (e ∷ c) h = ground (arith, length-unlink k old c)
