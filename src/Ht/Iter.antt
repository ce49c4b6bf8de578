-- ===== src/Ht/Iter.antt =====
-- `ht_iter_t` of src/ht.c: the walk over all entries of a table that nobody changes meanwhile.
use bytekv.Prelude.{
  ℕ, zero, suc, ◌+◌, ◌≤◌, ◌<◌, ◌≡◌, refl, sym, subst, inl, inr, Option, none, some, List, [], ◌∷◌,
  ◌++◌, arith, leb, if◌then◌else◌, Bool-cases, length, get_or, drop, flatten,
}
use bytekv.Ht.{Entry, Chain, Ht}

-- A pointer to an entry is the chain from that entry on; `[]` is NULL. `next_index` is `index + 1`,
-- the bucket to read next.
pub record Iter {ℓ} (V : Type ℓ) : Type ℓ where
  pub ht : Ht V
  pub next_index : ℕ
  pub entry : Chain V
  pub next_entry : Chain V

module _ {ℓ} {V : Type ℓ} where
  unfoldable pub iter_create : Ht V → Iter V
  iter_create ht = record { ht = ht; next_index = 0; entry = []; next_entry = [] }

  -- The first half of a round of `ht_iter_next`: the bucket index and the entry pointer after it, or
  -- nothing where the buckets are used up.
  unfoldable pub advance : Iter V → Option (ℕ × Chain V)
  advance it = elim it.entry [
    | [] ↦
        if leb it.ht.size it.next_index
        then none
        else some (suc it.next_index, get_or it.ht.table it.next_index [])
    | e ∷ rest ↦ some (it.next_index, it.next_entry)
  ]

  -- The `while (true)` of `ht_iter_next`, a round for each unit of fuel; `none`: the fuel ran out.
  unfoldable pub iter_loop : ℕ → Iter V → Option (Option (Entry V) × Iter V)
  unfolding advance
  iter_loop zero it = none
  iter_loop (suc fuel) it = elim (advance it) [
    | none ↦ some (none, record it { next_index = it.next_index + 1 })
    | some (i, []) ↦ iter_loop fuel (record it { next_index = i; entry = [] })
    | some (i, e ∷ rest) ↦
        some (some e, record it { next_index = i; entry = e ∷ rest; next_entry = rest })
  ]

  -- One round leaves a chain, and each further round reads a bucket or ends the walk.
  unfoldable pub iter_next : Iter V → Option (Option (Entry V) × Iter V)
  unfolding iter_loop
  iter_next it = iter_loop (it.ht.size + 2) it

  -- `while ((entry = ht_iter_next(iter)) != NULL)`: the entries that the calls return, in order
  unfoldable pub iter_all : ℕ → Iter V → Option (List (Entry V))
  iter_all zero it = none
  iter_all (suc fuel) it = elim (iter_next it) [
    | none ↦ none
    | some (none, it') ↦ some []
    | some (some e, it') ↦ elim (iter_all fuel it') [ none ↦ none | some es ↦ some (e ∷ es) ]
  ]

  -- what the walk has still to return
  after : Chain V → Chain V → Chain V
  after [] next_entry = []
  after (e ∷ c) next_entry = next_entry

  abbrev remaining : Iter V → List (Entry V)
  remaining it = after it.entry it.next_entry ++ flatten (drop it.next_index it.ht.table)

  -- what a call of `ht_iter_next` does, by what remains
  Next : Ht V → Option (Option (Entry V) × Iter V) → List (Entry V) → Type ℓ
  Next ht r [] = (it : Iter V) × (r ≡ some (none, it))
  Next ht r (e ∷ es) = (it : Iter V) × (r ≡ some (some e, it)) × (it.ht ≡ ht) × (remaining it ≡ es)

  drop-get_or :
      (t : List (Chain V)) (i : ℕ) → i < length t → drop i t ≡ get_or t i [] ∷ drop (suc i) t
  drop-get_or [] i h = absurd (omega arith)
  drop-get_or (c ∷ t) zero h = refl
  drop-get_or (c ∷ t) (suc i) h = drop-get_or t i (omega arith)

  drop_all : (t : List (Chain V)) (i : ℕ) → length t ≤ i → drop i t ≡ []
  drop_all [] zero h = refl
  drop_all [] (suc i) h = refl
  drop_all (c ∷ t) zero h = absurd (omega arith)
  drop_all (c ∷ t) (suc i) h = drop_all t i (omega arith)

  module _ (ht : Ht V) (sized : length ht.table ≡ ht.size) where
    at : ℕ → Chain V → Chain V → Iter V
    at i entry next_entry = record {
      ht = ht;
      next_index = i;
      entry = entry;
      next_entry = next_entry;
    }

    -- a round that comes to the chain `c`; a later round goes on if `c` is empty
    visit_Next :
        (fuel i j : ℕ) (entry n c : Chain V)
        → advance (at i entry n) ≡ some (j, c)
        → Next ht (iter_loop fuel (at j [] n)) (flatten (drop j ht.table))
        → Next ht (iter_loop (suc fuel) (at i entry n)) (c ++ flatten (drop j ht.table))
    unfolding Next iter_loop after at
    visit_Next fuel i j entry n [] e later = rw (iter_loop, e) later
    visit_Next fuel i j entry n (x ∷ c) e later = (at j (x ∷ c) c, rw (iter_loop, e), refl, refl)

    -- the rounds that read buckets
    loop_null :
        (fuel i : ℕ) (n : Chain V)
        → 0 < fuel
        → ht.size < fuel + i
        → Next ht (iter_loop fuel (at i [] n)) (flatten (drop i ht.table))
    unfolding at flatten
    loop_null zero i n f h = absurd (omega arith)
    loop_null (suc fuel) i n f h = elim (Bool-cases (leb ht.size i)) [
      | inl e ↦ rw (drop_all ht.table i (ground arith)) (
          unfold Next iter_loop advance in
          (record (at i [] n) { next_index = i + 1 }, rw (iter_loop, advance, e)))
      | inr e ↦ rw (drop-get_or ht.table i (ground arith)) (
          visit_Next fuel i (suc i) [] n (get_or ht.table i []) (unfold advance in rw (advance, e))
            (loop_null fuel (suc i) n (ground arith) (omega arith)))
    ]

    -- `ht_iter_next` returns the first of the remaining entries, or NULL when none remains.
    iter_next-Next :
        (i : ℕ) (entry n : Chain V) → Next ht (iter_next (at i entry n)) (remaining (at i entry n))
    unfolding iter_next at after
    iter_next-Next i [] n =
        let e : ht.size + 2 ≡ suc (suc ht.size) = omega arith in
        rw e (loop_null (suc (suc ht.size)) i n (omega arith) (omega arith))
    iter_next-Next i (x ∷ c) n =
        let e : ht.size + 2 ≡ suc (suc ht.size) = omega arith in
        rw e (
          visit_Next (suc ht.size) i i (x ∷ c) n n (unfold advance in refl)
            (loop_null (suc ht.size) i n (omega arith) (omega arith)))

  iter_all-remaining :
      (fuel : ℕ) (it : Iter V) (es : List (Entry V))
      → length it.ht.table ≡ it.ht.size
      → remaining it ≡ es
      → length es < fuel
      → iter_all fuel it ≡ some es
  unfolding iter_all at Next
  iter_all-remaining zero it es sized r h = absurd (omega arith)
  iter_all-remaining (suc fuel) it [] sized r h =
      let (it', e) =
        subst (Next it.ht (iter_next it)) r
          (iter_next-Next it.ht sized it.next_index it.entry it.next_entry) in
      rw (iter_all, e)
  iter_all-remaining (suc fuel) it (x ∷ es) sized r h =
      let (it', e, same, rest) =
        subst (Next it.ht (iter_next it)) r
          (iter_next-Next it.ht sized it.next_index it.entry it.next_entry) in
      let sized' = subst (λ (t : Ht V). length t.table ≡ t.size) (sym same) sized in
      rw (iter_all, e, iter_all-remaining fuel it' es sized' rest (omega arith))

  -- In a table with as many buckets as its size says, a walk from `ht_iter_create` ends within as
  -- many calls as there are entries and one more, and returns the entries of all buckets in order,
  -- each exactly once.
  pub iter_all-flatten :
      (ht : Ht V)
      → length ht.table ≡ ht.size
      → iter_all (length (flatten ht.table) + 1) (iter_create ht) ≡ some (flatten ht.table)
  unfolding iter_create after
  iter_all-flatten ht sized =
      iter_all-remaining (length (flatten ht.table) + 1) (iter_create ht) (flatten ht.table) sized
        refl (omega arith)
