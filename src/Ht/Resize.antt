-- ===== src/Ht/Resize.antt =====
-- `ht_resize` of src/ht.c: moving the entries into a new bucket array.
use bytekv.Prelude.{
  ℕ, zero, suc, ◌+◌, ◌≤◌, ◌<◌, ◌≡◌, refl, sym, ◌∙◌, Option, none, some, List, [], ◌∷◌, ◌++◌, arith,
  length, get_or, replicate, flatten, ◌≢◌,
}
use bytekv.Prelude.Bytes.{Bytes, str_eq_refl}
use bytekv.Ht.{Chain, index, chain_find, push_front, move_chain, move_all}
use bytekv.Ht.Chain.{occurs, find_absent, occurs-append, find-append}
use bytekv.Ht.Buckets.{Reads, empty-Reads, push_front-Reads}

-- the first of two finds that succeeds
abbrev pub or_else {ℓ} : {A : Type ℓ} → Option A → Option A → Option A
or_else none b = b
or_else (some a) b = some a

module _ {ℓ} {V : Type ℓ} where
  move_chain-append :
      (m : ℕ) (c d : Chain V) (t : List (Chain V))
      → move_chain m (c ++ d) t ≡ move_chain m d (move_chain m c t)
  unfolding move_chain
  move_chain-append m [] d t = refl
  move_chain-append m (e ∷ c) d t = move_chain-append m c d (push_front m e t)

  -- The two nested loops are one loop over all the entries.
  move_all-flatten :
      (m : ℕ) (old t : List (Chain V)) → move_all m old t ≡ move_chain m (flatten old) t
  unfolding move_all move_chain flatten
  move_all-flatten m [] t = refl
  move_all-flatten m (c ∷ old) t =
      move_all-flatten m old (move_chain m c t) ∙ sym (move_chain-append m c (flatten old) t)

  -- Entries with distinct keys, none of them in the table yet, are all added.
  move_chain-Reads :
      (m : ℕ) (es : Chain V) {total : ℕ} {f : Bytes → Option V} (t : List (Chain V))
      → Reads m total f t
      → ((q : Bytes) → occurs q es ≤ 1)
      → ((q : Bytes) → 0 < occurs q es → f q ≡ none)
      → Reads m (total + length es) (λ q. or_else (f q) (chain_find q es)) (move_chain m es t)
  unfolding move_chain occurs chain_find
  move_chain-Reads m [] t r once apart = record {
    width = r.width;
    entries = omega (arith, r.entries);
    home = r.home;
    reads = λ q. ground (arith, r.reads q);
  }
  move_chain-Reads m (e ∷ es) {f = f} t r once apart =
      let absent : f e.key ≡ none = apart e.key (ground (arith, str_eq_refl e.key)) in
      let step = push_front-Reads m t r e.key e.val absent in
      let s =
        move_chain-Reads m es (push_front m e t) step (λ q. omega (arith, once q))
          (λ q h. ground (arith, once q, apart q)) in
      record {
        width = s.width;
        entries = omega (arith, s.entries);
        home = s.home;
        reads = λ q. ground (arith, s.reads q, once q, apart q);
      }

  -- A key that stands in no bucket does not stand in the joined buckets.
  occurs-flatten_zero :
      (q : Bytes) (t : List (Chain V))
      → ((i : ℕ) → occurs q (get_or t i []) ≡ 0)
      → occurs q (flatten t) ≡ 0
  unfolding flatten occurs
  occurs-flatten_zero q [] h = refl
  occurs-flatten_zero q (c ∷ t) h =
      omega (arith, occurs-append q c (flatten t), h 0, occurs-flatten_zero q t (λ i. h (suc i)))

  -- A key that stands in bucket `j` only is found in the joined buckets as it is found there.
  flatten_at :
      (q : Bytes) (t : List (Chain V)) (j : ℕ)
      → ((i : ℕ) → i ≢ j → occurs q (get_or t i []) ≡ 0)
      → (occurs q (flatten t) ≡ occurs q (get_or t j []))
        × (chain_find q (flatten t) ≡ chain_find q (get_or t j []))
  unfolding flatten occurs chain_find
  flatten_at q [] j h = (refl, refl)
  flatten_at q (c ∷ t) zero h =
      let rest = occurs-flatten_zero q t (λ i. h (suc i) (omega arith)) in
      (
        omega (arith, occurs-append q c (flatten t)),
        ground (arith, find-append q c (flatten t), find_absent q (flatten t)),
      )
  flatten_at q (c ∷ t) (suc j) h =
      let here = h 0 (omega arith) in
      let (o, f) = flatten_at q t j (λ i n. h (suc i) (omega arith)) in
      (
        omega (arith, occurs-append q c (flatten t)),
        ground (arith, find-append q c (flatten t), find_absent q c),
      )

  pub flatten-Reads :
      {m total : ℕ} {f : Bytes → Option V} (t : List (Chain V))
      → Reads m total f t
      → (q : Bytes) → (occurs q (flatten t) ≤ 1) × (chain_find q (flatten t) ≡ f q)
  flatten-Reads {m} t r q =
      let (o, f) = flatten_at q t (index m q) (λ i n. ground (arith, r.home q i)) in
      (ground (arith, r.home q (index m q)), f ∙ r.reads q)

  -- Moving all entries into `new_mask + 1` fresh buckets keeps their number and the map.
  pub move_all-Reads :
      (m new_mask : ℕ) {total : ℕ} {f : Bytes → Option V} (old : List (Chain V))
      → Reads m total f old
      → Reads new_mask total f (move_all new_mask old (replicate (suc new_mask) []))
  move_all-Reads m new_mask {f = f} old r =
      let s =
        move_chain-Reads new_mask (flatten old) (replicate (suc new_mask) []) (empty-Reads new_mask)
          (λ q. (flatten-Reads old r q).0) (λ q h. refl) in
      rw (move_all-flatten new_mask old (replicate (suc new_mask) [])) (record {
        width = s.width;
        entries = omega (arith, s.entries, r.entries);
        home = s.home;
        reads = λ q. s.reads q ∙ (flatten-Reads old r q).1;
      })
