-- ===== src/Ht/Free.antt =====
-- `ht_free` of src/ht.c: what it gives to `free`, in order.
use mathlib.Core.List.{append_assoc}
use bytekv.Prelude.{
  ℕ, ◌+◌, ◌*◌, ◌≡◌, refl, sym, ◌∙◌, ap, Bool, true, false, Option-cases, inl, inr, List, [], ◌∷◌,
  ◌++◌, arith, if◌then◌else◌, length, flatten, length-append,
}
use bytekv.Prelude.Bytes.{Bytes, str_eq}
use bytekv.Ht
use bytekv.Ht.{Ht, Entry, Chain, chain_find}
use bytekv.Ht.Chain.{occurs, occurs-append, occurs_absent, occurs_present}
use bytekv.Ht.Resize.{flatten-Reads}
use bytekv.Ht.Valid.{IsValid}

-- what is freed: an entry's key, its string, the entry; the array of buckets; the table
pub data Freed {ℓ} (V : Type ℓ) : Type ℓ where
  key_string : Bytes → Freed V
  value_string : V → Freed V
  entry : Entry V → Freed V
  buckets ht_itself : Freed V

module _ {ℓ} {V : Type ℓ} where
  -- `ht_val_free`; `str` is whether the values are strings
  abbrev pub ht_val_free : Bool → Entry V → List (Freed V)
  ht_val_free str e = if str then value_string e.val ∷ [] else []

  -- the `while` loop, on one chain
  unfoldable pub free_chain : Bool → Chain V → List (Freed V)
  free_chain str [] = []
  free_chain str (e ∷ next) =
      key_string e.key ∷ (ht_val_free str e ++ (entry e ∷ free_chain str next))

  -- the `for` loop, over the buckets
  unfoldable pub free_table : Bool → List (Chain V) → List (Freed V)
  unfolding free_chain
  free_table str [] = []
  free_table str (c ∷ table) = free_chain str c ++ free_table str table

  unfoldable pub ht_free : Bool → Ht V → List (Freed V)
  unfolding free_table
  ht_free str ht = free_table str ht.table ++ (buckets ∷ (ht_itself ∷ []))

  -- how often the key string of `q` is freed
  unfoldable pub frees_of : Bytes → List (Freed V) → ℕ
  frees_of q [] = 0
  frees_of q (key_string k ∷ fs) = (if str_eq k q then 1 else 0) + frees_of q fs
  frees_of q (value_string v ∷ fs) = frees_of q fs
  frees_of q (entry e ∷ fs) = frees_of q fs
  frees_of q (buckets ∷ fs) = frees_of q fs
  frees_of q (ht_itself ∷ fs) = frees_of q fs

  frees_of-append :
      (q : Bytes) (xs ys : List (Freed V)) → frees_of q (xs ++ ys) ≡ frees_of q xs + frees_of q ys
  unfolding frees_of
  frees_of-append q [] ys = omega arith
  frees_of-append q (key_string k ∷ xs) ys = omega (arith, frees_of-append q xs ys)
  frees_of-append q (value_string v ∷ xs) ys = frees_of-append q xs ys
  frees_of-append q (entry e ∷ xs) ys = frees_of-append q xs ys
  frees_of-append q (buckets ∷ xs) ys = frees_of-append q xs ys
  frees_of-append q (ht_itself ∷ xs) ys = frees_of-append q xs ys

  -- the entries, and the value strings, that are freed, in order
  unfoldable pub freed_entries : List (Freed V) → List (Entry V)
  freed_entries [] = []
  freed_entries (entry e ∷ fs) = e ∷ freed_entries fs
  freed_entries (key_string k ∷ fs) = freed_entries fs
  freed_entries (value_string v ∷ fs) = freed_entries fs
  freed_entries (buckets ∷ fs) = freed_entries fs
  freed_entries (ht_itself ∷ fs) = freed_entries fs

  unfoldable pub freed_values : List (Freed V) → List V
  freed_values [] = []
  freed_values (value_string v ∷ fs) = v ∷ freed_values fs
  freed_values (key_string k ∷ fs) = freed_values fs
  freed_values (entry e ∷ fs) = freed_values fs
  freed_values (buckets ∷ fs) = freed_values fs
  freed_values (ht_itself ∷ fs) = freed_values fs

  -- the values, where they are strings
  unfoldable pub string_values : Bool → List (Entry V) → List V
  string_values str [] = []
  string_values str (e ∷ es) = let rest = string_values str es in if str then e.val ∷ rest else rest

  -- what a chain frees, in front of what else is freed
  free_chain-freed :
      (str : Bool) (c : Chain V) (fs : List (Freed V))
      → (freed_entries (free_chain str c ++ fs) ≡ c ++ freed_entries fs)
        × (freed_values (free_chain str c ++ fs) ≡ string_values str c ++ freed_values fs)
  unfolding free_chain freed_entries freed_values string_values
  free_chain-freed str [] fs = (refl, refl)
  free_chain-freed true (e ∷ c) fs =
      let (entries, values) = free_chain-freed true c fs in
      (ap (λ es. e ∷ es) entries, ap (λ vs. e.val ∷ vs) values)
  free_chain-freed false (e ∷ c) fs =
      let (entries, values) = free_chain-freed false c fs in (ap (λ es. e ∷ es) entries, values)

  string_values-append :
      (str : Bool) (c d : List (Entry V))
      → string_values str (c ++ d) ≡ string_values str c ++ string_values str d
  unfolding string_values
  string_values-append str [] d = refl
  string_values-append true (e ∷ c) d = ap (λ vs. e.val ∷ vs) (string_values-append true c d)
  string_values-append false (e ∷ c) d = string_values-append false c d

  free_table-freed :
      (str : Bool) (t : List (Chain V))
      → let fs = free_table str t ++ (buckets ∷ (ht_itself ∷ [])) in
        (freed_entries fs ≡ flatten t) × (freed_values fs ≡ string_values str (flatten t))
  unfolding free_table freed_entries freed_values string_values flatten
  free_table-freed str [] = (refl, refl)
  free_table-freed str (c ∷ t) =
      let last : List (Freed V) = buckets ∷ (ht_itself ∷ []) in
      let (entries, values) = free_table-freed str t in
      let (own_entries, own_values) = free_chain-freed str c (free_table str t ++ last) in
      let order = append_assoc (free_chain str c) (free_table str t) last in
      (
        ap freed_entries order ∙ own_entries ∙ ap (λ es. c ++ es) entries,
        ap freed_values order
            ∙ own_values
            ∙ ap (λ vs. string_values str c ++ vs) values
            ∙ sym (string_values-append str c (flatten t)),
      )

  free_chain_lem :
      (str : Bool) (q : Bytes) (c : Chain V)
      → (frees_of q (free_chain str c) ≡ occurs q c)
        × (length (free_chain str c) ≡ (if str then 3 else 2) * length c)
  unfolding free_chain frees_of occurs
  free_chain_lem str q [] = (refl, ground arith)
  free_chain_lem true q (e ∷ c) =
      let (f, l) = free_chain_lem true q c in (omega (arith, f), omega (arith, l))
  free_chain_lem false q (e ∷ c) =
      let (f, l) = free_chain_lem false q c in (omega (arith, f), omega (arith, l))

  frees_of-free_table :
      (str : Bool) (q : Bytes) (t : List (Chain V))
      → frees_of q (free_table str t) ≡ occurs q (flatten t)
  unfolding free_table frees_of occurs flatten
  frees_of-free_table str q [] = refl
  frees_of-free_table str q (c ∷ t) = omega (
    arith,
    frees_of-append q (free_chain str c) (free_table str t),
    (free_chain_lem str q c).0,
    frees_of-free_table str q t,
    occurs-append q c (flatten t),
  )

  length-free_table :
      (str : Bool) (t : List (Chain V))
      → length (free_table str t) ≡ (if str then 3 else 2) * length (flatten t)
  unfolding free_table flatten
  length-free_table str [] = ground arith
  length-free_table true (c ∷ t) = omega (
    arith,
    length-append (free_chain true c) (free_table true t),
    (free_chain_lem true [] c).1,
    length-free_table true t,
    length-append c (flatten t),
  )
  length-free_table false (c ∷ t) = omega (
    arith,
    length-append (free_chain false c) (free_table false t),
    (free_chain_lem false [] c).1,
    length-free_table false t,
    length-append c (flatten t),
  )

  pub ht_free_lem :
      (str : Bool) (ht : Ht V)
      → IsValid ht
      → ((q : Bytes) → frees_of q (ht_free str ht) ≡ (if Ht.exists ht q then 1 else 0))
        × (freed_entries (ht_free str ht) ≡ flatten ht.table)
        × (freed_values (ht_free str ht) ≡ string_values str (flatten ht.table))
        × (length (ht_free str ht) ≡ (if str then 3 else 2) * ht.used + 2)
  unfolding ht_free frees_of Ht.exists
  ht_free_lem str ht valid =
      let last : List (Freed V) = buckets ∷ (ht_itself ∷ []) in
      (
        λ q.
            let (few, reads) = flatten-Reads ht.table valid.reads q in
            let freed : frees_of q (ht_free str ht) ≡ occurs q (flatten ht.table) = omega (
              arith,
              frees_of-append q (free_table str ht.table) last,
              frees_of-free_table str q ht.table,
            ) in
            elim (Option-cases (Ht.find ht q)) [
              | inl absent ↦
                  let gone : Ht.exists ht q ≡ false = ground (arith, absent) in
                  let zero_times = occurs_absent q (flatten ht.table) (reads ∙ absent) in
                  ground (arith, gone, freed, zero_times)
              | inr (v, there) ↦
                  let here : Ht.exists ht q ≡ true = ground (arith, there) in
                  let some_times = occurs_present q (flatten ht.table) v (reads ∙ there) in
                  ground (arith, here, freed, few, some_times)
            ],
        (free_table-freed str ht.table).0,
        (free_table-freed str ht.table).1,
        length-append (free_table str ht.table) last
            ∙ ap (λ n. n + 2)
                (length-free_table str ht.table
                  ∙ ap (λ n. (if str then 3 else 2) * n) valid.reads.entries),
      )
