-- ===== src/Ht/Valid.antt =====
-- src/ht.c: the table's invariant, the map that a table stands for, creation and resizing.
use bytekv.Prelude.{
  ℕ, zero, suc, ◌+◌, ◌-◌, ◌*◌, ◌^◌, ◌≤◌, ◌<◌, ◌≡◌, refl, Option, none, some, arith,
}
use bytekv.Prelude.Bytes.{Bytes}
use bytekv.Ht.{Ht, create, find, resize}
use bytekv.Ht.Buckets.{Reads, empty-Reads}
use bytekv.Ht.Resize.{move_all-Reads}

module _ {ℓ} {V : Type ℓ} where
  -- The bucket array reads as the table's own `find`, `used` counts the entries, the mask belongs to
  -- the size, the size is a power of two of at least four buckets, and the load is at most 3 / 4.
  pub record IsValid (ht : Ht V) : Type ℓ where
    pub reads : Reads ht.sizemask ht.used (find ht) ht.table
    pub masked : ht.size ≡ ht.sizemask + 1
    pub power : (k : ℕ) × (2 ≤ k) × (ht.size ≡ 2 ^ k)
    pub load : 4 * ht.used ≤ 3 * ht.size

  -- The table has the entries of `f`, and satisfies the invariant.
  abbrev pub Models : (Bytes → Option V) → Ht V → Type ℓ
  Models f ht = IsValid ht × ((q : Bytes) → find ht q ≡ f q)

  abbrev pub one_if_none : Option V → ℕ
  one_if_none none = 1
  one_if_none (some v) = 0

  -- the two ways to see a map: through `f`, and through the walk
  pub own-Reads :
      {f : Bytes → Option V} (ht : Ht V)
      → Reads ht.sizemask ht.used f ht.table
      → Reads ht.sizemask ht.used (find ht) ht.table
  unfolding find
  own-Reads ht r = record { width = r.width; entries = r.entries; home = r.home; reads = λ q. refl }

  pub create-Models : Models (λ _. none) (create {V = V})
  unfolding create find
  create-Models =
      let r = empty-Reads {V = V} 3 in
      (
        record {
          reads = record { width = r.width; entries = r.entries; home = r.home; reads = λ q. refl };
          masked = omega arith;
          power = (2, omega arith, refl);
          load = omega arith;
        },
        r.reads,
      )

  -- Resizing to any number of buckets but 0 keeps the map and the count.
  resize-Reads :
      {f : Bytes → Option V} (ht : Ht V) (new_size : ℕ)
      → 0 < new_size
      → Reads ht.sizemask ht.used f ht.table
      → Reads (new_size - 1) ht.used f (resize ht new_size).table
  unfolding resize
  resize-Reads ht zero h r = absurd (omega arith)
  resize-Reads ht (suc n) h r =
      let e : suc n - 1 ≡ n = omega arith in rw e (move_all-Reads ht.sizemask n ht.table r)

  -- Resizing a table to a power of two that carries the load keeps its map and the invariant.
  pub resize-Models :
      {f : Bytes → Option V} (ht : Ht V) (k : ℕ)
      → Reads ht.sizemask ht.used f ht.table
      → 2 ≤ k
      → 0 < 2 ^ k
      → 4 * ht.used ≤ 3 * 2 ^ k
      → (Models f (resize ht (2 ^ k))) × ((resize ht (2 ^ k)).used ≡ ht.used)
  unfolding find
  resize-Models ht k r two pos roomy =
      let s = resize-Reads ht (2 ^ k) pos r in
      unfold resize in
      (
        (
          record {
            reads = record {
              width = s.width;
              entries = s.entries;
              home = s.home;
              reads = λ q. refl;
            };
            masked = omega arith;
            power = (k, two, refl);
            load = roomy;
          },
          s.reads,
        ),
        refl,
      )
