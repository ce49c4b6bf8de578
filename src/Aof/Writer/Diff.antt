-- ===== src/Aof/Writer/Diff.antt =====
-- `aof_emit_diff` of src/aof.c: the buffer of the records logged while a rewrite runs.
use bytekv.Prelude.{
  ℕ, ◌+◌, ◌≤◌, ◌≡◌, refl, ◌⊎◌, inl, inr, Bool, Bool-cases, Option, none, some, arith, ltb, length,
  length-append, subst,
}
use bytekv.Prelude.Bytes.{Bytes}
use bytekv.Aof.Writer.{
  Config, Server, RewriteState, active, aborting, aof_emit_diff, aof_abort_rewrite, grown_cap,
  buf_len, buf_append,
}

-- the diff buffer in each state of a rewrite, by its capacity
unfoldable pub Diff : RewriteState → ℕ → Option Bytes → Type 0
Diff active cap (some b) = length b ≤ cap
Diff active cap none = ⊥
Diff _ cap buf = buf ≡ none

-- The diff buffer exists exactly while a child runs whose snapshot is still wanted, and it keeps within
-- its capacity.
unfoldable pub IsSound : Server → Type 0
IsSound s = Diff s.rewrite_state s.rewrite_cap s.rewrite_buf

-- The record is added to the diff buffer within its capacity, or the rewrite is aborted.
aof_emit_diff_outcome :
    (cfg : Config) (ok : Bool) (buf : Bytes) (s : Server)
    → (aof_emit_diff cfg ok buf s ≡ aof_abort_rewrite s)
      ⊎ ((cap : ℕ) × (buf_len s.rewrite_buf + length buf ≤ cap)
          × (aof_emit_diff cfg ok buf s
              ≡ record s { rewrite_cap = cap; rewrite_buf = buf_append s.rewrite_buf buf }))
unfolding aof_emit_diff
aof_emit_diff_outcome cfg ok buf s =
    let needed = buf_len s.rewrite_buf + length buf in
    elim (Bool-cases (ltb s.rewrite_cap needed)) [
      | inr small ↦ inr (s.rewrite_cap, ground arith, rw small refl)
      | inl large ↦ elim (Bool-cases (ltb cfg.rewrite_buf_max_size needed)) [
        | inl over ↦ inl (rw (large, over) refl)
        | inr fits ↦ elim (Bool-cases ok) [
          | inr refused ↦ inl (rw (large, fits, refused) refl)
          | inl given ↦ inr (
            grown_cap s.rewrite_cap needed cfg.rewrite_buf_max_size,
            ground arith,
            rw (large, fits, given) refl,
          )
        ]
      ]
    ]

-- a rewrite that goes on, its diff buffer grown by the record, or one that is aborted
unfoldable pub Grown : Bytes → Server → Server → Type 0
Grown buf s s' =
    ((s'.rewrite_state ≡ active) × (s'.rewrite_buf ≡ buf_append s.rewrite_buf buf))
    ⊎ ((s'.rewrite_state ≡ aborting) × (s'.rewrite_buf ≡ none))

-- a rewrite that is left as it is
unfoldable pub Unmoved : Server → Server → Type 0
Unmoved s s' = (s'.rewrite_state ≡ s.rewrite_state) × (s'.rewrite_buf ≡ s.rewrite_buf)

pub aof_emit_diff-Grown :
    (cfg : Config) (ok : Bool) (buf : Bytes) (s : Server)
    → s.rewrite_state ≡ active
    → Grown buf s (aof_emit_diff cfg ok buf s)
      × ((aof_emit_diff cfg ok buf s).aof_file ≡ s.aof_file)
unfolding Grown aof_abort_rewrite
aof_emit_diff-Grown cfg ok buf s is_active = elim (aof_emit_diff_outcome cfg ok buf s) [
  | inl aborted ↦ rw aborted (inr (refl, refl), refl)
  | inr (cap, fits, kept) ↦ rw kept (inl (is_active, refl), refl)
]

Diff-buf_append :
    (buf : Bytes) (cap cap' : ℕ) (b : Option Bytes)
    → Diff active cap b
    → buf_len b + length buf ≤ cap'
    → Diff active cap' (buf_append b buf)
unfolding Diff
Diff-buf_append buf cap cap' none sound fits = elim sound [ ]
Diff-buf_append buf cap cap' (some b) sound fits = omega (arith, length-append b buf)

pub aof_emit_diff-IsSound :
    (cfg : Config) (ok : Bool) (buf : Bytes) (s : Server)
    → s.rewrite_state ≡ active
    → IsSound s
    → IsSound (aof_emit_diff cfg ok buf s)
unfolding IsSound Diff aof_abort_rewrite
aof_emit_diff-IsSound cfg ok buf s is_active sound = elim (aof_emit_diff_outcome cfg ok buf s) [
  | inl aborted ↦ rw aborted refl
  | inr (cap, fits, kept) ↦
      let held : Diff active s.rewrite_cap s.rewrite_buf =
        subst (λ t. Diff t s.rewrite_cap s.rewrite_buf) is_active sound in
      rw (kept, is_active) (Diff-buf_append buf s.rewrite_cap cap s.rewrite_buf held fits)
]
