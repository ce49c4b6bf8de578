-- ===== src/Aof/Recovery/Quarantine.antt =====
-- `aof_quarantine_tail` of src/aof.c: a copy of what `aof_load` is about to cut off.
use mathlib.Core.List.{append_assoc, append-nil}
use bytekv.Prelude.{
  ℕ, ◌-◌, ◌≤◌, ◌<◌, ◌≡◌, sym, ◌∙◌, ap, Bool, true, false, not, Option, none, some, List, [], ◌∷◌,
  ◌++◌, ◌==◌, if◌then◌else◌, length, take, drop, min, arith, All, length-take, length-drop,
  take-append-drop,
}
use bytekv.Prelude.Bytes.{Bytes}
use bytekv.Aof.Writer.{Written, all_written, cut_after}

-- one round: how many bytes `read` would give if it were asked for them, or that it fails; and what
-- `write_all` then does
pub record Chunk : Type 0 where
  pub given : Option ℕ
  pub written : Written

-- `sizeof(buf)`
abbrev pub chunk_size : ℕ
chunk_size = 8192

-- the end of a round: `rest` goes on with the file behind what was read
abbrev pub after_write : Written → Bytes → Bytes → (Bytes → Bool × Bytes) → Bool × Bytes
after_write all_written got out go_on = go_on (out ++ got)
after_write (cut_after n) got out go_on = (true, out ++ take n got)

-- a round in which `read` gives some bytes
unfoldable pub copy_round :
    Option ℕ → Written → Bytes → ℕ → Bytes → (Bytes → Bytes → ℕ → Bool × Bytes) → Bool × Bytes
copy_round none w rest remaining out go_on = (true, out)
copy_round (some n) w rest remaining out go_on =
    let got = take (min n (min remaining chunk_size)) rest in
    if length got == 0
    then (true, out)
    else after_write w got out (λ o. go_on (drop (length got) rest) o (remaining - length got))

-- The `while` loop on the given rounds, on the `rest` of the file, with `remaining` bytes to copy and what
-- the quarantine file has: whether it ends, and what the quarantine file has then.
unfoldable pub quarantine_loop : List Chunk → Bytes → ℕ → Bytes → Bool × Bytes
unfolding copy_round
quarantine_loop [] rest remaining out = (remaining == 0, out)
quarantine_loop (c ∷ cs) rest remaining out =
    if remaining == 0
    then (true, out)
    else copy_round c.given c.written rest remaining out
        (λ rest' out' remaining'. quarantine_loop cs rest' remaining' out')

-- The quarantine file, where `open` succeeds. `positioned` is whether `lseek` does.
unfoldable pub aof_quarantine_tail : Bool → Bool → List Chunk → Bytes → ℕ → ℕ → Option Bytes
unfolding quarantine_loop
aof_quarantine_tail opened positioned cs file from len =
    if not opened
    then none
    else if not positioned
    then some []
    else some (quarantine_loop cs (drop from file) len []).1

-- a round in which everything goes well
unfoldable pub IsGood : Chunk → Type 0
IsGood c = ((n : ℕ) × (0 < n) × (c.given ≡ some n)) × (c.written ≡ all_written)

-- With as many good rounds as there are bytes, the loop copies them all.
loop_all :
    (cs : List Chunk) (rest out : Bytes)
    → All IsGood cs
    → length rest ≤ length cs
    → quarantine_loop cs rest (length rest) out ≡ (true, out ++ rest)
unfolding quarantine_loop IsGood copy_round
loop_all [] [] out good enough = ap (λ o. (true, o)) (sym (append-nil out))
loop_all [] (b ∷ rest) out good enough = absurd (omega arith)
loop_all (c ∷ cs) [] out good enough = ap (λ o. (true, o)) (sym (append-nil out))
loop_all (c ∷ cs) (b ∷ rest) out (((n, some_bytes, given), written), good) enough =
    let all = b ∷ rest in
    let m = min n (min (length all) chunk_size) in
    let got = take m all in
    let len : length got ≡ m = omega (arith, length-take m all) in
    let some_left : (length all == 0) ≡ false = ground arith in
    let more : (length got == 0) ≡ false = ground (arith, len, some_bytes) in
    let behind = drop (length got) all in
    let size : length all - length got ≡ length behind =
      omega (arith, length-drop (length got) all) in
    let joined : got ++ behind ≡ all = ap (λ k. got ++ drop k all) len ∙ take-append-drop m all in
    let copied =
      loop_all cs behind (out ++ got) good (omega (arith, size, len, some_bytes, enough)) in
    rw (some_left, given, written, more)
      (ap (λ k. quarantine_loop cs behind k (out ++ got)) size
        ∙ copied
        ∙ ap (λ o. (true, o)) (append_assoc out got behind ∙ ap (λ o. out ++ o) joined))

-- Where the quarantine file can be opened and the log be read, every read gives a byte or more and
-- every write succeeds, in as many rounds as there are bytes behind an offset: then the bytes of
-- the log up to there and the quarantine file are together the log.
pub aof_quarantine_tail_lossless :
    (cs : List Chunk) (file : Bytes) (valid_end : ℕ)
    → All IsGood cs
    → length file - valid_end ≤ length cs
    → (q : Bytes) × (aof_quarantine_tail true true cs file valid_end (length file - valid_end)
        ≡ some q)
      × (take valid_end file ++ q ≡ file)
unfolding aof_quarantine_tail
aof_quarantine_tail_lossless cs file valid_end good enough =
    let size = length-drop valid_end file in
    let whole =
      ap (λ k. quarantine_loop cs (drop valid_end file) k []) (sym size)
      ∙ loop_all cs (drop valid_end file) [] good (omega (arith, size, enough)) in
    (
      drop valid_end file,
      ap (λ (r : Bool × Bytes). some r.1) whole,
      take-append-drop valid_end file,
    )
