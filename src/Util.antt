-- ===== src/Util.antt =====
-- `write_all` and `read_exact` of src/util.c: loops over calls that take or give only a part.
pub mod Clock
pub mod Flags
use mathlib.Core.List.{append_assoc, append-nil}
use bytekv.Prelude.{
  length-drop, ◌≤◌, ◌<◌, ℕ, zero, suc, ◌+◌, ◌-◌, ◌≡◌, refl, ◌∙◌, sym, ap, Bool, true, false, leb,
  if◌then◌else◌, List, [], ◌∷◌, ◌++◌, arith, length, take, drop, take-append-drop, min,
}
use bytekv.Prelude.Bytes.{Bytes}

-- What one call of `write` or `read` does: it moves up to so many bytes, and returns how many; or is
-- interrupted, which is EINTR; or fails otherwise.
pub data Call : Type 0 where
  moved : ℕ → Call
  interrupted failed : Call

-- How a loop ends: with everything moved; with an error; at the end of the input, for `read`; or, in
-- the model alone, where the calls run out.
pub data End : Type 0 where
  all_moved error at_end calling : End

-- the `while` loop of `write_all`: the bytes from `buf + off` on, and the file so far
unfoldable pub write_loop : List Call → Bytes → Bytes → End × Bytes
write_loop calls [] file = (all_moved, file)
write_loop [] (b ∷ rest) file = (calling, file)
write_loop (interrupted ∷ calls) (b ∷ rest) file = write_loop calls (b ∷ rest) file
write_loop (failed ∷ calls) (b ∷ rest) file = (error, file)
write_loop (moved n ∷ calls) (b ∷ rest) file =
    write_loop calls (drop n (b ∷ rest)) (file ++ take n (b ∷ rest))

unfoldable pub write_all : List Call → Bytes → Bytes → End × Bytes
unfolding write_loop
write_all calls buf file = write_loop calls buf file

-- The `while` loop of `read_exact`: what the file still has, the number of bytes that are still
-- wanted, and the buffer so far. `read` returns 0 at the end of the file only, so that `moved n` gives
-- up to n + 1 bytes.
unfoldable pub read_loop : List Call → Bytes → ℕ → Bytes → End × Bytes
read_loop calls rest zero buf = (all_moved, buf)
read_loop [] rest (suc wanted) buf = (calling, buf)
read_loop (interrupted ∷ calls) rest (suc wanted) buf = read_loop calls rest (suc wanted) buf
read_loop (failed ∷ calls) rest (suc wanted) buf = (error, buf)
read_loop (moved n ∷ calls) [] (suc wanted) buf = (at_end, buf)
read_loop (moved n ∷ calls) (b ∷ rest) (suc wanted) buf =
    let m = min (min (suc n) (suc wanted)) (length (b ∷ rest)) in
    read_loop calls (drop m (b ∷ rest)) (suc wanted - m) (buf ++ take m (b ∷ rest))

unfoldable pub read_exact : List Call → Bytes → ℕ → End × Bytes
unfolding read_loop
read_exact calls file len = read_loop calls file len []

-- How many bytes the calls can take together, up to the first one that fails; one that is interrupted takes
-- none.
abbrev pub offered : List Call → ℕ
offered [] = 0
offered (moved n ∷ calls) = n + offered calls
offered (interrupted ∷ calls) = offered calls
offered (failed ∷ calls) = 0

abbrev pub some_failed : List Call → Bool
some_failed [] = false
some_failed (moved n ∷ calls) = some_failed calls
some_failed (interrupted ∷ calls) = some_failed calls
some_failed (failed ∷ calls) = true

-- how calls end that are to take `size` bytes
abbrev pub end_of : List Call → ℕ → End
end_of calls size =
    if leb size (offered calls) then all_moved else if some_failed calls then error else calling

take-add : (m n : ℕ) (buf : Bytes) → take m buf ++ take n (drop m buf) ≡ take (m + n) buf
take-add zero n buf = let e : 0 + n ≡ n = omega arith in rw e
take-add (suc m) zero [] = let e : suc m + 0 ≡ suc m = omega arith in rw e
take-add (suc m) (suc n) [] = let e : suc m + suc n ≡ suc (m + suc n) = omega arith in rw e
take-add (suc m) n (b ∷ buf) =
    let e : suc m + n ≡ suc (m + n) = omega arith in rw e (ap (λ t. b ∷ t) (take-add m n buf))

take_nil : (n : ℕ) → take n [] ≡ ◌++◌ {A = ℕ} [] []
take_nil zero = refl
take_nil (suc n) = refl

write_loop_lem :
    (calls : List Call) (buf file : Bytes)
    → let (end, file') = write_loop calls buf file in
      (end ≡ end_of calls (length buf)) × (file' ≡ file ++ take (offered calls) buf)
unfolding write_loop
write_loop_lem [] [] file = (refl, sym (append-nil file))
write_loop_lem (c ∷ calls) [] file = (
  ground arith,
  sym (append-nil file) ∙ ap (λ t. file ++ t) (sym (take_nil (offered (c ∷ calls)))),
)
write_loop_lem [] (b ∷ rest) file = (ground arith, sym (append-nil file))
write_loop_lem (interrupted ∷ calls) (b ∷ rest) file = write_loop_lem calls (b ∷ rest) file
write_loop_lem (failed ∷ calls) (b ∷ rest) file = (ground arith, sym (append-nil file))
write_loop_lem (moved n ∷ calls) (b ∷ rest) file =
    let buf = b ∷ rest in
    let (end, written) = write_loop_lem calls (drop n buf) (file ++ take n buf) in
    (
      end ∙ ground (arith, length-drop n buf),
      written
          ∙ append_assoc file (take n buf) (take (offered calls) (drop n buf))
          ∙ ap (λ t. file ++ t) (take-add n (offered calls) buf),
    )

-- Let each call of `write` take some bytes, be interrupted, or fail. `write_all` writes the whole
-- buffer exactly where the calls up to the first failed one together take as many bytes as it has,
-- however often they are interrupted; otherwise it ends with an error, where a call fails, or goes
-- on. The file is extended by as many first bytes of the buffer as those calls take.
pub write_all_lem :
    (calls : List Call) (buf file : Bytes)
    → let (end, file') = write_all calls buf file in
      (end ≡ end_of calls (length buf)) × (file' ≡ file ++ take (offered calls) buf)
unfolding write_all
write_all_lem calls buf file = write_loop_lem calls buf file

-- What has been read: all that was wanted, all that there is, or the first bytes.
abbrev pub Gives : Bytes → Bytes → ℕ → End → Bytes → Type 0
Gives buf rest wanted all_moved buf' = (buf' ≡ buf ++ take wanted rest) × (wanted ≤ length rest)
Gives buf rest wanted error buf' = (n : ℕ) × (buf' ≡ buf ++ take n rest)
Gives buf rest wanted at_end buf' = (buf' ≡ buf ++ rest) × (length rest < wanted)
Gives buf rest wanted calling buf' = (n : ℕ) × (buf' ≡ buf ++ take n rest)

Gives-prepend :
    (end : End) (m wanted : ℕ) (buf rest buf' : Bytes)
    → m ≤ wanted
    → m ≤ length rest
    → Gives (buf ++ take m rest) (drop m rest) (wanted - m) end buf'
    → Gives buf rest wanted end buf'
Gives-prepend all_moved m wanted buf rest buf' le fits (e, enough) =
    let sum : m + (wanted - m) ≡ wanted = omega (arith, le) in
    (
      e
          ∙ append_assoc buf (take m rest) (take (wanted - m) (drop m rest))
          ∙ ap (λ t. buf ++ t) (take-add m (wanted - m) rest)
          ∙ ap (λ n. buf ++ take n rest) sum,
      omega (arith, enough, length-drop m rest, le, fits),
    )
Gives-prepend error m wanted buf rest buf' le fits (n, e) = (
  m + n,
  e
      ∙ append_assoc buf (take m rest) (take n (drop m rest))
      ∙ ap (λ t. buf ++ t) (take-add m n rest),
)
Gives-prepend at_end m wanted buf rest buf' le fits (e, few) = (
  e ∙ append_assoc buf (take m rest) (drop m rest) ∙ ap (λ t. buf ++ t) (take-append-drop m rest),
  omega (arith, few, length-drop m rest, le, fits),
)
Gives-prepend calling m wanted buf rest buf' le fits (n, e) = (
  m + n,
  e
      ∙ append_assoc buf (take m rest) (take n (drop m rest))
      ∙ ap (λ t. buf ++ t) (take-add m n rest),
)

read_loop-Gives :
    (calls : List Call) (rest : Bytes) (wanted : ℕ) (buf : Bytes)
    → let (end, buf') = read_loop calls rest wanted buf in Gives buf rest wanted end buf'
unfolding read_loop
read_loop-Gives [] rest zero buf = (sym (append-nil buf), omega arith)
read_loop-Gives (c ∷ calls) rest zero buf = (sym (append-nil buf), omega arith)
read_loop-Gives [] rest (suc wanted) buf = (0, sym (append-nil buf))
read_loop-Gives (interrupted ∷ calls) rest (suc wanted) buf =
    read_loop-Gives calls rest (suc wanted) buf
read_loop-Gives (failed ∷ calls) rest (suc wanted) buf = (0, sym (append-nil buf))
read_loop-Gives (moved n ∷ calls) [] (suc wanted) buf = (sym (append-nil buf), omega arith)
read_loop-Gives (moved n ∷ calls) (b ∷ rest) (suc wanted) buf =
    let m = min (min (suc n) (suc wanted)) (length (b ∷ rest)) in
    let (end, buf') =
      read_loop calls (drop m (b ∷ rest)) (suc wanted - m) (buf ++ take m (b ∷ rest)) in
    Gives-prepend end m (suc wanted) buf (b ∷ rest) buf' (omega arith) (omega arith)
      (read_loop-Gives calls (drop m (b ∷ rest)) (suc wanted - m) (buf ++ take m (b ∷ rest)))

-- `read_exact` gives all that was wanted, where the file has it; all of a file that is shorter; or, where
-- it fails, the first bytes.
pub read_exact-Gives :
    (calls : List Call) (file : Bytes) (len : ℕ)
    → let (end, buf) = read_exact calls file len in Gives [] file len end buf
unfolding read_exact
read_exact-Gives calls file len = read_loop-Gives calls file len []
