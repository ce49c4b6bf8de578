-- ===== src/Server/Signals.antt =====
-- The signals of src/server.c: `sig_shutdown_handler`, the pipe it writes to, and the loop of `on_shutdown`
-- that reads it.
use bytekv.Prelude.{
  ℕ, zero, suc, ◌<◌, ◌%◌, ◌==◌, ◌≡◌, refl, ◌∙◌, sym, ap, inl, inr, Bool, true, ◌&&◌, Bool-cases,
  Option, none, some, List, [], ◌∷◌, ◌++◌, if◌then◌else◌, length, take, drop, arith, map,
  length-drop, take-append-drop,
}
use bytekv.Prelude.Bytes.{Bytes}

-- the numbers of POSIX
abbrev pub sigint : ℕ
sigint = 2

abbrev pub sigterm : ℕ
sigterm = 15

-- `shutdown_signaled`, and the bytes in the pipe
pub record Pipe : Type 0 where
  pub signaled : Bool
  pub bytes : Bytes

-- One signal: the process exits with 1 where there is no pipe afterwards. `taken` is whether the pipe
-- takes the byte.
unfoldable pub sig_shutdown_handler : Bool → ℕ → Pipe → Option Pipe
sig_shutdown_handler taken sig p =
    if p.signaled && (sig == sigint)
    then none
    else some (record {
      signaled = true;
      bytes = (if taken then p.bytes ++ (sig % 256 ∷ []) else p.bytes);
    })

-- the lines that `on_shutdown` writes
pub data Message : Type 0 where
  received_sigint received_sigterm : Message
  received_signal : ℕ → Message

unfoldable pub message_of : ℕ → Message
message_of b =
    if b == sigint
    then received_sigint
    else if b == sigterm
    then received_sigterm
    else received_signal b

-- `sizeof(buf)`
abbrev pub read_size : ℕ
read_size = 16

-- The outer loop of `on_shutdown`, a `read` for each unit of fuel: the lines, and what is left in the pipe.
unfoldable pub drain : ℕ → Bytes → List Message × Bytes
unfolding message_of
drain zero pipe = ([], pipe)
drain (suc fuel) pipe =
    let (later, left) = drain fuel (drop read_size pipe) in
    if length pipe == 0 then ([], pipe) else (map message_of (take read_size pipe) ++ later, left)

map-append : (xs ys : Bytes) → map message_of (xs ++ ys) ≡ map message_of xs ++ map message_of ys
map-append [] ys = refl
map-append (x ∷ xs) ys = ap (λ t. message_of x ∷ t) (map-append xs ys)

nothing_left : (pipe : Bytes) → (length pipe == 0) ≡ true → pipe ≡ []
nothing_left [] e = refl
nothing_left (b ∷ pipe) e = ground (arith, e)

-- With a unit of fuel for each byte and one more, `on_shutdown` reads the pipe until it is empty, and
-- writes a line for each signal in it, in their order.
pub drain-map :
    (fuel : ℕ) (pipe : Bytes) → length pipe < fuel → drain fuel pipe ≡ (map message_of pipe, [])
unfolding drain
drain-map zero pipe enough = absurd (omega arith)
drain-map (suc fuel) pipe enough = elim (Bool-cases (length pipe == 0)) [
  | inl empty ↦
      let none_left = nothing_left pipe empty in
      rw empty
        (ap (λ p. ([], p)) none_left ∙ ap (λ (p : Bytes). (map message_of p, [])) (sym none_left))
  | inr some_bytes ↦
      let rest =
        drain-map fuel (drop read_size pipe)
          (ground (arith, length-drop read_size pipe, some_bytes, enough)) in
      let whole =
        sym (map-append (take read_size pipe) (drop read_size pipe))
        ∙ ap (map message_of) (take-append-drop read_size pipe) in
      rw (some_bytes, rest) (ap (λ ms. (ms, [])) whole)
]
