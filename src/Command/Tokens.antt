-- ===== src/Command/Tokens.antt =====
-- `tokenize_command` of src/command.c, over `strsep`, against a reference.
use mathlib.Core.List.{append-nil, append_assoc}
use bytekv.Prelude.{
  ℕ, zero, suc, ◌<◌, ◌≡◌, refl, ◌∙◌, sym, Option-cases, ap, Bool, false, ◌||◌, Option, none, some,
  List, [], ◌∷◌, ◌++◌, arith, ◌==◌, if◌then◌else◌, length, take, All, Bool-cases, inl, inr,
}
use bytekv.Prelude.Bytes.{Bytes, IsText}

-- `MAX_TOKENS`
abbrev pub max_tokens : ℕ
max_tokens = 8

abbrev pub is_blank : ℕ → Bool
is_blank c = c == 32 || c == 9

-- `strsep(&p, " \t")` where `p` is not NULL: the text before the first blank, and the new `p`
unfoldable pub strsep : Bytes → Bytes × Option Bytes
strsep [] = ([], none)
strsep (c ∷ s) = let (token, p) = strsep s in if is_blank c then ([], some s) else (c ∷ token, p)

-- A token that is not empty takes its slot of `argv`; `go` is the rest of the loop.
abbrev pub store_token : ℕ → (ℕ → List Bytes) → Bytes → List Bytes
store_token room go [] = go (suc room)
store_token room go (c ∷ t) = (c ∷ t) ∷ go room

-- The `for` loop, a round for each unit of fuel. `room` is the number of slots of `argv` that are left.
unfoldable pub tokens_loop : ℕ → ℕ → Option Bytes → List Bytes
tokens_loop zero room p = []
tokens_loop (suc fuel) zero p = []
tokens_loop (suc fuel) (suc room) none = []
tokens_loop (suc fuel) (suc room) (some s) =
    let (token, p) = strsep s in store_token room (λ r. tokens_loop fuel r p) token

-- each round but the last takes a blank
unfoldable pub tokenize_command : Bytes → ℕ → List Bytes
unfolding tokens_loop
tokenize_command cmd max = tokens_loop (suc (length cmd)) max (some cmd)

-- a word that is not empty, before others
abbrev pub flush : Bytes → List Bytes → List Bytes
flush [] words = words
flush (c ∷ w) words = (c ∷ w) ∷ words

-- the words of a text, the first of which has been read up to here
unfoldable pub words_from : Bytes → Bytes → List Bytes
words_from word [] = flush word []
words_from word (c ∷ s) =
    let rest = words_from (if is_blank c then [] else word ++ (c ∷ [])) s in
    if is_blank c then flush word rest else rest

-- the longest pieces of a text that have no blank
abbrev pub words : Bytes → List Bytes
words = words_from []

after_token : Option Bytes → List Bytes
after_token none = []
after_token (some s) = words s

words_from-strsep :
    (word s : Bytes) → words_from word s ≡ flush (word ++ (strsep s).0) (after_token (strsep s).1)
unfolding words_from strsep after_token
words_from-strsep word [] = rw (append-nil word)
words_from-strsep word (c ∷ s) = elim (Bool-cases (is_blank c)) [
  | inl blank ↦ rw (blank, append-nil word) refl
  | inr other ↦
      rw (other, words_from-strsep (word ++ (c ∷ [])) s, append_assoc word (c ∷ []) (strsep s).0)
        refl
]

length-strsep : (s r : Bytes) → (strsep s).1 ≡ some r → length r < length s
unfolding strsep
length-strsep [] r h = ground (arith, h)
length-strsep (c ∷ s) r h = ground (arith, length-strsep s r)

store_token-take :
    (room : ℕ) (go : ℕ → List Bytes) (token : Bytes) (rest : List Bytes)
    → ((r : ℕ) → go r ≡ take r rest)
    → store_token room go token ≡ take (suc room) (flush token rest)
store_token-take room go [] rest h = h (suc room)
store_token-take room go (c ∷ t) rest h = ap (λ ws. (c ∷ t) ∷ ws) (h room)

tokens_loop-none : (fuel room : ℕ) → tokens_loop fuel room none ≡ take room []
unfolding tokens_loop
tokens_loop-none zero zero = refl
tokens_loop-none zero (suc room) = refl
tokens_loop-none (suc fuel) zero = refl
tokens_loop-none (suc fuel) (suc room) = refl

tokens_loop-words :
    (fuel room : ℕ) (s : Bytes)
    → length s < fuel
    → tokens_loop fuel room (some s) ≡ take room (words s)
unfolding tokens_loop after_token
tokens_loop-words zero room s h = absurd (omega arith)
tokens_loop-words (suc fuel) zero s h = refl
tokens_loop-words (suc fuel) (suc room) s h =
    let p = (strsep s).1 in
    let rest : (r : ℕ) → tokens_loop fuel r p ≡ take r (after_token p) = elim (Option-cases p) [
      | inl e ↦ λ r. rw e (tokens_loop-none fuel r)
      | inr (t, e) ↦ λ r. rw e (tokens_loop-words fuel r t (omega (arith, length-strsep s t e)))
    ] in
    store_token-take room (λ r. tokens_loop fuel r p) (strsep s).0 (after_token p) rest
    ∙ ap (take (suc room)) (sym (words_from-strsep [] s))

-- The tokenizer gives the first words of a text, up to the number of slots, where the words are the
-- longest pieces without a space or a tab that are not empty.
pub tokenize_command-words :
    (cmd : Bytes) (max : ℕ) → tokenize_command cmd max ≡ take max (words cmd)
unfolding tokenize_command
tokenize_command-words cmd max = tokens_loop-words (suc (length cmd)) max cmd (omega arith)

-- a word as the handlers get it
unfoldable pub IsWord : Bytes → Type 0
IsWord w = (0 < length w) × All (λ c. is_blank c ≡ false) w × IsText w

flush-All :
    (w : Bytes) (ws : List Bytes)
    → All (λ c. is_blank c ≡ false) w
    → IsText w
    → All IsWord ws
    → All IsWord (flush w ws)
unfolding IsWord
flush-All [] ws plain text rest = rest
flush-All (c ∷ w) ws plain text rest = ((omega arith, plain, text), rest)

All-snoc {ℓ} :
    {A : Type ℓ} (P : A → Type 0) (w : List A) (c : A) → All P w → P c → All P (w ++ (c ∷ []))
All-snoc P [] c h p = (p, tt)
All-snoc P (x ∷ w) c (q, h) p = (q, All-snoc P w c h p)

words_from-IsWord :
    (word s : Bytes)
    → All (λ c. is_blank c ≡ false) word
    → IsText word
    → IsText s
    → All IsWord (words_from word s)
unfolding words_from
words_from-IsWord word [] plain text_word text = flush-All word [] plain text_word tt
words_from-IsWord word (c ∷ s) plain text_word (h, text) = elim (Bool-cases (is_blank c)) [
  | inl blank ↦
      rw blank (flush-All word (words s) plain text_word (words_from-IsWord [] s tt tt text))
  | inr other ↦ rw other (
      words_from-IsWord (word ++ (c ∷ [])) s (All-snoc (λ b. is_blank b ≡ false) word c plain other)
        (All-snoc (λ b. (0 < b) × (b < 256)) word c text_word h) text)
]

All-take : (n : ℕ) (ws : List Bytes) → All IsWord ws → All IsWord (take n ws)
All-take zero ws h = tt
All-take (suc n) [] h = tt
All-take (suc n) (w ∷ ws) (p, h) = (p, All-take n ws h)

-- The arguments are words without blanks and NUL, and none is empty.
pub tokenize_command-IsWord :
    (cmd : Bytes) (max : ℕ) → IsText cmd → All IsWord (tokenize_command cmd max)
tokenize_command-IsWord cmd max text =
    rw (tokenize_command-words cmd max)
      (All-take max (words cmd) (words_from-IsWord [] cmd tt tt text))
