-- ===== src/Networking/Stream.antt =====
-- src/networking.c: what the client is sent, against what is queued for it.
use mathlib.Core.List.{append_assoc, append-nil}
use bytekv.Prelude.{
  ℕ, zero, suc, ◌+◌, ◌≤◌, ◌≡◌, refl, ◌∙◌, sym, ap, ◌⊎◌, inl, inr, Bool, true, false, Bool-cases,
  List, [], ◌∷◌, ◌++◌, arith, ltb, ◌==◌, length, take, drop, drop-add,
}
use bytekv.Prelude.Bytes.{Bytes}
use bytekv.Networking.{
  wbuf_size, Conn, Net, Wrote, wrote, again, broken, removed, remove_client, compact, add_write,
  advance, write_direct, queue_write,
}
use bytekv.Networking.Bounds.{IsWithin, compact-IsWithin}

-- the bytes that the socket has taken, and those it is still to take
abbrev pub stream : Conn → Bytes
stream c = c.sent ++ drop c.woff c.wbuf

drop-append_left {ℓ} :
    {A : Type ℓ} (n : ℕ) (xs ys : List A) → n ≤ length xs → drop n (xs ++ ys) ≡ drop n xs ++ ys
drop-append_left zero xs ys h = refl
drop-append_left (suc n) [] ys h = absurd (omega arith)
drop-append_left (suc n) (x ∷ xs) ys h = drop-append_left n xs ys (omega arith)

pub drop_all {ℓ} : {A : Type ℓ} (n : ℕ) (xs : List A) → length xs ≤ n → drop n xs ≡ []
drop_all zero [] h = refl
drop_all zero (x ∷ xs) h = absurd (omega arith)
drop_all (suc n) [] h = refl
drop_all (suc n) (x ∷ xs) h = drop_all n xs (omega arith)

take-append-drop_taken {ℓ} :
    {A : Type ℓ} (n : ℕ) (xs : List A) → take n xs ++ drop (length (take n xs)) xs ≡ xs
take-append-drop_taken zero xs = refl
take-append-drop_taken (suc n) [] = refl
take-append-drop_taken (suc n) (x ∷ xs) = ap (λ t. x ∷ t) (take-append-drop_taken n xs)

stream-compact : (n : ℕ) (c : Conn) → stream (compact n c) ≡ stream c
unfolding compact
stream-compact n c = ground arith

pub stream-advance : (n : ℕ) (c : Conn) → stream (advance n c) ≡ stream c
unfolding advance
stream-advance n c =
    let taken = take n (drop c.woff c.wbuf) in
    append_assoc c.sent taken (drop (c.woff + length taken) c.wbuf)
    ∙ ap (λ t. c.sent ++ (taken ++ t)) (drop-add c.woff (length taken) c.wbuf)
    ∙ ap (λ t. c.sent ++ t) (take-append-drop_taken n (drop c.woff c.wbuf))

-- two connections that the reader cannot tell apart, one with more for the client
pub record Queued (bytes : Bytes) (s s' : Net) : Type 0 where
  pub stream : stream s'.conn ≡ stream s.conn ++ bytes
  pub buf : s'.conn.buf ≡ s.conn.buf
  pub st : s'.st ≡ s.st

-- what a call that queues some bytes leaves, by its result
abbrev pub Queues : Bytes → Net → Bool → Net → Type 0
Queues bytes s true s' = Queued bytes s s'
Queues bytes s false s' = Queued [] s s' ⊎ (s'.conn.active ≡ false)

add_write-Queued :
    (bytes : Bytes) (s : Net) (c : Conn) (added : Bool)
    → Queued bytes s (record s { conn = c })
    → Queued bytes s (record s { conn = add_write added c })
add_write-Queued bytes s c true q = record { stream = q.stream; buf = q.buf; st = q.st }
add_write-Queued bytes s c false q = q

write_direct-Queues :
    (bytes : Bytes) (s : Net) (c : Conn) (w : Wrote) (added : Bool)
    → Queued bytes s (record s { conn = c })
    → let (ok, s') = write_direct w added (record s { conn = c }) in Queues bytes s ok s'
unfolding write_direct remove_client removed
write_direct-Queues bytes s c again added q = add_write-Queued bytes s c added q
write_direct-Queues bytes s c broken added q = inr refl
write_direct-Queues bytes s c (wrote n) added q =
    let a = advance n c in
    let e : stream a ≡ stream s.conn ++ bytes = stream-advance n c ∙ q.stream in
    let same : a.buf ≡ s.conn.buf = q.buf in
    elim (Bool-cases (a.woff == length a.wbuf)) [
      | inl all ↦ rw all (record {
        stream = sym (ap (λ t. a.sent ++ t) (drop_all a.woff a.wbuf (ground arith))) ∙ e;
        buf = same;
        st = refl;
      })
      | inr some_left ↦
          rw some_left
            (add_write-Queued bytes s a added (record { stream = e; buf = same; st = refl }))
    ]

-- What is queued goes to the client behind all that was queued before. Where it is refused, either
-- nothing is lost or the connection is closed.
pub queue_write-Queues :
    (w : Wrote) (added : Bool) (bytes : Bytes) (s : Net)
    → IsWithin s.conn
    → let (ok, s') = queue_write w added bytes s in Queues bytes s ok s'
unfolding queue_write
queue_write-Queues w added bytes s h =
    let c = compact (length bytes) s.conn in
    let queued = record c { wbuf = c.wbuf ++ bytes } in
    let within = compact-IsWithin (length bytes) s.conn h in
    let same : c.buf ≡ s.conn.buf = ground arith in
    let kept : stream c ≡ stream s.conn = stream-compact (length bytes) s.conn in
    let q : Queued bytes s (record s { conn = queued }) = record {
      stream =
          ap (λ t. c.sent ++ t) (drop-append_left c.woff c.wbuf bytes within.1)
          ∙ sym (append_assoc c.sent (drop c.woff c.wbuf) bytes)
          ∙ ap (λ t. t ++ bytes) kept;
      buf = same;
      st = refl;
    } in
    elim (Bool-cases (ltb wbuf_size (length c.wbuf + length bytes))) [
      | inl full ↦
          rw full (
            inl
              (record { stream = kept ∙ sym (append-nil (stream s.conn)); buf = same; st = refl }))
      | inr room ↦ elim (Bool-cases (length c.wbuf == 0)) [
        | inl first ↦ rw (room, first) (write_direct-Queues bytes s queued w added q)
        | inr later ↦ rw (room, later) (add_write-Queued bytes s queued added q)
      ]
    ]
