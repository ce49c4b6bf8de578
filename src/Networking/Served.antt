-- ===== src/Networking/Served.antt =====
-- `process_buffer` of src/networking.c against a reference that answers one payload after the other.
use mathlib.Core.List.{append_assoc, append-nil}
use bytekv.Prelude.{
  ℕ, zero, suc, ◌+◌, ◌<◌, ◌≡◌, refl, ◌∙◌, sym, ap, inl, inr, Bool, true, false, Bool-cases, List,
  [], ◌∷◌, ◌++◌, arith, ltb, if◌then◌else◌, length, take, drop, All, subst,
}
use bytekv.Prelude.Bytes.{Bytes, be_value}
use bytekv.Aof.{msg_max}
use bytekv.Aof.Writer.{Config}
use bytekv.Command.Handlers.{State}
use bytekv.Command.Execute.{command_execute}
use bytekv.Networking.{
  frame_hdr_size, Net, frame, send_framed, Round, consume, serve, process_loop, process_buffer,
}
use bytekv.Networking.Bounds.{IsWithin, queue_write-IsWithin, consume-IsWithin}
use bytekv.Networking.Frames.{frames, IsMessage, IsPart, Begins, frame-Begins}
use bytekv.Networking.Stream.{stream, Queued, Queues, queue_write-Queues}

-- the reference: the server after the payloads, and the frames of all replies
unfoldable pub answer : Config → (ℕ → Round) → List Bytes → State → State × Bytes
answer cfg env [] st = (st, [])
answer cfg env (p ∷ ps) st =
    let (st₁, resp) = command_execute cfg (env 0).io p msg_max st in
    let (st₂, replies) = answer cfg (λ i. env (suc i)) ps st₁ in (st₂, frame resp.out ++ replies)

-- How a connection is left that has been sent `ps`, and then `rest`. Either every payload is
-- answered and the rest waits; or the replies of the first ones are queued, and the next one has
-- run but its reply is dropped and its frame waits again; or the connection is closed.
pub data Left (cfg : Config) (env : ℕ → Round) (ps : List Bytes) (rest : Bytes) (s s' : Net)
    : Type 0 where
  finished :
      s'.conn.buf ≡ rest
      → s'.st ≡ (answer cfg env ps s.st).0
      → stream s'.conn ≡ stream s.conn ++ (answer cfg env ps s.st).1
      → Left cfg env ps rest s s'
  stalled :
      (done : List Bytes) (p : Bytes) (later : List Bytes)
      → ps ≡ done ++ (p ∷ later)
      → s'.conn.buf ≡ frames (p ∷ later) ++ rest
      → s'.st ≡ (answer cfg env (done ++ (p ∷ [])) s.st).0
      → stream s'.conn ≡ stream s.conn ++ (answer cfg env done s.st).1
      → Left cfg env ps rest s s'
  closed : s'.conn.active ≡ false → Left cfg env ps rest s s'

pub replies_prepend :
    (cfg : Config) (env : ℕ → Round) (p : Bytes) (ps : List Bytes) (s t : Net) (all : Bytes)
    → t.st ≡ (command_execute cfg (env 0).io p msg_max s.st).0
    → stream t.conn ≡ stream s.conn ++ frame (command_execute cfg (env 0).io p msg_max s.st).1.out
    → all ≡ stream t.conn ++ (answer cfg (λ i. env (suc i)) ps t.st).1
    → all ≡ stream s.conn ++ (answer cfg env (p ∷ ps) s.st).1
unfolding answer
replies_prepend cfg env p ps s t all st sent out =
    let (st₁, resp) = command_execute cfg (env 0).io p msg_max s.st in
    let replies = (answer cfg (λ i. env (suc i)) ps st₁).1 in
    out
    ∙ ap (λ x. stream t.conn ++ (answer cfg (λ i. env (suc i)) ps x).1) st
    ∙ ap (λ b. b ++ replies) sent
    ∙ append_assoc (stream s.conn) (frame resp.out) replies

-- one payload, answered before the others
Left-prepend :
    (cfg : Config) (env : ℕ → Round) (p : Bytes) (ps : List Bytes) (rest : Bytes) (s t s' : Net)
    → t.st ≡ (command_execute cfg (env 0).io p msg_max s.st).0
    → stream t.conn ≡ stream s.conn ++ frame (command_execute cfg (env 0).io p msg_max s.st).1.out
    → Left cfg (λ i. env (suc i)) ps rest t s'
    → Left cfg env (p ∷ ps) rest s s'
unfolding answer
Left-prepend cfg env p ps rest s t s' st sent (closed off) = closed off
Left-prepend cfg env p ps rest s t s' st sent (finished buf state out) =
    finished buf (state ∙ ap (λ x. (answer cfg (λ i. env (suc i)) ps x).0) st)
      (replies_prepend cfg env p ps s t (stream s'.conn) st sent out)
Left-prepend cfg env p ps rest s t s' st sent (stalled done q later split buf state out) =
    stalled (p ∷ done) q later (ap (λ l. p ∷ l) split) buf
      (state ∙ ap (λ x. (answer cfg (λ i. env (suc i)) (done ++ (q ∷ [])) x).0) st)
      (replies_prepend cfg env p done s t (stream s'.conn) st sent out)

pub process_loop-part :
    (fuel : ℕ) (cfg : Config) (env : ℕ → Round) (s : Net)
    → IsPart s.conn.buf
    → process_loop fuel cfg env s ≡ s
unfolding process_loop
process_loop-part zero cfg env s h = refl
process_loop-part (suc fuel) cfg env s h =
    elim (Bool-cases (ltb (length s.conn.buf) frame_hdr_size)) [
      | inl short ↦ rw short
      | inr header ↦
          let legal : ltb msg_max (be_value (take frame_hdr_size s.conn.buf)) ≡ false =
            ground (arith, h, header) in
          let part : ltb (length s.conn.buf)
                (frame_hdr_size + be_value (take frame_hdr_size s.conn.buf))
              ≡ true =
            ground (arith, h, header) in
          rw (header, legal, part)
    ]

-- one round, where a whole frame begins the buffer
pub process_loop-frame :
    (fuel : ℕ) (cfg : Config) (env : ℕ → Round) (s : Net) (p more : Bytes)
    → IsMessage p
    → Begins p more s.conn.buf
    → process_loop (suc fuel) cfg env s ≡ (
        let (ok, t) = serve cfg (env 0) p s in
        if ok
        then process_loop fuel cfg (λ i. env (suc i)) (consume (frame_hdr_size + length p) t)
        else t)
unfolding process_loop
process_loop-frame fuel cfg env s p more legal begins =
    let header : ltb (length s.conn.buf) frame_hdr_size ≡ false = ground (arith, begins.whole) in
    let whole : ltb (length s.conn.buf) (frame_hdr_size + length p) ≡ false =
      ground (arith, begins.whole) in
    let small : ltb msg_max (length p) ≡ false = ground (arith, legal) in
    elim (Bool-cases (serve cfg (env 0) p s).0) [
      | inl ok ↦ rw (begins.len, begins.payload, header, small, whole, ok)
      | inr refused ↦ rw (begins.len, begins.payload, header, small, whole, refused)
    ]

-- the two ways a round can end
served-Left :
    (cfg : Config) (env : ℕ → Round) (p : Bytes) (ps : List Bytes) (rest : Bytes) (s s' t : Net)
    (ok : Bool)
    → s.conn.buf ≡ frames (p ∷ ps) ++ rest
    → (let (st₁, resp) = command_execute cfg (env 0).io p msg_max s.st in
        Queues (frame resp.out) (record s { st = st₁ }) ok t)
    → (ok ≡ true → Left cfg (λ i. env (suc i)) ps rest (consume (frame_hdr_size + length p) t) s')
    → (ok ≡ false → s' ≡ t)
    → Left cfg env (p ∷ ps) rest s s'
unfolding answer
served-Left cfg env p ps rest s s' t true buf q go stop =
    Left-prepend cfg env p ps rest s (consume (frame_hdr_size + length p) t) s' q.st q.stream
      (go refl)
served-Left cfg env p ps rest s s' t false buf (inr off) go stop =
    closed (ap (λ x. x.conn.active) (stop refl) ∙ off)
served-Left cfg env p ps rest s s' t false buf (inl q) go stop =
    stalled [] p ps refl (ap (λ x. x.conn.buf) (stop refl) ∙ q.buf ∙ buf)
      (ap (λ x. x.st) (stop refl) ∙ q.st) (ap (λ x. stream x.conn) (stop refl) ∙ q.stream)

pub serve-Queues :
    (cfg : Config) (r : Round) (p : Bytes) (s : Net)
    → IsWithin s.conn
    → let (st₁, resp) = command_execute cfg r.io p msg_max s.st in
      let (ok, t) = serve cfg r p s in
      Queues (frame resp.out) (record s { st = st₁ }) ok t × IsWithin t.conn
unfolding serve send_framed
serve-Queues cfg r p s within =
    let (st₁, resp) = command_execute cfg r.io p msg_max s.st in
    let s₁ = record s { st = st₁ } in
    (
      queue_write-Queues r.wrote r.added (frame resp.out) s₁ within,
      queue_write-IsWithin r.wrote r.added (frame resp.out) s₁ within,
    )

pub Queued-Queues :
    (bytes : Bytes) (s t : Net) (ok : Bool) → Queues bytes s ok t → ok ≡ true → Queued bytes s t
Queued-Queues bytes s t true q h = q
Queued-Queues bytes s t false q h = absurd (ground arith)

process_loop-Left :
    (fuel : ℕ) (cfg : Config) (env : ℕ → Round) (ps : List Bytes) (rest : Bytes) (s : Net)
    → length s.conn.buf < fuel
    → All IsMessage ps
    → IsPart rest
    → IsWithin s.conn
    → s.conn.buf ≡ frames ps ++ rest
    → Left cfg env ps rest s (process_loop fuel cfg env s)
unfolding frames answer
process_loop-Left fuel cfg env [] rest s enough legal part within buf =
    let e = process_loop-part fuel cfg env s (subst IsPart (sym buf) part) in
    finished (ap (λ x. x.conn.buf) e ∙ buf) (ap (λ x. x.st) e)
      (ap (λ x. stream x.conn) e ∙ sym (append-nil (stream s.conn)))
process_loop-Left zero cfg env (p ∷ ps) rest s enough legal part within buf = absurd (omega arith)
process_loop-Left (suc fuel) cfg env (p ∷ ps) rest s enough (fits, legal) part within buf =
    let more = frames ps ++ rest in
    let split = buf ∙ append_assoc (frame p) (frames ps) rest in
    let begins : Begins p more s.conn.buf =
      subst (Begins p more) (sym split) (frame-Begins p more fits) in
    let (st₁, resp) = command_execute cfg (env 0).io p msg_max s.st in
    let (ok, t) = serve cfg (env 0) p s in
    let next = consume (frame_hdr_size + length p) t in
    let step = process_loop-frame fuel cfg env s p more fits begins in
    let (queues, inside) = serve-Queues cfg (env 0) p s within in
    let left : ok ≡ true → next.conn.buf ≡ more = λ h.
      ap (drop (frame_hdr_size + length p)) (Queued-Queues _ _ t ok queues h).buf ∙ begins.next in
    let go : ok ≡ true
        → Left cfg (λ i. env (suc i)) ps rest next (process_loop (suc fuel) cfg env s) =
      λ h. subst (Left cfg (λ i. env (suc i)) ps rest next) (sym (step ∙ rw h)) (
        process_loop-Left fuel cfg (λ i. env (suc i)) ps rest next
          (omega (arith, enough, begins.whole, ap length (left h))) legal part
          (consume-IsWithin (frame_hdr_size + length p) t inside) (left h)) in
    served-Left cfg env p ps rest s (process_loop (suc fuel) cfg env s) t ok buf queues go
      (λ h. step ∙ rw h)

-- Let the buffers of a connection be within their sizes, and the read buffer hold the frames of
-- some legal payloads and a part of another frame. Then after `process_buffer`, whatever each
-- `write` does: every payload has run in order, the frames of all replies are queued behind what
-- was queued before, and the part waits; or this holds of the first payloads, and the next has run
-- too, but its reply is dropped and its frame waits with all that follow; or the connection is
-- closed.
pub process_buffer-Left :
    (cfg : Config) (env : ℕ → Round) (ps : List Bytes) (rest : Bytes) (s : Net)
    → All IsMessage ps
    → IsPart rest
    → IsWithin s.conn
    → s.conn.buf ≡ frames ps ++ rest
    → Left cfg env ps rest s (process_buffer cfg env s)
unfolding process_buffer
process_buffer-Left cfg env ps rest s legal part within buf =
    process_loop-Left (suc (length s.conn.buf)) cfg env ps rest s (omega arith) legal part within
      buf
