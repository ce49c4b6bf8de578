-- ===== src/Networking/Live.antt =====
-- src/networking.c: where the socket takes what it is given, every whole frame is answered.
use mathlib.Core.List.{append_assoc, append-nil}
use bytekv.Prelude.{
  ℕ, zero, suc, ◌+◌, ◌≤◌, ◌<◌, ◌≡◌, refl, ◌∙◌, sym, ap, Bool, true, false, List, [], ◌∷◌, ◌++◌,
  arith, ltb, ◌==◌, length, take, drop, All, length-drop, length-take, length-append, subst,
}
use bytekv.Prelude.Bytes.{Bytes, be, length-be}
use bytekv.Aof.{msg_max}
use bytekv.Aof.Writer.{Config}
use bytekv.Command.Execute.{command_execute}
use bytekv.Command.Bounds.{command_execute-bound}
use bytekv.Networking.{
  frame_hdr_size, buf_size, wbuf_size, Conn, Net, wrote, compact, advance, write_direct,
  queue_write, frame, send_framed, Round, consume, serve, process_loop, process_buffer, on_write,
}
use bytekv.Networking.Bounds.{IsWithin, consume-IsWithin}
use bytekv.Networking.Frames.{frames, IsMessage, IsPart, Begins, frame-Begins}
use bytekv.Networking.Stream.{stream, stream-advance, drop_all}
use bytekv.Networking.Served.{
  answer, process_loop-part, process_loop-frame, serve-Queues, Queued-Queues, replies_prepend,
}

-- nothing is queued
abbrev pub IsDrained : Conn → Type 0
IsDrained c = (c.wbuf ≡ []) × (c.woff ≡ 0)

-- each `write` takes the `n` bytes that it is given, or all
abbrev pub TakesAll : ℕ → (ℕ → Round) → Type 0
TakesAll n env = (i : ℕ) → (env i).wrote ≡ wrote n

compact-IsDrained : (k : ℕ) (c : Conn) → IsDrained c → IsDrained (compact k c)
unfolding compact
compact-IsDrained k c h = ground (arith, h)

queue_write-IsDrained :
    (n : ℕ) (added : Bool) (bytes : Bytes) (s : Net)
    → IsDrained s.conn
    → length bytes ≤ n
    → length bytes ≤ wbuf_size
    → ((queue_write (wrote n) added bytes s).0 ≡ true)
      × IsDrained (queue_write (wrote n) added bytes s).1.conn
unfolding queue_write write_direct advance
queue_write-IsDrained n added bytes s drained takes fits =
    let c = compact (length bytes) s.conn in
    let (wbuf, woff) = compact-IsDrained (length bytes) s.conn drained in
    let queued : Conn = record c { wbuf = c.wbuf ++ bytes } in
    let len : length c.wbuf ≡ 0 = ap length wbuf in
    let full : ltb wbuf_size (length c.wbuf + length bytes) ≡ false = ground (arith, len, fits) in
    let first : (length c.wbuf == 0) ≡ true = ground (arith, len) in
    let taken = take n (drop c.woff (c.wbuf ++ bytes)) in
    let size : length taken ≡ length bytes = omega (
      arith,
      length-take n (drop c.woff (c.wbuf ++ bytes)),
      length-drop c.woff (c.wbuf ++ bytes),
      length-append c.wbuf bytes,
      len,
      woff,
      takes,
    ) in
    let all : (c.woff + length taken == length (c.wbuf ++ bytes)) ≡ true =
      ground (arith, size, woff, len, length-append c.wbuf bytes) in
    rw (full, first, all) (refl, (refl, refl))

length-frame : (p : Bytes) → length (frame p) ≡ frame_hdr_size + length p
length-frame p =
    omega
      (arith, length-append (be frame_hdr_size (length p)) p, length-be frame_hdr_size (length p))

serve-IsDrained :
    (n : ℕ) (cfg : Config) (r : Round) (p : Bytes) (s : Net)
    → IsDrained s.conn
    → r.wrote ≡ wrote n
    → buf_size ≤ n
    → ((serve cfg r p s).0 ≡ true) × IsDrained (serve cfg r p s).1.conn
unfolding serve send_framed
serve-IsDrained n cfg r p s drained all enough =
    let (st₁, resp) = command_execute cfg r.io p msg_max s.st in
    let short = command_execute-bound cfg r.io p msg_max s.st in
    let size = length-frame resp.out in
    rw all (
      queue_write-IsDrained n r.added (frame resp.out) (record s { st = st₁ }) drained
        (omega (arith, enough, short, size)) (omega (arith, short, size)))

-- what is left where every payload is answered
pub record Answered (cfg : Config) (env : ℕ → Round) (ps : List Bytes) (rest : Bytes) (s s' : Net)
    : Type 0 where
  pub buf : s'.conn.buf ≡ rest
  pub st : s'.st ≡ (answer cfg env ps s.st).0
  pub sent : s'.conn.sent ≡ stream s.conn ++ (answer cfg env ps s.st).1
  pub drained : IsDrained s'.conn

stream-IsDrained : (c : Conn) → IsDrained c → stream c ≡ c.sent
stream-IsDrained c (wbuf, woff) =
    ap (λ b. c.sent ++ b) (drop_all c.woff c.wbuf (omega (arith, ap length wbuf)))
    ∙ append-nil c.sent

process_loop-Answered :
    (n fuel : ℕ) (cfg : Config) (env : ℕ → Round) (ps : List Bytes) (rest : Bytes) (s : Net)
    → length s.conn.buf < fuel
    → All IsMessage ps
    → IsPart rest
    → IsWithin s.conn
    → s.conn.buf ≡ frames ps ++ rest
    → IsDrained s.conn
    → TakesAll n env
    → buf_size ≤ n
    → Answered cfg env ps rest s (process_loop fuel cfg env s)
unfolding frames answer
process_loop-Answered n fuel cfg env [] rest s enough legal part within buf drained all takes =
    let e = process_loop-part fuel cfg env s (subst IsPart (sym buf) part) in
    record {
      buf = ap (λ x. x.conn.buf) e ∙ buf;
      st = ap (λ x. x.st) e;
      sent =
          ap (λ x. x.conn.sent) e
          ∙ sym (stream-IsDrained s.conn drained)
          ∙ sym (append-nil (stream s.conn));
      drained = subst (λ x. IsDrained x.conn) (sym e) drained;
    }
process_loop-Answered n zero cfg env (p ∷ ps) rest s enough legal part within buf drained all
      takes =
    absurd (omega arith)
process_loop-Answered n (suc fuel) cfg env (p ∷ ps) rest s enough (fits, legal) part within buf
      drained all takes =
    let more = frames ps ++ rest in
    let begins : Begins p more s.conn.buf =
      subst (Begins p more) (sym (buf ∙ append_assoc (frame p) (frames ps) rest))
        (frame-Begins p more fits) in
    let (ok, t) = serve cfg (env 0) p s in
    let next = consume (frame_hdr_size + length p) t in
    let (queues, inside) = serve-Queues cfg (env 0) p s within in
    let (done, empty) = serve-IsDrained n cfg (env 0) p s drained (all 0) takes in
    let q = Queued-Queues _ _ t ok queues done in
    let left : next.conn.buf ≡ more = ap (drop (frame_hdr_size + length p)) q.buf ∙ begins.next in
    let later =
      process_loop-Answered n fuel cfg (λ i. env (suc i)) ps rest next
        (omega (arith, enough, begins.whole, ap length left)) legal part
        (consume-IsWithin (frame_hdr_size + length p) t inside) left empty (λ i. all (suc i))
        takes in
    let step : process_loop (suc fuel) cfg env s ≡ process_loop fuel cfg (λ i. env (suc i)) next =
      process_loop-frame fuel cfg env s p more fits begins ∙ rw done in
    subst (Answered cfg env (p ∷ ps) rest s) (sym step) (record {
      buf = later.buf;
      st = later.st ∙ ap (λ x. (answer cfg (λ i. env (suc i)) ps x).0) q.st;
      sent = replies_prepend cfg env p ps s next _ q.st q.stream later.sent;
      drained = later.drained;
    })

-- Let the buffers of a connection be within their sizes, and the read buffer hold the frames of
-- some legal payloads and a part of another frame. Where `on_write` is called, and each `write`
-- takes all it is given, what was queued is sent, then every payload runs in order and its reply is
-- sent; the part waits and nothing is left queued.
pub on_write-Answered :
    (n : ℕ) (cfg : Config) (env : ℕ → Round) (ps : List Bytes) (rest : Bytes) (s : Net)
    → All IsMessage ps
    → IsPart rest
    → IsWithin s.conn
    → s.conn.buf ≡ frames ps ++ rest
    → TakesAll n env
    → wbuf_size ≤ n
    → Answered cfg env ps rest s (on_write cfg (wrote n) env s)
unfolding on_write process_buffer advance
on_write-Answered n cfg env ps rest s legal part (bound, sent, wbuf) buf all takes =
    let c = advance n s.conn in
    let pending = drop s.conn.woff s.conn.wbuf in
    let done : (c.woff == length c.wbuf) ≡ true =
      ground
        (arith, length-take n pending, length-drop s.conn.woff s.conn.wbuf, sent, wbuf, takes) in
    let s₁ = record s { conn = record c { woff = 0; wbuf = []; writes = false } } in
    let a =
      process_loop-Answered n (suc (length s.conn.buf)) cfg env ps rest s₁ (omega arith) legal part
        (bound, omega arith, omega arith) buf (refl, refl) all (omega (arith, takes)) in
    let flushed : stream s₁.conn ≡ stream s.conn =
      sym (ap (λ b. c.sent ++ b) (drop_all c.woff c.wbuf (ground (arith, done))))
      ∙ stream-advance n s.conn in
    rw done (record {
      buf = a.buf;
      st = a.st;
      sent = a.sent ∙ ap (λ b. b ++ (answer cfg env ps s.st).1) flushed;
      drained = a.drained;
    })
