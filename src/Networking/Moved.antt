-- ===== src/Networking/Moved.antt =====
-- src/networking.c: what a handler of one connection leaves of the rest of the server: the count, the
-- handlers of a connection that is closed, and the store and the log.
use bytekv.Prelude.{
  ℕ, zero, suc, ◌+◌, ◌-◌, ◌≡◌, refl, ◌∙◌, inl, inr, Bool, true, false, not, subst, Bool-cases,
  arith, ltb, ◌==◌, ◌++◌, [], length, take, if◌then◌else◌,
}
use bytekv.Prelude.Bytes.{Bytes, slice, be_value}
use bytekv.Aof.{msg_max}
use bytekv.Aof.Writer.{Config}
use bytekv.Command.Handlers.{State, Io}
use bytekv.Command.Execute.{command_execute}
use bytekv.Networking.{
  frame_hdr_size, buf_size, wbuf_size, Conn, Net, Wrote, wrote, again, broken, removed, decrement,
  frame, remove_client, compact, add_write, advance, write_direct, queue_write, send_framed, Round,
  consume, serve, process_loop, process_buffer, on_write, Received, received, no_data, lost,
  read_into, on_read,
}

-- A handler that began with `n` connections leaves this one open and the count as it was, or closes
-- it, without a handler of its own, and counts it off.
pub data Moved (n : ℕ) (s : Net) : Type 0 where
  stays : s.conn.active ≡ true → s.count ≡ n → Moved n s
  leaves :
      s.conn.active ≡ false
      → s.conn.reads ≡ false
      → s.conn.writes ≡ false
      → s.count ≡ decrement n
      → Moved n s

remove_client-Moved : (n : ℕ) (s : Net) → s.count ≡ n → Moved n (remove_client s)
unfolding remove_client removed
remove_client-Moved n s e = leaves refl refl refl (rw e refl)

-- What `queue_write` gives: success with the connection open, or a failure; the store and the log are
-- as they were.
data Queued (n : ℕ) (st : State) : Bool × Net → Type 0 where
  queued : {s : Net} → s.conn.active ≡ true → s.count ≡ n → s.st ≡ st → Queued n st (true, s)
  refused : {s : Net} → Moved n s → s.st ≡ st → Queued n st (false, s)

add_write_active : (added : Bool) (c : Conn) → (add_write added c).active ≡ c.active
add_write_active true c = refl
add_write_active false c = refl

write_direct-Queued :
    (w : Wrote) (added : Bool) (s : Net)
    → s.conn.active ≡ true
    → Queued s.count s.st (write_direct w added s)
unfolding write_direct advance
write_direct-Queued again added s on = queued (add_write_active added s.conn ∙ on) refl refl
write_direct-Queued broken added s on =
    refused (remove_client-Moved s.count s refl) (unfold remove_client in refl)
write_direct-Queued (wrote n) added s on =
    let c = advance n s.conn in
    elim (Bool-cases (c.woff == length c.wbuf)) [
      | inl all ↦ rw all (queued on refl refl)
      | inr some_left ↦ rw some_left (queued (add_write_active added c ∙ on) refl refl)
    ]

compact_active : (len : ℕ) (c : Conn) → (compact len c).active ≡ c.active
unfolding compact
compact_active len c = ground arith

queue_write-Queued :
    (w : Wrote) (added : Bool) (bytes : Bytes) (s : Net)
    → s.conn.active ≡ true
    → Queued s.count s.st (queue_write w added bytes s)
unfolding queue_write
queue_write-Queued w added bytes s on =
    let c = compact (length bytes) s.conn in
    let still : c.active ≡ true = compact_active (length bytes) s.conn ∙ on in
    elim (Bool-cases (ltb wbuf_size (length c.wbuf + length bytes))) [
      | inl full ↦ rw full (refused (stays still refl) refl)
      | inr room ↦ elim (Bool-cases (length c.wbuf == 0)) [
        | inl first ↦ rw (room, first) (write_direct-Queued w added _ still)
        | inr later ↦ rw (room, later) (queued (add_write_active added _ ∙ still) refl refl)
      ]
    ]

-- what a handler keeps
abbrev pub Holds : (State → Type 0) → ℕ → Net → Type 0
Holds R n s = Moved n s × R s.st

-- one command and its reply: a round that goes on has the connection open
data Served (R : State → Type 0) (n : ℕ) : Bool × Net → Type 0 where
  goes_on : {s : Net} → s.conn.active ≡ true → s.count ≡ n → R s.st → Served R n (true, s)
  ends : {s : Net} → Holds R n s → Served R n (false, s)

Queued-Served :
    (R : State → Type 0) (n : ℕ) (st : State) (r : Bool × Net) → R st → Queued n st r → Served R n r
Queued-Served R n st r h (queued on e same) = goes_on on e (rw same h)
Queued-Served R n st r h (refused moved same) = ends (moved, rw same h)

after_round :
    (R : State → Type 0) (n len : ℕ) (rest : Net → Net) (result : Bool × Net)
    → Served R n result
    → ((s : Net) → s.conn.active ≡ true → s.count ≡ n → R s.st → Holds R n (rest s))
    → Holds R n (if◌then◌else◌ {A = Net} (not result.0) result.1 (rest (consume len result.1)))
after_round R n len rest result (goes_on on e h) next = next _ on e h
after_round R n len rest result (ends holds) next = holds

module _ (cfg : Config) (R : State → Type 0)
    (kept : (io : Io) (payload : Bytes) (st : State)
      → R st
      → R (command_execute cfg io payload msg_max st).0) where
  serve-Served :
      (r : Round) (payload : Bytes) (s : Net)
      → s.conn.active ≡ true
      → R s.st
      → Served R s.count (serve cfg r payload s)
  unfolding serve send_framed
  serve-Served r payload s on h =
      let (st, resp) = command_execute cfg r.io payload msg_max s.st in
      Queued-Served R s.count st _ (kept r.io payload s.st h)
        (queue_write-Queued r.wrote r.added (frame resp.out) (record s { st = st }) on)

  process_loop-Holds :
      (fuel : ℕ) (env : ℕ → Round) (n : ℕ) (s : Net)
      → s.conn.active ≡ true
      → s.count ≡ n
      → R s.st
      → Holds R n (process_loop fuel cfg env s)
  unfolding process_loop
  process_loop-Holds zero env n s on e h = (stays on e, h)
  process_loop-Holds (suc fuel) env n s on e h =
      let len = be_value (take frame_hdr_size s.conn.buf) in
      let result = serve cfg (env 0) (slice frame_hdr_size len s.conn.buf) s in
      let served : Served R n result =
        subst (λ k. Served R k result) e
          (serve-Served (env 0) (slice frame_hdr_size len s.conn.buf) s on h) in
      elim (Bool-cases (ltb (length s.conn.buf) frame_hdr_size)) [
        | inl short ↦ rw short (stays on e, h)
        | inr some_header ↦ elim (Bool-cases (ltb msg_max len)) [
          | inl large ↦
              rw (some_header, large) (remove_client-Moved n s e, unfold remove_client in h)
          | inr legal ↦ elim (Bool-cases (ltb (length s.conn.buf) (frame_hdr_size + len))) [
            | inl part ↦ rw (some_header, legal, part) (stays on e, h)
            | inr whole ↦
                rw (some_header, legal, whole)
                  (after_round R n (frame_hdr_size + len) (process_loop fuel cfg (λ i. env (suc i)))
                    result served
                    (λ s' on' e' h'. process_loop-Holds fuel (λ i. env (suc i)) n s' on' e' h'))
          ]
        ]
      ]

  process_buffer-Holds :
      (env : ℕ → Round) (n : ℕ) (s : Net)
      → s.conn.active ≡ true
      → s.count ≡ n
      → R s.st
      → Holds R n (process_buffer cfg env s)
  unfolding process_buffer
  process_buffer-Holds env n s on e h = process_loop-Holds (suc (length s.conn.buf)) env n s on e h

  pub on_write-Holds :
      (w : Wrote) (env : ℕ → Round) (s : Net)
      → s.conn.active ≡ true
      → R s.st
      → Holds R s.count (on_write cfg w env s)
  unfolding on_write advance
  on_write-Holds again env s on h = (stays on refl, h)
  on_write-Holds broken env s on h = (remove_client-Moved s.count s refl, unfold remove_client in h)
  on_write-Holds (wrote n) env s on h =
      let c = advance n s.conn in
      elim (Bool-cases (c.woff == length c.wbuf)) [
        | inl all ↦ rw all (
            process_buffer-Holds env s.count
              (record s { conn = record c { woff = 0; wbuf = []; writes = false } }) on refl h)
        | inr some_left ↦ rw some_left (stays on refl, h)
      ]

  read_into-Holds :
      (r : Received) (env : ℕ → Round) (s : Net)
      → s.conn.active ≡ true
      → R s.st
      → Holds R s.count (read_into r cfg env s)
  unfolding read_into
  read_into-Holds no_data env s on h = (stays on refl, h)
  read_into-Holds lost env s on h = (remove_client-Moved s.count s refl, unfold remove_client in h)
  read_into-Holds (received bytes) env s on h =
      let got = take (buf_size - length s.conn.buf) bytes in
      let filled = record s.conn { last_active_ms = s.st.aof.now_ms; buf = s.conn.buf ++ got } in
      elim (Bool-cases (length got == 0)) [
        | inl ended ↦ rw ended (remove_client-Moved s.count s refl, unfold remove_client in h)
        | inr some_bytes ↦
            rw some_bytes (process_buffer-Holds env s.count (record s { conn = filled }) on refl h)
      ]

  pub on_read-Holds :
      (r : Received) (env : ℕ → Round) (s : Net)
      → s.conn.active ≡ true
      → R s.st
      → Holds R s.count (on_read cfg r env s)
  unfolding on_read
  on_read-Holds r env s on h = simp on (read_into-Holds r env s on h)
