-- ===== src/Networking/Bounds.antt =====
-- src/networking.c: the buffers of a connection are never overrun.
use bytekv.Prelude.{
  ℕ, zero, suc, ◌+◌, ◌-◌, ◌≤◌, inl, inr, Bool, true, false, Bool-cases, List, [], ◌∷◌, ◌++◌, arith,
  ltb, ◌==◌, length, take, drop, length-append, length-take, length-drop,
}
use bytekv.Prelude.Bytes.{Bytes, slice, be_value}
use bytekv.Aof.{msg_max}
use bytekv.Aof.Writer.{Config}
use bytekv.Networking.{
  frame_hdr_size, buf_size, wbuf_size, Conn, Net, Wrote, wrote, again, broken, removed,
  remove_client, compact, add_write, advance, write_direct, queue_write, send_framed, Round,
  consume, serve, process_loop, process_buffer, on_write, Received, received, no_data, lost,
  read_into, on_read, Event, readable, writable, dispatch_event, run_events,
}

-- what is in the buffers fits them, and what is sent has been queued
abbrev pub IsWithin : Conn → Type 0
IsWithin c = (length c.buf ≤ buf_size) × (c.woff ≤ length c.wbuf) × (length c.wbuf ≤ wbuf_size)

removed-IsWithin : (c : Conn) → IsWithin (removed c)
unfolding removed
removed-IsWithin c = (omega arith, omega arith, omega arith)

pub compact-IsWithin : (n : ℕ) (c : Conn) → IsWithin c → IsWithin (compact n c)
unfolding compact
compact-IsWithin n c (buf, sent, wbuf) = ground (arith, length-drop c.woff c.wbuf)

add_write-IsWithin : (added : Bool) (c : Conn) → IsWithin c → IsWithin (add_write added c)
add_write-IsWithin true c h = h
add_write-IsWithin false c h = h

advance-IsWithin : (n : ℕ) (c : Conn) → IsWithin c → IsWithin (advance n c)
unfolding advance
advance-IsWithin n c (buf, sent, wbuf) =
    (buf, ground (arith, length-take n (drop c.woff c.wbuf), length-drop c.woff c.wbuf), wbuf)

write_direct-IsWithin :
    (w : Wrote) (added : Bool) (s : Net)
    → IsWithin s.conn
    → IsWithin (write_direct w added s).1.conn
unfolding write_direct remove_client
write_direct-IsWithin again added s h = add_write-IsWithin added s.conn h
write_direct-IsWithin broken added s h = removed-IsWithin s.conn
write_direct-IsWithin (wrote n) added s h =
    let c = advance n s.conn in
    let (buf, sent, wbuf) = advance-IsWithin n s.conn h in
    elim (Bool-cases (c.woff == length c.wbuf)) [
      | inl all ↦ rw all (buf, omega arith, omega arith)
      | inr some_left ↦ rw some_left (add_write-IsWithin added c (buf, sent, wbuf))
    ]

pub queue_write-IsWithin :
    (w : Wrote) (added : Bool) (bytes : Bytes) (s : Net)
    → IsWithin s.conn
    → IsWithin (queue_write w added bytes s).1.conn
unfolding queue_write
queue_write-IsWithin w added bytes s h =
    let c = compact (length bytes) s.conn in
    let queued = record c { wbuf = c.wbuf ++ bytes } in
    let (buf, sent, wbuf) = compact-IsWithin (length bytes) s.conn h in
    elim (Bool-cases (ltb wbuf_size (length c.wbuf + length bytes))) [
      | inl full ↦ rw full (buf, sent, wbuf)
      | inr room ↦
          let fits : IsWithin queued = (
            buf,
            omega (arith, length-append c.wbuf bytes),
            ground (arith, length-append c.wbuf bytes, room),
          ) in
          elim (Bool-cases (length c.wbuf == 0)) [
            | inl first ↦
                rw (room, first) (write_direct-IsWithin w added (record s { conn = queued }) fits)
            | inr later ↦ rw (room, later) (add_write-IsWithin added queued fits)
          ]
    ]

pub consume-IsWithin : (n : ℕ) (s : Net) → IsWithin s.conn → IsWithin (consume n s).conn
consume-IsWithin n s (buf, sent, wbuf) = (omega (arith, buf, length-drop n s.conn.buf), sent, wbuf)

process_loop-IsWithin :
    (fuel : ℕ) (cfg : Config) (env : ℕ → Round) (s : Net)
    → IsWithin s.conn
    → IsWithin (process_loop fuel cfg env s).conn
unfolding process_loop serve send_framed remove_client
process_loop-IsWithin zero cfg env s h = h
process_loop-IsWithin (suc fuel) cfg env s h =
    let n = be_value (take frame_hdr_size s.conn.buf) in
    let (ok, s') = serve cfg (env 0) (slice frame_hdr_size n s.conn.buf) s in
    let served : IsWithin s'.conn = queue_write-IsWithin (env 0).wrote (env 0).added _ _ h in
    elim (Bool-cases (ltb (length s.conn.buf) frame_hdr_size)) [
      | inl short ↦ rw short h
      | inr some_header ↦ elim (Bool-cases (ltb msg_max n)) [
        | inl large ↦ rw (some_header, large) (removed-IsWithin s.conn)
        | inr legal ↦ elim (Bool-cases (ltb (length s.conn.buf) (frame_hdr_size + n))) [
          | inl part ↦ rw (some_header, legal, part) h
          | inr whole ↦ elim (Bool-cases ok) [
            | inr full ↦ rw (some_header, legal, whole, full) served
            | inl done ↦
                rw (some_header, legal, whole, done)
                  (process_loop-IsWithin fuel cfg (λ i. env (suc i))
                    (consume (frame_hdr_size + n) s')
                    (consume-IsWithin (frame_hdr_size + n) s' served))
          ]
        ]
      ]
    ]

pub process_buffer-IsWithin :
    (cfg : Config) (env : ℕ → Round) (s : Net)
    → IsWithin s.conn
    → IsWithin (process_buffer cfg env s).conn
unfolding process_buffer
process_buffer-IsWithin cfg env s h = process_loop-IsWithin (suc (length s.conn.buf)) cfg env s h

pub on_write-IsWithin :
    (cfg : Config) (w : Wrote) (env : ℕ → Round) (s : Net)
    → IsWithin s.conn
    → IsWithin (on_write cfg w env s).conn
unfolding on_write remove_client
on_write-IsWithin cfg again env s h = h
on_write-IsWithin cfg broken env s h = removed-IsWithin s.conn
on_write-IsWithin cfg (wrote n) env s h =
    let c = advance n s.conn in
    let (buf, sent, wbuf) = advance-IsWithin n s.conn h in
    elim (Bool-cases (c.woff == length c.wbuf)) [
      | inl all ↦ rw all (
          process_buffer-IsWithin cfg env
            (record s { conn = record c { woff = 0; wbuf = []; writes = false } })
            (buf, omega arith, omega arith))
      | inr some_left ↦ rw some_left (buf, sent, wbuf)
    ]

read_into-IsWithin :
    (cfg : Config) (r : Received) (env : ℕ → Round) (s : Net)
    → IsWithin s.conn
    → IsWithin (read_into r cfg env s).conn
unfolding read_into remove_client
read_into-IsWithin cfg no_data env s h = h
read_into-IsWithin cfg lost env s h = removed-IsWithin s.conn
read_into-IsWithin cfg (received bytes) env s (buf, sent, wbuf) =
    let got = take (buf_size - length s.conn.buf) bytes in
    let filled = record s.conn { last_active_ms = s.st.aof.now_ms; buf = s.conn.buf ++ got } in
    elim (Bool-cases (length got == 0)) [
      | inl ended ↦ rw ended (removed-IsWithin s.conn)
      | inr some_bytes ↦ rw some_bytes (
          process_buffer-IsWithin cfg env (record s { conn = filled })
            (
              omega (
                arith,
                buf,
                length-append s.conn.buf got,
                length-take (buf_size - length s.conn.buf) bytes,
              ),
              sent,
              wbuf,
            ))
    ]

pub on_read-IsWithin :
    (cfg : Config) (r : Received) (env : ℕ → Round) (s : Net)
    → IsWithin s.conn
    → IsWithin (on_read cfg r env s).conn
unfolding on_read
on_read-IsWithin cfg r env s h = elim (Bool-cases s.conn.active) [
  | inl on ↦ simp on (read_into-IsWithin cfg r env s h)
  | inr off ↦ rw off h
]

dispatch_event-IsWithin :
    (cfg : Config) (e : Event) (s : Net) → IsWithin s.conn → IsWithin (dispatch_event cfg e s).conn
unfolding dispatch_event
dispatch_event-IsWithin cfg (readable r env) s h = elim (Bool-cases s.conn.reads) [
  | inl on ↦ simp on (on_read-IsWithin cfg r env s h)
  | inr off ↦ simp off h
]
dispatch_event-IsWithin cfg (writable w env) s h = elim (Bool-cases s.conn.writes) [
  | inl on ↦ simp on (on_write-IsWithin cfg w env s h)
  | inr off ↦ simp off h
]

-- Let the read and the write buffer of a connection be within their sizes, and no more be sent than
-- is queued. Then it is so after any sequence of events, whatever is read, whatever each `write`
-- takes and whatever the commands do.
pub run_events-IsWithin :
    (cfg : Config) (es : List Event) (s : Net)
    → IsWithin s.conn
    → IsWithin (run_events cfg es s).conn
unfolding run_events
run_events-IsWithin cfg [] s h = h
run_events-IsWithin cfg (e ∷ es) s h =
    run_events-IsWithin cfg es (dispatch_event cfg e s) (dispatch_event-IsWithin cfg e s h)
