-- ===== src/Networking.antt =====
-- src/networking.h and src/networking.c: one connection, and what its handlers do to it.
pub mod Bounds
pub mod Frames
pub mod Stream
pub mod Served
pub mod Live
pub mod Clients
pub mod Reachable
pub mod Moved
use bytekv.Prelude.{
  ℕ, zero, suc, ◌+◌, ◌-◌, ◌*◌, ◌^◌, ◌%◌, Bool, true, false, not, ◌&&◌, List, [], ◌∷◌, ◌++◌, ltb,
  ◌==◌, if◌then◌else◌, length, take, drop,
}
use bytekv.Prelude.Bytes.{Bytes, slice, be, be_value}
use bytekv.Aof.{msg_max}
use bytekv.Aof.Writer.{Config}
use bytekv.Command.Reply.{RespBuf}
use bytekv.Command.Handlers.{State, Io}
use bytekv.Command.Execute.{command_execute}

-- `FRAME_HDR_SIZE`
abbrev pub frame_hdr_size : ℕ
frame_hdr_size = 4

-- `sizeof(c->buf)`
abbrev pub buf_size : ℕ
buf_size = msg_max + frame_hdr_size

-- `WBUF_SIZE`
abbrev pub wbuf_size : ℕ
wbuf_size = (msg_max + frame_hdr_size) * 2

-- `client_t`, with the slots of the descriptor in the two handler tables of the event loop, and every
-- byte that the socket has taken. `buf` and `wbuf` hold the first `len` and `wlen` bytes.
pub record Conn : Type 0 where
  pub active : Bool
  pub last_active_ms : ℕ
  pub buf : Bytes
  pub wbuf : Bytes
  pub woff : ℕ
  pub reads : Bool
  pub writes : Bool
  pub sent : Bytes

-- the connection, `server.clients_count`, and the rest of the server
pub record Net : Type 0 where
  pub conn : Conn
  pub count : ℕ
  pub st : State

-- What `write` does: it takes up to so many of the bytes it is given, and returns how many; or fails
-- with EAGAIN, EWOULDBLOCK or EINTR; or otherwise.
pub data Wrote : Type 0 where
  wrote : ℕ → Wrote
  again broken : Wrote

-- what `remove_client` leaves of the connection
unfoldable pub removed : Conn → Conn
removed c = record {
  active = false;
  last_active_ms = 0;
  buf = [];
  wbuf = [];
  woff = 0;
  reads = false;
  writes = false;
  sent = c.sent;
}

-- `n--` on a `size_t`
abbrev pub decrement : ℕ → ℕ
decrement n = (n + (2 ^ 64 - 1)) % 2 ^ 64

unfoldable pub remove_client : Net → Net
unfolding removed
remove_client s = record s { conn = removed s.conn; count = decrement s.count }

-- `memmove` of the bytes that are not sent yet, where there is no room otherwise
unfoldable pub compact : ℕ → Conn → Conn
compact len c =
    if ltb wbuf_size (length c.wbuf + len) && ltb 0 c.woff
    then record c { wbuf = drop c.woff c.wbuf; woff = 0 }
    else c

-- `el_add_write(el, fd, on_write)`, where `added` is whether `kevent` succeeds
abbrev pub add_write : Bool → Conn → Conn
add_write true c = record c { writes = true }
add_write false c = c

-- `write` of the bytes that are not sent yet, which takes up to `n` of them, and `woff += n`
unfoldable pub advance : ℕ → Conn → Conn
advance n c =
    let taken = take n (drop c.woff c.wbuf) in
    record c { sent = c.sent ++ taken; woff = c.woff + length taken }

-- the part of `queue_write` from the direct write on
unfoldable pub write_direct : Wrote → Bool → Net → Bool × Net
unfolding remove_client advance
write_direct (wrote n) added s =
    let c = advance n s.conn in
    if c.woff == length c.wbuf
    then (true, record s { conn = record c { woff = 0; wbuf = [] } })
    else (true, record s { conn = add_write added c })
write_direct again added s = (true, record s { conn = add_write added s.conn })
write_direct broken added s = (false, remove_client s)

unfoldable pub queue_write : Wrote → Bool → Bytes → Net → Bool × Net
unfolding compact write_direct
queue_write w added bytes s =
    let c = compact (length bytes) s.conn in
    let queued = record c { wbuf = c.wbuf ++ bytes } in
    if ltb wbuf_size (length c.wbuf + length bytes)
    then (false, record s { conn = c })
    else if length c.wbuf == 0
    then write_direct w added (record s { conn = queued })
    else (true, record s { conn = add_write added queued })

-- a payload with its length before it
abbrev pub frame : Bytes → Bytes
frame payload = be frame_hdr_size (length payload) ++ payload

unfoldable pub send_framed : Wrote → Bool → Bytes → Net → Bool × Net
unfolding queue_write
send_framed w added payload s = queue_write w added (frame payload) s

-- what the system does while one command runs and its reply is queued
pub record Round : Type 0 where
  pub io : Io
  pub wrote : Wrote
  pub added : Bool

-- the round behind the reply: `memmove`, and the new `len`
abbrev pub consume : ℕ → Net → Net
consume n s = record s { conn = record s.conn { buf = drop n s.conn.buf } }

-- `command_execute` on a payload, and its reply to the client
unfoldable pub serve : Config → Round → Bytes → Net → Bool × Net
unfolding send_framed
serve cfg r payload s =
    let (st, resp) = command_execute cfg r.io payload msg_max s.st in
    send_framed r.wrote r.added resp.out (record s { st = st })

-- the `while` loop of `process_buffer`, a round for each unit of fuel
unfoldable pub process_loop : ℕ → Config → (ℕ → Round) → Net → Net
unfolding remove_client serve
process_loop zero cfg env s = s
process_loop (suc fuel) cfg env s =
    let payload_len = be_value (take frame_hdr_size s.conn.buf) in
    let (ok, s') = serve cfg (env 0) (slice frame_hdr_size payload_len s.conn.buf) s in
    let rest =
      process_loop fuel cfg (λ i. env (suc i)) (consume (frame_hdr_size + payload_len) s') in
    if ltb (length s.conn.buf) frame_hdr_size
    then s
    else if ltb msg_max payload_len
    then remove_client s
    else if ltb (length s.conn.buf) (frame_hdr_size + payload_len)
    then s
    else if not ok
    then s'
    else rest

-- each round but the last takes four bytes or more
unfoldable pub process_buffer : Config → (ℕ → Round) → Net → Net
unfolding process_loop
process_buffer cfg env s = process_loop (suc (length s.conn.buf)) cfg env s

unfoldable pub on_write : Config → Wrote → (ℕ → Round) → Net → Net
unfolding remove_client process_buffer advance
on_write cfg again env s = s
on_write cfg broken env s = remove_client s
on_write cfg (wrote n) env s =
    let c = advance n s.conn in
    if c.woff == length c.wbuf
    then process_buffer cfg env
        (record s { conn = record c { woff = 0; wbuf = []; writes = false } })
    else record s { conn = c }

-- What `read` does: it gives the bytes that have come, as many as there is room for, and 0 is returned
-- at the end of the stream or where there is no room; or it fails with EAGAIN, EWOULDBLOCK or EINTR;
-- or otherwise.
pub data Received : Type 0 where
  received : Bytes → Received
  no_data lost : Received

-- the part of `on_read` from the call of `read` on
unfoldable pub read_into : Received → Config → (ℕ → Round) → Net → Net
unfolding remove_client process_buffer
read_into no_data cfg env s = s
read_into lost cfg env s = remove_client s
read_into (received bytes) cfg env s =
    let got = take (buf_size - length s.conn.buf) bytes in
    let filled = record s.conn { last_active_ms = s.st.aof.now_ms; buf = s.conn.buf ++ got } in
    if length got == 0 then remove_client s else process_buffer cfg env (record s { conn = filled })

unfoldable pub on_read : Config → Received → (ℕ → Round) → Net → Net
unfolding read_into
on_read cfg r env s = if not s.conn.active then s else read_into r cfg env s

-- what `el_run` of src/event_loop.c does with one event of the connection
pub data Event : Type 0 where
  readable : Received → (ℕ → Round) → Event
  writable : Wrote → (ℕ → Round) → Event

unfoldable pub dispatch_event : Config → Event → Net → Net
unfolding on_read on_write
dispatch_event cfg (readable r env) s = if s.conn.reads then on_read cfg r env s else s
dispatch_event cfg (writable w env) s = if s.conn.writes then on_write cfg w env s else s

-- a connection after some events
unfoldable pub run_events : Config → List Event → Net → Net
unfolding dispatch_event
run_events cfg [] s = s
run_events cfg (e ∷ es) s = run_events cfg es (dispatch_event cfg e s)
