-- ===== src/Server/Turns.antt =====
-- `el_run` of src/event_loop.c with the handlers of the server: the invariant over whole runs, and the end
-- at a signal.
use bytekv.Prelude.{
  ℕ, zero, suc, ◌==◌, ◌≡◌, refl, ◌∙◌, sym, ap, ◌⊎◌, inl, inr, Bool, true, false, Bool-cases, Option,
  none, some, List, [], ◌∷◌, arith, get_or, get_elem?, take,
}
use bytekv.Networking.{Net, on_read, on_write}
use bytekv.Networking.Bounds.{IsWithin, on_read-IsWithin, on_write-IsWithin}
use bytekv.Networking.Clients.{blank}
use bytekv.Networking.Reachable.{IsNew}
use bytekv.Networking.Moved.{Moved, on_read-Holds, on_write-Holds}
use bytekv.EventLoop.{Filter, evfilt_read, evfilt_write}
use bytekv.Server.Loop.{
  Settings, System, before_sleep, on_conn, on_shutdown, HandlerFn, calls_shutdown, calls_accept,
  calls_read, calls_write, Ready, handler_at, call_handler, handle_event, handle_events, max_events,
  Polled, interrupted, poll_failed, polled, Turn, Ran, returned, failed, going, lost, poll_turn,
  el_run,
}
use bytekv.Server.Safe.{IsSafe, StSafe, command_execute-StSafe}
use bytekv.Server.Conns.{reads_active, writes_active, Moved-AreSafe, on_accept-AreSafe}
use bytekv.Server.Run.{Woken, woken, before_sleep-Woken}

-- the connection of a descriptor, as its handlers see it
abbrev net_of : ℕ → System → Net
net_of fd s = record { conn = get_or s.clients.table fd blank; count = s.clients.count; st = s.st }

on_conn-IsSafe :
    (fd : ℕ) (handler : Net → Net) (s : System)
    → IsSafe s
    → (get_or s.clients.table fd blank).active ≡ true
    → IsWithin (handler (net_of fd s)).conn
    → Moved s.clients.count (handler (net_of fd s))
    → StSafe (handler (net_of fd s)).st
    → IsSafe (on_conn fd handler s)
unfolding on_conn
on_conn-IsSafe fd handler s safe on within moved (valid, sound) = record {
  db = valid;
  log = sound;
  clients = Moved-AreSafe fd s.clients (handler (net_of fd s)) safe.clients on within moved;
}

module _ (cfg : Settings) (e : Ready) (s : System) (safe : IsSafe s) where
  read_IsSafe :
      (get_or s.clients.table e.fd blank).reads ≡ true
      → IsSafe (call_handler (some calls_read) cfg e s)
  unfolding call_handler
  read_IsSafe on =
      let (within, closed) = safe.clients.proper e.fd in
      let active = reads_active (get_or s.clients.table e.fd blank) (within, closed) on in
      let (moved, kept) =
        on_read-Holds cfg.aof StSafe (command_execute-StSafe cfg.aof) e.received e.rounds
          (net_of e.fd s) active (safe.db, safe.log) in
      on_conn-IsSafe e.fd (on_read cfg.aof e.received e.rounds) s safe active
        (on_read-IsWithin cfg.aof e.received e.rounds (net_of e.fd s) within) moved kept

  write_IsSafe :
      (get_or s.clients.table e.fd blank).writes ≡ true
      → IsSafe (call_handler (some calls_write) cfg e s)
  unfolding call_handler
  write_IsSafe on =
      let (within, closed) = safe.clients.proper e.fd in
      let active = writes_active (get_or s.clients.table e.fd blank) (within, closed) on in
      let (moved, kept) =
        on_write-Holds cfg.aof StSafe (command_execute-StSafe cfg.aof) e.wrote e.rounds
          (net_of e.fd s) active (safe.db, safe.log) in
      on_conn-IsSafe e.fd (on_write cfg.aof e.wrote e.rounds) s safe active
        (on_write-IsWithin cfg.aof e.wrote e.rounds (net_of e.fd s) within) moved kept

-- `accept` gives a descriptor that is not one of an open connection
abbrev pub NewFd : Ready → System → Type 0
NewFd e s = handler_at e.filter e.fd s ≡ some calls_accept → IsNew e.accept.fd s.clients

-- the handler that is called is registered for the connection
handler_IsSafe :
    (cfg : Settings) (e : Ready) (filter : Filter) (s : System)
    → IsSafe s
    → (handler_at filter e.fd s ≡ some calls_accept → IsNew e.accept.fd s.clients)
    → IsSafe (call_handler (handler_at filter e.fd s) cfg e s)
unfolding handler_at
handler_IsSafe cfg e evfilt_read s safe new = elim (Bool-cases (e.fd == s.pipe_fd)) [
  | inl pipe ↦ rw pipe (
      unfold call_handler on_shutdown in
      record { db = safe.db; log = safe.log; clients = safe.clients })
  | inr socket ↦ elim (Bool-cases (e.fd == s.server_fd)) [
    | inl listener ↦
        rw (socket, listener)
          (unfold call_handler in
            record {
              db = safe.db;
              log = safe.log;
              clients =
                  on_accept-AreSafe s.st.aof.now_ms e.accept s.clients
                    (new (rw (socket, listener) refl)) safe.clients;
            })
    | inr other ↦ elim (Bool-cases (get_or s.clients.table e.fd blank).reads) [
      | inl on ↦ rw (socket, other, on) (read_IsSafe cfg e s safe on)
      | inr off ↦ rw (socket, other, off) (unfold call_handler in safe)
    ]
  ]
]
handler_IsSafe cfg e evfilt_write s safe new =
    elim (Bool-cases (get_or s.clients.table e.fd blank).writes) [
      | inl on ↦ rw on (write_IsSafe cfg e s safe on)
      | inr off ↦ rw off (unfold call_handler in safe)
    ]

handle_event-IsSafe :
    (cfg : Settings) (e : Ready) (s : System) → IsSafe s → NewFd e s → IsSafe (handle_event cfg e s)
unfolding handle_event
handle_event-IsSafe cfg e s safe new = handler_IsSafe cfg e e.filter s safe new

-- every descriptor that is accepted is new
unfoldable pub AllNew : Settings → List Ready → System → Type 0
AllNew cfg [] s = Unit {0}
AllNew cfg (e ∷ es) s = NewFd e s × AllNew cfg es (handle_event cfg e s)

handle_events-IsSafe :
    (cfg : Settings) (es : List Ready) (s : System)
    → IsSafe s
    → AllNew cfg es s
    → IsSafe (handle_events cfg es s)
unfolding handle_events AllNew
handle_events-IsSafe cfg [] s safe new = safe
handle_events-IsSafe cfg (e ∷ es) s safe (new, later) =
    handle_events-IsSafe cfg es (handle_event cfg e s) (handle_event-IsSafe cfg e s safe new) later

-- the same in a turn behind `before_sleep`; `rest` is what the later turns ask for
unfoldable pub NewIn : (System → Type 0) → Settings → Polled → Option System → Type 0
unfolding AllNew
NewIn rest cfg p none = Unit {0}
NewIn rest cfg interrupted (some s) = rest s
NewIn rest cfg poll_failed (some s) = Unit {0}
NewIn rest cfg (polled es) (some s) =
    AllNew cfg (take max_events es) s × rest (handle_events cfg (take max_events es) s)

unfoldable pub NewThroughout : Settings → List Turn → System → Type 0
unfolding NewIn
NewThroughout cfg [] s = Unit {0}
NewThroughout cfg (t ∷ ts) s = NewIn (NewThroughout cfg ts) cfg t.poll (before_sleep cfg t.sleep s)

-- How a run ends: with a safe server, stopped where 0 is returned; or with no store.
pub data EndsSafe : Ran → Type 0 where
  ends_stopped : {s : System} → IsSafe s → s.stop ≡ true → EndsSafe (returned s)
  ends_failed : {s : System} → IsSafe s → EndsSafe (failed s)
  goes_on : {s : System} → IsSafe s → s.stop ≡ false → EndsSafe (going s)
  ends_lost : EndsSafe lost

poll_turn-EndsSafe :
    (rest : System → Ran) (cfg : Settings) (ask : System → Type 0) (p : Polled) (stop : Bool)
    (o : Option System)
    → ((s : System) → IsSafe s → ask s → EndsSafe (rest s))
    → Woken stop o
    → NewIn ask cfg p o
    → EndsSafe (poll_turn rest cfg p o)
unfolding poll_turn NewIn
poll_turn-EndsSafe rest cfg ask p stop none next w new = ends_lost
poll_turn-EndsSafe rest cfg ask interrupted stop (some s) next (woken safe e) new = next s safe new
poll_turn-EndsSafe rest cfg ask poll_failed stop (some s) next (woken safe e) new = ends_failed safe
poll_turn-EndsSafe rest cfg ask (polled es) stop (some s) next (woken safe e) (new, later) =
    next _ (handle_events-IsSafe cfg (take max_events es) s safe new) later

-- Let a server be safe: its store satisfies the invariant, the diff buffer is there exactly while a
-- rewrite is active and within its capacity, `clients_count` is the number of connections in use, all
-- buffers are within their sizes, and only connections in use have handlers. Then, whatever commands,
-- events, times and outcomes of system calls come, as long as `accept` gives descriptors that are not in
-- use, the server is safe when `el_run` returns 0, which it does with the flag `stop` set, when it
-- returns -1, and after any number of turns, unless the sweep of expired keys leaves no store.
pub el_run-EndsSafe :
    (cfg : Settings) (ts : List Turn) (s : System)
    → IsSafe s
    → NewThroughout cfg ts s
    → EndsSafe (el_run cfg ts s)
unfolding el_run NewThroughout
el_run-EndsSafe cfg [] s safe new = elim (Bool-cases s.stop) [
  | inl stop ↦ simp stop (ends_stopped safe stop)
  | inr go ↦ simp go (goes_on safe go)
]
el_run-EndsSafe cfg (t ∷ ts) s safe new = elim (Bool-cases s.stop) [
  | inl stop ↦ simp stop (ends_stopped safe stop)
  | inr go ↦ simp go (
      poll_turn-EndsSafe (el_run cfg ts) cfg (NewThroughout cfg ts) t.poll s.stop
        (before_sleep cfg t.sleep s) (λ s' safe' new'. el_run-EndsSafe cfg ts s' safe' new')
        (before_sleep-Woken cfg t.sleep s safe) new)
]

-- The event is the pipe's, which a signal has written to.
abbrev pub IsSignal : Ready → System → Type 0
IsSignal e s = (e.filter ≡ evfilt_read) × (e.fd ≡ s.pipe_fd)

-- A handler sets the flag or leaves it, and leaves the descriptor of the pipe.
call_handler_flag :
    (h : Option HandlerFn) (cfg : Settings) (e : Ready) (s : System)
    → let s' = call_handler h cfg e s in
      ((s'.stop ≡ s.stop) ⊎ (s'.stop ≡ true)) × (s'.pipe_fd ≡ s.pipe_fd)
unfolding call_handler on_conn on_shutdown
call_handler_flag none cfg e s = (inl refl, refl)
call_handler_flag (some calls_shutdown) cfg e s = (inr refl, refl)
call_handler_flag (some calls_accept) cfg e s = (inl refl, refl)
call_handler_flag (some calls_read) cfg e s = (inl refl, refl)
call_handler_flag (some calls_write) cfg e s = (inl refl, refl)

handle_events_stop :
    (cfg : Settings) (es : List Ready) (s : System)
    → s.stop ≡ true
    → (handle_events cfg es s).stop ≡ true
unfolding handle_events handle_event
handle_events_stop cfg [] s stop = stop
handle_events_stop cfg (e ∷ es) s stop =
    let (flag, _) = call_handler_flag (handler_at e.filter e.fd s) cfg e s in
    handle_events_stop cfg es (handle_event cfg e s) (ground (arith, flag, stop))

signal_stop :
    (cfg : Settings) (e : Ready) (s : System) → IsSignal e s → (handle_event cfg e s).stop ≡ true
unfolding handle_event handler_at call_handler on_shutdown
signal_stop cfg e s (filter, fd) =
    let this : (e.fd == s.pipe_fd) ≡ true = ground arith in
    let shutdown : handler_at e.filter e.fd s ≡ some calls_shutdown = rw (filter, this) refl in
    rw shutdown refl

Event-IsSignal : (e x : Ready) (s : System) → x ≡ e → IsSignal e s → IsSignal x s
Event-IsSignal e x s same (filter, fd) =
    (ap (λ (y : Ready). y.filter) same ∙ filter, ap (λ (y : Ready). y.fd) same ∙ fd)

handle_events-IsSignal :
    (cfg : Settings) (es : List Ready) (i : ℕ) (e : Ready) (s : System)
    → get_elem? es i ≡ some e
    → IsSignal e s
    → (handle_events cfg es s).stop ≡ true
unfolding handle_events
handle_events-IsSignal cfg [] i e s here signal = ground (arith, here)
handle_events-IsSignal cfg (x ∷ es) zero e s here signal =
    handle_events_stop cfg es (handle_event cfg x s)
      (signal_stop cfg x s (Event-IsSignal e x s (ground (arith, here)) signal))
handle_events-IsSignal cfg (x ∷ es) (suc i) e s here (filter, fd) =
    let (_, pipe) = call_handler_flag (handler_at x.filter x.fd s) cfg x s in
    handle_events-IsSignal cfg es i e (handle_event cfg x s) here (filter, fd ∙ sym pipe)

stopped_run :
    (cfg : Settings) (ts : List Turn) (s : System) → s.stop ≡ true → el_run cfg ts s ≡ returned s
unfolding el_run
stopped_run cfg [] s stop = rw stop refl
stopped_run cfg (t ∷ ts) s stop = rw stop refl

-- Let a server that is not stopped have its housekeeping done, and let a signal's byte be among the
-- events that `kevent` then gives, in any place of the first `MAX_EVENTS`. Then `el_run` handles
-- the events of that turn and returns 0, whatever would come later.
pub el_run-IsSignal :
    (cfg : Settings) (t : Turn) (ts : List Turn) (s s' : System) (es : List Ready) (i : ℕ)
    (e : Ready)
    → s.stop ≡ false
    → before_sleep cfg t.sleep s ≡ some s'
    → t.poll ≡ polled es
    → get_elem? (take max_events es) i ≡ some e
    → IsSignal e s'
    → el_run cfg (t ∷ ts) s ≡ returned (handle_events cfg (take max_events es) s')
unfolding el_run poll_turn
el_run-IsSignal cfg t ts s s' es i e go slept events here signal =
    simp (go, slept, events)
      (stopped_run cfg ts (handle_events cfg (take max_events es) s')
        (handle_events-IsSignal cfg (take max_events es) i e s' here signal))
