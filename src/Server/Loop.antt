-- ===== src/Server/Loop.antt =====
-- `before_sleep` and `on_shutdown` of src/server.c, and `el_run` of src/event_loop.c: the whole server,
-- turn by turn.
use bytekv.Prelude.{
  ℕ, ◌+◌, ◌==◌, Bool, true, Option, none, some, List, [], ◌∷◌, if◌then◌else◌, get_or, set, take,
}
use bytekv.Prelude.Int.{ℤ}
use bytekv.Db.{Db}
use bytekv.Aof.Writer.{Config, aof_cron}
use bytekv.Aof.Writer.Rewrite.{CronIo, aof_rewrite_cron}
use bytekv.Command.Handlers.{State}
use bytekv.Networking.{Net, Wrote, Round, Received, on_read, on_write}
use bytekv.Networking.Clients.{Clients, blank, AcceptIo, on_accept, client_timeouts_cron}
use bytekv.EventLoop.{Filter, evfilt_read, evfilt_write}
use bytekv.Server.{
  ExpireConfig, Expired, expired, faulted, waiting, out_of_fuel, active_expire_cron,
}

-- the settings, by the part that reads them
pub record Settings : Type 0 where
  pub aof : Config
  pub expire : ExpireConfig
  pub timeout_s : ℕ
  pub timeout_check_hz : ℕ

-- `server_t`: the store, the log and the clock; the connections; the `static` variable of
-- `client_timeouts_cron`; the flag of the event loop; and the descriptors of the pipe and the listener.
pub record System : Type 0 where
  pub st : State
  pub clients : Clients
  pub last_timeouts_ms : ℕ
  pub cronloops : ℕ
  pub stop : Bool
  pub pipe_fd : ℕ
  pub server_fd : ℕ

-- What `before_sleep` meets: both clocks, what the sweep of expired keys draws and reads, with the fuel
-- of its loop, and the outcomes of the system calls of the log.
pub record SleepIo : Type 0 where
  pub now_ms : ℕ
  pub now_realtime_ms : ℤ
  pub fuel : ℕ
  pub clock : ℕ → ℕ
  pub draws : ℕ → List ℕ
  pub flushed : Bool
  pub cron : CronIo

-- `server.now_ms` and `server.now_realtime_ms`
unfoldable pub set_clocks : SleepIo → State → State
set_clocks io st = record st {
  aof = record st.aof { now_ms = io.now_ms };
  now_realtime_ms = io.now_realtime_ms;
}

-- `before_sleep` behind `active_expire_cron`, which leaves the store
unfoldable pub housekeeping : Settings → SleepIo → System → Db → System
housekeeping cfg io s db =
    let (last, clients) =
      client_timeouts_cron cfg.timeout_s cfg.timeout_check_hz cfg.aof.hz io.now_ms
        s.last_timeouts_ms s.clients in
    let aof = aof_rewrite_cron cfg.aof io.cron (aof_cron cfg.aof io.flushed s.st.aof) in
    record s { st = record s.st { db = db; aof = aof }; clients = clients; last_timeouts_ms = last }

-- the store that the sweep leaves; it leaves none where it reads freed memory, or where the given draws
-- or the fuel run out
abbrev pub expired_db : Expired → Option Db
expired_db (expired db) = some db
expired_db faulted = none
expired_db waiting = none
expired_db out_of_fuel = none

unfoldable pub before_sleep : Settings → SleepIo → System → Option System
unfolding set_clocks housekeeping
before_sleep cfg io s =
    let s' = record s { st = set_clocks io s.st; cronloops = s.cronloops + 1 } in
    let swept =
      active_expire_cron io.fuel cfg.expire io.now_realtime_ms io.clock io.draws io.now_ms
        s.st.db in
    elim (expired_db swept) [ none ↦ none | some db ↦ some (housekeeping cfg io s' db) ]

-- the functions that are registered as handlers
pub data HandlerFn : Type 0 where
  calls_shutdown calls_accept calls_read calls_write : HandlerFn

-- An event that `kevent` gives, and what the system calls of its handler give.
pub record Ready : Type 0 where
  pub fd : ℕ
  pub filter : Filter
  pub received : Received
  pub wrote : Wrote
  pub rounds : ℕ → Round
  pub accept : AcceptIo

-- `el->read_handlers[fd]` and `el->write_handlers[fd]`, which are kept with the connections
unfoldable pub handler_at : Filter → ℕ → System → Option HandlerFn
handler_at evfilt_read fd s =
    if fd == s.pipe_fd
    then some calls_shutdown
    else if fd == s.server_fd
    then some calls_accept
    else if (get_or s.clients.table fd blank).reads
    then some calls_read
    else none
handler_at evfilt_write fd s =
    if (get_or s.clients.table fd blank).writes then some calls_write else none

-- a handler of one connection, on the whole server
unfoldable pub on_conn : ℕ → (Net → Net) → System → System
on_conn fd handler s =
    let net =
      handler
        (record { conn = get_or s.clients.table fd blank; count = s.clients.count; st = s.st }) in
    record s {
      st = net.st;
      clients = record s.clients { table = set s.clients.table fd net.conn; count = net.count };
    }

-- The pipe is read until it is empty.
unfoldable pub on_shutdown : System → System
on_shutdown s = record s { stop = true }

unfoldable pub call_handler : Option HandlerFn → Settings → Ready → System → System
unfolding on_conn on_shutdown
call_handler none cfg e s = s
call_handler (some calls_shutdown) cfg e s = on_shutdown s
call_handler (some calls_accept) cfg e s = record s {
  clients = on_accept s.st.aof.now_ms e.accept s.clients;
}
call_handler (some calls_read) cfg e s = on_conn e.fd (on_read cfg.aof e.received e.rounds) s
call_handler (some calls_write) cfg e s = on_conn e.fd (on_write cfg.aof e.wrote e.rounds) s

-- the body of the `for` loop over the events
unfoldable pub handle_event : Settings → Ready → System → System
unfolding handler_at call_handler
handle_event cfg e s = call_handler (handler_at e.filter e.fd s) cfg e s

unfoldable pub handle_events : Settings → List Ready → System → System
unfolding handle_event
handle_events cfg [] s = s
handle_events cfg (e ∷ es) s = handle_events cfg es (handle_event cfg e s)

-- `MAX_EVENTS`
abbrev pub max_events : ℕ
max_events = 64

-- what `kevent` does: it fails with EINTR, or otherwise, or it gives events
pub data Polled : Type 0 where
  interrupted poll_failed : Polled
  polled : List Ready → Polled

-- what one turn of `el_run` meets
pub record Turn : Type 0 where
  pub sleep : SleepIo
  pub poll : Polled

-- How `el_run` ends: it returns 0, or -1; or, in the model alone, the given turns are over; or
-- `before_sleep` leaves no store.
pub data Ran : Type 0 where
  returned : System → Ran
  failed : System → Ran
  going : System → Ran
  lost : Ran

-- the part of a turn behind `before_sleep`; `rest` is the loop
unfoldable pub poll_turn : (System → Ran) → Settings → Polled → Option System → Ran
unfolding handle_events
poll_turn rest cfg p none = lost
poll_turn rest cfg interrupted (some s) = rest s
poll_turn rest cfg poll_failed (some s) = failed s
poll_turn rest cfg (polled es) (some s) = rest (handle_events cfg (take max_events es) s)

unfoldable pub el_run : Settings → List Turn → System → Ran
unfolding before_sleep poll_turn
el_run cfg [] s = if s.stop then returned s else going s
el_run cfg (t ∷ ts) s =
    if s.stop then returned s else poll_turn (el_run cfg ts) cfg t.poll (before_sleep cfg t.sleep s)
