-- ===== src/EventLoop.antt =====
-- The handler tables of src/event_loop.c.
use bytekv.Prelude.{
  ℕ, ◌/◌, ◌<◌, ◌≡◌, Bool, true, false, not, Option, none, some, List, leb, ◌==◌, if◌then◌else◌,
  length, get_or, set, replicate, arith, get_or-set, get_or-replicate,
}
use bytekv.Prelude.Int.{ℤ, pos, negsuc}
use bytekv.Networking.Clients.{max_fds}

-- `event_loop_t`, where `H` is the type of handlers
pub record EventLoop {ℓ} (H : Type ℓ) : Type ℓ where
  pub read_handlers : List (Option H)
  pub write_handlers : List (Option H)
  pub poll_timeout_ms : ℕ

-- `filter`
pub data Filter : Type 0 where
  evfilt_read evfilt_write : Filter

module _ {ℓ} {H : Type ℓ} where
  -- where `kqueue` succeeds
  unfoldable pub el_init : ℕ → EventLoop H
  el_init hz = record {
    read_handlers = replicate max_fds none;
    write_handlers = replicate max_fds none;
    poll_timeout_ms = 1000 / hz;
  }

  -- `added` is whether `kevent` succeeds; the result is whether the return value is 0.
  unfoldable pub el_add : Bool → ℤ → H → EventLoop H → Bool × EventLoop H
  el_add added (negsuc n) handler el = (false, el)
  el_add added (pos fd) handler el =
      if leb max_fds fd
      then (false, el)
      else if not added
      then (false, el)
      else (true, record el { read_handlers = set el.read_handlers fd (some handler) })

  unfoldable pub el_add_write : Bool → ℤ → H → EventLoop H → Bool × EventLoop H
  el_add_write added (negsuc n) handler el = (false, el)
  el_add_write added (pos fd) handler el =
      if leb max_fds fd
      then (false, el)
      else if not added
      then (false, el)
      else (true, record el { write_handlers = set el.write_handlers fd (some handler) })

  unfoldable pub el_remove : ℤ → EventLoop H → EventLoop H
  el_remove (negsuc n) el = el
  el_remove (pos fd) el = if leb max_fds fd then el else record el {
    read_handlers = set el.read_handlers fd none;
    write_handlers = set el.write_handlers fd none;
  }

  unfoldable pub el_remove_write : ℤ → EventLoop H → EventLoop H
  el_remove_write (negsuc n) el = el
  el_remove_write (pos fd) el =
      if leb max_fds fd then el else record el { write_handlers = set el.write_handlers fd none }

  -- the handler that `el_run` calls for an event
  unfoldable pub handler_of : Filter → ℕ → EventLoop H → Option H
  handler_of evfilt_read fd el = get_or el.read_handlers fd none
  handler_of evfilt_write fd el = get_or el.write_handlers fd none

  -- both tables have a slot for each descriptor
  abbrev pub IsSized : EventLoop H → Type 0
  IsSized el = (length el.read_handlers ≡ max_fds) × (length el.write_handlers ≡ max_fds)

  -- After `el_remove` of a descriptor in range no event of it has a handler, and every other
  -- descriptor has those that it had.
  pub handler_of-el_remove :
      (filter : Filter) (fd other : ℕ) (el : EventLoop H)
      → IsSized el
      → fd < max_fds
      → handler_of filter other (el_remove (pos fd) el)
        ≡ (if fd == other then none else handler_of filter other el)
  unfolding handler_of el_remove
  handler_of-el_remove evfilt_read fd other el (reads, writes) inside =
      let test : leb max_fds fd ≡ false = ground (arith, inside) in
      rw test (get_or-set el.read_handlers fd other none none (ground (arith, reads, inside)))
  handler_of-el_remove evfilt_write fd other el (reads, writes) inside =
      let test : leb max_fds fd ≡ false = ground (arith, inside) in
      rw test (get_or-set el.write_handlers fd other none none (ground (arith, writes, inside)))

  -- A new event loop has no handler.
  pub handler_of-el_init :
      (hz : ℕ) (filter : Filter) (fd : ℕ) → handler_of filter fd (el_init hz) ≡ none
  unfolding handler_of el_init
  handler_of-el_init hz evfilt_read fd = get_or-replicate max_fds fd none
  handler_of-el_init hz evfilt_write fd = get_or-replicate max_fds fd none
