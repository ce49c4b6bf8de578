-- ===== src/Networking/Clients.antt =====
-- `on_accept` and the timeouts of src/networking.c: the table of connections and its count.
use bytekv.Prelude.{
  ℕ, zero, suc, ◌+◌, ◌*◌, ◌/◌, ◌%◌, ◌^◌, ◌≤◌, ◌<◌, ◌≡◌, refl, ◌⊎◌, inl, inr, Bool, true, false,
  Bool-cases, not, ◌&&◌, Option, none, some, List, [], ◌∷◌, arith, ltb, leb, if◌then◌else◌, get_or,
  set,
}
use bytekv.Prelude.Int.{pos, ◌-ℤ◌, quot_ℤ, ltb_ℤ}
use bytekv.Aof.Writer.{run_every_ms}
use bytekv.Networking.{Conn, removed, decrement}

-- `MAX_FDS`
abbrev pub max_fds : ℕ
max_fds = 1024

-- `server.clients`, by descriptor, with the handlers of each, and `server.clients_count`
pub record Clients : Type 0 where
  pub table : List Conn
  pub count : ℕ

-- an empty slot
abbrev pub blank : Conn
blank = record {
  active = false;
  last_active_ms = 0;
  buf = [];
  wbuf = [];
  woff = 0;
  reads = false;
  writes = false;
  sent = [];
}

-- The outcomes of `accept`, of `set_non_blocking` and of `kevent` in `el_add`.
pub record AcceptIo : Type 0 where
  pub fd : Option ℕ
  pub non_blocking : Bool
  pub added : Bool

-- the part of `on_accept` behind `accept`
unfoldable pub accept_fd : ℕ → ℕ → Bool → Bool → Clients → Clients
accept_fd now_ms fd non_blocking added s =
    let old = get_or s.table fd blank in
    let fresh = record blank {
      active = true;
      last_active_ms = now_ms;
      reads = true;
      writes = old.writes;
    } in
    let cleared = record blank { reads = old.reads; writes = old.writes } in
    if leb max_fds fd
    then s
    else if not non_blocking
    then s
    else if added
    then record s { table = set s.table fd fresh; count = (s.count + 1) % 2 ^ 64 }
    else record s { table = set s.table fd cleared; count = decrement ((s.count + 1) % 2 ^ 64) }

abbrev pub accept_any : Option ℕ → ℕ → Bool → Bool → Clients → Clients
accept_any none now_ms non_blocking added s = s
accept_any (some fd) now_ms non_blocking added s = accept_fd now_ms fd non_blocking added s

unfoldable pub on_accept : ℕ → AcceptIo → Clients → Clients
unfolding accept_fd
on_accept now_ms io s = accept_any io.fd now_ms io.non_blocking io.added s

-- `idle_s >= server.config.client_timeout_s`
unfoldable pub is_idle : ℕ → ℕ → Conn → Bool
is_idle timeout_s now_ms c =
    not (ltb_ℤ (quot_ℤ (pos now_ms -ℤ pos c.last_active_ms) 1000) (pos timeout_s))

-- the `for` loop of `check_client_timeouts`, over the slots that are left
unfoldable pub timeouts_loop : ℕ → ℕ → ℕ → ℕ → List Conn → List Conn × ℕ
unfolding is_idle removed
timeouts_loop timeout_s now_ms found count [] = ([], count)
timeouts_loop timeout_s now_ms found count (c ∷ cs) =
    let timed_out = c.active && is_idle timeout_s now_ms c in
    let found' = if c.active then found + 1 else found in
    let count' = if timed_out then decrement count else count in
    let (rest, left) = timeouts_loop timeout_s now_ms found' count' cs in
    if not (ltb found count)
    then (c ∷ cs, count)
    else ((if timed_out then removed c else c) ∷ rest, left)

unfoldable pub check_client_timeouts : ℕ → ℕ → Clients → Clients
unfolding timeouts_loop
check_client_timeouts timeout_s now_ms s =
    let (table, count) = timeouts_loop timeout_s now_ms 0 s.count s.table in
    record s { table = table; count = count }

-- `last_ms` is the `static` variable; the result has its new value.
unfoldable pub client_timeouts_cron : ℕ → ℕ → ℕ → ℕ → ℕ → Clients → ℕ × Clients
unfolding check_client_timeouts run_every_ms
client_timeouts_cron timeout_s check_hz hz now_ms last_ms s =
    let (fires, last) = run_every_ms last_ms now_ms (check_hz * 1000 / hz) in
    (last, if fires then check_client_timeouts timeout_s now_ms s else s)

abbrev pub bit : Bool → ℕ
bit true = 1
bit false = 0

-- the number of connections in use
abbrev pub actives : List Conn → ℕ
actives [] = 0
actives (c ∷ cs) = bit c.active + actives cs

-- one slot before and after a check
abbrev pub Checked : ℕ → ℕ → Conn → Conn → Type 0
Checked timeout_s now_ms c c' =
    (c' ≡ c) ⊎ ((c.active ≡ true) × (is_idle timeout_s now_ms c ≡ true) × (c' ≡ removed c))

pub bit_le : (b : Bool) → bit b ≤ 1
bit_le true = omega arith
bit_le false = omega arith

module _ (timeout_s now_ms : ℕ) where
  -- what one slot adds to the numbers of connections, before and after its round
  one_slot :
      (c : Conn) (others count : ℕ)
      → bit c.active + others ≤ count
      → count < 2 ^ 64
      → (let timed_out = c.active && is_idle timeout_s now_ms c in
          (bit (if timed_out then removed c else c).active + bit timed_out ≡ bit c.active)
          × ((if timed_out then decrement count else count) + bit timed_out ≡ count))
  unfolding removed
  one_slot c others count le small = elim (Bool-cases c.active) [
    | inr off ↦ ground (arith, off)
    | inl on ↦ elim (Bool-cases (is_idle timeout_s now_ms c)) [
      | inr busy ↦ ground (arith, on, busy)
      | inl idle ↦ ground (arith, on, idle)
    ]
  ]

  loop-Checked :
      (cs : List Conn) (found count i : ℕ)
      → Checked timeout_s now_ms
          (get_or cs i blank)
          (get_or (timeouts_loop timeout_s now_ms found count cs).0 i blank)
  unfolding timeouts_loop
  loop-Checked [] found count i = inl refl
  loop-Checked (c ∷ cs) found count (suc i) = elim (Bool-cases (ltb found count)) [
    | inr stop ↦ rw stop (inl refl)
    | inl go ↦ rw go (loop-Checked cs _ _ i)
  ]
  loop-Checked (c ∷ cs) found count zero = elim (Bool-cases (ltb found count)) [
    | inr stop ↦ rw stop (inl refl)
    | inl go ↦ elim (Bool-cases (c.active && is_idle timeout_s now_ms c)) [
      | inr stays ↦ rw (go, stays) (inl refl)
      | inl timed_out ↦
          inr (ground (arith, timed_out), ground (arith, timed_out), rw (go, timed_out) refl)
    ]
  ]

  -- the count goes down by the connections that are removed
  loop-count :
      (cs : List Conn) (found count : ℕ)
      → actives cs ≤ count
      → count < 2 ^ 64
      → (let (cs', left) = timeouts_loop timeout_s now_ms found count cs in
          left + actives cs ≡ count + actives cs')
  unfolding timeouts_loop
  loop-count [] found count le small = refl
  loop-count (c ∷ cs) found count le small =
      let timed_out = c.active && is_idle timeout_s now_ms c in
      let found' = if c.active then found + 1 else found in
      let count' = if timed_out then decrement count else count in
      let (counted, fewer) = one_slot c (actives cs) count le small in
      elim (Bool-cases (ltb found count)) [
        | inr stop ↦ rw stop refl
        | inl go ↦ rw go (
            omega (
              arith,
              loop-count cs found' count' (omega (arith, le, counted, fewer))
                  (omega (arith, small, fewer)),
              counted,
              fewer,
            ))
      ]

  -- The count goes down while the number of connections that were looked at goes up, so that the
  -- loop stops halfway at the latest.
  loop-half :
      (cs : List Conn) (found count : ℕ)
      → actives cs ≤ count
      → count < 2 ^ 64
      → found ≤ count + 1
      → found + count ≤ 2 * (timeouts_loop timeout_s now_ms found count cs).1 + 1
  unfolding timeouts_loop
  loop-half [] found count le small late = omega arith
  loop-half (c ∷ cs) found count le small late =
      let timed_out = c.active && is_idle timeout_s now_ms c in
      let found' = if c.active then found + 1 else found in
      let count' = if timed_out then decrement count else count in
      let (counted, fewer) = one_slot c (actives cs) count le small in
      let found_e : found' ≡ found + bit c.active = ground arith in
      elim (Bool-cases (ltb found count)) [
        | inr stop ↦ rw stop (omega (arith, late))
        | inl go ↦
            let more : found < count = ground (arith, go) in
            rw go (
              omega (
                arith,
                loop-half cs found' count' (omega (arith, le, counted, fewer))
                    (omega (arith, small, fewer))
                    (omega (arith, found_e, counted, fewer, more, bit_le c.active)),
                found_e,
                counted,
                fewer,
              ))
      ]

  -- Let the count, below 2 ^ 64, be the number of connections in use. After a check of the timeouts
  -- each slot is as it was, or was in use and idle for too long and is empty; the count is again
  -- the number of connections in use; and it is not less than half of what it was.
  pub check_client_timeouts-Checked :
      (s : Clients)
      → s.count ≡ actives s.table
      → s.count < 2 ^ 64
      → let s' = check_client_timeouts timeout_s now_ms s in
        ((i : ℕ) → Checked timeout_s now_ms (get_or s.table i blank) (get_or s'.table i blank))
        × (s'.count ≡ actives s'.table)
        × (s.count / 2 ≤ s'.count)
  unfolding check_client_timeouts
  check_client_timeouts-Checked s counted small = (
    λ i. loop-Checked s.table 0 s.count i,
    omega (arith, loop-count s.table 0 s.count (omega (arith, counted)) small, counted),
    omega (arith, loop-half s.table 0 s.count (omega (arith, counted)) small (omega arith)),
  )
