-- ===== src/Server/Conns.antt =====
-- The connections of a server, under each operation on them.
use bytekv.Prelude.{
  ℕ, ◌*◌, ◌/◌, ◌<◌, ◌==◌, ◌≡◌, refl, ◌∙◌, ap, inl, inr, Bool, true, false, Bool-cases, Option, none,
  some, arith, leb, get_or, set, length, length-set, get_or-set, if-both,
}
use bytekv.Aof.Writer.{run_every_ms}
use bytekv.Networking.{Conn, Net, removed}
use bytekv.Networking.Bounds.{IsWithin}
use bytekv.Networking.Clients.{
  Clients, max_fds, blank, AcceptIo, accept_fd, accept_any, on_accept, bit, check_client_timeouts,
  check_client_timeouts-Checked, client_timeouts_cron,
}
use bytekv.Networking.Reachable.{
  IsNew, actives_le, on_accept-IsCounted, check-IsCounted, actives-set, active_inside,
}
use bytekv.Networking.Moved.{Moved, stays, leaves}
use bytekv.Server.Safe.{IsProper, AreSafe}

-- the slot of a descriptor after a handler of it
module _ (fd : ℕ) (s : Clients) (safe : AreSafe s) (c : Conn) (inside : fd < length s.table)
    (proper : IsProper c) where
  set-IsProper : (i : ℕ) → IsProper (get_or (set s.table fd c) i blank)
  set-IsProper i = elim (Bool-cases (fd == i)) [
    | inl this ↦ rw (get_or-set s.table fd i c blank inside, this) proper
    | inr other ↦ rw (get_or-set s.table fd i c blank inside, other) (safe.proper i)
  ]

pub reads_active : (c : Conn) → IsProper c → c.reads ≡ true → c.active ≡ true
reads_active c (within, closed) on = elim (Bool-cases c.active) [
  | inl active ↦ active
  | inr off ↦ ground (arith, on, closed off)
]

pub writes_active : (c : Conn) → IsProper c → c.writes ≡ true → c.active ≡ true
writes_active c (within, closed) on = elim (Bool-cases c.active) [
  | inl active ↦ active
  | inr off ↦ ground (arith, on, closed off)
]

-- Where a handler of an open connection leaves it within its sizes, and keeps the count or closes it and
-- counts it off, the connections are safe.
pub Moved-AreSafe :
    (fd : ℕ) (s : Clients) (n : Net)
    → AreSafe s
    → (get_or s.table fd blank).active ≡ true
    → IsWithin n.conn
    → Moved s.count n
    → AreSafe (record s { table = set s.table fd n.conn; count = n.count })
Moved-AreSafe fd s n safe on within (stays still e) =
    let inside = active_inside s.table fd on in
    let (counted, size) = safe.counted in
    record {
      counted = (
        omega (arith, e, counted, actives-set s.table fd n.conn inside, ap bit on, ap bit still),
        length-set s.table fd n.conn ∙ size,
      );
      proper = set-IsProper fd s safe n.conn inside (within, λ off. ground (arith, still, off));
    }
Moved-AreSafe fd s n safe on within (leaves off no_reads no_writes e) =
    let inside = active_inside s.table fd on in
    let (counted, size) = safe.counted in
    record {
      counted = (
        omega (
          arith,
          e,
          counted,
          actives-set s.table fd n.conn inside,
          ap bit on,
          ap bit off,
          actives_le s.table,
          size,
        ),
        length-set s.table fd n.conn ∙ size,
      );
      proper = set-IsProper fd s safe n.conn inside (within, λ _. (no_reads, no_writes));
    }

removed-IsProper : (c : Conn) → IsProper (removed c)
unfolding removed
removed-IsProper c = ((omega arith, omega arith, omega arith), λ _. (refl, refl))

pub check-AreSafe :
    (timeout_s now_ms : ℕ) (s : Clients)
    → AreSafe s
    → AreSafe (check_client_timeouts timeout_s now_ms s)
check-AreSafe timeout_s now_ms s safe =
    let (counted, size) = safe.counted in
    let (slots, _, _) =
      check_client_timeouts-Checked timeout_s now_ms s counted
        (omega (arith, counted, actives_le s.table, size)) in
    record {
      counted = check-IsCounted timeout_s now_ms s safe.counted;
      proper = λ i. elim (slots i) [
        | inl same ↦ rw same (safe.proper i)
        | inr (on, idle, gone) ↦ rw gone (removed-IsProper _)
      ];
    }

pub client_timeouts_cron-AreSafe :
    (timeout_s check_hz hz now_ms last_ms : ℕ) (s : Clients)
    → AreSafe s
    → AreSafe (client_timeouts_cron timeout_s check_hz hz now_ms last_ms s).1
unfolding client_timeouts_cron
client_timeouts_cron-AreSafe timeout_s check_hz hz now_ms last_ms s safe =
    if-both AreSafe (run_every_ms last_ms now_ms (check_hz * 1000 / hz)).0
      (check-AreSafe timeout_s now_ms s safe) safe

accept_fd-IsProper :
    (now_ms fd : ℕ) (non_blocking added : Bool) (s : Clients)
    → (get_or s.table fd blank).active ≡ false
    → AreSafe s
    → (i : ℕ) → IsProper (get_or (accept_fd now_ms fd non_blocking added s).table i blank)
unfolding accept_fd
accept_fd-IsProper now_ms fd non_blocking added s new safe i =
    let old = get_or s.table fd blank in
    let (within, closed) = safe.proper fd in
    let (no_reads, no_writes) = closed new in
    let fresh = record blank {
      active = true;
      last_active_ms = now_ms;
      reads = true;
      writes = old.writes;
    } in
    let cleared = record blank { reads = old.reads; writes = old.writes } in
    let empty : IsWithin blank = (omega arith, omega arith, omega arith) in
    elim (Bool-cases (leb max_fds fd)) [
      | inl high ↦ rw high (safe.proper i)
      | inr low ↦
          let inside : fd < length s.table = ground (arith, low, safe.counted.1) in
          elim (Bool-cases non_blocking) [
            | inr blocks ↦ simp (low, blocks) (safe.proper i)
            | inl ready ↦ elim (Bool-cases added) [
              | inl on ↦
                  simp (low, ready, on)
                    (set-IsProper fd s safe fresh inside (empty, λ off. ground (arith, off)) i)
              | inr off ↦
                  simp (low, ready, off)
                    (set-IsProper fd s safe cleared inside (empty, λ _. (no_reads, no_writes)) i)
            ]
          ]
    ]

accept_any-AreSafe :
    (now_ms : ℕ) (fd : Option ℕ) (non_blocking added : Bool) (s : Clients)
    → IsNew fd s
    → AreSafe s
    → AreSafe (accept_any fd now_ms non_blocking added s)
accept_any-AreSafe now_ms none non_blocking added s new safe = safe
accept_any-AreSafe now_ms (some fd) non_blocking added s new safe = record {
  counted = on_accept-IsCounted now_ms (some fd) non_blocking added s new safe.counted;
  proper = accept_fd-IsProper now_ms fd non_blocking added s new safe;
}

pub on_accept-AreSafe :
    (now_ms : ℕ) (io : AcceptIo) (s : Clients)
    → IsNew io.fd s
    → AreSafe s
    → AreSafe (on_accept now_ms io s)
unfolding on_accept
on_accept-AreSafe now_ms io s new safe =
    accept_any-AreSafe now_ms io.fd io.non_blocking io.added s new safe
