-- ===== src/Networking/Reachable.antt =====
-- `server.clients` and `server.clients_count` of src/networking.c, from the start on.
use bytekv.Prelude.{
  ℕ, zero, suc, ◌+◌, ◌≤◌, ◌<◌, ◌≡◌, refl, ◌∙◌, sym, ap, inl, inr, Bool, true, false, Bool-cases,
  Option, none, some, List, [], ◌∷◌, arith, ltb, leb, length, get_or, set, replicate,
  length-replicate, length-set,
}
use bytekv.Networking.{Conn, removed, decrement}
use bytekv.Networking.Clients.{
  Clients, max_fds, blank, AcceptIo, accept_fd, accept_any, on_accept, timeouts_loop,
  check_client_timeouts, check_client_timeouts-Checked, bit, actives, bit_le,
}

-- `remove_client`, on the whole table
unfoldable pub drop_client : ℕ → Clients → Clients
unfolding removed
drop_client fd s = record s {
  table = set s.table fd (removed (get_or s.table fd blank));
  count = decrement s.count;
}

-- A new descriptor is not one of an open connection.
abbrev pub IsNew : Option ℕ → Clients → Type 0
IsNew none s = Unit {0}
IsNew (some fd) s = (get_or s.table fd blank).active ≡ false

-- the tables that a server can come to
pub data Reaches : Clients → Type 0 where
  started : Reaches (record { table = replicate max_fds blank; count = 0 })
  accepted :
      (now_ms : ℕ) (io : AcceptIo) (s : Clients)
      → IsNew io.fd s
      → Reaches s
      → Reaches (on_accept now_ms io s)
  dropped :
      (fd : ℕ) (s : Clients)
      → (get_or s.table fd blank).active ≡ true
      → Reaches s
      → Reaches (drop_client fd s)
  checked :
      (timeout_s now_ms : ℕ) (s : Clients)
      → Reaches s
      → Reaches (check_client_timeouts timeout_s now_ms s)

-- the count is the number of connections in use, and there is a slot for each descriptor
abbrev pub IsCounted : Clients → Type 0
IsCounted s = (s.count ≡ actives s.table) × (length s.table ≡ max_fds)

pub actives-set :
    (cs : List Conn) (i : ℕ) (c : Conn)
    → i < length cs
    → actives (set cs i c) + bit (get_or cs i blank).active ≡ actives cs + bit c.active
actives-set [] i c h = absurd (omega arith)
actives-set (x ∷ cs) zero c h = omega arith
actives-set (x ∷ cs) (suc i) c h = omega (arith, actives-set cs i c (omega (arith, h)))

pub actives_le : (cs : List Conn) → actives cs ≤ length cs
actives_le [] = omega arith
actives_le (c ∷ cs) = omega (arith, actives_le cs, bit_le c.active)

actives-replicate : (n : ℕ) → actives (replicate n blank) ≡ 0
actives-replicate zero = refl
actives-replicate (suc n) = omega (arith, actives-replicate n)

pub active_inside : (cs : List Conn) (i : ℕ) → (get_or cs i blank).active ≡ true → i < length cs
active_inside [] i h = ground (arith, h)
active_inside (c ∷ cs) zero h = omega arith
active_inside (c ∷ cs) (suc i) h = omega (arith, active_inside cs i h)

length-timeouts_loop :
    (timeout_s now_ms : ℕ) (cs : List Conn) (found count : ℕ)
    → length (timeouts_loop timeout_s now_ms found count cs).0 ≡ length cs
unfolding timeouts_loop
length-timeouts_loop timeout_s now_ms [] found count = refl
length-timeouts_loop timeout_s now_ms (c ∷ cs) found count = elim (Bool-cases (ltb found count)) [
  | inr stop ↦ rw stop
  | inl go ↦ rw go (ap suc (length-timeouts_loop timeout_s now_ms cs _ _))
]

accept_fd-IsCounted :
    (now_ms fd : ℕ) (non_blocking added : Bool) (s : Clients)
    → (get_or s.table fd blank).active ≡ false
    → IsCounted s
    → IsCounted (accept_fd now_ms fd non_blocking added s)
unfolding accept_fd
accept_fd-IsCounted now_ms fd non_blocking added s new (counted, size) =
    let old = get_or s.table fd blank in
    let fresh = record blank {
      active = true;
      last_active_ms = now_ms;
      reads = true;
      writes = old.writes;
    } in
    let cleared = record blank { reads = old.reads; writes = old.writes } in
    let few = actives_le s.table in
    let free : bit old.active ≡ 0 = ap bit new in
    elim (Bool-cases (leb max_fds fd)) [
      | inl high ↦ rw high (counted, size)
      | inr inside ↦
          let fits : fd < length s.table = ground (arith, inside, size) in
          elim (Bool-cases non_blocking) [
            | inr blocks ↦ simp (inside, blocks) (counted, size)
            | inl ready ↦ elim (Bool-cases added) [
              | inl on ↦
                  simp (inside, ready, on)
                    (
                      omega (arith, actives-set s.table fd fresh fits, counted, few, size, free),
                      length-set s.table fd fresh ∙ size,
                    )
              | inr off ↦
                  simp (inside, ready, off)
                    (
                      omega (arith, actives-set s.table fd cleared fits, counted, few, size, free),
                      length-set s.table fd cleared ∙ size,
                    )
            ]
          ]
    ]

pub on_accept-IsCounted :
    (now_ms : ℕ) (fd : Option ℕ) (non_blocking added : Bool) (s : Clients)
    → IsNew fd s
    → IsCounted s
    → IsCounted (accept_any fd now_ms non_blocking added s)
on_accept-IsCounted now_ms none non_blocking added s new h = h
on_accept-IsCounted now_ms (some fd) non_blocking added s new h =
    accept_fd-IsCounted now_ms fd non_blocking added s new h

pub drop_client-IsCounted :
    (fd : ℕ) (s : Clients)
    → (get_or s.table fd blank).active ≡ true
    → IsCounted s
    → IsCounted (drop_client fd s)
unfolding drop_client removed
drop_client-IsCounted fd s on (counted, size) =
    let c = removed (get_or s.table fd blank) in
    let used : bit (get_or s.table fd blank).active ≡ 1 = ap bit on in
    (
      omega (
        arith,
        actives-set s.table fd c (active_inside s.table fd on),
        counted,
        actives_le s.table,
        size,
        used,
      ),
      length-set s.table fd c ∙ size,
    )

pub check-IsCounted :
    (timeout_s now_ms : ℕ) (s : Clients)
    → IsCounted s
    → IsCounted (check_client_timeouts timeout_s now_ms s)
unfolding check_client_timeouts
check-IsCounted timeout_s now_ms s (counted, size) =
    let (slots, count, half) =
      check_client_timeouts-Checked timeout_s now_ms s counted
        (omega (arith, counted, actives_le s.table, size)) in
    (count, length-timeouts_loop timeout_s now_ms s.table 0 s.count ∙ size)

-- In every table of connections that the server can come to from the start, by accepting a
-- descriptor that is not in use, with any outcome of its system calls, by dropping a connection,
-- and by checks of the timeouts, `clients_count` is the number of connections in use, and there is
-- a slot for each descriptor.
pub Reaches-IsCounted : (s : Clients) → Reaches s → IsCounted s
unfolding on_accept
Reaches-IsCounted s started = (sym (actives-replicate max_fds), length-replicate max_fds blank)
Reaches-IsCounted s' (accepted now_ms io s new h) =
    on_accept-IsCounted now_ms io.fd io.non_blocking io.added s new (Reaches-IsCounted s h)
Reaches-IsCounted s' (dropped fd s on h) = drop_client-IsCounted fd s on (Reaches-IsCounted s h)
Reaches-IsCounted s' (checked timeout_s now_ms s h) =
    check-IsCounted timeout_s now_ms s (Reaches-IsCounted s h)
