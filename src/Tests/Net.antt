-- ===== src/Tests/Net.antt =====
-- src/networking.c on concrete connections.
use bytekv.Prelude.{
  ℕ, ◌≤◌, ◌/◌, ◌≡◌, refl, inl, true, List, [], ◌∷◌, ◌++◌, arith, get_or, replicate, some,
}
use bytekv.Prelude.Bytes.{Bytes, be}
use bytekv.Prelude.Int.{◌-ℤ◌}
use bytekv.Prelude.Text.{codes}
use bytekv.Networking.{Conn, Net, Round, wrote, again, process_buffer, on_write, wbuf_size}
use bytekv.Networking.Bounds.{IsWithin}
use bytekv.Networking.Frames.{frames}
use bytekv.Networking.Served.{Left, process_buffer-Left}
use bytekv.Networking.Live.{Answered, on_write-Answered}
use bytekv.Networking.Clients.{
  Clients, blank, actives, is_idle, timeouts_loop, check_client_timeouts, Checked,
  check_client_timeouts-Checked, max_fds, AcceptIo,
}
use bytekv.Tests.Rewrite.{cfg}
use bytekv.Tests.Commands.{io, st}

-- every reply is taken whole; and none is
abbrev pub open_socket : ℕ → Round
open_socket i = record { io = io; wrote = wrote wbuf_size; added = true }

abbrev full_socket : ℕ → Round
full_socket i = record { io = io; wrote = again; added = true }

abbrev payloads : List Bytes
payloads = codes "SET a 1" ∷ codes "GET a" ∷ []

-- three bytes of the next header
abbrev rest : Bytes
rest = 0 ∷ 0 ∷ 0 ∷ []

abbrev waiting : Net
waiting = record {
  conn = record blank {
    active = true;
    buf = frames payloads ++ rest;
    wbuf = codes "+OK\n";
    woff = 1;
    reads = true;
    writes = true;
  };
  count = 1;
  st = st;
}

waiting-IsWithin : IsWithin waiting.conn
unfolding frames be
waiting-IsWithin = (omega arith, omega arith, omega arith)

process_buffer-Left_example :
    Left cfg full_socket payloads rest waiting (process_buffer cfg full_socket waiting)
process_buffer-Left_example =
    process_buffer-Left cfg full_socket payloads rest waiting (omega arith, (omega arith, tt))
      (inl (omega arith)) waiting-IsWithin refl

on_write-Answered_example :
    Answered cfg open_socket payloads rest waiting
      (on_write cfg (wrote wbuf_size) open_socket waiting)
on_write-Answered_example =
    on_write-Answered wbuf_size cfg open_socket payloads rest waiting
      (omega arith, (omega arith, tt)) (inl (omega arith)) waiting-IsWithin refl (λ i. refl)
      (omega arith)

-- two connections that have been idle for 300 seconds
abbrev idle : Conn
idle = record blank { active = true; reads = true }

abbrev both : Clients
both = record { table = blank ∷ idle ∷ idle ∷ []; count = 2 }

-- The check removes one of them only.
both_run : (check_client_timeouts 300 300000 both).count ≡ 1
unfolding check_client_timeouts timeouts_loop is_idle ◌-ℤ◌
both_run = refl

-- A limit of 0, which is to turn the timeouts off, removes a connection that has just been active.
zero_run : (check_client_timeouts 0 0 (record { table = idle ∷ []; count = 1 })).count ≡ 0
unfolding check_client_timeouts timeouts_loop is_idle ◌-ℤ◌
zero_run = refl

check_client_timeouts-Checked_example :
    let s' = check_client_timeouts 300 300000 both in
    ((i : ℕ) → Checked 300 300000 (get_or both.table i blank) (get_or s'.table i blank))
    × (s'.count ≡ actives s'.table)
    × (both.count / 2 ≤ s'.count)
check_client_timeouts-Checked_example =
    check_client_timeouts-Checked 300 300000 both refl (omega arith)

-- a server that has no client yet
abbrev no_clients : Clients
no_clients = record { table = replicate max_fds blank; count = 0 }

abbrev accept_5 : AcceptIo
accept_5 = record { fd = some 5; non_blocking = true; added = true }
