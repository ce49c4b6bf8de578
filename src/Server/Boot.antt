-- ===== src/Server/Boot.antt =====
-- `init_server` of src/server.c: what a start leaves, whatever the log and whatever fails.
use bytekv.Prelude.{
  ℕ, ◌==◌, ◌≡◌, refl, sym, ◌∙◌, ap, inl, inr, Bool, true, false, not, ◌&&◌, Bool-cases, if-cases,
  if-both, Option, none, some, Option-cases, List, [], length, take, replicate, arith,
  get_or-replicate,
}
use mathlib.Core.List.{append-nil}
use bytekv.Prelude.Bytes.{Bytes}
use bytekv.Prelude.Int.{pos}
use bytekv.Db.{db_create}
use bytekv.Db.Model.{IsValid, db_create-Models}
use bytekv.Aof.{file_header, read_file_header}
use bytekv.Aof.Layout.{read_file_header-file_header}
use bytekv.Aof.Recovery.{aof_load, Loaded, rejected, loaded, faulted, unfinished}
use bytekv.Aof.Recovery.Any.{IsLog, Recovered, rejects, faults, recovers, aof_load-Recovered}
use bytekv.Aof.Writer.{Written, all_written, cut_after}
use bytekv.Aof.Writer.Diff.{Diff, IsSound}
use bytekv.Command.Handlers.{State}
use bytekv.Networking.Clients.{max_fds, blank}
use bytekv.Networking.Reachable.{started, Reaches-IsCounted}
use bytekv.EventLoop.{EventLoop, el_init, el_add}
use bytekv.Server.Loop.{Settings, System, HandlerFn, calls_shutdown, calls_accept}
use bytekv.Server.Safe.{AreSafe, IsSafe}
use bytekv.Server.Start

-- What the parts behind `aof_load` are given: a valid store, a log whose diff buffer is in order, and a
-- file that is a log, with its header once that is `written`.
record Prepared (written : Bool) (st : State) : Type 0 where
  db : IsValid st.db
  log : IsSound st.aof
  header : written ≡ true → read_file_header st.aof.aof_file ≡ true

-- How a start ends: with a safe server that is not stopped and whose log has its header, if that was
-- written or already there; with a failure; or in `aof_load`, with an access outside its buffer.
pub data Boots (written : Bool) : Start.Started → Type 0 where
  boots :
      {s : System} {el : EventLoop HandlerFn}
      → IsSafe s
      → s.stop ≡ false
      → (written ≡ true → read_file_header s.st.aof.aof_file ≡ true)
      → Boots written (Start.started s el)
  fails :
      {file : Bytes} {left : List Start.Descriptor} → Boots written (Start.exit_failure file left)
  load_faults : Boots written Start.load_faulted

-- no connection yet
no_clients : AreSafe (record { table = replicate max_fds blank; count = 0 })
no_clients = record {
  counted = Reaches-IsCounted _ started;
  proper = λ i.
      rw (get_or-replicate max_fds i blank)
        ((omega arith, omega arith, omega arith), λ _. (refl, refl));
}

header_of : (file : Bytes) → IsLog file → (length file == 0) ≡ false → read_file_header file ≡ true
header_of file (inl empty) some_bytes = ground (arith, empty, some_bytes)
header_of file (inr accepted) some_bytes = accepted

module _ (cfg : Settings) (io : Start.StartIo) where
  add_handlers-Boots :
      (written : Bool) (server_fd pipe_fd : ℕ) (st : State)
      → Prepared written st
      → Boots written (Start.add_handlers cfg io server_fd pipe_fd st)
  unfolding Start.add_handlers
  add_handlers-Boots written server_fd pipe_fd st ready =
      let (pipe_added, el) =
        el_add io.added_pipe (pos pipe_fd) calls_shutdown (el_init cfg.aof.hz) in
      let (listener_added, el') = el_add io.added_listener (pos server_fd) calls_accept el in
      elim (Bool-cases pipe_added) [
        | inr bad ↦ rw bad fails
        | inl good ↦ elim (Bool-cases listener_added) [
          | inr bad ↦ rw (good, bad) fails
          | inl also ↦
              rw (good, also)
                (boots (record { db = ready.db; log = ready.log; clients = no_clients }) refl
                  ready.header)
        ]
      ]

  make_loop-Boots :
      (written : Bool) (server_fd : ℕ) (st : State)
      → Prepared written st
      → Boots written (Start.make_loop cfg io server_fd st)
  unfolding Start.make_loop Start.pipe_setup
  make_loop-Boots written server_fd st ready = elim (Bool-cases io.kqueue_ok) [
    | inr bad ↦ rw bad fails
    | inl good ↦ elim (Option-cases io.pipe) [
      | inl absent ↦ rw (good, absent) fails
      | inr (pipe_fd, given) ↦ elim (Bool-cases io.non_blocking) [
        | inr blocks ↦ rw (good, given, blocks) fails
        | inl ready_fd ↦
            rw (good, given, ready_fd) (add_handlers-Boots written server_fd pipe_fd st ready)
      ]
    ]
  ]

  note_size-Boots :
      (written : Bool) (server_fd : ℕ) (st : State)
      → Prepared written st
      → Boots written (Start.note_size cfg io server_fd st)
  unfolding Start.note_size
  note_size-Boots written server_fd st ready = elim (Bool-cases io.stat_second) [
    | inr bad ↦ simp bad (make_loop-Boots written server_fd st ready)
    | inl good ↦ simp good (
        make_loop-Boots written server_fd
          (record st { aof = record st.aof { rewrite_last_size = length st.aof.aof_file } })
          (record { db = ready.db; log = unfold IsSound in ready.log; header = ready.header }))
  ]

  write_header-Boots :
      (w : Written) (written : Bool) (server_fd : ℕ) (st : State)
      → IsValid st.db
      → IsSound st.aof
      → Boots written (Start.write_header w cfg io server_fd st)
  unfolding Start.write_header
  write_header-Boots (cut_after n) written server_fd st valid sound = fails
  write_header-Boots all_written written server_fd st valid sound =
      let accepted =
        ap read_file_header (sym (append-nil (file_header io.created_ms)))
        ∙ read_file_header-file_header io.created_ms [] in
      note_size-Boots written server_fd
        (record st { aof = record st.aof { aof_file = file_header io.created_ms } })
        (record { db = valid; log = unfold IsSound in sound; header = λ _. accepted })

  -- whether the code looks at the size of the log before it goes on
  abbrev pub looks : Bool
  looks = cfg.aof.aof_enabled && io.stat_first

  open_log-Boots :
      (server_fd : ℕ) (st : State)
      → IsValid st.db
      → IsSound st.aof
      → (cfg.aof.aof_enabled ≡ true → IsLog st.aof.aof_file)
      → Boots looks (Start.open_log cfg io server_fd st)
  unfolding Start.open_log
  open_log-Boots server_fd st valid sound is_log =
      let unread : looks ≡ false → Boots looks (Start.make_loop cfg io server_fd st) = λ no_look.
        make_loop-Boots looks server_fd st
          (record { db = valid; log = sound; header = λ h. ground (arith, h, no_look) }) in
      if-cases (Boots looks) (not cfg.aof.aof_enabled) (λ off. unread (ground (arith, off)))
        (λ on. if-both (Boots looks) (not io.opened) fails (
          if-cases (Boots looks) (not io.stat_first) (λ bad. unread (ground (arith, bad)))
            (λ good.
              if-cases (Boots looks) (length st.aof.aof_file == 0)
                (λ empty. write_header-Boots io.header_written looks server_fd st valid sound)
                (λ some_bytes. note_size-Boots looks server_fd st (record {
                  db = valid;
                  log = sound;
                  header = λ _. header_of st.aof.aof_file (is_log (ground (arith, on))) some_bytes;
                })))))

  with_listener-Boots :
      (server_fd : Option ℕ) (st : State)
      → IsValid st.db
      → IsSound st.aof
      → (cfg.aof.aof_enabled ≡ true → IsLog st.aof.aof_file)
      → Boots looks (Start.with_listener server_fd cfg io st)
  unfolding Start.with_listener
  with_listener-Boots none st valid sound is_log = fails
  with_listener-Boots (some server_fd) st valid sound is_log =
      open_log-Boots server_fd st valid sound is_log

  fresh-IsSound : (file : Bytes) → IsSound (Start.fresh_log io.now_ms file)
  unfolding Start.fresh_log IsSound Diff
  fresh-IsSound file = refl

  after_load-Boots :
      (file : Bytes) (r : Loaded)
      → Recovered io.env.truncated file r
      → Boots looks (Start.after_load cfg io file r)
  unfolding Start.after_load Start.listen_on Start.fresh_state
  after_load-Boots file rejected rejects = fails
  after_load-Boots file faulted faults = load_faults
  after_load-Boots file unfinished r = elim r [ ]
  after_load-Boots file (loaded db k) (recovers n valid kept is_log) =
      with_listener-Boots (Start.create_listener io.listen).0
        (Start.fresh_state io (take n file) db) valid (fresh-IsSound (take n file)) (λ _. is_log)

  -- Whatever the bytes of the log are, and whatever fails, a start ends: with EXIT_FAILURE; in
  -- `aof_load` with an access outside its buffer; or with a server that is safe and not stopped,
  -- whose log, where it is enabled and its size could be read, begins with a file header that the
  -- next start accepts.
  pub init_server-Boots : (file : Bytes) → Boots looks (Start.init_server cfg io file)
  unfolding Start.init_server Start.listen_on Start.fresh_state
  init_server-Boots file =
      let (valid, _) = db_create-Models (pos io.now_ms) in
      if-both (Boots looks) (not io.copied) fails (
        if-cases (Boots looks) cfg.aof.aof_enabled
          (λ on.
            after_load-Boots file (aof_load io.env file io.record_buf (db_create (pos io.now_ms)))
              (aof_load-Recovered io.env file io.record_buf valid))
          (λ off.
            with_listener-Boots (Start.create_listener io.listen).0
              (Start.fresh_state io file (db_create (pos io.now_ms))) valid (fresh-IsSound file)
              (λ on. ground (arith, on, off))))
