-- ===== src/Session/Restart.antt =====
-- A session from a fresh log on, and the next start of the server.
use mathlib.Core.List.{append_assoc, append-nil}
use bytekv.Prelude.{
  ◌+◌, ◌≤◌, ◌≡◌, refl, ◌∙◌, sym, ap, inl, inr, true, none, List, [], ◌∷◌, ◌++◌, length, All, subst,
}
use bytekv.Prelude.Bytes.{Bytes, IsBytes}
use bytekv.Prelude.Int.{ℤ, ◌≤ℤ◌}
use bytekv.Ht.{success}
use bytekv.Db.{Db, db_create}
use bytekv.Db.Model.{IsValid, view, db_create-Models}
use bytekv.Aof.{
  LogRecord, IsLoggable, encode, file_header, record_max, msg_max, header_size, body_fixed,
}
use bytekv.Aof.Recovery.{aof_load, loaded}
use bytekv.Aof.Recovery.Torn.{CleanEnd, encode_all, replay_all, replay_all_step}
use bytekv.Aof.Recovery.Load.{log_file, aof_load-torn}
use bytekv.Aof.Writer.{Config, all_written}
use bytekv.Aof.Writer.Snapshot.{env_at}
use bytekv.Aof.Writer.Rewritten.{encode_all-append, All-append, replay_all-append}
use bytekv.Command.Handlers.{State, Io}
use bytekv.Command.Logged.{Logged, Outcome}
use bytekv.Command.Logged.Execute.{command_execute-logged}
use bytekv.Session.{Request, serve_request, run_requests}
use bytekv.Session.Same.{Same}
use bytekv.Session.Tracks.{NoneStale, Stands, Unlogged-keys, Logged-step}

-- a command whose record fits, with memory, and a log that takes every byte
pub record IsServable (r : Request) : Type 0 where
  pub bytes : IsBytes r.payload
  pub room : header_size + body_fixed + length r.payload ≤ record_max
  pub written : r.io.written ≡ all_written
  pub mem_key : r.io.mem_key ≡ true
  pub mem_ttl : r.io.mem_ttl ≡ true

-- At no point of the session a key is there that is past its expiry at the time `later`, which is not
-- before any command.
unfoldable pub IsFresh : Config → ℤ → List Request → State → Type 0
IsFresh cfg later [] st = NoneStale later st.db
IsFresh cfg later (r ∷ rs) st =
    NoneStale later st.db × (r.now ≤ℤ later) × IsFresh cfg later rs (serve_request cfg r st)

IsFresh-NoneStale :
    (cfg : Config) (later : ℤ) (rs : List Request) (st : State)
    → IsFresh cfg later rs st
    → NoneStale later st.db
unfolding IsFresh
IsFresh-NoneStale cfg later [] st h = h
IsFresh-NoneStale cfg later (r ∷ rs) st h = h.0

-- The log is one that the server could have written, and its replay gives a store that stands for the
-- same map.
pub record Kept (created_ms start_ms later : ℤ) (st : State) : Type 0 where
  pub records : List LogRecord
  pub loggable : All IsLoggable records
  pub file : st.aof.aof_file ≡ log_file created_ms records
  pub store : Db
  pub replays : replay_all (env_at later) 0 records (db_create start_ms) ≡ (success, store)
  pub stands : Stands st.db store
  pub valid : IsValid st.db

module _ (created_ms start_ms later : ℤ) where
  -- the log and the map are as they were
  pub Kept-same :
      (st st' : State)
      → Kept created_ms start_ms later st
      → IsValid st'.db
      → st'.aof.aof_file ≡ st.aof.aof_file
      → ((q : Bytes) → view st'.db q ≡ view st.db q)
      → Kept created_ms start_ms later st'
  Kept-same st st' kept valid file same = record {
    records = kept.records;
    loggable = kept.loggable;
    file = file ∙ kept.file;
    store = kept.store;
    replays = kept.replays;
    stands = record { valid = kept.stands.valid; same = λ q. kept.stands.same q ∙ sym (same q) };
    valid = valid;
  }

  pub Logged-Kept :
      (cfg : Config) (io : Io) (st st' : State)
      → Kept created_ms start_ms later st
      → NoneStale later st'.db
      → io.mem_key ≡ true
      → io.mem_ttl ≡ true
      → IsValid st'.db
      → Logged cfg io st st'
      → Kept created_ms start_ms later st'
  unfolding replay_all
  Logged-Kept cfg io st st' kept fresh mem_key mem_ttl valid l =
      let r = l.entry in
      let (d', step, stands) =
        Logged-step cfg io later st st' kept.store (0 + length kept.records) kept.valid kept.stands
          fresh mem_key mem_ttl l in
      let bytes = encode_all kept.records in
      record {
        records = kept.records ++ (r ∷ []);
        loggable = All-append kept.records (r ∷ []) kept.loggable (l.loggable, tt);
        file =
            l.file
            ∙ ap (λ f. f ++ encode r) kept.file
            ∙ append_assoc (file_header created_ms) bytes (encode r)
            ∙ ap (λ b. file_header created_ms ++ (bytes ++ b)) (sym (append-nil (encode r)))
            ∙ ap (λ b. file_header created_ms ++ b) (sym (encode_all-append kept.records (r ∷ [])));
        store = d';
        replays =
            replay_all-append (env_at later) 0 kept.records (r ∷ []) (db_create start_ms) kept.store
              kept.replays
            ∙ replay_all_step (env_at later) (0 + length kept.records) r [] kept.store d' step;
        stands = stands;
        valid = valid;
      }

  -- Such a log, with nothing or a torn record behind it, is loaded up to its end.
  pub Kept-aof_load_torn :
      (st : State) (kept : Kept created_ms start_ms later st) (buf tail : Bytes)
      → CleanEnd tail
      → aof_load (env_at later) (st.aof.aof_file ++ tail) buf (db_create start_ms)
        ≡ loaded kept.store st.aof.aof_file
  Kept-aof_load_torn st kept buf tail clean =
      let log = log_file created_ms kept.records in
      subst
        (λ f. aof_load (env_at later) (f ++ tail) buf (db_create start_ms) ≡ loaded kept.store f)
        (sym kept.file)
        (aof_load-torn (env_at later) created_ms kept.records buf (db_create start_ms) kept.store
          refl kept.loggable kept.replays tail clean)

  Kept-aof_load :
      (st : State) (kept : Kept created_ms start_ms later st) (buf : Bytes)
      → (d : Db) × (aof_load (env_at later) st.aof.aof_file buf (db_create start_ms)
          ≡ loaded d st.aof.aof_file)
        × IsValid d
        × Same d st.db
  Kept-aof_load st kept buf = (
    kept.store,
    ap (λ f. aof_load (env_at later) f buf (db_create start_ms)) (sym (append-nil st.aof.aof_file))
        ∙ Kept-aof_load_torn st kept buf [] (inl refl),
    kept.stands.valid,
    kept.stands.same,
  )

  pub serve_request-Kept :
      (cfg : Config) (r : Request) (st : State)
      → Kept created_ms start_ms later st
      → cfg.aof_enabled ≡ true
      → IsServable r
      → NoneStale later st.db
      → r.now ≤ℤ later
      → NoneStale later (serve_request cfg r st).db
      → Kept created_ms start_ms later (serve_request cfg r st)
  unfolding serve_request Outcome
  serve_request-Kept cfg r st kept enabled ok fresh le fresh' =
      let at_now = record st { now_realtime_ms = r.now } in
      let (valid, outcome) =
        command_execute-logged cfg r.io r.payload msg_max at_now kept.valid enabled ok.written
          ok.mem_key ok.mem_ttl ok.bytes ok.room in
      let kept_now = Kept-same st at_now kept kept.valid refl (λ q. refl) in
      elim outcome [
        | inl u ↦
            Kept-same at_now _ kept_now valid u.file
              (Unlogged-keys cfg r.io later at_now _ fresh le u)
        | inr l ↦ Logged-Kept cfg r.io at_now _ kept_now fresh' ok.mem_key ok.mem_ttl valid l
      ]

  run_requests-Kept :
      (cfg : Config) (rs : List Request) (st : State)
      → Kept created_ms start_ms later st
      → cfg.aof_enabled ≡ true
      → All IsServable rs
      → IsFresh cfg later rs st
      → Kept created_ms start_ms later (run_requests cfg rs st)
  unfolding run_requests IsFresh
  run_requests-Kept cfg [] st kept enabled ok fresh = kept
  run_requests-Kept cfg (r ∷ rs) st kept enabled (ok, oks) (fresh, le, rest) =
      run_requests-Kept cfg rs (serve_request cfg r st)
        (serve_request-Kept cfg r st kept enabled ok fresh le
          (IsFresh-NoneStale cfg later rs (serve_request cfg r st) rest))
        enabled oks rest

  -- Let a server with an empty store and a new log run any commands, with the log on and taking
  -- every byte, with memory, and with payloads that leave room for the fixed part of a record. Let
  -- no key, at any point of the session, be past its expiry at a time that is not before any
  -- command. Then `aof_load`, at that time and with memory, reads the log to its end, and gives a
  -- valid store that stands for the same map as the server's.
  pub run_requests-aof_load :
      (cfg : Config) (rs : List Request) (st : State) (buf : Bytes)
      → IsValid st.db
      → ((q : Bytes) → view st.db q ≡ none)
      → st.aof.aof_file ≡ file_header created_ms
      → cfg.aof_enabled ≡ true
      → All IsServable rs
      → IsFresh cfg later rs st
      → let st' = run_requests cfg rs st in
        (d : Db) × (aof_load (env_at later) st'.aof.aof_file buf (db_create start_ms)
          ≡ loaded d st'.aof.aof_file)
        × IsValid d
        × Same d st'.db
  unfolding replay_all
  run_requests-aof_load cfg rs st buf valid empty file enabled ok fresh =
      let start : Kept created_ms start_ms later st = record {
        records = [];
        loggable = tt;
        file = file ∙ sym (append-nil (file_header created_ms));
        store = db_create start_ms;
        replays = refl;
        stands = record {
          valid = (db_create-Models start_ms).0;
          same = λ q. (db_create-Models start_ms).1 q ∙ sym (empty q);
        };
        valid = valid;
      } in
      let kept = run_requests-Kept cfg rs st start enabled ok fresh in
      Kept-aof_load (run_requests cfg rs st) kept buf
