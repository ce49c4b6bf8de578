-- ===== src/Session/Life/Reloads.antt =====
-- In the life of a server its log can be loaded at any time: the steps, and the theorem.
use mathlib.Core.List.{append-nil}
use bytekv.Prelude.{
  ◌≡◌, ◌≢◌, refl, ◌∙◌, sym, ap, ◌⊎◌, inl, inr, true, Option, some, [], ◌∷◌, ◌++◌, arith, subst,
}
use bytekv.Prelude.Bytes.{Bytes}
use bytekv.Prelude.Int.{ℤ, ◌≤ℤ◌}
use bytekv.Ht.{Status}
use bytekv.Db.{Db, db_create}
use bytekv.Db.Model.{IsValid, db_create-Models}
use bytekv.Aof.{encode, file_header, msg_max}
use bytekv.Aof.Recovery.{aof_load, loaded}
use bytekv.Aof.Recovery.Torn.{CleanEnd, encode_all, replay_all}
use bytekv.Aof.Writer.{Config, Server, RewriteState, idle, active, aborting, buf_append}
use bytekv.Aof.Writer.Diff.{Grown, Unmoved}
use bytekv.Aof.Writer.Append.{aof_append-all_written}
use bytekv.Aof.Writer.Rewrite.{still_running, exited}
use bytekv.Aof.Writer.Moves.{
  Moves, rests, Moves-from, aof_rewrite_start-Moves, crons-Moves, aof_append_temp,
}
use bytekv.Aof.Writer.Snapshot.{env_at}
use bytekv.Aof.Writer.Compaction.{aof_rewrite_child-entries}
use bytekv.Aof.Writer.Rewritten.{encode_all-append, All-append}
use bytekv.Command.Handlers.{State, Io}
use bytekv.Command.Logged.{Unlogged, Logged, Outcome}
use bytekv.Command.Logged.Execute.{command_execute-logged}
use bytekv.Session.{Request, serve_request}
use bytekv.Session.Same.{Same}
use bytekv.Session.Tracks.{NoneStale, Logged-replay_op, Unlogged-keys, Leads, Leads-Logged}
use bytekv.Session.Restart.{IsServable, Kept-same, Logged-Kept, Kept-aof_load_torn}
use bytekv.Session.Life.{
  tick, Child, is_active, forked, with_temp, Life, born, served, ticked, child_writes, child_exits,
}
use bytekv.Server.Loop.{SleepIo, set_clocks}
use bytekv.Session.Life.Storable.{
  IsStorable, none-IsStorable, replay_op-IsStorable, snapshot-IsLoggable,
}
use bytekv.Session.Life.Alive.{Whole, Pending, Alive, forked_same, at_rest-Alive, Moves-Alive}

active_or_not : (s : RewriteState) → (s ≡ active) ⊎ (s ≢ active)
active_or_not active = inl refl
active_or_not idle = inr (λ e. ground (arith, e))
active_or_not aborting = inr (λ e. ground (arith, e))

pub forked_active :
    (st st' : State) (child : Child) → st.aof.rewrite_state ≡ active → forked st st' child ≡ child
forked_active st st' child e = rw e refl

module _ (later start_ms : ℤ) (cfg : Config) (enabled : cfg.aof_enabled ≡ true) where
  -- the diff buffer after a command that is logged
  Logged-Pending :
      (io : Io) (st st' : State) (child : Child)
      → (l : Logged cfg io st st') → Pending later st child
      → IsValid st.db
      → NoneStale later st'.db
      → io.mem_key ≡ true
      → io.mem_ttl ≡ true
      → st'.aof.rewrite_buf ≡ buf_append st.aof.rewrite_buf (encode l.entry)
      → Pending later st' child
  Logged-Pending io st st' child l p valid fresh mem_key mem_ttl buffer = record {
    diff = p.diff ++ (l.entry ∷ []);
    loggable = All-append p.diff (l.entry ∷ []) p.loggable (l.loggable, tt);
    buffer =
        buffer
        ∙ ap (λ b. buf_append b (encode l.entry)) p.buffer
        ∙ ap (λ b. some (encode_all p.diff ++ b)) (sym (append-nil (encode l.entry)))
        ∙ ap (λ b. some b) (sym (encode_all-append p.diff (l.entry ∷ [])));
    leads =
        Leads-Logged cfg io later child.fork p.diff st st' p.leads valid fresh mem_key mem_ttl l;
    valid = p.valid;
    fresh = p.fresh;
    storable = p.storable;
    whole = λ done.
        let temp =
          ap (λ (s : Server). s.temp_file) l.appended
          ∙ aof_append_temp cfg io.realloc_ok io.flushed l.entry st.aof in
        subst (Whole later child.fork) (sym temp) (p.whole done);
  }

  Logged-IsStorable :
      (io : Io) (st st' : State)
      → IsValid st.db
      → IsStorable st.db
      → io.mem_key ≡ true
      → io.mem_ttl ≡ true
      → Logged cfg io st st'
      → IsStorable st'.db
  Logged-IsStorable io st st' valid storable mem_key mem_ttl l =
      subst IsStorable
        (ap (λ (x : Status × Db). x.1) (Logged-replay_op cfg io later st st' mem_key mem_ttl l))
        (replay_op-IsStorable st.db l.entry valid storable l.loggable)

  Logged-Alive :
      (io : Io) (st st' : State) (child : Child)
      → (l : Logged cfg io st st') → IsValid st'.db
      → NoneStale later st'.db
      → io.mem_key ≡ true
      → io.mem_ttl ≡ true
      → Alive later start_ms st child
      → Alive later start_ms st' (forked st st' child)
  unfolding Grown Unmoved
  Logged-Alive io st st' child l valid fresh mem_key mem_ttl alive =
      let created_ms = alive.created_ms in
      let kept =
        Logged-Kept created_ms start_ms later cfg io st st' alive.kept fresh mem_key mem_ttl valid
          l in
      let storable =
        Logged-IsStorable io st st' alive.kept.valid alive.storable mem_key mem_ttl l in
      let (_, _, _, grown, _, unmoved) =
        aof_append-all_written cfg io.realloc_ok io.flushed l.entry st.aof l.loggable enabled in
      let state = ap (λ (s : Server). s.rewrite_state) l.appended in
      let buffer = ap (λ (s : Server). s.rewrite_buf) l.appended in
      elim (active_or_not st.aof.rewrite_state) [
        | inr other ↦
            let (state', _) = unmoved other in
            at_rest-Alive later start_ms created_ms st' (forked st st' child) kept fresh storable
              (λ e. other (sym (state ∙ state') ∙ e))
        | inl is_active ↦ elim (grown is_active) [
          | inr (state', _) ↦
              at_rest-Alive later start_ms created_ms st' (forked st st' child) kept fresh storable
                (λ e. ground (arith, sym (state ∙ state') ∙ e))
          | inl (state', buffer') ↦
              subst (Alive later start_ms st') (sym (forked_active st st' child is_active))
                (record {
                  created_ms = created_ms;
                  kept = kept;
                  fresh = fresh;
                  storable = storable;
                  pending = λ e.
                      Logged-Pending io st st' child l (alive.pending is_active) alive.kept.valid
                        fresh mem_key mem_ttl (buffer ∙ buffer');
                })
        ]
      ]

  -- a command that is not logged, or starts a rewrite
  Unlogged-Alive :
      (io : Io) (st st' : State) (child : Child)
      → Unlogged cfg io st st'
      → IsValid st'.db
      → NoneStale later st'.db
      → st.now_realtime_ms ≤ℤ later
      → Alive later start_ms st child
      → Alive later start_ms st' (forked st st' child)
  Unlogged-Alive io st st' child u valid fresh le alive =
      let same = Unlogged-keys cfg io later st st' alive.fresh le u in
      let moves : Moves st.aof still_running st'.aof = elim u.quiet [
        | inl e ↦ rw e (rests refl refl refl refl)
        | inr (idle_then, e, _) ↦
            rw e (aof_rewrite_start-Moves cfg io.start st.aof still_running idle_then)
      ] in
      Moves-Alive later start_ms st st' child still_running moves valid fresh same
        (λ h. ground (arith, h)) alive

  served-Alive :
      (r : Request) (st : State) (child : Child)
      → IsServable r
      → r.now ≤ℤ later
      → NoneStale later (serve_request cfg r st).db
      → Alive later start_ms st child
      → Alive later start_ms (serve_request cfg r st) (forked st (serve_request cfg r st) child)
  unfolding serve_request Outcome
  served-Alive r st child ok le fresh alive =
      let at_now = record st { now_realtime_ms = r.now } in
      let (valid, outcome) =
        command_execute-logged cfg r.io r.payload msg_max at_now alive.kept.valid enabled ok.written
          ok.mem_key ok.mem_ttl ok.bytes ok.room in
      let alive_now : Alive later start_ms at_now child =
        subst (Alive later start_ms at_now) (forked_same st at_now child refl) (
          Moves-Alive later start_ms st at_now child still_running (rests refl refl refl refl)
            alive.kept.valid alive.fresh (λ q. refl) (λ h. ground (arith, h)) alive) in
      elim outcome [
        | inl u ↦
            Unlogged-Alive r.io at_now (serve_request cfg r st) child u valid fresh le alive_now
        | inr l ↦
            Logged-Alive r.io at_now (serve_request cfg r st) child l valid fresh ok.mem_key
              ok.mem_ttl alive_now
      ]

  ticked-Alive :
      (io : SleepIo) (st : State) (child : Child)
      → (io.cron.waited ≡ exited 0 → child.done ≡ true)
      → Alive later start_ms st child
      → Alive later start_ms (tick cfg io st) (forked st (tick cfg io st) child)
  unfolding tick set_clocks
  ticked-Alive io st child exits alive =
      let set : Server = record st.aof { now_ms = io.now_ms } in
      let moves =
        Moves-from st.aof set io.cron.waited (tick cfg io st).aof refl refl refl refl
          (crons-Moves cfg io.flushed io.cron set) in
      Moves-Alive later start_ms st (tick cfg io st) child io.cron.waited moves alive.kept.valid
        alive.fresh (λ q. refl) exits alive

  -- the child's file, whole or not
  temp-Alive :
      (file : Option Bytes) (st : State) (child child' : Child)
      → child'.fork ≡ child.fork
      → (st.aof.rewrite_state ≡ active → child'.done ≡ true → Whole later child.fork file)
      → Alive later start_ms st child
      → Alive later start_ms (with_temp file st) child'
  temp-Alive file st child child' fork whole alive = record {
    created_ms = alive.created_ms;
    kept =
        Kept-same alive.created_ms start_ms later st (with_temp file st) alive.kept alive.kept.valid
          refl (λ q. refl);
    fresh = alive.fresh;
    storable = alive.storable;
    pending = λ e.
        let p = alive.pending e in
        record {
          diff = p.diff;
          loggable = p.loggable;
          buffer = p.buffer;
          leads = subst (λ db. Leads later db p.diff st.db) (sym fork) p.leads;
          valid = subst IsValid (sym fork) p.valid;
          fresh = subst (NoneStale later) (sym fork) p.fresh;
          storable = subst IsStorable (sym fork) p.storable;
          whole = λ done. subst (λ db. Whole later db file) (sym fork) (whole e done);
        };
  }

  Life-Alive :
      (created_ms : ℤ) (st : State) (child : Child)
      → Life cfg created_ms later st child
      → Alive later start_ms st child
  unfolding replay_all
  Life-Alive created_ms st child (born st₀ valid empty file at_rest) =
      let (valid₀, reads) = db_create-Models start_ms in
      at_rest-Alive later start_ms created_ms st child
        (record {
          records = [];
          loggable = tt;
          file = file ∙ sym (append-nil (file_header created_ms));
          store = db_create start_ms;
          replays = refl;
          stands = record { valid = valid₀; same = λ q. reads q ∙ sym (empty q) };
          valid = valid;
        })
        (λ q. ground (arith, empty q)) (none-IsStorable st.db empty)
        (λ e. ground (arith, sym at_rest ∙ e))
  Life-Alive created_ms st' child' (served r st child ok le fresh life) =
      served-Alive r st child ok le fresh (Life-Alive created_ms st child life)
  Life-Alive created_ms st' child' (ticked io st child exits life) =
      ticked-Alive io st child exits (Life-Alive created_ms st child life)
  Life-Alive created_ms st' child' (child_writes file st child part life) =
      temp-Alive file st child child refl (λ _ done. ground (arith, sym part ∙ done))
        (Life-Alive created_ms st child life)
  Life-Alive created_ms st' child' (child_exits written_ms clock file st child order wrote life) =
      let alive = Life-Alive created_ms st child life in
      let loggable =
        λ (p : Pending later st child). snapshot-IsLoggable clock child.fork p.valid p.storable in
      temp-Alive (some file) st child (record child { done = true }) refl
        (λ e _. record {
          created_ms = written_ms;
          clock = clock;
          order = order;
          loggable = loggable (alive.pending e);
          file =
              sym wrote
              ∙ aof_rewrite_child-entries written_ms clock child.fork (alive.pending e).valid
                  (loggable (alive.pending e));
        })
        alive

  -- Let a server with the log on live from an empty store and a new log: by any commands, with the
  -- log taking every byte, with memory, and with payloads that leave room for the fixed part of a
  -- record; by its periodic tasks, whatever their system calls give; and by the children of its
  -- rewrites, of which one that exits with 0 has written the store at its fork. Let no key be, at
  -- any point, past its expiry at a time that is not before any command or any reading of a child's
  -- clock. Then at every point, before, during and after a rewrite, completed or given up,
  -- `aof_load` at that time, with memory and a file that can be opened and cut, of the log with
  -- nothing or a torn record behind it gives a valid store that stands for the same map as the
  -- server's, and cuts off the torn record.
  pub Life-aof_load :
      (created_ms : ℤ) (st : State) (child : Child) (buf tail : Bytes)
      → Life cfg created_ms later st child
      → CleanEnd tail
      → (d : Db) × (aof_load (env_at later) (st.aof.aof_file ++ tail) buf (db_create start_ms)
          ≡ loaded d st.aof.aof_file)
        × IsValid d
        × Same d st.db
  Life-aof_load created_ms st child buf tail life clean =
      let alive = Life-Alive created_ms st child life in
      let kept = alive.kept in
      (
        kept.store,
        Kept-aof_load_torn alive.created_ms start_ms later st kept buf tail clean,
        kept.stands.valid,
        kept.stands.same,
      )
