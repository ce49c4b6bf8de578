-- ===== src/Session/Life/Alive.antt =====
-- In the life of a server its log can be loaded at any time, through every rewrite.
use mathlib.Core.List.{append_assoc}
use bytekv.Prelude.{
  ℕ, ◌+◌, ◌≡◌, ◌≢◌, refl, ◌∙◌, sym, ap, true, false, ◌&&◌, Option, none, some, List, [], ◌++◌,
  arith, length, All, subst, if◌then◌else◌,
}
use bytekv.Prelude.Bytes.{Bytes}
use bytekv.Prelude.Int.{ℤ, ◌≤ℤ◌}
use bytekv.Ht.Resize.{flatten-Reads}
use bytekv.Db.{Db, db_create}
use bytekv.Db.Model.{IsValid, view, db_create-Models}
use bytekv.Aof.{LogRecord, IsLoggable, file_header}
use bytekv.Aof.Recovery.Torn.{encode_all}
use bytekv.Aof.Recovery.Load.{log_file}
use bytekv.Aof.Writer.{RewriteState, idle, active, aborting}
use bytekv.Aof.Writer.Rewrite.{Waited, exited, diff_bytes}
use bytekv.Aof.Writer.Moves.{Moves, rests, begins, given_up, completes}
use bytekv.Aof.Writer.Snapshot.{snapshot, env_at}
use bytekv.Aof.Writer.Compaction.{entries, snapshot_replays, merged-view}
use bytekv.Aof.Writer.Rewritten.{encode_all-append, All-append, replay_all-append}
use bytekv.Command.Handlers.{State}
use bytekv.Session.Tracks.{NoneStale, Stands, Leads, nothing-Leads, Leads-same}
use bytekv.Session.Restart.{Kept, Kept-same}
use bytekv.Session.Life.Storable.{IsStorable, same-IsStorable}
use bytekv.Session.Life.{Child, is_idle, is_active, forked}

module _ (later : ℤ) where
  -- the file of a child that exits with 0
  pub record Whole (fork : Db) (temp : Option Bytes) : Type 0 where
    pub created_ms : ℤ
    pub clock : ℕ → ℤ
    pub order : (n : ℕ) → clock n ≤ℤ later
    pub loggable : All IsLoggable (snapshot clock 0 fork (entries fork))
    pub file : temp ≡ some (log_file created_ms (snapshot clock 0 fork (entries fork)))

  -- An active rewrite: its diff buffer leads from the store at the fork to the store now.
  pub record Pending (st : State) (child : Child) : Type 0 where
    pub diff : List LogRecord
    pub loggable : All IsLoggable diff
    pub buffer : st.aof.rewrite_buf ≡ some (encode_all diff)
    pub leads : Leads later child.fork diff st.db
    pub valid : IsValid child.fork
    pub fresh : NoneStale later child.fork
    pub storable : IsStorable child.fork
    pub whole : child.done ≡ true → Whole child.fork st.aof.temp_file

  pub record Alive (start_ms : ℤ) (st : State) (child : Child) : Type 0 where
    pub created_ms : ℤ
    pub kept : Kept created_ms start_ms later st
    pub fresh : NoneStale later st.db
    pub storable : IsStorable st.db
    pub pending : st.aof.rewrite_state ≡ active → Pending st child

-- no rewrite begins where the state is as it was, or was active
pub forked_same :
    (st st' : State) (child : Child)
    → st'.aof.rewrite_state ≡ st.aof.rewrite_state
    → forked st st' child ≡ child
forked_same st st' child e = neither st.aof.rewrite_state child st'.db e
  where
    neither :
        (s : RewriteState) {s' : RewriteState} (child : Child) (db : Db)
        → s' ≡ s
        → (if is_idle s && is_active s' then record { fork = db; done = false } else child) ≡ child
    neither idle child db e = rw e refl
    neither active child db e = refl
    neither aborting child db e = refl

forked_begins :
    (st st' : State) (child : Child)
    → st.aof.rewrite_state ≡ idle
    → st'.aof.rewrite_state ≡ active
    → forked st st' child ≡ record { fork = st'.db; done = false }
forked_begins st st' child was now = rw (was, now) refl

module _ (later start_ms : ℤ) where
  -- a server without an active rewrite
  pub at_rest-Alive :
      (created_ms : ℤ) (st : State) (child : Child)
      → Kept created_ms start_ms later st
      → NoneStale later st.db
      → IsStorable st.db
      → st.aof.rewrite_state ≢ active
      → Alive later start_ms st child
  at_rest-Alive created_ms st child kept fresh storable other = record {
    created_ms = created_ms;
    kept = kept;
    fresh = fresh;
    storable = storable;
    pending = λ e. elim (other e) [ ];
  }

  -- The child's file and the diff buffer are a log that gives the store.
  completed-Kept :
      (st st' : State) (child : Child) (temp : Bytes)
      → (p : Pending later st child) → Whole later child.fork st.aof.temp_file
      → st.aof.temp_file ≡ some temp
      → st'.aof.aof_file ≡ temp ++ diff_bytes st.aof.rewrite_buf
      → IsValid st'.db
      → ((q : Bytes) → view st'.db q ≡ view st.db q)
      → (created_ms : ℤ) × Kept created_ms start_ms later st'
  unfolding Leads
  completed-Kept st st' child temp p w left file valid same =
      let db = child.fork in
      let snap = snapshot w.clock 0 db (entries db) in
      let once = λ (q : Bytes). (flatten-Reads db.keyspace.table p.valid.keyspace.reads q).0 in
      let (d₀, run, (valid₀, reads)) =
        snapshot_replays w.clock later db w.order p.valid.positive (entries db) 0 0 (λ _. none)
          (db_create start_ms) once (λ q v h. refl) (db_create-Models start_ms) in
      let stands₀ : Stands db d₀ = record {
        valid = valid₀;
        same = λ q. reads q ∙ merged-view later db p.valid q ∙ ground (arith, p.fresh q);
      } in
      let (d, run', stands) = p.leads d₀ (0 + length snap) stands₀ in
      let temp_is : temp ≡ log_file w.created_ms snap = ground (arith, sym left ∙ w.file) in
      (
        w.created_ms,
        record {
          records = snap ++ p.diff;
          loggable = All-append snap p.diff w.loggable p.loggable;
          file =
              file
              ∙ ap (λ b. temp ++ diff_bytes b) p.buffer
              ∙ ap (λ t. t ++ encode_all p.diff) temp_is
              ∙ append_assoc (file_header w.created_ms) (encode_all snap) (encode_all p.diff)
              ∙ ap (λ b. file_header w.created_ms ++ b) (sym (encode_all-append snap p.diff));
          store = d;
          replays =
              replay_all-append (env_at later) 0 snap p.diff (db_create start_ms) d₀ run ∙ run';
          stands = record { valid = stands.valid; same = λ q. stands.same q ∙ sym (same q) };
          valid = valid;
        },
      )

  -- a step that logs nothing
  pub Moves-Alive :
      (st st' : State) (child : Child) (w : Waited)
      → Moves st.aof w st'.aof
      → IsValid st'.db
      → NoneStale later st'.db
      → ((q : Bytes) → view st'.db q ≡ view st.db q)
      → (w ≡ exited 0 → child.done ≡ true)
      → Alive later start_ms st child
      → Alive later start_ms st' (forked st st' child)
  Moves-Alive st st' child w (rests file state buffer temp) valid fresh same exits alive =
      subst (Alive later start_ms st') (sym (forked_same st st' child state)) (record {
        created_ms = alive.created_ms;
        kept = Kept-same alive.created_ms start_ms later st st' alive.kept valid file same;
        fresh = fresh;
        storable = same-IsStorable st.db st'.db alive.storable same;
        pending = λ e.
            let p = alive.pending (sym state ∙ e) in
            record {
              diff = p.diff;
              loggable = p.loggable;
              buffer = buffer ∙ p.buffer;
              leads = Leads-same later child.fork st.db st'.db p.diff same p.leads;
              valid = p.valid;
              fresh = p.fresh;
              storable = p.storable;
              whole = λ done. subst (Whole later child.fork) (sym temp) (p.whole done);
            };
      })
  Moves-Alive st st' child w (begins file was now buffer) valid fresh same exits alive =
      subst (Alive later start_ms st') (sym (forked_begins st st' child was now)) (record {
        created_ms = alive.created_ms;
        kept = Kept-same alive.created_ms start_ms later st st' alive.kept valid file same;
        fresh = fresh;
        storable = same-IsStorable st.db st'.db alive.storable same;
        pending = λ e. record {
          diff = [];
          loggable = tt;
          buffer = buffer;
          leads = nothing-Leads later st'.db;
          valid = valid;
          fresh = fresh;
          storable = same-IsStorable st.db st'.db alive.storable same;
          whole = λ done. ground (arith, done);
        };
      })
  Moves-Alive st st' child w (given_up file over) valid fresh same exits alive =
      at_rest-Alive alive.created_ms st' (forked st st' child)
        (Kept-same alive.created_ms start_ms later st st' alive.kept valid file same) fresh
        (same-IsStorable st.db st'.db alive.storable same) (λ e. ground (arith, sym over ∙ e))
  Moves-Alive st st' child w (completes temp was ended left file over) valid fresh same exits
        alive =
      let p = alive.pending was in
      let (created_ms, kept) =
        completed-Kept st st' child temp p (p.whole (exits ended)) left file valid same in
      at_rest-Alive created_ms st' (forked st st' child) kept fresh
        (same-IsStorable st.db st'.db alive.storable same) (λ e. ground (arith, sym over ∙ e))
