-- ===== src/Session/Tracks.antt =====
-- Records that lead from the map of one store to that of another, as a session logs them.
use bytekv.Prelude.{
  ℕ, ◌+◌, ◌≡◌, refl, ◌∙◌, sym, ap, ◌⊎◌, inl, inr, true, false, ◌&&◌, Option, none, some, List, [],
  ◌∷◌, ◌++◌, arith, length,
}
use bytekv.Prelude.Bytes.{Bytes}
use bytekv.Prelude.Int.{ℤ, pos, ltb_ℤ, ◌≤ℤ◌}
use bytekv.Ht.{Status, success}
use bytekv.Db.{Db}
use bytekv.Db.Model.{Item, IsValid, view, expiry}
use bytekv.Db.Reads.{stale}
use bytekv.Aof.{LogRecord, opcode_byte}
use bytekv.Aof.Recovery.{replay_op}
use bytekv.Aof.Recovery.Round.{replay}
use bytekv.Aof.Recovery.Torn.{replay_at, replay_all, replay_all_step}
use bytekv.Aof.Writer.{Config}
use bytekv.Aof.Writer.Snapshot.{env_at}
use bytekv.Aof.Writer.Rewritten.{replay_all-append}
use bytekv.Command.Handlers.{State, Io}
use bytekv.Command.Logged.{Unlogged, Logged}
use bytekv.Session.Same.{Same, replay_op-Follows}

abbrev pub NoneStale : ℤ → Db → Type 0
NoneStale later db = (q : Bytes) → stale later (view db q) ≡ false

pub stale_monotone :
    (now later : ℤ) (item : Option Item)
    → now ≤ℤ later
    → stale later item ≡ false
    → stale now item ≡ false
stale_monotone now later none le h = refl
stale_monotone now later (some item) le h = ground (arith, h, le)

-- a record whose time is the expiry of a key that is not stale is not skipped
not_skipped :
    (later t : ℤ) (item : Option Item)
    → stale later item ≡ false
    → (t ≤ℤ pos 0) ⊎ (expiry item ≡ some t)
    → (ltb_ℤ (pos 0) t && ltb_ℤ t later) ≡ false
not_skipped later t item fresh (inl low) = ground (arith, low)
not_skipped later t none fresh (inr e) = ground (arith, e)
not_skipped later t (some item) fresh (inr e) = ground (arith, e, fresh)

-- A store that stands for the map `db` stands for.
pub record Stands (db d : Db) : Type 0 where
  pub valid : IsValid d
  pub same : Same d db

module _ (cfg : Config) (io : Io) (later : ℤ) (st st' : State) where
  -- A command that is not logged changes no key that is not past its expiry.
  pub Unlogged-keys :
      NoneStale later st.db
      → st.now_realtime_ms ≤ℤ later
      → Unlogged cfg io st st'
      → (q : Bytes) → view st'.db q ≡ view st.db q
  Unlogged-keys fresh le u q =
      ground (arith, u.keys q, stale_monotone st.now_realtime_ms later (view st.db q) le (fresh q))

  -- With memory, the operation of the record takes the store to the one after the command.
  pub Logged-replay_op :
      io.mem_key ≡ true
      → io.mem_ttl ≡ true
      → (l : Logged cfg io st st')
      → replay_op true true
          (opcode_byte l.entry.op)
          l.entry.key
          l.entry.value
          l.entry.expire_at
          st.db
        ≡ (success, st'.db)
  Logged-replay_op mem_key mem_ttl l =
      let r = l.entry in
      ap (λ b. replay_op b true (opcode_byte r.op) r.key r.value r.expire_at st.db) (sym mem_key)
      ∙ ap (λ b. replay_op io.mem_key b (opcode_byte r.op) r.key r.value r.expire_at st.db)
          (sym mem_ttl)
      ∙ l.replays

  -- The record of a command that is logged, replayed on a store that stands for the same map, gives
  -- one that stands for the map after the command.
  pub Logged-step :
      (d : Db) (n : ℕ)
      → IsValid st.db
      → Stands st.db d
      → NoneStale later st'.db
      → io.mem_key ≡ true
      → io.mem_ttl ≡ true
      → (l : Logged cfg io st st')
      → (d' : Db) × (replay_at (env_at later) n l.entry d ≡ (success, d')) × Stands st'.db d'
  unfolding replay
  Logged-step d n valid stands fresh mem_key mem_ttl l =
      let r = l.entry in
      let live = Logged-replay_op mem_key mem_ttl l in
      let (done, valid_d, same) =
        replay_op-Follows stands.valid valid stands.same r.key r.op r.value r.expire_at
          (ap (λ (x : Status × Db). x.0) live) in
      let d' = (replay_op true true (opcode_byte r.op) r.key r.value r.expire_at d).1 in
      let kept_time = not_skipped later r.expire_at (view st'.db r.key) (fresh r.key) l.timed in
      (
        d',
        rw kept_time (ap (λ status. (status, d')) done),
        record { valid = valid_d; same = λ q. same q ∙ ap (λ (x : Status × Db). view x.1 q) live },
      )

-- From every store that stands for the map of the first one, the replay of the records succeeds, with a
-- store that stands for the map of the second.
unfoldable pub Leads : ℤ → Db → List LogRecord → Db → Type 0
Leads later from rs to =
    (d : Db) (n : ℕ)
    → Stands from d
    → (d' : Db) × (replay_all (env_at later) n rs d ≡ (success, d')) × Stands to d'

pub nothing-Leads : (later : ℤ) (db : Db) → Leads later db [] db
unfolding Leads replay_all
nothing-Leads later db d n stands = (d, refl, stands)

pub Leads-same :
    (later : ℤ) (from to to' : Db) (rs : List LogRecord)
    → ((q : Bytes) → view to' q ≡ view to q)
    → Leads later from rs to
    → Leads later from rs to'
unfolding Leads
Leads-same later from to to' rs same leads d n stands =
    let (d', run, stands') = leads d n stands in
    (d', run, record { valid = stands'.valid; same = λ q. stands'.same q ∙ sym (same q) })

-- One more command that is logged is one more record.
pub Leads-Logged :
    (cfg : Config) (io : Io) (later : ℤ) (from : Db) (rs : List LogRecord) (st st' : State)
    → Leads later from rs st.db
    → IsValid st.db
    → NoneStale later st'.db
    → io.mem_key ≡ true
    → io.mem_ttl ≡ true
    → (l : Logged cfg io st st') → Leads later from (rs ++ (l.entry ∷ [])) st'.db
unfolding Leads replay_all
Leads-Logged cfg io later from rs st st' leads valid fresh mem_key mem_ttl l d n stands =
    let (d₁, run, stands₁) = leads d n stands in
    let (d₂, step, stands₂) =
      Logged-step cfg io later st st' d₁ (n + length rs) valid stands₁ fresh mem_key mem_ttl l in
    (
      d₂,
      replay_all-append (env_at later) n rs (l.entry ∷ []) d d₁ run
          ∙ replay_all_step (env_at later) (n + length rs) l.entry [] d₁ d₂ step,
      stands₂,
    )
