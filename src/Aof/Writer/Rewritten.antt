-- ===== src/Aof/Writer/Rewritten.antt =====
-- src/aof.c: the log after a rewrite, loaded.
use mathlib.Core.List.{append-nil, append_assoc}
use bytekv.Prelude.{
  subst, length, suc, ℕ, ◌++◌, ◌+◌, ◌≡◌, refl, sym, ◌∙◌, ap, true, none, some, List, [], ◌∷◌, arith,
  All, inl,
}
use bytekv.Prelude.Bytes.{Bytes}
use bytekv.Prelude.Int.{ℤ, ◌≤ℤ◌}
use bytekv.Ht.{Status, success}
use bytekv.Ht.Resize.{flatten-Reads}
use bytekv.Db.{Db, db_create}
use bytekv.Db.Model.{Models, IsValid, view, db_create-Models}
use bytekv.Aof.{file_header, encode, LogRecord, IsLoggable}
use bytekv.Aof.Recovery.{Env, aof_load, loaded}
use bytekv.Aof.Recovery.Torn.{encode_all, replay_all_head, replay_all_step, replay_all}
use bytekv.Aof.Recovery.Load.{log_file, aof_load-torn}
use bytekv.Aof.Writer.Child.{aof_rewrite_child}
use bytekv.Aof.Writer.Snapshot.{snapshot, unless_stale, env_at}
use bytekv.Aof.Writer.Compaction.{entries, snapshot_replays, aof_rewrite_child-entries, merged-view}

pub encode_all-append :
    (rs later_rs : List LogRecord)
    → encode_all (rs ++ later_rs) ≡ encode_all rs ++ encode_all later_rs
encode_all-append [] later_rs = refl
encode_all-append (r ∷ rs) later_rs =
    ap (λ t. encode r ++ t) (encode_all-append rs later_rs)
    ∙ sym (append_assoc (encode r) (encode_all rs) (encode_all later_rs))

pub All-append :
    (rs later_rs : List LogRecord)
    → All IsLoggable rs
    → All IsLoggable later_rs
    → All IsLoggable (rs ++ later_rs)
All-append [] later_rs h h' = h'
All-append (r ∷ rs) later_rs (fits, h) h' = (fits, All-append rs later_rs h h')

pub replay_all-append :
    (env : Env) (n : ℕ) (rs later_rs : List LogRecord) (db db' : Db)
    → replay_all env n rs db ≡ (success, db')
    → replay_all env n (rs ++ later_rs) db ≡ replay_all env (n + length rs) later_rs db'
unfolding replay_all
replay_all-append env n [] later_rs db db' run =
    let same : db ≡ db' = ap (λ (x : Status × Db). x.1) run in
    let number : n ≡ n + 0 = omega arith in
    ap (λ x. replay_all env n later_rs x) same ∙ ap (λ k. replay_all env k later_rs db') number
replay_all-append env n (r ∷ rs) later_rs db db' run =
    let (d, step, later) = replay_all_head env n r rs db db' run in
    let number : n + 1 + length rs ≡ n + suc (length rs) = omega arith in
    replay_all_step env n r (rs ++ later_rs) db d step
    ∙ replay_all-append env (n + 1) rs later_rs d db' later
    ∙ ap (λ k. replay_all env k later_rs db') number

-- the store that the child's records give when they are loaded
unfoldable pub reloaded : ℤ → ℤ → (ℕ → ℤ) → Db → Db
reloaded later start_ms clock db =
    (replay_all (env_at later) 0 (snapshot clock 0 db (entries db)) (db_create start_ms)).1

-- For a valid store whose entries give records that `aof_append` could have written, the child of a
-- rewrite, where its system calls succeed, leaves a file whose records, loaded into a new store at
-- a time not before the readings of the child's clock and with memory for everything, give a valid
-- store that stands for the same map, without the keys that are past their expiry at that time.
-- Where the replays of further such records on that store succeed, the file followed by those
-- records is loaded in full, and gives the store after those replays.
pub rewritten_log-aof_load :
    (created_ms later start_ms : ℤ) (clock : ℕ → ℤ) (buf : Bytes) (db d : Db) (rs : List LogRecord)
    → IsValid db
    → ((n : ℕ) → clock n ≤ℤ later)
    → All IsLoggable (snapshot clock 0 db (entries db))
    → All IsLoggable rs
    → replay_all
        (env_at later)
        (length (snapshot clock 0 db (entries db)))
        rs
        (reloaded later start_ms clock db)
      ≡ (success, d)
    → Models (λ q. unless_stale later (view db q)) (reloaded later start_ms clock db)
      × ((file : Bytes) × (aof_rewrite_child created_ms clock true db ≡ some file)
          × (aof_load (env_at later) (file ++ encode_all rs) buf (db_create start_ms)
              ≡ loaded d (file ++ encode_all rs)))
unfolding reloaded
rewritten_log-aof_load created_ms later start_ms clock buf db d rs valid order loggable logged
      run_rs =
    let snap = snapshot clock 0 db (entries db) in
    let once = λ (q : Bytes). (flatten-Reads db.keyspace.table valid.keyspace.reads q).0 in
    let (d₀, run, (valid', reads)) =
      snapshot_replays clock later db order valid.positive (entries db) 0 0 (λ _. none)
        (db_create start_ms) once (λ q v h. refl) (db_create-Models start_ms) in
    let same : (replay_all (env_at later) 0 snap (db_create start_ms)).1 ≡ d₀ =
      ap (λ (x : Status × Db). x.1) run in
    let number : 0 + length snap ≡ length snap = omega arith in
    let whole : replay_all (env_at later) 0 (snap ++ rs) (db_create start_ms) ≡ (success, d) =
      replay_all-append (env_at later) 0 snap rs (db_create start_ms) d₀ run
      ∙ ap (λ k. replay_all (env_at later) k rs d₀) number
      ∙ ap (λ x. replay_all (env_at later) (length snap) rs x) (sym same)
      ∙ run_rs in
    let bytes : log_file created_ms (snap ++ rs) ≡ log_file created_ms snap ++ encode_all rs =
      ap (λ b. file_header created_ms ++ b) (encode_all-append snap rs)
      ∙ sym (append_assoc (file_header created_ms) (encode_all snap) (encode_all rs)) in
    let load : aof_load (env_at later) (log_file created_ms (snap ++ rs)) buf (db_create start_ms)
        ≡ loaded d (log_file created_ms (snap ++ rs)) =
      ap (λ f. aof_load (env_at later) f buf (db_create start_ms))
        (sym (append-nil (log_file created_ms (snap ++ rs))))
      ∙ aof_load-torn (env_at later) created_ms (snap ++ rs) buf (db_create start_ms) d refl
          (All-append snap rs loggable logged) whole [] (inl refl) in
    (
      subst (Models (λ q. unless_stale later (view db q))) (sym same)
          (valid', λ q. reads q ∙ merged-view later db valid q),
      (
        log_file created_ms snap,
        aof_rewrite_child-entries created_ms clock db valid loggable,
        subst (λ f. aof_load (env_at later) f buf (db_create start_ms) ≡ loaded d f) bytes load,
      ),
    )
