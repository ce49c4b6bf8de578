-- ===== src/Command/Logged/Writes.antt =====
-- src/command.c: the handlers that change the store, against the log after them.
use bytekv.Prelude.{
  ◌≡◌, refl, ◌∙◌, sym, inl, inr, Bool, true, Bool-cases, Option-cases, Option, none, some, List, [],
  arith, ◌⊎◌,
}
use bytekv.Prelude.Bytes.{Bytes, str_eq_iff, str_eq_refl}
use bytekv.Prelude.Int.{ℤ, pos, ltb_ℤ, IsI64, ◌≤ℤ◌}
use bytekv.Prelude.Text.{codes}
use bytekv.Ht
use bytekv.Ht.{Status, success, failure}
use bytekv.Db.{Db, db_set, db_setex, db_del, db_persist, db_key_expire}
use bytekv.Db.Model.{IsValid, view, expiry}
use bytekv.Db.Writes.{
  db_del-Models, db_set-Models, db_setex-Models, db_setex_not_positive, db_persist-Models,
  db_key_expire-Models, db_key_expire_refused,
}
use bytekv.Aof.{Opcode, set, del, setex, expire, persist, LogRecord, IsLoggable}
use bytekv.Aof.Recovery.{replay_op}
use bytekv.Aof.Writer.{Config}
use bytekv.Command.Reply.{parse_seconds}
use bytekv.Command.Handlers.{
  State, Io, arg, expire_time, cmd_set, setex_for, cmd_setex, expire_for, cmd_expire, cmd_persist,
  cmd_del,
}
use bytekv.Command.Logged.{
  Ready, Outcome, IsDurable, arg-IsText, arg-total, two_args-total, finish_write-Outcome,
  expire_time-IsI64,
}

pub cmd_set-IsDurable : IsDurable cmd_set
unfolding cmd_set IsDurable replay_op
cmd_set-IsDurable cfg io argv st resp ready =
    let key = arg 1 argv in
    let value = arg 2 argv in
    let (m, done) = db_set-Models ready.valid key io.mem_key value (λ _. ready.mem_key) in
    let r : LogRecord = record { op = set; key = key; value = value; expire_at = pos 0 } in
    let loggable : IsLoggable r = record {
      key = arg-IsText 1 argv ready.words;
      value = arg-IsText 2 argv ready.words;
      fits = omega (arith, ready.room, two_args-total 0 argv);
      time = omega arith;
    } in
    finish_write-Outcome cfg io argv r (codes "-ERR SET COMMAND\n")
      (db_set io.mem_key st.db key value) st resp ready loggable refl m.0
      (λ h. ground (arith, sym done ∙ h)) (λ _. inl (omega arith))

-- the logged record of a command that has a key and no value
key_only-IsLoggable :
    (cfg : Config) (io : Io) (argv : List Bytes) (st : State) (op : Opcode) (t : ℤ)
    → Ready cfg io argv st
    → IsI64 t
    → IsLoggable (record { op = op; key = arg 1 argv; value = []; expire_at = t })
key_only-IsLoggable cfg io argv st op t ready time = record {
  key = arg-IsText 1 argv ready.words;
  value = tt;
  fits = omega (arith, ready.room, arg-total 1 argv);
  time = time;
}

pub cmd_del-IsDurable : IsDurable cmd_del
unfolding cmd_del IsDurable replay_op Ht.exists view
cmd_del-IsDurable cfg io argv st resp ready =
    let key = arg 1 argv in
    let (m, done) = db_del-Models ready.valid key in
    let r : LogRecord = record { op = del; key = key; value = []; expire_at = pos 0 } in
    finish_write-Outcome cfg io argv r (codes "-ERR DEL COMMAND\n") (db_del st.db key) st resp ready
      (key_only-IsLoggable cfg io argv st del (pos 0) ready (omega arith)) refl m.0
      (λ h q. ground (arith, sym done ∙ h, m.1 q, str_eq_iff key q)) (λ _. inl (omega arith))

pub cmd_persist-IsDurable : IsDurable cmd_persist
unfolding cmd_persist IsDurable replay_op Ht.exists view
cmd_persist-IsDurable cfg io argv st resp ready =
    let key = arg 1 argv in
    let (m, done) = db_persist-Models ready.valid key in
    let r : LogRecord = record { op = persist; key = key; value = []; expire_at = pos 0 } in
    finish_write-Outcome cfg io argv r (codes "-ERR PERSIST COMMAND\n") (db_persist st.db key) st
      resp ready (key_only-IsLoggable cfg io argv st persist (pos 0) ready (omega arith)) refl m.0
      (λ h q. ground (arith, sym done ∙ h, m.1 q, str_eq_iff key q)) (λ _. inl (omega arith))

db_setex-stored :
    {db : Db} (valid : IsValid db) (k : Bytes) (mem_key mem_ttl : Bool) (value : Bytes) (t : ℤ)
    → mem_key ≡ true
    → mem_ttl ≡ true
    → IsValid (db_setex mem_key mem_ttl db k value t).1
      × ((db_setex mem_key mem_ttl db k value t).0 ≡ success)
      × ((t ≤ℤ pos 0) ⊎ (expiry (view (db_setex mem_key mem_ttl db k value t).1 k) ≡ some t))
db_setex-stored {db} valid k mem_key mem_ttl value t room_key room_ttl =
    elim (Bool-cases (ltb_ℤ (pos 0) t)) [
      | inl positive ↦
          let (m, done) =
            db_setex-Models valid k mem_key mem_ttl value t (ground arith) (λ _. room_key)
              (λ _. room_ttl) in
          (m.0, done, inr (ground (arith, m.1 k, str_eq_refl k)))
      | inr other ↦
          let (m, done) = db_set-Models valid k mem_key value (λ _. room_key) in
          rw (db_setex_not_positive mem_key mem_ttl db k value t (ground arith))
            (m.0, done, inl (ground arith))
    ]

setex_for-IsDurable : (seconds : Option ℤ) → IsDurable (setex_for seconds)
unfolding setex_for IsDurable Outcome replay_op
setex_for-IsDurable none cfg io argv st resp ready =
    (ready.valid, inl (record { file = refl; quiet = inl refl; keys = λ q. inl refl }))
setex_for-IsDurable (some seconds) cfg io argv st resp ready =
    let key = arg 1 argv in
    let value = arg 3 argv in
    let t = expire_time st.now_realtime_ms seconds in
    let (valid, done, timed) =
      db_setex-stored ready.valid key io.mem_key io.mem_ttl value t ready.mem_key ready.mem_ttl in
    let r : LogRecord = record { op = setex; key = key; value = value; expire_at = t } in
    let loggable : IsLoggable r = record {
      key = arg-IsText 1 argv ready.words;
      value = arg-IsText 3 argv ready.words;
      fits = omega (arith, ready.room, two_args-total 1 argv);
      time = expire_time-IsI64 st.now_realtime_ms seconds;
    } in
    finish_write-Outcome cfg io argv r (codes "-ERR SETEX COMMAND\n")
      (db_setex io.mem_key io.mem_ttl st.db key value t) st resp ready loggable refl valid
      (λ h. ground (arith, sym done ∙ h)) (λ _. timed)

pub cmd_setex-IsDurable : IsDurable cmd_setex
unfolding cmd_setex IsDurable
cmd_setex-IsDurable cfg io argv = setex_for-IsDurable (parse_seconds (arg 2 argv)) cfg io argv

db_key_expire-stored :
    {db : Db} (valid : IsValid db) (k : Bytes) (mem : Bool) (t : ℤ)
    → mem ≡ true
    → IsValid (db_key_expire mem db k t).1
      × ((db_key_expire mem db k t).0 ≡ failure
          → (q : Bytes) → view (db_key_expire mem db k t).1 q ≡ view db q)
      × ((db_key_expire mem db k t).0 ≡ success
          → (t ≤ℤ pos 0) ⊎ (expiry (view (db_key_expire mem db k t).1 k) ≡ some t))
db_key_expire-stored {db} valid k mem t room = elim (Bool-cases (ltb_ℤ (pos 0) t)) [
  | inr other ↦
      rw (db_key_expire_refused valid k mem t (inl (ground arith)))
        (valid, λ _ q. refl, λ _. inl (ground arith))
  | inl positive ↦ elim (Option-cases (view db k)) [
    | inl absent ↦
        rw (db_key_expire_refused valid k mem t (inr absent))
          (valid, λ _ q. refl, λ h. ground (arith, h))
    | inr (item, here) ↦
        let (m, done) = db_key_expire-Models valid k mem t item here (ground arith) (λ _. room) in
        (
          m.0,
          λ h. ground (arith, sym done ∙ h),
          λ _. inr (ground (arith, m.1 k, here, str_eq_refl k)),
        )
  ]
]

expire_for-IsDurable : (seconds : Option ℤ) → IsDurable (expire_for seconds)
unfolding expire_for IsDurable Outcome replay_op
expire_for-IsDurable none cfg io argv st resp ready =
    (ready.valid, inl (record { file = refl; quiet = inl refl; keys = λ q. inl refl }))
expire_for-IsDurable (some seconds) cfg io argv st resp ready =
    let key = arg 1 argv in
    let t = expire_time st.now_realtime_ms seconds in
    let (valid, same, timed) = db_key_expire-stored ready.valid key io.mem_ttl t ready.mem_ttl in
    let r : LogRecord = record { op = expire; key = key; value = []; expire_at = t } in
    finish_write-Outcome cfg io argv r (codes "-ERR EXPIRE COMMAND\n")
      (db_key_expire io.mem_ttl st.db key t) st resp ready
      (key_only-IsLoggable cfg io argv st expire t ready
        (expire_time-IsI64 st.now_realtime_ms seconds))
      refl valid same timed

pub cmd_expire-IsDurable : IsDurable cmd_expire
unfolding cmd_expire IsDurable
cmd_expire-IsDurable cfg io argv = expire_for-IsDurable (parse_seconds (arg 2 argv)) cfg io argv
