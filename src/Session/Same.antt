-- ===== src/Session/Same.antt =====
-- The operations of src/db.c on two stores that stand for the same map.
use bytekv.Prelude.{◌≡◌, refl, ◌∙◌, sym, inl, inr, true, Bool-cases, Option-cases, arith}
use bytekv.Prelude.Bytes.{Bytes}
use bytekv.Prelude.Int.{ℤ, pos, ltb_ℤ}
use bytekv.Ht
use bytekv.Ht.{Status, success, failure}
use bytekv.Db.{Db, db_set, db_setex, db_del, db_persist, db_key_expire}
use bytekv.Db.Model.{IsValid, view}
use bytekv.Db.Writes.{
  db_del-Models, db_set-Models, db_setex-Models, db_setex_not_positive, db_persist-Models,
  db_key_expire-Models, db_key_expire_refused,
}
use bytekv.Aof.{Opcode, set, del, setex, expire, persist, opcode_byte}
use bytekv.Aof.Recovery.{replay_op}

abbrev pub Same : Db → Db → Type 0
Same d db = (q : Bytes) → view d q ≡ view db q

-- Where the second of two results is a success, the first is one too, with a valid store that
-- stands for the same map.
abbrev pub Follows : Status × Db → Status × Db → Type 0
Follows (status_d, d) (status, db) = status ≡ success → (status_d ≡ success) × IsValid d × Same d db

module _ {d db : Db} (valid_d : IsValid d) (valid : IsValid db) (same : Same d db) (k : Bytes) where
  set-Follows : (value : Bytes) → Follows (db_set true d k value) (db_set true db k value)
  set-Follows value h =
      let (m_d, done_d) = db_set-Models valid_d k true value (λ _. refl) in
      let (m, done) = db_set-Models valid k true value (λ _. refl) in
      (done_d, m_d.0, λ q. ground (arith, m_d.1 q, m.1 q, same q, same k))

  del-Follows : Follows (db_del d k) (db_del db k)
  unfolding Ht.exists view
  del-Follows h =
      let (m_d, done_d) = db_del-Models valid_d k in
      let (m, done) = db_del-Models valid k in
      (
        ground (arith, done_d, sym done ∙ h, same k),
        m_d.0,
        λ q. ground (arith, m_d.1 q, m.1 q, same q),
      )

  persist-Follows : Follows (db_persist d k) (db_persist db k)
  unfolding Ht.exists view
  persist-Follows h =
      let (m_d, done_d) = db_persist-Models valid_d k in
      let (m, done) = db_persist-Models valid k in
      (
        ground (arith, done_d, sym done ∙ h, same k, valid.owned k, valid_d.owned k),
        m_d.0,
        λ q. ground (arith, m_d.1 q, m.1 q, same q, same k),
      )

  setex-Follows :
      (value : Bytes) (t : ℤ)
      → Follows (db_setex true true d k value t) (db_setex true true db k value t)
  setex-Follows value t = elim (Bool-cases (ltb_ℤ (pos 0) t)) [
    | inl positive ↦ λ h.
        let (m_d, done_d) =
          db_setex-Models valid_d k true true value t (ground arith) (λ _. refl) (λ _. refl) in
        let (m, done) =
          db_setex-Models valid k true true value t (ground arith) (λ _. refl) (λ _. refl) in
        (done_d, m_d.0, λ q. ground (arith, m_d.1 q, m.1 q, same q))
    | inr other ↦
        rw
          (
            db_setex_not_positive true true d k value t (ground arith),
            db_setex_not_positive true true db k value t (ground arith),
          )
          (set-Follows value)
  ]

  expire-Follows : (t : ℤ) → Follows (db_key_expire true d k t) (db_key_expire true db k t)
  expire-Follows t = elim (Bool-cases (ltb_ℤ (pos 0) t)) [
    | inr other ↦
        rw (db_key_expire_refused valid k true t (inl (ground arith))) (λ h. ground (arith, h))
    | inl positive ↦ elim (Option-cases (view db k)) [
      | inl absent ↦ rw (db_key_expire_refused valid k true t (inr absent)) (λ h. ground (arith, h))
      | inr (item, here) ↦ λ h.
          let (m_d, done_d) =
            db_key_expire-Models valid_d k true t item (same k ∙ here) (ground arith) (λ _. refl) in
          let (m, done) =
            db_key_expire-Models valid k true t item here (ground arith) (λ _. refl) in
          (done_d, m_d.0, λ q. ground (arith, m_d.1 q, m.1 q, same q, same k))
    ]
  ]

  -- the replay of any operation
  pub replay_op-Follows :
      (op : Opcode) (value : Bytes) (t : ℤ)
      → Follows
          (replay_op true true (opcode_byte op) k value t d)
          (replay_op true true (opcode_byte op) k value t db)
  unfolding replay_op
  replay_op-Follows set value t = set-Follows value
  replay_op-Follows del value t = del-Follows
  replay_op-Follows setex value t = setex-Follows value t
  replay_op-Follows expire value t = expire-Follows t
  replay_op-Follows persist value t = persist-Follows
