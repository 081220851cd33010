-- ===== src/Broker/Store/Messages.antt =====
-- ramqp-broker/src/store.rs: what a batch does to the stored row of one message of one queue.
use r_amqp.Common.{
  ℕ, zero, suc, ◌+◌, ◌≤◌, ◌≡◌, refl, arith, inl, inr, Bool, false, not, ◌&&◌, ◌||◌, Bool-cases,
  Option, none, some, List, [], ◌∷◌, ◌++◌, ◌==◌, if◌then◌else◌, length, take, drop, Table, find,
  put, delete, retain_keys, find-put, find-delete, wrapping_add32, ==_iff, subst,
}
use r_amqp.Broker.Store.{
  Row, StoreOp, insert, remove, fail, raft_append, raft_vote, raft_truncate, raft_purge,
  raft_snapshot, Tables, fail_row, apply_op, apply_ops,
}

-- How many rows have a key.
abbrev pub rows_at : ℕ → ℕ → Table Row → ℕ
rows_at a b [] = 0
rows_at a b (((c, d), r) ∷ t) = (if c == a && d == b then 1 else 0) + rows_at a b t

-- A row has an enqueue time and a body length.
abbrev pub Describes : ℕ × ℕ → Option Row → Type 0
Describes x none = ⊥
Describes x (some r) = (r.enqueued_ms ≡ x.0) × (length r.body ≡ x.1)

module _ (q i : ℕ) where
  -- An operation that writes or removes the message.
  abbrev pub touches : StoreOp → Bool
  touches (insert q' id ms body done) = q' == q && id == i
  touches (remove q' id) = q' == q && id == i
  touches (fail q' id) = false
  touches (raft_append group entries done) = false
  touches (raft_vote group vote done) = false
  touches (raft_truncate group since done) = false
  touches (raft_purge group upto marker done) = false
  touches (raft_snapshot group snap_meta blob done) = false

  abbrev pub touched : List StoreOp → Bool
  touched [] = false
  touched (op ∷ ops) = touches op || touched ops

  pub touched-append : (xs ys : List StoreOp) → touched (xs ++ ys) ≡ (touched xs || touched ys)
  touched-append [] ys = refl
  touched-append (x ∷ xs) ys = ground (arith, touched-append xs ys)

  pub touched-take-drop :
      (n : ℕ) (ops : List StoreOp)
      → touched ops ≡ false
      → (touched (take n ops) ≡ false) × (touched (drop n ops) ≡ false)
  touched-take-drop zero ops h = (refl, h)
  touched-take-drop (suc n) [] h = (refl, refl)
  touched-take-drop (suc n) (op ∷ ops) h = ground (arith, touched-take-drop n ops)

  rows_at-retain_keys :
      (p : ℕ → ℕ → Bool) (t : Table Row)
      → rows_at q i (retain_keys p t) ≡ (if p q i then rows_at q i t else 0)
  rows_at-retain_keys p [] = ground arith
  rows_at-retain_keys p (((c, d), r) ∷ t) = ground (arith, rows_at-retain_keys p t)

  -- A table of the store has one row for a key at most.
  pub put-once :
      (a b : ℕ) (r : Row) (t : Table Row) → rows_at q i t ≤ 1 → rows_at q i (put a b r t) ≤ 1
  put-once a b r t h =
      ground (arith, rows_at-retain_keys (λ x y. not (x == a && y == b)) t, ==_iff a q, ==_iff b i)

  pub delete-once : (a b : ℕ) (t : Table Row) → rows_at q i t ≤ 1 → rows_at q i (delete a b t) ≤ 1
  delete-once a b t h = ground (arith, rows_at-retain_keys (λ x y. not (x == a && y == b)) t)

  fail_row-once :
      (a b : ℕ) (o : Option Row) (t : Table Row)
      → rows_at q i t ≤ 1
      → rows_at q i (fail_row a b o t) ≤ 1
  unfolding fail_row
  fail_row-once a b none t h = h
  fail_row-once a b (some r) t h =
      put-once a b (record r { failures = wrapping_add32 r.failures 1 }) t h

  pub apply_op-once :
      (op : StoreOp) (d : Tables)
      → rows_at q i d.messages ≤ 1
      → rows_at q i (apply_op op d).messages ≤ 1
  unfolding apply_op
  apply_op-once (insert a b ms body done) d h =
      put-once a b (record { failures = 0; enqueued_ms = ms; body = body }) d.messages h
  apply_op-once (remove a b) d h = delete-once a b d.messages h
  apply_op-once (fail a b) d h = fail_row-once a b (find a b d.messages) d.messages h
  apply_op-once (raft_append group entries done) d h = h
  apply_op-once (raft_vote group vote done) d h = h
  apply_op-once (raft_truncate group since done) d h = h
  apply_op-once (raft_purge group upto marker done) d h = h
  apply_op-once (raft_snapshot group snap_meta blob done) d h = h

  pub apply_ops-once :
      (ops : List StoreOp) (d : Tables)
      → rows_at q i d.messages ≤ 1
      → rows_at q i (apply_ops ops d).messages ≤ 1
  unfolding apply_ops
  apply_ops-once [] d h = h
  apply_ops-once (op ∷ ops) d h = apply_ops-once ops (apply_op op d) (apply_op-once op d h)

  module _ (x : ℕ × ℕ) where
    put-Describes :
        (a b : ℕ) (r : Row) (t : Table Row)
        → ((a == q && b == i) ≡ false)
        → Describes x (find q i t)
        → Describes x (find q i (put a b r t))
    put-Describes a b r t e h =
        subst (Describes x)
          (ground (arith, find-put q i a b r t, ==_iff a q, ==_iff b i, ==_iff q a, ==_iff i b)) h

    fail_row-Describes :
        (a b : ℕ) (o : Option Row) (t : Table Row)
        → find a b t ≡ o
        → Describes x (find q i t)
        → Describes x (find q i (fail_row a b o t))
    unfolding fail_row
    fail_row-Describes a b none t e h = h
    fail_row-Describes a b (some r) t e h = elim (Bool-cases (a == q && b == i)) [
      | inr other ↦
          put-Describes a b (record r { failures = wrapping_add32 r.failures 1 }) t other h
      | inl same ↦
          let at : find q i t ≡ some r = ground (arith, e, same, ==_iff a q, ==_iff b i) in
          let h' : Describes x (some r) = subst (Describes x) at h in
          let found : some (record r { failures = wrapping_add32 r.failures 1 })
              ≡ find q i (put a b (record r { failures = wrapping_add32 r.failures 1 }) t) =
            ground (
              arith,
              same,
              find-put q i a b (record r { failures = wrapping_add32 r.failures 1 }) t,
              ==_iff a q,
              ==_iff b i,
            ) in
          subst (Describes x) found h'
    ]

    -- An operation that does not touch a row keeps its time and its length.
    apply_op-Describes :
        (op : StoreOp) (d : Tables)
        → touches op ≡ false
        → Describes x (find q i d.messages)
        → Describes x (find q i (apply_op op d).messages)
    unfolding apply_op
    apply_op-Describes (insert a b ms body done) d e h =
        put-Describes a b (record { failures = 0; enqueued_ms = ms; body = body }) d.messages e h
    apply_op-Describes (remove a b) d e h =
        subst (Describes x)
          (ground
            (arith, find-delete q i a b d.messages, ==_iff a q, ==_iff b i, ==_iff q a, ==_iff i b))
          h
    apply_op-Describes (fail a b) d e h =
        fail_row-Describes a b (find a b d.messages) d.messages refl h
    apply_op-Describes (raft_append group entries done) d e h = h
    apply_op-Describes (raft_vote group vote done) d e h = h
    apply_op-Describes (raft_truncate group since done) d e h = h
    apply_op-Describes (raft_purge group upto marker done) d e h = h
    apply_op-Describes (raft_snapshot group snap_meta blob done) d e h = h

    pub apply_ops-Describes :
        (ops : List StoreOp) (d : Tables)
        → touched ops ≡ false
        → Describes x (find q i d.messages)
        → Describes x (find q i (apply_ops ops d).messages)
    unfolding apply_ops
    apply_ops-Describes [] d e h = h
    apply_ops-Describes (op ∷ ops) d e h =
        apply_ops-Describes ops (apply_op op d) (ground (arith, e))
          (apply_op-Describes op d (ground (arith, e)) h)
