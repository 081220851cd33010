-- ===== src/Broker/Durable/Writing.antt =====
-- ramqp-broker/src/store.rs: where a message stands after a commit of the writer.
use r_amqp.Common.{
  ℕ, zero, suc, ◌≤◌, ◌≡◌, refl, subst, ◌⊎◌, inl, inr, arith, Bool, true, false, Bool-cases, Option,
  none, some, List, [], ◌∷◌, if◌then◌else◌, ==_iff, find, if_elim, take, drop, min, find-put,
}
use r_amqp.Broker.Store.{StoreOp, Row, Tables, apply_op, apply_ops, write_batch, commit_batch_max}
use r_amqp.Broker.Store.Messages.{
  rows_at, Describes, touched, touched-take-drop, apply_ops-once, apply_ops-Describes,
}
use r_amqp.Broker.Durable.State.{Pending, World}
use r_amqp.Broker.Durable.Run.{inserted, contains, answer_commits, write}
use r_amqp.Broker.Durable.Entries.{occurrences, At, At-mono}
use r_amqp.Broker.Durable.Sound.{keyed, Inserts, Awaits, Safe, Kept, Answered, Told, Sound}

module _ (q i : ℕ) where
  contains-inserted :
      (ops : List StoreOp) → touched q i ops ≡ false → contains i (inserted q ops) ≡ false
  unfolding inserted contains
  contains-inserted [] h = refl
  contains-inserted (StoreOp.insert q' id ms body done ∷ ops) h =
      ground (arith, contains-inserted ops, h)
  contains-inserted (StoreOp.remove q' id ∷ ops) h = contains-inserted ops (ground (arith, h))
  contains-inserted (StoreOp.fail q' id ∷ ops) h = contains-inserted ops h
  contains-inserted (StoreOp.raft_append g es done ∷ ops) h = contains-inserted ops h
  contains-inserted (StoreOp.raft_vote g v done ∷ ops) h = contains-inserted ops h
  contains-inserted (StoreOp.raft_truncate g s done ∷ ops) h = contains-inserted ops h
  contains-inserted (StoreOp.raft_purge g u m done ∷ ops) h = contains-inserted ops h
  contains-inserted (StoreOp.raft_snapshot g m b done ∷ ops) h = contains-inserted ops h

  contains-inserted_more :
      (op : StoreOp) (ops : List StoreOp)
      → contains i (inserted q ops) ≡ true
      → contains i (inserted q (op ∷ ops)) ≡ true
  unfolding inserted contains
  contains-inserted_more (StoreOp.insert q' id ms body done) ops h = ground (arith, h)
  contains-inserted_more (StoreOp.remove q' id) ops h = h
  contains-inserted_more (StoreOp.fail q' id) ops h = h
  contains-inserted_more (StoreOp.raft_append g es done) ops h = h
  contains-inserted_more (StoreOp.raft_vote g v done) ops h = h
  contains-inserted_more (StoreOp.raft_truncate g s done) ops h = h
  contains-inserted_more (StoreOp.raft_purge g u m done) ops h = h
  contains-inserted_more (StoreOp.raft_snapshot g m b done) ops h = h

  -- A batch takes the insert that a publish awaits, and writes the message; or it leaves the message.
  abbrev Split : ℕ × ℕ → ℕ → List StoreOp → Type 0
  Split x n ops =
      (Awaits q i x (drop n ops) × (touched q i (take n ops) ≡ false))
      ⊎ ((contains i (inserted q (take n ops)) ≡ true)
          × ((touched q i (drop n ops) ≡ false)
              × ((d : Tables) → Describes x (find q i (apply_ops (take n ops) d).messages))))

  Inserts-first :
      (x : ℕ × ℕ) (op : StoreOp) (ops : List StoreOp)
      → Inserts q i x op
      → touched q i ops ≡ false
      → (contains i (inserted q (op ∷ ops)) ≡ true)
        × ((d : Tables) → Describes x (find q i (apply_ops (op ∷ ops) d).messages))
  unfolding inserted contains apply_ops apply_op
  Inserts-first x (StoreOp.insert q' id ms body done) ops (eq, (e, (a, b))) h = (
    ground (arith, eq, e, ==_iff q' q, ==_iff id i),
    λ d.
        apply_ops-Describes q i x ops (apply_op (StoreOp.insert q' id ms body done) d) h
          (subst (Describes x) (there d) (a, b)),
  )
    where
      r : Row
      r = record { failures = 0; enqueued_ms = ms; body = body }

      there :
          (d : Tables) → some r ≡ find q i (apply_op (StoreOp.insert q' id ms body done) d).messages
      there d = ground (arith, eq, e, ==_iff q q', ==_iff i id, find-put q i q' id r d.messages)
  Inserts-first x (StoreOp.remove queue msg_id) ops new h = elim new [ ]
  Inserts-first x (StoreOp.fail queue msg_id) ops new h = elim new [ ]
  Inserts-first x (StoreOp.raft_append group entries done) ops new h = elim new [ ]
  Inserts-first x (StoreOp.raft_vote group vote done) ops new h = elim new [ ]
  Inserts-first x (StoreOp.raft_truncate group since done) ops new h = elim new [ ]
  Inserts-first x (StoreOp.raft_purge group upto marker done) ops new h = elim new [ ]
  Inserts-first x (StoreOp.raft_snapshot group snap_meta blob done) ops new h = elim new [ ]

  Awaits-Split : (x : ℕ × ℕ) (n : ℕ) (ops : List StoreOp) → Awaits q i x ops → Split x n ops
  unfolding apply_ops
  Awaits-Split x zero ops h = inl (h, refl)
  Awaits-Split x (suc n) [] h = elim h [ ]
  Awaits-Split x (suc n) (op ∷ ops) (inl (new, rest)) =
      let (t, d) = touched-take-drop q i n ops rest in
      let (c, m) = Inserts-first x op (take n ops) new t in inr (c, (d, m))
  Awaits-Split x (suc n) (op ∷ ops) (inr (other, later)) = elim (Awaits-Split x n ops later) [
    | inl (a, t) ↦ inl (a, ground (arith, other, t))
    | inr (c, (t, m)) ↦ inr (contains-inserted_more op (take n ops) c, (t, λ d. m (apply_op op d)))
  ]

  -- The tables and the answer after a commit.
  abbrev after : (n : ℕ) (ok : Bool) → List StoreOp → Tables → Tables
  after n ok ops d = if ok then apply_ops (take n ops) d else d

  module _ (n : ℕ) (ops : List StoreOp) (ids : List ℕ) (d : Tables) where
    Safe-write :
        (ok : Bool) (x : ℕ × ℕ)
        → Safe q i ops ids d.messages x
        → Safe q i (drop n ops) ids (after n ok ops d).messages x
    Safe-write true x (h, (t, c)) = (
      apply_ops-Describes q i x (take n ops) d (touched-take-drop q i n ops t).0 h,
      ((touched-take-drop q i n ops t).1, c),
    )
    Safe-write false x (h, (t, c)) = (h, ((touched-take-drop q i n ops t).1, c))

    -- An answer to the publish, where the batch has its insert.
    Answered-told :
        (ok : Bool) (x : ℕ × ℕ) (a : Option Bool)
        → contains i (inserted q (take n ops)) ≡ true
        → Answered q i ops ids d.messages x a
        → Answered q i (drop n ops) ids (after n ok ops d).messages x (some ok)
    Answered-told ok x none e (w, c) = elim (Awaits-Split x n ops w) [
      | inl (a, t) ↦
          let impossible : ⊥ = ground (arith, e, contains-inserted (take n ops) t) in
          elim impossible [ ]
      | inr (told, (t, m)) ↦ stored ok (m d) t
    ]
      where
        stored :
            (ok : Bool)
            → Describes x (find q i (apply_ops (take n ops) d).messages)
            → touched q i (drop n ops) ≡ false
            → Answered q i (drop n ops) ids (after n ok ops d).messages x (some ok)
        stored true m t = (m, (t, c))
        stored false m t = (t, c)
    Answered-told ok x (some true) e (h, (t, c)) =
        let impossible : ⊥ =
          ground (arith, e, contains-inserted (take n ops) (touched-take-drop q i n ops t).0) in
        elim impossible [ ]
    Answered-told ok x (some false) e (t, c) =
        let impossible : ⊥ =
          ground (arith, e, contains-inserted (take n ops) (touched-take-drop q i n ops t).0) in
        elim impossible [ ]

    Answered-untold :
        (ok : Bool) (x : ℕ × ℕ) (a : Option Bool)
        → contains i (inserted q (take n ops)) ≡ false
        → Answered q i ops ids d.messages x a
        → Answered q i (drop n ops) ids (after n ok ops d).messages x a
    Answered-untold ok x none e (w, c) = elim (Awaits-Split x n ops w) [
      | inl (a, t) ↦ (a, c)
      | inr (told, (t, m)) ↦ let impossible : ⊥ = ground (arith, e, told) in elim impossible [ ]
    ]
    Answered-untold ok x (some true) e h = Safe-write ok x h
    Answered-untold ok x (some false) e (t, c) = ((touched-take-drop q i n ops t).1, c)

    At-answer_commits :
        (ok : Bool) (cs : List Pending)
        → At i (Told q i ops ids d.messages) (keyed cs)
        → At i
            (Told q i (drop n ops) ids (after n ok ops d).messages)
            (keyed (answer_commits (inserted q (take n ops)) ok cs))
    unfolding answer_commits
    At-answer_commits ok [] h = tt
    At-answer_commits ok (c ∷ cs) (h, hs) =
        elim (Bool-cases (contains c.msg_id (inserted q (take n ops)))) [
          | inl e ↦ rw e (
            λ same.
                Answered-told ok (c.enqueued_ms, c.len) c.answer
                  (subst (λ j. contains j (inserted q (take n ops)) ≡ true) same e) (h same),
            At-answer_commits ok cs hs,
          )
          | inr e ↦ rw e (
            λ same.
                Answered-untold ok (c.enqueued_ms, c.len) c.answer
                  (subst (λ j. contains j (inserted q (take n ops)) ≡ false) same e) (h same),
            At-answer_commits ok cs hs,
          )
        ]

  occurrences-answer_commits :
      (ids : List ℕ) (ok : Bool) (cs : List Pending)
      → occurrences i (keyed (answer_commits ids ok cs)) ≡ occurrences i (keyed cs)
  unfolding answer_commits
  occurrences-answer_commits ids ok [] = refl
  occurrences-answer_commits ids ok (c ∷ cs) = ground (arith, occurrences-answer_commits ids ok cs)

  pub write-Sound :
      (found : ℕ) (ok : Bool) (w : World) → Sound q i w → Sound q i (write q found ok w)
  unfolding write write_batch
  write-Sound found ok w s =
      let n = min found commit_batch_max in
      let safe = Safe-write n w.waiting w.deferred w.tables ok in
      let count = occurrences-answer_commits (inserted q (take n w.waiting)) ok w.queue.commits in
      record {
        once =
            if_elim (λ (d : Tables). rows_at q i d.messages ≤ 1) (λ v. v) ok
              (apply_ops (take n w.waiting) w.tables) w.tables
              (apply_ops-once q i (take n w.waiting) w.tables s.once) s.once;
        lone = ground (arith, s.lone, count);
        of_ready =
            At-mono i (Safe q i w.waiting w.deferred w.tables.messages)
              (Safe q i (drop n w.waiting) w.deferred (after n ok w.waiting w.tables).messages) safe
              w.queue.ready s.of_ready;
        of_inflight =
            At-mono i (Kept q i w.waiting w.deferred w.tables.messages)
              (Kept q i (drop n w.waiting) w.deferred (after n ok w.waiting w.tables).messages)
              (λ v. safe v.1) w.queue.inflight s.of_inflight;
        of_commits =
            At-answer_commits n w.waiting w.deferred w.tables ok w.queue.commits s.of_commits;
        none_ahead = λ h. ground (arith, s.none_ahead, h, count);
        untouched_ahead = λ h. (touched-take-drop q i n w.waiting (s.untouched_ahead h)).1;
        undeferred_ahead = s.undeferred_ahead;
      }
