-- ===== src/Broker/Durable/Losses.antt =====
-- ramqp-broker/src/durable.rs and store.rs: what the actor, the writer and the disk promise together, in
-- every order of turns, commits and crashes.
use r_amqp.Common.{
  ℕ, ◌≤◌, ◌<◌, ◌≡◌, ◌≢◌, refl, subst, ◌∙◌, ◌⊎◌, inl, inr, arith, Bool, true, false, Bool-cases,
  Option, none, some, List, [], ◌∷◌, if◌then◌else◌, length, find, get, if_elim, get_elem?, ltb,
  u64_max, map, length-drop, ◌*◌,
}
use r_amqp.Broker.Policy.{EffectivePolicy}
use r_amqp.Broker.Store.{StoreOp, Row, commit_batch_max, write_batch}
use r_amqp.Broker.Store.Messages.{rows_at, Describes}
use r_amqp.Broker.Durable.State.{Pending, World}
use r_amqp.Broker.Durable.Handle.{handle}
use r_amqp.Broker.Durable.Dispatching.{dispatch}
use r_amqp.Broker.Durable.Run.{
  then_dispatch, write, concerns, restart, recover, Event, message, committed, commit_next,
  router_resolved, elsewhere, crash, step, run,
}
use r_amqp.Broker.Durable.Entries.{At-get}
use r_amqp.Broker.Durable.Sound.{Awaits, Safe, Kept, Answered, Told, places, Sound}
use r_amqp.Broker.Durable.Moves.{Stands-waits}
use r_amqp.Broker.Durable.Serving.{handle-Sound, dispatch-Sound}
use r_amqp.Broker.Durable.Writing.{write-Sound}
use r_amqp.Broker.Durable.Resolving.{
  take_commit-Sound, release_deferred-Sound, untouched-concerns, At-get_elem?,
}
use r_amqp.Broker.Durable.Restarting.{restart-Sound, get-recovered, head_of}

-- No id of the run is the last of its width, after which ids would start again.
unfoldable pub fits : (queue_id : ℕ) → EffectivePolicy → List Event → World → Bool
fits queue_id p [] w = true
fits queue_id p (e ∷ es) w =
    let rest = fits queue_id p es (step queue_id p e w) in
    if ltb w.queue.next_msg_id u64_max then rest else false

-- What a start on the committed tables comes to after some events.
abbrev pub lived : (queue_id : ℕ) → EffectivePolicy → List Event → World → World
lived queue_id p es w = run queue_id p es (restart queue_id w)

Describes-head_of : (x : ℕ × ℕ) (o : Option Row) → Describes x o → head_of o ≡ some x
Describes-head_of x none h = elim h [ ]
Describes-head_of (ms, len) (some r) (a, b) = ground (arith, a, b)

module _ (q i : ℕ) (p : EffectivePolicy) where
  step-Sound :
      (e : Event) (w : World)
      → w.queue.next_msg_id < u64_max
      → Sound q i w
      → Sound q i (step q p e w)
  unfolding step then_dispatch
  step-Sound (message env msg) w fit s =
      let s' = handle-Sound q i p env msg w fit s in
      if_elim (Sound q i) (λ v. v) (handle q p env msg w).dispatches
        (dispatch q p env (handle q p env msg w).world) (handle q p env msg w).world
        (dispatch-Sound q i p env (handle q p env msg w).world s') s'
  step-Sound (committed found ok) w fit s = write-Sound q i found ok w s
  step-Sound (commit_next env n) w fit s =
      take_commit-Sound q i p env n (get_elem? w.queue.commits n) w refl s
  step-Sound (router_resolved env n) w fit s =
      release_deferred-Sound q i env n (get_elem? w.deferred n) w refl s
  step-Sound (elsewhere op) w fit s = elim (Bool-cases (concerns q op)) [
    | inl e ↦ rw e s
    | inr e ↦ rw e (
        Stands-waits q i w.queue.ready w.queue.inflight w.queue.commits w.queue.next_msg_id
          w.tables.messages w.waiting w.deferred op (untouched-concerns q i op e) s)
  ]
  step-Sound crash w fit s = restart-Sound q i w s.once

  run-Sound :
      (es : List Event) (w : World) → fits q p es w ≡ true → Sound q i w → Sound q i (run q p es w)
  unfolding run fits
  run-Sound [] w fit s = s
  run-Sound (e ∷ es) w fit s =
      run-Sound es (step q p e w) (ground (arith, fit)) (step-Sound e w (ground (arith, fit)) s)

  module _ (es : List Event) (w : World) (one : rows_at q i w.tables.messages ≤ 1)
      (fit : fits q p es (restart q w) ≡ true) where
    lived-Sound : Sound q i (lived q p es w)
    lived-Sound = run-Sound es (restart q w) fit (restart-Sound q i w one)

    -- After a start on tables with one row at most for an id of the queue, and any order of turns, commits
    -- of the writer, answers and crashes before which the queue's next id is never the last of 64 bits (after
    -- which ids would start again): the id has one place at most, among the ready ids, those in flight and
    -- those whose publish is pending.
    pub lived-places :
        places q i
          (lived q p es w).queue.ready
          (lived q p es w).queue.inflight
          (lived q p es w).queue.commits
        ≤ 1
    lived-places = lived-Sound.lone

    Describes-restart :
        (v : World) (x : ℕ × ℕ)
        → Describes x (find q i v.tables.messages)
        → get i (restart q v).queue.ready ≡ some x
    unfolding restart recover
    Describes-restart v x h =
        get-recovered q i v.tables.messages ∙ Describes-head_of x (find q i v.tables.messages) h

    -- After a start on tables with one row at most for an id of the queue, and any order of turns, commits
    -- of the writer, answers and crashes before which the queue's next id is never the last of 64 bits (after
    -- which ids would start again): where the message of the id is ready or in flight, it is ready after a
    -- crash, with its enqueue time and its length.
    pub lived-restart :
        (x : ℕ × ℕ)
        → (get i (lived q p es w).queue.ready ≡ some x)
          ⊎ ((owner : ℕ) × (get i (lived q p es w).queue.inflight ≡ some (owner, x)))
        → get i (restart q (lived q p es w)).queue.ready ≡ some x
    lived-restart x (inl h) =
        let v = lived q p es w in
        Describes-restart v x
          (At-get i (Safe q i v.waiting v.deferred v.tables.messages) v.queue.ready x
            lived-Sound.of_ready h).0
    lived-restart x (inr (owner, h)) =
        let v = lived q p es w in
        Describes-restart v x
          (At-get i (Kept q i v.waiting v.deferred v.tables.messages) v.queue.inflight (owner, x)
            lived-Sound.of_inflight h).0

    -- After a start on tables with one row at most for an id of the queue, and any order of turns, commits
    -- of the writer, answers and crashes before which the queue's next id is never the last of 64 bits (after
    -- which ids would start again): where the writer has answered the publish of the id well, so that its
    -- confirm may be sent, the message is ready after a crash, with its enqueue time and its length.
    pub lived-confirm :
        (n : ℕ) (c : Pending)
        → get_elem? (lived q p es w).queue.commits n ≡ some c
        → c.msg_id ≡ i
        → c.answer ≡ some true
        → get i (restart q (lived q p es w)).queue.ready ≡ some (c.enqueued_ms, c.len)
    lived-confirm n c at same ok =
        let v = lived q p es w in
        Describes-restart v (c.enqueued_ms, c.len)
          (subst (Answered q i v.waiting v.deferred v.tables.messages (c.enqueued_ms, c.len)) ok (
            At-get_elem? i (Told q i v.waiting v.deferred v.tables.messages) n v.queue.commits c at
              lived-Sound.of_commits same)).0

  -- Commits of full batches, each of which succeeds or fails.
  writes-Sound :
      (oks : List Bool) (v : World)
      → Sound q i v
      → Sound q i (run q p (map (committed commit_batch_max) oks) v)
  unfolding run step
  writes-Sound [] v s = s
  writes-Sound (ok ∷ oks) v s =
      writes-Sound oks (write q commit_batch_max ok v) (write-Sound q i commit_batch_max ok v s)

  writes-waiting :
      (oks : List Bool) (v : World)
      → length v.waiting ≤ commit_batch_max * length oks
      → length (run q p (map (committed commit_batch_max) oks) v).waiting ≡ 0
  unfolding run step write write_batch
  writes-waiting [] v h = omega (arith, h)
  writes-waiting (ok ∷ oks) v h =
      writes-waiting oks (write q commit_batch_max ok v)
        (ground (arith, h, length-drop commit_batch_max v.waiting))

  none-Awaits : (x : ℕ × ℕ) (ops : List StoreOp) → length ops ≡ 0 → Awaits q i x ops → ⊥
  none-Awaits x [] e h = h
  none-Awaits x (op ∷ ops) e h = omega (arith, e)

  -- After a start on tables with one row at most for an id of the queue, and any order of turns, commits of
  -- the writer, answers and crashes before which the queue's next id is never the last of 64 bits (after
  -- which ids would start again): once the writer has made as many commits as the operations that wait
  -- fill, well or not, no pending publish of the id is without its answer.
  pub writes-answer :
      (es : List Event) (w : World)
      → rows_at q i w.tables.messages ≤ 1
      → fits q p es (restart q w) ≡ true
      → (oks : List Bool) → length (lived q p es w).waiting ≤ commit_batch_max * length oks
      → (n : ℕ) (c : Pending)
      → get_elem? (run q p (map (committed commit_batch_max) oks) (lived q p es w)).queue.commits n
        ≡ some c
      → c.msg_id ≡ i
      → c.answer ≢ none
  writes-answer es w one fit oks enough n c at same waits =
      let v = run q p (map (committed commit_batch_max) oks) (lived q p es w) in
      let s = writes-Sound oks (lived q p es w) (lived-Sound es w one fit) in
      let told =
        subst (Answered q i v.waiting v.deferred v.tables.messages (c.enqueued_ms, c.len)) waits (
          At-get_elem? i (Told q i v.waiting v.deferred v.tables.messages) n v.queue.commits c at
            s.of_commits same) in
      none-Awaits (c.enqueued_ms, c.len) v.waiting (writes-waiting oks (lived q p es w) enough)
        told.0
