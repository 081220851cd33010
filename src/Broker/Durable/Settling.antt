-- ===== src/Broker/Durable/Settling.antt =====
-- ramqp-broker/src/durable.rs: where a message stands after a settlement, and after what a subscriber
-- held is released.
use r_amqp.Common.{
  ℕ, ◌+◌, ◌≤◌, ◌≡◌, subst, arith, true, false, Option, none, some, List, [], ◌∷◌, ◌==◌,
  if◌then◌else◌, ==_iff, Table, if_elim, wrapping_add32, get, remove, insert, saturating_sub,
  unwrap_or,
}
use r_amqp.Broker.Policy.{EffectivePolicy, attempts_exhausted}
use r_amqp.Broker.Queue.State.{SettleOutcome, ack, requeue, requeue_failed, drop}
use r_amqp.Broker.Store.{StoreOp, Row}
use r_amqp.Broker.Durable.Ordered.{insert_ordered}
use r_amqp.Broker.Durable.State.{
  Pending, Ready, Inflight, World, Env, submit, dead_letter_then_remove,
}
use r_amqp.Broker.Durable.Handle.{
  with_queue, settle_removed, settle_entry, Handled, requeue_owned, held_by_others, release_sub,
}
use r_amqp.Broker.Durable.Entries.{
  occurrences, At, At-get, occurrences-get, occurrences-remove, At-remove,
  occurrences-insert_ordered, At-insert_ordered,
}
use r_amqp.Broker.Durable.Sound.{Safe, Kept, places, Stands, Sound}
use r_amqp.Broker.Durable.Moves.{Spare, submit-Sound, remove-Sound, dead_letter_then_remove-Sound}
use r_amqp.Broker.Durable.Turns.{Stands-places}

module _ (q i : ℕ) where
  module _ (ready : Ready) (inflight : Inflight) (commits : List Pending) (next : ℕ)
      (waiting : List StoreOp) (deferred : List ℕ) (messages : Table Row) (id : ℕ) (x : ℕ × ℕ)
      (spare : id ≡ i → (places q i ready inflight commits ≡ 0) × (i ≤ next))
      (safe : id ≡ i → Safe q i waiting deferred messages x) where
    -- A message that stands nowhere becomes ready.
    pub Stands-enter :
        Stands q i ready inflight commits next waiting deferred messages
        → Stands q i (insert_ordered id x ready) inflight commits next waiting deferred messages
    Stands-enter s = record {
      once = s.once;
      lone = ground (arith, s.lone, spare, occurrences-insert_ordered i id x ready, ==_iff id i);
      of_ready =
          At-insert_ordered i (Safe q i waiting deferred messages) id x ready safe s.of_ready;
      of_inflight = s.of_inflight;
      of_commits = s.of_commits;
      none_ahead = λ h.
          ground
            (arith, s.none_ahead, h, spare, occurrences-insert_ordered i id x ready, ==_iff id i);
      untouched_ahead = s.untouched_ahead;
      undeferred_ahead = s.undeferred_ahead;
    }

    -- Or it is in flight.
    pub Stands-hold :
        (owner : ℕ)
        → Stands q i ready inflight commits next waiting deferred messages
        → Stands q i ready (insert id (owner, x) inflight) commits next waiting deferred messages
    Stands-hold owner s = record {
      once = s.once;
      lone = ground (arith, s.lone, spare, occurrences-remove i id inflight, ==_iff id i);
      of_ready = s.of_ready;
      of_inflight =
          (safe, At-remove i (Kept q i waiting deferred messages) id inflight s.of_inflight);
      of_commits = s.of_commits;
      none_ahead = λ h.
          ground (arith, s.none_ahead, h, spare, occurrences-remove i id inflight, ==_iff id i);
      untouched_ahead = s.untouched_ahead;
      undeferred_ahead = s.undeferred_ahead;
    }

  settle_removed-Sound :
      (p : EffectivePolicy) (env : Env) (id ms len : ℕ) (outcome : SettleOutcome) (w : World)
      → Spare q i id w
      → (id ≡ i → Safe q i w.waiting w.deferred w.tables.messages (ms, len))
      → Sound q i w
      → Sound q i (settle_removed q p env id ms len outcome w)
  unfolding settle_removed
  settle_removed-Sound p env id ms len ack w f g s =
      remove-Sound q i env id
        (with_queue
          (λ u. record u { failures = remove id u.failures; bytes = saturating_sub u.bytes len }) w)
        f s
  settle_removed-Sound p env id ms len drop w f g s =
      remove-Sound q i env id
        (with_queue
          (λ u. record u { failures = remove id u.failures; bytes = saturating_sub u.bytes len }) w)
        f s
  settle_removed-Sound p env id ms len requeue w f g s =
      Stands-enter w.queue.ready w.queue.inflight w.queue.commits w.queue.next_msg_id w.waiting
        w.deferred w.tables.messages id (ms, len) f g s
  settle_removed-Sound p env id ms len requeue_failed w f g s =
      if_elim (Sound q i) (λ v. v) (attempts_exhausted p count)
        (dead_letter_then_remove q p env id forgotten) (submit env (StoreOp.fail q id) counted)
        (dead_letter_then_remove-Sound q i p env id forgotten f s)
        (submit-Sound q i env (StoreOp.fail q id) counted
          (λ e. let impossible : ⊥ = ground (arith, e) in elim impossible [ ])
          (Stands-enter w.queue.ready w.queue.inflight w.queue.commits w.queue.next_msg_id w.waiting
            w.deferred w.tables.messages id (ms, len) f g s))
    where
      count : ℕ
      count = wrapping_add32 (unwrap_or (get id w.queue.failures) 0) 1

      forgotten : World
      forgotten =
          with_queue
            (λ u. record u { failures = remove id u.failures; bytes = saturating_sub u.bytes len })
            w

      counted : World
      counted =
          with_queue
            (λ u. record u {
              failures = insert id count u.failures;
              ready = insert_ordered id (ms, len) u.ready;
            })
            w

  pub settle_entry-Sound :
      (p : EffectivePolicy) (env : Env) (sub id : ℕ) (outcome : SettleOutcome)
      (o : Option (ℕ × (ℕ × ℕ))) (w : World)
      → get id w.queue.inflight ≡ o
      → Sound q i w
      → Sound q i (settle_entry q p env sub id outcome o w).world
  unfolding settle_entry
  settle_entry-Sound p env sub id outcome none w e s = s
  settle_entry-Sound p env sub id outcome (some (owner, (ms, len))) w e s =
      if_elim (Sound q i) (λ (h : Handled). h.world) (owner == sub)
        (record { world = settle_removed q p env id ms len outcome taken; dispatches = true })
        (record { world = w; dispatches = false })
        (settle_removed-Sound p env id ms len outcome taken spare safe (
          Stands-places q i w.queue.next_msg_id w.waiting w.deferred w.tables.messages w.queue.ready
            w.queue.ready w.queue.inflight (remove id w.queue.inflight) w.queue.commits
            w.queue.commits (ground (arith, gone)) s.of_ready
            (At-remove i (Kept q i w.waiting w.deferred w.tables.messages) id w.queue.inflight
              s.of_inflight)
            s.of_commits s))
        s
    where
      taken : World
      taken = with_queue (λ u. record u { inflight = remove id u.inflight }) w

      gone :
          occurrences i (remove id w.queue.inflight)
          ≡ (if id == i then 0 else occurrences i w.queue.inflight)
      gone = occurrences-remove i id w.queue.inflight

      found : id ≡ i → get i w.queue.inflight ≡ some (owner, (ms, len))
      found same = subst (λ j. get j w.queue.inflight ≡ some (owner, (ms, len))) same e

      spare : Spare q i id taken
      spare same =
          let there = occurrences-get i w.queue.inflight (owner, (ms, len)) (found same) in
          (
            ground (arith, gone, same, there, s.lone, ==_iff id i),
            ground (arith, s.none_ahead, there),
          )

      safe : id ≡ i → Safe q i w.waiting w.deferred w.tables.messages (ms, len)
      safe same =
          At-get i (Kept q i w.waiting w.deferred w.tables.messages) w.queue.inflight
            (owner, (ms, len)) s.of_inflight (found same)

  occurrences-release :
      (sub : ℕ) (inflight : Inflight) (ready : Ready)
      → occurrences i (requeue_owned sub inflight ready)
          + occurrences i (held_by_others sub inflight)
        ≤ occurrences i inflight + occurrences i ready
  unfolding requeue_owned held_by_others
  occurrences-release sub [] ready = ground arith
  occurrences-release sub ((id, (owner, (ms, len))) ∷ m) ready = ground (
    arith,
    occurrences-release sub m ready,
    occurrences-release sub m (insert_ordered id (ms, len) ready),
    occurrences-insert_ordered i id (ms, len) ready,
  )

  module _ (P : ℕ × ℕ → Type 0) (sub : ℕ) where
    At-requeue_owned :
        (inflight : Inflight) (ready : Ready)
        → At i (λ (v : ℕ × (ℕ × ℕ)). P v.1) inflight
        → At i P ready
        → At i P (requeue_owned sub inflight ready)
    unfolding requeue_owned
    At-requeue_owned [] ready h h' = h'
    At-requeue_owned ((id, (owner, (ms, len))) ∷ m) ready (h, hs) h' =
        At-requeue_owned m (if owner == sub then insert_ordered id (ms, len) ready else ready) hs (
          if_elim (At i P) (λ v. v) (owner == sub) (insert_ordered id (ms, len) ready) ready
            (At-insert_ordered i P id (ms, len) ready h h') h')

    At-held_by_others :
        (inflight : Inflight)
        → At i (λ (v : ℕ × (ℕ × ℕ)). P v.1) inflight
        → At i (λ (v : ℕ × (ℕ × ℕ)). P v.1) (held_by_others sub inflight)
    unfolding held_by_others
    At-held_by_others [] h = tt
    At-held_by_others ((id, (owner, (ms, len))) ∷ m) (h, hs) =
        if_elim (At i (λ (v : ℕ × (ℕ × ℕ)). P v.1)) (λ v. v) (owner == sub) (held_by_others sub m)
          ((id, (owner, (ms, len))) ∷ held_by_others sub m) (At-held_by_others m hs)
          (h, At-held_by_others m hs)

  pub release_sub-Sound :
      (sub : ℕ) (w : World) → Sound q i w → Sound q i (with_queue (release_sub sub) w)
  unfolding release_sub
  release_sub-Sound sub w s =
      Stands-places q i w.queue.next_msg_id w.waiting w.deferred w.tables.messages w.queue.ready
        (requeue_owned sub w.queue.inflight w.queue.ready) w.queue.inflight
        (held_by_others sub w.queue.inflight) w.queue.commits w.queue.commits
        (ground (arith, occurrences-release sub w.queue.inflight w.queue.ready))
        (At-requeue_owned (Safe q i w.waiting w.deferred w.tables.messages) sub w.queue.inflight
          w.queue.ready s.of_inflight s.of_ready)
        (At-held_by_others (Safe q i w.waiting w.deferred w.tables.messages) sub w.queue.inflight
          s.of_inflight)
        s.of_commits s
