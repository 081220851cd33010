-- ===== src/Broker/Durable/Turns.antt =====
-- ramqp-broker/src/durable.rs: where a message stands after the handling of each message of the mailbox.
use r_amqp.Common.{
  ℕ, ◌≤◌, ◌≡◌, refl, ap, subst, arith, List, [], ◌∷◌, ==_iff, Table, if_elim, remove,
  saturating_sub,
}
use r_amqp.Broker.Policy.{EffectivePolicy, DeadLetter}
use r_amqp.Broker.Store.{StoreOp, Row}
use r_amqp.Broker.Durable.State.{
  Pending, Ready, Inflight, World, Env, submit, dead_letter_then_remove, remove_after, copies_of,
  read_body,
}
use r_amqp.Broker.Durable.Handle.{with_queue, displace, make_room, over}
use r_amqp.Broker.Durable.Entries.{At}
use r_amqp.Broker.Durable.Sound.{keyed, Safe, Kept, Told, places, Stands, Sound}
use r_amqp.Broker.Durable.Moves.{dead_letter_then_remove-Sound}

queue-submit : (env : Env) (op : StoreOp) (w : World) → (submit env op w).queue ≡ w.queue
unfolding submit
queue-submit env op w = ground arith

pub queue-dead_letter_then_remove :
    (q : ℕ) (p : EffectivePolicy) (env : Env) (id : ℕ) (w : World)
    → (dead_letter_then_remove q p env id w).queue ≡ w.queue
unfolding dead_letter_then_remove remove_after
queue-dead_letter_then_remove q p env id w = at (copies_of p (read_body q env id w))
  where
    at : (copies : List DeadLetter) → (remove_after q env id copies w).queue ≡ w.queue
    at [] = queue-submit env (StoreOp.remove q id) w
    at (copy ∷ copies) = refl

module _ (q i : ℕ) where
  module _ (next : ℕ) (waiting : List StoreOp) (deferred : List ℕ) (messages : Table Row) where
    -- The actor may move a message between its places, or forget it.
    pub Stands-places :
        (ready ready' : Ready) (inflight inflight' : Inflight) (commits commits' : List Pending)
        → places q i ready' inflight' commits' ≤ places q i ready inflight commits
        → At i (Safe q i waiting deferred messages) ready'
        → At i (Kept q i waiting deferred messages) inflight'
        → At i (Told q i waiting deferred messages) (keyed commits')
        → Stands q i ready inflight commits next waiting deferred messages
        → Stands q i ready' inflight' commits' next waiting deferred messages
    Stands-places r r' f f' c c' le a b d s = record {
      once = s.once;
      lone = omega (arith, le, s.lone);
      of_ready = a;
      of_inflight = b;
      of_commits = d;
      none_ahead = λ h. let e = s.none_ahead h in omega (arith, le, e);
      untouched_ahead = s.untouched_ahead;
      undeferred_ahead = s.undeferred_ahead;
    }

    module _ (id : ℕ) (x : ℕ × ℕ) (rest : Ready) (inflight : Inflight)
        (commits : List Pending) where
      pub Stands-drop :
          Stands q i ((id, x) ∷ rest) inflight commits next waiting deferred messages
          → Stands q i rest inflight commits next waiting deferred messages
      Stands-drop s =
          Stands-places ((id, x) ∷ rest) rest inflight inflight commits commits (ground arith)
            (s.of_ready).1 s.of_inflight s.of_commits s

      pub Stands-drop_Spare :
          Stands q i ((id, x) ∷ rest) inflight commits next waiting deferred messages
          → id ≡ i
          → (places q i rest inflight commits ≡ 0) × (i ≤ next)
      Stands-drop_Spare s e =
          (ground (arith, s.lone, e, ==_iff id i), ground (arith, s.none_ahead, e, ==_iff id i))

  module _ (p : EffectivePolicy) (env : Env) where
    -- The first of what is ready is dead-lettered.
    pub displace-Sound :
        (id ms len : ℕ) (rest : Ready) (w : World)
        → w.queue.ready ≡ (id, (ms, len)) ∷ rest
        → Sound q i w
        → Sound q i (displace q p env id len rest w)
    unfolding displace
    displace-Sound id ms len rest w e s =
        let s' : Stands q i ((id, (ms, len)) ∷ rest) w.queue.inflight w.queue.commits
            w.queue.next_msg_id w.waiting w.deferred w.tables.messages =
          subst
            (λ r.
              Stands q i r w.queue.inflight w.queue.commits w.queue.next_msg_id w.waiting w.deferred
                w.tables.messages)
            e s in
        dead_letter_then_remove-Sound q i p env id
          (with_queue
            (λ u. record u {
              ready = rest;
              bytes = saturating_sub u.bytes len;
              failures = remove id u.failures;
            })
            w)
          (Stands-drop_Spare w.queue.next_msg_id w.waiting w.deferred w.tables.messages id (ms, len)
            rest w.queue.inflight w.queue.commits s')
          (Stands-drop w.queue.next_msg_id w.waiting w.deferred w.tables.messages id (ms, len) rest
            w.queue.inflight w.queue.commits s')

    pub queue-displace :
        (id len : ℕ) (rest : Ready) (w : World)
        → (displace q p env id len rest w).queue ≡ record (w.queue) {
          ready = rest;
          bytes = saturating_sub w.queue.bytes len;
          failures = remove id w.queue.failures;
        }
    unfolding displace
    queue-displace id len rest w = queue-dead_letter_then_remove q p env id (
        with_queue
          (λ u. record u {
            ready = rest;
            bytes = saturating_sub u.bytes len;
            failures = remove id u.failures;
          })
          w)

    pub make_room-Sound :
        (body_len : ℕ) (ready : Ready) (w : World)
        → w.queue.ready ≡ ready
        → Sound q i w
        → Sound q i (make_room q p env body_len ready w)
    unfolding make_room
    make_room-Sound n [] w e s = s
    make_room-Sound n ((id, (ms, len)) ∷ rest) w e s =
        if_elim (Sound q i) (λ v. v) (over p n w.queue)
          (make_room q p env n rest (displace q p env id len rest w)) w
          (make_room-Sound n rest (displace q p env id len rest w)
            (ap (λ u. u.ready) (queue-displace id len rest w))
            (displace-Sound id ms len rest w e s))
          s

    pub next-make_room :
        (body_len : ℕ) (ready : Ready) (w : World)
        → (make_room q p env body_len ready w).queue.next_msg_id ≡ w.queue.next_msg_id
    unfolding make_room
    next-make_room n [] w = refl
    next-make_room n ((id, (ms, len)) ∷ rest) w = ground (
      arith,
      next-make_room n rest (displace q p env id len rest w),
      ap (λ u. u.next_msg_id) (queue-displace id len rest w),
    )
