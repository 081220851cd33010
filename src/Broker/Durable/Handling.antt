-- ===== src/Broker/Durable/Handling.antt =====
-- ramqp-broker/src/durable.rs: where a message stands after the handling of each message of the mailbox.
use r_amqp.Common.{
  ℕ, ◌+◌, ◌<◌, ◌≡◌, ◌≢◌, refl, sym, subst, inl, inr, arith, Bool, true, false, not, ◌&&◌,
  Bool-cases, Option, none, some, List, [], ◌∷◌, ◌++◌, ◌==◌, if◌then◌else◌, ==_iff, length, Table,
  if_elim, u64_max, wrapping_add64, saturating_sub,
}
use r_amqp.Broker.Policy.{Body, EffectivePolicy}
use r_amqp.Broker.Dispatch.{PublishAck, refuse_publish}
use r_amqp.Broker.Store.{StoreOp, Row}
use r_amqp.Broker.Store.Messages.{touches, touched}
use r_amqp.Broker.Durable.State.{Pending, Ready, Inflight, World, Env, submit, emit}
use r_amqp.Broker.Durable.Handle.{
  with_queue, make_room, store_publish, Handled, handle_publish, over,
}
use r_amqp.Broker.Durable.Run.{contains}
use r_amqp.Broker.Durable.Entries.{occurrences, At, At-empty}
use r_amqp.Broker.Durable.Sound.{keyed, Inserts, Safe, Kept, Told, Stands, Sound}
use r_amqp.Broker.Durable.Moves.{Awaits-new, Stands-waits}
use r_amqp.Broker.Durable.Turns.{make_room-Sound, next-make_room}

At-keyed_append :
    (i : ℕ) (P : Pending → Type 0) (cs : List Pending) (c : Pending)
    → (c.msg_id ≡ i → P c)
    → At i P (keyed cs)
    → At i P (keyed (cs ++ (c ∷ [])))
At-keyed_append i P [] c f h = (f, tt)
At-keyed_append i P (d ∷ cs) c f (h, hs) = (h, At-keyed_append i P cs c f hs)

occurrences-keyed_append :
    (i : ℕ) (cs : List Pending) (c : Pending)
    → occurrences i (keyed (cs ++ (c ∷ [])))
      ≡ occurrences i (keyed cs) + (if c.msg_id == i then 1 else 0)
occurrences-keyed_append i [] c = ground arith
occurrences-keyed_append i (d ∷ cs) c = ground (arith, occurrences-keyed_append i cs c)

module _ (q i : ℕ) where
  -- A publish adds its id, which no place knew, to the commits.
  module _ (ready : Ready) (inflight : Inflight) (commits : List Pending) (next : ℕ)
      (deferred : List ℕ) (messages : Table Row) (c : Pending) (waiting : List StoreOp) where
    Stands-other_publish :
        c.msg_id ≡ next + 1
        → c.msg_id ≢ i
        → Stands q i ready inflight commits next waiting deferred messages
        → Stands q i ready inflight (commits ++ (c ∷ [])) (next + 1) waiting deferred messages
    Stands-other_publish e differs s = record {
      once = s.once;
      lone =
          ground (arith, s.lone, occurrences-keyed_append i commits c, differs, ==_iff c.msg_id i);
      of_ready = s.of_ready;
      of_inflight = s.of_inflight;
      of_commits =
          At-keyed_append i (Told q i waiting deferred messages) commits c
            (λ same. elim (differs same) [ ]) s.of_commits;
      none_ahead = λ h. ground (
        arith,
        s.none_ahead,
        h,
        occurrences-keyed_append i commits c,
        differs,
        ==_iff c.msg_id i,
      );
      untouched_ahead = λ h. s.untouched_ahead (omega (arith, h));
      undeferred_ahead = λ h. s.undeferred_ahead (omega (arith, h));
    }

    Stands-own_publish :
        (waiting' : List StoreOp)
        → c.msg_id ≡ next + 1
        → c.msg_id ≡ i
        → (touched q i waiting ≡ false
            → contains i deferred ≡ false
            → Told q i waiting' deferred messages c)
        → Stands q i ready inflight commits next waiting deferred messages
        → Stands q i ready inflight (commits ++ (c ∷ [])) (next + 1) waiting' deferred messages
    Stands-own_publish ops' e same new s =
        let ahead : next < i = omega (arith, e, same) in
        let empty = s.none_ahead ahead in
        record {
          once = s.once;
          lone = ground (arith, empty, occurrences-keyed_append i commits c);
          of_ready = At-empty i (Safe q i ops' deferred messages) ready (omega (arith, empty));
          of_inflight =
              At-empty i (Kept q i ops' deferred messages) inflight (omega (arith, empty));
          of_commits =
              At-keyed_append i (Told q i ops' deferred messages) commits c
                (λ _. new (s.untouched_ahead ahead) (s.undeferred_ahead ahead))
                (At-empty i (Told q i ops' deferred messages) (keyed commits)
                  (omega (arith, empty)));
          none_ahead = λ h. let impossible : ⊥ = omega (arith, h, e, same) in elim impossible [ ];
          untouched_ahead =
              λ h. let impossible : ⊥ = omega (arith, h, e, same) in elim impossible [ ];
          undeferred_ahead =
              λ h. let impossible : ⊥ = omega (arith, h, e, same) in elim impossible [ ];
        }

  module _ (w : World) (ms : ℕ) (body : Body) (confirm : Option PublishAck) (s : Sound q i w) where
    abbrev published : Option Bool → Pending
    published answer = record {
      ack = confirm;
      msg_id = w.queue.next_msg_id + 1;
      enqueued_ms = ms;
      len = length body;
      answer = answer;
    }

    Stands-stored :
        (op : StoreOp)
        → op ≡ StoreOp.insert q (w.queue.next_msg_id + 1) ms body (w.queue.next_msg_id + 1)
        → Stands q i w.queue.ready w.queue.inflight
            (w.queue.commits ++ (published none ∷ []))
            (w.queue.next_msg_id + 1)
            (w.waiting ++ (op ∷ []))
            w.deferred
            w.tables.messages
    Stands-stored op at = elim (Bool-cases (w.queue.next_msg_id + 1 == i)) [
      | inr differs ↦
          Stands-other_publish w.queue.ready w.queue.inflight w.queue.commits w.queue.next_msg_id
            w.deferred w.tables.messages (published none) (w.waiting ++ (op ∷ [])) refl
            (λ e. let impossible : ⊥ = ground (arith, e, differs) in impossible)
            (Stands-waits q i w.queue.ready w.queue.inflight w.queue.commits w.queue.next_msg_id
              w.tables.messages w.waiting w.deferred op
              (subst (λ o. touches q i o ≡ false) (sym at) (ground (arith, differs))) s)
      | inl same ↦
          let e = (==_iff (w.queue.next_msg_id + 1) i).0 same in
          Stands-own_publish w.queue.ready w.queue.inflight w.queue.commits w.queue.next_msg_id
            w.deferred w.tables.messages (published none) w.waiting (w.waiting ++ (op ∷ [])) refl e
            (λ t d. (
              Awaits-new q i (ms, length body) w.waiting op t
                  (subst (Inserts q i (ms, length body)) (sym at) (refl, (e, (refl, refl)))),
              d,
            ))
            s
    ]

    Stands-unstored :
        Stands q i w.queue.ready w.queue.inflight
          (w.queue.commits ++ (published (some false) ∷ []))
          (w.queue.next_msg_id + 1)
          w.waiting
          w.deferred
          w.tables.messages
    Stands-unstored = elim (Bool-cases (w.queue.next_msg_id + 1 == i)) [
      | inr differs ↦
          Stands-other_publish w.queue.ready w.queue.inflight w.queue.commits w.queue.next_msg_id
            w.deferred w.tables.messages (published (some false)) w.waiting refl
            (λ e. let impossible : ⊥ = ground (arith, e, differs) in impossible) s
      | inl same ↦
          Stands-own_publish w.queue.ready w.queue.inflight w.queue.commits w.queue.next_msg_id
            w.deferred w.tables.messages (published (some false)) w.waiting w.waiting refl
            ((==_iff (w.queue.next_msg_id + 1) i).0 same) (λ t d. (t, d)) s
    ]

  store_publish-Sound :
      (env : Env) (body : Body) (confirm : Option PublishAck) (w : World)
      → w.queue.next_msg_id < u64_max
      → Sound q i w
      → Sound q i (store_publish q env body confirm w)
  unfolding store_publish submit
  store_publish-Sound env body confirm w fits s =
      let e : wrapping_add64 w.queue.next_msg_id 1 ≡ w.queue.next_msg_id + 1 =
        omega (arith, fits) in
      elim (Bool-cases env.writer_up) [
        | inl up ↦ rw (up, e) (Stands-stored w env.publish_ms body confirm s _ refl)
        | inr down ↦ rw (down, e) (Stands-unstored w env.publish_ms body confirm s)
      ]

  pub handle_publish-Sound :
      (p : EffectivePolicy) (env : Env) (body : Body) (confirm : Option PublishAck)
      (reserved : Bool) (w : World)
      → w.queue.next_msg_id < u64_max
      → Sound q i w
      → Sound q i (handle_publish q p env body confirm reserved w).world
  unfolding handle_publish emit
  handle_publish-Sound p env body confirm reserved w fits s =
      if_elim (Sound q i) (λ (h : Handled). h.world)
        (over p (length body) w''.queue && not reserved)
        (record { world = emit (refuse_publish confirm) w''; dispatches = false })
        (record { world = store_publish q env body confirm w''; dispatches = true }) s''
        (store_publish-Sound env body confirm w'' (omega (arith, fits, next'', next')) s'')
    where
      w' : World
      w' =
          if reserved
          then with_queue (λ u. record u { reserved = saturating_sub u.reserved 1 }) w
          else w

      s' : Sound q i w'
      s' =
          if_elim (Sound q i) (λ v. v) reserved
            (with_queue (λ u. record u { reserved = saturating_sub u.reserved 1 }) w) w s s

      next' : w'.queue.next_msg_id ≡ w.queue.next_msg_id
      next' = ground arith

      w'' : World
      w'' = if p.drop_head then make_room q p env (length body) w'.queue.ready w' else w'

      s'' : Sound q i w''
      s'' =
          if_elim (Sound q i) (λ v. v) p.drop_head
            (make_room q p env (length body) w'.queue.ready w') w'
            (make_room-Sound q i p env (length body) w'.queue.ready w' refl s') s'

      next'' : w''.queue.next_msg_id ≡ w'.queue.next_msg_id
      next'' = ground (arith, next-make_room q i p env (length body) w'.queue.ready w')
