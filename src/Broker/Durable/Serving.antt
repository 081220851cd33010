-- ===== src/Broker/Durable/Serving.antt =====
-- ramqp-broker/src/durable.rs: where a message stands after each message of the mailbox, and after the
-- dispatch.
use r_amqp.Common.{
  ℕ, zero, suc, ◌+◌, ◌≤◌, ◌<◌, ◌≡◌, refl, ap, arith, Bool, true, false, Option, none, some, [], ◌∷◌,
  ◌==◌, if◌then◌else◌, ==_iff, if_elim, u64_max, get,
}
use r_amqp.Broker.Policy.{Body, EffectivePolicy}
use r_amqp.Broker.Queue.State.{
  QueueMsg, publish, publish_reserved, reserve, unreserve, subscribe, demand, settle, unsubscribe,
  stats,
}
use r_amqp.Broker.Durable.Ordered.{insert_ordered}
use r_amqp.Broker.Durable.State.{Ready, World, Env, emit, read_body}
use r_amqp.Broker.Durable.Handle.{with_queue, displace, handle, handle_reserve, subscribe_to}
use r_amqp.Broker.Durable.Entries.{occurrences, At}
use r_amqp.Broker.Durable.Sound.{Safe, Sound}
use r_amqp.Broker.Durable.Moves.{Spare}
use r_amqp.Broker.Durable.Turns.{Stands-places}
use r_amqp.Common.{get_elem?, is_some, total}
use r_amqp.Broker.Policy.{expired}
use r_amqp.Broker.Dispatch.{Subscriber, pick_ready, complete_drains}
use r_amqp.Broker.Queue.Turn.{demanded}
use r_amqp.Broker.Durable.Dispatching.{
  expire_one, expire, expire_ready, Front, nothing, front, front_of, first_stored, send_to, Round,
  drained, unwanted, sent, send_front, send_picked, dispatch_picked, dispatch_ready, dispatch_loop,
  dispatch,
}
use r_amqp.Broker.Durable.Handling.{handle_publish-Sound}
use r_amqp.Broker.Durable.Turns.{displace-Sound, queue-displace}
use r_amqp.Broker.Durable.Settling.{
  Stands-enter, Stands-hold, settle_entry-Sound, release_sub-Sound,
}

module _ (q i : ℕ) where
  pub handle-Sound :
      (p : EffectivePolicy) (env : Env) (msg : QueueMsg) (w : World)
      → w.queue.next_msg_id < u64_max
      → Sound q i w
      → Sound q i (handle q p env msg w).world
  unfolding handle emit handle_reserve subscribe_to
  handle-Sound p env (publish body confirm) w fits s =
      handle_publish-Sound q i p env body confirm false w fits s
  handle-Sound p env (publish_reserved body confirm) w fits s =
      handle_publish-Sound q i p env body confirm true w fits s
  handle-Sound p env (reserve count) w fits s =
      if_elim (Sound q i) (λ v. v) _
        (with_queue (λ u. record u { reserved = u.reserved + count }) w) w s s
  handle-Sound p env (unreserve count) w fits s = s
  handle-Sound p env (subscribe conn channel link binding_gen) w fits s = s
  handle-Sound p env (demand sub credit drain) w fits s = s
  handle-Sound p env (settle sub msg_id outcome) w fits s =
      settle_entry-Sound q i p env sub msg_id outcome (get msg_id w.queue.inflight) w refl s
  handle-Sound p env (unsubscribe sub) w fits s = release_sub-Sound q i sub w s
  handle-Sound p env stats w fits s = s

  expire-Sound :
      (p : EffectivePolicy) (env : Env) (ready : Ready) (w : World)
      → w.queue.ready ≡ ready
      → Sound q i w
      → Sound q i (expire q p env ready w)
  unfolding expire displace
  expire-Sound p env [] w e s = s
  expire-Sound p env ((id, (ms, len)) ∷ rest) w e s =
      if_elim (Sound q i) (λ v. v) (expired p ms env.dispatch_ms)
        (expire q p env rest (expire_one q p env id len rest w)) w
        (expire-Sound p env rest (expire_one q p env id len rest w)
          (ap (λ u. u.ready) (queue-displace q i p env id len rest w))
          (displace-Sound q i p env id ms len rest w e s))
        s

  expire_ready-Sound :
      (p : EffectivePolicy) (env : Env) (w : World)
      → Sound q i w
      → Sound q i (expire_ready q p env w)
  unfolding expire_ready
  expire_ready-Sound p env w s =
      if_elim (Sound q i) (λ v. v) (is_some p.ttl_ms) (expire q p env w.queue.ready w) w
        (expire-Sound p env w.queue.ready w refl s) s

  -- The front of what is ready is one of its entries, and the rest comes after it.
  abbrev Leads : (ℕ × ℕ → Type 0) → Ready → Front → Type 0
  Leads P ready nothing = Unit {0}
  Leads P ready (front id ms len b rest) =
      (id ≡ i → P (ms, len))
      × (At i P rest × ((if id == i then 1 else 0) + occurrences i rest ≤ occurrences i ready))

  first_stored-Leads :
      (P : ℕ × ℕ → Type 0) (read : ℕ → Option Body) (ready : Ready)
      → At i P ready
      → Leads P ready (first_stored read ready)
  unfolding first_stored
  first_stored-Leads P read [] h = tt
  first_stored-Leads P read ((id, (ms, len)) ∷ rest) (h, hs) =
      at (read id) (first_stored-Leads P read rest hs)
    where
      later : (f : Front) → Leads P rest f → Leads P ((id, (ms, len)) ∷ rest) f
      later nothing l = tt
      later (front j n m b r) (a, (c, d)) = (a, (c, ground (arith, d)))

      at :
          (o : Option Body)
          → Leads P rest (first_stored read rest)
          → Leads P ((id, (ms, len)) ∷ rest) (front_of id ms len rest o (first_stored read rest))
      at none l = later (first_stored read rest) l
      at (some b) l = (h, (hs, omega arith))

  abbrev RoundSound : Round → Type 0
  RoundSound (drained w) = Sound q i w
  RoundSound (unwanted w) = Sound q i w
  RoundSound (sent w) = Sound q i w

  send_to-Sound :
      (open_now : Bool) (id ms len : ℕ) (b : Body) (sub : Subscriber) (w : World)
      → Spare q i id w
      → (id ≡ i → Safe q i w.waiting w.deferred w.tables.messages (ms, len))
      → Sound q i w
      → Sound q i (send_to open_now id ms len b sub w)
  unfolding send_to emit
  send_to-Sound true id ms len b sub w f g s =
      Stands-hold q i w.queue.ready w.queue.inflight w.queue.commits w.queue.next_msg_id w.waiting
        w.deferred w.tables.messages id (ms, len) f g sub.id s
  send_to-Sound false id ms len b sub w f g s =
      release_sub-Sound q i sub.id
        (with_queue (λ u. record u { ready = insert_ordered id (ms, len) u.ready }) w)
        (Stands-enter q i w.queue.ready w.queue.inflight w.queue.commits w.queue.next_msg_id
          w.waiting w.deferred w.tables.messages id (ms, len) f g s)

  send_front-Sound :
      (is_open : ℕ → Bool) (idx : ℕ) (sub : Subscriber) (w : World) (f : Front)
      → Leads (Safe q i w.waiting w.deferred w.tables.messages) w.queue.ready f
      → Sound q i w
      → RoundSound (send_front is_open idx sub w f)
  unfolding send_front
  send_front-Sound is_open idx sub w nothing l s =
      Stands-places q i w.queue.next_msg_id w.waiting w.deferred w.tables.messages w.queue.ready []
        w.queue.inflight w.queue.inflight w.queue.commits w.queue.commits (ground arith) tt
        s.of_inflight s.of_commits s
  send_front-Sound is_open idx sub w (front id ms len b rest) (safe, (all, count)) s =
      send_to-Sound (is_open sub.conn) id ms len b sub _
        (λ same. (
          ground (arith, s.lone, count, same, ==_iff id i),
          ground (arith, s.none_ahead, count, same, ==_iff id i),
        ))
        safe
        (Stands-places q i w.queue.next_msg_id w.waiting w.deferred w.tables.messages w.queue.ready
          rest w.queue.inflight w.queue.inflight w.queue.commits w.queue.commits
          (ground (arith, count)) all s.of_inflight s.of_commits s)

  send_picked-Sound :
      (is_open : ℕ → Bool) (read : ℕ → Option Body) (idx : ℕ) (o : Option Subscriber) (w : World)
      → Sound q i w
      → RoundSound (send_picked is_open read idx o w)
  unfolding send_picked
  send_picked-Sound is_open read idx none w s = s
  send_picked-Sound is_open read idx (some sub) w s =
      send_front-Sound is_open idx sub w (first_stored read w.queue.ready)
        (first_stored-Leads (Safe q i w.waiting w.deferred w.tables.messages) read w.queue.ready
          s.of_ready)
        s

  dispatch_picked-Sound :
      (is_open : ℕ → Bool) (read : ℕ → Option Body) (o : Option ℕ) (w : World)
      → Sound q i w
      → RoundSound (dispatch_picked is_open read o w)
  unfolding dispatch_picked
  dispatch_picked-Sound is_open read none w s = s
  dispatch_picked-Sound is_open read (some idx) w s =
      send_picked-Sound is_open read idx (get_elem? w.queue.subs idx) w s

  dispatch_ready-Sound :
      (is_open : ℕ → Bool) (read : ℕ → Option Body) (ready : Ready) (w : World)
      → Sound q i w
      → RoundSound (dispatch_ready is_open read ready w)
  unfolding dispatch_ready
  dispatch_ready-Sound is_open read [] w s = s
  dispatch_ready-Sound is_open read (e ∷ rest) w s =
      dispatch_picked-Sound is_open read (pick_ready w.queue.subs w.queue.rr) w s

  dispatch_loop-Sound :
      (env : Env) (fuel : ℕ) (w : World) → Sound q i w → Sound q i (dispatch_loop q env fuel w)
  unfolding dispatch_loop
  dispatch_loop-Sound env zero w s = s
  dispatch_loop-Sound env (suc fuel) w s =
      elim (dispatch_ready (λ c. env.is_open c fuel) (λ id. read_body q env id w) w.queue.ready w)
          as (λ r.
            RoundSound r
            → Sound q i (elim r [
              | drained w' ↦ with_queue (λ u. record u { subs = complete_drains u.subs }) w'
              | unwanted w' ↦ w'
              | sent w' ↦ dispatch_loop q env fuel w'
            ])) [
              | drained w' ↦ (λ s'. s')
              | unwanted w' ↦ (λ s'. s')
              | sent w' ↦ dispatch_loop-Sound env fuel w'
            ]
        (dispatch_ready-Sound (λ c. env.is_open c fuel) (λ id. read_body q env id w) w.queue.ready w
          s)

  pub dispatch-Sound :
      (p : EffectivePolicy) (env : Env) (w : World) → Sound q i w → Sound q i (dispatch q p env w)
  unfolding dispatch
  dispatch-Sound p env w s =
      dispatch_loop-Sound env (suc (total demanded (expire_ready q p env w).queue.subs))
        (expire_ready q p env w) (expire_ready-Sound p env w s)
