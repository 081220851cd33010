-- ===== src/Broker/Durable/Handle.antt =====
-- ramqp-broker/src/durable.rs: the actor's handling of each message and of a resolved commit.
use r_amqp.Common.{
  ℕ, ◌+◌, ◌-◌, Bool, true, false, not, ◌&&◌, ◌||◌, Option, none, some, [], ◌∷◌, ◌++◌, leb, ltb,
  ◌==◌, if◌then◌else◌, length, retain, get, remove, insert, unwrap_or, saturating_sub,
  saturating_add64, wrapping_add32, wrapping_add64,
}
use r_amqp.Broker.Policy.{Body, EffectivePolicy, attempts_exhausted}
use r_amqp.Broker.Dispatch.{
  PublishAck, subscribe_reply, stats_reply, reserve_reply, new_subscriber, confirm_publish,
  refuse_publish,
}
use r_amqp.Broker.Queue.State.{
  SettleOutcome, ack, requeue, requeue_failed, drop, QueueMsg, publish, publish_reserved, reserve,
  unreserve, subscribe, demand, settle, unsubscribe, stats,
}
use r_amqp.Broker.Queue.Consume.{grant_first}
use r_amqp.Broker.Store.{StoreOp}
use r_amqp.Broker.Durable.Ordered.{insert_ordered}
use r_amqp.Broker.Durable.State.{
  Pending, Ready, Inflight, Durable, World, Env, submit, emit, dead_letter_then_remove,
}

-- A world whose handler went on to the dispatch, or said `continue`.
pub record Handled : Type 0 where
  pub world : World
  pub dispatches : Bool

abbrev pub with_queue : (Durable → Durable) → World → World
with_queue f w = record w { queue = f w.queue }

-- The closure `over`.
unfoldable pub over : EffectivePolicy → (body_len : ℕ) → Durable → Bool
over p body_len q =
    leb p.max_len (length q.ready + length q.inflight + q.publishes_pending + q.reserved)
    || ltb p.max_bytes (saturating_add64 q.bytes body_len)

-- One round of the drop-head loop: the first of `ready` is dead-lettered.
unfoldable pub displace : (queue_id : ℕ) → EffectivePolicy → Env → ℕ → ℕ → Ready → World → World
displace queue_id p env id len rest w = dead_letter_then_remove queue_id p env id (
    with_queue
      (λ q. record q {
        ready = rest;
        bytes = saturating_sub q.bytes len;
        failures = remove id q.failures;
      })
      w)

-- The drop-head loop, on what is ready, with whether the publish still needs room.
unfoldable pub make_room :
    (queue_id : ℕ) → EffectivePolicy → Env → (body_len : ℕ) → Ready → World → World
unfolding displace
make_room queue_id p env body_len [] w = w
make_room queue_id p env body_len ((id, (ms, len)) ∷ rest) w =
    let later = make_room queue_id p env body_len rest (displace queue_id p env id len rest w) in
    if over p body_len w.queue then later else w

-- A publish under the next id goes to the writer, and waits for its answer.
unfoldable pub store_publish : (queue_id : ℕ) → Env → Body → Option PublishAck → World → World
store_publish queue_id env body confirm w =
    let id = wrapping_add64 w.queue.next_msg_id 1 in
    submit env (StoreOp.insert queue_id id env.publish_ms body id) (
      with_queue
        (λ q. record q {
          next_msg_id = id;
          publishes_pending = q.publishes_pending + 1;
          bytes = saturating_add64 q.bytes (length body);
          commits =
              q.commits
              ++ (record {
                ack = confirm;
                msg_id = id;
                enqueued_ms = env.publish_ms;
                len = length body;
                answer = if env.writer_up then none else some false;
              }
                  ∷ []);
        })
        w)

unfoldable pub handle_publish :
    (queue_id : ℕ)
    → EffectivePolicy
    → Env
    → Body
    → Option PublishAck
    → (from_reserved : Bool) → World
    → Handled
unfolding make_room store_publish
handle_publish queue_id p env body confirm from_reserved w0 =
    let w =
      if from_reserved
      then with_queue (λ q. record q { reserved = saturating_sub q.reserved 1 }) w0
      else w0 in
    let w' = if p.drop_head then make_room queue_id p env (length body) w.queue.ready w else w in
    if over p (length body) w'.queue && not from_reserved
    then record { world = emit (refuse_publish confirm) w'; dispatches = false }
    else record { world = store_publish queue_id env body confirm w'; dispatches = true }

unfoldable pub handle_reserve : EffectivePolicy → ℕ → World → World
handle_reserve p count w =
    let q = w.queue in
    let ok =
      p.drop_head
      || leb (length q.ready + length q.inflight + q.publishes_pending + q.reserved + count)
          p.max_len in
    emit (reserve_reply ok ∷ []) (
      if ok && not p.drop_head
      then with_queue (λ q. record q { reserved = q.reserved + count }) w
      else w)

unfoldable pub settle_removed :
    (queue_id : ℕ) → EffectivePolicy → Env → (msg_id ms len : ℕ) → SettleOutcome → World → World
settle_removed queue_id p env id ms len ack w = submit env (StoreOp.remove queue_id id) (
    with_queue
      (λ q. record q { failures = remove id q.failures; bytes = saturating_sub q.bytes len }) w)
settle_removed queue_id p env id ms len drop w = submit env (StoreOp.remove queue_id id) (
    with_queue
      (λ q. record q { failures = remove id q.failures; bytes = saturating_sub q.bytes len }) w)
settle_removed queue_id p env id ms len requeue w =
    with_queue (λ q. record q { ready = insert_ordered id (ms, len) q.ready }) w
settle_removed queue_id p env id ms len requeue_failed w =
    let count = wrapping_add32 (unwrap_or (get id w.queue.failures) 0) 1 in
    if attempts_exhausted p count
    then dead_letter_then_remove queue_id p env id (
        with_queue
          (λ q. record q { failures = remove id q.failures; bytes = saturating_sub q.bytes len }) w)
    else submit env (StoreOp.fail queue_id id) (
        with_queue
          (λ q. record q {
            failures = insert id count q.failures;
            ready = insert_ordered id (ms, len) q.ready;
          })
          w)

unfoldable pub settle_entry :
    (queue_id : ℕ)
    → EffectivePolicy
    → Env
    → (sub msg_id : ℕ) → SettleOutcome
    → Option (ℕ × (ℕ × ℕ))
    → World
    → Handled
unfolding settle_removed
settle_entry queue_id p env sub id outcome none w = record { world = w; dispatches = false }
settle_entry queue_id p env sub id outcome (some (owner, (ms, len))) w =
    if owner == sub
    then record {
      world =
          settle_removed queue_id p env id ms len outcome
            (with_queue (λ q. record q { inflight = remove id q.inflight }) w);
      dispatches = true;
    }
    else record { world = w; dispatches = false }

-- What a subscriber holds goes back to `ready`.
unfoldable pub requeue_owned : (sub : ℕ) → Inflight → Ready → Ready
requeue_owned sub [] ready = ready
requeue_owned sub ((id, (owner, (ms, len))) ∷ m) ready =
    requeue_owned sub m (if owner == sub then insert_ordered id (ms, len) ready else ready)

unfoldable pub held_by_others : (sub : ℕ) → Inflight → Inflight
held_by_others sub [] = []
held_by_others sub ((id, (owner, (ms, len))) ∷ m) =
    let rest = held_by_others sub m in
    if owner == sub then rest else (id, (owner, (ms, len))) ∷ rest

unfoldable pub release_sub : (sub : ℕ) → Durable → Durable
unfolding requeue_owned held_by_others
release_sub sub q = record q {
  subs = retain (λ s. not (s.id == sub)) q.subs;
  ready = requeue_owned sub q.inflight q.ready;
  inflight = held_by_others sub q.inflight;
}

unfoldable pub subscribe_to : (conn channel link binding_gen : ℕ) → Durable → Durable
subscribe_to conn channel link binding_gen q =
    let id = wrapping_add64 q.next_sub_id 1 in
    record q {
      next_sub_id = id;
      subs = q.subs ++ (new_subscriber id conn channel link binding_gen ∷ []);
    }

abbrev dispatching : World → Handled
dispatching w = record { world = w; dispatches = true }

unfoldable pub handle : (queue_id : ℕ) → EffectivePolicy → Env → QueueMsg → World → Handled
unfolding handle_reserve release_sub subscribe_to
handle queue_id p env (publish body confirm) w = handle_publish queue_id p env body confirm false w
handle queue_id p env (publish_reserved body confirm) w =
    handle_publish queue_id p env body confirm true w
handle queue_id p env (reserve count) w = dispatching (handle_reserve p count w)
handle queue_id p env (unreserve count) w =
    dispatching (with_queue (λ q. record q { reserved = saturating_sub q.reserved count }) w)
handle queue_id p env (subscribe conn channel link binding_gen) w = dispatching (
    emit (subscribe_reply (wrapping_add64 w.queue.next_sub_id 1) ∷ [])
      (with_queue (subscribe_to conn channel link binding_gen) w))
handle queue_id p env (demand sub credit drain) w =
    dispatching (with_queue (λ q. record q { subs = grant_first sub credit drain q.subs }) w)
handle queue_id p env (settle sub msg_id outcome) w =
    settle_entry queue_id p env sub msg_id outcome (get msg_id w.queue.inflight) w
handle queue_id p env (unsubscribe sub) w = dispatching (with_queue (release_sub sub) w)
handle queue_id p env stats w = dispatching (
    emit
      (stats_reply (record {
        ready = length w.queue.ready;
        unacked = length w.queue.inflight;
        consumers = length w.queue.subs;
      })
        ∷ [])
      w)

-- `commits.next()`: an answered publish is confirmed and becomes ready, or is refused.
unfoldable pub resolve_commit : Pending → Bool → World → World
resolve_commit c true w = emit (confirm_publish c.ack) (
    with_queue
      (λ q. record q {
        publishes_pending = q.publishes_pending - 1;
        ready = insert_ordered c.msg_id (c.enqueued_ms, c.len) q.ready;
      })
      w)
resolve_commit c false w = emit (refuse_publish c.ack) (
    with_queue
      (λ q. record q {
        publishes_pending = q.publishes_pending - 1;
        bytes = saturating_sub q.bytes c.len;
      })
      w)
