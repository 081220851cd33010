-- ===== src/Broker/Durable/Dispatching.antt =====
-- ramqp-broker/src/durable.rs: `dispatch`. The rounds in which a stale id is dropped leave the pick of
-- a subscriber as it was, so they stand before the send of their round.
use r_amqp.Common.{
  ℕ, zero, suc, ◌+◌, ◌%◌, Bool, Option, none, some, [], ◌∷◌, if◌then◌else◌, length, get_elem?,
  total, insert, remove, is_some, saturating_sub,
}
use r_amqp.Broker.Policy.{Body, EffectivePolicy, expired}
use r_amqp.Broker.Dispatch.{deliver, to_conn, Subscriber, pick_ready, complete_drains}
use r_amqp.Broker.Queue.Turn.{take_demand, demanded}
use r_amqp.Broker.Durable.Ordered.{insert_ordered}
use r_amqp.Broker.Durable.State.{Ready, World, Env, emit, read_body, dead_letter_then_remove}
use r_amqp.Broker.Durable.Handle.{with_queue, release_sub}

unfoldable pub expire_one : (queue_id : ℕ) → EffectivePolicy → Env → ℕ → ℕ → Ready → World → World
expire_one queue_id p env id len rest w = dead_letter_then_remove queue_id p env id (
    with_queue
      (λ q. record q {
        ready = rest;
        failures = remove id q.failures;
        bytes = saturating_sub q.bytes len;
      })
      w)

-- The lazy expiry loop, on what is ready.
unfoldable pub expire : (queue_id : ℕ) → EffectivePolicy → Env → Ready → World → World
unfolding expire_one
expire queue_id p env [] w = w
expire queue_id p env ((id, (ms, len)) ∷ rest) w =
    let later = expire queue_id p env rest (expire_one queue_id p env id len rest w) in
    if expired p ms env.dispatch_ms then later else w

unfoldable pub expire_ready : (queue_id : ℕ) → EffectivePolicy → Env → World → World
unfolding expire
expire_ready queue_id p env w =
    if is_some p.ttl_ms then expire queue_id p env w.queue.ready w else w

pub data Front : Type 0 where
  nothing : Front
  front : (id ms len : ℕ) (body : Body) (rest : Ready) → Front

unfoldable pub front_of : (id ms len : ℕ) → Ready → Option Body → (later : Front) → Front
front_of id ms len rest none later = later
front_of id ms len rest (some b) later = front id ms len b rest

-- The first ready id with a body; the ones before it are dropped.
unfoldable pub first_stored : (read : ℕ → Option Body) → Ready → Front
unfolding front_of
first_stored read [] = nothing
first_stored read ((id, (ms, len)) ∷ rest) =
    front_of id ms len rest (read id) (first_stored read rest)

-- The send to a picked subscriber, with its demand taken. If its connection is gone, the message and
-- all that it held are ready again, and the subscriber is dropped.
unfoldable pub send_to : (open_now : Bool) → (id ms len : ℕ) → Body → Subscriber → World → World
send_to open_now id ms len b sub w =
    if open_now
    then emit (to_conn sub.conn (deliver sub.channel sub.handle sub.binding_gen id b) ∷ [])
        (with_queue (λ q. record q { inflight = insert id (sub.id, (ms, len)) q.inflight }) w)
    else with_queue (release_sub sub.id)
        (with_queue (λ q. record q { ready = insert_ordered id (ms, len) q.ready }) w)

-- A round of the loop: nothing is ready, nobody has demand, or a message was sent.
pub data Round : Type 0 where
  drained unwanted : World → Round
  sent : World → Round

unfoldable pub send_front : (is_open : ℕ → Bool) → (idx : ℕ) → Subscriber → World → Front → Round
unfolding send_to
send_front is_open idx sub w nothing = drained (with_queue (λ q. record q { ready = [] }) w)
send_front is_open idx sub w (front id ms len b rest) = sent (
    send_to (is_open sub.conn) id ms len b sub (
      with_queue
        (λ q. record q {
          ready = rest;
          rr = (idx + 1) % length q.subs;
          subs = take_demand q.subs idx;
        })
        w))

unfoldable pub send_picked :
    (is_open : ℕ → Bool) → (read : ℕ → Option Body) → (idx : ℕ) → Option Subscriber → World → Round
unfolding send_front first_stored
send_picked is_open read idx none w = unwanted w
send_picked is_open read idx (some sub) w =
    send_front is_open idx sub w (first_stored read w.queue.ready)

unfoldable pub dispatch_picked :
    (is_open : ℕ → Bool) → (read : ℕ → Option Body) → Option ℕ → World → Round
unfolding send_picked
dispatch_picked is_open read none w = unwanted w
dispatch_picked is_open read (some idx) w =
    send_picked is_open read idx (get_elem? w.queue.subs idx) w

unfoldable pub dispatch_ready :
    (is_open : ℕ → Bool) → (read : ℕ → Option Body) → Ready → World → Round
unfolding dispatch_picked
dispatch_ready is_open read [] w = drained w
dispatch_ready is_open read (e ∷ rest) w =
    dispatch_picked is_open read (pick_ready w.queue.subs w.queue.rr) w

unfoldable pub dispatch_loop : (queue_id : ℕ) → Env → (fuel : ℕ) → World → World
unfolding dispatch_ready
dispatch_loop queue_id env zero w = w
dispatch_loop queue_id env (suc fuel) w =
    elim (dispatch_ready (λ c. env.is_open c fuel) (λ id. read_body queue_id env id w) w.queue.ready
      w) [
        | drained w' ↦ with_queue (λ q. record q { subs = complete_drains q.subs }) w'
        | unwanted w' ↦ w'
        | sent w' ↦ dispatch_loop queue_id env fuel w'
      ]

-- Each round that sends takes one unit of demand, so this fuel is enough.
unfoldable pub dispatch : (queue_id : ℕ) → EffectivePolicy → Env → World → World
unfolding expire_ready dispatch_loop
dispatch queue_id p env w =
    let w' = expire_ready queue_id p env w in
    dispatch_loop queue_id env (suc (total demanded w'.queue.subs)) w'
