-- ===== src/Broker/Queue/Turn.antt =====
-- ramqp-broker/src/queue.rs: `dispatch`, and `step`, one turn of the loop in `run`.
use r_amqp.Common.{
  ℕ, zero, suc, ◌+◌, ◌-◌, ◌%◌, Bool, Option, none, some, List, [], ◌∷◌, ◌++◌, if◌then◌else◌, length,
  get_elem?, total, insert, is_some, saturating_sub,
}
use r_amqp.Broker.Policy.{EffectivePolicy, expired}
use r_amqp.Broker.Dispatch.{deliver, Output, to_conn, Subscriber, pick_ready, complete_drains}
use r_amqp.Broker.Queue.State.{QueueMsg, Stored, Queue, Env, Handled}
use r_amqp.Broker.Queue.Publish.{to_dlx}
use r_amqp.Broker.Queue.Consume.{requeue_orphans, without_sub, handle}

-- The lazy expiry loop over the front of `ready`: what stays, the bytes left, and what is sent.
unfoldable pub expire :
    EffectivePolicy → (now : ℕ) → List Stored → ℕ → List Stored × ℕ × List Output
expire p now [] bytes = ([], bytes, [])
expire p now (m ∷ ms) bytes =
    let (rest, left, outs) = expire p now ms (saturating_sub bytes (length m.body)) in
    if expired p m.enqueued_ms now
    then (rest, left, to_dlx p m.body ++ outs)
    else (m ∷ ms, bytes, [])

unfoldable pub expire_ready : EffectivePolicy → ℕ → Queue → Queue × List Output
unfolding expire
expire_ready p now q =
    let (ready', bytes', outs) = expire p now q.ready q.bytes in
    if is_some p.ttl_ms then (record q { ready = ready'; bytes = bytes' }, outs) else (q, [])

-- `sub.demand -= 1` at an index; it is made only where the demand is positive.
unfoldable pub take_demand : List Subscriber → ℕ → List Subscriber
take_demand [] idx = []
take_demand (s ∷ ss) zero = record s { demand = s.demand - 1 } ∷ ss
take_demand (s ∷ ss) (suc idx) = s ∷ take_demand ss idx

-- The send to a picked subscriber, whose demand is already taken. If the connection is gone, the
-- message and all else that the subscriber held go back, and the subscriber is dropped.
unfoldable pub send_to : (open_now : Bool) → Queue → Stored → Subscriber → Queue × List Output
send_to open_now q msg sub =
    if open_now
    then (
      record q { unacked = insert msg.id (msg, sub.id) q.unacked },
      to_conn sub.conn (deliver sub.channel sub.handle sub.binding_gen msg.id msg.body) ∷ [],
    )
    else (without_sub sub.id (requeue_orphans sub.id (record q { ready = msg ∷ q.ready })), [])

pub data Round : Type 0 where
  drained unwanted : Round
  sent : Queue → List Output → Round

-- One round of the dispatch loop: `drained` if nothing is ready, `unwanted` if nobody has demand. An
-- index out of range would panic; `pick_ready` returns none.
unfoldable pub dispatch_to :
    (is_open : ℕ → Bool) → Queue → Stored → List Stored → ℕ → Option Subscriber → Round
dispatch_to is_open q msg rest idx none = unwanted
dispatch_to is_open q msg rest idx (some sub) =
    let q' = record q {
      rr = (idx + 1) % length q.subs;
      ready = rest;
      subs = take_demand q.subs idx;
    } in
    let (q'', outs) = send_to (is_open sub.conn) q' msg sub in sent q'' outs

unfoldable pub dispatch_picked :
    (is_open : ℕ → Bool) → Queue → Stored → List Stored → Option ℕ → Round
unfolding dispatch_to
dispatch_picked is_open q msg rest none = unwanted
dispatch_picked is_open q msg rest (some idx) =
    dispatch_to is_open q msg rest idx (get_elem? q.subs idx)

unfoldable pub dispatch_ready : (is_open : ℕ → Bool) → Queue → List Stored → Round
unfolding dispatch_picked
dispatch_ready is_open q [] = drained
dispatch_ready is_open q (msg ∷ rest) = dispatch_picked is_open q msg rest (pick_ready q.subs q.rr)

unfoldable pub dispatch_round : (is_open : ℕ → Bool) → Queue → Round
unfolding dispatch_ready
dispatch_round is_open q = dispatch_ready is_open q q.ready

-- The loop, with fuel. `is_open` is also told the fuel that is left, which tells the rounds apart.
unfoldable pub dispatch_loop : (is_open : ℕ → ℕ → Bool) → (fuel : ℕ) → Queue → Queue × List Output
dispatch_loop is_open zero q = (q, [])
dispatch_loop is_open (suc fuel) q = elim (dispatch_round (λ c. is_open c fuel) q) [
  | drained ↦ (record q { subs = complete_drains q.subs }, [])
  | unwanted ↦ (q, [])
  | sent q' outs ↦ let (q'', outs') = dispatch_loop is_open fuel q' in (q'', outs ++ outs')
]

abbrev pub demanded : Subscriber → ℕ
demanded s = s.demand

-- Each round takes one unit of demand, so this fuel is enough.
abbrev pub total_demand : Queue → ℕ
total_demand q = total demanded q.subs

unfoldable pub dispatch : EffectivePolicy → Env → Queue → Queue × List Output
unfolding expire_ready
dispatch p env q =
    let (q', outs) = expire_ready p env.dispatch_ms q in
    let (q'', outs') = dispatch_loop env.is_open (suc (total_demand q')) q' in (q'', outs ++ outs')

unfoldable pub finish_turn : EffectivePolicy → Env → Handled → Queue × List Output
finish_turn p env h =
    let (q', outs) = dispatch p env h.queue in
    if h.dispatches then (q', h.outputs ++ outs) else (h.queue, h.outputs)

unfoldable pub step : EffectivePolicy → Env → Queue → QueueMsg → Queue × List Output
unfolding finish_turn
step p env q msg = finish_turn p env (handle p env q msg)

-- The actor on the messages of its mailbox, each with what its turn reads.
unfoldable pub run : EffectivePolicy → Queue → List (Env × QueueMsg) → Queue × List Output
unfolding step
run p q [] = (q, [])
run p q ((env, msg) ∷ msgs) =
    let (q', outs) = step p env q msg in let (q'', outs') = run p q' msgs in (q'', outs ++ outs')
