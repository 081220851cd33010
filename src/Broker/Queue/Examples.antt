-- ===== src/Broker/Queue/Examples.antt =====
-- Runs of the queue actor of queue.rs, and its theorems at concrete inputs.
use r_amqp.Broker.Dispatch.Pick.{IsPick, pick_ready-none, pick_ready-some}
use r_amqp.Broker.Queue.Conservation.{Kept, dispatch-Kept}
use r_amqp.Broker.Queue.Publish.{to_dlx}
use r_amqp.Broker.Queue.Soundness.{step-IsSound}
use r_amqp.Broker.Queue.Held.{id_weight}
use r_amqp.Broker.Queue.Consume.{
  handle, grant_first, handle_settle, settle_entry, settle_removed, is_owned_by,
}
use r_amqp.Broker.Queue.Demand.{WithinDemand, dispatch-WithinDemand}
use r_amqp.Broker.Queue.Progress.{IsFinished, dispatch-IsFinished}
use r_amqp.Broker.Queue.Bounds.{IsBounded, step-IsBounded}
use r_amqp.Broker.Queue.Accounting.{IsSound}
use r_amqp.Broker.Queue.Turn.{
  step, dispatch, expire_ready, dispatch_loop, dispatch_round, send_to, take_demand, total_demand,
}
use r_amqp.Broker.Dispatch.{
  Subscriber, Output, grant, pick_ready, to_conn, deliver, to_router, complete_drains, demand_at,
}
use r_amqp.Broker.Queue.State.{
  Env, Queue, Stored, publish, publish_reserved, demand, settle, requeue_failed,
}
use r_amqp.Broker.Policy.{EffectivePolicy, dead_letter, attempts_exhausted}
use r_amqp.Common.{ℕ, ◌≡◌, refl, ◌<◌, List, arith, false, none, true, ◌∷◌, [], some}

abbrev small : EffectivePolicy
small = record {
  ttl_ms = none;
  max_len = 2;
  max_bytes = 100;
  drop_head = true;
  dead_letter = some "dead";
  max_attempts = some 1;
  dlx = true;
}

abbrev quiet : Env
quiet = record { publish_ms = 5; dispatch_ms = 6; is_open = λ c r. true }

abbrev link : Subscriber
link = record {
  id = 1;
  conn = 9;
  channel = 0;
  handle = 7;
  binding_gen = 0;
  demand = 0;
  drain_pending = false;
}

abbrev first : Stored
first = record { id = 1; body = 10 ∷ 11 ∷ []; failures = 0; enqueued_ms = 5 }

-- One message ready, one consumer without demand, one held slot.
abbrev waiting : Queue
waiting = record {
  ready = first ∷ [];
  unacked = [];
  subs = link ∷ [];
  reserved = 1;
  bytes = 2;
  next_msg_id = 1;
  next_sub_id = 1;
  rr = 0;
}

abbrev delivering : Queue × List Output
delivering = step small quiet waiting (demand 1 5 false)

-- A grant of demand dispatches what is ready, and the rest of the demand stays.
delivers :
    (delivering.1 ≡ to_conn 9 (deliver 0 7 0 1 (10 ∷ 11 ∷ [])) ∷ [])
    × (delivering.0.ready ≡ [])
    × (total_demand delivering.0 ≡ 4)
unfolding step handle expire_ready dispatch dispatch_loop dispatch_round send_to take_demand
    grant_first grant pick_ready complete_drains
delivers = (refl, refl, refl)

-- A failed delivery past its attempts goes to the dead-letter queue, and its bytes are given back.
dead_letters :
    (settled : Queue × List Output) × (settled
      ≡ step small quiet delivering.0 (settle 1 1 requeue_failed))
    × (settled.1 ≡ to_router (record { target = "dead"; body = 10 ∷ 11 ∷ [] }) ∷ [])
    × (settled.0.bytes ≡ 0)
unfolding step handle expire_ready dispatch dispatch_loop dispatch_round send_to take_demand
    grant_first grant pick_ready complete_drains handle_settle settle_entry settle_removed
    is_owned_by to_dlx dead_letter attempts_exhausted
dead_letters = (step small quiet delivering.0 (settle 1 1 requeue_failed), refl, refl, refl)

small_id : (i : ℕ) → 1 < i → id_weight i 1 (10 ∷ 11 ∷ []) ≡ 0
small_id i h = ground arith

waiting-IsSound : IsSound waiting
waiting-IsSound = record {
  distinct = record { keyed = tt; once = λ i. ground arith };
  fresh = λ i h. ground arith;
  accounted = refl;
}

waiting-IsBounded : IsBounded small waiting
waiting-IsBounded = record { depth = omega arith; size = omega arith }

step-IsSound_example : IsSound (step small quiet waiting (publish (1 ∷ []) none)).0
step-IsSound_example =
    step-IsSound small quiet waiting (publish (1 ∷ []) none) waiting-IsSound
      (omega arith, omega arith)

step-IsBounded_example :
    IsBounded small (step small quiet waiting (publish_reserved (1 ∷ []) none)).0
step-IsBounded_example =
    step-IsBounded small quiet waiting (publish_reserved (1 ∷ []) none) waiting-IsSound
      (omega arith, omega arith) (omega arith, omega arith) waiting-IsBounded

dispatch-IsFinished_example : IsFinished (dispatch small quiet waiting).0
dispatch-IsFinished_example = dispatch-IsFinished small quiet waiting

dispatch-WithinDemand_example : WithinDemand (λ c ch h g. 1) waiting (dispatch small quiet waiting)
dispatch-WithinDemand_example = dispatch-WithinDemand (λ c ch h g. 1) small quiet waiting

dispatch-Kept_example : Kept waiting (dispatch small quiet waiting).0
dispatch-Kept_example = dispatch-Kept small quiet waiting refl waiting-IsSound.distinct

pick_ready-some_example : IsPick (record link { demand = 2 } ∷ []) 3 0 1 0
unfolding pick_ready
pick_ready-some_example = pick_ready-some (record link { demand = 2 } ∷ []) 3 0 refl

pick_ready-none_example : demand_at (link ∷ link ∷ []) 1 ≡ 0
unfolding pick_ready
pick_ready-none_example = pick_ready-none (link ∷ link ∷ []) 5 1 refl
