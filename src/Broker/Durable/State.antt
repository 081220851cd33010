-- ===== src/Broker/Durable/State.antt =====
-- ramqp-broker/src/durable.rs: the locals of `run`, with what stands between the actor and the disk.
use r_amqp.Common.{ℕ, Bool, Option, none, some, List, [], ◌∷◌, ◌++◌, if◌then◌else◌}
use r_amqp.Broker.Policy.{Body, EffectivePolicy, DeadLetter, dead_letter}
use r_amqp.Broker.Dispatch.{PublishAck, Output, to_router, Subscriber}
use r_amqp.Broker.Store.{StoreOp, Tables, body}

-- `Committed`, before and after the writer has answered.
pub record Pending : Type 0 where
  pub ack : Option PublishAck
  pub msg_id : ℕ
  pub enqueued_ms : ℕ
  pub len : ℕ
  pub answer : Option Bool

-- Dispatchable ids with their enqueue time and body length.
abbrev pub Ready : Type 0
Ready = List (ℕ × (ℕ × ℕ))

-- Dispatched ids with their owner, enqueue time and body length.
abbrev pub Inflight : Type 0
Inflight = List (ℕ × (ℕ × (ℕ × ℕ)))

-- `commits` are the pipelined publishes, whose number is `publishes_pending`.
pub record Durable : Type 0 where
  pub subs : List Subscriber
  pub inflight : Inflight
  pub ready : Ready
  pub failures : List (ℕ × ℕ)
  pub next_msg_id : ℕ
  pub bytes : ℕ
  pub commits : List Pending
  pub publishes_pending : ℕ
  pub reserved : ℕ
  pub next_sub_id : ℕ
  pub rr : ℕ

-- The actor, the operations in the writer's channel, the ids whose removal waits for the dead-letter
-- router, the committed tables, and what was sent.
pub record World : Type 0 where
  pub queue : Durable
  pub waiting : List StoreOp
  pub deferred : List ℕ
  pub tables : Tables
  pub outputs : List Output

-- What a turn reads from outside: the clock, whether a connection's channel is open in a round of the
-- dispatch, whether the writer takes operations, and whether the read of a body succeeds.
pub record Env : Type 0 where
  pub publish_ms : ℕ
  pub dispatch_ms : ℕ
  pub is_open : (conn round : ℕ) → Bool
  pub writer_up : Bool
  pub is_readable : ℕ → Bool

-- `store.submit(..).await`, whose error is ignored.
unfoldable pub submit : Env → StoreOp → World → World
submit env op w = if env.writer_up then record w { waiting = w.waiting ++ (op ∷ []) } else w

unfoldable pub emit : List Output → World → World
emit outs w = record w { outputs = w.outputs ++ outs }

-- `store.body(..)`, none also where the read fails.
unfoldable pub read_body : (queue_id : ℕ) → Env → ℕ → World → Option Body
read_body queue_id env id w = if env.is_readable id then body queue_id id w.tables else none

-- `dead_letter_ordered`: a copy goes to the router, and the removal waits; else the message is
-- removed at once.
unfoldable pub remove_after : (queue_id : ℕ) → Env → ℕ → List DeadLetter → World → World
unfolding submit emit
remove_after queue_id env id [] w = submit env (StoreOp.remove queue_id id) w
remove_after queue_id env id (copy ∷ copies) w =
    emit (to_router copy ∷ []) (record w { deferred = w.deferred ++ (id ∷ []) })

unfoldable pub copies_of : EffectivePolicy → Option Body → List DeadLetter
copies_of p none = []
copies_of p (some b) = dead_letter p b

unfoldable pub dead_letter_then_remove : (queue_id : ℕ) → EffectivePolicy → Env → ℕ → World → World
unfolding remove_after copies_of read_body
dead_letter_then_remove queue_id p env id w =
    remove_after queue_id env id (copies_of p (read_body queue_id env id w)) w
