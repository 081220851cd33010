-- ===== src/Broker/Queue/State.antt =====
-- ramqp-broker/src/queue.rs: the messages to a queue's actor, its state, and what a turn reads and
-- returns.
use r_amqp.Common.{ℕ, Bool, Option, List, []}
use r_amqp.Broker.Policy.{Body}
use r_amqp.Broker.Dispatch.{PublishAck, Output, Subscriber}

pub data SettleOutcome : Type 0 where
  ack requeue requeue_failed drop : SettleOutcome

-- The commands into the actor, without their reply channels: replies are outputs.
pub data QueueMsg : Type 0 where
  publish publish_reserved : Body → Option PublishAck → QueueMsg
  reserve unreserve : (count : ℕ) → QueueMsg
  subscribe : (conn channel handle binding_gen : ℕ) → QueueMsg
  demand : (sub credit : ℕ) (drain : Bool) → QueueMsg
  settle : (sub msg_id : ℕ) → SettleOutcome → QueueMsg
  unsubscribe : (sub : ℕ) → QueueMsg
  stats : QueueMsg

pub record Stored : Type 0 where
  pub id : ℕ
  pub body : Body
  pub failures : ℕ
  pub enqueued_ms : ℕ

-- A dispatched message with the subscriber that owns it, under the message's id.
abbrev pub Unacked : Type 0
Unacked = List (ℕ × (Stored × ℕ))

-- The locals of `run`. The head of `ready` is the front of the deque.
pub record Queue : Type 0 where
  pub ready : List Stored
  pub unacked : Unacked
  pub subs : List Subscriber
  pub reserved : ℕ
  pub bytes : ℕ
  pub next_msg_id : ℕ
  pub next_sub_id : ℕ
  pub rr : ℕ

unfoldable pub empty_queue : Queue
empty_queue = record {
  ready = [];
  unacked = [];
  subs = [];
  reserved = 0;
  bytes = 0;
  next_msg_id = 0;
  next_sub_id = 0;
  rr = 0;
}

-- What one turn of the loop reads from outside: the clock at the publish and at the dispatch, and
-- whether a send to a connection finds its channel open, which may differ from round to round.
pub record Env : Type 0 where
  pub publish_ms : ℕ
  pub dispatch_ms : ℕ
  pub is_open : (conn round : ℕ) → Bool

-- A handler's result. `dispatches` is false where the source says `continue`.
pub record Handled : Type 0 where
  pub queue : Queue
  pub outputs : List Output
  pub dispatches : Bool
