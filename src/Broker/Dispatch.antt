-- ===== src/Broker/Dispatch.antt =====
-- ramqp-broker/src/dispatch.rs: subscribers with their demand, the round-robin pick, drain
-- completion, and the answers to a producer; with the commands of queue.rs that they send.
pub mod Pick
use r_amqp.Common.{
  ℕ, zero, suc, ◌+◌, ◌-◌, ◌%◌, ◌≡◌, refl, Bool, true, false, Option, none, some, List, [], ◌∷◌, map,
  ltb, if◌then◌else◌, length, get_elem?, saturating_add32,
}
use r_amqp.Broker.Policy.{Body, DeadLetter}

-- Where to confirm a publish. `conn` names the producer's connection mailbox.
pub record PublishAck : Type 0 where
  pub conn : ℕ
  pub channel : ℕ
  pub handle : ℕ
  pub binding_gen : ℕ
  pub delivery_id : ℕ

-- Commands into a connection driver.
pub data ConnCmd : Type 0 where
  deliver : (channel handle binding_gen msg_id : ℕ) (body : Body) → ConnCmd
  settle_incoming : (channel handle binding_gen delivery_id : ℕ) (accepted : Bool) → ConnCmd

-- A point-in-time snapshot for the management surface.
pub record QueueStats : Type 0 where
  pub ready : ℕ
  pub unacked : ℕ
  pub consumers : ℕ

-- What a queue actor sends, in order: to a connection, to the dead-letter router, or as a reply.
pub data Output : Type 0 where
  to_conn : (conn : ℕ) (cmd : ConnCmd) → Output
  to_router : DeadLetter → Output
  reserve_reply : Bool → Output
  subscribe_reply : ℕ → Output
  stats_reply : QueueStats → Output

pub record Subscriber : Type 0 where
  pub id : ℕ
  pub conn : ℕ
  pub channel : ℕ
  pub handle : ℕ
  pub binding_gen : ℕ
  pub demand : ℕ
  pub drain_pending : Bool

-- `Subscriber::new`.
unfoldable pub new_subscriber : (id conn channel handle binding_gen : ℕ) → Subscriber
new_subscriber id conn channel handle binding_gen = record {
  id = id;
  conn = conn;
  channel = channel;
  handle = handle;
  binding_gen = binding_gen;
  demand = 0;
  drain_pending = false;
}

unfoldable pub grant : Subscriber → ℕ → Bool → Subscriber
grant s credit drain = record s { demand = saturating_add32 s.demand credit; drain_pending = drain }

-- `subs[idx].demand`; the scan only asks for indices below the length.
abbrev pub demand_at : List Subscriber → ℕ → ℕ
demand_at [] idx = 0
demand_at (s ∷ ss) zero = s.demand
demand_at (s ∷ ss) (suc idx) = demand_at ss idx

-- The scan of `pick_ready` from step `i` on, with `k` steps left.
pick_from : List Subscriber → ℕ → ℕ → ℕ → Option ℕ
pick_from subs rr zero i = none
pick_from subs rr (suc k) i =
    let rest = pick_from subs rr k (i + 1) in
    let idx = (rr + i) % length subs in if ltb 0 (demand_at subs idx) then some idx else rest

unfoldable pub pick_ready : List Subscriber → ℕ → Option ℕ
unfolding pick_from
pick_ready subs rr = pick_from subs rr (length subs) 0

complete_drain : Subscriber → Subscriber
complete_drain s = if s.drain_pending then record s { demand = 0; drain_pending = false } else s

unfoldable pub complete_drains : List Subscriber → List Subscriber
unfolding complete_drain
complete_drains subs = map complete_drain subs

answer : Option PublishAck → Bool → List Output
answer none accepted = []
answer (some ack) accepted =
    to_conn ack.conn
      (settle_incoming ack.channel ack.handle ack.binding_gen ack.delivery_id accepted)
    ∷ []

unfoldable pub confirm_publish : Option PublishAck → List Output
unfolding answer
confirm_publish ack = answer ack true

unfoldable pub refuse_publish : Option PublishAck → List Output
unfolding answer
refuse_publish ack = answer ack false
