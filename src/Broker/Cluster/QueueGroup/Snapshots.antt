-- ===== src/Broker/Cluster/QueueGroup/Snapshots.antt =====
-- ramqp-broker/src/cluster/queue_group.rs: snapshots of a replica, in the portable form that is
-- serialised, and their restoration.
use r_amqp.Common.{
  ℕ, Bool, true, false, Option, none, some, List, [], ◌∷◌, length, insert, ◌==◌, if◌then◌else◌,
  ◌||◌,
}
use r_amqp.Broker.Policy.{Body}
use r_amqp.Broker.Cluster.Paging.{SpillRef, Io, read}
use r_amqp.Broker.Cluster.QueueGroup.{
  StoredBody, resident, spilled, ReplicatedMessage, QueuePaging, QueueState, store_body, drop_body,
}

pub data PortableBody : Type 0 where
  in_line : Body → PortableBody
  external : SpillRef → PortableBody

-- An id, the failed attempts, the enqueue time and the body.
abbrev pub PortableMessage : Type 0
PortableMessage = ℕ × (ℕ × (ℕ × PortableBody))

pub record PortableState : Type 0 where
  pub next_msg_id : ℕ
  pub messages : List PortableMessage
  pub spill_id : ℕ

abbrev pub portable_body : StoredBody → PortableBody
portable_body (resident b) = in_line b
portable_body (spilled r) = external r

abbrev pub portable_messages : List (ℕ × ReplicatedMessage) → List PortableMessage
portable_messages [] = []
portable_messages ((id, m) ∷ ms) =
    (id, (m.failures, (m.enqueued_ms, portable_body m.body))) ∷ portable_messages ms

abbrev pub is_external : PortableBody → Bool
is_external (in_line b) = false
is_external (external r) = true

abbrev pub has_external : List PortableMessage → Bool
has_external [] = false
has_external ((id, (failures, (ms, b))) ∷ rest) = is_external b || has_external rest

-- A panic, an error, or the snapshot.
pub data Snapshot : Type 0 where
  snapshot_panic : Snapshot
  snapshot_error : Snapshot
  snapshot_of : PortableState → Snapshot

abbrev pub spill_id_of : Option QueuePaging → Option ℕ
spill_id_of none = none
spill_id_of (some p) = some p.spill.id

unfoldable pub external_snapshot : (syncs : Bool) → Option ℕ → QueueState → Snapshot
external_snapshot syncs none q = snapshot_panic
external_snapshot syncs (some id) q =
    if syncs
    then snapshot_of (record {
      next_msg_id = q.next_msg_id;
      messages = portable_messages q.messages;
      spill_id = id;
    })
    else snapshot_error

-- `snapshot_bytes` before it is serialised; the sync of the segment files succeeds or not.
unfoldable pub snapshot_bytes : (syncs : Bool) → QueueState → Snapshot
unfolding external_snapshot
snapshot_bytes syncs q =
    if has_external (portable_messages q.messages)
    then external_snapshot syncs (spill_id_of q.paging) q
    else snapshot_of (record {
      next_msg_id = q.next_msg_id;
      messages = portable_messages q.messages;
      spill_id = 0;
    })

-- A panic of the spill store, an error with the state that is left, or the restored state.
pub data Restored : Type 0 where
  restore_panic : Restored
  restore_error : QueueState → Restored
  restored : QueueState → Restored

unfoldable pub put_message :
    (id failures enqueued_ms : ℕ) → Option (StoredBody × QueueState) → Restored
put_message id failures enqueued_ms none = restore_panic
put_message id failures enqueued_ms (some (b, q)) = restored (record q {
  messages =
      insert id (record { body = b; failures = failures; enqueued_ms = enqueued_ms }) q.messages;
})

-- A reference is taken only if it is readable.
unfoldable pub put_readable :
    (id failures enqueued_ms : ℕ) → SpillRef → Option Body → QueueState → Restored
unfolding put_message
put_readable id failures enqueued_ms r none q = restore_error q
put_readable id failures enqueued_ms r (some b) q =
    put_message id failures enqueued_ms (some (spilled r, q))

unfoldable pub put_external :
    Io
    → (spill_id id failures enqueued_ms : ℕ) → SpillRef
    → Option QueuePaging
    → QueueState
    → Restored
unfolding put_readable
put_external io spill_id id failures enqueued_ms r none q = restore_error q
put_external io spill_id id failures enqueued_ms r (some p) q =
    if p.spill.id == spill_id
    then put_readable id failures enqueued_ms r (read io.reads r p.spill) q
    else restore_error q

unfoldable pub restore_message : Io → (spill_id : ℕ) → PortableMessage → QueueState → Restored
unfolding put_external
restore_message io spill_id (id, (failures, (enqueued_ms, in_line b))) q =
    put_message id failures enqueued_ms (store_body io b q)
restore_message io spill_id (id, (failures, (enqueued_ms, external r))) q =
    put_external io spill_id id failures enqueued_ms r q.paging q

unfoldable pub restore_messages :
    (io : ℕ → Io) → (spill_id : ℕ) → List PortableMessage → QueueState → Restored
unfolding restore_message
restore_messages io spill_id [] q = restored q
restore_messages io spill_id (m ∷ ms) q = elim (restore_message (io (length ms)) spill_id m q) [
  | restore_panic ↦ restore_panic
  | restore_error q' ↦ restore_error q'
  | restored q' ↦ restore_messages io spill_id ms q'
]

unfoldable pub drop_bodies : List (ℕ × ReplicatedMessage) → QueueState → QueueState
unfolding drop_body
drop_bodies [] q = q
drop_bodies ((id, m) ∷ ms) q = drop_bodies ms (drop_body m.body q)

-- `restore_snapshot` after the bytes are read; an own Io for each message.
unfoldable pub restore_snapshot : (io : ℕ → Io) → PortableState → QueueState → Restored
unfolding restore_messages drop_bodies
restore_snapshot io st q =
    restore_messages io st.spill_id st.messages
      (record (drop_bodies q.messages (record q { messages = [] })) {
        resident_bytes = 0;
        next_msg_id = st.next_msg_id;
      })
