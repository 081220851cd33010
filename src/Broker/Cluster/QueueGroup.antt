-- ===== src/Broker/Cluster/QueueGroup.antt =====
-- ramqp-broker/src/cluster/queue_group.rs: the state that the replicas of a quorum queue agree on. The
-- consensus hands each replica the same commands; what its file system does is its own. A panic of the
-- spill store is none.
pub mod Ledger
pub mod Pairs
pub mod Refinement
pub mod Replicas
pub mod Returning
pub mod Snapshots
pub mod Foreign
mod Examples
use r_amqp.Common.{
  ◌++◌, ℕ, suc, ◌+◌, Bool, true, false, Option, none, some, List, [], ◌∷◌, ltb, if◌then◌else◌,
  length, get, remove, insert, saturating_sub, wrapping_add32, wrapping_add64,
}
use r_amqp.Broker.Policy.{Body}
use r_amqp.Broker.Cluster.Paging.{
  SpillRef, Spill, Io, Appended, panicked, refused, stored, append, release, read, pin, unpin,
}

pub data QueueCommand : Type 0 where
  enqueue : (body : Body) (enqueued_ms : ℕ) → QueueCommand
  settle : (msg_id : ℕ) (requeue : Bool) → QueueCommand

pub data QueueResponse : Type 0 where
  enqueued : (msg_id : ℕ) → QueueResponse
  settled : QueueResponse
  not_found : QueueResponse
  void_response : QueueResponse

pub data StoredBody : Type 0 where
  resident : Body → StoredBody
  spilled : SpillRef → StoredBody

pub record ReplicatedMessage : Type 0 where
  pub body : StoredBody
  pub failures : ℕ
  pub enqueued_ms : ℕ

pub record QueuePaging : Type 0 where
  pub spill : Spill
  pub resident_max_bytes : ℕ

-- The order of the map's keys has no part in these operations.
pub record QueueState : Type 0 where
  pub next_msg_id : ℕ
  pub messages : List (ℕ × ReplicatedMessage)
  pub resident_bytes : ℕ
  pub paging : Option QueuePaging

unfoldable pub paged : Spill → (resident_max_bytes : ℕ) → QueueState
paged spill resident_max_bytes = record {
  next_msg_id = 0;
  messages = [];
  resident_bytes = 0;
  paging = some (record { spill = spill; resident_max_bytes = resident_max_bytes });
}

pub data BodyFetch : Type 0 where
  ready : Body → BodyFetch
  from_spill : Spill → SpillRef → BodyFetch
  no_paging : BodyFetch

abbrev pub fetch_of : StoredBody → Option QueuePaging → BodyFetch
fetch_of (resident b) paging = ready b
fetch_of (spilled r) none = no_paging
fetch_of (spilled r) (some p) = from_spill p.spill r

abbrev pub fetch_message : Option ReplicatedMessage → Option QueuePaging → Option BodyFetch
fetch_message none paging = none
fetch_message (some m) paging = some (fetch_of m.body paging)

unfoldable pub body_of : (msg_id : ℕ) → QueueState → Option BodyFetch
body_of msg_id q = fetch_message (get msg_id q.messages) q.paging

-- A fetch, done: the bytes, or those that the spill store reads, where its file can be read.
abbrev pub resolve : (reads : Bool) → Option BodyFetch → Option Body
resolve reads none = none
resolve reads (some (ready b)) = some b
resolve reads (some (from_spill s r)) = read reads r s
resolve reads (some no_paging) = none

abbrev pub meta_message : Option ReplicatedMessage → Option (ℕ × ℕ)
meta_message none = none
meta_message (some m) = some (m.enqueued_ms, m.failures)

unfoldable pub meta_of : (msg_id : ℕ) → QueueState → Option (ℕ × ℕ)
meta_of msg_id q = meta_message (get msg_id q.messages)

unfoldable pub keep_resident : Body → QueueState → StoredBody × QueueState
keep_resident body q = (resident body, record q { resident_bytes = q.resident_bytes + length body })

-- What comes of an attempt to spill: a failure keeps the body resident.
unfoldable pub after_spill :
    Body → QueuePaging → QueueState → Appended → Option (StoredBody × QueueState)
unfolding keep_resident
after_spill body p q panicked = none
after_spill body p q (refused s) =
    some (keep_resident body (record q { paging = some (record p { spill = s }) }))
after_spill body p q (stored r s) =
    some (spilled r, record q { paging = some (record p { spill = s }) })

unfoldable pub store_body_with :
    Io → Body → Option QueuePaging → QueueState → Option (StoredBody × QueueState)
unfolding after_spill
store_body_with io body none q = some (keep_resident body q)
store_body_with io body (some p) q =
    if ltb p.resident_max_bytes (q.resident_bytes + length body)
    then after_spill body p q (append io body p.spill)
    else some (keep_resident body q)

unfoldable pub store_body : Io → Body → QueueState → Option (StoredBody × QueueState)
unfolding store_body_with
store_body io body q = store_body_with io body q.paging q

abbrev pub release_in : SpillRef → Option QueuePaging → Option QueuePaging
release_in r none = none
release_in r (some p) = some (record p { spill = release r p.spill })

unfoldable pub drop_body : StoredBody → QueueState → QueueState
drop_body (resident b) q = record q { resident_bytes = saturating_sub q.resident_bytes (length b) }
drop_body (spilled r) q = record q { paging = release_in r q.paging }

unfoldable pub enqueue_stored :
    (enqueued_ms : ℕ) → Option (StoredBody × QueueState) → Option (QueueResponse × QueueState)
enqueue_stored enqueued_ms none = none
enqueue_stored enqueued_ms (some (b, q)) = some (
  enqueued q.next_msg_id,
  record q {
    messages =
        insert q.next_msg_id (record { body = b; failures = 0; enqueued_ms = enqueued_ms })
          q.messages;
  },
)

unfoldable pub requeue_in :
    (msg_id : ℕ) → Option ReplicatedMessage → QueueState → QueueResponse × QueueState
requeue_in msg_id none q = (not_found, q)
requeue_in msg_id (some m) q = (
  settled,
  record q {
    messages = insert msg_id (record m { failures = wrapping_add32 m.failures 1 }) q.messages;
  },
)

unfoldable pub remove_in :
    (msg_id : ℕ) → Option ReplicatedMessage → QueueState → QueueResponse × QueueState
unfolding drop_body
remove_in msg_id none q = (not_found, q)
remove_in msg_id (some m) q =
    (settled, drop_body m.body (record q { messages = remove msg_id q.messages }))

unfoldable pub apply : Io → QueueCommand → QueueState → Option (QueueResponse × QueueState)
unfolding store_body enqueue_stored requeue_in remove_in
apply io (enqueue body enqueued_ms) q =
    enqueue_stored enqueued_ms
      (store_body io body (record q { next_msg_id = wrapping_add64 q.next_msg_id 1 }))
apply io (settle msg_id true) q = some (requeue_in msg_id (get msg_id q.messages) q)
apply io (settle msg_id false) q = some (remove_in msg_id (get msg_id q.messages) q)

-- `prepare_snapshot` and `finish_snapshot`.
abbrev pub pin_in : Option QueuePaging → Option QueuePaging
pin_in none = none
pin_in (some p) = some (record p { spill = pin p.spill })

abbrev pub unpin_in : Option QueuePaging → Option QueuePaging
unpin_in none = none
unpin_in (some p) = some (record p { spill = unpin p.spill })

unfoldable pub prepare_snapshot : QueueState → QueueState
prepare_snapshot q = record q { paging = pin_in q.paging }

unfoldable pub finish_snapshot : QueueState → QueueState
finish_snapshot q = record q { paging = unpin_in q.paging }

-- A committed command, or a snapshot builder that starts or ends.
pub data ReplicaStep : Type 0 where
  command : Io → QueueCommand → ReplicaStep
  prepare : ReplicaStep
  finish : ReplicaStep

abbrev pub answered : Option (QueueResponse × QueueState) → Option (List QueueResponse × QueueState)
answered none = none
answered (some (r, q)) = some (r ∷ [], q)

unfoldable pub replica_step : ReplicaStep → QueueState → Option (List QueueResponse × QueueState)
unfolding apply prepare_snapshot finish_snapshot
replica_step (command io c) q = answered (apply io c q)
replica_step prepare q = some ([], prepare_snapshot q)
replica_step finish q = some ([], finish_snapshot q)

abbrev pub before :
    List QueueResponse
    → Option (List QueueResponse × QueueState)
    → Option (List QueueResponse × QueueState)
before rs none = none
before rs (some (rs', q)) = some (rs ++ rs', q)

-- The answers of a replica, and its state at the end.
unfoldable pub replica_run :
    List ReplicaStep → QueueState → Option (List QueueResponse × QueueState)
unfolding replica_step
replica_run [] q = some ([], q)
replica_run (s ∷ ss) q = elim (replica_step s q) [
  | none ↦ none
  | some (rs, q') ↦ before rs (replica_run ss q')
]
