-- ===== src/Broker/Store.antt =====
-- ramqp-broker/src/store.rs: the durable store of a node. The tables of the database are association
-- lists, a commit of the group-commit writer applies a batch of operations or nothing, and the
-- channel that an operation answers on is a number.
pub mod Messages
use r_amqp.Common.{
  ℕ, suc, ◌+◌, Bool, true, false, ◌&&◌, not, Option, none, some, List, [], ◌∷◌, ◌++◌, map, leb,
  ◌==◌, if◌then◌else◌, length, take, drop, min, Table, find, put, delete, retain_keys,
  wrapping_add32,
}
use r_amqp.Broker.Policy.{Body}

-- A value of `messages`: the failed deliveries, the enqueue time and the body.
pub record Row : Type 0 where
  pub failures : ℕ
  pub enqueued_ms : ℕ
  pub body : Body

-- Where a snapshot's bytes are: inline, or in a file of the given path.
pub data SnapshotPersist : Type 0 where
  inline : Body → SnapshotPersist
  file : (path : Body) → SnapshotPersist

pub data StoreOp : Type 0 where
  insert : (queue msg_id enqueued_ms : ℕ) (body : Body) (done : ℕ) → StoreOp
  remove : (queue msg_id : ℕ) → StoreOp
  fail : (queue msg_id : ℕ) → StoreOp
  raft_append : (group : ℕ) (entries : List (ℕ × Body)) (done : ℕ) → StoreOp
  raft_vote : (group : ℕ) (vote : Body) (done : ℕ) → StoreOp
  raft_truncate : (group since done : ℕ) → StoreOp
  raft_purge : (group upto : ℕ) (marker : Body) (done : ℕ) → StoreOp
  raft_snapshot : (group : ℕ) (snap_meta : Body) (blob : SnapshotPersist) (done : ℕ) → StoreOp

unfoldable pub take_done : StoreOp → Option ℕ
take_done (insert queue msg_id enqueued_ms body done) = some done
take_done (remove queue msg_id) = none
take_done (fail queue msg_id) = none
take_done (raft_append group entries done) = some done
take_done (raft_vote group vote done) = some done
take_done (raft_truncate group since done) = some done
take_done (raft_purge group upto marker done) = some done
take_done (raft_snapshot group snap_meta blob done) = some done

-- The keys of `raft_meta`, which the source writes as strings.
abbrev pub vote_key : ℕ
vote_key = 0

abbrev pub purged_key : ℕ
purged_key = 1

abbrev pub snap_meta_key : ℕ
snap_meta_key = 2

abbrev pub snap_blob_key : ℕ
snap_blob_key = 3

abbrev pub snap_path_key : ℕ
snap_path_key = 4

-- The tables that the writer changes: messages by queue and id, log entries by group and index, and
-- the hard state by group and key.
pub record Tables : Type 0 where
  pub messages : Table Row
  pub raft_log : Table Body
  pub raft_meta : Table Body

-- `apply_batch`: the rows of a fail are counted up where they are.
unfoldable pub fail_row : (queue msg_id : ℕ) → Option Row → Table Row → Table Row
fail_row queue msg_id none t = t
fail_row queue msg_id (some r) t =
    put queue msg_id (record r { failures = wrapping_add32 r.failures 1 }) t

unfoldable pub append_entries : (group : ℕ) → List (ℕ × Body) → Table Body → Table Body
append_entries group [] t = t
append_entries group ((index, bytes) ∷ es) t = append_entries group es (put group index bytes t)

unfoldable pub put_blob : (group : ℕ) → SnapshotPersist → Table Body → Table Body
put_blob group (inline bytes) t = delete group snap_path_key (put group snap_blob_key bytes t)
put_blob group (file path) t = delete group snap_blob_key (put group snap_path_key path t)

unfoldable pub apply_op : StoreOp → Tables → Tables
unfolding fail_row append_entries put_blob
apply_op (insert queue msg_id enqueued_ms body done) d = record d {
  messages =
      put queue msg_id (record { failures = 0; enqueued_ms = enqueued_ms; body = body }) d.messages;
}
apply_op (remove queue msg_id) d = record d { messages = delete queue msg_id d.messages }
apply_op (fail queue msg_id) d = record d {
  messages = fail_row queue msg_id (find queue msg_id d.messages) d.messages;
}
apply_op (raft_append group entries done) d = record d {
  raft_log = append_entries group entries d.raft_log;
}
apply_op (raft_vote group vote done) d = record d {
  raft_meta = put group vote_key vote d.raft_meta;
}
apply_op (raft_truncate group since done) d = record d {
  raft_log = retain_keys (λ g i. not (g == group && leb since i)) d.raft_log;
}
apply_op (raft_purge group upto marker done) d = record d {
  raft_log = retain_keys (λ g i. not (g == group && leb i upto)) d.raft_log;
  raft_meta = put group purged_key marker d.raft_meta;
}
apply_op (raft_snapshot group snap_meta blob done) d = record d {
  raft_meta = put_blob group blob (put group snap_meta_key snap_meta d.raft_meta);
}

unfoldable pub apply_ops : List StoreOp → Tables → Tables
unfolding apply_op
apply_ops [] d = d
apply_ops (op ∷ ops) d = apply_ops ops (apply_op op d)

-- The channels that are told the fate of a batch.
unfoldable pub dones : List StoreOp → List ℕ
unfolding take_done
dones [] = []
dones (op ∷ ops) = elim (take_done op) [ none ↦ dones ops | some d ↦ d ∷ dones ops ]

abbrev pub commit_batch_max : ℕ
commit_batch_max = 1024

-- A commit of `writer_loop`: of the `waiting` operations it finds at most a batch, which is applied as
-- a whole, or not at all; the operations that wait on, the tables, and who is told.
unfoldable pub write_batch :
    (found : ℕ) (committed : Bool) → List StoreOp → Tables → List StoreOp × Tables × List (ℕ × Bool)
unfolding apply_ops dones
write_batch found committed waiting d =
    let n = min found commit_batch_max in
    (
      drop n waiting,
      if committed then apply_ops (take n waiting) d else d,
      map (λ c. (c, committed)) (dones (take n waiting)),
    )

-- `scan`: the rows of a queue, without their bodies.
unfoldable pub scan : (queue : ℕ) → Table Row → List (ℕ × (ℕ × (ℕ × ℕ)))
scan queue [] = []
scan queue (((q, id), r) ∷ t) =
    let rest = scan queue t in
    if q == queue then (id, (r.failures, (r.enqueued_ms, length r.body))) ∷ rest else rest

-- `body`, where the read succeeds.
unfoldable pub body_of : Option Row → Option Body
body_of none = none
body_of (some r) = some r.body

unfoldable pub body : (queue msg_id : ℕ) → Tables → Option Body
unfolding body_of
body queue msg_id d = body_of (find queue msg_id d.messages)
