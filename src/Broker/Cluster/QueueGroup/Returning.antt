-- ===== src/Broker/Cluster/QueueGroup/Returning.antt =====
-- ramqp-broker/src/cluster/queue_group.rs: a replica whose segment files open answers every command.
use r_amqp.Common.{
  ℕ, ◌+◌, ◌≡◌, refl, true, false, Option, none, some, List, [], ◌∷◌, if_elim, ltb, length, All,
  is_some, get, remove, wrapping_add64,
}
use r_amqp.Broker.Policy.{Body}
use r_amqp.Broker.Cluster.Paging.{
  Io, Appended, panicked, refused, stored, append, pin, open_preserving,
}
use r_amqp.Broker.Cluster.Paging.Presence.{
  Present, AppendedPresent, append-Present, release-Present, unpin-Present, open_preserving-Present,
}
use r_amqp.Broker.Cluster.QueueGroup.{
  QueueCommand, enqueue, settle, QueueResponse, StoredBody, resident, spilled, ReplicatedMessage,
  QueuePaging, QueueState, paged, keep_resident, after_spill, store_body_with, store_body,
  drop_body, enqueue_stored, requeue_in, remove_in, apply, prepare_snapshot, finish_snapshot,
  ReplicaStep, command, prepare, finish, answered, replica_step, before, replica_run,
}

abbrev Ready : Option QueuePaging → Type 0
Ready none = Unit {0}
Ready (some p) = Present p.spill

abbrev Stored : Option (StoredBody × QueueState) → Type 0
Stored none = ⊥
Stored (some (s, q)) = Ready q.paging

abbrev Answers : Option (QueueResponse × QueueState) → Type 0
Answers none = ⊥
Answers (some (r, q)) = Ready q.paging

after_spill-Stored :
    (body : Body) (p : QueuePaging) (q : QueueState) (a : Appended)
    → AppendedPresent a
    → Stored (after_spill body p q a)
unfolding after_spill
after_spill-Stored body p q panicked h = h
after_spill-Stored body p q (refused s) h = h
after_spill-Stored body p q (stored r s) h = h

store_body_with-Stored :
    (io : Io) (body : Body) (o : Option QueuePaging) (q : QueueState)
    → io.opens ≡ true
    → Ready o
    → Ready q.paging
    → Stored (store_body_with io body o q)
unfolding store_body_with
store_body_with-Stored io body none q opens h h' = h'
store_body_with-Stored io body (some p) q opens h h' =
    if_elim Stored (λ v. v) (ltb p.resident_max_bytes (q.resident_bytes + length body))
      (after_spill body p q (append io body p.spill)) (some (keep_resident body q))
      (after_spill-Stored body p q (append io body p.spill)
        (append-Present io body p.spill opens h))
      h'

enqueue_stored-Answers :
    (ms : ℕ) (o : Option (StoredBody × QueueState)) → Stored o → Answers (enqueue_stored ms o)
unfolding enqueue_stored
enqueue_stored-Answers ms none h = h
enqueue_stored-Answers ms (some (s, q)) h = h

requeue_in-Ready :
    (id : ℕ) (o : Option ReplicatedMessage) (q : QueueState)
    → Ready q.paging
    → Ready (requeue_in id o q).1.paging
unfolding requeue_in
requeue_in-Ready id none q h = h
requeue_in-Ready id (some m) q h = h

drop_body-Ready :
    (s : StoredBody) (q : QueueState) (o : Option QueuePaging)
    → Ready o
    → Ready (drop_body s (record q { paging = o })).paging
unfolding drop_body
drop_body-Ready (resident b) q o h = h
drop_body-Ready (spilled r) q none h = h
drop_body-Ready (spilled r) q (some p) h = release-Present r p.spill h

remove_in-Ready :
    (id : ℕ) (o : Option ReplicatedMessage) (q : QueueState)
    → Ready q.paging
    → Ready (remove_in id o q).1.paging
unfolding remove_in
remove_in-Ready id none q h = h
remove_in-Ready id (some m) q h =
    drop_body-Ready m.body (record q { messages = remove id q.messages }) q.paging h

apply-Answers :
    (io : Io) (c : QueueCommand) (q : QueueState)
    → io.opens ≡ true
    → Ready q.paging
    → Answers (apply io c q)
unfolding apply store_body
apply-Answers io (enqueue body ms) q opens h = enqueue_stored-Answers ms _ (
    store_body_with-Stored io body q.paging
      (record q { next_msg_id = wrapping_add64 q.next_msg_id 1 }) opens h h)
apply-Answers io (settle id true) q opens h = requeue_in-Ready id (get id q.messages) q h
apply-Answers io (settle id false) q opens h = remove_in-Ready id (get id q.messages) q h

-- A step in which new segment files open.
abbrev pub Opens : ReplicaStep → Type 0
Opens (command io c) = io.opens ≡ true
Opens prepare = Unit {0}
Opens finish = Unit {0}

prepare-Ready :
    (q : QueueState) (o : Option QueuePaging)
    → Ready o
    → Ready (prepare_snapshot (record q { paging = o })).paging
unfolding prepare_snapshot pin
prepare-Ready q none h = h
prepare-Ready q (some p) h = record {
  there = h.there;
  spared = h.spared;
  below = h.below;
  spared_ahead = h.spared_ahead;
  none_ahead = h.none_ahead;
}

finish-Ready :
    (q : QueueState) (o : Option QueuePaging)
    → Ready o
    → Ready (finish_snapshot (record q { paging = o })).paging
unfolding finish_snapshot
finish-Ready q none h = h
finish-Ready q (some p) h = unpin-Present p.spill h

before-is_some :
    (rs : List QueueResponse) (o : Option (List QueueResponse × QueueState))
    → is_some o ≡ true
    → is_some (before rs o) ≡ true
before-is_some rs none h = h
before-is_some rs (some (rs', q)) h = refl

replica_run-is_some :
    (ss : List ReplicaStep) (q : QueueState)
    → All Opens ss
    → Ready q.paging
    → is_some (replica_run ss q) ≡ true
unfolding replica_run replica_step
replica_run-is_some [] q opens h = refl
replica_run-is_some (command io c ∷ ss) q (open_now, opens) h =
    elim (apply io c q)
        as (λ o.
          Answers o
          → is_some
              (elim (answered o) [ none ↦ none | some (rs, q') ↦ before rs (replica_run ss q') ])
            ≡ true) [
              | none ↦ (λ a. elim a [ ])
              | some (r, q') ↦ (λ a.
                  before-is_some (r ∷ []) (replica_run ss q') (replica_run-is_some ss q' opens a))
            ]
      (apply-Answers io c q open_now h)
replica_run-is_some (prepare ∷ ss) q (open_now, opens) h =
    before-is_some [] (replica_run ss (prepare_snapshot q))
      (replica_run-is_some ss (prepare_snapshot q) opens (prepare-Ready q q.paging h))
replica_run-is_some (finish ∷ ss) q (open_now, opens) h =
    before-is_some [] (replica_run ss (finish_snapshot q))
      (replica_run-is_some ss (finish_snapshot q) opens (finish-Ready q q.paging h))

-- A replica that starts empty over any segment files, and whose new files open when it needs them,
-- answers every command: its spill store never panics, also where writes stop short.
pub replica_run-returns :
    (id max : ℕ) (files : List (ℕ × Body)) (ss : List ReplicaStep)
    → All Opens ss
    → is_some (replica_run ss (paged (open_preserving id files) max)) ≡ true
unfolding paged
replica_run-returns id max files ss opens =
    replica_run-is_some ss (paged (open_preserving id files) max) opens
      (open_preserving-Present id files)
