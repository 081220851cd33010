-- ===== src/Broker/Cluster/QueueGroup/Foreign.antt =====
-- ramqp-broker/src/cluster/queue_group.rs: a snapshot does not go to a replica with another spill store.
use r_amqp.Common.{
  ℕ, ◌+◌, ◌≡◌, ◌≢◌, refl, sym, ◌∙◌, ap, subst, arith, Bool, true, false, Bool-cases, inl, inr,
  Option, none, some, List, [], ◌∷◌, length, ◌==◌, ==_iff, if◌then◌else◌, if_elim, ltb,
}
use r_amqp.Broker.Policy.{Body}
use r_amqp.Broker.Cluster.Paging.{SpillRef, Io, Appended, panicked, refused, stored, append}
use r_amqp.Broker.Cluster.Paging.Identity.{HasId, append-HasId, release-id}
use r_amqp.Broker.Cluster.QueueGroup.{
  StoredBody, resident, spilled, ReplicatedMessage, QueuePaging, QueueState, keep_resident,
  after_spill, store_body_with, store_body, drop_body,
}
use r_amqp.Broker.Cluster.QueueGroup.Snapshots.{
  in_line, external, PortableMessage, PortableState, portable_messages, has_external, Snapshot,
  snapshot_of, spill_id_of, external_snapshot, snapshot_bytes, Restored, restore_panic,
  restore_error, restored, put_message, put_external, restore_message, restore_messages,
  drop_bodies, restore_snapshot,
}

abbrev KeepsId : Option ℕ → Option (StoredBody × QueueState) → Type 0
KeepsId n none = Unit {0}
KeepsId n (some (b, q)) = spill_id_of q.paging ≡ n

after_spill-KeepsId :
    (body : Body) (p : QueuePaging) (q : QueueState) (a : Appended)
    → HasId p.spill.id a
    → KeepsId (some p.spill.id) (after_spill body p q a)
unfolding after_spill
after_spill-KeepsId body p q panicked h = tt
after_spill-KeepsId body p q (refused s) h = ap some h
after_spill-KeepsId body p q (stored r s) h = ap some h

store_body-KeepsId :
    (io : Io) (body : Body) (o : Option QueuePaging) (q : QueueState)
    → q.paging ≡ o
    → KeepsId (spill_id_of o) (store_body_with io body o q)
unfolding store_body_with
store_body-KeepsId io body none q e = ap spill_id_of e
store_body-KeepsId io body (some p) q e =
    if_elim (KeepsId (some p.spill.id)) (λ v. v)
      (ltb p.resident_max_bytes (q.resident_bytes + length body))
      (after_spill body p q (append io body p.spill)) (some (keep_resident body q))
      (after_spill-KeepsId body p q (append io body p.spill) (append-HasId io body p.spill))
      (ap spill_id_of e)

abbrev RestoredId : Option ℕ → Restored → Type 0
RestoredId n restore_panic = Unit {0}
RestoredId n (restore_error q) = Unit {0}
RestoredId n (restored q) = spill_id_of q.paging ≡ n

-- A restoration that does not succeed.
abbrev pub IsRefused : Restored → Type 0
IsRefused restore_panic = Unit {0}
IsRefused (restore_error q) = Unit {0}
IsRefused (restored q) = ⊥

put_message-RestoredId :
    (n : Option ℕ) (id failures ms : ℕ) (o : Option (StoredBody × QueueState))
    → KeepsId n o
    → RestoredId n (put_message id failures ms o)
unfolding put_message
put_message-RestoredId n id failures ms none h = tt
put_message-RestoredId n id failures ms (some (b, q)) h = h

put_external-IsRefused :
    (io : Io) (spill_id id failures ms : ℕ) (r : SpillRef) (o : Option QueuePaging) (q : QueueState)
    → spill_id_of o ≢ some spill_id
    → IsRefused (put_external io spill_id id failures ms r o q)
unfolding put_external
put_external-IsRefused io spill_id id failures ms r none q f = tt
put_external-IsRefused io spill_id id failures ms r (some p) q f =
    elim (Bool-cases (p.spill.id == spill_id)) [
      | inl same ↦ elim (f (ap some ((==_iff p.spill.id spill_id).0 same))) [ ]
      | inr differs ↦ rw differs tt
    ]

restore_messages-IsRefused :
    (io : ℕ → Io) (spill_id : ℕ) (ms : List PortableMessage) (q : QueueState)
    → has_external ms ≡ true
    → spill_id_of q.paging ≢ some spill_id
    → IsRefused (restore_messages io spill_id ms q)
unfolding restore_messages restore_message store_body
restore_messages-IsRefused io spill_id [] q h f = absurd (ground (arith, h))
restore_messages-IsRefused io spill_id ((id, (failures, (t, in_line b))) ∷ ms) q h f =
    elim (put_message id failures t (store_body_with (io (length ms)) b q.paging q))
        as (λ r.
          RestoredId (spill_id_of q.paging) r
          → IsRefused (elim r [
            | restore_panic ↦ restore_panic
            | restore_error q' ↦ restore_error q'
            | restored q' ↦ restore_messages io spill_id ms q'
          ])) [
            | restore_panic ↦ (λ _. tt)
            | restore_error q' ↦ (λ _. tt)
            | restored q' ↦
                (λ same. restore_messages-IsRefused io spill_id ms q' h (λ e. f (sym same ∙ e)))
          ]
      (put_message-RestoredId (spill_id_of q.paging) id failures t _
        (store_body-KeepsId (io (length ms)) b q.paging q refl))
restore_messages-IsRefused io spill_id ((id, (failures, (t, external r))) ∷ ms) q h f =
    elim (put_external (io (length ms)) spill_id id failures t r q.paging q)
        as (λ r.
          IsRefused r
          → IsRefused (elim r [
            | restore_panic ↦ restore_panic
            | restore_error q' ↦ restore_error q'
            | restored q' ↦ restore_messages io spill_id ms q'
          ])) [
            | restore_panic ↦ (λ _. tt)
            | restore_error q' ↦ (λ _. tt)
            | restored q' ↦ (λ impossible. elim impossible [ ])
          ]
      (put_external-IsRefused (io (length ms)) spill_id id failures t r q.paging q f)

drop_body-id :
    (b : StoredBody) (o : Option QueuePaging) (q : QueueState)
    → q.paging ≡ o
    → spill_id_of (drop_body b q).paging ≡ spill_id_of q.paging
unfolding drop_body
drop_body-id (resident b) o q e = refl
drop_body-id (spilled r) none q e = rw e refl
drop_body-id (spilled r) (some p) q e = rw e (ap some (release-id r p.spill))

drop_bodies-id :
    (ms : List (ℕ × ReplicatedMessage)) (q : QueueState)
    → spill_id_of (drop_bodies ms q).paging ≡ spill_id_of q.paging
unfolding drop_bodies
drop_bodies-id [] q = refl
drop_bodies-id ((id, m) ∷ ms) q =
    drop_bodies-id ms (drop_body m.body q) ∙ drop_body-id m.body q.paging q refl

abbrev id_in : Snapshot → Option ℕ
id_in (snapshot_of st) = some st.spill_id
id_in _ = none

abbrev messages_in : Snapshot → List PortableMessage
messages_in (snapshot_of st) = st.messages
messages_in _ = []

external_snapshot-made :
    (syncs : Bool) (o : Option ℕ) (q : QueueState) (st : PortableState)
    → external_snapshot syncs o q ≡ snapshot_of st
    → (o ≡ some st.spill_id) × (portable_messages q.messages ≡ st.messages)
unfolding external_snapshot
external_snapshot-made syncs none q st e = absurd (ground (arith, e))
external_snapshot-made true (some id) q st e = (ap id_in e, ap messages_in e)
external_snapshot-made false (some id) q st e = absurd (ground (arith, e))

-- A snapshot with spilled bodies is never restored by a replica whose spill store is another one, or that
-- has none: its restoration ends in an error or a panic, whatever the file system does.
pub restore_snapshot-IsRefused :
    (syncs : Bool) (owner other : QueueState) (st : PortableState) (io : ℕ → Io)
    → has_external (portable_messages owner.messages) ≡ true
    → snapshot_bytes syncs owner ≡ snapshot_of st
    → spill_id_of other.paging ≢ spill_id_of owner.paging
    → IsRefused (restore_snapshot io st other)
unfolding snapshot_bytes restore_snapshot
restore_snapshot-IsRefused syncs owner other st io h made differs =
    let made' : external_snapshot syncs (spill_id_of owner.paging) owner ≡ snapshot_of st =
      subst
        (λ b.
          (if b
            then external_snapshot syncs (spill_id_of owner.paging) owner
            else snapshot_of (record {
              next_msg_id = owner.next_msg_id;
              messages = portable_messages owner.messages;
              spill_id = 0;
            }))
          ≡ snapshot_of st)
        h made in
    let (own, same) = external_snapshot-made syncs (spill_id_of owner.paging) owner st made' in
    restore_messages-IsRefused io st.spill_id st.messages
      (record (drop_bodies other.messages (record other { messages = [] })) {
        resident_bytes = 0;
        next_msg_id = st.next_msg_id;
      })
      (ap has_external (sym same) ∙ h)
      (λ e.
        differs
          (sym (drop_bodies-id other.messages (record other { messages = [] })) ∙ (e ∙ sym own)))
