-- ===== src/Broker/Cluster/QueueGroup/Refinement.antt =====
-- ramqp-broker/src/cluster/queue_group.rs: a replica answers and keeps what the ledger does, wherever its
-- bodies are.
use r_amqp.Common.{
  ℕ, ◌+◌, ◌≤◌, ◌≡◌, refl, sym, ap, subst, ◌∙◌, arith, true, false, Option, none, some, ◌∷◌, get,
  remove, if_elim, ltb, length, wrapping_add64, wrapping_add32,
}
use r_amqp.Broker.Policy.{Body}
use r_amqp.Broker.Cluster.Paging.{Io, Appended, panicked, refused, stored, append}
use r_amqp.Broker.Cluster.Paging.Calls.{Fewer, AppendedGood, append-Good}
use r_amqp.Broker.Cluster.QueueGroup.{
  QueueCommand, enqueue, settle, QueueResponse, enqueued, StoredBody, resident, spilled,
  ReplicatedMessage, QueuePaging, QueueState, keep_resident, after_spill, store_body_with,
  store_body, drop_body, enqueue_stored, requeue_in, remove_in, apply,
}
use r_amqp.Broker.Cluster.QueueGroup.Ledger.{Ledger, retry_entry, drop_entry, enter}
use r_amqp.Broker.Cluster.QueueGroup.Pairs.{
  Pairs, messages_of, entries_of, entry_of, message_in, entry_in, get-messages_of, get-entries_of,
  remove-messages_of, remove-entries_of, holding, held_by, IsSame, AllSame, AllSame-remove,
  AllSame-get, Fewer-removed, Fewer-replaced, Fewer-kept, Backed, Backed-Fewer, Backed-release,
  cost_in,
}

-- A command whose body a reference can hold.
abbrev pub FitsRef : QueueCommand → Type 0
FitsRef (enqueue body ms) = length body ≤ 0xffff_ffff
FitsRef (settle id retry) = Unit {0}

-- A replica has the messages of a ledger, whose bodies are resident or can be read.
pub record Agrees (z : Pairs) (q : QueueState) (l : Ledger) : Type 0 where
  pub messages : q.messages ≡ messages_of z
  pub entries : l.entries ≡ entries_of z
  pub last : q.next_msg_id ≡ l.last_id
  pub same : AllSame z
  pub backed : Backed (held_by z) q.paging

abbrev pub Outcome : Option (QueueResponse × QueueState) → QueueResponse × Ledger → Type 0
Outcome none a = Unit {0}
Outcome (some (r, q)) a = (r ≡ a.0) × ((z : Pairs) × Agrees z q a.1)

module _ (z : Pairs) (q : QueueState) (l : Ledger) (h : Agrees z q l) where
  requeue_in-Outcome :
      (id : ℕ) (o : Option (ReplicatedMessage × Body))
      → get id z ≡ o
      → Outcome (some (requeue_in id (message_in o) q)) (retry_entry id (entry_in o) l)
  unfolding requeue_in
  requeue_in-Outcome id none e = (refl, (z, h))
  requeue_in-Outcome id (some (m, b)) e =
      let m' = record m { failures = wrapping_add32 m.failures 1 } in
      (
        refl,
        (
          (id, (m', b)) ∷ remove id z,
          record {
            messages =
                ap (λ r. (id, m') ∷ r) (ap (λ r. remove id r) h.messages ∙ remove-messages_of id z);
            entries =
                ap (λ r. (id, entry_of (m', b)) ∷ r)
                  (ap (λ r. remove id r) h.entries ∙ remove-entries_of id z);
            last = h.last;
            same = (AllSame-get id z m b e h.same, AllSame-remove id z h.same);
            backed =
                Backed-Fewer (held_by z) (holding m.body b (held_by (remove id z))) q.paging
                  (λ k. Fewer-kept k id z m b e) h.backed;
          },
        ),
      )

  drop_body-Agrees :
      (id : ℕ) (m : ReplicatedMessage) (b : Body) (s : StoredBody)
      → get id z ≡ some (m, b)
      → m.body ≡ s
      → Agrees
          (remove id z)
          (drop_body s (record q { messages = remove id q.messages }))
          (record l { entries = remove id l.entries })
  unfolding drop_body
  drop_body-Agrees id m b (resident c) e at = record {
    messages = ap (λ r. remove id r) h.messages ∙ remove-messages_of id z;
    entries = ap (λ r. remove id r) h.entries ∙ remove-entries_of id z;
    last = h.last;
    same = AllSame-remove id z h.same;
    backed =
        Backed-Fewer (held_by z) (held_by (remove id z)) q.paging
          (λ k.
            subst (λ x. Fewer k (cost_in k x) (held_by (remove id z)) (held_by z)) at
              (Fewer-removed k id z m b e))
          h.backed;
  }
  drop_body-Agrees id m b (spilled r) e at = record {
    messages = ap (λ r. remove id r) h.messages ∙ remove-messages_of id z;
    entries = ap (λ r. remove id r) h.entries ∙ remove-entries_of id z;
    last = h.last;
    same = AllSame-remove id z h.same;
    backed =
        Backed-release (held_by z) (held_by (remove id z)) r q.paging
          (λ k.
            subst (λ x. Fewer k (cost_in k x) (held_by (remove id z)) (held_by z)) at
              (Fewer-removed k id z m b e))
          h.backed;
  }

  remove_in-Outcome :
      (id : ℕ) (o : Option (ReplicatedMessage × Body))
      → get id z ≡ o
      → Outcome (some (remove_in id (message_in o) q)) (drop_entry id (entry_in o) l)
  unfolding remove_in
  remove_in-Outcome id none e = (refl, (z, h))
  remove_in-Outcome id (some (m, b)) e =
      (refl, (remove id z, drop_body-Agrees id m b m.body e refl))

  at_message : (id : ℕ) → message_in (get id z) ≡ get id q.messages
  at_message id = sym (ap (λ r. get id r) h.messages ∙ get-messages_of id z)

  at_entry : (id : ℕ) → entry_in (get id z) ≡ get id l.entries
  at_entry id = sym (ap (λ r. get id r) h.entries ∙ get-entries_of id z)

  -- The body is stored next to those that are there.
  abbrev Stores : Body → QueueState → Option (StoredBody × QueueState) → Type 0
  Stores body q1 none = Unit {0}
  Stores body q1 (some (s, q')) =
      IsSame s body
      × ((q'.messages ≡ q1.messages)
          × ((q'.next_msg_id ≡ q1.next_msg_id) × Backed (holding s body (held_by z)) q'.paging))

  after_spill-Stores :
      (body : Body) (p : QueuePaging) (q1 : QueueState) (a : Appended)
      → ((k : ℕ) → AppendedGood k (held_by z) body a)
      → Stores body q1 (after_spill body p q1 a)
  unfolding after_spill
  after_spill-Stores body p q1 panicked g = tt
  after_spill-Stores body p q1 (refused s) g = (refl, (refl, (refl, g)))
  after_spill-Stores body p q1 (stored r s) g = (tt, (refl, (refl, g)))

  store_body-Stores :
      (io : Io) (body : Body) (o : Option QueuePaging) (q1 : QueueState)
      → length body ≤ 0xffff_ffff
      → q1.paging ≡ o
      → Backed (held_by z) o
      → Stores body q1 (store_body_with io body o q1)
  unfolding store_body_with
  store_body-Stores io body none q1 fits e g =
      (refl, (refl, (refl, subst (Backed (held_by z)) (sym e) g)))
  store_body-Stores io body (some p) q1 fits e g =
      if_elim (Stores body q1) (λ v. v) (ltb p.resident_max_bytes (q1.resident_bytes + length body))
        (after_spill body p q1 (append io body p.spill)) (some (keep_resident body q1))
        (after_spill-Stores body p q1 (append io body p.spill)
          (λ k. append-Good k (held_by z) io body p.spill (omega (arith, fits)) (g k)))
        (refl, (refl, (refl, subst (Backed (held_by z)) (sym e) g)))

  enqueue_stored-Outcome :
      (ms : ℕ) (body : Body) (o : Option (StoredBody × QueueState))
      → Stores body (record q { next_msg_id = wrapping_add64 q.next_msg_id 1 }) o
      → Outcome (enqueue_stored ms o) (enter (enqueue body ms) l)
  unfolding enqueue_stored
  enqueue_stored-Outcome ms body none g = tt
  enqueue_stored-Outcome ms body (some (s, q')) (a, (b, (c, d))) =
      let j = wrapping_add64 l.last_id 1 in
      let m : ReplicatedMessage = record { body = s; failures = 0; enqueued_ms = ms } in
      let at : q'.next_msg_id ≡ j = c ∙ ap (λ n. wrapping_add64 n 1) h.last in
      (
        ap enqueued at,
        (
          (j, (m, body)) ∷ remove j z,
          record {
            messages =
                ap (λ n. (n, m) ∷ remove n q'.messages) at
                ∙ ap (λ r. (j, m) ∷ r)
                    (ap (λ r. remove j r) (b ∙ h.messages) ∙ remove-messages_of j z);
            entries =
                ap (λ r. (j, entry_of (m, body)) ∷ r)
                  (ap (λ r. remove j r) h.entries ∙ remove-entries_of j z);
            last = at;
            same = (a, AllSame-remove j z h.same);
            backed =
                Backed-Fewer (holding s body (held_by z)) (holding s body (held_by (remove j z)))
                  q'.paging (λ k. Fewer-replaced k j z s body) d;
          },
        ),
      )

  pub apply-Outcome : (io : Io) (c : QueueCommand) → FitsRef c → Outcome (apply io c q) (enter c l)
  unfolding apply store_body
  apply-Outcome io (enqueue body ms) fits = enqueue_stored-Outcome ms body _ (
      store_body-Stores io body q.paging (record q { next_msg_id = wrapping_add64 q.next_msg_id 1 })
        fits refl h.backed)
  apply-Outcome io (settle id true) fits =
      subst (λ o. Outcome (some (requeue_in id o q)) (retry_entry id (get id l.entries) l))
        (at_message id)
        (subst (λ o. Outcome (some (requeue_in id (message_in (get id z)) q)) (retry_entry id o l))
          (at_entry id) (requeue_in-Outcome id (get id z) refl))
  apply-Outcome io (settle id false) fits =
      subst (λ o. Outcome (some (remove_in id o q)) (drop_entry id (get id l.entries) l))
        (at_message id)
        (subst (λ o. Outcome (some (remove_in id (message_in (get id z)) q)) (drop_entry id o l))
          (at_entry id) (remove_in-Outcome id (get id z) refl))
