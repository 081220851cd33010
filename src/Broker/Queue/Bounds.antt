-- ===== src/Broker/Queue/Bounds.antt =====
-- The depth bound and the byte bound of a queue's policy, in queue.rs.
use r_amqp.Broker.Queue.Settling.{handle_settle-Leaves}
use r_amqp.Broker.Queue.Consume.{
  handle_settle, settle_removed, handle_subscribe, handle_unsubscribe, settle_entry, handle,
}
use r_amqp.Broker.Queue.Soundness.{HasSpace, brought, handle-IsSound, handle-Leaves}
use r_amqp.Broker.Dispatch.{PublishAck, Output}
use r_amqp.Broker.Queue.Conservation.{IsDistinct, dispatch_loop-Kept}
use r_amqp.Broker.Queue.Held.{one_weight, weigh, weigh_entry, body_weight}
use r_amqp.Broker.Queue.Accounting.{
  Leaves, IsSound, Leaves-IsDistinct, expire_ready-Leaves, with_room-Leaves, with_room,
  dispatch-Leaves,
}
use r_amqp.Broker.Queue.Publish.{make_room, over, room_for, handle_publish, store, handle_reserve}
use r_amqp.Broker.Queue.Turn.{dispatch, expire_ready, total_demand, step}
use r_amqp.Broker.Policy.{EffectivePolicy, Body}
use r_amqp.Broker.Queue.State.{
  Queue, Unacked, Env, Stored, QueueMsg, publish_reserved, reserve, Handled, SettleOutcome, publish,
  settle, ack,
}
use r_amqp.Common.{
  ℕ, ◌+◌, ◌≤◌, ◌<◌, ◌≡◌, refl, arith, List, false, length, total, Bool-cases, saturating_add64, ◌∷◌,
  suc, [], inl, inr, ◌-◌, ◌∙◌, Option, length-append, true, if_elim, some, get, none,
}

total-one : (ms : List Stored) → total (weigh one_weight) ms ≡ length ms
total-one [] = refl
total-one (m ∷ ms) = omega (arith, total-one ms)

total_entry-one : (u : Unacked) → total (weigh_entry one_weight) u ≡ length u
total_entry-one [] = refl
total_entry-one ((i, (s, o)) ∷ u) = omega (arith, total_entry-one u)

-- The messages and the held slots fit the depth bound, and the bytes fit the byte bound.
pub record IsBounded (p : EffectivePolicy) (q : Queue) : Type 0 where
  pub depth : length q.ready + length q.unacked + q.reserved ≤ p.max_len
  pub size : q.bytes ≤ p.max_bytes

Leaves-length :
    (q q' : Queue)
    → Leaves q q'
    → length q'.ready + length q'.unacked ≤ length q.ready + length q.unacked
Leaves-length q q' l = omega (
  arith,
  l.fewer one_weight,
  total-one q.ready,
  total-one q'.ready,
  total_entry-one q.unacked,
  total_entry-one q'.unacked,
)

Leaves-bytes : (q q' : Queue) → Leaves q q' → IsSound q → q'.bytes ≤ q.bytes
Leaves-bytes q q' l s = omega (arith, l.fewer body_weight, l.counted s.accounted, s.accounted)

-- Fewer messages and bytes stay within the bounds.
Leaves-IsBounded :
    (p : EffectivePolicy) (q q' : Queue)
    → Leaves q q'
    → q'.reserved ≤ q.reserved
    → IsSound q
    → IsBounded p q
    → IsBounded p q'
Leaves-IsBounded p q q' l slots s b = record {
  depth = omega (arith, Leaves-length q q' l, b.depth);
  size = omega (arith, Leaves-bytes q q' l s, b.size);
}

expire_ready-reserved :
    (p : EffectivePolicy) (now : ℕ) (q : Queue) → (expire_ready p now q).0.reserved ≡ q.reserved
unfolding expire_ready
expire_ready-reserved p now q = ground arith

dispatch-reserved :
    (p : EffectivePolicy) (env : Env) (q : Queue)
    → IsDistinct q
    → (dispatch p env q).0.reserved ≡ q.reserved
unfolding dispatch
dispatch-reserved p env q d =
    let q' : Queue = (expire_ready p env.dispatch_ms q).0 in
    let d' = Leaves-IsDistinct q q' (expire_ready-Leaves p env.dispatch_ms q d.keyed) d in
    (dispatch_loop-Kept env.is_open (suc (total_demand q')) q' d').reserved
    ∙ expire_ready-reserved p env.dispatch_ms q

-- Once the drop-head loop needs no more room, what is left is within both bounds.
make_room-fits :
    (p : EffectivePolicy) (reserved len unacked : ℕ) (ms : List Stored) (bytes : ℕ)
    → let r = make_room p reserved len unacked ms bytes in
      r.needs_room ≡ false → over p reserved len (length r.ready) unacked r.bytes ≡ false
unfolding make_room
make_room-fits p reserved len unacked [] bytes h = h
make_room-fits p reserved len unacked (m ∷ ms) bytes h =
    elim (Bool-cases (over p reserved len (suc (length ms)) unacked bytes)) [
      | inl full ↦
          rw full (make_room-fits p reserved len unacked ms (bytes - length m.body) (rw full at h))
      | inr free ↦ rw free free
    ]

room_for-fits :
    (p : EffectivePolicy) (q : Queue) (len : ℕ)
    → let r = room_for p q len in
      r.needs_room ≡ false
      → over p q.reserved len (length r.ready) (length q.unacked) r.bytes ≡ false
unfolding room_for
room_for-fits p q len h = elim (Bool-cases p.drop_head) [
  | inl drops ↦
      simp drops
        (make_room-fits p q.reserved len (length q.unacked) q.ready q.bytes (simp drops at h))
  | inr keeps ↦ simp keeps (simp keeps at h)
]

over-false :
    (p : EffectivePolicy) (reserved len ready unacked bytes : ℕ)
    → over p reserved len ready unacked bytes ≡ false
    → (ready + unacked + reserved < p.max_len) × (saturating_add64 bytes len ≤ p.max_bytes)
unfolding over
over-false p reserved len ready unacked bytes h = ground arith

length-store :
    (q : Queue) (env : Env) (body : Body) → length (store q env body).ready ≡ length q.ready + 1
unfolding store
length-store q env body = rw length-append (omega arith)

-- A held slot and room for the bytes, where the message comes on a held slot.
abbrev pub IsAdmitted : EffectivePolicy → Queue → QueueMsg → Type 0
IsAdmitted p q (publish_reserved body confirm) =
    (0 < q.reserved) × (q.bytes + length body ≤ p.max_bytes)
IsAdmitted p q _ = Unit {0}

handle_publish-IsBounded :
    (p : EffectivePolicy) (env : Env) (q : Queue) (body : Body) (confirm : Option PublishAck)
    → IsSound q
    → IsBounded p q
    → IsBounded p (handle_publish p env q body confirm false).queue
unfolding handle_publish
handle_publish-IsBounded p env q body confirm s b =
    let l = with_room-Leaves p q (length body) q.reserved s.distinct.keyed in
    let kept = Leaves-IsBounded p q (with_room p q (length body) q.reserved) l (omega arith) s b in
    elim (Bool-cases (room_for p q (length body)).needs_room) [
      | inl full ↦ rw full kept
      | inr fits ↦
          let under = over-false p _ _ _ _ _ (room_for-fits p q (length body) fits) in
          rw fits (
            unfold store in
            record { depth = rw length-append (omega (arith, under)); size = omega (arith, under) })
    ]

handle_publish_reserved-IsBounded :
    (p : EffectivePolicy) (env : Env) (q : Queue) (body : Body) (confirm : Option PublishAck)
    → IsSound q
    → IsBounded p q
    → (0 < q.reserved) × (q.bytes + length body ≤ p.max_bytes)
    → IsBounded p (handle_publish p env q body confirm true).queue
unfolding handle_publish
handle_publish_reserved-IsBounded p env q body confirm s b (slot, fits) =
    let slots : ℕ = q.reserved - 1 in
    let q' : Queue = with_room p q (length body) slots in
    let l = with_room-Leaves p q (length body) slots s.distinct.keyed in
    let kept = Leaves-IsBounded p q q' l (omega arith) s b in
    let stored : IsBounded p (store q' env body) =
      unfold store in
      record {
        depth = rw length-append (omega (arith, Leaves-length q q' l, b.depth));
        size = omega (arith, Leaves-bytes q q' l s);
      } in
    if_elim (IsBounded p) (λ (h : Handled). h.queue) _ _ _ kept stored

settle_removed-reserved :
    (p : EffectivePolicy) (q : Queue) (stored : Stored) (outcome : SettleOutcome)
    → (settle_removed p q stored outcome).0.reserved ≡ q.reserved
unfolding settle_removed
settle_removed-reserved p q stored ack = refl
settle_removed-reserved p q stored _ = ground arith

handle_settle-reserved :
    (p : EffectivePolicy) (q : Queue) (sub msg_id : ℕ) (outcome : SettleOutcome)
    → (handle_settle p q sub msg_id outcome).queue.reserved ≡ q.reserved
unfolding handle_settle
handle_settle-reserved p q sub msg_id outcome =
    if_elim (λ n. n ≡ q.reserved) (λ (h : Handled). h.queue.reserved) _ _ _
      (entry_reserved (get msg_id q.unacked)) refl
  where
    entry_reserved :
        (entry : Option (Stored × ℕ))
        → (settle_entry p q msg_id outcome entry).queue.reserved ≡ q.reserved
    entry_reserved none = unfold settle_entry in refl
    entry_reserved (some (stored, owner)) =
        unfold settle_entry in settle_removed-reserved p _ stored outcome

handle_reserve-IsBounded :
    (p : EffectivePolicy) (q : Queue) (count : ℕ)
    → IsBounded p q
    → IsBounded p (handle_reserve p q count).queue
unfolding handle_reserve
handle_reserve-IsBounded p q count b = record { depth = ground arith; size = ground arith }

handle-IsBounded :
    (p : EffectivePolicy) (env : Env) (q : Queue) (msg : QueueMsg)
    → IsSound q
    → IsAdmitted p q msg
    → IsBounded p q
    → IsBounded p (handle p env q msg).queue
unfolding handle handle_subscribe handle_unsubscribe
handle-IsBounded p env q (publish body confirm) s a b =
    handle_publish-IsBounded p env q body confirm s b
handle-IsBounded p env q (publish_reserved body confirm) s a b =
    handle_publish_reserved-IsBounded p env q body confirm s b a
handle-IsBounded p env q (reserve count) s a b = handle_reserve-IsBounded p q count b
handle-IsBounded p env q (settle sub msg_id outcome) s a b =
    Leaves-IsBounded p q _ (handle_settle-Leaves p q sub msg_id outcome s.distinct)
      (omega (arith, handle_settle-reserved p q sub msg_id outcome)) s b
handle-IsBounded p env q msg s a b =
    Leaves-IsBounded p q _ (handle-Leaves p env q msg refl s.distinct) (omega arith) s b

-- A turn of a queue actor keeps messages and held slots within the policy's depth bound and the
-- bytes within its byte bound, where a publish on a held slot has a slot to take and bytes to
-- fill, and ids and bytes fit 64 bits.
pub step-IsBounded :
    (p : EffectivePolicy) (env : Env) (q : Queue) (msg : QueueMsg)
    → IsSound q
    → HasSpace q (brought msg)
    → IsAdmitted p q msg
    → IsBounded p q
    → IsBounded p (step p env q msg).0
unfolding step
step-IsBounded p env q msg s room a b =
    let s' = handle-IsSound p env q msg s room in
    let b' = handle-IsBounded p env q msg s a b in
    let q' : Queue = (handle p env q msg).queue in
    if_elim (IsBounded p) (λ (r : Queue × List Output). r.0) _ _ _
      (Leaves-IsBounded p q' _ (dispatch-Leaves p env q' s'.distinct)
        (omega (arith, dispatch-reserved p env q' s'.distinct)) s' b')
      b'
