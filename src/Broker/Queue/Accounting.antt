-- ===== src/Broker/Queue/Accounting.antt =====
-- The invariant of the queue actor of queue.rs: its counters agree with the messages it holds.
use r_amqp.Broker.Dispatch.{Subscriber}
use r_amqp.Common.{
  ℕ, suc, ◌+◌, ◌-◌, ◌≤◌, ◌<◌, ◌≡◌, refl, sym, ◌∙◌, List, [], ◌∷◌, arith, total, Bool-cases, inl,
  inr, length, is_some,
}
use r_amqp.Broker.Policy.{EffectivePolicy, expired}
use r_amqp.Broker.Queue.State.{Stored, Queue, Env}
use r_amqp.Broker.Queue.Publish.{make_room, room_for, over}
use r_amqp.Broker.Queue.Turn.{expire, expire_ready, dispatch_loop, dispatch, total_demand}
use r_amqp.Broker.Queue.Held.{Weight, weigh, held, id_weight, body_weight, IsKeyed}
use r_amqp.Broker.Queue.Conservation.{IsDistinct, Kept, dispatch_loop-Kept}

pub record IsSound (q : Queue) : Type 0 where
  pub distinct : IsDistinct q
  pub fresh : (i : ℕ) → q.next_msg_id < i → held (id_weight i) q ≡ 0
  pub accounted : q.bytes ≡ held body_weight q

-- `q'` holds no more than `q`, and its byte count follows.
pub record Leaves (q q' : Queue) : Type 0 where
  pub keyed : IsKeyed q'.unacked
  pub fewer : (w : Weight) → held w q' ≤ held w q
  pub counted : q.bytes ≡ held body_weight q → q'.bytes ≡ held body_weight q'
  pub next_msg_id : q'.next_msg_id ≡ q.next_msg_id

pub Leaves-IsSound : (q q' : Queue) → Leaves q q' → IsSound q → IsSound q'
Leaves-IsSound q q' l s = record {
  distinct = record {
    keyed = l.keyed;
    once = λ i. omega (arith, l.fewer (id_weight i), s.distinct.once i);
  };
  fresh = λ i h. omega (arith, l.fewer (id_weight i), s.fresh i (rw (← l.next_msg_id) h));
  accounted = l.counted s.accounted;
}

pub Leaves-trans : (q r s : Queue) → Leaves q r → Leaves r s → Leaves q s
Leaves-trans q r s a b = record {
  keyed = b.keyed;
  fewer = λ w. omega (arith, a.fewer w, b.fewer w);
  counted = λ h. b.counted (a.counted h);
  next_msg_id = b.next_msg_id ∙ a.next_msg_id;
}

pub Kept-Leaves : (q q' : Queue) → Kept q q' → Leaves q q'
Kept-Leaves q q' k = record {
  keyed = k.keyed;
  fewer = λ w. rw (k.same w) (omega arith);
  counted = λ h. k.bytes ∙ h ∙ sym (k.same body_weight);
  next_msg_id = k.next_msg_id;
}

-- Subscribers, held slots and subscriber ids are not messages.
pub Leaves-others :
    (q : Queue) (subs : List Subscriber) (reserved next_sub_id : ℕ)
    → IsDistinct q
    → Leaves q (record q { subs = subs; reserved = reserved; next_sub_id = next_sub_id })
Leaves-others q subs reserved next_sub_id d = record {
  keyed = d.keyed;
  fewer = λ w. omega arith;
  counted = λ h. h;
  next_msg_id = refl;
}

-- What the expiry loop leaves, in weight and in bytes.
expire-total-le :
    (w : Weight) (p : EffectivePolicy) (now : ℕ) (ms : List Stored) (bytes : ℕ)
    → total (weigh w) (expire p now ms bytes).0 ≤ total (weigh w) ms
unfolding expire
expire-total-le w p now [] bytes = omega arith
expire-total-le w p now (m ∷ ms) bytes = elim (Bool-cases (expired p m.enqueued_ms now)) [
  | inl old ↦ rw old (omega (arith, expire-total-le w p now ms (bytes - length m.body)))
  | inr live ↦ rw live (omega arith)
]

expire-bytes :
    (p : EffectivePolicy) (now : ℕ) (ms : List Stored) (bytes : ℕ)
    → total (weigh body_weight) ms ≤ bytes
    → (expire p now ms bytes).1 + total (weigh body_weight) ms
      ≡ bytes + total (weigh body_weight) (expire p now ms bytes).0
unfolding expire
expire-bytes p now [] bytes h = omega arith
expire-bytes p now (m ∷ ms) bytes h = elim (Bool-cases (expired p m.enqueued_ms now)) [
  | inl old ↦ rw old (omega (arith, expire-bytes p now ms (bytes - length m.body) (omega arith)))
  | inr live ↦ rw live (omega arith)
]

pub expire_ready-Leaves :
    (p : EffectivePolicy) (now : ℕ) (q : Queue)
    → IsKeyed q.unacked
    → Leaves q (expire_ready p now q).0
unfolding expire_ready
expire_ready-Leaves p now q k = elim (Bool-cases (is_some p.ttl_ms)) [
  | inl on ↦ rw on (record {
    keyed = k;
    fewer = λ w. omega (arith, expire-total-le w p now q.ready q.bytes);
    counted = λ h. omega (arith, expire-bytes p now q.ready q.bytes (omega arith));
    next_msg_id = refl;
  })
  | inr off ↦
      rw off (record { keyed = k; fewer = λ w. omega arith; counted = λ h. h; next_msg_id = refl })
]

pub Leaves-IsDistinct : (q q' : Queue) → Leaves q q' → IsDistinct q → IsDistinct q'
Leaves-IsDistinct q q' l d = record {
  keyed = l.keyed;
  once = λ i. omega (arith, l.fewer (id_weight i), d.once i);
}

-- A dispatch loses messages to expiry alone, and counts the bytes that leave.
pub dispatch-Leaves :
    (p : EffectivePolicy) (env : Env) (q : Queue) → IsDistinct q → Leaves q (dispatch p env q).0
unfolding dispatch
dispatch-Leaves p env q d =
    let first = expire_ready-Leaves p env.dispatch_ms q d.keyed in
    let q' : Queue = (expire_ready p env.dispatch_ms q).0 in
    let fuel : ℕ = suc (total_demand q') in
    Leaves-trans q q' (dispatch_loop env.is_open fuel q').0 first
      (Kept-Leaves q' _ (dispatch_loop-Kept env.is_open fuel q' (Leaves-IsDistinct q q' first d)))

-- The drop-head loop, likewise.
make_room-total-le :
    (w : Weight) (p : EffectivePolicy) (reserved len unacked : ℕ) (ms : List Stored) (bytes : ℕ)
    → total (weigh w) (make_room p reserved len unacked ms bytes).ready ≤ total (weigh w) ms
unfolding make_room
make_room-total-le w p reserved len unacked [] bytes = omega arith
make_room-total-le w p reserved len unacked (m ∷ ms) bytes =
    elim (Bool-cases (over p reserved len (suc (length ms)) unacked bytes)) [
      | inl full ↦
          rw full
            (omega (arith, make_room-total-le w p reserved len unacked ms (bytes - length m.body)))
      | inr free ↦ rw free (omega arith)
    ]

make_room-bytes :
    (p : EffectivePolicy) (reserved len unacked : ℕ) (ms : List Stored) (bytes : ℕ)
    → total (weigh body_weight) ms ≤ bytes
    → (make_room p reserved len unacked ms bytes).bytes + total (weigh body_weight) ms
      ≡ bytes + total (weigh body_weight) (make_room p reserved len unacked ms bytes).ready
unfolding make_room
make_room-bytes p reserved len unacked [] bytes h = omega arith
make_room-bytes p reserved len unacked (m ∷ ms) bytes h =
    elim (Bool-cases (over p reserved len (suc (length ms)) unacked bytes)) [
      | inl full ↦ rw full (
          omega (
            arith,
            make_room-bytes p reserved len unacked ms (bytes - length m.body) (omega arith),
          ))
      | inr free ↦ rw free (omega arith)
    ]

room_for-total-le :
    (w : Weight) (p : EffectivePolicy) (q : Queue) (len : ℕ)
    → total (weigh w) (room_for p q len).ready ≤ total (weigh w) q.ready
unfolding room_for
room_for-total-le w p q len = elim (Bool-cases p.drop_head) [
  | inl drops ↦
      simp drops (make_room-total-le w p q.reserved len (length q.unacked) q.ready q.bytes)
  | inr keeps ↦ simp keeps (omega arith)
]

room_for-bytes :
    (p : EffectivePolicy) (q : Queue) (len : ℕ)
    → total (weigh body_weight) q.ready ≤ q.bytes
    → (room_for p q len).bytes + total (weigh body_weight) q.ready
      ≡ q.bytes + total (weigh body_weight) (room_for p q len).ready
unfolding room_for
room_for-bytes p q len h = elim (Bool-cases p.drop_head) [
  | inl drops ↦ simp drops (make_room-bytes p q.reserved len (length q.unacked) q.ready q.bytes h)
  | inr keeps ↦ simp keeps (omega arith)
]

-- `q` with what `room_for` leaves of it, and any count of held slots.
abbrev pub with_room : EffectivePolicy → Queue → ℕ → ℕ → Queue
with_room p q len slots =
    let room = room_for p (record q { reserved = slots }) len in
    record q { reserved = slots; ready = room.ready; bytes = room.bytes }

pub with_room-Leaves :
    (p : EffectivePolicy) (q : Queue) (len slots : ℕ)
    → IsKeyed q.unacked
    → Leaves q (with_room p q len slots)
with_room-Leaves p q len slots k = record {
  keyed = k;
  fewer = λ w. omega (arith, room_for-total-le w p (record q { reserved = slots }) len);
  counted = λ h. omega (arith, room_for-bytes p (record q { reserved = slots }) len (omega arith));
  next_msg_id = refl;
}
