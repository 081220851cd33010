-- ===== src/Broker/Queue/Soundness.antt =====
-- Every turn of the queue actor of queue.rs keeps its counters in step with what it holds.
use r_amqp.Common.{
  refl, ℕ, ◌+◌, ◌-◌, ◌≤◌, ◌<◌, ◌≡◌, Bool, true, false, Option, List, arith, Bool-cases, inl, inr,
  length, u64_max, total-append, wrapping_add64, ◌==◌, ==_iff, if_elim,
}
use r_amqp.Broker.Policy.{Body, EffectivePolicy}
use r_amqp.Broker.Dispatch.{PublishAck, Output}
use r_amqp.Broker.Queue.State.{
  QueueMsg, publish, publish_reserved, reserve, unreserve, subscribe, demand, settle, unsubscribe,
  stats, Queue, Env, Handled,
}
use r_amqp.Broker.Queue.Publish.{store, handle_publish, handle_reserve}
use r_amqp.Broker.Queue.Consume.{without_sub, handle_subscribe, handle_unsubscribe, handle}
use r_amqp.Broker.Queue.Turn.{step}
use r_amqp.Broker.Queue.Held.{Weight, held, id_weight, body_weight}
use r_amqp.Broker.Queue.Settling.{handle_settle-Leaves}
use r_amqp.Broker.Queue.Conservation.{requeue_orphans-Kept, IsDistinct}
use r_amqp.Broker.Queue.Accounting.{
  IsSound, Leaves-IsSound, Kept-Leaves, dispatch-Leaves, with_room, with_room-Leaves, Leaves,
  Leaves-others, Leaves-trans, Leaves-IsDistinct,
}

-- The bytes that a message brings.
abbrev pub brought : QueueMsg → ℕ
brought (publish body confirm) = length body
brought (publish_reserved body confirm) = length body
brought _ = 0

-- The number space and the memory have room for one more message.
abbrev pub HasSpace : Queue → ℕ → Type 0
HasSpace q len = (q.next_msg_id < u64_max) × (held body_weight q + len ≤ u64_max)

-- A stored message adds its weight, under the next id.
pub held-store :
    (w : Weight) (q : Queue) (env : Env) (body : Body)
    → q.next_msg_id < u64_max
    → held w (store q env body) ≡ held w q + w (q.next_msg_id + 1) body
unfolding store
held-store w q env body h =
    let next : wrapping_add64 q.next_msg_id 1 ≡ q.next_msg_id + 1 = omega arith in
    rw (total-append, next) (omega arith)

id_weight_other : (i n : ℕ) (body : Body) → n < i → id_weight i n body ≡ 0
id_weight_other i n body h = ground arith

store-IsSound :
    (q : Queue) (env : Env) (body : Body)
    → IsSound q
    → HasSpace q (length body)
    → IsSound (store q env body)
unfolding store
store-IsSound q env body s (ids, room) =
    let n : ℕ = q.next_msg_id + 1 in
    record {
      distinct = record {
        keyed = s.distinct.keyed;
        once = λ i. elim (Bool-cases (n == i)) [
          | inl new ↦
              let e = (==_iff n i).0 new in
              let added = rw new at (held-store (id_weight i) q env body ids) in
              omega (arith, added, s.fresh i (omega arith))
          | inr old ↦
              let added = rw old at (held-store (id_weight i) q env body ids) in
              omega (arith, added, s.distinct.once i)
        ];
      };
      fresh = λ i h. omega (
        arith,
        held-store (id_weight i) q env body ids,
        id_weight_other i n body (omega arith),
        s.fresh i (omega arith),
      );
      accounted = omega (arith, held-store body_weight q env body ids, s.accounted);
    }

publish_cases-IsSound :
    (p : EffectivePolicy) (env : Env) (q : Queue) (body : Body) (slots : ℕ)
    → IsSound q
    → HasSpace q (length body)
    → IsSound (with_room p q (length body) slots)
      × IsSound (store (with_room p q (length body) slots) env body)
publish_cases-IsSound p env q body slots s (ids, room) =
    let l = with_room-Leaves p q (length body) slots s.distinct.keyed in
    let s' = Leaves-IsSound q (with_room p q (length body) slots) l s in
    (
      s',
      store-IsSound (with_room p q (length body) slots) env body s'
          (ids, omega (arith, l.fewer body_weight)),
    )

-- A publish, stored or refused.
handle_publish-IsSound :
    (p : EffectivePolicy) (env : Env) (q : Queue) (body : Body) (confirm : Option PublishAck)
    (from_reserved : Bool)
    → IsSound q
    → HasSpace q (length body)
    → IsSound (handle_publish p env q body confirm from_reserved).queue
unfolding handle_publish
handle_publish-IsSound p env q body confirm true s space =
    let (kept, stored) = publish_cases-IsSound p env q body (q.reserved - 1) s space in
    if_elim IsSound (λ (h : Handled). h.queue) _ _ _ kept stored
handle_publish-IsSound p env q body confirm false s space =
    let (kept, stored) = publish_cases-IsSound p env q body q.reserved s space in
    if_elim IsSound (λ (h : Handled). h.queue) _ _ _ kept stored

handle_unsubscribe-Leaves :
    (q : Queue) (sub : ℕ) → IsDistinct q → Leaves q (handle_unsubscribe q sub).queue
unfolding handle_unsubscribe
handle_unsubscribe-Leaves q sub d =
    let q' : Queue = without_sub sub q in
    let l : Leaves q q' = Leaves-others q q'.subs q.reserved q.next_sub_id d in
    Leaves-trans q q' _ l
      (Kept-Leaves q' _ (requeue_orphans-Kept sub q' (Leaves-IsDistinct q q' l d)))

abbrev pub is_publish : QueueMsg → Bool
is_publish (publish body confirm) = true
is_publish (publish_reserved body confirm) = true
is_publish _ = false

-- A message that is no publish brings nothing into the queue.
pub handle-Leaves :
    (p : EffectivePolicy) (env : Env) (q : Queue) (msg : QueueMsg)
    → is_publish msg ≡ false
    → IsDistinct q
    → Leaves q (handle p env q msg).queue
unfolding handle handle_subscribe handle_reserve
handle-Leaves p env q (publish body confirm) e d = cc
handle-Leaves p env q (publish_reserved body confirm) e d = cc
handle-Leaves p env q (reserve count) e d =
    if_elim (Leaves q) (λ r. r) _ _ _ (Leaves-others q q.subs _ q.next_sub_id d)
      (Leaves-others q q.subs q.reserved q.next_sub_id d)
handle-Leaves p env q (unreserve count) e d = Leaves-others q q.subs _ q.next_sub_id d
handle-Leaves p env q (subscribe conn channel link binding_gen) e d =
    Leaves-others q _ q.reserved _ d
handle-Leaves p env q (demand sub credit drain) e d = Leaves-others q _ q.reserved q.next_sub_id d
handle-Leaves p env q (settle sub msg_id outcome) e d =
    handle_settle-Leaves p q sub msg_id outcome d
handle-Leaves p env q (unsubscribe sub) e d = handle_unsubscribe-Leaves q sub d
handle-Leaves p env q stats e d = Leaves-others q q.subs q.reserved q.next_sub_id d

pub handle-IsSound :
    (p : EffectivePolicy) (env : Env) (q : Queue) (msg : QueueMsg)
    → IsSound q
    → HasSpace q (brought msg)
    → IsSound (handle p env q msg).queue
unfolding handle
handle-IsSound p env q (publish body confirm) s room =
    handle_publish-IsSound p env q body confirm false s room
handle-IsSound p env q (publish_reserved body confirm) s room =
    handle_publish-IsSound p env q body confirm true s room
handle-IsSound p env q msg s room = Leaves-IsSound q _ (handle-Leaves p env q msg refl s.distinct) s

-- A turn of a queue actor on any message keeps message ids distinct, keeps the ids above the last
-- one unused, and keeps the byte count equal to the bytes of the bodies that are held, while ids
-- and bytes fit 64 bits.
pub step-IsSound :
    (p : EffectivePolicy) (env : Env) (q : Queue) (msg : QueueMsg)
    → IsSound q
    → HasSpace q (brought msg)
    → IsSound (step p env q msg).0
unfolding step
step-IsSound p env q msg s room =
    let s' = handle-IsSound p env q msg s room in
    if_elim IsSound (λ (r : Queue × List Output). r.0) _ _ _
      (Leaves-IsSound _ _ (dispatch-Leaves p env _ s'.distinct) s') s'
