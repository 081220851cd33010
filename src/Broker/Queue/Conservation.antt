-- ===== src/Broker/Queue/Conservation.antt =====
-- The dispatch of queue.rs moves messages between the ready list, the unacked map and the
-- consumers' connections, and loses or doubles none.
use r_amqp.Broker.Policy.{EffectivePolicy}
use r_amqp.Common.{
  ℕ, zero, suc, ◌≤◌, ◌≡◌, refl, ap, ◌∙◌, Bool, true, false, none, List, [], ◌∷◌, arith, total, get,
  Option-cases, inl, inr, get_elem?, remove-absent, ==_refl,
}
use mathlib.Core.List.{reverse}
use r_amqp.Broker.Dispatch.{Subscriber, pick_ready, complete_drains}
use r_amqp.Broker.Queue.State.{Stored, Queue, Env}
use r_amqp.Broker.Queue.Consume.{requeue_orphans, without_sub, owned_ids, sort}
use r_amqp.Broker.Queue.Turn.{
  Round, drained, unwanted, sent, send_to, take_demand, dispatch_to, dispatch_picked,
  dispatch_ready, dispatch_round, dispatch_loop, dispatch, expire_ready, total_demand,
}
use r_amqp.Broker.Queue.Held.{
  Weight, weigh, held, id_weight, IsKeyed, unacked_count, get-uncounted, remove-IsKeyed,
  requeue_each-held,
}

-- Every id is held once at most, and the unacked map is keyed by the ids.
pub record IsDistinct (q : Queue) : Type 0 where
  pub keyed : IsKeyed q.unacked
  pub once : (i : ℕ) → held (id_weight i) q ≤ 1

-- `q'` holds what `q` holds, under the same counters.
pub record Kept (q q' : Queue) : Type 0 where
  pub keyed : IsKeyed q'.unacked
  pub same : (w : Weight) → held w q' ≡ held w q
  pub bytes : q'.bytes ≡ q.bytes
  pub reserved : q'.reserved ≡ q.reserved
  pub next_msg_id : q'.next_msg_id ≡ q.next_msg_id
  pub next_sub_id : q'.next_sub_id ≡ q.next_sub_id

Kept-refl : (q : Queue) → IsKeyed q.unacked → Kept q q
Kept-refl q k = record {
  keyed = k;
  same = λ w. refl;
  bytes = refl;
  reserved = refl;
  next_msg_id = refl;
  next_sub_id = refl;
}

Kept-subs :
    (q : Queue) (subs : List Subscriber) → IsKeyed q.unacked → Kept q (record q { subs = subs })
Kept-subs q subs k = record {
  keyed = k;
  same = λ w. refl;
  bytes = refl;
  reserved = refl;
  next_msg_id = refl;
  next_sub_id = refl;
}

pub Kept-trans : (q r s : Queue) → Kept q r → Kept r s → Kept q s
Kept-trans q r s a b = record {
  keyed = b.keyed;
  same = λ w. b.same w ∙ a.same w;
  bytes = b.bytes ∙ a.bytes;
  reserved = b.reserved ∙ a.reserved;
  next_msg_id = b.next_msg_id ∙ a.next_msg_id;
  next_sub_id = b.next_sub_id ∙ a.next_sub_id;
}

pub Kept-IsDistinct : (q r : Queue) → Kept q r → IsDistinct q → IsDistinct r
Kept-IsDistinct q r k d = record {
  keyed = k.keyed;
  once = λ i. rw (k.same (id_weight i)) (d.once i);
}

pub requeue_orphans-Kept : (sub : ℕ) (q : Queue) → IsDistinct q → Kept q (requeue_orphans sub q)
unfolding requeue_orphans
requeue_orphans-Kept sub q d =
    let ids : List ℕ = reverse (sort (owned_ids sub q.unacked)) in
    let few : (i : ℕ) → unacked_count i q.unacked ≤ 1 = λ i. omega (arith, d.once i) in
    record {
      keyed = (requeue_each-held (id_weight 0) ids q.ready q.unacked d.keyed few).1;
      same = λ w. (requeue_each-held w ids q.ready q.unacked d.keyed few).0;
      bytes = refl;
      reserved = refl;
      next_msg_id = refl;
      next_sub_id = refl;
    }

self_weight : (m : Stored) → weigh (id_weight m.id) m ≡ 1
self_weight m = ground (arith, ==_refl m.id)

-- A message that is ready is not unacked.
ready_only :
    (q : Queue) (msg : Stored) (rest : List Stored)
    → q.ready ≡ msg ∷ rest
    → IsDistinct q
    → get msg.id q.unacked ≡ none
ready_only q msg rest e d =
    get-uncounted msg.id q.unacked d.keyed
      (omega (arith, d.once msg.id, ap (total (weigh (id_weight msg.id))) e, self_weight msg))

-- `q` with the front message taken off and other subscribers.
abbrev popped : Queue → List Stored → List Subscriber → ℕ → Queue
popped q rest subs rr = record q { ready = rest; subs = subs; rr = rr }

send_to-Kept :
    (b : Bool) (q : Queue) (msg : Stored) (rest : List Stored) (subs : List Subscriber) (rr : ℕ)
    (sub : Subscriber)
    → q.ready ≡ msg ∷ rest
    → IsDistinct q
    → Kept q (send_to b (popped q rest subs rr) msg sub).0
unfolding send_to without_sub
send_to-Kept true q msg rest subs rr sub e d = record {
  keyed = (refl, remove-IsKeyed msg.id q.unacked d.keyed);
  same = λ w.
      rw (remove-absent msg.id q.unacked (ready_only q msg rest e d))
        (omega (arith, ap (total (weigh w)) e));
  bytes = refl;
  reserved = refl;
  next_msg_id = refl;
  next_sub_id = refl;
}
send_to-Kept false q msg rest subs rr sub e d =
    let q' : Queue = record q { ready = msg ∷ rest; subs = subs; rr = rr } in
    let put_back : Kept q q' = record {
      keyed = d.keyed;
      same = λ w. omega (arith, ap (total (weigh w)) e);
      bytes = refl;
      reserved = refl;
      next_msg_id = refl;
      next_sub_id = refl;
    } in
    let requeued = requeue_orphans-Kept sub.id q' (Kept-IsDistinct q q' put_back d) in
    let k = Kept-trans q q' (requeue_orphans sub.id q') put_back requeued in
    record {
      keyed = k.keyed;
      same = k.same;
      bytes = k.bytes;
      reserved = k.reserved;
      next_msg_id = k.next_msg_id;
      next_sub_id = k.next_sub_id;
    }

abbrev RoundKept : Queue → Round → Type 0
RoundKept q drained = Unit {0}
RoundKept q unwanted = Unit {0}
RoundKept q (sent q' outs) = Kept q q'

dispatch_ready-Kept :
    (open_at : ℕ → Bool) (q : Queue) (ms : List Stored)
    → q.ready ≡ ms
    → IsDistinct q
    → RoundKept q (dispatch_ready open_at q ms)
unfolding dispatch_ready
dispatch_ready-Kept open_at q [] e d = tt
dispatch_ready-Kept open_at q (msg ∷ rest) e d = elim (Option-cases (pick_ready q.subs q.rr)) [
  | inl nobody ↦ rw (nobody, dispatch_picked) tt
  | inr (idx, picked) ↦
      rw (picked, dispatch_picked)
        (elim (Option-cases (get_elem? q.subs idx)) [
          | inl out ↦ rw (out, dispatch_to) tt
          | inr (sub, found) ↦
              rw (found, dispatch_to)
                (send_to-Kept (open_at sub.conn) q msg rest (take_demand q.subs idx) _ sub e d)
        ])
]

-- A round of the dispatch loop keeps all messages.
pub dispatch_round-Kept :
    (open_at : ℕ → Bool) (q : Queue) → IsDistinct q → RoundKept q (dispatch_round open_at q)
unfolding dispatch_round
dispatch_round-Kept open_at q d = dispatch_ready-Kept open_at q q.ready refl d

pub dispatch_loop-Kept :
    (open_at : ℕ → ℕ → Bool) (fuel : ℕ) (q : Queue)
    → IsDistinct q
    → Kept q (dispatch_loop open_at fuel q).0
unfolding dispatch_loop
dispatch_loop-Kept open_at zero q d = Kept-refl q d.keyed
dispatch_loop-Kept open_at (suc fuel) q d =
    after_round (dispatch_round (λ c. open_at c fuel) q) refl
      (dispatch_round-Kept (λ c. open_at c fuel) q d)
      (λ q' k. dispatch_loop-Kept open_at fuel q' (Kept-IsDistinct q q' k d))
  where
    after_round :
        (r : Round)
        → dispatch_round (λ c. open_at c fuel) q ≡ r
        → RoundKept q r
        → ((q' : Queue) → Kept q q' → Kept q' (dispatch_loop open_at fuel q').0)
        → Kept q (dispatch_loop open_at (suc fuel) q).0
    after_round drained e k ih =
        rw (e, dispatch_loop) (Kept-subs q (complete_drains q.subs) d.keyed)
    after_round unwanted e k ih = rw (e, dispatch_loop) (Kept-refl q d.keyed)
    after_round (sent q' outs) e k ih =
        rw (e, dispatch_loop) (Kept-trans q q' (dispatch_loop open_at fuel q').0 k (ih q' k))

expire_ready-none :
    (p : EffectivePolicy) (now : ℕ) (q : Queue) → p.ttl_ms ≡ none → (expire_ready p now q).0 ≡ q
unfolding expire_ready
expire_ready-none p now q e = simp e

-- On a queue that holds no id twice, be it ready or unacked, and that has no time to live, a dispatch
-- loses and doubles no message, whatever connections close meanwhile: every weight of the messages
-- held, unacked and ready together, stays the same.
pub dispatch-Kept :
    (p : EffectivePolicy) (env : Env) (q : Queue)
    → p.ttl_ms ≡ none
    → IsDistinct q
    → Kept q (dispatch p env q).0
unfolding dispatch
dispatch-Kept p env q e d =
    rw (expire_ready-none p env.dispatch_ms q e)
      (dispatch_loop-Kept env.is_open (suc (total_demand q)) q d)
