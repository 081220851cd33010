-- ===== src/Broker/Queue/Settling.antt =====
-- Settlements in queue.rs: what they take out of the unacked map, and what they put back.
use r_amqp.Common.{
  ℕ, ◌+◌, ◌-◌, ◌≡◌, refl, Option, none, some, ◌∷◌, arith, total, get, remove, length, if_elim, List,
}
use r_amqp.Broker.Policy.{EffectivePolicy}
use r_amqp.Broker.Dispatch.{Output}
use r_amqp.Broker.Queue.State.{
  SettleOutcome, ack, requeue, requeue_failed, drop, Stored, Queue, Handled,
}
use r_amqp.Broker.Queue.Consume.{settle_removed, settle_entry, handle_settle}
use r_amqp.Broker.Queue.Held.{Weight, weigh, weigh_entry, body_weight, remove-IsKeyed, total-remove}
use r_amqp.Broker.Queue.Conservation.{IsDistinct}
use r_amqp.Broker.Queue.Accounting.{Leaves, Leaves-others}

module _ (q : Queue) (msg_id : ℕ) (stored : Stored) (owner : ℕ) (d : IsDistinct q)
    (e : get msg_id q.unacked ≡ some (stored, owner)) where
  taken :
      (w : Weight)
      → total (weigh_entry w) q.unacked
        ≡ weigh w stored + total (weigh_entry w) (remove msg_id q.unacked)
  taken w = total-remove w msg_id q.unacked stored owner d.keyed (omega (arith, d.once msg_id)) e

  -- An entry that leaves for good takes its bytes along.
  gone-Leaves :
      Leaves q
        (record q { unacked = remove msg_id q.unacked; bytes = q.bytes - length stored.body })
  gone-Leaves = record {
    keyed = remove-IsKeyed msg_id q.unacked d.keyed;
    fewer = λ w. omega (arith, taken w);
    counted = λ h. omega (arith, taken body_weight);
    next_msg_id = refl;
  }

  -- An entry that goes back to the front keeps its id and its body.
  back-Leaves :
      (failures : ℕ)
      → Leaves q (record q {
        unacked = remove msg_id q.unacked;
        ready = record stored { failures = failures } ∷ q.ready;
      })
  back-Leaves failures = record {
    keyed = remove-IsKeyed msg_id q.unacked d.keyed;
    fewer = λ w. omega (arith, taken w);
    counted = λ h. omega (arith, taken body_weight);
    next_msg_id = refl;
  }

settle_removed-Leaves :
    (p : EffectivePolicy) (q : Queue) (msg_id : ℕ) (stored : Stored) (owner : ℕ)
    (outcome : SettleOutcome)
    → IsDistinct q
    → get msg_id q.unacked ≡ some (stored, owner)
    → Leaves q (settle_removed p (record q { unacked = remove msg_id q.unacked }) stored outcome).0
unfolding settle_removed
settle_removed-Leaves p q msg_id stored owner ack d e = gone-Leaves q msg_id stored owner d e
settle_removed-Leaves p q msg_id stored owner drop d e = gone-Leaves q msg_id stored owner d e
settle_removed-Leaves p q msg_id stored owner requeue d e =
    back-Leaves q msg_id stored owner d e stored.failures
settle_removed-Leaves p q msg_id stored owner requeue_failed d e =
    if_elim (Leaves q) (λ (r : Queue × List Output). r.0) _ _ _
      (gone-Leaves q msg_id stored owner d e) (back-Leaves q msg_id stored owner d e _)

pub handle_settle-Leaves :
    (p : EffectivePolicy) (q : Queue) (sub msg_id : ℕ) (outcome : SettleOutcome)
    → IsDistinct q
    → Leaves q (handle_settle p q sub msg_id outcome).queue
unfolding handle_settle
handle_settle-Leaves p q sub msg_id outcome d =
    if_elim (Leaves q) (λ (h : Handled). h.queue) _ _ _ (settled (get msg_id q.unacked) refl)
      (Leaves-others q q.subs q.reserved q.next_sub_id d)
  where
    settled :
        (entry : Option (Stored × ℕ))
        → get msg_id q.unacked ≡ entry
        → Leaves q (settle_entry p q msg_id outcome entry).queue
    settled none e = unfold settle_entry in Leaves-others q q.subs q.reserved q.next_sub_id d
    settled (some (stored, owner)) e =
        unfold settle_entry in settle_removed-Leaves p q msg_id stored owner outcome d e
