-- ===== src/Broker/Queue/Consume.antt =====
-- ramqp-broker/src/queue.rs: the actor's handling of Subscribe, Demand, Settle, Unsubscribe and
-- Stats, and `handle`, the match on the message.
use mathlib.Core.List.{reverse}
use r_amqp.Common.{
  ℕ, Bool, true, false, not, Option, none, some, List, [], ◌∷◌, ◌++◌, leb, ◌==◌, if◌then◌else◌,
  length, retain, get, remove, saturating_sub, wrapping_add32, wrapping_add64,
}
use r_amqp.Broker.Policy.{EffectivePolicy, attempts_exhausted}
use r_amqp.Broker.Dispatch.{Output, subscribe_reply, stats_reply, Subscriber, new_subscriber, grant}
use r_amqp.Broker.Queue.State.{
  SettleOutcome, ack, requeue, requeue_failed, drop, QueueMsg, publish, publish_reserved, reserve,
  unreserve, subscribe, demand, settle, unsubscribe, stats, Stored, Unacked, Queue, Env, Handled,
}
use r_amqp.Broker.Queue.Publish.{to_dlx, handle_publish, handle_reserve}

unfoldable pub handle_subscribe : Queue → (conn channel link binding_gen : ℕ) → Handled
handle_subscribe q conn channel link binding_gen =
    let id = wrapping_add64 q.next_sub_id 1 in
    record {
      queue = record q {
        next_sub_id = id;
        subs = q.subs ++ (new_subscriber id conn channel link binding_gen ∷ []);
      };
      outputs = subscribe_reply id ∷ [];
      dispatches = true;
    }

-- `subs.iter_mut().find(..)`: the first subscriber with the id is granted the demand.
unfoldable pub grant_first : ℕ → ℕ → Bool → List Subscriber → List Subscriber
grant_first sub credit drain [] = []
grant_first sub credit drain (s ∷ ss) =
    if s.id == sub then grant s credit drain ∷ ss else s ∷ grant_first sub credit drain ss

unfoldable pub is_owned_by : ℕ → Option (Stored × ℕ) → Bool
is_owned_by sub none = false
is_owned_by sub (some (stored, owner)) = owner == sub

unfoldable pub settle_removed :
    EffectivePolicy → Queue → Stored → SettleOutcome → Queue × List Output
settle_removed p q stored ack =
    (record q { bytes = saturating_sub q.bytes (length stored.body) }, [])
settle_removed p q stored drop =
    (record q { bytes = saturating_sub q.bytes (length stored.body) }, [])
settle_removed p q stored requeue = (record q { ready = stored ∷ q.ready }, [])
settle_removed p q stored requeue_failed =
    let stored' = record stored { failures = wrapping_add32 stored.failures 1 } in
    if attempts_exhausted p stored'.failures
    then (record q { bytes = saturating_sub q.bytes (length stored.body) }, to_dlx p stored.body)
    else (record q { ready = stored' ∷ q.ready }, [])

unfoldable pub settle_entry :
    EffectivePolicy → Queue → ℕ → SettleOutcome → Option (Stored × ℕ) → Handled
settle_entry p q msg_id outcome none = record { queue = q; outputs = []; dispatches = true }
settle_entry p q msg_id outcome (some (stored, owner)) =
    let (q', outs) =
      settle_removed p (record q { unacked = remove msg_id q.unacked }) stored outcome in
    record { queue = q'; outputs = outs; dispatches = true }

unfoldable pub handle_settle : EffectivePolicy → Queue → ℕ → ℕ → SettleOutcome → Handled
handle_settle p q sub msg_id outcome =
    if is_owned_by sub (get msg_id q.unacked)
    then settle_entry p q msg_id outcome (get msg_id q.unacked)
    else record { queue = q; outputs = []; dispatches = false }

-- The ids of what a subscriber holds, in the order of the map.
unfoldable pub owned_ids : ℕ → Unacked → List ℕ
owned_ids sub [] = []
owned_ids sub ((id, (stored, owner)) ∷ m) =
    if owner == sub then id ∷ owned_ids sub m else owned_ids sub m

unfoldable pub insert_sorted : ℕ → List ℕ → List ℕ
insert_sorted n [] = n ∷ []
insert_sorted n (m ∷ ms) = if leb n m then n ∷ m ∷ ms else m ∷ insert_sorted n ms

-- `sort_unstable`.
unfoldable pub sort : List ℕ → List ℕ
sort [] = []
sort (n ∷ ns) = insert_sorted n (sort ns)

-- Each id in turn goes from the map to the front of the queue.
unfoldable pub requeue_each : List ℕ → List Stored → Unacked → List Stored × Unacked
requeue_each [] ready unacked = (ready, unacked)
requeue_each (id ∷ ids) ready unacked = elim (get id unacked) [
  | none ↦ requeue_each ids ready unacked
  | some (stored, owner) ↦ requeue_each ids (stored ∷ ready) (remove id unacked)
]

-- Drop a subscriber and requeue what it held, oldest first.
unfoldable pub requeue_orphans : ℕ → Queue → Queue
requeue_orphans sub q =
    let (ready', unacked') =
      requeue_each (reverse (sort (owned_ids sub q.unacked))) q.ready q.unacked in
    record q { ready = ready'; unacked = unacked' }

unfoldable pub without_sub : ℕ → Queue → Queue
without_sub sub q = record q { subs = retain (λ s. not (s.id == sub)) q.subs }

unfoldable pub handle_unsubscribe : Queue → ℕ → Handled
unfolding requeue_orphans without_sub
handle_unsubscribe q sub = record {
  queue = requeue_orphans sub (without_sub sub q);
  outputs = [];
  dispatches = true;
}

unfoldable pub handle : EffectivePolicy → Env → Queue → QueueMsg → Handled
handle p env q (publish body confirm) = handle_publish p env q body confirm false
handle p env q (publish_reserved body confirm) = handle_publish p env q body confirm true
handle p env q (reserve count) = handle_reserve p q count
handle p env q (unreserve count) = record {
  queue = record q { reserved = saturating_sub q.reserved count };
  outputs = [];
  dispatches = true;
}
handle p env q (subscribe conn channel link binding_gen) =
    handle_subscribe q conn channel link binding_gen
handle p env q (demand sub credit drain) = record {
  queue = record q { subs = grant_first sub credit drain q.subs };
  outputs = [];
  dispatches = true;
}
handle p env q (settle sub msg_id outcome) = handle_settle p q sub msg_id outcome
handle p env q (unsubscribe sub) = handle_unsubscribe q sub
handle p env q stats = record {
  queue = q;
  outputs =
      stats_reply
        (record { ready = length q.ready; unacked = length q.unacked; consumers = length q.subs })
      ∷ [];
  dispatches = true;
}
