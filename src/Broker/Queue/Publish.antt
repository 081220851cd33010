-- ===== src/Broker/Queue/Publish.antt =====
-- ramqp-broker/src/queue.rs: the actor's handling of Publish, PublishReserved and Reserve.
use r_amqp.Common.{
  ℕ, suc, ◌+◌, Bool, true, false, not, ◌&&◌, ◌||◌, Option, List, [], ◌∷◌, ◌++◌, map, leb, ltb,
  if◌then◌else◌, length, saturating_add64, saturating_sub, wrapping_add64,
}
use r_amqp.Broker.Policy.{Body, EffectivePolicy, dead_letter}
use r_amqp.Broker.Dispatch.{
  PublishAck, Output, to_router, reserve_reply, confirm_publish, refuse_publish,
}
use r_amqp.Broker.Queue.State.{Stored, Queue, Env, Handled}

unfoldable pub to_dlx : EffectivePolicy → Body → List Output
to_dlx p body = map to_router (dead_letter p body)

-- The closure `over`: the depth bound with held slots, or the byte bound.
unfoldable pub over :
    EffectivePolicy → (reserved body_len ready_len unacked_len bytes_now : ℕ) → Bool
over p reserved body_len ready_len unacked_len bytes_now =
    leb p.max_len (ready_len + unacked_len + reserved)
    || ltb p.max_bytes (saturating_add64 bytes_now body_len)

pub record Room : Type 0 where
  pub ready : List Stored
  pub bytes : ℕ
  pub needs_room : Bool
  pub outputs : List Output

-- The drop-head loop: messages leave the front until there is room or none is left.
unfoldable pub make_room :
    EffectivePolicy → (reserved body_len unacked_len : ℕ) → List Stored → ℕ → Room
make_room p reserved body_len unacked_len [] bytes = record {
  ready = [];
  bytes = bytes;
  needs_room = over p reserved body_len 0 unacked_len bytes;
  outputs = [];
}
make_room p reserved body_len unacked_len (old ∷ rest) bytes =
    let after =
      make_room p reserved body_len unacked_len rest (saturating_sub bytes (length old.body)) in
    if over p reserved body_len (suc (length rest)) unacked_len bytes
    then record after { outputs = to_dlx p old.body ++ after.outputs }
    else record { ready = old ∷ rest; bytes = bytes; needs_room = false; outputs = [] }

unfoldable pub room_for : EffectivePolicy → Queue → ℕ → Room
room_for p q body_len =
    let dropped = make_room p q.reserved body_len (length q.unacked) q.ready q.bytes in
    if p.drop_head then dropped else record {
      ready = q.ready;
      bytes = q.bytes;
      needs_room = over p q.reserved body_len (length q.ready) (length q.unacked) q.bytes;
      outputs = [];
    }

unfoldable pub store : Queue → Env → Body → Queue
store q env body = record q {
  next_msg_id = wrapping_add64 q.next_msg_id 1;
  bytes = saturating_add64 q.bytes (length body);
  ready =
      q.ready
      ++ (record {
        id = wrapping_add64 q.next_msg_id 1;
        body = body;
        failures = 0;
        enqueued_ms = env.publish_ms;
      }
          ∷ []);
}

unfoldable pub handle_publish :
    EffectivePolicy → Env → Queue → Body → Option PublishAck → (from_reserved : Bool) → Handled
handle_publish p env q0 body confirm from_reserved =
    let q = if from_reserved then record q0 { reserved = saturating_sub q0.reserved 1 } else q0 in
    let room = room_for p q (length body) in
    let q' = record q { ready = room.ready; bytes = room.bytes } in
    if room.needs_room && not from_reserved
    then record { queue = q'; outputs = room.outputs ++ refuse_publish confirm; dispatches = false }
    else record {
      queue = store q' env body;
      outputs = room.outputs ++ confirm_publish confirm;
      dispatches = true;
    }

unfoldable pub handle_reserve : EffectivePolicy → Queue → ℕ → Handled
handle_reserve p q count =
    let fits = leb (length q.ready + length q.unacked + q.reserved + count) p.max_len in
    let ok = p.drop_head || fits in
    record {
      queue = if ok && not p.drop_head then record q { reserved = q.reserved + count } else q;
      outputs = reserve_reply ok ∷ [];
      dispatches = true;
    }
