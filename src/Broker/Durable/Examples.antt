-- ===== src/Broker/Durable/Examples.antt =====
-- Runs of the durable queue of durable.rs and store.rs, and its theorems at concrete inputs.
use r_amqp.Common.{
  ◌≡◌, ◌≢◌, ◌≤◌, refl, List, [], ◌∷◌, arith, Bool, true, false, Option, none, some, inr, get,
}
use r_amqp.Broker.Policy.{EffectivePolicy}
use r_amqp.Broker.Queue.State.{publish, subscribe, demand}
use r_amqp.Broker.Queue.Consume.{grant_first}
use r_amqp.Broker.Dispatch.{pick_ready, new_subscriber, grant}
use r_amqp.Broker.Durable.Handle.{handle, handle_publish, over}
use r_amqp.Broker.Durable.Dispatching.{dispatch}
use r_amqp.Broker.Store.{scan, body}
use r_amqp.Broker.Durable.State.{Durable, World, Env, emit, read_body, submit}
use r_amqp.Broker.Durable.Run.{Event, message, committed, run, restart}
use r_amqp.Broker.Durable.Losses.{
  fits, lived, lived-restart, lived-confirm, lived-places, writes-answer,
}
use r_amqp.Broker.Durable.Sound.{places}
use r_amqp.Broker.Durable.Progress.{IsIdle, dispatch-IsIdle}

abbrev roomy : EffectivePolicy
roomy = record {
  ttl_ms = none;
  max_len = 10;
  max_bytes = 100;
  drop_head = false;
  dead_letter = none;
  max_attempts = none;
  dlx = false;
}

abbrev open_env : Env
open_env = record {
  publish_ms = 5;
  dispatch_ms = 6;
  is_open = λ c r. true;
  writer_up = true;
  is_readable = λ id. true;
}

abbrev nobody : Durable
nobody = record {
  subs = [];
  inflight = [];
  ready = [];
  failures = [];
  next_msg_id = 0;
  bytes = 0;
  commits = [];
  publishes_pending = 0;
  reserved = 0;
  next_sub_id = 0;
  rr = 0;
}

-- A disk with one message of the queue 7.
abbrev disk : World
disk = record {
  queue = nobody;
  waiting = [];
  deferred = [];
  tables = record {
    messages = ((7, 3), record { failures = 1; enqueued_ms = 4; body = 1 ∷ 2 ∷ [] }) ∷ [];
    raft_log = [];
    raft_meta = [];
  };
  outputs = [];
}

-- A consumer with credit takes the message of the disk, and a publish is stored.
abbrev busy : List Event
busy =
    message open_env (subscribe 9 0 7 0)
    ∷ message open_env (demand 1 1 false)
    ∷ message open_env (publish (8 ∷ []) none)
    ∷ committed 1 true
    ∷ []

-- The consumer holds the message of the disk, which a crash gives back.
lived-restart_example : get 3 (restart 7 (lived 7 roomy busy disk)).queue.ready ≡ some (4, 2)
unfolding run restart fits scan handle dispatch emit pick_ready new_subscriber grant_first grant
    read_body body handle_publish over submit
lived-restart_example = lived-restart 7 3 roomy busy disk (omega arith) refl (4, 2) (inr (1, refl))

lived-confirm_example : get 4 (restart 7 (lived 7 roomy busy disk)).queue.ready ≡ some (5, 1)
unfolding run restart fits scan handle dispatch emit pick_ready new_subscriber grant_first grant
    read_body body handle_publish over submit
lived-confirm_example =
    lived-confirm 7 4 roomy busy disk (omega arith) refl 0
      (record { ack = none; msg_id = 4; enqueued_ms = 5; len = 1; answer = some true }) refl refl
      refl

lived-places_example :
    places 7 3
      (lived 7 roomy busy disk).queue.ready
      (lived 7 roomy busy disk).queue.inflight
      (lived 7 roomy busy disk).queue.commits
    ≤ 1
unfolding run restart fits scan handle dispatch emit pick_ready new_subscriber grant_first grant
    read_body body handle_publish over submit
lived-places_example = lived-places 7 3 roomy busy disk (omega arith) refl

abbrev refused_answer : Option Bool
refused_answer = some false

-- Two publishes wait, and one commit of a full batch answers both.
abbrev two_publishes : List Event
two_publishes =
    message open_env (publish (8 ∷ []) none) ∷ message open_env (publish (9 ∷ []) none) ∷ []

writes-answer_example : refused_answer ≢ none
unfolding run restart fits scan handle dispatch emit pick_ready new_subscriber grant_first grant
    read_body body handle_publish over submit
writes-answer_example =
    writes-answer 7 5 roomy two_publishes disk (omega arith) refl (false ∷ []) (omega arith) 1
      (record { ack = none; msg_id = 5; enqueued_ms = 5; len = 1; answer = some false }) refl refl

dispatch-IsIdle_example : IsIdle (dispatch 7 roomy open_env (lived 7 roomy busy disk))
dispatch-IsIdle_example = dispatch-IsIdle 7 roomy open_env (lived 7 roomy busy disk)
