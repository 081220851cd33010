-- ===== src/Core/Examples.antt =====
-- The theorems on windows, credit, unsettled deliveries, allocators and negotiation (ramqp-core/src)
-- at concrete inputs.
use r_amqp.Core.Heartbeat.{
  tick, after, new, record_recv, record_send, received, sent, ticked, peer_timed_out,
  AllReceivedBefore, tick-peer_timed_out,
}
use r_amqp.Core.Credit.Agreement.{
  grant_credit-auto_refill, sent_many, received_many, sent_many-received_many,
}
use r_amqp.Core.Resume.{
  get_tag, reconcile, sender_resume_action, resend, settle, AreActions, reconcile-AreActions,
}
use r_amqp.Core.Window.Budget.{send_many, windows_on_flow-can_send, windows_on_flow-shrunk}
use r_amqp.Core.Negotiate.{KeepsAlive, Open, negotiate, negotiate-KeepsAlive, negotiate-agree}
use r_amqp.Core.Allocator.Live.{
  IsConsistent, Allocated, times, allocate-Allocated, allocate-exhausted, without,
  release-IsConsistent,
}
use r_amqp.Core.Allocator.{Allocator, allocate, release}
use r_amqp.Core.Performatives.{is_terminal, Bytes, Flow, DeliveryState, received, accepted}
use r_amqp.Core.Unsettled.Ranges.{elem, IsDisposed, apply_disposition-get}
use r_amqp.Core.Unsettled.{
  UnsettledMap, apply_disposition, ids_in, update_range, update_entry, UnsettledEntry,
}
use r_amqp.Core.Credit.{LinkCredit, auto_refill, apply_flow_as_sender, auto, grant_credit, manual}
use r_amqp.Common.{
  ◌<◌, ◌⊎◌, refl, List, ℕ, Option, [], arith, false, none, some, true, u32_max, ◌∷◌, ◌≡◌, ◌≤◌, get,
}
use r_amqp.Core.Window.{SessionConfig, SessionWindows, can_send, windows_on_flow}

abbrev config : SessionConfig
config = record { incoming_window = 8; outgoing_window = 8; handle_max = 1 }

-- Three transfers were sent, across the wrap of the ids.
abbrev windows : SessionWindows
windows = record {
  next_outgoing_id = 1;
  outgoing_window = 8;
  remote_incoming_window = 5;
  incoming_window = 8;
  initial_incoming_window = 8;
  next_incoming_id = 0;
  remote_outgoing_window = 8;
  initialized = true;
}

-- The peer has seen the first of the three.
abbrev opens : ℕ → Flow
opens window = record {
  next_incoming_id = some u32_max;
  incoming_window = window;
  next_outgoing_id = 0;
  outgoing_window = 8;
  handle = none;
  delivery_count = none;
  link_credit = none;
  available = none;
  drain = false;
  echo = false;
}

windows_on_flow-can_send_example :
    can_send (send_many 4 (windows_on_flow windows (opens 6))) ≡ false
windows_on_flow-can_send_example =
    windows_on_flow-can_send windows (opens 6) u32_max 2 4 refl refl (omega arith) (omega arith)
      (omega arith)

windows_on_flow-shrunk_example :
    ((windows_on_flow windows (opens 1)).remote_incoming_window ≡ 0xffff_ffff)
    × (can_send (windows_on_flow windows (opens 1)) ≡ true)
windows_on_flow-shrunk_example =
    windows_on_flow-shrunk windows (opens 1) u32_max 2 refl refl (omega arith) (omega arith)
      (omega arith)

abbrev receiver_credit : LinkCredit
receiver_credit = record {
  delivery_count = u32_max;
  link_credit = 10;
  available = 0;
  drain = false;
  mode = auto 20 10;
}

abbrev sender_credit : LinkCredit
sender_credit = record {
  delivery_count = 1;
  link_credit = 0;
  available = 0;
  drain = false;
  mode = manual;
}

abbrev credited : LinkCredit
credited = apply_flow_as_sender sender_credit (some u32_max) (some 10) false

sent_many-received_many_example :
    ((sent_many 3 credited).link_credit ≡ (received_many 5 receiver_credit).link_credit)
    × ((sent_many 3 credited).delivery_count ≡ (received_many 5 receiver_credit).delivery_count)
sent_many-received_many_example =
    sent_many-received_many sender_credit receiver_credit 2 3 (omega arith) (omega arith) refl
      (omega arith)

grant_credit-auto_refill_example : (10 ≤ 10) × ((grant_credit receiver_credit 10).link_credit ≡ 20)
unfolding auto_refill
grant_credit-auto_refill_example =
    grant_credit-auto_refill receiver_credit 20 10 10 refl (omega arith) (omega arith) refl

abbrev entry : ℕ → Option DeliveryState → UnsettledEntry
entry tag state = record { delivery_tag = tag ∷ []; state = state; settled = false }

abbrev unsettled : UnsettledMap
unsettled = (1, entry 7 none) ∷ (4, entry 8 (some (received 0 0))) ∷ []

-- Delivery 1 after the peer accepted it and did not settle.
abbrev accepted_one : UnsettledMap
accepted_one = (1, entry 7 (some accepted)) ∷ (4, entry 8 (some (received 0 0))) ∷ []

apply_disposition-get_example :
    ((0 ≤ 1) × (1 ≤ 3)
      → (elem 1 (1 ∷ []) ≡ true)
        × IsDisposed (some accepted) false (some (entry 7 none)) (get 1 accepted_one))
    × ((1 < 0) ⊎ (3 < 1) → (elem 1 (1 ∷ []) ≡ false) × (get 1 accepted_one ≡ get 1 unsettled))
unfolding apply_disposition ids_in update_range update_entry
apply_disposition-get_example =
    apply_disposition-get 0 3 (some accepted) false unsettled accepted_one (1 ∷ []) 1 refl

abbrev peer_view : List (Bytes × DeliveryState)
peer_view = (8 ∷ [], accepted) ∷ []

reconcile-AreActions_example :
    AreActions peer_view unsettled ((1, resend) ∷ (4, settle accepted) ∷ [])
unfolding reconcile sender_resume_action is_terminal get_tag
reconcile-AreActions_example = reconcile-AreActions unsettled peer_view

-- Two numbers, of which 1 is in use and 0 was given back.
abbrev one_free : Allocator
one_free = record { max = 1; next = 2; free = 0 ∷ [] }

one_free-IsConsistent : IsConsistent one_free (1 ∷ [])
one_free-IsConsistent = record { within = omega arith; split = λ n. ground arith }

abbrev all_used : Allocator
all_used = record { max = 1; next = 2; free = [] }

all_used-IsConsistent : IsConsistent all_used (0 ∷ 1 ∷ [])
all_used-IsConsistent = record { within = omega arith; split = λ n. ground arith }

allocate-Allocated_example : Allocated one_free (1 ∷ []) 0 all_used
unfolding allocate
allocate-Allocated_example =
    allocate-Allocated one_free (1 ∷ []) 0 all_used one_free-IsConsistent refl

allocate-exhausted_example : times 1 (0 ∷ 1 ∷ []) ≡ 1
unfolding allocate
allocate-exhausted_example =
    allocate-exhausted all_used (0 ∷ 1 ∷ []) all_used 1 all_used-IsConsistent refl (omega arith)

release-IsConsistent_example : IsConsistent (release all_used 0) (without 0 (0 ∷ 1 ∷ []))
release-IsConsistent_example =
    release-IsConsistent all_used (0 ∷ 1 ∷ []) 0 all_used-IsConsistent refl

abbrev short : Open
short = record { max_frame_size = 100; channel_max = 7; idle_time_out = some 1000 }

abbrev long : Open
long = record { max_frame_size = 65536; channel_max = 3; idle_time_out = none }

negotiate-agree_example :
    ((negotiate short long).max_frame_size ≡ (negotiate long short).max_frame_size)
    × ((negotiate short long).channel_max ≡ (negotiate long short).channel_max)
    × (512 ≤ (negotiate short long).max_frame_size)
negotiate-agree_example = negotiate-agree short long

negotiate-KeepsAlive_example :
    KeepsAlive (negotiate long short).recv_timeout (negotiate short long).send_interval
negotiate-KeepsAlive_example = negotiate-KeepsAlive short long

timed_out :
    (tick 140 (after (received 10 ∷ ticked 100 ∷ sent 120 ∷ []) (new none (some 30) 0))).0
    ≡ peer_timed_out
unfolding tick after new record_recv record_send
timed_out = refl

tick-peer_timed_out_example : AllReceivedBefore 30 140 (received 10 ∷ ticked 100 ∷ sent 120 ∷ [])
tick-peer_timed_out_example =
    tick-peer_timed_out none 30 0 140 (received 10 ∷ ticked 100 ∷ sent 120 ∷ [])
      (omega arith, (omega arith, (omega arith, omega arith))) timed_out
