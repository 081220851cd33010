-- ===== src/Core/Session/Examples.antt =====
-- The theorems on sessions (ramqp-core/src/session/state.rs) at concrete inputs.
use r_amqp.Core.Credit.{new_credit}
use r_amqp.Core.Unsettled.{insert_entry}
use r_amqp.Core.Session.State.{LinkEvent}
use r_amqp.Common.{
  ℕ, ◌≡◌, ◌↔◌, ◌<◌, refl, arith, Bool, true, false, Option, none, some, List, [], ◌∷◌,
}
use r_amqp.Core.Performatives.{
  Bytes, Begin, Attach, sender, receiver, Disposition, accepted, is_terminal, mixed, first_mode,
}
use r_amqp.Core.Window.{SessionWindows}
use r_amqp.Core.Credit.{manual}
use r_amqp.Core.Unsettled.{insert_entry, apply_disposition, ids_in, remove_ids}
use r_amqp.Core.Session.State.{
  PendingSend, SenderLink, ReceiverLink, new_receiver, sending, Session, Effect, answer, event,
  settled_as, panicked, LinkEvent, size_cap,
}
use r_amqp.Core.Session.Names.{get_key}
use r_amqp.Core.Session.Links.{new_session, attach_link}
use r_amqp.Core.Session.Sending.{flush_link, max_payload_per_frame, payloads, send_message_frames}
use r_amqp.Core.Session.Receiving.{taken}
use r_amqp.Core.Session.Settling.{on_disposition, disposition_on_sender, resolve_ids, resolution}
use r_amqp.Core.Session.Flushing.{IsFlushed, drain_pending, flush_link-IsFlushed}
use r_amqp.Core.Session.Reassembly.{receive_frames, send_message_frames-received}
use r_amqp.Core.Session.Shapes.Inbound.{StaysWellFormed}
use r_amqp.Core.Session.Shapes.Attaching.{attach_link-IsWellFormed}
use r_amqp.Core.Session.Calls.{
  local_detach, perform, perform-StaysWellFormed, new_session-IsWellFormed,
}
use r_amqp.Core.Session.Panics.{any_tracking, on_disposition-panics}
use r_amqp.Core.Session.Answers.{IsSettled, disposition_on_sender-IsSettled}

abbrev our_begin : Begin
our_begin = record {
  remote_channel = none;
  next_outgoing_id = 0;
  incoming_window = 8;
  outgoing_window = 8;
  handle_max = 1;
}

abbrev our_attach : Attach
our_attach = record {
  name = "orders";
  handle = 0;
  role = sender;
  snd_settle_mode = mixed;
  rcv_settle_mode = first_mode;
  source = none;
  target = none;
  initial_delivery_count = none;
  max_message_size = none;
}

abbrev begun : Session
begun = new_session 0 our_begin 1

begun-named : get_key ("orders", sender) begun.link_handles ≡ none
unfolding new_session get_key
begun-named = refl

abbrev attached : Session
attached = (attach_link our_attach manual 2 begun).0

perform-StaysWellFormed_example : StaysWellFormed (perform (local_detach 0 true none 3) attached)
perform-StaysWellFormed_example = perform-StaysWellFormed (local_detach 0 true none 3) attached tt (
    attach_link-IsWellFormed our_attach manual 2 begun (new_session-IsWellFormed 0 our_begin 1)
      begun-named)

abbrev message : Bytes → Bool → Option ℕ → PendingSend
message body settled reply = record {
  body = body;
  settled = settled;
  message_format = 0;
  state = none;
  reply = reply;
}

abbrev queued : SenderLink
queued = record {
  handle = 0;
  remote_handle = some 4;
  name = "orders";
  attached = true;
  pending_attach = none;
  credit = record {
    delivery_count = 0;
    link_credit = 1;
    available = 0;
    drain = false;
    mode = manual;
  };
  unsettled = [];
  pending = [];
  outbox = message (1 ∷ 2 ∷ 3 ∷ []) false (some 7) ∷ message (4 ∷ []) true none ∷ [];
  settle_mode = mixed;
  next_tag = 0;
}

abbrev open_windows : SessionWindows
open_windows = record {
  next_outgoing_id = 5;
  outgoing_window = 8;
  remote_incoming_window = 3;
  incoming_window = 8;
  initial_incoming_window = 8;
  next_incoming_id = 0;
  remote_outgoing_window = 8;
  initialized = true;
}

flush_link-IsFlushed_example :
    IsFlushed
      (max_payload_per_frame 82)
      queued
      open_windows
      queued.outbox
      (flush_link 0 82 queued open_windows)
    × (drain_pending (flush_link 0 82 queued open_windows).link ≡ false)
unfolding max_payload_per_frame payloads
flush_link-IsFlushed_example =
    flush_link-IsFlushed 0 82 queued open_windows (omega arith, (omega arith, tt))

abbrev empty_receiver : ReceiverLink
empty_receiver = new_receiver 0 "orders" none first_mode manual (some 3)

send_message_frames-received_example :
    receive_frames
      (taken empty_receiver [])
      (send_message_frames 0 0 5 (9 ∷ []) (message (1 ∷ 2 ∷ 3 ∷ []) false none) 2 open_windows).0
    ≡ taken
        (record empty_receiver {
          credit = record empty_receiver.credit { delivery_count = 1; link_credit = 0 };
          unsettled = (5, record { delivery_tag = 9 ∷ []; state = none; settled = false }) ∷ [];
        })
        (LinkEvent.delivery 0 (record {
          delivery_id = 5;
          delivery_tag = 9 ∷ [];
          settled = false;
          state = none;
          body = 1 ∷ 2 ∷ 3 ∷ [];
        })
          ∷ [])
unfolding size_cap new_receiver insert_entry new_credit
send_message_frames-received_example =
    send_message_frames-received 0 0 5 (9 ∷ []) (message (1 ∷ 2 ∷ 3 ∷ []) false none) 2 open_windows
      empty_receiver (omega arith) refl (omega arith)

-- Delivery 5 waits for its outcome.
abbrev waiting : SenderLink
waiting = record queued {
  unsettled = (5, record { delivery_tag = 9 ∷ []; state = none; settled = false }) ∷ [];
  pending = (5, 7) ∷ [];
  outbox = [];
}

abbrev acked : SenderLink
acked = record waiting { unsettled = []; pending = [] }

abbrev acked_effects : List Effect
acked_effects =
    answer 7 (settled_as accepted) ∷ event (LinkEvent.disposition 0 5 accepted true) ∷ []

disposition_on_sender-IsSettled_example :
    IsSettled 4 6 (some accepted) true waiting acked acked_effects
unfolding disposition_on_sender apply_disposition ids_in remove_ids resolve_ids resolution
    is_terminal
disposition_on_sender-IsSettled_example =
    disposition_on_sender-IsSettled 4 6 (some accepted) true waiting acked acked_effects
      (λ i h. ground arith) refl

abbrev inverted : Disposition
inverted = record {
  role = receiver;
  first = 6;
  last = some 5;
  settled = true;
  state = some accepted;
}

abbrev sending_session : Session
sending_session = record begun { links = (0, sending waiting) ∷ [] }

on_disposition-panics_example :
    (on_disposition inverted sending_session ≡ panicked)
    ↔ ((5 < 6) × (any_tracking receiver ((0, sending waiting) ∷ []) ≡ true))
on_disposition-panics_example = on_disposition-panics inverted sending_session
