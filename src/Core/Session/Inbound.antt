-- ===== src/Core/Session/Inbound.antt =====
-- ramqp-core/src/session/state.rs: an inbound transfer on a session, with the detach of a link whose
-- delivery is too large. The channel to the consumer takes every event.
use r_amqp.Core.Window.{record_incoming, replenish_incoming, build_flow}
use r_amqp.Core.Session.Names.{link_key, remove_key, Index}
use r_amqp.Core.Session.State.{Outcome, passed, failed_with}
use r_amqp.Core.Session.Receiving.{Received, receive_transfer, taken, oversized, violation}
use r_amqp.Core.Allocator.{RemoteMap, resolve, unbind, release}
use r_amqp.Common.{
  ◌∷◌, ◌++◌, map, Bool, Option, ℕ, List, remove, some, [], get, none, true, false, insert,
  if◌then◌else◌, is_some,
}
use r_amqp.Core.Performatives.{AmqpError, Transfer, Bytes, detach, flow}
use r_amqp.Core.Session.State.{
  Link, Session, sending, Effect, protocol_violation, receiving, remote_handle_of, frame, event,
  detached,
}

unfoldable pub forget_key : Option Link → Index → Index
unfolding link_key remove_key
forget_key none m = m
forget_key (some l) m = remove_key (link_key l) m

-- Remove a link and its name, and give its handle back.
unfoldable pub forget_link : ℕ → Session → Session
unfolding forget_key
forget_link local s = record s {
  links = remove local s.links;
  link_handles = forget_key (get local s.links) s.link_handles;
  handles = release s.handles local;
}

unfoldable pub unbind_remote : Option ℕ → RemoteMap → RemoteMap
unbind_remote none m = m
unbind_remote (some remote) m = unbind remote m

unfoldable pub remote_of : Option Link → Option ℕ
remote_of none = none
remote_of (some l) = remote_handle_of l

-- Detach a link and tell both the peer and the user of the link.
unfoldable pub detach_with_error : ℕ → AmqpError → Session → Session × List Effect
unfolding unbind_remote remote_of
detach_with_error local error s =
    let found = get local s.links in
    (
      forget_link local
          (record s { remote_handles = unbind_remote (remote_of found) s.remote_handles }),
      frame s.local_channel (detach (record { handle = local; closed = true; error = some error }))
            none
          ∷ (if is_some found then event (detached local (some error)) ∷ [] else []),
    )

abbrev pub size_exceeded : AmqpError
size_exceeded = record {
  condition = "amqp:link:message-size-exceeded";
  description = some "assembled message exceeds max-message-size";
}

-- The flow that reopens an incoming window that is used up.
unfoldable pub reopen_window : Bool → Session → Session × List Effect
reopen_window false s = (s, [])
reopen_window true s =
    let w = replenish_incoming s.windows in
    (record s { windows = w }, frame s.local_channel (flow (build_flow w)) none ∷ [])

unfoldable pub finish_transfer : ℕ → (need_flow : Bool) → Session → Received → Outcome
unfolding reopen_window
finish_transfer local need_flow s violation = failed_with protocol_violation s
finish_transfer local need_flow s (taken r events) =
    let (s', flows) =
      reopen_window need_flow (record s { links = insert local (receiving r) s.links }) in
    passed s' (flows ++ map event events)
finish_transfer local need_flow s (oversized r) =
    let (s', flows) =
      reopen_window need_flow (record s { links = insert local (receiving r) s.links }) in
    let (t, effects) = detach_with_error local size_exceeded s' in passed t (flows ++ effects)

unfoldable pub transfer_on_link :
    ℕ → Transfer → Option Bytes → (need_flow : Bool) → Session → Option Link → Outcome
transfer_on_link local t payload need_flow s (some (receiving r)) =
    finish_transfer local need_flow s (receive_transfer r t payload)
transfer_on_link local t payload need_flow s (some (sending l)) =
    let (s', flows) = reopen_window need_flow s in passed s' flows
transfer_on_link local t payload need_flow s none =
    let (s', flows) = reopen_window need_flow s in passed s' flows

unfoldable pub transfer_resolved : Transfer → Option Bytes → Session → Option ℕ → Outcome
unfolding transfer_on_link
transfer_resolved t payload s none = passed s []
transfer_resolved t payload s (some local) =
    let (w, need_flow) = record_incoming s.windows in
    transfer_on_link local t payload need_flow (record s { windows = w }) (get local s.links)

unfoldable pub on_transfer : Transfer → Option Bytes → Session → Outcome
unfolding transfer_resolved
on_transfer t payload s = transfer_resolved t payload s (resolve t.handle s.remote_handles)
