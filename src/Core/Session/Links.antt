-- ===== src/Core/Session/Links.antt =====
-- ramqp-core/src/session/state.rs: begin and end of a session, and the attaching of its links.
use r_amqp.Common.{
  ℕ, Bool, Option, none, some, List, [], ◌∷◌, ◌++◌, ltb, if◌then◌else◌, min, unwrap_or, is_some,
  insert, get,
}
use r_amqp.Core.Performatives.{
  AmqpError, Role, sender, receiver, opposite, Begin, Attach, attach, flow,
}
use r_amqp.Core.Window.{SessionWindows, SessionConfig, new_windows, windows_on_begin}
use r_amqp.Core.Credit.{CreditMode, LinkCredit, set_credit}
use r_amqp.Core.Allocator.{Allocator, new_allocator, allocate, bind}
use r_amqp.Core.Session.State.{
  begin_sent, mapped, end_sent, ended, new_sender, ReceiverLink, new_receiver, initial_credit, Link,
  sending, receiving, remote_handle_of, set_remote_handle, mark_attached, take_pending_attach,
  Session, SessionPhase, capacity, peer_closed, opened, link_attached, done, failed, Effect, frame,
  answer, session_ended,
}
use r_amqp.Core.Session.Names.{get_key, insert_key}
use r_amqp.Core.Session.Sending.{link_flow}

-- `Session::new`, from the begin that is sent.
unfoldable pub new_session : (local_channel : ℕ) → Begin → (pending_begin : ℕ) → Session
new_session local_channel begin pending_begin = record {
  local_channel = local_channel;
  remote_channel = none;
  phase = begin_sent;
  windows =
      record (new_windows (record {
        incoming_window = begin.incoming_window;
        outgoing_window = begin.outgoing_window;
        handle_max = begin.handle_max;
      })) { next_outgoing_id = begin.next_outgoing_id };
  handles = new_allocator begin.handle_max;
  remote_handles = [];
  links = [];
  link_handles = [];
  pending_begin = some pending_begin;
  pending_end = none;
}

answer_opened : ℕ → Option ℕ → List Effect
answer_opened channel none = []
answer_opened channel (some reply) = answer reply (opened channel) ∷ []

unfoldable pub peer_begin_in : SessionPhase → ℕ → Begin → Session → Session × List Effect
unfolding answer_opened
peer_begin_in begin_sent remote_channel begin s = (
  record s {
    remote_channel = some remote_channel;
    windows = windows_on_begin s.windows begin;
    phase = mapped;
    pending_begin = none;
  },
  answer_opened s.local_channel s.pending_begin,
)
peer_begin_in _ remote_channel begin s = (s, [])

-- `Session::on_peer_begin`: only a session that awaits the peer's begin is mapped.
unfoldable pub session_on_begin : ℕ → Begin → Session → Session × List Effect
unfolding peer_begin_in
session_on_begin remote_channel begin s = peer_begin_in s.phase remote_channel begin s

-- A session that the peer began, and the begin that answers it.
unfoldable pub accept_peer_begin : ℕ → ℕ → Begin → SessionConfig → Session × Begin
accept_peer_begin local_channel remote_channel peer_begin config =
    let windows = windows_on_begin (new_windows config) peer_begin in
    (
      record {
        local_channel = local_channel;
        remote_channel = some remote_channel;
        phase = mapped;
        windows = windows;
        handles = new_allocator (min config.handle_max peer_begin.handle_max);
        remote_handles = [];
        links = [];
        link_handles = [];
        pending_begin = none;
        pending_end = none;
      },
      record {
        remote_channel = some remote_channel;
        next_outgoing_id = windows.next_outgoing_id;
        incoming_window = config.incoming_window;
        outgoing_window = config.outgoing_window;
        handle_max = config.handle_max;
      },
    )

unfoldable pub begin_end : ℕ → Session → Session
begin_end reply s = record s { phase = end_sent; pending_end = some reply }

end_effects : Option AmqpError → Option ℕ → List Effect
end_effects error none = session_ended error ∷ []
end_effects none (some reply) = answer reply done ∷ []
end_effects (some e) (some reply) = answer reply (failed peer_closed) ∷ []

unfoldable pub on_peer_end : Option AmqpError → Session → Session × List Effect
unfolding end_effects
on_peer_end error s =
    (record s { phase = ended; pending_end = none }, end_effects error s.pending_end)

-- The link that an attach of ours creates, and the attach that is sent for it.
unfoldable pub link_for : Role → ℕ → Attach → CreditMode → ℕ → Link
link_for sender handle a credit_mode reply =
    sending (new_sender handle a.name (some reply) a.snd_settle_mode credit_mode)
link_for receiver handle a credit_mode reply =
    receiving
      (new_receiver handle a.name (some reply) a.rcv_settle_mode credit_mode a.max_message_size)

attach_with : Role → ℕ → Attach → Attach
attach_with sender handle a = record a {
  handle = handle;
  initial_delivery_count = some (unwrap_or a.initial_delivery_count 0);
}
attach_with receiver handle a = record a { handle = handle }

unfoldable pub attach_at :
    Attach → CreditMode → ℕ → Session → Option ℕ × Allocator → Session × List Effect
unfolding link_for attach_with
attach_at a credit_mode reply s (none, handles) =
    (record s { handles = handles }, answer reply (failed capacity) ∷ [])
attach_at a credit_mode reply s (some handle, handles) = (
  record s {
    handles = handles;
    link_handles = insert_key (a.name, a.role) handle s.link_handles;
    links = insert handle (link_for a.role handle a credit_mode reply) s.links;
  },
  frame s.local_channel (attach (attach_with a.role handle a)) none ∷ [],
)

-- Attach a link of ours.
unfoldable pub attach_link : Attach → CreditMode → (reply : ℕ) → Session → Session × List Effect
unfolding attach_at
attach_link a credit_mode reply s = attach_at a credit_mode reply s (allocate s.handles)

unfoldable pub adopt_count : Option ℕ → LinkCredit → LinkCredit
adopt_count none c = c
adopt_count (some idc) c = record c { delivery_count = idc }

-- A receiver's initial grant, and the flow that advertises it.
unfoldable pub granted : ℕ → ReceiverLink → ReceiverLink
granted credit r = if ltb 0 credit then record r { credit = set_credit r.credit credit } else r

-- A receiver takes over the settle mode and the delivery count of the peer's attach.
unfoldable pub adopt_attach : Attach → Link → Link
unfolding granted adopt_count
adopt_attach a (sending l) = sending l
adopt_attach a (receiving l) =
    let r = record l {
      settle_mode = a.rcv_settle_mode;
      credit = adopt_count a.initial_delivery_count l.credit;
    } in
    receiving (granted (initial_credit r) r)

-- What the peer's attach makes of the link that awaits it.
unfoldable pub bound_link : Attach → Link → Link
unfolding adopt_attach set_remote_handle mark_attached
bound_link a l = adopt_attach a (mark_attached (set_remote_handle a.handle l))

-- The flow of a receiver that was granted credit.
unfoldable pub grant_flow : (local_channel : ℕ) → SessionWindows → ℕ → Link → List Effect
grant_flow local_channel windows credit (sending l) = []
grant_flow local_channel windows credit (receiving r) =
    if ltb 0 credit
    then frame local_channel (flow (link_flow r.handle r.credit windows)) none ∷ []
    else []

unfoldable pub credit_granted : Link → ℕ
credit_granted (sending l) = 0
credit_granted (receiving r) = initial_credit r

answer_attached : ℕ → Option ℕ → List Effect
answer_attached local none = []
answer_attached local (some reply) = answer reply (link_attached local) ∷ []

unfoldable pub bind_link : Attach → ℕ → Link → Session → Session × List Effect
unfolding bound_link grant_flow answer_attached credit_granted
bind_link a local l s =
    let (reply, l') = take_pending_attach (bound_link a l) in
    (
      record s {
        remote_handles = bind a.handle local s.remote_handles;
        links = insert local l' s.links;
      },
      answer_attached local reply ++ grant_flow s.local_channel s.windows (credit_granted l) l',
    )

unfoldable pub peer_attach_at : Attach → ℕ → Session → Option Link → Session × List Effect
unfolding bind_link
peer_attach_at a local s none = (s, [])
peer_attach_at a local s (some l) =
    if is_some (remote_handle_of l) then (s, []) else bind_link a local l s

unfoldable pub peer_attach_named : Attach → Session → Option ℕ → Session × List Effect
unfolding peer_attach_at
peer_attach_named a s none = (s, [])
peer_attach_named a s (some local) = peer_attach_at a local s (get local s.links)

-- The peer's answer to an attach of ours.
unfoldable pub on_peer_attach : Attach → Session → Session × List Effect
unfolding peer_attach_named
on_peer_attach a s = peer_attach_named a s (get_key (a.name, opposite a.role) s.link_handles)

unfoldable pub knows_link : Attach → Session → Bool
knows_link a s = is_some (get_key (a.name, opposite a.role) s.link_handles)
