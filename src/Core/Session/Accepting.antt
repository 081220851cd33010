-- ===== src/Core/Session/Accepting.antt =====
-- ramqp-core/src/session/state.rs: links that the peer attaches, accepted or refused.
use r_amqp.Common.{
  ℕ, true, Option, none, some, List, [], ◌∷◌, if◌then◌else◌, unwrap_or, is_some, insert,
}
use r_amqp.Core.Performatives.{AmqpError, Role, sender, receiver, opposite, Attach, attach, detach}
use r_amqp.Core.Credit.{CreditMode}
use r_amqp.Core.Allocator.{Allocator, allocate, release, bind}
use r_amqp.Core.Session.State.{
  new_sender, new_receiver, Link, sending, receiving, set_remote_handle, mark_attached, Session,
  ErrorKind, capacity, protocol_violation, Effect, frame,
}
use r_amqp.Core.Session.Names.{get_key, insert_key}
use r_amqp.Core.Session.Links.{adopt_count, granted, grant_flow}

-- The link that mirrors the peer's.
unfoldable pub mirror : Role → ℕ → Attach → CreditMode → (initial_credit : ℕ) → Option ℕ → Link
unfolding adopt_count granted
mirror sender handle a credit_mode initial_credit max_message_size =
    sending (new_sender handle a.name none a.snd_settle_mode credit_mode)
mirror receiver handle a credit_mode initial_credit max_message_size =
    let r = new_receiver handle a.name none a.rcv_settle_mode credit_mode max_message_size in
    receiving
      (granted initial_credit (record r { credit = adopt_count a.initial_delivery_count r.credit }))

-- The attach that answers the peer's, for the local role.
response_to : Role → ℕ → Attach → Option ℕ → Attach
response_to sender handle a max_message_size = record a {
  handle = handle;
  role = sender;
  initial_delivery_count = some 0;
  max_message_size = none;
}
response_to receiver handle a max_message_size = record a {
  handle = handle;
  role = receiver;
  initial_delivery_count = none;
  max_message_size = max_message_size;
}

-- The result of accepting: the local handle and role, or an error.
pub data Accepting : Type 0 where
  accepted_link : Session → List Effect → (handle : ℕ) → Role → Accepting
  not_accepted : ErrorKind → Session → Accepting

unfoldable pub accept_at :
    Attach → CreditMode → ℕ → Option ℕ → Role → Session → Option ℕ × Allocator → Accepting
unfolding mirror response_to
accept_at a credit_mode initial_credit max_message_size role s (none, handles) =
    not_accepted capacity (record s { handles = handles })
accept_at a credit_mode initial_credit max_message_size role s (some local, handles) =
    let l = mirror role local a credit_mode initial_credit max_message_size in
    accepted_link
      (record s {
        handles = handles;
        link_handles = insert_key (a.name, role) local s.link_handles;
        remote_handles = bind a.handle local s.remote_handles;
        links = insert local (mark_attached (set_remote_handle a.handle l)) s.links;
      })
      (frame s.local_channel (attach (response_to role local a max_message_size)) none
        ∷ grant_flow s.local_channel s.windows initial_credit l)
      local role

-- Accept a link that the peer attaches, unless a link of that name and role is there.
unfoldable pub accept_peer_attach :
    Attach → CreditMode → (initial_credit : ℕ) → (max_message_size : Option ℕ) → Session → Accepting
unfolding accept_at
accept_peer_attach a credit_mode initial_credit max_message_size s =
    let role = opposite a.role in
    if is_some (get_key (a.name, role) s.link_handles)
    then not_accepted protocol_violation s
    else accept_at a credit_mode initial_credit max_message_size role s (allocate s.handles)

unfoldable pub refuse_at :
    Attach → AmqpError → Session → Option ℕ × Allocator → Session × List Effect
refuse_at a error s (handle, handles) =
    let local = unwrap_or handle 0 in
    (
      record s { handles = if is_some handle then release handles local else handles },
      frame s.local_channel
            (attach (record a {
              handle = local;
              role = opposite a.role;
              source = none;
              target = none;
              initial_delivery_count = none;
              max_message_size = none;
            }))
            none
          ∷ frame s.local_channel
              (detach (record { handle = local; closed = true; error = some error })) none
          ∷ [],
    )

-- Refuse a link that the peer attaches: no link is kept, and its handle is given back.
unfoldable pub refuse_peer_attach : Attach → AmqpError → Session → Session × List Effect
unfolding refuse_at
refuse_peer_attach a error s = refuse_at a error s (allocate s.handles)
