-- ===== src/Core/Session/Flowing.antt =====
-- ramqp-core/src/session/state.rs: flows, received and sent, the detaching of links, and the dispatch
-- of an inbound link frame.
use r_amqp.Common.{
  ℕ, Bool, false, not, Option, none, some, List, [], ◌∷◌, ◌++◌, if◌then◌else◌, is_empty, is_some,
  insert, get,
}
use r_amqp.Core.Performatives.{
  Bytes, AmqpError, Flow, flow, Detach, detach, Performative, begin, attach, transfer, disposition,
  end,
}
use r_amqp.Core.Window.{windows_on_flow, build_flow}
use r_amqp.Core.Credit.{LinkCredit, apply_flow_as_sender, grant_credit, set_credit}
use r_amqp.Core.Allocator.{resolve, unbind}
use r_amqp.Core.Session.State.{
  Link, sending, receiving, Session, LinkEvent, done, Effect, frame, answer, event, Outcome, passed,
}
use r_amqp.Core.Session.Sending.{link_flow, flush_sender}
use r_amqp.Core.Session.Inbound.{forget_link, unbind_remote, remote_of, on_transfer}
use r_amqp.Core.Session.Links.{on_peer_attach}
use r_amqp.Core.Session.Settling.{on_disposition}

unfoldable pub grant_found : ℕ → ℕ → Session → Option Link → Session × List Effect
grant_found handle credit s none = (s, [])
grant_found handle credit s (some (sending l)) = (s, [])
grant_found handle credit s (some (receiving r)) =
    let r' = record r { credit = grant_credit r.credit credit } in
    (
      record s { links = insert handle (receiving r') s.links },
      frame s.local_channel (flow (link_flow handle r'.credit s.windows)) none ∷ [],
    )

-- `Session::grant_credit`.
unfoldable pub grant_link_credit : ℕ → ℕ → Session → Session × List Effect
unfolding grant_found
grant_link_credit handle credit s = grant_found handle credit s (get handle s.links)

-- The link that a flow of the peer names, by our handle.
unfoldable pub flow_link : Flow → Session → Option ℕ
flow_link f s = elim f.handle [ none ↦ none | some peer ↦ resolve peer s.remote_handles ]

unfoldable pub credit_found : Flow → Session → ℕ → Option Link → Session × List Effect
credit_found f s local none = (s, [])
credit_found f s local (some (receiving r)) = (s, [])
credit_found f s local (some (sending l)) =
    let c = apply_flow_as_sender l.credit f.delivery_count f.link_credit f.drain in
    (
      record s { links = insert local (sending (record l { credit = c })) s.links },
      event (LinkEvent.credit l.handle c.link_credit c.drain) ∷ [],
    )

unfoldable pub credit_on_flow : Flow → Session → Option ℕ → Session × List Effect
unfolding credit_found
credit_on_flow f s none = (s, [])
credit_on_flow f s (some local) = credit_found f s local (get local s.links)

has_queued : Link → Bool
has_queued (sending l) = not (is_empty l.outbox)
has_queued (receiving r) = false

-- The handles of the senders with queued messages.
unfoldable pub stalled : List (ℕ × Link) → List ℕ
unfolding has_queued
stalled [] = []
stalled ((h, l) ∷ ls) = if has_queued l then h ∷ stalled ls else stalled ls

unfoldable pub flush_all : List ℕ → (max_frame_size : ℕ) → Session → Session × List Effect
flush_all [] max_frame_size s = (s, [])
flush_all (h ∷ hs) max_frame_size s =
    let (s', effects) = flush_sender h max_frame_size s in
    let (s'', more) = flush_all hs max_frame_size s' in (s'', effects ++ more)

credit_of : Link → LinkCredit
credit_of (sending l) = l.credit
credit_of (receiving r) = r.credit

link_fields : ℕ → Option Link → Flow → Flow
unfolding credit_of
link_fields local none f = f
link_fields local (some l) f = record f {
  handle = some local;
  delivery_count = some (credit_of l).delivery_count;
  link_credit = some (credit_of l).link_credit;
}

echo_fields : Session → Option ℕ → Flow → Flow
unfolding link_fields
echo_fields s none f = f
echo_fields s (some local) f = link_fields local (get local s.links) f

-- The answer to a flow that asks for one.
unfoldable pub echo_flow : Flow → Session → List Effect
unfolding echo_fields flow_link
echo_flow f s =
    if f.echo
    then frame s.local_channel (flow (echo_fields s (flow_link f s) (build_flow s.windows))) none
      ∷ []
    else []

unfoldable pub on_flow : Flow → (max_frame_size : ℕ) → Session → Session × List Effect
unfolding flow_link credit_on_flow
on_flow f max_frame_size s =
    let s0 = record s { windows = windows_on_flow s.windows f } in
    let (s1, events) = credit_on_flow f s0 (flow_link f s0) in
    let (s2, sent) = flush_all (stalled s1.links) max_frame_size s1 in
    (s2, events ++ (sent ++ echo_flow f s2))

unfoldable pub set_found : Option ℕ → ℕ → Session → Option Link → Session
set_found none handle s found = s
set_found (some lc) handle s none = s
set_found (some lc) handle s (some (sending l)) = s
set_found (some lc) handle s (some (receiving r)) = record s {
  links = insert handle (receiving (record r { credit = set_credit r.credit lc })) s.links;
}

unfoldable pub set_on_flow : Flow → Session → Option ℕ → Session
unfolding set_found
set_on_flow f s none = s
set_on_flow f s (some handle) = set_found f.link_credit handle s (get handle s.links)

unfoldable pub send_flow : Flow → Session → Session × List Effect
unfolding set_on_flow
send_flow f s =
    let s' = set_on_flow f s f.handle in
    let win = build_flow s'.windows in
    (
      s',
      frame s.local_channel
            (flow (record f {
              next_incoming_id = win.next_incoming_id;
              incoming_window = win.incoming_window;
              next_outgoing_id = win.next_outgoing_id;
              outgoing_window = win.outgoing_window;
            }))
            none
          ∷ [],
    )

-- Detach a link of ours. The reply is answered whether or not the link is there.
unfoldable pub detach_link :
    ℕ → (closed : Bool) → Option AmqpError → (reply : ℕ) → Session → Session × List Effect
detach_link handle closed error reply s =
    let found = get handle s.links in
    if is_some found
    then (
      forget_link handle
          (record s { remote_handles = unbind_remote (remote_of found) s.remote_handles }),
      frame s.local_channel (detach (record { handle = handle; closed = closed; error = error }))
            none
          ∷ answer reply done
          ∷ [],
    )
    else (s, answer reply done ∷ [])

unfoldable pub peer_detach_at : Detach → Session → Option ℕ → Session × List Effect
peer_detach_at d s none = (s, [])
peer_detach_at d s (some local) = (
  forget_link local (record s { remote_handles = unbind d.handle s.remote_handles }),
  (if is_some (get local s.links) then event (LinkEvent.detached local d.error) ∷ [] else [])
      ++ (frame s.local_channel
            (detach (record { handle = local; closed = d.closed; error = none })) none
          ∷ []),
)

unfoldable pub on_peer_detach : Detach → Session → Session × List Effect
unfolding peer_detach_at
on_peer_detach d s = peer_detach_at d s (resolve d.handle s.remote_handles)

unfoldable pub pass : Session × List Effect → Outcome
pass (s, effects) = passed s effects

-- An inbound performative of a link; the others are not for a session's links.
unfoldable pub handle_link_frame :
    Performative → Option Bytes → (max_frame_size : ℕ) → Session → Outcome
unfolding pass
handle_link_frame (attach a) payload max_frame_size s = pass (on_peer_attach a s)
handle_link_frame (transfer t) payload max_frame_size s = on_transfer t payload s
handle_link_frame (disposition d) payload max_frame_size s = on_disposition d s
handle_link_frame (flow f) payload max_frame_size s = pass (on_flow f max_frame_size s)
handle_link_frame (detach d) payload max_frame_size s = pass (on_peer_detach d s)
handle_link_frame (begin b) payload max_frame_size s = passed s []
handle_link_frame (end e) payload max_frame_size s = passed s []
