-- ===== src/Core/Session/Calls.antt =====
-- ramqp-core/src/session/state.rs: the methods of a session as calls, and what holds after each.
use r_amqp.Common.{ℕ, ◌≡◌, refl, arith, Bool, Option, none, some, []}
use r_amqp.Core.Performatives.{
  Bytes, AmqpError, Attach, Begin, Flow, DeliveryState, Performative, begin, attach, transfer,
  disposition, flow, detach, end,
}
use r_amqp.Core.Credit.{CreditMode}
use r_amqp.Core.Allocator.{new_allocator}
use r_amqp.Core.Session.State.{PendingSend, Session, SessionPhase, begin_sent, Outcome, passed}
use r_amqp.Core.Session.Names.{Key, get_key}
use r_amqp.Core.Session.Sending.{send_transfer}
use r_amqp.Core.Session.Links.{
  new_session, session_on_begin, peer_begin_in, begin_end, on_peer_end, attach_link,
}
use r_amqp.Core.Session.Accepting.{Accepting, accept_peer_attach, refuse_peer_attach}
use r_amqp.Core.Session.Settling.{send_disposition}
use r_amqp.Core.Session.Flowing.{pass, grant_link_credit, send_flow, detach_link, handle_link_frame}
use r_amqp.Core.Session.WellFormed.{IsWellFormed}
use r_amqp.Core.Session.Keeping.{SameShape-IsWellFormed}
use r_amqp.Core.Session.Shapes.{send_transfer-SameShape}
use r_amqp.Core.Session.Shapes.Flows.{
  grant_link_credit-SameShape, send_flow-SameShape, on_flow-SameShape,
}
use r_amqp.Core.Session.Shapes.Dispositions.{on_disposition-KeepsShape, send_disposition-KeepsShape}
use r_amqp.Core.Session.Shapes.Inbound.{
  StaysWellFormed, KeepsShape-StaysWellFormed, on_transfer-StaysWellFormed,
}
use r_amqp.Core.Session.Shapes.Attaching.{
  left_by, accept_peer_attach-IsWellFormed, on_peer_attach-IsWellFormed, attach_link-IsWellFormed,
  refuse_peer_attach-IsWellFormed, on_peer_detach-IsWellFormed, detach_link-IsWellFormed,
}

-- The methods of `Session` that change it.
pub data Call : Type 0 where
  peer_begin : (remote_channel : ℕ) → Begin → Call
  local_end : (reply : ℕ) → Call
  peer_end : (error : Option AmqpError) → Call
  local_attach : Attach → CreditMode → (reply : ℕ) → Call
  accept_attach : Attach → CreditMode → (initial_credit : ℕ) → (max_message_size : Option ℕ) → Call
  refuse_attach : Attach → AmqpError → Call
  link_frame : Performative → (payload : Option Bytes) → (max_frame_size : ℕ) → Call
  local_send : (handle : ℕ) → PendingSend → (max_frame_size : ℕ) → Call
  local_settle : (handle first : ℕ) → (last : Option ℕ) → DeliveryState → (settled : Bool) → Call
  local_grant : (handle credit : ℕ) → Call
  local_flow : Flow → Call
  local_detach : (handle : ℕ) → (closed : Bool) → (error : Option AmqpError) → (reply : ℕ) → Call

accepting_passes : Accepting → Outcome
accepting_passes x = passed (left_by x) []

-- What a call makes of a session. The effects of an accepted link are left to `accept_peer_attach`.
unfoldable pub perform : Call → Session → Outcome
unfolding accepting_passes pass
perform (peer_begin remote_channel b) s = pass (session_on_begin remote_channel b s)
perform (local_end reply) s = passed (begin_end reply s) []
perform (peer_end error) s = pass (on_peer_end error s)
perform (local_attach a mode reply) s = pass (attach_link a mode reply s)
perform (accept_attach a mode credit max) s =
    accepting_passes (accept_peer_attach a mode credit max s)
perform (refuse_attach a error) s = pass (refuse_peer_attach a error s)
perform (link_frame f payload m) s = handle_link_frame f payload m s
perform (local_send h p m) s = pass (send_transfer h p m s)
perform (local_settle h first last state settled) s = send_disposition h first last state settled s
perform (local_grant h credit) s = pass (grant_link_credit h credit s)
perform (local_flow f) s = pass (send_flow f s)
perform (local_detach h closed error reply) s = pass (detach_link h closed error reply s)

-- An attach of ours takes a name that no link of ours in that role has.
abbrev pub NamesFreely : Call → Session → Type 0
NamesFreely (local_attach a mode reply) s = get_key (a.name, a.role) s.link_handles ≡ none
NamesFreely _ s = Unit

link_frame-StaysWellFormed :
    (f : Performative) (payload : Option Bytes) (m : ℕ) (s : Session)
    → IsWellFormed s
    → StaysWellFormed (handle_link_frame f payload m s)
unfolding handle_link_frame
link_frame-StaysWellFormed (attach a) payload m s v = on_peer_attach-IsWellFormed a s v
link_frame-StaysWellFormed (transfer t) payload m s v = on_transfer-StaysWellFormed t payload s v
link_frame-StaysWellFormed (disposition d) payload m s v =
    KeepsShape-StaysWellFormed s _ v (on_disposition-KeepsShape d s)
link_frame-StaysWellFormed (flow f) payload m s v =
    SameShape-IsWellFormed s _ (on_flow-SameShape f m s v) v
link_frame-StaysWellFormed (detach d) payload m s v = on_peer_detach-IsWellFormed d s v
link_frame-StaysWellFormed (begin b) payload m s v = v
link_frame-StaysWellFormed (end e) payload m s v = v

same_links :
    (s s' : Session)
    → s'.handles ≡ s.handles
    → s'.link_handles ≡ s.link_handles
    → s'.remote_handles ≡ s.remote_handles
    → s'.links ≡ s.links
    → IsWellFormed s
    → IsWellFormed s'
same_links s s' eh en er el v = record {
  handles = rw (eh, el) v.handles;
  named = rw (en, el) v.named;
  indexed = rw (en, el) v.indexed;
  own = rw el v.own;
  bound = rw (er, el) v.bound;
}

peer_begin_in-IsWellFormed :
    (p : SessionPhase) (c : ℕ) (b : Begin) (s : Session)
    → IsWellFormed s
    → IsWellFormed (peer_begin_in p c b s).0
unfolding peer_begin_in
peer_begin_in-IsWellFormed begin_sent c b s v = same_links s _ refl refl refl refl v
peer_begin_in-IsWellFormed _ c b s v = v

-- Any call on a well-formed session leaves it well formed, also where it ends in an error of the
-- connection, when an attach of ours takes a name that is free in its role; a panic leaves no session.
pub perform-StaysWellFormed :
    (c : Call) (s : Session) → NamesFreely c s → IsWellFormed s → StaysWellFormed (perform c s)
unfolding perform session_on_begin begin_end on_peer_end
perform-StaysWellFormed (peer_begin c b) s n v = peer_begin_in-IsWellFormed s.phase c b s v
perform-StaysWellFormed (local_end reply) s n v = same_links s _ refl refl refl refl v
perform-StaysWellFormed (peer_end error) s n v = same_links s _ refl refl refl refl v
perform-StaysWellFormed (local_attach a mode reply) s n v =
    attach_link-IsWellFormed a mode reply s v n
perform-StaysWellFormed (accept_attach a mode c max) s n v =
    accept_peer_attach-IsWellFormed a mode c max s v
perform-StaysWellFormed (refuse_attach a error) s n v = refuse_peer_attach-IsWellFormed a error s v
perform-StaysWellFormed (link_frame f payload m) s n v = link_frame-StaysWellFormed f payload m s v
perform-StaysWellFormed (local_send h p m) s n v =
    SameShape-IsWellFormed s _ (send_transfer-SameShape h p m s v) v
perform-StaysWellFormed (local_settle h first last state settled) s n v =
    KeepsShape-StaysWellFormed s _ v (send_disposition-KeepsShape h first last state settled s v)
perform-StaysWellFormed (local_grant h credit) s n v =
    SameShape-IsWellFormed s _ (grant_link_credit-SameShape h credit s v) v
perform-StaysWellFormed (local_flow f) s n v =
    SameShape-IsWellFormed s _ (send_flow-SameShape f s v) v
perform-StaysWellFormed (local_detach h closed error reply) s n v =
    detach_link-IsWellFormed h closed error reply s v

no_key : {P : Type 0} (k : Key) (h : ℕ) → get_key k [] ≡ some h → P
unfolding get_key
no_key k h e = cc

-- A session as it begins, by us or by the peer, is well formed.
pub new_session-IsWellFormed :
    (channel : ℕ) (b : Begin) (reply : ℕ) → IsWellFormed (new_session channel b reply)
unfolding new_session new_allocator
new_session-IsWellFormed channel b reply = record {
  handles = record { within = omega arith; split = λ n. ground arith };
  named = λ h k e. cc;
  indexed = λ k h e. no_key k h e;
  own = λ h n e. cc;
  bound = λ r h e. cc;
}
