-- ===== src/Core/Session/State.antt =====
-- ramqp-core/src/session/state.rs, link/mod.rs, link/sender.rs, link/receiver.rs, link/delivery.rs:
-- the state of a session and of its links, and what an operation sends. A reply channel is a number.
-- Metrics and event channels are left out: an event names its link.
use r_amqp.Common.{
  ℕ, Bool, true, false, Option, none, some, List, [], ◌++◌, min, wrapping_add64, be_bytes,
}
use r_amqp.Core.Performatives.{
  Bytes, AmqpError, Role, SenderSettleMode, ReceiverSettleMode, DeliveryState, Performative,
}
use r_amqp.Core.Window.{SessionWindows}
use r_amqp.Core.Credit.{CreditMode, manual, auto, LinkCredit, new_credit}
use r_amqp.Core.Unsettled.{UnsettledMap}
use r_amqp.Core.Allocator.{Allocator, RemoteMap}
use Prim.Native.String.{String}

pub data SessionPhase : Type 0 where
  begin_sent mapped end_sent ended : SessionPhase

abbrev pub max_unsettled_per_link : ℕ
max_unsettled_per_link = 65536

abbrev pub hard_max_message_size : ℕ
hard_max_message_size = 268435456

pub record PendingSend : Type 0 where
  pub body : Bytes
  pub settled : Bool
  pub message_format : ℕ
  pub state : Option DeliveryState
  pub reply : Option ℕ

pub record SenderLink : Type 0 where
  pub handle : ℕ
  pub remote_handle : Option ℕ
  pub name : String
  pub attached : Bool
  pub pending_attach : Option ℕ
  pub credit : LinkCredit
  pub unsettled : UnsettledMap
  pub pending : List (ℕ × ℕ)
  pub outbox : List PendingSend
  pub settle_mode : SenderSettleMode
  pub next_tag : ℕ

-- `SenderLink::new`, and `accepted` where no attach is pending.
unfoldable pub new_sender : ℕ → String → Option ℕ → SenderSettleMode → CreditMode → SenderLink
new_sender handle name pending_attach settle_mode credit_mode = record {
  handle = handle;
  remote_handle = none;
  name = name;
  attached = false;
  pending_attach = pending_attach;
  credit = new_credit 0 credit_mode;
  unsettled = [];
  pending = [];
  outbox = [];
  settle_mode = settle_mode;
  next_tag = 0;
}

-- `next_delivery_tag`: the tag, and the link with the counter moved on.
unfoldable pub next_delivery_tag : SenderLink → Bytes × SenderLink
next_delivery_tag s = (be_bytes 8 s.next_tag, record s { next_tag = wrapping_add64 s.next_tag 1 })

pub record Delivery : Type 0 where
  pub delivery_id : ℕ
  pub delivery_tag : Bytes
  pub settled : Bool
  pub state : Option DeliveryState
  pub body : Bytes

-- A delivery under assembly, `PartialDelivery`, has the same parts; `append` extends its body, and
-- `complete` hands it over as it is.
abbrev pub PartialDelivery : Type 0
PartialDelivery = Delivery

unfoldable pub append_payload : PartialDelivery → Bytes → PartialDelivery
append_payload p payload = record p { body = p.body ++ payload }

pub record ReceiverLink : Type 0 where
  pub handle : ℕ
  pub remote_handle : Option ℕ
  pub name : String
  pub attached : Bool
  pub pending_attach : Option ℕ
  pub credit : LinkCredit
  pub unsettled : UnsettledMap
  pub assembling : Option PartialDelivery
  pub settle_mode : ReceiverSettleMode
  pub max_message_size : Option ℕ

-- `ReceiverLink::new`, and `accepted` where no attach is pending.
unfoldable pub new_receiver :
    ℕ → String → Option ℕ → ReceiverSettleMode → CreditMode → Option ℕ → ReceiverLink
new_receiver handle name pending_attach settle_mode credit_mode max_message_size = record {
  handle = handle;
  remote_handle = none;
  name = name;
  attached = false;
  pending_attach = pending_attach;
  credit = new_credit 0 credit_mode;
  unsettled = [];
  assembling = none;
  settle_mode = settle_mode;
  max_message_size = max_message_size;
}

cap_of : Option ℕ → ℕ
cap_of none = hard_max_message_size
cap_of (some m) = min m hard_max_message_size

unfoldable pub size_cap : ReceiverLink → ℕ
unfolding cap_of
size_cap r = cap_of r.max_message_size

credit_of_mode : CreditMode → ℕ
credit_of_mode manual = 0
credit_of_mode (auto initial refill_threshold) = initial

unfoldable pub initial_credit : ReceiverLink → ℕ
unfolding credit_of_mode
initial_credit r = credit_of_mode r.credit.mode

pub data Link : Type 0 where
  sending : SenderLink → Link
  receiving : ReceiverLink → Link

unfoldable pub remote_handle_of : Link → Option ℕ
remote_handle_of (sending l) = l.remote_handle
remote_handle_of (receiving l) = l.remote_handle

unfoldable pub set_remote_handle : ℕ → Link → Link
set_remote_handle h (sending l) = sending (record l { remote_handle = some h })
set_remote_handle h (receiving l) = receiving (record l { remote_handle = some h })

unfoldable pub mark_attached : Link → Link
mark_attached (sending l) = sending (record l { attached = true })
mark_attached (receiving l) = receiving (record l { attached = true })

-- The reply that waits for the attach, and the link without it.
unfoldable pub take_pending_attach : Link → Option ℕ × Link
take_pending_attach (sending l) = (l.pending_attach, sending (record l { pending_attach = none }))
take_pending_attach (receiving l) =
    (l.pending_attach, receiving (record l { pending_attach = none }))

pub record Session : Type 0 where
  pub local_channel : ℕ
  pub remote_channel : Option ℕ
  pub phase : SessionPhase
  pub windows : SessionWindows
  pub handles : Allocator
  pub remote_handles : RemoteMap
  pub links : List (ℕ × Link)
  pub link_handles : List ((String × Role) × ℕ)
  pub pending_begin : Option ℕ
  pub pending_end : Option ℕ

pub data LinkEvent : Type 0 where
  delivery : (handle : ℕ) → Delivery → LinkEvent
  disposition : (handle delivery_id : ℕ) → DeliveryState → (settled : Bool) → LinkEvent
  credit : (handle credit : ℕ) (drain : Bool) → LinkEvent
  detached : (handle : ℕ) (error : Option AmqpError) → LinkEvent

pub data ErrorKind : Type 0 where
  capacity protocol_violation detached peer_closed : ErrorKind

-- How a reply is answered.
pub data Answer : Type 0 where
  opened : (channel : ℕ) → Answer
  link_attached : (handle : ℕ) → Answer
  settled_as : DeliveryState → Answer
  done : Answer
  failed : ErrorKind → Answer

-- What an operation sends, in order: a frame with its payload, an answer, or an event.
pub data Effect : Type 0 where
  frame : (channel : ℕ) → Performative → (payload : Option Bytes) → Effect
  answer : (reply : ℕ) → Answer → Effect
  event : LinkEvent → Effect
  session_ended : (error : Option AmqpError) → Effect

-- How an operation that can fail ends: the error of `failed_with` ends the connection, and `panicked`
-- is a panic of the code.
pub data Outcome : Type 0 where
  passed : Session → List Effect → Outcome
  failed_with : ErrorKind → Session → Outcome
  panicked : Outcome
