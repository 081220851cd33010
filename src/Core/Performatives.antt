-- ===== src/Core/Performatives.antt =====
-- ramqp-core/src/types/performatives.rs, types/messaging.rs, types/definitions.rs: the frame bodies
-- that a session reads and writes. Capabilities and properties, which a session leaves at their
-- defaults, are left out, as are the unsettled map of an attach and the info map of an error; a
-- terminus and an extension state are opaque encoded values.
use r_amqp.Common.{ℕ, Bool, true, false, Option, List}
use Prim.Native.String.{String}

abbrev pub Bytes : Type 0
Bytes = List ℕ

pub record AmqpError : Type 0 where
  pub condition : String
  pub description : Option String

pub data Role : Type 0 where
  sender receiver : Role

unfoldable pub opposite : Role → Role
opposite sender = receiver
opposite receiver = sender

pub data SenderSettleMode : Type 0 where
  unsettled_mode settled_mode mixed : SenderSettleMode

pub data ReceiverSettleMode : Type 0 where
  first_mode second_mode : ReceiverSettleMode

pub data DeliveryState : Type 0 where
  received : (section_number section_offset : ℕ) → DeliveryState
  accepted : DeliveryState
  rejected : (error : Option AmqpError) → DeliveryState
  released : DeliveryState
  modified : (delivery_failed undeliverable_here : Bool) (annotations : Bytes) → DeliveryState
  other : (value : Bytes) → DeliveryState

unfoldable pub is_terminal : DeliveryState → Bool
is_terminal (received n o) = false
is_terminal _ = true

pub record Begin : Type 0 where
  pub remote_channel : Option ℕ
  pub next_outgoing_id : ℕ
  pub incoming_window : ℕ
  pub outgoing_window : ℕ
  pub handle_max : ℕ

pub record Attach : Type 0 where
  pub name : String
  pub handle : ℕ
  pub role : Role
  pub snd_settle_mode : SenderSettleMode
  pub rcv_settle_mode : ReceiverSettleMode
  pub source : Option Bytes
  pub target : Option Bytes
  pub initial_delivery_count : Option ℕ
  pub max_message_size : Option ℕ

pub record Flow : Type 0 where
  pub next_incoming_id : Option ℕ
  pub incoming_window : ℕ
  pub next_outgoing_id : ℕ
  pub outgoing_window : ℕ
  pub handle : Option ℕ
  pub delivery_count : Option ℕ
  pub link_credit : Option ℕ
  pub available : Option ℕ
  pub drain : Bool
  pub echo : Bool

pub record Transfer : Type 0 where
  pub handle : ℕ
  pub delivery_id : Option ℕ
  pub delivery_tag : Option Bytes
  pub message_format : Option ℕ
  pub settled : Option Bool
  pub more : Bool
  pub state : Option DeliveryState
  pub aborted : Bool

pub record Disposition : Type 0 where
  pub role : Role
  pub first : ℕ
  pub last : Option ℕ
  pub settled : Bool
  pub state : Option DeliveryState

pub record Detach : Type 0 where
  pub handle : ℕ
  pub closed : Bool
  pub error : Option AmqpError

pub data Performative : Type 0 where
  begin : Begin → Performative
  attach : Attach → Performative
  flow : Flow → Performative
  transfer : Transfer → Performative
  disposition : Disposition → Performative
  detach : Detach → Performative
  end : (error : Option AmqpError) → Performative
