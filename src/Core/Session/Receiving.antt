-- ===== src/Core/Session/Receiving.antt =====
-- ramqp-core/src/session/state.rs: an inbound transfer on a receiver link. Metrics are left out.
use r_amqp.Core.Unsettled.{track}
use r_amqp.Core.Credit.{record_received}
use r_amqp.Core.Session.State.{
  ReceiverLink, append_payload, Delivery, PartialDelivery, LinkEvent, delivery, size_cap,
}
use r_amqp.Core.Performatives.{Transfer, Bytes}
use r_amqp.Common.{
  Option, List, Bool, [], if◌then◌else◌, unwrap_or, ℕ, false, ltb, none, some, true, not, length,
  ◌==◌, ◌∷◌,
}

unfoldable pub empty_or : Option Bytes → Bytes
empty_or none = []
empty_or (some b) = b

unfoldable pub new_partial : Transfer → Bytes → PartialDelivery
unfolding empty_or
new_partial t payload = record {
  delivery_id = unwrap_or t.delivery_id 0;
  delivery_tag = empty_or t.delivery_tag;
  settled = unwrap_or t.settled false;
  state = t.state;
  body = payload;
}

-- A continuation that names another delivery than the one under assembly.
unfoldable pub interleaves : Option PartialDelivery → Option ℕ → Bool
interleaves (some p) (some id) = not (p.delivery_id == id)
interleaves (some p) none = false
interleaves none id = false

-- What an inbound transfer makes of a receiver link.
pub data Received : Type 0 where
  violation : Received
  oversized : ReceiverLink → Received
  taken : ReceiverLink → List LinkEvent → Received

-- A complete delivery is counted, tracked unless it is settled, and handed over.
unfoldable pub deliver_up : ReceiverLink → Delivery → Received
deliver_up r d =
    taken
      (record r {
        credit = record_received r.credit;
        unsettled =
            if d.settled then r.unsettled else track d.delivery_id d.delivery_tag none r.unsettled;
      })
      (delivery r.handle d ∷ [])

-- The end of the slow path: the size cap, then whether the delivery is complete.
unfoldable pub assemble : ReceiverLink → PartialDelivery → (more : Bool) → Received
unfolding deliver_up
assemble r p more =
    if ltb (size_cap r) (length p.body)
    then oversized (record r { assembling = none })
    else if more
    then taken (record r { assembling = some p }) []
    else deliver_up (record r { assembling = none }) p

-- The fast path: a frame that is a delivery of its own.
unfoldable pub take_single : ReceiverLink → Transfer → Bytes → Received
unfolding new_partial deliver_up
take_single r t payload =
    if ltb (size_cap r) (length payload) then oversized r else deliver_up r (new_partial t payload)

unfoldable pub accept_payload : ReceiverLink → Transfer → Bytes → Option PartialDelivery → Received
unfolding take_single assemble new_partial append_payload
accept_payload r t payload none =
    if t.more then assemble r (new_partial t payload) true else take_single r t payload
accept_payload r t payload (some p) = assemble r (append_payload p payload) t.more

-- `on_transfer` on a receiver link.
unfoldable pub receive_transfer : ReceiverLink → Transfer → Option Bytes → Received
unfolding accept_payload interleaves empty_or
receive_transfer r t payload =
    if t.aborted
    then taken (record r { assembling = none; credit = record_received r.credit }) []
    else if interleaves r.assembling t.delivery_id
    then violation
    else accept_payload r t (empty_or payload) r.assembling
