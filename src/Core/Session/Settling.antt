-- ===== src/Core/Session/Settling.antt =====
-- ramqp-core/src/session/state.rs: dispositions, received and sent. Events to the user of a link
-- find room in their channel.
use r_amqp.Common.{
  ℕ, Bool, true, false, not, ◌&&◌, Option, none, some, List, [], ◌∷◌, ◌++◌, if◌then◌else◌,
  unwrap_or, is_empty, insert, get, remove,
}
use r_amqp.Core.Performatives.{
  Role, sender, receiver, ReceiverSettleMode, first_mode, second_mode, DeliveryState, accepted,
  is_terminal, Disposition, disposition,
}
use r_amqp.Core.Unsettled.{UnsettledMap, apply_disposition}
use r_amqp.Core.Session.State.{
  SenderLink, ReceiverLink, Link, sending, receiving, Session, LinkEvent, settled_as, Effect, frame,
  answer, event, Outcome, passed, panicked,
}

-- The outcome that ends the wait for a delivery, if there is one.
unfoldable pub resolution : Option DeliveryState → (settled : Bool) → Option DeliveryState
resolution none settled = if settled then some accepted else none
resolution (some st) settled =
    if is_terminal st then some st else if settled then some accepted else none

-- Complete the send that waits for an id.
unfoldable pub complete_send :
    Option DeliveryState → ℕ → Option ℕ → List (ℕ × ℕ) → List (ℕ × ℕ) × List Effect
complete_send none id waiting pending = (pending, [])
complete_send (some outcome) id none pending = (pending, [])
complete_send (some outcome) id (some reply) pending =
    (remove id pending, answer reply (settled_as outcome) ∷ [])

unfoldable pub disposition_event : ℕ → ℕ → Option DeliveryState → Bool → List Effect
disposition_event handle id none settled = []
disposition_event handle id (some st) settled =
    event (LinkEvent.disposition handle id st settled) ∷ []

-- The affected ids, one after the other.
unfoldable pub resolve_ids :
    (handle : ℕ) → Option DeliveryState → Bool → List ℕ → List (ℕ × ℕ) → List (ℕ × ℕ) × List Effect
unfolding complete_send disposition_event
resolve_ids handle state settled [] pending = (pending, [])
resolve_ids handle state settled (id ∷ ids) pending =
    let (pending', answers) =
      complete_send (resolution state settled) id (get id pending) pending in
    let (pending'', effects) = resolve_ids handle state settled ids pending' in
    (pending'', answers ++ (disposition_event handle id state settled ++ effects))

-- A disposition on the deliveries that a sender link sent; none is a panic.
unfoldable pub settle_sent :
    Option DeliveryState
    → Bool
    → SenderLink
    → Option (UnsettledMap × List ℕ)
    → Option (SenderLink × List Effect)
settle_sent state settled l none = none
settle_sent state settled l (some (unsettled, ids)) =
    let (pending, effects) = resolve_ids l.handle state settled ids l.pending in
    some (record l { unsettled = unsettled; pending = pending }, effects)

unfoldable pub disposition_on_sender :
    (first last : ℕ) → Option DeliveryState → Bool → SenderLink → Option (SenderLink × List Effect)
unfolding settle_sent
disposition_on_sender first last state settled l =
    if is_empty l.unsettled
    then some (l, [])
    else settle_sent state settled l (apply_disposition first last state settled l.unsettled)

unfoldable pub settle_received : ReceiverLink → Option (UnsettledMap × List ℕ) → Option ReceiverLink
settle_received r none = none
settle_received r (some (unsettled, ids)) = some (record r { unsettled = unsettled })

unfoldable pub disposition_on_receiver :
    (first last : ℕ) → Option DeliveryState → Bool → ReceiverLink → Option ReceiverLink
unfolding settle_received
disposition_on_receiver first last state settled r =
    if is_empty r.unsettled
    then some r
    else settle_received r (apply_disposition first last state settled r.unsettled)

unfoldable pub sent_link : Option (SenderLink × List Effect) → Option (Link × List Effect)
sent_link none = none
sent_link (some (l, effects)) = some (sending l, effects)

unfoldable pub received_link : Option ReceiverLink → Option (Link × List Effect)
received_link none = none
received_link (some r) = some (receiving r, [])

-- A disposition of a peer in the given role settles the links of the other role.
unfoldable pub disposition_on_link :
    Role → (first last : ℕ) → Option DeliveryState → Bool → Link → Option (Link × List Effect)
unfolding sent_link received_link
disposition_on_link receiver first last state settled (sending l) =
    sent_link (disposition_on_sender first last state settled l)
disposition_on_link receiver first last state settled (receiving r) = some (receiving r, [])
disposition_on_link sender first last state settled (sending l) = some (sending l, [])
disposition_on_link sender first last state settled (receiving r) =
    received_link (disposition_on_receiver first last state settled r)

unfoldable pub and_rest :
    ℕ
    → Option (Link × List Effect)
    → Option (List (ℕ × Link) × List Effect)
    → Option (List (ℕ × Link) × List Effect)
and_rest h none rest = none
and_rest h (some (l, effects)) none = none
and_rest h (some (l, effects)) (some (ls, more)) = some ((h, l) ∷ ls, effects ++ more)

-- The loop over the links.
unfoldable pub disposition_on_links :
    Role
    → (first last : ℕ) → Option DeliveryState
    → Bool
    → List (ℕ × Link)
    → Option (List (ℕ × Link) × List Effect)
unfolding and_rest
disposition_on_links role first last state settled [] = some ([], [])
disposition_on_links role first last state settled ((h, l) ∷ ls) =
    and_rest h (disposition_on_link role first last state settled l)
      (disposition_on_links role first last state settled ls)

unfoldable pub with_links : Session → Option (List (ℕ × Link) × List Effect) → Outcome
with_links s none = panicked
with_links s (some (links, effects)) = passed (record s { links = links }) effects

unfoldable pub on_disposition : Disposition → Session → Outcome
unfolding with_links
on_disposition d s =
    with_links s
      (disposition_on_links d.role d.first (unwrap_or d.last d.first) d.state d.settled s.links)

is_second : ReceiverSettleMode → Bool
is_second first_mode = false
is_second second_mode = true

in_second_mode : Option Link → Bool
unfolding is_second
in_second_mode none = false
in_second_mode (some (sending l)) = false
in_second_mode (some (receiving r)) = is_second r.settle_mode

unfoldable pub store_receiver : ℕ → Session → List Effect → Option ReceiverLink → Outcome
store_receiver handle s effects none = panicked
store_receiver handle s effects (some r) =
    passed (record s { links = insert handle (receiving r) s.links }) effects

unfoldable pub settle_locally :
    ℕ → (first last : ℕ) → DeliveryState → Bool → Session → List Effect → Option Link → Outcome
unfolding store_receiver
settle_locally handle first last state settled s effects none = passed s effects
settle_locally handle first last state settled s effects (some (sending l)) = passed s effects
settle_locally handle first last state settled s effects (some (receiving r)) =
    store_receiver handle s effects (disposition_on_receiver first last (some state) settled r)

-- Settle received deliveries. In second mode the settlement waits for the sender.
unfoldable pub send_disposition :
    (handle first : ℕ) → Option ℕ → DeliveryState → Bool → Session → Outcome
unfolding in_second_mode settle_locally
send_disposition handle first last state settled s =
    let wire_settled = settled && not (in_second_mode (get handle s.links)) in
    settle_locally handle first (unwrap_or last first) state wire_settled s
      (frame s.local_channel
          (disposition (record {
            role = receiver;
            first = first;
            last = last;
            settled = wire_settled;
            state = some state;
          }))
          none
        ∷ [])
      (get handle s.links)
