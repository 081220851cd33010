-- ===== src/Core/Session/Reassembly.antt =====
-- What a receiver makes of the frames that a sender splits a message into, by state.rs.
use r_amqp.Core.Window.{SessionWindows}
use r_amqp.Core.Session.Splitting.{concat, payloads-concat, payloads-some}
use r_amqp.Core.Session.Sending.{
  later_frames, next_transfer, all_frames, first_transfer, send_message_frames, payloads,
}
use r_amqp.Core.Performatives.{Bytes, transfer, Transfer}
use r_amqp.Core.Session.State.{
  Effect, LinkEvent, ReceiverLink, PartialDelivery, PendingSend, Delivery, frame, size_cap,
  append_payload,
}
use r_amqp.Core.Session.Receiving.{
  Received, assemble, receive_transfer, accept_payload, interleaves, oversized, taken, violation,
  deliver_up, empty_or, take_single, new_partial,
}
use r_amqp.Core.Credit.{record_received}
use r_amqp.Core.Unsettled.{track, insert_entry}
use r_amqp.Common.{
  wrapping_add32, saturating_sub, sym, ap, append-nil, append_assoc, refl, length-append, List, ℕ,
  ◌∷◌, [], length, ◌++◌, ◌≤◌, false, true, ◌≡◌, some, arith, none, ◌∙◌, if◌then◌else◌, is_empty,
}

then_events : List LinkEvent → Received → Received
then_events es violation = violation
then_events es (oversized r) = oversized r
then_events es (taken r more) = taken r (es ++ more)

-- A transfer after those before it. A frame that is refused ends the run.
receive_next : Received → Effect → Received
unfolding then_events
receive_next violation e = violation
receive_next (oversized r) e = oversized r
receive_next (taken r es) (frame channel (transfer t) payload) =
    then_events es (receive_transfer r t payload)
receive_next (taken r es) _ = taken r es

-- The transfers of a list of frames, one after the other.
unfoldable pub receive_frames : Received → List Effect → Received
unfolding receive_next
receive_frames res [] = res
receive_frames res (e ∷ es) = receive_frames (receive_next res e) es

-- The delivery that a sender's frames stand for.
abbrev pub delivery_of : (delivery_id : ℕ) → Bytes → PendingSend → Bytes → Delivery
delivery_of delivery_id tag p body = record {
  delivery_id = delivery_id;
  delivery_tag = tag;
  settled = p.settled;
  state = p.state;
  body = body;
}

assemble-last :
    (r : ReceiverLink) (q : PartialDelivery)
    → length q.body ≤ size_cap r
    → assemble r q false ≡ deliver_up (record r { assembling = none }) q
unfolding assemble
assemble-last r q h = ground arith

assemble-more :
    (r : ReceiverLink) (q : PartialDelivery)
    → length q.body ≤ size_cap r
    → assemble r q true ≡ taken (record r { assembling = some q }) []
unfolding assemble
assemble-more r q h = ground arith

fits_first : (a b c : Bytes) (n : ℕ) → length (a ++ (b ++ c)) ≤ n → length (a ++ b) ≤ n
fits_first a b c n h = omega (arith, length-append a (b ++ c), length-append b c, length-append a b)

-- A continuation that is not the last extends what is under assembly.
receive_next-more :
    (channel handle : ℕ) (r : ReceiverLink) (q : PartialDelivery) (c rest : Bytes)
    → length (q.body ++ (c ++ rest)) ≤ size_cap r
    → receive_next
        (taken (record r { assembling = some q }) [])
        (frame channel (transfer (next_transfer handle true)) (some c))
      ≡ taken (record r { assembling = some (append_payload q c) }) []
unfolding receive_next receive_transfer accept_payload then_events interleaves empty_or
    append_payload next_transfer size_cap
receive_next-more channel handle r q c rest h =
    rw
      (assemble-more (record r { assembling = some q }) (append_payload q c)
        (fits_first q.body c rest _ h))
      refl

-- The continuation frames complete what is under assembly.
receive_frames-later :
    (channel handle : ℕ) (r : ReceiverLink) (q : PartialDelivery) (c : Bytes) (cs : List Bytes)
    → length (q.body ++ concat (c ∷ cs)) ≤ size_cap r
    → receive_frames
        (taken (record r { assembling = some q }) [])
        (later_frames channel handle (c ∷ cs))
      ≡ deliver_up (record r { assembling = none }) (append_payload q (concat (c ∷ cs)))
unfolding receive_frames receive_next receive_transfer accept_payload then_events interleaves
    empty_or append_payload later_frames next_transfer size_cap deliver_up
receive_frames-later channel handle r q c [] h =
    rw
      (assemble-last (record r { assembling = some q }) (append_payload q c)
        (fits_first q.body c [] _ h))
      (rw append-nil refl)
receive_frames-later channel handle r q c (d ∷ ds) h =
    ap (λ x. receive_frames x (later_frames channel handle (d ∷ ds)))
      (receive_next-more channel handle r q c (d ++ concat ds) h)
    ∙ receive_frames-later channel handle r (append_payload q c) d ds (rw append_assoc h)
    ∙ rw (append_assoc q.body c (d ++ concat ds)) refl

take_single-fits :
    (r : ReceiverLink) (t : Transfer) (body : Bytes)
    → length body ≤ size_cap r
    → take_single r t body ≡ deliver_up r (new_partial t body)
unfolding take_single
take_single-fits r t body h = ground arith

first-more :
    (handle delivery_id : ℕ) (tag : Bytes) (p : PendingSend) (r : ReceiverLink) (c : Bytes)
    → r.assembling ≡ none
    → length c ≤ size_cap r
    → receive_transfer r (first_transfer handle delivery_id tag p true) (some c)
      ≡ taken (record r { assembling = some (delivery_of delivery_id tag p c) }) []
unfolding receive_transfer interleaves accept_payload new_partial empty_or first_transfer
first-more handle delivery_id tag p r c e h =
    simp e (assemble-more r (delivery_of delivery_id tag p c) h)

first-last :
    (handle delivery_id : ℕ) (tag : Bytes) (p : PendingSend) (r : ReceiverLink) (c : Bytes)
    → r.assembling ≡ none
    → length c ≤ size_cap r
    → receive_transfer r (first_transfer handle delivery_id tag p false) (some c)
      ≡ deliver_up r (delivery_of delivery_id tag p c)
unfolding receive_transfer interleaves accept_payload new_partial empty_or first_transfer
first-last handle delivery_id tag p r c e h =
    let t = first_transfer handle delivery_id tag p false in
    ap (λ o. if interleaves o (some delivery_id) then violation else accept_payload r t c o) e
    ∙ take_single-fits r t c h

-- Frames with the payloads `c ∷ cs`, received on a link where nothing is under assembly.
receive_frames-all :
    (channel handle delivery_id : ℕ) (tag : Bytes) (p : PendingSend) (r : ReceiverLink) (c : Bytes)
    (cs : List Bytes)
    → r.assembling ≡ none
    → length (concat (c ∷ cs)) ≤ size_cap r
    → receive_frames (taken r []) (all_frames channel handle delivery_id tag p (c ∷ cs))
      ≡ deliver_up r (delivery_of delivery_id tag p (concat (c ∷ cs)))
unfolding receive_frames receive_next all_frames then_events deliver_up append_payload
receive_frames-all channel handle delivery_id tag p r c [] e h =
    rw (first-last handle delivery_id tag p r c e (fits_first [] c [] _ h)) (rw append-nil refl)
receive_frames-all channel handle delivery_id tag p r c (d ∷ ds) e h =
    ap (λ x. receive_frames (then_events [] x) (later_frames channel handle (d ∷ ds)))
      (first-more handle delivery_id tag p r c e (fits_first [] c (d ++ concat ds) _ h))
    ∙ receive_frames-later channel handle r (delivery_of delivery_id tag p c) d ds h
    ∙ ap
        (λ o.
          deliver_up (record r { assembling = o })
            (delivery_of delivery_id tag p (c ++ (d ++ concat ds))))
        (sym e)

receive_frames-some :
    (channel handle delivery_id : ℕ) (tag : Bytes) (p : PendingSend) (r : ReceiverLink)
    (ps : List Bytes)
    → is_empty ps ≡ false
    → r.assembling ≡ none
    → length (concat ps) ≤ size_cap r
    → receive_frames (taken r []) (all_frames channel handle delivery_id tag p ps)
      ≡ deliver_up r (delivery_of delivery_id tag p (concat ps))
receive_frames-some channel handle delivery_id tag p r [] n e h = cc
receive_frames-some channel handle delivery_id tag p r (c ∷ cs) n e h =
    receive_frames-all channel handle delivery_id tag p r c cs e h

-- A message that is split into frames of one byte of payload or more, and received on a link where
-- nothing is under assembly and that takes deliveries of its size, is handed up once: the only event is
-- one delivery with the message's id, tag, settlement, state and body. It takes one unit of the link's
-- credit, if any is left, and counts as one delivery, modulo 2 ^ 32; its tag is entered as unsettled,
-- with no state, unless it is sent settled; and the rest of the link is as it was.
pub send_message_frames-received :
    (channel handle delivery_id : ℕ) (tag : Bytes) (p : PendingSend) (m : ℕ) (w : SessionWindows)
    (r : ReceiverLink)
    → 1 ≤ m
    → r.assembling ≡ none
    → length p.body ≤ size_cap r
    → receive_frames (taken r []) (send_message_frames channel handle delivery_id tag p m w).0
      ≡ taken
          (record r {
            credit = record r.credit {
              delivery_count = wrapping_add32 r.credit.delivery_count 1;
              link_credit = saturating_sub r.credit.link_credit 1;
            };
            unsettled =
                if p.settled
                then r.unsettled
                else insert_entry delivery_id
                    (record { delivery_tag = tag; state = none; settled = false })
                    r.unsettled;
          })
          (LinkEvent.delivery r.handle (record {
            delivery_id = delivery_id;
            delivery_tag = tag;
            settled = p.settled;
            state = p.state;
            body = p.body;
          })
            ∷ [])
unfolding send_message_frames deliver_up record_received track
send_message_frames-received channel handle delivery_id tag p m w r hm e h =
    let whole = payloads-concat m p.body hm in
    receive_frames-some channel handle delivery_id tag p r (payloads m p.body)
      (payloads-some m p.body) e (rw whole h)
    ∙ ap (λ b. deliver_up r (delivery_of delivery_id tag p b)) whole
