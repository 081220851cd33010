-- ===== src/Core/Session/Shapes/Dispositions.antt =====
-- ramqp-core/src/session/state.rs: dispositions leave the shape of a session alone.
use r_amqp.Common.{
  ℕ, ◌≡◌, refl, arith, if_elim, Bool, Option, none, some, List, [], ◌∷◌, get, is_empty,
}
use r_amqp.Core.Performatives.{Role, sender, receiver, DeliveryState, Disposition}
use r_amqp.Core.Unsettled.{UnsettledMap}
use r_amqp.Core.Session.State.{SenderLink, ReceiverLink, Link, sending, receiving, Session, Effect}
use r_amqp.Core.Session.Settling.{
  disposition_on_sender, settle_sent, sent_link, received_link, disposition_on_receiver,
  settle_received, disposition_on_link, disposition_on_links, and_rest, with_links, on_disposition,
  send_disposition, settle_locally, store_receiver,
}
use r_amqp.Core.Session.Inbound.{remote_of}
use r_amqp.Core.Session.WellFormed.{IsWellFormed, SameLinks, SameLinks-refl}
use r_amqp.Core.Session.Shapes.{
  SameFace, SameEnd-SameFace, SameShape-refl, SameShape-replace, KeepsShape,
}
use r_amqp.Core.Session.Shapes.Flows.{receiving-SameFace}

abbrev FacedSame : Link → Option (Link × List Effect) → Type 0
FacedSame l none = Unit
FacedSame l (some (l', effects)) = SameFace l l'

settle_sent-FacedSame :
    (state : Option DeliveryState) (settled : Bool) (l : SenderLink)
    (o : Option (UnsettledMap × List ℕ))
    → FacedSame (sending l) (sent_link (settle_sent state settled l o))
unfolding settle_sent sent_link
settle_sent-FacedSame state settled l none = tt
settle_sent-FacedSame state settled l (some (m, ids)) =
    SameEnd-SameFace l _ (record { name = refl; handle = refl; remote_handle = refl })

settle_received-FacedSame :
    (r : ReceiverLink) (o : Option (UnsettledMap × List ℕ))
    → FacedSame (receiving r) (received_link (settle_received r o))
unfolding settle_received received_link
settle_received-FacedSame r none = tt
settle_received-FacedSame r (some (m, ids)) = receiving-SameFace r _ refl refl refl

sender-FacedSame :
    (first last : ℕ) (state : Option DeliveryState) (settled : Bool) (l : SenderLink)
    → FacedSame (sending l) (sent_link (disposition_on_sender first last state settled l))
unfolding disposition_on_sender sent_link
sender-FacedSame first last state settled l =
    if_elim (λ o. FacedSame (sending l) (sent_link o)) (λ o. o) (is_empty l.unsettled) _ _
      (record { key = refl; own = refl; remote = refl }) (settle_sent-FacedSame state settled l _)

receiver-FacedSame :
    (first last : ℕ) (state : Option DeliveryState) (settled : Bool) (r : ReceiverLink)
    → FacedSame (receiving r) (received_link (disposition_on_receiver first last state settled r))
unfolding disposition_on_receiver received_link
receiver-FacedSame first last state settled r =
    if_elim (λ o. FacedSame (receiving r) (received_link o)) (λ o. o) (is_empty r.unsettled) _ _
      (record { key = refl; own = refl; remote = refl }) (settle_received-FacedSame r _)

link-FacedSame :
    (role : Role) (first last : ℕ) (state : Option DeliveryState) (settled : Bool) (l : Link)
    → FacedSame l (disposition_on_link role first last state settled l)
unfolding disposition_on_link
link-FacedSame receiver first last state settled (sending l) =
    sender-FacedSame first last state settled l
link-FacedSame receiver first last state settled (receiving r) = record {
  key = refl;
  own = refl;
  remote = refl;
}
link-FacedSame sender first last state settled (sending l) = record {
  key = refl;
  own = refl;
  remote = refl;
}
link-FacedSame sender first last state settled (receiving r) =
    receiver-FacedSame first last state settled r

abbrev LinksSame : List (ℕ × Link) → Option (List (ℕ × Link) × List Effect) → Type 0
LinksSame m none = Unit
LinksSame m (some (m', effects)) = SameLinks m m'

and_rest-LinksSame :
    (h : ℕ) (l : Link) (m : List (ℕ × Link)) (o : Option (Link × List Effect))
    (rest : Option (List (ℕ × Link) × List Effect))
    → FacedSame l o
    → LinksSame m rest
    → LinksSame ((h, l) ∷ m) (and_rest h o rest)
unfolding and_rest remote_of
and_rest-LinksSame h l m none rest f x = tt
and_rest-LinksSame h l m (some (l', es)) none f x = tt
and_rest-LinksSame h l m (some (l', es)) (some (m', more)) f x = record {
  same_keys = λ n. omega (arith, x.same_keys n);
  same_key = λ j. ground (arith, f.key, x.same_key j);
  same_own = λ j. ground (arith, f.own, x.same_own j);
  same_remote = λ j. ground (arith, f.remote, x.same_remote j);
}

links-LinksSame :
    (role : Role) (first last : ℕ) (state : Option DeliveryState) (settled : Bool)
    (m : List (ℕ × Link))
    → LinksSame m (disposition_on_links role first last state settled m)
unfolding disposition_on_links
links-LinksSame role first last state settled [] = SameLinks-refl []
links-LinksSame role first last state settled ((h, l) ∷ m) =
    and_rest-LinksSame h l m _ _ (link-FacedSame role first last state settled l)
      (links-LinksSame role first last state settled m)

with_links-KeepsShape :
    (s : Session) (o : Option (List (ℕ × Link) × List Effect))
    → LinksSame s.links o
    → KeepsShape s (with_links s o)
unfolding with_links
with_links-KeepsShape s none x = tt
with_links-KeepsShape s (some (m, es)) x = record {
  same_handles = refl;
  same_names = refl;
  same_bindings = refl;
  same_links = x;
}

pub on_disposition-KeepsShape : (d : Disposition) (s : Session) → KeepsShape s (on_disposition d s)
unfolding on_disposition
on_disposition-KeepsShape d s =
    with_links-KeepsShape s _ (links-LinksSame d.role d.first _ d.state d.settled s.links)

store_receiver-KeepsShape :
    (h : ℕ) (s : Session) (es : List Effect) (r : ReceiverLink) (o : Option ReceiverLink)
    → IsWellFormed s
    → get h s.links ≡ some (receiving r)
    → FacedSame (receiving r) (received_link o)
    → KeepsShape s (store_receiver h s es o)
unfolding store_receiver received_link
store_receiver-KeepsShape h s es r none v e f = tt
store_receiver-KeepsShape h s es r (some r') v e f =
    SameShape-replace s s.windows h (receiving r) (receiving r') v e f

settle_locally-KeepsShape :
    (h first last : ℕ) (state : DeliveryState) (settled : Bool) (s : Session) (es : List Effect)
    (o : Option Link)
    → IsWellFormed s
    → get h s.links ≡ o
    → KeepsShape s (settle_locally h first last state settled s es o)
unfolding settle_locally
settle_locally-KeepsShape h first last state settled s es none v e = SameShape-refl s
settle_locally-KeepsShape h first last state settled s es (some (sending l)) v e = SameShape-refl s
settle_locally-KeepsShape h first last state settled s es (some (receiving r)) v e =
    store_receiver-KeepsShape h s es r _ v e (receiver-FacedSame first last (some state) settled r)

pub send_disposition-KeepsShape :
    (h first : ℕ) (last : Option ℕ) (state : DeliveryState) (settled : Bool) (s : Session)
    → IsWellFormed s
    → KeepsShape s (send_disposition h first last state settled s)
unfolding send_disposition
send_disposition-KeepsShape h first last state settled s v =
    settle_locally-KeepsShape h first _ state _ s _ (get h s.links) v refl
