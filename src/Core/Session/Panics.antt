-- ===== src/Core/Session/Panics.antt =====
-- ramqp-core/src/session/state.rs: when a disposition of the peer panics.
use r_amqp.Common.{
  ℕ, ◌≡◌, ◌<◌, ◌↔◌, refl, arith, Bool, true, false, not, ◌&&◌, ◌||◌, ltb, Option, none, some, List,
  [], ◌∷◌, is_empty, unwrap_or, Bool-cases, inl, inr,
}
use r_amqp.Core.Performatives.{Role, sender, receiver, DeliveryState, Disposition}
use r_amqp.Core.Unsettled.{UnsettledMap, apply_disposition}
use r_amqp.Core.Session.State.{
  SenderLink, ReceiverLink, Link, sending, receiving, Session, Effect, panicked,
}
use r_amqp.Core.Session.Settling.{
  disposition_on_sender, settle_sent, disposition_on_receiver, settle_received, disposition_on_link,
  sent_link, received_link, disposition_on_links, and_rest, with_links, on_disposition,
}

-- A link that a disposition of a peer in the given role speaks of, with deliveries to settle.
abbrev pub is_tracking : Role → Link → Bool
is_tracking receiver (sending l) = not (is_empty l.unsettled)
is_tracking receiver (receiving r) = false
is_tracking sender (sending l) = false
is_tracking sender (receiving r) = not (is_empty r.unsettled)

abbrev pub any_tracking : Role → List (ℕ × Link) → Bool
any_tracking role [] = false
any_tracking role ((h, l) ∷ ls) = is_tracking role l || any_tracking role ls

abbrev is_none {ℓ} : {A : Type ℓ} → Option A → Bool
is_none none = true
is_none (some a) = false

settle_sent-none :
    (state : Option DeliveryState) (settled : Bool) (l : SenderLink)
    (o : Option (UnsettledMap × List ℕ))
    → is_none (sent_link (settle_sent state settled l o)) ≡ is_none o
unfolding settle_sent sent_link
settle_sent-none state settled l none = refl
settle_sent-none state settled l (some (m, ids)) = refl

settle_received-none :
    (r : ReceiverLink) (o : Option (UnsettledMap × List ℕ))
    → is_none (received_link (settle_received r o)) ≡ is_none o
unfolding settle_received received_link
settle_received-none r none = refl
settle_received-none r (some (m, ids)) = refl

apply-none :
    (first last : ℕ) (state : Option DeliveryState) (settled : Bool) (m : UnsettledMap)
    → is_none (apply_disposition first last state settled m) ≡ ltb last first
unfolding apply_disposition
apply-none first last state settled m = ground arith

link-none :
    (role : Role) (first last : ℕ) (state : Option DeliveryState) (settled : Bool) (l : Link)
    → is_none (disposition_on_link role first last state settled l)
      ≡ (ltb last first && is_tracking role l)
unfolding disposition_on_link disposition_on_sender disposition_on_receiver sent_link received_link
link-none receiver first last state settled (sending l) = elim (Bool-cases (is_empty l.unsettled)) [
  | inl e ↦ rw e (ground arith)
  | inr e ↦ rw e (
      ground (
        arith,
        settle_sent-none state settled l (apply_disposition first last state settled l.unsettled),
        apply-none first last state settled l.unsettled,
      ))
]
link-none receiver first last state settled (receiving r) = ground arith
link-none sender first last state settled (sending l) = ground arith
link-none sender first last state settled (receiving r) = elim (Bool-cases (is_empty r.unsettled)) [
  | inl e ↦ rw e (ground arith)
  | inr e ↦ rw e (
      ground (
        arith,
        settle_received-none r (apply_disposition first last state settled r.unsettled),
        apply-none first last state settled r.unsettled,
      ))
]

and_rest-none :
    (h : ℕ) (o : Option (Link × List Effect)) (rest : Option (List (ℕ × Link) × List Effect))
    → is_none (and_rest h o rest) ≡ (is_none o || is_none rest)
unfolding and_rest
and_rest-none h none rest = refl
and_rest-none h (some (l, es)) none = refl
and_rest-none h (some (l, es)) (some (ls, more)) = refl

links-none :
    (role : Role) (first last : ℕ) (state : Option DeliveryState) (settled : Bool)
    (ls : List (ℕ × Link))
    → is_none (disposition_on_links role first last state settled ls)
      ≡ (ltb last first && any_tracking role ls)
unfolding disposition_on_links
links-none role first last state settled [] = ground arith
links-none role first last state settled ((h, l) ∷ ls) = ground (
  arith,
  and_rest-none h (disposition_on_link role first last state settled l)
      (disposition_on_links role first last state settled ls),
  link-none role first last state settled l,
  links-none role first last state settled ls,
)

with_links-panicked :
    (s : Session) (o : Option (List (ℕ × Link) × List Effect))
    → (with_links s o ≡ panicked) ↔ (is_none o ≡ true)
unfolding with_links
with_links-panicked s none = (λ e. refl, λ e. refl)
with_links-panicked s (some (ls, es)) = (λ e. cc, λ e. cc)

-- An inbound disposition panics exactly when its last id is below its first and some link that it
-- speaks of, a sender's for a receiver's disposition and the other way round, has an unsettled
-- delivery.
pub on_disposition-panics :
    (d : Disposition) (s : Session)
    → (on_disposition d s ≡ panicked)
      ↔ ((unwrap_or d.last d.first < d.first) × (any_tracking d.role s.links ≡ true))
unfolding on_disposition
on_disposition-panics d s =
    let p =
      with_links-panicked s (
        disposition_on_links d.role d.first (unwrap_or d.last d.first) d.state d.settled s.links) in
    let q = links-none d.role d.first (unwrap_or d.last d.first) d.state d.settled s.links in
    (λ e. ground (arith, p.0 e, q), λ c. p.1 (ground (arith, q, c.0, c.1)))
