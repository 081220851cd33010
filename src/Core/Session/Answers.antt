-- ===== src/Core/Session/Answers.antt =====
-- ramqp-core/src/session/state.rs: how a disposition of the peer ends the sends that wait.
use r_amqp.Common.{
  ℕ, ◌≡◌, refl, arith, ◌∙◌, ap, Bool, true, false, ◌&&◌, if◌then◌else◌, Option, none, some, is_some,
  leb, List, get, contains_key,
}
use r_amqp.Core.Performatives.{DeliveryState, accepted}
use r_amqp.Core.Outcomes.{is_outcome, has_outcome, is_terminal-is_outcome}
use r_amqp.Core.Session.State.{SenderLink, Effect}
use r_amqp.Core.Session.Settling.{resolution, disposition_on_sender}
use r_amqp.Core.Session.Awaiting.{
  AwaitsUnsettled, Answered, IsResolved, disposition_on_sender-IsResolved,
}

-- The disposition is about the delivery: its id is in the range, and it is not settled.
abbrev pub concerned : (first last : ℕ) → SenderLink → ℕ → Bool
concerned first last l i = leb first i && leb i last && contains_key i l.unsettled

-- A send that waited for the delivery is answered with the outcome, and waits no more.
abbrev pub EndsWith : DeliveryState → SenderLink → SenderLink → List Effect → ℕ → Type 0
EndsWith o l l' effects i =
    (get i l'.pending ≡ none)
    × ((reply : ℕ) → get i l.pending ≡ some reply → Answered reply o effects)

-- What a disposition does to the sends that wait on a sender link.
pub record IsSettled (first last : ℕ) (state : Option DeliveryState) (settled : Bool)
    (l l' : SenderLink) (effects : List Effect) : Type 0 where
  pub with_outcome :
      (o : DeliveryState)
      → state ≡ some o
      → is_outcome o ≡ true
      → (i : ℕ) → concerned first last l i ≡ true
      → EndsWith o l l' effects i
  pub as_accepted :
      has_outcome state ≡ false
      → settled ≡ true
      → (i : ℕ) → concerned first last l i ≡ true
      → EndsWith accepted l l' effects i
  pub unfinished :
      has_outcome state ≡ false → settled ≡ false → (i : ℕ) → get i l'.pending ≡ get i l.pending
  pub others : (i : ℕ) → concerned first last l i ≡ false → get i l'.pending ≡ get i l.pending
  pub awaits : AwaitsUnsettled l'

resolution-outcome :
    (o : DeliveryState) (settled : Bool)
    → is_outcome o ≡ true
    → resolution (some o) settled ≡ some o
unfolding resolution
resolution-outcome o settled h = rw (is_terminal-is_outcome o, h) refl

resolution-none :
    (state : Option DeliveryState) (settled : Bool)
    → has_outcome state ≡ false
    → resolution state settled ≡ (if settled then some accepted else none)
unfolding resolution
resolution-none none settled h = refl
resolution-none (some st) settled h = rw (is_terminal-is_outcome st, h) refl

module _ (first last : ℕ) (state : Option DeliveryState) (settled : Bool) (l l' : SenderLink)
    (effects : List Effect) where
  resolved-EndsWith :
      IsResolved first last state settled l l' effects
      → (o : DeliveryState) → resolution state settled ≡ some o
      → (i : ℕ) → concerned first last l i ≡ true
      → EndsWith o l l' effects i
  resolved-EndsWith r o e i h =
      (ground (arith, r.pending i, h, e), λ reply waits. r.answered i reply o e waits h)

  resolved-waits :
      IsResolved first last state settled l l' effects
      → (i : ℕ) → (concerned first last l i && is_some (resolution state settled)) ≡ false
      → get i l'.pending ≡ get i l.pending
  resolved-waits r i h = ground (arith, r.pending i, h)

  -- A disposition of the peer on a sender link that does not panic, where each send that waits is for
  -- an unsettled delivery. If its state is an outcome, the sends that wait for the tracked deliveries of
  -- its range are answered with this outcome and wait no more; if it carries no outcome and settles,
  -- they are answered as accepted and wait no more; if it does neither, all sends wait as before. Sends
  -- for other deliveries wait as before, and each send that waits is still for an unsettled delivery.
  pub disposition_on_sender-IsSettled :
      AwaitsUnsettled l
      → disposition_on_sender first last state settled l ≡ some (l', effects)
      → IsSettled first last state settled l l' effects
  disposition_on_sender-IsSettled w e =
      let r = disposition_on_sender-IsResolved first last state settled l l' effects w e in
      record {
        with_outcome = λ o same final.
            resolved-EndsWith r o
              (ap (λ x. resolution x settled) same ∙ resolution-outcome o settled final);
        as_accepted = λ open_state done. resolved-EndsWith r accepted (
            resolution-none state settled open_state
            ∙ ap (λ b. if b then some accepted else none) done);
        unfinished = λ open_state more i. resolved-waits r i (
            ground (
              arith,
              resolution-none state settled open_state
                  ∙ ap (λ b. if b then some accepted else none) more,
            ));
        others = λ i apart. resolved-waits r i (ground (arith, apart));
        awaits = r.awaits;
      }
