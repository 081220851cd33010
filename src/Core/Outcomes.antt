-- ===== src/Core/Outcomes.antt =====
-- The outcomes of a delivery, listed one by one, beside the test of ramqp-core/src/types/messaging.rs.
use r_amqp.Common.{◌≡◌, refl, Bool, true, false, Option, none, some}
use r_amqp.Core.Performatives.{
  DeliveryState, received, accepted, rejected, released, modified, other, is_terminal,
}

-- An extension state, which is opaque, counts as an outcome.
abbrev pub is_outcome : DeliveryState → Bool
is_outcome (received n o) = false
is_outcome accepted = true
is_outcome (rejected error) = true
is_outcome released = true
is_outcome (modified failed here annotations) = true
is_outcome (other value) = true

abbrev pub has_outcome : Option DeliveryState → Bool
has_outcome none = false
has_outcome (some st) = is_outcome st

pub is_terminal-is_outcome : (st : DeliveryState) → is_terminal st ≡ is_outcome st
unfolding is_terminal
is_terminal-is_outcome (received n o) = refl
is_terminal-is_outcome accepted = refl
is_terminal-is_outcome (rejected error) = refl
is_terminal-is_outcome released = refl
is_terminal-is_outcome (modified failed here annotations) = refl
is_terminal-is_outcome (other value) = refl
