-- ===== src/Broker/Policy.antt =====
-- ramqp-broker/src/policy.rs: a queue's resolved policy, and where its dead messages go.
use r_amqp.Common.{
  ℕ, Bool, true, false, Option, none, some, List, [], ◌∷◌, leb, saturating_sub, usize_max,
}
use Prim.Native.String.{String}

-- A message body, `bytes::Bytes`.
abbrev pub Body : Type 0
Body = List ℕ

-- A message on its way to the dead-letter router. The `confirm` channel is absent on this path.
pub record DeadLetter : Type 0 where
  pub target : String
  pub body : Body

-- `dlx` says whether the router's channel is there.
pub record EffectivePolicy : Type 0 where
  pub ttl_ms : Option ℕ
  pub max_len : ℕ
  pub max_bytes : ℕ
  pub drop_head : Bool
  pub dead_letter : Option String
  pub max_attempts : Option ℕ
  pub dlx : Bool

unfoldable pub depth_only : ℕ → EffectivePolicy
depth_only max_len = record {
  ttl_ms = none;
  max_len = max_len;
  max_bytes = usize_max;
  drop_head = false;
  dead_letter = none;
  max_attempts = none;
  dlx = false;
}

outlived : Option ℕ → ℕ → ℕ → Bool
outlived none enqueued_ms now_ms = false
outlived (some ttl) enqueued_ms now_ms = leb ttl (saturating_sub now_ms enqueued_ms)

unfoldable pub expired : EffectivePolicy → ℕ → ℕ → Bool
unfolding outlived
expired p enqueued_ms now_ms = outlived p.ttl_ms enqueued_ms now_ms

out_of_retries : Option ℕ → ℕ → Bool
out_of_retries none failures = false
out_of_retries (some max) failures = leb max failures

unfoldable pub attempts_exhausted : EffectivePolicy → ℕ → Bool
unfolding out_of_retries
attempts_exhausted p failures = out_of_retries p.max_attempts failures

routed : Option String → Bool → Body → List DeadLetter
routed none dlx body = []
routed (some target) false body = []
routed (some target) true body = record { target = target; body = body } ∷ []

-- What `dead_letter` sends to the router: one copy when a target and a router are set, else nothing.
unfoldable pub dead_letter : EffectivePolicy → Body → List DeadLetter
unfolding routed
dead_letter p body = routed p.dead_letter p.dlx body
