-- ===== src/Core/Credit.antt =====
-- ramqp-core/src/link/credit.rs: link credit, in 32-bit arithmetic.
pub mod Agreement
use r_amqp.Common.{
  ℕ, ◌-◌, Bool, true, false, Option, none, some, ltb, leb, if◌then◌else◌, unwrap_or, wrapping_add32,
  wrapping_sub32, saturating_add32, saturating_sub,
}

pub data CreditMode : Type 0 where
  manual : CreditMode
  auto : (initial refill_threshold : ℕ) → CreditMode

pub record LinkCredit : Type 0 where
  pub delivery_count : ℕ
  pub link_credit : ℕ
  pub available : ℕ
  pub drain : Bool
  pub mode : CreditMode

unfoldable pub new_credit : ℕ → CreditMode → LinkCredit
new_credit initial_delivery_count mode = record {
  delivery_count = initial_delivery_count;
  link_credit = 0;
  available = 0;
  drain = false;
  mode = mode;
}

-- `LinkCredit::can_send`.
unfoldable pub has_credit : LinkCredit → Bool
has_credit c = ltb 0 c.link_credit

unfoldable pub record_sent : LinkCredit → LinkCredit
record_sent c = record c {
  delivery_count = wrapping_add32 c.delivery_count 1;
  link_credit = saturating_sub c.link_credit 1;
}

credit_after : LinkCredit → (peer_count : ℕ) → Option ℕ → ℕ
credit_after c peer_count none = c.link_credit
credit_after c peer_count (some lc) = wrapping_sub32 (wrapping_add32 peer_count lc) c.delivery_count

unfoldable pub apply_flow_as_sender : LinkCredit → Option ℕ → Option ℕ → Bool → LinkCredit
unfolding credit_after
apply_flow_as_sender c flow_delivery_count flow_link_credit drain = record c {
  link_credit = credit_after c (unwrap_or flow_delivery_count c.delivery_count) flow_link_credit;
  drain = drain;
}

unfoldable pub grant_credit : LinkCredit → ℕ → LinkCredit
grant_credit c credit = record c {
  link_credit = saturating_add32 c.link_credit credit;
  drain = false;
}

unfoldable pub set_credit : LinkCredit → ℕ → LinkCredit
set_credit c credit = record c { link_credit = credit; drain = false }

unfoldable pub record_received : LinkCredit → LinkCredit
record_received c = record c {
  delivery_count = wrapping_add32 c.delivery_count 1;
  link_credit = saturating_sub c.link_credit 1;
}

refill_by : CreditMode → ℕ → Option ℕ
refill_by manual credit = none
refill_by (auto initial refill_threshold) credit =
    if leb credit refill_threshold then some (saturating_sub initial credit) else none

unfoldable pub auto_refill : LinkCredit → Option ℕ
unfolding refill_by
auto_refill c = refill_by c.mode c.link_credit
