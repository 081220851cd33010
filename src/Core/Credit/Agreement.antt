-- ===== src/Core/Credit/Agreement.antt =====
-- Both ends of a link agree on its credit, by credit.rs.
use r_amqp.Common.{ℕ, zero, suc, ◌+◌, ◌-◌, ◌≤◌, ◌≡◌, arith, some, u32_max, wrapping_add32, max}
use r_amqp.Core.Credit.{
  auto, LinkCredit, record_sent, record_received, apply_flow_as_sender, auto_refill, grant_credit,
}

unfoldable pub sent_many : ℕ → LinkCredit → LinkCredit
sent_many zero c = c
sent_many (suc n) c = sent_many n (record_sent c)

unfoldable pub received_many : ℕ → LinkCredit → LinkCredit
received_many zero c = c
received_many (suc n) c = received_many n (record_received c)

sent_many-credit :
    (n : ℕ) (c : LinkCredit)
    → c.delivery_count ≤ u32_max
    → ((sent_many n c).link_credit ≡ c.link_credit - n)
      × ((sent_many n c).delivery_count ≡ wrapping_add32 c.delivery_count n)
unfolding sent_many record_sent
sent_many-credit zero c h = omega arith
sent_many-credit (suc n) c h = omega (arith, sent_many-credit n (record_sent c) (omega arith))

received_many-credit :
    (n : ℕ) (c : LinkCredit)
    → c.delivery_count ≤ u32_max
    → ((received_many n c).link_credit ≡ c.link_credit - n)
      × ((received_many n c).delivery_count ≡ wrapping_add32 c.delivery_count n)
unfolding received_many record_received
received_many-credit zero c h = omega arith
received_many-credit (suc n) c h =
    omega (arith, received_many-credit n (record_received c) (omega arith))

-- A receiver's flow reaches a sender that is k deliveries ahead of it, and the sender then sends n
-- more, where k and n together are within the receiver's credit. Once the receiver has taken all
-- of them, both ends have the same credit and the same delivery-count, also where the count wraps.
pub sent_many-received_many :
    (s r : LinkCredit) (k n : ℕ)
    → r.delivery_count ≤ u32_max
    → r.link_credit ≤ u32_max
    → s.delivery_count ≡ wrapping_add32 r.delivery_count k
    → k + n ≤ r.link_credit
    → let s' =
        sent_many n (apply_flow_as_sender s (some r.delivery_count) (some r.link_credit) r.drain) in
      let r' = received_many (k + n) r in
      (s'.link_credit ≡ r'.link_credit) × (s'.delivery_count ≡ r'.delivery_count)
unfolding apply_flow_as_sender
sent_many-received_many s r k n hr hc hs hk = omega (
  arith,
  sent_many-credit n (apply_flow_as_sender s (some r.delivery_count) (some r.link_credit) r.drain)
      (omega arith),
  received_many-credit (k + n) r hr,
)

-- An automatic refill is due only at the threshold or below it, and brings the credit up to its
-- initial mark, or leaves a credit above the mark alone.
pub grant_credit-auto_refill :
    (c : LinkCredit) (initial refill_threshold n : ℕ)
    → c.mode ≡ auto initial refill_threshold
    → initial ≤ u32_max
    → c.link_credit ≤ u32_max
    → auto_refill c ≡ some n
    → (c.link_credit ≤ refill_threshold)
      × ((grant_credit c n).link_credit ≡ max initial c.link_credit)
unfolding auto_refill grant_credit
grant_credit-auto_refill c initial refill_threshold n e hi hc h = ground arith
