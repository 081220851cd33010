-- ===== src/Broker/Queue/Demand.antt =====
-- What the dispatch of queue.rs sends a consumer link stays within the demand that it granted.
use r_amqp.Common.{
  ℕ, zero, suc, ◌+◌, ◌≤◌, ◌≡◌, refl, Bool, List, [], ◌∷◌, arith, total, Bool-cases, inl, inr,
  length, map, total-append, is_some, ◌-◌,
}
use r_amqp.Broker.Policy.{EffectivePolicy, DeadLetter, dead_letter, expired}
use r_amqp.Broker.Dispatch.{Subscriber, complete_drains, Output, to_router}
use r_amqp.Broker.Queue.State.{Stored, Queue, Env}
use r_amqp.Broker.Queue.Turn.{
  Round, drained, unwanted, sent, dispatch_round, dispatch_loop, dispatch, total_demand,
  expire_ready, expire,
}
use r_amqp.Broker.Queue.Publish.{to_dlx}
use r_amqp.Broker.Queue.Progress.{Share, asked, delivered, Spends, dispatch_round-Spends}

complete_drains-le :
    (share : Share) (subs : List Subscriber)
    → total (asked share) (complete_drains subs) ≤ total (asked share) subs
unfolding complete_drains
complete_drains-le share [] = omega arith
complete_drains-le share (s ∷ ss) = elim (Bool-cases s.drain_pending) [
  | inl on ↦ simp on (omega (arith, complete_drains-le share ss))
  | inr off ↦ simp off (omega (arith, complete_drains-le share ss))
]

-- The weighed demand after a dispatch, with what it delivered, is within the demand before.
abbrev pub WithinDemand : Share → Queue → Queue × List Output → Type 0
WithinDemand share q r =
    total (asked share) r.0.subs + total (delivered share) r.1 ≤ total (asked share) q.subs

dispatch_loop-WithinDemand :
    (share : Share) (open_at : ℕ → ℕ → Bool) (fuel : ℕ) (q : Queue)
    → WithinDemand share q (dispatch_loop open_at fuel q)
unfolding dispatch_loop
dispatch_loop-WithinDemand share open_at zero q = omega arith
dispatch_loop-WithinDemand share open_at (suc fuel) q =
    after_round (dispatch_round (λ c. open_at c fuel) q) refl
      (dispatch_round-Spends (λ c. open_at c fuel) q)
      (dispatch_loop-WithinDemand share open_at fuel)
  where
    after_round :
        (r : Round)
        → dispatch_round (λ c. open_at c fuel) q ≡ r
        → Spends q r
        → ((q' : Queue) → WithinDemand share q' (dispatch_loop open_at fuel q'))
        → WithinDemand share q (dispatch_loop open_at (suc fuel) q)
    after_round drained e spends ih =
        rw (e, dispatch_loop) (omega (arith, complete_drains-le share q.subs))
    after_round unwanted e spends ih = rw (e, dispatch_loop) (omega arith)
    after_round (sent q' outs) e spends ih =
        rw (e, dispatch_loop, total-append) (omega (arith, ih q', spends.1 share))

router-delivers-nothing :
    (share : Share) (ds : List DeadLetter) → total (delivered share) (map to_router ds) ≡ 0
router-delivers-nothing share [] = refl
router-delivers-nothing share (d ∷ ds) = omega (arith, router-delivers-nothing share ds)

expire-delivers-nothing :
    (share : Share) (p : EffectivePolicy) (now : ℕ) (ms : List Stored) (bytes : ℕ)
    → total (delivered share) (expire p now ms bytes).2 ≡ 0
unfolding expire to_dlx
expire-delivers-nothing share p now [] bytes = refl
expire-delivers-nothing share p now (m ∷ ms) bytes =
    elim (Bool-cases (expired p m.enqueued_ms now)) [
      | inl old ↦
          rw (old, total-append)
            (omega (
              arith,
              router-delivers-nothing share (dead_letter p m.body),
              expire-delivers-nothing share p now ms (bytes - length m.body),
            ))
      | inr live ↦ rw live refl
    ]

expire_ready-WithinDemand :
    (share : Share) (p : EffectivePolicy) (now : ℕ) (q : Queue)
    → (total (asked share) (expire_ready p now q).0.subs ≡ total (asked share) q.subs)
      × (total (delivered share) (expire_ready p now q).1 ≡ 0)
unfolding expire_ready
expire_ready-WithinDemand share p now q = elim (Bool-cases (is_some p.ttl_ms)) [
  | inl on ↦ rw on (refl, expire-delivers-nothing share p now q.ready q.bytes)
  | inr off ↦ rw off (refl, refl)
]

-- For every weight of the consumer links, a dispatch delivers within the demand: what it delivers
-- and the demand that is left come to the demand before at most.
pub dispatch-WithinDemand :
    (share : Share) (p : EffectivePolicy) (env : Env) (q : Queue)
    → WithinDemand share q (dispatch p env q)
unfolding dispatch
dispatch-WithinDemand share p env q =
    let q' : Queue = (expire_ready p env.dispatch_ms q).0 in
    rw total-append (
      omega (
        arith,
        expire_ready-WithinDemand share p env.dispatch_ms q,
        dispatch_loop-WithinDemand share env.is_open (suc (total_demand q')) q',
      ))
