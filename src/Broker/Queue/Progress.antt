-- ===== src/Broker/Queue/Progress.antt =====
-- The dispatch of queue.rs ends, spends one unit of demand a round, and leaves no work undone.
use r_amqp.Common.{
  ℕ, zero, suc, ◌+◌, ◌≤◌, ◌<◌, ◌≡◌, refl, Bool, true, false, none, some, List, [], ◌∷◌, arith,
  total, All, Option-cases, Bool-cases, inl, inr, ◌⊎◌, get_elem?, retain, not, ◌==◌, ◌*◌, ◌-◌,
}
use Prim.Native.Nat.mul
use r_amqp.Broker.Policy.{EffectivePolicy}
use r_amqp.Broker.Dispatch.{
  Subscriber, pick_ready, complete_drains, demand_at, Output, to_conn, deliver,
}
use r_amqp.Broker.Dispatch.Pick.{pick_ready-some, pick_ready-none}
use r_amqp.Broker.Queue.State.{Stored, Queue, Env}
use r_amqp.Broker.Queue.Consume.{requeue_orphans, without_sub}
use r_amqp.Broker.Queue.Turn.{
  Round, drained, unwanted, sent, send_to, take_demand, dispatch_to, dispatch_picked,
  dispatch_ready, dispatch_round, dispatch_loop, dispatch, demanded, total_demand, expire_ready,
}

pub total-take_demand :
    (subs : List Subscriber) (idx : ℕ)
    → 0 < demand_at subs idx
    → total demanded (take_demand subs idx) + 1 ≡ total demanded subs
unfolding take_demand
total-take_demand [] idx h = absurd (omega arith)
total-take_demand (s ∷ ss) zero h = omega arith
total-take_demand (s ∷ ss) (suc idx) h = omega (arith, total-take_demand ss idx h)

pub total-retain-le :
    (p : Subscriber → Bool) (subs : List Subscriber)
    → total demanded (retain p subs) ≤ total demanded subs
total-retain-le p [] = omega arith
total-retain-le p (s ∷ ss) = ground (arith, total-retain-le p ss)

-- A weight on consumer links, by connection, channel, handle and binding generation.
abbrev pub Share : Type 0
Share = ℕ → ℕ → ℕ → ℕ → ℕ

abbrev pub share_of : Share → Subscriber → ℕ
share_of share s = share s.conn s.channel s.handle s.binding_gen

-- The demand of a subscriber, weighed, and that of all.
abbrev pub asked : Share → Subscriber → ℕ
asked share s = share_of share s * s.demand

-- The deliveries among the outputs, weighed.
abbrev pub delivered : Share → Output → ℕ
delivered share (to_conn c (deliver ch h g m b)) = share c ch h g
delivered share _ = 0

take_one : (a d : ℕ) → 0 < d → a * (d - 1) + a ≡ a * d
take_one a zero h = absurd (omega arith)
take_one a (suc d) h = let e : suc d - 1 ≡ d = omega arith in rw e (omega (arith, mul.suc a d))

asked-take_demand :
    (share : Share) (subs : List Subscriber) (idx : ℕ) (sub : Subscriber)
    → get_elem? subs idx ≡ some sub
    → 0 < demand_at subs idx
    → total (asked share) (take_demand subs idx) + share_of share sub ≡ total (asked share) subs
unfolding take_demand
asked-take_demand share [] idx sub e h = absurd (omega arith)
asked-take_demand share (s ∷ ss) zero sub e h =
    let same : s ≡ sub = ground arith in
    rw (← same) (omega (arith, take_one (share_of share s) s.demand h))
asked-take_demand share (s ∷ ss) (suc idx) sub e h =
    omega (arith, asked-take_demand share ss idx sub e h)

asked-retain-le :
    (share : Share) (p : Subscriber → Bool) (subs : List Subscriber)
    → total (asked share) (retain p subs) ≤ total (asked share) subs
asked-retain-le share p [] = omega arith
asked-retain-le share p (s ∷ ss) = ground (arith, asked-retain-le share p ss)

abbrev pub Spends : Queue → Round → Type 0
Spends q drained = Unit {0}
Spends q unwanted = Unit {0}
Spends q (sent q' outs) =
    (total_demand q' < total_demand q)
    × ((share : Share)
        → total (asked share) q'.subs + total (delivered share) outs ≤ total (asked share) q.subs)

send_to-Spends :
    (b : Bool) (q q0 : Queue) (msg : Stored) (sub : Subscriber)
    → total_demand q + 1 ≡ total_demand q0
    → ((share : Share)
        → total (asked share) q.subs + share_of share sub ≡ total (asked share) q0.subs)
    → let r = send_to b q msg sub in Spends q0 (sent r.0 r.1)
unfolding send_to without_sub requeue_orphans
send_to-Spends true q q0 msg sub h k = (omega arith, λ share. omega (arith, k share))
send_to-Spends false q q0 msg sub h k = (
  omega (arith, total-retain-le (λ s. not (s.id == sub.id)) q.subs),
  λ share. omega (arith, k share, asked-retain-le share (λ s. not (s.id == sub.id)) q.subs),
)

dispatch_ready-Spends :
    (open_at : ℕ → Bool) (q : Queue) (ms : List Stored) → Spends q (dispatch_ready open_at q ms)
unfolding dispatch_ready
dispatch_ready-Spends open_at q [] = tt
dispatch_ready-Spends open_at q (msg ∷ rest) = elim (Option-cases (pick_ready q.subs q.rr)) [
  | inl nobody ↦ rw (nobody, dispatch_picked) tt
  | inr (idx, picked) ↦
      rw (picked, dispatch_picked)
        (elim (Option-cases (get_elem? q.subs idx)) [
          | inl out ↦ rw (out, dispatch_to) tt
          | inr (sub, found) ↦
              rw (found, dispatch_to)
                (send_to-Spends (open_at sub.conn) _ q msg sub
                  (total-take_demand q.subs idx (pick_ready-some q.subs q.rr idx picked).4)
                  (λ share.
                    asked-take_demand share q.subs idx sub found
                      (pick_ready-some q.subs q.rr idx picked).4))
        ])
]

-- A round that goes on spends demand, and no less than it delivers.
pub dispatch_round-Spends : (open_at : ℕ → Bool) (q : Queue) → Spends q (dispatch_round open_at q)
unfolding dispatch_round
dispatch_round-Spends open_at q = dispatch_ready-Spends open_at q q.ready

pub get_elem?-in :
    (subs : List Subscriber) (idx : ℕ) → get_elem? subs idx ≡ none → demand_at subs idx ≡ 0
get_elem?-in [] idx h = refl
get_elem?-in (s ∷ ss) zero h = cc
get_elem?-in (s ∷ ss) (suc idx) h = get_elem?-in ss idx h

-- Nobody waits for work that is there: nothing is ready or nobody has demand.
abbrev pub IsSettled : Queue → Type 0
IsSettled q = (q.ready ≡ []) ⊎ ((idx : ℕ) → demand_at q.subs idx ≡ 0)

-- What the end of the loop says of the queue.
abbrev Ends : Queue → Round → Type 0
Ends q drained = q.ready ≡ []
Ends q unwanted = (idx : ℕ) → demand_at q.subs idx ≡ 0
Ends q (sent q' outs) = Unit {0}

dispatch_ready-Ends :
    (open_at : ℕ → Bool) (q : Queue) (ms : List Stored)
    → q.ready ≡ ms
    → Ends q (dispatch_ready open_at q ms)
unfolding dispatch_ready
dispatch_ready-Ends open_at q [] e = e
dispatch_ready-Ends open_at q (msg ∷ rest) e = elim (Option-cases (pick_ready q.subs q.rr)) [
  | inl nobody ↦ rw (nobody, dispatch_picked) (λ idx. pick_ready-none q.subs q.rr idx nobody)
  | inr (idx, picked) ↦
      rw (picked, dispatch_picked)
        (elim (Option-cases (get_elem? q.subs idx)) [
          | inl out ↦ absurd (
              omega
                (arith, (pick_ready-some q.subs q.rr idx picked).4, get_elem?-in q.subs idx out))
          | inr (sub, found) ↦ rw (found, dispatch_to) tt
        ])
]

dispatch_round-Ends : (open_at : ℕ → Bool) (q : Queue) → Ends q (dispatch_round open_at q)
unfolding dispatch_round
dispatch_round-Ends open_at q = dispatch_ready-Ends open_at q q.ready refl

-- A drain that is pending has no demand left over.
abbrev pub DrainsDone : List Subscriber → Type 0
DrainsDone = All (λ s. s.drain_pending ≡ true → s.demand ≡ 0)

pub complete_drains-DrainsDone : (subs : List Subscriber) → DrainsDone (complete_drains subs)
unfolding complete_drains
complete_drains-DrainsDone [] = tt
complete_drains-DrainsDone (s ∷ ss) = elim (Bool-cases s.drain_pending) [
  | inl pending ↦ simp pending ((λ h. refl), complete_drains-DrainsDone ss)
  | inr none_pending ↦ simp none_pending ((λ h. cc), complete_drains-DrainsDone ss)
]

pub no_demand-DrainsDone :
    (subs : List Subscriber) → ((idx : ℕ) → demand_at subs idx ≡ 0) → DrainsDone subs
no_demand-DrainsDone [] h = tt
no_demand-DrainsDone (s ∷ ss) h = ((λ pending. h 0), no_demand-DrainsDone ss (λ idx. h (suc idx)))

abbrev pub IsFinished : Queue → Type 0
IsFinished q = IsSettled q × DrainsDone q.subs

dispatch_loop-IsFinished :
    (open_at : ℕ → ℕ → Bool) (fuel : ℕ) (q : Queue)
    → total_demand q < fuel
    → IsFinished (dispatch_loop open_at fuel q).0
unfolding dispatch_loop
dispatch_loop-IsFinished open_at zero q h = absurd (omega arith)
dispatch_loop-IsFinished open_at (suc fuel) q h =
    after_round (dispatch_round at q) refl (dispatch_round-Ends at q) (dispatch_round-Spends at q)
      (λ q' less. dispatch_loop-IsFinished open_at fuel q' less)
  where
    at : ℕ → Bool
    at c = open_at c fuel

    after_round :
        (r : Round)
        → dispatch_round (λ c. open_at c fuel) q ≡ r
        → Ends q r
        → Spends q r
        → ((q' : Queue) → total_demand q' < fuel → IsFinished (dispatch_loop open_at fuel q').0)
        → IsFinished (dispatch_loop open_at (suc fuel) q).0
    after_round drained e ends spends ih =
        rw (e, dispatch_loop) (inl ends, complete_drains-DrainsDone q.subs)
    after_round unwanted e ends spends ih =
        rw (e, dispatch_loop) (inr ends, no_demand-DrainsDone q.subs ends)
    after_round (sent q' outs) e ends spends ih = rw (e, dispatch_loop) (ih q' (omega arith))

-- A dispatch runs its loop to the end: it stops with nothing ready or with nobody that has demand,
-- and every pending drain is left with no demand.
pub dispatch-IsFinished :
    (p : EffectivePolicy) (env : Env) (q : Queue) → IsFinished (dispatch p env q).0
unfolding dispatch
dispatch-IsFinished p env q =
    dispatch_loop-IsFinished env.is_open _ (expire_ready p env.dispatch_ms q).0 (omega arith)
