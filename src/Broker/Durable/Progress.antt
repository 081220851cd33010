-- ===== src/Broker/Durable/Progress.antt =====
-- ramqp-broker/src/durable.rs: the dispatch of a durable queue ends, and leaves no work undone.
use r_amqp.Common.{
  ℕ, zero, suc, ◌+◌, ◌≤◌, ◌<◌, ◌≡◌, refl, Bool, true, false, Option, none, some, [], ◌∷◌, arith,
  total, inl, inr, ◌⊎◌, get_elem?, not, ◌==◌, length, ◌%◌,
}
use r_amqp.Broker.Policy.{Body, EffectivePolicy}
use r_amqp.Broker.Dispatch.{Subscriber, pick_ready, complete_drains, demand_at}
use r_amqp.Broker.Dispatch.Pick.{pick_ready-some, pick_ready-none}
use r_amqp.Broker.Queue.Turn.{demanded, take_demand}
use r_amqp.Broker.Queue.Progress.{
  total-take_demand, total-retain-le, get_elem?-in, complete_drains-DrainsDone,
  no_demand-DrainsDone, DrainsDone,
}
use r_amqp.Broker.Durable.State.{Ready, World, Env, emit, read_body}
use r_amqp.Broker.Durable.Handle.{with_queue, release_sub}
use r_amqp.Broker.Durable.Dispatching.{
  Front, nothing, front, first_stored, send_to, Round, drained, unwanted, sent, send_front,
  send_picked, dispatch_picked, dispatch_ready, dispatch_loop, dispatch, expire_ready,
}

-- A round that goes on spends demand; one that does not leaves nothing ready, or nobody with demand.
abbrev Advances : World → Round → Type 0
Advances w (drained w') = w'.queue.ready ≡ []
Advances w (unwanted w') = (idx : ℕ) → demand_at w'.queue.subs idx ≡ 0
Advances w (sent w') = total demanded w'.queue.subs < total demanded w.queue.subs

send_to-total :
    (b : Bool) (id ms len : ℕ) (body : Body) (sub : Subscriber) (w : World)
    → total demanded (send_to b id ms len body sub w).queue.subs ≤ total demanded w.queue.subs
unfolding send_to emit release_sub
send_to-total true id ms len body sub w = omega arith
send_to-total false id ms len body sub w = total-retain-le (λ s. not (s.id == sub.id)) w.queue.subs

send_front-Advances :
    (is_open : ℕ → Bool) (idx : ℕ) (sub : Subscriber) (w : World) (f : Front)
    → 0 < demand_at w.queue.subs idx
    → Advances w (send_front is_open idx sub w f)
unfolding send_front
send_front-Advances is_open idx sub w nothing h = refl
send_front-Advances is_open idx sub w (front id ms len body rest) h = omega (
  arith,
  total-take_demand w.queue.subs idx h,
  send_to-total (is_open sub.conn) id ms len body sub (
      with_queue
        (λ q. record q {
          ready = rest;
          rr = (idx + 1) % length q.subs;
          subs = take_demand q.subs idx;
        })
        w),
)

send_picked-Advances :
    (is_open : ℕ → Bool) (read : ℕ → Option Body) (idx : ℕ) (o : Option Subscriber) (w : World)
    → get_elem? w.queue.subs idx ≡ o
    → 0 < demand_at w.queue.subs idx
    → Advances w (send_picked is_open read idx o w)
unfolding send_picked
send_picked-Advances is_open read idx none w e h =
    absurd (omega (arith, h, get_elem?-in w.queue.subs idx e))
send_picked-Advances is_open read idx (some sub) w e h =
    send_front-Advances is_open idx sub w (first_stored read w.queue.ready) h

dispatch_picked-Advances :
    (is_open : ℕ → Bool) (read : ℕ → Option Body) (o : Option ℕ) (w : World)
    → pick_ready w.queue.subs w.queue.rr ≡ o
    → Advances w (dispatch_picked is_open read o w)
unfolding dispatch_picked
dispatch_picked-Advances is_open read none w e =
    λ idx. pick_ready-none w.queue.subs w.queue.rr idx e
dispatch_picked-Advances is_open read (some idx) w e =
    send_picked-Advances is_open read idx (get_elem? w.queue.subs idx) w refl
      (pick_ready-some w.queue.subs w.queue.rr idx e).4

dispatch_ready-Advances :
    (is_open : ℕ → Bool) (read : ℕ → Option Body) (ready : Ready) (w : World)
    → w.queue.ready ≡ ready
    → Advances w (dispatch_ready is_open read ready w)
unfolding dispatch_ready
dispatch_ready-Advances is_open read [] w e = e
dispatch_ready-Advances is_open read (x ∷ rest) w e =
    dispatch_picked-Advances is_open read (pick_ready w.queue.subs w.queue.rr) w refl

-- Nothing is ready or nobody has demand, and no drain that is pending has demand left.
abbrev pub IsIdle : World → Type 0
IsIdle w =
    ((w.queue.ready ≡ []) ⊎ ((idx : ℕ) → demand_at w.queue.subs idx ≡ 0)) × DrainsDone w.queue.subs

dispatch_loop-IsIdle :
    (q : ℕ) (env : Env) (fuel : ℕ) (w : World)
    → total demanded w.queue.subs < fuel
    → IsIdle (dispatch_loop q env fuel w)
unfolding dispatch_loop
dispatch_loop-IsIdle q env zero w h = absurd (omega (arith, h))
dispatch_loop-IsIdle q env (suc fuel) w h =
    elim (dispatch_ready (λ c. env.is_open c fuel) (λ id. read_body q env id w) w.queue.ready w)
        as (λ r.
          Advances w r
          → IsIdle (elim r [
            | drained w' ↦ with_queue (λ u. record u { subs = complete_drains u.subs }) w'
            | unwanted w' ↦ w'
            | sent w' ↦ dispatch_loop q env fuel w'
          ])) [
            | drained w' ↦ (λ a. (inl a, complete_drains-DrainsDone w'.queue.subs))
            | unwanted w' ↦ (λ a. (inr a, no_demand-DrainsDone w'.queue.subs a))
            | sent w' ↦ (λ a. dispatch_loop-IsIdle q env fuel w' (omega (arith, h, a)))
          ]
      (dispatch_ready-Advances (λ c. env.is_open c fuel) (λ id. read_body q env id w) w.queue.ready
        w refl)

-- A dispatch of a durable queue runs its loop to the end: it stops with nothing ready or with nobody
-- that has demand, and every pending drain is left with no demand.
pub dispatch-IsIdle :
    (q : ℕ) (p : EffectivePolicy) (env : Env) (w : World) → IsIdle (dispatch q p env w)
unfolding dispatch
dispatch-IsIdle q p env w =
    dispatch_loop-IsIdle q env (suc (total demanded (expire_ready q p env w).queue.subs))
      (expire_ready q p env w) (omega arith)
