-- ===== src/Broker/Durable/Resolving.antt =====
-- ramqp-broker/src/durable.rs: where a message stands after the answer to a publish is taken, and after
-- the answer of the dead-letter router.
use r_amqp.Common.{
  ℕ, zero, suc, ◌+◌, ◌≡◌, refl, ap, subst, inl, inr, arith, Bool, true, false, Bool-cases, Option,
  none, some, List, [], ◌∷◌, ◌==◌, if◌then◌else◌, ==_iff, get_elem?, ◌∙◌,
}
use r_amqp.Broker.Policy.{EffectivePolicy}
use r_amqp.Broker.Store.{StoreOp}
use r_amqp.Broker.Store.Messages.{touches}
use r_amqp.Broker.Durable.State.{Pending, World, Env, emit}
use r_amqp.Broker.Durable.Handle.{with_queue, resolve_commit}
use r_amqp.Broker.Durable.Run.{contains, take_commit, release_deferred, concerns}
use r_amqp.Common.{remove_at}
use r_amqp.Broker.Durable.Dispatching.{dispatch}
use r_amqp.Broker.Durable.Entries.{occurrences, At}
use r_amqp.Broker.Durable.Sound.{keyed, Safe, Kept, Answered, Told, Sound}
use r_amqp.Broker.Durable.Moves.{Stands-moves, Spare, remove-Sound}
use r_amqp.Broker.Durable.Turns.{Stands-places}
use r_amqp.Broker.Durable.Settling.{Stands-enter}
use r_amqp.Broker.Durable.Serving.{dispatch-Sound}

contains-remove_at :
    (i n : ℕ) (ids : List ℕ) → contains i ids ≡ false → contains i (remove_at n ids) ≡ false
unfolding contains
contains-remove_at i n [] h = refl
contains-remove_at i zero (j ∷ ids) h = ground (arith, h)
contains-remove_at i (suc n) (j ∷ ids) h = ground (arith, h, contains-remove_at i n ids)

contains-get_elem? : (i n : ℕ) (ids : List ℕ) → get_elem? ids n ≡ some i → contains i ids ≡ true
unfolding contains
contains-get_elem? i n [] h = let impossible : ⊥ = ground (arith, h) in elim impossible [ ]
contains-get_elem? i zero (j ∷ ids) h = ground (arith, h)
contains-get_elem? i (suc n) (j ∷ ids) h = ground (arith, contains-get_elem? i n ids h)

-- Of a list where every entry is impossible, no entry has the key.
At-absurd :
    {V : Type 0} (i : ℕ) (P : V → Type 0) (m : List (ℕ × V))
    → ((v : V) → P v → ⊥)
    → At i P m
    → occurrences i m ≡ 0
At-absurd i P [] f h = refl
At-absurd i P ((k, v) ∷ m) f (h, hs) = elim (Bool-cases (k == i)) [
  | inl same ↦ elim (f v (h ((==_iff k i).0 same))) [ ]
  | inr other ↦ ground (arith, other, At-absurd i P m f hs)
]

module _ (i : ℕ) where
  occurrences-remove_at :
      (n : ℕ) (cs : List Pending) (c : Pending)
      → get_elem? cs n ≡ some c
      → occurrences i (keyed (remove_at n cs)) + (if c.msg_id == i then 1 else 0)
        ≡ occurrences i (keyed cs)
  occurrences-remove_at n [] c e = let impossible : ⊥ = ground (arith, e) in elim impossible [ ]
  occurrences-remove_at zero (d ∷ cs) c e =
      let same : d ≡ c = ground (arith, e) in rw same (ground arith)
  occurrences-remove_at (suc n) (d ∷ cs) c e = ground (arith, occurrences-remove_at n cs c e)

  At-remove_at :
      (P : Pending → Type 0) (n : ℕ) (cs : List Pending)
      → At i P (keyed cs)
      → At i P (keyed (remove_at n cs))
  At-remove_at P n [] h = tt
  At-remove_at P zero (d ∷ cs) (h, hs) = hs
  At-remove_at P (suc n) (d ∷ cs) (h, hs) = (h, At-remove_at P n cs hs)

  pub At-get_elem? :
      (P : Pending → Type 0) (n : ℕ) (cs : List Pending) (c : Pending)
      → get_elem? cs n ≡ some c
      → At i P (keyed cs)
      → c.msg_id ≡ i
      → P c
  At-get_elem? P n [] c e h same = let impossible : ⊥ = ground (arith, e) in elim impossible [ ]
  At-get_elem? P zero (d ∷ cs) c e (h, hs) same =
      let at : d ≡ c = ground (arith, e) in subst (λ u. u.msg_id ≡ i → P u) at h same
  At-get_elem? P (suc n) (d ∷ cs) c e (h, hs) same = At-get_elem? P n cs c e hs same

module _ (q i : ℕ) where
  resolve_commit-Sound :
      (c : Pending) (ok : Bool) (w : World)
      → Spare q i c.msg_id w
      → (c.msg_id ≡ i
          → ok ≡ true
          → Safe q i w.waiting w.deferred w.tables.messages (c.enqueued_ms, c.len))
      → Sound q i w
      → Sound q i (resolve_commit c ok w)
  unfolding resolve_commit emit
  resolve_commit-Sound c true w f g s =
      Stands-enter q i w.queue.ready w.queue.inflight w.queue.commits w.queue.next_msg_id w.waiting
        w.deferred w.tables.messages c.msg_id (c.enqueued_ms, c.len) f (λ e. g e refl) s
  resolve_commit-Sound c false w f g s = s

  pub take_commit-Sound :
      (p : EffectivePolicy) (env : Env) (n : ℕ) (o : Option Pending) (w : World)
      → get_elem? w.queue.commits n ≡ o
      → Sound q i w
      → Sound q i (take_commit q p env n o w)
  unfolding take_commit
  take_commit-Sound p env n none w e s = s
  take_commit-Sound p env n (some c) w e s =
      elim c.answer
          as (λ a.
            c.answer ≡ a
            → Sound q i
                (elim a [ none ↦ w | some ok ↦ dispatch q p env (resolve_commit c ok taken) ])) [
                  | none ↦ (λ _. s)
                  | some ok ↦ (λ answered. dispatch-Sound q i p env (resolve_commit c ok taken) (
                      resolve_commit-Sound c ok taken spare
                        (λ same good.
                          subst
                            (Answered q i w.waiting w.deferred w.tables.messages
                              (c.enqueued_ms, c.len))
                            (answered ∙ ap some good) (told same))
                        (Stands-places q i w.queue.next_msg_id w.waiting w.deferred
                          w.tables.messages w.queue.ready w.queue.ready w.queue.inflight
                          w.queue.inflight w.queue.commits (remove_at n w.queue.commits)
                          (ground (arith, gone)) s.of_ready s.of_inflight
                          (At-remove_at i (Told q i w.waiting w.deferred w.tables.messages) n
                            w.queue.commits s.of_commits)
                          s)))
                ]
        refl
    where
      taken : World
      taken = with_queue (λ u. record u { commits = remove_at n u.commits }) w

      gone :
          occurrences i (keyed (remove_at n w.queue.commits)) + (if c.msg_id == i then 1 else 0)
          ≡ occurrences i (keyed w.queue.commits)
      gone = occurrences-remove_at i n w.queue.commits c e

      spare : Spare q i c.msg_id taken
      spare same = (
        ground (arith, gone, same, s.lone, ==_iff c.msg_id i),
        ground (arith, s.none_ahead, gone, same, ==_iff c.msg_id i),
      )

      told : c.msg_id ≡ i → Told q i w.waiting w.deferred w.tables.messages c
      told =
          At-get_elem? i (Told q i w.waiting w.deferred w.tables.messages) n w.queue.commits c e
            s.of_commits

  deferred-Spare : (w : World) → contains i w.deferred ≡ true → Sound q i w → Spare q i i w
  deferred-Spare w there s same =
      let a =
        At-absurd i (Safe q i w.waiting w.deferred w.tables.messages) w.queue.ready
          (λ x h. safe x h) s.of_ready in
      let b =
        At-absurd i (Kept q i w.waiting w.deferred w.tables.messages) w.queue.inflight
          (λ v h. safe v.1 h) s.of_inflight in
      let d =
        At-absurd i (Told q i w.waiting w.deferred w.tables.messages) (keyed w.queue.commits)
          (λ c h. told (c.enqueued_ms, c.len) c.answer h) s.of_commits in
      (omega (arith, a, b, d), ground (arith, s.undeferred_ahead, there))
    where
      safe : (x : ℕ × ℕ) → Safe q i w.waiting w.deferred w.tables.messages x → ⊥
      safe x (h, (t, c)) = ground (arith, c, there)

      told :
          (x : ℕ × ℕ) (a : Option Bool)
          → Answered q i w.waiting w.deferred w.tables.messages x a
          → ⊥
      told x none (a, c) = ground (arith, c, there)
      told x (some true) (h, (t, c)) = ground (arith, c, there)
      told x (some false) (t, c) = ground (arith, c, there)

  pub release_deferred-Sound :
      (env : Env) (n : ℕ) (o : Option ℕ) (w : World)
      → get_elem? w.deferred n ≡ o
      → Sound q i w
      → Sound q i (release_deferred q env n o w)
  unfolding release_deferred
  release_deferred-Sound env n none w e s = s
  release_deferred-Sound env n (some id) w e s =
      remove-Sound q i env id (record w { deferred = remove_at n w.deferred })
        (λ same.
          deferred-Spare w
            (contains-get_elem? i n w.deferred
              (subst (λ j. get_elem? w.deferred n ≡ some j) same e))
            s refl)
        (Stands-moves q i w.queue.ready w.queue.inflight w.queue.commits w.queue.next_msg_id
          w.tables.messages w.waiting w.waiting w.deferred (remove_at n w.deferred) (λ h. h)
          (contains-remove_at i n w.deferred) (λ x h. h) s)

  pub untouched-concerns : (op : StoreOp) → concerns q op ≡ false → touches q i op ≡ false
  unfolding concerns
  untouched-concerns (StoreOp.insert q' id ms body done) h = ground (arith, h)
  untouched-concerns (StoreOp.remove q' id) h = ground (arith, h)
  untouched-concerns (StoreOp.fail q' id) h = refl
  untouched-concerns (StoreOp.raft_append g es done) h = refl
  untouched-concerns (StoreOp.raft_vote g v done) h = refl
  untouched-concerns (StoreOp.raft_truncate g s done) h = refl
  untouched-concerns (StoreOp.raft_purge g u m done) h = refl
  untouched-concerns (StoreOp.raft_snapshot g m b done) h = refl
