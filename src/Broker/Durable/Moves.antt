-- ===== src/Broker/Durable/Moves.antt =====
-- ramqp-broker/src/durable.rs: what an operation sent to the writer and a removal that waits for the
-- router do to where a message stands.
use r_amqp.Common.{
  ℕ, ◌≤◌, ◌≡◌, ◌≢◌, refl, inl, inr, arith, Bool, true, false, ◌||◌, Bool-cases, Option, none, some,
  List, [], ◌∷◌, ◌++◌, ◌==◌, ==_iff, Table, if_elim,
}
use r_amqp.Broker.Policy.{EffectivePolicy, DeadLetter}
use r_amqp.Broker.Store.{StoreOp, Row}
use r_amqp.Broker.Store.Messages.{touches, touched, touched-append}
use r_amqp.Broker.Durable.State.{
  Pending, Ready, Inflight, World, Env, submit, remove_after, dead_letter_then_remove, copies_of,
  read_body,
}
use r_amqp.Broker.Durable.Run.{contains}
use r_amqp.Broker.Durable.Entries.{At-mono, At-empty}
use r_amqp.Broker.Durable.Sound.{
  keyed, Inserts, Awaits, Safe, Kept, Answered, Told, places, Stands, Sound,
}

pub contains-append :
    (i : ℕ) (xs : List ℕ) (y : ℕ) → contains i (xs ++ (y ∷ [])) ≡ (contains i xs || y == i)
unfolding contains
contains-append i [] y = ground arith
contains-append i (x ∷ xs) y = ground (arith, contains-append i xs y)

module _ (q i : ℕ) where
  pub Awaits-append :
      (x : ℕ × ℕ) (ops : List StoreOp) (op : StoreOp)
      → touches q i op ≡ false
      → Awaits q i x ops
      → Awaits q i x (ops ++ (op ∷ []))
  Awaits-append x [] op e h = elim h [ ]
  Awaits-append x (o ∷ ops) op e (inl (new, rest)) =
      inl (new, ground (arith, touched-append q i ops (op ∷ []), e, rest))
  Awaits-append x (o ∷ ops) op e (inr (other, later)) = inr (other, Awaits-append x ops op e later)

  pub Awaits-new :
      (x : ℕ × ℕ) (ops : List StoreOp) (op : StoreOp)
      → touched q i ops ≡ false
      → Inserts q i x op
      → Awaits q i x (ops ++ (op ∷ []))
  Awaits-new x [] op e new = inl (new, refl)
  Awaits-new x (o ∷ ops) op e new =
      inr (ground (arith, e), Awaits-new x ops op (ground (arith, e)) new)

  module _ (ready : Ready) (inflight : Inflight) (commits : List Pending) (next : ℕ)
      (messages : Table Row) where
    -- Both lists may change in a way that keeps what holds of the message.
    pub Stands-moves :
        (waiting waiting' : List StoreOp) (deferred deferred' : List ℕ)
        → (touched q i waiting ≡ false → touched q i waiting' ≡ false)
        → (contains i deferred ≡ false → contains i deferred' ≡ false)
        → ((x : ℕ × ℕ) → Awaits q i x waiting → Awaits q i x waiting')
        → Stands q i ready inflight commits next waiting deferred messages
        → Stands q i ready inflight commits next waiting' deferred' messages
    Stands-moves ops ops' ids ids' f g k s = record {
      once = s.once;
      lone = s.lone;
      of_ready =
          At-mono i (Safe q i ops ids messages) (Safe q i ops' ids' messages) safe ready s.of_ready;
      of_inflight =
          At-mono i (Kept q i ops ids messages) (Kept q i ops' ids' messages) (λ v. safe v.1)
            inflight s.of_inflight;
      of_commits =
          At-mono i (Told q i ops ids messages) (Told q i ops' ids' messages)
            (λ c. answered (c.enqueued_ms, c.len) c.answer) (keyed commits) s.of_commits;
      none_ahead = s.none_ahead;
      untouched_ahead = λ h. f (s.untouched_ahead h);
      undeferred_ahead = λ h. g (s.undeferred_ahead h);
    }
      where
        safe : (x : ℕ × ℕ) → Safe q i ops ids messages x → Safe q i ops' ids' messages x
        safe x (d, (t, c)) = (d, (f t, g c))

        answered :
            (x : ℕ × ℕ) (a : Option Bool)
            → Answered q i ops ids messages x a
            → Answered q i ops' ids' messages x a
        answered x none (w, c) = (k x w, g c)
        answered x (some true) h = safe x h
        answered x (some false) (t, c) = (f t, g c)

    pub Stands-waits :
        (waiting : List StoreOp) (deferred : List ℕ) (op : StoreOp)
        → touches q i op ≡ false
        → Stands q i ready inflight commits next waiting deferred messages
        → Stands q i ready inflight commits next (waiting ++ (op ∷ [])) deferred messages
    Stands-waits ops ids op e =
        Stands-moves ops (ops ++ (op ∷ [])) ids ids
          (λ h. ground (arith, touched-append q i ops (op ∷ []), e, h)) (λ h. h)
          (λ x. Awaits-append x ops op e)

    pub Stands-defers :
        (waiting : List StoreOp) (deferred : List ℕ) (id : ℕ)
        → id ≢ i
        → Stands q i ready inflight commits next waiting deferred messages
        → Stands q i ready inflight commits next waiting (deferred ++ (id ∷ [])) messages
    Stands-defers ops ids id e =
        Stands-moves ops ops ids (ids ++ (id ∷ [])) (λ h. h)
          (λ h. ground (arith, contains-append i ids id, h, e, ==_iff id i)) (λ x h. h)

    -- Of a message that stands nowhere, anything may wait.
    pub Stands-gone :
        (waiting waiting' : List StoreOp) (deferred deferred' : List ℕ)
        → places q i ready inflight commits ≡ 0
        → i ≤ next
        → Stands q i ready inflight commits next waiting deferred messages
        → Stands q i ready inflight commits next waiting' deferred' messages
    Stands-gone ops ops' ids ids' e le s = record {
      once = s.once;
      lone = s.lone;
      of_ready = At-empty i (Safe q i ops' ids' messages) ready (omega (arith, e));
      of_inflight = At-empty i (Kept q i ops' ids' messages) inflight (omega (arith, e));
      of_commits = At-empty i (Told q i ops' ids' messages) (keyed commits) (omega (arith, e));
      none_ahead = s.none_ahead;
      untouched_ahead = λ h. let impossible : ⊥ = omega (arith, h, le) in elim impossible [ ];
      undeferred_ahead = λ h. let impossible : ⊥ = omega (arith, h, le) in elim impossible [ ];
    }

  -- If it is the message, then it stands nowhere, and its id has been given out.
  abbrev pub Spare : ℕ → World → Type 0
  Spare id w =
      id ≡ i
      → (places q i w.queue.ready w.queue.inflight w.queue.commits ≡ 0) × (i ≤ w.queue.next_msg_id)

  pub submit-Sound :
      (env : Env) (op : StoreOp) (w : World)
      → (touches q i op ≡ true → Spare i w)
      → Sound q i w
      → Sound q i (submit env op w)
  unfolding submit
  submit-Sound env op w f s =
      if_elim (Sound q i) (λ x. x) env.writer_up (record w { waiting = w.waiting ++ (op ∷ []) }) w
        (elim (Bool-cases (touches q i op)) [
          | inr e ↦
              Stands-waits w.queue.ready w.queue.inflight w.queue.commits w.queue.next_msg_id
                w.tables.messages w.waiting w.deferred op e s
          | inl e ↦
              Stands-gone w.queue.ready w.queue.inflight w.queue.commits w.queue.next_msg_id
                w.tables.messages w.waiting (w.waiting ++ (op ∷ [])) w.deferred w.deferred
                (f e refl).0 (f e refl).1 s
        ])
        s

  pub remove-Sound :
      (env : Env) (id : ℕ) (w : World)
      → Spare id w
      → Sound q i w
      → Sound q i (submit env (StoreOp.remove q id) w)
  remove-Sound env id w f s =
      submit-Sound env (StoreOp.remove q id) w (λ e same. f (ground (arith, e, ==_iff id i))) s

  remove_after-Sound :
      (env : Env) (id : ℕ) (copies : List DeadLetter) (w : World)
      → Spare id w
      → Sound q i w
      → Sound q i (remove_after q env id copies w)
  unfolding remove_after
  remove_after-Sound env id [] w f s = remove-Sound env id w f s
  remove_after-Sound env id (copy ∷ copies) w f s = elim (Bool-cases (id == i)) [
    | inr e ↦
        Stands-defers w.queue.ready w.queue.inflight w.queue.commits w.queue.next_msg_id
          w.tables.messages w.waiting w.deferred id (ground (arith, e, ==_iff id i)) s
    | inl e ↦
        let spare = f ((==_iff id i).0 e) in
        Stands-gone w.queue.ready w.queue.inflight w.queue.commits w.queue.next_msg_id
          w.tables.messages w.waiting w.waiting w.deferred (w.deferred ++ (id ∷ [])) spare.0 spare.1
          s
  ]

  pub dead_letter_then_remove-Sound :
      (p : EffectivePolicy) (env : Env) (id : ℕ) (w : World)
      → Spare id w
      → Sound q i w
      → Sound q i (dead_letter_then_remove q p env id w)
  unfolding dead_letter_then_remove
  dead_letter_then_remove-Sound p env id w =
      remove_after-Sound env id (copies_of p (read_body q env id w)) w
