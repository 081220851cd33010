-- ===== src/Broker/Durable/Restarting.antt =====
-- ramqp-broker/src/durable.rs: where a message stands after a crash, in the recovered queue.
use r_amqp.Common.{
  ℕ, ◌≤◌, ◌<◌, ◌≡◌, refl, subst, inl, inr, arith, true, false, ◌&&◌, Bool-cases, Option, none, some,
  [], ◌∷◌, ◌==◌, ==_iff, length, find, Table, get,
}
use r_amqp.Broker.Store.{Row, scan}
use r_amqp.Broker.Store.Messages.{rows_at, Describes}
use r_amqp.Broker.Durable.Ordered.{get-insert_ordered}
use r_amqp.Broker.Durable.State.{World}
use r_amqp.Broker.Durable.Run.{recovered_ready, max_id, recover, restart, contains}
use r_amqp.Broker.Durable.Entries.{
  occurrences, At, At-mono, At-empty, occurrences-insert_ordered, At-insert_ordered,
}
use r_amqp.Broker.Durable.Sound.{Safe, Sound}

-- The time and the length that a row is recovered with.
abbrev pub head_of : Option Row → Option (ℕ × ℕ)
head_of none = none
head_of (some r) = some (r.enqueued_ms, length r.body)

module _ (q i : ℕ) where
  pub get-recovered : (t : Table Row) → get i (recovered_ready (scan q t)) ≡ head_of (find q i t)
  unfolding recovered_ready scan
  get-recovered [] = refl
  get-recovered (((c, d), r) ∷ t) = elim (Bool-cases (c == q)) [
    | inl e ↦ rw e (
        ground (
          arith,
          e,
          get-recovered t,
          get-insert_ordered i d (r.enqueued_ms, length r.body) (recovered_ready (scan q t)),
        ))
    | inr e ↦ rw e (ground (arith, e, get-recovered t))
  ]

  occurrences-recovered :
      (t : Table Row) → occurrences i (recovered_ready (scan q t)) ≤ rows_at q i t
  unfolding recovered_ready scan
  occurrences-recovered [] = ground arith
  occurrences-recovered (((c, d), r) ∷ t) = elim (Bool-cases (c == q)) [
    | inl e ↦ rw e (
        ground (
          arith,
          occurrences-recovered t,
          occurrences-insert_ordered i d (r.enqueued_ms, length r.body)
              (recovered_ready (scan q t)),
        ))
    | inr e ↦ rw e (ground (arith, occurrences-recovered t))
  ]

  At-recovered :
      (t : Table Row)
      → rows_at q i t ≤ 1
      → At i (λ x. Describes x (find q i t)) (recovered_ready (scan q t))
  unfolding recovered_ready scan
  At-recovered [] h = tt
  At-recovered (((c, d), r) ∷ t) h = elim (Bool-cases (c == q)) [
    | inl e ↦
        subst (λ rows. At i P (recovered_ready rows)) (added e)
          (At-insert_ordered i P d (r.enqueued_ms, length r.body) (recovered_ready (scan q t))
            (λ same. subst (Describes (r.enqueued_ms, length r.body)) (here e same) (refl, refl))
            (later (At-recovered t)))
    | inr e ↦ subst (λ rows. At i P (recovered_ready rows)) (skipped e) (later (At-recovered t))
  ]
    where
      P : ℕ × ℕ → Type 0
      P x = Describes x (find q i (((c, d), r) ∷ t))

      here : (c == q) ≡ true → d ≡ i → some r ≡ find q i (((c, d), r) ∷ t)
      here e same = ground (arith, e, same, ==_iff d i)

      added :
          (c == q) ≡ true
          → (d, (r.failures, (r.enqueued_ms, length r.body))) ∷ scan q t ≡ scan q (((c, d), r) ∷ t)
      added e = ground (arith, e)

      skipped : (c == q) ≡ false → scan q t ≡ scan q (((c, d), r) ∷ t)
      skipped e = ground (arith, e)

      later :
          (rows_at q i t ≤ 1 → At i (λ x. Describes x (find q i t)) (recovered_ready (scan q t)))
          → At i P (recovered_ready (scan q t))
      later ih = elim (Bool-cases (c == q && d == i)) [
        | inl e ↦
            At-empty i P (recovered_ready (scan q t))
              (ground (arith, occurrences-recovered t, h, e))
        | inr e ↦
            subst (λ o. At i (λ x. Describes x o) (recovered_ready (scan q t))) (ground (arith, e))
              (ih (ground (arith, h)))
      ]

  max_id-recovered : (t : Table Row) → max_id (scan q t) < i → rows_at q i t ≡ 0
  unfolding max_id scan
  max_id-recovered [] h = refl
  max_id-recovered (((c, d), r) ∷ t) h = elim (Bool-cases (c == q)) [
    | inl e ↦ ground (arith, e, h, max_id-recovered t, ==_iff d i)
    | inr e ↦ ground (arith, e, h, max_id-recovered t)
  ]

  pub restart-Sound : (w : World) → rows_at q i w.tables.messages ≤ 1 → Sound q i (restart q w)
  unfolding restart recover contains
  restart-Sound w one =
      let n = occurrences-recovered w.tables.messages in
      record {
        once = one;
        lone = omega (arith, n, one);
        of_ready =
            At-mono i (λ x. Describes x (find q i w.tables.messages))
              (Safe q i [] [] w.tables.messages) (λ x h. (h, (refl, refl)))
              (recovered_ready (scan q w.tables.messages)) (At-recovered w.tables.messages one);
        of_inflight = tt;
        of_commits = tt;
        none_ahead = λ h. let e = max_id-recovered w.tables.messages h in omega (arith, n, e);
        untouched_ahead = λ h. refl;
        undeferred_ahead = λ h. refl;
      }
