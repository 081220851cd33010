-- ===== src/Broker/Dispatch/Pick.antt =====
-- What the round-robin pick of `Broker.Dispatch` returns.
use r_amqp.Common.{
  ℕ, zero, suc, ◌+◌, ◌%◌, ◌≤◌, ◌<◌, ◌≡◌, refl, none, some, List, [], ◌∷◌, arith, length, ltb, inl,
  inr, Bool-cases, ==_iff, ◌==◌, ◌-◌, sym, ap, ◌∙◌,
}
use r_amqp.Broker.Dispatch.{Subscriber, demand_at, pick_from, pick_ready}
use native.Mathlib.Nat.{mod-lt, mod-add-mod, add-mod-mod, mod-eq-sub-mod, mod-eq_of_lt}

-- A pick is an index in range whose subscriber has demand, reached after `i ≤ d` steps, and the
-- steps before it met no demand.
abbrev pub IsPick : List Subscriber → ℕ → ℕ → ℕ → ℕ → Type 0
IsPick subs rr i k idx =
    (d : ℕ) × (i ≤ d)
    × (d < i + k)
    × (idx ≡ (rr + d) % length subs)
    × (0 < demand_at subs idx)
    × ((j : ℕ) → i ≤ j → j < d → demand_at subs ((rr + j) % length subs) ≡ 0)

pick_from-some :
    (subs : List Subscriber) (rr k i idx : ℕ)
    → pick_from subs rr k i ≡ some idx
    → IsPick subs rr i k idx
unfolding pick_from
pick_from-some subs rr zero i idx h = cc
pick_from-some subs rr (suc k) i idx h =
    elim (Bool-cases (ltb 0 (demand_at subs ((rr + i) % length subs)))) [
      | inl has ↦
          let e : idx ≡ (rr + i) % length subs = ground arith in
          (i, omega arith, omega arith, e, rw e (ground arith), λ j lo hi. absurd (omega arith))
      | inr dry ↦
          let (d, lo, hi, e, pos, before) = pick_from-some subs rr k (i + 1) idx (rw dry at h) in
          (
            d,
            omega arith,
            omega arith,
            e,
            pos,
            λ j jlo jhi. elim (Bool-cases (i == j)) [
              | inl same ↦ rw (← (==_iff i j).0 same) (ground arith)
              | inr differ ↦ before j (ground arith) jhi
            ],
          )
    ]

-- A pick of the round robin is an index in the scan from rr on whose subscriber has demand, and
-- every index that the scan met before it has none.
pub pick_ready-some :
    (subs : List Subscriber) (rr idx : ℕ)
    → pick_ready subs rr ≡ some idx
    → IsPick subs rr 0 (length subs) idx
unfolding pick_ready
pick_ready-some subs rr idx h = pick_from-some subs rr (length subs) 0 idx h

pick_from-none :
    (subs : List Subscriber) (rr k i j : ℕ)
    → pick_from subs rr k i ≡ none
    → i ≤ j
    → j < i + k
    → demand_at subs ((rr + j) % length subs) ≡ 0
unfolding pick_from
pick_from-none subs rr zero i j h lo hi = absurd (omega arith)
pick_from-none subs rr (suc k) i j h lo hi =
    elim (Bool-cases (ltb 0 (demand_at subs ((rr + i) % length subs)))) [
      | inl has ↦ absurd (ground arith)
      | inr dry ↦ elim (Bool-cases (i == j)) [
        | inl same ↦ rw (← (==_iff i j).0 same) (ground arith)
        | inr differ ↦ pick_from-none subs rr k (i + 1) j (rw dry at h) (ground arith) (omega arith)
      ]
    ]

-- The step at which the scan from `rr` comes to `idx`.
steps_to : ℕ → ℕ → ℕ → ℕ
steps_to n rr idx = (idx + (n - rr % n)) % n

steps_to_lem : (n rr idx : ℕ) → idx < n → (rr + steps_to n rr idx) % n ≡ idx
unfolding steps_to
steps_to_lem n rr idx h =
    add-mod-mod rr (idx + (n - rr % n)) n
    ∙ sym (mod-add-mod rr n (idx + (n - rr % n)))
    ∙ ap (λ (t : ℕ). t % n) whole
    ∙ grind (arith, mod-eq-sub-mod, mod-eq_of_lt)
  where
    whole : rr % n + (idx + (n - rr % n)) ≡ idx + n
    whole = omega (arith, mod-lt rr {m = n} (omega arith))

demand_at_beyond : (subs : List Subscriber) (idx : ℕ) → length subs ≤ idx → demand_at subs idx ≡ 0
demand_at_beyond [] idx h = refl
demand_at_beyond (s ∷ ss) zero h = absurd (omega arith)
demand_at_beyond (s ∷ ss) (suc idx) h = demand_at_beyond ss idx (omega arith)

-- When the round robin picks nobody, no subscriber has demand, wherever the scan started.
pub pick_ready-none :
    (subs : List Subscriber) (rr idx : ℕ) → pick_ready subs rr ≡ none → demand_at subs idx ≡ 0
unfolding pick_ready steps_to
pick_ready-none subs rr idx h = elim (Bool-cases (ltb idx (length subs))) [
  | inl inside ↦ rw (← steps_to_lem (length subs) rr idx (ground arith)) (
      pick_from-none subs rr (length subs) 0 (steps_to (length subs) rr idx) h (omega arith)
        (ground arith))
  | inr beyond ↦ demand_at_beyond subs idx (ground arith)
]
