-- ===== src/Broker/Durable/Entries.antt =====
-- The entries of a key in an association list: how many there are, and what holds of each.
use r_amqp.Common.{
  ℕ, ◌+◌, ◌≤◌, ◌≡◌, inl, inr, arith, Bool-cases, some, List, [], ◌∷◌, ◌++◌, ◌==◌, if◌then◌else◌,
  ==_iff, get, remove, subst, ltb, if_elim,
}
use r_amqp.Broker.Durable.Ordered.{insert_ordered}

module _ {ℓ} {V : Type ℓ} (i : ℕ) where
  abbrev pub occurrences : List (ℕ × V) → ℕ
  occurrences [] = 0
  occurrences ((k, v) ∷ m) = (if k == i then 1 else 0) + occurrences m

  abbrev pub At : (V → Type 0) → List (ℕ × V) → Type 0
  At P [] = Unit {0}
  At P ((k, v) ∷ m) = (k ≡ i → P v) × At P m

  pub At-mono : (P Q : V → Type 0) → ((v : V) → P v → Q v) → (m : List (ℕ × V)) → At P m → At Q m
  At-mono P Q f [] h = h
  At-mono P Q f ((k, v) ∷ m) (h, hs) = (λ e. f v (h e), At-mono P Q f m hs)

  -- Of no entry anything holds.
  pub At-empty : (P : V → Type 0) (m : List (ℕ × V)) → occurrences m ≡ 0 → At P m
  At-empty P [] e = tt
  At-empty P ((k, v) ∷ m) e = (
    λ same. let impossible : ⊥ = ground (arith, e, same, ==_iff k i) in elim impossible [ ],
    At-empty P m (omega (arith, e)),
  )

  pub At-get : (P : V → Type 0) (m : List (ℕ × V)) (v : V) → At P m → get i m ≡ some v → P v
  At-get P [] v h e = let impossible : ⊥ = ground (arith, e) in elim impossible [ ]
  At-get P ((k, w) ∷ m) v (h, hs) e = elim (Bool-cases (k == i)) [
    | inl same ↦ let at : w ≡ v = ground (arith, e, same) in subst P at (h ((==_iff k i).0 same))
    | inr other ↦ At-get P m v hs (ground (arith, e, other))
  ]

  pub occurrences-get : (m : List (ℕ × V)) (v : V) → get i m ≡ some v → 1 ≤ occurrences m
  occurrences-get [] v e = ground (arith, e)
  occurrences-get ((k, w) ∷ m) v e = ground (arith, e, occurrences-get m v)

  pub occurrences-append :
      (m n : List (ℕ × V)) → occurrences (m ++ n) ≡ occurrences m + occurrences n
  occurrences-append [] n = ground arith
  occurrences-append ((k, v) ∷ m) n = ground (arith, occurrences-append m n)

  pub At-append : (P : V → Type 0) (m n : List (ℕ × V)) → At P m → At P n → At P (m ++ n)
  At-append P [] n h h' = h'
  At-append P ((k, v) ∷ m) n (h, hs) h' = (h, At-append P m n hs h')

  pub occurrences-remove :
      (k : ℕ) (m : List (ℕ × V)) → occurrences (remove k m) ≡ (if k == i then 0 else occurrences m)
  occurrences-remove k [] = ground arith
  occurrences-remove k ((j, v) ∷ m) =
      ground (arith, occurrences-remove k m, ==_iff k i, ==_iff j k, ==_iff j i)

  pub At-remove : (P : V → Type 0) (k : ℕ) (m : List (ℕ × V)) → At P m → At P (remove k m)
  At-remove P k [] h = tt
  At-remove P k ((j, v) ∷ m) (h, hs) =
      if_elim (At P) (λ x. x) (j == k) (remove k m) ((j, v) ∷ remove k m) (At-remove P k m hs)
        (h, At-remove P k m hs)

  pub occurrences-insert_ordered :
      (k : ℕ) (v : V) (m : List (ℕ × V))
      → occurrences (insert_ordered k v m) ≤ (if k == i then 1 else 0) + occurrences m
  occurrences-insert_ordered k v [] = ground arith
  occurrences-insert_ordered k v ((j, w) ∷ m) = ground (arith, occurrences-insert_ordered k v m)

  pub At-insert_ordered :
      (P : V → Type 0) (k : ℕ) (v : V) (m : List (ℕ × V))
      → (k ≡ i → P v)
      → At P m
      → At P (insert_ordered k v m)
  At-insert_ordered P k v [] p h = (p, tt)
  At-insert_ordered P k v ((j, w) ∷ m) p (h, hs) =
      if_elim (At P) (λ x. x) (ltb k j) ((k, v) ∷ (j, w) ∷ m)
        (if j == k then (k, v) ∷ m else (j, w) ∷ insert_ordered k v m) (p, (h, hs))
        (if_elim (At P) (λ x. x) (j == k) ((k, v) ∷ m) ((j, w) ∷ insert_ordered k v m) (p, hs)
          (h, At-insert_ordered P k v m p hs))
